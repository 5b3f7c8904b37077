-- ===== src/Tcp/Framing.antt =====
-- src/lib/tcp/tcp_session.cpp: what is written can be read.
use netsim.Prelude.{
  ℕ, zero, suc, ◌≤◌, ◌≡◌, refl, ap, sym, ◌∙◌, subst, true, false, ◌||◌, List, [], ◌∷◌, ◌++◌, map,
  All, append_assoc, ◌==◌, arith, length, flatten, ==_iff, if-true, if-false,
}
use netsim.Prelude.Text.{Text}
use netsim.Tcp.{
  Message, getline, erase_all, end_of_line, delimiter, has_char, frame, read_one, read,
}

-- A line without the character ends at the character.
getline-append :
    (c : ℕ) (xs rest : Text) → has_char c xs ≡ false → getline c (xs ++ c ∷ rest) ≡ (xs, rest)
unfolding getline
getline-append c [] rest h = if-true (c == c) ([], rest) _ ((==_iff c c).1 refl)
getline-append c (x ∷ xs) rest h =
    let other : (x == c) ≡ false = ground (arith, h) in
    let tail : has_char c xs ≡ false = ground (arith, h) in
    let ih = getline-append c xs rest tail in
    if-false (x == c) _ _ other ∙ ap (λ (p : Text × Text). (x ∷ p.0, p.1)) ih

has_char-erase_all : (c : ℕ) (xs : Text) → has_char c (erase_all c xs) ≡ false
unfolding erase_all
has_char-erase_all c [] = refl
has_char-erase_all c (x ∷ xs) = ground (arith, has_char-erase_all c xs)

has_char-append : (c : ℕ) (xs ys : Text) → has_char c (xs ++ ys) ≡ (has_char c xs || has_char c ys)
has_char-append c [] ys = refl
has_char-append c (x ∷ xs) ys = ground (arith, has_char-append c xs ys)

module _ (b64_encode b64_decode : Text → Text) where
  -- What DCCL's documentation says of base64: the newlines in it mean nothing.
  abbrev pub DecodesEncoded : Type 0
  DecodesEncoded = (t : Text) → b64_decode (erase_all end_of_line (b64_encode t)) ≡ t

  -- A type's full name has no delimiter in it.
  abbrev pub IsNamed : Message → Type 0
  IsNamed m = has_char delimiter m.pb_name ≡ false

  abbrev coded : Message → Text
  coded m = erase_all end_of_line (b64_encode m.pb_data)

  -- A frame and what follows it, without the preamble.
  abbrev behind : Message → Text → Text
  behind m rest = m.pb_name ++ delimiter ∷ (coded m ++ end_of_line ∷ rest)

  layout :
      (m : Message) (rest : Text)
      → frame b64_encode b64_decode m ++ rest
        ≡ b'N' ∷ b'E' ∷ b'T' ∷ b'S' ∷ b'I' ∷ b'M' ∷ delimiter ∷ behind m rest
  unfolding frame
  layout m rest =
      ap (λ l. b'N' ∷ b'E' ∷ b'T' ∷ b'S' ∷ b'I' ∷ b'M' ∷ delimiter ∷ l)
        (append_assoc m.pb_name (delimiter ∷ (coded m ++ end_of_line ∷ [])) rest
          ∙ ap (λ l. m.pb_name ++ delimiter ∷ l) (append_assoc (coded m) (end_of_line ∷ []) rest))

  behind_preamble :
      (m : Message) (rest : Text)
      → getline delimiter (frame b64_encode b64_decode m ++ rest)
        ≡ (b'N' ∷ b'E' ∷ b'T' ∷ b'S' ∷ b'I' ∷ b'M' ∷ [], behind m rest)
  unfolding getline
  behind_preamble m rest = ap (getline delimiter) (layout m rest)

  read_one-frame :
      (m : Message) (rest : Text)
      → DecodesEncoded
      → IsNamed m
      → read_one b64_encode b64_decode (frame b64_encode b64_decode m ++ rest) ≡ (m, rest)
  unfolding read_one
  read_one-frame m rest decodes named =
      rw (read_one, behind_preamble m rest)
        (rw (getline-append delimiter m.pb_name (coded m ++ end_of_line ∷ rest) named) (
          rw
            (getline-append end_of_line (coded m) rest
              (has_char-erase_all end_of_line (b64_encode m.pb_data)))
            (ap (λ t. (record { pb_name = m.pb_name; pb_data = t }, rest)) (decodes m.pb_data))))

  -- The bytes of messages that are written one after the other.
  abbrev pub frames : List Message → Text
  frames ms = flatten (map (frame b64_encode b64_decode) ms)

  ends_line :
      (m : Message) (rest : Text)
      → has_char end_of_line (frame b64_encode b64_decode m ++ rest) ≡ true
  ends_line m rest =
      subst (λ l. has_char end_of_line l ≡ true) (sym (layout m rest))
        (ground (
          arith,
          has_char-append end_of_line m.pb_name (delimiter ∷ (coded m ++ end_of_line ∷ rest)),
          has_char-append end_of_line (coded m) (end_of_line ∷ rest),
        ))

  -- Messages whose names have no delimiter, written one after the other, are read as they were
  -- written, in order; a line behind them that has not ended yet stays in the buffer. Base64 decodes
  -- what it encodes, with the newlines left out, and the fuel is at least the number of messages.
  pub read-frames :
      (fuel : ℕ) (ms : List Message) (partial : Text)
      → DecodesEncoded
      → All IsNamed ms
      → has_char end_of_line partial ≡ false
      → length ms ≤ fuel
      → read b64_encode b64_decode fuel (frames ms ++ partial) ≡ (ms, partial)
  unfolding read
  read-frames zero [] partial decodes named open_line enough = refl
  read-frames zero (m ∷ ms) partial decodes named open_line enough = absurd (omega arith)
  read-frames (suc fuel) [] partial decodes named open_line enough =
      if-false (has_char end_of_line partial) _ _ open_line
  read-frames (suc fuel) (m ∷ ms) partial decodes named open_line enough =
      ap (read b64_encode b64_decode (suc fuel))
        (append_assoc (frame b64_encode b64_decode m) (frames ms) partial)
      ∙ rw (read, ends_line m (frames ms ++ partial))
          (rw (read_one-frame m (frames ms ++ partial) decodes named.0) (
            ap (λ (p : List Message × Text). (m ∷ p.0, p.1))
              (read-frames fuel ms partial decodes named.1 open_line (omega arith))))
