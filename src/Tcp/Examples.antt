-- ===== src/Tcp/Examples.antt =====
-- A session with an encoding that adds to each byte, and a server with one client.
use netsim.Prelude.{
  ◌+◌, ◌-◌, ◌≡◌, ◌∙◌, ap, if-false, refl, true, false, [], ◌∷◌, ◌++◌, none, some, arith, ◌==◌,
}
use netsim.Prelude.Maps.{lookup}
use netsim.Prelude.Text.{Text, text_key}
use netsim.Tcp.{Message, TcpServer, accept, write, read, erase_all, end_of_line}
use netsim.Tcp.Framing.{DecodesEncoded, frames, read-frames}
use netsim.Tcp.Sessions.{writes, accepts, happen, reached, accept_stale-reached}

-- An encoding without newlines.
abbrev encode : Text → Text
encode [] = []
encode (x ∷ xs) = (x + 11) ∷ encode xs

abbrev decode : Text → Text
decode [] = []
decode (x ∷ xs) = (x - 11) ∷ decode xs

decodes : DecodesEncoded encode decode
unfolding erase_all
decodes [] = refl
decodes (x ∷ xs) =
    let kept : ((x + 11) == end_of_line) ≡ false = ground arith in
    let coded = erase_all end_of_line (encode xs) in
    ap decode (if-false ((x + 11) == end_of_line) coded ((x + 11) ∷ coded) kept)
    ∙ ap (λ y. y ∷ decode coded) {x = x + 11 - 11} {y = x} (omega arith)
    ∙ ap (λ l. x ∷ l) (decodes xs)

abbrev ping : Message
ping = record { pb_name = b'P' ∷ b'i' ∷ []; pb_data = 10 ∷ 124 ∷ [] }

read-frames_example :
    read encode decode 5 (frames encode decode (ping ∷ ping ∷ []) ++ b'N' ∷ b'E' ∷ [])
    ≡ (ping ∷ ping ∷ [], b'N' ∷ b'E' ∷ [])
read-frames_example =
    read-frames encode decode 5 (ping ∷ ping ∷ []) (b'N' ∷ b'E' ∷ []) decodes (refl, (refl, tt))
      refl (omega arith)

abbrev server : TcpServer
server = record { sessions = (1 ∷ [], 4) ∷ []; alive = λ i. false }

old_entry : lookup (1 ∷ []) (server.sessions) ≡ some 4
unfolding lookup
old_entry = refl

no_entry : lookup (2 ∷ []) (server.sessions) ≡ none
unfolding lookup
no_entry = refl

accept_stale-reached_example :
    let s1 = accept (1 ∷ []) 5 server in
    let s2 = happen (writes (1 ∷ []) ∷ accepts (2 ∷ []) 6 ∷ []) s1 in
    (s1.alive 5 ≡ true)
    × (reached (1 ∷ []) s2 ≡ none)
    × (reached (1 ∷ []) (accept (1 ∷ []) 7 (write (1 ∷ []) s2).0) ≡ some 7)
accept_stale-reached_example =
    accept_stale-reached (1 ∷ []) 4 5 7 server (writes (1 ∷ []) ∷ accepts (2 ∷ []) 6 ∷ []) old_entry
      refl refl (tt, ((refl, refl), tt))
