-- ===== src/Tcp.antt =====
-- src/lib/tcp: the sessions over which vehicle simulators talk to the manager (tcp_session.h,
-- tcp_session.cpp) and the server that keeps them (tcp_server.h, tcp_server.cpp).
pub mod Framing
pub mod Sessions
mod Examples
use netsim.Prelude.{
  ℕ, zero, suc, Bool, true, false, ◌||◌, List, [], ◌∷◌, ◌++◌, map, Option, none, some, any, ◌==◌,
  if◌then◌else◌,
}
use netsim.Prelude.Maps.{Map, lookup, insert, erase}
use netsim.Prelude.Text.{Text, text_key}

-- What a message is to the session: the full name of its type and its bytes.
pub record Message : Type 0 where
  pub pb_name : Text
  pub pb_data : Text

abbrev pub end_of_line : ℕ
end_of_line = b'\n'

abbrev pub delimiter : ℕ
delimiter = b'|'

-- `std::getline(is, s, c)`: what stands before the first `c`, and what stands behind it.
unfoldable pub getline : ℕ → Text → Text × Text
getline c [] = ([], [])
getline c (x ∷ xs) =
    let (line, rest) = getline c xs in if x == c then ([], xs) else (x ∷ line, rest)

-- `boost::erase_all_copy(s, c)`
unfoldable pub erase_all : ℕ → Text → Text
erase_all c [] = []
erase_all c (x ∷ xs) = let rest = erase_all c xs in if x == c then rest else x ∷ rest

abbrev pub has_char : ℕ → Text → Bool
has_char c xs = any (λ x. x == c) xs

-- `dccl::b64_encode` and `dccl::b64_decode` are DCCL's.
module _ (b64_encode b64_decode : Text → Text) where
  -- The bytes that `write` sends.
  unfoldable pub frame : Message → Text
  frame m =
      let coded = erase_all end_of_line (b64_encode m.pb_data) in
      (b'N' ∷ b'E' ∷ b'T' ∷ b'S' ∷ b'I' ∷ b'M' ∷ [])
      ++ (delimiter ∷ (m.pb_name ++ (delimiter ∷ (coded ++ (end_of_line ∷ [])))))

  -- The message that the handler of `read` takes from the buffer, and the rest of the buffer.
  unfoldable pub read_one : Text → Message × Text
  read_one buffer =
      let (preamble, named) = getline delimiter buffer in
      let (name, coded) = getline delimiter named in
      let (data_b64, rest) = getline end_of_line coded in
      (record { pb_name = name; pb_data = b64_decode data_b64 }, rest)

  -- `read` again and again: the handler runs when the buffer has an end of line. The fuel bounds the
  -- number of messages.
  unfoldable pub read : ℕ → Text → List Message × Text
  read zero buffer = ([], buffer)
  read (suc fuel) buffer =
      let (m, rest) = read_one buffer in
      let (ms, left) = read fuel rest in
      if has_char end_of_line buffer then (m ∷ ms, left) else ([], buffer)

-- The server's table of sessions, by endpoint, and which sessions still exist.
pub record TcpServer : Type 0 where
  pub sessions : Map Text ℕ
  pub alive : ℕ → Bool

-- `accept`: a new session of an endpoint.
unfoldable pub accept : Text → ℕ → TcpServer → TcpServer
accept ep session s = record {
  sessions = insert ep session s.sessions;
  alive = λ i. (i == session) || s.alive i;
}

-- A session that has been disconnected goes away.
unfoldable pub expire : ℕ → TcpServer → TcpServer
expire session s = record s { alive = λ i. if i == session then false else s.alive i }

-- `write`, with the session that it writes to.
unfoldable pub write : Text → TcpServer → TcpServer × Option ℕ
write ep s = elim (lookup ep s.sessions) [
  | none ↦ (s, none)
  | some session ↦
      if s.alive session
      then (s, some session)
      else (record s { sessions = erase ep s.sessions }, none)
]
