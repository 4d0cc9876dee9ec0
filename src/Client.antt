-- ===== src/Client.antt =====
-- client1.c and client2.c: `request_server` of the two clients over the messages of common.h. `none`
-- is a fault, that is an access outside of the buffer, or no round left for `write`.
pub mod Answer
pub mod Batch
pub mod Cli
use search_engine.Common.{
  ℕ, zero, suc, ◌+◌, ◌-◌, ◌*◌, ◌/◌, ◌%◌, ◌^◌, ◌<◌, ◌≤◌, ◌≡◌, ◌≢◌, ◌⊎◌, ◌↔◌, inl, inr, refl, sym, ap,
  ◌∙◌, Option, none, some, List, [], ◌∷◌, ◌++◌, Bool, true, false, not, ◌&&◌, ◌||◌, arith, ltb, leb,
  ◌==◌, min, append-nil, append_assoc, if◌then◌else◌, ltb→lt, lt→ltb, leb→le, ==_iff, Bool-cases,
  Option-cases, length, get_elem?, set, get_or, take, drop, replicate, length-set,
  get_elem?-set_self, get_elem?-set_ne, length-append, length-replicate, length-take, length-drop,
  take-append-drop, get_elem?-set_inv, ◌>>=◌, get_elem?-set_at, drop-add, drop-suc, drop-append,
  drop-set, get_or-drop, set-set, set-get_elem?,
}
use search_engine.Net.{Hdr, hdr_len, payload_len, recv_from_host, send_to_host}
use search_engine.Net.Setup.{Address, Calls, find_host}
use search_engine.Server.{Machine, response, error, got, fill, terminate}

-- `get_serveraddress`, the same in both clients: the address of the server, or a null pointer.
pub get_serveraddress : {S : Type 0} → Calls S → List ℕ → ℕ → Option Address
get_serveraddress calls hostname port = elim (find_host calls hostname) [
  | none ↦ none
  | some addr ↦ some (record { sin_addr = addr; sin_port = calls.htons port })
]

-- The calls with which a client makes its socket; false is a result below 0.
pub record Connector (S : Type 0) : Type 0 where
  pub socket : S → Bool × S
  pub connect : S → Bool × S

-- What a client tells after a request: the buffer with the string that has come, that there is no
-- such word, or that the answer is none it knows.
pub data Outcome : Type 0 where
  answered : List ℕ → Outcome
  missing : Outcome
  wrong : Outcome

-- `socket` and `connect`; a socket that does not connect is closed.
pub open_socket : {S : Type 0} → Machine S → Connector S → S → Bool × S
open_socket machine connector s =
    let (made, s1) = connector.socket s in
    let (connected, s2) = connector.connect s1 in
    if not made then (false, s1) else if connected then (true, s2) else (false, machine.close s2)

-- The header of the answer in the buffer.
pub read_header : {S : Type 0} → Machine S → S → List ℕ → Option (List ℕ × S)
read_header machine s buf = do
  (header, s') ← recv_from_host machine.read s hdr_len
  filled ← fill buf (got header)
  some (filled, s')

-- The rest of an answer, as long as its header says, and the terminator behind it.
pub read_payload : {S : Type 0} → Machine S → S → List ℕ → Option (Outcome × List ℕ × S)
read_payload machine s buf = do
  (payload, s') ← recv_from_host machine.read s (payload_len machine.ntohl (machine.load buf))
  filled ← fill buf (got payload)
  string ← terminate filled payload
  some (answered string, string, s')
