-- ===== src/Client/Batch.antt =====
-- client1.c: a thread that sends the same request again and again.
pub mod Served
pub mod Loop
pub mod Exchange
use search_engine.Common.{
  ℕ, zero, suc, ◌+◌, ◌-◌, ◌*◌, ◌/◌, ◌%◌, ◌^◌, ◌<◌, ◌≤◌, ◌≡◌, ◌≢◌, ◌⊎◌, ◌↔◌, inl, inr, refl, sym, ap,
  ◌∙◌, Option, none, some, List, [], ◌∷◌, ◌++◌, Bool, true, false, not, ◌&&◌, ◌||◌, arith, ltb, leb,
  ◌==◌, min, append-nil, append_assoc, if◌then◌else◌, ltb→lt, lt→ltb, leb→le, ==_iff, Bool-cases,
  Option-cases, length, get_elem?, set, get_or, take, drop, replicate, length-set,
  get_elem?-set_self, get_elem?-set_ne, length-append, length-replicate, length-take, length-drop,
  take-append-drop, get_elem?-set_inv, ◌>>=◌, get_elem?-set_at, drop-add, drop-suc, drop-append,
  drop-set, get_or-drop, set-set, set-get_elem?,
}
use search_engine.Text.{str_get_length}
use search_engine.Net.{send_to_host, create_pckt}
use search_engine.Server.{Machine, header_bytes, request, response, error}
use search_engine.Client.{
  Connector, Outcome, answered, missing, wrong, open_socket, read_header, read_payload,
}

-- The bytes of the word that are sent.
unfoldable pub word_bytes : List ℕ → List ℕ
word_bytes word = take (str_get_length word 100) word

module _ {S : Type 0} (machine : Machine S) where
  -- The branches on the type in the header, which is at the front of the buffer.
  pub receive_answer : S → List ℕ → Option (Outcome × List ℕ × S)
  receive_answer s buf =
      let payload = read_payload machine s buf in
      let msg_type = machine.load (drop 4 buf) in
      if msg_type == machine.htonl response
      then payload
      else if msg_type == machine.htonl error
      then some (missing, buf, s)
      else some (wrong, buf, s)

  -- A request on a socket that is connected, with at most `fuel` calls of `write` for each message.
  -- What `send_to_host` returns is not looked at.
  pub exchange : ℕ → S → List ℕ → List ℕ → Option (Outcome × List ℕ × S)
  unfolding receive_answer
  exchange fuel s word buf = do
    let header = create_pckt machine.htonl (str_get_length word 100) request
    (_, s1) ← send_to_host machine.write fuel s (header_bytes machine header)
    (_, s2) ← send_to_host machine.write fuel s1 (word_bytes word)
    (filled, s3) ← read_header machine s2 buf
    receive_answer s3 filled

  -- The loop, with `rounds` requests to go: what was told, and the socket's state.
  pub request_loop : Connector S → ℕ → ℕ → S → List ℕ → List ℕ → Option (List Outcome × S)
  unfolding exchange
  request_loop connector fuel zero s word buf = some ([], s)
  request_loop connector fuel (suc rounds) s word buf =
      let (connected, s1) = open_socket machine connector s in
      let asked = (do
        (outcome, buf', s2) ← exchange fuel s1 word buf
        (outcomes, s3) ← request_loop connector fuel rounds (machine.close s2) word buf'
        some (outcome ∷ outcomes, s3)) in
      if connected then asked else some ([], s1)

  -- `request_server`, with the buffer of BUFSIZE + 1 zeros.
  pub request_server : Connector S → ℕ → ℕ → S → List ℕ → Option (List Outcome × S)
  unfolding request_loop
  request_server connector fuel req_per_thread s word =
      request_loop connector fuel req_per_thread s word (replicate 10241 0)
