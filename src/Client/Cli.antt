-- ===== src/Client/Cli.antt =====
-- client2.c: a client that reads commands from the terminal.
pub mod Exchange
use search_engine.Common.{
  ℕ, zero, suc, ◌+◌, ◌-◌, ◌*◌, ◌/◌, ◌%◌, ◌^◌, ◌<◌, ◌≤◌, ◌≡◌, ◌≢◌, ◌⊎◌, ◌↔◌, inl, inr, refl, sym, ap,
  ◌∙◌, Option, none, some, List, [], ◌∷◌, ◌++◌, Bool, true, false, not, ◌&&◌, ◌||◌, arith, ltb, leb,
  ◌==◌, min, append-nil, append_assoc, if◌then◌else◌, ltb→lt, lt→ltb, leb→le, ==_iff, Bool-cases,
  Option-cases, length, get_elem?, set, get_or, take, drop, replicate, length-set,
  get_elem?-set_self, get_elem?-set_ne, length-append, length-replicate, length-take, length-drop,
  take-append-drop, get_elem?-set_inv, ◌>>=◌, get_elem?-set_at, drop-add, drop-suc, drop-append,
  drop-set, get_or-drop, set-set, set-get_elem?,
}
use search_engine.Common.Int.{ℤ, pos}
use search_engine.Text.{str_get_length, str_compare}
use search_engine.Net.{hdr_len, send_to_host, create_pckt}
use search_engine.Server.{Machine, header_bytes, request, response, fill}
use search_engine.Index.{is_zero}
use search_engine.Client.{
  Connector, Outcome, answered, missing, open_socket, read_header, read_payload,
}

-- MAX_SIZE.
abbrev pub max_size : ℕ
max_size = 100

-- "search".
abbrev pub search : List ℕ
search = 115 ∷ 101 ∷ 97 ∷ 114 ∷ 99 ∷ 104 ∷ []

-- The packet that is sent: the header and the word behind it, in one piece.
unfoldable pub packet_of : {S : Type 0} → Machine S → List ℕ → List ℕ
packet_of machine word =
    let len = str_get_length word max_size in
    header_bytes machine (create_pckt machine.htonl len request) ++ take len word

module _ {S : Type 0} (machine : Machine S) where
  pub receive_answer : S → List ℕ → Option (Outcome × List ℕ × S)
  receive_answer s buf =
      let payload = read_payload machine s buf in
      if machine.load (drop 4 buf) == machine.htonl response
      then payload
      else some (missing, buf, s)

  -- A request on a socket that is connected.
  pub exchange : ℕ → S → List ℕ → List ℕ → Option (Outcome × List ℕ × S)
  unfolding receive_answer
  exchange fuel s word buf = do
    (_, s1) ← send_to_host machine.write fuel s (packet_of machine word)
    (filled, s2) ← read_header machine s1 buf
    receive_answer s2 filled

  -- The loop, on what is typed: a command and a word in each round. `scanf` writes the word and a
  -- terminator to the buffer.
  pub command_loop :
      Connector S → ℕ → List (List ℕ × List ℕ) → S → List ℕ → Option (List Outcome × S)
  unfolding exchange
  command_loop connector fuel [] s buf = some ([], s)
  command_loop connector fuel ((command, word) ∷ typed) s buf = do
    cmd_buf ← fill (replicate max_size 0) (command ++ 0 ∷ [])
    typed_buf ← fill buf (word ++ 0 ∷ [])
    let other = command_loop connector fuel typed s typed_buf
    let (connected, s1) = open_socket machine connector s
    let asked = (do
      (outcome, buf', s2) ← exchange fuel s1 typed_buf typed_buf
      (outcomes, s3) ← command_loop connector fuel typed (machine.close s2) buf'
      some (outcome ∷ outcomes, s3))
    let searched = if connected then asked else some ([], s1)
    if is_zero (str_compare cmd_buf search max_size) then searched else other

  -- `request_server`, with the buffer of BUFSIZE zeros.
  pub request_server : Connector S → ℕ → List (List ℕ × List ℕ) → S → Option (List Outcome × S)
  unfolding command_loop
  request_server connector fuel typed s = command_loop connector fuel typed s (replicate 10240 0)
