-- ===== src/Server.antt =====
-- server.c: `thread_job`, which answers one request over a socket. `none` is a fault, that is an
-- access outside of the packet, of an array or of a null pointer, or no round left for `write`.
pub mod Packet
pub mod Answer
pub mod Receive
pub mod Job
pub mod Loop
use search_engine.Common.{
  ℕ, zero, suc, ◌+◌, ◌-◌, ◌*◌, ◌/◌, ◌%◌, ◌^◌, ◌<◌, ◌≤◌, ◌≡◌, ◌≢◌, ◌⊎◌, ◌↔◌, inl, inr, refl, sym, ap,
  ◌∙◌, Option, none, some, List, [], ◌∷◌, ◌++◌, Bool, true, false, not, ◌&&◌, ◌||◌, arith, ltb, leb,
  ◌==◌, min, append-nil, append_assoc, if◌then◌else◌, ltb→lt, lt→ltb, leb→le, ==_iff, Bool-cases,
  Option-cases, length, get_elem?, set, get_or, take, drop, replicate, length-set,
  get_elem?-set_self, get_elem?-set_ne, length-append, length-replicate, length-take, length-drop,
  take-append-drop, get_elem?-set_inv, ◌>>=◌, get_elem?-set_at, drop-add, drop-suc, drop-append,
  drop-set, get_or-drop,
}
use search_engine.Hash.{hash_function}
use search_engine.Table.{DynList}
use search_engine.Postings.{Link}
use search_engine.Index.{Index, Word, dyn_size, lookup}
use search_engine.Net.{
  Reply, Received, received, broken, recv_from_host, Written, Sent, send_to_host, Hdr, hdr_len,
  create_pckt, payload_len,
}

-- The system and the machine: the socket's calls, the bytes of a `uint32_t` and its order in the
-- network, the string that a pointer in `file_list` points to, and what `sprintf` makes of it and of a
-- number with the format "%s: line #%zu\n".
pub record Machine (S : Type 0) : Type 0 where
  pub read : S → ℕ → Reply × S
  pub write : S → List ℕ → Written × S
  pub close : S → S
  pub load : List ℕ → ℕ
  pub bytes_of : ℕ → List ℕ
  pub htonl : ℕ → ℕ
  pub ntohl : ℕ → ℕ
  pub name : ℕ → List ℕ
  pub line_text : List ℕ → ℕ → List ℕ

abbrev pub request : ℕ
request = 16

abbrev pub response : ℕ
response = 17

abbrev pub error : ℕ
error = 32

abbrev pub got : Received → List ℕ
got (received bs) = bs
got (broken bs) = bs

-- The bytes that `recv_from_host` writes to the packet.
pub fill : List ℕ → List ℕ → Option (List ℕ)
fill packet bs =
    if ltb (length packet) (length bs) then none else some (bs ++ drop (length bs) packet)

-- `packet[tmp] = '\0'`, where `tmp` is -1 after an error.
pub terminate : List ℕ → Received → Option (List ℕ)
terminate packet (broken bs) = none
terminate packet (received bs) =
    if ltb (length bs) (length packet) then some (set packet (length bs) 0) else none

-- `file_list->dyn_list[docs->val]` as the string of `%s`.
unfoldable pub name_at : {S : Type 0} → Machine S → DynList ℕ → ℕ → Option (List ℕ)
name_at machine files val = elim (get_elem? files.dyn_list val) [
  | none ↦ none
  | some cell ↦ elim cell [ none ↦ none | some pointer ↦ some (machine.name pointer) ]
]

-- `tot_len += sprintf(packet + tot_len, ...)`, with the terminator behind the text.
pub write_text : List ℕ → List ℕ × ℕ → Option (List ℕ × ℕ)
write_text text (packet, tot_len) =
    if ltb (tot_len + length text) (length packet)
    then some (
      take tot_len packet ++ (text ++ 0 ∷ drop (suc (tot_len + length text)) packet),
      tot_len + length text,
    )
    else none

-- The bytes of a header in memory.
unfoldable pub header_bytes : {S : Type 0} → Machine S → Hdr → List ℕ
header_bytes machine header = machine.bytes_of header.tot_len ++ machine.bytes_of header.msg_type

-- The lookup of the string in the packet.
unfoldable pub search_word : Index → List ℕ → Option (Option ℕ)
search_word index packet =
    if index.table.phys_len == 0
    then none
    else lookup index packet (hash_function packet % index.table.phys_len)

module _ {S : Type 0} (machine : Machine S) (files : DynList ℕ) where
  -- The inner loop, with `rounds` rounds to go from `i`.
  pub write_lines : Link → ℕ → ℕ → List ℕ × ℕ → Option (List ℕ × ℕ)
  write_lines doc zero i packet = some packet
  write_lines doc (suc rounds) i packet = do
    name ← name_at machine files doc.val
    line ← get_elem? doc.list i
    packet' ← write_text (machine.line_text name line) packet
    write_lines doc rounds (suc i) packet'

  pub write_docs : List Link → List ℕ × ℕ → Option (List ℕ × ℕ)
  write_docs [] packet = some packet
  write_docs (doc ∷ docs) packet = do
    packet' ← write_lines doc doc.last_index 0 packet
    write_docs docs packet'

  -- The branches on the word, with at most `fuel` calls of `write` for each message.
  pub respond : ℕ → S → Index → List ℕ → Option ℕ → Option S
  respond fuel s index packet none = do
    (_, s') ←
        send_to_host machine.write fuel s (header_bytes machine (create_pckt machine.htonl 0 error))
    some s'
  respond fuel s index packet (some item) = do
    word ← get_elem? index.words item
    (packet', tot_len) ← write_docs word.list (packet, 0)
    (_, s') ←
        send_to_host machine.write fuel s
          (header_bytes machine (create_pckt machine.htonl tot_len response))
    (_, s'') ← send_to_host machine.write fuel s' (take tot_len packet')
    some s''

  pub answer_request : ℕ → S → Index → List ℕ → Option S
  answer_request fuel s index packet = do
    (payload, s') ← recv_from_host machine.read s (payload_len machine.ntohl (machine.load packet))
    filled ← fill packet (got payload)
    string ← terminate filled payload
    found ← search_word index string
    respond fuel s' index string found

  -- The test of the header in the packet.
  pub handle : ℕ → S → Index → List ℕ → Option S
  handle fuel s index packet =
      let answered = answer_request fuel s index packet in
      if machine.load (drop 4 packet) == machine.htonl request then answered else some s

  -- `packet` is what `tc_malloc(DYN_SIZE + 1)` points to.
  pub thread_job : ℕ → S → Index → List ℕ → Option S
  thread_job fuel s index packet = do
    (header, s') ← recv_from_host machine.read s hdr_len
    filled ← fill packet (got header)
    s'' ← handle fuel s' index filled
    some (machine.close s'')
