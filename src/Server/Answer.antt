-- ===== src/Server/Answer.antt =====
-- server.c: the answer that `thread_job` writes to the packet and sends.
use search_engine.Common.{
  ℕ, ◌<◌, ◌≤◌, ◌≡◌, refl, ap, ◌∙◌, none, some, List, ◌++◌, arith, length, get_elem?, take,
}
use search_engine.Table.{DynList}
use search_engine.Index.{Index, Word}
use search_engine.Net.{create_pckt}
use native.Mathlib.Nat.{zero-add}
use search_engine.Net.Stream.{IsSink, send_to_host-all}
use search_engine.Server.{Machine, response, error, header_bytes, respond}
use search_engine.Server.Packet.{Writes, docs_text, write_docs-Writes}

module _ {S : Type 0} (machine : Machine S) (files : DynList ℕ) where
  -- For a packet that is not empty and a word whose lines have a text that does not fit in the
  -- packet with its terminator, the text is written past the end of the packet.
  pub respond-overruns :
      (fuel : ℕ) (s : S) (index : Index) (packet : List ℕ) (item : ℕ) (word : Word) (text : List ℕ)
      → get_elem? index.words item ≡ some word
      → docs_text machine files word.list ≡ some text
      → 0 < length packet
      → length packet ≤ length text
      → respond machine files fuel s index packet (some item) ≡ none
  unfolding respond Writes
  respond-overruns fuel s index packet item word text e_word e_text some_room long =
      let (_, overruns) =
        write_docs-Writes machine files word.list packet 0 text some_room e_text in
      rw (e_word, overruns (omega arith)) refl

module _ {S : Type 0} (machine : Machine S) (files : DynList ℕ) {Holds : S → List ℕ → Type 0}
    (law : IsSink machine.write Holds) (fuel : ℕ) (s : S) (index : Index)
    (packet out : List ℕ) where
  -- For a word whose lines have the text `text`, over a socket that takes at each call of `write`
  -- at least one of the bytes that it is given, and with a round for each byte of the header and of
  -- the text: if the text and its terminator fit in the packet, the socket takes a RESPONSE header
  -- with the length of the text and then the text, and nothing else.
  pub respond-found :
      (item : ℕ) (word : Word) (text : List ℕ)
      → Holds s out
      → get_elem? index.words item ≡ some word
      → docs_text machine files word.list ≡ some text
      → length text < length packet
      → length text ≤ fuel
      → length (header_bytes machine (create_pckt machine.htonl (length text) response)) ≤ fuel
      → (s' : S) × (respond machine files fuel s index packet (some item) ≡ some s')
        × Holds s'
            (out ++ header_bytes machine (create_pckt machine.htonl (length text) response) ++ text)
  unfolding respond Writes
  respond-found item word text holds e_word e_text fits enough enough' =
      let header = header_bytes machine (create_pckt machine.htonl (length text) response) in
      let (written, _) =
        write_docs-Writes machine files word.list packet 0 text (omega arith) e_text in
      let (packet', e_packet, stands) = written (omega arith) in
      let payload : take (length text) packet' ≡ text =
        ap (λ n. take n packet') (omega arith) ∙ stands.starts in
      let (s', e_header, holds') = send_to_host-all law s out header fuel holds enough' in
      let (s'', e_text', holds'') =
        send_to_host-all law s' (out ++ header) text fuel holds' enough in
      (
        s'',
        rw (e_word, e_packet) (rw (zero-add (length text), e_header, payload, e_text') refl),
        holds'',
      )

  -- For a word that is not found, over a socket that takes at each call of `write` at least one of
  -- the bytes that it is given, and with a round for each byte of the header, the socket takes an
  -- ERROR header with the length 0 and nothing else.
  pub respond-missing :
      Holds s out
      → length (header_bytes machine (create_pckt machine.htonl 0 error)) ≤ fuel
      → (s' : S) × (respond machine files fuel s index packet none ≡ some s')
        × Holds s' (out ++ header_bytes machine (create_pckt machine.htonl 0 error))
  unfolding respond
  respond-missing holds enough =
      let (s', e, holds') =
        send_to_host-all law s out (header_bytes machine (create_pckt machine.htonl 0 error)) fuel
          holds enough in
      (s', rw e refl, holds')
