-- ===== src/Client/Cli/Exchange.antt =====
-- client2.c: one request.
use search_engine.Common.{
  is_same, ℕ, ◌+◌, ◌^◌, ◌<◌, ◌≤◌, ◌≡◌, refl, ◌∙◌, none, some, List, ◌++◌, arith, length,
  length-append,
}
use search_engine.Text.{str_get_length}
use search_engine.Text.Scan.{until_nul}
use search_engine.Net.{hdr_len}
use search_engine.Server.{Machine, request, response}
use search_engine.Server.Receive.{length-header_bytes}
use search_engine.Client.{answered}
use search_engine.Client.Answer.{
  Talk, IsClient, header, sends, HeaderRead, read_header-HeaderRead, read_payload-PayloadRead,
  read_payload-overruns,
}
use search_engine.Client.Batch.{word_bytes}
use search_engine.Client.Batch.Exchange.{asked}
use search_engine.Client.Cli.{packet_of, receive_answer, exchange}

module _ {S : Type 0} (machine : Machine S) (In Out : S → List ℕ → Type 0)
    (client : IsClient machine In Out) (fuel : ℕ) (s : S) (word buf out rest : List ℕ) where
  -- The second client sends in one piece the bytes that the first sends in two.
  exchange-receive_answer :
      (len t : ℕ)
      → Talk In Out (header machine len t ++ rest) out s
      → 8 < length buf
      → 8 + length (word_bytes word) ≤ fuel
      → (s' : S) × (r : HeaderRead machine In Out client s' buf len t rest
          (out ++ asked machine word))
        × (exchange machine fuel s word buf ≡ receive_answer machine r.after r.filled)
  unfolding exchange packet_of word_bytes
  exchange-receive_answer len t talk room enough =
      let first = header machine (str_get_length word 100) request in
      let whole = length-header_bytes machine client.law (str_get_length word 100) request in
      let (s1, sent1, talk1) =
        sends machine In Out client fuel s (header machine len t ++ rest) out (asked machine word)
          talk (omega (arith, whole, enough, length-append first (word_bytes word))) in
      let r =
        read_header-HeaderRead machine In Out client s1 buf len t rest (out ++ asked machine word)
          talk1 room in
      (s1, r, rw sent1 (rw r.reads refl))

module _ {S : Type 0} (machine : Machine S) (In Out : S → List ℕ → Type 0)
    (client : IsClient machine In Out) (fuel : ℕ) (s : S) (word buf out text rest : List ℕ)
    (talk : Talk In Out (header machine (length text) response ++ (text ++ rest)) out s)
    (room : 8 < length buf) (small : length text + hdr_len < 2 ^ 31)
    (enough : 8 + length (word_bytes word) ≤ fuel) where
  -- Over a socket whose `read` gives some of the bytes that are to come and whose `write` takes at least
  -- one byte, and with a round of `write` for each byte: where a RESPONSE is to come whose text fits in
  -- the buffer with its terminator, a request of the second client sends the same bytes as the first
  -- client does, and has the text as the string in its buffer.
  pub exchange-tells :
      length text < length buf
      → (buf' : List ℕ) × (s' : S) × (exchange machine fuel s word buf
          ≡ some (answered buf', buf', s'))
        × (length buf' ≡ length buf)
        × (until_nul buf' ≡ until_nul text)
        × Talk In Out rest (out ++ asked machine word) s'
  unfolding receive_answer
  exchange-tells fits =
      let (s1, r, whole) =
        exchange-receive_answer machine In Out client fuel s word buf out (text ++ rest)
          (length text) response talk room enough in
      let p =
        read_payload-PayloadRead machine In Out client r.after r.filled text rest
          (out ++ asked machine word) r.talk (r.size small) (omega (arith, r.same, fits)) in
      (
        p.string,
        p.after,
        whole ∙ rw (r.type, is_same (machine.htonl response)) p.reads,
        p.same ∙ r.same,
        p.ends,
        p.talk,
      )

  -- Under the same conditions, a text that does not fit in the buffer with its terminator is written
  -- past the end of the buffer. The buffer of the second client has 10240 bytes, and the server may send
  -- a text of 10240.
  pub exchange-overruns : length buf ≤ length text → exchange machine fuel s word buf ≡ none
  unfolding receive_answer
  exchange-overruns long =
      let (s1, r, whole) =
        exchange-receive_answer machine In Out client fuel s word buf out (text ++ rest)
          (length text) response talk room enough in
      whole
      ∙ rw (r.type, is_same (machine.htonl response))
          (read_payload-overruns machine In Out client r.after r.filled text rest
            (out ++ asked machine word) r.talk (r.size small) (omega (arith, r.same, long)))
