-- ===== src/Client/Batch/Exchange.antt =====
-- client1.c: one request of a thread.
use search_engine.Common.{
  is_same, ℕ, ◌+◌, ◌^◌, ◌<◌, ◌≤◌, ◌≡◌, ◌≢◌, inl, inr, refl, sym, ap, ◌∙◌, some, List, ◌++◌, false,
  arith, ◌==◌, append_assoc, if◌then◌else◌, ==_iff, Bool-cases, length,
}
use search_engine.Text.{str_get_length}
use search_engine.Text.Scan.{until_nul}
use search_engine.Net.{hdr_len}
use search_engine.Server.{Machine, request, response, error}
use search_engine.Server.Receive.{IsMachine, length-header_bytes}
use search_engine.Client.{Outcome, answered, missing, wrong}
use search_engine.Client.Answer.{
  Talk, IsClient, header, sends, HeaderRead, read_header-HeaderRead, read_payload-PayloadRead,
}
use search_engine.Client.Batch.{word_bytes, receive_answer, exchange}

-- The request for a word.
abbrev pub asked : {S : Type 0} → Machine S → List ℕ → List ℕ
asked machine word = header machine (str_get_length word 100) request ++ word_bytes word

-- `htonl` tells two types apart.
pub type_differs :
    {S : Type 0} (machine : Machine S)
    → IsMachine machine
    → (t u : ℕ) → t < 2 ^ 32
    → u < 2 ^ 32
    → t ≢ u
    → (machine.htonl t == machine.htonl u) ≡ false
type_differs machine law t u small small' ne =
    elim (Bool-cases (machine.htonl t == machine.htonl u)) [
      | inl e ↦ absurd (
          ne (
            sym (law.back t small)
            ∙ ap machine.ntohl (((==_iff (machine.htonl t) (machine.htonl u)).0) e)
            ∙ law.back u small'))
      | inr e ↦ e
    ]

module _ {S : Type 0} (machine : Machine S) (In Out : S → List ℕ → Type 0)
    (client : IsClient machine In Out) (fuel : ℕ) where
  -- The messages of a request are sent, and the header of the answer is read.
  exchange-receive_answer :
      (s : S) (word buf out : List ℕ) (len t : ℕ) (rest : List ℕ)
      → Talk In Out (header machine len t ++ rest) out s
      → 8 < length buf
      → length (word_bytes word) ≤ fuel
      → 8 ≤ fuel
      → (s' : S) × (r : HeaderRead machine In Out client s' buf len t rest
          (out ++ asked machine word))
        × (exchange machine fuel s word buf ≡ receive_answer machine r.after r.filled)
  unfolding exchange
  exchange-receive_answer s word buf out len t rest talk room enough eight =
      let first = header machine (str_get_length word 100) request in
      let whole = length-header_bytes machine client.law (str_get_length word 100) request in
      let (s1, sent1, talk1) =
        sends machine In Out client fuel s (header machine len t ++ rest) out first talk
          (omega (arith, whole)) in
      let (s2, sent2, talk2) =
        sends machine In Out client fuel s1 (header machine len t ++ rest) (out ++ first)
          (word_bytes word) talk1 enough in
      let r =
        read_header-HeaderRead machine In Out client s2 buf len t rest (out ++ asked machine word)
          (talk2.0, rw (sym (append_assoc out first (word_bytes word))) talk2.1) room in
      (s2, r, rw (sent1, sent2) (rw r.reads refl))

  -- What a request gives: the outcome, the buffer, and a socket on which `rest` is still to come and
  -- the request for the word has been sent and nothing else.
  abbrev pub Exchanged : S → (word buf rest out : List ℕ) → (List ℕ → Outcome → Type 0) → Type 0
  Exchanged s word buf rest out Told =
      (outcome : Outcome) × (buf' : List ℕ) × (s' : S) × (exchange machine fuel s word buf
        ≡ some (outcome, buf', s'))
      × (length buf' ≡ length buf)
      × Told buf' outcome
      × Talk In Out rest (out ++ asked machine word) s'

  -- The outcome is the string of `text`.
  abbrev pub TellsText : List ℕ → List ℕ → Outcome → Type 0
  TellsText text buf' outcome = (outcome ≡ answered buf') × (until_nul buf' ≡ until_nul text)

  -- Over a socket whose `read` gives some of the bytes that are to come and whose `write` takes at least
  -- one byte, and with a round of `write` for each byte: where a RESPONSE with a text that fits in the
  -- buffer with its terminator is to come, a request of the first client sends a REQUEST
  -- header and the word, or only the header for a word of 100 letters or more, and then has the text
  -- as the string in its buffer; what comes behind the answer is not read.
  pub exchange-answered :
      (s : S) (word buf out text rest : List ℕ)
      → Talk In Out (header machine (length text) response ++ (text ++ rest)) out s
      → 8 < length buf
      → length text < length buf
      → length text + hdr_len < 2 ^ 31
      → length (word_bytes word) ≤ fuel
      → 8 ≤ fuel
      → Exchanged s word buf rest out (TellsText text)
  unfolding receive_answer
  exchange-answered s word buf out text rest talk room fits small enough eight =
      let (s1, r, whole) =
        exchange-receive_answer s word buf out (length text) response (text ++ rest) talk room
          enough eight in
      let p =
        read_payload-PayloadRead machine In Out client r.after r.filled text rest
          (out ++ asked machine word) r.talk (r.size small) (omega (arith, r.same, fits)) in
      (
        answered p.string,
        p.string,
        p.after,
        whole ∙ rw (r.type, is_same (machine.htonl response)) p.reads,
        p.same ∙ r.same,
        (refl, p.ends),
        p.talk,
      )

  -- Under the same conditions on the socket, where a header of another type than RESPONSE is to come, a
  -- request reads no more than that header, and tells that there is no such word if the type is ERROR,
  -- and that the answer is wrong if it is not.
  pub exchange-refused :
      (s : S) (word buf out rest : List ℕ) (len t : ℕ)
      → Talk In Out (header machine len t ++ rest) out s
      → t ≢ response
      → t < 2 ^ 32
      → 8 < length buf
      → length (word_bytes word) ≤ fuel
      → 8 ≤ fuel
      → Exchanged s word buf rest out
          (λ _ outcome. outcome ≡ (if t == error then missing else wrong))
  unfolding receive_answer
  exchange-refused s word buf out rest len t talk ne small room enough eight =
      let (s1, r, whole) =
        exchange-receive_answer s word buf out len t rest talk room enough eight in
      let other : (machine.htonl t == machine.htonl response) ≡ false =
        type_differs machine client.law t response small (omega arith) ne in
      elim (Bool-cases (t == error)) [
        | inl e ↦
            let same = ((==_iff t error).0) e in
            (
              missing,
              r.filled,
              r.after,
              whole ∙ rw (r.type, other) (rw (same, is_same (machine.htonl error)) refl),
              r.same,
              rw e refl,
              r.talk,
            )
        | inr e ↦
            let differs =
              type_differs machine client.law t error small (omega arith)
                (λ same. ground (arith, e, same)) in
            (
              wrong,
              r.filled,
              r.after,
              whole ∙ rw (r.type, other, differs) refl,
              r.same,
              rw e refl,
              r.talk,
            )
      ]
