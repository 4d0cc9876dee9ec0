-- ===== src/Client/Batch/Served.antt =====
-- client1.c and server.c: a request of the client that the server's handler answers.
use search_engine.Common.{
  ℕ, ◌+◌, ◌<◌, ◌≤◌, ◌≡◌, inl, inr, refl, ap, ◌∙◌, none, some, List, [], ◌∷◌, ◌++◌, arith, ◌==◌,
  append-nil, lt→ltb, Bool-cases, length, get_elem?, take,
}
use search_engine.Text.{str_get_length}
use search_engine.Text.Scan.{until_nul, str_get_length_lem, until_nul-until_nul}
use search_engine.Table.{DynList}
use search_engine.Index.{Index, Word, dyn_size}
use search_engine.Net.Stream.{IsSink}
use search_engine.Server.{Machine, request, error, search_word, thread_job}
use search_engine.Server.Packet.{docs_text}
use search_engine.Server.Job.{thread_job-found, thread_job-missing}
use search_engine.Client.{answered, missing}
use search_engine.Client.Answer.{Talk, IsClient, header}
use search_engine.Client.Batch.{word_bytes, exchange}
use search_engine.Client.Batch.Exchange.{asked, exchange-answered, exchange-refused}

take-until_nul : (s : List ℕ) → take (length (until_nul s)) s ≡ until_nul s
unfolding until_nul
take-until_nul [] = refl
take-until_nul (c ∷ s) = elim (Bool-cases (c == 0)) [
  | inl e ↦ rw e refl
  | inr e ↦ rw e (ap (λ t. c ∷ t) (take-until_nul s))
]

-- A word of less than 100 letters is sent whole, without its terminator, and its header tells so.
pub word_bytes-until_nul :
    (word : List ℕ)
    → length (until_nul word) < 100
    → (str_get_length word 100 ≡ length (until_nul word)) × (word_bytes word ≡ until_nul word)
unfolding word_bytes
word_bytes-until_nul word h =
    let e : str_get_length word 100 ≡ length (until_nul word) =
      str_get_length_lem word 100 ∙ rw (lt→ltb (length (until_nul word)) 100 h) refl in
    (e, ap (λ n. take n word) e ∙ take-until_nul word)

module _ {S : Type 0} (machine : Machine S) (In Out : S → List ℕ → Type 0)
    (client : IsClient machine In Out) (sink : IsSink machine.write Out) (files : DynList ℕ)
    (index : Index) (fuel : ℕ) (c s : S) (word packet buf : List ℕ) where
  asked-until_nul :
      length (until_nul word) < 100
      → asked machine word ≡ header machine (length (until_nul word)) request ++ until_nul word
  asked-until_nul h =
      let (e, e') = word_bytes-until_nul word h in
      ap (λ n. header machine n request ++ word_bytes word) e
      ∙ ap (λ w. header machine (length (until_nul word)) request ++ w) e'

  -- What the two ends of a connection have of each other: the server's end gets the request for the
  -- word, and what the server has sent when it is done comes to the client's end.
  pub record IsJoined : Type 0 where
    pub asks : Talk In Out (asked machine word) [] s
    pub fresh : Out c []
    pub answers :
        (s' : S) (bs : List ℕ)
        → thread_job machine files fuel s index packet ≡ some (machine.close s')
        → Out s' bs
        → In c bs

  -- On a machine that reads back the bytes of a `uint32_t`, over a socket whose `read` gives some of the
  -- bytes that are to come and whose `write` takes at least one, and with a round of `write` for each
  -- byte: the first client asks for a word of less than 100 letters, that is in the index with lines
  -- whose text is of at most 10240 bytes; the request comes to `thread_job`, and what `thread_job` sends
  -- comes to the client. Then the client sends this request, and ends with that text as the string in
  -- its buffer and with nothing left to read.
  pub exchange-thread_job :
      (item : ℕ) (found : Word) (text : List ℕ)
      → IsJoined
      → length packet ≡ dyn_size + 1
      → length buf ≡ 10241
      → length (until_nul word) < 100
      → search_word index (until_nul word) ≡ some (some item)
      → get_elem? index.words item ≡ some found
      → docs_text machine files found.list ≡ some text
      → length text ≤ dyn_size
      → length text ≤ fuel
      → 100 ≤ fuel
      → (buf' : List ℕ) × (c' : S) × (exchange machine fuel c word buf
          ≡ some (answered buf', buf', c'))
        × (until_nul buf' ≡ until_nul text)
        × Talk In Out [] (asked machine word) c'
  exchange-thread_job item found text joined size room short search at texts fits enough hundred =
      let (_, sent) = word_bytes-until_nul word short in
      let (s', done, out) =
        thread_job-found machine client.law In Out [] (client.source []) sink files index fuel s
          packet (until_nul word) item found text (rw (asked-until_nul short) at joined.asks.0)
          joined.asks.1 size (omega arith) (until_nul-until_nul word) search at texts fits enough
          (omega arith) in
      let (outcome, buf', c', told, _, (tells, ends), talk) =
        exchange-answered machine In Out client fuel c word buf [] text []
          (rw (append-nil text) (joined.answers s' _ done out), joined.fresh) (omega (arith, room))
          (omega (arith, room, fits)) (omega (arith, fits)) (rw sent (omega arith)) (omega arith) in
      (buf', c', told ∙ ap (λ o. some (o, buf', c')) tells, ends, talk)

  -- Under the same conditions, for a word that is not in the index, the client tells that there is no
  -- such word.
  pub exchange-thread_job_missing :
      IsJoined
      → length packet ≡ dyn_size + 1
      → length buf ≡ 10241
      → length (until_nul word) < 100
      → search_word index (until_nul word) ≡ some none
      → 100 ≤ fuel
      → (buf' : List ℕ) × (c' : S) × (exchange machine fuel c word buf ≡ some (missing, buf', c'))
        × Talk In Out [] (asked machine word) c'
  exchange-thread_job_missing joined size room short search hundred =
      let (_, sent) = word_bytes-until_nul word short in
      let (s', done, out) =
        thread_job-missing machine client.law In Out [] (client.source []) sink files index fuel s
          packet (until_nul word) (rw (asked-until_nul short) at joined.asks.0) joined.asks.1 size
          (omega arith) (until_nul-until_nul word) search (omega arith) in
      let (outcome, buf', c', told, _, tells, talk) =
        exchange-refused machine In Out client fuel c word buf [] [] 0 error
          (rw (append-nil (header machine 0 error)) (joined.answers s' _ done out), joined.fresh)
          (omega arith) (omega arith) (omega (arith, room)) (rw sent (omega arith)) (omega arith) in
      (buf', c', told ∙ ap (λ o. some (o, buf', c')) tells, talk)
