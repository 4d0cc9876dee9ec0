-- ===== src/Tests/Systems.antt =====
-- The pool, the socket and the answers at concrete inputs.
use search_engine.Common.{
  ℕ, ◌<◌, ◌≤◌, ◌≡◌, refl, sym, ap, none, some, List, [], ◌∷◌, ◌++◌, arith, length, take, replicate,
}
use search_engine.Table.{DynList}
use search_engine.Pool.{submit, serve, empty_queue, run}
use search_engine.Pool.Fifo.{create-Holds, run_fifo, run-run_fifo}
use search_engine.Net.{
  Reply, bytes, received, recv_from_host, Written, wrote, sent, send_to_host, create_pckt,
}
use search_engine.Net.Stream.{IsSource, recv_from_host-stream, IsSink, send_to_host-all}
use search_engine.Index.{Index, Word}
use search_engine.Server.{Machine, response, error, name_at, header_bytes, respond}
use search_engine.Server.Packet.{lines_text, docs_text}
use search_engine.Server.Answer.{respond-overruns}

run-run_fifo_example :
    run {J = ℕ} empty_queue (serve ∷ submit 3 ∷ submit 4 ∷ serve ∷ serve ∷ [])
    ≡ some (run_fifo [] (serve ∷ submit 3 ∷ submit 4 ∷ serve ∷ serve ∷ []))
run-run_fifo_example =
    run-run_fifo (serve ∷ submit 3 ∷ submit 4 ∷ serve ∷ serve ∷ []) empty_queue [] create-Holds

-- A socket that is a list of bytes, read and written one at a time.
abbrev read_one : List ℕ → ℕ → Reply × List ℕ
read_one [] n = (bytes [], [])
read_one (c ∷ s) n = (bytes (c ∷ []), s)

abbrev write_one : List ℕ → List ℕ → Written × List ℕ
write_one s left = (wrote 1, s ++ take 1 left)

read_one-reads :
    (s stream : List ℕ) (rem : ℕ)
    → s ≡ stream
    → 0 < rem
    → (chunk : List ℕ) × (rest : List ℕ) × (s' : List ℕ) × (stream ≡ chunk ++ rest)
      × (read_one s rem ≡ (bytes chunk, s'))
      × (s' ≡ rest)
      × (length chunk ≤ rem)
      × (chunk ≡ [] → rest ≡ [])
read_one-reads [] stream rem e h = ([], [], [], sym e, refl, refl, omega arith, λ _. refl)
read_one-reads (c ∷ s) stream rem e h = (c ∷ [], s, s, sym e, refl, refl, omega arith, λ e'. cc e')

read_one-IsSource : IsSource read_one (λ s stream. s ≡ stream)
read_one-IsSource = record { reads = read_one-reads }

write_one-writes :
    (s out left : List ℕ)
    → s ≡ out
    → 0 < length left
    → (n : ℕ) × (s' : List ℕ) × (write_one s left ≡ (wrote n, s'))
      × (0 < n)
      × (n ≤ length left)
      × (s' ≡ out ++ take n left)
write_one-writes s out left e h =
    (1, s ++ take 1 left, refl, omega arith, omega arith, ap (λ x. x ++ take 1 left) e)

write_one-IsSink : IsSink write_one (λ s out. s ≡ out)
write_one-IsSink = record { writes = write_one-writes }

recv_from_host-stream_example :
    (s' : List ℕ) × (recv_from_host read_one (5 ∷ 6 ∷ 7 ∷ []) 2 ≡ some (received (5 ∷ 6 ∷ []), s'))
    × (s' ≡ 7 ∷ [])
recv_from_host-stream_example =
    recv_from_host-stream read_one-IsSource (5 ∷ 6 ∷ 7 ∷ []) (5 ∷ 6 ∷ 7 ∷ []) 2 refl

send_to_host-all_example :
    (s' : List ℕ) × (send_to_host write_one 3 (1 ∷ []) (5 ∷ 6 ∷ []) ≡ some (sent 2, s'))
    × (s' ≡ 1 ∷ 5 ∷ 6 ∷ [])
send_to_host-all_example =
    send_to_host-all write_one-IsSink (1 ∷ []) (1 ∷ []) (5 ∷ 6 ∷ []) 3 refl (omega arith)

abbrev machine : Machine (List ℕ)
machine = record {
  read = read_one;
  write = write_one;
  close = λ s. s;
  load = λ bs. length bs;
  bytes_of = λ n. n ∷ 0 ∷ 0 ∷ 0 ∷ [];
  htonl = λ n. n;
  ntohl = λ n. n;
  name = λ pointer. 120 ∷ [];
  line_text = λ name line. name ++ line ∷ [];
}

-- The word 0 is on the lines 4 and 5 of the document 0.
abbrev names : DynList ℕ
names = record { last_index = 0; phys_len = 2; dyn_list = some 9 ∷ none ∷ [] }

abbrev found_word : Word
found_word = record {
  hash = 98;
  str = 98 ∷ 0 ∷ [];
  list = record { val = 0; list = 4 ∷ 5 ∷ replicate 8 0; list_len = 10; last_index = 2 } ∷ [];
}

abbrev one_word : Index
one_word = record {
  table = record { last_index = 2; phys_len = 4; dyn_list = none ∷ none ∷ some 0 ∷ none ∷ [] };
  words = found_word ∷ [];
}

found_text : docs_text machine names found_word.list ≡ some (120 ∷ 4 ∷ 120 ∷ 5 ∷ [])
unfolding docs_text lines_text name_at
found_text = refl

length-header_bytes :
    (n : ℕ) → length (header_bytes machine (create_pckt machine.htonl n response)) ≡ 8
unfolding header_bytes
length-header_bytes n = refl

length-header_bytes-error : length (header_bytes machine (create_pckt machine.htonl 0 error)) ≡ 8
unfolding header_bytes
length-header_bytes-error = refl

respond-overruns_example : respond machine names 8 [] one_word (replicate 4 0) (some 0) ≡ none
respond-overruns_example =
    respond-overruns machine names 8 [] one_word (replicate 4 0) 0 found_word
      (120 ∷ 4 ∷ 120 ∷ 5 ∷ []) refl found_text (omega arith) (omega arith)
