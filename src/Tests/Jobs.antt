-- ===== src/Tests/Jobs.antt =====
-- A request over a socket, at a concrete input.
use search_engine.Common.{ℕ, ◌≡◌, refl, some, [], ◌∷◌, ◌++◌, arith, replicate, length-replicate}
use search_engine.Net.{create_pckt}
use search_engine.Server.{response, error, header_bytes, thread_job}
use search_engine.Server.Job.{thread_job-found, thread_job-missing}
use search_engine.Tests.Sockets.{
  Socket, Coming, Gone, read_byte-IsSource, write_byte-IsSink, machine, machine-IsMachine, names,
  b_word, b_index, b_text, b-search, b-ends, asked, asked_c, c-search, c-ends,
}

thread_job-missing_example :
    (s' : Socket) × (thread_job machine names 8 (asked_c, []) b_index (replicate 10241 0) ≡ some s')
    × (s'.1 ≡ header_bytes machine (create_pckt machine.htonl 0 error))
thread_job-missing_example =
    thread_job-missing machine machine-IsMachine Coming Gone [] (read_byte-IsSource [])
      write_byte-IsSink names b_index 8 (asked_c, []) (replicate 10241 0) (99 ∷ []) refl refl
      (length-replicate {A = ℕ} 10241 0) (omega arith) c-ends c-search (omega arith)

thread_job-found_example :
    (s' : Socket) × (thread_job machine names 8 (asked, []) b_index (replicate 10241 0) ≡ some s')
    × (s'.1 ≡ header_bytes machine (create_pckt machine.htonl 4 response) ++ 120 ∷ 4 ∷ 120 ∷ 5 ∷ [])
thread_job-found_example =
    thread_job-found machine machine-IsMachine Coming Gone [] (read_byte-IsSource [])
      write_byte-IsSink names b_index 8 (asked, []) (replicate 10241 0) (98 ∷ []) 0 b_word
      (120 ∷ 4 ∷ 120 ∷ 5 ∷ []) refl refl (length-replicate {A = ℕ} 10241 0) (omega arith) b-ends
      b-search refl b_text (omega arith) (omega arith) (omega arith)
