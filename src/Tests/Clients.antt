-- ===== src/Tests/Clients.antt =====
-- The clients over sockets, at concrete inputs.
use search_engine.Common.{
  ℕ, ◌+◌, ◌<◌, ◌≤◌, ◌≡◌, refl, sym, ap, ◌∙◌, none, some, List, [], ◌∷◌, ◌++◌, true, arith,
  append-nil, length, take, replicate, length-replicate,
}
use mathlib.Core.Option.{some-injective}
use search_engine.Text.Scan.{until_nul}
use search_engine.Net.Stream.{IsSink}
use search_engine.Server.{request, response, error, search_word}
use search_engine.Server.Job.{thread_job-found}
use search_engine.Client.{Connector, Outcome, answered, missing}
use search_engine.Client.Answer.{Talk, IsClient, header}
use search_engine.Client.Batch.{word_bytes, exchange, request_server}
use search_engine.Client.Batch.Exchange.{asked, Exchanged, exchange-refused}
use search_engine.Client.Batch.Loop.{IsServed, AllTold, request_server-AllTold}
use search_engine.Client.Batch.Served.{word_bytes-until_nul, IsJoined, exchange-thread_job}
use search_engine.Client.Cli
use search_engine.Client.Cli.Exchange.{exchange-overruns}
use search_engine.Tests.Sockets.{
  Socket, write_byte, Coming, Gone, read_byte-IsSource, write_byte-IsSink, machine,
  machine-IsMachine, names, b_word, b_index, b_text, b-search, b-ends,
}

write_byte-keeps : (stream : List ℕ) → IsSink write_byte (λ s out. Talk Coming Gone stream out s)
write_byte-keeps stream = record {
  writes = λ s out left (before, e) h. (
    1,
    (s.0, s.1 ++ take 1 left),
    refl,
    omega arith,
    omega arith,
    (before, ap (λ x. x ++ take 1 left) e),
  );
}

machine-IsClient : IsClient machine Coming Gone
machine-IsClient = record {
  law = machine-IsMachine;
  source = read_byte-IsSource;
  sink = write_byte-keeps;
}

-- "b".
abbrev b_string : List ℕ
b_string = 98 ∷ 0 ∷ []

abbrev zeros : ℕ → List ℕ
zeros n = replicate n 0

b_until : until_nul b_string ≡ 98 ∷ []
unfolding until_nul
b_until = refl

b-short : length (until_nul b_string) < 100
unfolding until_nul
b-short = omega arith

b_bytes : word_bytes b_string ≡ 98 ∷ []
b_bytes = (word_bytes-until_nul b_string b-short).1 ∙ b_until

few_bytes : length (word_bytes b_string) ≤ 100
few_bytes = omega (arith, ap length b_bytes)

few_bytes_more : 8 + length (word_bytes b_string) ≤ 100
few_bytes_more = omega (arith, ap length b_bytes)

long_enough : 8 < length (zeros 10241)
long_enough = omega (arith, length-replicate {A = ℕ} 10241 0)

b-found : search_word b_index (until_nul b_string) ≡ some (some 0)
b-found = ap (search_word b_index) b_until ∙ b-search

-- The request for "b" as the first client sends it.
b_asked : asked machine b_string ≡ header machine 1 request ++ 98 ∷ []
b_asked =
    (ap (λ n. header machine n request ++ word_bytes b_string)
        ((word_bytes-until_nul b_string b-short).0 ∙ ap length b_until)
      ∙ ap (λ w. header machine 1 request ++ w) b_bytes)

exchange-refused_example :
    Exchanged machine Coming Gone machine-IsClient 100
      (header machine 0 error, [])
      b_string
      (zeros 10241)
      []
      []
      (λ _ outcome. outcome ≡ missing)
exchange-refused_example =
    exchange-refused machine Coming Gone machine-IsClient 100 (header machine 0 error, []) b_string
      (zeros 10241) [] [] 0 error (sym (append-nil (header machine 0 error)), refl)
      (λ e. omega (arith, e)) (omega arith) long_enough few_bytes (omega arith)

-- The text of the lines of "b".
abbrev b_lines : List ℕ
b_lines = 120 ∷ 4 ∷ 120 ∷ 5 ∷ []

abbrev b_answer : List ℕ
b_answer = header machine 4 response ++ b_lines

-- A server that gives this answer on every connection.
abbrev connector : Connector Socket
connector = record { socket = λ s. (true, s); connect = λ s. (true, (b_answer, [])) }

abbrev Always : Socket → Type 0
Always s = Unit

connector-IsServed : IsServed machine connector Coming Gone Always (asked machine b_string) b_answer
connector-IsServed = record {
  opens = λ s _. (s, (b_answer, []), refl, refl, (refl, refl));
  closes = λ s _. tt;
}

request_server-AllTold_example :
    (outcomes : List Outcome) × (s' : Socket) × (request_server machine connector 100 3
        ([], [])
        b_string
      ≡ some (outcomes, s'))
    × (length outcomes ≡ 3)
    × AllTold b_lines outcomes
    × Always s'
request_server-AllTold_example =
    request_server-AllTold machine connector Coming Gone Always machine-IsClient 100 b_string
      b_lines connector-IsServed 3 ([], []) tt (omega arith) few_bytes (omega arith)

-- What the server sends for "b".
b-joined :
    IsJoined machine Coming Gone machine-IsClient write_byte-IsSink names b_index 100
      (b_answer, [])
      (asked machine b_string, [])
      b_string
      (zeros 10241)
      (zeros 10241)
b-joined = record {
  asks = (refl, refl);
  fresh = refl;
  answers = λ s' bs done gone.
      let (s0, done0, gone0) =
        thread_job-found machine machine-IsMachine Coming Gone [] (read_byte-IsSource [])
          write_byte-IsSink names b_index 100 (asked machine b_string, []) (zeros 10241) (98 ∷ []) 0
          b_word b_lines b_asked refl (length-replicate {A = ℕ} 10241 0) (omega arith) b-ends
          b-search refl b_text (omega arith) (omega arith) (omega arith) in
      sym gone0 ∙ ap (λ s. s.1) (some-injective _ _ (sym done0 ∙ done)) ∙ gone;
}

exchange-thread_job_example :
    (buf' : List ℕ) × (c' : Socket) × (exchange machine 100 (b_answer, []) b_string (zeros 10241)
      ≡ some (answered buf', buf', c'))
    × (until_nul buf' ≡ until_nul b_lines)
    × Talk Coming Gone [] (asked machine b_string) c'
exchange-thread_job_example =
    exchange-thread_job machine Coming Gone machine-IsClient write_byte-IsSink names b_index 100
      (b_answer, []) (asked machine b_string, []) b_string (zeros 10241) (zeros 10241) 0 b_word
      b_lines b-joined (length-replicate {A = ℕ} 10241 0) (length-replicate {A = ℕ} 10241 0) b-short
      b-found refl b_text (omega arith) (omega arith) (omega arith)

-- An answer of 10240 bytes, as long as the buffer of the second client.
abbrev long_text : List ℕ
long_text = replicate 10240 65

exchange-overruns_example :
    Cli.exchange machine 100
      (header machine (length long_text) response ++ (long_text ++ []), [])
      b_string
      (zeros 10240)
    ≡ none
exchange-overruns_example =
    exchange-overruns machine Coming Gone machine-IsClient 100
      (header machine (length long_text) response ++ (long_text ++ []), []) b_string (zeros 10240)
      [] long_text [] (refl, refl) (omega (arith, length-replicate {A = ℕ} 10240 0))
      (omega (arith, length-replicate {A = ℕ} 10240 65)) few_bytes_more
      (omega (arith, length-replicate {A = ℕ} 10240 0, length-replicate {A = ℕ} 10240 65))
