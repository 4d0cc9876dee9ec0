-- ===== src/Tests/Sockets.antt =====
-- A socket, a machine and an index for the tests.
use search_engine.Common.{
  ℕ, ◌+◌, ◌*◌, ◌/◌, ◌%◌, ◌^◌, ◌<◌, ◌≤◌, ◌≡◌, refl, sym, ap, none, some, List, [], ◌∷◌, ◌++◌, arith,
  length, take, replicate,
}
use search_engine.Text.{str_compare}
use search_engine.Text.Scan.{until_nul}
use search_engine.Hash.{hash_function, hash_loop}
use search_engine.Table
use search_engine.Table.{DynList}
use search_engine.Index.{Index, Word, lookup, word_hit}
use search_engine.Net.{Reply, bytes, Written, wrote, create_pckt}
use search_engine.Net.Stream.{IsSource, IsSink}
use search_engine.Server.{Machine, request, name_at, header_bytes, search_word}
use search_engine.Server.Packet.{lines_text, docs_text}
use search_engine.Server.Receive.{IsMachine}

-- A socket that is the bytes to come and the bytes sent; both go one at a time.
abbrev pub Socket : Type 0
Socket = List ℕ × List ℕ

abbrev pub read_byte : Socket → ℕ → Reply × Socket
read_byte ([], sent) n = (bytes [], ([], sent))
read_byte (c ∷ s, sent) n = (bytes (c ∷ []), (s, sent))

abbrev pub write_byte : Socket → List ℕ → Written × Socket
write_byte (s, sent) left = (wrote 1, (s, sent ++ take 1 left))

abbrev pub Coming : Socket → List ℕ → Type 0
Coming socket stream = socket.0 ≡ stream

abbrev pub Gone : Socket → List ℕ → Type 0
Gone socket out = socket.1 ≡ out

pub read_byte-IsSource :
    (out : List ℕ) → IsSource read_byte (λ s stream. Coming s stream × Gone s out)
read_byte-IsSource out = record { reads = λ s stream rem holds h. reads_byte s stream rem holds h }
  where
    reads_byte :
        (s : Socket) (stream : List ℕ) (rem : ℕ)
        → Coming s stream × Gone s out
        → 0 < rem
        → (chunk : List ℕ) × (rest : List ℕ) × (s' : Socket) × (stream ≡ chunk ++ rest)
          × (read_byte s rem ≡ (bytes chunk, s'))
          × (Coming s' rest × Gone s' out)
          × (length chunk ≤ rem)
          × (chunk ≡ [] → rest ≡ [])
    reads_byte ([], sent) stream rem (e, g) h =
        ([], [], ([], sent), sym e, refl, (refl, g), omega arith, λ _. refl)
    reads_byte (c ∷ s, sent) stream rem (e, g) h =
        (c ∷ [], s, (s, sent), sym e, refl, (refl, g), omega arith, λ e'. cc e')

pub write_byte-IsSink : IsSink write_byte Gone
write_byte-IsSink = record {
  writes = λ s out left e h.
      (1, (s.0, s.1 ++ take 1 left), refl, omega arith, omega arith, ap (λ x. x ++ take 1 left) e);
}

-- A machine whose byte order is the network's.
abbrev pub big_endian : ℕ → List ℕ
big_endian x = x / 2 ^ 24 ∷ x / 2 ^ 16 % 2 ^ 8 ∷ x / 2 ^ 8 % 2 ^ 8 ∷ x % 2 ^ 8 ∷ []

abbrev pub loaded : List ℕ → ℕ
loaded (a ∷ b ∷ c ∷ d ∷ r) = a * 2 ^ 24 + b * 2 ^ 16 + c * 2 ^ 8 + d
loaded _ = 0

abbrev pub machine : Machine Socket
machine = record {
  read = read_byte;
  write = write_byte;
  close = λ s. s;
  load = loaded;
  bytes_of = big_endian;
  htonl = λ n. n % 2 ^ 32;
  ntohl = λ n. n % 2 ^ 32;
  name = λ pointer. 120 ∷ [];
  line_text = λ name line. name ++ line ∷ [];
}

pub machine-IsMachine : IsMachine machine
machine-IsMachine = record {
  four = λ x. refl;
  loads = λ x r h. omega arith;
  range = λ x. omega arith;
  back = λ x h. omega arith;
}

abbrev pub names : DynList ℕ
names = record { last_index = 0; phys_len = 2; dyn_list = some 9 ∷ none ∷ [] }

-- The word "b" on the lines 4 and 5 of the document 0.
abbrev pub b_word : Word
b_word = record {
  hash = 98;
  str = 98 ∷ 0 ∷ [];
  list = record { val = 0; list = 4 ∷ 5 ∷ replicate 8 0; list_len = 10; last_index = 2 } ∷ [];
}

abbrev pub b_index : Index
b_index = record {
  table = record { last_index = 2; phys_len = 4; dyn_list = none ∷ none ∷ some 0 ∷ none ∷ [] };
  words = b_word ∷ [];
}

pub b_text : docs_text machine names b_word.list ≡ some (120 ∷ 4 ∷ 120 ∷ 5 ∷ [])
unfolding docs_text lines_text name_at
b_text = refl

pub b-search : search_word b_index (98 ∷ []) ≡ some (some 0)
unfolding search_word lookup str_compare Table.lookup Table.lookup_from word_hit hash_function
    hash_loop
b-search = refl

pub b-ends : until_nul (98 ∷ []) ≡ 98 ∷ []
unfolding until_nul
b-ends = refl

-- The request for "b", as its bytes come.
abbrev pub asked : List ℕ
asked = header_bytes machine (create_pckt machine.htonl 1 request) ++ 98 ∷ []

-- The request for "c", which is in no document.
abbrev pub asked_c : List ℕ
asked_c = header_bytes machine (create_pckt machine.htonl 1 request) ++ 99 ∷ []

pub c-search : search_word b_index (99 ∷ []) ≡ some none
unfolding search_word lookup str_compare Table.lookup Table.lookup_from word_hit hash_function
    hash_loop
c-search = refl

pub c-ends : until_nul (99 ∷ []) ≡ 99 ∷ []
unfolding until_nul
c-ends = refl
