-- ===== src/Index.antt =====
-- server.c and helper.c: the inverted index, `struct Word`, and what `parse` does with one word. A
-- pointer to a word is its place in the list of all words that were made. `none` is a fault: an
-- access outside of an array, a division by zero, or a null pointer that is followed.
pub mod Reads
pub mod Agree
pub mod View
pub mod Record
use search_engine.Common.{
  ℕ, suc, ◌+◌, ◌%◌, Option, none, some, List, [], ◌∷◌, ◌++◌, Bool, true, false, ◌==◌, if◌then◌else◌,
  ◌>>=◌, get_elem?, set, length,
}
use search_engine.Common.Int.{ℤ, pos, negsuc}
use search_engine.Text.{str_get_length, str_copy, str_compare}
use search_engine.Hash.{hash_function}
use search_engine.Table
use search_engine.Table.{DynList, Realloc, disperse_keys}
use search_engine.Postings.{Link, LineMemory, add_document, add_line}
use search_engine.Parse.{parse_line}

pub record Word : Type 0 where
  pub hash : ℕ
  pub str : List ℕ
  pub list : List Link

-- `Dynlist`, and the words that its cells point to.
pub record Index : Type 0 where
  pub table : DynList ℕ
  pub words : List Word

-- What the index takes from the allocator. `bytes n` is what `tc_malloc(n)` points to, of any
-- content.
pub record Memory : Type 0 where
  pub bytes : ℕ → Option (List ℕ)
  pub lines : LineMemory
  pub cells : Realloc (Option ℕ)

abbrev pub dyn_size : ℕ
dyn_size = 10240

abbrev pub max_word_len : ℕ
max_word_len = 2048

abbrev pub is_zero : ℤ → Bool
is_zero (pos n) = n == 0
is_zero (negsuc n) = false

-- `!StrCompare(((Word_T)item)->str, str, DYN_SIZE)`.
unfoldable pub word_hit : List Word → List ℕ → ℕ → Bool
word_hit words str item = elim (get_elem? words item) [
  | none ↦ false
  | some word ↦ is_zero (str_compare word.str str dyn_size)
]

-- `lookup(dynlist, str, hash)`.
unfoldable pub lookup : Index → List ℕ → ℕ → Option (Option ℕ)
lookup index str hash = Table.lookup (word_hit index.words str) index.table hash

-- `word->hash` of a pointer in the table.
pub hash_of : List Word → ℕ → ℕ
hash_of words item = elim (get_elem? words item) [ none ↦ 0 | some word ↦ word.hash ]

-- The branch of `parse` for a word that is in the table: one more line.
pub known_word : Memory → ℕ → ℕ → Index → ℕ → Option Index
known_word memory doc_id line_num index item = do
  word ← get_elem? index.words item
  list ← add_line memory.lines word.list doc_id line_num
  some (record index { words = set index.words item (record word { list = list }) })

-- The word that the other branch makes, with its first line.
pub new_word : Memory → ℕ → ℕ → List ℕ → Option Word
new_word memory doc_id line_num start = do
  buffer ← memory.bytes (str_get_length start max_word_len + 1)
  (_, str) ← str_copy buffer start max_word_len
  list ← add_document memory.lines [] doc_id line_num
  some (record { hash = hash_function start; str = str; list = list })

-- `if (ret == EXTEND) disperse_keys(dynlist)`.
pub disperse_if : ℤ → List Word → DynList ℕ → Option (DynList ℕ)
disperse_if ret words table = elim ret [
  | pos n ↦ if n == 2 then disperse_keys (hash_of words) table else some table
  | negsuc n ↦ some table
]

-- The branch for a word that is not in the table.
pub unknown_word : Memory → ℕ → ℕ → List ℕ → ℕ → Index → Option Index
unknown_word memory doc_id line_num start hash index = do
  word ← new_word memory doc_id line_num start
  (ret, table) ← Table.insert memory.cells index.table (length index.words) hash
  table' ← disperse_if ret (index.words ++ word ∷ []) table
  some (record { table = table'; words = index.words ++ word ∷ [] })

pub known_or_not : Memory → ℕ → ℕ → List ℕ → ℕ → Index → Option ℕ → Option Index
known_or_not memory doc_id line_num start hash index (some item) =
    known_word memory doc_id line_num index item
known_or_not memory doc_id line_num start hash index none =
    unknown_word memory doc_id line_num start hash index

-- The end of the body of the loop of `parse`, with the word at `start`.
pub index_word : Memory → ℕ → ℕ → List ℕ → Index → Option Index
index_word memory doc_id line_num start index = if index.table.phys_len == 0 then none else (do
  item ← lookup index start (hash_function start % index.table.phys_len)
  known_or_not memory doc_id line_num start (hash_function start % index.table.phys_len) index item)

-- `parse(dynlist, buf, DYN_SIZE, docId, line_num)` for a table and a buffer that are not null. It
-- returns 1, since its tests of the result of `insert` against 0 fail.
pub parse : (ℕ → Bool) → Memory → ℕ → ℕ → List ℕ → Index → Option Index
parse isalpha memory doc_id line_num buf index =
    parse_line isalpha (index_word memory doc_id line_num) dyn_size buf index
