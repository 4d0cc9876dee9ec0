-- ===== src/Files.antt =====
-- server.c: `tokenizer` and `read_dir`, which index the files of a directory. A directory is the list
-- of the entries that `readdir` gives; the pointer `entry->d_name` is the entry's place in it.
pub mod Row
use search_engine.Common.{
  ℕ, suc, ◌+◌, Option, none, some, List, [], ◌∷◌, Bool, true, false, not, ◌&&◌, if◌then◌else◌,
  ◌>>=◌, replicate,
}
use search_engine.Common.Int.{ℤ, pos, negsuc}
use search_engine.Text.{str_copy, str_concat, str_compare}
use search_engine.Table
use search_engine.Table.{DynList}
use search_engine.Index.{Index, Memory, is_zero, max_word_len, parse}

abbrev pub max_path_len : ℕ
max_path_len = 4096

-- `file_len`, and the size of `file_buf`.
abbrev pub file_len : ℕ
file_len = max_word_len + max_path_len + 1

-- `struct dirent`; `is_regular` is that `d_type` is `DT_REG`.
pub record Entry : Type 0 where
  pub is_regular : Bool
  pub d_name : List ℕ

-- What `tokenizer` puts in `file_buf`.
pub path_of : List ℕ → List ℕ → Option (List ℕ)
path_of abs_path filename = do
  (_, copied) ← str_copy (replicate file_len 0) abs_path file_len
  (_, slashed) ← str_concat copied (47 ∷ []) file_len
  (_, path) ← str_concat slashed filename file_len
  some path

-- The loop of `tokenizer` over what `fgets` leaves in the buffer at each call.
pub tokenize_lines : (ℕ → Bool) → Memory → ℕ → ℕ → List (List ℕ) → Index → Option Index
tokenize_lines isalpha memory doc_id line_num [] index = some index
tokenize_lines isalpha memory doc_id line_num (buf ∷ bufs) index = do
  index' ← parse isalpha memory doc_id line_num buf index
  tokenize_lines isalpha memory doc_id (suc line_num) bufs index'

-- `tokenizer` from its test of `fp`.
pub tokenize_file : (ℕ → Bool) → Memory → ℕ → Option (List (List ℕ)) → Index → Option (ℤ × Index)
tokenize_file isalpha memory doc_id none index = some (negsuc 0, index)
tokenize_file isalpha memory doc_id (some bufs) index = do
  index' ← tokenize_lines isalpha memory doc_id 1 bufs index
  some (pos 1, index')

-- `fopen path` is `none` for a file that cannot be opened, and otherwise what `fgets` leaves in a
-- buffer of `DYN_SIZE` bytes at each of its calls that do not fail.
pub tokenizer :
    (fopen : List ℕ → Option (List (List ℕ)))
    → (ℕ → Bool)
    → Memory
    → List ℕ
    → List ℕ
    → ℕ
    → Index
    → Option (ℤ × Index)
tokenizer fopen isalpha memory filename abs_path doc_id index = do
  path ← path_of abs_path filename
  tokenize_file isalpha memory doc_id (fopen path) index

-- The entries that the test in `read_dir` lets pass.
pub is_kept : Entry → Bool
is_kept entry =
    entry.is_regular
    && not (is_zero (str_compare entry.d_name (46 ∷ []) max_word_len))
    && not (is_zero (str_compare entry.d_name (46 ∷ 46 ∷ []) max_word_len))

-- `Dynlist`, `file_list` and `docId`.
pub record Store : Type 0 where
  pub index : Index
  pub files : DynList ℕ
  pub doc_id : ℕ

module _ (fopen : List ℕ → Option (List (List ℕ))) (isalpha : ℕ → Bool) (memory : Memory)
    (abs_path : List ℕ) where
  -- The body of the loop of `read_dir`, with the entry at `place`.
  pub read_entry : ℕ → Entry → Bool → Store → Option Store
  read_entry place entry false store = some store
  read_entry place entry true store = do
    (_, files) ← Table.insert memory.cells store.files place store.files.last_index
    (_, index) ← tokenizer fopen isalpha memory entry.d_name abs_path store.doc_id store.index
    some (record { index = index; files = files; doc_id = suc store.doc_id })

  pub read_entries : ℕ → List Entry → Store → Option Store
  read_entries place [] store = some store
  read_entries place (entry ∷ entries) store = do
    store' ← read_entry place entry (is_kept entry) store
    read_entries (suc place) entries store'

  -- `folder` is `none` where `opendir` fails, and `read_dir` returns the null pointer then.
  pub read_dir : Option (List Entry) → Index → DynList ℕ → Option (Bool × Store)
  read_dir none index files = some (false, record { index = index; files = files; doc_id = 0 })
  read_dir (some entries) index files = do
    store ← read_entries 0 entries (record { index = index; files = files; doc_id = 0 })
    some (true, store)
