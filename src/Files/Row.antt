-- ===== src/Files/Row.antt =====
-- server.c: `read_dir` over the entries of a directory, and the numbers of the documents.
use search_engine.Common.{
  ℕ, zero, suc, ◌+◌, ◌<◌, ◌≤◌, ◌≡◌, ◌≢◌, false, not, ◌&&◌, ◌==◌, ==_iff, inl, inr, refl, ap, ◌∙◌,
  Option, some, List, [], ◌∷◌, ◌++◌, Bool, true, arith, append-nil, append_assoc, if◌then◌else◌,
  Bool-cases, Option-cases, length, length-append, ◌>>=◌,
}
use mathlib.Core.Path.{subst}
use search_engine.Common.Int.{ℤ, pos, negsuc, ◌-ℤ◌}
use search_engine.Text.{str_compare, char}
use search_engine.Text.Scan.{until_nul}
use search_engine.Text.Compare.{IsBytes, char-injective}
use search_engine.Table.{DynList, insert}
use search_engine.Table.Row.{IsRow, insert-IsRow}
use search_engine.Index.{Index, Memory, is_zero, max_word_len}
use search_engine.Files.{Entry, is_kept, tokenizer, read_entry, read_entries, read_dir}

-- The names of the directory itself and of the one above it.
abbrev pub is_dots : List ℕ → Bool
is_dots [] = false
is_dots (a ∷ []) = a == 46
is_dots (a ∷ b ∷ []) = a == 46 && b == 46
is_dots (a ∷ b ∷ c ∷ name) = false

-- The entries that are documents: regular files that are not called "." or "..".
abbrev pub is_document : Entry → Bool
is_document entry = entry.is_regular && not (is_dots (until_nul entry.d_name))

-- The places of the entries that are documents, the first entry being at `place`.
unfoldable pub document_places : ℕ → List Entry → List ℕ
document_places place [] = []
document_places place (entry ∷ entries) =
    let rest = document_places (suc place) entries in
    if is_document entry then place ∷ rest else rest

-- The names are strings of bytes.
abbrev pub AreNames : List Entry → Type 0
AreNames [] = Unit
AreNames (entry ∷ entries) = IsBytes entry.d_name × AreNames entries

-- The comparison with a name without zeros, byte by byte.
abbrev is_name : List ℕ → List ℕ → Bool
is_name [] [] = true
is_name [] (d ∷ t) = false
is_name (c ∷ s) [] = false
is_name (c ∷ s) (d ∷ t) = c == d && is_name s t

abbrev IsText : List ℕ → Type 0
IsText [] = Unit
IsText (d ∷ t) = (0 < d) × (d < 256) × IsText t

is_zero_not : (z : ℤ) → z ≢ pos 0 → is_zero z ≡ false
is_zero_not (pos n) h = ground (arith, ap pos)
is_zero_not (negsuc n) h = refl

str_compare-is_name :
    (n : ℕ) (s t : List ℕ)
    → IsBytes s
    → IsText t
    → length t < n
    → is_zero (str_compare s t n) ≡ is_name (until_nul s) t
unfolding str_compare until_nul
str_compare-is_name zero s t hs ht k = elim k [ ]
str_compare-is_name (suc n) [] [] hs ht k = refl
str_compare-is_name (suc n) [] (d ∷ t) hs (low, high, ht) k =
    is_zero_not (char 0 -ℤ char d)
      (λ e. omega (arith, low, char-injective 0 d (omega arith) high e))
str_compare-is_name (suc n) (c ∷ s) [] (b, hs) ht k = elim (Bool-cases (c == 0)) [
  | inl e ↦ rw ((==_iff c 0).0 e) refl
  | inr e ↦
      let apart : c ≢ 0 = λ p. ground arith in
      rw e (is_zero_not (char c -ℤ char 0) (λ z. apart (char-injective c 0 b (omega arith) z)))
]
str_compare-is_name (suc n) (c ∷ s) (d ∷ t) (b, hs) (low, high, ht) k = elim (Bool-cases (c == 0)) [
  | inl e ↦ rw ((==_iff c 0).0 e) (
      is_zero_not (char 0 -ℤ char d)
        (λ z. omega (arith, low, char-injective 0 d (omega arith) high z)))
  | inr e ↦ elim (Bool-cases (c == d)) [
    | inl same ↦ rw (e, same) (str_compare-is_name n s t hs ht (omega arith))
    | inr other ↦
        let apart : c ≢ d = λ p. ground arith in
        rw (e, other) (is_zero_not (char c -ℤ char d) (λ z. apart (char-injective c d b high z)))
  ]
]

is_kept-is_document : (entry : Entry) → IsBytes entry.d_name → is_kept entry ≡ is_document entry
unfolding is_kept
is_kept-is_document entry h =
    rw
      (
        str_compare-is_name max_word_len entry.d_name (46 ∷ []) h (omega arith, omega arith, tt)
            (omega arith),
        str_compare-is_name max_word_len entry.d_name (46 ∷ 46 ∷ []) h
            (omega arith, omega arith, (omega arith, omega arith, tt)) (omega arith),
      )
      (dots (until_nul entry.d_name))
  where
    dots :
        (s : List ℕ)
        → (entry.is_regular && not (is_name s (46 ∷ [])) && not (is_name s (46 ∷ 46 ∷ [])))
          ≡ (entry.is_regular && not (is_dots s))
    dots [] = ground arith
    dots (a ∷ []) = ground arith
    dots (a ∷ b ∷ []) = ground arith
    dots (a ∷ b ∷ c ∷ s) = ground arith

module _ (fopen : List ℕ → Option (List (List ℕ))) (isalpha : ℕ → Bool) (memory : Memory)
    (abs_path : List ℕ) where
  -- The documents are indexed one after another, under consecutive numbers from `doc_id`.
  pub index_documents : ℕ → List Entry → Index → Option Index
  index_documents doc_id [] index = some index
  index_documents doc_id (entry ∷ entries) index =
      let indexed = tokenizer fopen isalpha memory entry.d_name abs_path doc_id index in
      let rest = index_documents doc_id entries index in
      if is_document entry
      then (indexed >>= λ r. index_documents (suc doc_id) entries r.1)
      else rest

  -- What `read_entries` comes to, of a row of names `items`.
  Reads : ℕ → ℕ → List ℕ → List Entry → DynList ℕ → Type 0
  Reads place doc_id items entries files =
      (files' : DynList ℕ) × IsRow (items ++ document_places place entries) files'
      × ((index : Index)
          → read_entries fopen isalpha memory abs_path place entries
              (record { index = index; files = files; doc_id = doc_id })
            ≡ (index_documents doc_id entries index >>= λ index'. some (record {
              index = index';
              files = files';
              doc_id = doc_id + length (document_places place entries);
            })))

  Reads-kept :
      (place doc_id : ℕ) (items : List ℕ) (entry : Entry) (entries : List Entry)
      → (files files' : DynList ℕ) (ret : ℤ) → is_document entry ≡ true
      → IsBytes entry.d_name
      → insert memory.cells files place files.last_index ≡ some (ret, files')
      → Reads (suc place) (suc doc_id) (items ++ place ∷ []) entries files'
      → Reads place doc_id items (entry ∷ entries) files
  unfolding Reads read_entries index_documents document_places read_entry
  Reads-kept place doc_id items entry entries files files' ret e b ins (files'', row, all) =
      rw (is_kept-is_document entry b, e)
        (
          files'',
          subst (λ xs. IsRow xs files'')
              (append_assoc items (place ∷ []) (document_places (suc place) entries)) row,
          λ index.
              rw ins
                (elim (Option-cases
                  (tokenizer fopen isalpha memory entry.d_name abs_path doc_id index)) [
                    | inl none_left ↦ rw none_left refl
                    | inr (r, got) ↦ rw got (
                        all r.1
                        ∙ ap
                            (λ n. index_documents (suc doc_id) entries r.1 >>= λ index'.
                              some (record { index = index'; files = files''; doc_id = n }))
                            (omega arith))
                  ]),
        )

  read_entries-Reads :
      (place doc_id : ℕ) (items : List ℕ) (entries : List Entry) (files : DynList ℕ)
      → AreNames entries
      → IsRow items files
      → doc_id ≡ length items
      → length items + length (document_places place entries) ≤ files.phys_len
      → Reads place doc_id items entries files
  unfolding Reads read_entries index_documents document_places read_entry
  read_entries-Reads place doc_id items [] files names row d small = (
    files,
    rw (append-nil items) row,
    λ index. ap (λ n. some (record { index = index; files = files; doc_id = n })) (omega arith),
  )
  read_entries-Reads place doc_id items (entry ∷ entries) files (b, names) row d small =
      elim (Bool-cases (is_document entry)) [
        | inl e ↦
            let fits = rw e at small in
            let (files', ins, row', len) =
              insert-IsRow memory.cells items files place row (omega (arith, row.last, fits)) in
            let one_more = length-append items (place ∷ []) in
            Reads-kept place doc_id items entry entries files files' (pos 1) e b ins (
              read_entries-Reads (suc place) (suc doc_id) (items ++ place ∷ []) entries files' names
                row' (omega arith) (omega (arith, fits, len, one_more)))
        | inr e ↦
            rw (is_kept-is_document entry b, e)
              (read_entries-Reads (suc place) doc_id items entries files names row d
                (rw e at small))
      ]

  -- For a directory whose names are strings of bytes and whose documents, the regular files that are
  -- not called "." or "..", fit in an empty `file_list` without a resize, whatever `tc_realloc` does:
  -- the documents are numbered from 0 in the order of `readdir`; each is given to `tokenizer` under
  -- its number, in that order, and no other entry is, and its name stands in the cell of `file_list`
  -- with that number; `read_dir` faults only where the indexing of a document does.
  pub read_dir-IsRow :
      (entries : List Entry) (files : DynList ℕ)
      → AreNames entries
      → IsRow [] files
      → length (document_places 0 entries) ≤ files.phys_len
      → (files' : DynList ℕ) × IsRow (document_places 0 entries) files'
        × ((index : Index)
            → read_dir fopen isalpha memory abs_path (some entries) index files ≡ (
                index_documents 0 entries index >>= λ index'. some (
                  true,
                  record {
                    index = index';
                    files = files';
                    doc_id = length (document_places 0 entries);
                  },
                )))
  unfolding read_dir Reads
  read_dir-IsRow entries files names row small =
      let (files', row', all) =
        read_entries-Reads 0 0 [] entries files names row refl (omega (arith, small)) in
      (
        files',
        row',
        λ index. rw (all index) (elim (Option-cases (index_documents 0 entries index)) [
          | inl e ↦ rw e refl
          | inr (index', e) ↦ rw e (
              ap (λ n. some (true, record { index = index'; files = files'; doc_id = n }))
                (omega arith))
        ]),
      )
