-- ===== src/Tests/Index.antt =====
-- The index and the directory at concrete inputs.
use search_engine.Common.{
  ℕ, ◌≡◌, refl, Option, none, some, List, [], ◌∷◌, Bool, true, false, ◌&&◌, arith, leb, length,
  replicate, ◌>>=◌,
}
use search_engine.Table
use search_engine.Table.{DynList}
use search_engine.Table.Row.{IsRow}
use search_engine.Text.Words.{words}
use search_engine.Text.Pieces.{held}
use search_engine.Parse.Line.{fold_words}
use search_engine.Index.{Index, Word, index_word, parse}
use search_engine.Index.Reads.{parse-words}
use search_engine.Text.Scan.{until_nul}
use search_engine.Files.{Entry, read_dir}
use search_engine.Files.Row.{document_places, index_documents, read_dir-IsRow}
use search_engine.Tests.Memory.{memory}

-- The word "b" in a table of four cells, on the line 4 of the document 0.
abbrev b_word : Word
b_word = record {
  hash = 98;
  str = 98 ∷ 0 ∷ [];
  list = record { val = 0; list = 4 ∷ replicate 9 0; list_len = 10; last_index = 1 } ∷ [];
}

abbrev b_index : Index
b_index = record {
  table = record { last_index = 2; phys_len = 4; dyn_list = none ∷ none ∷ some 0 ∷ none ∷ [] };
  words = b_word ∷ [];
}

abbrev lower : ℕ → Bool
lower c = leb 97 c && leb c 122

-- The line "a b".
parse-words_example :
    parse lower memory 1 6 (held (97 ∷ 32 ∷ 98 ∷ []) []) b_index
    ≡ fold_words (index_word memory 1 6) (words lower (97 ∷ 32 ∷ 98 ∷ [])) b_index
parse-words_example =
    parse-words lower memory 1 6 (97 ∷ 32 ∷ 98 ∷ []) [] b_index
      (λ e. omega (arith, e), (λ e. omega (arith, e), (λ e. omega (arith, e), tt))) (omega arith)

-- The directory "." and two files "x" and "y".
abbrev entries : List Entry
entries =
    record { is_regular = false; d_name = 46 ∷ [] }
    ∷ record { is_regular = true; d_name = 120 ∷ [] }
    ∷ record { is_regular = true; d_name = 121 ∷ [] }
    ∷ []

abbrev no_names : DynList ℕ
no_names = record { last_index = 0; phys_len = 10; dyn_list = replicate 10 none }

no_names-IsRow : IsRow [] no_names
no_names-IsRow = record { spare = 10; cells = refl; size = refl; last = refl; even = refl }

-- Every file has the one line "a".
abbrev opened : List ℕ → Option (List (List ℕ))
opened path = some ((97 ∷ 10 ∷ 0 ∷ []) ∷ [])

read_dir-IsRow_example :
    (files' : DynList ℕ) × IsRow (document_places 0 entries) files'
    × ((index : Index)
        → read_dir opened lower memory (47 ∷ []) (some entries) index no_names ≡ (
            index_documents opened lower memory (47 ∷ []) 0 entries index >>= λ index'. some (
              true,
              record {
                index = index';
                files = files';
                doc_id = length (document_places 0 entries);
              },
            )))
unfolding document_places until_nul
read_dir-IsRow_example =
    read_dir-IsRow opened lower memory (47 ∷ []) entries no_names
      ((omega arith, tt), ((omega arith, tt), ((omega arith, tt), tt))) no_names-IsRow (omega arith)
