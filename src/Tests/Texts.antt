-- ===== src/Tests/Texts.antt =====
-- The strings, the hash and the size classes at concrete inputs.
use search_engine.Common.{ℕ, ◌%◌, ◌^◌, ◌≡◌, ◌↔◌, none, some, [], ◌∷◌, true, arith, take}
use search_engine.Common.Int.{pos}
use search_engine.Malloc.SizeClass.{index_to_size, get_index}
use search_engine.Malloc.SizeClass.Bounds.{Fits, get_index-least, get_index-index_to_size}
use search_engine.Text.{str_copy, str_concat, str_compare}
use search_engine.Text.Scan.{until_nul}
use search_engine.Text.Compare.{str_compare-zero_iff}
use search_engine.Text.Copy.{str_copy_overruns, str_concat_lem, joined}
use search_engine.Hash.{hash_function}
use search_engine.Hash.Horner.{digits_value, hash_function-digits}

str_compare-zero_iff_example :
    (str_compare (97 ∷ 98 ∷ []) (97 ∷ 99 ∷ []) 1 ≡ pos 0)
    ↔ (take 1 (until_nul (97 ∷ 98 ∷ [])) ≡ take 1 (until_nul (97 ∷ 99 ∷ [])))
str_compare-zero_iff_example =
    str_compare-zero_iff 1 (97 ∷ 98 ∷ []) (97 ∷ 99 ∷ []) (omega arith, (omega arith, tt))
      (omega arith, (omega arith, tt))

hash_function-digits_example :
    hash_function (97 ∷ 200 ∷ 0 ∷ 99 ∷ [])
    ≡ digits_value 0 (until_nul (97 ∷ 200 ∷ 0 ∷ 99 ∷ [])) % 2 ^ 32
hash_function-digits_example =
    hash_function-digits (97 ∷ 200 ∷ 0 ∷ 99 ∷ [])
      (omega arith, (omega arith, (omega arith, (omega arith, tt))))

get_index-least_example : (i : ℕ) × Fits 100 i
get_index-least_example = get_index-least 100 (omega arith) (omega arith)

get_index-index_to_size_example : get_index (index_to_size 40) ≡ pos 40
get_index-index_to_size_example = get_index-index_to_size 40 (omega arith)

str_copy_overruns_example : str_copy (1 ∷ []) (97 ∷ 98 ∷ []) 2048 ≡ none
unfolding until_nul
str_copy_overruns_example =
    str_copy_overruns (1 ∷ []) (97 ∷ 98 ∷ []) 2048 (omega arith) (omega arith)

str_concat_lem_example :
    str_concat (97 ∷ 0 ∷ 5 ∷ 6 ∷ []) (98 ∷ []) 4
    ≡ some (true, joined (97 ∷ 0 ∷ 5 ∷ 6 ∷ []) (98 ∷ []))
unfolding until_nul
str_concat_lem_example =
    str_concat_lem (97 ∷ 0 ∷ 5 ∷ 6 ∷ []) (98 ∷ []) 4 (omega arith) (omega arith) (omega arith)
