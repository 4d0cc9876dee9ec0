-- ===== src/Index/Record/Made.antt =====
-- server.c: the word that `parse` makes.
use search_engine.Common.{
  ℕ, suc, ◌+◌, ◌^◌, ◌<◌, ◌≡◌, refl, sym, ap, ◌∙◌, Option, some, List, [], ◌∷◌, ◌++◌, arith, ◌==◌,
  if◌then◌else◌, lt→ltb, length, get_elem?, drop, length-append,
}
use mathlib.Core.Path.{subst}
use mathlib.Core.Option.{some-injective}
use native.Mathlib.Decide.{ℕ_discrete, dec_lt}
use search_engine.Table.Slots.{get_elem?-out}
use search_engine.Text.Scan.{until_nul, str_get_length_lem, until_nul-append}
use search_engine.Text.Copy.{str_copy_fits}
use search_engine.Text.{str_get_length}
use search_engine.Hash.{hash_function}
use search_engine.Postings.Lines.{AllLinks, lines_of, first-Recorded}
use search_engine.Index.{Memory, Word, new_word}
use search_engine.Index.Agree.{get_elem?-append_lt, get_elem?-append_eq}
use search_engine.Index.View.{IsMemory, IsWord}

-- The word that is made: it has the string and the line.
pub record Made (k : ℕ) (str : List ℕ) (doc_id line_num : ℕ) (out : Option Word) : Type 0 where
  pub word : Word
  pub result : out ≡ some word
  pub string : until_nul word.str ≡ str
  pub keeps : AllLinks (suc k) word.list
  pub line :
      (other : ℕ) → lines_of word.list other ≡ (if doc_id == other then line_num ∷ [] else [])

module _ {memory : Memory} (law : IsMemory memory) (k doc_id line_num : ℕ) (few : k < 2 ^ 62)
    (str : List ℕ) (is : IsWord str) where
  -- What the allocator gives is enough for the copy and the list.
  pub new_word-Made : Made k str doc_id line_num (new_word memory doc_id line_num str)
  unfolding new_word
  new_word-Made =
      let same : length (until_nul str) ≡ length str = ap length is.ends in
      let len : str_get_length str 2048 ≡ length str =
        str_get_length_lem str 2048 ∙ rw (is.ends, lt→ltb (length str) 2048 is.short) refl in
      let (buffer, got, size) = law.gives (str_get_length str 2048 + 1) in
      let copied =
        str_copy_fits buffer str 2048 (omega (arith, same, is.short))
          (omega (arith, same, size, len)) in
      let r = first-Recorded law.lines k doc_id line_num few in
      rw (got, copied, r.result)
        (record {
          word = record {
            hash = hash_function str;
            str = until_nul str ++ 0 ∷ drop (suc (length (until_nul str))) buffer;
            list = r.list;
          };
          result = refl;
          string = until_nul-append str _ ∙ is.ends;
          keeps = r.keeps;
          line = r.recorded;
        })

-- What holds of the new word and of the words of the index holds of all.
pub each_word :
    (words : List Word) (made : Word) (P : Word → Type 0)
    → P made
    → ((item : ℕ) (w : Word) → get_elem? words item ≡ some w → P w)
    → (item : ℕ) (w : Word) → get_elem? (words ++ made ∷ []) item ≡ some w
    → P w
each_word words made P new old item w e = elim (ℕ_discrete item (length words)) [
  | yes p ↦
      subst P
        (some-injective made w
          (sym (get_elem?-append_eq words made) ∙ ap (get_elem? (words ++ made ∷ [])) (sym p) ∙ e))
        new
  | no p ↦ elim (dec_lt item (length words)) [
    | yes q ↦ old item w (sym (get_elem?-append_lt words made item q) ∙ e)
    | no q ↦ cc (
      e,
      get_elem?-out (words ++ made ∷ []) item (omega (arith, length-append words (made ∷ []))),
    )
  ]
]
