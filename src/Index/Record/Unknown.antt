-- ===== src/Index/Record/Unknown.antt =====
-- server.c: the branch of `parse` for a word that is not in the table, without a resize.
use search_engine.Common.{
  ℕ, suc, ◌%◌, ◌^◌, ◌<◌, ◌≡◌, ◌≢◌, ◌⊎◌, inl, inr, refl, sym, ap, ◌∙◌, none, some, List, [], ◌∷◌,
  ◌++◌, Bool, true, arith, ◌==◌, if◌then◌else◌, length, get_elem?, length-append,
}
use mathlib.Core.Path.{subst}
use mathlib.Core.Option.{some-injective}
use native.Mathlib.Nat.{mod-lt}
use native.Mathlib.Decide.{dec_lt}
use search_engine.Table
use search_engine.Table.{DynList}
use search_engine.Table.Find.{lookup-insert, lookup-scan, scan-found}
use search_engine.Table.Slots.{IsValid, get_elem?-out}
use search_engine.Index.Record.Known.{found-word}
use search_engine.Index.Record.Made.{new_word-Made, each_word}
use search_engine.Text.Scan.{until_nul}
use search_engine.Text.Compare.{IsBytes, str_compare-same}
use search_engine.Hash.{hash_function}
use search_engine.Postings.Lines.{AllLinks, AllLinks-suc, lines_of}
use search_engine.Index.{
  Index, Memory, Word, is_zero, dyn_size, word_hit, lookup, disperse_if, unknown_word,
}
use search_engine.Index.Agree.{
  lookup-agree, word_hit-append, get_elem?-append_lt, get_elem?-append_eq,
}
use search_engine.Index.View.{
  home, place_of, lines_at, IsIndex, IsMemory, IsWord, OneLine, recorded-at, recorded-missed,
  place_of-cases, word_hit-one, lines_at-word,
}

module _ {memory : Memory} (law : IsMemory memory) (k doc_id line_num : ℕ) (few : k < 2 ^ 62)
    (str : List ℕ) (is : IsWord str) where
  module _ (index : Index) (inv : IsIndex k index) (made : Word)
      (string : until_nul made.str ≡ str) where
    -- The comparison with the new word among the others.
    abbrev hit : List ℕ → ℕ → Bool
    hit str' = word_hit (index.words ++ made ∷ []) str'

    hit-made : hit str (length index.words) ≡ true
    unfolding word_hit
    hit-made =
        rw (get_elem?-append_eq index.words made, word_hit)
          (ap is_zero (str_compare-same dyn_size made.str str string))

    -- The new word changes nothing for the lookups in the old table.
    hit-agree :
        (str' : List ℕ)
        → Table.lookup (hit str') index.table (home index str') ≡ place_of index str'
    unfolding lookup
    hit-agree str' = sym (
        lookup-agree (word_hit index.words str') (hit str') index.table (home index str') inv.valid
          (mod-lt _ inv.some_cells)
          (λ i a e. word_hit-append index.words made str' a (inv.points i a e)))

    -- A word of the index stands in front of the new one.
    old-word :
        (item : ℕ) (w : Word) → get_elem? index.words item ≡ some w → item < length index.words
    old-word item w e = elim (dec_lt item (length index.words)) [
      | yes p ↦ p
      | no p ↦ cc (e, get_elem?-out index.words item (omega arith))
    ]

    -- Only its own string compares as equal with the new word.
    new_only : (str' : List ℕ) → IsWord str' → hit str' (length index.words) ≡ true → str' ≡ str
    new_only str' is' h =
        word_hit-one (index.words ++ made ∷ []) (length index.words) str' str
          (λ w e.
            subst (λ u. IsBytes (until_nul u.str))
              (some-injective made w (sym (get_elem?-append_eq index.words made) ∙ e))
              (rw string is.bytes))
          is' is h hit-made

    -- A word that was in the table was found by its string.
    old_found :
        (str' : List ℕ) (i a : ℕ)
        → IsWord str'
        → get_elem? index.table.dyn_list i ≡ some (some a)
        → hit str' a ≡ true
        → (first : ℕ) × (place_of index str' ≡ some (some first))
    old_found str' i a is' e h =
        inv.findable str' i a is' e (word_hit-append index.words made str' a (inv.points i a e) ∙ h)

    module _ (l' : DynList ℕ) (plen : l'.phys_len ≡ index.table.phys_len) where
      -- The index with the new word and the table `l'`.
      abbrev extended : Index
      extended = record { table = l'; words = index.words ++ made ∷ [] }

      place_of-extended :
          (str' : List ℕ) → place_of extended str' ≡ Table.lookup (hit str') l' (home index str')
      unfolding lookup
      place_of-extended str' = ap (λ n. Table.lookup (hit str') l' (hash_function str' % n)) plen

      extended-links :
          AllLinks (suc k) made.list
          → (item : ℕ) (w : Word) → get_elem? extended.words item ≡ some w
          → AllLinks (suc k) w.list
      extended-links all =
          each_word index.words made (λ w. AllLinks (suc k) w.list) all
            (λ item w e. AllLinks-suc k w.list (inv.links item w e))

      extended-strings :
          (item : ℕ) (w : Word) → get_elem? extended.words item ≡ some w → IsBytes (until_nul w.str)
      extended-strings =
          each_word index.words made (λ w. IsBytes (until_nul w.str)) (rw string is.bytes)
            inv.strings

      -- A string that was not found, other than the new word, is not found now.
      still_lost :
          IsValid l'
          → ((i a : ℕ)
              → get_elem? l'.dyn_list i ≡ some (some a)
              → (a ≡ length index.words) ⊎ (get_elem? index.table.dyn_list i ≡ some (some a)))
          → (str' : List ℕ) → IsWord str'
          → str' ≢ str
          → ((item : ℕ) → place_of index str' ≢ some (some item))
          → (item : ℕ) → Table.lookup (hit str') l' (home index str') ≢ some (some item)
      still_lost valid items str' is' ne lost item e =
          let low : home index str' < l'.phys_len = rw plen (mod-lt _ inv.some_cells) in
          let (i, _, at, hits) =
            scan-found (hit str') l'.dyn_list (home index str') item
              (sym (lookup-scan (hit str') l' (home index str') valid low) ∙ e) in
          elim (items i item at) [
            | inl new ↦ ne (new_only str' is' (ap (hit str') (sym new) ∙ hits))
            | inr old ↦ let (first, found) = old_found str' i item is' old hits in lost first found
          ]

      extended-OneLine :
          IsValid l'
          → ((i a : ℕ)
              → get_elem? l'.dyn_list i ≡ some (some a)
              → (a ≡ length index.words) ⊎ (get_elem? index.table.dyn_list i ≡ some (some a)))
          → Table.lookup (hit str) l' (home index str) ≡ some (some (length index.words))
          → ((other : ℕ → Bool) (j a : ℕ)
              → Table.lookup other index.table j ≡ some (some a)
              → Table.lookup other l' j ≡ some (some a))
          → place_of index str ≡ some none
          → AllLinks (suc k) made.list
          → ((other : ℕ)
              → lines_of made.list other ≡ (if doc_id == other then line_num ∷ [] else []))
          → OneLine k index extended str doc_id line_num
      extended-OneLine valid items now keep missed all line = record {
        keeps = record {
          valid = valid;
          points = λ i a e. elim (items i a e) [
            | inl new ↦ omega (arith, length-append index.words (made ∷ []))
            | inr old ↦ omega (arith, inv.points i a old, length-append index.words (made ∷ []))
          ];
          links = extended-links all;
          some_cells = omega (arith, inv.some_cells);
          strings = extended-strings;
          findable = λ str' i a is' e h. elim (items i a e) [
            | inl new ↦
                let same = new_only str' is' (ap (hit str') (sym new) ∙ h) in
                (length index.words, ap (place_of extended) same ∙ place_of-extended str ∙ now)
            | inr old ↦
                let (first, at_first) = old_found str' i a is' old h in
                (
                  first,
                  place_of-extended str'
                      ∙ keep (hit str') (home index str') first (hit-agree str' ∙ at_first),
                )
          ];
        };
        found = (length index.words, place_of-extended str ∙ now);
        adds = λ other.
            recorded-at extended str (length index.words) other (place_of-extended str ∙ now)
            ∙ lines_at-word extended (length index.words) other made
                (get_elem?-append_eq index.words made)
            ∙ line other
            ∙ rw (recorded-missed index str other (λ item e. cc (missed, e))) refl;
        stays = λ str' item e.
            place_of-extended str' ∙ keep (hit str') (home index str') item (hit-agree str' ∙ e);
        others = λ str' is' ne other. elim (place_of-cases index str') [
          | inl (item, e) ↦
              let (w, at) = found-word law k doc_id line_num few index inv str' item e in
              recorded-at extended str' item other (
                place_of-extended str'
                ∙ keep (hit str') (home index str') item (hit-agree str' ∙ e))
              ∙ rw (get_elem?-append_lt index.words made item (old-word item w at), lines_at) refl
              ∙ sym (recorded-at index str' item other e)
          | inr lost ↦
              recorded-missed extended str' other (λ item e.
                still_lost valid items str' is' ne lost item (sym (place_of-extended str') ∙ e))
              ∙ sym (recorded-missed index str' other lost)
        ];
      }

module _ {memory : Memory} (law : IsMemory memory) (k doc_id line_num : ℕ) (few : k < 2 ^ 62)
    (str : List ℕ) (is : IsWord str) (index : Index) (inv : IsIndex k index) where
  -- The branch for an unknown word adds it, with its line.
  pub unknown_word-OneLine :
      index.table.last_index < index.table.phys_len
      → place_of index str ≡ some none
      → (index' : Index) × (unknown_word memory doc_id line_num str (home index str) index
          ≡ some index')
        × OneLine k index index' str doc_id line_num
  unfolding unknown_word disperse_if
  unknown_word-OneLine room missed =
      let made = new_word-Made law k doc_id line_num few str is in
      let n = length index.words in
      let compare_new = hit law k doc_id line_num few str is index inv made.word made.string str in
      let agree = hit-agree law k doc_id line_num few str is index inv made.word made.string str in
      let (l', e, valid, plen, items, now, keep) =
        lookup-insert compare_new n
          (hit-made law k doc_id line_num few str is index inv made.word made.string) memory.cells
          index.table (home index str) inv.valid room (mod-lt _ inv.some_cells) (agree ∙ missed) in
      (
        record { table = l'; words = index.words ++ made.word ∷ [] },
        rw (made.result, e),
        extended-OneLine law k doc_id line_num few str is index inv made.word made.string l' plen
            valid items now keep missed made.keeps made.line,
      )
