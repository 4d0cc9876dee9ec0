-- ===== src/Index/Record/Known.antt =====
-- server.c: the branch of `parse` for a word that is in the table.
use search_engine.Common.{
  ℕ, suc, ◌^◌, ◌<◌, ◌≡◌, ◌≢◌, inl, inr, refl, sym, ap, ◌∙◌, some, List, true, arith, Option-cases,
  get_elem?, set, length-set, get_elem?-set_ne, get_elem?-set_at,
}
use mathlib.Core.Path.{subst}
use mathlib.Core.Option.{some-injective}
use native.Mathlib.Nat.{mod-lt}
use native.Mathlib.Decide.{ℕ_discrete}
use search_engine.Text.Scan.{until_nul}
use search_engine.Text.Compare.{IsBytes}
use search_engine.Table.Find.{lookup-scan, scan-found}
use search_engine.Postings.{Link, add_line}
use search_engine.Postings.Lines.{AllLinks, AllLinks-suc, Recorded, add_line-Recorded}
use search_engine.Index.{Index, Memory, Word, word_hit, lookup, known_word}
use search_engine.Index.Agree.{lookup-agree, word_hit-set}
use search_engine.Index.View.{
  home, place_of, lines_at, IsIndex, IsMemory, IsWord, OneLine, recorded-at, lines_at-word,
  recorded-missed, place_of-cases, word_hit-one,
}

-- A pointer that compares as equal leads to a word.
word_hit-word :
    (ws : List Word) (str : List ℕ) (item : ℕ)
    → word_hit ws str item ≡ true
    → (w : Word) × (get_elem? ws item ≡ some w)
unfolding word_hit
word_hit-word ws str item h = elim (Option-cases (get_elem? ws item)) [
  | inl e ↦ cc (rw (e, word_hit) at h)
  | inr found ↦ found
]

module _ {memory : Memory} (law : IsMemory memory) (k doc_id line_num : ℕ) (few : k < 2 ^ 62)
    (index : Index) (inv : IsIndex k index) where
  home-lt : (str : List ℕ) → home index str < index.table.phys_len
  home-lt str = mod-lt _ inv.some_cells

  -- What is found compares as equal.
  found-hits :
      (str : List ℕ) (item : ℕ)
      → place_of index str ≡ some (some item)
      → word_hit index.words str item ≡ true
  unfolding lookup
  found-hits str item h =
      let (_, _, _, hits) =
        scan-found (word_hit index.words str) index.table.dyn_list (home index str) item (
          sym (
            lookup-scan (word_hit index.words str) index.table (home index str) inv.valid
              (home-lt str))
          ∙ h) in
      hits

  -- What is found is a word.
  pub found-word :
      (str : List ℕ) (item : ℕ)
      → place_of index str ≡ some (some item)
      → (w : Word) × (get_elem? index.words item ≡ some w)
  found-word str item h = word_hit-word index.words str item (found-hits str item h)

  -- Two words that are found at the same place are the same.
  same_place :
      {str str' : List ℕ} {item : ℕ}
      → IsWord str
      → IsWord str'
      → place_of index str ≡ some (some item)
      → place_of index str' ≡ some (some item)
      → str ≡ str'
  same_place {str} {str'} {item} is is' e e' =
      word_hit-one index.words item str str' (inv.strings item) is is' (found-hits str item e)
        (found-hits str' item e')

  -- The index after the list of a word has been replaced.
  abbrev relisted : ℕ → Word → List Link → Index
  relisted item w list = record index { words = set index.words item (record w { list = list }) }

  module _ (item : ℕ) (w : Word) (at : get_elem? index.words item ≡ some w) where
    place_of-relisted :
        (list : List Link) (str : List ℕ) → place_of (relisted item w list) str ≡ place_of index str
    unfolding lookup
    place_of-relisted list str =
        lookup-agree (word_hit (relisted item w list).words str) (word_hit index.words str)
          index.table (home index str) inv.valid (home-lt str)
          (λ i a _. word_hit-set index.words w (record w { list = list }) str item a at refl)

    relisted-OneLine :
        (str : List ℕ)
        → IsWord str
        → place_of index str ≡ some (some item)
        → (r : Recorded k w.list doc_id line_num (add_line memory.lines w.list doc_id line_num))
        → OneLine k index (relisted item w r.list) str doc_id line_num
    relisted-OneLine str is found r = record {
      keeps = record {
        valid = inv.valid;
        points = λ i a e.
            omega
              (arith, inv.points i a e, length-set index.words item (record w { list = r.list }));
        links = relinked;
        some_cells = inv.some_cells;
        strings = respelled;
        findable = λ str' i a is' e h.
            let (first, at_first) = inv.findable str' i a is' e (
              sym (word_hit-set index.words w (record w { list = r.list }) str' item a at refl)
              ∙ h) in
            (first, place_of-relisted r.list str' ∙ at_first);
      };
      found = (item, place_of-relisted r.list str ∙ found);
      adds = λ other.
          recorded-at next str item other (place_of-relisted r.list str ∙ found)
          ∙ lines_at-word next item other w' now
          ∙ r.recorded other
          ∙ rw (recorded-at index str item other found, lines_at-word index item other w at) refl;
      stays = λ str' item' e. place_of-relisted r.list str' ∙ e;
      others = λ str' is' ne other. elim (place_of-cases index str') [
        | inl (item', e) ↦
            let apart : item ≢ item' = λ p. ne (sym (same_place is is' found (rw (p) e))) in
            recorded-at next str' item' other (place_of-relisted r.list str' ∙ e)
            ∙ rw (get_elem?-set_ne index.words w' apart, lines_at) refl
            ∙ sym (recorded-at index str' item' other e)
        | inr missed ↦
            recorded-missed next str' other
              (λ item' e. missed item' (sym (place_of-relisted r.list str') ∙ e))
            ∙ sym (recorded-missed index str' other missed)
      ];
    }
      where
        w' : Word
        w' = record w { list = r.list }

        next : Index
        next = relisted item w r.list

        now : get_elem? next.words item ≡ some w'
        now = get_elem?-set_at index.words item w' at

        respelled : (i : ℕ) (v : Word) → get_elem? next.words i ≡ some v → IsBytes (until_nul v.str)
        respelled i v e = elim (ℕ_discrete item i) [
          | yes p ↦
              subst (λ u. IsBytes (until_nul u.str))
                (some-injective w' v (sym now ∙ ap (get_elem? next.words) p ∙ e))
                (inv.strings item w at)
          | no p ↦ inv.strings i v (sym (get_elem?-set_ne index.words w' p) ∙ e)
        ]

        relinked : (i : ℕ) (v : Word) → get_elem? next.words i ≡ some v → AllLinks (suc k) v.list
        relinked i v e = elim (ℕ_discrete item i) [
          | yes p ↦
              subst (λ u. AllLinks (suc k) u.list)
                (some-injective w' v (sym now ∙ ap (get_elem? next.words) p ∙ e)) r.keeps
          | no p ↦
              AllLinks-suc k v.list (inv.links i v (sym (get_elem?-set_ne index.words w' p) ∙ e))
        ]

    -- The branch for a known word adds one line to it.
    pub known_word-OneLine :
        (str : List ℕ)
        → IsWord str
        → place_of index str ≡ some (some item)
        → (index' : Index) × (known_word memory doc_id line_num index item ≡ some index')
          × OneLine k index index' str doc_id line_num
    unfolding known_word
    known_word-OneLine str is found =
        let r = add_line-Recorded law.lines k doc_id line_num few w.list (inv.links item w at) in
        (relisted item w r.list, rw (at, r.result), relisted-OneLine str is found r)
