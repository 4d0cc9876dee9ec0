-- ===== src/Table/Find.antt =====
-- helper.c: `lookup` against a search of the list of the cells from its index on.
use search_engine.Common.{
  ℕ, zero, suc, ◌+◌, ◌-◌, ◌<◌, ◌≤◌, ◌≡◌, ◌⊎◌, inl, inr, refl, sym, ap, ◌∙◌, Option, none, some,
  List, [], ◌∷◌, Bool, true, false, arith, if◌then◌else◌, Bool-cases, length, get_elem?, set, drop,
  get_elem?-set_ne, get_elem?-set_inv,
}
use native.Mathlib.Decide.{dec_lt, ℕ_discrete}
use search_engine.Table.{DynList, Realloc, lookup_from, lookup, insert}
use search_engine.Common.Int.{pos}
use search_engine.Table.Slots.{
  IsValid, FirstFree, get_elem?-out, filled, filled-IsValid, insert-FirstFree,
}
use search_engine.Table.Keep.{lookup-filled}

module _ {ℓ} {A : Type ℓ} (hit : A → Bool) where
  -- The reference: the cells in order, up to the first that is free or that hits; `none` if there
  -- is neither.
  unfoldable pub scan : List (Option A) → Option (Option A)
  scan [] = none
  scan (none ∷ cells) = some none
  scan (some a ∷ cells) = if hit a then some (some a) else scan cells

  scan-drop :
      (cells : List (Option A)) (i : ℕ)
      → scan (drop i cells) ≡ elim (get_elem? cells i) [
        | none ↦ none
        | some none ↦ some none
        | some (some a) ↦ if hit a then some (some a) else scan (drop (suc i) cells)
      ]
  unfolding scan
  scan-drop [] zero = refl
  scan-drop [] (suc i) = refl
  scan-drop (none ∷ cells) zero = refl
  scan-drop (some a ∷ cells) zero = refl
  scan-drop (c ∷ cells) (suc i) = scan-drop cells i

  lookup_from-scan :
      (rounds : ℕ) (cells : List (Option A)) (i : ℕ)
      → length cells ≡ i + rounds
      → i < length cells
      → lookup_from hit rounds cells i ≡ scan (drop (suc i) cells)
  unfolding lookup_from
  lookup_from-scan zero cells i e h = absurd (omega arith)
  lookup_from-scan (suc rounds) cells i e h = elim (dec_lt (suc i) (length cells)) [
    | yes p ↦
        ground
          (arith, scan-drop cells (suc i), lookup_from-scan rounds cells (suc i) (omega arith) p)
    | no p ↦ ground (arith, scan-drop cells (suc i), get_elem?-out cells (suc i) (omega arith))
  ]

  -- In a list of the right size, `lookup` is the search of the cells from `index` on; where that
  -- finds neither the item nor a free cell, `lookup` reads past the array.
  pub lookup-scan :
      (l : DynList A) (index : ℕ)
      → IsValid l
      → index < l.phys_len
      → lookup hit l index ≡ scan (drop index l.dyn_list)
  unfolding lookup
  lookup-scan l index v h =
      let walk =
        lookup_from-scan (l.phys_len - index) l.dyn_list index (omega (arith, v.sized))
          (omega (arith, v.sized)) in
      ground (arith, scan-drop l.dyn_list index, walk)

  -- What a search finds stands in a cell from the index on, and hits.
  pub scan-found :
      (cells : List (Option A)) (index : ℕ) (a : A)
      → scan (drop index cells) ≡ some (some a)
      → (i : ℕ) × (index ≤ i) × (get_elem? cells i ≡ some (some a)) × (hit a ≡ true)
  unfolding scan
  scan-found [] zero a h = cc
  scan-found [] (suc index) a h = cc
  scan-found (none ∷ cells) zero a h = cc
  scan-found (some b ∷ cells) zero a h = elim (Bool-cases (hit b)) [
    | inl e ↦ let same = rw e at h in (0, omega arith, same, cc (same, e))
    | inr e ↦ let (i, _, at, m) = scan-found cells zero a (rw e at h) in (suc i, omega arith, at, m)
  ]
  scan-found (c ∷ cells) (suc index) a h =
      let (i, low, at, m) = scan-found cells index a h in (suc i, omega arith, at, m)

module _ {ℓ} {A : Type ℓ} where
  FirstFree-cons :
      {cells : List (Option A)} {index at : ℕ} (c : Option A)
      → FirstFree cells index at
      → FirstFree (c ∷ cells) (suc index) (suc at)
  FirstFree-cons {cells} {index} {at} c f = record {
    from = omega (arith, f.from);
    free = f.free;
    taken = behind;
  }
    where
      behind :
          (i : ℕ) → suc index ≤ i → i < suc at → (a : A) × (get_elem? (c ∷ cells) i ≡ some (some a))
      behind zero h k = absurd (omega arith)
      behind (suc i) h k = f.taken i (omega arith) (omega arith)

  FirstFree-taken :
      {cells : List (Option A)} {at : ℕ} (a : A)
      → FirstFree cells 0 at
      → FirstFree (some a ∷ cells) 0 (suc at)
  FirstFree-taken {cells} {at} a f = record { from = omega arith; free = f.free; taken = behind }
    where
      behind :
          (i : ℕ) → 0 ≤ i → i < suc at → (b : A) × (get_elem? (some a ∷ cells) i ≡ some (some b))
      behind zero h k = (a, refl)
      behind (suc i) h k = f.taken i (omega arith) (omega arith)

filled-items {ℓ} :
    {A : Type ℓ} (l : DynList A) (at : ℕ) (item : A) (i : ℕ) (a : A)
    → get_elem? (filled l at item).dyn_list i ≡ some (some a)
    → (a ≡ item) ⊎ (get_elem? l.dyn_list i ≡ some (some a))
filled-items l at item i a e = elim (ℕ_discrete at i) [
  | yes p ↦ inl (
      cc (
        get_elem?-set_inv l.dyn_list at (some item)
          (ap (get_elem? (filled l at item).dyn_list) p ∙ e)))
  | no p ↦ inr (sym (get_elem?-set_ne l.dyn_list (some item) p) ∙ e)
]

-- The free cell at which a search stops, and the search once that cell holds `item`.
record Gap {ℓ} {A : Type ℓ} (hit : A → Bool) (item : A) (cells : List (Option A)) (index : ℕ)
    : Type ℓ where
  at : ℕ
  first : FirstFree cells index at
  inside : at < length cells
  found : scan hit (drop index (set cells at (some item))) ≡ some (some item)

module _ {ℓ} {A : Type ℓ} (hit : A → Bool) (item : A) (hits : hit item ≡ true) where
  scan-Gap :
      (cells : List (Option A)) (index : ℕ)
      → scan hit (drop index cells) ≡ some none
      → Gap hit item cells index
  unfolding scan
  scan-Gap [] zero h = cc
  scan-Gap [] (suc index) h = cc
  scan-Gap (none ∷ cells) zero h = record {
    at = 0;
    first = record { from = omega arith; free = refl; taken = λ i p q. absurd (omega arith) };
    inside = omega arith;
    found = rw hits;
  }
  scan-Gap (some a ∷ cells) zero h = elim (Bool-cases (hit a)) [
    | inl e ↦ cc (rw e at h)
    | inr e ↦ deeper e (scan-Gap cells zero (rw e at h))
  ]
    where
      deeper : hit a ≡ false → Gap hit item cells zero → Gap hit item (some a ∷ cells) zero
      deeper e g = record {
        at = suc g.at;
        first = FirstFree-taken a g.first;
        inside = omega (arith, g.inside);
        found = rw e g.found;
      }
  scan-Gap (c ∷ cells) (suc index) h =
      let g = scan-Gap cells index h in
      record {
        at = suc g.at;
        first = FirstFree-cons c g.first;
        inside = omega (arith, g.inside);
        found = g.found;
      }

  -- In a list `l` of the right size with `last_index` below `phys_len`, and at an index below
  -- `phys_len`: if `lookup` of a string from the index finds nothing, then `insert` of an item with
  -- that string at the index succeeds without a resize, keeps the size right, and adds no other
  -- item; `lookup` from the index now finds the item, and whatever `lookup` found before, for any
  -- string and from any index, it still finds.
  pub lookup-insert :
      (realloc : Realloc (Option A)) (l : DynList A) (index : ℕ)
      → IsValid l
      → l.last_index < l.phys_len
      → index < l.phys_len
      → lookup hit l index ≡ some none
      → (l' : DynList A) × (insert realloc l item index ≡ some (pos 1, l'))
        × IsValid l'
        × (l'.phys_len ≡ l.phys_len)
        × ((i : ℕ) (a : A)
            → get_elem? l'.dyn_list i ≡ some (some a)
            → (a ≡ item) ⊎ (get_elem? l.dyn_list i ≡ some (some a)))
        × (lookup hit l' index ≡ some (some item))
        × ((other : A → Bool) (j : ℕ) (a : A)
            → lookup other l j ≡ some (some a)
            → lookup other l' j ≡ some (some a))
  lookup-insert realloc l index v room low missed =
      let g = scan-Gap l.dyn_list index (sym (lookup-scan hit l index v low) ∙ missed) in
      let kept = filled-IsValid l g.at item v in
      (
        filled l g.at item,
        insert-FirstFree realloc l index g.at item room g.first (omega (arith, g.inside, v.sized)),
        kept,
        refl,
        filled-items l g.at item,
        lookup-scan hit (filled l g.at item) index kept low ∙ g.found,
        λ other j a h. lookup-filled other g.at item l j g.first.free h,
      )
