-- ===== src/Table/Slots.antt =====
-- helper.c: the invariant of a `DynList`, and where `insert` puts its item.
use search_engine.Common.{
  ℕ, zero, suc, ◌+◌, ◌-◌, ◌<◌, ◌≤◌, ◌≡◌, ◌≢◌, ◌⊎◌, inl, inr, refl, ap, ◌∙◌, Option, none, some,
  List, [], ◌∷◌, arith, ltb, if◌then◌else◌, length, get_elem?, set, replicate, length-set,
}
use native.Mathlib.Decide.{ℕ_discrete}
use native.Mathlib.Nat.{le_refl}
use search_engine.Common.Int.{pos}
use search_engine.Table.{DynList, Realloc, probe, insert}

-- The array has `phys_len` cells.
pub record IsValid {ℓ} {A : Type ℓ} (l : DynList A) : Type ℓ where
  pub sized : length l.dyn_list ≡ l.phys_len

-- `at` is the first free cell from `index` on.
pub record FirstFree {ℓ} {A : Type ℓ} (cells : List (Option A)) (index at : ℕ) : Type ℓ where
  pub from : index ≤ at
  pub free : get_elem? cells at ≡ some none
  pub taken : (i : ℕ) → index ≤ i → i < at → (a : A) × (get_elem? cells i ≡ some (some a))

module _ {ℓ} {A : Type ℓ} where
  -- There is nothing from the length of an array on.
  pub get_elem?-out : (cells : List A) (i : ℕ) → length cells ≤ i → get_elem? cells i ≡ none
  get_elem?-out [] i h = refl
  get_elem?-out (x ∷ xs) zero h = absurd (omega arith)
  get_elem?-out (x ∷ xs) (suc i) h = get_elem?-out xs i (omega arith)

  pub get_elem?-in : (cells : List A) (i : ℕ) → i < length cells → get_elem? cells i ≢ none
  get_elem?-in [] i h = absurd (omega arith)
  get_elem?-in (x ∷ xs) zero h = λ e. cc e
  get_elem?-in (x ∷ xs) (suc i) h = get_elem?-in xs i (omega arith)

module _ {ℓ} {A : Type ℓ} {cells : List (Option A)} {at : ℕ} where
  FirstFree-suc :
      {index : ℕ} → FirstFree cells index at → index ≢ at → FirstFree cells (suc index) at
  FirstFree-suc f ne = record {
    from = omega (arith, f.from, ne);
    free = f.free;
    taken = λ i h k. f.taken i (omega arith) k;
  }

  -- The loop of `insert` fills the first free cell, if it comes within the rounds.
  pub probe-FirstFree :
      (rounds index : ℕ) (item : A)
      → FirstFree cells index at
      → at < index + rounds
      → probe rounds cells index item ≡ some (set cells at (some item), at)
  unfolding probe
  probe-FirstFree zero index item f h = absurd (omega (arith, f.from))
  probe-FirstFree (suc rounds) index item f h = elim (ℕ_discrete index at) [
    | yes e ↦ ground (arith, f.free)
    | no ne ↦
        rw ((f.taken index (le_refl index) (omega (arith, f.from, ne))).1, probe)
          (probe-FirstFree rounds (suc index) item (FirstFree-suc f ne) (omega arith))
  ]

-- The list after `item` is put in the cell `at`.
abbrev pub filled {ℓ} : {A : Type ℓ} → DynList A → ℕ → A → DynList A
filled l at item = record l {
  last_index = if ltb l.last_index at then at + 1 else l.last_index;
  dyn_list = set l.dyn_list at (some item);
}

module _ {ℓ} {A : Type ℓ} (realloc : Realloc (Option A)) (l : DynList A) where
  -- Without a resize, `insert` fills the first free cell from its index on.
  pub insert-FirstFree :
      (index at : ℕ) (item : A)
      → l.last_index < l.phys_len
      → FirstFree l.dyn_list index at
      → at < l.phys_len
      → insert realloc l item index ≡ some (pos 1, filled l at item)
  unfolding insert
  insert-FirstFree index at item room f h =
      ground
        (arith, f.from, probe-FirstFree (l.phys_len - index) index item f (omega (arith, f.from)))

module _ {ℓ} {A : Type ℓ} (l : DynList A) where
  -- An array keeps its size when a cell is filled.
  pub filled-IsValid : (at : ℕ) (item : A) → IsValid l → IsValid (filled l at item)
  filled-IsValid at item v = record { sized = length-set l.dyn_list at (some item) ∙ v.sized }

-- The free cells are at least one, which stands first.
pub replicate-cons {ℓ} :
    {A : Type ℓ} (n : ℕ) (a : A) → 0 < n → replicate n a ≡ a ∷ replicate (n - 1) a
replicate-cons zero a h = elim h [ ]
replicate-cons (suc n) a h = ap (λ k. a ∷ replicate k a) (omega arith)

-- What a read of a cell gives: no cell, a free one, or one with an item.
pub Cell-cases {ℓ} :
    {A : Type ℓ} (c : Option (Option A))
    → (c ≡ none) ⊎ ((c ≡ some none) ⊎ ((a : A) × (c ≡ some (some a))))
Cell-cases none = inl refl
Cell-cases (some none) = inr (inl refl)
Cell-cases (some (some a)) = inr (inr (a, refl))
