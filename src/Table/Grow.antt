-- ===== src/Table/Grow.antt =====
-- server.c: what `disperse_keys` leaves in the array.
use search_engine.Common.{
  ℕ, zero, suc, ◌+◌, ◌-◌, ◌/◌, ◌%◌, ◌<◌, ◌≤◌, ◌≡◌, inl, inr, refl, sym, ap, ◌∙◌, Option, some, List,
  Bool, arith, ltb, leb, if◌then◌else◌, Bool-cases, length, get_elem?, set, length-set,
  get_elem?-set_ne, get_elem?-set_inv,
}
use mathlib.Core.Path.{subst}
use mathlib.Core.Option.{some-injective}
use native.Mathlib.Decide.{ℕ_discrete}
use native.Mathlib.Nat.{mod-lt, le_refl}
use search_engine.Table.{
  DynList, probe, lookup, disperse_store, disperse_cell, disperse_from, disperse_keys,
}
use search_engine.Table.Slots.{IsValid, get_elem?-in, Cell-cases}
use search_engine.Table.Find.{scan-found, lookup-scan}

-- The item `a` stands in a cell from `n` on.
abbrev pub StandsFrom {ℓ} : {A : Type ℓ} → ℕ → List (Option A) → A → Type ℓ
StandsFrom n cells a = (i : ℕ) × (n ≤ i) × (get_elem? cells i ≡ some (some a))

-- What stands in a cell from `n` on has the property `P`.
abbrev AllFrom {ℓ} : {A : Type ℓ} → ℕ → (A → Type ℓ) → List (Option A) → Type ℓ
AllFrom {A} n P cells = (i : ℕ) (a : A) → n ≤ i → get_elem? cells i ≡ some (some a) → P a

-- The outcome of the loop of `insert`: the cells of the same number, changed at most by an item
-- with the property `P`.
record Probed {ℓ} {A : Type ℓ} (P : A → Type ℓ) (cells : List (Option A))
    (out : Option (List (Option A) × ℕ)) : Type ℓ where
  cells' : List (Option A)
  at : ℕ
  result : out ≡ some (cells', at)
  sized : length cells' ≡ length cells
  only : (n : ℕ) → AllFrom n P cells → AllFrom n P cells'

module _ {ℓ} {A : Type ℓ} where
  set-AllFrom :
      (cells : List (Option A)) (at n : ℕ) (item : A) (P : A → Type ℓ)
      → P item
      → AllFrom n P cells
      → AllFrom n P (set cells at (some item))
  set-AllFrom cells at n item P holds only i a h e = elim (ℕ_discrete at i) [
    | yes p ↦
        let same =
          get_elem?-set_inv cells at (some item)
            (ap (get_elem? (set cells at (some item))) p ∙ e) in
        subst P (sym (some-injective a item same)) holds
    | no p ↦ only i a h (sym (get_elem?-set_ne cells (some item) p) ∙ e)
  ]

  probe-Probed :
      (P : A → Type ℓ) (rounds : ℕ) (cells : List (Option A)) (index : ℕ) (item : A)
      → P item
      → index + rounds ≤ length cells
      → Probed P cells (probe rounds cells index item)
  unfolding probe
  probe-Probed P zero cells index item holds h = record {
    cells' = cells;
    at = index;
    result = refl;
    sized = refl;
    only = λ n o. o;
  }
  probe-Probed P (suc rounds) cells index item holds h = elim (Cell-cases (get_elem? cells index)) [
    | inl e ↦ absurd (get_elem?-in cells index (omega arith) e)
    | inr (inl e) ↦
        rw (e, probe)
          (record {
            cells' = set cells index (some item);
            at = index;
            result = refl;
            sized = length-set cells index (some item);
            only = λ n o. set-AllFrom cells index n item P holds o;
          })
    | inr (inr (b, e)) ↦
        rw (e, probe) (probe-Probed P rounds cells (suc index) item holds (omega arith))
  ]

-- The list is of size `curr_len`, and what stands from `prev_len` on has the property `P`.
record UpperOnly {ℓ} {A : Type ℓ} (prev_len curr_len : ℕ) (P : A → Type ℓ) (l : DynList A)
    : Type ℓ where
  len : l.phys_len ≡ curr_len
  sized : length l.dyn_list ≡ curr_len
  only : AllFrom prev_len P l.dyn_list

module _ {ℓ} {A : Type ℓ} (hash_of : A → ℕ) {prev_len curr_len : ℕ} (last_index : ℕ)
    {P : A → Type ℓ} where
  store-UpperOnly :
      (l : DynList A) {out : Option (List (Option A) × ℕ)}
      → UpperOnly prev_len curr_len P l
      → Probed P l.dyn_list out
      → (l' : DynList A) × (disperse_store hash_of prev_len curr_len last_index l out ≡ some l')
        × UpperOnly prev_len curr_len P l'
  unfolding disperse_store
  store-UpperOnly l u p = elim (Bool-cases (ltb p.at curr_len)) [
    | inl b ↦ (
      record l {
        last_index = if ltb last_index p.at then p.at + 1 else last_index;
        dyn_list = p.cells';
      },
      rw (p.result, b, disperse_store),
      record { len = u.len; sized = p.sized ∙ u.sized; only = p.only prev_len u.only },
    )
    | inr b ↦ (l, rw (p.result, b, disperse_store), u)
  ]

  cell-UpperOnly :
      (l : DynList A) (index : ℕ)
      → UpperOnly prev_len curr_len P l
      → prev_len ≤ index
      → index < curr_len
      → (l' : DynList A) × (disperse_cell hash_of prev_len curr_len last_index l
            (get_elem? l.dyn_list index)
          ≡ some l')
        × UpperOnly prev_len curr_len P l'
  unfolding disperse_cell
  cell-UpperOnly l index u low high = elim (Cell-cases (get_elem? l.dyn_list index)) [
    | inl e ↦ absurd (get_elem?-in l.dyn_list index (omega (arith, u.sized)) e)
    | inr (inl e) ↦ (l, rw e, u)
    | inr (inr (a, e)) ↦ elim (Bool-cases (leb prev_len (hash_of a))) [
      | inl b ↦
          let home = hash_of a % curr_len in
          let below : home < curr_len = mod-lt (hash_of a) (omega arith) in
          let probed =
            probe-Probed P (curr_len - home) l.dyn_list home a (u.only index a low e)
              (omega (arith, u.sized)) in
          let (l', r, u') = store-UpperOnly l u probed in (l', rw (e, b) r, u')
      | inr b ↦ (l, rw (e, b), u)
    ]
  ]

  from-UpperOnly :
      (rounds index : ℕ) (l : DynList A)
      → UpperOnly prev_len curr_len P l
      → prev_len ≤ index
      → index + rounds ≤ curr_len
      → (l' : DynList A) × (disperse_from hash_of prev_len curr_len last_index rounds index l
          ≡ some l')
        × UpperOnly prev_len curr_len P l'
  unfolding disperse_from
  from-UpperOnly zero index l u low high = (l, refl, u)
  from-UpperOnly (suc rounds) index l u low high =
      let (l1, e, u1) = cell-UpperOnly l index u low (omega arith) in
      rw (e, disperse_from) (from-UpperOnly rounds (suc index) l1 u1 (omega arith) (omega arith))

module _ {ℓ} {A : Type ℓ} where
  -- For every list of the right size, `disperse_keys` reads and writes inside the array and keeps its
  -- size, and a `lookup` from any index of the upper half afterwards finds only an item that stood in
  -- the upper half before. So no word of the lower half is ever moved to where it is looked for,
  -- though all indices of the upper half are the places of words once the array has been doubled.
  pub lookup-disperse_keys :
      (hash_of : A → ℕ) (l : DynList A)
      → IsValid l
      → (l' : DynList A) × (disperse_keys hash_of l ≡ some l')
        × IsValid l'
        × (l'.phys_len ≡ l.phys_len)
        × ((hit : A → Bool) (j : ℕ) (a : A)
            → l.phys_len / 2 ≤ j
            → j < l.phys_len
            → lookup hit l' j ≡ some (some a)
            → StandsFrom (l.phys_len / 2) l.dyn_list a)
  unfolding disperse_keys
  lookup-disperse_keys hash_of l v =
      let n = l.phys_len / 2 in
      let (l', e, u) =
        from-UpperOnly hash_of l.last_index (l.phys_len - n) n l
          (record { len = refl; sized = v.sized; only = λ i a low at. (i, low, at) }) (le_refl n)
          (omega arith) in
      let valid : IsValid l' = record { sized = u.sized ∙ sym u.len } in
      (
        l',
        e,
        valid,
        u.len,
        λ hit j a h k found.
            let (i, up, at, _) =
              scan-found hit l'.dyn_list j a
                (sym (lookup-scan hit l' j valid (omega (arith, u.len))) ∙ found) in
            u.only i a (omega arith) at,
      )
