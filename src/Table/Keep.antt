-- ===== src/Table/Keep.antt =====
-- helper.c: an insertion keeps what `lookup` finds.
use search_engine.Common.{
  ℕ, zero, suc, ◌-◌, ◌≡◌, ◌≢◌, Option, none, some, List, Bool, arith, get_elem?, set,
  get_elem?-set_ne,
}
use search_engine.Table.{DynList, lookup_from, lookup}
use search_engine.Table.Slots.{filled}

module _ {ℓ} {A : Type ℓ} (item : A) where
  -- A cell that is not free is left as it is.
  pub get_elem?-filled :
      (cells : List (Option A)) (at i : ℕ)
      → get_elem? cells at ≡ some none
      → get_elem? cells i ≢ some none
      → get_elem? (set cells at (some item)) i ≡ get_elem? cells i
  get_elem?-filled cells at i free h = get_elem?-set_ne cells (some item) (λ e. h (rw (← e) free))

module _ {ℓ} {A : Type ℓ} (hit : A → Bool) (at : ℕ) (item : A) where
  lookup_from-set :
      (rounds : ℕ) (cells : List (Option A)) (i : ℕ) {a : A}
      → get_elem? cells at ≡ some none
      → lookup_from hit rounds cells i ≡ some (some a)
      → lookup_from hit rounds (set cells at (some item)) i ≡ some (some a)
  unfolding lookup_from
  lookup_from-set zero cells i free h = cc
  lookup_from-set (suc rounds) cells i {a} free h = ground (
    arith,
    get_elem?-filled item cells at (suc i) free,
    lookup_from-set rounds cells (suc i) {a = a},
  )

  -- Whatever `lookup` finds, it still finds after a free cell has been filled.
  pub lookup-filled :
      (l : DynList A) (index : ℕ) {a : A}
      → get_elem? l.dyn_list at ≡ some none
      → lookup hit l index ≡ some (some a)
      → lookup hit (filled l at item) index ≡ some (some a)
  unfolding lookup
  lookup-filled l index {a} free h = ground (
    arith,
    get_elem?-filled item l.dyn_list at index free,
    lookup_from-set (l.phys_len - index) l.dyn_list index {a = a},
  )
