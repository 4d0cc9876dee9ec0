-- ===== src/Table.antt =====
-- helper.c: `struct DynList`, an array of pointers with open addressing, and its operations.
-- A cell is `none` for the null pointer. The outer `none` of a result is an access outside of the
-- array, which the code does not check.
pub mod Slots
pub mod Keep
pub mod Find
pub mod Fault
pub mod Grow
pub mod Row
use search_engine.Common.{
  ℕ, zero, suc, ◌+◌, ◌-◌, ◌*◌, ◌/◌, ◌%◌, ◌^◌, Option, none, some, List, Bool, true, false, ltb, leb,
  if◌then◌else◌, get_elem?, set,
}
use search_engine.Common.Int.{ℤ, pos, negsuc}

pub record DynList {ℓ} (A : Type ℓ) : Type ℓ where
  pub last_index : ℕ
  pub phys_len : ℕ
  pub dyn_list : List (Option A)

-- `tc_realloc(buf, old, new)` of an array of elements; `none` is its null result.
abbrev pub Realloc {ℓ} : Type ℓ → Type ℓ
Realloc A = List A → ℕ → ℕ → Option (List A)

-- What `create_list` does: it returns null, ends the process, or returns the list.
pub data Created {ℓ} (A : Type ℓ) : Type ℓ where
  null exits : Created A
  created : DynList A → Created A

module _ {ℓ} {A : Type ℓ} where
  -- `header` says whether `tc_calloc` gave the struct, and `cells` is its result for the array.
  pub create_list : (header : Bool) → (cells : ℕ → Option (List (Option A))) → ℕ → Created A
  create_list false cells init_size = null
  create_list true cells init_size = elim (cells init_size) [
    | none ↦ exits
    | some xs ↦ created (record { last_index = 0; phys_len = init_size; dyn_list = xs })
  ]

  -- `resize(list, DYNLIST)`. The sizes that `tc_realloc` gets are in bytes.
  pub resize : Realloc (Option A) → DynList A → ℤ × DynList A
  resize realloc list =
      let new_len = (list.phys_len * 2) % 2 ^ 64 in
      elim (realloc list.dyn_list (list.phys_len * 8 % 2 ^ 64) (new_len * 8 % 2 ^ 64)) [
        | none ↦ (negsuc 0, list)
        | some new_list ↦ (pos 1, record list { phys_len = new_len; dyn_list = new_list })
      ]

  -- `while (index < phys_len)` of `insert` and of `disperse_keys`, with the rounds that are left:
  -- the first free cell takes the item. It returns the cells and the final `index`.
  pub probe : ℕ → List (Option A) → ℕ → A → Option (List (Option A) × ℕ)
  probe zero cells index item = some (cells, index)
  probe (suc rounds) cells index item = elim (get_elem? cells index) [
    | none ↦ none
    | some none ↦ some (set cells index (some item), index)
    | some (some _) ↦ probe rounds cells (suc index) item
  ]

  -- The end of `insert`: `last_index` moves only if the final `index` is above it.
  pub store : ℤ → DynList A → Option (List (Option A) × ℕ) → Option (ℤ × DynList A)
  store ret list none = none
  store ret list (some (cells, index)) = some (
    ret,
    record list {
      last_index = if ltb list.last_index index then index + 1 else list.last_index;
      dyn_list = cells;
    },
  )

  -- `insert(list, item, 0, index, DYNLIST)` of a list that is not null. The result of `resize` is
  -- not looked at.
  pub insert : Realloc (Option A) → DynList A → A → ℕ → Option (ℤ × DynList A)
  unfolding resize probe store
  insert realloc list item index =
      let full = leb list.phys_len list.last_index in
      let ret = if full then pos 2 else pos 1 in
      let list' = if full then (resize realloc list).1 else list in
      if leb list'.phys_len index
      then some (negsuc 0, list')
      else store ret list' (probe (list'.phys_len - index) list'.dyn_list index item)

  -- `while (index < phys_len && (item = dyn_list[++index]))` of `lookup`; `hit` is its comparison
  -- of an item with the string.
  unfoldable pub lookup_from : (A → Bool) → ℕ → List (Option A) → ℕ → Option (Option A)
  lookup_from hit zero cells index = some none
  lookup_from hit (suc rounds) cells index = elim (get_elem? cells (suc index)) [
    | none ↦ none
    | some none ↦ some none
    | some (some item) ↦ elim (hit item) [
      | true ↦ some (some item)
      | false ↦ lookup_from hit rounds cells (suc index)
    ]
  ]

  unfoldable pub lookup : (A → Bool) → DynList A → ℕ → Option (Option A)
  unfolding lookup_from
  lookup hit list index = elim (get_elem? list.dyn_list index) [
    | none ↦ none
    | some none ↦ some none
    | some (some item) ↦ elim (hit item) [
      | true ↦ some (some item)
      | false ↦ lookup_from hit (list.phys_len - index) list.dyn_list index
    ]
  ]

-- `disperse_keys` of server.c, which is called after an `insert` that has resized the array;
-- `hash_of` is `word->hash`.
module _ {ℓ} {A : Type ℓ} (hash_of : A → ℕ) (prev_len curr_len last_index : ℕ) where
  -- What the inner loop leaves: nothing is stored if it runs to the end of the array.
  pub disperse_store : DynList A → Option (List (Option A) × ℕ) → Option (DynList A)
  disperse_store list none = none
  disperse_store list (some (cells, curr_index)) = some (
      if ltb curr_index curr_len
      then record list {
        last_index = if ltb last_index curr_index then curr_index + 1 else last_index;
        dyn_list = cells;
      }
      else list)

  -- The body of the outer loop for the cell `index`.
  pub disperse_cell : DynList A → Option (Option A) → Option (DynList A)
  unfolding disperse_store probe
  disperse_cell list none = none
  disperse_cell list (some none) = some list
  disperse_cell list (some (some word)) =
      let curr_index = hash_of word % curr_len in
      if leb prev_len (hash_of word)
      then disperse_store list (probe (curr_len - curr_index) list.dyn_list curr_index word)
      else some list

  -- The outer loop, with the rounds that are left.
  pub disperse_from : ℕ → ℕ → DynList A → Option (DynList A)
  unfolding disperse_cell
  disperse_from zero index list = some list
  disperse_from (suc rounds) index list =
      elim (disperse_cell list (get_elem? list.dyn_list index)) [
        | none ↦ none
        | some list' ↦ disperse_from rounds (suc index) list'
      ]

pub disperse_keys {ℓ} : {A : Type ℓ} → (A → ℕ) → DynList A → Option (DynList A)
unfolding disperse_from
disperse_keys hash_of list =
    let curr_len = list.phys_len in
    let prev_len = list.phys_len / 2 in
    disperse_from hash_of prev_len curr_len list.last_index (curr_len - prev_len) prev_len list
