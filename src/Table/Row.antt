-- ===== src/Table/Row.antt =====
-- helper.c: `insert` at `last_index`, as `read_dir` fills `file_list`.
use search_engine.Common.{
  ℕ, zero, suc, ◌+◌, ◌-◌, ◌*◌, ◌/◌, ◌%◌, ◌<◌, ◌≤◌, ◌≡◌, refl, sym, ap, ◌∙◌, Option, none, some,
  List, [], ◌∷◌, ◌++◌, arith, length, get_elem?, set, replicate, length-append,
}
use mathlib.Core.List.{map}
use mathlib.Core.Path.{subst}
use search_engine.Common.Int.{pos}
use search_engine.Table.{DynList, Realloc, insert}
use search_engine.Table.Slots.{FirstFree, filled, insert-FirstFree, replicate-cons}

-- The items stand in the first cells, in order; the other cells are free. `last_index` is moved by
-- every second `insert` only, and stays even.
pub record IsRow {ℓ} {A : Type ℓ} (items : List A) (l : DynList A) : Type ℓ where
  pub spare : ℕ
  pub cells : l.dyn_list ≡ map some items ++ replicate spare none
  pub size : l.phys_len ≡ length items + spare
  pub last : l.last_index ≡ length items / 2 * 2
  pub even : l.phys_len % 2 ≡ 0

module _ {ℓ} {A : Type ℓ} where
  length-map-some : (items : List A) → length {A = Option A} (map some items) ≡ length items
  length-map-some [] = refl
  length-map-some (x ∷ xs) = ap suc (length-map-some xs)

  get_elem?-map-some :
      (items : List A) (rest : List (Option A)) (i : ℕ)
      → i < length items
      → (a : A) × (get_elem? (map some items ++ rest) i ≡ some (some a))
        × (get_elem? items i ≡ some a)
  get_elem?-map-some [] rest i h = absurd (omega arith)
  get_elem?-map-some (x ∷ xs) rest zero h = (x, refl, refl)
  get_elem?-map-some (x ∷ xs) rest (suc i) h = get_elem?-map-some xs rest i (omega arith)

  get_elem?-after :
      (items : List A) (rest : List (Option A))
      → get_elem? (map some items ++ none ∷ rest) (length items) ≡ some none
  get_elem?-after [] rest = refl
  get_elem?-after (x ∷ xs) rest = get_elem?-after xs rest

  set-after :
      (items : List A) (rest : List (Option A)) (a : A)
      → set (map some items ++ none ∷ rest) (length items) (some a)
        ≡ map some (items ++ a ∷ []) ++ rest
  set-after [] rest a = refl
  set-after (x ∷ xs) rest a = ap (λ t. some x ∷ t) (set-after xs rest a)

  -- The first free cell of a row is the one behind its items, from any index up to there.
  row-FirstFree :
      (items : List A) (rest : List (Option A)) (index : ℕ)
      → index ≤ length items
      → FirstFree (map some items ++ none ∷ rest) index (length items)
  row-FirstFree items rest index h = record {
    from = h;
    free = get_elem?-after items rest;
    taken = λ i _ k. let (a, e, _) = get_elem?-map-some items (none ∷ rest) i k in (a, e);
  }

module _ {ℓ} {A : Type ℓ} where
  -- For a row and an index `last_index` that has not reached `phys_len`, and whatever `tc_realloc` does,
  -- `insert` at `last_index` succeeds without a resize and puts the item behind the items of the row:
  -- so the item number `n` of all that are inserted stands in the cell `n`, though `last_index` does
  -- not count the items.
  pub insert-IsRow :
      (realloc : Realloc (Option A)) (items : List A) (l : DynList A) (a : A)
      → IsRow items l
      → l.last_index < l.phys_len
      → (l' : DynList A) × (insert realloc l a l.last_index ≡ some (pos 1, l'))
        × IsRow (items ++ a ∷ []) l'
        × (l'.phys_len ≡ l.phys_len)
  insert-IsRow realloc items l a r room =
      let one_more = length-append items (a ∷ []) in
      let cells : l.dyn_list ≡ map some items ++ none ∷ replicate (r.spare - 1) none =
        r.cells
        ∙ ap (◌++◌ (map some items))
            (replicate-cons r.spare none (omega (arith, r.size, r.last, r.even))) in
      let spot : FirstFree l.dyn_list l.last_index (length items) =
        subst (λ cells. FirstFree cells l.last_index (length items)) (sym cells)
          (row-FirstFree items (replicate (r.spare - 1) none) l.last_index
            (omega (arith, r.last))) in
      (
        filled l (length items) a,
        insert-FirstFree realloc l l.last_index (length items) a room spot
            (omega (arith, r.size, r.last, r.even)),
        record {
          spare = r.spare - 1;
          cells =
              ap (λ cells. set cells (length items) (some a)) cells
              ∙ set-after items (replicate (r.spare - 1) none) a;
          size = omega (arith, r.size, r.last, r.even, one_more);
          last = ground (arith, r.last, one_more);
          even = r.even;
        },
        refl,
      )
