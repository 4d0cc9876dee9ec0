-- ===== src/Malloc/Thread/Insert.antt =====
-- tc_malloc.c: `insert_to_threadcache`.
use search_engine.Common.{
  ℕ, ◌+◌, ◌%◌, ◌^◌, ◌<◌, ◌≡◌, refl, sym, ◌∙◌, Option, some, List, [], ◌∷◌, ◌++◌, arith, length,
  get_elem?,
}
use search_engine.Malloc.SpanList.{write}
use search_engine.Malloc.SpanList.Ring.{Apart, Distinct}
use search_engine.Malloc.Heap.{Heap, ThreadList}
use search_engine.Malloc.Objects.{
  Objs, turned, Objs-write, Objs-push, Distinct-insert, Apart-append, write_other,
}
use search_engine.Malloc.Central.{class_of}
use search_engine.Malloc.Thread.{insert_loop, insert_to_threadcache, set_local}

-- The objects `xs` stand in front of those of the list, the last one first.
pub record Inserted (nexts : ℕ → Option ℕ) (list : ThreadList) (xs ys : List ℕ)
    (nexts' : ℕ → Option ℕ) (list' : ThreadList) : Type 0 where
  pub objs : Objs nexts' list'.objs (turned xs ys)
  pub count : list'.objlen ≡ list.objlen + length xs
  pub limit : list'.max_length ≡ list.max_length
  pub others : (p : ℕ) → Apart p xs → nexts' p ≡ nexts p

insert_loop-Inserted :
    (nexts : ℕ → Option ℕ) (start : Option ℕ) (list : ThreadList) (xs ys : List ℕ)
    → Objs nexts start xs
    → Objs nexts list.objs ys
    → Distinct (xs ++ ys)
    → list.objlen + length xs < 2 ^ 64
    → (nexts' : ℕ → Option ℕ) × (list' : ThreadList) × (insert_loop (length xs) nexts start list
        ≡ some (nexts', list'))
      × Inserted nexts list xs ys nexts' list'
unfolding insert_loop
insert_loop-Inserted nexts start list [] ys o o' d h = (
  nexts,
  list,
  rw o refl,
  record { objs = o'; count = omega arith; limit = refl; others = λ p out. refl },
)
insert_loop-Inserted nexts start list (x ∷ xs) ys (e, o) o' (out, d) h =
    let (out_x, out_y) = Apart-append x xs ys out in
    let step : ThreadList = record list { objs = some x; objlen = (list.objlen + 1) % 2 ^ 64 } in
    let (nexts', list', got, i) =
      insert_loop-Inserted (write nexts x list.objs) (nexts x) step xs (x ∷ ys)
        (Objs-write nexts x list.objs (nexts x) xs out_x o)
        (Objs-push nexts x list.objs ys out_y o') (Distinct-insert xs x ys d out) (omega arith) in
    (
      nexts',
      list',
      rw e got,
      record {
        objs = i.objs;
        count = omega (arith, i.count);
        limit = i.limit;
        others =
            λ p (ne, apart). i.others p apart ∙ write_other nexts x p list.objs (λ e'. ne (sym e'));
      },
    )

-- For a chain of distinct objects that are not in the cache, and a length that fits in 64 bits:
-- `insert_to_threadcache` ends, with one round for each object, and puts the objects in front of
-- those that the cache of their class holds, the last one first; the length grows by their number,
-- `max_length` stays, and so do the links of all other objects.
pub insert_to_threadcache-Inserted :
    (h : Heap) (start : Option ℕ) (nbytes index : ℕ) (list : ThreadList) (xs ys : List ℕ)
    → class_of nbytes ≡ some index
    → get_elem? h.local index ≡ some list
    → Objs h.nexts start xs
    → Objs h.nexts list.objs ys
    → Distinct (xs ++ ys)
    → list.objlen + length xs < 2 ^ 64
    → (nexts' : ℕ → Option ℕ) × (list' : ThreadList) × (insert_to_threadcache
          (length xs)
          h
          start
          nbytes
        ≡ some (set_local (record h { nexts = nexts' }) index list'))
      × Inserted h.nexts list xs ys nexts' list'
unfolding insert_to_threadcache
insert_to_threadcache-Inserted h start nbytes index list xs ys c e o o' d fits =
    let (nexts', list', got, i) = insert_loop-Inserted h.nexts start list xs ys o o' d fits in
    (nexts', list', rw (c, e, got) refl, i)
