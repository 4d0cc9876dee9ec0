-- ===== src/Malloc/Thread/Reuse.antt =====
-- tc_malloc.c: `tc_free`, then `tc_malloc`.
use search_engine.Common.{
  ℕ, ◌+◌, ◌-◌, ◌%◌, ◌^◌, ◌<◌, ◌≤◌, ◌≡◌, ◌≢◌, inl, inr, refl, ◌∙◌, some, true, ◌&&◌, arith, ltb, leb,
  ◌==◌, ==_iff, Bool-cases, get_elem?, set, get_elem?-set_at, set-set, set-get_elem?,
}
use search_engine.Malloc.SpanList.{write, freelist_pop}
use search_engine.Malloc.Heap.{Heap, Span, ThreadList, map_addr_to_span}
use search_engine.Malloc.Objects.{write_self}
use search_engine.Malloc.Central.{class_of}
use search_engine.Malloc.Thread.{
  deallocate, tc_free, tc_malloc, allocate, pop_local, set_local, thresh_alloc,
}

-- The cache of a class with one more object in front.
abbrev with_object : ThreadList → ℕ → ThreadList
with_object list ptr = record list { objs = some ptr; objlen = (list.objlen + 1) % 2 ^ 64 }

abbrev freed : Heap → ℕ → ℕ → ThreadList → Heap
freed h ptr index list =
    set_local (record h { nexts = write h.nexts ptr list.objs }) index (with_object list ptr)

deallocate-freed :
    (h : Heap) (ptr nbytes index : ℕ) (list : ThreadList)
    → class_of nbytes ≡ some index
    → get_elem? h.local index ≡ some list
    → list.objlen ≢ list.max_length
    → deallocate h ptr nbytes ≡ some (freed h ptr index list)
unfolding deallocate
deallocate-freed h ptr nbytes index list c e room =
    rw (c, e)
      (elim (Bool-cases (list.objlen == list.max_length)) [
        | inl full ↦ absurd (room ((==_iff list.objlen list.max_length).0 full))
        | inr free ↦ rw free refl
      ])

pop_local-freed :
    (h : Heap) (ptr index : ℕ) (list : ThreadList)
    → get_elem? h.local index ≡ some list
    → list.objlen + 1 < 2 ^ 64
    → pop_local (freed h ptr index list) index
      ≡ some (ptr, record h { nexts = write h.nexts ptr list.objs })
unfolding pop_local freelist_pop
pop_local-freed h ptr index list e fits =
    let back = get_elem?-set_at h.local index (with_object list ptr) e in
    let count : ((list.objlen + 1) % 2 ^ 64 + (2 ^ 64 - 1)) % 2 ^ 64 ≡ list.objlen = omega arith in
    let again : set (set h.local index (with_object list ptr)) index list ≡ h.local =
      set-set h.local index (with_object list ptr) list ∙ set-get_elem? h.local index list e in
    rw (back, write_self h.nexts ptr list.objs, count, again) refl

-- An object of a small class that is freed while the cache of the thread for its class has fewer
-- objects than `max_length`, or more: the next `tc_malloc` of a size of this class gives the same
-- object, and the allocator is then as it was before, but for the `next` field of the object.
pub tc_malloc-tc_free :
    (sbrk : ℕ → ℕ → ℕ) (h : Heap) (ptr span index size : ℕ) (s : Span) (list : ThreadList)
    → map_addr_to_span h ptr ≡ some (some span)
    → get_elem? h.spans span ≡ some s
    → 0 < s.objs_size
    → s.objs_size ≤ thresh_alloc
    → class_of s.objs_size ≡ some index
    → get_elem? h.local index ≡ some list
    → list.objlen ≢ list.max_length
    → list.objlen + 1 < 2 ^ 64
    → size ≤ thresh_alloc
    → class_of size ≡ some index
    → (h' : Heap) × (tc_free h ptr ≡ some h')
      × (tc_malloc sbrk h' size ≡ some (ptr, record h { nexts = write h.nexts ptr list.objs }))
unfolding tc_free tc_malloc allocate
tc_malloc-tc_free sbrk h ptr span index size s list mapped at some_bytes small c e room fits
      size_small c' =
    let is_small : (ltb 0 s.objs_size && leb s.objs_size thresh_alloc) ≡ true = ground arith in
    let is_small' : leb size thresh_alloc ≡ true = ground arith in
    let back = get_elem?-set_at h.local index (with_object list ptr) e in
    (
      freed h ptr index list,
      rw (mapped, at) (rw (is_small, deallocate-freed h ptr s.objs_size index list c e room) refl),
      rw is_small' (rw (c', back) (pop_local-freed h ptr index list e fits)),
    )
