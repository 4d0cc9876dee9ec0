-- ===== src/Tests/Spans.antt =====
-- The allocator's spans and objects at concrete inputs.
use search_engine.Common.{
  ℕ, ◌^◌, ◌<◌, ◌≤◌, ◌≡◌, refl, Option, none, some, List, [], ◌∷◌, arith, replicate,
}
use search_engine.Malloc.SizeClass.{
  index_to_size, get_index, to_int, bytes_to_pages, pages_to_bytes,
}
use search_engine.Malloc.SpanList.{Links, write, spanlist_push, remove_span}
use search_engine.Malloc.SpanList.Ring.{Ring, IsRing, SameOutside, spanlist_push-IsRing}
use search_engine.Malloc.SpanList.Remove.{Removed, remove_span-IsRing}
use search_engine.Malloc.Heap.{
  Location, Heap, Span, ThreadList, selfish, unlinked, zeroed, addr_to_index, page_class,
  update_mapping, map_addr_to_span,
}
use search_engine.Malloc.Heap.Mapping.{InPages, map_addr_to_span-update_mapping}
use search_engine.Malloc.PageHeap.{split_spans}
use search_engine.Malloc.PageHeap.Split.{Divided, split_spans-Divided}
use search_engine.Malloc.Central.{class_of, carve_span, max_iter, fetch_from_span, return_loop}
use search_engine.Malloc.Central.Carve.{CutSpan, carve_span-CutSpan}
use search_engine.Malloc.Central.Fetch.{Fetched, fetch_from_span-Fetched}
use search_engine.Malloc.Central.Return.{Returned, return_loop-Returned}
use search_engine.Malloc.Central.Front.{IsStocked}
use search_engine.Malloc.Thread.Refill.{Refilled, allocate-Refilled}
use search_engine.Malloc.Thread.{
  allocate, opt_size, set_local, insert_to_threadcache, tc_malloc, tc_free,
}
use search_engine.Malloc.Thread.Insert.{Inserted, insert_to_threadcache-Inserted}
use search_engine.Malloc.Thread.Reuse.{tc_malloc-tc_free}

-- A span alone, and one that is in no list.
abbrev pub one_listed : List Links
one_listed = selfish 0 ∷ unlinked ∷ []

abbrev pub one-Ring : Ring one_listed 0 []
one-Ring = record {
  route = tt;
  closed = (refl, refl);
  distinct = (tt, tt);
  inside = (omega arith, tt);
}

spanlist_push-IsRing_example :
    (spans' : List Links) × (spanlist_push one_listed (some 0) 1 ≡ some (spans', some 1))
    × IsRing spans' (some 1) (1 ∷ 0 ∷ [])
    × SameOutside (1 ∷ 0 ∷ []) one_listed spans'
spanlist_push-IsRing_example =
    spanlist_push-IsRing one_listed (some 0) (0 ∷ []) 1 (refl, one-Ring) (omega arith)
      ((λ e. omega (arith, e)), tt)

-- Two spans in a ring.
abbrev two_listed : List Links
two_listed = record { prev = some 1; next = some 1 } ∷ record { prev = some 0; next = some 0 } ∷ []

abbrev two-Ring : Ring two_listed 0 (1 ∷ [])
two-Ring = record {
  route = ((refl, refl), tt);
  closed = (refl, refl);
  distinct = (((λ e. omega (arith, e)), tt), (tt, tt));
  inside = (omega arith, (omega arith, tt));
}

remove_span-IsRing_example :
    Removed two_listed 1 (0 ∷ 1 ∷ []) (0 ∷ []) (remove_span two_listed (some 0) 1)
remove_span-IsRing_example = remove_span-IsRing two_listed (some 0) (0 ∷ []) 1 [] (refl, two-Ring)

-- A heap of eight pages from the address 0 on.
abbrev pub heap_of : List Links → List Span → List (Option ℕ) → Heap
heap_of links spans pages = record {
  links = links;
  spans = spans;
  nexts = λ _. none;
  page_mapping = some 0 ∷ replicate 7 none;
  curr_index = 0;
  pages = pages;
  ini_brk_addr = 0;
  brk = 2 ^ 15;
  rem_bytes = 0;
  central = none ∷ [];
  idle = none ∷ [];
  local = record { objs = none; objlen = 0; max_length = 1 } ∷ [];
}

abbrev three_pages : Span
three_pages = record zeroed { start = 4096; page_id = 1; page_size = 3 }

abbrev pub one_page : Span
one_page = record zeroed { page_size = 1 }

abbrev mapping_heap : Heap
mapping_heap = heap_of one_listed (three_pages ∷ one_page ∷ []) (replicate 4 none)

map_addr_to_span-update_mapping_example :
    (h' : Heap) × (update_mapping mapping_heap 0 ≡ some h')
    × ((ptr : ℕ)
        → ptr < 2 ^ 64
        → InPages mapping_heap three_pages ptr
        → map_addr_to_span h' ptr ≡ some (some 0))
    × ((ptr : ℕ)
        → ptr < 2 ^ 64
        → 0 ≤ ptr
        → (InPages mapping_heap three_pages ptr → ⊥)
        → map_addr_to_span h' ptr ≡ map_addr_to_span mapping_heap ptr)
map_addr_to_span-update_mapping_example =
    map_addr_to_span-update_mapping mapping_heap 0 three_pages refl (omega arith) (omega arith)

abbrev split_heap : Heap
split_heap = heap_of (unlinked ∷ selfish 1 ∷ []) (three_pages ∷ one_page ∷ []) (replicate 4 none)

split_spans-Divided_example :
    (h' : Heap) × (split_spans split_heap 0 1 1 ≡ some h')
    × Divided split_heap 0 1 1 three_pages one_page [] h'
unfolding page_class
split_spans-Divided_example =
    split_spans-Divided split_heap 0 1 1 three_pages one_page none [] refl refl
      (λ e. omega (arith, e)) refl refl (omega arith) (omega arith) (omega arith) (omega arith)
      (omega arith) refl refl (omega arith) tt

carve_span-CutSpan_example :
    (h' : Heap) × (s' : Span) × (carve_span split_heap 0 32 ≡ some h')
    × CutSpan split_heap 0 32 (pages_to_bytes 3) three_pages h' s'
carve_span-CutSpan_example =
    carve_span-CutSpan split_heap 0 32 three_pages refl refl refl (omega arith) (omega arith)
      (omega arith)

-- A span with the free objects 8 and 16.
abbrev two_objs : Span
two_objs = record one_page { objs = some 8; obj_len = 2; objs_size = 8 }

abbrev objs_heap : Heap
objs_heap = record (heap_of one_listed (two_objs ∷ []) (none ∷ [])) {
  nexts = write (λ _. none) 8 (some 16);
}

fetch_from_span-Fetched_example :
    (h' : Heap) × (s' : Span) × (fetch_from_span objs_heap 0 0 1 ≡ some (1, some 8, h'))
    × Fetched objs_heap 0 two_objs (8 ∷ 16 ∷ []) 1 h' s'
unfolding max_iter to_int
fetch_from_span-Fetched_example =
    fetch_from_span-Fetched objs_heap 0 0 1 two_objs 8 0 (16 ∷ []) refl (refl, (refl, refl))
      (((λ e. omega (arith, e)), tt), (tt, tt)) refl (omega arith) (λ e. omega (arith, e))

-- A span with one object of two, 16, in use.
abbrev used_objs : Span
used_objs = record one_page { objs = some 8; obj_len = 2; objs_size = 8; obj_refcount = 1 }

abbrev used_heap : Heap
used_heap = heap_of one_listed (used_objs ∷ []) (none ∷ [])

first_page : (ptr : ℕ) → ptr < 2 ^ 12 → addr_to_index ptr 0 ≡ 0
unfolding addr_to_index bytes_to_pages
first_page ptr h = omega arith

object_mapped : (ptr : ℕ) → ptr < 2 ^ 12 → map_addr_to_span used_heap ptr ≡ some (some 0)
unfolding map_addr_to_span
object_mapped ptr h = rw (first_page ptr h) refl

return_loop-Returned_example :
    (h' : Heap) × (s' : Span) × (return_loop 1 used_heap none (some 16) ≡ some (some 0, h'))
    × Returned used_heap 0 used_objs (16 ∷ []) (8 ∷ []) h' s'
return_loop-Returned_example =
    return_loop-Returned used_heap 0 used_objs (some 16) none 16 [] (8 ∷ []) (refl, refl)
      (object_mapped 16 (omega arith), tt) refl (refl, refl)
      (((λ e. omega (arith, e)), tt), (tt, tt)) (omega arith) (omega arith) (omega arith)

first_class : class_of 8 ≡ some 0
unfolding get_index to_int
first_class = refl

first_class' : class_of 5 ≡ some 0
unfolding get_index to_int
first_class' = refl

-- The objects 8 and 16 for an empty cache.
insert_to_threadcache-Inserted_example :
    (nexts' : ℕ → Option ℕ) × (list' : ThreadList) × (insert_to_threadcache 2 objs_heap (some 8) 8
      ≡ some (set_local (record objs_heap { nexts = nexts' }) 0 list'))
    × Inserted objs_heap.nexts
        (record { objs = none; objlen = 0; max_length = 1 })
        (8 ∷ 16 ∷ [])
        []
        nexts'
        list'
insert_to_threadcache-Inserted_example =
    insert_to_threadcache-Inserted objs_heap (some 8) 8 0
      (record { objs = none; objlen = 0; max_length = 1 }) (8 ∷ 16 ∷ []) [] first_class refl
      (refl, (refl, refl)) refl (((λ e. omega (arith, e)), tt), (tt, tt)) (omega arith)

tc_malloc-tc_free_example :
    (h' : Heap) × (tc_free used_heap 16 ≡ some h')
    × (tc_malloc (λ brk n. brk) h' 5
        ≡ some (16, record used_heap { nexts = write used_heap.nexts 16 none }))
tc_malloc-tc_free_example =
    tc_malloc-tc_free (λ brk n. brk) used_heap 16 0 0 5 used_objs
      (record { objs = none; objlen = 0; max_length = 1 }) (object_mapped 16 (omega arith)) refl
      (omega arith) (omega arith) first_class refl (λ e. omega (arith, e)) (omega arith)
      (omega arith) first_class'

-- A span with the free objects 8 and 16 of three, at the front of the list of the class 0.
abbrev three_objs : Span
three_objs = record two_objs { obj_len = 3; loc = Location.central_list }

-- An empty cache that may ask for two objects.
abbrev two_wanted : ThreadList
two_wanted = record { objs = none; objlen = 0; max_length = 2 }

abbrev stocked_heap : Heap
stocked_heap = record (heap_of one_listed (three_objs ∷ []) (none ∷ [])) {
  nexts = write (λ _. none) 8 (some 16);
  central = some 0 ∷ [];
  local = two_wanted ∷ [];
}

size-class : class_of (index_to_size 0) ≡ some 0
unfolding get_index index_to_size to_int
size-class = refl

stocked : IsStocked stocked_heap 0 0 8 three_objs (selfish 0)
stocked = record { class = size-class; front = refl; at = refl; at_links = refl; first = refl }

two_asked : max_iter (opt_size two_wanted) 3 0 ≡ 2
unfolding max_iter to_int opt_size
two_asked = refl

allocate-Refilled_example :
    (obj : ℕ) × (h' : Heap) × (allocate (λ brk n. brk) stocked_heap 5 ≡ some (obj, h'))
    × Refilled stocked_heap 0 0 three_objs (8 ∷ 16 ∷ []) 2 obj h'
allocate-Refilled_example =
    allocate-Refilled (λ brk n. brk) stocked_heap 5 0 0 8 1 (16 ∷ []) three_objs (selfish 0)
      two_wanted first_class' refl refl refl stocked (refl, (refl, refl))
      (((λ e. omega (arith, e)), tt), (tt, tt)) two_asked (omega arith) (λ e. omega (arith, e))
