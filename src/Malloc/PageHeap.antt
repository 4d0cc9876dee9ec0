-- ===== src/Malloc/PageHeap.antt =====
-- tc_malloc.c: the page heap, lists of spans by their number of pages.
pub mod Take
pub mod Split
pub mod Huge
use search_engine.Common.{
  ℕ, zero, suc, ◌+◌, ◌-◌, ◌*◌, ◌/◌, ◌%◌, ◌^◌, ◌<◌, ◌≤◌, ◌≡◌, ◌≢◌, ◌⊎◌, ◌↔◌, inl, inr, refl, sym, ap,
  ◌∙◌, Option, none, some, List, [], ◌∷◌, ◌++◌, Bool, true, false, not, ◌&&◌, ◌||◌, arith, ltb, leb,
  ◌==◌, min, append-nil, append_assoc, if◌then◌else◌, ltb→lt, lt→ltb, leb→le, ==_iff, Bool-cases,
  Option-cases, length, get_elem?, set, get_or, take, drop, replicate, length-set,
  get_elem?-set_self, get_elem?-set_ne, length-append, length-replicate, length-take, length-drop,
  take-append-drop, get_elem?-set_inv, ◌>>=◌, get_elem?-set_at, drop-add, drop-suc, drop-append,
  drop-set, get_or-drop,
}
use search_engine.Malloc.SizeClass.{bytes_to_pages, pages_to_bytes, pages_to_bytes_32}
use search_engine.Malloc.SpanList.{Links, points_to}
use search_engine.Malloc.Heap.{
  Heap, Span, Location, set_span, selfish, page_class, push_page, remove_page, update_mapping, grow,
  alloc_span,
}

-- SYSFETCHSIZE.
abbrev pub fetch_bytes : ℕ
fetch_bytes = 2 ^ 28

-- `split_spans`: the last `npage` pages of `tmp` become `new`, and the rest goes back to the page heap.
pub split_spans : Heap → ℕ → ℕ → ℕ → Option Heap
split_spans h tmp new npage = do
  t ← get_elem? h.spans tmp
  n ← get_elem? h.spans new
  let left = (t.page_size + (2 ^ 32 - npage % 2 ^ 32)) % 2 ^ 32
  let cut = set_span h tmp (record t { page_size = left })
  let started =
      set_span cut new (record n {
        start = t.start + pages_to_bytes_32 left;
        page_id = (t.page_id + left) % 2 ^ 32;
      })
  let alone = record started { links = set h.links new (selfish new) }
  pushed ← if left == 0 then some alone else push_page alone (page_class left) tmp
  update_mapping pushed new

-- The first list from number `i` on that is not empty, and its head; `rounds` lists are left.
pub first_list : ℕ → ℕ → List (Option ℕ) → Option (ℕ × ℕ)
first_list zero i pages = none
first_list (suc rounds) i pages =
    let rest = first_list rounds (suc i) pages in
    elim (get_elem? pages i) [
      | none ↦ none
      | some head ↦ elim head [ none ↦ rest | some tmp ↦ some (i, tmp) ]
    ]

-- The walk for a span of at least `npage` pages, from `tmp` round the ring of `head`; at most `fuel`
-- spans are visited.
pub find_big : ℕ → Heap → ℕ → ℕ → Option ℕ → Option (Option ℕ)
find_big fuel h npage head none = some none
find_big zero h npage head (some tmp) = none
find_big (suc fuel) h npage head (some tmp) = do
  s ← get_elem? h.spans tmp
  links ← get_elem? h.links tmp
  let rest = find_big fuel h npage head links.next
  if leb npage s.page_size
      then some (some tmp)
      else if points_to links.next head
      then some none
      else rest

-- Where `fetch_span` takes a span from to cut it: the list and the span.
pub find_larger : Heap → ℕ → Option (Option (ℕ × ℕ))
find_larger h npage = elim (first_list (256 - npage) npage h.pages) [
  | some found ↦ some (some found)
  | none ↦ do
    head ← get_elem? h.pages 255
    found ← elim head [
      | none ↦ some none
      | some tmp ↦ find_big (length h.spans) h npage tmp (some tmp)
    ]
    some (elim found [ none ↦ none | some tmp ↦ some (255, tmp) ])
]

-- `if (npage > 8) new_span->loc = isolated`.
pub isolate : Heap → ℕ → ℕ → Option Heap
isolate h new npage = do
  n ← get_elem? h.spans new
  some (if ltb 8 npage then set_span h new (record n { loc = Location.isolated }) else h)

module _ (sbrk : ℕ → ℕ → ℕ) where
  pub fetch_from_system : Heap → Option Heap
  fetch_from_system h = do
    let addr = (grow sbrk h fetch_bytes).0
    (new, made) ←
        alloc_span sbrk (grow sbrk h fetch_bytes).1 (bytes_to_pages fetch_bytes) (some addr)
    s ← get_elem? made.spans new
    let started = set_span made new (record s { start = addr })
    pushed ← push_page started (page_class s.page_size) new
    update_mapping pushed new

  -- The branch of `fetch_span` for a very big request: a span of its own from the system.
  pub fetch_huge : Heap → ℕ → Option (ℕ × Heap)
  fetch_huge h npage = do
    let addr = (grow sbrk h (pages_to_bytes npage)).0
    (new, made) ← alloc_span sbrk (grow sbrk h (pages_to_bytes npage)).1 npage (some addr)
    s ← get_elem? made.spans new
    mapped ← update_mapping (set_span made new (record s { start = addr })) new
    some (new, mapped)

  -- `fetch_span` after it has found its own list empty; `again` is the recursive call.
  pub fetch_other : (Heap → ℕ → Option (ℕ × Heap)) → Heap → ℕ → Option (ℕ × Heap)
  fetch_other again h npage = do
    (new, made) ← alloc_span sbrk h npage none
    marked ← isolate made new npage
    larger ← find_larger marked npage
    elim larger [
      | some (i, tmp) ↦ do
        removed ← remove_page marked i tmp
        split ← split_spans removed tmp new npage
        some (new, split)
      | none ↦
          let huge = fetch_huge marked npage in
          let system = fetch_from_system marked >>= λ h'. again h' npage in
          if ltb 256 npage then huge else system
    ]

  -- `fetch_span` for fewer than 2 ^ 31 pages, with at most `fuel` calls of itself.
  pub fetch_span : ℕ → Heap → ℕ → Option (ℕ × Heap)
  fetch_span zero h npage = none
  fetch_span (suc fuel) h npage = do
    head ← get_elem? h.pages (page_class npage)
    let other = fetch_other (fetch_span fuel) h npage
    elim head [
      | some tmp ↦ do removed ← remove_page h (page_class npage) tmp; some (tmp, removed)
      | none ↦ other
    ]

-- `return_span_to_pgcache`, which reads the neighbours in the map and does not use them.
pub return_span_to_pgcache : Heap → ℕ → Option Heap
return_span_to_pgcache h span = do
  s ← get_elem? h.spans span
  _ ← if s.page_id == 0 then some none else get_elem? h.page_mapping (s.page_id - 1)
  _ ← get_elem? h.page_mapping (s.page_id + s.page_size)
  let cleared =
      set_span h span
        (record s { objs_size = 0; obj_len = 0; objs = none; loc = Location.pageheap })
  pushed ← push_page cleared (page_class s.page_size) span
  update_mapping pushed span
