-- ===== src/Malloc/Central.antt =====
-- tc_malloc.c: the central cache, lists of spans that are cut into objects of one class.
pub mod Carve
pub mod Fetch
pub mod Front
pub mod Return
use search_engine.Common.{
  ℕ, zero, suc, ◌+◌, ◌-◌, ◌*◌, ◌/◌, ◌%◌, ◌^◌, ◌<◌, ◌≤◌, ◌≡◌, ◌≢◌, ◌⊎◌, ◌↔◌, inl, inr, refl, sym, ap,
  ◌∙◌, Option, none, some, List, [], ◌∷◌, ◌++◌, Bool, true, false, not, ◌&&◌, ◌||◌, arith, ltb, leb,
  ◌==◌, min, append-nil, append_assoc, if◌then◌else◌, ltb→lt, lt→ltb, leb→le, ==_iff, Bool-cases,
  Option-cases, length, get_elem?, set, get_or, take, drop, replicate, length-set,
  get_elem?-set_self, get_elem?-set_ne, length-append, length-replicate, length-take, length-drop,
  take-append-drop, get_elem?-set_inv, ◌>>=◌, get_elem?-set_at, drop-add, drop-suc, drop-append,
  drop-set, get_or-drop,
}
use search_engine.Common.Int.{ℤ, pos, negsuc}
use search_engine.Malloc.SizeClass.{get_index, to_int, pages_to_bytes_32}
use search_engine.Malloc.SpanList.{Links, write, freelist_push, points_to}
use search_engine.Malloc.Heap.{
  Heap, Span, Location, set_span, push_on, remove_from, map_addr_to_span,
}
use search_engine.Malloc.PageHeap.{fetch_span, return_span_to_pgcache}

-- The class as the number of a list: the class -1 is outside of the arrays.
abbrev pub class_of : ℕ → Option ℕ
class_of size = elim (get_index size) [ pos i ↦ some i | negsuc i ↦ none ]

pub push_central : Heap → ℕ → ℕ → Option Heap
push_central h i span = do
  (links, lists) ← push_on h.links h.central i span
  some (record h { links = links; central = lists })

pub remove_central : Heap → ℕ → ℕ → Option Heap
remove_central h i span = do
  (links, lists) ← remove_from h.links h.central i span
  some (record h { links = links; central = lists })

pub push_idle : Heap → ℕ → ℕ → Option Heap
push_idle h i span = do
  (links, lists) ← push_on h.links h.idle i span
  some (record h { links = links; idle = lists })

pub remove_idle : Heap → ℕ → ℕ → Option Heap
remove_idle h i span = do
  (links, lists) ← remove_from h.links h.idle i span
  some (record h { links = links; idle = lists })

-- The walk of `get_span_central` for a span with free objects.
pub find_objs : ℕ → Heap → ℕ → Option ℕ → Option (Option ℕ)
find_objs fuel h start none = some none
find_objs zero h start (some ptr) = none
find_objs (suc fuel) h start (some ptr) = do
  s ← get_elem? h.spans ptr
  links ← get_elem? h.links ptr
  let rest = find_objs fuel h start links.next
  elim s.objs [
    | some obj ↦ some (some ptr)
    | none ↦ if points_to links.next start then some none else rest
  ]

-- The loop that cuts the memory from `ptr` to `end` into objects; `none` is no fuel left.
pub carve : ℕ → ℕ → ℕ → ℕ → (ℕ → Option ℕ) → Option ℕ × ℕ → Option ((ℕ → Option ℕ) × Option ℕ × ℕ)
carve zero size end ptr nexts (objs, obj_len) = none
carve (suc fuel) size end ptr nexts (objs, obj_len) =
    let (nexts', objs', obj_len') = freelist_push (write nexts ptr none) (objs, obj_len) ptr in
    let rest = carve fuel size end (ptr + size) nexts' (objs', obj_len') in
    if leb (ptr + size) end then rest else some (nexts, objs, obj_len)

-- The span `new` cut into objects of `size` bytes. A round moves `ptr` by `size`.
pub carve_span : Heap → ℕ → ℕ → Option Heap
unfolding carve
carve_span h new size = do
  s ← get_elem? h.spans new
  let bytes = pages_to_bytes_32 s.page_size
  (nexts, objs, obj_len) ←
      carve (suc bytes) size (s.start + bytes) s.start h.nexts (s.objs, s.obj_len)
  let cut = record s { objs = objs; obj_len = obj_len; objs_size = size % 2 ^ 32 }
  some (set_span (record h { nexts = nexts }) new cut)

pub set_loc : Heap → ℕ → Location → Option Heap
set_loc h span loc = do s ← get_elem? h.spans span; some (set_span h span (record s { loc = loc }))

module _ (sbrk : ℕ → ℕ → ℕ) where
  -- BATCH pages from the page heap, as a new span of the class.
  pub new_central : Heap → ℕ → ℕ → Option (ℕ × Heap)
  unfolding set_loc
  new_central h index size = do
    (new, fetched) ← fetch_span sbrk 2 h 128
    cut ← carve_span fetched new size
    pushed ← push_central cut index new
    placed ← set_loc pushed new Location.central_list
    some (new, placed)

  pub get_span_central : Heap → ℕ → Option (ℕ × Heap)
  get_span_central h size = do
    index ← class_of size
    head ← get_elem? h.central index
    found ← elim head [
      | none ↦ some none
      | some start ↦ find_objs (length h.spans) h start (some start)
    ]
    elim found [ some span ↦ some (span, h) | none ↦ new_central h index size ]

-- The loop of `fetch_objs`: the last object that was passed, the next one, and how many were passed.
pub walk : ℕ → (ℕ → Option ℕ) → Option ℕ → Option ℕ → Option ℕ × Option ℕ × ℕ
walk zero nexts prev ptr = (prev, ptr, 0)
walk (suc rounds) nexts prev none = (prev, none, 0)
walk (suc rounds) nexts prev (some obj) =
    let (prev', ptr', n) = walk rounds nexts (some obj) (nexts obj) in (prev', ptr', suc n)

-- MIN(num, span->obj_len - span->obj_refcount) as an `int`; a negative one gives no rounds.
unfoldable pub max_iter : ℕ → ℕ → ℕ → ℕ
max_iter num obj_len obj_refcount =
    elim (to_int (min num ((obj_len + (2 ^ 64 - obj_refcount)) % 2 ^ 64))) [
      | pos n ↦ n
      | negsuc n ↦ 0
    ]

-- `span->obj_refcount == span->obj_len`: the span moves to the idle list of its class.
pub retire : Heap → ℕ → ℕ → Span → Option Heap
unfolding set_loc
retire h index span s =
    let moved = (do
      removed ← remove_central h index span
      pushed ← push_idle removed index span
      set_loc pushed span Location.central_idle) in
    if s.obj_refcount == s.obj_len then moved else some h

-- `fetch_objs` from the span that `get_span_central` gave: the number of objects, and the list.
pub fetch_from_span : Heap → ℕ → ℕ → ℕ → Option (ℕ × Option ℕ × Heap)
unfolding retire
fetch_from_span h index span num = do
  s ← get_elem? h.spans span
  let (prev, ptr, n) = walk (max_iter num s.obj_len s.obj_refcount) h.nexts none s.objs
  end ← prev
  let s' = record s { objs = ptr; obj_refcount = (s.obj_refcount + n) % 2 ^ 32 }
  let taken = set_span (record h { nexts = write h.nexts end none }) span s'
  h' ← retire taken index span s'
  some (n, s.objs, h')

pub fetch_objs : (ℕ → ℕ → ℕ) → Heap → ℕ → ℕ → Option (ℕ × Option ℕ × Heap)
fetch_objs sbrk h num nbytes = do
  (span, h') ← get_span_central sbrk h nbytes
  index ← class_of nbytes
  fetch_from_span h' index span num

-- One object back to its span, which is returned.
pub return_obj : Heap → ℕ → Option (ℕ × Heap)
return_obj h obj = do
  mapped ← map_addr_to_span h obj
  span ← mapped
  s ← get_elem? h.spans span
  let (nexts, objs, obj_len) = freelist_push h.nexts (s.objs, s.obj_len) obj
  let s' = record s {
    objs = objs;
    obj_len = obj_len;
    obj_refcount = (s.obj_refcount + (2 ^ 32 - 1)) % 2 ^ 32;
  }
  some (span, set_span (record h { nexts = nexts }) span s')

-- The loop of `return_objs_to_centralcache`, and the span of the last object; `last` is the one before.
pub return_loop : ℕ → Heap → Option ℕ → Option ℕ → Option (Option ℕ × Heap)
return_loop fuel h last none = some (last, h)
return_loop zero h last (some obj) = none
return_loop (suc fuel) h last (some obj) = do
  (span, h') ← return_obj h obj
  return_loop fuel h' (some span) (h.nexts obj)

-- What follows the loop: only the span of the last object is looked at.
pub unretire : Heap → ℕ → ℕ → Option Heap
unretire h index span = do
  s ← get_elem? h.spans span
  let moved = do removed ← remove_idle h index span; push_central removed index span
  let is_idle = elim s.loc as (λ _. Bool) [ Location.central_idle ↦ true | _ ↦ false ]
  if is_idle && not (s.obj_refcount == s.obj_len) then moved else some h

pub release_span : Heap → ℕ → ℕ → Option Heap
release_span h index span = do
  s ← get_elem? h.spans span
  let released = do
    removed ← remove_central h index span
    let alone = record removed {
      links = set removed.links span (record { prev = some span; next = some span });
    }
    let cleared = set_span alone span (record s { objs_size = 0; obj_len = 0; objs = none })
    return_span_to_pgcache cleared span
  if s.obj_refcount == 0 then released else some h

-- `return_objs_to_centralcache` of a list of at most `fuel` objects.
pub return_objs_to_centralcache : ℕ → Heap → Option ℕ → ℕ → Option Heap
return_objs_to_centralcache fuel h start nbytes = do
  index ← class_of nbytes
  (last, returned) ← return_loop fuel h none start
  span ← last
  moved ← unretire returned index span
  release_span moved index span
