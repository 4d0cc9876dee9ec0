-- ===== src/Malloc/Thread.antt =====
-- tc_malloc.c: the cache of a thread, `tc_malloc` and `tc_free`, and the start of the allocator.
pub mod Insert
pub mod Reuse
pub mod Refill
pub mod Large
use search_engine.Common.{
  ℕ, zero, suc, ◌+◌, ◌-◌, ◌*◌, ◌/◌, ◌%◌, ◌^◌, ◌<◌, ◌≤◌, ◌≡◌, ◌≢◌, ◌⊎◌, ◌↔◌, inl, inr, refl, sym, ap,
  ◌∙◌, Option, none, some, List, [], ◌∷◌, ◌++◌, Bool, true, false, not, ◌&&◌, ◌||◌, arith, ltb, leb,
  ◌==◌, min, append-nil, append_assoc, if◌then◌else◌, ltb→lt, lt→ltb, leb→le, ==_iff, Bool-cases,
  Option-cases, length, get_elem?, set, get_or, take, drop, replicate, length-set,
  get_elem?-set_self, get_elem?-set_ne, length-append, length-replicate, length-take, length-drop,
  take-append-drop, get_elem?-set_inv, ◌>>=◌, get_elem?-set_at, drop-add, drop-suc, drop-append,
  drop-set, get_or-drop,
}
use search_engine.Malloc.SizeClass.{index_to_size, bytes_to_pages}
use search_engine.Malloc.SpanList.{Links, write, freelist_pop}
use search_engine.Malloc.Heap.{Heap, Span, ThreadList, map_addr_to_span}
use search_engine.Malloc.PageHeap.{fetch_span, return_span_to_pgcache}
use search_engine.Malloc.Central.{
  class_of, get_span_central, fetch_objs, return_objs_to_centralcache,
}

-- THRESHALLOC, MAXFETCHSIZE and CLASSES.
abbrev pub thresh_alloc : ℕ
thresh_alloc = 32 * 1024

abbrev pub max_fetch_size : ℕ
max_fetch_size = 32

abbrev pub classes : ℕ
classes = 159

abbrev pub set_local : Heap → ℕ → ThreadList → Heap
set_local h index list = record h { local = set h.local index list }

-- The loop of `insert_to_threadcache`, on `head->objs` and `head->objlen`.
pub insert_loop : ℕ → (ℕ → Option ℕ) → Option ℕ → ThreadList → Option ((ℕ → Option ℕ) × ThreadList)
insert_loop fuel nexts none list = some (nexts, list)
insert_loop zero nexts (some obj) list = none
insert_loop (suc fuel) nexts (some obj) list =
    insert_loop fuel (write nexts obj list.objs) (nexts obj)
      (record list { objs = some obj; objlen = (list.objlen + 1) % 2 ^ 64 })

-- `insert_to_threadcache` of a list of at most `fuel` objects.
pub insert_to_threadcache : ℕ → Heap → Option ℕ → ℕ → Option Heap
unfolding insert_loop
insert_to_threadcache fuel h objs nbytes = do
  index ← class_of nbytes
  list ← get_elem? h.local index
  (nexts, list') ← insert_loop fuel h.nexts objs list
  some (set_local (record h { nexts = nexts }) index list')

-- The number of objects that a cache asks for, and its next `max_length`: a slow start.
unfoldable pub opt_size : ThreadList → ℕ
opt_size list = min max_fetch_size list.max_length

pub raise_max : ℕ → ThreadList → ThreadList
unfolding opt_size
raise_max index list =
    if ltb (opt_size list) max_fetch_size
    then record list {
      max_length = if leb index 22 then list.max_length * 2 else list.max_length + 1;
    }
    else list

-- `freelist_pop(&local_list->objlen, &local_list->objs)`.
pub pop_local : Heap → ℕ → Option (ℕ × Heap)
pop_local h index = do
  list ← get_elem? h.local index
  (obj, objs, objlen) ← freelist_pop h.nexts (list.objlen, list.objs)
  some (obj, set_local h index (record list { objs = objs; objlen = objlen }))

module _ (sbrk : ℕ → ℕ → ℕ) where
  pub fetch_from_centralcache : Heap → ℕ → Option Heap
  unfolding raise_max
  fetch_from_centralcache h index = do
    list ← get_elem? h.local index
    let raised = set_local h index (raise_max index list)
    (n, start, fetched) ← fetch_objs sbrk raised (opt_size list) (index_to_size index)
    insert_to_threadcache n fetched start (index_to_size index)

  pub allocate : Heap → ℕ → Option (ℕ × Heap)
  allocate h nbytes = do
    index ← class_of nbytes
    list ← get_elem? h.local index
    let fetched = fetch_from_centralcache h index
    h' ← elim list.objs [ some obj ↦ some h | none ↦ fetched ]
    pop_local h' index

  -- `tc_malloc`: the address of the bytes. One call of `fetch_span` may make a second one.
  pub tc_malloc : Heap → ℕ → Option (ℕ × Heap)
  tc_malloc h size =
      let small = allocate h size in
      let large = (do
        (span, h') ← fetch_span sbrk 2 h (bytes_to_pages size)
        s ← get_elem? h'.spans span
        some (s.start, h')) in
      if leb size thresh_alloc then small else large

-- `deallocate`: a cache that has `max_length` objects gives all of them back.
pub deallocate : Heap → ℕ → ℕ → Option Heap
deallocate h ptr nbytes = do
  index ← class_of nbytes
  list ← get_elem? h.local index
  let linked = record h { nexts = write h.nexts ptr list.objs }
  let emptied = set_local linked index (record list { objs = none; objlen = 0 })
  let kept =
      set_local linked index (record list { objs = some ptr; objlen = (list.objlen + 1) % 2 ^ 64 })
  let returned = return_objs_to_centralcache (suc list.objlen) emptied (some ptr) nbytes
  if list.objlen == list.max_length then returned else some kept

pub tc_free : Heap → ℕ → Option Heap
tc_free h ptr = do
  mapped ← map_addr_to_span h ptr
  span ← mapped
  s ← get_elem? h.spans span
  let small = deallocate h ptr s.objs_size
  let large = return_span_to_pgcache h span
  if ltb 0 s.objs_size && leb s.objs_size thresh_alloc then small else large

-- `init_globals` and `pgcache.ini_brk_addr = sbrk(0)`, with the page map of PAGEMAPSIZE entries.
pub init_globals : ℕ → Heap
init_globals brk = record {
  links = [];
  spans = [];
  nexts = λ _. none;
  page_mapping = replicate (2 ^ 23) none;
  curr_index = 0;
  pages = replicate 256 none;
  ini_brk_addr = brk;
  brk = brk;
  rem_bytes = 0;
  central = replicate classes none;
  idle = replicate classes none;
  local = [];
}

abbrev pub init_threadlist : ThreadList
init_threadlist = record { objs = none; objlen = 0; max_length = 1 }

module _ (sbrk : ℕ → ℕ → ℕ) where
  -- The loops of `tc_central_init` and `tc_thread_init`, with `rounds` classes left.
  pub central_loop : ℕ → ℕ → Heap → Option Heap
  central_loop zero i h = some h
  central_loop (suc rounds) i h = do
    (_, h') ← get_span_central sbrk h (index_to_size i)
    central_loop rounds (suc i) h'

  pub tc_central_init : ℕ → Option Heap
  unfolding init_globals central_loop
  tc_central_init brk = central_loop classes 0 (init_globals brk)

  pub thread_loop : ℕ → ℕ → Heap → Option Heap
  thread_loop zero i h = some h
  thread_loop (suc rounds) i h = do
    h' ← fetch_from_centralcache sbrk (set_local h i init_threadlist) i
    thread_loop rounds (suc i) h'

  -- The cache of a thread is static memory, that is zero at its start.
  pub tc_thread_init : Heap → Option Heap
  unfolding thread_loop
  tc_thread_init h =
      thread_loop classes 0 (record h {
        local = replicate classes (record { objs = none; objlen = 0; max_length = 0 });
      })
