-- ===== src/Malloc/Heap.antt =====
-- tc_malloc.h and tc_malloc.c: the state of the allocator, the map from pages to spans and the making
-- of spans. `none` is a fault: an access outside of an array or through a null pointer.
pub mod Mapping
pub mod Lists
pub mod Chunk
use search_engine.Common.{
  ℕ, zero, suc, ◌+◌, ◌-◌, ◌*◌, ◌/◌, ◌%◌, ◌^◌, ◌<◌, ◌≤◌, ◌≡◌, ◌≢◌, ◌⊎◌, ◌↔◌, inl, inr, refl, sym, ap,
  ◌∙◌, Option, none, some, List, [], ◌∷◌, ◌++◌, Bool, true, false, not, ◌&&◌, ◌||◌, arith, ltb, leb,
  ◌==◌, min, append-nil, append_assoc, if◌then◌else◌, ltb→lt, lt→ltb, leb→le, ==_iff, Bool-cases,
  Option-cases, length, get_elem?, set, get_or, take, drop, replicate, length-set,
  get_elem?-set_self, get_elem?-set_ne, length-append, length-replicate, length-take, length-drop,
  take-append-drop, get_elem?-set_inv, ◌>>=◌, get_elem?-set_at, drop-add, drop-suc, drop-append,
  drop-set, get_or-drop,
}
use search_engine.Malloc.SizeClass.{bytes_to_pages, pages_to_bytes}
use search_engine.Malloc.SpanList.{Links, spanlist_push, remove_span}

pub data Location : Type 0 where
  pageheap isolated central_list central_idle : Location

-- A `struct Span` without `prev` and `next`, which stand in `links` of the heap. Addresses are numbers,
-- and `start` is 0 where it is null.
pub record Span : Type 0 where
  pub objs : Option ℕ
  pub obj_len : ℕ
  pub loc : Location
  pub start : ℕ
  pub objs_size : ℕ
  pub obj_refcount : ℕ
  pub page_size : ℕ
  pub page_id : ℕ

-- The cache of a thread for one class.
pub record ThreadList : Type 0 where
  pub objs : Option ℕ
  pub objlen : ℕ
  pub max_length : ℕ

-- The globals of tc_malloc.c, all spans that were made, the `next` fields of the free objects, the end
-- of the process's memory, and the cache of the thread that runs. `rem_bytes` is of `spanchunk`.
pub record Heap : Type 0 where
  pub links : List Links
  pub spans : List Span
  pub nexts : ℕ → Option ℕ
  pub page_mapping : List (Option ℕ)
  pub curr_index : ℕ
  pub pages : List (Option ℕ)
  pub ini_brk_addr : ℕ
  pub brk : ℕ
  pub rem_bytes : ℕ
  pub central : List (Option ℕ)
  pub idle : List (Option ℕ)
  pub local : List ThreadList

abbrev pub set_span : Heap → ℕ → Span → Heap
set_span h i s = record h { spans = set h.spans i s }

-- `spanlist_push` and `remove_span` on the list number `i` of an array of lists.
pub push_on : List Links → List (Option ℕ) → ℕ → ℕ → Option (List Links × List (Option ℕ))
push_on links lists i span = do
  head ← get_elem? lists i
  (links', head') ← spanlist_push links head span
  some (links', set lists i head')

pub remove_from : List Links → List (Option ℕ) → ℕ → ℕ → Option (List Links × List (Option ℕ))
remove_from links lists i span = do
  head ← get_elem? lists i
  (links', head') ← remove_span links head span
  some (links', set lists i head')

-- MIN(PAGEHEAPSIZE - 1, n - 1) for an unsigned `n`.
unfoldable pub page_class : ℕ → ℕ
page_class n = if n == 0 then 255 else min 255 (n - 1)

pub push_page : Heap → ℕ → ℕ → Option Heap
push_page h i span = do
  (links, pages) ← push_on h.links h.pages i span
  some (record h { links = links; pages = pages })

pub remove_page : Heap → ℕ → ℕ → Option Heap
remove_page h i span = do
  (links, pages) ← remove_from h.links h.pages i span
  some (record h { links = links; pages = pages })

-- addr_to_index, of `uintptr_t`.
unfoldable pub addr_to_index : ℕ → ℕ → ℕ
addr_to_index end start = (bytes_to_pages end + (2 ^ 64 - bytes_to_pages start)) % 2 ^ 64

-- The loop of `update_mapping`, with `rounds` rounds from the page `id`.
pub map_pages : ℕ → ℕ → ℕ → List (Option ℕ) → Option (List (Option ℕ))
map_pages zero id span mapping = some mapping
map_pages (suc rounds) id span mapping = do
  _ ← get_elem? mapping id
  map_pages rounds (suc id) span (set mapping id (some span))

-- `int len = new_span->pageSize`, as the number of rounds.
pub page_rounds : ℕ → ℕ
page_rounds page_size = if ltb page_size (2 ^ 31) then page_size else 0

pub update_mapping : Heap → ℕ → Option Heap
unfolding page_rounds
update_mapping h span = do
  s ← get_elem? h.spans span
  mapping ← map_pages (page_rounds s.page_size) s.page_id span h.page_mapping
  let last = (s.page_id + s.page_size) % 2 ^ 32
  some (record h {
    page_mapping = mapping;
    curr_index = if ltb last h.curr_index then h.curr_index else last;
  })

-- The span at an address: a fault outside of the map, and `none` inside for a null pointer.
unfoldable pub map_addr_to_span : Heap → ℕ → Option (Option ℕ)
map_addr_to_span h ptr = get_elem? h.page_mapping (addr_to_index ptr h.ini_brk_addr)

-- A span in the zeroed memory of a chunk.
abbrev pub zeroed : Span
zeroed = record {
  objs = none;
  obj_len = 0;
  loc = pageheap;
  start = 0;
  objs_size = 0;
  obj_refcount = 0;
  page_size = 0;
  page_id = 0;
}

-- One more span, with its links.
pub add_span : Heap → Links → Span → Heap
add_span h links s = record h { links = h.links ++ links ∷ []; spans = h.spans ++ s ∷ [] }

abbrev pub unlinked : Links
unlinked = record { prev = none; next = none }

-- The links of a span that is a ring of its own.
abbrev pub selfish : ℕ → Links
selfish span = record { prev = some span; next = some span }

-- sizeof(_span), and the bytes of SPANPOOLSIZE pages.
abbrev pub span_bytes : ℕ
span_bytes = 64

abbrev pub pool_bytes : ℕ
pool_bytes = 1440 * 2 ^ 12

-- The span of a page that begins at `ptr`, or that has no address yet.
pub page_id_of : Heap → Option ℕ → ℕ
page_id_of h none = 0
page_id_of h (some ptr) = addr_to_index ptr h.ini_brk_addr % 2 ^ 32

-- `sbrk brk n` is where `n` new bytes begin when the process's memory ends at `brk`.
module _ (sbrk : ℕ → ℕ → ℕ) where
  -- `sbrk(n)`, which moves the end of the memory.
  unfoldable pub grow : Heap → ℕ → ℕ × Heap
  grow h n = (sbrk h.brk n, record h { brk = sbrk h.brk n + n })

  -- The first branch of `alloc_span`: a new chunk, with a span for the chunk itself.
  pub new_chunk : Heap → Option Heap
  unfolding grow add_span
  new_chunk h = do
    let addr = (grow h pool_bytes).0
    let h' = (grow h pool_bytes).1
    let meta = record zeroed {
      page_size = 1440;
      page_id = addr_to_index addr h.ini_brk_addr % 2 ^ 32;
    }
    mapped ← update_mapping (add_span h' unlinked meta) (length h.spans)
    some (record mapped { rem_bytes = pool_bytes })

  -- The span is returned with its fields `pageSize`, `pageId`, `next` and `prev` set. The chunk that
  -- has been made holds the span for itself too.
  pub alloc_span : Heap → ℕ → Option ℕ → Option (ℕ × Heap)
  unfolding new_chunk
  alloc_span h npages ptr = do
    let new = new_chunk h
    let small = ltb h.rem_bytes span_bytes
    h' ← if small then new else some h
    let taken = if small then 2 * span_bytes else span_bytes
    let s = record zeroed { page_size = npages % 2 ^ 32; page_id = page_id_of h' ptr }
    let added = add_span h' (selfish (length h'.spans)) s
    some (length h'.spans, record added { rem_bytes = h'.rem_bytes - taken })
