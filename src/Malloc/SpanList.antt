-- ===== src/Malloc/SpanList.antt =====
-- tc_malloc.h: the ring of spans, and the list of free objects of a span. A pointer is a place in the
-- list of all spans, or of all objects; `none` is a null pointer that is followed.
pub mod Free
pub mod Pointers
pub mod Ring
pub mod Remove
use search_engine.Common.{
  ℕ, zero, suc, ◌+◌, ◌-◌, ◌*◌, ◌/◌, ◌%◌, ◌^◌, ◌<◌, ◌≤◌, ◌≡◌, ◌≢◌, ◌⊎◌, ◌↔◌, inl, inr, refl, sym, ap,
  ◌∙◌, Option, none, some, List, [], ◌∷◌, ◌++◌, Bool, true, false, not, ◌&&◌, ◌||◌, arith, ltb, leb,
  ◌==◌, min, append-nil, append_assoc, if◌then◌else◌, ltb→lt, lt→ltb, leb→le, ==_iff, Bool-cases,
  Option-cases, length, get_elem?, set, get_or, take, drop, replicate, length-set,
  get_elem?-set_self, get_elem?-set_ne, length-append, length-replicate, length-take, length-drop,
  take-append-drop, get_elem?-set_inv, ◌>>=◌, get_elem?-set_at, drop-add, drop-suc, drop-append,
  drop-set, get_or-drop,
}

-- The links of a `struct Span`.
pub record Links : Type 0 where
  pub prev : Option ℕ
  pub next : Option ℕ

-- `ptr->prev = to` and `ptr->next = to`.
pub set_prev : List Links → ℕ → Option ℕ → Option (List Links)
set_prev spans ptr to = do
  links ← get_elem? spans ptr
  some (set spans ptr (record links { prev = to }))

pub set_next : List Links → ℕ → Option ℕ → Option (List Links)
set_next spans ptr to = do
  links ← get_elem? spans ptr
  some (set spans ptr (record links { next = to }))

-- The previous span of the head, which is made a ring of one if it has none.
pub ring_prev : List Links → ℕ → Option ℕ → Option (List Links × ℕ)
ring_prev spans ptr (some prev) = some (spans, prev)
ring_prev spans ptr none = do
  spans' ← set_prev spans ptr (some ptr)
  spans'' ← set_next spans' ptr (some ptr)
  some (spans'', ptr)

-- The spans and the new `*head`.
pub spanlist_push : List Links → Option ℕ → ℕ → Option (List Links × Option ℕ)
spanlist_push spans none span = do
  spans' ← set_next spans span (some span)
  spans'' ← set_prev spans' span (some span)
  some (spans'', some span)
spanlist_push spans (some ptr) span = do
  head ← get_elem? spans ptr
  (ring, prev) ← ring_prev spans ptr head.prev
  a ← set_next ring span (some ptr)
  b ← set_prev a span (some prev)
  c ← set_prev b ptr (some span)
  d ← set_next c prev (some span)
  some (d, some span)

abbrev pub points_to : Option ℕ → ℕ → Bool
points_to none span = false
points_to (some ptr) span = ptr == span

abbrev pub or_self : Option ℕ → ℕ → ℕ
or_self none span = span
or_self (some ptr) span = ptr

-- What `spanlist_pop` does with `*head`, where `n` is the next span.
pub pop_head : List Links → Option ℕ → ℕ → ℕ → Option (List Links × Option ℕ)
pop_head spans none span n = none
pop_head spans (some head) span n =
    if head == span
    then (do
      links ← get_elem? spans span
      some (spans, if points_to links.next span && points_to links.prev span then none else some n))
    else (do spans' ← set_next spans head (some n); some (spans', some head))

-- `spanlist_pop` of a span that is not alone in its ring.
pub pop_linked : List Links → Option ℕ → ℕ → Links → Option (List Links × Option ℕ)
pop_linked spans head span links = do
  a ← set_next spans (or_self links.prev span) (some (or_self links.next span))
  b ← set_prev a (or_self links.next span) (some (or_self links.prev span))
  (c, head') ← pop_head b head span (or_self links.next span)
  d ← set_next c span (some span)
  e ← set_prev d span (some span)
  some (e, head')

pub spanlist_pop : List Links → Option ℕ → ℕ → Option (List Links × Option ℕ)
spanlist_pop spans head span = do
  links ← get_elem? spans span
  if points_to links.next span then some (spans, none) else pop_linked spans head span links

-- The `next` fields of the free objects, by the address of the object.
abbrev pub write : (ℕ → Option ℕ) → ℕ → Option ℕ → ℕ → Option ℕ
write nexts ptr to other = if other == ptr then to else nexts other

-- What `freelist_push` leaves of the objects, `span->objs` and `span->obj_len`.
unfoldable pub freelist_push : (ℕ → Option ℕ) → Option ℕ × ℕ → ℕ → (ℕ → Option ℕ) × Option ℕ × ℕ
freelist_push nexts (objs, obj_len) ptr = (write nexts ptr objs, some ptr, (obj_len + 1) % 2 ^ 64)

-- The object, the new head and the new length, which wraps around at 0.
unfoldable pub freelist_pop : (ℕ → Option ℕ) → ℕ × Option ℕ → Option (ℕ × Option ℕ × ℕ)
freelist_pop nexts (len, none) = none
freelist_pop nexts (len, some curr) = some (curr, nexts curr, (len + (2 ^ 64 - 1)) % 2 ^ 64)

-- What `spanlist_pop` reads through `&span->prev` after it has linked the neighbours: with both links
-- null, the span has just become its own neighbour.
abbrev pub prev_read : Links → ℕ → Option ℕ
prev_read links span = elim links.prev [
  | some prev ↦ some prev
  | none ↦ elim links.next [ none ↦ some span | some _ ↦ none ]
]

-- `remove_span` of tc_malloc.c for a span that is not the head: `spanlist_pop` with the address of
-- `span->prev` for the head, so that the list's own head stays.
pub remove_inner : List Links → ℕ → Option (List Links)
remove_inner spans span = do
  links ← get_elem? spans span
  (spans', prev) ← spanlist_pop spans (prev_read links span) span
  if points_to links.next span then set_prev spans' span prev else some spans'

pub remove_span : List Links → Option ℕ → ℕ → Option (List Links × Option ℕ)
remove_span spans head span =
    if points_to head span
    then spanlist_pop spans head span
    else (do spans' ← remove_inner spans span; some (spans', head))
