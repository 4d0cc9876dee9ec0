-- ===== src/Malloc/Central/Carve.antt =====
-- tc_malloc.c: how `get_span_central` cuts a span into objects.
use search_engine.Common.{
  ℕ, zero, suc, ◌+◌, ◌*◌, ◌/◌, ◌%◌, ◌^◌, ◌<◌, ◌≤◌, ◌≡◌, refl, sym, ap, ◌∙◌, Option, none, some,
  List, [], ◌∷◌, true, false, arith, leb, length, get_elem?, get_elem?-set_at,
}
use native.Mathlib.Nat.{suc-mul, div-mul-le_self, lt-div-mul-add, div-le_self}
use search_engine.Malloc.SizeClass.{pages_to_bytes, pages_to_bytes_32-small}
use search_engine.Malloc.SpanList.{write, freelist_push}
use search_engine.Malloc.SpanList.Ring.{Apart, Below}
use search_engine.Malloc.Heap.{Heap, Span, set_span}
use search_engine.Malloc.Objects.{Objs, turned, Objs-write, Objs-push, write_other}
use search_engine.Malloc.Central.{carve, carve_span}

-- The addresses of `k` objects of `size` bytes, one behind the other from `ptr` on.
abbrev pub cuts : ℕ → ℕ → ℕ → List ℕ
cuts zero ptr size = []
cuts (suc k) ptr size = ptr ∷ cuts k (ptr + size) size

-- What the loop leaves: the objects in front of those that were there, the last one first.
pub record Carved (nexts : ℕ → Option ℕ) (new ys : List ℕ) (obj_len : ℕ) (nexts' : ℕ → Option ℕ)
    (objs' : Option ℕ) (obj_len' : ℕ) : Type 0 where
  pub objs : Objs nexts' objs' (turned new ys)
  pub count : obj_len' ≡ obj_len + length new
  pub others : (p : ℕ) → Apart p new → nexts' p ≡ nexts p

Below-Apart : (p : ℕ) (ys : List ℕ) → Below p ys → Apart p ys
Below-Apart p [] h = tt
Below-Apart p (y ∷ ys) (h, hs) = ((λ e. omega (arith, e, h)), Below-Apart p ys hs)

Below-le : (n m : ℕ) (ys : List ℕ) → n ≤ m → Below n ys → Below m ys
Below-le n m [] h b = tt
Below-le n m (y ∷ ys) h (b, bs) = (omega arith, Below-le n m ys h bs)

pub length-cuts : (k ptr size : ℕ) → length (cuts k ptr size) ≡ k
length-cuts zero ptr size = refl
length-cuts (suc k) ptr size = ap suc (length-cuts k (ptr + size) size)

pub freelist_push-small :
    (nexts : ℕ → Option ℕ) (objs : Option ℕ) (obj_len ptr : ℕ)
    → obj_len + 1 < 2 ^ 64
    → freelist_push nexts (objs, obj_len) ptr ≡ (write nexts ptr objs, some ptr, obj_len + 1)
unfolding freelist_push
freelist_push-small nexts objs obj_len ptr h =
    let count : (obj_len + 1) % 2 ^ 64 ≡ obj_len + 1 = omega arith in
    ap (λ n. (write nexts ptr objs, some ptr, n)) count

carve-suc :
    (fuel size end ptr : ℕ) (nexts nexts' : ℕ → Option ℕ) (objs objs' : Option ℕ)
    (obj_len obj_len' : ℕ)
    → leb (ptr + size) end ≡ true
    → freelist_push (write nexts ptr none) (objs, obj_len) ptr ≡ (nexts', objs', obj_len')
    → carve (suc fuel) size end ptr nexts (objs, obj_len)
      ≡ carve fuel size end (ptr + size) nexts' (objs', obj_len')
unfolding carve
carve-suc fuel size end ptr nexts nexts' objs objs' obj_len obj_len' go e =
    rw (go) (ap (λ t. carve fuel size end (ptr + size) t.0 (t.1, t.2)) e)

pub carve-Carved :
    (fuel k size end ptr : ℕ) (nexts : ℕ → Option ℕ) (objs : Option ℕ) (obj_len : ℕ) (ys : List ℕ)
    → 0 < size
    → ptr + k * size ≤ end
    → end < ptr + k * size + size
    → k < fuel
    → Objs nexts objs ys
    → Below ptr ys
    → obj_len + k < 2 ^ 64
    → (nexts' : ℕ → Option ℕ) × (objs' : Option ℕ) × (obj_len' : ℕ) × (carve fuel size end ptr nexts
          (objs, obj_len)
        ≡ some (nexts', objs', obj_len'))
      × Carved nexts (cuts k ptr size) ys obj_len nexts' objs' obj_len'
unfolding carve
carve-Carved zero k size end ptr nexts objs obj_len ys pos h h' f o b w = elim f [ ]
carve-Carved (suc fuel) zero size end ptr nexts objs obj_len ys pos h h' f o b w =
    let stop : leb (ptr + size) end ≡ false = ground arith in
    (
      nexts,
      objs,
      obj_len,
      rw stop refl,
      record { objs = o; count = omega arith; others = λ p out. refl },
    )
carve-Carved (suc fuel) (suc k) size end ptr nexts objs obj_len ys pos h h' f o b w =
    let mul = suc-mul k size in
    let go : leb (ptr + size) end ≡ true = ground (arith, mul) in
    let clean = write nexts ptr none in
    let apart = Below-Apart ptr ys b in
    let (nexts', objs', obj_len', got, c) =
      carve-Carved fuel k size end (ptr + size) (write clean ptr objs) (some ptr) (obj_len + 1)
        (ptr ∷ ys) pos (omega (arith, mul)) (omega (arith, mul)) (omega arith)
        (Objs-push clean ptr objs ys apart (Objs-write nexts ptr none objs ys apart o))
        (omega arith, Below-le ptr (ptr + size) ys (omega arith) b) (omega arith) in
    (
      nexts',
      objs',
      obj_len',
      carve-suc fuel size end ptr nexts (write clean ptr objs) objs (some ptr) obj_len (obj_len + 1)
            go (freelist_push-small clean objs obj_len ptr (omega arith))
          ∙ got,
      record {
        objs = c.objs;
        count = omega (arith, c.count);
        others = λ p (ne, out).
            c.others p out
            ∙ write_other clean ptr p objs (λ e. ne (sym e))
            ∙ write_other nexts ptr p none (λ e. ne (sym e));
      },
    )

-- Objects of `size` bytes in the bytes from `low` to `high`, in order and apart from one another.
abbrev pub Within : ℕ → ℕ → ℕ → List ℕ → Type 0
Within low high size [] = Unit
Within low high size (p ∷ ps) = (low ≤ p) × (p + size ≤ high) × Within (p + size) high size ps

cuts-Within : (k ptr size end : ℕ) → ptr + k * size ≤ end → Within ptr end size (cuts k ptr size)
cuts-Within zero ptr size end h = tt
cuts-Within (suc k) ptr size end h =
    let mul = suc-mul k size in
    (omega arith, omega (arith, mul), cuts-Within k (ptr + size) size end (omega (arith, mul)))

-- A span of `bytes` bytes, cut into as many objects as fit.
pub record CutSpan (h : Heap) (new size bytes : ℕ) (s : Span) (h' : Heap) (s' : Span) : Type 0 where
  pub here : get_elem? h'.spans new ≡ some s'
  pub objs : Objs h'.nexts s'.objs (turned (cuts (bytes / size) s.start size) [])
  pub within : Within s.start (s.start + bytes) size (cuts (bytes / size) s.start size)
  pub count : s'.obj_len ≡ bytes / size
  pub size_kept : s'.objs_size ≡ size
  pub others : (p : ℕ) → Apart p (cuts (bytes / size) s.start size) → h'.nexts p ≡ h.nexts p

-- A span of fewer than 2 ^ 20 pages, without objects, that `get_span_central` cuts into objects of `size` bytes, for a size of 32
-- bits that is not 0: the loop ends; the span then holds as many objects as fit, the last one first,
-- which lie in its pages one behind the other and do not overlap, and `obj_len` is their number. The
-- links of all other objects stay.
pub carve_span-CutSpan :
    (h : Heap) (new size : ℕ) (s : Span)
    → get_elem? h.spans new ≡ some s
    → s.objs ≡ none
    → s.obj_len ≡ 0
    → 0 < size
    → size < 2 ^ 32
    → s.page_size < 2 ^ 20
    → (h' : Heap) × (s' : Span) × (carve_span h new size ≡ some h')
      × CutSpan h new size (pages_to_bytes s.page_size) s h' s'
unfolding carve_span pages_to_bytes
carve_span-CutSpan h new size s e empty none_yet pos small pages =
    let bytes = pages_to_bytes s.page_size in
    let k = bytes / size in
    let low : k * size ≤ bytes = div-mul-le_self bytes size in
    let high : bytes < k * size + size = lt-div-mul-add pos in
    let few : k ≤ bytes = div-le_self bytes size in
    let (nexts, objs, obj_len, got, c) =
      carve-Carved (suc bytes) k size (s.start + bytes) s.start h.nexts s.objs s.obj_len [] pos
        (omega (arith, low)) (omega (arith, high)) (omega (arith, few)) empty tt
        (omega (arith, few)) in
    let exact = pages_to_bytes_32-small s.page_size pages in
    let s' : Span = record s { objs = objs; obj_len = obj_len; objs_size = size % 2 ^ 32 } in
    (
      set_span (record h { nexts = nexts }) new s',
      s',
      rw (e, exact, got) refl,
      record {
        here = get_elem?-set_at h.spans new s' e;
        objs = c.objs;
        within = cuts-Within k s.start size (s.start + bytes) (omega (arith, low));
        count = omega (arith, c.count, length-cuts k s.start size);
        size_kept = omega arith;
        others = c.others;
      },
    )
