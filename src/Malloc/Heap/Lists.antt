-- ===== src/Malloc/Heap/Lists.antt =====
-- tc_malloc.c: the lists of the page heap, as rings.
use search_engine.Common.{ℕ, ◌<◌, ◌≡◌, refl, Option, some, List, ◌∷◌, ◌++◌, length, get_elem?, set}
use search_engine.Malloc.SpanList.{Links}
use search_engine.Malloc.SpanList.Ring.{Apart, IsRing, SameOutside, spanlist_push-IsRing}
use search_engine.Malloc.SpanList.Remove.{remove_span-IsRing}
use search_engine.Malloc.Heap.{Heap, push_on, push_page, remove_from, remove_page}

pub push_page-IsRing :
    (h : Heap) (i span : ℕ) (head : Option ℕ) (xs : List ℕ)
    → get_elem? h.pages i ≡ some head
    → IsRing h.links head xs
    → span < length h.links
    → Apart span xs
    → (links : List Links) × (push_page h i span
        ≡ some (record h { links = links; pages = set h.pages i (some span) }))
      × IsRing links (some span) (span ∷ xs)
      × SameOutside (span ∷ xs) h.links links
unfolding push_page push_on
push_page-IsRing h i span head xs e r low out =
    let (links, got, ring, same) = spanlist_push-IsRing h.links head xs span r low out in
    (links, rw e (rw got refl), ring, same)

pub remove_page-IsRing :
    (h : Heap) (i span : ℕ) (head : Option ℕ) (ys zs : List ℕ)
    → get_elem? h.pages i ≡ some head
    → IsRing h.links head (ys ++ span ∷ zs)
    → (links : List Links) × (head' : Option ℕ) × (remove_page h i span
        ≡ some (record h { links = links; pages = set h.pages i head' }))
      × IsRing links head' (ys ++ zs)
      × SameOutside (ys ++ span ∷ zs) h.links links
unfolding remove_page remove_from
remove_page-IsRing h i span head ys zs e r =
    let out = remove_span-IsRing h.links head ys span zs r in
    (out.spans', out.head', rw e (rw out.result refl), out.ring, out.same)
