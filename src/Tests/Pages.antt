-- ===== src/Tests/Pages.antt =====
-- Large objects at concrete inputs.
use search_engine.Common.{
  ◌/◌, ◌%◌, ◌<◌, ◌≤◌, ◌≡◌, ◌⊎◌, ◌↔◌, refl, none, some, [], ◌∷◌, ◌++◌, arith, replicate,
}
use search_engine.Malloc.SizeClass.{bytes_to_pages, pages_to_bytes}
use search_engine.Malloc.Heap.{Heap, Span, page_class}
use search_engine.Malloc.PageHeap.Take.{Taken}
use search_engine.Malloc.Thread.{tc_malloc}
use search_engine.Malloc.Thread.Large.{tc_malloc-listed}
use search_engine.Tests.Spans.{heap_of, one_listed, one-Ring, one_page}

-- A span of nine pages in the list for nine pages.
abbrev nine_pages : Span
nine_pages = record one_page { start = 8192; page_size = 9 }

abbrev nine_heap : Heap
nine_heap = heap_of one_listed (nine_pages ∷ one_page ∷ []) (replicate 8 none ++ some 0 ∷ [])

-- A request for 40000 bytes, which are more than nine pages.
tc_malloc-listed_example :
    (h' : Heap) × (tc_malloc (λ brk n. brk) nine_heap 40000 ≡ some (8192, h'))
    × Taken nine_heap 8 0 [] h'
    × ((40000 ≤ pages_to_bytes 9)
        ↔ ((40000 / 4096 < 9) ⊎ ((40000 / 4096 ≡ 9) × (40000 % 4096 ≡ 0))))
unfolding page_class bytes_to_pages
tc_malloc-listed_example =
    tc_malloc-listed (λ brk n. brk) nine_heap 40000 0 [] nine_pages (omega arith) refl
      (refl, one-Ring) refl

abbrev empty_heap : Heap
empty_heap = record (heap_of [] [] (replicate 256 none)) {
  page_mapping = replicate 300 none;
  rem_bytes = 128;
}
