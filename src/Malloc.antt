-- ===== src/Malloc.antt =====
-- The thread-caching allocator of tc_malloc.h and tc_malloc.c, in its parts.
pub mod SizeClass
pub mod SpanList
pub mod Heap
pub mod PageHeap
pub mod Central
pub mod Thread
pub mod Objects
