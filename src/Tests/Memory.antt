-- ===== src/Tests/Memory.antt =====
-- An allocator that does not fail.
use search_engine.Common.{◌-◌, ◌/◌, refl, none, some, ◌++◌, replicate, length-replicate}
use search_engine.Table.{Realloc}
use search_engine.Postings.{LineMemory}
use search_engine.Postings.Lines.{IsRealloc, IsLineMemory}
use search_engine.Index.{Memory}
use search_engine.Index.View.{IsMemory}

pub extended : {A : Type 0} → A → Realloc A
extended null xs old new = some (xs ++ replicate (new - old) null)

extended-IsRealloc : {A : Type 0} (null : A) → IsRealloc (extended null)
unfolding extended
extended-IsRealloc null = record {
  grows = λ xs old new h k. (replicate (new - old) null, length-replicate (new - old) null, refl);
}

abbrev pub zeroed : LineMemory
zeroed = record { calloc = λ n. some (replicate n 0); realloc = extended 0 }

pub zeroed-IsLineMemory : IsLineMemory zeroed
zeroed-IsLineMemory = record { clears = λ n. refl; grows = extended-IsRealloc 0 }

abbrev pub memory : Memory
memory = record {
  bytes = λ n. some (replicate n 7);
  lines = zeroed;
  cells = λ xs old new. extended none xs (old / 8) (new / 8);
}

pub memory-IsMemory : IsMemory memory
memory-IsMemory = record {
  gives = λ n. (replicate n 7, refl, length-replicate n 7);
  lines = zeroed-IsLineMemory;
}
