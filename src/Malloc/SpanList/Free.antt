-- ===== src/Malloc/SpanList/Free.antt =====
-- tc_malloc.h: `freelist_push` and `freelist_pop`.
use search_engine.Common.{ℕ, ◌^◌, ◌<◌, ◌≡◌, ◌≢◌, Option, some, arith}
use mathlib.Core.Path.{ap₂}
use search_engine.Malloc.SpanList.{freelist_push, freelist_pop}

-- What `freelist_pop` gives of what `freelist_push` leaves.
abbrev pub popped : (ℕ → Option ℕ) × Option ℕ × ℕ → Option (ℕ × Option ℕ × ℕ)
popped (nexts, objs, obj_len) = freelist_pop nexts (obj_len, objs)

-- An object that is pushed on a free list of a length below 2 ^ 64 is the next one that is popped,
-- and the list and its length are then as before; the links of the other objects stay.
pub freelist_pop-freelist_push :
    (nexts : ℕ → Option ℕ) (objs : Option ℕ) (obj_len ptr : ℕ)
    → obj_len < 2 ^ 64
    → (popped (freelist_push nexts (objs, obj_len) ptr) ≡ some (ptr, objs, obj_len))
      × ((other : ℕ)
          → other ≢ ptr
          → (freelist_push nexts (objs, obj_len) ptr).0 other ≡ nexts other)
unfolding freelist_push freelist_pop
freelist_pop-freelist_push nexts objs obj_len ptr k =
    (ap₂ (λ o n. some (ptr, o, n)) (ground arith) (omega arith), λ other ne. ground arith)
