-- ===== src/Malloc/SizeClass/Bounds.antt =====
-- tc_malloc.h: how `index_to_size` and `get_index` fit together.
use search_engine.Common.{ℕ, ◌+◌, ◌-◌, ◌/◌, ◌^◌, ◌≤◌, ◌<◌, ◌≡◌, ◌⊎◌, arith}
use search_engine.Common.Int.{pos, negsuc}
use native.Mathlib.Decide.{dec_lt}
use search_engine.Malloc.SizeClass.{index_to_size, get_index, to_int}

-- A value below 2 ^ 31 keeps its value in an `int`.
to_int-small : (e : ℕ) → e < 2 ^ 31 → to_int e ≡ pos e
unfolding to_int
to_int-small e h = ground arith

-- The size of each of the 159 classes is mapped back to that class.
pub get_index-index_to_size :
    (index : ℕ) → index < 159 → get_index (index_to_size index) ≡ pos index
unfolding get_index index_to_size
get_index-index_to_size index h = ground arith

-- `i` is the class of `size`: one of the 159, whose objects hold the request, as those of no
-- class before it do.
abbrev pub Fits : ℕ → ℕ → Type 0
Fits size i =
    (get_index size ≡ pos i)
    × (i < 159)
    × (size ≤ index_to_size i)
    × ((j : ℕ) → j < i → index_to_size j < size)

get_index-small : (size : ℕ) → 1 ≤ size → size ≤ 64 → Fits size ((size - 1) / 8)
unfolding get_index index_to_size
get_index-small size low high = (ground arith, ground arith, ground arith, λ j h. ground arith)

get_index-middle : (size : ℕ) → 64 < size → size ≤ 2048 → Fits size ((size - 65) / 64 + 8)
unfolding get_index index_to_size
get_index-middle size low high = (ground arith, ground arith, ground arith, λ j h. ground arith)

get_index-big : (size : ℕ) → 2048 < size → size ≤ 32768 → Fits size ((size - 2049) / 256 + 8 + 31)
unfolding get_index index_to_size
get_index-big size low high = (ground arith, ground arith, ground arith, λ j h. ground arith)

-- For every request of 1 to 32768 bytes `get_index` gives one of the 159 classes; objects of that
-- class hold the request, and those of the class before it, if there is one, do not.
pub get_index-least : (size : ℕ) → 1 ≤ size → size ≤ 32768 → (i : ℕ) × Fits size i
get_index-least size low high = elim (dec_lt 64 size) [
  | no a ↦ (_, get_index-small size low (omega arith))
  | yes a ↦ elim (dec_lt 2048 size) [
    | no b ↦ (_, get_index-middle size a (omega arith))
    | yes b ↦ (_, get_index-big size b high)
  ]
]

-- A request of no bytes has the class -1, and so has a request above 32768 bytes.
pub get_index-none : (size : ℕ) → (size ≡ 0) ⊎ (32768 < size) → get_index size ≡ negsuc 0
unfolding get_index
get_index-none size h = ground arith
