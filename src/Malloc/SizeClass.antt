-- ===== src/Malloc/SizeClass.antt =====
-- tc_malloc.h: the size classes, `index_to_size` and `get_index`.
pub mod Bounds
use search_engine.Common.{
  ℕ, ◌+◌, ◌-◌, ◌*◌, ◌/◌, ◌%◌, ◌^◌, ◌<◌, ◌≡◌, arith, ◌^◌, ltb, leb, if◌then◌else◌,
}
use search_engine.Common.Int.{ℤ, pos, negsuc}

-- The bytes of an object of class `index`. The subtractions run at `8 ≤ index` and `39 ≤ index`
-- only, so that `-` on ℕ is the subtraction of `int` there.
unfoldable pub index_to_size : ℕ → ℕ
index_to_size index =
    let class = index + 1 in
    if leb index 7
    then class * 8
    else if leb index 38
    then (class - 8) * 64 + 64
    else if leb index 158
    then (class - 39) * 256 + 2048
    else class

-- `int index = e` for an `e` of type `size_t`: the low 32 bits, read in two's complement.
unfoldable pub to_int : ℕ → ℤ
to_int e = let low = e % 2 ^ 32 in if ltb low (2 ^ 31) then pos low else negsuc (2 ^ 32 - 1 - low)

-- The class of a request of `size` bytes. The operands are of type `size_t`, where 0 - 1 wraps.
unfoldable pub get_index : ℕ → ℤ
unfolding to_int
get_index size =
    if leb size 64
    then to_int ((size + (2 ^ 64 - 1)) % 2 ^ 64 / 8)
    else if leb size 2048
    then to_int ((size - 65) / 64 + 8)
    else if leb size 32768
    then to_int ((size - 2049) / 256 + 8 + 31)
    else negsuc 0

-- pages_to_bytes, bytes_to_pages: shifts by SHIFTAMT.
unfoldable pub pages_to_bytes : ℕ → ℕ
pages_to_bytes npage = npage * 2 ^ 12

-- pages_to_bytes of a `uint32_t`, which shifts in 32 bits.
unfoldable pub pages_to_bytes_32 : ℕ → ℕ
pages_to_bytes_32 npage = npage * 2 ^ 12 % 2 ^ 32

-- Below 2 ^ 20 pages the number of bytes has 32 bits.
pub pages_to_bytes_32-small :
    (npage : ℕ) → npage < 2 ^ 20 → pages_to_bytes_32 npage ≡ pages_to_bytes npage
unfolding pages_to_bytes pages_to_bytes_32
pages_to_bytes_32-small npage h = omega arith

unfoldable pub bytes_to_pages : ℕ → ℕ
bytes_to_pages nbytes = nbytes / 2 ^ 12
