-- ===== src/Text/Copy.antt =====
-- helper.c: what `StrCopy` and `StrConcat` write.
use search_engine.Common.{
  ℕ, zero, suc, ◌+◌, ◌^◌, ◌<◌, ◌≤◌, ◌≡◌, inl, inr, refl, none, some, List, [], ◌∷◌, ◌++◌, true,
  false, arith, ◌==◌, Bool-cases, length, drop,
}
use search_engine.Text.{copy_loop, str_copy, concat_loop, str_concat, sub_size}
use search_engine.Text.Scan.{until_nul}

copy_loop_fits :
    (rounds : ℕ) (dest src : List ℕ)
    → length (until_nul src) < rounds
    → length (until_nul src) < length dest
    → copy_loop rounds dest src
      ≡ some (length (until_nul src), until_nul src ++ 0 ∷ drop (suc (length (until_nul src))) dest)
unfolding copy_loop until_nul
copy_loop_fits zero dest src h k = elim h [ ]
copy_loop_fits (suc rounds) [] src h k = elim k [ ]
copy_loop_fits (suc rounds) (d ∷ dest) [] h k = refl
copy_loop_fits (suc rounds) (d ∷ dest) (c ∷ src) h k = elim (Bool-cases (c == 0)) [
  | inl e ↦ rw e
  | inr e ↦ rw (e, copy_loop_fits rounds dest src (ground arith) (ground arith))
]

-- A string that is shorter than `max_cpy_size` and than the destination is copied with its
-- terminator, and the rest of the destination is kept.
pub str_copy_fits :
    (dest src : List ℕ) (max_cpy_size : ℕ)
    → length (until_nul src) < max_cpy_size
    → length (until_nul src) < length dest
    → str_copy dest src max_cpy_size
      ≡ some (true, until_nul src ++ 0 ∷ drop (suc (length (until_nul src))) dest)
unfolding str_copy
str_copy_fits dest src max_cpy_size h k = ground (arith, copy_loop_fits max_cpy_size dest src h k)

copy_loop_overruns :
    (rounds : ℕ) (dest src : List ℕ)
    → length dest < rounds
    → length dest ≤ length (until_nul src)
    → copy_loop rounds dest src ≡ none
unfolding copy_loop until_nul
copy_loop_overruns zero dest src h k = elim h [ ]
copy_loop_overruns (suc rounds) [] src h k = refl
copy_loop_overruns (suc rounds) (d ∷ dest) [] h k = elim k [ ]
copy_loop_overruns (suc rounds) (d ∷ dest) (c ∷ src) h k = elim (Bool-cases (c == 0)) [
  | inl e ↦ absurd (ground arith)
  | inr e ↦ rw (e, copy_loop_overruns rounds dest src (omega arith) (ground arith))
]

-- A destination that is shorter than `max_cpy_size` and too short for the string with its
-- terminator is written past its end.
pub str_copy_overruns :
    (dest src : List ℕ) (max_cpy_size : ℕ)
    → length dest < max_cpy_size
    → length dest ≤ length (until_nul src)
    → str_copy dest src max_cpy_size ≡ none
unfolding str_copy
str_copy_overruns dest src max_cpy_size h k =
    rw (copy_loop_overruns max_cpy_size dest src h k, str_copy)

-- What `str_concat_lem` says is left: the two strings, a terminator, and the rest of the destination.
abbrev pub joined : List ℕ → List ℕ → List ℕ
joined dest src =
    until_nul dest
    ++ (until_nul src
        ++ 0 ∷ drop (suc (length (until_nul src))) (drop (length (until_nul dest)) dest))

concat_loop_lem :
    (dest src : List ℕ) (max_len : ℕ)
    → max_len < 2 ^ 64
    → length (until_nul dest) + length (until_nul src) < max_len
    → length (until_nul dest) + length (until_nul src) < length dest
    → concat_loop dest src max_len ≡ some (joined dest src)
unfolding concat_loop until_nul
concat_loop_lem [] src max_len w h k = elim k [ ]
concat_loop_lem (c ∷ dest) src max_len w h k = elim (Bool-cases (c == 0)) [
  | inl e ↦
      let empty : length (until_nul (c ∷ dest)) ≡ 0 = rw e in
      let copied =
        str_copy_fits (c ∷ dest) src max_len (omega (arith, empty)) (omega (arith, empty)) in
      rw (e, copied)
  | inr e ↦
      let longer : length (until_nul (c ∷ dest)) ≡ suc (length (until_nul dest)) = rw e in
      let later =
        concat_loop_lem dest src (sub_size max_len 1) (omega arith) (omega (arith, longer))
          (omega (arith, longer)) in
      rw (e, later)
]

-- `StrConcat` to a destination that has room for both strings and a terminator leaves the two
-- strings in it, one behind the other, and the rest of the destination, if the two are shorter
-- together than `max_len`, a number of 64 bits.
pub str_concat_lem :
    (dest src : List ℕ) (max_len : ℕ)
    → max_len < 2 ^ 64
    → length (until_nul dest) + length (until_nul src) < max_len
    → length (until_nul dest) + length (until_nul src) < length dest
    → str_concat dest src max_len ≡ some (true, joined dest src)
unfolding str_concat
str_concat_lem dest src max_len w h k =
    let some_room : (max_len == 0) ≡ false = ground arith in
    rw (some_room, concat_loop_lem dest src max_len w h k)

-- `StrCopy` reads its source up to the terminator only.
pub copy_loop-until_nul :
    (rounds : ℕ) (dest src : List ℕ)
    → copy_loop rounds dest src ≡ copy_loop rounds dest (until_nul src)
unfolding copy_loop until_nul
copy_loop-until_nul zero dest src = refl
copy_loop-until_nul (suc rounds) [] src = refl
copy_loop-until_nul (suc rounds) (d ∷ dest) [] = refl
copy_loop-until_nul (suc rounds) (d ∷ dest) (c ∷ src) =
    ground (arith, copy_loop-until_nul rounds dest src)

pub str_copy-until_nul :
    (dest src : List ℕ) (max : ℕ) → str_copy dest src max ≡ str_copy dest (until_nul src) max
unfolding str_copy
str_copy-until_nul dest src max = rw (copy_loop-until_nul max dest src, str_copy)
