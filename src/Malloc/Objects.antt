-- ===== src/Malloc/Objects.antt =====
-- tc_malloc.h: lists of free objects, linked through the objects themselves.
use search_engine.Common.{
  ℕ, ◌+◌, ◌≡◌, ◌≢◌, refl, sym, Option, none, some, List, [], ◌∷◌, ◌++◌, arith, length,
}
use search_engine.Malloc.SpanList.{write}
use search_engine.Malloc.SpanList.Ring.{Apart, Distinct}

-- From `p` the `next` fields lead through these objects to a null pointer.
abbrev pub Objs : (ℕ → Option ℕ) → Option ℕ → List ℕ → Type 0
Objs nexts p [] = p ≡ none
Objs nexts p (x ∷ xs) = (p ≡ some x) × Objs nexts (nexts x) xs

-- The objects of `xs` in the opposite order, before those of `ys`.
abbrev pub turned : List ℕ → List ℕ → List ℕ
turned [] ys = ys
turned (x ∷ xs) ys = turned xs (x ∷ ys)

pub length-turned : (xs ys : List ℕ) → length (turned xs ys) ≡ length xs + length ys
length-turned [] ys = omega arith
length-turned (x ∷ xs) ys = omega (arith, length-turned xs (x ∷ ys))

pub write_self : (nexts : ℕ → Option ℕ) (a : ℕ) (to : Option ℕ) → write nexts a to a ≡ to
write_self nexts a to = ground arith

pub write_other :
    (nexts : ℕ → Option ℕ) (a p : ℕ) (to : Option ℕ) → a ≢ p → write nexts a to p ≡ nexts p
write_other nexts a p to ne = ground arith

-- A list stays when an object that is not on it is written.
pub Objs-write :
    (nexts : ℕ → Option ℕ) (a : ℕ) (to p : Option ℕ) (xs : List ℕ)
    → Apart a xs
    → Objs nexts p xs
    → Objs (write nexts a to) p xs
Objs-write nexts a to p [] out o = o
Objs-write nexts a to p (x ∷ xs) (ne, out) (e, o) =
    (e, rw (write_other nexts a x to ne) (Objs-write nexts a to (nexts x) xs out o))

-- An object written in front of a list that it is not on.
pub Objs-push :
    (nexts : ℕ → Option ℕ) (a : ℕ) (p : Option ℕ) (xs : List ℕ)
    → Apart a xs
    → Objs nexts p xs
    → Objs (write nexts a p) (some a) (a ∷ xs)
Objs-push nexts a p xs out o = (refl, rw (write_self nexts a p) (Objs-write nexts a p p xs out o))

-- A distinct object can stand anywhere in a list.
pub Distinct-insert :
    (xs : List ℕ) (a : ℕ) (ys : List ℕ)
    → Distinct (xs ++ ys)
    → Apart a (xs ++ ys)
    → Distinct (xs ++ a ∷ ys)
Distinct-insert [] a ys d out = (out, d)
Distinct-insert (x ∷ xs) a ys (out_x, d) (ne, out) =
    (Apart-insert x xs a ys (λ e. ne (sym e)) out_x, Distinct-insert xs a ys d out)
  where
    Apart-insert :
        (p : ℕ) (xs : List ℕ) (a : ℕ) (ys : List ℕ)
        → p ≢ a
        → Apart p (xs ++ ys)
        → Apart p (xs ++ a ∷ ys)
    Apart-insert p [] a ys ne h = (ne, h)
    Apart-insert p (x ∷ xs) a ys ne (h, hs) = (h, Apart-insert p xs a ys ne hs)

pub Apart-append : (p : ℕ) (xs ys : List ℕ) → Apart p (xs ++ ys) → Apart p xs × Apart p ys
Apart-append p [] ys h = (tt, h)
Apart-append p (x ∷ xs) ys (ne, h) = let (a, b) = Apart-append p xs ys h in ((ne, a), b)
