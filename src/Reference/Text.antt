-- ===== src/Reference/Text.antt =====
-- The searches of `str` that the reference parser uses, over bytes, with their laws.
use goldboot.Base.{
  ℕ, zero, suc, ◌≡◌, refl, Bool, true, false, List, [], ◌∷◌, ◌++◌, Option, none, some, length, take,
  drop, ◌==◌, if◌then◌else◌, arith,
}
use mathlib.Core.Option

-- `s.strip_prefix(p)`.
unfoldable pub strip_prefix : List ℕ → List ℕ → Option (List ℕ)
strip_prefix [] s = some s
strip_prefix (p ∷ ps) [] = none
strip_prefix (p ∷ ps) (b ∷ bs) = if p == b then strip_prefix ps bs else none

-- `s.find(c)` and `s.rfind(c)`: the first and the last position of a byte.
unfoldable pub find : ℕ → List ℕ → Option ℕ
find c [] = none
find c (b ∷ bs) = let rest = find c bs in if c == b then some 0 else Option.map suc rest

abbrev later : Bool → Option ℕ → Option ℕ
later here (some i) = some (suc i)
later here none = if here then some 0 else none

unfoldable pub rfind : ℕ → List ℕ → Option ℕ
rfind c [] = none
rfind c (b ∷ bs) = later (c == b) (rfind c bs)

unfoldable pub contains : ℕ → List ℕ → Bool
contains c [] = false
contains c (b ∷ bs) = if c == b then true else contains c bs

pub strip_prefix-append : (p s : List ℕ) → strip_prefix p (p ++ s) ≡ some s
unfolding strip_prefix
strip_prefix-append [] s = refl
strip_prefix-append (b ∷ p) s = ground (arith, strip_prefix-append p s)

pub strip_prefix-some : (p s rest : List ℕ) → strip_prefix p s ≡ some rest → s ≡ p ++ rest
unfolding strip_prefix
strip_prefix-some [] s rest h = cc
strip_prefix-some (b ∷ p) [] rest h = cc
strip_prefix-some (b ∷ p) (c ∷ s) rest h = ground (arith, strip_prefix-some p s rest)

-- A byte that is found splits the text there.
pub find_split :
    (c : ℕ) (s : List ℕ) (i : ℕ) → find c s ≡ some i → s ≡ take i s ++ c ∷ drop (suc i) s
unfolding find
find_split c [] i h = cc
find_split c (b ∷ s) zero h = ground arith
find_split c (b ∷ s) (suc i) h = ground (arith, find_split c s i)

pub rfind_split :
    (c : ℕ) (s : List ℕ) (i : ℕ) → rfind c s ≡ some i → s ≡ take i s ++ c ∷ drop (suc i) s
unfolding rfind
rfind_split c [] i h = cc
rfind_split c (b ∷ s) zero h = ground arith
rfind_split c (b ∷ s) (suc i) h = ground (arith, rfind_split c s i)

-- The first and the last position, in a text that is given in parts.
pub find-append :
    (c : ℕ) (xs ys : List ℕ) → contains c xs ≡ false → find c (xs ++ c ∷ ys) ≡ some (length xs)
unfolding find contains
find-append c [] ys h = ground arith
find-append c (x ∷ xs) ys h = ground (arith, find-append c xs ys)

pub rfind_absent : (c : ℕ) (xs : List ℕ) → contains c xs ≡ false → rfind c xs ≡ none
unfolding rfind contains
rfind_absent c [] h = refl
rfind_absent c (x ∷ xs) h = ground (arith, rfind_absent c xs)

pub find_absent : (c : ℕ) (xs : List ℕ) → contains c xs ≡ false → find c xs ≡ none
unfolding find contains
find_absent c [] h = refl
find_absent c (x ∷ xs) h = ground (arith, find_absent c xs)

pub rfind-append :
    (c : ℕ) (xs ys : List ℕ) → contains c ys ≡ false → rfind c (xs ++ c ∷ ys) ≡ some (length xs)
unfolding rfind
rfind-append c [] ys h = ground (arith, rfind_absent c ys)
rfind-append c (x ∷ xs) ys h = ground (arith, rfind-append c xs ys)

-- A search that fails means that the byte is absent.
pub rfind_none : (c : ℕ) (s : List ℕ) → rfind c s ≡ none → contains c s ≡ false
unfolding rfind contains
rfind_none c [] h = refl
rfind_none c (b ∷ s) h = ground (arith, rfind_none c s)

pub find_none : (c : ℕ) (s : List ℕ) → find c s ≡ none → contains c s ≡ false
unfolding find contains
find_none c [] h = refl
find_none c (b ∷ s) h = ground (arith, find_none c s)

-- What stands behind the last occurrence of a byte is free of it.
pub rfind_last :
    (c : ℕ) (s : List ℕ) (i : ℕ) → rfind c s ≡ some i → contains c (drop (suc i) s) ≡ false
unfolding rfind contains
rfind_last c [] i h = cc
rfind_last c (b ∷ s) zero h = ground (arith, rfind_none c s)
rfind_last c (b ∷ s) (suc i) h = ground (arith, rfind_last c s i)

pub contains-append :
    (c : ℕ) (xs ys : List ℕ)
    → contains c (xs ++ ys) ≡ (if contains c xs then true else contains c ys)
unfolding contains
contains-append c [] ys = refl
contains-append c (x ∷ xs) ys = ground (arith, contains-append c xs ys)

pub drop_past : (c : ℕ) (xs ys : List ℕ) → drop (suc (length xs)) (xs ++ c ∷ ys) ≡ ys
drop_past c [] ys = refl
drop_past c (x ∷ xs) ys = drop_past c xs ys

-- A tail without the byte does not move its last position, which is in the front.
pub rfind-append_absent :
    (c : ℕ) (xs ys : List ℕ) → contains c ys ≡ false → rfind c (xs ++ ys) ≡ rfind c xs
unfolding rfind
rfind-append_absent c [] ys h = rfind_absent c ys h
rfind-append_absent c (x ∷ xs) ys h = rw (rfind-append_absent c xs ys h)

pub drop-append_found :
    (c : ℕ) (xs ys : List ℕ) (i : ℕ)
    → rfind c xs ≡ some i
    → drop (suc i) (xs ++ ys) ≡ drop (suc i) xs ++ ys
unfolding rfind
drop-append_found c [] ys i h = cc
drop-append_found c (x ∷ xs) ys zero h = refl
drop-append_found c (x ∷ xs) ys (suc i) h = ground (arith, drop-append_found c xs ys i)

pub contains_front : (c : ℕ) (xs ys : List ℕ) → contains c (xs ++ c ∷ ys) ≡ true
unfolding contains
contains_front c [] ys = ground arith
contains_front c (x ∷ xs) ys = ground (arith, contains_front c xs ys)

-- A text has one first occurrence.
pub first_unique :
    (c : ℕ) (xs xs' ys ys' : List ℕ)
    → contains c xs ≡ false
    → contains c xs' ≡ false
    → xs ++ c ∷ ys ≡ xs' ++ c ∷ ys'
    → ys ≡ ys'
unfolding contains
first_unique c [] [] ys ys' h h' e = cc
first_unique c [] (x' ∷ xs') ys ys' h h' e = absurd (ground arith)
first_unique c (x ∷ xs) [] ys ys' h h' e = absurd (ground arith)
first_unique c (x ∷ xs) (x' ∷ xs') ys ys' h h' e = ground (arith, first_unique c xs xs' ys ys')
