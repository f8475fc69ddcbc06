-- ===== src/Gui/Progress/Counts.antt =====
-- Recording block after block: the states up to a block are final, the others are pending.
use goldboot.Base.{
  ℕ, suc, ◌+◌, ◌^◌, ◌<◌, ◌≤◌, Bool, true, false, List, [], ◌∷◌, ◌++◌, Option, length, lt→ltb,
  Result, ok, bind, bind-eq-ok, All, ◌≡◌, refl, ap, ◌⊎◌, inl, inr, arith,
}
use goldboot.Apply.{Progress}
use goldboot.Gui.Progress.{BlockState, WriteProgress, set_state, add_u64, record_all, count_where}

pub set_state-middle :
    (fs ts : List BlockState) (s t : BlockState)
    → set_state (length fs) s (fs ++ (t ∷ ts)) ≡ ok (fs ++ (s ∷ ts))
unfolding set_state
set_state-middle [] ts s t = refl
set_state-middle (f ∷ fs) ts s t =
    ap (λ (r : Result (List BlockState)). bind r λ ts'. ok (f ∷ ts')) (set_state-middle fs ts s t)

pub add_u64-fits : (a b : ℕ) → a + b < 2 ^ 64 → add_u64 a b ≡ ok (a + b)
unfolding add_u64
add_u64-fits a b h = rw (lt→ltb (a + b) (2 ^ 64) h) refl

pub record_all-append :
    (call : ℕ → Option Bool → WriteProgress → Result WriteProgress) (xs ys : Progress)
    (p p' : WriteProgress)
    → record_all call xs p ≡ ok p'
    → record_all call (xs ++ ys) p ≡ record_all call ys p'
unfolding record_all
record_all-append call [] ys p p' h = let same : p ≡ p' = cc in ap (record_all call ys) same
record_all-append call (x ∷ xs) ys p p' h =
    let first = bind-eq-ok (call x.0 x.1 p) _ h in
    rw (first.1) (record_all-append call xs ys first.0 p' first.2)

pub count_where-append :
    (test : BlockState → Bool) (xs ys : List BlockState)
    → count_where test (xs ++ ys) ≡ count_where test xs + count_where test ys
unfolding count_where
count_where-append test [] ys = omega arith
count_where-append test (x ∷ xs) ys = ground (arith, count_where-append test xs ys)

pub count_where_all :
    (test : BlockState → Bool) (xs : List BlockState)
    → All (λ x. test x ≡ true) xs
    → count_where test xs ≡ length xs
unfolding count_where
count_where_all test [] h = refl
count_where_all test (x ∷ xs) h = rw (h.0) (ap suc (count_where_all test xs h.1))

-- Two tests of which each state passes exactly one share the states out.
pub count_where_either :
    (test test' : BlockState → Bool) (xs : List BlockState)
    → All (λ x. (test x ≡ true × test' x ≡ false) ⊎ (test x ≡ false × test' x ≡ true)) xs
    → count_where test xs + count_where test' xs ≡ length xs
unfolding count_where
count_where_either test test' [] h = refl
count_where_either test test' (x ∷ xs) h =
    let rest = count_where_either test test' xs h.1 in
    elim h.0 [ inl q ↦ rw (q.0, q.1) (omega arith) | inr q ↦ rw (q.0, q.1) (omega arith) ]

pub count_where-le :
    (test : BlockState → Bool) (xs : List BlockState) → count_where test xs ≤ length xs
unfolding count_where
count_where-le test [] = omega arith
count_where-le test (x ∷ xs) = ground (arith, count_where-le test xs)
