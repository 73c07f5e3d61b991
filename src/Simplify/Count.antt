-- ===== src/Simplify/Count.antt =====
-- The number of slots in use, when one of them is emptied.
use quizx.Prelude.{
  ℕ, zero, suc, ◌<◌, ◌≡◌, refl, true, false, Option, List, [], ◌∷◌, slot, is_some, ◌==◌,
  if◌then◌else◌, arith, tally, one_if_some,
}

count_pos :
    {A : Type 0} (xs : List (Option A)) (v : ℕ)
    → is_some (slot xs v) ≡ true
    → 0 < tally one_if_some xs
count_pos [] v h = absurd (ground (arith, h))
count_pos (x ∷ xs) zero h = ground (arith, h)
count_pos (x ∷ xs) (suc v) h = omega (arith, count_pos xs v h)

count_same :
    {A : Type 0} (xs ys : List (Option A))
    → ((w : ℕ) → is_some (slot ys w) ≡ is_some (slot xs w))
    → tally one_if_some ys ≡ tally one_if_some xs
count_same [] [] h = refl
count_same [] (y ∷ ys) h = ground (arith, h 0, count_same [] ys (λ w. h (suc w)))
count_same (x ∷ xs) [] h = ground (arith, h 0, count_same xs [] (λ w. h (suc w)))
count_same (x ∷ xs) (y ∷ ys) h = ground (arith, h 0, count_same xs ys (λ w. h (suc w)))

-- Emptying a slot in use leaves fewer in use.
pub count_less :
    {A : Type 0} (xs ys : List (Option A)) (v : ℕ)
    → is_some (slot xs v) ≡ true
    → ((w : ℕ) → is_some (slot ys w) ≡ (if v == w then false else is_some (slot xs w)))
    → tally one_if_some ys < tally one_if_some xs
count_less [] ys v live h = absurd (ground (arith, live))
count_less (x ∷ xs) [] v live h = count_pos (x ∷ xs) v live
count_less (x ∷ xs) (y ∷ ys) zero live h =
    ground (arith, live, h 0, count_same xs ys (λ w. ground (arith, h (suc w))))
count_less (x ∷ xs) (y ∷ ys) (suc v) live h =
    ground (arith, h 0, count_less xs ys v live (λ w. ground (arith, h (suc w))))
