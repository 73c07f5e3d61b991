-- ===== src/Prelude/Slots.antt =====
-- A `Vec<Option<T>>` of slots that may be empty, vectors used as stacks, and sums over a list.
use Prim.Native.Nat.{ℕ, zero, suc, ◌+◌, ◌<◌, ◌≤◌}
use mathlib.Core.Path.{◌≡◌, refl}
use mathlib.Core.Option.{Option, none, some}
use mathlib.Core.List.{List, [], ◌∷◌}
use native.Mathlib.Omega.{arith}
use quizx.Prelude.Tests.{◌==◌, if◌then◌else◌}
use quizx.Prelude.Lists.{length, set, get_elem?}

module _ {ℓ} {A : Type ℓ} where
  -- `Some(Some(a)) = xs.get(v)`: an index out of range and an empty slot both give `none`.
  abbrev pub slot : List (Option A) → ℕ → Option A
  slot [] v = none
  slot (x ∷ xs) zero = x
  slot (x ∷ xs) (suc v) = slot xs v

  -- `Vec::push`
  abbrev pub push : List A → A → List A
  push [] a = a ∷ []
  push (x ∷ xs) a = x ∷ push xs a

  -- `Vec::pop` on the vector `x ∷ xs`: what is left, and the last element.
  abbrev pub pop_from : A → List A → List A × A
  pop_from x [] = ([], x)
  pop_from x (y ∷ ys) = let (rest, last) = pop_from y ys in (x ∷ rest, last)

  abbrev pub pop : List A → Option (List A × A)
  pop [] = none
  pop (x ∷ xs) = some (pop_from x xs)

  -- The sum of a weight over a list.
  abbrev pub tally : (A → ℕ) → List A → ℕ
  tally f [] = 0
  tally f (x ∷ xs) = f x + tally f xs

  pub length-push : (xs : List A) (a : A) → length (push xs a) ≡ length xs + 1
  length-push [] a = refl
  length-push (x ∷ xs) a = omega (arith, length-push xs a)

  pub length-pop_from : (x : A) (xs : List A) → length (pop_from x xs).0 ≡ length xs
  length-pop_from x [] = refl
  length-pop_from x (y ∷ ys) = omega (arith, length-pop_from y ys)

  pub tally-push : (f : A → ℕ) (xs : List A) (a : A) → tally f (push xs a) ≡ tally f xs + f a
  tally-push f [] a = omega arith
  tally-push f (x ∷ xs) a = omega (arith, tally-push f xs a)

  pub tally-pop_from :
      (f : A → ℕ) (x : A) (xs : List A)
      → tally f (pop_from x xs).0 + f (pop_from x xs).1 ≡ f x + tally f xs
  tally-pop_from f x [] = omega arith
  tally-pop_from f x (y ∷ ys) = omega (arith, tally-pop_from f y ys)

  pub tally-set :
      (f : A → ℕ) (xs : List A) (i : ℕ) (a : A) {b : A}
      → get_elem? xs i ≡ some b
      → tally f (set xs i a) + f b ≡ tally f xs + f a
  tally-set f [] i a h = cc
  tally-set f (x ∷ xs) zero a h = ground arith
  tally-set f (x ∷ xs) (suc i) a h = omega (arith, tally-set f xs i a h)

  pub tally-le :
      (f : A → ℕ) (xs : List A) (i : ℕ) {b : A} → get_elem? xs i ≡ some b → f b ≤ tally f xs
  tally-le f [] i h = cc
  tally-le f (x ∷ xs) zero h = ground arith
  tally-le f (x ∷ xs) (suc i) h = omega (arith, tally-le f xs i h)

module _ {ℓ} {A : Type ℓ} where
  pub slot-set :
      (xs : List (Option A)) (v w : ℕ) (o : Option A)
      → v < length xs
      → slot (set xs v o) w ≡ (if v == w then o else slot xs w)
  slot-set [] v w o h = elim h [ ]
  slot-set (x ∷ xs) zero zero o h = refl
  slot-set (x ∷ xs) zero (suc w) o h = ground arith
  slot-set (x ∷ xs) (suc v) zero o h = ground arith
  slot-set (x ∷ xs) (suc v) (suc w) o h = ground (arith, slot-set xs v w o)

  pub slot-push :
      (xs : List (Option A)) (w : ℕ) (o : Option A)
      → slot (push xs o) w ≡ (if length xs == w then o else slot xs w)
  slot-push [] zero o = refl
  slot-push [] (suc w) o = ground arith
  slot-push (x ∷ xs) zero o = ground arith
  slot-push (x ∷ xs) (suc w) o = ground (arith, slot-push xs w o)

  pub slot-lt : (xs : List (Option A)) (v : ℕ) {a : A} → slot xs v ≡ some a → v < length xs
  slot-lt [] v h = cc
  slot-lt (x ∷ xs) zero h = omega arith
  slot-lt (x ∷ xs) (suc v) h = omega (arith, slot-lt xs v h)

  pub get_elem?-slot :
      (xs : List (Option A)) (v : ℕ) → v < length xs → get_elem? xs v ≡ some (slot xs v)
  get_elem?-slot [] v h = elim h [ ]
  get_elem?-slot (x ∷ xs) zero h = refl
  get_elem?-slot (x ∷ xs) (suc v) h = get_elem?-slot xs v (omega arith)

  -- A slot is overwritten: its old weight goes and its new one comes.
  pub tally-slot_write :
      (f : Option A → ℕ) (xs : List (Option A)) (v : ℕ) (o : Option A)
      → v < length xs
      → tally f (set xs v o) + f (slot xs v) ≡ tally f xs + f o
  tally-slot_write f xs v o h = tally-set f xs v o (get_elem?-slot xs v h)

  abbrev pub one_if_some : Option A → ℕ
  one_if_some none = 0
  one_if_some (some _) = 1

-- How often a number occurs.
abbrev pub one_if_eq : ℕ → ℕ → ℕ
one_if_eq a x = if x == a then 1 else 0

abbrev pub occurrences : ℕ → List ℕ → ℕ
occurrences a xs = tally (one_if_eq a) xs
