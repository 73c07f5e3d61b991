-- ===== src/Linalg/Gauss/Solutions.antt =====
-- What the row operations of linalg.rs keep: the solutions of the homogeneous system.
use quizx.Prelude.{
  ℕ, zero, suc, ◌≡◌, ◌≢◌, refl, Bool, false, ◌&&◌, ◌==◌, if◌then◌else◌, arith, Bool-cases, inl, inr,
  ◌∙◌,
}
use quizx.Linalg.{Mat2, unit_ops}
use quizx.Linalg.Bits.{bit, xor, RowAdded}
use quizx.Linalg.Gauss.Loops.{Follows}

-- The sum in F2 of `f k * g k` for `k < n`.
abbrev pub sum_of : ℕ → (ℕ → Bool) → (ℕ → Bool) → Bool
sum_of zero f g = false
sum_of (suc n) f g = xor (f n && g n) (sum_of n f g)

-- `v` solves the homogeneous system of the rows of `m`.
abbrev pub Solves : ℕ → Mat2 → (ℕ → Bool) → Type 0
Solves cols m v = (i : ℕ) → sum_of cols (bit m i) v ≡ false

-- Two systems have the same solutions.
abbrev pub SameSolutions : ℕ → Mat2 → Mat2 → Type 0
SameSolutions cols m m' =
    (v : ℕ → Bool) → (Solves cols m v → Solves cols m' v) × (Solves cols m' v → Solves cols m v)

sum_of-xor :
    (n : ℕ) (f g h v : ℕ → Bool)
    → ((j : ℕ) → f j ≡ xor (g j) (h j))
    → sum_of n f v ≡ xor (sum_of n g v) (sum_of n h v)
sum_of-xor zero f g h v eq = refl
sum_of-xor (suc n) f g h v eq = ground (arith, eq n, sum_of-xor n f g h v eq)

pub sum_of-ext : (n : ℕ) (f g v : ℕ → Bool) → ((j : ℕ) → f j ≡ g j) → sum_of n f v ≡ sum_of n g v
sum_of-ext zero f g v eq = refl
sum_of-ext (suc n) f g v eq = ground (arith, eq n, sum_of-ext n f g v eq)

pub row_sum :
    (rows cols : ℕ) (m m' : Mat2) (r0 r1 : ℕ) (v : ℕ → Bool) (i : ℕ)
    → RowAdded rows cols m r0 r1 m'
    → sum_of cols (bit m' i) v ≡ (
        if i == r1
        then xor (sum_of cols (bit m i) v) (sum_of cols (bit m r0) v)
        else sum_of cols (bit m i) v)
row_sum rows cols m m' r0 r1 v i a = elim (Bool-cases (i == r1)) [
  | inl same ↦
      sum_of-xor cols (bit m' i) (bit m i) (bit m r0) v (λ j. ground (arith, a.bits i j))
      ∙ ground arith
  | inr other ↦
      sum_of-ext cols (bit m' i) (bit m i) v (λ j. ground (arith, a.bits i j)) ∙ ground arith
]

-- Adding a row to another one keeps the solutions.
pub SameSolutions-RowAdded :
    (rows cols : ℕ) (m m' : Mat2) (r0 r1 : ℕ)
    → r0 ≢ r1
    → RowAdded rows cols m r0 r1 m'
    → SameSolutions cols m m'
SameSolutions-RowAdded rows cols m m' r0 r1 ne a v = (
  λ h i. ground (arith, row_sum rows cols m m' r0 r1 v i a, h i, h r0),
  λ h i.
      ground
        (arith, row_sum rows cols m m' r0 r1 v i a, row_sum rows cols m m' r0 r1 v r0 a, h i, h r0),
)

-- With no companion, the solutions can be followed.
pub unit_Follows :
    (rows cols : ℕ) (m0 : Mat2) → Follows unit_ops rows cols (λ m x. SameSolutions cols m0 m)
unit_Follows rows cols m0 = record {
  follow = λ m m' x r0 r1 rel h0 h1 ne a. (
    tt,
    refl,
    λ v.
        let step = SameSolutions-RowAdded rows cols m m' r0 r1 ne a v in
        (λ h. step.0 ((rel v).0 h), λ h. (rel v).1 (step.1 h)),
  );
}
