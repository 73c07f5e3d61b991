-- ===== src/Phase/Rationals.antt =====
-- What quizx/src/phase.rs relies on of rational numbers, and intervals of integers.
use quizx.Prelude.{ℕ, zero, suc, ◌+◌, ◌*◌, ◌^◌, ◌≤◌, ◌<◌, ◌≡◌, sym, ap, ◌∙◌, true, some, arith}
use native.Mathlib.Nat
use quizx.Prelude.Int.{ℤ, pos, negsuc, pos_part, neg_part, ◌+ℤ◌, ◌*ℤ◌, +ℤ_parts}
use quizx.Phase.Integers.{*ℤ-pos_parts, le_of_mul, +ℤ-zero}
use quizx.Phase.{RatioOps, twice_i64}

-- What the code relies on of `Rational64`.
pub record RatioLaws {R : Type 0} (ops : RatioOps R) : Type 0 where
  -- The denominator is positive.
  pub denom_pos : (r : R) → (neg_part (ops.denom r) ≡ 0) × (0 < pos_part (ops.denom r))
  -- `new` divides both parts by a common factor.
  pub ratio_reduces :
      (n : ℤ) (d : ℕ)
      → 0 < d
      → (k : ℕ) × (0 < k)
        × (n ≡ ops.numer (ops.ratio n (pos d)) *ℤ pos k)
        × (pos d ≡ ops.denom (ops.ratio n (pos d)) *ℤ pos k)
  pub eq_denom : (x y : R) → ops.eq x y ≡ true → ops.denom x ≡ ops.denom y

pub twice_i64_lem : (d : ℕ) → d < 2 ^ 62 → twice_i64 (pos d) ≡ some (pos (2 * d))
unfolding ◌*ℤ◌
twice_i64_lem d h = ground arith

-- -w < a ≤ w
abbrev pub Within : ℤ → ℕ → Type 0
Within a w = (neg_part a < w + pos_part a) × (pos_part a ≤ w + neg_part a)

pub Within-*ℤ : (a : ℤ) (w m : ℕ) → 0 < m → Within a w → Within (a *ℤ pos m) (w * m)
Within-*ℤ a w m h (low, high) = ground (
  arith,
  *ℤ-pos_parts a m,
  Nat.add-mul w (pos_part a) m,
  Nat.add-mul w (neg_part a) m,
  (le_of_mul (neg_part a) (w + pos_part a) m h).1 low,
  Nat.mul-le-mul_right m high,
)

-- Two numbers of (-w, w] do not differ by a multiple of 2w.
pub no_turn : (a b k : ℤ) (w : ℕ) → a ≡ b +ℤ k *ℤ pos (2 * w) → Within a w → Within b w → a ≡ b
no_turn a b (pos zero) w e ha hb = e ∙ sym (+ℤ-zero b (2 * w))
no_turn a b (pos (suc j)) w e ha hb = absurd (
    ground (
      arith,
      ap pos_part e,
      ap neg_part e,
      +ℤ_parts b (pos (suc j) *ℤ pos (2 * w)),
      *ℤ-pos_parts (pos (suc j)) (2 * w),
    ))
no_turn a b (negsuc j) w e ha hb = absurd (
    ground (
      arith,
      ap pos_part e,
      ap neg_part e,
      +ℤ_parts b (negsuc j *ℤ pos (2 * w)),
      *ℤ-pos_parts (negsuc j) (2 * w),
    ))
