-- ===== src/Phase.antt =====
-- quizx/src/phase.rs: phases as rational numbers of half-turns. `Rational64`, of the crate `num`,
-- is the parameter `R` with the operations `RatioOps`; `none` is the panic of an overflow check.
pub mod Integers
pub mod Rationals
pub mod Range
pub mod Clifford
pub mod Limit
pub mod Convergents
pub mod Loop
pub mod Limited
use quizx.Prelude.{
  ℕ, zero, suc, ◌≤◌, ◌<◌, ◌≡◌, ◌*◌, ◌^◌, Bool, true, false, ◌&&◌, ◌||◌, Option, none, some, ◌>>=◌,
  ◌==◌, ltb, if◌then◌else◌,
}
use quizx.Prelude.Int.{
  ℤ, pos, negsuc, pos_part, neg_part, ◌-ℤ◌, ◌*ℤ◌, neg, ltb_ℤ, leb_ℤ, eqb_ℤ, rem_euclid, nat_abs,
}

-- What phase.rs calls of `num::rational::Rational64`.
pub record RatioOps (R : Type 0) : Type 0 where
  -- `Rational64::new`
  pub ratio : ℤ → ℤ → R
  -- `Ratio::new_raw`
  pub new_raw : ℤ → ℤ → R
  pub numer : R → ℤ
  pub denom : R → ℤ
  pub from_i64 : ℤ → R
  pub add : R → R → R
  pub sub : R → R → R
  pub mul : R → R → R
  pub div : R → R → R
  pub neg : R → R
  pub eq : R → R → Bool

-- struct Phase
pub record Phase (R : Type 0) : Type 0 where
  pub r : R

-- `2 * a` on an `i64`, for a positive `a`, with the check for overflow.
abbrev pub twice_i64 : ℤ → Option ℤ
twice_i64 a = if ltb (pos_part a) (2 ^ 62) then some (pos 2 *ℤ a) else none

module _ {R : Type 0} (ops : RatioOps R) where
  -- `Phase::normalize` on the field, and through `into` `Phase::new`, which normalizes again; on
  -- fuel.
  unfoldable pub normalize_from : ℕ → R → Option R
  normalize_from zero r = none
  normalize_from (suc fuel) r =
      let denom = ops.denom r in
      let num = ops.numer r in
      if ltb_ℤ (neg denom) num && leb_ℤ num denom then some r else (do
        m ← twice_i64 denom
        let num1 = pos (rem_euclid num (pos_part m))
        let num2 = if ltb_ℤ (ops.denom r) num1 then num1 -ℤ m else num1
        normalize_from fuel (ops.ratio num2 denom))

  -- Two rounds are enough.
  unfoldable pub new_phase : R → Option (Phase R)
  new_phase r = do r1 ← normalize_from 2 r; some (record { r = r1 })

  unfoldable pub normalize : Phase R → Option (Phase R)
  normalize p = new_phase p.r

  -- `Phase::from` of an integer and of a pair
  unfoldable pub phase_from_i64 : ℤ → Option (Phase R)
  phase_from_i64 i = new_phase (ops.from_i64 i)

  unfoldable pub phase_from_pair : ℤ → ℤ → Option (Phase R)
  phase_from_pair n d = new_phase (ops.ratio n d)

  unfoldable pub zero_phase : Option (Phase R)
  zero_phase = new_phase (ops.from_i64 (pos 0))

  unfoldable pub one_phase : Option (Phase R)
  one_phase = new_phase (ops.from_i64 (pos 1))

  unfoldable pub neg_phase : Phase R → Option (Phase R)
  neg_phase p = new_phase (ops.neg p.r)

  unfoldable pub add_phase : Phase R → Phase R → Option (Phase R)
  add_phase p q = new_phase (ops.add p.r q.r)

  unfoldable pub sub_phase : Phase R → Phase R → Option (Phase R)
  sub_phase p q = new_phase (ops.sub p.r q.r)

  unfoldable pub mul_phase : Phase R → Phase R → Option (Phase R)
  mul_phase p q = new_phase (ops.mul p.r q.r)

  -- `phase * k`
  unfoldable pub scale_phase : Phase R → ℤ → Option (Phase R)
  scale_phase p k = new_phase (ops.mul p.r (ops.from_i64 k))

  unfoldable pub div_phase : Phase R → Phase R → Option (Phase R)
  div_phase p q = new_phase (ops.div p.r q.r)

  abbrev pub is_zero_phase : Phase R → Bool
  is_zero_phase p = eqb_ℤ (ops.numer p.r) (pos 0)

  abbrev pub is_one_phase : Phase R → Bool
  is_one_phase p = eqb_ℤ (ops.numer p.r) (ops.denom p.r)

  unfoldable pub is_pauli_phase : Phase R → Bool
  is_pauli_phase p = is_zero_phase p || is_one_phase p

  unfoldable pub is_clifford_phase : Phase R → Bool
  is_clifford_phase p = ltb (nat_abs (ops.denom p.r)) 2

  unfoldable pub is_proper_clifford_phase : Phase R → Bool
  is_proper_clifford_phase p =
      ops.eq p.r (ops.ratio (pos 1) (pos 2)) || ops.eq p.r (ops.ratio (negsuc 0) (pos 2))

  unfoldable pub is_t_phase : Phase R → Bool
  is_t_phase p = nat_abs (ops.denom p.r) == 4
