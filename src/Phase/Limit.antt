-- ===== src/Phase/Limit.antt =====
-- quizx/src/phase/utils.rs: limit_denominator, over unbounded integers, as the generic function is.
use quizx.Prelude.{ℕ, zero, suc, ◌/◌, Option, none, some, ◌>>=◌, if◌then◌else◌}
use quizx.Prelude.Int.{ℤ, pos, negsuc, ◌+ℤ◌, ◌-ℤ◌, ◌*ℤ◌, neg, ltb_ℤ, leb_ℤ, nat_abs}
use quizx.Phase.{RatioOps, Phase, new_phase}

-- `Integer::div_floor`, which panics on a division by zero.
abbrev pub div_floor_by : ℤ → ℕ → ℤ
div_floor_by (pos n) m = pos (n / m)
div_floor_by (negsuc n) m = negsuc (n / m)

unfoldable pub div_floor : ℤ → ℤ → Option ℤ
div_floor a (pos zero) = none
div_floor a (pos (suc m)) = some (div_floor_by a (suc m))
div_floor a (negsuc m) = some (div_floor_by (neg a) (suc m))

-- The variables of the loop.
pub record Bounds : Type 0 where
  pub numer : ℤ
  pub denom : ℤ
  pub numer_0 : ℤ
  pub denom_0 : ℤ
  pub numer_1 : ℤ
  pub denom_1 : ℤ

-- The body of the loop after the test, for the quotient a.
unfoldable pub next_bounds : Bounds → ℤ → Bounds
next_bounds s a = record {
  numer = s.denom;
  denom = s.numer -ℤ a *ℤ s.denom;
  numer_0 = s.numer_1;
  denom_0 = s.denom_1;
  numer_1 = s.numer_0 +ℤ a *ℤ s.numer_1;
  denom_1 = s.denom_0 +ℤ a *ℤ s.denom_1;
}

-- The loop, on fuel: `none` is a division by zero or the end of the fuel.
unfoldable pub bounds_loop : ℕ → ℤ → Bounds → Option Bounds
bounds_loop zero max_denom s = none
bounds_loop (suc fuel) max_denom s = do
  a ← div_floor s.numer s.denom
  let rest = bounds_loop fuel max_denom (next_bounds s a)
  if ltb_ℤ max_denom (s.denom_0 +ℤ a *ℤ s.denom_1) then some s else rest

-- The nearer of the last bound and the bound between the two.
unfoldable pub choose_bound : ℤ → ℤ → Bounds → Option (ℤ × ℤ)
choose_bound denom max_denom s = do
  k ← div_floor (max_denom -ℤ s.denom_0) s.denom_1
  some (
      if leb_ℤ (pos 2 *ℤ s.denom *ℤ (s.denom_0 +ℤ k *ℤ s.denom_1)) denom
      then (s.numer_1, s.denom_1)
      else (s.numer_0 +ℤ k *ℤ s.numer_1, s.denom_0 +ℤ k *ℤ s.denom_1))

unfoldable pub first_bounds : ℤ → ℤ → Bounds
first_bounds n d = record {
  numer = n;
  denom = d;
  numer_0 = pos 0;
  denom_0 = pos 1;
  numer_1 = pos 1;
  denom_1 = pos 0;
}

-- The numerator and denominator that the loop and the choice after it give for n / d.
unfoldable pub limit_parts : ℕ → ℤ → ℤ → ℤ → Option (ℤ × ℤ)
limit_parts fuel n d max_denom = do
  s ← bounds_loop fuel max_denom (first_bounds n d)
  choose_bound d max_denom s

module _ {R : Type 0} (ops : RatioOps R) where
  -- One round for each unit of the denominator is enough, and two more.
  unfoldable pub limit_denominator : R → ℤ → Option R
  limit_denominator r max_denom =
      if leb_ℤ max_denom (pos 1)
      then none
      else if leb_ℤ (ops.denom r) max_denom
      then some r
      else (do
        p ← limit_parts (suc (suc (nat_abs (ops.denom r)))) (ops.numer r) (ops.denom r) max_denom
        some (ops.new_raw p.0 p.1))

  -- `Phase::limit_denominator`
  unfoldable pub limit_phase : Phase R → ℤ → Option (Phase R)
  limit_phase p max_denom = do r ← limit_denominator p.r max_denom; new_phase ops r
