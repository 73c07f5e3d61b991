-- ===== src/Examples/Phases.antt =====
-- Fractions of integers as the numbers that quizx/src/phase.rs takes from another crate, and the results
-- on phases at them.
use quizx.Prelude.{
  ℕ, zero, suc, ◌*◌, ◌≤◌, ◌<◌, ◌≡◌, refl, ap, ◌∙◌, true, false, ◌&&◌, none, some, arith, ◌==◌,
}
use quizx.Prelude.Int.{
  ℤ, pos, negsuc, pos_part, ◌+ℤ◌, ◌-ℤ◌, ◌*ℤ◌, neg, eqb_ℤ, eq_of_parts, neg_parts,
}
use quizx.Phase.Integers.{*ℤ-pos_parts}
use quizx.Phase.{
  RatioOps, Phase, new_phase, is_clifford_phase, is_pauli_phase, is_proper_clifford_phase,
}
use quizx.Phase.Rationals.{RatioLaws}
use quizx.Phase.Range.{InRange, SameAngle, new_phase_lem}
use quizx.Phase.Clifford.{is_clifford_phase_lem}
use quizx.Phase.Limit.{limit_denominator}
use quizx.Phase.Convergents.{Coprime}
use quizx.Phase.Limited.{Limits, limit_denominator_lem}

-- A numerator, and the denominator less one.
abbrev Fraction : Type 0
Fraction = ℤ × ℕ

abbrev fraction : ℤ → ℤ → Fraction
fraction n (pos zero) = (n, 0)
fraction n (pos (suc d)) = (n, d)
fraction n (negsuc d) = (neg n, d)

abbrev fractions : RatioOps Fraction
fractions = record {
  ratio = fraction;
  new_raw = fraction;
  numer = λ r. r.0;
  denom = λ r. pos (suc r.1);
  from_i64 = λ i. (i, 0);
  add = λ a b. fraction (a.0 *ℤ pos (suc b.1) +ℤ b.0 *ℤ pos (suc a.1)) (pos (suc a.1 * suc b.1));
  sub = λ a b. fraction (a.0 *ℤ pos (suc b.1) -ℤ b.0 *ℤ pos (suc a.1)) (pos (suc a.1 * suc b.1));
  mul = λ a b. fraction (a.0 *ℤ b.0) (pos (suc a.1 * suc b.1));
  div = λ a b. fraction (a.0 *ℤ pos (suc b.1)) (pos (suc a.1) *ℤ b.0);
  neg = λ a. (neg a.0, a.1);
  eq = λ a b. eqb_ℤ a.0 b.0 && a.1 == b.1;
}

times_one : (n : ℤ) → n ≡ n *ℤ pos 1
times_one n = eq_of_parts _ _ (ground (arith, *ℤ-pos_parts n 1))

fraction_whole :
    (n : ℤ) (d : ℕ)
    → 0 < d
    → (k : ℕ) × (0 < k)
      × (n ≡ (fraction n (pos d)).0 *ℤ pos k)
      × (pos d ≡ pos (suc (fraction n (pos d)).1) *ℤ pos k)
fraction_whole n zero h = absurd (omega (arith, h))
fraction_whole n (suc d) h = (1, omega arith, times_one n, times_one (pos (suc d)))

fractions_laws : RatioLaws fractions
fractions_laws = record {
  denom_pos = λ r. (refl, omega arith);
  ratio_reduces = fraction_whole;
  eq_denom = λ x y h. ground (arith, h);
}

-- Five halves of a half-turn are one half.
new_phase_example :
    (p : Phase Fraction) × (new_phase fractions (pos 5, 1) ≡ some p)
    × InRange fractions_laws p.r
    × SameAngle fractions_laws p.r (pos 5, 1)
    × ((q : Fraction)
        → InRange fractions_laws q
        → SameAngle fractions_laws p.r q
        → p.r.0 *ℤ pos (suc q.1) ≡ q.0 *ℤ pos (suc p.r.1))
new_phase_example = new_phase_lem fractions_laws (pos 5, 1) (omega arith)

half_InRange : InRange fractions_laws (pos 1, 1)
half_InRange = ground (arith, neg_parts (pos 2))

fractions_eq_parts :
    (x y : Fraction)
    → x.0 ≡ y.0
    → pos (suc x.1) ≡ pos (suc y.1)
    → eqb_ℤ x.0 y.0 && x.1 == y.1 ≡ true
fractions_eq_parts x y e h = ground (arith, e, h)

-- 1 and 2 have no common factor.
half_factor : (k a : ℕ) → 1 ≡ a * k → k ≡ 1
half_factor zero a e = omega (arith, e)
half_factor (suc zero) a e = refl
half_factor (suc (suc k)) zero e = omega (arith, e)
half_factor (suc (suc k)) (suc a) e = omega (arith, e)

half-Coprime : Coprime (pos 1) 2
half-Coprime k a b e h = half_factor k (pos_part a) (ap pos_part e ∙ (*ℤ-pos_parts a k).0)

is_clifford_phase_example :
    (is_clifford_phase fractions (record { r = (pos 1, 1) })
      ≡ is_pauli_phase fractions (record { r = (pos 1, 1) }))
    × (is_proper_clifford_phase fractions (record { r = (pos 1, 1) }) ≡ true)
    × (is_proper_clifford_phase fractions (record { r = (pos 1, 1) })
          && is_clifford_phase fractions (record { r = (pos 1, 1) })
        ≡ false)
is_clifford_phase_example =
    is_clifford_phase_lem fractions_laws fractions_eq_parts (record { r = (pos 1, 1) }) half_InRange
      half-Coprime

-- 3 and 8 have no common factor.
coprime_factor : (k a b : ℕ) → 3 ≡ a * k → 8 ≡ b * k → k ≡ 1
coprime_factor zero a b e h = omega (arith, e)
coprime_factor (suc zero) a b e h = refl
coprime_factor (suc (suc zero)) a b e h = omega (arith, e)
coprime_factor (suc (suc (suc zero))) a b e h = omega (arith, h)
coprime_factor (suc (suc (suc (suc k)))) zero b e h = omega (arith, e)
coprime_factor (suc (suc (suc (suc k)))) (suc a) b e h = ground (arith, e)

three_eighths-Coprime : Coprime (pos 3) 8
three_eighths-Coprime k a b e h =
    coprime_factor k (pos_part a) b (ground (arith, ap pos_part e, *ℤ-pos_parts a k)) h

limit_denominator_example :
    (5 ≤ 1 → limit_denominator fractions (pos 3, 7) (pos 5) ≡ none)
    × (1 < 5 → 8 ≤ 5 → limit_denominator fractions (pos 3, 7) (pos 5) ≡ some (pos 3, 7))
    × (1 < 5
        → 5 < 8
        → (p : ℤ) × (q : ℕ) × (limit_denominator fractions (pos 3, 7) (pos 5)
            ≡ some (fraction p (pos q)))
          × Limits (pos 3) 8 5 p q)
limit_denominator_example =
    limit_denominator_lem fractions (pos 3, 7) 8 5 refl three_eighths-Coprime
