-- ===== src/Phase/Clifford.antt =====
-- The tests `is_clifford` and `is_proper_clifford` of quizx/src/phase.rs.
use quizx.Prelude.{◌≡◌, refl, ap, ◌∙◌, ◌⊎◌, true, false, ◌&&◌, inl, inr, arith}
use quizx.Prelude.Int.{ℤ, pos, negsuc, pos_part, neg_part, ◌*ℤ◌, eqb_ℤ, eq_of_parts}
use quizx.Phase.Integers.{*ℤ-pos_parts, unit_factor}
use quizx.Phase.{RatioOps, Phase, is_clifford_phase, is_pauli_phase, is_proper_clifford_phase}
use quizx.Phase.Convergents.{Coprime}
use quizx.Phase.Range.{InRange, InRange-Within, denom_eq}
use quizx.Phase.Rationals.{RatioLaws}

module _ {R : Type 0} {ops : RatioOps R} (laws : RatioLaws ops) where
  -- 1/2 and -1/2 are in lowest terms as they stand.
  halves :
      (n : ℤ)
      → (n ≡ pos 1) ⊎ (n ≡ negsuc 0)
      → (ops.numer (ops.ratio n (pos 2)) ≡ n) × (ops.denom (ops.ratio n (pos 2)) ≡ pos 2)
  halves n h =
      let (k, k_pos, en, ed) = laws.ratio_reduces n 2 (omega arith) in
      let n1 = ops.numer (ops.ratio n (pos 2)) in
      let d1 = ops.denom (ops.ratio n (pos 2)) in
      let one : k ≡ 1 = ground (
        arith,
        ap pos_part en,
        ap neg_part en,
        *ℤ-pos_parts n1 k,
        unit_factor (pos_part n1) k,
        unit_factor (neg_part n1) k,
      ) in
      (
        eq_of_parts _ _ (ground (arith, one, ap pos_part en, ap neg_part en, *ℤ-pos_parts n1 k)),
        eq_of_parts _ _ (ground (arith, one, ap pos_part ed, ap neg_part ed, *ℤ-pos_parts d1 k)),
      )

  -- A fraction of (-1, 1] in lowest terms whose numerator is 0 or its denominator has the denominator 1.
  whole_denom :
      (r : R)
      → Coprime (ops.numer r) (pos_part (ops.denom r))
      → (ops.numer r ≡ pos 0) ⊎ (ops.numer r ≡ ops.denom r)
      → pos_part (ops.denom r) ≡ 1
  whole_denom r h (inl e) =
      let d = pos_part (ops.denom r) in
      h d (pos 0) 1 (e ∙ eq_of_parts _ _ (omega (arith, *ℤ-pos_parts (pos 0) d))) (omega arith)
  whole_denom r h (inr e) =
      let d = pos_part (ops.denom r) in
      let whole : pos d ≡ pos 1 *ℤ pos d =
        eq_of_parts _ _ (omega (arith, *ℤ-pos_parts (pos 1) d)) in
      h d (pos 1) 1 (e ∙ denom_eq laws r ∙ whole) (omega arith)

  -- A fraction of (-1, 1] in lowest terms with the denominator 2 is 1/2 or -1/2.
  half_cases :
      (r : R)
      → InRange laws r
      → Coprime (ops.numer r) (pos_part (ops.denom r))
      → pos_part (ops.denom r) ≡ 2
      → (ops.numer r ≡ pos 1) ⊎ (ops.numer r ≡ negsuc 0)
  half_cases r h lowest two = ground (
    arith,
    InRange-Within laws r h,
    laws.denom_pos r,
    λ (e : ops.numer r ≡ pos 0). whole_denom r lowest (inl e),
    λ (e : ops.numer r ≡ ops.denom r). whole_denom r lowest (inr e),
  )

  clifford_pauli :
      (p : Phase R)
      → InRange laws p.r
      → Coprime (ops.numer p.r) (pos_part (ops.denom p.r))
      → is_clifford_phase ops p ≡ is_pauli_phase ops p
  unfolding is_clifford_phase is_pauli_phase
  clifford_pauli p h lowest = ground (
    arith,
    InRange-Within laws p.r h,
    laws.denom_pos p.r,
    λ (e : ops.numer p.r ≡ pos 0). whole_denom p.r lowest (inl e),
    λ (e : ops.numer p.r ≡ ops.denom p.r). whole_denom p.r lowest (inr e),
  )

  proper_halves :
      (eq_parts : (x y : R)
        → ops.numer x ≡ ops.numer y
        → ops.denom x ≡ ops.denom y
        → ops.eq x y ≡ true)
      → (p : Phase R) → InRange laws p.r
      → Coprime (ops.numer p.r) (pos_part (ops.denom p.r))
      → is_proper_clifford_phase ops p ≡ eqb_ℤ (ops.denom p.r) (pos 2)
  unfolding is_proper_clifford_phase
  proper_halves eq_parts p h lowest =
      let above = ops.ratio (pos 1) (pos 2) in
      let below = ops.ratio (negsuc 0) (pos 2) in
      let (n0, d0) = halves (pos 1) (inl refl) in
      let (n1, d1) = halves (negsuc 0) (inr refl) in
      ground (
        arith,
        n0,
        d0,
        n1,
        d1,
        laws.denom_pos p.r,
        laws.eq_denom p.r above,
        laws.eq_denom p.r below,
        eq_parts p.r above,
        eq_parts p.r below,
        half_cases p.r h lowest,
      )

  never_both :
      (p : Phase R)
      → is_proper_clifford_phase ops p ≡ eqb_ℤ (ops.denom p.r) (pos 2)
      → is_proper_clifford_phase ops p && is_clifford_phase ops p ≡ false
  unfolding is_clifford_phase
  never_both p h = ground (arith, h)

  -- Where the rational numbers have the laws of RatioLaws, and those with equal parts are equal: of the phases in
  -- (-1, 1] in lowest terms, is_clifford holds exactly at those where is_pauli does, is_proper_clifford
  -- exactly at those with the denominator 2, and never both.
  pub is_clifford_phase_lem :
      (eq_parts : (x y : R)
        → ops.numer x ≡ ops.numer y
        → ops.denom x ≡ ops.denom y
        → ops.eq x y ≡ true)
      → (p : Phase R) → InRange laws p.r
      → Coprime (ops.numer p.r) (pos_part (ops.denom p.r))
      → (is_clifford_phase ops p ≡ is_pauli_phase ops p)
        × (is_proper_clifford_phase ops p ≡ eqb_ℤ (ops.denom p.r) (pos 2))
        × (is_proper_clifford_phase ops p && is_clifford_phase ops p ≡ false)
  is_clifford_phase_lem eq_parts p h lowest =
      let proper = proper_halves eq_parts p h lowest in
      (clifford_pauli p h lowest, proper, never_both p proper)
