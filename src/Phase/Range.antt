-- ===== src/Phase/Range.antt =====
-- `Phase::normalize` of quizx/src/phase.rs: it ends, in the interval (-1, 1], at the same angle.
use quizx.Prelude.{
  ℕ, suc, ◌*◌, ◌^◌, ◌<◌, ◌≡◌, refl, sym, ap, ◌∙◌, ◌⊎◌, ◌&&◌, some, inl, inr, arith, if◌then◌else◌,
  Bool-cases,
}
use native.Mathlib.Nat
use quizx.Prelude.Int.{
  ℤ, pos, pos_part, neg_part, ◌+ℤ◌, ◌-ℤ◌, ◌*ℤ◌, neg, ◌≤ℤ◌, ◌<ℤ◌, ltb_ℤ, leb_ℤ, rem_euclid,
  eq_of_parts, -ℤ_parts, neg_parts,
}
use quizx.Phase.Integers.{
  *ℤ-pos_parts, le_of_mul, *ℤ-pos_assoc, +ℤ-zero, +ℤ-*ℤ-pos, +ℤ--ℤ, pred-*ℤ, rem_euclid-lt,
  rem_euclid-turns, turns,
}
use quizx.Phase.{RatioOps, Phase, normalize_from, new_phase}
use quizx.Phase.Rationals.{twice_i64_lem, Within-*ℤ, no_turn, Within, RatioLaws}

module _ {R : Type 0} {ops : RatioOps R} (laws : RatioLaws ops) where
  -- The fraction lies in (-1, 1].
  abbrev pub InRange : R → Type 0
  InRange r = (neg (ops.denom r) <ℤ ops.numer r) × (ops.numer r ≤ℤ ops.denom r)

  -- x = y + 2 k for an integer k: the two are the same angle.
  abbrev pub SameAngle : R → R → Type 0
  SameAngle x y =
      (k : ℤ) × (ops.numer x *ℤ pos (pos_part (ops.denom y))
        ≡ (ops.numer y +ℤ k *ℤ pos (2 * pos_part (ops.denom y))) *ℤ pos (pos_part (ops.denom x)))

  normalize-InRange : (fuel : ℕ) (r : R) → InRange r → normalize_from ops (suc fuel) r ≡ some r
  unfolding normalize_from
  normalize-InRange fuel r h = ground (arith, neg_parts (ops.denom r))

  -- The numerator after `rem_euclid` and the subtraction.
  abbrev shifted : ℤ → ℕ → ℤ
  shifted n d =
      let n1 = pos (rem_euclid n (2 * d)) in if ltb_ℤ (pos d) n1 then n1 -ℤ pos (2 * d) else n1

  abbrev shift_turns : ℤ → ℕ → ℤ
  shift_turns n d =
      let k = turns n (2 * d) in
      if ltb_ℤ (pos d) (pos (rem_euclid n (2 * d))) then k -ℤ pos 1 else k

  shifted-turns : (n : ℤ) (d : ℕ) → 0 < d → shifted n d ≡ n +ℤ shift_turns n d *ℤ pos (2 * d)
  shifted-turns n d h = elim (Bool-cases (ltb_ℤ (pos d) (pos (rem_euclid n (2 * d))))) [
    | inl e ↦
        rw
          (
            e,
            pred-*ℤ (turns n (2 * d)) (2 * d),
            +ℤ--ℤ n (turns n (2 * d) *ℤ pos (2 * d)) (pos (2 * d)),
          )
          (ap (λ x. x -ℤ pos (2 * d)) once)
    | inr e ↦ rw e once
  ]
    where
      once : pos (rem_euclid n (2 * d)) ≡ n +ℤ turns n (2 * d) *ℤ pos (2 * d)
      once = rem_euclid-turns n (2 * d) (omega arith)

  shifted-range : (n : ℤ) (d : ℕ) → 0 < d → (neg (pos d) <ℤ shifted n d) × (shifted n d ≤ℤ pos d)
  shifted-range n d h = ground (
    arith,
    rem_euclid-lt n (2 * d) (omega arith),
    neg_parts (pos d),
    -ℤ_parts (pos (rem_euclid n (2 * d))) (pos (2 * d)),
  )

  pub denom_eq : (r : R) → ops.denom r ≡ pos (pos_part (ops.denom r))
  denom_eq r = eq_of_parts _ _ (ground (arith, laws.denom_pos r))

  ratio-InRange :
      (n : ℤ) (d : ℕ) → 0 < d → neg (pos d) <ℤ n → n ≤ℤ pos d → InRange (ops.ratio n (pos d))
  ratio-InRange n d h low high =
      let (k, k_pos, en, ed) = laws.ratio_reduces n d h in
      let n1 = ops.numer (ops.ratio n (pos d)) in
      let d1 = ops.denom (ops.ratio n (pos d)) in
      ground (
        arith,
        neg_parts d1,
        neg_parts (pos d),
        laws.denom_pos (ops.ratio n (pos d)),
        *ℤ-pos_parts n1 k,
        *ℤ-pos_parts d1 k,
        ap pos_part en,
        ap neg_part en,
        ap pos_part ed,
        le_of_mul (pos_part d1) (neg_part n1) k k_pos,
        le_of_mul (pos_part n1) (pos_part d1) k k_pos,
      )

  ratio-SameAngle :
      (n t : ℤ) (r : R)
      → n ≡ ops.numer r +ℤ t *ℤ pos (2 * pos_part (ops.denom r))
      → SameAngle (ops.ratio n (pos (pos_part (ops.denom r)))) r
  ratio-SameAngle n t r e =
      let d = pos_part (ops.denom r) in
      let (k, k_pos, en, ed) = laws.ratio_reduces n d (laws.denom_pos r).1 in
      let n1 = ops.numer (ops.ratio n (pos d)) in
      let d1 = pos_part (ops.denom (ops.ratio n (pos d))) in
      let widths : d ≡ k * d1 = ground (
        arith,
        ap pos_part ed,
        *ℤ-pos_parts (ops.denom (ops.ratio n (pos d))) k,
        Nat.mul_comm k d1,
      ) in
      (
        t,
        ap (λ x. n1 *ℤ pos x) widths
            ∙ sym (*ℤ-pos_assoc n1 k d1)
            ∙ ap (λ x. x *ℤ pos d1) (sym en ∙ e),
      )

  SameAngle-refl : (r : R) → SameAngle r r
  SameAngle-refl r = (
    pos 0,
    ap (λ x. x *ℤ pos (pos_part (ops.denom r)))
        (+ℤ-zero (ops.numer r) (2 * pos_part (ops.denom r))),
  )

  normalize_step :
      (fuel : ℕ) (r : R)
      → pos_part (ops.denom r) < 2 ^ 62
      → InRange r
        ⊎ (normalize_from ops (suc fuel) r
            ≡ normalize_from ops fuel (
                ops.ratio
                  (shifted (ops.numer r) (pos_part (ops.denom r)))
                  (pos (pos_part (ops.denom r)))))
  unfolding normalize_from
  normalize_step fuel r small =
      elim (Bool-cases
        (ltb_ℤ (neg (ops.denom r)) (ops.numer r) && leb_ℤ (ops.numer r) (ops.denom r))) [
          | inl e ↦ inl (ground (arith, e))
          | inr e ↦ inr (rw (e, denom_eq r, twice_i64_lem (pos_part (ops.denom r)) small) refl)
        ]

  -- normalize returns, for a denominator below 2^62 and any fuel of at least two rounds, a phase in
  -- the interval (-1, 1] that differs by a multiple of 2.
  normalize_from_lem :
      (fuel : ℕ) (r : R)
      → pos_part (ops.denom r) < 2 ^ 62
      → (r1 : R) × (normalize_from ops (suc (suc fuel)) r ≡ some r1) × InRange r1 × SameAngle r1 r
  normalize_from_lem fuel r small = elim (normalize_step (suc fuel) r small) [
    | inl inside ↦ (r, normalize-InRange (suc fuel) r inside, inside, SameAngle-refl r)
    | inr step ↦
        let d = pos_part (ops.denom r) in
        let d_pos = (laws.denom_pos r).1 in
        let n = shifted (ops.numer r) d in
        let (low, high) = shifted-range (ops.numer r) d d_pos in
        let inside = ratio-InRange n d d_pos low high in
        (
          ops.ratio n (pos d),
          step ∙ normalize-InRange fuel (ops.ratio n (pos d)) inside,
          inside,
          ratio-SameAngle n (shift_turns (ops.numer r) d) r (shifted-turns (ops.numer r) d d_pos),
        )
  ]

  pub InRange-Within : (r : R) → InRange r → Within (ops.numer r) (pos_part (ops.denom r))
  InRange-Within r h = ground (arith, neg_parts (ops.denom r), laws.denom_pos r)

  -- An angle has one phase in (-1, 1].
  SameAngle-unique :
      (x y : R)
      → InRange x
      → InRange y
      → SameAngle x y
      → ops.numer x *ℤ ops.denom y ≡ ops.numer y *ℤ ops.denom x
  SameAngle-unique x y hx hy (k, e) =
      let dx = pos_part (ops.denom x) in
      let dy = pos_part (ops.denom y) in
      let a = ops.numer x in
      let b = ops.numer y in
      let flat : a *ℤ pos dy ≡ b *ℤ pos dx +ℤ k *ℤ pos (2 * (dx * dy)) =
        e
        ∙ +ℤ-*ℤ-pos b (k *ℤ pos (2 * dy)) dx
        ∙ ap (λ z. b *ℤ pos dx +ℤ z) (*ℤ-pos_assoc k (2 * dy) dx)
        ∙ ap (λ m. b *ℤ pos dx +ℤ k *ℤ pos m) (omega arith) in
      rw (denom_eq x, denom_eq y)
        (no_turn (a *ℤ pos dy) (b *ℤ pos dx) k (dx * dy) flat
          (Within-*ℤ a dx dy (laws.denom_pos y).1 (InRange-Within x hx))
          (rw (Nat.mul_comm dx dy) (Within-*ℤ b dy dx (laws.denom_pos x).1 (InRange-Within y hy))))

  -- Where the rational numbers have the laws above, `Phase::new` of a fraction whose denominator is
  -- below 2^62 returns a phase in the interval (-1, 1]
  -- that differs from the fraction by a multiple of 2, and every fraction in the interval at the angle
  -- of that phase is equal to it.
  pub new_phase_lem :
      (r : R)
      → pos_part (ops.denom r) < 2 ^ 62
      → (p : Phase R) × (new_phase ops r ≡ some p)
        × InRange p.r
        × SameAngle p.r r
        × ((q : R)
            → InRange q
            → SameAngle p.r q
            → ops.numer p.r *ℤ ops.denom q ≡ ops.numer q *ℤ ops.denom p.r)
  unfolding new_phase
  new_phase_lem r small =
      let (r1, e, inside, same) = normalize_from_lem 0 r small in
      (record { r = r1 }, rw e refl, inside, same, λ q. SameAngle-unique r1 q inside)
