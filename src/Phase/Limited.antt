-- ===== src/Phase/Limited.antt =====
-- `limit_denominator` of quizx/src/phase/utils.rs: the loop ends without a division by zero, and the
-- result is a fraction in lowest terms with a small denominator.
use quizx.Prelude.{
  ℕ, suc, ◌+◌, ◌-◌, ◌*◌, ◌/◌, ◌≤◌, ◌<◌, ◌≡◌, sym, ap, ◌∙◌, ◌⊎◌, inl, inr, none, some, arith,
}
use native.Mathlib.Nat
use quizx.Prelude.Int.{
  ℤ, pos, pos_part, neg_part, ◌+ℤ◌, ◌-ℤ◌, ◌*ℤ◌, rem_euclid, nat_abs, eq_of_parts, +ℤ_parts,
  -ℤ_parts,
}
use quizx.Phase.Integers.{*ℤ-pos_parts, *ℤ-pos_assoc, +ℤ-*ℤ-pos, rem_euclid-lt}
use quizx.Phase.Limit.{div_floor_by, limit_parts, limit_denominator}
use quizx.Phase.{RatioOps}
use quizx.Phase.Convergents.{
  Neighbours-next, numer_eq-next, denom_eq-next, divided, Coprime, Neighbours, next_numer, Inv,
}
use quizx.Phase.Loop.{
  bounds_loop-Stops, Neighbours-Coprime, first_step, first_Inv, choose_bound_step,
}

-- n q1 and p1 d differ by the difference of p0 q1 and p1 q0, times y.
products :
    (n : ℤ) (d x y : ℕ) (p0 : ℤ) (q0 : ℕ) (p1 : ℤ) (q1 : ℕ)
    → n ≡ p1 *ℤ pos x +ℤ p0 *ℤ pos y
    → d ≡ q1 * x + q0 * y
    → n *ℤ pos q1 +ℤ p1 *ℤ pos q0 *ℤ pos y ≡ p1 *ℤ pos d +ℤ p0 *ℤ pos q1 *ℤ pos y
products n d x y p0 q0 p1 q1 en ed =
    rw (en, ed)
      (eq_of_parts _ _ (
        ground (
          arith,
          +ℤ-*ℤ-pos (p1 *ℤ pos x) (p0 *ℤ pos y) q1,
          *ℤ-pos_assoc p1 x q1,
          *ℤ-pos_assoc p0 y q1,
          *ℤ-pos_assoc p1 q0 y,
          *ℤ-pos_assoc p0 q1 y,
          Nat.mul_comm x q1,
          Nat.mul_comm y q1,
          *ℤ-pos_parts p1 (q1 * x),
          *ℤ-pos_parts p1 (q0 * y),
          *ℤ-pos_parts p1 (q1 * x + q0 * y),
          Nat.mul-add (pos_part p1) (q1 * x) (q0 * y),
          Nat.mul-add (neg_part p1) (q1 * x) (q0 * y),
          +ℤ_parts (p1 *ℤ pos (q1 * x)) (p0 *ℤ pos (q1 * y)),
          +ℤ_parts ((p1 *ℤ pos x +ℤ p0 *ℤ pos y) *ℤ pos q1) (p1 *ℤ pos q0 *ℤ pos y),
          +ℤ_parts (p1 *ℤ pos (q1 * x + q0 * y)) (p0 *ℤ pos q1 *ℤ pos y),
        )))

-- A bound q1 with its neighbour q0 is at the distance y / (d q1) from n / d.
distance-Neighbours :
    (n : ℤ) (d x y : ℕ) (p0 : ℤ) (q0 : ℕ) (p1 : ℤ) (q1 : ℕ)
    → n ≡ p1 *ℤ pos x +ℤ p0 *ℤ pos y
    → d ≡ q1 * x + q0 * y
    → Neighbours p0 q0 p1 q1
    → nat_abs (n *ℤ pos q1 -ℤ p1 *ℤ pos d) ≡ y
distance-Neighbours n d x y p0 q0 p1 q1 en ed h = ground (
  arith,
  products n d x y p0 q0 p1 q1 en ed,
  scaled h,
  -ℤ_parts (n *ℤ pos q1) (p1 *ℤ pos d),
  +ℤ_parts (n *ℤ pos q1) (p1 *ℤ pos q0 *ℤ pos y),
  +ℤ_parts (p1 *ℤ pos d) (p0 *ℤ pos q1 *ℤ pos y),
  +ℤ_parts (p0 *ℤ pos q1 *ℤ pos y) (pos 1 *ℤ pos y),
  +ℤ_parts (p1 *ℤ pos q0 *ℤ pos y) (pos 1 *ℤ pos y),
  *ℤ-pos_parts (pos 1) y,
)
  where
    scaled :
        Neighbours p0 q0 p1 q1
        → (p1 *ℤ pos q0 *ℤ pos y ≡ p0 *ℤ pos q1 *ℤ pos y +ℤ pos 1 *ℤ pos y)
          ⊎ (p0 *ℤ pos q1 *ℤ pos y ≡ p1 *ℤ pos q0 *ℤ pos y +ℤ pos 1 *ℤ pos y)
    scaled (inl e) = inl (ap (λ z. z *ℤ pos y) e ∙ +ℤ-*ℤ-pos (p0 *ℤ pos q1) (pos 1) y)
    scaled (inr e) = inr (ap (λ z. z *ℤ pos y) e ∙ +ℤ-*ℤ-pos (p1 *ℤ pos q0) (pos 1) y)

semi_pos : (q0 q1 m : ℕ) → 0 < q1 → q1 ≤ m → 0 < q0 + (m - q0) / q1 * q1
semi_pos q0 q1 m h le = ground (arith, divided (m - q0) q1, Nat.mod-lt (m - q0) h)

-- The fraction p / q is in lowest terms with a denominator of at most m, and for some r with
-- q + r > m its distance from n / d is at most 1 / (2 q r).
abbrev pub Limits : ℤ → ℕ → ℕ → ℤ → ℕ → Type 0
Limits n d m p q =
    (0 < q)
    × (q ≤ m)
    × Coprime p q
    × ((r : ℕ) × (m < q + r) × (2 * (nat_abs (n *ℤ pos q -ℤ p *ℤ pos d) * r) ≤ d))

Limits-last :
    (n : ℤ) (d m x y : ℕ) (p0 : ℤ) (q0 : ℕ) (p1 : ℤ) (q1 : ℕ)
    → Inv n d m x y p0 q0 p1 q1
    → 2 * y * (q0 + (m - q0) / q1 * q1) ≤ d
    → Limits n d m p1 q1
Limits-last n d m x y p0 q0 p1 q1 inv near = (
  inv.last_pos,
  inv.last_le,
  Neighbours-Coprime p0 q0 p1 q1 inv.neighbours,
  (
    q0 + (m - q0) / q1 * q1,
    ground (arith, divided (m - q0) q1, Nat.mod-lt (m - q0) inv.last_pos),
    rw (distance-Neighbours n d x y p0 q0 p1 q1 inv.numer_eq inv.denom_eq inv.neighbours)
        (omega (arith, near, Nat.mul_assoc 2 y (q0 + (m - q0) / q1 * q1))),
  ),
)

Limits-between :
    (n : ℤ) (d m x y : ℕ) (p0 : ℤ) (q0 : ℕ) (p1 : ℤ) (q1 : ℕ)
    → Inv n d m x y p0 q0 p1 q1
    → m < q0 + x / y * q1
    → let k = (m - q0) / q1 in
      d < 2 * y * (q0 + k * q1) → Limits n d m (next_numer p0 k p1) (q0 + k * q1)
Limits-between n d m x y p0 q0 p1 q1 inv stop far =
    let k = (m - q0) / q1 in
    let q = q0 + k * q1 in
    let r = x - k * y in
    let fits : k * q1 ≤ m - q0 = omega (arith, divided (m - q0) q1) in
    let turns : k ≤ x / y =
      Nat.le_of_lt (Nat.lt_of_mul-lt-mul_right q1 (omega (arith, fits, stop, inv.first_le))) in
    let e : x ≡ k * y + r = omega (arith, Nat.mul-le-mul_right y turns, divided x y) in
    let ed : d ≡ q * y + q1 * r = inv.denom_eq ∙ denom_eq-next q0 q1 x y k r e in
    (
      semi_pos q0 q1 m inv.last_pos inv.last_le,
      omega (arith, fits, inv.first_le),
      Neighbours-Coprime p1 q1 (next_numer p0 k p1) q
          (Neighbours-next p0 q0 p1 q1 k inv.neighbours),
      (
        q1,
        ground (arith, divided (m - q0) q1, Nat.mod-lt (m - q0) inv.last_pos),
        rw
            (distance-Neighbours n d y r p1 q1 (next_numer p0 k p1) q
              (inv.numer_eq ∙ sym (numer_eq-next p0 p1 x y k r e)) ed
              (Neighbours-next p0 q0 p1 q1 k inv.neighbours))
            (omega (arith, ed, far, Nat.mul_comm q1 r, Nat.mul_comm q y, Nat.mul_assoc 2 y q)),
      ),
    )

-- limit_denominator's loop and choice, for a fraction n / d in lowest terms whose denominator is
-- above the limit, and a limit of at least 1: they return, without a division by zero, a fraction in
-- lowest terms with a positive denominator q of at most the limit, whose distance from n / d is at
-- most 1 / (2 q r) for some r with q + r above the limit.
pub limit_parts_lem :
    (n : ℤ) (d m : ℕ)
    → Coprime n d
    → 0 < m
    → m < d
    → (p : ℤ) × (q : ℕ) × (limit_parts (suc (suc d)) n (pos d) (pos m) ≡ some (p, pos q))
      × Limits n d m p q
unfolding limit_parts
limit_parts_lem n d m coprime m_pos large =
    let d_pos : 0 < d = omega arith in
    let (x, y, p0, q0, p1, q1, run, y_pos, stop, inv) =
      bounds_loop-Stops (suc d) n d m d (rem_euclid n d) (pos 1) 0 (div_floor_by n d) 1 coprime
        large (omega (arith, rem_euclid-lt n d d_pos)) (first_Inv n d m d_pos m_pos) in
    let k = (m - q0) / q1 in
    rw (first_step (suc d) n d m d_pos m_pos, run)
      (elim (choose_bound_step d m x y p0 q0 p1 q1 inv.first_le inv.last_pos) [
        | inl (e, near) ↦ (p1, q1, e, Limits-last n d m x y p0 q0 p1 q1 inv near)
        | inr (e, far) ↦
            (next_numer p0 k p1, q0 + k * q1, e, Limits-between n d m x y p0 q0 p1 q1 inv stop far)
      ])

-- limit_denominator of a fraction in lowest terms: it panics exactly at the limits 0 and 1, returns
-- the fraction where its denominator is within the limit, and else a fraction in lowest terms with a
-- positive denominator q of at most the limit m, at a distance of at most 1 / (2 q r) for some r with
-- q + r > m.
pub limit_denominator_lem :
    {R : Type 0} (ops : RatioOps R) (r : R) (d m : ℕ)
    → ops.denom r ≡ pos d
    → Coprime (ops.numer r) d
    → (m ≤ 1 → limit_denominator ops r (pos m) ≡ none)
      × (1 < m → d ≤ m → limit_denominator ops r (pos m) ≡ some r)
      × (1 < m
          → m < d
          → (p : ℤ) × (q : ℕ) × (limit_denominator ops r (pos m) ≡ some (ops.new_raw p (pos q)))
            × Limits (ops.numer r) d m p q)
unfolding limit_denominator
limit_denominator_lem ops r d m e coprime = (
  λ h. ground arith,
  λ h le. rw e (ground arith),
  λ h large.
      let (p, q, run, limits) = limit_parts_lem (ops.numer r) d m coprime (omega arith) large in
      (p, q, rw e (ground (arith, run)), limits),
)
