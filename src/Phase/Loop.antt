-- ===== src/Phase/Loop.antt =====
-- quizx/src/phase/utils.rs: the loop of limit_denominator ends with its invariant.
-- result is a fraction in lowest terms with a small denominator.
use quizx.Prelude.{
  ℕ, zero, suc, ◌+◌, ◌-◌, ◌*◌, ◌/◌, ◌%◌, ◌≤◌, ◌<◌, ◌≡◌, refl, sym, ap, ◌∙◌, ◌⊎◌, inl, inr, Option,
  some, arith, ltb, leb, Bool-cases,
}
use native.Mathlib.Nat
use quizx.Prelude.Int.{
  ℤ, pos, pos_part, neg_part, ◌*ℤ◌, rem_euclid, eq_of_parts, +ℤ_parts, -ℤ_parts,
}
use quizx.Phase.Integers.{*ℤ-pos_parts, unit_factor, rem_euclid-lt}
use quizx.Phase.Limit.{
  div_floor, div_floor_by, Bounds, next_bounds, bounds_loop, choose_bound, first_bounds,
}
use quizx.Phase.Convergents.{
  pos-*ℤ, *ℤ_comm, pos--ℤ, div_floor-pos, denom_next, loop_step, +ℤ-zero', first_denom, first_numer,
  first_rem, Neighbours-next, numer_eq-next, denom_eq-next, divided, Coprime, Neighbours, state,
  next_numer, Inv,
}

-- The loop stops at a state that keeps the invariant, before the denominator gets to zero.
abbrev pub Stops : ℤ → ℕ → ℕ → Option Bounds → Type 0
Stops n d m o =
    (x y : ℕ) × (p0 : ℤ) × (q0 : ℕ) × (p1 : ℤ) × (q1 : ℕ) × (o ≡ some (state x y p0 q0 p1 q1))
    × (0 < y)
    × (m < q0 + x / y * q1)
    × Inv n d m x y p0 q0 p1 q1

pub denom-pos :
    (n : ℤ) (d m x y : ℕ) (p0 : ℤ) (q0 : ℕ) (p1 : ℤ) (q1 : ℕ)
    → Coprime n d
    → m < d
    → Inv n d m x y p0 q0 p1 q1
    → 0 < y
denom-pos n d m x (suc y) p0 q0 p1 q1 coprime large inv = omega arith
denom-pos n d m x zero p0 q0 p1 q1 coprime large inv = absurd (
    ground (
      arith,
      coprime x p1 q1 (inv.numer_eq ∙ sym (+ℤ-zero' (p1 *ℤ pos x) p0))
          (ground (arith, inv.denom_eq)),
      inv.denom_eq,
      inv.last_le,
    ))

pub quotient_pos : (x y : ℕ) → 0 < y → y < x → 0 < x / y
quotient_pos x y h less = ground (arith, Nat.div-add-mod x y, Nat.mod-lt x h)

pub Inv-next :
    (n : ℤ) (d m x y : ℕ) (p0 : ℤ) (q0 : ℕ) (p1 : ℤ) (q1 : ℕ)
    → 0 < y
    → q0 + x / y * q1 ≤ m
    → Inv n d m x y p0 q0 p1 q1
    → Inv n d m y (x % y) p1 q1 (next_numer p0 (x / y) p1) (q0 + x / y * q1)
Inv-next n d m x y p0 q0 p1 q1 h le inv = record {
  smaller = Nat.mod-lt x h;
  first_le = inv.last_le;
  last_pos = ground (arith, Nat.mul-pos (quotient_pos x y h inv.smaller) inv.last_pos);
  last_le = le;
  denom_eq = inv.denom_eq ∙ denom_eq-next q0 q1 x y (x / y) (x % y) (divided x y);
  numer_eq = inv.numer_eq ∙ sym (numer_eq-next p0 p1 x y (x / y) (x % y) (divided x y));
  neighbours = Neighbours-next p0 q0 p1 q1 (x / y) inv.neighbours;
}

pub bounds_loop-Stops :
    (fuel : ℕ) (n : ℤ) (d m x y : ℕ) (p0 : ℤ) (q0 : ℕ) (p1 : ℤ) (q1 : ℕ)
    → Coprime n d
    → m < d
    → y < fuel
    → Inv n d m x y p0 q0 p1 q1
    → Stops n d m (bounds_loop fuel (pos m) (state x y p0 q0 p1 q1))
bounds_loop-Stops zero n d m x y p0 q0 p1 q1 coprime large enough inv = absurd (omega arith)
bounds_loop-Stops (suc fuel) n d m x y p0 q0 p1 q1 coprime large enough inv =
    let y_pos = denom-pos n d m x y p0 q0 p1 q1 coprime large inv in
    rw (loop_step fuel m x y p0 q0 p1 q1 y_pos) (elim (Bool-cases (ltb m (q0 + x / y * q1))) [
      | inl e ↦ rw e (x, y, p0, q0, p1, q1, refl, y_pos, ground (arith, e), inv)
      | inr e ↦ rw e (
          bounds_loop-Stops fuel n d m y (x % y) p1 q1 (next_numer p0 (x / y) p1) (q0 + x / y * q1)
            coprime large (ground (arith, Nat.mod-lt x y_pos))
            (Inv-next n d m x y p0 q0 p1 q1 y_pos (ground (arith, e)) inv))
    ])

pub unit_diff : (u v k : ℕ) → u * k ≡ v * k + 1 → k ≡ 1
unit_diff u v k e = unit_factor (u - v) k (
    omega (arith, e, Nat.mul-sub k u v, Nat.mul_comm k u, Nat.mul_comm k v, Nat.mul_comm k (u - v)))

-- The product with k of a combination of the cofactors.
pub combined :
    (a b k q0 q1 x p : ℕ) → p ≡ a * k → q1 ≡ b * k → (a * q0 + x * b) * k ≡ p * q0 + x * q1
combined a b k q0 q1 x p ep eq = omega (
  arith,
  ap (λ z. z * q0) ep,
  ap (λ z. x * z) eq,
  Nat.add-mul (a * q0) (x * b) k,
  Nat.mul_right_comm a q0 k,
  Nat.mul_assoc x b k,
)

pub Neighbours-Coprime :
    (p0 : ℤ) (q0 : ℕ) (p1 : ℤ) (q1 : ℕ) → Neighbours p0 q0 p1 q1 → Coprime p1 q1
Neighbours-Coprime p0 q0 p1 q1 h k a b ep eq = ground (
  arith,
  h,
  unit_diff (pos_part a * q0 + neg_part p0 * b) (neg_part a * q0 + pos_part p0 * b) k,
  unit_diff (neg_part a * q0 + pos_part p0 * b) (pos_part a * q0 + neg_part p0 * b) k,
  combined (pos_part a) b k q0 q1 (neg_part p0) (pos_part p1)
      (ap pos_part ep ∙ (*ℤ-pos_parts a k).0) eq,
  combined (neg_part a) b k q0 q1 (pos_part p0) (neg_part p1)
      (ap neg_part ep ∙ (*ℤ-pos_parts a k).1) eq,
  *ℤ-pos_parts p1 q0,
  *ℤ-pos_parts p0 q1,
  +ℤ_parts (p0 *ℤ pos q1) (pos 1),
  +ℤ_parts (p1 *ℤ pos q0) (pos 1),
)

pub first_step :
    (fuel : ℕ) (n : ℤ) (d m : ℕ)
    → 0 < d
    → 0 < m
    → bounds_loop (suc fuel) (pos m) (first_bounds n (pos d))
      ≡ bounds_loop fuel (pos m) (state d (rem_euclid n d) (pos 1) 0 (div_floor_by n d) 1)
unfolding bounds_loop first_bounds next_bounds div_floor
first_step fuel n zero m h hm = absurd (omega arith)
first_step fuel n (suc d) m h hm =
    rw
      (
        first_denom (div_floor_by n (suc d)),
        first_numer (div_floor_by n (suc d)),
        first_rem n (suc d),
      )
      (ground arith)

pub first_Inv :
    (n : ℤ) (d m : ℕ) → 0 < d → 0 < m → Inv n d m d (rem_euclid n d) (pos 1) 0 (div_floor_by n d) 1
first_Inv n d m h hm = record {
  smaller = rem_euclid-lt n d h;
  first_le = omega arith;
  last_pos = omega arith;
  last_le = hm;
  denom_eq = omega arith;
  numer_eq = eq_of_parts _ _ (
      ground (
        arith,
        first_rem n d h,
        -ℤ_parts n (div_floor_by n d *ℤ pos d),
        *ℤ-pos_parts (pos 1) (rem_euclid n d),
        +ℤ_parts (div_floor_by n d *ℤ pos d) (pos 1 *ℤ pos (rem_euclid n d)),
      ));
  neighbours = inr (
      eq_of_parts _ _ (
        ground (
          arith,
          *ℤ-pos_parts (pos 1) 1,
          *ℤ-pos_parts (div_floor_by n d) 0,
          +ℤ_parts (div_floor_by n d *ℤ pos 0) (pos 1),
        )));
}

pub choose_bound_step :
    (d m x y : ℕ) (p0 : ℤ) (q0 : ℕ) (p1 : ℤ) (q1 : ℕ)
    → q0 ≤ m
    → 0 < q1
    → let k = (m - q0) / q1 in
      ((choose_bound (pos d) (pos m) (state x y p0 q0 p1 q1) ≡ some (p1, pos q1))
        × (2 * y * (q0 + k * q1) ≤ d))
      ⊎ ((choose_bound (pos d) (pos m) (state x y p0 q0 p1 q1)
            ≡ some (next_numer p0 k p1, pos (q0 + k * q1)))
          × (d < 2 * y * (q0 + k * q1)))
unfolding choose_bound
choose_bound_step d m x y p0 q0 p1 q1 le h =
    rw
      (
        pos--ℤ m q0 le,
        div_floor-pos (m - q0) q1 h,
        *ℤ_comm ((m - q0) / q1) p1,
        denom_next q0 ((m - q0) / q1) q1,
        pos-*ℤ 2 y,
        pos-*ℤ (2 * y) (q0 + (m - q0) / q1 * q1),
      )
      (elim (Bool-cases (leb (2 * y * (q0 + (m - q0) / q1 * q1)) d)) [
        | inl e ↦ inl (ground (arith, e), ground (arith, e))
        | inr e ↦ inr (ground (arith, e), ground (arith, e))
      ])
