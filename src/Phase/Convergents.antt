-- ===== src/Phase/Convergents.antt =====
-- quizx/src/phase/utils.rs: one round of the loop of limit_denominator, on the bounds' parts.
-- result is a fraction in lowest terms with a small denominator.
use quizx.Prelude.{
  ℕ, zero, suc, ◌+◌, ◌-◌, ◌*◌, ◌/◌, ◌%◌, ◌≤◌, ◌<◌, ◌≡◌, refl, ap, ◌∙◌, ◌⊎◌, inl, inr, some,
  if◌then◌else◌, arith, ltb,
}
use native.Mathlib.Nat
use quizx.Prelude.Int.{
  ℤ, pos, negsuc, pos_part, neg_part, ◌+ℤ◌, ◌-ℤ◌, ◌*ℤ◌, rem_euclid, eq_of_parts, +ℤ_parts, -ℤ_parts,
}
use quizx.Phase.Integers.{*ℤ-pos_parts, *ℤ-pos_assoc, +ℤ-*ℤ-pos}
use quizx.Phase.Limit.{div_floor, div_floor_by, Bounds, next_bounds, bounds_loop}

-- No number above 1 divides both.
abbrev pub Coprime : ℤ → ℕ → Type 0
Coprime p q = (k : ℕ) (a : ℤ) (b : ℕ) → p ≡ a *ℤ pos k → q ≡ b * k → k ≡ 1

-- p1 q0 and p0 q1 are neighbours.
abbrev pub Neighbours : ℤ → ℕ → ℤ → ℕ → Type 0
Neighbours p0 q0 p1 q1 =
    (p1 *ℤ pos q0 ≡ p0 *ℤ pos q1 +ℤ pos 1) ⊎ (p0 *ℤ pos q1 ≡ p1 *ℤ pos q0 +ℤ pos 1)

-- The bounds after the first round, on the fraction n / d.
abbrev pub state : ℕ → ℕ → ℤ → ℕ → ℤ → ℕ → Bounds
state x y p0 q0 p1 q1 = record {
  numer = pos x;
  denom = pos y;
  numer_0 = p0;
  denom_0 = pos q0;
  numer_1 = p1;
  denom_1 = pos q1;
}

pub record Inv (n : ℤ) (d m : ℕ) (x y : ℕ) (p0 : ℤ) (q0 : ℕ) (p1 : ℤ) (q1 : ℕ) : Type 0 where
  pub smaller : y < x
  pub first_le : q0 ≤ m
  pub last_pos : 0 < q1
  pub last_le : q1 ≤ m
  pub denom_eq : d ≡ q1 * x + q0 * y
  pub numer_eq : n ≡ p1 *ℤ pos x +ℤ p0 *ℤ pos y
  pub neighbours : Neighbours p0 q0 p1 q1

pub pos-+ℤ : (a b : ℕ) → pos a +ℤ pos b ≡ pos (a + b)
unfolding ◌+ℤ◌
pos-+ℤ a b = ground arith

pub pos-*ℤ : (a b : ℕ) → pos a *ℤ pos b ≡ pos (a * b)
unfolding ◌*ℤ◌
pos-*ℤ a b = ground arith

pub *ℤ_comm : (a : ℕ) (b : ℤ) → pos a *ℤ b ≡ b *ℤ pos a
unfolding ◌*ℤ◌
*ℤ_comm a (pos n) = ground (arith, Nat.mul_comm a n)
*ℤ_comm a (negsuc n) = ground (arith, Nat.mul_comm a (suc n))

pub pos--ℤ : (a b : ℕ) → b ≤ a → pos a -ℤ pos b ≡ pos (a - b)
unfolding ◌-ℤ◌
pos--ℤ a b h = ground arith

-- The new bound after one more round.
abbrev pub next_numer : ℤ → ℕ → ℤ → ℤ
next_numer p0 a p1 = p0 +ℤ p1 *ℤ pos a

pub div_floor-pos : (x y : ℕ) → 0 < y → div_floor (pos x) (pos y) ≡ some (pos (x / y))
unfolding div_floor
div_floor-pos x zero h = absurd (omega arith)
div_floor-pos x (suc y) h = refl

pub denom_next : (q0 a q1 : ℕ) → pos q0 +ℤ pos a *ℤ pos q1 ≡ pos (q0 + a * q1)
denom_next q0 a q1 = rw (pos-*ℤ a q1) (pos-+ℤ q0 (a * q1))

pub next_bounds-state :
    (x y : ℕ) (p0 : ℤ) (q0 : ℕ) (p1 : ℤ) (q1 : ℕ)
    → 0 < y
    → next_bounds (state x y p0 q0 p1 q1) (pos (x / y))
      ≡ state y (x % y) p1 q1 (next_numer p0 (x / y) p1) (q0 + x / y * q1)
unfolding next_bounds
next_bounds-state x y p0 q0 p1 q1 h =
    rw (denom_next q0 (x / y) q1, remainder, *ℤ_comm (x / y) p1) refl
  where
    remainder : pos x -ℤ pos (x / y) *ℤ pos y ≡ pos (x % y)
    remainder = rw (pos-*ℤ (x / y) y) (
        pos--ℤ x (x / y * y) (omega (arith, Nat.div-add-mod x y, Nat.mul_comm y (x / y)))
        ∙ ap pos (omega (arith, Nat.div-add-mod x y, Nat.mul_comm y (x / y))))

pub loop_step :
    (fuel m x y : ℕ) (p0 : ℤ) (q0 : ℕ) (p1 : ℤ) (q1 : ℕ)
    → 0 < y
    → bounds_loop (suc fuel) (pos m) (state x y p0 q0 p1 q1) ≡ (
        if ltb m (q0 + x / y * q1)
        then some (state x y p0 q0 p1 q1)
        else bounds_loop fuel
            (pos m)
            (state y (x % y) p1 q1 (next_numer p0 (x / y) p1) (q0 + x / y * q1)))
unfolding bounds_loop
loop_step fuel m x y p0 q0 p1 q1 h =
    rw (div_floor-pos x y h, next_bounds-state x y p0 q0 p1 q1 h, denom_next q0 (x / y) q1)
      (ground arith)

pub +ℤ-zero' : (a b : ℤ) → a ≡ a +ℤ b *ℤ pos 0
+ℤ-zero' a b = eq_of_parts _ _ (ground (arith, +ℤ_parts a (b *ℤ pos 0), *ℤ-pos_parts b 0))

pub first_denom : (a : ℤ) → pos 1 +ℤ a *ℤ pos 0 ≡ pos 1
first_denom a = eq_of_parts _ _ (ground (arith, +ℤ_parts (pos 1) (a *ℤ pos 0), *ℤ-pos_parts a 0))

pub first_numer : (a : ℤ) → pos 0 +ℤ a *ℤ pos 1 ≡ a
first_numer a = eq_of_parts _ _ (ground (arith, +ℤ_parts (pos 0) (a *ℤ pos 1), *ℤ-pos_parts a 1))

pub first_rem : (n : ℤ) (d : ℕ) → 0 < d → n -ℤ div_floor_by n d *ℤ pos d ≡ pos (rem_euclid n d)
first_rem (pos n) d h = eq_of_parts _ _ (
    ground (
      arith,
      -ℤ_parts (pos n) (pos (n / d) *ℤ pos d),
      *ℤ-pos_parts (pos (n / d)) d,
      Nat.div-add-mod n d,
      Nat.mul_comm d (n / d),
    ))
first_rem (negsuc n) d h = eq_of_parts _ _ (
    ground (
      arith,
      -ℤ_parts (negsuc n) (negsuc (n / d) *ℤ pos d),
      *ℤ-pos_parts (negsuc (n / d)) d,
      Nat.div-add-mod n d,
      Nat.mul_comm d (n / d),
      Nat.mod-lt n h,
    ))

-- Both products grow by the same number.
pub crossed :
    (p0 : ℤ) (q0 : ℕ) (p1 : ℤ) (q1 a : ℕ)
    → let t = next_numer p0 a p1 *ℤ pos q1 in
      let u = p1 *ℤ pos (q0 + a * q1) in
      let v = p1 *ℤ pos q0 in
      let w = p0 *ℤ pos q1 in
      pos_part t + neg_part u + neg_part w + pos_part v
      ≡ neg_part t + pos_part u + pos_part w + neg_part v
crossed p0 q0 p1 q1 a = ground (
  arith,
  +ℤ-*ℤ-pos p0 (p1 *ℤ pos a) q1,
  *ℤ-pos_assoc p1 a q1,
  +ℤ_parts (p0 *ℤ pos q1) (p1 *ℤ pos (a * q1)),
  *ℤ-pos_parts p1 (a * q1),
  *ℤ-pos_parts p1 (q0 + a * q1),
  *ℤ-pos_parts p1 q0,
  Nat.mul-add (pos_part p1) q0 (a * q1),
  Nat.mul-add (neg_part p1) q0 (a * q1),
)

pub Neighbours-next :
    (p0 : ℤ) (q0 : ℕ) (p1 : ℤ) (q1 a : ℕ)
    → Neighbours p0 q0 p1 q1
    → Neighbours p1 q1 (next_numer p0 a p1) (q0 + a * q1)
Neighbours-next p0 q0 p1 q1 a (inl e) = inr (
    eq_of_parts _ _ (
      ground (
        arith,
        crossed p0 q0 p1 q1 a,
        ap pos_part e,
        ap neg_part e,
        +ℤ_parts (p0 *ℤ pos q1) (pos 1),
        +ℤ_parts (next_numer p0 a p1 *ℤ pos q1) (pos 1),
      )))
Neighbours-next p0 q0 p1 q1 a (inr e) = inl (
    eq_of_parts _ _ (
      ground (
        arith,
        crossed p0 q0 p1 q1 a,
        ap pos_part e,
        ap neg_part e,
        +ℤ_parts (p1 *ℤ pos q0) (pos 1),
        +ℤ_parts (p1 *ℤ pos (q0 + a * q1)) (pos 1),
      )))

pub numer_eq-next :
    (p0 p1 : ℤ) (x y a r : ℕ)
    → x ≡ a * y + r
    → next_numer p0 a p1 *ℤ pos y +ℤ p1 *ℤ pos r ≡ p1 *ℤ pos x +ℤ p0 *ℤ pos y
numer_eq-next p0 p1 x y a r e = eq_of_parts _ _ (
    ground (
      arith,
      +ℤ-*ℤ-pos p0 (p1 *ℤ pos a) y,
      *ℤ-pos_assoc p1 a y,
      +ℤ_parts (p0 *ℤ pos y) (p1 *ℤ pos (a * y)),
      +ℤ_parts (next_numer p0 a p1 *ℤ pos y) (p1 *ℤ pos r),
      +ℤ_parts (p1 *ℤ pos x) (p0 *ℤ pos y),
      *ℤ-pos_parts p1 (a * y),
      *ℤ-pos_parts p1 r,
      *ℤ-pos_parts p1 x,
      ap (λ z. pos_part p1 * z) e,
      ap (λ z. neg_part p1 * z) e,
      Nat.mul-add (pos_part p1) (a * y) r,
      Nat.mul-add (neg_part p1) (a * y) r,
    ))

pub denom_eq-next :
    (q0 q1 x y a r : ℕ) → x ≡ a * y + r → q1 * x + q0 * y ≡ (q0 + a * q1) * y + q1 * r
denom_eq-next q0 q1 x y a r e = omega (
  arith,
  ap (λ z. q1 * z) e,
  Nat.mul-add q1 (a * y) r,
  Nat.add-mul q0 (a * q1) y,
  Nat.mul_assoc a q1 y,
  Nat.mul_comm a (q1 * y),
  Nat.mul_assoc q1 y a,
  Nat.mul_comm a y,
)

pub divided : (x y : ℕ) → x ≡ x / y * y + x % y
divided x y = omega (arith, Nat.div-add-mod x y, Nat.mul_comm y (x / y))
