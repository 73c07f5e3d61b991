-- ===== src/Phase/Integers.antt =====
-- Laws of integers and of `rem_euclid`, for phases.
use quizx.Prelude.{ℕ, zero, suc, ◌+◌, ◌*◌, ◌/◌, ◌≤◌, ◌<◌, ◌≡◌, ap, arith}
use native.Mathlib.Nat
use quizx.Prelude.Int.{
  ℤ, pos, negsuc, pos_part, neg_part, sub_ℕ, ◌+ℤ◌, ◌-ℤ◌, ◌*ℤ◌, rem_euclid, eq_of_parts, +ℤ_parts,
  -ℤ_parts, int_laws,
}

pub *ℤ-pos_parts :
    (a : ℤ) (k : ℕ)
    → (pos_part (a *ℤ pos k) ≡ pos_part a * k) × (neg_part (a *ℤ pos k) ≡ neg_part a * k)
unfolding ◌*ℤ◌
*ℤ-pos_parts (pos n) k = ground arith
*ℤ-pos_parts (negsuc n) k = ground arith

-- The multiple of m that `rem_euclid` takes away.
abbrev pub turns : ℤ → ℕ → ℤ
turns (pos n) m = sub_ℕ 0 (n / m)
turns (negsuc n) m = pos (n / m + 1)

pub rem_euclid-lt : (a : ℤ) (m : ℕ) → 0 < m → rem_euclid a m < m
rem_euclid-lt (pos n) m h = Nat.mod-lt n h
rem_euclid-lt (negsuc n) m h = ground (arith, Nat.mod-lt n h)

pub rem_euclid-turns : (a : ℤ) (m : ℕ) → 0 < m → pos (rem_euclid a m) ≡ a +ℤ turns a m *ℤ pos m
rem_euclid-turns (pos n) m h = eq_of_parts _ _ (
    ground (
      arith,
      Nat.mod-lt n h,
      Nat.div-add-mod n m,
      *ℤ-pos_parts (turns (pos n) m) m,
      +ℤ_parts (pos n) (turns (pos n) m *ℤ pos m),
      Nat.mul_comm m (n / m),
    ))
rem_euclid-turns (negsuc n) m h = eq_of_parts _ _ (
    ground (
      arith,
      Nat.mod-lt n h,
      Nat.div-add-mod n m,
      *ℤ-pos_parts (turns (negsuc n) m) m,
      +ℤ_parts (negsuc n) (turns (negsuc n) m *ℤ pos m),
      Nat.mul_comm m (n / m),
    ))

pub pred-*ℤ : (t : ℤ) (m : ℕ) → (t -ℤ pos 1) *ℤ pos m ≡ t *ℤ pos m -ℤ pos m
pred-*ℤ t m = eq_of_parts _ _ (
    ground (
      arith,
      ap (λ x. x * m) (-ℤ_parts t (pos 1)),
      *ℤ-pos_parts t m,
      *ℤ-pos_parts (t -ℤ pos 1) m,
      -ℤ_parts (t *ℤ pos m) (pos m),
    ))

pub +ℤ--ℤ : (a b c : ℤ) → a +ℤ (b -ℤ c) ≡ a +ℤ b -ℤ c
+ℤ--ℤ a b c = grind int_laws

pub le_of_mul : (a b k : ℕ) → 0 < k → (a * k ≤ b * k → a ≤ b) × (a < b → a * k < b * k)
le_of_mul a b k h = (λ l. Nat.le_of_mul-le-mul_right l h, λ l. Nat.mul-lt-mul_of_pos_right l h)

pub unit_factor : (a k : ℕ) → a * k ≡ 1 → k ≡ 1
unit_factor a zero e = ground arith
unit_factor zero (suc k) e = ground arith
unit_factor (suc a) (suc k) e = ground (arith, Nat.mul-suc (suc a) k)

pub *ℤ-pos_assoc : (a : ℤ) (j k : ℕ) → a *ℤ pos j *ℤ pos k ≡ a *ℤ pos (j * k)
*ℤ-pos_assoc a j k = eq_of_parts _ _ (
    ground (
      arith,
      *ℤ-pos_parts a j,
      *ℤ-pos_parts (a *ℤ pos j) k,
      *ℤ-pos_parts a (j * k),
      Nat.mul_assoc (pos_part a) j k,
      Nat.mul_assoc (neg_part a) j k,
    ))

pub +ℤ-zero : (a : ℤ) (m : ℕ) → a ≡ a +ℤ pos 0 *ℤ pos m
+ℤ-zero a m = eq_of_parts _ _ (ground (arith, +ℤ_parts a (pos 0 *ℤ pos m), *ℤ-pos_parts (pos 0) m))

pub +ℤ-*ℤ-pos : (a b : ℤ) (m : ℕ) → (a +ℤ b) *ℤ pos m ≡ a *ℤ pos m +ℤ b *ℤ pos m
+ℤ-*ℤ-pos a b m = eq_of_parts _ _ (
    ground (
      arith,
      ap (λ x. x * m) (+ℤ_parts a b),
      *ℤ-pos_parts a m,
      *ℤ-pos_parts b m,
      *ℤ-pos_parts (a +ℤ b) m,
      +ℤ_parts (a *ℤ pos m) (b *ℤ pos m),
    ))
