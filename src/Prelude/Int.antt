-- ===== src/Prelude/Int.antt =====
-- Signed integers over the native numbers, and the wrap-around of `i32`.
use quizx.Prelude.{
  ℕ, suc, ◌+◌, ◌-◌, ◌*◌, ◌/◌, ◌%◌, ◌^◌, ◌≤◌, ◌<◌, ◌≡◌, refl, Bool, arith, Option, none, some, ltb,
  leb, ◌==◌, ◌&&◌, if◌then◌else◌,
}

-- `negsuc n` is -(n + 1).
pub data ℤ : Type 0 where
  pos : ℕ → ℤ
  negsuc : ℕ → ℤ

abbrev pub pos_part : ℤ → ℕ
pos_part (pos n) = n
pos_part (negsuc n) = 0

abbrev pub neg_part : ℤ → ℕ
neg_part (pos n) = 0
neg_part (negsuc n) = suc n

abbrev pub nat_abs : ℤ → ℕ
nat_abs a = pos_part a + neg_part a

-- a - b, as an integer.
abbrev pub sub_ℕ : ℕ → ℕ → ℤ
sub_ℕ a b = if leb b a then pos (a - b) else negsuc (b - a - 1)

infixl 65 ◌+ℤ◌ ◌-ℤ◌
infixl 70 ◌*ℤ◌
infix 50 ◌≤ℤ◌ ◌<ℤ◌
unfoldable pub ◌+ℤ◌ : ℤ → ℤ → ℤ
a +ℤ b = sub_ℕ (pos_part a + pos_part b) (neg_part a + neg_part b)

unfoldable pub ◌-ℤ◌ : ℤ → ℤ → ℤ
a -ℤ b = sub_ℕ (pos_part a + neg_part b) (neg_part a + pos_part b)

unfoldable pub ◌*ℤ◌ : ℤ → ℤ → ℤ
a *ℤ b =
    sub_ℕ (pos_part a * pos_part b + neg_part a * neg_part b)
      (pos_part a * neg_part b + neg_part a * pos_part b)

unfoldable pub neg : ℤ → ℤ
neg a = sub_ℕ (neg_part a) (pos_part a)

abbrev pub ◌≤ℤ◌ : ℤ → ℤ → Type 0
a ≤ℤ b = pos_part a + neg_part b ≤ pos_part b + neg_part a

abbrev pub ◌<ℤ◌ : ℤ → ℤ → Type 0
a <ℤ b = pos_part a + neg_part b < pos_part b + neg_part a

abbrev pub ltb_ℤ : ℤ → ℤ → Bool
ltb_ℤ a b = ltb (pos_part a + neg_part b) (pos_part b + neg_part a)

abbrev pub leb_ℤ : ℤ → ℤ → Bool
leb_ℤ a b = leb (pos_part a + neg_part b) (pos_part b + neg_part a)

abbrev pub min_ℤ : ℤ → ℤ → ℤ
min_ℤ a b = if leb_ℤ a b then a else b

abbrev pub eqb_ℤ : ℤ → ℤ → Bool
eqb_ℤ a b = (pos_part a + neg_part b) == (pos_part b + neg_part a)

-- The remainder of an integer by a positive number, in the range 0 to m - 1 (`rem_euclid`).
abbrev pub rem_euclid : ℤ → ℕ → ℕ
rem_euclid (pos n) m = n % m
rem_euclid (negsuc n) m = m - 1 - n % m

-- Division that rounds towards zero, as Rust's `/`.
abbrev pub div_trunc : ℤ → ℕ → ℤ
div_trunc (pos n) m = pos (n / m)
div_trunc (negsuc n) m = sub_ℕ 0 (suc n / m)

-- The `i32` that has the bits of an integer.
unfoldable pub wrap_i32 : ℤ → ℤ
wrap_i32 a = let r = rem_euclid a (2 ^ 32) in if ltb r (2 ^ 31) then pos r else sub_ℕ r (2 ^ 32)

-- The check for overflow of an `isize` of 64 bits and of an `i32`.
unfoldable pub checked_isize : ℤ → Option ℤ
checked_isize a = if ltb (pos_part a) (2 ^ 63) && leb (neg_part a) (2 ^ 63) then some a else none

unfoldable pub checked_i32 : ℤ → Option ℤ
checked_i32 a = if ltb (pos_part a) (2 ^ 31) && leb (neg_part a) (2 ^ 31) then some a else none

-- One lemma for each operation lets `omega` work with the operations shut, at any depth.
pub +ℤ_parts :
    (a b : ℤ)
    → pos_part (a +ℤ b) + neg_part a + neg_part b ≡ neg_part (a +ℤ b) + pos_part a + pos_part b
unfolding ◌+ℤ◌
+ℤ_parts a b = ground arith

pub -ℤ_parts :
    (a b : ℤ)
    → pos_part (a -ℤ b) + neg_part a + pos_part b ≡ neg_part (a -ℤ b) + pos_part a + neg_part b
unfolding ◌-ℤ◌
-ℤ_parts a b = ground arith

pub neg_parts : (a : ℤ) → pos_part (neg a) + pos_part a ≡ neg_part (neg a) + neg_part a
unfolding neg
neg_parts a = ground arith

pub eq_of_parts : (a b : ℤ) → pos_part a + neg_part b ≡ pos_part b + neg_part a → a ≡ b
eq_of_parts a b h = ground arith

pub ruleset int_laws = (arith, +ℤ_parts, -ℤ_parts, neg_parts, eq_of_parts)

-- A value that fits an `i32` is left as it is.
pub wrap_i32_id : (a : ℤ) → negsuc (2 ^ 31 - 1) ≤ℤ a → a ≤ℤ pos (2 ^ 31 - 1) → wrap_i32 a ≡ a
unfolding wrap_i32
wrap_i32_id a h k = ground arith

pub checked_isize-id : (a : ℤ) → nat_abs a < 2 ^ 63 → checked_isize a ≡ some a
unfolding checked_isize
checked_isize-id a h = ground arith

pub checked_i32-id : (a : ℤ) → nat_abs a < 2 ^ 31 → checked_i32 a ≡ some a
unfolding checked_i32
checked_i32-id a h = ground arith

pub nat_abs-+ℤ : (a b : ℤ) → nat_abs (a +ℤ b) ≤ nat_abs a + nat_abs b
unfolding ◌+ℤ◌
nat_abs-+ℤ a b = ground arith

pub nat_abs-neg : (a : ℤ) → nat_abs (neg a) ≡ nat_abs a
unfolding neg
nat_abs-neg a = ground arith

pub nat_abs-*ℤ : (a b : ℤ) → nat_abs (a *ℤ b) ≡ nat_abs a * nat_abs b
unfolding ◌*ℤ◌
nat_abs-*ℤ (pos a) (pos b) = ground arith
nat_abs-*ℤ (pos a) (negsuc b) = ground arith
nat_abs-*ℤ (negsuc a) (pos b) = ground arith
nat_abs-*ℤ (negsuc a) (negsuc b) = ground arith
