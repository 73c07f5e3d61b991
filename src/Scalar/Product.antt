-- ===== src/Scalar/Product.antt =====
-- `Mul::mul` and `Add::add` of quizx/src/scalar.rs on exact scalars: what the loops sum up. A list of
-- coefficients stands for the sum of c_i omega^i, where omega^n = -1. It is read here through every
-- additive function of the powers of omega: a function w from exponents to integers that changes its
-- sign where the exponent grows by n.
use quizx.Prelude.{
  ℕ, zero, suc, ◌+◌, ◌-◌, ◌*◌, ◌/◌, ◌%◌, ◌^◌, ◌<◌, ◌≤◌, ◌≡◌, refl, sym, ap, ◌∙◌, true, false, ◌>>=◌,
  Option, some, List, [], ◌∷◌, length, get_elem?, ltb, if◌then◌else◌, arith, Bool-cases,
  Option-cases, inl, inr,
}
use native.Mathlib.Nat
use quizx.Prelude.Int.{
  ℤ, pos, neg, nat_abs, checked_isize, checked_isize-id, nat_abs-+ℤ, nat_abs-neg, nat_abs-*ℤ, ◌+ℤ◌,
  ◌*ℤ◌, pos_part, neg_part, neg_parts, +ℤ_parts, eq_of_parts, int_laws,
}
use quizx.Scalar.{size, add_at, mul_inner, mul_outer, add_scaled}

-- w changes its sign with the n-th power of omega.
abbrev pub Negacyclic : ℕ → (ℕ → ℤ) → Type 0
Negacyclic n w = (i : ℕ) → w (i + n) ≡ neg (w i)

-- The value of a list of coefficients, from exponent i on.
abbrev pub value : (ℕ → ℤ) → ℕ → List ℤ → ℤ
value w i [] = pos 0
value w i (c ∷ cs) = c *ℤ w i +ℤ value w (i + 1) cs

-- The product of one coefficient, at exponent at, with a list.
abbrev pub row_value : (ℕ → ℤ) → ℕ → ℕ → ℤ → ℕ → List ℤ → ℤ
row_value w at step c0 j [] = pos 0
row_value w at step c0 j (c1 ∷ cs) =
    c0 *ℤ c1 *ℤ w (at + j * step) +ℤ row_value w at step c0 (j + 1) cs

-- The product of two lists: the sum of all products of two coefficients, at the sum of the exponents.
abbrev pub product_value : (ℕ → ℤ) → ℕ → ℕ → ℕ → List ℤ → List ℤ → ℤ
product_value w step0 step1 i [] cs1 = pos 0
product_value w step0 step1 i (c0 ∷ cs0) cs1 =
    row_value w (i * step0) step1 c0 0 cs1 +ℤ product_value w step0 step1 (i + 1) cs0 cs1

pub *ℤ_expand :
    (a b : ℤ)
    → (pos_part (a *ℤ b) + (pos_part a * neg_part b + neg_part a * pos_part b)
        ≡ neg_part (a *ℤ b) + (pos_part a * pos_part b + neg_part a * neg_part b))
unfolding ◌*ℤ◌
*ℤ_expand a b = ground arith

+ℤ-*ℤ : (a b c : ℤ) → (a +ℤ b) *ℤ c ≡ a *ℤ c +ℤ b *ℤ c
+ℤ-*ℤ a b c = eq_of_parts _ _ (
    ground (
      arith,
      *ℤ_expand (a +ℤ b) c,
      *ℤ_expand a c,
      *ℤ_expand b c,
      +ℤ_parts (a *ℤ c) (b *ℤ c),
      ap (λ x. x * pos_part c) (+ℤ_parts a b),
      ap (λ x. x * neg_part c) (+ℤ_parts a b),
    ))

neg-*ℤ : (a b : ℤ) → neg a *ℤ b ≡ neg (a *ℤ b)
neg-*ℤ a b = eq_of_parts _ _ (
    ground (
      arith,
      *ℤ_expand (neg a) b,
      *ℤ_expand a b,
      neg_parts (a *ℤ b),
      ap (λ x. x * pos_part b) (neg_parts a),
      ap (λ x. x * neg_part b) (neg_parts a),
    ))

*ℤ-neg : (a b : ℤ) → a *ℤ neg b ≡ neg (a *ℤ b)
*ℤ-neg a b = eq_of_parts _ _ (
    ground (
      arith,
      *ℤ_expand a (neg b),
      *ℤ_expand a b,
      neg_parts (a *ℤ b),
      ap (λ x. pos_part a * x) (neg_parts b),
      ap (λ x. neg_part a * x) (neg_parts b),
    ))

neg-neg : (a : ℤ) → neg (neg a) ≡ a
neg-neg a = eq_of_parts _ _ (ground (arith, neg_parts a, neg_parts (neg a)))

neg-*ℤ-neg : (a b c : ℤ) → neg a *ℤ b *ℤ neg c ≡ a *ℤ b *ℤ c
neg-*ℤ-neg a b c =
    rw (neg-*ℤ a b, neg-*ℤ (a *ℤ b) (neg c), *ℤ-neg (a *ℤ b) c, neg-neg (a *ℤ b *ℤ c)) refl

add_at_cons :
    (c : ℤ) (cs ds : List ℤ) (k : ℕ) (a : ℤ)
    → add_at cs k a ≡ some ds
    → add_at (c ∷ cs) (suc k) a ≡ some (c ∷ ds)
unfolding add_at
add_at_cons c cs ds k a h = ground (arith, h, Option-cases (get_elem? cs k))

+ℤ_middle : (a b c : ℤ) → a +ℤ b +ℤ c ≡ a +ℤ c +ℤ b
+ℤ_middle a b c = grind int_laws

pub +ℤ_assoc : (a b c : ℤ) → a +ℤ b +ℤ c ≡ a +ℤ (b +ℤ c)
+ℤ_assoc a b c = grind int_laws

add_at_zero :
    (c : ℤ) (cs : List ℤ) (a : ℤ)
    → nat_abs (c +ℤ a) < 2 ^ 63
    → add_at (c ∷ cs) 0 a ≡ some ((c +ℤ a) ∷ cs)
unfolding add_at
add_at_zero c cs a small = rw (checked_isize-id (c +ℤ a) small) refl

-- `coeffs[k] += a` adds a times the power k, where the sizes leave room for the sum.
pub add_at-value :
    (w : ℕ → ℤ) (i : ℕ) (cs : List ℤ) (k : ℕ) (a : ℤ)
    → k < length cs
    → size cs + nat_abs a < 2 ^ 63
    → (ds : List ℤ) × (add_at cs k a ≡ some ds)
      × (length ds ≡ length cs)
      × (size ds ≤ size cs + nat_abs a)
      × (value w i ds ≡ value w i cs +ℤ a *ℤ w (i + k))
add_at-value w i [] k a h room = elim h [ ]
add_at-value w i (c ∷ cs) zero a h room =
    let e : i + 0 ≡ i = omega arith in
    let sum = nat_abs-+ℤ c a in
    (
      (c +ℤ a) ∷ cs,
      add_at_zero c cs a (omega (arith, sum, room)),
      refl,
      omega (arith, sum),
      rw (e, +ℤ-*ℤ c a (w i)) (+ℤ_middle (c *ℤ w i) (a *ℤ w i) (value w (i + 1) cs)),
    )
add_at-value w i (c ∷ cs) (suc k) a h room =
    let (ds, run, same_length, bound, v) =
      add_at-value w (i + 1) cs k a (omega arith) (omega (arith, room)) in
    let e : i + suc k ≡ i + 1 + k = omega arith in
    (
      c ∷ ds,
      add_at_cons c cs ds k a run,
      ap suc same_length,
      omega (arith, bound),
      rw (v, e) (sym (+ℤ_assoc (c *ℤ w i) (value w (i + 1) cs) (a *ℤ w (i + 1 + k)))),
    )

-- Exponents are read modulo 2n.
Negacyclic-turns : (n : ℕ) (w : ℕ → ℤ) → Negacyclic n w → (r q : ℕ) → w (r + q * (2 * n)) ≡ w r
Negacyclic-turns n w h r zero = let e : r + 0 * (2 * n) ≡ r = omega arith in ap w e
Negacyclic-turns n w h r (suc q) =
    let e : r + suc q * (2 * n) ≡ r + q * (2 * n) + n + n = omega (arith, Nat.suc-mul q (2 * n)) in
    rw (e, h (r + q * (2 * n) + n), h (r + q * (2 * n)), neg-neg (w (r + q * (2 * n))))
      (Negacyclic-turns n w h r q)

Negacyclic-mod : (n : ℕ) (w : ℕ → ℤ) → Negacyclic n w → (i : ℕ) → w (i % (2 * n)) ≡ w i
Negacyclic-mod n w h i =
    let e : i % (2 * n) + i / (2 * n) * (2 * n) ≡ i =
      omega (arith, Nat.div-add-mod i (2 * n), Nat.mul_comm (2 * n) (i / (2 * n))) in
    sym (Negacyclic-turns n w h (i % (2 * n)) (i / (2 * n))) ∙ ap w e

+ℤ-none : (a : ℤ) → a ≡ a +ℤ pos 0
+ℤ-none a = eq_of_parts _ _ (ground (arith, +ℤ_parts a (pos 0)))

-- One round of the inner loop.
abbrev placed : ℕ → ℕ → ℤ → ℤ → List ℤ → Option (List ℤ)
placed n place c0 c1 acc =
    if ltb place n
    then (do q ← checked_isize (c0 *ℤ c1); add_at acc place q)
    else (do m ← checked_isize (neg c0); q ← checked_isize (m *ℤ c1); add_at acc (place - n) q)

placed_low :
    (n place : ℕ) (c0 c1 : ℤ) (acc ds : List ℤ)
    → ltb place n ≡ true
    → nat_abs (c0 *ℤ c1) < 2 ^ 63
    → add_at acc place (c0 *ℤ c1) ≡ some ds
    → placed n place c0 c1 acc ≡ some ds
placed_low n place c0 c1 acc ds low small run = rw (low, checked_isize-id (c0 *ℤ c1) small) run

placed_high :
    (n place : ℕ) (c0 c1 : ℤ) (acc ds : List ℤ)
    → ltb place n ≡ false
    → nat_abs (neg c0) < 2 ^ 63
    → nat_abs (neg c0 *ℤ c1) < 2 ^ 63
    → add_at acc (place - n) (neg c0 *ℤ c1) ≡ some ds
    → placed n place c0 c1 acc ≡ some ds
placed_high n place c0 c1 acc ds high small0 small run =
    rw (high, checked_isize-id (neg c0) small0, checked_isize-id (neg c0 *ℤ c1) small) run

placed_lem :
    (n : ℕ) (w : ℕ → ℤ) (at : ℕ) (c0 c1 : ℤ) (acc : List ℤ)
    → 0 < n
    → Negacyclic n w
    → length acc ≡ n
    → nat_abs c0 < 2 ^ 63
    → size acc + nat_abs c0 * nat_abs c1 < 2 ^ 63
    → (ds : List ℤ) × (placed n (at % (2 * n)) c0 c1 acc ≡ some ds)
      × (length ds ≡ n)
      × (size ds ≤ size acc + nat_abs c0 * nat_abs c1)
      × (value w 0 ds ≡ value w 0 acc +ℤ c0 *ℤ c1 *ℤ w at)
placed_lem n w at c0 c1 acc n_pos h len small room =
    let place = at % (2 * n) in
    let times = nat_abs-*ℤ c0 c1 in
    let times' : nat_abs (neg c0 *ℤ c1) ≡ nat_abs c0 * nat_abs c1 =
      nat_abs-*ℤ (neg c0) c1 ∙ ap (λ k. k * nat_abs c1) (nat_abs-neg c0) in
    elim (Bool-cases (ltb place n)) [
      | inl low ↦
          let (ds, run, same_length, bound, v) =
            add_at-value w 0 acc place (c0 *ℤ c1) (ground (arith, low, len))
              (omega (arith, times, room)) in
          let e : w (0 + place) ≡ w at = ap w (omega arith) ∙ Negacyclic-mod n w h at in
          (
            ds,
            placed_low n place c0 c1 acc ds low (omega (arith, times, room)) run,
            same_length ∙ len,
            omega (arith, bound, times),
            rw (← e) v,
          )
      | inr high ↦
          let below = Nat.mod-lt at (two_pos n n_pos) in
          let (ds, run, same_length, bound, v) =
            add_at-value w 0 acc (place - n) (neg c0 *ℤ c1) (ground (arith, high, below, len))
              (omega (arith, times', room)) in
          let back : place ≡ 0 + (place - n) + n = ground (arith, high) in
          let e : w (0 + (place - n)) ≡ neg (w at) =
            sym (neg-neg (w (0 + (place - n))))
            ∙ ap neg (sym (h (0 + (place - n))) ∙ ap w (sym back) ∙ Negacyclic-mod n w h at) in
          (
            ds,
            placed_high n place c0 c1 acc ds high (omega (arith, nat_abs-neg c0, small))
                (omega (arith, times', room)) run,
            same_length ∙ len,
            omega (arith, bound, times'),
            v ∙ rw (e, neg-*ℤ-neg c0 c1 (w at)) refl,
          )
    ]
  where
    two_pos : (n : ℕ) → 0 < n → 0 < 2 * n
    two_pos n p = omega arith

mul_inner_step :
    (n at step : ℕ) (c0 : ℤ) (j : ℕ) (c1 : ℤ) (cs acc ds : List ℤ)
    → placed n ((at + j * step) % (2 * n)) c0 c1 acc ≡ some ds
    → mul_inner n at step c0 j (c1 ∷ cs) acc ≡ mul_inner n at step c0 (j + 1) cs ds
unfolding mul_inner
mul_inner_step n at step c0 j c1 cs acc ds run = rw run refl

-- The inner loop adds the products of one coefficient with a list.
mul_inner_lem :
    (n : ℕ) (w : ℕ → ℤ) (at step : ℕ) (c0 : ℤ) (j : ℕ) (cs acc : List ℤ)
    → 0 < n
    → Negacyclic n w
    → length acc ≡ n
    → nat_abs c0 < 2 ^ 63
    → size acc + nat_abs c0 * size cs < 2 ^ 63
    → (ds : List ℤ) × (mul_inner n at step c0 j cs acc ≡ some ds)
      × (length ds ≡ n)
      × (size ds ≤ size acc + nat_abs c0 * size cs)
      × (value w 0 ds ≡ value w 0 acc +ℤ row_value w at step c0 j cs)
unfolding mul_inner
mul_inner_lem n w at step c0 j [] acc n_pos h len small room =
    (acc, refl, len, omega arith, +ℤ-none (value w 0 acc))
mul_inner_lem n w at step c0 j (c1 ∷ cs) acc n_pos h len small room =
    let split = Nat.mul-add (nat_abs c0) (nat_abs c1) (size cs) in
    let (ds, run, len1, bound, v) =
      placed_lem n w (at + j * step) c0 c1 acc n_pos h len small (omega (arith, split, room)) in
    let (es, run', len2, bound', v') =
      mul_inner_lem n w at step c0 (j + 1) cs ds n_pos h len1 small
        (omega (arith, split, room, bound)) in
    (
      es,
      mul_inner_step n at step c0 j c1 cs acc ds run ∙ run',
      len2,
      omega (arith, split, bound, bound'),
      v'
          ∙ ap (λ z. z +ℤ row_value w at step c0 (j + 1) cs) v
          ∙ +ℤ_assoc (value w 0 acc) (c0 *ℤ c1 *ℤ w (at + j * step))
              (row_value w at step c0 (j + 1) cs),
    )

-- The loops of Mul::mul, where the sizes leave room for the sums of the products, return without an
-- overflow and without an access out of bounds a list whose value is that of the accumulator plus the
-- sum of the products of every coefficient of the one list with every coefficient of the other, at the
-- sum of their exponents; the value is taken through any additive function of the powers of omega,
-- where the n-th power of omega is -1.
pub mul_outer_lem :
    (n : ℕ) (w : ℕ → ℤ) (step0 step1 i : ℕ) (cs0 cs1 acc : List ℤ)
    → 0 < n
    → Negacyclic n w
    → length acc ≡ n
    → size cs0 < 2 ^ 63
    → size acc + size cs0 * size cs1 < 2 ^ 63
    → (ds : List ℤ) × (mul_outer n step0 step1 i cs0 cs1 acc ≡ some ds)
      × (length ds ≡ n)
      × (size ds ≤ size acc + size cs0 * size cs1)
      × (value w 0 ds ≡ value w 0 acc +ℤ product_value w step0 step1 i cs0 cs1)
unfolding mul_outer
mul_outer_lem n w step0 step1 i [] cs1 acc n_pos h len small room =
    (acc, refl, len, omega arith, +ℤ-none (value w 0 acc))
mul_outer_lem n w step0 step1 i (c0 ∷ cs0) cs1 acc n_pos h len small room =
    let split = Nat.add-mul (nat_abs c0) (size cs0) (size cs1) in
    let (ds, run, len1, bound, v) =
      mul_inner_lem n w (i * step0) step1 c0 0 cs1 acc n_pos h len (omega (arith, small))
        (omega (arith, split, room)) in
    let (es, run', len2, bound', v') =
      mul_outer_lem n w step0 step1 (i + 1) cs0 cs1 ds n_pos h len1 (omega (arith, small))
        (omega (arith, split, room, bound)) in
    (
      es,
      rw run run',
      len2,
      omega (arith, split, bound, bound'),
      v'
          ∙ ap (λ z. z +ℤ product_value w step0 step1 (i + 1) cs0 cs1) v
          ∙ +ℤ_assoc (value w 0 acc) (row_value w (i * step0) step1 c0 0 cs1)
              (product_value w step0 step1 (i + 1) cs0 cs1),
    )

-- The value of a list whose coefficients stand step apart, times a number.
abbrev pub scaled_value : (ℕ → ℤ) → ℕ → ℤ → ℕ → List ℤ → ℤ
scaled_value w step base i [] = pos 0
scaled_value w step base i (c ∷ cs) =
    c *ℤ base *ℤ w (i * step) +ℤ scaled_value w step base (i + 1) cs

add_scaled_step :
    (step : ℕ) (base : ℤ) (i : ℕ) (c : ℤ) (cs acc ds : List ℤ)
    → nat_abs (c *ℤ base) < 2 ^ 63
    → add_at acc (i * step) (c *ℤ base) ≡ some ds
    → add_scaled step base i (c ∷ cs) acc ≡ add_scaled step base (i + 1) cs ds
unfolding add_scaled
add_scaled_step step base i c cs acc ds small run =
    rw (checked_isize-id (c *ℤ base) small, run) refl

-- A loop of Add::add on a list that is spread out by step and fits into the accumulator, where the
-- sizes leave room for the sums: it returns, without an overflow, and adds to the value the
-- coefficients times the base, at the exponents that step makes of them.
pub add_scaled_lem :
    (w : ℕ → ℤ) (step : ℕ) (base : ℤ) (i : ℕ) (cs acc : List ℤ)
    → 0 < step
    → (i + length cs) * step ≤ length acc
    → size acc + size cs * nat_abs base < 2 ^ 63
    → (ds : List ℤ) × (add_scaled step base i cs acc ≡ some ds)
      × (length ds ≡ length acc)
      × (size ds ≤ size acc + size cs * nat_abs base)
      × (value w 0 ds ≡ value w 0 acc +ℤ scaled_value w step base i cs)
unfolding add_scaled
add_scaled_lem w step base i [] acc step_pos fits room =
    (acc, refl, refl, omega arith, +ℤ-none (value w 0 acc))
add_scaled_lem w step base i (c ∷ cs) acc step_pos fits room =
    let split = Nat.add-mul (nat_abs c) (size cs) (nat_abs base) in
    let times = nat_abs-*ℤ c base in
    let inside : i * step < length acc =
      ground (arith, fits, Nat.add-mul i (suc (length cs)) step, Nat.suc-mul (length cs) step) in
    let (ds, run, len1, bound, v) =
      add_at-value w 0 acc (i * step) (c *ℤ base) inside (omega (arith, split, times, room)) in
    let (es, run', len2, bound', v') =
      add_scaled_lem w step base (i + 1) cs ds step_pos (rw len1 (subst_le fits))
        (omega (arith, split, times, room, bound)) in
    let e : 0 + i * step ≡ i * step = omega arith in
    (
      es,
      add_scaled_step step base i c cs acc ds (omega (arith, split, times, room)) run ∙ run',
      len2 ∙ len1,
      omega (arith, split, times, bound, bound'),
      v'
          ∙ ap (λ z. z +ℤ scaled_value w step base (i + 1) cs)
              (v ∙ ap (λ k. value w 0 acc +ℤ c *ℤ base *ℤ w k) e)
          ∙ +ℤ_assoc (value w 0 acc) (c *ℤ base *ℤ w (i * step))
              (scaled_value w step base (i + 1) cs),
    )
  where
    subst_le : (i + suc (length cs)) * step ≤ length acc → (i + 1 + length cs) * step ≤ length acc
    subst_le h = let e : i + 1 + length cs ≡ i + suc (length cs) = omega arith in rw e h
