-- ===== src/Examples/Scalars.antt =====
-- Exact scalars of quizx/src/scalar.rs, on which the operations are run.
use quizx.Prelude.{
  none, inl, ◌<◌, ◌^◌, ◌+◌, ℕ, ◌*◌, ◌≡◌, refl, true, false, some, List, [], ◌∷◌, length, arith,
  ◌==◌, if◌then◌else◌, ltb,
}
use quizx.Prelude.Int.{
  pos_part, -ℤ_parts, +ℤ_parts, ◌≤ℤ◌, ℤ, pos, negsuc, ◌+ℤ◌, ◌-ℤ◌, rem_euclid, ◌*ℤ◌, min_ℤ,
}
use quizx.Scalar.{FloatOps, exact, fixed, all_zero, reduce_parts, new_coeffs, size}
use quizx.Scalar.Ops.{mul, reduce, from_phase, add_exact, lcm_with_padding}
use quizx.Scalar.Reduce.{Reduced, doubled, reduce_parts_lem, reduce_parts-doubled}
use quizx.Scalar.Product.{Negacyclic, value, product_value, scaled_value}
use quizx.Scalar.Results.{mul_lem, from_phase_lem}
use quizx.Scalar.Sums.{add_lem, add_exact_overflow, above_low}

-- Floating-point numbers that are all one: no result at an exact scalar reads them.
abbrev no_floats : FloatOps Unit
no_floats = record {
  zero = tt;
  add = λ a b. tt;
  mul = λ a b. tt;
  conj = λ a. tt;
  eq = λ a b. true;
  root = λ n. tt;
  powu = λ a n. tt;
  term = λ p c a. tt;
  two_powi = λ p. tt;
  minus_one_powf = λ n d. tt;
  lcm = λ a b. if a == 0 then 0 else if ltb a b then b else a;
}

abbrev two_coeffs : List ℤ
two_coeffs = pos 4 ∷ negsuc 5 ∷ []

reduce_parts_example :
    (all_zero two_coeffs ≡ true → reduce_parts (pos 3) two_coeffs ≡ some (pos 0, two_coeffs))
    × (all_zero two_coeffs ≡ false → Reduced (pos 3) two_coeffs (reduce_parts (pos 3) two_coeffs))
reduce_parts_example = reduce_parts_lem (pos 3) two_coeffs

reduce_parts-doubled_example :
    reduce_parts (pos 3) (doubled 2 two_coeffs) ≡ reduce_parts (pos 3 +ℤ pos 2) two_coeffs
reduce_parts-doubled_example = reduce_parts-doubled (pos 3) two_coeffs 2 refl

-- Orders 2 and 4 have the common order 4.
common_order : lcm_with_padding no_floats 2 4 ≡ (4, 2, 1)
unfolding lcm_with_padding
common_order = refl

room : new_coeffs (fixed 4) 4 ≡ some (pos 0 ∷ pos 0 ∷ pos 0 ∷ pos 0 ∷ [], 1)
unfolding new_coeffs
room = refl

abbrev four_coeffs : List ℤ
four_coeffs = pos 0 ∷ pos 1 ∷ pos 0 ∷ negsuc 0 ∷ []

mul_example :
    (es : List ℤ) × (mul no_floats
        (fixed 4)
        (exact (pos 1) two_coeffs)
        (exact (negsuc 0) four_coeffs)
      ≡ reduce no_floats (exact (pos 1 +ℤ negsuc 0) es))
    × (length es ≡ 4)
    × ((w : ℕ → ℤ)
        → Negacyclic 4 w
        → value w 0 es ≡ product_value w (1 * 2) (1 * 1) 0 two_coeffs four_coeffs)
mul_example =
    mul_lem no_floats (fixed 4) (pos 1) (negsuc 0) two_coeffs four_coeffs 4 2 1 1 (omega arith)
      common_order room (ground (arith, +ℤ_parts (pos 1) (negsuc 0))) (omega arith) (omega arith)

near_two : pos_part (pos 1 -ℤ min_ℤ (pos 1) (negsuc 0)) < 63
near_two = ground (arith, -ℤ_parts (pos 1) (negsuc 0))

near_zero : pos_part (negsuc 0 -ℤ min_ℤ (pos 1) (negsuc 0)) < 63
near_zero = ground (arith, -ℤ_parts (negsuc 0) (negsuc 0))

small_enough :
    size two_coeffs * above_low (pos 1) (min_ℤ (pos 1) (negsuc 0))
      + size four_coeffs * above_low (negsuc 0) (min_ℤ (pos 1) (negsuc 0))
    < 2 ^ 63
unfolding ◌-ℤ◌
small_enough = omega arith

far : pos 0 +ℤ pos 63 ≤ℤ pos 63
far = ground (arith, +ℤ_parts (pos 0) (pos 63))

add_example :
    (es : List ℤ) × (add_exact no_floats (fixed 4) (pos 1) two_coeffs (negsuc 0) four_coeffs
      ≡ reduce no_floats (exact (min_ℤ (pos 1) (negsuc 0)) es))
    × (length es ≡ 4)
    × ((w : ℕ → ℤ)
        → value w 0 es
          ≡ scaled_value w (1 * 2) (pos (above_low (pos 1) (min_ℤ (pos 1) (negsuc 0)))) 0 two_coeffs
            +ℤ scaled_value w
                (1 * 1)
                (pos (above_low (negsuc 0) (min_ℤ (pos 1) (negsuc 0))))
                0
                four_coeffs)
add_example =
    add_lem no_floats (fixed 4) (pos 1) (negsuc 0) two_coeffs four_coeffs 4 2 1 1 common_order room
      (omega arith) (omega arith) refl refl near_two near_zero small_enough

-- The test add_diff_power_2: 1, and 1 with the power 63.
add_exact_overflow_example :
    add_exact no_floats (fixed 4) (pos 0) four_coeffs (pos 63) four_coeffs ≡ none
add_exact_overflow_example =
    add_exact_overflow no_floats (fixed 4) (pos 0) (pos 63) four_coeffs four_coeffs (inl far)

half_room : new_coeffs (fixed 4) 2 ≡ some (pos 0 ∷ pos 0 ∷ pos 0 ∷ pos 0 ∷ [], 2)
unfolding new_coeffs
half_room = refl

-- The phase 3/2.
from_phase_example :
    (es : List ℤ) × (from_phase no_floats (fixed 4) (pos 3) 2 ≡ some (exact (pos 0) es))
    × ((w : ℕ → ℤ)
        → Negacyclic (2 * 2) w
        → value w 0 es ≡ w (rem_euclid (pos 3 *ℤ pos 2) (2 * (2 * 2))))
from_phase_example = from_phase_lem no_floats (fixed 4) (pos 3) 2 2 half_room (omega arith)
