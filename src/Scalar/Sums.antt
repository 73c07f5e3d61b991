-- ===== src/Scalar/Sums.antt =====
-- quizx/src/scalar.rs: the sum of two exact scalars, and where it overflows.
use quizx.Prelude.{
  ◌^◌, ◌⊎◌, none, ℕ, ◌+◌, ◌*◌, ◌<◌, ◌≡◌, refl, sym, ap, ◌∙◌, some, List, length, replicate, arith,
  inl, inr, length-replicate,
}
use quizx.Prelude.Int.{
  pos_part, nat_abs, ◌≤ℤ◌, checked_i32, checked_i32-id, ℤ, pos, ◌+ℤ◌, ◌-ℤ◌, min_ℤ,
}
use quizx.Scalar.{FloatOps, size, exact, CoeffKind, new_coeffs, add_scaled}
use quizx.Scalar.Ops.{lcm_with_padding, reduce, add_exact}
use quizx.Scalar.Powers.{distances, two_pow_small, far_from_low, two_pow_checked, none_of_powers}
use quizx.Scalar.Product.{value, scaled_value, add_scaled_lem}
use quizx.Scalar.Zeros.{zero-+ℤ, value-replicate, silent, some_injective, size-replicate}

-- The power of 2 that a power is above the smaller one.
abbrev pub above_low : ℤ → ℤ → ℕ
above_low pow low = 2 ^ pos_part (pow -ℤ low)

-- Both loops of `Add::add`.
add_both :
    (w : ℕ → ℤ) (n step0 step1 k0 k1 : ℕ) (cs0 cs1 : List ℤ)
    → 0 < step0
    → 0 < step1
    → length cs0 * step0 ≡ n
    → length cs1 * step1 ≡ n
    → size cs0 * k0 + size cs1 * k1 < 2 ^ 63
    → (ds es : List ℤ) × (add_scaled step0 (pos k0) 0 cs0 (replicate n (pos 0)) ≡ some ds)
      × (add_scaled step1 (pos k1) 0 cs1 ds ≡ some es)
      × (length es ≡ n)
      × (value w 0 es ≡ scaled_value w step0 (pos k0) 0 cs0 +ℤ scaled_value w step1 (pos k1) 0 cs1)
add_both w n step0 step1 k0 k1 cs0 cs1 pos0 pos1 fit0 fit1 room =
    let zeros = length-replicate n (pos 0) in
    let e0 : size cs0 * nat_abs (pos k0) ≡ size cs0 * k0 = ap (λ z. size cs0 * z) (omega arith) in
    let e1 : size cs1 * nat_abs (pos k1) ≡ size cs1 * k1 = ap (λ z. size cs1 * z) (omega arith) in
    let (ds, run, len, bound, v) =
      add_scaled_lem w step0 (pos k0) 0 cs0 (replicate n (pos 0)) pos0 (omega (arith, fit0, zeros))
        (omega (arith, room, e0, size-replicate n)) in
    let (es, run', len', bound', v') =
      add_scaled_lem w step1 (pos k1) 0 cs1 ds pos1 (omega (arith, fit1, len, zeros))
        (omega (arith, room, bound, e0, e1, size-replicate n)) in
    (
      ds,
      es,
      run,
      run',
      len' ∙ len ∙ zeros,
      v'
          ∙ ap (λ z. z +ℤ scaled_value w step1 (pos k1) 0 cs1)
              (v ∙ rw (value-replicate w 0 n) (zero-+ℤ (scaled_value w step0 (pos k0) 0 cs0))),
    )

module _ {F : Type 0} (ops : FloatOps F) where
  add_steps :
      (kind : CoeffKind) (pow0 pow1 : ℤ) (cs0 cs1 ds es : List ℤ) (n pad0 pad1 pad : ℕ)
      → let low = min_ℤ pow0 pow1 in
        lcm_with_padding ops (length cs0) (length cs1) ≡ (n, pad0, pad1)
        → new_coeffs kind n ≡ some (replicate n (pos 0), pad)
        → pos_part (pow0 -ℤ low) < 63
        → pos_part (pow1 -ℤ low) < 63
        → add_scaled (pad * pad0) (pos (above_low pow0 low)) 0 cs0 (replicate n (pos 0)) ≡ some ds
        → add_scaled (pad * pad1) (pos (above_low pow1 low)) 0 cs1 ds ≡ some es
        → add_exact ops kind pow0 cs0 pow1 cs1 ≡ reduce ops (exact low es)
  unfolding add_exact
  add_steps kind pow0 pow1 cs0 cs1 ds es n pad0 pad1 pad common fresh near0 near1 run run' =
      let low = min_ℤ pow0 pow1 in
      let (up0, up1) = distances pow0 pow1 in
      rw
        (
          ap (λ t. t.0) common,
          checked_i32-id (pow0 -ℤ low) (omega (arith, up0, near0)),
          two_pow_small (pow0 -ℤ low) near0,
          checked_i32-id (pow1 -ℤ low) (omega (arith, up1, near1)),
          two_pow_small (pow1 -ℤ low) near1,
          fresh,
          ap (λ t. t.1) common,
          ap (λ t. t.2) common,
          run,
          run',
        )
        refl

  -- The sum of two exact scalars that are not zero, where the list type has room for their common
  -- order n, the length of each list times its padding, which is positive, is n, the powers are less
  -- than 63 above the smaller one, and the sums of the absolute values of the two lists, each times the
  -- power of 2 that it is above the smaller power, stay below 2^63 together: nothing overflows before
  -- reduce, the power is the smaller one, and the coefficients before reduce have the value of the two
  -- lists, each times that power of 2.
  pub add_lem :
      (kind : CoeffKind) (pow0 pow1 : ℤ) (cs0 cs1 : List ℤ) (n pad0 pad1 pad : ℕ)
      → let low = min_ℤ pow0 pow1 in
        lcm_with_padding ops (length cs0) (length cs1) ≡ (n, pad0, pad1)
        → new_coeffs kind n ≡ some (replicate n (pos 0), pad)
        → 0 < pad * pad0
        → 0 < pad * pad1
        → length cs0 * (pad * pad0) ≡ n
        → length cs1 * (pad * pad1) ≡ n
        → pos_part (pow0 -ℤ low) < 63
        → pos_part (pow1 -ℤ low) < 63
        → size cs0 * above_low pow0 low + size cs1 * above_low pow1 low < 2 ^ 63
        → (es : List ℤ) × (add_exact ops kind pow0 cs0 pow1 cs1 ≡ reduce ops (exact low es))
          × (length es ≡ n)
          × ((w : ℕ → ℤ)
              → value w 0 es
                ≡ scaled_value w (pad * pad0) (pos (above_low pow0 low)) 0 cs0
                  +ℤ scaled_value w (pad * pad1) (pos (above_low pow1 low)) 0 cs1)
  add_lem kind pow0 pow1 cs0 cs1 n pad0 pad1 pad common fresh step0 step1 fit0 fit1 near0 near1
        room =
      let low = min_ℤ pow0 pow1 in
      let k0 = above_low pow0 low in
      let k1 = above_low pow1 low in
      let (ds, es, run, run', len, v) =
        add_both silent n (pad * pad0) (pad * pad1) k0 k1 cs0 cs1 step0 step1 fit0 fit1 room in
      (
        es,
        add_steps kind pow0 pow1 cs0 cs1 ds es n pad0 pad1 pad common fresh near0 near1 run run',
        len,
        λ w.
            let (ds', es', first, second, len', v') =
              add_both w n (pad * pad0) (pad * pad1) k0 k1 cs0 cs1 step0 step1 fit0 fit1 room in
            ap (value w 0) (
              some_injective (
                sym run'
                ∙ ap (add_scaled (pad * pad1) (pos k1) 0 cs1) (some_injective (sym run ∙ first))
                ∙ second))
            ∙ v',
      )

  -- Adding two exact scalars that are not zero panics where their powers differ by 63 or more,
  -- whatever the coefficients are: the power of 2 that would bring them together overflows.
  pub add_exact_overflow :
      (kind : CoeffKind) (pow0 pow1 : ℤ) (cs0 cs1 : List ℤ)
      → (pow0 +ℤ pos 63 ≤ℤ pow1) ⊎ (pow1 +ℤ pos 63 ≤ℤ pow0)
      → add_exact ops kind pow0 cs0 pow1 cs1 ≡ none
  unfolding add_exact
  add_exact_overflow kind pow0 pow1 cs0 cs1 far =
      let low = min_ℤ pow0 pow1 in
      none_of_powers (checked_i32 (pow0 -ℤ low)) (checked_i32 (pow1 -ℤ low)) _
        (elim (far_from_low pow0 pow1 far) [
          | inl h ↦ inl (λ e. two_pow_checked (pow0 -ℤ low) e h)
          | inr h ↦ inr (λ e. two_pow_checked (pow1 -ℤ low) e h)
        ])
