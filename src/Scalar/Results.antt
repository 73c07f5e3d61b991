-- ===== src/Scalar/Results.antt =====
-- quizx/src/scalar.rs: the product of two exact scalars and from_phase, by value.
use quizx.Prelude.{
  ◌^◌, ℕ, zero, suc, ◌+◌, ◌-◌, ◌*◌, ◌<◌, ◌≡◌, sym, ap, ◌∙◌, some, List, length, set, replicate, ltb,
  if◌then◌else◌, arith, Bool-cases, inl, inr, length-replicate,
}
use quizx.Prelude.Int.{nat_abs, checked_i32, checked_i32-id, ℤ, pos, negsuc, ◌+ℤ◌, ◌*ℤ◌, rem_euclid}
use quizx.Phase.Integers.{rem_euclid-lt}
use quizx.Scalar.{FloatOps, size, exact, CoeffKind, new_coeffs, mul_outer}
use quizx.Scalar.Ops.{lcm_with_padding, mul, reduce, from_phase}
use quizx.Scalar.Product.{Negacyclic, value, product_value, mul_outer_lem}
use quizx.Scalar.Zeros.{
  zero-*ℤ, one-*ℤ, minus_one-*ℤ, zero-+ℤ, value-replicate, silent, silent-Negacyclic, zero_right,
  some_injective, size-replicate,
}

module _ {F : Type 0} (ops : FloatOps F) where
  mul_steps :
      (kind : CoeffKind) (pow0 pow1 : ℤ) (cs0 cs1 es : List ℤ) (n pad0 pad1 pad : ℕ)
      → lcm_with_padding ops (length cs0) (length cs1) ≡ (n, pad0, pad1)
      → new_coeffs kind n ≡ some (replicate n (pos 0), pad)
      → mul_outer n (pad * pad0) (pad * pad1) 0 cs0 cs1 (replicate n (pos 0)) ≡ some es
      → checked_i32 (pow0 +ℤ pow1) ≡ some (pow0 +ℤ pow1)
      → mul ops kind (exact pow0 cs0) (exact pow1 cs1) ≡ reduce ops (exact (pow0 +ℤ pow1) es)
  unfolding mul
  mul_steps kind pow0 pow1 cs0 cs1 es n pad0 pad1 pad common fresh run fits =
      ground (arith, common, fresh, run, fits)

  -- The product of two exact scalars, where the list type has room for their common order n, which is
  -- not 0, the sum of
  -- the powers is within an i32, and the sum of the absolute values of the first list, and its product
  -- with that of the second, are below 2^63: no coefficient overflows, the powers add up, and the
  -- coefficients before reduce have the value of the product of the two lists, through any additive
  -- function of the powers of omega.
  pub mul_lem :
      (kind : CoeffKind) (pow0 pow1 : ℤ) (cs0 cs1 : List ℤ) (n pad0 pad1 pad : ℕ)
      → 0 < n
      → lcm_with_padding ops (length cs0) (length cs1) ≡ (n, pad0, pad1)
      → new_coeffs kind n ≡ some (replicate n (pos 0), pad)
      → nat_abs (pow0 +ℤ pow1) < 2 ^ 31
      → size cs0 < 2 ^ 63
      → size cs0 * size cs1 < 2 ^ 63
      → (es : List ℤ) × (mul ops kind (exact pow0 cs0) (exact pow1 cs1)
          ≡ reduce ops (exact (pow0 +ℤ pow1) es))
        × (length es ≡ n)
        × ((w : ℕ → ℤ)
            → Negacyclic n w
            → value w 0 es ≡ product_value w (pad * pad0) (pad * pad1) 0 cs0 cs1)
  mul_lem kind pow0 pow1 cs0 cs1 n pad0 pad1 pad n_pos common fresh power small room =
      let zeros = replicate n (pos 0) in
      let (es, run, len, bound, v) =
        mul_outer_lem n silent (pad * pad0) (pad * pad1) 0 cs0 cs1 zeros n_pos (silent-Negacyclic n)
          (length-replicate n (pos 0)) small (omega (arith, room, size-replicate n)) in
      (
        es,
        mul_steps kind pow0 pow1 cs0 cs1 es n pad0 pad1 pad common fresh run
            (checked_i32-id (pow0 +ℤ pow1) power),
        len,
        valued es run,
      )
    where
      valued :
          (es : List ℤ)
          → mul_outer n (pad * pad0) (pad * pad1) 0 cs0 cs1 (replicate n (pos 0)) ≡ some es
          → (w : ℕ → ℤ) → Negacyclic n w
          → value w 0 es ≡ product_value w (pad * pad0) (pad * pad1) 0 cs0 cs1
      valued es run w h =
          let (ds, run', len, bound, v) =
            mul_outer_lem n w (pad * pad0) (pad * pad1) 0 cs0 cs1 (replicate n (pos 0)) n_pos h
              (length-replicate n (pos 0)) small (omega (arith, room, size-replicate n)) in
          ap (value w 0) (some_injective (sym run ∙ run'))
          ∙ v
          ∙ rw (value-replicate w 0 n)
              (zero-+ℤ (product_value w (pad * pad0) (pad * pad1) 0 cs0 cs1))

-- One coefficient in a list of zeros.
put_zeros :
    (w : ℕ → ℤ) (i n k : ℕ) (a : ℤ)
    → k < n
    → value w i (set (replicate n (pos 0)) k a) ≡ a *ℤ w (i + k)
put_zeros w i zero k a h = elim h [ ]
put_zeros w i (suc n) zero a h =
    let e : i ≡ i + 0 = omega arith in
    rw (value-replicate w (i + 1) n, zero_right (a *ℤ w i)) (ap (λ j. a *ℤ w j) e)
put_zeros w i (suc n) (suc k) a h =
    let e : i + 1 + k ≡ i + suc k = omega arith in
    rw (zero-*ℤ (w i), zero-+ℤ (value w (i + 1) (set (replicate n (pos 0)) k a)))
      (put_zeros w (i + 1) n k a (omega arith) ∙ ap (λ j. a *ℤ w j) e)

module _ {F : Type 0} (ops : FloatOps F) where
  from_phase_steps :
      (kind : CoeffKind) (numer : ℤ) (denom pad : ℕ)
      → let n = denom * pad in
        let r = rem_euclid (numer *ℤ pos pad) (2 * n) in
        new_coeffs kind denom ≡ some (replicate n (pos 0), pad)
        → 0 < n
        → from_phase ops kind numer denom
          ≡ some (
              exact (pos 0) (
                if ltb r n
                then set (replicate n (pos 0)) r (pos 1)
                else set (replicate n (pos 0)) (r - n) (negsuc 0)))
  unfolding from_phase
  from_phase_steps kind numer denom pad fresh n_pos = ground (
    arith,
    fresh,
    length-replicate (denom * pad) (pos 0),
    rem_euclid-lt (numer *ℤ pos pad) (2 * (denom * pad)) (omega arith),
  )

  -- from_phase of numer / denom, where the list type has room for the denominator: an exact scalar
  -- with the power 0 whose value, through any additive function of the powers of omega, is that power
  -- of omega which turns by numer / denom.
  pub from_phase_lem :
      (kind : CoeffKind) (numer : ℤ) (denom pad : ℕ)
      → new_coeffs kind denom ≡ some (replicate (denom * pad) (pos 0), pad)
      → 0 < denom * pad
      → (es : List ℤ) × (from_phase ops kind numer denom ≡ some (exact (pos 0) es))
        × ((w : ℕ → ℤ)
            → Negacyclic (denom * pad) w
            → value w 0 es ≡ w (rem_euclid (numer *ℤ pos pad) (2 * (denom * pad))))
  from_phase_lem kind numer denom pad fresh n_pos =
      let n = denom * pad in
      let r = rem_euclid (numer *ℤ pos pad) (2 * n) in
      let below = rem_euclid-lt (numer *ℤ pos pad) (2 * n) (omega arith) in
      (
        _,
        from_phase_steps kind numer denom pad fresh n_pos,
        λ w h. elim (Bool-cases (ltb r n)) [
          | inl low ↦ rw low (
              put_zeros w 0 n r (pos 1) (ground (arith, low))
              ∙ one-*ℤ (w (0 + r))
              ∙ ap w (omega arith))
          | inr high ↦ rw high (
              put_zeros w 0 n (r - n) (negsuc 0) (ground (arith, high, below))
              ∙ minus_one-*ℤ (w (0 + (r - n)))
              ∙ sym (h (0 + (r - n)))
              ∙ ap w (ground (arith, high)))
        ],
      )
