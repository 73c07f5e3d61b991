-- ===== src/Scalar/Ops.antt =====
-- quizx/src/scalar.rs: the operations on whole scalars. The first argument of those that make a list
-- of coefficients is the type of the list.
use quizx.Prelude.{
  ℕ, ◌+◌, ◌-◌, ◌*◌, ◌/◌, ◌%◌, ◌^◌, Bool, true, false, Option, none, some, List, [], ◌∷◌, length,
  ltb, ◌==◌, if◌then◌else◌, ◌>>=◌,
}
use quizx.Prelude.Int.{
  ℤ, checked_i32, pos, negsuc, pos_part, ◌+ℤ◌, ◌-ℤ◌, ◌*ℤ◌, eqb_ℤ, min_ℤ, nat_abs, rem_euclid,
  div_trunc,
}
use quizx.Scalar.{
  FloatOps, Scalar, exact, float, CoeffKind, new_coeffs, zero_coeffs, one_coeffs, put_at,
  reduce_parts, copy_coeffs, conj_coeffs, mul_outer, add_scaled, all_eq,
}

-- `2isize.pow(e as u32)`, for an e that is not negative.
unfoldable pub two_pow : ℤ → Option ℤ
two_pow e = if ltb (pos_part e) 63 then some (pos (2 ^ pos_part e)) else none

module _ {F : Type 0} (ops : FloatOps F) where
  unfoldable pub lcm_with_padding : ℕ → ℕ → ℕ × ℕ × ℕ
  lcm_with_padding n1 n2 =
      if n1 == n2 then (n1, 1, 1) else let lcm0 = ops.lcm n1 n2 in (lcm0, lcm0 / n1, lcm0 / n2)

  -- The loop of `complex_value`, from index i on.
  unfoldable pub sum_terms : ℤ → F → ℕ → List ℤ → F → F
  sum_terms pow omega i [] num = num
  sum_terms pow omega i (c ∷ cs) num =
      sum_terms pow omega (i + 1) cs (ops.add num (ops.term pow c (ops.powu omega i)))

  unfoldable pub complex_value : Scalar F → F
  complex_value (exact pow coeffs) = sum_terms pow (ops.root (length coeffs)) 0 coeffs ops.zero
  complex_value (float c) = c

  unfoldable pub to_float : Scalar F → Scalar F
  to_float s = float (complex_value s)

  unfoldable pub reduce : Scalar F → Option (Scalar F)
  reduce (exact pow coeffs) = do p ← reduce_parts pow coeffs; some (exact p.0 p.1)
  reduce (float c) = some (float c)

  unfoldable pub from_int_coeffs : CoeffKind → List ℤ → Option (Scalar F)
  from_int_coeffs kind coeffs = do
    fresh ← new_coeffs kind (length coeffs)
    coeffs1 ← copy_coeffs fresh.1 0 coeffs fresh.0
    reduce (exact (pos 0) coeffs1)

  unfoldable pub from_scalar : CoeffKind → Scalar F → Option (Scalar F)
  from_scalar kind (exact pow coeffs) = elim (new_coeffs kind (length coeffs)) [
    | some fresh ↦ do coeffs1 ← copy_coeffs fresh.1 0 coeffs fresh.0; some (exact pow coeffs1)
    | none ↦ some (float (complex_value (exact pow coeffs)))
  ]
  from_scalar kind (float c) = some (float c)

  unfoldable pub conj : CoeffKind → Scalar F → Option (Scalar F)
  conj kind (exact pow coeffs) = do coeffs1 ← conj_coeffs kind coeffs; some (exact pow coeffs1)
  conj kind (float c) = some (float (ops.conj c))

  unfoldable pub zero_scalar : CoeffKind → Scalar F
  zero_scalar kind = exact (pos 0) (zero_coeffs kind)

  unfoldable pub one_scalar : CoeffKind → Scalar F
  one_scalar kind = exact (pos 0) (one_coeffs kind)

  -- `PartialEq::eq`
  unfoldable pub eq_scalar : Scalar F → Scalar F → Option Bool
  eq_scalar (exact pow0 coeffs0) (exact pow1 coeffs1) =
      if eqb_ℤ pow0 pow1
      then (let (lcm, pad0, pad1) = lcm_with_padding (length coeffs0) (length coeffs1) in
          all_eq lcm pad0 pad1 coeffs0 coeffs1 0)
      else some false
  eq_scalar s t = some (ops.eq (complex_value s) (complex_value t))

  unfoldable pub is_zero_scalar : CoeffKind → Scalar F → Option Bool
  is_zero_scalar kind s = eq_scalar s (zero_scalar kind)

  unfoldable pub is_one_scalar : CoeffKind → Scalar F → Option Bool
  is_one_scalar kind s = eq_scalar s (one_scalar kind)

  -- `sqrt2_pow`; without room for four coefficients the code takes a power of 2.
  unfoldable pub sqrt2_pow : CoeffKind → ℤ → Option (Scalar F)
  sqrt2_pow kind p = elim (new_coeffs kind 4) [
    | some (coeffs, pad) ↦
        if nat_abs p % 2 == 0
        then (do coeffs1 ← put_at coeffs 0 (pos 1); some (exact (div_trunc p 2) coeffs1))
        else (do
          coeffs1 ← put_at coeffs pad (pos 1)
          coeffs2 ← put_at coeffs1 (3 * pad) (negsuc 0)
          some (exact (div_trunc (p -ℤ pos 1) 2) coeffs2))
    | none ↦ some (float (ops.two_powi p))
  ]

  -- `from_phase`, of a phase with this numerator and denominator.
  unfoldable pub from_phase : CoeffKind → ℤ → ℕ → Option (Scalar F)
  from_phase kind numer denom = elim (new_coeffs kind denom) [
    | some (coeffs, pad) ↦
        let rdenom = denom * pad in
        let rnumer = rem_euclid (numer *ℤ pos pad) (2 * rdenom) in
        (do
          coeffs1 ←
              (if ltb rnumer rdenom
                then put_at coeffs rnumer (pos 1)
                else put_at coeffs (rnumer - rdenom) (negsuc 0))
          some (exact (pos 0) coeffs1))
    | none ↦ some (float (ops.minus_one_powf numer (pos denom)))
  ]

  unfoldable pub mul : CoeffKind → Scalar F → Scalar F → Option (Scalar F)
  mul kind (exact pow0 coeffs0) (exact pow1 coeffs1) =
      let (lcm, pad0, pad1) = lcm_with_padding (length coeffs0) (length coeffs1) in
      elim (new_coeffs kind lcm) [
        | some (coeffs, pad) ↦ do
          coeffs2 ← mul_outer lcm (pad * pad0) (pad * pad1) 0 coeffs0 coeffs1 coeffs
          pow ← checked_i32 (pow0 +ℤ pow1)
          reduce (exact pow coeffs2)
        | none ↦ some (
            float
              (ops.mul (complex_value (exact pow0 coeffs0)) (complex_value (exact pow1 coeffs1))))
      ]
  mul kind s t = some (float (ops.mul (complex_value s) (complex_value t)))

  -- `Add::add` on two exact scalars that are not zero; where there is no room for the common order
  -- the code adds the first scalar to itself.
  unfoldable pub add_exact : CoeffKind → ℤ → List ℤ → ℤ → List ℤ → Option (Scalar F)
  add_exact kind pow0 coeffs0 pow1 coeffs1 =
      let (lcm, pad0, pad1) = lcm_with_padding (length coeffs0) (length coeffs1) in
      let minpow = min_ℤ pow0 pow1 in
      (do
        e0 ← checked_i32 (pow0 -ℤ minpow)
        base0 ← two_pow e0
        e1 ← checked_i32 (pow1 -ℤ minpow)
        base1 ← two_pow e1
        elim (new_coeffs kind lcm) [
          | some (coeffs, pad) ↦ do
            coeffs2 ← add_scaled (pad * pad0) base0 0 coeffs0 coeffs
            coeffs3 ← add_scaled (pad * pad1) base1 0 coeffs1 coeffs2
            reduce (exact minpow coeffs3)
          | none ↦ let c = complex_value (exact pow0 coeffs0) in some (float (ops.add c c))
        ])

  abbrev add_nonzero : CoeffKind → Scalar F → Scalar F → Option (Scalar F)
  add_nonzero kind (exact pow0 coeffs0) (exact pow1 coeffs1) =
      add_exact kind pow0 coeffs0 pow1 coeffs1
  add_nonzero kind s t = some (float (ops.add (complex_value s) (complex_value t)))

  unfoldable pub add : CoeffKind → Scalar F → Scalar F → Option (Scalar F)
  add kind s t = do
    right_zero ← is_zero_scalar kind t
    (if right_zero then some s else (do
      left_zero ← is_zero_scalar kind s
      (if left_zero then some t else add_nonzero kind s t)))

  unfoldable pub mul_sqrt2_pow : CoeffKind → Scalar F → ℤ → Option (Scalar F)
  mul_sqrt2_pow kind s p = do t ← sqrt2_pow kind p; mul kind s t

  unfoldable pub mul_phase : CoeffKind → Scalar F → ℤ → ℕ → Option (Scalar F)
  mul_phase kind s numer denom = do t ← from_phase kind numer denom; mul kind s t

  unfoldable pub one_plus_phase : CoeffKind → ℤ → ℕ → Option (Scalar F)
  one_plus_phase kind numer denom = do t ← from_phase kind numer denom; add kind (one_scalar kind) t

  abbrev pub is_exact : Scalar F → Bool
  is_exact (exact pow coeffs) = true
  is_exact (float c) = false

  abbrev pub is_float : Scalar F → Bool
  is_float (exact pow coeffs) = false
  is_float (float c) = true
