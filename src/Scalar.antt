-- ===== src/Scalar.antt =====
-- quizx/src/scalar.rs: scalars as elements of D[omega] or as complex floating-point numbers. Products
-- and sums are checked for overflow, `isize` having 64 bits; the halving and the negation of a
-- coefficient and the counting of a power in `reduce` are not. Floating-point numbers are values of the parameter `F`,
-- with the operations `FloatOps`; `none` is a panic.
pub mod Ops
pub mod Reduce
pub mod Conj
pub mod Product
pub mod Zeros
pub mod Powers
pub mod Sums
pub mod Results
use quizx.Prelude.{
  ℕ, zero, suc, ◌+◌, ◌-◌, ◌*◌, ◌/◌, ◌%◌, ◌^◌, ◌≡◌, refl, Bool, true, false, ◌&&◌, ◌||◌, not, Option,
  none, some, List, [], ◌∷◌, map, length, get_elem?, set, replicate, ltb, ◌==◌, if◌then◌else◌,
  ◌>>=◌,
}
use quizx.Prelude.Int.{
  ℤ, checked_isize, pos, negsuc, pos_part, ◌+ℤ◌, ◌-ℤ◌, ◌*ℤ◌, neg, eqb_ℤ, ltb_ℤ, leb_ℤ, nat_abs,
  rem_euclid, div_trunc,
}
use quizx.Phase.{RatioOps, Phase}

-- What scalar.rs calls of `f64`, of `num::Complex<f64>` and of `num::integer`.
pub record FloatOps (F : Type 0) : Type 0 where
  -- `Complex::new(0f64, 0f64)`
  pub zero : F
  pub add : F → F → F
  pub mul : F → F → F
  pub conj : F → F
  pub eq : F → F → Bool
  -- `Complex::new(-1f64, 0f64).powf(1f64 / (n as f64))`
  pub root : ℕ → F
  -- `powu`
  pub powu : F → ℕ → F
  -- `2f64.powi(pow) * (c as f64) * z`
  pub term : ℤ → ℤ → F → F
  -- `Complex::new(2.0f64.powi(p), 0.0)`
  pub two_powi : ℤ → F
  -- `Complex::new(-1.0, 0.0).powf((n as f64) / (d as f64))`
  pub minus_one_powf : ℤ → ℤ → F
  -- `num::integer::lcm`
  pub lcm : ℕ → ℕ → ℕ

-- enum Scalar
pub data Scalar (F : Type 0) : Type 0 where
  exact : ℤ → List ℤ → Scalar F
  float : F → Scalar F

-- The types that implement `Coeffs`: the arrays of n entries and the vectors.
pub data CoeffKind : Type 0 where
  fixed : ℕ → CoeffKind
  vec : CoeffKind

-- `Coeffs::new`: zeros, and the distance between the places of two coefficients.
unfoldable pub new_coeffs : CoeffKind → ℕ → Option (List ℤ × ℕ)
new_coeffs (fixed n) sz = if n % sz == 0 then some (replicate n (pos 0), n / sz) else none
new_coeffs vec sz = some (replicate sz (pos 0), 1)

unfoldable pub zero_coeffs : CoeffKind → List ℤ
zero_coeffs (fixed n) = replicate n (pos 0)
zero_coeffs vec = pos 0 ∷ []

unfoldable pub one_coeffs : CoeffKind → List ℤ
one_coeffs (fixed n) = set (replicate n (pos 0)) 0 (pos 1)
one_coeffs vec = pos 1 ∷ []

-- `coeffs[i] = a` and `coeffs[i] += a`, which panic out of bounds.
abbrev pub put_at : List ℤ → ℕ → ℤ → Option (List ℤ)
put_at cs i a = if ltb i (length cs) then some (set cs i a) else none

unfoldable pub add_at : List ℤ → ℕ → ℤ → Option (List ℤ)
add_at cs i a = do c ← get_elem? cs i; b ← checked_isize (c +ℤ a); some (set cs i b)

abbrev pub all_zero : List ℤ → Bool
all_zero [] = true
all_zero (c ∷ cs) = nat_abs c == 0 && all_zero cs

-- `one & c == one` for some coefficient c.
abbrev pub any_odd : List ℤ → Bool
any_odd [] = false
any_odd (c ∷ cs) = nat_abs c % 2 == 1 || any_odd cs

-- `c >> 1`
abbrev pub shift_right : ℤ → ℤ
shift_right (pos n) = pos (n / 2)
shift_right (negsuc n) = negsuc (n / 2)

abbrev pub size : List ℤ → ℕ
size [] = 0
size (c ∷ cs) = nat_abs c + size cs

-- The outer loop of `reduce`, on fuel.
unfoldable pub reduce_loop : ℕ → ℤ → List ℤ → Option (ℤ × List ℤ)
reduce_loop zero pow coeffs = none
reduce_loop (suc fuel) pow coeffs =
    let rest = reduce_loop fuel (pow +ℤ pos 1) (map shift_right coeffs) in
    if any_odd coeffs then some (pow, coeffs) else rest

-- `reduce` on the parts of an exact scalar; the sum of the sizes is fuel enough.
unfoldable pub reduce_parts : ℤ → List ℤ → Option (ℤ × List ℤ)
reduce_parts pow coeffs =
    let rest = reduce_loop (suc (size coeffs)) pow coeffs in
    if all_zero coeffs then some (pos 0, coeffs) else rest

-- The loop of `from_int_coeffs` and `from_scalar`, from index i on.
unfoldable pub copy_coeffs : ℕ → ℕ → List ℤ → List ℤ → Option (List ℤ)
copy_coeffs pad i [] acc = some acc
copy_coeffs pad i (c ∷ cs) acc = do acc1 ← put_at acc (i * pad) c; copy_coeffs pad (i + 1) cs acc1

-- The loop of `conj`, from index i on, for n coefficients.
unfoldable pub conj_loop : ℕ → ℕ → List ℤ → List ℤ → Option (List ℤ)
conj_loop n i [] acc = some acc
conj_loop n i (c ∷ cs) acc = do acc1 ← put_at acc (n - i) (neg c); conj_loop n (i + 1) cs acc1

-- `conj` on the coefficients.
unfoldable pub conj_coeffs : CoeffKind → List ℤ → Option (List ℤ)
conj_coeffs kind [] = none
conj_coeffs kind (c ∷ cs) = do
  fresh ← new_coeffs kind (length (c ∷ cs))
  acc ← put_at fresh.0 0 c
  conj_loop (length (c ∷ cs)) 1 cs acc

-- The inner loop of `Mul::mul`: one coefficient c0, whose place is at, against those from index j on.
unfoldable pub mul_inner : ℕ → ℕ → ℕ → ℤ → ℕ → List ℤ → List ℤ → Option (List ℤ)
mul_inner lcm at step c0 j [] acc = some acc
mul_inner lcm at step c0 j (c1 ∷ cs) acc =
    let place = (at + j * step) % (2 * lcm) in
    (do
      acc1 ←
          (if ltb place lcm then (do q ← checked_isize (c0 *ℤ c1); add_at acc place q) else (do
            m ← checked_isize (neg c0)
            q ← checked_isize (m *ℤ c1)
            add_at acc (place - lcm) q))
      mul_inner lcm at step c0 (j + 1) cs acc1)

-- Its outer loop, from index i on.
unfoldable pub mul_outer : ℕ → ℕ → ℕ → ℕ → List ℤ → List ℤ → List ℤ → Option (List ℤ)
mul_outer lcm step0 step1 i [] cs1 acc = some acc
mul_outer lcm step0 step1 i (c0 ∷ cs0) cs1 acc = do
  acc1 ← mul_inner lcm (i * step0) step1 c0 0 cs1 acc
  mul_outer lcm step0 step1 (i + 1) cs0 cs1 acc1

-- One of the two loops of `Add::add`, from index i on.
unfoldable pub add_scaled : ℕ → ℤ → ℕ → List ℤ → List ℤ → Option (List ℤ)
add_scaled step base i [] acc = some acc
add_scaled step base i (c ∷ cs) acc = do
  q ← checked_isize (c *ℤ base)
  acc1 ← add_at acc (i * step) q
  add_scaled step base (i + 1) cs acc1

-- A coefficient of a list that is spread out by pad, as `PartialEq::eq` reads it.
abbrev pub spread_at : ℕ → List ℤ → ℕ → Option ℤ
spread_at pad cs i = if i % pad == 0 then get_elem? cs (i / pad) else some (pos 0)

-- The loop of `PartialEq::eq`, for the n indices from i on.
unfoldable pub all_eq : ℕ → ℕ → ℕ → List ℤ → List ℤ → ℕ → Option Bool
all_eq zero pad0 pad1 cs0 cs1 i = some true
all_eq (suc n) pad0 pad1 cs0 cs1 i = do
  c0 ← spread_at pad0 cs0 i
  c1 ← spread_at pad1 cs1 i
  rest ← all_eq n pad0 pad1 cs0 cs1 (i + 1)
  some (eqb_ℤ c0 c1 && rest)

-- `[_, b, 0, c] if -b == *c` and the other patterns of `Scalar::phase`, in their order: the phase as
-- a numerator and a denominator. `positive` says that the real part of the value is positive.
unfoldable pub exact_phase : Bool → List ℤ → Option (ℤ × ℤ)
exact_phase positive (a ∷ b ∷ c ∷ d ∷ []) =
    if nat_abs c == 0 && eqb_ℤ (neg b) d
    then some (if positive then (pos 0, pos 1) else (pos 1, pos 1))
    else if nat_abs a == 0 && nat_abs c == 0 && nat_abs d == 0
    then some (if ltb_ℤ (pos 0) b then (pos 1, pos 4) else (pos 5, pos 4))
    else if nat_abs a == 0 && nat_abs b == 0 && nat_abs d == 0
    then some (if ltb_ℤ (pos 0) c then (pos 1, pos 2) else (pos 3, pos 2))
    else if nat_abs a == 0 && nat_abs b == 0 && nat_abs c == 0
    then some (if ltb_ℤ (pos 0) d then (pos 3, pos 4) else (pos 7, pos 4))
    else if nat_abs b == 0 && nat_abs d == 0 && eqb_ℤ a c
    then some (if ltb_ℤ (pos 0) a then (pos 1, pos 4) else (pos 5, pos 4))
    else if nat_abs a == 0 && nat_abs c == 0 && eqb_ℤ b d
    then some (if ltb_ℤ (pos 0) b then (pos 1, pos 2) else (pos 3, pos 2))
    else if nat_abs b == 0 && nat_abs d == 0 && eqb_ℤ (neg c) a
    then some (if ltb_ℤ (pos 0) c then (pos 3, pos 4) else (pos 7, pos 4))
    else none
exact_phase positive cs = none
