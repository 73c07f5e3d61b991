-- ===== src/Types.antt =====
-- quizx/src/graph.rs, the data types of a ZX-diagram: vertex types, edge types, basis elements.
use quizx.Prelude.{ℕ, ◌≡◌, ◌==◌, Bool, true, false, ◌||◌, if◌then◌else◌, arith}

-- enum VType
pub data VType : Type 0 where
  b z x h w_input w_output z_box : VType

-- `#[derive(PartialEq)]`: two values are equal exactly when their discriminants are.
abbrev pub vtype_code : VType → ℕ
vtype_code VType.b = 0
vtype_code VType.z = 1
vtype_code VType.x = 2
vtype_code VType.h = 3
vtype_code VType.w_input = 4
vtype_code VType.w_output = 5
vtype_code VType.z_box = 6

abbrev pub vtype_eq : VType → VType → Bool
vtype_eq s t = vtype_code s == vtype_code t

-- enum EType
pub data EType : Type 0 where
  n h wio : EType

abbrev pub etype_code : EType → ℕ
etype_code EType.n = 0
etype_code EType.h = 1
etype_code EType.wio = 2

abbrev pub etype_eq : EType → EType → Bool
etype_eq s t = etype_code s == etype_code t

abbrev pub opposite : EType → EType
opposite EType.n = EType.h
opposite EType.h = EType.n
opposite EType.wio = EType.wio

abbrev pub merge : EType → EType → EType
merge et0 et1 = if etype_eq et0 EType.n then et1 else opposite et1

-- enum BasisElem
pub data BasisElem : Type 0 where
  z0 z1 x0 x1 : BasisElem

abbrev pub is_z : BasisElem → Bool
is_z BasisElem.z0 = true
is_z BasisElem.z1 = true
is_z _ = false

abbrev pub is_x : BasisElem → Bool
is_x BasisElem.x0 = true
is_x BasisElem.x1 = true
is_x _ = false

abbrev pub flipped : BasisElem → BasisElem
flipped BasisElem.z0 = BasisElem.z1
flipped BasisElem.z1 = BasisElem.z0
flipped BasisElem.x0 = BasisElem.x1
flipped BasisElem.x1 = BasisElem.x0

-- `*self == Z1 || *self == X1`, the test of `BasisElem::phase`
abbrev pub is_flipped : BasisElem → Bool
is_flipped BasisElem.z1 = true
is_flipped BasisElem.x1 = true
is_flipped _ = false

-- Z and X spiders
abbrev pub is_spider : VType → Bool
is_spider t = vtype_eq t VType.z || vtype_eq t VType.x

pub etype_eq→≡ : (s t : EType) → etype_eq s t ≡ true → s ≡ t
etype_eq→≡ s t e = ground arith

pub vtype_eq→≡ : (s t : VType) → vtype_eq s t ≡ true → s ≡ t
vtype_eq→≡ s t e = ground arith

pub etype_eq_refl : (s : EType) → etype_eq s s ≡ true
etype_eq_refl s = ground arith
