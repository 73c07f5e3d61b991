-- ===== src/Linalg.antt =====
-- quizx/src/linalg.rs: matrices over F2. An entry is a `u8`; an index out of range is a panic.
pub mod Gauss
pub mod Product
pub mod Bits
pub mod Constructed
use quizx.Prelude.{
  ℕ, zero, suc, ◌+◌, ◌*◌, ◌%◌, ◌^◌, ◌≡◌, Bool, true, false, Option, none, some, List, [], ◌∷◌, map,
  length, get_elem?, get_or, set, bit_xor, bit_and, ◌>>=◌, ◌>>◌, guard, ◌==◌, if◌then◌else◌,
}

pub record Mat2 : Type 0 where
  pub d : List (List ℕ)

-- trait RowOps
pub record RowOps {ℓ} (X : Type ℓ) : Type ℓ where
  -- add r0 to r1
  pub row_add : X → ℕ → ℕ → Option X
  pub row_swap : X → ℕ → ℕ → Option X

-- impl RowOps for ()
abbrev pub unit_ops : RowOps (Unit {0})
unit_ops = record { row_add = λ x r0 r1. some x; row_swap = λ x r0 r1. some x }

-- `(i..i + n).map(f)`
unfoldable pub range_map {ℓ} : {A : Type ℓ} → ℕ → ℕ → (ℕ → A) → List A
range_map i zero f = []
range_map i (suc n) f = f i ∷ range_map (i + 1) n f

unfoldable pub build : ℕ → ℕ → (ℕ → ℕ → Bool) → Mat2
unfolding range_map
build rows cols f = record {
  d = range_map 0 rows (λ x. range_map 0 cols (λ y. if f x y then 1 else 0));
}

unfoldable pub zeros : ℕ → ℕ → Mat2
zeros rows cols = build rows cols (λ x y. false)

unfoldable pub ones : ℕ → ℕ → Mat2
ones rows cols = build rows cols (λ x y. true)

unfoldable pub id : ℕ → Mat2
unfolding build
id dim = build dim dim (λ x y. x == y)

unfoldable pub unit_vector : ℕ → ℕ → Mat2
unit_vector dim i = build dim 1 (λ x y. x == i)

unfoldable pub num_rows : Mat2 → ℕ
num_rows m = length m.d

unfoldable pub num_cols : Mat2 → ℕ
num_cols m = elim m.d [ [] ↦ 0 | r ∷ rs ↦ length r ]

-- `self[i][j]`
unfoldable pub entry : Mat2 → ℕ → ℕ → Option ℕ
entry m i j = do r ← get_elem? m.d i; get_elem? r j

-- `for i in 0..n { r1[i] ^= r0[i] }`, with `r0` read as it is before the loop
unfoldable pub xor_prefix : ℕ → List ℕ → List ℕ → Option (List ℕ)
xor_prefix zero r1 r0 = some r1
xor_prefix (suc n) [] r0 = none
xor_prefix (suc n) (b ∷ r1) [] = none
xor_prefix (suc n) (b ∷ r1) (a ∷ r0) = do r ← xor_prefix n r1 r0; some (bit_xor b a ∷ r)

-- Add row r0 to row r1. With no columns no row is read.
unfoldable pub row_add : Mat2 → ℕ → ℕ → Option Mat2
unfolding num_cols xor_prefix
row_add m r0 r1 = elim (num_cols m) [
  | zero ↦ some m
  | suc n ↦ (do
    x ← get_elem? m.d r1
    y ← get_elem? m.d r0
    z ← xor_prefix (suc n) x y
    some (record { d = set m.d r1 z }))
]

-- `self.d.swap(r0, r1)`
unfoldable pub row_swap : Mat2 → ℕ → ℕ → Option Mat2
row_swap m r0 r1 = do
  x ← get_elem? m.d r0
  y ← get_elem? m.d r1
  some (record { d = set (set m.d r0 y) r1 x })

instance unfoldable pub mat_ops : RowOps Mat2
mat_ops = record { row_add = row_add; row_swap = row_swap }

-- `r.iter().sum::<u8>()`, with wrap-around
unfoldable pub sum_u8 : List ℕ → ℕ
sum_u8 [] = 0
sum_u8 (x ∷ xs) = (x + sum_u8 xs) % 2 ^ 8

unfoldable pub row_weight : Mat2 → ℕ → Option ℕ
unfolding sum_u8
row_weight m i = do r ← get_elem? m.d i; some (sum_u8 r)

unfoldable pub weight : Mat2 → ℕ
unfolding sum_u8
weight m = sum_u8 (map sum_u8 m.d)

-- The rows, numbered from `i`, whose weight is 1.
unfoldable pub unit_rows_from : ℕ → List (List ℕ) → List ℕ
unit_rows_from i [] = []
unit_rows_from i (r ∷ rs) =
    let rest = unit_rows_from (i + 1) rs in if sum_u8 r == 1 then i ∷ rest else rest

unfoldable pub unit_rows : Mat2 → List ℕ
unfolding unit_rows_from sum_u8
unit_rows m = unit_rows_from 0 m.d
