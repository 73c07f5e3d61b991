-- ===== src/Linalg/Product.antt =====
-- quizx/src/linalg.rs: the product of two matrices, the transpose, and the column operations.
use quizx.Prelude.{
  ℕ, zero, suc, ◌+◌, Bool, Option, some, List, [], ◌∷◌, get_elem?, set, bit_xor, bit_and, ◌>>=◌,
  ◌>>◌, guard, ◌==◌, if◌then◌else◌,
}
use quizx.Linalg.{Mat2, entry, num_rows, num_cols}

-- `(i..i + n).map(f).collect()` for an `f` that may panic
unfoldable pub range_map? {ℓ} : {A : Type ℓ} → ℕ → ℕ → (ℕ → Option A) → Option (List A)
range_map? i zero f = some []
range_map? i (suc n) f = do a ← f i; rest ← range_map? (i + 1) n f; some (a ∷ rest)

-- `Mat2::build` for an `f` that may panic
unfoldable pub build? : ℕ → ℕ → (ℕ → ℕ → Option Bool) → Option Mat2
unfolding range_map?
build? rows cols f = do
  d ← range_map? 0 rows (λ x. range_map? 0 cols (λ y. do b ← f x y; some (if b then 1 else 0)))
  some (record { d = d })

unfoldable pub transpose : Mat2 → Option Mat2
unfolding build?
transpose m = build? (num_cols m) (num_rows m) (λ i j. do e ← entry m j i; some (e == 1))

-- `for i in i..i + n { b ^= self.d[x][i] & rhs.d[i][y] }`
unfoldable pub dot : Mat2 → Mat2 → ℕ → ℕ → ℕ → ℕ → ℕ → Option ℕ
dot m rhs x y zero i b = some b
dot m rhs x y (suc n) i b = do
  e ← entry m x i
  f ← entry rhs i y
  dot m rhs x y n (i + 1) (bit_xor b (bit_and e f))

-- `&self * &rhs`
unfoldable pub mul : Mat2 → Mat2 → Option Mat2
unfolding build? dot
mul m rhs = do
  guard (num_cols m == num_rows rhs)
  build? (num_rows m) (num_cols rhs) (λ x y. do b ← dot m rhs x y (num_cols m) 0 0; some (b == 1))

-- `self.d[i][c1] ^= self.d[i][c0]` in each row
unfoldable pub col_add_rows : List (List ℕ) → ℕ → ℕ → Option (List (List ℕ))
col_add_rows [] c0 c1 = some []
col_add_rows (r ∷ rs) c0 c1 = do
  b ← get_elem? r c1
  a ← get_elem? r c0
  rest ← col_add_rows rs c0 c1
  some (set r c1 (bit_xor b a) ∷ rest)

unfoldable pub col_add : Mat2 → ℕ → ℕ → Option Mat2
unfolding col_add_rows
col_add m c0 c1 = do d ← col_add_rows m.d c0 c1; some (record { d = d })

unfoldable pub col_swap_rows : List (List ℕ) → ℕ → ℕ → Option (List (List ℕ))
col_swap_rows [] c0 c1 = some []
col_swap_rows (r ∷ rs) c0 c1 = do
  a ← get_elem? r c0
  b ← get_elem? r c1
  rest ← col_swap_rows rs c0 c1
  some (set (set r c0 b) c1 a ∷ rest)

unfoldable pub col_swap : Mat2 → ℕ → ℕ → Option Mat2
unfolding col_swap_rows
col_swap m c0 c1 = do d ← col_swap_rows m.d c0 c1; some (record { d = d })
