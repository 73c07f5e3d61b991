-- ===== src/Linalg/Constructed.antt =====
-- linalg.rs: the entries of the matrices that `build` makes, and so of `id`.
use quizx.Prelude.{
  ℕ, zero, suc, ◌+◌, ◌≡◌, refl, Bool, ◌&&◌, List, length, ◌==◌, ltb, if◌then◌else◌, arith, ap, ◌∙◌,
  subst,
}
use quizx.Linalg.{build, range_map, id}
use quizx.Linalg.Bits.{bit, row_bit, bit_of, IsMat, AllBits, AllRows}

row_made : ℕ → ℕ → (ℕ → ℕ → Bool) → ℕ → List ℕ
unfolding range_map
row_made k n f x = range_map k n (λ y. if f x y then 1 else 0)

length-row_made : (k n : ℕ) (f : ℕ → ℕ → Bool) (x : ℕ) → length (row_made k n f x) ≡ n
unfolding row_made
length-row_made k zero f x = refl
length-row_made k (suc n) f x = ap suc (length-row_made (k + 1) n f x)

AllBits-row_made : (k n : ℕ) (f : ℕ → ℕ → Bool) (x : ℕ) → AllBits (row_made k n f x)
unfolding row_made
AllBits-row_made k zero f x = tt
AllBits-row_made k (suc n) f x = (ground arith, AllBits-row_made (k + 1) n f x)

row_bit-row_made :
    (k n : ℕ) (f : ℕ → ℕ → Bool) (x j : ℕ) → row_bit (row_made k n f x) j ≡ (ltb j n && f x (k + j))
unfolding row_made
row_bit-row_made k zero f x j = ground arith
row_bit-row_made k (suc n) f x zero = let at : k + zero ≡ k = omega arith in rw at (ground arith)
row_bit-row_made k (suc n) f x (suc j) =
    let at : k + suc j ≡ k + 1 + j = omega arith in
    row_bit-row_made (k + 1) n f x j ∙ rw at (ground arith)

rows_made : ℕ → ℕ → ℕ → (ℕ → ℕ → Bool) → List (List ℕ)
unfolding row_made range_map
rows_made k n cols f = range_map k n (row_made 0 cols f)

length-rows_made : (k n cols : ℕ) (f : ℕ → ℕ → Bool) → length (rows_made k n cols f) ≡ n
unfolding rows_made
length-rows_made k zero cols f = refl
length-rows_made k (suc n) cols f = ap suc (length-rows_made (k + 1) n cols f)

AllRows-rows_made : (k n cols : ℕ) (f : ℕ → ℕ → Bool) → AllRows cols (rows_made k n cols f)
unfolding rows_made
AllRows-rows_made k zero cols f = tt
AllRows-rows_made k (suc n) cols f =
    (length-row_made 0 cols f k, AllBits-row_made 0 cols f k, AllRows-rows_made (k + 1) n cols f)

bit_of-rows_made :
    (k n cols : ℕ) (f : ℕ → ℕ → Bool) (i j : ℕ)
    → bit_of (rows_made k n cols f) i j ≡ ((ltb i n && ltb j cols) && f (k + i) j)
unfolding rows_made
bit_of-rows_made k zero cols f i j = ground arith
bit_of-rows_made k (suc n) cols f zero j =
    let at : k + zero ≡ k = omega arith in row_bit-row_made 0 cols f k j ∙ rw at (ground arith)
bit_of-rows_made k (suc n) cols f (suc i) j =
    let at : k + suc i ≡ k + 1 + i = omega arith in
    bit_of-rows_made (k + 1) n cols f i j ∙ rw at (ground arith)

-- `build` makes a matrix of bits of the given shape whose entries are given by the function.
pub build-IsMat :
    (rows cols : ℕ) (f : ℕ → ℕ → Bool)
    → IsMat rows cols (build rows cols f)
      × ((i j : ℕ) → bit (build rows cols f) i j ≡ ((ltb i rows && ltb j cols) && f i j))
unfolding build rows_made
build-IsMat rows cols f = (
  record { height = length-rows_made 0 rows cols f; width = AllRows-rows_made 0 rows cols f },
  λ i j.
      let at : 0 + i ≡ i = omega arith in
      subst (λ k. bit_of (rows_made 0 rows cols f) i j ≡ ((ltb i rows && ltb j cols) && f k j)) at
        (bit_of-rows_made 0 rows cols f i j),
)

pub id-IsMat :
    (n : ℕ) → IsMat n n (id n) × ((i j : ℕ) → bit (id n) i j ≡ ((ltb i n && ltb j n) && (i == j)))
unfolding id
id-IsMat n = build-IsMat n n (λ x y. x == y)
