-- ===== src/Linalg/Gauss/Results.antt =====
-- linalg.rs: what `gauss`, `rank` and `inverse` return.
use quizx.Prelude.{
  ℕ, zero, suc, ◌+◌, ◌-◌, ◌≤◌, ◌<◌, ◌≡◌, refl, Bool, true, false, ◌&&◌, none, some, [], ◌==◌, ltb,
  if◌then◌else◌, arith, Bool-cases, inl, inr, sym, ◌∙◌, ◌⊎◌, subst,
}
use quizx.Linalg.{Mat2, unit_ops, mat_ops, num_rows, num_cols, id}
use quizx.Linalg.Bits.{bit, IsMat, bit_below, num_cols-IsMat, row_add-RowAdded}
use quizx.Linalg.Constructed.{id-IsMat}
use quizx.Linalg.Gauss.{State, gauss_helper, gauss, rank, inverse}
use quizx.Linalg.Gauss.Loops.{Follows}
use quizx.Linalg.Gauss.Echelon.{nth}
use quizx.Linalg.Gauss.Complete.{Eliminated, gauss_helper_lem, nth-grows}
use quizx.Linalg.Gauss.Solutions.{
  SameSolutions, SameSolutions-RowAdded, unit_Follows, sum_of, row_sum,
}

gauss_steps :
    (full : Bool) (m : Mat2) (s : State Unit) (r : ℕ)
    → gauss_helper ⦃o = unit_ops⦄ full 3 m tt [] ≡ some (s, r)
    → gauss m full ≡ some (s.m, r)
unfolding gauss
gauss_steps full m s r h = rw h refl

-- On a matrix of bits with a row, `gauss` does not panic. It returns a matrix of the same shape with
-- the same solutions of the homogeneous system, in echelon form with as many pivots as the rank it
-- returns, and no entry above a pivot where the whole reduction is asked for.
pub gauss_lem :
    (full : Bool) (rows cols : ℕ) (m : Mat2)
    → IsMat rows cols m
    → 0 < rows
    → (m' : Mat2) × (r : ℕ) × (gauss m full ≡ some (m', r))
      × Eliminated full rows cols r m'
      × SameSolutions cols m m'
gauss_lem full rows cols m mat pos =
    let (s, r, done, reduced, same) =
      gauss_helper_lem ⦃o = unit_ops⦄ rows cols (λ m' x. SameSolutions cols m m')
        (unit_Follows rows cols m) full 3 m tt mat pos (λ v. (λ h. h, λ h. h)) (omega arith) in
    (s.m, r, gauss_steps full m s r done, reduced, same)

rank_steps : (m m' : Mat2) (r : ℕ) → gauss m false ≡ some (m', r) → rank m ≡ some r
unfolding rank
rank_steps m m' r h = rw h refl

-- On a matrix of bits with a row, `rank` returns the number of pivots of an echelon form with the same
-- solutions, which is at most the number of rows and of columns.
pub rank_lem :
    (rows cols : ℕ) (m : Mat2)
    → IsMat rows cols m
    → 0 < rows
    → (m' : Mat2) × (r : ℕ) × (rank m ≡ some r)
      × (r ≤ rows)
      × (r ≤ cols)
      × Eliminated false rows cols r m'
      × SameSolutions cols m m'
rank_lem rows cols m mat pos =
    let (m', r, done, reduced, same) = gauss_lem false rows cols m mat pos in
    (m', r, rank_steps m m' r done, reduced.few_rows, reduced.few_cols, reduced, same)

-- With as many pivots as rows and columns, the reduced matrix is the identity.
Eliminated-full :
    (n : ℕ) (m : Mat2) (i j : ℕ) → Eliminated true n n n m → i < n → j < n → bit m i j ≡ (i == j)
Eliminated-full n m i j e hi hj =
    let at : nth e.pivots j ≡ j = pivot_at j hj in
    elim (Bool-cases (i == j)) [
      | inl same ↦ let here : i ≡ j = ground arith in ground (arith, e.form.one j hj, at, here)
      | inr other ↦ elim (Bool-cases (ltb i j)) [
        | inl above ↦ ground (arith, e.above refl j i hj (ground arith), at)
        | inr under ↦ ground (arith, e.form.left i j hi, pivot_at i hi)
      ]
    ]
  where
    -- There is room for no gap.
    gap : (d k : ℕ) → k + suc d ≡ n → nth e.pivots k ≤ k
    gap zero k h = omega (arith, e.form.below k (omega arith))
    gap (suc d) k h = omega (
      arith,
      gap d (suc k) (omega arith),
      e.form.increasing k (suc k) (omega arith) (omega arith),
    )

    pivot_at : (k : ℕ) → k < n → nth e.pivots k ≡ k
    pivot_at k h =
        omega (arith, nth-grows n n e.pivots m e.form k h, gap (n - suc k) k (omega arith))

-- The companion of `inverse`: row `i` of `x` says which rows of `a` were added up to row `i` of `m`.
record Combines (n : ℕ) (a m x : Mat2) : Type 0 where
  shape : IsMat n n x
  combination : (i j : ℕ) → bit m i j ≡ sum_of n (bit x i) (λ k. bit a k j)
  same : SameSolutions n a m

mat_Follows : (n : ℕ) (a : Mat2) → Follows mat_ops n n (Combines n a)
mat_Follows n a = record {
  follow = λ m m' x r0 r1 rel h0 h1 ne added.
      let (x', done, cells) = row_add-RowAdded n n x r0 r1 rel.shape h0 h1 in
      (
        x',
        unfold mat_ops in done,
        record {
          shape = cells.shape;
          combination = λ i j.
              added.bits i j
              ∙ ground (
                arith,
                row_sum n n x x' r0 r1 (λ k. bit a k j) i cells,
                rel.combination i j,
                rel.combination r0 j,
              );
          same = λ v.
              let step = SameSolutions-RowAdded n n m m' r0 r1 ne added v in
              (λ h. step.0 ((rel.same v).0 h), λ h. (rel.same v).1 (step.1 h));
        },
      );
}

-- The sum that the identity picks.
sum_of-id :
    (n i : ℕ) (f v : ℕ → Bool)
    → ((j : ℕ) → j < n → f j ≡ (i == j))
    → sum_of n f v ≡ (ltb i n && v i)
sum_of-id zero i f v h = ground arith
sum_of-id (suc n) i f v h = elim (Bool-cases (i == n)) [
  | inl same ↦
      let here : i ≡ n = ground arith in
      ground (arith, sum_of-id n i f v (λ j l. h j (omega arith)), h n (omega arith), here)
  | inr other ↦ ground (arith, sum_of-id n i f v (λ j l. h j (omega arith)), h n (omega arith))
]

Combines-id : (n : ℕ) (a : Mat2) → IsMat n n a → Combines n a a (id n)
Combines-id n a mat =
    let (shape, cells) = id-IsMat n in
    record {
      shape = shape;
      combination = λ i j. sym (
          sum_of-id n i (bit (id n) i) (λ k. bit a k j) (λ k h. ground (arith, cells i k))
          ∙ inside i j);
      same = λ v. (λ h. h, λ h. h);
    }
  where
    inside : (i j : ℕ) → (ltb i n && bit a i j) ≡ bit a i j
    inside i j = elim (Bool-cases (ltb i n)) [
      | inl within ↦ ground arith
      | inr beyond ↦ ground (arith, bit_below a.d i j (ground (arith, mat.height)))
    ]

inverse_steps :
    (n : ℕ) (m : Mat2) (s : State Mat2) (r : ℕ)
    → num_rows m ≡ n
    → num_cols m ≡ n
    → gauss_helper ⦃o = mat_ops⦄ true 3 m (id n) [] ≡ some (s, r)
    → inverse m ≡ some (if ltb r n then none else some s.x)
unfolding inverse
inverse_steps n m s r height width h =
    let square : (n == n) ≡ true = ground arith in rw (height, width, square, h) refl

-- On a square matrix of bits with a row, `inverse` does not panic. Either it returns a matrix of the
-- same shape whose product with the argument in F2 is the identity, or it returns none and the
-- matrix has the same solutions as one in echelon form with fewer pivots than rows.
pub inverse_lem :
    (n : ℕ) (m : Mat2)
    → IsMat n n m
    → 0 < n
    → ((inv : Mat2) × (inverse m ≡ some (some inv))
        × IsMat n n inv
        × ((i j : ℕ) → i < n → j < n → sum_of n (bit inv i) (λ k. bit m k j) ≡ (i == j)))
      ⊎ ((m' : Mat2) × (r : ℕ) × (inverse m ≡ some none)
          × (r < n)
          × Eliminated true n n r m'
          × SameSolutions n m m')
unfolding num_rows
inverse_lem n m mat pos =
    let (s, r, done, reduced, rel) =
      gauss_helper_lem ⦃o = mat_ops⦄ n n (Combines n m) (mat_Follows n m) true 3 m (id n) mat pos
        (Combines-id n m mat) (omega arith) in
    elim (Bool-cases (ltb r n)) [
      | inl less ↦ inr (
        s.m,
        r,
        inverse_steps n m s r mat.height (num_cols-IsMat n n m mat pos) done ∙ rw less refl,
        ground arith,
        reduced,
        rel.same,
      )
      | inr full ↦
          let all : r ≡ n = ground (arith, reduced.few_rows) in
          inl (
            s.x,
            inverse_steps n m s r mat.height (num_cols-IsMat n n m mat pos) done ∙ rw full refl,
            rel.shape,
            λ i j hi hj.
                sym (rel.combination i j)
                ∙ Eliminated-full n s.m i j (subst (λ k. Eliminated true n n k s.m) all reduced) hi
                    hj,
          )
    ]
