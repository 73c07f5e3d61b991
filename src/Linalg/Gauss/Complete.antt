-- ===== src/Linalg/Gauss/Complete.antt =====
-- The whole of `gauss_helper`, and `gauss`, `rank` and `inverse` on top of it.
use quizx.Prelude.{
  ℕ, zero, suc, ◌+◌, ◌-◌, ◌*◌, ◌≤◌, ◌<◌, ◌≡◌, refl, Bool, true, false, some, List, [], ◌∷◌, ◌++◌,
  length, min, ◌==◌, arith, Bool-cases, inl, inr, ap, sym, reverse, ◌∙◌, subst,
}
use mathlib.Core.List.{reverse-cons}
use quizx.Linalg.{Mat2, RowOps, num_rows, num_cols}
use quizx.Linalg.Bits.{bit, IsMat, num_cols-IsMat}
use quizx.Linalg.Gauss.{State, forward, backward, num_blocks, gauss_helper, rank}
use quizx.Linalg.Gauss.Loops.{Follows, Ready}
use quizx.Linalg.Gauss.Echelon.{Echelon, nth}
use quizx.Linalg.Gauss.Forward.{At, forward_lem, num_blocks_lem}
use quizx.Linalg.Gauss.Cleared.{Cleared, stack_of}
use quizx.Linalg.Gauss.Reduced.{Back, backward_lem}

stack_of-snoc :
    (c : ℕ) (pcs : List ℕ) (t : ℕ) → stack_of (c ∷ pcs) (suc t) ≡ stack_of pcs t ++ (c ∷ [])
stack_of-snoc c pcs zero = refl
stack_of-snoc c pcs (suc t) = ap (λ l. nth pcs t ∷ l) (stack_of-snoc c pcs t)

reverse-stack_of : (pcs : List ℕ) → reverse pcs ≡ stack_of pcs (length pcs)
reverse-stack_of [] = refl
reverse-stack_of (c ∷ pcs) =
    reverse-cons c pcs
    ∙ ap (λ l. l ++ (c ∷ [])) (reverse-stack_of pcs)
    ∙ sym (stack_of-snoc c pcs (length pcs))

-- `rank` pivots, in the echelon form, with nothing above them where the whole reduction is asked for.
pub record Eliminated (full : Bool) (rows cols rank : ℕ) (m : Mat2) : Type 0 where
  pub shape : IsMat rows cols m
  pub pivots : List ℕ
  pub form : Echelon rank cols pivots m
  pub few_rows : rank ≤ rows
  pub few_cols : rank ≤ cols
  pub above : full ≡ true → (q i : ℕ) → q < rank → i < q → bit m i (nth pivots q) ≡ false

-- Pivots in increasing order are not before their index.
pub nth-grows :
    (rank cols : ℕ) (pcs : List ℕ) (m : Mat2)
    → Echelon rank cols pcs m
    → (i : ℕ) → i < rank
    → i ≤ nth pcs i
nth-grows rank cols pcs m e zero h = omega arith
nth-grows rank cols pcs m e (suc i) h =
    omega
      (arith, nth-grows rank cols pcs m e i (omega arith), e.increasing i (suc i) (omega arith) h)

rank-cols : (rank cols : ℕ) (pcs : List ℕ) (m : Mat2) → Echelon rank cols pcs m → rank ≤ cols
rank-cols zero cols pcs m e = omega arith
rank-cols (suc r) cols pcs m e =
    omega (arith, nth-grows (suc r) cols pcs m e r (omega arith), e.below r (omega arith))

module _ {X : Type 0} ⦃o : RowOps X⦄ (rows cols : ℕ) (R : Mat2 → X → Type 0)
    (follows : Follows o rows cols R) where
  helper_plain :
      (blocksize : ℕ) (m : Mat2) (x : X) (s : State X)
      → 0 < blocksize
      → num_cols m ≡ cols
      → num_rows m ≡ rows
      → forward
          (num_blocks cols blocksize)
          0
          rows
          cols
          blocksize
          (record { m = m; x = x; pivot_row = 0; pivot_cols = [] })
        ≡ some s
      → gauss_helper false blocksize m x [] ≡ some (s, s.pivot_row)
  unfolding gauss_helper
  helper_plain blocksize m x s pos width height done =
      let nonzero : (blocksize == 0) ≡ false = ground arith in
      rw (nonzero, width, height, done) refl

  helper_none :
      (blocksize : ℕ) (m : Mat2) (x : X) (s : State X)
      → 0 < blocksize
      → num_cols m ≡ cols
      → num_rows m ≡ rows
      → forward
          (num_blocks cols blocksize)
          0
          rows
          cols
          blocksize
          (record { m = m; x = x; pivot_row = 0; pivot_cols = [] })
        ≡ some s
      → s.pivot_row ≡ 0
      → gauss_helper true blocksize m x [] ≡ some (s, s.pivot_row)
  unfolding gauss_helper
  helper_none blocksize m x s pos width height done empty =
      let nonzero : (blocksize == 0) ≡ false = ground arith in
      rw (nonzero, width, height, done, empty) refl

  helper_full :
      (blocksize : ℕ) (m : Mat2) (x : X) (s t : State X)
      → 0 < blocksize
      → num_cols m ≡ cols
      → num_rows m ≡ rows
      → forward
          (num_blocks cols blocksize)
          0
          rows
          cols
          blocksize
          (record { m = m; x = x; pivot_row = 0; pivot_cols = [] })
        ≡ some s
      → 0 < s.pivot_row
      → backward
          (num_blocks cols blocksize)
          cols
          blocksize
          (record s { pivot_row = s.pivot_row - 1 })
          (reverse s.pivot_cols)
        ≡ some t
      → gauss_helper true blocksize m x [] ≡ some (t, s.pivot_row)
  unfolding gauss_helper
  helper_full blocksize m x s t pos width height done pivots back =
      let nonzero : (blocksize == 0) ≡ false = ground arith in
      let some_pivot : (s.pivot_row == 0) ≡ false = ground arith in
      rw (nonzero, width, height, done, some_pivot, back) refl

  all_columns :
      (k : ℕ) (s : State X)
      → cols ≤ k
      → At rows cols R follows (min cols k) s
      → At rows cols R follows cols s
  all_columns k s h at =
      let all : min cols k ≡ cols = ground arith in subst (λ c. At rows cols R follows c s) all at

  -- What the first half leaves is where the second one starts.
  second_start :
      (k : ℕ) (s : State X)
      → At rows cols R follows cols s
      → cols ≤ k
      → Back rows cols R follows s.pivot_row
          (min cols k)
          s.pivot_row
          s.pivot_cols
          (record s { pivot_row = s.pivot_row - 1 })
  second_start k s at h = record {
    ready = record { shape = at.ready.shape; rel = at.ready.rel };
    cleared = record { form = at.form; above = λ q i a b c. absurd (omega arith) };
    row = refl;
    some_left = omega arith;
    bound = λ q a. ground (arith, at.form.below q a);
  }

  helper_first :
      (blocksize : ℕ) (m : Mat2) (x : X)
      → IsMat rows cols m
      → R m x
      → 0 < blocksize
      → (s : State X) × (forward
            (num_blocks cols blocksize)
            0
            rows
            cols
            blocksize
            (record { m = m; x = x; pivot_row = 0; pivot_cols = [] })
          ≡ some s)
        × At rows cols R follows cols s
  helper_first blocksize m x mat rel pos =
      let (lo, hi) = num_blocks_lem cols blocksize pos in
      let (s, done, at) =
        forward_lem rows cols R follows (num_blocks cols blocksize) 0 blocksize
          (record { m = m; x = x; pivot_row = 0; pivot_cols = [] })
          (record {
            ready = record { shape = mat; rel = rel };
            form = record {
              count = refl;
              below = λ i h. absurd (omega arith);
              increasing = λ i j h k. absurd (omega arith);
              one = λ i h. absurd (omega arith);
              left = λ i j h k. absurd (omega arith);
              rest = λ i j h k. absurd (ground arith);
            };
            fits = omega arith;
          })
          (omega (arith, hi)) in
      (
        s,
        done,
        all_columns (0 * blocksize + num_blocks cols blocksize * blocksize) s (omega (arith, lo))
            at,
      )

  helper_second :
      (blocksize : ℕ) (s : State X)
      → At rows cols R follows cols s
      → 0 < blocksize
      → 0 < s.pivot_row
      → (t : State X) × (backward
            (num_blocks cols blocksize)
            cols
            blocksize
            (record s { pivot_row = s.pivot_row - 1 })
            (reverse s.pivot_cols)
          ≡ some t)
        × Ready rows cols R follows t
        × Cleared s.pivot_row cols 0 s.pivot_cols t.m
  helper_second blocksize s at pos some_pivot =
      let (lo, hi) = num_blocks_lem cols blocksize pos in
      let stack : reverse s.pivot_cols ≡ stack_of s.pivot_cols s.pivot_row =
        reverse-stack_of s.pivot_cols ∙ ap (stack_of s.pivot_cols) at.form.count in
      rw stack (
        backward_lem rows cols R follows (num_blocks cols blocksize) blocksize s.pivot_row
          s.pivot_row s.pivot_cols (record s { pivot_row = s.pivot_row - 1 })
          (second_start (num_blocks cols blocksize * blocksize) s at lo) some_pivot at.fits hi)

  -- The result of `gauss_helper` with no pivots given: the companion is in step with the matrix.
  pub gauss_helper_lem :
      (full : Bool) (blocksize : ℕ) (m : Mat2) (x : X)
      → IsMat rows cols m
      → 0 < rows
      → R m x
      → 0 < blocksize
      → (s : State X) × (r : ℕ) × (gauss_helper full blocksize m x [] ≡ some (s, r))
        × Eliminated full rows cols r s.m
        × R s.m s.x
  unfolding num_rows
  gauss_helper_lem false blocksize m x mat height rel pos =
      let (s, done, at) = helper_first blocksize m x mat rel pos in
      (
        s,
        s.pivot_row,
        helper_plain blocksize m x s pos (num_cols-IsMat rows cols m mat height) mat.height done,
        record {
          shape = at.ready.shape;
          pivots = s.pivot_cols;
          form = at.form;
          few_rows = at.fits;
          few_cols = rank-cols s.pivot_row cols s.pivot_cols s.m at.form;
          above = λ h. absurd (ground arith);
        },
        at.ready.rel,
      )
  gauss_helper_lem true blocksize m x mat height rel pos =
      let (s, done, at) = helper_first blocksize m x mat rel pos in
      let width = num_cols-IsMat rows cols m mat height in
      elim (Bool-cases (s.pivot_row == 0)) [
        | inl empty ↦ (
          s,
          s.pivot_row,
          helper_none blocksize m x s pos width mat.height done (ground arith),
          record {
            shape = at.ready.shape;
            pivots = s.pivot_cols;
            form = at.form;
            few_rows = at.fits;
            few_cols = rank-cols s.pivot_row cols s.pivot_cols s.m at.form;
            above = λ h q i k. absurd (ground arith);
          },
          at.ready.rel,
        )
        | inr pivot ↦
            let (t, back, ready, cleared) = helper_second blocksize s at pos (ground arith) in
            (
              t,
              s.pivot_row,
              helper_full blocksize m x s t pos width mat.height done (ground arith) back,
              record {
                shape = ready.shape;
                pivots = s.pivot_cols;
                form = cleared.form;
                few_rows = at.fits;
                few_cols = rank-cols s.pivot_row cols s.pivot_cols t.m cleared.form;
                above = λ h q i a b. cleared.above q i (omega arith) a b;
              },
              ready.rel,
            )
      ]
