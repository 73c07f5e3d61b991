-- ===== src/Linalg/Gauss/Reduced.antt =====
-- The second half of `gauss_helper`: it succeeds, and the pivots' columns are unit vectors then.
use quizx.Prelude.{
  ℕ, zero, suc, ◌+◌, ◌-◌, ◌*◌, ◌≤◌, ◌<◌, ◌≡◌, refl, some, List, [], ◌∷◌, min, ◌==◌, ltb, arith,
  Bool-cases, inl, inr, ◌∙◌,
}
use quizx.Linalg.{Mat2, RowOps}
use quizx.Linalg.Gauss.{State, clear_rows, dedup_down, clear_pivots, backward}
use quizx.Linalg.Gauss.Loops.{Follows, Ready, clear_rows_lem}
use quizx.Linalg.Gauss.Dedup.{dedup_down_lem}
use quizx.Linalg.Gauss.Echelon.{nth}
use quizx.Linalg.Gauss.Forward.{next_multiple}
use quizx.Linalg.Gauss.Cleared.{Cleared-add, Cleared-next, stack_of, Cleared}

module _ {X : Type 0} ⦃o : RowOps X⦄ (rows cols : ℕ) (R : Mat2 → X → Type 0)
    (follows : Follows o rows cols R) where
  -- `t` pivots are left to clear, all of them below column `k`.
  pub record Back (rank k t : ℕ) (pcs : List ℕ) (s : State X) : Type 0 where
    pub ready : Ready rows cols R follows s
    pub cleared : Cleared rank cols t pcs s.m
    pub row : s.pivot_row ≡ t - 1
    pub some_left : t ≤ rank
    pub bound : (q : ℕ) → q < t → nth pcs q < k

  clear_pivots_stop :
      (pcol : ℕ) (rest : List ℕ) (i0 i1 : ℕ) (s : State X)
      → pcol < i0
      → clear_pivots (pcol ∷ rest) i0 i1 s ≡ some (s, pcol ∷ rest)
  unfolding clear_pivots
  clear_pivots_stop pcol rest i0 i1 s h = ground arith

  clear_pivots_steps :
      (pcol : ℕ) (rest : List ℕ) (i0 i1 : ℕ) (s s1 : State X) (r : State X × List ℕ)
      → i0 ≤ pcol
      → pcol < i1
      → clear_rows s.pivot_row 0 s.pivot_row pcol s ≡ some s1
      → clear_pivots rest i0 i1 (record s1 { pivot_row = s1.pivot_row - 1 }) ≡ some r
      → clear_pivots (pcol ∷ rest) i0 i1 s ≡ some r
  unfolding clear_pivots
  clear_pivots_steps pcol rest i0 i1 s s1 r h0 h1 a b = ground arith

  at_row :
      (r t p : ℕ) (s s1 : State X)
      → r ≡ t
      → clear_rows t 0 t p s ≡ some s1
      → clear_rows r 0 r p s ≡ some s1
  at_row r t p s s1 here done = rw here done

  -- The round for pivot `t`.
  clear_pivot :
      (rank k t : ℕ) (pcs : List ℕ) (s : State X)
      → Back rank k (suc t) pcs s
      → rank ≤ rows
      → (s1 : State X) × (clear_rows s.pivot_row 0 s.pivot_row (nth pcs t) s ≡ some s1)
        × Back rank k t pcs (record s1 { pivot_row = s1.pivot_row - 1 })
  clear_pivot rank k t pcs s b hr =
      let here : s.pivot_row ≡ t = omega (arith, b.row) in
      let (s1, done, same, cells) =
        clear_rows_lem rows cols R follows t 0 t (nth pcs t) s b.ready (omega (arith, b.some_left))
          (omega (arith, b.some_left)) (b.cleared.form.below t (omega (arith, b.some_left)))
          (inr (omega arith)) in
      (
        s1,
        at_row s.pivot_row t (nth pcs t) s s1 here done,
        record {
          ready = record { shape = same.ready.shape; rel = same.ready.rel };
          cleared =
              Cleared-next rank cols t pcs s.m s1.m b.cleared (omega (arith, b.some_left)) cells;
          row = omega (arith, same.same_row);
          some_left = omega (arith, b.some_left);
          bound = λ q h. b.bound q (omega arith);
        },
      )

  -- All pivots of a section.
  clear_pivots_lem :
      (rank i0 i1 t : ℕ) (pcs : List ℕ) (s : State X)
      → Back rank i1 t pcs s
      → rank ≤ rows
      → (s' : State X) × (t' : ℕ) × (clear_pivots (stack_of pcs t) i0 i1 s
          ≡ some (s', stack_of pcs t'))
        × Back rank i0 t' pcs s'
  clear_pivots_lem rank i0 i1 zero pcs s b hr = (
    s,
    0,
    unfold clear_pivots in refl,
    record {
      ready = b.ready;
      cleared = b.cleared;
      row = b.row;
      some_left = b.some_left;
      bound = λ q h. absurd (omega arith);
    },
  )
  clear_pivots_lem rank i0 i1 (suc t) pcs s b hr = elim (Bool-cases (ltb (nth pcs t) i0)) [
    | inl stop ↦ (
      s,
      suc t,
      clear_pivots_stop (nth pcs t) (stack_of pcs t) i0 i1 s (ground arith),
      record {
        ready = b.ready;
        cleared = b.cleared;
        row = b.row;
        some_left = b.some_left;
        bound = λ q h. ground (arith, b.cleared.form.increasing q t, b.some_left);
      },
    )
    | inr go ↦
        let (s1, first, b1) = clear_pivot rank i1 t pcs s b hr in
        let (s2, t', rest, b2) =
          clear_pivots_lem rank i0 i1 t pcs (record s1 { pivot_row = s1.pivot_row - 1 }) b1 hr in
        (
          s2,
          t',
          clear_pivots_steps (nth pcs t) (stack_of pcs t) i0 i1 s s1 (s2, stack_of pcs t')
              (ground arith) (b.bound t (omega arith)) first rest,
          b2,
        )
  ]

  -- The search for duplicates in a section.
  dedup_Back :
      (rank i0 i1 t : ℕ) (pcs : List ℕ) (s : State X)
      → Back rank i1 t pcs s
      → 0 < rank
      → rank ≤ rows
      → i0 ≤ i1
      → i1 ≤ cols
      → (s' : State X) × (dedup_down (s.pivot_row + 1) s [] i0 i1 ≡ some s') × Back rank i1 t pcs s'
  dedup_Back rank i0 i1 t pcs s b pos hr h0 h1 =
      let (s1, done, same, cleared) =
        dedup_down_lem rows cols R follows (Cleared rank cols t pcs) (s.pivot_row + 1)
          (s.pivot_row + 1) s [] i0 i1 b.ready b.cleared tt (omega (arith, b.row, b.some_left))
          (omega arith) h0 h1
          (λ m m' q k hk hq j a.
            Cleared-add rank cols t pcs m m' q (λ i. i == k) j (omega (arith, b.row))
              (λ i h. ground arith) a.bits) in
      (
        s1,
        done,
        record {
          ready = same.ready;
          cleared = cleared;
          row = same.same_row ∙ b.row;
          some_left = b.some_left;
          bound = b.bound;
        },
      )

  backward_steps :
      (sec blocksize : ℕ) (s s1 s2 s3 : State X) (stack stack1 : List ℕ)
      → dedup_down (s.pivot_row + 1) s [] (sec * blocksize) (min cols ((sec + 1) * blocksize))
        ≡ some s1
      → clear_pivots stack (sec * blocksize) (min cols ((sec + 1) * blocksize)) s1
        ≡ some (s2, stack1)
      → backward sec cols blocksize s2 stack1 ≡ some s3
      → backward (suc sec) cols blocksize s stack ≡ some s3
  unfolding backward
  backward_steps sec blocksize s s1 s2 s3 stack stack1 a b c = rw (a, b, c) refl

  Back-bound :
      (rank k k' t : ℕ) (pcs : List ℕ) (s : State X)
      → k ≤ k'
      → Back rank k t pcs s
      → Back rank k' t pcs s
  Back-bound rank k k' t pcs s h b = record {
    ready = b.ready;
    cleared = b.cleared;
    row = b.row;
    some_left = b.some_left;
    bound = λ q l. omega (arith, b.bound q l);
  }

  pub backward_lem :
      (sec blocksize rank t : ℕ) (pcs : List ℕ) (s : State X)
      → Back rank (min cols (sec * blocksize)) t pcs s
      → 0 < rank
      → rank ≤ rows
      → sec * blocksize ≤ cols + blocksize
      → (s' : State X) × (backward sec cols blocksize s (stack_of pcs t) ≡ some s')
        × Ready rows cols R follows s'
        × Cleared rank cols 0 pcs s'.m
  backward_lem zero blocksize rank zero pcs s b pos hr hs =
      (s, unfold backward in refl, b.ready, b.cleared)
  backward_lem zero blocksize rank (suc t) pcs s b pos hr hs =
      absurd (ground (arith, b.bound t (omega arith)))
  backward_lem (suc sec) blocksize rank t pcs s b pos hr hs =
      let next : (sec + 1) * blocksize ≡ sec * blocksize + blocksize =
        next_multiple sec blocksize in
      let same : suc sec * blocksize ≡ sec * blocksize + blocksize = omega arith in
      let (s1, deduped, b1) =
        dedup_Back rank (sec * blocksize) (min cols ((sec + 1) * blocksize)) t pcs s
          (Back-bound rank _ (min cols ((sec + 1) * blocksize)) t pcs s (ground arith) b) pos hr
          (ground arith) (ground arith) in
      let (s2, t', popped, b2) =
        clear_pivots_lem rank (sec * blocksize) (min cols ((sec + 1) * blocksize)) t pcs s1 b1 hr in
      let (s3, rest, ready, cleared) =
        backward_lem sec blocksize rank t' pcs s2
          (Back-bound rank (sec * blocksize) (min cols (sec * blocksize)) t' pcs s2 (ground arith)
            b2)
          pos hr (omega arith) in
      (
        s3,
        backward_steps sec blocksize s s1 s2 s3 (stack_of pcs t) (stack_of pcs t') deduped popped
            rest,
        ready,
        cleared,
      )
