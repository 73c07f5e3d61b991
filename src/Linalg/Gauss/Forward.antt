-- ===== src/Linalg/Gauss/Forward.antt =====
-- The first half of `gauss_helper`: it succeeds, and it ends in echelon form.
use quizx.Prelude.{
  ℕ, zero, suc, ◌+◌, ◌-◌, ◌*◌, ◌/◌, ◌%◌, ◌≤◌, ◌<◌, ◌≡◌, ◌≢◌, refl, true, false, ◌&&◌, none, some,
  List, [], push, min, ◌==◌, ltb, leb, if◌then◌else◌, arith, Bool-cases, inl, inr, sym, ◌∙◌,
}
use native.Mathlib.Omega.{div_any}
use native.Mathlib.Nat.{mod-lt, mul_comm}
use quizx.Linalg.{Mat2, RowOps}
use quizx.Linalg.Bits.{bit, xor, IsMat, bit_below}
use quizx.Linalg.Gauss.{
  State, add_both, clear_rows, dedup_up, find_pivot, pivot_at, pivot_columns, forward, num_blocks,
}
use quizx.Linalg.Gauss.Loops.{Follows, Ready, Same, add_both_lem, clear_rows_lem}
use quizx.Linalg.Gauss.Dedup.{dedup_up_lem, find_pivot_lem}
use quizx.Linalg.Gauss.Echelon.{Echelon, Echelon-RowAdded, Echelon-skip, Echelon-pivot}

pub next_multiple : (n k : ℕ) → (n + 1) * k ≡ n * k + k
next_multiple zero k = omega arith
next_multiple (suc n) k = omega (arith, next_multiple n k)

-- The pivot row in place and the rows under it cleared make one more pivot.
pivot_form :
    (rows cols pr p : ℕ) (pcs : List ℕ) (m m1 m2 : Mat2)
    → Echelon pr p pcs m
    → pr < rows
    → IsMat rows cols m2
    → bit m1 pr p ≡ true
    → ((i j : ℕ) → i ≢ pr → bit m1 i j ≡ bit m i j)
    → ((j : ℕ) → j < p → bit m1 pr j ≡ false)
    → ((i j : ℕ)
        → bit m2 i j ≡ (
            if (leb (pr + 1) i && ltb i (pr + 1 + (rows - (pr + 1)))) && bit m1 i p
            then xor (bit m1 i j) (bit m1 pr j)
            else bit m1 i j))
    → Echelon (pr + 1) (p + 1) (push pcs p) m2
pivot_form rows cols pr p pcs m m1 m2 e hr mat set others before cells =
    Echelon-pivot pr p pcs m m2 e (cells pr p ∙ ground (arith, set))
      (λ i j h. cells i j ∙ ground (arith, others i j))
      (λ i j h l. cells i j ∙ ground (arith, others i j, before j l, e.rest i j h l))
      (λ i h. elim (Bool-cases (ltb i rows)) [
        | inl inside ↦ cells i p ∙ ground (arith, set)
        | inr outside ↦ bit_below m2.d i p (ground (arith, mat.height))
      ])

module _ {X : Type 0} ⦃o : RowOps X⦄ (rows cols : ℕ) (R : Mat2 → X → Type 0)
    (follows : Follows o rows cols R) where
  -- The state when the columns below `k` are done.
  pub record At (k : ℕ) (s : State X) : Type 0 where
    pub ready : Ready rows cols R follows s
    pub form : Echelon s.pivot_row k s.pivot_cols s.m
    pub fits : s.pivot_row ≤ rows

  At-eq : (a b : ℕ) → a ≡ b → (s : State X) → At a s → At b s
  At-eq a b eq s at = rw (sym eq) at

  -- The row that is brought to the pivot row.
  lift_row :
      (s : State X) (r0 p : ℕ)
      → At p s
      → s.pivot_row ≤ r0
      → r0 < rows
      → bit s.m r0 p ≡ true
      → ((i : ℕ) → s.pivot_row ≤ i → i < r0 → bit s.m i p ≡ false)
      → (s1 : State X) × ((if r0 == s.pivot_row then some s else add_both s r0 s.pivot_row)
          ≡ some s1)
        × Same rows cols R follows s s1
        × (bit s1.m s.pivot_row p ≡ true)
        × ((i j : ℕ) → i ≢ s.pivot_row → bit s1.m i j ≡ bit s.m i j)
        × ((j : ℕ) → j < p → bit s1.m s.pivot_row j ≡ false)
  lift_row s r0 p at lo hi set clear = elim (Bool-cases (r0 == s.pivot_row)) [
    | inl same ↦
        let here : r0 ≡ s.pivot_row = ground arith in
        (
          s,
          rw same refl,
          record { ready = at.ready; same_row = refl; same_cols = refl },
          rw here at set,
          λ i j ne. refl,
          λ j h. at.form.rest s.pivot_row j (omega arith) h,
        )
    | inr other ↦
        let (s1, added, same, cells) =
          add_both_lem rows cols R follows s r0 s.pivot_row at.ready hi (omega arith)
            (ground arith) in
        (
          s1,
          rw other added,
          same,
          cells.bits s.pivot_row p ∙ ground (arith, clear s.pivot_row),
          λ i j ne. cells.bits i j ∙ ground arith,
          λ j h.
              cells.bits s.pivot_row j
              ∙ ground (arith, at.form.rest s.pivot_row j, at.form.rest r0 j),
        )
  ]

  column_empty :
      (p : ℕ) (s : State X)
      → find_pivot s.m p (rows - s.pivot_row) s.pivot_row ≡ some none
      → pivot_at rows p s ≡ some s
  unfolding pivot_at
  column_empty p s h = rw h refl

  column_pivot :
      (p r0 : ℕ) (s : State X) (s1 s2 : State X)
      → find_pivot s.m p (rows - s.pivot_row) s.pivot_row ≡ some (some r0)
      → (if r0 == s.pivot_row then some s else add_both s r0 s.pivot_row) ≡ some s1
      → clear_rows (rows - (s.pivot_row + 1)) (s.pivot_row + 1) s.pivot_row p s1 ≡ some s2
      → pivot_at rows p s
        ≡ some (record s2 { pivot_cols = push s2.pivot_cols p; pivot_row = s2.pivot_row + 1 })
  unfolding pivot_at
  column_pivot p r0 s s1 s2 a b c = rw (a, b, c) refl

  pivot_done :
      (s s1 s2 : State X) (p : ℕ)
      → At p s
      → s.pivot_row < rows
      → Same rows cols R follows s s1
      → Same rows cols R follows s1 s2
      → Echelon (s.pivot_row + 1) (p + 1) (push s.pivot_cols p) s2.m
      → At (p + 1) (record s2 { pivot_cols = push s2.pivot_cols p; pivot_row = s2.pivot_row + 1 })
  pivot_done s s1 s2 p at hr same1 same2 e =
      let row : s2.pivot_row ≡ s.pivot_row = same2.same_row ∙ same1.same_row in
      let pcs : s2.pivot_cols ≡ s.pivot_cols = same2.same_cols ∙ same1.same_cols in
      record {
        ready = record { shape = same2.ready.shape; rel = same2.ready.rel };
        form = rw (row, pcs) e;
        fits = omega arith;
      }

  -- One column.
  pivot_at_lem :
      (p : ℕ) (s : State X)
      → At p s
      → p < cols
      → (s' : State X) × (pivot_at rows p s ≡ some s') × At (p + 1) s'
  pivot_at_lem p s at hp =
      elim (find_pivot_lem rows cols s.m p (rows - s.pivot_row) s.pivot_row at.ready.shape
        (omega (arith, at.fits)) hp) [
          | inl (found, empty) ↦ (
            s,
            column_empty p s found,
            record {
              ready = at.ready;
              form =
                  Echelon-skip s.pivot_row p s.pivot_cols s.m at.form (λ i h. all_empty empty i h);
              fits = at.fits;
            },
          )
          | inr (r0, found, lo, hi, set, clear) ↦
              let (s1, lifted, same1, set1, others1, before1) =
                lift_row s r0 p at lo (omega (arith, at.fits)) set clear in
              let (s2, cleared, same2, cells) =
                clear_rows_lem rows cols R follows (rows - (s.pivot_row + 1)) (s.pivot_row + 1)
                  s.pivot_row p s1 same1.ready (omega (arith, at.fits)) (omega (arith, at.fits)) hp
                  (inl (omega arith)) in
              (
                _,
                column_pivot p r0 s s1 s2 found lifted cleared,
                pivot_done s s1 s2 p at (omega (arith, at.fits)) same1 same2 (
                    pivot_form rows cols s.pivot_row p s.pivot_cols s.m s1.m s2.m at.form
                      (omega (arith, at.fits)) same2.ready.shape set1 others1 before1 cells),
              )
        ]
    where
      all_empty :
          ((i : ℕ) → s.pivot_row ≤ i → i < s.pivot_row + (rows - s.pivot_row) → bit s.m i p ≡ false)
          → (i : ℕ) → s.pivot_row ≤ i
          → bit s.m i p ≡ false
      all_empty empty i h = elim (Bool-cases (ltb i rows)) [
        | inl inside ↦ empty i h (ground (arith, at.fits))
        | inr outside ↦ bit_below s.m.d i p (ground (arith, at.ready.shape.height))
      ]

  pivot_columns_steps :
      (n p : ℕ) (s : State X) (s1 s2 : State X)
      → pivot_at rows p s ≡ some s1
      → pivot_columns n (p + 1) rows s1 ≡ some s2
      → pivot_columns (suc n) p rows s ≡ some s2
  unfolding pivot_columns
  pivot_columns_steps n p s s1 s2 a b = rw (a, b) refl

  pivot_columns_lem :
      (n p : ℕ) (s : State X)
      → At p s
      → p + n ≤ cols
      → (s' : State X) × (pivot_columns n p rows s ≡ some s') × At (p + n) s'
  pivot_columns_lem zero p s at hp =
      (s, unfold pivot_columns in refl, At-eq p (p + zero) (omega arith) s at)
  pivot_columns_lem (suc n) p s at hp =
      let (s1, first, at1) = pivot_at_lem p s at (omega arith) in
      let (s2, rest, at2) = pivot_columns_lem n (p + 1) s1 at1 (omega arith) in
      (
        s2,
        pivot_columns_steps n p s s1 s2 first rest,
        At-eq (p + 1 + n) (p + suc n) (omega arith) s2 at2,
      )

  forward_steps :
      (n sec blocksize i0 i1 : ℕ) (s s1 s2 s3 : State X)
      → i0 ≡ sec * blocksize
      → i1 ≡ min cols ((sec + 1) * blocksize)
      → dedup_up (rows - s.pivot_row) s.pivot_row s [] i0 i1 ≡ some s1
      → pivot_columns (i1 - i0) i0 rows s1 ≡ some s2
      → forward n (sec + 1) rows cols blocksize s2 ≡ some s3
      → forward (suc n) sec rows cols blocksize s ≡ some s3
  unfolding forward
  forward_steps n sec blocksize i0 i1 s s1 s2 s3 e0 e1 a b c = rw (sym e0, sym e1, a, b, c) refl

  -- A section of columns: the search for duplicates keeps what the columns before it have.
  dedup_At :
      (k i1 : ℕ) (s : State X)
      → At k s
      → k ≤ i1
      → i1 ≤ cols
      → (s' : State X) × (dedup_up (rows - s.pivot_row) s.pivot_row s [] k i1 ≡ some s') × At k s'
  dedup_At k i1 s at lo hi =
      let (s1, deduped, same, e) =
        dedup_up_lem rows cols R follows (λ m. Echelon s.pivot_row k s.pivot_cols m) s.pivot_row
          (rows - s.pivot_row) s.pivot_row s [] k i1 at.ready at.form tt (omega (arith, at.fits))
          (omega arith) lo hi
          (λ m m' q r hq hr j a.
            Echelon-RowAdded rows cols s.pivot_row k s.pivot_cols m m' q r hq hr j a) in
      (
        s1,
        deduped,
        record {
          ready = same.ready;
          form = rw (same.same_row, same.same_cols) e;
          fits = omega (arith, at.fits, same.same_row);
        },
      )

  section_lem :
      (k i1 : ℕ) (s : State X)
      → At k s
      → k ≤ i1
      → i1 ≤ cols
      → (s1 s2 : State X) × (dedup_up (rows - s.pivot_row) s.pivot_row s [] k i1 ≡ some s1)
        × (pivot_columns (i1 - k) k rows s1 ≡ some s2)
        × At i1 s2
  section_lem k i1 s at lo hi =
      let (s1, deduped, at1) = dedup_At k i1 s at lo hi in
      let (s2, done, at2) = pivot_columns_lem (i1 - k) k s1 at1 (omega arith) in
      (s1, s2, deduped, done, At-eq (k + (i1 - k)) i1 (omega arith) s2 at2)

  -- `n` sections from section `sec` on.
  pub forward_lem :
      (n sec blocksize : ℕ) (s : State X)
      → At (min cols (sec * blocksize)) s
      → sec * blocksize + n * blocksize ≤ cols + blocksize
      → (s' : State X) × (forward n sec rows cols blocksize s ≡ some s')
        × At (min cols (sec * blocksize + n * blocksize)) s'
  forward_lem zero sec blocksize s at hb =
      (s, unfold forward in refl, At-eq (min cols (sec * blocksize)) _ (ground arith) s at)
  forward_lem (suc n) sec blocksize s at hb =
      let next : (sec + 1) * blocksize ≡ sec * blocksize + blocksize =
        next_multiple sec blocksize in
      let more : suc n * blocksize ≡ blocksize + n * blocksize = omega arith in
      let (s1, s2, deduped, done, at2) =
        section_lem (sec * blocksize) (min cols ((sec + 1) * blocksize)) s
          (At-eq (min cols (sec * blocksize)) (sec * blocksize) (ground arith) s at) (ground arith)
          (ground arith) in
      let (s3, rest, at3) = forward_lem n (sec + 1) blocksize s2 at2 (omega arith) in
      (
        s3,
        forward_steps n sec blocksize (sec * blocksize) (min cols ((sec + 1) * blocksize)) s s1 s2
            s3 refl refl deduped done rest,
        At-eq _ (min cols (sec * blocksize + suc n * blocksize)) (ground arith) s3 at3,
      )

-- The sections cover the columns, and the last one starts inside them.
pub num_blocks_lem :
    (cols blocksize : ℕ)
    → 0 < blocksize
    → (cols ≤ num_blocks cols blocksize * blocksize)
      × (num_blocks cols blocksize * blocksize ≤ cols + blocksize)
num_blocks_lem cols blocksize h =
    let parts : cols ≡ cols / blocksize * blocksize + cols % blocksize =
      omega (arith, div_any cols blocksize, mul_comm blocksize (cols / blocksize)) in
    let small : cols % blocksize < blocksize = mod-lt cols h in
    elim (Bool-cases (cols % blocksize == 0)) [
      | inl even ↦ ground (arith, parts, even)
      | inr odd ↦ ground (arith, parts, odd, small, next_multiple (cols / blocksize) blocksize)
    ]
