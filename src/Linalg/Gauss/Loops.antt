-- ===== src/Linalg/Gauss/Loops.antt =====
-- The inner loops of the elimination. `R` relates the matrix to its companion; all that is asked of
-- the companion's `row_add` is that it keeps `R`.
use quizx.Prelude.{
  ℕ, zero, suc, ◌+◌, ◌≤◌, ◌<◌, ◌≡◌, ◌≢◌, refl, Bool, ◌&&◌, some, ◌==◌, ltb, leb, if◌then◌else◌,
  arith, Bool-cases, inl, inr, ◌∙◌, ◌⊎◌,
}
use quizx.Linalg.{Mat2, RowOps, row_add, entry}
use quizx.Linalg.Bits.{bit, xor, IsMat, RowAdded, row_add-RowAdded, entry_lem}
use quizx.Linalg.Gauss.{State, add_both, clear_entry, clear_rows}

-- What the companion must do.
pub record Follows {X : Type 0} (o : RowOps X) (rows cols : ℕ) (R : Mat2 → X → Type 0)
    : Type 0 where
  pub follow :
      (m m' : Mat2) (x : X) (r0 r1 : ℕ)
      → R m x
      → r0 < rows
      → r1 < rows
      → r0 ≢ r1
      → RowAdded rows cols m r0 r1 m'
      → (x' : X) × (o.row_add x r0 r1 ≡ some x') × R m' x'

module _ {X : Type 0} ⦃o : RowOps X⦄ (rows cols : ℕ) (R : Mat2 → X → Type 0)
    (follows : Follows o rows cols R) where
  -- A state whose matrix has its shape and whose companion is in step.
  pub record Ready (s : State X) : Type 0 where
    pub shape : IsMat rows cols s.m
    pub rel : R s.m s.x

  -- A state reached without new pivots.
  pub record Same (s s' : State X) : Type 0 where
    pub ready : Ready s'
    pub same_row : s'.pivot_row ≡ s.pivot_row
    pub same_cols : s'.pivot_cols ≡ s.pivot_cols

  add_both_steps :
      (s : State X) (r0 r1 : ℕ) {m : Mat2} {x : X}
      → row_add s.m r0 r1 ≡ some m
      → o.row_add s.x r0 r1 ≡ some x
      → add_both s r0 r1 ≡ some (record s { m = m; x = x })
  unfolding add_both
  add_both_steps s r0 r1 p q = ground arith

  pub add_both_lem :
      (s : State X) (r0 r1 : ℕ)
      → Ready s
      → r0 < rows
      → r1 < rows
      → r0 ≢ r1
      → (s' : State X) × (add_both s r0 r1 ≡ some s')
        × Same s s'
        × RowAdded rows cols s.m r0 r1 s'.m
  add_both_lem s r0 r1 ready h0 h1 ne =
      let (m, added, cells) = row_add-RowAdded rows cols s.m r0 r1 ready.shape h0 h1 in
      let (x, followed, rel) = follows.follow s.m m s.x r0 r1 ready.rel h0 h1 ne cells in
      (
        record s { m = m; x = x },
        add_both_steps s r0 r1 added followed,
        record {
          ready = record { shape = cells.shape; rel = rel };
          same_row = refl;
          same_cols = refl;
        },
        cells,
      )

  clear_entry_steps :
      (s : State X) (r0 p r : ℕ) {e : ℕ}
      → entry s.m r p ≡ some e
      → clear_entry s r0 p r ≡ (if e == 0 then some s else add_both s r0 r)
  unfolding clear_entry
  clear_entry_steps s r0 p r h = rw h refl

  -- `clear_entry` adds row `r0` exactly where the entry is set.
  pub clear_entry_lem :
      (s : State X) (r0 p r : ℕ)
      → Ready s
      → r0 < rows
      → r < rows
      → p < cols
      → r0 ≢ r
      → (s' : State X) × (clear_entry s r0 p r ≡ some s')
        × Same s s'
        × ((i j : ℕ)
            → bit s'.m i j
              ≡ (if i == r && bit s.m r p then xor (bit s.m i j) (bit s.m r0 j) else bit s.m i j))
  clear_entry_lem s r0 p r ready h0 hr hp ne =
      let (e, read, value) = entry_lem rows cols s.m r p ready.shape hr hp in
      elim (Bool-cases (bit s.m r p)) [
        | inl set ↦
            let (s', added, same, cells) = add_both_lem s r0 r ready h0 hr ne in
            (
              s',
              clear_entry_steps s r0 p r read ∙ rw (value, set) added,
              same,
              λ i j. cells.bits i j ∙ rw set (ground arith),
            )
        | inr clear ↦ (
          s,
          clear_entry_steps s r0 p r read ∙ rw (value, clear) refl,
          record { ready = ready; same_row = refl; same_cols = refl },
          λ i j. rw clear (ground arith),
        )
      ]

  clear_rows_steps :
      (n r r0 p : ℕ) (s : State X) {s1 s2 : State X}
      → clear_entry s r0 p r ≡ some s1
      → clear_rows n (r + 1) r0 p s1 ≡ some s2
      → clear_rows (suc n) r r0 p s ≡ some s2
  unfolding clear_rows
  clear_rows_steps n r r0 p s a b = ground arith

  -- The whole loop: each row of the range with the entry set gets row `r0` added.
  pub clear_rows_lem :
      (n r r0 p : ℕ) (s : State X)
      → Ready s
      → r0 < rows
      → r + n ≤ rows
      → p < cols
      → (r0 < r) ⊎ (r + n ≤ r0)
      → (s' : State X) × (clear_rows n r r0 p s ≡ some s')
        × Same s s'
        × ((i j : ℕ)
            → bit s'.m i j ≡ (
                if (leb r i && ltb i (r + n)) && bit s.m i p
                then xor (bit s.m i j) (bit s.m r0 j)
                else bit s.m i j))
  clear_rows_lem zero r r0 p s ready h0 hr hp out = (
    s,
    unfold clear_rows in refl,
    record { ready = ready; same_row = refl; same_cols = refl },
    λ i j. ground arith,
  )
  clear_rows_lem (suc n) r r0 p s ready h0 hr hp out =
      let (s1, first, same1, cells1) =
        clear_entry_lem s r0 p r ready h0 (omega arith) hp (omega arith) in
      let (s2, rest, same2, cells2) =
        clear_rows_lem n (r + 1) r0 p s1 same1.ready h0 (omega arith) hp (omega arith) in
      (
        s2,
        clear_rows_steps n r r0 p s first rest,
        record {
          ready = same2.ready;
          same_row = same2.same_row ∙ same1.same_row;
          same_cols = same2.same_cols ∙ same1.same_cols;
        },
        λ i j. join (bit s2.m) (bit s1.m) i j (cells2 i j) (cells1 i j) (cells1 i p) (cells1 r0 j),
      )
    where
      join :
          (b2 b1 : ℕ → ℕ → Bool) (i j : ℕ)
          → b2 i j ≡ (
              if (leb (r + 1) i && ltb i (r + 1 + n)) && b1 i p
              then xor (b1 i j) (b1 r0 j)
              else b1 i j)
          → b1 i j
            ≡ (if i == r && bit s.m r p then xor (bit s.m i j) (bit s.m r0 j) else bit s.m i j)
          → b1 i p
            ≡ (if i == r && bit s.m r p then xor (bit s.m i p) (bit s.m r0 p) else bit s.m i p)
          → b1 r0 j
            ≡ (if r0 == r && bit s.m r p then xor (bit s.m r0 j) (bit s.m r0 j) else bit s.m r0 j)
          → b2 i j ≡ (
              if (leb r i && ltb i (r + suc n)) && bit s.m i p
              then xor (bit s.m i j) (bit s.m r0 j)
              else bit s.m i j)
      join b2 b1 i j c2 c1 c1p c1r = ground arith
