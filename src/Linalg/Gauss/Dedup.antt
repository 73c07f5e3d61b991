-- ===== src/Linalg/Gauss/Dedup.antt =====
-- The search for duplicate chunks and for a pivot. Which rows the search adds depends on the chunks;
-- a property of the matrix survives it if it survives every addition that it may make.
use quizx.Prelude.{
  ℕ, zero, suc, ◌+◌, ◌≤◌, ◌<◌, ◌≡◌, ◌≢◌, refl, Bool, true, false, none, some, List, [], ◌∷◌, take,
  drop, arith, Bool-cases, inl, inr, ◌∙◌, Option-cases, ◌⊎◌,
}
use quizx.Linalg.{Mat2, RowOps}
use quizx.Linalg.Bits.{bit, IsMat, RowAdded, entry_lem, row_of}
use quizx.Linalg.Gauss.{
  State, Chunks, find_chunk, all_zero, chunk, add_both, dedup_row, dedup_up, dedup_down, find_pivot,
}
use quizx.Linalg.Gauss.Loops.{Follows, Ready, Same, add_both_lem}

-- Every index stored with a chunk satisfies `I`.
abbrev pub AllStored : (ℕ → Type 0) → Chunks → Type 0
AllStored I [] = Unit
AllStored I ((key, r) ∷ chunks) = I r × AllStored I chunks

AllStored-imp :
    (I J : ℕ → Type 0) (chunks : Chunks)
    → ((r : ℕ) → I r → J r)
    → AllStored I chunks
    → AllStored J chunks
AllStored-imp I J [] f h = tt
AllStored-imp I J ((key, r) ∷ chunks) f h = (f r h.0, AllStored-imp I J chunks f h.1)

find_chunk-stored :
    (I : ℕ → Type 0) (chunks : Chunks) (ch : List ℕ) (r : ℕ)
    → AllStored I chunks
    → find_chunk chunks ch ≡ some r
    → I r
unfolding find_chunk
find_chunk-stored I [] ch r h e = cc
find_chunk-stored I ((key, q) ∷ chunks) ch r h e =
    ground (arith, find_chunk-stored I chunks ch r h.1)

chunk_lem :
    (rows cols : ℕ) (m : Mat2) (r i0 i1 : ℕ)
    → IsMat rows cols m
    → r < rows
    → i0 ≤ i1
    → i1 ≤ cols
    → (ch : List ℕ) × (chunk m r i0 i1 ≡ some ch)
unfolding chunk
chunk_lem rows cols m r i0 i1 mat hr h0 h1 =
    let (row, at_r, len, bits, cells) = row_of cols m.d r mat.width (omega (arith, mat.height)) in
    (drop i0 (take i1 row), rw at_r (ground arith))

module _ {X : Type 0} ⦃o : RowOps X⦄ (rows cols : ℕ) (R : Mat2 → X → Type 0)
    (follows : Follows o rows cols R) where
  -- The three ways through `dedup_row`.
  dedup_row_cases :
      (s : State X) (chunks : Chunks) (i0 i1 r : ℕ) {ch : List ℕ}
      → chunk s.m r i0 i1 ≡ some ch
      → (dedup_row s chunks i0 i1 r ≡ some (s, chunks))
        ⊎ ((dedup_row s chunks i0 i1 r ≡ some (s, (ch, r) ∷ chunks))
            ⊎ ((r1 : ℕ) × (find_chunk chunks ch ≡ some r1)
                × ((s1 : State X)
                    → add_both s r1 r ≡ some s1
                    → dedup_row s chunks i0 i1 r ≡ some (s1, chunks))))
  unfolding dedup_row
  dedup_row_cases s chunks i0 i1 r {ch} read = elim (Bool-cases (all_zero ch)) [
    | inl z ↦ inl (ground arith)
    | inr nz ↦ elim (Option-cases (find_chunk chunks ch)) [
      | inl absent ↦ inr (inl (ground arith))
      | inr (r1, found) ↦ inr (inr (r1, found, λ s1 added. ground arith))
    ]
  ]

  -- One row: `J` survives if it survives the addition of any stored row to row `r`.
  dedup_row_lem :
      (J : Mat2 → Type 0) (I : ℕ → Type 0) (s : State X) (chunks : Chunks) (i0 i1 r : ℕ)
      → Ready rows cols R follows s
      → J s.m
      → AllStored I chunks
      → r < rows
      → i0 ≤ i1
      → i1 ≤ cols
      → ((r1 : ℕ) → I r1 → (r1 < rows) × (r1 ≢ r))
      → ((m m' : Mat2) (r1 : ℕ) → I r1 → J m → RowAdded rows cols m r1 r m' → J m')
      → (s' : State X) × (chunks' : Chunks) × (dedup_row s chunks i0 i1 r ≡ some (s', chunks'))
        × Same rows cols R follows s s'
        × J s'.m
        × AllStored (λ q. I q ⊎ (q ≡ r)) chunks'
  dedup_row_lem J I s chunks i0 i1 r ready j stored hr h0 h1 apart keep =
      let (ch, read) = chunk_lem rows cols s.m r i0 i1 ready.shape hr h0 h1 in
      let stay : Same rows cols R follows s s = record {
        ready = ready;
        same_row = refl;
        same_cols = refl;
      } in
      let stored' : AllStored (λ q. I q ⊎ (q ≡ r)) chunks =
        AllStored-imp I (λ q. I q ⊎ (q ≡ r)) chunks (λ q h. inl h) stored in
      elim (dedup_row_cases s chunks i0 i1 r read) [
        | inl e ↦ (s, chunks, e, stay, j, stored')
        | inr (inl e) ↦ (s, (ch, r) ∷ chunks, e, stay, j, (inr refl, stored'))
        | inr (inr (r1, found, e)) ↦
            let i = find_chunk-stored I chunks ch r1 stored found in
            let (s1, added, same, cells) =
              add_both_lem rows cols R follows s r1 r ready (apart r1 i).0 hr (apart r1 i).1 in
            (s1, chunks, e s1 added, same, keep s.m s1.m r1 i j cells, stored')
      ]

  Same-trans :
      (s s1 s2 : State X)
      → Same rows cols R follows s s1
      → Same rows cols R follows s1 s2
      → Same rows cols R follows s s2
  Same-trans s s1 s2 a b = record {
    ready = b.ready;
    same_row = b.same_row ∙ a.same_row;
    same_cols = b.same_cols ∙ a.same_cols;
  }

  dedup_up_steps :
      (n r : ℕ) (s : State X) (chunks : Chunks) (i0 i1 : ℕ) {s1 s2 : State X} {chunks1 : Chunks}
      → dedup_row s chunks i0 i1 r ≡ some (s1, chunks1)
      → dedup_up n (r + 1) s1 chunks1 i0 i1 ≡ some s2
      → dedup_up (suc n) r s chunks i0 i1 ≡ some s2
  unfolding dedup_up
  dedup_up_steps n r s chunks i0 i1 a b = ground arith

  dedup_down_steps :
      (r : ℕ) (s : State X) (chunks : Chunks) (i0 i1 : ℕ) {s1 s2 : State X} {chunks1 : Chunks}
      → dedup_row s chunks i0 i1 r ≡ some (s1, chunks1)
      → dedup_down r s1 chunks1 i0 i1 ≡ some s2
      → dedup_down (suc r) s chunks i0 i1 ≡ some s2
  unfolding dedup_down
  dedup_down_steps r s chunks i0 i1 a b = ground arith

  -- Upwards from `lo`: each addition is of a row in `lo..r` to row `r`.
  pub dedup_up_lem :
      (J : Mat2 → Type 0) (lo n r : ℕ) (s : State X) (chunks : Chunks) (i0 i1 : ℕ)
      → Ready rows cols R follows s
      → J s.m
      → AllStored (λ q. (lo ≤ q) × (q < r)) chunks
      → r + n ≤ rows
      → lo ≤ r
      → i0 ≤ i1
      → i1 ≤ cols
      → ((m m' : Mat2) (q k : ℕ) → lo ≤ q → q < k → J m → RowAdded rows cols m q k m' → J m')
      → (s' : State X) × (dedup_up n r s chunks i0 i1 ≡ some s')
        × Same rows cols R follows s s'
        × J s'.m
  dedup_up_lem J lo zero r s chunks i0 i1 ready j stored hr hl h0 h1 keep =
      (s, unfold dedup_up in refl, record { ready = ready; same_row = refl; same_cols = refl }, j)
  dedup_up_lem J lo (suc n) r s chunks i0 i1 ready j stored hr hl h0 h1 keep =
      let (s1, chunks1, first, same1, j1, stored1) =
        dedup_row_lem J (λ q. (lo ≤ q) × (q < r)) s chunks i0 i1 r ready j stored (omega arith) h0
          h1 (λ q h. omega arith) (λ m m' q h a b. keep m m' q r h.0 h.1 a b) in
      let (s2, rest, same2, j2) =
        dedup_up_lem J lo n (r + 1) s1 chunks1 i0 i1 same1.ready j1
          (AllStored-imp (λ q. ((lo ≤ q) × (q < r)) ⊎ (q ≡ r)) (λ q. (lo ≤ q) × (q < r + 1)) chunks1
            (λ q h. omega arith) stored1)
          (omega arith) (omega arith) h0 h1 keep in
      (s2, dedup_up_steps n r s chunks i0 i1 first rest, Same-trans s s1 s2 same1 same2, j2)

  -- Downwards from below `hi`: each addition is of a row in `r + 1..hi` to row `r`.
  pub dedup_down_lem :
      (J : Mat2 → Type 0) (hi r : ℕ) (s : State X) (chunks : Chunks) (i0 i1 : ℕ)
      → Ready rows cols R follows s
      → J s.m
      → AllStored (λ q. (r ≤ q) × (q < hi)) chunks
      → hi ≤ rows
      → r ≤ hi
      → i0 ≤ i1
      → i1 ≤ cols
      → ((m m' : Mat2) (q k : ℕ) → k < q → q < hi → J m → RowAdded rows cols m q k m' → J m')
      → (s' : State X) × (dedup_down r s chunks i0 i1 ≡ some s')
        × Same rows cols R follows s s'
        × J s'.m
  dedup_down_lem J hi zero s chunks i0 i1 ready j stored hr hl h0 h1 keep =
      (s, unfold dedup_down in refl, record { ready = ready; same_row = refl; same_cols = refl }, j)
  dedup_down_lem J hi (suc r) s chunks i0 i1 ready j stored hr hl h0 h1 keep =
      let (s1, chunks1, first, same1, j1, stored1) =
        dedup_row_lem J (λ q. (suc r ≤ q) × (q < hi)) s chunks i0 i1 r ready j stored (omega arith)
          h0 h1 (λ q h. omega arith) (λ m m' q h a b. keep m m' q r (omega arith) h.1 a b) in
      let (s2, rest, same2, j2) =
        dedup_down_lem J hi r s1 chunks1 i0 i1 same1.ready j1
          (AllStored-imp (λ q. ((suc r ≤ q) × (q < hi)) ⊎ (q ≡ r)) (λ q. (r ≤ q) × (q < hi)) chunks1
            (λ q h. omega arith) stored1)
          hr (omega arith) h0 h1 keep in
      (s2, dedup_down_steps r s chunks i0 i1 first rest, Same-trans s s1 s2 same1 same2, j2)

-- What the search for a pivot finds.
pub find_pivot_lem :
    (rows cols : ℕ) (m : Mat2) (p n r : ℕ)
    → IsMat rows cols m
    → r + n ≤ rows
    → p < cols
    → ((find_pivot m p n r ≡ some none) × ((i : ℕ) → r ≤ i → i < r + n → bit m i p ≡ false))
      ⊎ ((r0 : ℕ) × (find_pivot m p n r ≡ some (some r0))
          × (r ≤ r0)
          × (r0 < r + n)
          × (bit m r0 p ≡ true)
          × ((i : ℕ) → r ≤ i → i < r0 → bit m i p ≡ false))
unfolding find_pivot
find_pivot_lem rows cols m p zero r mat hr hp = inl (refl, λ i a b. absurd (omega arith))
find_pivot_lem rows cols m p (suc n) r mat hr hp =
    let (e, read, value) = entry_lem rows cols m r p mat (omega arith) hp in
    elim (Bool-cases (bit m r p)) [
      | inl set ↦ inr (
        r,
        rw (read, value, set) refl,
        omega arith,
        omega arith,
        set,
        λ i a b. absurd (omega arith),
      )
      | inr clear ↦ elim (find_pivot_lem rows cols m p n (r + 1) mat (omega arith) hp) [
        | inl (found, below) ↦ inl (
          rw (read, value, clear) found,
          λ i a b. split i r (bit m) p clear (below i) a (omega arith),
        )
        | inr (r0, found, lo, hi, set, below) ↦ inr (
          r0,
          rw (read, value, clear) found,
          omega arith,
          omega arith,
          set,
          λ i a b. split i r (bit m) p clear (below i) a b,
        )
      ]
    ]
  where
    split :
        (i k : ℕ) (b : ℕ → ℕ → Bool) (q : ℕ)
        → b k q ≡ false
        → {h : ℕ} → (k + 1 ≤ i → i < h → b i q ≡ false)
        → k ≤ i
        → i < h
        → b i q ≡ false
    split i k b q clear below lo hi = ground (arith)
