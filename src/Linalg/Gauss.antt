-- ===== src/Linalg/Gauss.antt =====
-- quizx/src/linalg.rs: `gauss_helper`, and what is built on it. Each loop is a function of its own
-- over the state of the elimination; `n` counts the rounds that are left.
pub mod Loops
pub mod Dedup
pub mod Echelon
pub mod Forward
pub mod Solutions
pub mod Cleared
pub mod Reduced
pub mod Complete
pub mod Results
use quizx.Prelude.{
  ℕ, zero, suc, ◌+◌, ◌-◌, ◌*◌, ◌/◌, ◌%◌, ◌≡◌, Bool, true, false, ◌&&◌, ◌||◌, not, Option, none,
  some, List, [], ◌∷◌, reverse, length, get_elem?, take, drop, push, min, ◌>>=◌, ◌>>◌, guard, ◌==◌,
  ltb, leb, if◌then◌else◌, bit_xor, bit_and,
}
use quizx.Linalg.{
  Mat2, RowOps, unit_ops, mat_ops, row_add, row_swap, entry, num_rows, num_cols, id, build,
}

-- The matrix, the companion that repeats its row operations, and the pivots found.
pub record State (X : Type 0) : Type 0 where
  pub m : Mat2
  pub x : X
  pub pivot_row : ℕ
  pub pivot_cols : List ℕ

-- A `FxHashMap<Vec<u8>, usize>`
abbrev pub Chunks : Type 0
Chunks = List (List ℕ × ℕ)

abbrev pub row_eq : List ℕ → List ℕ → Bool
row_eq [] [] = true
row_eq [] (y ∷ ys) = false
row_eq (x ∷ xs) [] = false
row_eq (x ∷ xs) (y ∷ ys) = x == y && row_eq xs ys

unfoldable pub find_chunk : Chunks → List ℕ → Option ℕ
find_chunk [] ch = none
find_chunk ((key, r) ∷ chunks) ch = if row_eq key ch then some r else find_chunk chunks ch

abbrev pub all_zero : List ℕ → Bool
all_zero [] = true
all_zero (x ∷ xs) = x == 0 && all_zero xs

-- `self.d[r][i0..i1].to_vec()`
unfoldable pub chunk : Mat2 → ℕ → ℕ → ℕ → Option (List ℕ)
chunk m r i0 i1 = do
  row ← get_elem? m.d r
  guard (leb i0 i1 && leb i1 (length row))
  some (drop i0 (take i1 row))

-- The first row of `r..r + n` with an entry in column `p`.
unfoldable pub find_pivot : Mat2 → ℕ → ℕ → ℕ → Option (Option ℕ)
find_pivot m p zero r = some none
find_pivot m p (suc n) r =
    let rest = find_pivot m p n (r + 1) in
    do e ← entry m r p; if e == 0 then rest else some (some r)

abbrev pub num_blocks : ℕ → ℕ → ℕ
num_blocks cols blocksize = if cols % blocksize == 0 then cols / blocksize else cols / blocksize + 1

module _ {X : Type 0} ⦃o : RowOps X⦄ where
  -- `self.row_add(r0, r1); x.row_add(r0, r1)`
  unfoldable pub add_both : State X → ℕ → ℕ → Option (State X)
  add_both s r0 r1 = do
    m ← row_add s.m r0 r1
    x ← o.row_add s.x r0 r1
    some (record s { m = m; x = x })

  -- `if self.d[r][p] != 0 { add r0 to r }`
  unfoldable pub clear_entry : State X → ℕ → ℕ → ℕ → Option (State X)
  unfolding add_both
  clear_entry s r0 p r = do e ← entry s.m r p; if e == 0 then some s else add_both s r0 r

  -- One row of the search for duplicate chunks.
  unfoldable pub dedup_row : State X → Chunks → ℕ → ℕ → ℕ → Option (State X × Chunks)
  unfolding chunk find_chunk add_both
  dedup_row s chunks i0 i1 r = do
    ch ← chunk s.m r i0 i1
    if all_zero ch then some (s, chunks) else elim (find_chunk chunks ch) [
      | some r1 ↦ (do s1 ← add_both s r1 r; some (s1, chunks))
      | none ↦ some (s, (ch, r) ∷ chunks)
    ]

  -- `for r in r..r + n`
  unfoldable pub dedup_up : ℕ → ℕ → State X → Chunks → ℕ → ℕ → Option (State X)
  dedup_up zero r s chunks i0 i1 = some s
  dedup_up (suc n) r s chunks i0 i1 = do
    (s1, chunks1) ← dedup_row s chunks i0 i1 r
    dedup_up n (r + 1) s1 chunks1 i0 i1

  -- `while r != 0 { r -= 1; .. }`
  unfoldable pub dedup_down : ℕ → State X → Chunks → ℕ → ℕ → Option (State X)
  dedup_down zero s chunks i0 i1 = some s
  dedup_down (suc r) s chunks i0 i1 = do
    (s1, chunks1) ← dedup_row s chunks i0 i1 r
    dedup_down r s1 chunks1 i0 i1

  -- `for r in r..r + n { if self.d[r][p] != 0 { add r0 to r } }`
  unfoldable pub clear_rows : ℕ → ℕ → ℕ → ℕ → State X → Option (State X)
  clear_rows zero r r0 p s = some s
  clear_rows (suc n) r r0 p s = do s1 ← clear_entry s r0 p r; clear_rows n (r + 1) r0 p s1

  -- The round of the column loop for column `p`.
  unfoldable pub pivot_at : ℕ → ℕ → State X → Option (State X)
  unfolding find_pivot clear_rows clear_entry add_both
  pivot_at rows p s = do
    found ← find_pivot s.m p (rows - s.pivot_row) s.pivot_row
    elim found [
      | none ↦ some s
      | some r0 ↦ (do
        s1 ← if r0 == s.pivot_row then some s else add_both s r0 s.pivot_row
        s2 ← clear_rows (rows - (s.pivot_row + 1)) (s.pivot_row + 1) s.pivot_row p s1
        some (record s2 { pivot_cols = push s2.pivot_cols p; pivot_row = s2.pivot_row + 1 }))
    ]

  -- `for p in p..p + n`
  unfoldable pub pivot_columns : ℕ → ℕ → ℕ → State X → Option (State X)
  pivot_columns zero p rows s = some s
  pivot_columns (suc n) p rows s = do s1 ← pivot_at rows p s; pivot_columns n (p + 1) rows s1

  -- `for sec in sec..sec + n`
  unfoldable pub forward : ℕ → ℕ → ℕ → ℕ → ℕ → State X → Option (State X)
  unfolding dedup_up dedup_row pivot_columns pivot_at
  forward zero sec rows cols blocksize s = some s
  forward (suc n) sec rows cols blocksize s = do
    let i0 = sec * blocksize
    let i1 = min cols ((sec + 1) * blocksize)
    s1 ← dedup_up (rows - s.pivot_row) s.pivot_row s [] i0 i1
    s2 ← pivot_columns (i1 - i0) i0 rows s1
    forward n (sec + 1) rows cols blocksize s2

  -- `while let Some(&pcol) = pivot_cols1.last()`; the vector of pivots stands last first.
  unfoldable pub clear_pivots : List ℕ → ℕ → ℕ → State X → Option (State X × List ℕ)
  unfolding clear_rows clear_entry add_both
  clear_pivots [] i0 i1 s = some (s, [])
  clear_pivots (pcol ∷ rest) i0 i1 s = elim (ltb pcol i0 || leb i1 pcol) [
    | true ↦ some (s, pcol ∷ rest)
    | false ↦ (do
      s1 ← clear_rows s.pivot_row 0 s.pivot_row pcol s
      clear_pivots rest i0 i1 (record s1 { pivot_row = s1.pivot_row - 1 }))
  ]

  -- `while sec != 0 { sec -= 1; .. }`
  unfoldable pub backward : ℕ → ℕ → ℕ → State X → List ℕ → Option (State X)
  unfolding dedup_down dedup_row clear_pivots
  backward zero cols blocksize s pivots = some s
  backward (suc sec) cols blocksize s pivots = do
    let i0 = sec * blocksize
    let i1 = min cols ((sec + 1) * blocksize)
    s1 ← dedup_down (s.pivot_row + 1) s [] i0 i1
    (s2, pivots1) ← clear_pivots pivots i0 i1 s1
    backward sec cols blocksize s2 pivots1

  -- The result is the state and the rank. A block size of 0 is a division by zero.
  unfoldable pub gauss_helper : Bool → ℕ → Mat2 → X → List ℕ → Option (State X × ℕ)
  unfolding forward backward
  gauss_helper full_reduce blocksize m x pivot_cols = do
    guard (not (blocksize == 0))
    s ←
        forward (num_blocks (num_cols m) blocksize) 0 (num_rows m) (num_cols m) blocksize
          (record { m = m; x = x; pivot_row = 0; pivot_cols = pivot_cols })
    if full_reduce && not (s.pivot_row == 0)
        then (do
          t ←
              backward (num_blocks (num_cols m) blocksize) (num_cols m) blocksize
                (record s { pivot_row = s.pivot_row - 1 }) (reverse s.pivot_cols)
          some (t, s.pivot_row))
        else some (s, s.pivot_row)

-- The matrix after the elimination, and its rank.
unfoldable pub gauss : Mat2 → Bool → Option (Mat2 × ℕ)
gauss m full_reduce = do
  (s, rank) ← gauss_helper ⦃o = unit_ops⦄ full_reduce 3 m tt []
  some (s.m, rank)

unfoldable pub rank : Mat2 → Option ℕ
unfolding gauss
rank m = do (reduced, r) ← gauss m false; some r

-- The outer option is a panic, the inner one the result.
unfoldable pub inverse : Mat2 → Option (Option Mat2)
inverse m = if not (num_rows m == num_cols m) then some none else (do
  (s, r) ← gauss_helper ⦃o = mat_ops⦄ true 3 m (id (num_rows m)) []
  some (if ltb r (num_rows m) then none else some s.x))
