-- ===== src/Linalg/Gauss/Echelon.antt =====
-- The first half of the elimination brings the matrix into echelon form.
use quizx.Prelude.{
  ℕ, zero, suc, ◌+◌, ◌≤◌, ◌<◌, ◌≡◌, refl, true, false, List, [], ◌∷◌, length, get_or, push, ◌==◌,
  if◌then◌else◌, arith, Bool-cases, inl, inr, ◌∙◌, length-push,
}
use quizx.Linalg.{Mat2}
use quizx.Linalg.Bits.{bit, RowAdded}

abbrev pub nth : List ℕ → ℕ → ℕ
nth pcs i = get_or pcs i 0

nth-push :
    (pcs : List ℕ) (p i : ℕ)
    → i ≤ length pcs
    → nth (push pcs p) i ≡ (if i == length pcs then p else nth pcs i)
nth-push [] p zero h = refl
nth-push [] p (suc i) h = absurd (omega arith)
nth-push (c ∷ pcs) p zero h = ground arith
nth-push (c ∷ pcs) p (suc i) h = ground (arith, nth-push pcs p i)

-- The first `pr` rows have their leading ones in the columns `pcs`, in increasing order; the first
-- `k` columns of the other rows are empty.
pub record Echelon (pr k : ℕ) (pcs : List ℕ) (m : Mat2) : Type 0 where
  pub count : length pcs ≡ pr
  pub below : (i : ℕ) → i < pr → nth pcs i < k
  pub increasing : (i j : ℕ) → i < j → j < pr → nth pcs i < nth pcs j
  pub one : (i : ℕ) → i < pr → bit m i (nth pcs i) ≡ true
  pub left : (i j : ℕ) → i < pr → j < nth pcs i → bit m i j ≡ false
  pub rest : (i j : ℕ) → pr ≤ i → j < k → bit m i j ≡ false

-- Adding a row at or below the pivot row to a later row keeps the form.
pub Echelon-RowAdded :
    (rows cols pr k : ℕ) (pcs : List ℕ) (m m' : Mat2) (q r : ℕ)
    → pr ≤ q
    → q < r
    → Echelon pr k pcs m
    → RowAdded rows cols m q r m'
    → Echelon pr k pcs m'
Echelon-RowAdded rows cols pr k pcs m m' q r hq hr e a = record {
  count = e.count;
  below = e.below;
  increasing = e.increasing;
  one = λ i h. ground (arith, a.bits i (nth pcs i), e.one i h);
  left = λ i j h l. ground (arith, a.bits i j, e.left i j h l);
  rest = λ i j h l. ground (arith, a.bits i j, e.rest i j h l, e.rest q j hq l);
}

-- With nothing in the next column below the pivot row, the column is done.
pub Echelon-skip :
    (pr k : ℕ) (pcs : List ℕ) (m : Mat2)
    → Echelon pr k pcs m
    → ((i : ℕ) → pr ≤ i → bit m i k ≡ false)
    → Echelon pr (k + 1) pcs m
Echelon-skip pr k pcs m e empty = record {
  count = e.count;
  below = λ i h. omega (arith, e.below i h);
  increasing = e.increasing;
  one = e.one;
  left = e.left;
  rest = λ i j h l. elim (Bool-cases (j == k)) [
    | inl same ↦ let at_k : j ≡ k = ground arith in rw at_k (empty i h)
    | inr other ↦ e.rest i j h (ground arith)
  ];
}

-- A new pivot in the next column.
pub Echelon-pivot :
    (pr k : ℕ) (pcs : List ℕ) (m m' : Mat2)
    → Echelon pr k pcs m
    → bit m' pr k ≡ true
    → ((i j : ℕ) → i < pr → bit m' i j ≡ bit m i j)
    → ((i j : ℕ) → pr ≤ i → j < k → bit m' i j ≡ false)
    → ((i : ℕ) → pr < i → bit m' i k ≡ false)
    → Echelon (pr + 1) (k + 1) (push pcs k) m'
Echelon-pivot pr k pcs m m' e set above before under = record {
  count = omega (arith, e.count, length-push pcs k);
  below = λ i h. ground (arith, nth-push pcs k i, e.count, e.below i);
  increasing = λ i j a b.
      ground (arith, nth-push pcs k i, nth-push pcs k j, e.count, e.below i, e.increasing i j);
  one = λ i h. elim (Bool-cases (i == pr)) [
    | inl same ↦
        let at_pr : i ≡ pr = ground arith in
        let column : nth (push pcs k) i ≡ k = ground (arith, nth-push pcs k i, e.count) in
        rw (column, at_pr) set
    | inr other ↦
        let column : nth (push pcs k) i ≡ nth pcs i = ground (arith, nth-push pcs k i, e.count) in
        rw column (above i (nth pcs i) (ground arith) ∙ e.one i (ground arith))
  ];
  left = λ i j h l. elim (Bool-cases (i == pr)) [
    | inl same ↦ before i j (ground arith) (ground (arith, nth-push pcs k i, e.count))
    | inr other ↦
        above i j (ground arith)
        ∙ e.left i j (ground arith) (ground (arith, nth-push pcs k i, e.count))
  ];
  rest = λ i j h l. elim (Bool-cases (j == k)) [
    | inl same ↦ let at_k : j ≡ k = ground arith in rw at_k (under i (omega arith))
    | inr other ↦ before i j (omega arith) (ground arith)
  ];
}
