-- ===== src/Linalg/Gauss/Cleared.antt =====
-- The form that the second half of the elimination works towards: columns with nothing above a pivot.
use quizx.Prelude.{
  ℕ, zero, suc, ◌+◌, ◌≤◌, ◌<◌, ◌≡◌, Bool, false, ◌&&◌, List, [], ◌∷◌, ◌==◌, ltb, leb, if◌then◌else◌,
  arith, Bool-cases, inl, inr, ◌∙◌,
}
use quizx.Linalg.{Mat2}
use quizx.Linalg.Bits.{bit, xor}
use quizx.Linalg.Gauss.Echelon.{Echelon, nth}

-- The first `t` pivots, last first.
abbrev pub stack_of : List ℕ → ℕ → List ℕ
stack_of pcs zero = []
stack_of pcs (suc t) = nth pcs t ∷ stack_of pcs t

-- In echelon form, the columns of the pivots from the `t`-th on have nothing above their one.
pub record Cleared (rank cols t : ℕ) (pcs : List ℕ) (m : Mat2) : Type 0 where
  pub form : Echelon rank cols pcs m
  pub above : (q i : ℕ) → t ≤ q → q < rank → i < q → bit m i (nth pcs q) ≡ false

-- Row `q` has nothing in the column of an earlier pivot.
pub before_pivot :
    (rank cols : ℕ) (pcs : List ℕ) (m : Mat2) (k q : ℕ)
    → Echelon rank cols pcs m
    → k < rank
    → k < q
    → bit m q (nth pcs k) ≡ false
before_pivot rank cols pcs m k q e hk h = elim (Bool-cases (ltb q rank)) [
  | inl inside ↦ e.left q (nth pcs k) (ground arith) (e.increasing k q h (ground arith))
  | inr outside ↦ e.rest q (nth pcs k) (ground arith) (e.below k hk)
]

-- Row `q` has nothing left of an earlier pivot.
pub left_of_pivot :
    (rank cols : ℕ) (pcs : List ℕ) (m : Mat2) (k q j : ℕ)
    → Echelon rank cols pcs m
    → k < rank
    → k < q
    → j < nth pcs k
    → bit m q j ≡ false
left_of_pivot rank cols pcs m k q j e hk h l = elim (Bool-cases (ltb q rank)) [
  | inl inside ↦ e.left q j (ground arith) (omega (arith, e.increasing k q h (ground arith)))
  | inr outside ↦ e.rest q j (ground arith) (omega (arith, e.below k hk))
]

-- Some of the rows above row `q` get row `q` added.
pub Cleared-add :
    (rank cols t : ℕ) (pcs : List ℕ) (m m' : Mat2) (q : ℕ) (c : ℕ → Bool)
    → Cleared rank cols t pcs m
    → q < t
    → ((k : ℕ) → q ≤ k → c k ≡ false)
    → ((i j : ℕ) → bit m' i j ≡ (if c i then xor (bit m i j) (bit m q j) else bit m i j))
    → Cleared rank cols t pcs m'
Cleared-add rank cols t pcs m m' q c cl hq hc bits =
    let e = cl.form in
    record {
      form = record {
        count = e.count;
        below = e.below;
        increasing = e.increasing;
        one = λ i h. elim (Bool-cases (ltb i q)) [
          | inl above ↦
              bits i (nth pcs i)
              ∙ ground (arith, e.one i h, before_pivot rank cols pcs m i q e h (ground arith))
          | inr under ↦ bits i (nth pcs i) ∙ ground (arith, e.one i h, hc i (ground arith))
        ];
        left = λ i j h l. elim (Bool-cases (ltb i q)) [
          | inl above ↦
              bits i j
              ∙ ground
                  (arith, e.left i j h l, left_of_pivot rank cols pcs m i q j e h (ground arith) l)
          | inr under ↦ bits i j ∙ ground (arith, e.left i j h l, hc i (ground arith))
        ];
        rest = λ i j h l. elim (Bool-cases (ltb i q)) [
          | inl above ↦ bits i j ∙ ground (arith, e.rest i j h l, e.rest q j (ground arith) l)
          | inr under ↦ bits i j ∙ ground (arith, e.rest i j h l, hc i (ground arith))
        ];
      };
      above = λ p i ht hp hi.
          bits i (nth pcs p)
          ∙ ground (arith, cl.above p i ht hp hi, cl.above p q ht hp (omega arith));
    }

-- One more pivot is cleared.
pub Cleared-next :
    (rank cols t : ℕ) (pcs : List ℕ) (m m' : Mat2)
    → Cleared rank cols (suc t) pcs m
    → t < rank
    → ((i j : ℕ)
        → bit m' i j ≡ (
            if (leb 0 i && ltb i (0 + t)) && bit m i (nth pcs t)
            then xor (bit m i j) (bit m t j)
            else bit m i j))
    → Cleared rank cols t pcs m'
Cleared-next rank cols t pcs m m' cl ht bits =
    let kept =
      Cleared-add rank cols (suc t) pcs m m' t
        (λ i. (leb 0 i && ltb i (0 + t)) && bit m i (nth pcs t)) cl (omega arith)
        (λ k h. ground arith) bits in
    record {
      form = kept.form;
      above = λ q i h hq hi. elim (Bool-cases (q == t)) [
        | inl same ↦
            let here : q ≡ t = ground arith in
            rw here (bits i (nth pcs t) ∙ ground (arith, cl.form.one t ht))
        | inr other ↦ kept.above q i (ground arith) hq hi
      ];
    }
