-- ===== src/Interface.antt =====
-- What the graph, the rules and the gates use of quizx/src/phase.rs and quizx/src/scalar.rs.
use quizx.Prelude.{ℕ, Bool}
use quizx.Prelude.Int.{ℤ}

-- The operations of `Phase` that the graph code calls. Phases are values of a type `P`.
pub record PhaseOps (P : Type 0) : Type 0 where
  pub zero : P
  pub one : P
  -- `Rational64::new(n, d).into()`
  pub ratio : ℤ → ℕ → P
  pub add : P → P → P
  pub neg : P → P
  -- `phase * k`
  pub scale : P → ℤ → P
  pub normalize : P → P
  pub is_zero : P → Bool
  pub is_one : P → Bool
  pub is_pauli : P → Bool
  pub is_clifford : P → Bool
  pub is_proper_clifford : P → Bool
  -- `*p.to_rational().numer()`
  pub numer : P → ℤ

-- The operations of `ScalarN`.
pub record ScalarOps (P : Type 0) (S : Type 0) : Type 0 where
  pub one : S
  pub mul : S → S → S
  pub add : S → S → S
  pub conj : S → S
  -- the p-th power of the square root of 2
  pub sqrt2_pow : ℤ → S
  pub from_phase : P → S
