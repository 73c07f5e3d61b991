-- ===== src/Gate/Action.antt =====
-- quizx/src/gate.rs: what gates do to the states of the computational basis.
use quizx.Prelude.{
  ℕ, ◌+◌, ◌%◌, ◌≡◌, refl, Bool, true, false, ◌&&◌, ◌||◌, not, Option, none, some, List, [], ◌∷◌,
  arith, ◌==◌, if◌then◌else◌, ◌>>=◌,
}
use quizx.Linalg.Bits.{xor}
use quizx.Gate.{Gate, GType}

-- A basis state with its phase: eighths of a turn, and the phases that rotations have added.
pub record State (P : Type 0) : Type 0 where
  pub bits : ℕ → Bool
  pub eighths : ℕ
  pub phases : List P

-- A controlled NOT on the bits.
abbrev pub flip_at : ℕ → ℕ → (ℕ → Bool) → ℕ → Bool
flip_at control target bits q = if q == target then xor (bits control) (bits q) else bits q

abbrev pub parity : (ℕ → Bool) → List ℕ → Bool
parity bits [] = false
parity bits (q ∷ qs) = xor (bits q) (parity bits qs)

abbrev pub is_in : ℕ → List ℕ → Bool
is_in q [] = false
is_in q (r ∷ rs) = q == r || is_in q rs

-- No qubit occurs twice.
abbrev pub distinct : List ℕ → Bool
distinct [] = true
distinct (q ∷ qs) = not (is_in q qs) && distinct qs

module _ {P : Type 0} where
  abbrev pub turn : Bool → ℕ → State P → State P
  turn b k s = record s { eighths = s.eighths + (if b then k else 0) }

  abbrev pub rotate : Bool → P → State P → State P
  rotate b phase s = record s { phases = if b then phase ∷ s.phases else s.phases }

  -- The gates that keep the states of the basis, on their qubits.
  unfoldable pub act : GType → List ℕ → P → State P → Option (State P)
  act GType.cnot (c ∷ t ∷ []) phase s = some (record s { bits = flip_at c t s.bits })
  act GType.cz (a ∷ b ∷ []) phase s = some (turn (s.bits a && s.bits b) 4 s)
  act GType.z (q ∷ []) phase s = some (turn (s.bits q) 4 s)
  act GType.s (q ∷ []) phase s = some (turn (s.bits q) 2 s)
  act GType.sdg (q ∷ []) phase s = some (turn (s.bits q) 6 s)
  act GType.t (q ∷ []) phase s = some (turn (s.bits q) 1 s)
  act GType.tdg (q ∷ []) phase s = some (turn (s.bits q) 7 s)
  act GType.ccz (a ∷ b ∷ c ∷ []) phase s = some (turn (s.bits a && s.bits b && s.bits c) 4 s)
  act GType.z_phase (q ∷ []) phase s = some (rotate (s.bits q) phase s)
  act GType.parity_phase qs phase s = some (rotate (parity s.bits qs) phase s)
  act _ _ _ _ = none

  unfoldable pub act_all : List (Gate P) → State P → Option (State P)
  unfolding act
  act_all [] s = some s
  act_all (g ∷ gs) s = do s1 ← act g.ty g.qs g.phase s; act_all gs s1

  -- The same bits and phases, the turns up to whole ones.
  pub record Same (s r : State P) : Type 0 where
    pub same_bits : (q : ℕ) → r.bits q ≡ s.bits q
    pub same_turns : r.eighths % 8 ≡ s.eighths % 8
    pub same_phases : r.phases ≡ s.phases

pub xor_twice : (x y : Bool) → xor x (xor x y) ≡ y
xor_twice true true = refl
xor_twice true false = refl
xor_twice false y = refl

pub flip_at-target : (c t : ℕ) (bits : ℕ → Bool) → flip_at c t bits t ≡ xor (bits c) (bits t)
flip_at-target c t bits = ground arith

pub flip_at-other : (c t q : ℕ) (bits : ℕ → Bool) → (q == t) ≡ false → flip_at c t bits q ≡ bits q
flip_at-other c t q bits h = rw h refl
