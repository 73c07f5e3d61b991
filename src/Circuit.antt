-- ===== src/Circuit.antt =====
-- quizx/src/circuit.rs: circuits, their statistics, adjoints and basic gates. The deque of gates is
-- a list, front first.
pub mod Laws
use quizx.Prelude.{
  ℕ, zero, suc, ◌+◌, ◌≡◌, Bool, true, false, Option, none, some, List, [], ◌∷◌, ◌++◌, map, reverse,
  length, push, guard, ◌>>=◌, ◌>>◌, ◌==◌, if◌then◌else◌,
}
use quizx.Interface.{PhaseOps}
use quizx.Gate.{Gate, GType, gtype_eq, gate, adjoint, push_basic_gates}

pub record Circuit (P : Type 0) : Type 0 where
  pub nqubits : ℕ
  pub gates : List (Gate P)

pub record CircuitStats : Type 0 where
  pub qubits : ℕ
  pub total : ℕ
  pub oneq : ℕ
  pub twoq : ℕ
  pub moreq : ℕ
  pub cliff : ℕ
  pub non_cliff : ℕ

-- One round of `CircuitStats::make`: the arity, and whether the gate is counted as Clifford.
unfoldable pub count_arity : CircuitStats → ℕ → CircuitStats
count_arity s n =
    if n == 1
    then record s { oneq = s.oneq + 1 }
    else if n == 2
    then record s { twoq = s.twoq + 1 }
    else record s { moreq = s.moreq + 1 }

-- The first arm of the second `match`: NOT, Z, S, Sdg, CNOT, CZ, SWAP, HAD.
abbrev pub is_cliff_type : GType → Bool
is_cliff_type GType.not = true
is_cliff_type GType.z = true
is_cliff_type GType.s = true
is_cliff_type GType.sdg = true
is_cliff_type GType.cnot = true
is_cliff_type GType.cz = true
is_cliff_type GType.swap = true
is_cliff_type GType.had = true
is_cliff_type _ = false

abbrev pub is_rotation : GType → Bool
is_rotation GType.z_phase = true
is_rotation GType.x_phase = true
is_rotation _ = false

unfoldable pub count_cliff : CircuitStats → Bool → CircuitStats
count_cliff s true = record s { cliff = s.cliff + 1 }
count_cliff s false = record s { non_cliff = s.non_cliff + 1 }

module _ {P : Type 0} where
  unfoldable pub new : ℕ → Circuit P
  new n = record { nqubits = n; gates = [] }

  unfoldable pub num_gates : Circuit P → ℕ
  num_gates c = length c.gates

  unfoldable pub count_type : GType → List (Gate P) → ℕ
  count_type ty [] = 0
  count_type ty (g ∷ gs) = (if gtype_eq g.ty ty then 1 else 0) + count_type ty gs

  unfoldable pub num_gates_of_type : Circuit P → GType → ℕ
  unfolding count_type
  num_gates_of_type c ty = count_type ty c.gates

  unfoldable pub push_back : Circuit P → Gate P → Circuit P
  push_back c g = record c { gates = push c.gates g }

  unfoldable pub push_front : Circuit P → Gate P → Circuit P
  push_front c g = record c { gates = g ∷ c.gates }

  unfoldable pub reversed : Circuit P → Circuit P
  reversed c = record c { gates = reverse c.gates }

  -- `self + rhs`; panics on circuits of different widths.
  unfoldable pub append : Circuit P → Circuit P → Option (Circuit P)
  append c d = do guard (c.nqubits == d.nqubits); some (record c { gates = c.gates ++ d.gates })

module _ {P : Type 0} ⦃p : PhaseOps P⦄ where
  -- Circuit::adjoint
  unfoldable pub to_adjoint : Circuit P → Circuit P
  to_adjoint c = record c { gates = map adjoint (reverse c.gates) }

  unfoldable pub basic_gates_from : List (Gate P) → List (Gate P) → Option (List (Gate P))
  basic_gates_from acc [] = some acc
  basic_gates_from acc (g ∷ gs) = do acc1 ← push_basic_gates acc g; basic_gates_from acc1 gs

  unfoldable pub to_basic_gates : Circuit P → Option (Circuit P)
  to_basic_gates c = do gs ← basic_gates_from [] c.gates; some (record c { gates = gs })

  -- RowOps for Circuit: row operations are gates.
  unfoldable pub row_add : Circuit P → ℕ → ℕ → Circuit P
  row_add c r0 r1 = record c { gates = push c.gates (gate GType.cnot (r1 ∷ r0 ∷ [])) }

  unfoldable pub row_swap : Circuit P → ℕ → ℕ → Circuit P
  row_swap c r0 r1 = record c { gates = push c.gates (gate GType.swap (r0 ∷ r1 ∷ [])) }

  unfoldable pub is_cliff : Gate P → Bool
  is_cliff g =
      if is_cliff_type g.ty then true else if is_rotation g.ty then p.is_clifford g.phase else false

  unfoldable pub stats_from : CircuitStats → List (Gate P) → CircuitStats
  stats_from s [] = s
  stats_from s (g ∷ gs) = stats_from (count_cliff (count_arity s (length g.qs)) (is_cliff g)) gs

  unfoldable pub stats : Circuit P → CircuitStats
  unfolding stats_from count_arity count_cliff is_cliff
  stats c =
      stats_from
        (record {
          qubits = c.nqubits;
          total = length c.gates;
          oneq = 0;
          twoq = 0;
          moreq = 0;
          cliff = 0;
          non_cliff = 0;
        })
        c.gates
