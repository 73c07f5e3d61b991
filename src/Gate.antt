-- ===== src/Gate.antt =====
-- quizx/src/gate.rs: gate types, gates, and the decomposition into basic gates. A circuit's gate
-- deque is a list.
pub mod Laws
pub mod Action
pub mod Ccz
pub mod Parity
pub mod Decomposed
pub mod Names
use quizx.Prelude.{
  ℕ, zero, suc, ◌+◌, ◌-◌, ◌*◌, ◌≡◌, Bool, true, false, Option, none, some, List, [], ◌∷◌, ◌++◌, map,
  reverse, length, get_elem?, push, pop, ◌>>=◌, ◌>>◌, ◌==◌, if◌then◌else◌,
}
use Prim.Native.String.{String}
use text.Mathlib.Text
use quizx.Prelude.Int.{ℤ, negsuc}
use quizx.Interface.{PhaseOps}

-- enum GType
pub data GType : Type 0 where
  x_phase not z_phase z s t sdg tdg cnot cz parity_phase xcx swap had toff ccz : GType
  init_ancilla post_select unknown_gate : GType

abbrev pub gtype_code : GType → ℕ
gtype_code GType.x_phase = 0
gtype_code GType.not = 1
gtype_code GType.z_phase = 2
gtype_code GType.z = 3
gtype_code GType.s = 4
gtype_code GType.t = 5
gtype_code GType.sdg = 6
gtype_code GType.tdg = 7
gtype_code GType.cnot = 8
gtype_code GType.cz = 9
gtype_code GType.parity_phase = 10
gtype_code GType.xcx = 11
gtype_code GType.swap = 12
gtype_code GType.had = 13
gtype_code GType.toff = 14
gtype_code GType.ccz = 15
gtype_code GType.init_ancilla = 16
gtype_code GType.post_select = 17
gtype_code GType.unknown_gate = 18

abbrev pub gtype_eq : GType → GType → Bool
gtype_eq a b = gtype_code a == gtype_code b

unfoldable pub qasm_name : GType → String
qasm_name GType.z_phase = "rz"
qasm_name GType.not = "x"
qasm_name GType.x_phase = "rx"
qasm_name GType.z = "z"
qasm_name GType.s = "s"
qasm_name GType.t = "t"
qasm_name GType.sdg = "sdg"
qasm_name GType.tdg = "tdg"
qasm_name GType.had = "h"
qasm_name GType.cnot = "cx"
qasm_name GType.cz = "cz"
qasm_name GType.toff = "ccx"
qasm_name GType.ccz = "ccz"
qasm_name GType.swap = "swap"
qasm_name GType.parity_phase = "pp"
qasm_name GType.xcx = "xcx"
qasm_name GType.init_ancilla = "init_anc"
qasm_name GType.post_select = "post_sel"
qasm_name GType.unknown_gate = "UNKNOWN"

unfoldable pub from_qasm_name : String → GType
from_qasm_name name =
    if Text.◌==◌ name "rz"
    then GType.z_phase
    else if Text.◌==◌ name "rx"
    then GType.x_phase
    else if Text.◌==◌ name "x"
    then GType.not
    else if Text.◌==◌ name "z"
    then GType.z
    else if Text.◌==◌ name "s"
    then GType.s
    else if Text.◌==◌ name "t"
    then GType.t
    else if Text.◌==◌ name "sdg"
    then GType.sdg
    else if Text.◌==◌ name "tdg"
    then GType.tdg
    else if Text.◌==◌ name "h"
    then GType.had
    else if Text.◌==◌ name "cx"
    then GType.cnot
    else if Text.◌==◌ name "CX"
    then GType.cnot
    else if Text.◌==◌ name "cz"
    then GType.cz
    else if Text.◌==◌ name "ccx"
    then GType.toff
    else if Text.◌==◌ name "ccz"
    then GType.ccz
    else if Text.◌==◌ name "swap"
    then GType.swap
    else if Text.◌==◌ name "pp"
    then GType.parity_phase
    else if Text.◌==◌ name "xcx"
    then GType.xcx
    else if Text.◌==◌ name "init_anc"
    then GType.init_ancilla
    else if Text.◌==◌ name "post_sel"
    then GType.post_select
    else GType.unknown_gate

-- The number of qubits that the type fixes.
unfoldable pub num_qubits : GType → Option ℕ
num_qubits GType.cnot = some 2
num_qubits GType.cz = some 2
num_qubits GType.xcx = some 2
num_qubits GType.swap = some 2
num_qubits GType.toff = some 3
num_qubits GType.ccz = some 3
num_qubits GType.parity_phase = none
num_qubits GType.unknown_gate = none
num_qubits _ = some 1

-- struct Gate
pub record Gate (P : Type 0) : Type 0 where
  pub ty : GType
  pub qs : List ℕ
  pub phase : P

-- The gate type of `adjoint`.
unfoldable pub adjoint_type : GType → GType
adjoint_type GType.s = GType.sdg
adjoint_type GType.t = GType.tdg
adjoint_type GType.sdg = GType.s
adjoint_type GType.tdg = GType.t
adjoint_type g = g

-- The types whose phase `adjoint` negates.
unfoldable pub negates_phase : GType → Bool
negates_phase GType.z_phase = true
negates_phase GType.x_phase = true
negates_phase GType.parity_phase = true
negates_phase _ = false

module _ {P : Type 0} where
  unfoldable pub num_basic_gates : Gate P → ℕ
  num_basic_gates g = elim g.ty [
    | GType.ccz ↦ 13
    | GType.toff ↦ 15
    | GType.parity_phase ↦ elim g.qs [ [] ↦ 0 | q ∷ qs ↦ length (q ∷ qs) * 2 - 1 ]
    | _ ↦ 1
  ]

module _ {P : Type 0} ⦃p : PhaseOps P⦄ where
  -- `self.phase *= -1` for the rotations; the other types change by `adjoint_type`.
  unfoldable pub adjoint : Gate P → Gate P
  unfolding adjoint_type negates_phase
  adjoint g = elim (negates_phase g.ty) [
    | true ↦ record g { phase = p.scale g.phase (negsuc 0) }
    | false ↦ record g { ty = adjoint_type g.ty }
  ]

  -- Gate::new
  abbrev pub gate : GType → List ℕ → Gate P
  gate ty qs = record { ty = ty; qs = qs; phase = p.zero }

  -- `push_ccz_decomp` on the qubits `a`, `b`, `c`.
  abbrev pub ccz_gates : ℕ → ℕ → ℕ → List (Gate P)
  ccz_gates a b c =
      gate GType.cnot (b ∷ c ∷ [])
      ∷ gate GType.tdg (c ∷ [])
      ∷ gate GType.cnot (a ∷ c ∷ [])
      ∷ gate GType.t (c ∷ [])
      ∷ gate GType.cnot (b ∷ c ∷ [])
      ∷ gate GType.tdg (c ∷ [])
      ∷ gate GType.cnot (a ∷ c ∷ [])
      ∷ gate GType.t (b ∷ [])
      ∷ gate GType.t (c ∷ [])
      ∷ gate GType.cnot (a ∷ b ∷ [])
      ∷ gate GType.t (a ∷ [])
      ∷ gate GType.tdg (b ∷ [])
      ∷ gate GType.cnot (a ∷ b ∷ [])
      ∷ []

  unfoldable pub push_ccz_decomp : List (Gate P) → List ℕ → Option (List (Gate P))
  push_ccz_decomp circ qs = do
    a ← get_elem? qs 0
    b ← get_elem? qs 1
    c ← get_elem? qs 2
    some (circ ++ ccz_gates a b c)

  abbrev pub cnots_to : ℕ → List ℕ → List (Gate P)
  cnots_to target [] = []
  cnots_to target (c ∷ cs) = gate GType.cnot (c ∷ target ∷ []) ∷ cnots_to target cs

  -- The branch for parity phases; `rest` and `target` are the qubits but the last, and the last.
  unfoldable pub parity_gates : List ℕ → ℕ → P → List (Gate P)
  parity_gates rest target q =
      cnots_to target rest
      ++ ((record { ty = GType.z_phase; qs = target ∷ []; phase = q })
          ∷ cnots_to target (reverse rest))

  unfoldable pub push_basic_gates : List (Gate P) → Gate P → Option (List (Gate P))
  push_basic_gates circ g = elim g.ty [
    | GType.ccz ↦ push_ccz_decomp circ g.qs
    | GType.toff ↦ (do
      target ← get_elem? g.qs 2
      circ1 ← push_ccz_decomp (push circ (gate GType.had (target ∷ []))) g.qs
      some (push circ1 (gate GType.had (target ∷ []))))
    | GType.parity_phase ↦ elim (pop g.qs) [
      | none ↦ some circ
      | some (rest, target) ↦ some (circ ++ parity_gates rest target g.phase)
    ]
    | _ ↦ some (push circ g)
  ]
