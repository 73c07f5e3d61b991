-- ===== src/Gate/Names.antt =====
-- quizx/src/gate.rs: the names of gate types in QASM.
use quizx.Prelude.{◌≡◌, refl}
use quizx.Gate.{GType, qasm_name, from_qasm_name}

-- Reading the name of a gate type back gives the gate type.
pub from_qasm_name-qasm_name : (ty : GType) → from_qasm_name (qasm_name ty) ≡ ty
unfolding from_qasm_name qasm_name
from_qasm_name-qasm_name GType.x_phase = refl
from_qasm_name-qasm_name GType.not = refl
from_qasm_name-qasm_name GType.z_phase = refl
from_qasm_name-qasm_name GType.z = refl
from_qasm_name-qasm_name GType.s = refl
from_qasm_name-qasm_name GType.t = refl
from_qasm_name-qasm_name GType.sdg = refl
from_qasm_name-qasm_name GType.tdg = refl
from_qasm_name-qasm_name GType.cnot = refl
from_qasm_name-qasm_name GType.cz = refl
from_qasm_name-qasm_name GType.parity_phase = refl
from_qasm_name-qasm_name GType.xcx = refl
from_qasm_name-qasm_name GType.swap = refl
from_qasm_name-qasm_name GType.had = refl
from_qasm_name-qasm_name GType.toff = refl
from_qasm_name-qasm_name GType.ccz = refl
from_qasm_name-qasm_name GType.init_ancilla = refl
from_qasm_name-qasm_name GType.post_select = refl
from_qasm_name-qasm_name GType.unknown_gate = refl
