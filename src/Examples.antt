-- ===== src/Examples.antt =====
-- Concrete phases, diagrams, circuits and matrices, on which the operations are run.
pub mod Phases
pub mod Hashed
pub mod Scalars
pub mod Strategies
pub mod Extraction
use quizx.Prelude.{
  inl, is_some, Bool, ℕ, ◌+◌, ◌≤◌, ◌<◌, ◌≡◌, ◌≢◌, refl, true, false, ◌&&◌, ◌||◌, none, some, [],
  ◌∷◌, ◌==◌, if◌then◌else◌, arith, length, ◌⊎◌,
}
use quizx.Prelude.Int.{ℤ, pos, negsuc, ◌+ℤ◌, ◌*ℤ◌, neg, rem_euclid, div_trunc, eqb_ℤ}
use quizx.Types.{VType, EType}
use quizx.Interface.{PhaseOps, ScalarOps}
use quizx.VecGraph.{
  Graph, VData, remove_vertex, add_vertex_with_data, add_edge_with_type, remove_edge, set_edge_type,
  update_data, edge_type_opt, value, vertex_type, phase, incident_edges,
}
use quizx.VecGraph.Valid.{IsValid}
use quizx.VecGraph.Vertices.{Added, add_vertex_with_data-Added}
use quizx.VecGraph.Edges.{remove_edge_lem, add_edge_with_type_lem}
use quizx.VecGraph.Removal.{Removed, remove_vertex-Removed}
use quizx.VecGraph.Fields.{Updated, update_data-Updated, set_edge_type_lem}
use quizx.GraphLike.{add_edge_smart}
use quizx.GraphLike.Parallel.{Joined, joined_by, leaves_pi}
use quizx.GraphLike.Smart.{add_edge_smart_lem}
use quizx.Rules.Checked.{all_h_to_z, all_opt}
use quizx.Rules.Pivot.{check_local_comp, local_comp}
use quizx.Rules.Spiders.{color_change, check_spider_fusion, spider_fusion}
use quizx.Rules.Linked.{NoW}
use quizx.Rules.LocalComp.{Complemented, local_comp_lem}
use quizx.Rules.Fused.{Fits}
use quizx.Rules.Fusion.{FusedInto, spider_fusion_lem}
use quizx.Rules.ColorChange.{Recoloured, color_change_lem}
use quizx.Simplify.{finished, local_comp_simp}
use quizx.Simplify.Rounds.{live}
use quizx.Simplify.LocalComp.{Plain, local_comp_simp_lem}
use quizx.Gate.{GType, Gate, gate, qasm_name, from_qasm_name}
use quizx.Gate.Laws.{Decomposed, push_basic_gates_lem, all_basic, has_arity}
use quizx.Gate.Names.{from_qasm_name-qasm_name}
use quizx.Circuit.{Circuit, to_basic_gates, append, to_adjoint, stats}
use quizx.Gate.Action.{State, act}
use quizx.Gate.Decomposed.{Stands, act-push_basic_gates}
use quizx.Circuit.Laws.{
  to_basic_gates_lem, stats_lem, count_where, acts_on, is_clifford_gate, sum_basic, all_arity,
}
use quizx.Linalg.{Mat2, row_add}
use quizx.Linalg.Bits.{bit, IsMat, RowAdded, row_add-RowAdded}
use quizx.Linalg.Gauss.{gauss, rank, inverse}
use quizx.Linalg.Gauss.Solutions.{SameSolutions, sum_of}
use quizx.Linalg.Gauss.Complete.{Eliminated}
use quizx.Linalg.Gauss.Results.{gauss_lem, rank_lem, inverse_lem}

-- Phases in units of a quarter of pi.
instance abbrev pub quarter_phases : PhaseOps ℤ
quarter_phases = record {
  zero = pos 0;
  one = pos 4;
  ratio = λ n d. div_trunc (n *ℤ pos 4) d;
  add = ◌+ℤ◌;
  neg = neg;
  scale = ◌*ℤ◌;
  normalize = λ a. pos (rem_euclid a 8);
  is_zero = λ a. eqb_ℤ a (pos 0);
  is_one = λ a. eqb_ℤ a (pos 4);
  is_pauli = λ a. rem_euclid a 4 == 0;
  is_clifford = λ a. rem_euclid a 2 == 0;
  is_proper_clifford = λ a. rem_euclid a 4 == 2;
  numer = λ a. a;
}

-- Scalars as powers of the square root of 2.
instance abbrev pub power_scalars : ScalarOps ℤ ℤ
power_scalars = record {
  one = pos 0;
  mul = ◌+ℤ◌;
  add = λ a b. a;
  conj = λ a. a;
  sqrt2_pow = λ k. k;
  from_phase = λ q. pos 0;
}

abbrev pub spider : VType → VData ℤ
spider ty = record { ty = ty; phase = pos 1; qubit = pos 0; row = pos 0 }

-- A green and a red spider with a plain edge, and an empty slot.
abbrev pub pair_graph : Graph ℤ ℤ
pair_graph = record {
  vdata = some (spider VType.z) ∷ some (spider VType.x) ∷ none ∷ [];
  edata = some ((1, EType.n) ∷ []) ∷ some ((0, EType.n) ∷ []) ∷ none ∷ [];
  holes = 2 ∷ [];
  inputs = [];
  outputs = [];
  numv = 2;
  nume = 1;
  scalar = pos 0;
}

pub pair_graph-IsValid : IsValid pair_graph
pair_graph-IsValid = record {
  same_length = refl;
  same_live = λ v. ground arith;
  symmetric = λ s t e. ground arith;
  simple = λ s t. ground arith;
  no_loop = λ s. ground arith;
  numv_counts = refl;
  nume_counts = refl;
  holes_list = λ v. ground arith;
}

pub pair_graph-joined : edge_type_opt pair_graph 0 1 ≡ some EType.n
unfolding edge_type_opt value
pair_graph-joined = refl

-- Two green spiders with no edge.
abbrev pub loose_graph : Graph ℤ ℤ
loose_graph = record pair_graph {
  vdata = some (spider VType.z) ∷ some (spider VType.z) ∷ [];
  edata = some [] ∷ some [] ∷ [];
  holes = [];
  nume = 0;
}

pub loose_graph-IsValid : IsValid loose_graph
loose_graph-IsValid = record {
  same_length = refl;
  same_live = λ v. ground arith;
  symmetric = λ s t e. ground arith;
  simple = λ s t. ground arith;
  no_loop = λ s. ground arith;
  numv_counts = refl;
  nume_counts = refl;
  holes_list = λ v. ground arith;
}

loose_graph-apart : edge_type_opt loose_graph 0 1 ≡ none
unfolding edge_type_opt value
loose_graph-apart = refl

no_w_edge : edge_type_opt pair_graph 0 1 ≢ some EType.wio
no_w_edge h = ground (arith, h, pair_graph-joined)

remove_vertex-Removed_example :
    (g' : Graph ℤ ℤ) × (remove_vertex pair_graph 0 ≡ some g') × Removed pair_graph 0 g'
remove_vertex-Removed_example = remove_vertex-Removed pair_graph 0 pair_graph-IsValid refl

add_vertex_with_data-Added_example :
    Added pair_graph (spider VType.z) (add_vertex_with_data pair_graph (spider VType.z))
add_vertex_with_data-Added_example =
    add_vertex_with_data-Added pair_graph (spider VType.z) pair_graph-IsValid

add_edge_with_type_example :
    (g' : Graph ℤ ℤ) × (add_edge_with_type loose_graph 0 1 EType.h ≡ some g')
    × IsValid g'
    × ((a b : ℕ)
        → edge_type_opt g' a b ≡ (
            if (a == 0 && b == 1) || (a == 1 && b == 0)
            then some EType.h
            else edge_type_opt loose_graph a b))
    × (g'.vdata ≡ loose_graph.vdata)
add_edge_with_type_example =
    add_edge_with_type_lem loose_graph 0 1 EType.h loose_graph-IsValid (omega arith) refl refl
      loose_graph-apart

remove_edge_example :
    (g' : Graph ℤ ℤ) × (remove_edge pair_graph 0 1 ≡ some g')
    × IsValid g'
    × ((a b : ℕ)
        → edge_type_opt g' a b ≡ (
            if (a == 0 && b == 1) || (a == 1 && b == 0)
            then none
            else edge_type_opt pair_graph a b))
    × (g'.vdata ≡ pair_graph.vdata)
remove_edge_example = remove_edge_lem pair_graph 0 1 pair_graph-IsValid pair_graph-joined

set_edge_type_example :
    (g' : Graph ℤ ℤ) × (set_edge_type pair_graph 0 1 EType.h ≡ some g')
    × IsValid g'
    × ((a b : ℕ)
        → edge_type_opt g' a b ≡ (
            if (a == 0 && b == 1) || (a == 1 && b == 0)
            then some EType.h
            else edge_type_opt pair_graph a b))
    × (g'.vdata ≡ pair_graph.vdata)
set_edge_type_example =
    set_edge_type_lem pair_graph 0 1 EType.h pair_graph-IsValid pair_graph-joined

update_data-Updated_example :
    (g' : Graph ℤ ℤ) × (update_data pair_graph 1 (λ d. record d { ty = VType.z }) ≡ some g')
    × Updated pair_graph 1 (spider VType.z) g'
update_data-Updated_example =
    update_data-Updated pair_graph 1 (λ d. record d { ty = VType.z }) pair_graph-IsValid refl

-- A Hadamard edge beside a plain one between two colours: the Hadamard edge and a phase are left.
add_edge_smart_example :
    (g' : Graph ℤ ℤ) × (add_edge_smart pair_graph 0 1 EType.h ≡ some g')
    × Joined pair_graph 0 1
        (joined_by EType.h (edge_type_opt pair_graph 0 1) EType.h)
        (leaves_pi EType.h (edge_type_opt pair_graph 0 1) EType.h)
        g'
add_edge_smart_example =
    add_edge_smart_lem pair_graph 0 1 EType.h (spider VType.z) (spider VType.x) pair_graph-IsValid
      (omega arith) refl refl refl refl refl no_w_edge

abbrev toffoli : Gate ℤ
toffoli = gate GType.toff (0 ∷ 1 ∷ 2 ∷ [])

abbrev toffoli_circuit : Circuit ℤ
toffoli_circuit = record { nqubits = 3; gates = toffoli ∷ gate GType.s (1 ∷ []) ∷ [] }

toffoli-has_arity : has_arity toffoli ≡ true
unfolding has_arity
toffoli-has_arity = refl

push_basic_gates_example : Decomposed [] toffoli
push_basic_gates_example = push_basic_gates_lem [] toffoli toffoli-has_arity

abbrev ccz_gate : Gate ℤ
ccz_gate = record { ty = GType.ccz; qs = 0 ∷ 1 ∷ 2 ∷ []; phase = pos 0 }

abbrev all_set : State ℤ
all_set = record { bits = λ q. true; eighths = 0; phases = [] }

abbrev all_set_turned : State ℤ
all_set_turned = record { bits = λ q. true; eighths = 4; phases = [] }

ccz_gate-act : act GType.ccz (0 ∷ 1 ∷ 2 ∷ []) (pos 0) all_set ≡ some all_set_turned
unfolding act
ccz_gate-act = refl

act-push_basic_gates_example : Stands [] ccz_gate all_set all_set_turned
act-push_basic_gates_example =
    act-push_basic_gates [] ccz_gate all_set all_set_turned refl ccz_gate-act

toffoli_circuit-all_arity : all_arity toffoli_circuit.gates ≡ true
unfolding has_arity
toffoli_circuit-all_arity = refl

to_basic_gates_example :
    (d : Circuit ℤ) × (to_basic_gates toffoli_circuit ≡ some d)
    × (d.nqubits ≡ 3)
    × (length d.gates ≡ sum_basic toffoli_circuit.gates)
    × (all_basic d.gates ≡ true)
to_basic_gates_example = to_basic_gates_lem toffoli_circuit toffoli_circuit-all_arity

stats_example :
    ((stats toffoli_circuit).qubits ≡ 3)
    × ((stats toffoli_circuit).total ≡ 2)
    × ((stats toffoli_circuit).oneq ≡ count_where (acts_on 1) toffoli_circuit.gates)
    × ((stats toffoli_circuit).twoq ≡ count_where (acts_on 2) toffoli_circuit.gates)
    × ((stats toffoli_circuit).oneq + (stats toffoli_circuit).twoq + (stats toffoli_circuit).moreq
        ≡ 2)
    × ((stats toffoli_circuit).cliff ≡ count_where is_clifford_gate toffoli_circuit.gates)
    × ((stats toffoli_circuit).cliff + (stats toffoli_circuit).non_cliff ≡ 2)
stats_example = stats_lem toffoli_circuit

abbrev upper : Mat2
upper = record { d = (1 ∷ 1 ∷ []) ∷ (0 ∷ 1 ∷ []) ∷ [] }

upper-IsMat : IsMat 2 2 upper
upper-IsMat = record {
  height = refl;
  width = (refl, (omega arith, (omega arith, tt)), (refl, (omega arith, (omega arith, tt)), tt));
}

row_add-RowAdded_example : (m' : Mat2) × (row_add upper 1 0 ≡ some m') × RowAdded 2 2 upper 1 0 m'
row_add-RowAdded_example = row_add-RowAdded 2 2 upper 1 0 upper-IsMat (omega arith) (omega arith)

gauss_example :
    (m' : Mat2) × (r : ℕ) × (gauss upper true ≡ some (m', r))
    × Eliminated true 2 2 r m'
    × SameSolutions 2 upper m'
gauss_example = gauss_lem true 2 2 upper upper-IsMat (omega arith)

rank_example :
    (m' : Mat2) × (r : ℕ) × (rank upper ≡ some r)
    × (r ≤ 2)
    × (r ≤ 2)
    × Eliminated false 2 2 r m'
    × SameSolutions 2 upper m'
rank_example = rank_lem 2 2 upper upper-IsMat (omega arith)

inverse_example :
    ((inv : Mat2) × (inverse upper ≡ some (some inv))
      × IsMat 2 2 inv
      × ((i j : ℕ) → i < 2 → j < 2 → sum_of 2 (bit inv i) (λ k. bit upper k j) ≡ (i == j)))
    ⊎ ((m' : Mat2) × (r : ℕ) × (inverse upper ≡ some none)
        × (r < 2)
        × Eliminated true 2 2 r m'
        × SameSolutions 2 upper m')
inverse_example = inverse_lem 2 upper upper-IsMat (omega arith)

from_qasm_name_example : from_qasm_name (qasm_name GType.toff) ≡ GType.toff
from_qasm_name_example = from_qasm_name-qasm_name GType.toff

abbrev half_pi : VData ℤ
half_pi = record { ty = VType.z; phase = pos 2; qubit = pos 0; row = pos 0 }

-- A spider with phase pi/2 and two green neighbours.
abbrev star_graph : Graph ℤ ℤ
star_graph = record {
  vdata = some half_pi ∷ some (spider VType.z) ∷ some (spider VType.z) ∷ [];
  edata =
      some ((1, EType.h) ∷ (2, EType.h) ∷ [])
      ∷ some ((0, EType.h) ∷ [])
      ∷ some ((0, EType.h) ∷ [])
      ∷ [];
  holes = [];
  inputs = [];
  outputs = [];
  numv = 3;
  nume = 2;
  scalar = pos 0;
}

star_graph-IsValid : IsValid star_graph
star_graph-IsValid = record {
  same_length = refl;
  same_live = λ v. ground arith;
  symmetric = λ s t e. ground arith;
  simple = λ s t. ground arith;
  no_loop = λ s. ground arith;
  numv_counts = refl;
  nume_counts = refl;
  holes_list = λ v. ground arith;
}

star_graph-NoW : NoW star_graph
unfolding edge_type_opt value
star_graph-NoW = record { no_w = λ a b h. ground (arith, h) }

star_graph-check : check_local_comp star_graph 0 ≡ some true
unfolding check_local_comp vertex_type phase all_h_to_z incident_edges all_opt
star_graph-check = refl

local_comp_example :
    (g' : Graph ℤ ℤ) × (local_comp star_graph 0 ≡ some (g', true)) × Complemented star_graph 0 g'
local_comp_example = local_comp_lem star_graph 0 star_graph-IsValid star_graph-NoW star_graph-check

color_change_example :
    (g' : Graph ℤ ℤ) × (color_change pair_graph 1 ≡ some (g', true))
    × Recoloured pair_graph 1 (spider VType.x) g'
color_change_example = color_change_lem pair_graph 1 (spider VType.x) pair_graph-IsValid refl refl

-- Three green spiders in a row, the first two joined by a plain edge.
abbrev pub row_graph : Graph ℤ ℤ
row_graph = record {
  vdata = some half_pi ∷ some (spider VType.z) ∷ some (spider VType.z) ∷ [];
  edata =
      some ((1, EType.n) ∷ [])
      ∷ some ((0, EType.n) ∷ (2, EType.h) ∷ [])
      ∷ some ((1, EType.h) ∷ [])
      ∷ [];
  holes = [];
  inputs = [];
  outputs = [];
  numv = 3;
  nume = 2;
  scalar = pos 0;
}

row_graph-IsValid : IsValid row_graph
row_graph-IsValid = record {
  same_length = refl;
  same_live = λ v. ground arith;
  symmetric = λ s t e. ground arith;
  simple = λ s t. ground arith;
  no_loop = λ s. ground arith;
  numv_counts = refl;
  nume_counts = refl;
  holes_list = λ v. ground arith;
}

row_graph-NoW : NoW row_graph
unfolding edge_type_opt value
row_graph-NoW = record { no_w = λ a b h. ground (arith, h) }

row_graph-check : check_spider_fusion row_graph 0 1 ≡ some true
unfolding check_spider_fusion vertex_type edge_type_opt value
row_graph-check = refl

row_graph-Fits : (w : ℕ) → w ≢ 0 → is_some (edge_type_opt row_graph 1 w) ≡ true → Fits row_graph 0 w
unfolding edge_type_opt value
row_graph-Fits w ne h = inl (ground (arith, h))

spider_fusion_example :
    (g' : Graph ℤ ℤ) × (spider_fusion row_graph 0 1 ≡ some (g', true)) × FusedInto row_graph 0 1 g'
spider_fusion_example =
    spider_fusion_lem row_graph 0 1 row_graph-IsValid row_graph-NoW row_graph-check row_graph-Fits

local_comp_simp_example :
    (g' : Graph ℤ ℤ) × (m : Bool) × (local_comp_simp 4 star_graph ≡ finished g' m)
    × Plain g'
    × (g'.numv ≤ 3)
    × ((v : ℕ) → live g' v ≡ true → check_local_comp g' v ≡ some false)
local_comp_simp_example =
    local_comp_simp_lem 4 star_graph star_graph-IsValid star_graph-NoW (omega arith)
