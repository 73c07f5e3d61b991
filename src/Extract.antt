-- ===== src/Extract.antt =====
-- quizx/src/extract.rs: the circuit of a diagram, taken from the outputs on. Hash sets are lists without
-- repetition, iterated in the order that `arrange` gives. The code's error messages are constructors.
pub mod Frontier
pub mod Run
pub mod Biadjacency
use quizx.Prelude.{
  ℕ, zero, suc, ◌+◌, ◌%◌, ◌^◌, Bool, true, false, ◌&&◌, ◌||◌, not, Option, none, some, List, [],
  ◌∷◌, length, get_elem?, set, push, ◌>>=◌, ◌==◌, ltb, leb, if◌then◌else◌,
}
use quizx.Prelude.Int.{ℤ, pos, ◌+ℤ◌, wrap_i32}
use quizx.Types.{VType, EType, vtype_eq, etype_eq, opposite}
use quizx.Interface.{PhaseOps, ScalarOps}
use quizx.VecGraph
use quizx.VecGraph.{
  Graph, VData, Nhd, vertex_vec, add_vertex_with_data, add_edge_with_type, remove_edge,
  set_edge_type, vertex_type, set_phase, phase, qubit, row, incident_edges, degree, neighbor_at,
}
use quizx.GraphLike.{connected, edge_type, neighbor_vec}
use quizx.Rules.Checked.{contains}
use quizx.Rules.Spiders.{remove_id}
use quizx.Rules.Pivot.{boundary_pivot}
use quizx.Gate.{GType, Gate, gate}
use quizx.Circuit
use quizx.Circuit.{Circuit, push_front}
use quizx.Linalg.{Mat2, RowOps, mat_ops, build, id, num_rows, num_cols, entry, row_weight, row_add}
use quizx.Linalg.Gauss.{gauss_helper}

-- The message of an ExtractError, whose circuit and diagram follow it.
pub data Failure : Type 0 where
  two_outputs : ℕ → Failure
  bad_neighbour : ℕ → Failure
  bad_output : ℕ → Failure
  gadget_stays : ℕ → ℕ → Failure
  none_extractible : Failure

pub record ExtractError (P S : Type 0) : Type 0 where
  pub message : Failure
  pub circuit : Circuit P
  pub rest : Graph P S

-- What a step that may fail returns.
pub data Step (E A : Type 0) : Type 0 where
  done : A → Step E A
  failed : E → Step E A

-- `?` on the result of a step that may panic.
abbrev pub and_go :
    {E A B : Type 0} → Option (Step E A) → (A → Option (Step E B)) → Option (Step E B)
and_go none next = none
and_go (some (done a)) next = next a
and_go (some (failed e)) next = some (failed e)

-- struct Extractor
pub record Extractor (P S : Type 0) : Type 0 where
  pub g : Graph P S
  pub frontier : List (ℕ × ℕ)
  pub up_to_perm : Bool

-- impl RowOps for Circuit
abbrev pub circuit_ops : {P : Type 0} ⦃p : PhaseOps P⦄ → RowOps (Circuit P)
circuit_ops = record {
  row_add = λ c r0 r1. some (Circuit.row_add c r0 r1);
  row_swap = λ c r0 r1. some (Circuit.row_swap c r0 r1);
}

-- `Mat2::gauss_x`
unfoldable pub gauss_x : {X : Type 0} ⦃o : RowOps X⦄ → Bool → ℕ → Mat2 → X → Option (Mat2 × X)
gauss_x ⦃o⦄ full_reduce blocksize m x = do
  (s, rank) ← gauss_helper ⦃o = o⦄ full_reduce blocksize m x []
  some (s.m, s.x)

-- An entry of a biadjacency matrix; `build` only asks for positions in the two lists.
abbrev pub joined_at : {P S : Type 0} → Graph P S → List ℕ → List ℕ → ℕ → ℕ → Bool
joined_at g vs ws i j = elim (get_elem? vs i) [
  | none ↦ false
  | some v ↦ elim (get_elem? ws j) [ none ↦ false | some w ↦ connected g v w ]
]

abbrev pub seconds : List (ℕ × ℕ) → List ℕ
seconds [] = []
seconds ((q, v) ∷ frontier) = v ∷ seconds frontier

module _ {P S : Type 0} where
  unfoldable pub z_neighbors : Graph P S → List ℕ → List ℕ → Option (List ℕ)
  z_neighbors g [] found = some found
  z_neighbors g (n ∷ ns) found = do
    t ← vertex_type g n
    z_neighbors g ns (if vtype_eq t VType.z && not (contains found n) then push found n else found)

  unfoldable pub frontier_neighbors : Graph P S → List ℕ → List ℕ → Option (List ℕ)
  frontier_neighbors g [] found = some found
  frontier_neighbors g (v ∷ vs) found = do
    ns ← neighbor_vec g v
    found1 ← z_neighbors g ns found
    frontier_neighbors g vs found1

  unfoldable pub frontier_biadj : (List ℕ → List ℕ) → Extractor P S → Option (List ℕ × Mat2)
  frontier_biadj arrange e = do
    found ← frontier_neighbors e.g (seconds e.frontier) []
    let neighbors = arrange found
    let vs = seconds e.frontier
    some (neighbors, build (length vs) (length neighbors) (joined_at e.g vs neighbors))

  -- The inner loop of `update_frontier_biadj`, from column j on.
  unfoldable pub match_row : Graph P S → Mat2 → ℕ → ℕ → ℕ → List ℕ → Option (Graph P S)
  match_row g m i v j [] = some g
  match_row g m i v j (w ∷ ws) = do
    b ← entry m i j
    g1 ←
        (if b == 1
          then (if connected g v w then some g else add_edge_with_type g v w EType.h)
          else (if connected g v w then remove_edge g v w else some g))
    match_row g1 m i v (j + 1) ws

  unfoldable pub match_rows : Graph P S → Mat2 → ℕ → List ℕ → List ℕ → Option (Graph P S)
  match_rows g m i [] ws = some g
  match_rows g m i (v ∷ vs) ws = do g1 ← match_row g m i v 0 ws; match_rows g1 m (i + 1) vs ws

  unfoldable pub update_frontier_biadj : Extractor P S → List ℕ → Mat2 → Option (Extractor P S)
  update_frontier_biadj e neighbors m = do
    g1 ← match_rows e.g m 0 (seconds e.frontier) neighbors
    some (record e { g = g1 })

module _ {P : Type 0} where
  unfoldable pub lift_gate : List (ℕ × ℕ) → Gate P → Option (Gate P)
  lift_gate frontier a = do
    q0 ← get_elem? a.qs 0
    f0 ← get_elem? frontier q0
    let qs1 = set a.qs 0 f0.0
    q1 ← get_elem? qs1 1
    f1 ← get_elem? frontier q1
    some (record a { qs = set qs1 1 f1.0 })

  unfoldable pub update_frontier_circuit :
      List (ℕ × ℕ) → List (Gate P) → Circuit P → Option (Circuit P)
  update_frontier_circuit frontier [] c = some c
  update_frontier_circuit frontier (a ∷ gates) c = do
    a1 ← lift_gate frontier a
    update_frontier_circuit frontier gates (push_front c a1)

-- The loop of `single_sln_set` over the rows, from row i on, for n rows: the row of the least weight
-- and its weight.
unfoldable pub least_row : Mat2 → Mat2 → ℕ → ℕ → ℕ → ℕ → Option ℕ
least_row m1 row_ops zero i min_weight min_row = some min_row
least_row m1 row_ops (suc n) i min_weight min_row = do
  one ← row_weight m1 i
  if one == 1
      then (do
        weight ← row_weight row_ops i
        (if leb weight min_weight
            then least_row m1 row_ops n (i + 1) weight i
            else least_row m1 row_ops n (i + 1) min_weight min_row))
      else least_row m1 row_ops n (i + 1) min_weight min_row

-- The columns of a row with the entry 1, from column j on.
unfoldable pub solution_set : Mat2 → ℕ → ℕ → ℕ → Option (List ℕ)
solution_set row_ops r zero j = some []
solution_set row_ops r (suc n) j = do
  b ← entry row_ops r j
  rest ← solution_set row_ops r n (j + 1)
  some (if b == 1 then j ∷ rest else rest)

module _ {P : Type 0} ⦃p : PhaseOps P⦄ where
  -- `for &i in &sln_set { if i != target { .. } }`
  unfoldable pub clear_into : ℕ → List ℕ → Mat2 → Circuit P → Option (Mat2 × Circuit P)
  clear_into target [] m a = some (m, a)
  clear_into target (i ∷ is) m a =
      if i == target
      then clear_into target is m a
      else (do m1 ← row_add m i target; clear_into target is m1 (Circuit.row_add a i target))

module _ {P S : Type 0} ⦃p : PhaseOps P⦄ ⦃c : ScalarOps P S⦄ where
  unfoldable pub no_gauss : Extractor P S → Circuit P → Option (Extractor P S × Circuit P)
  no_gauss e a = some (e, a)

  unfoldable pub simple_gauss :
      (List ℕ → List ℕ) → Extractor P S → Circuit P → Option (Extractor P S × Circuit P)
  simple_gauss arrange e a = do
    (neighbors, m) ← frontier_biadj arrange e
    (m1, c1) ← gauss_x ⦃o = circuit_ops⦄ true 3 m (Circuit.new a.nqubits)
    a1 ← update_frontier_circuit e.frontier c1.gates a
    e1 ← update_frontier_biadj e neighbors m1
    some (e1, a1)

  unfoldable pub single_sln_set :
      (List ℕ → List ℕ) → Extractor P S → Circuit P → Option (Extractor P S × Circuit P)
  single_sln_set arrange e a = do
    (neighbors, m) ← frontier_biadj arrange e
    (m1, row_ops) ← gauss_x ⦃o = mat_ops⦄ true 1 m (id (num_rows m))
    r ← least_row m1 row_ops (num_rows m1) 0 (num_cols row_ops % 2 ^ 8) 0
    sln_set ← solution_set row_ops r (num_cols row_ops) 0
    elim sln_set [
      | [] ↦ some (e, a)
      | target ∷ others ↦ elim others [
        | [] ↦ some (e, a)
        | x ∷ xs ↦ (do
          (m2, c1) ← clear_into target (target ∷ x ∷ xs) m (Circuit.new a.nqubits)
          a1 ← update_frontier_circuit e.frontier c1.gates a
          e1 ← update_frontier_biadj e neighbors m2
          some (e1, a1))
      ]
    ]
