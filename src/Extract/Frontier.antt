-- ===== src/Extract/Frontier.antt =====
-- quizx/src/extract.rs: how `prepare_frontier` takes gates from the outputs, and the permutation at the end.
-- extractor is set to, `gaussf`, is an argument.
use quizx.Prelude.{
  ℕ, zero, suc, ◌+◌, Bool, true, false, ◌&&◌, ◌||◌, not, Option, none, some, List, [], ◌∷◌, length,
  ◌>>=◌, ◌==◌, ltb, if◌then◌else◌,
}
use quizx.Prelude.Int.{pos, ◌+ℤ◌, wrap_i32}
use quizx.Types.{VType, EType, vtype_eq, etype_eq, opposite}
use quizx.Interface.{PhaseOps, ScalarOps}
use quizx.VecGraph.{
  Graph, add_vertex_with_data, add_edge_with_type, remove_edge, set_edge_type, vertex_type,
  set_phase, phase, qubit, row, incident_edges, degree,
}
use quizx.GraphLike.{edge_type, neighbor_vec}
use quizx.Rules.Checked.{contains}
use quizx.Gate.{GType, Gate, gate}
use quizx.Circuit
use quizx.Circuit.{Circuit, push_front}
use quizx.Linalg.{build}
use quizx.Extract.{
  Failure, two_outputs, bad_neighbour, bad_output, ExtractError, Step, done, failed, and_go,
  Extractor, circuit_ops, gauss_x, joined_at,
}

-- `frontier.iter().find(|(_, n1)| n == n1)`
abbrev pub frontier_qubit : List (ℕ × ℕ) → ℕ → Option ℕ
frontier_qubit [] n = none
frontier_qubit ((r, n1) ∷ frontier) n = if n == n1 then some r else frontier_qubit frontier n

module _ {P : Type 0} where
  unfoldable pub push_all_front : List (Gate P) → Circuit P → Circuit P
  push_all_front [] c = c
  push_all_front (a ∷ gates) c = push_all_front gates (push_front c a)

module _ {P S : Type 0} ⦃p : PhaseOps P⦄ ⦃c : ScalarOps P S⦄ where
  abbrev pub fail : Failure → Circuit P → Graph P S → ExtractError P S
  fail message a g = record { message = message; circuit = a; rest = g }

  unfoldable pub perm_to_cnots : Graph P S → ℕ → Circuit P → Option (Circuit P)
  perm_to_cnots g blocksize a = do
    (m, c1) ←
        gauss_x ⦃o = circuit_ops⦄ true blocksize
          (build (length g.outputs) (length g.inputs) (joined_at g g.outputs g.inputs))
          (Circuit.new a.nqubits)
    some (push_all_front c1.gates a)

  -- The dummy spider between a frontier vertex v and an input n.
  unfoldable pub pad_input : Graph P S → ℕ → ℕ → Option (Graph P S)
  pad_input g v n = do
    k ← qubit g n
    r ← row g n
    let (g1, n1) =
        add_vertex_with_data g
          (record { ty = VType.z; phase = p.zero; qubit = k; row = wrap_i32 (r +ℤ pos 1) })
    e ← edge_type g1 n v
    g2 ← add_edge_with_type g1 n n1 (opposite e)
    g3 ← add_edge_with_type g2 n1 v EType.h
    remove_edge g3 n v

  -- One round of the loop over the neighbours n of the frontier vertex v of the output o of qubit q.
  unfoldable pub prepare_neighbor :
      List (ℕ × ℕ)
      → ℕ
      → ℕ
      → ℕ
      → ℕ
      → Graph P S
      → Circuit P
      → Option (Step (ExtractError P S) (Graph P S × Circuit P))
  prepare_neighbor frontier q o v n g a = if n == o then some (done (g, a)) else (do
    t ← vertex_type g n
    (if vtype_eq t VType.b
        then (if not (contains g.inputs n) then some (failed (fail (two_outputs v) a g)) else (do
          d ← degree g v
          (if ltb 2 d then (do g1 ← pad_input g v n; some (done (g1, a))) else some (done (g, a)))))
        else elim (frontier_qubit frontier n) [
          | some r ↦ (do
            g1 ← remove_edge g v n
            some (done (g1, push_front a (gate GType.cz (q ∷ r ∷ [])))))
          | none ↦ some (
              if not (vtype_eq t VType.z) then failed (fail (bad_neighbour n) a g) else done (g, a))
        ]))

  unfoldable pub prepare_neighbors :
      List (ℕ × ℕ)
      → ℕ
      → ℕ
      → ℕ
      → List ℕ
      → Graph P S
      → Circuit P
      → Option (Step (ExtractError P S) (Graph P S × Circuit P))
  prepare_neighbors frontier q o v [] g a = some (done (g, a))
  prepare_neighbors frontier q o v (n ∷ ns) g a =
      and_go (prepare_neighbor frontier q o v n g a)
        (λ s. prepare_neighbors frontier q o v ns s.0 s.1)

  -- The Hadamard gate for the edge between the output and v.
  unfoldable pub pull_hadamard :
      ℕ → ℕ → ℕ → EType → Graph P S → Circuit P → Option (Graph P S × Circuit P)
  pull_hadamard q o v et g a =
      if etype_eq et EType.h
      then (do g1 ← set_edge_type g v o EType.n; some (g1, push_front a (gate GType.had (q ∷ []))))
      else some (g, a)

  -- The phase gate for the phase of v.
  unfoldable pub pull_phase : ℕ → ℕ → Graph P S → Circuit P → Option (Graph P S × Circuit P)
  pull_phase q v g a = do
    k ← phase g v
    if p.is_zero k then some (g, a) else (do
      g1 ← set_phase g v p.zero
      some (g1, push_front a (record { ty = GType.z_phase; qs = q ∷ []; phase = k })))

  -- One round of the loop over the outputs.
  unfoldable pub prepare_output :
      ℕ
      → ℕ
      → Extractor P S
      → Circuit P
      → Option (Step (ExtractError P S) (Extractor P S × Circuit P))
  prepare_output q o e a = do
    nhd ← incident_edges e.g o
    elim nhd [
      | [] ↦ some (failed (fail (bad_output o) a e.g))
      | x ∷ rest ↦ (do
        let v = x.0
        (g1, a1) ← pull_hadamard q o v x.1 e.g a
        t ← vertex_type g1 v
        (if vtype_eq t VType.b then some (done (record e { g = g1 }, a1)) else (do
          let frontier1 = quizx.Prelude.push e.frontier (q, v)
          (g2, a2) ← pull_phase q v g1 a1
          ns ← neighbor_vec g2 v
          and_go (prepare_neighbors frontier1 q o v ns g2 a2)
              (λ s. some (done (record e { g = s.0; frontier = frontier1 }, s.1))))))
    ]

  -- The loop, from qubit q on.
  unfoldable pub prepare_outputs :
      ℕ
      → List ℕ
      → Extractor P S
      → Circuit P
      → Option (Step (ExtractError P S) (Extractor P S × Circuit P))
  prepare_outputs q [] e a = some (done (e, a))
  prepare_outputs q (o ∷ os) e a =
      and_go (prepare_output q o e a) (λ s. prepare_outputs (q + 1) os s.0 s.1)

  unfoldable pub prepare_frontier :
      Extractor P S → Circuit P → Option (Step (ExtractError P S) (Extractor P S × Circuit P))
  prepare_frontier e a = prepare_outputs 0 e.g.outputs (record e { frontier = [] }) a
