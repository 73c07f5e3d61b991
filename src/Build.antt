-- ===== src/Build.antt =====
-- quizx/src/gate.rs (`add_spider`, `add_ccz_postselected`, `add_to_graph`) and quizx/src/circuit.rs
-- (`to_graph_with_options`): the ZX-diagram of a circuit. `qs` holds, for each qubit, the vertex
-- that was placed last, or `none` after a post-selection.
use quizx.Prelude.{
  ℕ, zero, suc, ◌+◌, Bool, false, Option, none, some, List, [], ◌∷◌, get_elem?, set, push, is_some,
  ◌>>=◌, ◌==◌, if◌then◌else◌,
}
use quizx.Prelude.Int.{ℤ, pos, negsuc, ◌+ℤ◌, ltb_ℤ, wrap_i32}
use quizx.Types.{VType, EType, vtype_eq}
use quizx.Interface.{PhaseOps, ScalarOps}
use quizx.VecGraph.{
  Graph, VData, new, add_vertex, add_vertex_with_data, add_edge_with_type, vertex_type, row,
  set_row, set_phase, set_vertex_type,
}
use quizx.GraphLike.{mul_sqrt2_pow, mul_scalar}
use quizx.Gate.{Gate, GType, push_basic_gates}
use quizx.Circuit.{Circuit}

pub record Build (P S : Type 0) : Type 0 where
  pub graph : Graph P S
  pub qs : List (Option ℕ)

abbrev pub max_ℤ : ℤ → ℤ → ℤ
max_ℤ a b = if ltb_ℤ a b then b else a

-- `iter().filter(|&w| w != v)`
abbrev pub without : ℕ → List ℕ → List ℕ
without v [] = []
without v (w ∷ ws) = if w == v then without v ws else w ∷ without v ws

-- `qs.swap(a, b)`
unfoldable pub swap_qubits : List (Option ℕ) → ℕ → ℕ → Option (List (Option ℕ))
swap_qubits qs a b = do x ← get_elem? qs a; y ← get_elem? qs b; some (set (set qs a y) b x)

module _ {P S : Type 0} ⦃p : PhaseOps P⦄ ⦃c : ScalarOps P S⦄ where
  -- Places a spider on the wire of a qubit; nothing happens on a wire that has ended.
  unfoldable pub add_spider : Build P S → ℕ → VType → EType → P → Option (Build P S × Option ℕ)
  add_spider b qubit ty et q = do
    w ← get_elem? b.qs qubit
    elim w [
      | none ↦ some (b, none)
      | some v0 ↦ (do
        r ← row b.graph v0
        let d : VData P = record {
          ty = ty;
          phase = q;
          qubit = wrap_i32 (pos qubit);
          row = wrap_i32 (r +ℤ pos 1);
        }
        let (g1, v) = add_vertex_with_data b.graph d
        g2 ← add_edge_with_type g1 v0 v et
        some (record { graph = g2; qs = set b.qs qubit (some v) }, some v))
    ]

  -- A gate that is one spider on its first qubit.
  unfoldable pub add_single : Build P S → List ℕ → VType → EType → P → Option (Build P S)
  unfolding add_spider
  add_single b qs ty et q = do q0 ← get_elem? qs 0; (b1, v) ← add_spider b q0 ty et q; some b1

  -- The two spiders of a two-qubit gate, moved to one row.
  unfoldable pub align : Graph P S → ℕ → ℕ → Option (Graph P S)
  align g v1 v2 = do
    r1 ← row g v1
    r2 ← row g v2
    g1 ← set_row g v1 (max_ℤ r1 r2)
    set_row g1 v2 (max_ℤ r1 r2)

  unfoldable pub link : Graph P S → ℕ → ℕ → EType → Option (Graph P S)
  link g v1 v2 et = do
    g1 ← align g v1 v2
    g2 ← add_edge_with_type g1 v1 v2 et
    some (mul_sqrt2_pow g2 (pos 1))

  -- CNOT, CZ and XCX: two spiders, of types `t1` and `t2`, joined by an edge.
  unfoldable pub add_double : Build P S → List ℕ → VType → VType → EType → Option (Build P S)
  unfolding add_spider
  add_double b qs t1 t2 et = do
    q0 ← get_elem? qs 0
    (b1, v1) ← add_spider b q0 t1 EType.n p.zero
    q1 ← get_elem? qs 1
    (b2, v2) ← add_spider b1 q1 t2 EType.n p.zero
    elim v1 [
      | none ↦ some b2
      | some w1 ↦ elim v2 [
        | none ↦ some b2
        | some w2 ↦ (do g ← link b2.graph w1 w2 et; some (record b2 { graph = g }))
      ]
    ]

  unfoldable pub add_swap : Build P S → List ℕ → Option (Build P S)
  unfolding add_spider
  add_swap b qs = do
    q0 ← get_elem? qs 0
    (b1, v1) ← add_spider b q0 VType.z EType.n p.zero
    q1 ← get_elem? qs 1
    (b2, v2) ← add_spider b1 q1 VType.z EType.n p.zero
    elim v1 [
      | none ↦ some b2
      | some w1 ↦ elim v2 [
        | none ↦ some b2
        | some w2 ↦ (do
          g ← align b2.graph w1 w2
          qs1 ← swap_qubits b2.qs q0 q1
          (b3, u1) ← add_spider (record { graph = g; qs = qs1 }) q0 VType.z EType.n p.zero
          (b4, u2) ← add_spider b3 q1 VType.z EType.n p.zero
          some b4)
      ]
    ]

  unfoldable pub init_ancilla : Build P S → List ℕ → Option (Build P S)
  init_ancilla b qs = do
    q0 ← get_elem? qs 0
    w ← get_elem? b.qs q0
    elim w [
      | none ↦ some b
      | some v ↦ (do
        t ← vertex_type b.graph v
        if vtype_eq t VType.b
            then (do
              let g1 = record (b.graph) { inputs = without v b.graph.inputs }
              g2 ← set_vertex_type g1 v VType.x
              some (record b { graph = mul_sqrt2_pow g2 (negsuc 0) }))
            else some b)
    ]

  unfoldable pub post_select : Build P S → List ℕ → Option (Build P S)
  unfolding add_spider
  post_select b qs = do
    q0 ← get_elem? qs 0
    (b1, v) ← add_spider b q0 VType.x EType.n p.zero
    some (record { graph = mul_sqrt2_pow b1.graph (negsuc 0); qs = set b1.qs q0 none })

  -- `graph.add_edge_with_type(s, t, EType::H)` for each pair
  unfoldable pub add_h_edges : Graph P S → List (ℕ × ℕ) → Option (Graph P S)
  add_h_edges g [] = some g
  add_h_edges g ((s, t) ∷ es) = do g1 ← add_edge_with_type g s t EType.h; add_h_edges g1 es

  -- The extra spider and the phase gadgets of `add_ccz_postselected`.
  unfoldable pub ccz_gadgets : Graph P S → ℕ → ℕ → ℕ → Option (Graph P S)
  ccz_gadgets g v0 v1 v2 = do
    let (g1, s) = add_vertex g VType.z
    g2 ← set_phase g1 s (p.ratio (negsuc 0) 4)
    g3 ← add_edge_with_type g2 s v2 EType.h
    let (g4, a0) = add_vertex g3 VType.z
    let (g5, a1) = add_vertex g4 VType.z
    let (g6, a2) = add_vertex g5 VType.z
    let (g7, b0) = add_vertex g6 VType.z
    let (g8, b1) = add_vertex g7 VType.z
    let (g9, b2) = add_vertex g8 VType.z
    h1 ← set_phase g9 b0 (p.ratio (negsuc 0) 4)
    h2 ← set_phase h1 b1 (p.ratio (negsuc 0) 4)
    h3 ← set_phase h2 b2 (p.ratio (pos 1) 4)
    add_h_edges h3 (
        (b0, a0)
        ∷ (b1, a1)
        ∷ (b2, a2)
        ∷ (a0, v0)
        ∷ (a0, s)
        ∷ (a1, v1)
        ∷ (a1, s)
        ∷ (a2, v0)
        ∷ (a2, v1)
        ∷ (a2, s)
        ∷ [])

  -- `qs[qubit].is_some()`
  abbrev pub is_live : Build P S → ℕ → Option Bool
  is_live b qubit = do w ← get_elem? b.qs qubit; some (is_some w)

  -- The scalar `Scalar::Exact(2, vec![0, 1, 0, 0])` is a parameter.
  unfoldable pub add_ccz_postselected : S → Build P S → List ℕ → Option (Build P S)
  unfolding add_spider
  add_ccz_postselected fix b qs = do
    q0 ← get_elem? qs 0
    live0 ← is_live b q0
    live1 ← if live0 then (do q1 ← get_elem? qs 1; is_live b q1) else some false
    live2 ← if live1 then (do q2 ← get_elem? qs 2; is_live b q2) else some false
    if live2
        then (do
          (b1, o0) ← add_spider b q0 VType.z EType.n p.zero
          v0 ← o0
          q1 ← get_elem? qs 1
          (b2, o1) ← add_spider b1 q1 VType.z EType.n p.zero
          v1 ← o1
          q2 ← get_elem? qs 2
          (b3, o2) ← add_spider b2 q2 VType.z EType.n (p.ratio (negsuc 0) 2)
          v2 ← o2
          g ← ccz_gadgets b3.graph v0 v1 v2
          some (record b3 { graph = mul_scalar g fix }))
        else some b

-- `for g in c.gates { g.add_to_graph(..) }`
unfoldable pub add_all {ℓ κ} :
    {B : Type ℓ} {G : Type κ} → (B → G → Option B) → B → List G → Option B
add_all f b [] = some b
add_all f b (g ∷ gs) = do b1 ← f b g; add_all f b1 gs

module _ {P S : Type 0} ⦃p : PhaseOps P⦄ ⦃c : ScalarOps P S⦄ (fix : S) (postselect : Bool) where
  -- The basic gates of a composite gate, added one by one by `add`.
  unfoldable pub add_decomposed :
      (Build P S → Gate P → Option (Build P S)) → Build P S → Gate P → Option (Build P S)
  add_decomposed add b g = do gs ← push_basic_gates [] g; add_all add b gs

  -- `add_to_graph`. A composite gate is added through its basic gates by the same method, which the
  -- first argument stands for.
  unfoldable pub add_gate :
      (Build P S → Gate P → Option (Build P S)) → Build P S → Gate P → Option (Build P S)
  unfolding add_decomposed
  add_gate add b g = elim g.ty [
    | GType.z_phase ↦ add_single b g.qs VType.z EType.n g.phase
    | GType.z ↦ add_single b g.qs VType.z EType.n (p.ratio (pos 1) 1)
    | GType.s ↦ add_single b g.qs VType.z EType.n (p.ratio (pos 1) 2)
    | GType.sdg ↦ add_single b g.qs VType.z EType.n (p.ratio (negsuc 0) 2)
    | GType.t ↦ add_single b g.qs VType.z EType.n (p.ratio (pos 1) 4)
    | GType.tdg ↦ add_single b g.qs VType.z EType.n (p.ratio (negsuc 0) 4)
    | GType.x_phase ↦ add_single b g.qs VType.x EType.n g.phase
    | GType.not ↦ add_single b g.qs VType.x EType.n (p.ratio (pos 1) 1)
    | GType.had ↦ add_single b g.qs VType.z EType.h p.zero
    | GType.cnot ↦ add_double b g.qs VType.z VType.x EType.n
    | GType.cz ↦ add_double b g.qs VType.z VType.z EType.h
    | GType.xcx ↦ add_double b g.qs VType.x VType.x EType.h
    | GType.swap ↦ add_swap b g.qs
    | GType.init_ancilla ↦ init_ancilla b g.qs
    | GType.post_select ↦ post_select b g.qs
    | GType.ccz ↦ if postselect then add_ccz_postselected fix b g.qs else add_decomposed add b g
    | GType.toff ↦
        if postselect
        then (do
          q2 ← get_elem? g.qs 2
          (b1, u1) ← add_spider b q2 VType.z EType.h p.zero
          b2 ← add_ccz_postselected fix b1 g.qs
          (b3, u3) ← add_spider b2 q2 VType.z EType.h p.zero
          some b3)
        else add_decomposed add b g
    | GType.parity_phase ↦ add_decomposed add b g
    | GType.unknown_gate ↦ some b
  ]

  -- The recursion, cut off at a depth; `add_to_graph` never goes below depth 1.
  unfoldable pub add_to_depth : ℕ → Build P S → Gate P → Option (Build P S)
  unfolding add_gate
  add_to_depth zero b g = none
  add_to_depth (suc n) b g = add_gate (add_to_depth n) b g

  unfoldable pub add_to_graph : Build P S → Gate P → Option (Build P S)
  unfolding add_to_depth
  add_to_graph b g = add_to_depth 2 b g

  -- The first loop of `to_graph_with_options`; `n` rounds are left and `i` are done.
  unfoldable pub add_inputs : ℕ → ℕ → Build P S → List ℕ → Build P S × List ℕ
  add_inputs zero i b ins = (b, ins)
  add_inputs (suc n) i b ins =
      let d : VData P = record {
        ty = VType.b;
        phase = p.zero;
        qubit = wrap_i32 (pos i);
        row = pos 1;
      } in
      let (g, v) = add_vertex_with_data b.graph d in
      add_inputs n (i + 1) (record { graph = g; qs = push b.qs (some v) }) (push ins v)

  -- The greatest row at an end of a wire, 0 where there is none.
  unfoldable pub last_row : Graph P S → List (Option ℕ) → Option ℤ
  last_row g [] = some (pos 0)
  last_row g (none ∷ qs) = do m ← last_row g qs; some (max_ℤ (pos 0) m)
  last_row g (some v ∷ []) = row g v
  last_row g (some v ∷ q ∷ qs) = do r ← row g v; m ← last_row g (q ∷ qs); some (max_ℤ r m)

  -- The last loop: a boundary at the end of each wire that is left.
  unfoldable pub add_outputs :
      ℤ → ℕ → Graph P S → List (Option ℕ) → List ℕ → Option (Graph P S × List ℕ)
  add_outputs r i g [] outs = some (g, outs)
  add_outputs r i g (none ∷ qs) outs = add_outputs r (i + 1) g qs outs
  add_outputs r i g (some v0 ∷ qs) outs = do
    let d : VData P = record {
      ty = VType.b;
      phase = p.zero;
      qubit = wrap_i32 (pos i);
      row = wrap_i32 (r +ℤ pos 1);
    }
    let (g1, v) = add_vertex_with_data g d
    g2 ← add_edge_with_type g1 v0 v EType.n
    add_outputs r (i + 1) g2 qs (push outs v)

  unfoldable pub to_graph_with_options : Circuit P → Option (Graph P S)
  unfolding add_to_graph add_inputs last_row add_outputs
  to_graph_with_options circ = do
    let (b0, ins) = add_inputs circ.nqubits 0 (record { graph = new c.one; qs = [] }) []
    b1 ← add_all add_to_graph (record b0 { graph = record (b0.graph) { inputs = ins } }) circ.gates
    r ← last_row b1.graph b1.qs
    (g, outs) ← add_outputs r 0 b1.graph b1.qs []
    some (record g { outputs = outs })
