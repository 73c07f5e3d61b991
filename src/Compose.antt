-- ===== src/Compose.antt =====
-- quizx/src/graph.rs, the provided methods of `GraphLike` that plug, join and reverse diagrams.
use quizx.Prelude.{
  ℕ, zero, suc, ◌+◌, ◌*◌, Bool, true, ◌&&◌, not, Option, none, some, List, [], ◌∷◌, length,
  get_elem?, drop, guard, ◌>>=◌, ◌>>◌, ◌==◌, leb, if◌then◌else◌,
}
use quizx.Prelude.Int.{pos, neg, negsuc, wrap_i32}
use quizx.Types.{EType, BasisElem, merge, is_spider}
use quizx.Interface.{PhaseOps, ScalarOps}
use quizx.VecGraph.{
  Graph, add_vertex_with_data, remove_vertex, add_edge_with_type, vertex_type, vertex_data, phase,
  set_phase, incident_edges, vertex_vec, edge_vec,
}
use quizx.GraphLike.{connected, mul_sqrt2_pow, add_edge_smart, plug_vertex}

-- `Vec::remove`
abbrev pub remove {ℓ} : {A : Type ℓ} → List A → ℕ → Option (List A)
remove [] i = none
remove (x ∷ xs) zero = some xs
remove (x ∷ xs) (suc i) = do ys ← remove xs i; some (x ∷ ys)

-- A `FxHashMap<V, V>`; `get` finds the entry that was inserted last.
abbrev pub VMap : Type 0
VMap = List (ℕ × ℕ)

unfoldable pub get : VMap → ℕ → Option ℕ
get [] v = none
get ((v0, w) ∷ m) v = if v == v0 then some w else get m v

unfoldable pub get_all : VMap → List ℕ → Option (List ℕ)
get_all m [] = some []
get_all m (v ∷ vs) = do w ← get m v; ws ← get_all m vs; some (w ∷ ws)

module _ {P S : Type 0} ⦃p : PhaseOps P⦄ ⦃c : ScalarOps P S⦄ where
  unfoldable pub plug_output : Graph P S → ℕ → BasisElem → Option (Graph P S)
  plug_output g i b = do
    v ← get_elem? g.outputs i
    g1 ← plug_vertex g v b
    outputs ← remove g1.outputs i
    some (mul_sqrt2_pow (record g1 { outputs = outputs }) (negsuc 0))

  unfoldable pub plug_input : Graph P S → ℕ → BasisElem → Option (Graph P S)
  plug_input g i b = do
    v ← get_elem? g.inputs i
    g1 ← plug_vertex g v b
    inputs ← remove g1.inputs i
    some (mul_sqrt2_pow (record g1 { inputs = inputs }) (negsuc 0))

  -- `for (i, &b) in plug.iter().enumerate() { plug_vertex(ends[i], b) }`
  unfoldable pub plug_all : Graph P S → List ℕ → List BasisElem → Option (Graph P S)
  plug_all g ends [] = some g
  plug_all g [] (b ∷ bs) = none
  plug_all g (v ∷ ends) (b ∷ bs) = do g1 ← plug_vertex g v b; plug_all g1 ends bs

  unfoldable pub plug_inputs : Graph P S → List BasisElem → Option (Graph P S)
  plug_inputs g bs = do
    guard (leb (length bs) (length g.inputs))
    g1 ← plug_all g g.inputs bs
    let g2 = record g1 { inputs = drop (length bs) g1.inputs }
    some (mul_sqrt2_pow g2 (wrap_i32 (neg (wrap_i32 (pos (length bs))))))

  unfoldable pub plug_outputs : Graph P S → List BasisElem → Option (Graph P S)
  plug_outputs g bs = do
    guard (leb (length bs) (length g.outputs))
    g1 ← plug_all g g.outputs bs
    let g2 = record g1 { outputs = drop (length bs) g1.outputs }
    some (mul_sqrt2_pow g2 (wrap_i32 (neg (wrap_i32 (pos (length bs))))))

  -- The first loop of `append_graph`.
  unfoldable pub append_vertices : Graph P S → Graph P S → List ℕ → VMap → Option (Graph P S × VMap)
  append_vertices g other [] m = some (g, m)
  append_vertices g other (v ∷ vs) m = do
    d ← vertex_data other v
    let (g1, v1) = add_vertex_with_data g d
    append_vertices g1 other vs ((v, v1) ∷ m)

  -- The second loop.
  unfoldable pub append_edges : Graph P S → VMap → List (ℕ × ℕ × EType) → Option (Graph P S)
  append_edges g m [] = some g
  append_edges g m ((v0, v1, e) ∷ es) = do
    w0 ← get m v0
    w1 ← get m v1
    g1 ← add_edge_with_type g w0 w1 e
    append_edges g1 m es

  unfoldable pub append_graph : Graph P S → Graph P S → Option (Graph P S × VMap)
  append_graph g other = do
    (g1, m) ← append_vertices g other (vertex_vec other) []
    g2 ← append_edges g1 m (edge_vec other)
    some (record g2 { scalar = c.mul g2.scalar other.scalar }, m)

  -- One round of the loop of `plug`: the output `o` of `g` meets the input `i` of `other`.
  unfoldable pub plug_wire : Graph P S → Graph P S → VMap → ℕ → ℕ → Option (Graph P S)
  plug_wire g other m o i = do
    outs ← incident_edges g o
    (n0, et0) ← get_elem? outs 0
    ins ← incident_edges other i
    (ni, et1) ← get_elem? ins 0
    w ← get m ni
    g1 ← add_edge_smart g n0 w (merge et0 et1)
    g2 ← remove_vertex g1 o
    wi ← get m i
    remove_vertex g2 wi

  unfoldable pub plug_wires : Graph P S → Graph P S → VMap → List ℕ → List ℕ → Option (Graph P S)
  plug_wires g other m [] ins = some g
  plug_wires g other m (o ∷ outs) [] = none
  plug_wires g other m (o ∷ outs) (i ∷ ins) = do
    g1 ← plug_wire g other m o i
    plug_wires g1 other m outs ins

  unfoldable pub plug : Graph P S → Graph P S → Option (Graph P S)
  plug g other = do
    guard (length other.inputs == length g.outputs)
    (g1, m) ← append_graph g other
    g2 ← plug_wires g1 other m g1.outputs other.inputs
    outputs ← get_all m other.outputs
    some (record g2 { outputs = outputs })

  -- `for v in vertices { set_phase(v, -phase(v)) }`
  unfoldable pub negate_phases : Graph P S → List ℕ → Option (Graph P S)
  negate_phases g [] = some g
  negate_phases g (v ∷ vs) = do q ← phase g v; g1 ← set_phase g v (p.neg q); negate_phases g1 vs

  unfoldable pub adjoint : Graph P S → Option (Graph P S)
  adjoint g = do
    g1 ← negate_phases g (vertex_vec g)
    some (record g1 { inputs = g1.outputs; outputs = g1.inputs; scalar = c.conj g1.scalar })

module _ {P S : Type 0} ⦃p : PhaseOps P⦄ where
  -- `(0..n).all(|i| connected(inputs[i], outputs[i]))` on lists of one length
  unfoldable pub all_connected : Graph P S → List ℕ → List ℕ → Bool
  all_connected g [] outs = true
  all_connected g (i ∷ ins) [] = true
  all_connected g (i ∷ ins) (o ∷ outs) = connected g i o && all_connected g ins outs

  unfoldable pub is_identity : Graph P S → Bool
  is_identity g =
      length g.outputs == length g.inputs
      && (g.numv == 2 * length g.inputs)
      && all_connected g g.inputs g.outputs

  unfoldable pub tcount_from : Graph P S → List ℕ → Option ℕ
  tcount_from g [] = some 0
  tcount_from g (v ∷ vs) = do
    t ← vertex_type g v
    q ← phase g v
    n ← tcount_from g vs
    some (if is_spider t && not (p.is_clifford q) then n + 1 else n)

  unfoldable pub tcount : Graph P S → Option ℕ
  tcount g = tcount_from g (vertex_vec g)
