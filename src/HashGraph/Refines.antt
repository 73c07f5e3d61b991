-- ===== src/HashGraph/Refines.antt =====
-- Any sequence of edits of a diagram: the graph of quizx/src/hash_graph.rs and that of
-- quizx/src/vec_graph.rs, which implement one interface, take it alike.
use quizx.Prelude.{
  ℕ, ◌≡◌, ◌≢◌, refl, sym, ◌∙◌, true, Option, none, some, List, [], ◌∷◌, arith, slot, is_some,
  is_some-cases, ◌>>=◌, length,
}
use quizx.Types.{EType}
use quizx.VecGraph
use quizx.VecGraph.{Graph, VData}
use quizx.VecGraph.Valid.{IsValid, one_each}
use quizx.VecGraph.Unlinked.{tally-one_each}
use quizx.HashGraph
use quizx.HashGraph.{HashGraph, find}
use quizx.HashGraph.Tables.{find-value}
use quizx.HashGraph.Simulates.{Simulates, find_type}
use quizx.HashGraph.Halves.{
  BothStep, find_list, add_edge-BothStep, remove_edge-BothStep, set_edge-BothStep,
}
use quizx.HashGraph.Removal.{remove_vertex-BothStep}
use quizx.HashGraph.Vertices.{update_data-BothStep}

-- A call of a method of `GraphLike` that edits a diagram.
pub data Edit (P : Type 0) : Type 0 where
  add_edge : ℕ → ℕ → EType → Edit P
  remove_edge : ℕ → ℕ → Edit P
  set_edge_type : ℕ → ℕ → EType → Edit P
  remove_vertex : ℕ → Edit P
  change_data : ℕ → (VData P → VData P) → Edit P

module _ {P S : Type 0} where
  abbrev pub vec_edit : Edit P → Graph P S → Option (Graph P S)
  vec_edit (add_edge s t e) g = VecGraph.add_edge_with_type g s t e
  vec_edit (remove_edge s t) g = VecGraph.remove_edge g s t
  vec_edit (set_edge_type s t e) g = VecGraph.set_edge_type g s t e
  vec_edit (remove_vertex v) g = VecGraph.remove_vertex g v
  vec_edit (change_data v change) g = VecGraph.update_data g v change

  abbrev pub hash_edit : Edit P → HashGraph P S → Option (HashGraph P S)
  hash_edit (add_edge s t e) h = HashGraph.add_edge_with_type h s t e
  hash_edit (remove_edge s t) h = HashGraph.remove_edge h s t
  hash_edit (set_edge_type s t e) h = HashGraph.set_edge_type h s t e
  hash_edit (remove_vertex v) h = HashGraph.remove_vertex h v
  hash_edit (change_data v change) h = HashGraph.update_data h v change

  abbrev pub vec_edits : List (Edit P) → Graph P S → Option (Graph P S)
  vec_edits [] g = some g
  vec_edits (c ∷ cs) g = vec_edit c g >>= λ g1. vec_edits cs g1

  abbrev pub hash_edits : List (Edit P) → HashGraph P S → Option (HashGraph P S)
  hash_edits [] h = some h
  hash_edits (c ∷ cs) h = hash_edit c h >>= λ h1. hash_edits cs h1

  -- What the caller owes: new edges join two vertices of the graph that are not joined; the edges
  -- and vertices that are changed are there.
  abbrev pub Allowed : Edit P → Graph P S → Type 0
  Allowed (add_edge s t e) g =
      (s ≢ t)
      × (is_some (slot g.vdata s) ≡ true)
      × (is_some (slot g.vdata t) ≡ true)
      × (VecGraph.edge_type_opt g s t ≡ none)
  Allowed (remove_edge s t) g = (e : EType) × (VecGraph.edge_type_opt g s t ≡ some e)
  Allowed (set_edge_type s t e) g = (e0 : EType) × (VecGraph.edge_type_opt g s t ≡ some e0)
  Allowed (remove_vertex v) g = is_some (slot g.vdata v) ≡ true
  Allowed (change_data v change) g = (d : VData P) × (slot g.vdata v ≡ some d)

  abbrev pub AllAllowed : List (Edit P) → Graph P S → Type 0
  AllAllowed [] g = Unit
  AllAllowed (c ∷ cs) g =
      Allowed c g × ((g1 : Graph P S) → vec_edit c g ≡ some g1 → AllAllowed cs g1)

  edit-BothStep :
      (c : Edit P) (g : Graph P S) (h : HashGraph P S)
      → IsValid g
      → Simulates g h
      → Allowed c g
      → BothStep (vec_edit c g) (hash_edit c h)
  edit-BothStep (add_edge s t e) g h valid sim (ne, live_s, live_t, absent) =
      add_edge-BothStep g h s t e valid sim ne live_s live_t absent
  edit-BothStep (remove_edge s t) g h valid sim (e, joined) =
      remove_edge-BothStep g h s t valid sim joined
  edit-BothStep (set_edge_type s t e) g h valid sim (e0, joined) =
      set_edge-BothStep g h s t e valid sim joined
  edit-BothStep (remove_vertex v) g h valid sim live = remove_vertex-BothStep g h v valid sim live
  edit-BothStep (change_data v change) g h valid sim (d, at_v) =
      update_data-BothStep g h v change valid sim at_v

  -- From two graphs that hold the same diagram, every sequence of edits whose calls are allowed runs
  -- without a panic on both, keeps the graph on vectors well-formed, and ends in two graphs that hold
  -- the same diagram: the same vertices with the same data, the same edges, counts, inputs, outputs
  -- and scalar.
  pub edits_refine :
      (cs : List (Edit P)) (g : Graph P S) (h : HashGraph P S)
      → IsValid g
      → Simulates g h
      → AllAllowed cs g
      → BothStep (vec_edits cs g) (hash_edits cs h)
  edits_refine [] g h valid sim allowed = (g, h, refl, refl, valid, sim)
  edits_refine (c ∷ cs) g h valid sim (now, later) =
      let (g1, h1, run_g, run_h, valid1, sim1) = edit-BothStep c g h valid sim now in
      let (g2, h2, rest_g, rest_h, valid2, sim2) =
        edits_refine cs g1 h1 valid1 sim1 (later g1 run_g) in
      (g2, h2, rw run_g rest_g, rw run_h rest_h, valid2, sim2)

  -- Two graphs that hold the same diagram answer alike to what the interface asks about a vertex of
  -- the diagram: its data, its edges, its degree.
  pub reads_agree :
      (g : Graph P S) (h : HashGraph P S) (v w : ℕ)
      → IsValid g
      → Simulates g h
      → is_some (slot g.vdata v) ≡ true
      → (HashGraph.vertex_data h v ≡ VecGraph.vertex_data g v)
        × (HashGraph.edge_type_opt h v w ≡ some (VecGraph.edge_type_opt g v w))
        × (HashGraph.degree h v ≡ VecGraph.degree g v)
  unfolding HashGraph.vertex_data VecGraph.vertex_data HashGraph.edge_type_opt HashGraph.degree
      VecGraph.degree
  reads_agree g h v w valid sim live =
      let (nhd, at_v) = find_list v sim.edges (sym (valid.same_live v) ∙ live) in
      let (adj, adj_v) = is_some-cases (slot g.edata v) (sym (valid.same_live v) ∙ live) in
      let value_w =
        find-value nhd w ∙ find_type g h.edata v w nhd (valid.simple v w) sim.edges at_v in
      let lengths : length nhd ≡ length adj =
        ground (
          arith,
          tally-one_each nhd,
          tally-one_each adj,
          at_v,
          adj_v,
          sim.edges.weight one_each v,
        ) in
      (sim.vertices v, rw (at_v, value_w) refl, rw (at_v, adj_v, lengths) refl)
