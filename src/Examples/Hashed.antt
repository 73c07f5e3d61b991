-- ===== src/Examples/Hashed.antt =====
-- A diagram in the hash tables of quizx/src/hash_graph.rs, the same in vectors, and edits of the two.
use quizx.Prelude.{◌≡◌, refl, true, some, List, [], ◌∷◌, arith, slot, is_some, length}
use quizx.Prelude.Int.{ℤ, pos}
use quizx.Types.{VType, EType}
use quizx.VecGraph
use quizx.VecGraph.{Graph, VData}
use quizx.VecGraph.Valid.{IsValid}
use quizx.HashGraph
use quizx.HashGraph.{HashGraph, find}
use quizx.HashGraph.Simulates.{Simulates}
use quizx.HashGraph.Halves.{BothStep}
use quizx.HashGraph.Vertices.{add_vertex-BothStep}
use quizx.HashGraph.Refines.{
  Edit, remove_edge, remove_vertex, vec_edits, hash_edits, AllAllowed, edits_refine, reads_agree,
}
use quizx.Examples.{
  spider, pair_graph, pair_graph-IsValid, pair_graph-joined, loose_graph, loose_graph-IsValid,
}

-- The spiders of `pair_graph`, listed in the other order.
abbrev pair_hash : HashGraph ℤ ℤ
pair_hash = record {
  vdata = (1, spider VType.x) ∷ (0, spider VType.z) ∷ [];
  edata = (0, (1, EType.n) ∷ []) ∷ (1, (0, EType.n) ∷ []) ∷ [];
  inputs = [];
  outputs = [];
  numv = 2;
  nume = 1;
  freshv = 2;
  scalar = pos 0;
}

pair_hash-Simulates : Simulates pair_graph pair_hash
unfolding find
pair_hash-Simulates = record {
  vertices = λ v. ground arith;
  edges = record { live = λ v. ground arith; weight = λ f v. ground arith };
  same_numv = refl;
  same_nume = refl;
  same_inputs = refl;
  same_outputs = refl;
  same_scalar = refl;
}

abbrev two_edits : List (Edit ℤ)
two_edits = remove_edge 0 1 ∷ remove_vertex 1 ∷ []

still_there :
    (g1 : Graph ℤ ℤ)
    → VecGraph.remove_edge pair_graph 0 1 ≡ some g1
    → is_some (slot g1.vdata 1) ≡ true
unfolding VecGraph.remove_edge VecGraph.remove_half_edge VecGraph.index VecGraph.swap_remove
still_there g1 h = ground (arith, h)

two_edits-AllAllowed : AllAllowed two_edits pair_graph
two_edits-AllAllowed = ((EType.n, pair_graph-joined), λ g1 h. (still_there g1 h, λ g2 h'. tt))

edits_refine_example : BothStep (vec_edits two_edits pair_graph) (hash_edits two_edits pair_hash)
edits_refine_example =
    edits_refine two_edits pair_graph pair_hash pair_graph-IsValid pair_hash-Simulates
      two_edits-AllAllowed

reads_agree_example :
    (HashGraph.vertex_data pair_hash 0 ≡ VecGraph.vertex_data pair_graph 0)
    × (HashGraph.edge_type_opt pair_hash 0 1 ≡ some (VecGraph.edge_type_opt pair_graph 0 1))
    × (HashGraph.degree pair_hash 0 ≡ VecGraph.degree pair_graph 0)
reads_agree_example =
    reads_agree pair_graph pair_hash 0 1 pair_graph-IsValid pair_hash-Simulates refl

abbrev loose_hash : HashGraph ℤ ℤ
loose_hash = record pair_hash {
  vdata = (1, spider VType.z) ∷ (0, spider VType.z) ∷ [];
  edata = (0, []) ∷ (1, []) ∷ [];
  nume = 0;
}

loose_hash-Simulates : Simulates loose_graph loose_hash
unfolding find
loose_hash-Simulates = record {
  vertices = λ v. ground arith;
  edges = record { live = λ v. ground arith; weight = λ f v. ground arith };
  same_numv = refl;
  same_nume = refl;
  same_inputs = refl;
  same_outputs = refl;
  same_scalar = refl;
}

add_vertex-BothStep_example :
    let (g', v) = VecGraph.add_vertex_with_data loose_graph (spider VType.x) in
    let (h', w) = HashGraph.add_vertex_with_data loose_hash (spider VType.x) in
    IsValid g' × Simulates g' h' × (v ≡ w) × (g'.holes ≡ []) × (h'.freshv ≡ length g'.vdata)
add_vertex-BothStep_example =
    add_vertex-BothStep loose_graph loose_hash (spider VType.x) loose_graph-IsValid
      loose_hash-Simulates refl refl
