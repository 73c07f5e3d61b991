-- ===== src/Simplify.antt =====
-- quizx/src/simplify.rs: the loops that apply a rule until nothing matches, and the strategies that are
-- one loop. The number of rounds is bounded by fuel.
pub mod Rounds
pub mod Count
pub mod LocalComp
pub mod Strategies
pub mod Numv
pub mod Shrinking
pub mod Matches
pub mod Normal
pub mod Ended
use quizx.Prelude.{
  ℕ, zero, suc, Bool, true, false, ◌&&◌, ◌||◌, not, Option, none, some, List, [], ◌∷◌, ◌>>=◌, leb,
  if◌then◌else◌,
}
use quizx.Types.{EType}
use quizx.Interface.{PhaseOps, ScalarOps}
use quizx.VecGraph.{Graph, vertex_vec, edge_vec, contains_vertex}
use quizx.Rules.Spiders.{
  check_remove_id, remove_id_unchecked, check_spider_fusion, spider_fusion_unchecked,
  check_remove_single, remove_single_unchecked,
}
use quizx.Rules.Pivot.{
  check_local_comp, local_comp_unchecked, check_pivot, pivot_unchecked, check_gen_pivot_reduce,
  gen_pivot_unchecked,
}

-- How a loop ends: with the diagram and whether there was a match, in a panic, or out of fuel.
pub data Outcome (G : Type 0) : Type 0 where
  finished : G → Bool → Outcome G
  panicked : Outcome G
  no_fuel : Outcome G

module _ {P S : Type 0} where
  -- One round of `vertex_simp`, over the vertices that the diagram had before it.
  unfoldable pub vertex_round :
      (Graph P S → ℕ → Option Bool)
      → (Graph P S → ℕ → Option (Graph P S))
      → List ℕ
      → Graph P S
      → Bool
      → Option (Graph P S × Bool)
  vertex_round check rule [] g found = some (g, found)
  vertex_round check rule (v ∷ vs) g found = do
    b ← check g v
    (g1, found1) ← if b then (do g1 ← rule g v; some (g1, true)) else some (g, found)
    vertex_round check rule vs g1 found1

  unfoldable pub vertex_simp :
      ℕ
      → (Graph P S → ℕ → Option Bool)
      → (Graph P S → ℕ → Option (Graph P S))
      → Bool
      → Graph P S
      → Bool
      → Outcome (Graph P S)
  unfolding vertex_round
  vertex_simp zero check rule force_reduce g got_match = no_fuel
  vertex_simp (suc n) check rule force_reduce g got_match =
      elim (vertex_round check rule (vertex_vec g) g false) [
        | none ↦ panicked
        | some (g1, new_matches) ↦ elim (not new_matches || (force_reduce && leb g1.numv g.numv)) [
          | true ↦ finished g1 (got_match || new_matches)
          | false ↦ vertex_simp n check rule force_reduce g1 (got_match || new_matches)
        ]
      ]

  -- One round of `edge_simp`, over the edges that the diagram had before it.
  unfoldable pub edge_round :
      (Graph P S → ℕ → ℕ → Option Bool)
      → (Graph P S → ℕ → ℕ → Option (Graph P S))
      → List (ℕ × ℕ × EType)
      → Graph P S
      → Bool
      → Option (Graph P S × Bool)
  edge_round check rule [] g found = some (g, found)
  edge_round check rule ((s, t, e) ∷ es) g found = do
    b ← if contains_vertex g s && contains_vertex g t then check g s t else some false
    (g1, found1) ← if b then (do g1 ← rule g s t; some (g1, true)) else some (g, found)
    edge_round check rule es g1 found1

  unfoldable pub edge_simp :
      ℕ
      → (Graph P S → ℕ → ℕ → Option Bool)
      → (Graph P S → ℕ → ℕ → Option (Graph P S))
      → Bool
      → Graph P S
      → Bool
      → Outcome (Graph P S)
  unfolding edge_round
  edge_simp zero check rule force_reduce g got_match = no_fuel
  edge_simp (suc n) check rule force_reduce g got_match =
      elim (edge_round check rule (edge_vec g) g false) [
        | none ↦ panicked
        | some (g1, new_matches) ↦ elim (not new_matches || (force_reduce && leb g1.numv g.numv)) [
          | true ↦ finished g1 (got_match || new_matches)
          | false ↦ edge_simp n check rule force_reduce g1 (got_match || new_matches)
        ]
      ]

module _ {P S : Type 0} ⦃p : PhaseOps P⦄ ⦃c : ScalarOps P S⦄ where
  unfoldable pub id_simp : ℕ → Graph P S → Outcome (Graph P S)
  id_simp n g = vertex_simp n check_remove_id remove_id_unchecked false g false

  unfoldable pub local_comp_simp : ℕ → Graph P S → Outcome (Graph P S)
  local_comp_simp n g = vertex_simp n check_local_comp local_comp_unchecked false g false

  unfoldable pub spider_simp : ℕ → Graph P S → Outcome (Graph P S)
  spider_simp n g = edge_simp n check_spider_fusion spider_fusion_unchecked false g false

  unfoldable pub pivot_simp : ℕ → Graph P S → Outcome (Graph P S)
  pivot_simp n g = edge_simp n check_pivot pivot_unchecked false g false

  unfoldable pub gen_pivot_simp : ℕ → Graph P S → Outcome (Graph P S)
  gen_pivot_simp n g = edge_simp n check_gen_pivot_reduce gen_pivot_unchecked false g false
