-- ===== src/Examples/Strategies.antt =====
-- The strategies of quizx/src/simplify.rs on concrete diagrams.
use quizx.Prelude.{◌≤◌, ◌≡◌, Bool, arith, ◌⊎◌}
use quizx.Prelude.Int.{ℤ}
use quizx.VecGraph.{Graph}
use quizx.Simplify.{finished, panicked}
use quizx.Simplify.Strategies.{flow_simp, interior_clifford_simp}
use quizx.Simplify.Normal.{InteriorNormal}
use quizx.Simplify.Ended.{flow_simp_lem, interior_clifford_simp_lem}
use quizx.Examples.{quarter_phases, power_scalars, star_graph, row_graph}

flow_simp_example :
    (flow_simp 4 row_graph ≡ panicked)
    ⊎ ((g1 : Graph ℤ ℤ) × (m : Bool) × (flow_simp 4 row_graph ≡ finished g1 m) × (g1.numv ≤ 3))
flow_simp_example = flow_simp_lem 4 row_graph (omega arith)

interior_clifford_simp_example :
    (interior_clifford_simp 4 star_graph ≡ panicked)
    ⊎ ((g1 : Graph ℤ ℤ) × (m : Bool) × (interior_clifford_simp 4 star_graph ≡ finished g1 m)
        × InteriorNormal g1
        × (g1.numv ≤ 3))
interior_clifford_simp_example = interior_clifford_simp_lem 4 star_graph (omega arith)
