-- ===== src/Examples/Extraction.antt =====
-- The extraction of circuits on concrete diagrams.
use quizx.Prelude.{ℕ, suc, zero, ◌<◌, ◌≡◌, refl, true, false, some, [], ◌∷◌, arith, is_some}
use quizx.Prelude.Int.{ℤ}
use quizx.VecGraph.{Graph}
use quizx.Linalg.{Mat2, entry}
use quizx.Extract.{Extractor, update_frontier_biadj}
use quizx.Extract.Biadjacency.{BiadjSet, update_frontier_biadj_lem}
use quizx.Examples.{loose_graph, loose_graph-IsValid}

-- The first of two spiders with no edge is the frontier.
abbrev extractor : Extractor ℤ ℤ
extractor = record { g = loose_graph; frontier = (0, 0) ∷ []; up_to_perm = false }

abbrev one_entry : Mat2
one_entry = record { d = (1 ∷ []) ∷ [] }

one_entry-entry : (l k : ℕ) → l < 1 → k < 1 → is_some (entry one_entry l k) ≡ true
unfolding entry
one_entry-entry zero zero h h' = refl
one_entry-entry zero (suc k) h h' = absurd (omega (arith, h'))
one_entry-entry (suc l) k h h' = absurd (omega (arith, h))

update_frontier_biadj_example :
    (g' : Graph ℤ ℤ) × (update_frontier_biadj extractor (1 ∷ []) one_entry
      ≡ some (record extractor { g = g' }))
    × BiadjSet loose_graph one_entry 0 (0 ∷ []) (1 ∷ []) g'
update_frontier_biadj_example =
    update_frontier_biadj_lem extractor (1 ∷ []) one_entry loose_graph-IsValid (refl, tt) (refl, tt)
      (refl, tt) (refl, tt) (refl, tt) one_entry-entry
