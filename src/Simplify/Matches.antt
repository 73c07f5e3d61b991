-- ===== src/Simplify/Matches.antt =====
-- quizx/src/simplify.rs: where a loop ends with no match, nothing was changed and its check holds nowhere.
use quizx.Prelude.{
  ℕ, zero, suc, ◌≡◌, refl, sym, ap, ◌∙◌, ◌⊎◌, Bool, true, false, ◌&&◌, ◌||◌, not, Option, none,
  some, List, [], ◌∷◌, arith, Option-cases, leb, inl, inr, ◌>>=◌, >>=-eq-some, if◌then◌else◌,
}
use quizx.Types.{EType}
use quizx.VecGraph.{Graph, vertex_vec, edge_vec, contains_vertex}
use quizx.Simplify.{Outcome, finished, panicked, vertex_round, vertex_simp, edge_round, edge_simp}

module _ {P S : Type 0} where
  -- A check that holds at no vertex of the list.
  abbrev pub NoVertex : (Graph P S → ℕ → Option Bool) → Graph P S → List ℕ → Type 0
  NoVertex check g [] = Unit
  NoVertex check g (v ∷ vs) = (check g v ≡ some false) × NoVertex check g vs

  -- A check that holds at no edge of the list whose ends are in the diagram.
  abbrev pub NoEdge : (Graph P S → ℕ → ℕ → Option Bool) → Graph P S → List (ℕ × ℕ × EType) → Type 0
  NoEdge check g [] = Unit
  NoEdge check g ((s, t, e) ∷ es) =
      ((if contains_vertex g s && contains_vertex g t then check g s t else some false)
        ≡ some false)
      × NoEdge check g es

  -- What one step of a round says of the match.
  pub matched :
      (b found f : Bool) (o : Option (Graph P S)) (g g1 : Graph P S)
      → (if b then ◌>>=◌ {B = Graph P S × Bool} o (λ g'. some (g', true)) else some (g, found))
        ≡ some (g1, f)
      → ((b ≡ true) × (f ≡ true)) ⊎ ((b ≡ false) × (g1 ≡ g) × (f ≡ found))
  matched true found f none g g1 h = cc
  matched true found f (some g') g g1 h = inl (refl, ground (arith, h))
  matched false found f o g g1 h = inr (refl, ground (arith, h), ground (arith, h))

  module _ (check : Graph P S → ℕ → Option Bool) (rule : Graph P S → ℕ → Option (Graph P S)) where
    -- A match is not forgotten.
    vertex_round_found :
        (vs : List ℕ) (g g1 : Graph P S) (b : Bool)
        → vertex_round check rule vs g true ≡ some (g1, b)
        → b ≡ true
    unfolding vertex_round
    vertex_round_found [] g g1 b h = ground (arith, h)
    vertex_round_found (v ∷ vs) g g1 b h =
        let (b0, seen, rest) = >>=-eq-some (check g v) _ h in
        let ((g2, f), step, last) = >>=-eq-some _ _ rest in
        elim (matched b0 true f (rule g v) g g2 step) [
          | inl (yes_b, yes_f) ↦ vertex_round_found vs g2 g1 b (rw yes_f at last)
          | inr (no_b, same, yes_f) ↦ vertex_round_found vs g2 g1 b (rw yes_f at last)
        ]

    vertex_round_none :
        (vs : List ℕ) (g g1 : Graph P S)
        → vertex_round check rule vs g false ≡ some (g1, false)
        → (g1 ≡ g) × NoVertex check g vs
    unfolding vertex_round
    vertex_round_none [] g g1 h = (ground (arith, h), tt)
    vertex_round_none (v ∷ vs) g g1 h =
        let (b0, seen, rest) = >>=-eq-some (check g v) _ h in
        let ((g2, f), step, last) = >>=-eq-some _ _ rest in
        elim (matched b0 false f (rule g v) g g2 step) [
          | inl (yes_b, yes_f) ↦
              absurd (ground (arith, vertex_round_found vs g2 g1 false (rw yes_f at last)))
          | inr (no_b, same, no_f) ↦
              let (same1, none1) = vertex_round_none vs g g1 (rw (same, no_f) at last) in
              (same1, (seen ∙ ap some no_b, none1))
        ]

    -- The rest of `vertex_simp` after a round, for the result of the round.
    abbrev pub go_on : ℕ → Graph P S → Bool → Option (Graph P S × Bool) → Outcome (Graph P S)
    go_on n g got none = panicked
    go_on n g got (some (g1, new_matches)) =
        elim (not new_matches || (false && leb g1.numv g.numv)) [
          | true ↦ finished g1 (got || new_matches)
          | false ↦ vertex_simp n check rule false g1 (got || new_matches)
        ]

    pub vertex_simp_step :
        (n : ℕ) (g : Graph P S) (got : Bool)
        → vertex_simp (suc n) check rule false g got
          ≡ go_on n g got (vertex_round check rule (vertex_vec g) g false)
    unfolding vertex_simp
    vertex_simp_step n g got =
        elim (Option-cases (vertex_round check rule (vertex_vec g) g false)) [
          | inl e ↦ ground (arith, e)
          | inr ((g1, m), e) ↦ ground (arith, e)
        ]

    go_on_found :
        (n : ℕ) (g g1 : Graph P S) (b : Bool) (o : Option (Graph P S × Bool))
        → ((g2 : Graph P S) → vertex_simp n check rule false g2 true ≡ finished g1 b → b ≡ true)
        → go_on n g true o ≡ finished g1 b
        → b ≡ true
    go_on_found n g g1 b none ih e = cc
    go_on_found n g g1 b (some (g2, true)) ih e = ih g2 e
    go_on_found n g g1 b (some (g2, false)) ih e = ground (arith, e)

    vertex_simp_found :
        (n : ℕ) (g g1 : Graph P S) (b : Bool)
        → vertex_simp n check rule false g true ≡ finished g1 b
        → b ≡ true
    vertex_simp_found zero g g1 b h = (unfold vertex_simp in cc)
    vertex_simp_found (suc n) g g1 b h =
        go_on_found n g g1 b (vertex_round check rule (vertex_vec g) g false)
          (λ g2. vertex_simp_found n g2 g1 b) (sym (vertex_simp_step n g true) ∙ h)

    go_on_none :
        (n : ℕ) (g g1 : Graph P S) (o : Option (Graph P S × Bool))
        → go_on n g false o ≡ finished g1 false
        → o ≡ some (g1, false)
    go_on_none n g g1 none e = cc
    go_on_none n g g1 (some (g2, true)) e =
        absurd (ground (arith, vertex_simp_found n g2 g1 false e))
    go_on_none n g g1 (some (g2, false)) e = ground (arith, e)

    -- A loop over the vertices that ends with no match has changed nothing, and its check holds at no
    -- vertex.
    pub vertex_simp_none :
        (n : ℕ) (g g1 : Graph P S)
        → vertex_simp n check rule false g false ≡ finished g1 false
        → (g1 ≡ g) × NoVertex check g (vertex_vec g)
    vertex_simp_none zero g g1 h = (unfold vertex_simp in cc)
    vertex_simp_none (suc n) g g1 h = vertex_round_none (vertex_vec g) g g1 (
        go_on_none n g g1 (vertex_round check rule (vertex_vec g) g false)
          (sym (vertex_simp_step n g false) ∙ h))

  module _ (check : Graph P S → ℕ → ℕ → Option Bool)
      (rule : Graph P S → ℕ → ℕ → Option (Graph P S)) where
    -- A match is not forgotten.
    edge_round_found :
        (es : List (ℕ × ℕ × EType)) (g g1 : Graph P S) (b : Bool)
        → edge_round check rule es g true ≡ some (g1, b)
        → b ≡ true
    unfolding edge_round
    edge_round_found [] g g1 b h = ground (arith, h)
    edge_round_found ((s, t, e0) ∷ es) g g1 b h =
        let (b0, seen, rest) =
          >>=-eq-some
            (if contains_vertex g s && contains_vertex g t then check g s t else some false) _ h in
        let ((g2, f), step, last) = >>=-eq-some _ _ rest in
        elim (matched b0 true f (rule g s t) g g2 step) [
          | inl (yes_b, yes_f) ↦ edge_round_found es g2 g1 b (rw yes_f at last)
          | inr (no_b, same, yes_f) ↦ edge_round_found es g2 g1 b (rw yes_f at last)
        ]

    edge_round_none :
        (es : List (ℕ × ℕ × EType)) (g g1 : Graph P S)
        → edge_round check rule es g false ≡ some (g1, false)
        → (g1 ≡ g) × NoEdge check g es
    unfolding edge_round
    edge_round_none [] g g1 h = (ground (arith, h), tt)
    edge_round_none ((s, t, e0) ∷ es) g g1 h =
        let (b0, seen, rest) =
          >>=-eq-some
            (if contains_vertex g s && contains_vertex g t then check g s t else some false) _ h in
        let ((g2, f), step, last) = >>=-eq-some _ _ rest in
        elim (matched b0 false f (rule g s t) g g2 step) [
          | inl (yes_b, yes_f) ↦
              absurd (ground (arith, edge_round_found es g2 g1 false (rw yes_f at last)))
          | inr (no_b, same, no_f) ↦
              let (same1, none1) = edge_round_none es g g1 (rw (same, no_f) at last) in
              (same1, (seen ∙ ap some no_b, none1))
        ]

    -- The rest of `edge_simp` after a round, for the result of the round.
    abbrev pub go_on_edges : ℕ → Graph P S → Bool → Option (Graph P S × Bool) → Outcome (Graph P S)
    go_on_edges n g got none = panicked
    go_on_edges n g got (some (g1, new_matches)) =
        elim (not new_matches || (false && leb g1.numv g.numv)) [
          | true ↦ finished g1 (got || new_matches)
          | false ↦ edge_simp n check rule false g1 (got || new_matches)
        ]

    pub edge_simp_step :
        (n : ℕ) (g : Graph P S) (got : Bool)
        → edge_simp (suc n) check rule false g got
          ≡ go_on_edges n g got (edge_round check rule (edge_vec g) g false)
    unfolding edge_simp
    edge_simp_step n g got = elim (Option-cases (edge_round check rule (edge_vec g) g false)) [
      | inl e ↦ ground (arith, e)
      | inr ((g1, m), e) ↦ ground (arith, e)
    ]

    go_on_edges_found :
        (n : ℕ) (g g1 : Graph P S) (b : Bool) (o : Option (Graph P S × Bool))
        → ((g2 : Graph P S) → edge_simp n check rule false g2 true ≡ finished g1 b → b ≡ true)
        → go_on_edges n g true o ≡ finished g1 b
        → b ≡ true
    go_on_edges_found n g g1 b none ih e = cc
    go_on_edges_found n g g1 b (some (g2, true)) ih e = ih g2 e
    go_on_edges_found n g g1 b (some (g2, false)) ih e = ground (arith, e)

    edge_simp_found :
        (n : ℕ) (g g1 : Graph P S) (b : Bool)
        → edge_simp n check rule false g true ≡ finished g1 b
        → b ≡ true
    edge_simp_found zero g g1 b h = (unfold edge_simp in cc)
    edge_simp_found (suc n) g g1 b h =
        go_on_edges_found n g g1 b (edge_round check rule (edge_vec g) g false)
          (λ g2. edge_simp_found n g2 g1 b) (sym (edge_simp_step n g true) ∙ h)

    go_on_edges_none :
        (n : ℕ) (g g1 : Graph P S) (o : Option (Graph P S × Bool))
        → go_on_edges n g false o ≡ finished g1 false
        → o ≡ some (g1, false)
    go_on_edges_none n g g1 none e = cc
    go_on_edges_none n g g1 (some (g2, true)) e =
        absurd (ground (arith, edge_simp_found n g2 g1 false e))
    go_on_edges_none n g g1 (some (g2, false)) e = ground (arith, e)

    -- A loop over the edges that ends with no match has changed nothing, and its check holds at no
    -- edge.
    pub edge_simp_none :
        (n : ℕ) (g g1 : Graph P S)
        → edge_simp n check rule false g false ≡ finished g1 false
        → (g1 ≡ g) × NoEdge check g (edge_vec g)
    edge_simp_none zero g g1 h = (unfold edge_simp in cc)
    edge_simp_none (suc n) g g1 h = edge_round_none (edge_vec g) g g1 (
        go_on_edges_none n g g1 (edge_round check rule (edge_vec g) g false)
          (sym (edge_simp_step n g false) ∙ h))
