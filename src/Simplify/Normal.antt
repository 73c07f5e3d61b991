-- ===== src/Simplify/Normal.antt =====
-- quizx/src/simplify.rs: where a strategy ends with no match, nothing was changed and no rule applies.
use quizx.Prelude.{
  ℕ, zero, suc, ◌≡◌, refl, sym, ap, subst, ◌∙◌, ◌⊎◌, Bool, true, false, arith, Bool-cases, inl, inr,
}
use quizx.Interface.{PhaseOps, ScalarOps}
use quizx.VecGraph.{Graph, vertex_vec, edge_vec}
use quizx.Simplify.{
  Outcome, finished, panicked, no_fuel, id_simp, spider_simp, pivot_simp, local_comp_simp,
}
use quizx.Simplify.Strategies.{and_then, or_matched, repeat, scalar_simp, interior_clifford_round}
use quizx.Rules.Spiders.{
  check_remove_id, check_spider_fusion, check_remove_single, check_remove_pair,
}
use quizx.Rules.Pivot.{check_local_comp, check_pivot}
use quizx.Simplify.Matches.{NoVertex, NoEdge, vertex_simp_none, edge_simp_none}

or_matched_none :
    {G : Type 0} (m : Bool) (o : Outcome G) (g1 : G)
    → or_matched m o ≡ finished g1 false
    → (m ≡ false) × (o ≡ finished g1 false)
or_matched_none m panicked g1 h = cc
or_matched_none m no_fuel g1 h = cc
or_matched_none true (finished g true) g1 h = cc
or_matched_none true (finished g false) g1 h = cc
or_matched_none false (finished g true) g1 h = cc
or_matched_none false (finished g false) g1 h = (refl, h)

and_then_none :
    {G : Type 0} (o : Outcome G) (next : G → Outcome G) (g1 : G)
    → and_then o next ≡ finished g1 false
    → (g : G) × (o ≡ finished g false) × (next g ≡ finished g1 false)
and_then_none panicked next g1 h = cc
and_then_none no_fuel next g1 h = cc
and_then_none (finished g m) next g1 h =
    let (no_m, rest) = or_matched_none m (next g) g1 h in (g, ap (finished g) no_m, rest)

pub Outcome-cases :
    {G : Type 0} (o : Outcome G)
    → ((g : G) × (m : Bool) × (o ≡ finished g m)) ⊎ ((o ≡ panicked) ⊎ (o ≡ no_fuel))
Outcome-cases (finished g m) = inl (g, m, refl)
Outcome-cases panicked = inr (inl refl)
Outcome-cases no_fuel = inr (inr refl)

module _ {G : Type 0} (round : G → Outcome G) where
  pub repeat_again :
      (n : ℕ) (g g2 : G) (got : Bool)
      → round g ≡ finished g2 true
      → repeat (suc n) round g got ≡ repeat n round g2 true
  unfolding repeat
  repeat_again n g g2 got e = ground (arith, e)

  pub repeat_stop :
      (n : ℕ) (g g2 : G) (got : Bool)
      → round g ≡ finished g2 false
      → repeat (suc n) round g got ≡ finished g2 got
  unfolding repeat
  repeat_stop n g g2 got e = ground (arith, e)

  repeat_fail :
      (n : ℕ) (g g1 : G) (got b : Bool)
      → (round g ≡ panicked) ⊎ (round g ≡ no_fuel)
      → repeat (suc n) round g got ≡ finished g1 b
      → ⊥
  unfolding repeat
  repeat_fail n g g1 got b (inl e) h = ground (arith, e, h)
  repeat_fail n g g1 got b (inr e) h = ground (arith, e, h)

  -- A loop that ends, ends with a round without a match.
  pub repeat_last :
      (n : ℕ) (g g1 : G) (got b : Bool)
      → repeat n round g got ≡ finished g1 b
      → (g0 : G) × (round g0 ≡ finished g1 false) × ((got ≡ true → b ≡ true) × (b ≡ false → g0 ≡ g))
  repeat_last zero g g1 got b h = (unfold repeat in cc)
  repeat_last (suc n) g g1 got b h = elim (Outcome-cases (round g)) [
    | inr failed ↦ absurd (repeat_fail n g g1 got b failed h)
    | inl (g2, m, e) ↦ elim (Bool-cases m) [
      | inl again ↦
          let (g0, last, (found, quiet)) =
            repeat_last n g2 g1 true b
              (sym (repeat_again n g g2 got (e ∙ ap (finished g2) again)) ∙ h) in
          (g0, last, (λ t. found refl, λ f. absurd (ground (arith, found refl, f))))
      | inr stop ↦
          let e1 = e ∙ ap (finished g2) stop in
          let done = sym (repeat_stop n g g2 got e1) ∙ h in
          (g, ground (arith, e1, done), (λ t. ground (arith, done, t), λ f. refl))
    ]
  ]

module _ {P S : Type 0} ⦃p : PhaseOps P⦄ ⦃c : ScalarOps P S⦄ where
  -- No rule of `interior_clifford_simp` applies.
  pub record InteriorNormal (g : Graph P S) : Type 0 where
    pub no_id : NoVertex check_remove_id g (vertex_vec g)
    pub no_fusion : NoEdge check_spider_fusion g (edge_vec g)
    pub no_pivot : NoEdge check_pivot g (edge_vec g)
    pub no_local_comp : NoVertex check_local_comp g (vertex_vec g)
    pub no_single : NoVertex check_remove_single g (vertex_vec g)
    pub no_pair : NoEdge check_remove_pair g (edge_vec g)

  scalar_simp_none :
      (n : ℕ) (g g1 : Graph P S)
      → scalar_simp n g ≡ finished g1 false
      → (g1 ≡ g)
        × NoVertex check_remove_single g (vertex_vec g)
        × NoEdge check_remove_pair g (edge_vec g)
  unfolding scalar_simp
  scalar_simp_none n g g1 h =
      let (g2, first, second) = and_then_none _ _ g1 h in
      let (same, single) = vertex_simp_none _ _ n g g2 first in
      let (same', pair) = edge_simp_none _ _ n g2 g1 second in
      (same' ∙ same, single, subst (λ d. NoEdge check_remove_pair d (edge_vec d)) same pair)

  pub interior_round_none :
      (n : ℕ) (g g1 : Graph P S)
      → interior_clifford_round n g ≡ finished g1 false
      → (g1 ≡ g) × InteriorNormal g
  unfolding interior_clifford_round id_simp spider_simp pivot_simp local_comp_simp
  interior_round_none n g g1 h =
      let (g5, h5, last) = and_then_none _ _ g1 h in
      let (g4, h4, comp) = and_then_none _ _ g5 h5 in
      let (g3, h3, piv) = and_then_none _ _ g4 h4 in
      let (g2, ids, fus) = and_then_none _ _ g3 h3 in
      let (e2, no_id) = vertex_simp_none _ _ n g g2 ids in
      let (e3, no_fusion) = edge_simp_none _ _ n g2 g3 fus in
      let (e4, no_pivot) = edge_simp_none _ _ n g3 g4 piv in
      let (e5, no_comp) = vertex_simp_none _ _ n g4 g5 comp in
      let (e6, no_single, no_pair) = scalar_simp_none n g5 g1 last in
      let to3 = e3 ∙ e2 in
      let to4 = e4 ∙ to3 in
      let to5 = e5 ∙ to4 in
      (
        e6 ∙ to5,
        record {
          no_id = no_id;
          no_fusion = subst (λ d. NoEdge check_spider_fusion d (edge_vec d)) e2 no_fusion;
          no_pivot = subst (λ d. NoEdge check_pivot d (edge_vec d)) to3 no_pivot;
          no_local_comp = subst (λ d. NoVertex check_local_comp d (vertex_vec d)) to4 no_comp;
          no_single = subst (λ d. NoVertex check_remove_single d (vertex_vec d)) to5 no_single;
          no_pair = subst (λ d. NoEdge check_remove_pair d (edge_vec d)) to5 no_pair;
        },
      )
