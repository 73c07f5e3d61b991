-- ===== src/Simplify/Ended.antt =====
-- The loops of quizx/src/simplify.rs end: a match takes a vertex away, so that with more fuel than there
-- are vertices a loop returns or panics.
use quizx.Prelude.{
  ℕ, zero, suc, ◌<◌, ◌≤◌, ◌≡◌, refl, sym, ap, ◌∙◌, Bool, true, false, ◌&&◌, ◌||◌, Option, none,
  some, List, [], ◌∷◌, arith, ◌>>=◌, >>=-eq-some, subst, ◌⊎◌, inl, inr, Option-cases, Bool-cases,
  if◌then◌else◌,
}
use quizx.Types.{EType}
use quizx.Interface.{PhaseOps, ScalarOps}
use quizx.VecGraph.{Graph, vertex_vec, edge_vec, contains_vertex}
use quizx.GraphLike.{x_to_z}
use quizx.Simplify.{
  Outcome, finished, panicked, vertex_round, vertex_simp, edge_round, edge_simp, id_simp,
  spider_simp, pivot_simp, local_comp_simp,
}
use quizx.Simplify.Strategies.{
  and_then, repeat, scalar_simp, flow_round, interior_clifford_round, flow_simp,
  interior_clifford_simp, after_x_to_z,
}
use quizx.Simplify.Matches.{go_on, go_on_edges, vertex_simp_step, edge_simp_step}
use quizx.Simplify.Normal.{
  repeat_again, repeat_stop, repeat_last, interior_round_none, InteriorNormal,
}
use quizx.Simplify.Numv.{Loses, Keeps-x_to_z}
use quizx.Simplify.Shrinking.{
  Loses-local_comp_unchecked, Loses-pivot_unchecked, Loses-spider_fusion_unchecked,
  Loses-remove_id_unchecked, Loses-remove_single_unchecked, Loses-remove_pair_unchecked,
}

-- A step with the flag `got` before it and `m` after it: a new match has taken a vertex away.
abbrev Shrunk : ℕ → Bool → ℕ → Bool → Type 0
Shrunk k got k1 m = (k1 ≤ k) × (m ≡ true → (got ≡ true) ⊎ (k1 < k))

Shrunk-trans :
    (k k1 k2 : ℕ) (b b1 b2 : Bool) → Shrunk k b k1 b1 → Shrunk k1 b1 k2 b2 → Shrunk k b k2 b2
Shrunk-trans k k1 k2 b b1 b2 (less, found) (less', found') = (
  omega (arith, less, less'),
  λ t. elim (found' t) [
    | inr fewer ↦ inr (omega (arith, fewer, less))
    | inl t1 ↦ elim (found t1) [ inl t0 ↦ inl t0 | inr fewer ↦ inr (omega (arith, fewer, less')) ]
  ],
)

module _ {P S : Type 0} where
  -- A loop from `k` vertices that panics or ends with no more vertices.
  abbrev pub Ended : ℕ → Bool → Outcome (Graph P S) → Type 0
  Ended k got o =
      (o ≡ panicked)
      ⊎ ((g1 : Graph P S) × (m : Bool) × (o ≡ finished g1 m) × Shrunk k got g1.numv m)

  -- What `checked_rule` leaves.
  step_Shrunk :
      (b got f : Bool) (o : Option (Graph P S)) (g g2 : Graph P S)
      → Loses g.numv o
      → (if b then ◌>>=◌ {B = Graph P S × Bool} o (λ g1. some (g1, true)) else some (g, got))
        ≡ some (g2, f)
      → Shrunk g.numv got g2.numv f
  step_Shrunk true got f o g g2 fewer h =
      let (g1, ran, last) = >>=-eq-some o _ h in
      (ground (arith, fewer g1 ran, last), λ t. inr (ground (arith, fewer g1 ran, last)))
  step_Shrunk false got f o g g2 fewer h = (ground (arith, h), λ t. inl (ground (arith, h, t)))

  module _ (check : Graph P S → ℕ → Option Bool) (rule : Graph P S → ℕ → Option (Graph P S))
      (fewer : (g : Graph P S) (v : ℕ) → Loses g.numv (rule g v)) where
    vertex_round-Shrunk :
        (vs : List ℕ) (g g1 : Graph P S) (got m : Bool)
        → vertex_round check rule vs g got ≡ some (g1, m)
        → Shrunk g.numv got g1.numv m
    unfolding vertex_round
    vertex_round-Shrunk [] g g1 got m h = (ground (arith, h), λ t. inl (ground (arith, h, t)))
    vertex_round-Shrunk (v ∷ vs) g g1 got m h =
        let (b, seen, rest) = >>=-eq-some (check g v) _ h in
        let ((g2, f), step, last) = >>=-eq-some _ _ rest in
        Shrunk-trans g.numv g2.numv g1.numv got f m
          (step_Shrunk b got f (rule g v) g g2 (fewer g v) step)
          (vertex_round-Shrunk vs g2 g1 f m last)

    go_on-Ended :
        (n : ℕ) (g : Graph P S) (got : Bool) (o : Option (Graph P S × Bool))
        → g.numv < suc n
        → ((g1 : Graph P S) (m : Bool) → o ≡ some (g1, m) → Shrunk g.numv false g1.numv m)
        → ((g1 : Graph P S) (got1 : Bool)
            → g1.numv < n
            → Ended g1.numv got1 (vertex_simp n check rule false g1 got1))
        → Ended g.numv got (go_on check rule n g got o)
    go_on-Ended n g got none enough round again = inl refl
    go_on-Ended n g got (some (g1, false)) enough round again =
        let (less, found) = round g1 false refl in
        inr (g1, got || false, refl, (less, λ t. inl (ground (arith, t))))
    go_on-Ended n g got (some (g1, true)) enough round again =
        let (less, found) = round g1 true refl in
        let few = elim (found refl) as (λ _. g1.numv < g.numv) [
          | inl bad ↦ absurd (ground (arith, bad))
          | inr l ↦ l
        ] in
        elim (again g1 (got || true) (omega (arith, few, enough))) [
          | inl fails ↦ inl fails
          | inr (g2, m, ends, (less', found')) ↦
              inr (g2, m, ends, (omega (arith, less, less'), λ t. inr (omega (arith, few, less'))))
        ]

    -- The loop over the vertices.
    pub vertex_simp-Ended :
        (n : ℕ) (g : Graph P S) (got : Bool)
        → g.numv < n
        → Ended g.numv got (vertex_simp n check rule false g got)
    vertex_simp-Ended zero g got enough = absurd (omega (arith, enough))
    vertex_simp-Ended (suc n) g got enough = rw (vertex_simp_step check rule n g got) (
        go_on-Ended n g got (vertex_round check rule (vertex_vec g) g false) enough
          (λ g1 m. vertex_round-Shrunk (vertex_vec g) g g1 false m) (vertex_simp-Ended n))

  module _ (check : Graph P S → ℕ → ℕ → Option Bool) (rule : Graph P S → ℕ → ℕ → Option (Graph P S))
      (fewer : (g : Graph P S) (s t : ℕ) → Loses g.numv (rule g s t)) where
    edge_round-Shrunk :
        (es : List (ℕ × ℕ × EType)) (g g1 : Graph P S) (got m : Bool)
        → edge_round check rule es g got ≡ some (g1, m)
        → Shrunk g.numv got g1.numv m
    unfolding edge_round
    edge_round-Shrunk [] g g1 got m h = (ground (arith, h), λ t. inl (ground (arith, h, t)))
    edge_round-Shrunk ((s, t, e) ∷ es) g g1 got m h =
        let (b, seen, rest) =
          >>=-eq-some
            (if contains_vertex g s && contains_vertex g t then check g s t else some false) _ h in
        let ((g2, f), step, last) = >>=-eq-some _ _ rest in
        Shrunk-trans g.numv g2.numv g1.numv got f m
          (step_Shrunk b got f (rule g s t) g g2 (fewer g s t) step)
          (edge_round-Shrunk es g2 g1 f m last)

    go_on_edges-Ended :
        (n : ℕ) (g : Graph P S) (got : Bool) (o : Option (Graph P S × Bool))
        → g.numv < suc n
        → ((g1 : Graph P S) (m : Bool) → o ≡ some (g1, m) → Shrunk g.numv false g1.numv m)
        → ((g1 : Graph P S) (got1 : Bool)
            → g1.numv < n
            → Ended g1.numv got1 (edge_simp n check rule false g1 got1))
        → Ended g.numv got (go_on_edges check rule n g got o)
    go_on_edges-Ended n g got none enough round again = inl refl
    go_on_edges-Ended n g got (some (g1, false)) enough round again =
        let (less, found) = round g1 false refl in
        inr (g1, got || false, refl, (less, λ t. inl (ground (arith, t))))
    go_on_edges-Ended n g got (some (g1, true)) enough round again =
        let (less, found) = round g1 true refl in
        let few = elim (found refl) as (λ _. g1.numv < g.numv) [
          | inl bad ↦ absurd (ground (arith, bad))
          | inr l ↦ l
        ] in
        elim (again g1 (got || true) (omega (arith, few, enough))) [
          | inl fails ↦ inl fails
          | inr (g2, m, ends, (less', found')) ↦
              inr (g2, m, ends, (omega (arith, less, less'), λ t. inr (omega (arith, few, less'))))
        ]

    -- The loop over the edges.
    pub edge_simp-Ended :
        (n : ℕ) (g : Graph P S) (got : Bool)
        → g.numv < n
        → Ended g.numv got (edge_simp n check rule false g got)
    edge_simp-Ended zero g got enough = absurd (omega (arith, enough))
    edge_simp-Ended (suc n) g got enough = rw (edge_simp_step check rule n g got) (
        go_on_edges-Ended n g got (edge_round check rule (edge_vec g) g false) enough
          (λ g1 m. edge_round-Shrunk (edge_vec g) g g1 false m) (edge_simp-Ended n))

  -- Two loops in a row.
  pub and_then-Ended :
      (k : ℕ) (o : Outcome (Graph P S)) (next : Graph P S → Outcome (Graph P S))
      → Ended k false o
      → ((g1 : Graph P S) → g1.numv ≤ k → Ended g1.numv false (next g1))
      → Ended k false (and_then o next)
  and_then-Ended k o next (inl fails) rest = inl (ap (λ r. and_then r next) fails)
  and_then-Ended k o next (inr (g1, m1, ends, (less, found))) rest = elim (rest g1 less) [
    | inl fails ↦ inl (ground (arith, ends, fails))
    | inr (g2, m, ends', (less', found')) ↦ inr (
      g2,
      m || m1,
      ground (arith, ends, ends'),
      Shrunk-trans k g1.numv g2.numv false m1 (m || m1) (less, found)
          (
            less',
            λ t. elim (Bool-cases m1) [
              | inl yes_m1 ↦ inl yes_m1
              | inr no_m1 ↦ elim (found' (ground (arith, t, no_m1))) [
                | inl bad ↦ absurd (ground (arith, bad))
                | inr l ↦ inr l
              ]
            ],
          ),
    )
  ]

  -- A loop over rounds that end.
  pub repeat-Ended :
      (round : Graph P S → Outcome (Graph P S)) (n k : ℕ) (g : Graph P S) (got : Bool)
      → ((g1 : Graph P S) → g1.numv ≤ k → Ended g1.numv false (round g1))
      → g.numv ≤ k
      → g.numv < n
      → (repeat n round g got ≡ panicked)
        ⊎ ((g1 : Graph P S) × (m : Bool) × (repeat n round g got ≡ finished g1 m)
            × (g1.numv ≤ g.numv))
  unfolding repeat
  repeat-Ended round zero k g got each small enough = absurd (omega (arith, enough))
  repeat-Ended round (suc n) k g got each small enough = elim (each g small) [
    | inl fails ↦ inl (ground (arith, fails))
    | inr (g1, m, ends, (less, found)) ↦ elim (Bool-cases m) [
      | inr stop ↦ inr (g1, got, repeat_stop round n g g1 got (ends ∙ ap (finished g1) stop), less)
      | inl again ↦
          let few = elim (found again) as (λ _. g1.numv < g.numv) [
            | inl bad ↦ absurd (ground (arith, bad))
            | inr l ↦ l
          ] in
          let next = repeat_again round n g g1 got (ends ∙ ap (finished g1) again) in
          elim (repeat-Ended round n k g1 true each (omega (arith, less, small))
            (omega (arith, few, enough))) [
              | inl fails ↦ inl (next ∙ fails)
              | inr (g2, m2, ends', less') ↦ inr (g2, m2, next ∙ ends', omega (arith, less, less'))
            ]
    ]
  ]

module _ {P S : Type 0} ⦃p : PhaseOps P⦄ ⦃c : ScalarOps P S⦄ where
  id_simp-Ended : (n : ℕ) (g : Graph P S) → g.numv < n → Ended g.numv false (id_simp n g)
  unfolding id_simp
  id_simp-Ended n g = vertex_simp-Ended _ _ Loses-remove_id_unchecked n g false

  local_comp_simp-Ended :
      (n : ℕ) (g : Graph P S) → g.numv < n → Ended g.numv false (local_comp_simp n g)
  unfolding local_comp_simp
  local_comp_simp-Ended n g = vertex_simp-Ended _ _ Loses-local_comp_unchecked n g false

  spider_simp-Ended : (n : ℕ) (g : Graph P S) → g.numv < n → Ended g.numv false (spider_simp n g)
  unfolding spider_simp
  spider_simp-Ended n g = edge_simp-Ended _ _ Loses-spider_fusion_unchecked n g false

  pivot_simp-Ended : (n : ℕ) (g : Graph P S) → g.numv < n → Ended g.numv false (pivot_simp n g)
  unfolding pivot_simp
  pivot_simp-Ended n g = edge_simp-Ended _ _ Loses-pivot_unchecked n g false

  scalar_simp-Ended : (n : ℕ) (g : Graph P S) → g.numv < n → Ended g.numv false (scalar_simp n g)
  unfolding scalar_simp
  scalar_simp-Ended n g enough =
      and_then-Ended g.numv _ _
        (vertex_simp-Ended _ _ Loses-remove_single_unchecked n g false enough)
        (λ g1 less.
          edge_simp-Ended _ _ Loses-remove_pair_unchecked n g1 false (omega (arith, less, enough)))

  flow_round-Ended : (n : ℕ) (g : Graph P S) → g.numv < n → Ended g.numv false (flow_round n g)
  unfolding flow_round
  flow_round-Ended n g enough =
      and_then-Ended g.numv _ _
        (and_then-Ended g.numv _ _ (id_simp-Ended n g enough)
          (λ g1 less. spider_simp-Ended n g1 (omega (arith, less, enough))))
        (λ g1 less. scalar_simp-Ended n g1 (omega (arith, less, enough)))

  interior_clifford_round-Ended :
      (n : ℕ) (g : Graph P S) → g.numv < n → Ended g.numv false (interior_clifford_round n g)
  unfolding interior_clifford_round
  interior_clifford_round-Ended n g enough =
      let fit : (g1 : Graph P S) → g1.numv ≤ g.numv → g1.numv < n =
        λ g1 less. omega (arith, less, enough) in
      and_then-Ended g.numv _ _
        (and_then-Ended g.numv _ _
          (and_then-Ended g.numv _ _
            (and_then-Ended g.numv _ _ (id_simp-Ended n g enough)
              (λ g1 less. spider_simp-Ended n g1 (fit g1 less)))
            (λ g1 less. pivot_simp-Ended n g1 (fit g1 less)))
          (λ g1 less. local_comp_simp-Ended n g1 (fit g1 less)))
        (λ g1 less. scalar_simp-Ended n g1 (fit g1 less))

  -- A strategy: spider fusion, the change of colours and the loop over the rounds.
  after_x_to_z-Ended :
      (n : ℕ) (g : Graph P S) (round : Graph P S → Outcome (Graph P S))
      → ((g1 : Graph P S) → g1.numv < n → Ended g1.numv false (round g1))
      → g.numv < n
      → (after_x_to_z n g (λ g2. repeat n round g2 false) ≡ panicked)
        ⊎ ((g0 g1 : Graph P S) × (m : Bool) × (after_x_to_z n g (λ g2. repeat n round g2 false)
              ≡ finished g1 m)
            × (repeat n round g0 false ≡ finished g1 m)
            × (g1.numv ≤ g.numv))
  after_x_to_z-Ended n g round each enough = elim (spider_simp-Ended n g enough) [
    | inl fails ↦ inl (ground (arith, fails))
    | inr (g1, m, ends, (less, found)) ↦ elim (Option-cases (x_to_z g1)) [
      | inl fails ↦ inl (ground (arith, ends, fails))
      | inr (g2, changed) ↦
          let small : g2.numv ≤ g.numv = omega (arith, less, Keeps-x_to_z g1 g2 changed) in
          elim (repeat-Ended round n g.numv g2 false
            (λ g3 less'. each g3 (omega (arith, less', enough))) small
            (omega (arith, small, enough))) [
              | inl fails ↦ inl (ground (arith, ends, changed, fails))
              | inr (g3, m3, ends', less') ↦ inr (
                g2,
                g3,
                m3,
                ground (arith, ends, changed, ends'),
                ends',
                omega (arith, small, less'),
              )
            ]
    ]
  ]

  -- With more fuel than the diagram has vertices, `flow_simp` does not run out of fuel: it panics, or
  -- it returns a diagram with no more vertices.
  pub flow_simp_lem :
      (n : ℕ) (g : Graph P S)
      → g.numv < n
      → (flow_simp n g ≡ panicked)
        ⊎ ((g1 : Graph P S) × (m : Bool) × (flow_simp n g ≡ finished g1 m) × (g1.numv ≤ g.numv))
  unfolding flow_simp
  flow_simp_lem n g enough =
      elim (after_x_to_z-Ended n g (flow_round n) (flow_round-Ended n) enough) [
        | inl fails ↦ inl fails
        | inr (g0, g1, m, ends, loop, less) ↦ inr (g1, m, ends, less)
      ]

  -- With more fuel than the diagram has vertices, `interior_clifford_simp` does not run out of fuel: it
  -- panics, or it returns a diagram with no more vertices to which none of its rules applies: the
  -- check of each rule is false at every vertex, or at every edge, of the diagram.
  pub interior_clifford_simp_lem :
      (n : ℕ) (g : Graph P S)
      → g.numv < n
      → (interior_clifford_simp n g ≡ panicked)
        ⊎ ((g1 : Graph P S) × (m : Bool) × (interior_clifford_simp n g ≡ finished g1 m)
            × InteriorNormal g1
            × (g1.numv ≤ g.numv))
  unfolding interior_clifford_simp
  interior_clifford_simp_lem n g enough =
      elim (after_x_to_z-Ended n g (interior_clifford_round n) (interior_clifford_round-Ended n)
        enough) [
          | inl fails ↦ inl fails
          | inr (g0, g1, m, ends, loop, less) ↦
              let (g2, last, flags) =
                repeat_last (interior_clifford_round n) n g0 g1 false m loop in
              let (same, normal) = interior_round_none n g2 g1 last in
              inr (g1, m, ends, subst InteriorNormal (sym same) normal, less)
        ]
