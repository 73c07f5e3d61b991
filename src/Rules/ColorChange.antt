-- ===== src/Rules/ColorChange.antt =====
-- quizx/src/basic_rules.rs: what `color_change` does.
use quizx.Prelude.{
  ℕ, ◌≡◌, refl, Bool, true, false, ◌&&◌, ◌||◌, Option, none, some, List, [], ◌∷◌, map, slot,
  is_some, ◌==◌, if◌then◌else◌, arith, Bool-cases, inl, inr, ap, sym, ◌∙◌, is_some-cases,
}
use quizx.Types.{VType, EType, vtype_eq, opposite, is_spider}
use quizx.Interface.{PhaseOps, ScalarOps}
use quizx.VecGraph.{
  Graph, VData, Nhd, edge_type_opt, vertex_type, vertex_data, incident_edges, set_vertex_type,
  set_edge_type,
}
use quizx.VecGraph.Valid.{IsValid, edge_type_opt-pick, weigh-keys}
use quizx.VecGraph.HalfEdges.{edge_type_opt_sym}
use quizx.VecGraph.Edges.{edge_type_opt_ext}
use quizx.VecGraph.Fields.{update_data-Updated, set_edge_type_lem}
use quizx.GraphLike.{neighbor_vec, toggle_all, toggle_edge_type}
use quizx.Rules.Checked.{contains, checked}
use quizx.Rules.Spiders.{check_color_change, color_change_unchecked, color_change}
use quizx.Rules.Linked.{Distinct, not_in}
use quizx.Rules.LocalComp.{neighbors_lem}

abbrev pub toggled : Option EType → Option EType
toggled none = none
toggled (some e) = some (opposite e)

abbrev pub other_colour : VType → VType
other_colour t = if vtype_eq t VType.x then VType.z else VType.x

module _ {P S : Type 0} where
  -- The edges that `c` names are toggled.
  record Toggled (g : Graph P S) (c : ℕ → ℕ → Bool) (g' : Graph P S) : Type 0 where
    valid : IsValid g'
    edges :
        (a b : ℕ)
        → edge_type_opt g' a b
          ≡ (if c a b then toggled (edge_type_opt g a b) else edge_type_opt g a b)
    same_vdata : g'.vdata ≡ g.vdata

  toggle_steps :
      (g g' : Graph P S) (v w : ℕ) {e : EType}
      → edge_type_opt g v w ≡ some e
      → set_edge_type g v w (opposite e) ≡ some g'
      → toggle_edge_type g v w ≡ some g'
  unfolding toggle_edge_type
  toggle_steps g g' v w a b = rw (a, b) refl

  toggle_lem :
      (g : Graph P S) (v w : ℕ) {e : EType}
      → IsValid g
      → edge_type_opt g v w ≡ some e
      → (g' : Graph P S) × (toggle_edge_type g v w ≡ some g')
        × Toggled g (λ a b. (a == v && b == w) || (a == w && b == v)) g'
  toggle_lem g v w {e} valid h =
      let (g', done, kept, edges, same) = set_edge_type_lem g v w (opposite e) valid h in
      (
        g',
        toggle_steps g g' v w h done,
        record { valid = kept; edges = λ a b. edges a b ∙ ends a b; same_vdata = same },
      )
    where
      ends :
          (a b : ℕ)
          → (if (a == v && b == w) || (a == w && b == v)
              then some (opposite e)
              else edge_type_opt g a b)
            ≡ (if (a == v && b == w) || (a == w && b == v)
                then toggled (edge_type_opt g a b)
                else edge_type_opt g a b)
      ends a b = elim (Bool-cases (a == v && b == w)) [
        | inl here ↦
            let at_a : a ≡ v = ground arith in
            let at_b : b ≡ w = ground arith in rw (at_a, at_b) (ground (arith, h))
        | inr other ↦ elim (Bool-cases (a == w && b == v)) [
          | inl back ↦
              let at_a : a ≡ w = ground arith in
              let at_b : b ≡ v = ground arith in
              rw (at_a, at_b) (ground (arith, h, edge_type_opt_sym g w v valid))
          | inr apart ↦ rw (other, apart) refl
        ]
      ]

  toggle_all_steps :
      (g g1 g2 : Graph P S) (v w : ℕ) (ws : List ℕ)
      → toggle_edge_type g v w ≡ some g1
      → toggle_all g1 v ws ≡ some g2
      → toggle_all g v (w ∷ ws) ≡ some g2
  unfolding toggle_all
  toggle_all_steps g g1 g2 v w ws a b = rw (a, b) refl

  -- The loop toggles the edges from `v` to the vertices of the list.
  toggle_all_lem :
      (g : Graph P S) (v : ℕ) (ws : List ℕ)
      → IsValid g
      → Distinct ws
      → contains ws v ≡ false
      → ((w : ℕ) → contains ws w ≡ true → is_some (edge_type_opt g v w) ≡ true)
      → (g' : Graph P S) × (toggle_all g v ws ≡ some g')
        × Toggled g (λ a b. (a == v && contains ws b) || (b == v && contains ws a)) g'
  toggle_all_lem g v [] valid d out joined = (
    g,
    unfold toggle_all in refl,
    record { valid = valid; edges = λ a b. ground arith; same_vdata = refl },
  )
  toggle_all_lem g v (w ∷ ws) valid d out joined =
      let (e, h) = is_some-cases (edge_type_opt g v w) (joined w (ground arith)) in
      let (g1, first, t1) = toggle_lem g v w valid h in
      let (g2, rest, t2) =
        toggle_all_lem g1 v ws t1.valid d.1 (ground (arith, out))
          (λ u k. still g1 t1 u (joined u (ground (arith, k)))) in
      (g2, toggle_all_steps g g1 g2 v w ws first rest, both g1 g2 t1 t2)
    where
      still :
          (g1 : Graph P S)
          → Toggled g (λ a b. (a == v && b == w) || (a == w && b == v)) g1
          → (u : ℕ) → is_some (edge_type_opt g v u) ≡ true
          → is_some (edge_type_opt g1 v u) ≡ true
      still g1 t1 u k = ground (arith, t1.edges v u)

      both :
          (g1 g2 : Graph P S)
          → Toggled g (λ a b. (a == v && b == w) || (a == w && b == v)) g1
          → Toggled g1 (λ a b. (a == v && contains ws b) || (b == v && contains ws a)) g2
          → Toggled g
              (λ a b.
                (a == v && (w == b || contains ws b)) || (b == v && (w == a || contains ws a)))
              g2
      both g1 g2 t1 t2 = record {
        valid = t2.valid;
        edges = λ a b.
            t2.edges a b
            ∙ ground (
              arith,
              t1.edges a b,
              not_in ws w a d.0,
              not_in ws w b d.0,
              not_in ws v a (ground (arith, out)),
              not_in ws v b (ground (arith, out)),
              out,
            );
        same_vdata = t2.same_vdata ∙ t1.same_vdata;
      }

module _ {P S : Type 0} ⦃p : PhaseOps P⦄ ⦃c : ScalarOps P S⦄ where
  -- What a change of colour leaves: the vertex has the other colour, the edges at it are toggled.
  pub record Recoloured (g : Graph P S) (v : ℕ) (d : VData P) (g' : Graph P S) : Type 0 where
    pub valid : IsValid g'
    pub edges :
        (a b : ℕ)
        → edge_type_opt g' a b
          ≡ (if a == v || b == v then toggled (edge_type_opt g a b) else edge_type_opt g a b)
    pub data_of :
        (w : ℕ)
        → slot g'.vdata w
          ≡ (if v == w then some (record d { ty = other_colour d.ty }) else slot g.vdata w)

  color_change_steps :
      (g g1 g2 : Graph P S) (v : ℕ) (d : VData P) (nhd : Nhd)
      → slot g.vdata v ≡ some d
      → is_spider d.ty ≡ true
      → set_vertex_type g v (other_colour d.ty) ≡ some g1
      → slot g1.edata v ≡ some nhd
      → toggle_all g1 v (map (λ x. x.0) nhd) ≡ some g2
      → color_change g v ≡ some (g2, true)
  unfolding color_change checked check_color_change color_change_unchecked vertex_type vertex_data
      neighbor_vec incident_edges
  color_change_steps g g1 g2 v d nhd a s b e f = rw (a, s, b, e, f) refl

  -- On a well-formed diagram, at a green or a red spider, `color_change` does not panic and answers true. The
  -- diagram stays well-formed; the spider has the other colour, every edge at it is toggled between
  -- plain and Hadamard, and nothing else changes.
  pub color_change_lem :
      (g : Graph P S) (v : ℕ) (d : VData P)
      → IsValid g
      → slot g.vdata v ≡ some d
      → is_spider d.ty ≡ true
      → (g' : Graph P S) × (color_change g v ≡ some (g', true)) × Recoloured g v d g'
  color_change_lem g v d valid at_v spider =
      let (g1, set, up) =
        update_data-Updated g v (λ d'. record d' { ty = other_colour d.ty }) valid at_v in
      let (nhd, adj) = is_some-cases (slot g1.edata v) (live g1 up.valid _ (up.data_of v)) in
      let (distinct, members) = neighbors_lem g1 v nhd up.valid adj in
      let (g2, done, t) =
        toggle_all_lem g1 v (map (λ x. x.0) nhd) up.valid distinct (members v ∙ no_self g1 up.valid)
          (λ w k. sym (members w) ∙ k) in
      (
        g2,
        color_change_steps g g1 g2 v d nhd at_v spider (unfold set_vertex_type in set) adj done,
        record {
          valid = t.valid;
          edges = λ a b.
              t.edges a b
              ∙ whole g1 up.valid (contains (map (λ x. x.0) nhd)) members a b
              ∙ ground (arith, edge_type_opt_ext g g1 a b up.same_edata);
          data_of = λ w. ap (λ l. slot l w) t.same_vdata ∙ up.data_of w;
        },
      )
    where
      live :
          (h : Graph P S)
          → IsValid h
          → (d' : VData P) → slot h.vdata v ≡ (if v == v then some d' else slot g.vdata v)
          → is_some (slot h.edata v) ≡ true
      live h ok d' e = sym (ok.same_live v) ∙ ground (arith, e)

      no_self : (h : Graph P S) → IsValid h → is_some (edge_type_opt h v v) ≡ false
      no_self h ok =
          ground
            (arith, edge_type_opt-pick h v v (ok.simple v v), weigh-keys h.edata v v, ok.no_loop v)

      -- An edge at `v` goes to a neighbour.
      whole :
          (h : Graph P S)
          → IsValid h
          → (m : ℕ → Bool) → ((w : ℕ) → m w ≡ is_some (edge_type_opt h v w))
          → (a b : ℕ)
          → (if (a == v && m b) || (b == v && m a)
              then toggled (edge_type_opt h a b)
              else edge_type_opt h a b)
            ≡ (if a == v || b == v then toggled (edge_type_opt h a b) else edge_type_opt h a b)
      whole h ok m members a b = elim (Bool-cases (a == v)) [
        | inl here ↦
            let at_a : a ≡ v = ground arith in
            rw at_a (ground (arith, members b, members v, no_self h ok))
        | inr other ↦ elim (Bool-cases (b == v)) [
          | inl here ↦
              let at_b : b ≡ v = ground arith in
              rw at_b (ground (arith, members a, edge_type_opt_sym h a v ok))
          | inr apart ↦ rw (other, apart) refl
        ]
      ]
