-- ===== src/Rules/FuseEdges.antt =====
-- quizx/src/basic_rules.rs: the loop of `spider_fusion` over the edges of the vertex that goes away.
use quizx.Prelude.{
  ℕ, ◌≡◌, ◌≢◌, refl, Bool, true, false, ◌&&◌, Option, none, some, [], ◌∷◌, map, slot, is_some, ◌==◌,
  arith, Bool-cases, inl, inr, ap, sym, ◌∙◌, is_some-cases,
}
use quizx.Types.{EType}
use quizx.Interface.{PhaseOps, ScalarOps}
use quizx.VecGraph.{Graph, VData, Nhd, edge_type_opt, value}
use quizx.VecGraph.Valid.{IsValid}
use quizx.VecGraph.Edges.{add_edge_with_type_lem}
use quizx.GraphLike.{add_edge_smart}
use quizx.GraphLike.Parallel.{is_zx, is_wire, fusing, joined_by, leaves_pi, Joined, no_phase}
use quizx.GraphLike.Smart.{add_edge_smart_lem, smart_new}
use quizx.Rules.Spiders.{fuse_edges}
use quizx.Rules.Linked.{Distinct, contains_ne}
use quizx.Rules.Fused.{
  joined_by_no_w, no_value, wire_fusing, value-contains, value-cons, pi_type, pi_live, added,
  data_type, type_at, Fits, entry_for, SameTypes, Fused,
}

module _ {P S : Type 0} ⦃p : PhaseOps P⦄ ⦃c : ScalarOps P S⦄ where
  SameTypes-Joined :
      (g g' : Graph P S) (s t : ℕ) (edge : Option EType) (pi : Bool)
      → Joined g s t edge pi g'
      → SameTypes g g'
  SameTypes-Joined g g' s t edge pi j = record {
    types = λ w. ap data_type (j.data_of w) ∙ pi_type (s == w && pi) (slot g.vdata w);
    live = λ w. ap is_some (j.data_of w) ∙ pi_live (s == w && pi) (slot g.vdata w);
  }

  -- One edge at `v0`.
  fuse_edge :
      (g : Graph P S) (v0 w : ℕ) (e : EType)
      → IsValid g
      → v0 ≢ w
      → is_some (slot g.vdata v0) ≡ true
      → is_some (slot g.vdata w) ≡ true
      → is_zx (type_at g v0) ≡ true
      → is_wire e ≡ true
      → Fits g v0 w
      → edge_type_opt g v0 w ≢ some EType.wio
      → (g' : Graph P S) × (pi : Bool) × (add_edge_smart g v0 w e ≡ some g')
        × Joined g v0 w
            (joined_by (fusing (type_at g v0) (type_at g w)) (edge_type_opt g v0 w) e)
            pi
            g'
  fuse_edge g v0 w e valid ne live0 live1 zx we fits no_w =
      let (d, at_v0) = is_some-cases (slot g.vdata v0) live0 in
      let (dw, at_w) = is_some-cases (slot g.vdata w) live1 in go d dw at_v0 at_w fits
    where
      go :
          (d dw : VData P)
          → slot g.vdata v0 ≡ some d
          → slot g.vdata w ≡ some dw
          → Fits g v0 w
          → (g' : Graph P S) × (pi : Bool) × (add_edge_smart g v0 w e ≡ some g')
            × Joined g v0 w
                (joined_by (fusing (type_at g v0) (type_at g w)) (edge_type_opt g v0 w) e)
                pi
                g'
      go d dw at_v0 at_w (inl apart) =
          let (g', done, valid', edges, same) =
            add_edge_with_type_lem g v0 w e valid ne live0 live1 apart in
          (
            g',
            false,
            smart_new g v0 w e at_v0 ne apart ∙ done,
            rw apart (no_phase g g' v0 w (some e) valid' edges same),
          )
      go d dw at_v0 at_w (inr zw) =
          let (g', done, j) =
            add_edge_smart_lem g v0 w e d dw valid ne at_v0 at_w (ground (arith, zx, at_v0))
              (ground (arith, zw, at_w)) we no_w in
          (g', leaves_pi (fusing d.ty dw.ty) (edge_type_opt g v0 w) e, done, rw (at_v0, at_w) j)

  fuse_step :
      (g g1 g2 : Graph P S) (v0 w : ℕ) (e : EType) (nhd : Nhd)
      → (w == v0) ≡ false
      → add_edge_smart g v0 w e ≡ some g1
      → fuse_edges g1 v0 nhd ≡ some g2
      → fuse_edges g v0 ((w, e) ∷ nhd) ≡ some g2
  unfolding fuse_edges
  fuse_step g g1 g2 v0 w e nhd ne a b = rw (ne, a, b) refl

  fuse_skip :
      (g g2 : Graph P S) (v0 w : ℕ) (e : EType) (nhd : Nhd)
      → (w == v0) ≡ true
      → fuse_edges g v0 nhd ≡ some g2
      → fuse_edges g v0 ((w, e) ∷ nhd) ≡ some g2
  unfolding fuse_edges
  fuse_skip g g2 v0 w e nhd same b = rw (same, b) refl

  -- What the loop asks of its list.
  unfoldable pub AllFit : Graph P S → ℕ → Nhd → Type 0
  AllFit g v0 nhd =
      (w : ℕ) (e : EType)
      → value nhd w ≡ some e
      → w ≢ v0
      → (is_wire e ≡ true) × (is_some (slot g.vdata w) ≡ true) × Fits g v0 w

  pub fuse_edges_lem :
      (g : Graph P S) (v0 : ℕ) (nhd : Nhd)
      → IsValid g
      → Distinct (map (λ x. x.0) nhd)
      → is_some (slot g.vdata v0) ≡ true
      → is_zx (type_at g v0) ≡ true
      → ((b : ℕ) → edge_type_opt g v0 b ≢ some EType.wio)
      → AllFit g v0 nhd
      → (g' : Graph P S) × (fuse_edges g v0 nhd ≡ some g') × Fused g v0 (entry_for v0 nhd) g'
  unfolding AllFit
  fuse_edges_lem g v0 [] valid d live zx no_w fit = (
    g,
    unfold fuse_edges in refl,
    record {
      valid = valid;
      at_v0 = λ b. unfold value in ground arith;
      others = λ a b h k. refl;
      same = record { types = λ w. refl; live = λ w. refl };
      no_w = no_w;
    },
  )
  fuse_edges_lem g v0 ((w, e) ∷ nhd) valid d live zx no_w fit = elim (Bool-cases (w == v0)) [
    | inl same ↦
        let (g', rest, t) =
          fuse_edges_lem g v0 nhd valid d.1 live zx no_w
            (λ u e' h ne. fit u e' (value-cons w e nhd u ∙ ground (arith, h)) ne) in
        (g', fuse_skip g g' v0 w e nhd same rest, skipped g' t same)
    | inr other ↦
        let (we, live_w, fits) =
          fit w e (value-cons w e nhd w ∙ ground arith) (λ h. ground (arith, h)) in
        let (g1, pi, first, j) =
          fuse_edge g v0 w e valid (λ h. ground (arith, h)) live live_w zx we fits (no_w w) in
        let same1 = SameTypes-Joined g g1 v0 w _ pi j in
        let (g2, rest, t) =
          fuse_edges_lem g1 v0 nhd j.valid d.1 (same1.live v0 ∙ live)
            (ap is_zx (same1.types v0) ∙ zx) (no_w_after g1 pi j other we)
            (fit_after g1 pi j other same1) in
        (g2, fuse_step g g1 g2 v0 w e nhd other first rest, fused g1 g2 pi j other same1 t)
  ]
    where
      skipped :
          (g' : Graph P S)
          → Fused g v0 (entry_for v0 nhd) g'
          → (w == v0) ≡ true
          → Fused g v0 (entry_for v0 ((w, e) ∷ nhd)) g'
      skipped g' t same = record {
        valid = t.valid;
        at_v0 = λ b.
            t.at_v0 b
            ∙ ap (added (fusing (type_at g v0) (type_at g b)) (edge_type_opt g v0 b))
                (ground (arith, value-cons w e nhd b));
        others = t.others;
        same = t.same;
        no_w = t.no_w;
      }

      no_w_after :
          (g1 : Graph P S) (pi : Bool)
          → Joined g v0 w
              (joined_by (fusing (type_at g v0) (type_at g w)) (edge_type_opt g v0 w) e)
              pi
              g1
          → (w == v0) ≡ false
          → is_wire e ≡ true
          → (b : ℕ) → edge_type_opt g1 v0 b ≢ some EType.wio
      no_w_after g1 pi j other we b h = elim (Bool-cases (b == w)) [
        | inl here ↦
            joined_by_no_w (fusing (type_at g v0) (type_at g w)) e (edge_type_opt g v0 w)
              (wire_fusing (type_at g v0) (type_at g w)) we (no_w w)
              (sym (j.edges v0 b ∙ ground (arith, here, other)) ∙ h)
        | inr there ↦ no_w b (sym (j.edges v0 b ∙ ground (arith, there, other)) ∙ h)
      ]

      moved :
          (g1 : Graph P S) (pi : Bool)
          → Joined g v0 w
              (joined_by (fusing (type_at g v0) (type_at g w)) (edge_type_opt g v0 w) e)
              pi
              g1
          → (w == v0) ≡ false
          → SameTypes g g1
          → (u : ℕ) → (u == w) ≡ false
          → Fits g v0 u
          → Fits g1 v0 u
      moved g1 pi j other same1 u diff (inl apart) =
          inl (j.edges v0 u ∙ ground (arith, diff, other, apart))
      moved g1 pi j other same1 u diff (inr zu) = inr (ap is_zx (same1.types u) ∙ zu)

      fit_after :
          (g1 : Graph P S) (pi : Bool)
          → Joined g v0 w
              (joined_by (fusing (type_at g v0) (type_at g w)) (edge_type_opt g v0 w) e)
              pi
              g1
          → (w == v0) ≡ false
          → SameTypes g g1
          → AllFit g1 v0 nhd
      fit_after g1 pi j other same1 u e' h ne =
          let diff : (u == w) ≡ false =
            contains_ne (map (λ x. x.0) nhd) u w (sym (value-contains nhd u) ∙ ap is_some h) d.0 in
          let (we', live', fits') = fit u e' (value-cons w e nhd u ∙ ground (arith, diff, h)) ne in
          (we', same1.live u ∙ live', moved g1 pi j other same1 u diff fits')

      entry :
          (g1 : Graph P S) (pi : Bool)
          → Joined g v0 w
              (joined_by (fusing (type_at g v0) (type_at g w)) (edge_type_opt g v0 w) e)
              pi
              g1
          → (w == v0) ≡ false
          → (b : ℕ)
          → added (fusing (type_at g v0) (type_at g b)) (edge_type_opt g1 v0 b) (entry_for v0 nhd b)
            ≡ added
                (fusing (type_at g v0) (type_at g b))
                (edge_type_opt g v0 b)
                (entry_for v0 ((w, e) ∷ nhd) b)
      entry g1 pi j other b = elim (Bool-cases (b == w)) [
        | inl here ↦
            let at_b : b ≡ w = ground arith in
            let last : value nhd w ≡ none = no_value (value nhd w) (value-contains nhd w ∙ d.0) in
            let now : edge_type_opt g1 v0 w
                ≡ joined_by (fusing (type_at g v0) (type_at g w)) (edge_type_opt g v0 w) e =
              j.edges v0 w ∙ ground (arith, other) in
            rw (at_b, value-cons w e nhd w, last, now, other) (ground (arith, other))
        | inr there ↦
            let before : edge_type_opt g1 v0 b ≡ edge_type_opt g v0 b =
              j.edges v0 b ∙ ground (arith, there, other) in
            rw (before, value-cons w e nhd b, there) refl
      ]

      fused :
          (g1 g2 : Graph P S) (pi : Bool)
          → Joined g v0 w
              (joined_by (fusing (type_at g v0) (type_at g w)) (edge_type_opt g v0 w) e)
              pi
              g1
          → (w == v0) ≡ false
          → SameTypes g g1
          → Fused g1 v0 (entry_for v0 nhd) g2
          → Fused g v0 (entry_for v0 ((w, e) ∷ nhd)) g2
      fused g1 g2 pi j other same1 t = record {
        valid = t.valid;
        at_v0 = λ b. t.at_v0 b ∙ rw (same1.types v0, same1.types b) (entry g1 pi j other b);
        others = λ a b h k. t.others a b h k ∙ j.edges a b ∙ ground (arith, h, k);
        same = record {
          types = λ u. t.same.types u ∙ same1.types u;
          live = λ u. t.same.live u ∙ same1.live u;
        };
        no_w = t.no_w;
      }
