-- ===== src/Rules/Fusion.antt =====
-- quizx/src/basic_rules.rs: what `spider_fusion` does where its check holds.
use quizx.Prelude.{
  ℕ, ◌≡◌, ◌≢◌, refl, true, false, ◌||◌, Option, none, some, slot, is_some, ◌==◌, if◌then◌else◌,
  arith, Bool-cases, inl, inr, ap, ◌∙◌, is_some-cases,
}
use quizx.Types.{EType}
use quizx.Interface.{PhaseOps, ScalarOps}
use quizx.VecGraph.{
  Graph, VData, Nhd, edge_type_opt, vertex_type, vertex_data, phase, incident_edges, remove_vertex,
  add_to_phase, value,
}
use quizx.VecGraph.Valid.{IsValid}
use quizx.VecGraph.HalfEdges.{edge_type_opt_sym, edge_type_opt-some}
use quizx.VecGraph.Edges.{edge_type_opt_ext}
use quizx.VecGraph.Fields.{update_data-Updated}
use quizx.VecGraph.Removal.{Removed, remove_vertex-Removed}
use quizx.GraphLike.Parallel.{is_zx, is_wire, fusing}
use quizx.Rules.Checked.{checked}
use quizx.Rules.Spiders.{check_spider_fusion, fuse_edges, spider_fusion_unchecked, spider_fusion}
use quizx.Rules.Linked.{NoW}
use quizx.Rules.LocalComp.{neighbors_lem}
use quizx.Rules.Fused.{added, data_type, type_at, Fits, Fused, entry_for}
use quizx.Rules.FuseEdges.{AllFit, fuse_edges_lem}

module _ {P S : Type 0} where
  -- The edge between `v0` and another vertex after `v1` was fused into `v0`.
  abbrev pub merged : Graph P S → ℕ → ℕ → ℕ → Option EType
  merged g v0 v1 b =
      added (fusing (type_at g v0) (type_at g b)) (edge_type_opt g v0 b)
        (if b == v0 then none else edge_type_opt g v1 b)

  abbrev pub fused_edge : Graph P S → ℕ → ℕ → ℕ → ℕ → Option EType
  fused_edge g v0 v1 a b =
      if a == v1 || b == v1
      then none
      else if a == v0
      then merged g v0 v1 b
      else if b == v0
      then merged g v0 v1 a
      else edge_type_opt g a b

  -- What the fusion of `v1` into `v0` leaves.
  pub record FusedInto (g : Graph P S) (v0 v1 : ℕ) (g' : Graph P S) : Type 0 where
    pub valid : IsValid g'
    pub edges : (a b : ℕ) → edge_type_opt g' a b ≡ fused_edge g v0 v1 a b
    pub types : (w : ℕ) → (v1 == w) ≡ false → type_at g' w ≡ type_at g w
    pub live :
        (w : ℕ) → is_some (slot g'.vdata w) ≡ (if v1 == w then false else is_some (slot g.vdata w))

  value-edge :
      (g : Graph P S) (v w : ℕ) (nhd : Nhd)
      → slot g.edata v ≡ some nhd
      → edge_type_opt g v w ≡ value nhd w
  unfolding edge_type_opt
  value-edge g v w nhd at_v = ground (arith, at_v)

  pub neighbor_live :
      (g : Graph P S) (v w : ℕ) {e : EType}
      → IsValid g
      → edge_type_opt g v w ≡ some e
      → is_some (slot g.vdata w) ≡ true
  neighbor_live g v w valid h =
      let (nhd, at_w, there) = edge_type_opt-some g w v (edge_type_opt_sym g w v valid ∙ h) in
      valid.same_live w ∙ ap is_some at_w

  wire_edge :
      (g : Graph P S) (a b : ℕ) (e : EType)
      → NoW g
      → edge_type_opt g a b ≡ some e
      → is_wire e ≡ true
  wire_edge g a b EType.n n h = refl
  wire_edge g a b EType.h n h = refl
  wire_edge g a b EType.wio n h = absurd (n.no_w a b h)

  -- What the check finds.
  check_facts :
      (g : Graph P S) (v0 v1 : ℕ)
      → check_spider_fusion g v0 v1 ≡ some true
      → ((v0 == v1) ≡ false)
        × (edge_type_opt g v0 v1 ≡ some EType.n)
        × (is_some (slot g.vdata v0) ≡ true)
        × (is_zx (type_at g v0) ≡ true)
  unfolding check_spider_fusion vertex_type vertex_data
  check_facts g v0 v1 h =
      (ground (arith, h), ground (arith, h), ground (arith, h), ground (arith, h))

module _ {P S : Type 0} ⦃p : PhaseOps P⦄ ⦃c : ScalarOps P S⦄ where
  unchecked_steps :
      (g g1 g2 g3 : Graph P S) (v0 v1 : ℕ) (nhd : Nhd) {q : P}
      → slot g.edata v1 ≡ some nhd
      → fuse_edges g v0 nhd ≡ some g1
      → phase g1 v1 ≡ some q
      → add_to_phase g1 v0 q ≡ some g2
      → remove_vertex g2 v1 ≡ some g3
      → spider_fusion_unchecked g v0 v1 ≡ some g3
  unfolding spider_fusion_unchecked incident_edges
  unchecked_steps g g1 g2 g3 v0 v1 nhd a b d e f = rw (a, b, d, e, f) refl

  fusion_steps :
      (g g' : Graph P S) (v0 v1 : ℕ)
      → check_spider_fusion g v0 v1 ≡ some true
      → spider_fusion_unchecked g v0 v1 ≡ some g'
      → spider_fusion g v0 v1 ≡ some (g', true)
  unfolding spider_fusion checked
  fusion_steps g g' v0 v1 a b = rw (a, b) refl

  has_phase :
      (g : Graph P S) (v : ℕ) → is_some (slot g.vdata v) ≡ true → (q : P) × (phase g v ≡ some q)
  unfolding phase
  has_phase g v h = let (d, at_v) = is_some-cases (slot g.vdata v) h in (d.phase, rw at_v refl)

  -- The neighbours of the vertex that goes away fit the loop.
  neighbors-AllFit :
      (g : Graph P S) (v0 v1 : ℕ) (nhd : Nhd)
      → IsValid g
      → NoW g
      → slot g.edata v1 ≡ some nhd
      → ((w : ℕ) → w ≢ v0 → is_some (edge_type_opt g v1 w) ≡ true → Fits g v0 w)
      → AllFit g v0 nhd
  unfolding AllFit
  neighbors-AllFit g v0 v1 nhd valid n at_v1 fit w e h ne =
      let joined : edge_type_opt g v1 w ≡ some e = value-edge g v1 w nhd at_v1 ∙ h in
      (wire_edge g v1 w e n joined, neighbor_live g v1 w valid joined, fit w ne (ap is_some joined))

  fusion_ends :
      (g g1 g2 g3 : Graph P S) (v0 v1 : ℕ) (nhd : Nhd) (d : VData P) (q : P)
      → slot g.edata v1 ≡ some nhd
      → Fused g v0 (entry_for v0 nhd) g1
      → slot g1.vdata v0 ≡ some d
      → ((w : ℕ)
          → slot g2.vdata w ≡ (
              if v0 == w
              then some (record d { phase = p.normalize (p.add d.phase q) })
              else slot g1.vdata w))
      → g2.edata ≡ g1.edata
      → Removed g2 v1 g3
      → FusedInto g v0 v1 g3
  fusion_ends g g1 g2 g3 v0 v1 nhd d q at_v1 t at_v0 data_of edata r = record {
    valid = r.valid;
    edges = λ a b. r.edges a b ∙ ground (arith, edge_type_opt_ext g1 g2 a b edata, between a b);
    types = λ w h. ap data_type (r.data_of w) ∙ ground (arith, h, data_of w, at_v0, t.same.types w);
    live = λ w. ap is_some (r.data_of w) ∙ ground (arith, data_of w, at_v0, t.same.live w);
  }
    where
      at_first : (b : ℕ) → edge_type_opt g1 v0 b ≡ merged g v0 v1 b
      at_first b =
          t.at_v0 b
          ∙ ap (added (fusing (type_at g v0) (type_at g b)) (edge_type_opt g v0 b))
              (ground (arith, value-edge g v1 b nhd at_v1))

      between :
          (a b : ℕ)
          → edge_type_opt g1 a b ≡ (
              if a == v0
              then merged g v0 v1 b
              else if b == v0
              then merged g v0 v1 a
              else edge_type_opt g a b)
      between a b = elim (Bool-cases (a == v0)) [
        | inl here ↦ let at_a : a ≡ v0 = ground arith in rw at_a (at_first b ∙ ground arith)
        | inr other ↦ elim (Bool-cases (b == v0)) [
          | inl here ↦
              let at_b : b ≡ v0 = ground arith in
              rw at_b (edge_type_opt_sym g1 a v0 t.valid ∙ at_first a ∙ ground (arith, other))
          | inr apart ↦ rw (other, apart) (t.others a b other apart)
        ]
      ]

  -- On a well-formed diagram without W edges, where the check of `spider_fusion` holds and each other
  -- neighbour of `v1` is a green or red spider or not joined to `v0`, the rule does not panic and answers
  -- true. The diagram stays well-formed and `v1` is gone; `v0` has got the edges of `v1`, added up
  -- with its own as parallel edges do; no other edge, vertex or vertex type changes.
  pub spider_fusion_lem :
      (g : Graph P S) (v0 v1 : ℕ)
      → IsValid g
      → NoW g
      → check_spider_fusion g v0 v1 ≡ some true
      → ((w : ℕ) → w ≢ v0 → is_some (edge_type_opt g v1 w) ≡ true → Fits g v0 w)
      → (g' : Graph P S) × (spider_fusion g v0 v1 ≡ some (g', true)) × FusedInto g v0 v1 g'
  spider_fusion_lem g v0 v1 valid n check fit =
      let (ne, joined, live, zx) = check_facts g v0 v1 check in
      let (nhd, at_v1, back) =
        edge_type_opt-some g v1 v0 (edge_type_opt_sym g v1 v0 valid ∙ joined) in
      let (distinct, members) = neighbors_lem g v1 nhd valid at_v1 in
      let (g1, fused, t) =
        fuse_edges_lem g v0 nhd valid distinct live zx (λ b. n.no_w v0 b)
          (neighbors-AllFit g v0 v1 nhd valid n at_v1 fit) in
      let live1 = t.same.live v1 ∙ neighbor_live g v0 v1 valid joined in
      let (q, at_phase) = has_phase g1 v1 live1 in
      let (d, at_v0) = is_some-cases (slot g1.vdata v0) (t.same.live v0 ∙ live) in
      let (g2, added_up, up) =
        update_data-Updated g1 v0 (λ d'. record d' { phase = p.normalize (p.add d'.phase q) })
          t.valid at_v0 in
      let (g3, removed, r) =
        remove_vertex-Removed g2 v1 up.valid (ground (arith, up.data_of v1, ne, live1)) in
      (
        g3,
        fusion_steps g g3 v0 v1 check (
            unchecked_steps g g1 g2 g3 v0 v1 nhd at_v1 fused at_phase
              (unfold add_to_phase in added_up) removed),
        fusion_ends g g1 g2 g3 v0 v1 nhd d q at_v1 t at_v0 up.data_of up.same_edata r,
      )
