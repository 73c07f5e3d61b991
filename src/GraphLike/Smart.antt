-- ===== src/GraphLike/Smart.antt =====
-- quizx/src/graph.rs: `add_edge_smart` between two spiders, against a description of what parallel
-- edges add up to.
use quizx.Prelude.{
  ℕ, ◌≡◌, ◌≢◌, refl, Bool, true, false, Option, none, some, slot, ◌>>=◌, ◌==◌, arith, Bool-cases,
  inl, inr, sym, ◌∙◌, Option-cases,
}
use quizx.Prelude.Int.{negsuc}
use quizx.Types.{VType, EType, etype_eq}
use quizx.Interface.{PhaseOps, ScalarOps}
use quizx.VecGraph.{
  Graph, VData, edge_type_opt, add_edge_with_type, set_edge_type, vertex_type, vertex_data,
}
use quizx.VecGraph.Valid.{IsValid}
use quizx.VecGraph.Edges.{edge_type_opt_ext, remove_edge_lem, add_edge_with_type_lem}
use quizx.VecGraph.Fields.{set_edge_type_lem}
use quizx.GraphLike.{mul_sqrt2_pow, smart_phase, smart_parallel, add_edge_smart}
use quizx.GraphLike.Parallel.{
  fusing_left, same_type, parallel_same, parallel_other, parallel_cancel, rescaled-IsValid,
  phase_after, no_phase, same_edges, is_zx, is_wire, fusing, parallel, joined_by, leaves_pi, Joined,
}

module _ {P S : Type 0} ⦃p : PhaseOps P⦄ ⦃c : ScalarOps P S⦄ where
  set_then_phase :
      (g g1 g' : Graph P S) (s t : ℕ) (k : EType)
      → set_edge_type g s t k ≡ some g1
      → smart_phase g1 s ≡ some g'
      → (set_edge_type g s t k >>= (λ h. smart_phase h s)) ≡ some g'
  set_then_phase g g1 g' s t k a b = rw (a, b) refl

  retarget :
      (g g' : Graph P S) (s t : ℕ) (edge edge' : Option EType) (pi pi' : Bool)
      → edge ≡ edge'
      → pi ≡ pi'
      → Joined g s t edge pi g'
      → Joined g s t edge' pi' g'
  retarget g g' s t edge edge' pi pi' a b j = rw (sym a, sym b) j

  parallel_lem :
      (g : Graph P S) (s t : ℕ) (st tt : VType) (e0 e : EType) {d : VData P}
      → IsValid g
      → slot g.vdata s ≡ some d
      → edge_type_opt g s t ≡ some e0
      → is_zx st ≡ true
      → is_zx tt ≡ true
      → is_wire e0 ≡ true
      → is_wire e ≡ true
      → (g' : Graph P S) × (smart_parallel g s t st tt e0 e ≡ some g')
        × Joined g s t (parallel (fusing st tt) e0 e) (leaves_pi (fusing st tt) (some e0) e) g'
  parallel_lem g s t st tt e0 e {d} valid at_s joined zs zt w0 w =
      elim (Bool-cases (etype_eq e0 (fusing st tt))) [
        | inl old ↦ elim (Bool-cases (etype_eq e (fusing st tt))) [
          | inl new ↦ (
            g,
            parallel_same g s t st tt e0 e zs zt w0 w old ∙ rw new refl,
            retarget g g s t (some e0) _ false _
                (same_type e0 (fusing st tt) old ∙ fusing_left (fusing st tt) e0 e (ground arith))
                (ground arith)
                (no_phase g g s t (some e0) valid (same_edges g s t valid joined) refl),
          )
          | inr other ↦
              let (g', done, j) =
                phase_after g g s t (some e0) valid at_s (same_edges g s t valid joined) refl in
              (
                g',
                parallel_same g s t st tt e0 e zs zt w0 w old ∙ rw other done,
                retarget g g' s t (some e0) _ true _
                    (same_type e0 (fusing st tt) old
                      ∙ fusing_left (fusing st tt) e0 e (ground arith))
                    (ground arith) j,
              )
        ]
        | inr cut ↦ elim (Bool-cases (etype_eq e (fusing st tt))) [
          | inl new ↦
              let (g1, set, valid1, edges, same) =
                set_edge_type_lem g s t (fusing st tt) valid joined in
              let (g', done, j) =
                phase_after g g1 s t (some (fusing st tt)) valid1 at_s edges same in
              (
                g',
                parallel_other g s t st tt e0 e zs zt w0 w cut new
                    ∙ set_then_phase g g1 g' s t (fusing st tt) set done,
                retarget g g' s t (some (fusing st tt)) _ true _
                    (fusing_left (fusing st tt) e0 e (ground arith)) (ground arith) j,
              )
          | inr other ↦
              let (g1, gone, valid1, edges, same) = remove_edge_lem g s t valid joined in
              (
                mul_sqrt2_pow g1 (negsuc 1),
                parallel_cancel g s t st tt e0 e zs zt w0 w cut other ∙ rw gone refl,
                retarget g _ s t none _ false _ (ground arith) (ground arith) (
                    no_phase g (mul_sqrt2_pow g1 (negsuc 1)) s t none (rescaled-IsValid g1 _ valid1)
                      (λ a b.
                        edge_type_opt_ext g1 (mul_sqrt2_pow g1 (negsuc 1)) a b refl ∙ edges a b)
                      same),
              )
        ]
      ]

  smart_steps :
      (g : Graph P S) (s t : ℕ) (e e0 : EType) {d dt : VData P}
      → slot g.vdata s ≡ some d
      → slot g.vdata t ≡ some dt
      → s ≢ t
      → edge_type_opt g s t ≡ some e0
      → add_edge_smart g s t e ≡ smart_parallel g s t d.ty dt.ty e0 e
  unfolding add_edge_smart vertex_type vertex_data
  smart_steps g s t e e0 a b ne h =
      let apart : (s == t) ≡ false = ground arith in rw (a, apart, h, b) refl

  pub smart_new :
      (g : Graph P S) (s t : ℕ) (e : EType) {d : VData P}
      → slot g.vdata s ≡ some d
      → s ≢ t
      → edge_type_opt g s t ≡ none
      → add_edge_smart g s t e ≡ add_edge_with_type g s t e
  unfolding add_edge_smart vertex_type vertex_data
  smart_new g s t e a ne h = let apart : (s == t) ≡ false = ground arith in rw (a, apart, h) refl

  -- On a well-formed graph, with two green or red spiders that no W edge joins, `add_edge_smart` of a plain
  -- or a Hadamard edge does not panic and keeps the graph well-formed. The edge between the spiders
  -- is what the new edge and the one that may have been there add up to; the first spider gets a phase of pi
  -- where exactly one of two edges fuses; no other edge and no other vertex changes.
  pub add_edge_smart_lem :
      (g : Graph P S) (s t : ℕ) (e : EType) (d dt : VData P)
      → IsValid g
      → s ≢ t
      → slot g.vdata s ≡ some d
      → slot g.vdata t ≡ some dt
      → is_zx d.ty ≡ true
      → is_zx dt.ty ≡ true
      → is_wire e ≡ true
      → edge_type_opt g s t ≢ some EType.wio
      → (g' : Graph P S) × (add_edge_smart g s t e ≡ some g')
        × Joined g s t
            (joined_by (fusing d.ty dt.ty) (edge_type_opt g s t) e)
            (leaves_pi (fusing d.ty dt.ty) (edge_type_opt g s t) e)
            g'
  add_edge_smart_lem g s t e d dt valid ne at_s at_t zs zt w no_w =
      elim (Option-cases (edge_type_opt g s t)) [
        | inl apart ↦
            let (g', done, valid', edges, same) =
              add_edge_with_type_lem g s t e valid ne (ground (arith, at_s)) (ground (arith, at_t))
                apart in
            (
              g',
              smart_new g s t e at_s ne apart ∙ done,
              rw apart (no_phase g g' s t (some e) valid' edges same),
            )
        | inr (e0, joined) ↦
            let (g', done, j) =
              parallel_lem g s t d.ty dt.ty e0 e valid at_s joined zs zt (wire_edge e0 joined) w in
            (g', smart_steps g s t e e0 at_s at_t ne joined ∙ done, rw joined j)
      ]
    where
      wire_edge : (e0 : EType) → edge_type_opt g s t ≡ some e0 → is_wire e0 ≡ true
      wire_edge EType.n h = refl
      wire_edge EType.h h = refl
      wire_edge EType.wio h = absurd (no_w h)
