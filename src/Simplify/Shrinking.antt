-- ===== src/Simplify/Shrinking.antt =====
-- The rules that the loops of quizx/src/simplify.rs apply take vertices away.
use quizx.Prelude.{
  ℕ, ◌≡◌, refl, not, ◌&&◌, some, List, [], ◌∷◌, arith, ◌||◌, Bool-cases, get_elem?, ◌>>=◌,
  >>=-eq-some, if◌then◌else◌, Option-cases, inl, inr, ◌==◌,
}
use quizx.Prelude.Int.{ℤ, pos}
use quizx.Types.{VType, EType, vtype_eq, etype_eq, is_spider}
use quizx.Interface.{PhaseOps, ScalarOps}
use quizx.VecGraph.{
  Graph, Nhd, phase, incident_edges, edge_type_opt, vertex_type, remove_vertex, remove_edge,
  set_edge_type, add_to_phase,
}
use quizx.GraphLike.{
  edge_type, neighbor_vec, mul_sqrt2_pow, smart_loop, smart_phase, smart_same, smart_other,
  smart_parallel, add_edge_smart,
}
use quizx.Rules.Checked.{add_to_phases, joined_type}
use quizx.Rules.Spiders.{
  fuse_edges, spider_fusion_unchecked, remove_id_unchecked, remove_single_unchecked,
  remove_pair_unchecked,
}
use quizx.Rules.Pivot.{
  join_to_all, complement, local_comp_unchecked, pivot_row, pivot_rows, pivot_unchecked,
}
use quizx.Simplify.Numv.{
  Ends-if, Keeps-some, Keeps-none, Keeps-remove_edge, Keeps-add_edge_with_type, Keeps-set_edge_type,
  Keeps-update_data, if-some, Loses-remove_vertex, Keeps, Loses,
}

module _ {P S : Type 0} ⦃p : PhaseOps P⦄ ⦃c : ScalarOps P S⦄ where
  Keeps-add_to_phase : (g : Graph P S) (v : ℕ) (q : P) → Keeps g.numv (add_to_phase g v q)
  unfolding add_to_phase
  Keeps-add_to_phase g v q = Keeps-update_data g v _

  Keeps-smart_loop :
      (g : Graph P S) (s : ℕ) (st : VType) (e : EType) → Keeps g.numv (smart_loop g s st e)
  unfolding smart_loop
  Keeps-smart_loop g s st e g1 h = elim (if-some (is_spider st) _ _ g1 h) [
    | inr fails ↦ ground (arith, fails)
    | inl spider ↦ elim (if-some (etype_eq e EType.h) _ _ g1 spider) [
      | inr same ↦ ground (arith, same)
      | inl added ↦
          let (g2, first, last) = >>=-eq-some (add_to_phase g s p.one) _ added in
          ground (arith, last, Keeps-add_to_phase g s p.one g2 first)
    ]
  ]

  Keeps-smart_phase : (g : Graph P S) (s : ℕ) → Keeps g.numv (smart_phase g s)
  unfolding smart_phase
  Keeps-smart_phase g s g1 h =
      let (g2, first, last) = >>=-eq-some (add_to_phase g s (p.ratio (pos 1) 1)) _ h in
      ground (arith, last, Keeps-add_to_phase g s (p.ratio (pos 1) 1) g2 first)

  Keeps-drop_edge :
      (g : Graph P S) (s t : ℕ) (k : ℤ)
      → Keeps g.numv (do g1 ← remove_edge g s t; some (mul_sqrt2_pow g1 k))
  Keeps-drop_edge g s t k g1 h =
      let (g2, first, last) = >>=-eq-some (remove_edge g s t) _ h in
      ground (arith, last, Keeps-remove_edge g s t g2 first)

  Keeps-retype :
      (g : Graph P S) (s t : ℕ) (e : EType)
      → Keeps g.numv (do g1 ← set_edge_type g s t e; smart_phase g1 s)
  Keeps-retype g s t e g1 h =
      let (g2, first, last) = >>=-eq-some (set_edge_type g s t e) _ h in
      omega (arith, Keeps-set_edge_type g s t e g2 first, Keeps-smart_phase g2 s g1 last)

  Keeps-smart_same : (g : Graph P S) (s t : ℕ) (e0 e : EType) → Keeps g.numv (smart_same g s t e0 e)
  unfolding smart_same
  Keeps-smart_same g s t EType.n EType.n = Keeps-some g _ refl
  Keeps-smart_same g s t EType.h EType.h = Keeps-drop_edge g s t _
  Keeps-smart_same g s t EType.h EType.n = Keeps-retype g s t EType.n
  Keeps-smart_same g s t EType.n EType.h = Keeps-smart_phase g s
  Keeps-smart_same g s t EType.n EType.wio = Keeps-none _
  Keeps-smart_same g s t EType.h EType.wio = Keeps-none _
  Keeps-smart_same g s t EType.wio e = Keeps-none _

  Keeps-smart_other :
      (g : Graph P S) (s t : ℕ) (e0 e : EType) → Keeps g.numv (smart_other g s t e0 e)
  unfolding smart_other
  Keeps-smart_other g s t EType.n EType.n = Keeps-drop_edge g s t _
  Keeps-smart_other g s t EType.n EType.h = Keeps-retype g s t EType.h
  Keeps-smart_other g s t EType.h EType.n = Keeps-smart_phase g s
  Keeps-smart_other g s t EType.h EType.h = Keeps-some g _ refl
  Keeps-smart_other g s t EType.n EType.wio = Keeps-none _
  Keeps-smart_other g s t EType.h EType.wio = Keeps-none _
  Keeps-smart_other g s t EType.wio e = Keeps-none _

  Keeps-smart_parallel :
      (g : Graph P S) (s t : ℕ) (st t1 : VType) (e0 e : EType)
      → Keeps g.numv (smart_parallel g s t st t1 e0 e)
  unfolding smart_parallel
  Keeps-smart_parallel g s t VType.z VType.z e0 e = Keeps-smart_same g s t e0 e
  Keeps-smart_parallel g s t VType.x VType.x e0 e = Keeps-smart_same g s t e0 e
  Keeps-smart_parallel g s t VType.z VType.x e0 e = Keeps-smart_other g s t e0 e
  Keeps-smart_parallel g s t VType.x VType.z e0 e = Keeps-smart_other g s t e0 e
  Keeps-smart_parallel g s t VType.z VType.b e0 e = Keeps-none _
  Keeps-smart_parallel g s t VType.z VType.h e0 e = Keeps-none _
  Keeps-smart_parallel g s t VType.x VType.b e0 e = Keeps-none _
  Keeps-smart_parallel g s t VType.x VType.h e0 e = Keeps-none _
  Keeps-smart_parallel g s t VType.z VType.w_input e0 e = Keeps-none _
  Keeps-smart_parallel g s t VType.z VType.w_output e0 e = Keeps-none _
  Keeps-smart_parallel g s t VType.z VType.z_box e0 e = Keeps-none _
  Keeps-smart_parallel g s t VType.x VType.w_input e0 e = Keeps-none _
  Keeps-smart_parallel g s t VType.x VType.w_output e0 e = Keeps-none _
  Keeps-smart_parallel g s t VType.x VType.z_box e0 e = Keeps-none _
  Keeps-smart_parallel g s t VType.b t1 e0 e = Keeps-none _
  Keeps-smart_parallel g s t VType.h t1 e0 e = Keeps-none _
  Keeps-smart_parallel g s t VType.w_input t1 e0 e = Keeps-none _
  Keeps-smart_parallel g s t VType.w_output t1 e0 e = Keeps-none _
  Keeps-smart_parallel g s t VType.z_box t1 e0 e = Keeps-none _

  Keeps-add_edge_smart :
      (g : Graph P S) (s t : ℕ) (e : EType) → Keeps g.numv (add_edge_smart g s t e)
  unfolding add_edge_smart
  Keeps-add_edge_smart g s t e g1 h =
      let (st, at_s, rest) = >>=-eq-some (vertex_type g s) _ h in
      elim (if-some (s == t) _ _ g1 rest) [
        | inl loop ↦ Keeps-smart_loop g s st e g1 loop
        | inr joined ↦ elim (Option-cases (edge_type_opt g s t)) [
          | inl absent ↦ Keeps-add_edge_with_type g s t e g1 (rw absent at joined)
          | inr (e0, found) ↦
              let (t1, at_t, last) = >>=-eq-some (vertex_type g t) _ (rw found at joined) in
              Keeps-smart_parallel g s t st t1 e0 e g1 last
        ]
      ]

  Keeps-join_to_all : (g : Graph P S) (w : ℕ) (us : List ℕ) → Keeps g.numv (join_to_all g w us)
  unfolding join_to_all
  Keeps-join_to_all g w [] g1 h = ground (arith, h)
  Keeps-join_to_all g w (u ∷ us) g1 h =
      let (g2, first, last) = >>=-eq-some (add_edge_smart g w u EType.h) _ h in
      omega (arith, Keeps-add_edge_smart g w u EType.h g2 first, Keeps-join_to_all g2 w us g1 last)

  Keeps-complement : (g : Graph P S) (q : P) (ws : List ℕ) → Keeps g.numv (complement g q ws)
  unfolding complement
  Keeps-complement g q [] g1 h = ground (arith, h)
  Keeps-complement g q (w ∷ ws) g1 h =
      let (g2, first, rest) = >>=-eq-some (add_to_phase g w (p.neg q)) _ h in
      let (g3, second, last) = >>=-eq-some (join_to_all g2 w ws) _ rest in
      omega (
        arith,
        Keeps-add_to_phase g w (p.neg q) g2 first,
        Keeps-join_to_all g2 w ws g3 second,
        Keeps-complement g3 q ws g1 last,
      )

  Keeps-pivot_row :
      (g : Graph P S) (v0 v1 n0 : ℕ) (ns : List ℕ) → Keeps g.numv (pivot_row g v0 v1 n0 ns)
  unfolding pivot_row
  Keeps-pivot_row g v0 v1 n0 [] g1 h = ground (arith, h)
  Keeps-pivot_row g v0 v1 n0 (n1 ∷ ns) g1 h =
      let (g2, first, last) =
        >>=-eq-some
          (if not (n0 == v1) && not (n1 == v0) then add_edge_smart g n0 n1 EType.h else some g) _
          h in
      omega (
        arith,
        Ends-if (λ m. m ≡ g.numv) (not (n0 == v1) && not (n1 == v0)) _ _
            (Keeps-add_edge_smart g n0 n1 EType.h) (Keeps-some g _ refl) g2 first,
        Keeps-pivot_row g2 v0 v1 n0 ns g1 last,
      )

  Keeps-pivot_rows :
      (g : Graph P S) (v0 v1 : ℕ) (q : P) (ns0 ns1 : List ℕ)
      → Keeps g.numv (pivot_rows g v0 v1 q ns0 ns1)
  unfolding pivot_rows
  Keeps-pivot_rows g v0 v1 q [] ns1 g1 h = ground (arith, h)
  Keeps-pivot_rows g v0 v1 q (n0 ∷ ns0) ns1 g1 h =
      let (g2, first, rest) = >>=-eq-some (add_to_phase g n0 q) _ h in
      let (g3, second, last) = >>=-eq-some (pivot_row g2 v0 v1 n0 ns1) _ rest in
      omega (
        arith,
        Keeps-add_to_phase g n0 q g2 first,
        Keeps-pivot_row g2 v0 v1 n0 ns1 g3 second,
        Keeps-pivot_rows g3 v0 v1 q ns0 ns1 g1 last,
      )

  Keeps-add_to_phases : (g : Graph P S) (q : P) (ws : List ℕ) → Keeps g.numv (add_to_phases g q ws)
  unfolding add_to_phases
  Keeps-add_to_phases g q [] g1 h = ground (arith, h)
  Keeps-add_to_phases g q (w ∷ ws) g1 h =
      let (g2, first, last) = >>=-eq-some (add_to_phase g w q) _ h in
      omega (arith, Keeps-add_to_phase g w q g2 first, Keeps-add_to_phases g2 q ws g1 last)

  Keeps-fuse_edges : (g : Graph P S) (v0 : ℕ) (nhd : Nhd) → Keeps g.numv (fuse_edges g v0 nhd)
  unfolding fuse_edges
  Keeps-fuse_edges g v0 [] g1 h = ground (arith, h)
  Keeps-fuse_edges g v0 ((v, et) ∷ nhd) g1 h =
      let (g2, first, last) =
        >>=-eq-some (if v == v0 then some g else add_edge_smart g v0 v et) _ h in
      omega (
        arith,
        Ends-if (λ m. m ≡ g.numv) (v == v0) _ _ (Keeps-some g _ refl)
            (Keeps-add_edge_smart g v0 v et) g2 first,
        Keeps-fuse_edges g2 v0 nhd g1 last,
      )

  pub Loses-local_comp_unchecked : (g : Graph P S) (v : ℕ) → Loses g.numv (local_comp_unchecked g v)
  unfolding local_comp_unchecked
  Loses-local_comp_unchecked g v g1 h =
      let (q, at_v, h1) = >>=-eq-some (phase g v) _ h in
      let (ns, near, h2) = >>=-eq-some (neighbor_vec g v) _ h1 in
      let (g2, first, h3) = >>=-eq-some (complement g q ns) _ h2 in
      let (g3, second, last) = >>=-eq-some (remove_vertex g2 v) _ h3 in
      ground (arith, Keeps-complement g q ns g2 first, Loses-remove_vertex g2 v g3 second, last)

  pub Loses-pivot_unchecked : (g : Graph P S) (v0 v1 : ℕ) → Loses g.numv (pivot_unchecked g v0 v1)
  unfolding pivot_unchecked
  Loses-pivot_unchecked g v0 v1 g1 h =
      let (q0, at_v0, h1) = >>=-eq-some (phase g v0) _ h in
      let (q1, at_v1, h2) = >>=-eq-some (phase g v1) _ h1 in
      let (ns0, near0, h3) = >>=-eq-some (neighbor_vec g v0) _ h2 in
      let (ns1, near1, h4) = >>=-eq-some (neighbor_vec g v1) _ h3 in
      let (g2, first, h5) = >>=-eq-some (pivot_rows g v0 v1 q1 ns0 ns1) _ h4 in
      let (g3, second, h6) = >>=-eq-some (add_to_phases g2 q0 ns1) _ h5 in
      let (g4, third, h7) = >>=-eq-some (remove_vertex g3 v0) _ h6 in
      let (g5, fourth, last) = >>=-eq-some (remove_vertex g4 v1) _ h7 in
      let few = Loses-remove_vertex g3 v0 g4 third in
      let fewer = Loses-remove_vertex g4 v1 g5 fourth in
      let same = Keeps-pivot_rows g v0 v1 q1 ns0 ns1 g2 first in
      let same' = Keeps-add_to_phases g2 q0 ns1 g3 second in
      elim (Bool-cases (not (p.is_zero q0) && not (p.is_zero q1))) [
        | inl e ↦ ground (arith, last, e, few, fewer, same, same')
        | inr e ↦ ground (arith, last, e, few, fewer, same, same')
      ]

  pub Loses-spider_fusion_unchecked :
      (g : Graph P S) (v0 v1 : ℕ) → Loses g.numv (spider_fusion_unchecked g v0 v1)
  unfolding spider_fusion_unchecked
  Loses-spider_fusion_unchecked g v0 v1 g1 h =
      let (nhd, near, h1) = >>=-eq-some (incident_edges g v1) _ h in
      let (g2, first, h2) = >>=-eq-some (fuse_edges g v0 nhd) _ h1 in
      let (q, at_v1, h3) = >>=-eq-some (phase g2 v1) _ h2 in
      let (g3, second, last) = >>=-eq-some (add_to_phase g2 v0 q) _ h3 in
      omega (
        arith,
        Keeps-fuse_edges g v0 nhd g2 first,
        Keeps-add_to_phase g2 v0 q g3 second,
        Loses-remove_vertex g3 v1 g1 last,
      )

  pub Loses-remove_id_unchecked : (g : Graph P S) (v : ℕ) → Loses g.numv (remove_id_unchecked g v)
  unfolding remove_id_unchecked
  Loses-remove_id_unchecked g v g1 h =
      let (nhd, near, h1) = >>=-eq-some (incident_edges g v) _ h in
      let ((n0, e0), at0, h2) = >>=-eq-some (get_elem? nhd 0) _ h1 in
      let ((n1, e1), at1, h3) = >>=-eq-some (get_elem? nhd 1) _ h2 in
      let (et, joined, h4) = >>=-eq-some (joined_type e0 e1) _ h3 in
      let (g2, first, last) = >>=-eq-some (add_edge_smart g n0 n1 et) _ h4 in
      omega (arith, Keeps-add_edge_smart g n0 n1 et g2 first, Loses-remove_vertex g2 v g1 last)

  pub Loses-remove_single_unchecked :
      (g : Graph P S) (v : ℕ) → Loses g.numv (remove_single_unchecked g v)
  unfolding remove_single_unchecked
  Loses-remove_single_unchecked g v g1 h =
      let (q, at_v, last) = >>=-eq-some (phase g v) _ h in Loses-remove_vertex _ v g1 last

  pub Loses-remove_pair_unchecked :
      (g : Graph P S) (v0 v1 : ℕ) → Loses g.numv (remove_pair_unchecked g v0 v1)
  unfolding remove_pair_unchecked
  Loses-remove_pair_unchecked g v0 v1 g1 h =
      let (t0, a0, h1) = >>=-eq-some (vertex_type g v0) _ h in
      let (t1, a1, h2) = >>=-eq-some (vertex_type g v1) _ h1 in
      let (et, a2, h3) = >>=-eq-some (edge_type g v0 v1) _ h2 in
      let (q0, a3, h4) = >>=-eq-some (phase g v0) _ h3 in
      let (q1, a4, h5) = >>=-eq-some (phase g v1) _ h4 in
      let (g2, first, last) = >>=-eq-some (remove_vertex _ v0) _ h5 in
      let few = Loses-remove_vertex _ v0 g2 first in
      let fewer = Loses-remove_vertex g2 v1 g1 last in
      elim (Bool-cases (
        (vtype_eq t0 t1 && etype_eq et EType.n) || (not (vtype_eq t0 t1) && etype_eq et EType.h))) [
          | inl e ↦ ground (arith, e, few, fewer)
          | inr e ↦ ground (arith, e, few, fewer)
        ]
