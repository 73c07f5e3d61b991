-- ===== src/Rules/Links.antt =====
-- quizx/src/basic_rules.rs: the loops of local complementation, which add Hadamard edges between
-- green spiders.
use quizx.Prelude.{
  ℕ, ◌≡◌, ◌≢◌, refl, Bool, false, ◌&&◌, ◌||◌, not, Option, none, some, List, [], ◌∷◌, slot, ◌>>=◌,
  ◌==◌, if◌then◌else◌, arith, Bool-cases, inl, inr, ap, ◌∙◌,
}
use quizx.Types.{VType, EType}
use quizx.Interface.{PhaseOps, ScalarOps}
use quizx.VecGraph.{Graph, VData, edge_type_opt, add_to_phase, vertex_type}
use quizx.VecGraph.Valid.{IsValid}
use quizx.VecGraph.HalfEdges.{edge_type_opt_sym}
use quizx.VecGraph.Edges.{edge_type_opt_ext}
use quizx.VecGraph.Fields.{update_data-Updated}
use quizx.GraphLike.{add_edge_smart}
use quizx.GraphLike.Parallel.{joined_by, Joined, add_pi, fusing}
use quizx.GraphLike.Smart.{add_edge_smart_lem}
use quizx.Rules.Checked.{contains}
use quizx.Rules.Pivot.{join_to_all, complement}
use quizx.Rules.Linked.{
  not_in, separate, NoW-Linked, AllZ-Linked, Linked-trans, type_of, types_from, Distinct, with_h,
  AllZ, NoW, Linked,
}

module _ {P S : Type 0} ⦃p : PhaseOps P⦄ ⦃c : ScalarOps P S⦄ where
  -- The phases play no part in the types.
  types-Joined :
      (g g' : Graph P S) (s t : ℕ) (edge : Option EType) (pi : Bool)
      → Joined g s t edge pi g'
      → (w : ℕ) → vertex_type g' w ≡ vertex_type g w
  types-Joined g g' s t edge pi j =
      types_from g g'
        (λ w. ap (λ o. o >>= (λ d. some d.ty)) (j.data_of w) ∙ kept w (slot g.vdata w))
    where
      kept :
          (w : ℕ) (o : Option (VData P))
          → ((if s == w && pi then (o >>= (λ d. some (add_pi d))) else o) >>= (λ d. some d.ty))
            ≡ (o >>= (λ d. some d.ty))
      kept w none = ground arith
      kept w (some d) = ground arith

  -- One Hadamard edge between green spiders.
  link_lem :
      (g : Graph P S) (s t : ℕ)
      → IsValid g
      → NoW g
      → s ≢ t
      → vertex_type g s ≡ some VType.z
      → vertex_type g t ≡ some VType.z
      → (g' : Graph P S) × (add_edge_smart g s t EType.h ≡ some g')
        × Linked g (λ a b. (a == s && b == t) || (a == t && b == s)) g'
  link_lem g s t valid n ne zs zt =
      let (d, at_s, ds) = type_of g s zs in
      let (dt, at_t, dts) = type_of g t zt in
      let (g', done, j) =
        add_edge_smart_lem g s t EType.h d dt valid ne at_s at_t (rw ds refl) (rw dts refl) refl
          (n.no_w s t) in
      (
        g',
        done,
        record {
          valid = j.valid;
          edges = λ a b. j.edges a b ∙ ends d.ty dt.ty ds dts a b;
          types = types-Joined g g' s t _ _ j;
        },
      )
    where
      ends :
          (st tt : VType)
          → st ≡ VType.z
          → tt ≡ VType.z
          → (a b : ℕ)
          → (if (a == s && b == t) || (a == t && b == s)
              then joined_by (fusing st tt) (edge_type_opt g s t) EType.h
              else edge_type_opt g a b)
            ≡ (if (a == s && b == t) || (a == t && b == s)
                then with_h (edge_type_opt g a b)
                else edge_type_opt g a b)
      ends st tt e1 e2 a b = elim (Bool-cases (a == s && b == t)) [
        | inl here ↦
            let at_a : a ≡ s = ground arith in
            let at_b : b ≡ t = ground arith in rw (e1, e2, at_a, at_b) refl
        | inr other ↦ elim (Bool-cases (a == t && b == s)) [
          | inl back ↦
              let at_a : a ≡ t = ground arith in
              let at_b : b ≡ s = ground arith in
              rw (e1, e2, at_a, at_b, edge_type_opt_sym g t s valid) refl
          | inr apart ↦ rw (other, apart) refl
        ]
      ]

  join_steps :
      (g g1 g2 : Graph P S) (w u : ℕ) (us : List ℕ)
      → add_edge_smart g w u EType.h ≡ some g1
      → join_to_all g1 w us ≡ some g2
      → join_to_all g w (u ∷ us) ≡ some g2
  unfolding join_to_all
  join_steps g g1 g2 w u us a b = rw (a, b) refl

  -- The inner loop adds an edge from `w` to each of `us`.
  pub join_to_all_lem :
      (g : Graph P S) (w : ℕ) (us : List ℕ)
      → IsValid g
      → NoW g
      → vertex_type g w ≡ some VType.z
      → AllZ g us
      → contains us w ≡ false
      → Distinct us
      → (g' : Graph P S) × (join_to_all g w us ≡ some g')
        × Linked g (λ a b. (a == w && contains us b) || (b == w && contains us a)) g'
  join_to_all_lem g w [] valid n zw zs out d = (
    g,
    unfold join_to_all in refl,
    record { valid = valid; edges = λ a b. ground arith; types = λ v. refl },
  )
  join_to_all_lem g w (u ∷ us) valid n zw zs out d =
      let ne : w ≢ u = λ h. ground (arith, out, h) in
      let (g1, first, l1) = link_lem g w u valid n ne zw zs.0 in
      let (g2, rest, l2) =
        join_to_all_lem g1 w us l1.valid (NoW-Linked g g1 _ n l1) (l1.types w ∙ zw)
          (AllZ-Linked g g1 _ us l1 zs.1) (ground (arith, out)) d.1 in
      (
        g2,
        join_steps g g1 g2 w u us first rest,
        Linked-trans g g1 g2 _ _ _ l1 l2 (λ a b. either a b (contains us a) (contains us b))
            (λ a b. apart a b),
      )
    where
      either :
          (a b : ℕ) (ca cb : Bool)
          → ((a == w && (u == b || cb)) || (b == w && (u == a || ca)))
            ≡ (((a == w && b == u) || (a == u && b == w)) || ((a == w && cb) || (b == w && ca)))
      either a b ca cb = ground arith

      apart :
          (a b : ℕ)
          → (((a == w && b == u) || (a == u && b == w))
              && ((a == w && contains us b) || (b == w && contains us a)))
            ≡ false
      apart a b =
          separate (a == w) (b == u) (a == u) (b == w) (contains us a) (contains us b)
            (not_in us u b d.0) (not_in us u a d.0) (not_both a) (not_both b)
        where
          not_both : (x : ℕ) → (x == w && x == u) ≡ false
          not_both x = ground (arith, out)

  complement_steps :
      (g g1 g2 g3 : Graph P S) (q : P) (w : ℕ) (ws : List ℕ)
      → add_to_phase g w (p.neg q) ≡ some g1
      → join_to_all g1 w ws ≡ some g2
      → complement g2 q ws ≡ some g3
      → complement g q (w ∷ ws) ≡ some g3
  unfolding complement
  complement_steps g g1 g2 g3 q w ws a b e = rw (a, b, e) refl

  -- A change of phase links nothing.
  phase_Linked :
      (g : Graph P S) (w : ℕ) (q : P) {ty : VType}
      → IsValid g
      → vertex_type g w ≡ some ty
      → (g' : Graph P S) × (add_to_phase g w q ≡ some g') × Linked g (λ a b. false) g'
  phase_Linked g w q valid zw =
      let (d, at_w, ty) = type_of g w zw in
      let (g', done, up) =
        update_data-Updated g w (λ d'. record d' { phase = p.normalize (p.add d'.phase q) }) valid
          at_w in
      (
        g',
        unfold add_to_phase in done,
        record {
          valid = up.valid;
          edges = λ a b. edge_type_opt_ext g g' a b up.same_edata;
          types = types_from g g' (λ v. ground (arith, up.data_of v, at_w));
        },
      )

  -- The two loops add an edge between each two of the vertices.
  pub complement_lem :
      (g : Graph P S) (q : P) (ws : List ℕ)
      → IsValid g
      → NoW g
      → AllZ g ws
      → Distinct ws
      → (g' : Graph P S) × (complement g q ws ≡ some g')
        × Linked g (λ a b. (contains ws a && contains ws b) && not (a == b)) g'
  complement_lem g q [] valid n zs d = (
    g,
    unfold complement in refl,
    record { valid = valid; edges = λ a b. ground arith; types = λ v. refl },
  )
  complement_lem g q (w ∷ ws) valid n zs d =
      let (g1, phased, l1) = phase_Linked g w (p.neg q) valid zs.0 in
      let (g2, joined, l2) =
        join_to_all_lem g1 w ws l1.valid (NoW-Linked g g1 _ n l1) (l1.types w ∙ zs.0)
          (AllZ-Linked g g1 _ ws l1 zs.1) d.0 d.1 in
      let l12 : Linked g (λ a b. (a == w && contains ws b) || (b == w && contains ws a)) g2 =
        Linked-trans g g1 g2 _ _ _ l1 l2 (λ a b. refl) (λ a b. refl) in
      let (g3, rest, l3) =
        complement_lem g2 q ws l2.valid (NoW-Linked g g2 _ n l12) (AllZ-Linked g g2 _ ws l12 zs.1)
          d.1 in
      (
        g3,
        complement_steps g g1 g2 g3 q w ws phased joined rest,
        Linked-trans g g2 g3 _ _ _ l12 l3 either apart,
      )
    where
      either :
          (a b : ℕ)
          → (((w == a || contains ws a) && (w == b || contains ws b)) && not (a == b)) ≡ (
              ((a == w && contains ws b) || (b == w && contains ws a))
              || ((contains ws a && contains ws b) && not (a == b)))
      either a b = ground (arith, not_in ws w a d.0, not_in ws w b d.0)

      apart :
          (a b : ℕ)
          → (((a == w && contains ws b) || (b == w && contains ws a))
              && ((contains ws a && contains ws b) && not (a == b)))
            ≡ false
      apart a b = ground (arith, not_in ws w a d.0, not_in ws w b d.0)
