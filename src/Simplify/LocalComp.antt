-- ===== src/Simplify/LocalComp.antt =====
-- quizx/src/simplify.rs: `local_comp_simp` ends on every diagram without W edges.
use quizx.Prelude.{
  ℕ, ◌≤◌, ◌<◌, ◌≡◌, ◌≢◌, refl, Bool, true, false, ◌&&◌, not, Option, some, List, [], ◌∷◌, map, slot,
  is_some, ◌>>=◌, ◌==◌, if◌then◌else◌, arith, ap, sym, ◌∙◌, is_some-cases,
}
use quizx.Types.{VType, EType, vtype_eq, etype_eq}
use quizx.Interface.{PhaseOps, ScalarOps}
use quizx.VecGraph.{Graph, Nhd, edge_type_opt, vertex_type, vertex_data, phase, incident_edges}
use quizx.VecGraph.Valid.{IsValid}
use quizx.Rules.Checked.{contains, all_h_to_z, all_opt}
use quizx.Rules.Pivot.{check_local_comp, local_comp_unchecked}
use quizx.Rules.Linked.{NoW}
use quizx.Rules.LocalComp.{neighbors_lem, Complemented, local_comp_unchecked_lem, live_type}
use quizx.Rules.Fusion.{neighbor_live}
use quizx.Simplify.{finished, local_comp_simp}
use quizx.Simplify.Rounds.{live, Reduces, vertex_simp_lem}
use quizx.Simplify.Count.{count_less}

all_opt_join :
    {A : Type 0} (f : A → Option Bool) (x : A) (xs : List A) {a b : Bool}
    → f x ≡ some a
    → all_opt f xs ≡ some b
    → (r : Bool) × (all_opt f (x ∷ xs) ≡ some r)
unfolding all_opt
all_opt_join f x xs {a} {b} h k = ((if a then b else false), rw (h, k) (pushed a b))
  where
    pushed : (u w : Bool) → (if u then some w else some false) ≡ some (if u then w else false)
    pushed true w = refl
    pushed false w = refl

branches :
    (u w b : Bool)
    → (if u then some false else if w then some b else some false)
      ≡ some (if u then false else if w then b else false)
branches u w b = ground arith

module _ {P S : Type 0} where
  -- A well-formed diagram without W edges.
  pub record Plain (g : Graph P S) : Type 0 where
    pub valid : IsValid g
    pub plain : NoW g

  -- The test on the neighbours does not panic where they are there.
  all_opt-total :
      (g : Graph P S) (nhd : Nhd)
      → ((w : ℕ) → contains (map (λ x. x.0) nhd) w ≡ true → live g w ≡ true)
      → (b : Bool) × (all_opt
            (λ x. do t ← vertex_type g x.0; some (vtype_eq t VType.z && etype_eq x.1 EType.h))
            nhd
          ≡ some b)
  all_opt-total g [] alive = (true, unfold all_opt in refl)
  all_opt-total g ((w, e) ∷ nhd) alive =
      let (ty, at_w) = is_some-cases (vertex_type g w) (live_type g w ∙ alive w (ground arith)) in
      let (c', rest) = all_opt-total g nhd (λ u h. alive u (ground (arith, h))) in
      all_opt_join _ (w, e) nhd {a = vtype_eq ty VType.z && etype_eq e EType.h} (rw at_w refl) rest

  all_h-total :
      (g : Graph P S) (v : ℕ) → IsValid g → live g v ≡ true → (b : Bool) × (all_h_to_z g v ≡ some b)
  unfolding all_h_to_z incident_edges
  all_h-total g v valid h =
      let (nhd, at_v) = is_some-cases (slot g.edata v) (sym (valid.same_live v) ∙ h) in
      let (distinct, members) = neighbors_lem g v nhd valid at_v in
      let (b, tested) = all_opt-total g nhd (λ w k.
        let (e, joined) = is_some-cases (edge_type_opt g v w) (sym (members w) ∙ k) in
        neighbor_live g v w valid joined) in
      (b, rw at_v tested)

module _ {P S : Type 0} ⦃p : PhaseOps P⦄ ⦃c : ScalarOps P S⦄ where
  check-total :
      (g : Graph P S) (v : ℕ)
      → Plain g
      → live g v ≡ true
      → (b : Bool) × (check_local_comp g v ≡ some b)
  unfolding check_local_comp vertex_type vertex_data phase
  check-total g v i h =
      let (d, at_v) = is_some-cases (slot g.vdata v) h in
      let (b, tested) = all_h-total g v i.valid h in
      (
        (if not (vtype_eq d.ty VType.z)
            then false
            else if p.is_proper_clifford d.phase
            then b
            else false),
        rw (at_v, tested) (branches (not (vtype_eq d.ty VType.z)) (p.is_proper_clifford d.phase) b),
      )

  -- The diagram after the rule is still without W edges, and has fewer vertices.
  after_rule :
      (g g' : Graph P S) (v : ℕ)
      → Plain g
      → live g v ≡ true
      → Complemented g v g'
      → Plain g'
        × (g'.numv < g.numv)
        × ((w : ℕ) → (v == w) ≡ false → live g w ≡ true → live g' w ≡ true)
  after_rule g g' v i h left = (
    record { valid = left.valid; plain = record { no_w = no_w } },
    omega
        (arith, count_less g.vdata g'.vdata v h alive, i.valid.numv_counts, left.valid.numv_counts),
    λ w other k. ground (arith, alive w, other, k),
  )
    where
      alive :
          (w : ℕ) → is_some (slot g'.vdata w) ≡ (if v == w then false else is_some (slot g.vdata w))
      alive w = sym (live_type g' w) ∙ ap is_some (left.types w) ∙ ground (arith, live_type g w)

      no_w : (a b : ℕ) → edge_type_opt g' a b ≢ some EType.wio
      no_w a b k = ground (arith, left.edges a b, k, i.plain.no_w a b)

  local_comp-Reduces : Reduces (Plain {P = P} {S = S}) check_local_comp local_comp_unchecked
  local_comp-Reduces = record {
    total = check-total;
    step = λ g v i h k.
        let (g', done, left) = local_comp_unchecked_lem g v i.valid i.plain k in
        let (i', less, others) = after_rule g g' v i h left in (g', done, i', less, others);
  }

  -- On a well-formed diagram without W edges, `local_comp_simp` with more rounds of fuel than there are
  -- vertices ends without a panic. The diagram is well-formed and without W edges then, has no more
  -- vertices than before, and the check of the rule fails at each of its vertices.
  pub local_comp_simp_lem :
      (n : ℕ) (g : Graph P S)
      → IsValid g
      → NoW g
      → g.numv < n
      → (g' : Graph P S) × (m : Bool) × (local_comp_simp n g ≡ finished g' m)
        × Plain g'
        × (g'.numv ≤ g.numv)
        × ((v : ℕ) → live g' v ≡ true → check_local_comp g' v ≡ some false)
  unfolding local_comp_simp
  local_comp_simp_lem n g valid plain fuel =
      vertex_simp_lem Plain check_local_comp local_comp_unchecked local_comp-Reduces n g false
        (record { valid = valid; plain = plain }) fuel
