-- ===== src/Rules/LocalComp.antt =====
-- quizx/src/basic_rules.rs: what `local_comp` does where its check holds.
use quizx.Prelude.{
  ℕ, ◌≡◌, refl, Bool, true, false, ◌&&◌, ◌||◌, not, Option, none, some, List, [], ◌∷◌, map, slot,
  is_some, ◌>>=◌, ◌==◌, if◌then◌else◌, arith, ap, sym, ◌∙◌, length,
}
use quizx.Prelude.Int.{ℤ, pos, div_trunc}
use quizx.Types.{VType, EType, vtype_eq, etype_eq}
use quizx.Interface.{PhaseOps, ScalarOps}
use quizx.VecGraph.{
  Graph, VData, Nhd, edge_type_opt, vertex_type, vertex_data, phase, incident_edges, remove_vertex,
}
use quizx.VecGraph.Valid.{IsValid, weigh-keys, edge_type_opt-pick}
use quizx.VecGraph.Removal.{Removed, remove_vertex-Removed}
use quizx.VecGraph.Edges.{edge_type_opt_ext}
use quizx.GraphLike.{neighbor_vec}
use quizx.GraphLike.Parallel.{rescaled-IsValid}
use quizx.Rules.Checked.{contains, checked, all_h_to_z, all_opt, as_i32, sub_i32, mul_i32}
use quizx.Rules.Pivot.{check_local_comp, complement, local_comp_unchecked, local_comp}
use quizx.Rules.Linked.{Distinct, contains-keys, Distinct-keys, with_h, NoW, AllZ, Linked}
use quizx.Rules.Links.{complement_lem}

-- The edges after a local complementation at `v`: none at `v`, and one more Hadamard edge between each
-- two neighbours of `v`.
abbrev pub complemented : {P S : Type 0} → Graph P S → ℕ → ℕ → ℕ → Option EType
complemented g v a b =
    if a == v || b == v
    then none
    else if (is_some (edge_type_opt g v a) && is_some (edge_type_opt g v b)) && not (a == b)
    then with_h (edge_type_opt g a b)
    else edge_type_opt g a b

abbrev comp_power : ℕ → ℤ
comp_power n = div_trunc (mul_i32 (sub_i32 (as_i32 n) (pos 1)) (sub_i32 (as_i32 n) (pos 2))) 2

all_opt-cons :
    {A : Type 0} (f : A → Option Bool) (x : A) (xs : List A)
    → all_opt f (x ∷ xs) ≡ some true
    → (f x ≡ some true) × (all_opt f xs ≡ some true)
unfolding all_opt
all_opt-cons {A} f x xs = go (f x)
  where
    go :
        (o : Option Bool)
        → (o >>= (λ b. if b then all_opt f xs else some false)) ≡ some true
        → (o ≡ some true) × (all_opt f xs ≡ some true)
    go none h = absurd (ground arith)
    go (some true) h = (refl, h)
    go (some false) h = absurd (ground arith)

module _ {P S : Type 0} where
  pub live_type : (g : Graph P S) (v : ℕ) → is_some (vertex_type g v) ≡ is_some (slot g.vdata v)
  unfolding vertex_type vertex_data
  live_type g v = ground arith

  -- The list of neighbours is the set of vertices that an edge joins to `v`.
  pub neighbors_lem :
      (g : Graph P S) (v : ℕ) (nhd : Nhd)
      → IsValid g
      → slot g.edata v ≡ some nhd
      → Distinct (map (λ x. x.0) nhd)
        × ((w : ℕ) → contains (map (λ x. x.0) nhd) w ≡ is_some (edge_type_opt g v w))
  neighbors_lem g v nhd valid at_v = (
    Distinct-keys nhd (λ t. ground (arith, valid.simple v t, at_v)),
    λ w.
        contains-keys w nhd
        ∙ ground (
          arith,
          edge_type_opt-pick g v w (valid.simple v w),
          weigh-keys g.edata v w,
          at_v,
          valid.simple v w,
        ),
  )

  -- The test of the check on each neighbour.
  AllZ-all_opt :
      (g : Graph P S) (nhd : Nhd)
      → all_opt
          (λ x. do t ← vertex_type g x.0; some (vtype_eq t VType.z && etype_eq x.1 EType.h))
          nhd
        ≡ some true
      → AllZ g (map (λ x. x.0) nhd)
  AllZ-all_opt g [] h = tt
  AllZ-all_opt g ((w, e) ∷ nhd) h =
      let (first, rest) = all_opt-cons _ (w, e) nhd h in
      (green (vertex_type g w) e first, AllZ-all_opt g nhd rest)
    where
      green :
          (o : Option VType) (e' : EType)
          → (o >>= (λ t. some (vtype_eq t VType.z && etype_eq e' EType.h))) ≡ some true
          → o ≡ some VType.z
      green none e' k = absurd (ground arith)
      green (some ty) e' k = ground (arith, k)

  check_lem :
      (g : Graph P S) (v : ℕ)
      → all_h_to_z g v ≡ some true
      → (nhd : Nhd) × (slot g.edata v ≡ some nhd) × AllZ g (map (λ x. x.0) nhd)
  unfolding all_h_to_z incident_edges
  check_lem g v h = go (slot g.edata v) refl
    where
      go :
          (o : Option Nhd)
          → slot g.edata v ≡ o
          → (nhd : Nhd) × (slot g.edata v ≡ some nhd) × AllZ g (map (λ x. x.0) nhd)
      go none at_v = absurd (ground (arith, h, at_v))
      go (some nhd) at_v = (nhd, at_v, AllZ-all_opt g nhd (sym (rw at_v refl) ∙ h))

module _ {P S : Type 0} ⦃p : PhaseOps P⦄ ⦃c : ScalarOps P S⦄ where
  check_steps :
      (g : Graph P S) (v : ℕ)
      → check_local_comp g v ≡ some true
      → (q : P) × (phase g v ≡ some q)
        × (all_h_to_z g v ≡ some true)
        × (is_some (slot g.vdata v) ≡ true)
  unfolding check_local_comp vertex_type vertex_data phase
  check_steps g v h = go (slot g.vdata v) refl
    where
      go :
          (o : Option (VData P))
          → slot g.vdata v ≡ o
          → (q : P) × (phase g v ≡ some q)
            × (all_h_to_z g v ≡ some true)
            × (is_some (slot g.vdata v) ≡ true)
      go none at_v = absurd (ground (arith, h, at_v))
      go (some d) at_v =
          (d.phase, ground (arith, at_v), ground (arith, h, at_v), ground (arith, at_v))

  -- What a local complementation leaves.
  pub record Complemented (g : Graph P S) (v : ℕ) (g' : Graph P S) : Type 0 where
    pub valid : IsValid g'
    pub edges : (a b : ℕ) → edge_type_opt g' a b ≡ complemented g v a b
    pub types : (w : ℕ) → vertex_type g' w ≡ (if v == w then none else vertex_type g w)

  types_removed :
      (g g' : Graph P S) (v : ℕ)
      → ((w : ℕ) → slot g'.vdata w ≡ (if v == w then none else slot g.vdata w))
      → (w : ℕ) → vertex_type g' w ≡ (if v == w then none else vertex_type g w)
  unfolding vertex_type vertex_data
  types_removed g g' v data_of w = ground (arith, data_of w)

  unchecked_steps :
      (g g1 g2 : Graph P S) (v : ℕ) (q : P) (nhd : Nhd)
      → phase g v ≡ some q
      → slot g.edata v ≡ some nhd
      → complement g q (map (λ x. x.0) nhd) ≡ some g1
      → remove_vertex g1 v ≡ some g2
      → (r : S) × (local_comp_unchecked g v ≡ some (record g2 { scalar = r }))
  unfolding local_comp_unchecked neighbor_vec incident_edges
  unchecked_steps g g1 g2 v q nhd a b d e = (
    c.mul (c.mul g2.scalar (c.sqrt2_pow (comp_power (length (map (λ x. x.0) nhd)))))
        (c.from_phase (p.ratio (p.numer q) 4)),
    rw (a, b, d, e) refl,
  )

  local_comp_steps :
      (g g' : Graph P S) (v : ℕ)
      → check_local_comp g v ≡ some true
      → local_comp_unchecked g v ≡ some g'
      → local_comp g v ≡ some (g', true)
  unfolding local_comp checked
  local_comp_steps g g' v a b = rw (a, b) refl

  pub local_comp_unchecked_lem :
      (g : Graph P S) (v : ℕ)
      → IsValid g
      → NoW g
      → check_local_comp g v ≡ some true
      → (g' : Graph P S) × (local_comp_unchecked g v ≡ some g') × Complemented g v g'
  local_comp_unchecked_lem g v valid n check =
      let (q, at_phase, h, live) = check_steps g v check in
      let (nhd, at_v, zs) = check_lem g v h in
      let (distinct, members) = neighbors_lem g v nhd valid at_v in
      let (g1, linked, l) = complement_lem g q (map (λ x. x.0) nhd) valid n zs distinct in
      let (g2, removed, r) =
        remove_vertex-Removed g1 v l.valid
          (sym (live_type g1 v) ∙ ap is_some (l.types v) ∙ live_type g v ∙ live) in
      let (s, done) = unchecked_steps g g1 g2 v q nhd at_phase at_v linked removed in
      (
        record g2 { scalar = s },
        done,
        finish g g1 g2 v s (contains (map (λ x. x.0) nhd)) members l r,
      )
    where
      finish :
          (g g1 g2 : Graph P S) (v : ℕ) (s : S) (m : ℕ → Bool)
          → ((w : ℕ) → m w ≡ is_some (edge_type_opt g v w))
          → Linked g (λ a b. (m a && m b) && not (a == b)) g1
          → Removed g1 v g2
          → Complemented g v (record g2 { scalar = s })
      finish g g1 g2 v s m members l r = record {
        valid = rescaled-IsValid g2 s r.valid;
        edges = λ a b.
            edge_type_opt_ext g2 _ a b refl
            ∙ r.edges a b
            ∙ ground (arith, l.edges a b, members a, members b);
        types = λ w.
            ground (arith, types_removed g1 (record g2 { scalar = s }) v r.data_of w, l.types w);
      }

  -- On a well-formed diagram without W edges, where the check of `local_comp` holds, the rule does not panic
  -- and answers true. The diagram stays well-formed, the vertex is gone and no other vertex changes its type;
  -- each two of its neighbours get one more Hadamard edge, added up as `add_edge_smart` does, and all
  -- other edges are as before.
  pub local_comp_lem :
      (g : Graph P S) (v : ℕ)
      → IsValid g
      → NoW g
      → check_local_comp g v ≡ some true
      → (g' : Graph P S) × (local_comp g v ≡ some (g', true)) × Complemented g v g'
  local_comp_lem g v valid n check =
      let (g', done, left) = local_comp_unchecked_lem g v valid n check in
      (g', local_comp_steps g g' v check done, left)
