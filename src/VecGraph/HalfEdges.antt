-- ===== src/VecGraph/HalfEdges.antt =====
-- quizx/src/vec_graph.rs: the two halves of an edge, which stand in two adjacency lists.
-- well-formed.
use quizx.Prelude.{
  ℕ, suc, ◌+◌, ◌≡◌, refl, true, ◌&&◌, ◌||◌, Option, none, some, List, arith, ◌==◌, if◌then◌else◌,
  slot, set, push, is_some, ◌≢◌, sym, ◌∙◌, tally-push, is_some-cases,
}
use quizx.Types.{EType}
use quizx.VecGraph.{
  Graph, Nhd, index, value, swap_remove, remove_half_edge, push_half_edge, edge_type_opt,
}
use quizx.VecGraph.Neighbors.{hit, hit_key, index_finds, swap_remove_lem}
use quizx.VecGraph.Valid.{
  IsValid, Drops, Drops-set, Drops-set_back, weigh, weigh-keys, edge_type_opt-pick,
}

module _ {P S : Type 0} where
  -- The edge relation of a well-formed graph is symmetric.
  pub edge_type_opt_sym :
      (g : Graph P S) (s t : ℕ) → IsValid g → edge_type_opt g s t ≡ edge_type_opt g t s
  edge_type_opt_sym g s t v = ground (
    arith,
    edge_type_opt-pick g s t (v.simple s t),
    edge_type_opt-pick g t s (v.simple t s),
    v.symmetric s t EType.n,
    v.symmetric s t EType.h,
    v.symmetric s t EType.wio,
  )

  pub edge_type_opt-some :
      (g : Graph P S) (s t : ℕ) {e : EType}
      → edge_type_opt g s t ≡ some e
      → (nhd : Nhd) × (slot g.edata s ≡ some nhd) × (value nhd t ≡ some e)
  unfolding edge_type_opt
  edge_type_opt-some g s t {e} = go (slot g.edata s)
    where
      go :
          (o : Option Nhd)
          → (elim o [ none ↦ none | some nhd ↦ value nhd t ]) ≡ some e
          → (nhd : Nhd) × (o ≡ some nhd) × (value nhd t ≡ some e)
      go none h = cc
      go (some nhd) h = (nhd, refl, h)

  -- An edge has two ends.
  pub edge_ne :
      (g : Graph P S) (s t : ℕ) {e : EType} → IsValid g → edge_type_opt g s t ≡ some e → s ≢ t
  edge_ne g s t v h same =
      ground (arith, edge_type_opt-pick g s t (v.simple s t), v.no_loop s, weigh-keys g.edata s s)

  pub remove_half_edge_found :
      (g : Graph P S) (s t : ℕ) {nhd rest : Nhd} {i : ℕ}
      → slot g.edata s ≡ some nhd
      → index nhd t ≡ some i
      → swap_remove nhd i ≡ some rest
      → remove_half_edge g s t ≡ some (record g { edata = set g.edata s (some rest) })
  unfolding remove_half_edge
  remove_half_edge_found g s t at_s idx removed = ground arith

  pub push_half_edge_found :
      (g : Graph P S) (s t : ℕ) (e : EType) {nhd : Nhd}
      → slot g.edata s ≡ some nhd
      → push_half_edge g s t e ≡ some (record g { edata = set g.edata s (some (push nhd (t, e))) })
  unfolding push_half_edge
  push_half_edge_found g s t e at_s = ground arith

  -- Removing a half edge that is there takes its entry away.
  pub remove_half_edge_lem :
      (g : Graph P S) (s t : ℕ) {e : EType}
      → edge_type_opt g s t ≡ some e
      → (ed : List (Option Nhd)) × (remove_half_edge g s t ≡ some (record g { edata = ed }))
        × Drops s (t, e) g.edata ed
  remove_half_edge_lem g s t h =
      let (nhd, at_s, val) = edge_type_opt-some g s t h in
      let (i, idx, elem) = index_finds nhd t val in
      let (rest, removed, less) = swap_remove_lem nhd i elem in
      (
        _,
        remove_half_edge_found g s t at_s idx removed,
        Drops-set g.edata s (t, _) nhd rest at_s less,
      )

  -- Pushing a half edge adds its entry.
  pub push_half_edge_lem :
      (g : Graph P S) (s t : ℕ) (e : EType)
      → is_some (slot g.edata s) ≡ true
      → (ed : List (Option Nhd)) × (push_half_edge g s t e ≡ some (record g { edata = ed }))
        × Drops s (t, e) ed g.edata
  push_half_edge_lem g s t e live =
      let (nhd, at_s) = is_some-cases (slot g.edata s) live in
      (
        _,
        push_half_edge_found g s t e at_s,
        Drops-set_back g.edata s (t, e) nhd (push nhd (t, e)) at_s
            (λ f. sym (tally-push f nhd (t, e))),
      )

  -- The first of two drops leaves the entries of the other end as they are.
  pub edge_type_opt-Drops_other :
      (g : Graph P S) (s t : ℕ) (e : EType) (ed : List (Option Nhd)) (k : ℕ)
      → IsValid g
      → s ≢ t
      → Drops s (t, e) g.edata ed
      → edge_type_opt (record g { nume = k; edata = ed }) t s ≡ edge_type_opt g t s
  edge_type_opt-Drops_other g s t e ed k v ne d = ground (
    arith,
    edge_type_opt-pick g t s (v.simple t s),
    edge_type_opt-pick (record g { nume = k; edata = ed }) t s,
    d.weight (hit s EType.n) t,
    d.weight (hit s EType.h) t,
    d.weight (hit s EType.wio) t,
    d.weight (hit_key s) t,
    v.simple t s,
  )

  -- With both halves of one edge gone the graph is still well-formed.
  pub unlink-IsValid :
      (g : Graph P S) (s t : ℕ) (e : EType) (ed ed' : List (Option Nhd)) (k : ℕ)
      → IsValid g
      → Drops s (t, e) g.edata ed
      → Drops t (s, e) ed ed'
      → g.nume ≡ suc k
      → IsValid (record g { nume = k; edata = ed' })
  unlink-IsValid g s t e ed ed' k v d d' count = record {
    same_length = omega (arith, v.same_length, d.same_length, d'.same_length);
    same_live = λ a. v.same_live a ∙ sym (d.same_live a) ∙ sym (d'.same_live a);
    symmetric = λ a b e'. ground (
      arith,
      v.symmetric a b e',
      d.weight (hit b e') a,
      d'.weight (hit b e') a,
      d.weight (hit a e') b,
      d'.weight (hit a e') b,
    );
    simple = λ a b. omega (arith, v.simple a b, d.weight (hit_key b) a, d'.weight (hit_key b) a);
    no_loop = λ a. omega (arith, v.no_loop a, d.weight (hit_key a) a, d'.weight (hit_key a) a);
    numv_counts = v.numv_counts;
    nume_counts = omega (arith, v.nume_counts, d.sum, d'.sum);
    holes_list = v.holes_list;
  }

  -- With both halves of a new edge in place the graph is still well-formed.
  pub link-IsValid :
      (g : Graph P S) (s t : ℕ) (e : EType) (ed ed' : List (Option Nhd))
      → IsValid g
      → s ≢ t
      → edge_type_opt g s t ≡ none
      → Drops s (t, e) ed g.edata
      → Drops t (s, e) ed' ed
      → IsValid (record g { nume = g.nume + 1; edata = ed' })
  link-IsValid g s t e ed ed' v ne absent d d' = record {
    same_length = omega (arith, v.same_length, d.same_length, d'.same_length);
    same_live = λ a. v.same_live a ∙ d.same_live a ∙ d'.same_live a;
    symmetric = λ a b e'. ground (
      arith,
      v.symmetric a b e',
      d.weight (hit b e') a,
      d'.weight (hit b e') a,
      d.weight (hit a e') b,
      d'.weight (hit a e') b,
    );
    simple = λ a b. ground (
      arith,
      v.simple a b,
      d.weight (hit_key b) a,
      d'.weight (hit_key b) a,
      no_edge,
      v.symmetric s t EType.n,
      v.symmetric s t EType.h,
      v.symmetric s t EType.wio,
      weigh-keys g.edata s t,
      weigh-keys g.edata t s,
    );
    no_loop = λ a. ground (arith, v.no_loop a, d.weight (hit_key a) a, d'.weight (hit_key a) a);
    numv_counts = v.numv_counts;
    nume_counts = omega (arith, v.nume_counts, d.sum, d'.sum);
    holes_list = v.holes_list;
  }
    where
      no_edge : weigh (hit_key t) g.edata s ≡ 0
      no_edge = ground (arith, edge_type_opt-pick g s t (v.simple s t), weigh-keys g.edata s t)

  -- The edges that are left.
  pub unlink_edges :
      (g : Graph P S) (s t : ℕ) {e : EType} (ed ed' : List (Option Nhd)) (k a b : ℕ)
      → IsValid g
      → edge_type_opt g s t ≡ some e
      → Drops s (t, e) g.edata ed
      → Drops t (s, e) ed ed'
      → edge_type_opt (record g { nume = k; edata = ed' }) a b
        ≡ (if (a == s && b == t) || (a == t && b == s) then none else edge_type_opt g a b)
  unlink_edges g s t {e} ed ed' k a b v h d d' = ground (
    arith,
    edge_type_opt-pick (record g { nume = k; edata = ed' }) a b,
    edge_type_opt-pick g a b (v.simple a b),
    edge_ne g s t v h,
    d.weight (hit b EType.n) a,
    d.weight (hit b EType.h) a,
    d.weight (hit b EType.wio) a,
    d'.weight (hit b EType.n) a,
    d'.weight (hit b EType.h) a,
    d'.weight (hit b EType.wio) a,
    d.weight (hit_key b) a,
    d'.weight (hit_key b) a,
    weigh-keys g.edata a b,
    v.simple a b,
  )

  -- The edges with the new one.
  pub link_edges :
      (g : Graph P S) (s t : ℕ) (e : EType) (ed ed' : List (Option Nhd)) (a b : ℕ)
      → IsValid g
      → IsValid (record g { nume = g.nume + 1; edata = ed' })
      → s ≢ t
      → edge_type_opt g s t ≡ none
      → Drops s (t, e) ed g.edata
      → Drops t (s, e) ed' ed
      → edge_type_opt (record g { nume = g.nume + 1; edata = ed' }) a b
        ≡ (if (a == s && b == t) || (a == t && b == s) then some e else edge_type_opt g a b)
  link_edges g s t e ed ed' a b v v' ne h d d' = ground (
    arith,
    edge_type_opt-pick (record g { nume = g.nume + 1; edata = ed' }) a b (v'.simple a b),
    edge_type_opt-pick g a b (v.simple a b),
    edge_type_opt_sym g s t v,
    d.weight (hit b EType.n) a,
    d.weight (hit b EType.h) a,
    d.weight (hit b EType.wio) a,
    d'.weight (hit b EType.n) a,
    d'.weight (hit b EType.h) a,
    d'.weight (hit b EType.wio) a,
  )
