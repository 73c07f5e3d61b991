-- ===== src/VecGraph/Edges.antt =====
-- `add_edge_with_type` and `remove_edge`: what they do to the edges, and that they keep the graph
-- well-formed.
use quizx.Prelude.{
  ℕ, suc, ◌+◌, ◌-◌, ◌≡◌, refl, true, ◌&&◌, ◌||◌, Option, none, some, List, arith, ◌==◌,
  if◌then◌else◌, slot, is_some, ◌≢◌, sym, ◌∙◌,
}
use quizx.Types.{EType}
use quizx.VecGraph.{
  Graph, Nhd, remove_half_edge, push_half_edge, add_edge_with_type, remove_edge, edge_type_opt,
}
use quizx.VecGraph.Valid.{IsValid, Drops}
use quizx.VecGraph.HalfEdges.{
  edge_type_opt_sym, edge_ne, remove_half_edge_lem, push_half_edge_lem, edge_type_opt-Drops_other,
  unlink-IsValid, link-IsValid, unlink_edges, link_edges,
}

module _ {P S : Type 0} where
  remove_edge_steps :
      (g g1 g2 : Graph P S) (s t k : ℕ)
      → g.nume ≡ suc k
      → remove_half_edge (record g { nume = k }) s t ≡ some g1
      → remove_half_edge g1 t s ≡ some g2
      → remove_edge g s t ≡ some g2
  unfolding remove_edge
  remove_edge_steps g g1 g2 s t k count first second = ground arith

  pub edge_type_opt_ext :
      (g g' : Graph P S) (s t : ℕ) → g'.edata ≡ g.edata → edge_type_opt g' s t ≡ edge_type_opt g s t
  unfolding edge_type_opt
  edge_type_opt_ext g g' s t h = rw h refl

  nume_pos :
      (g : Graph P S) (s t : ℕ) {e : EType}
      → IsValid g
      → edge_type_opt g s t ≡ some e
      → (k : ℕ) × (g.nume ≡ suc k)
  nume_pos g s t v h =
      let (ed, step, d) = remove_half_edge_lem g s t h in
      (g.nume - 1, omega (arith, v.nume_counts, d.sum))

  -- The tables after a removal: one entry less in the list of either end.
  pub remove_edge_tables :
      (g : Graph P S) (s t : ℕ) {e : EType}
      → IsValid g
      → edge_type_opt g s t ≡ some e
      → (k : ℕ) × (ed ed' : List (Option Nhd)) × (remove_edge g s t
          ≡ some (record g { nume = k; edata = ed' }))
        × (g.nume ≡ suc k)
        × Drops s (t, e) g.edata ed
        × Drops t (s, e) ed ed'
  remove_edge_tables g s t {e} v h =
      let (k, count) = nume_pos g s t v h in
      let g0 : Graph P S = record g { nume = k } in
      let (ed, first, d) = remove_half_edge_lem g0 s t (edge_type_opt_ext g g0 s t refl ∙ h) in
      let g1 : Graph P S = record g { nume = k; edata = ed } in
      let back : edge_type_opt g1 t s ≡ some e =
        edge_type_opt-Drops_other g s t e ed k v (edge_ne g s t v h) d
        ∙ sym (edge_type_opt_sym g s t v)
        ∙ h in
      let (ed', second, d') = remove_half_edge_lem g1 t s back in
      let g2 : Graph P S = record g { nume = k; edata = ed' } in
      (k, ed, ed', remove_edge_steps g g1 g2 s t k count first second, count, d, d')

  -- Removing an edge of a well-formed graph succeeds, keeps the graph well-formed, and takes away
  -- that edge and no other; the vertices stay as they are.
  pub remove_edge_lem :
      (g : Graph P S) (s t : ℕ) {e : EType}
      → IsValid g
      → edge_type_opt g s t ≡ some e
      → (g' : Graph P S) × (remove_edge g s t ≡ some g')
        × IsValid g'
        × ((a b : ℕ)
            → edge_type_opt g' a b
              ≡ (if (a == s && b == t) || (a == t && b == s) then none else edge_type_opt g a b))
        × (g'.vdata ≡ g.vdata)
  remove_edge_lem g s t v h =
      let (k, ed, ed', run, count, d, d') = remove_edge_tables g s t v h in
      (
        record g { nume = k; edata = ed' },
        run,
        unlink-IsValid g s t _ ed ed' k v d d' count,
        λ a b. unlink_edges g s t ed ed' k a b v h d d',
        refl,
      )

  add_edge_steps :
      (g g1 g2 : Graph P S) (s t : ℕ) (e : EType)
      → push_half_edge (record g { nume = g.nume + 1 }) s t e ≡ some g1
      → push_half_edge g1 t s e ≡ some g2
      → add_edge_with_type g s t e ≡ some g2
  unfolding add_edge_with_type
  add_edge_steps g g1 g2 s t e first second = ground arith

  -- The tables after an edge was added: one entry more in the list of either end.
  pub add_edge_tables :
      (g : Graph P S) (s t : ℕ) (e : EType)
      → IsValid g
      → is_some (slot g.vdata s) ≡ true
      → is_some (slot g.vdata t) ≡ true
      → (ed ed' : List (Option Nhd)) × (add_edge_with_type g s t e
          ≡ some (record g { nume = g.nume + 1; edata = ed' }))
        × Drops s (t, e) ed g.edata
        × Drops t (s, e) ed' ed
  add_edge_tables g s t e v live_s live_t =
      let g0 : Graph P S = record g { nume = g.nume + 1 } in
      let (ed, first, d) = push_half_edge_lem g0 s t e (sym (v.same_live s) ∙ live_s) in
      let g1 : Graph P S = record g { nume = g.nume + 1; edata = ed } in
      let (ed', second, d') =
        push_half_edge_lem g1 t s e (sym (d.same_live t) ∙ sym (v.same_live t) ∙ live_t) in
      let g2 : Graph P S = record g { nume = g.nume + 1; edata = ed' } in
      (ed, ed', add_edge_steps g g1 g2 s t e first second, d, d')

  -- Adding an edge between two distinct vertices that are not yet joined succeeds, keeps the graph
  -- well-formed, and adds that edge, in both directions, and no other.
  pub add_edge_with_type_lem :
      (g : Graph P S) (s t : ℕ) (e : EType)
      → IsValid g
      → s ≢ t
      → is_some (slot g.vdata s) ≡ true
      → is_some (slot g.vdata t) ≡ true
      → edge_type_opt g s t ≡ none
      → (g' : Graph P S) × (add_edge_with_type g s t e ≡ some g')
        × IsValid g'
        × ((a b : ℕ)
            → edge_type_opt g' a b
              ≡ (if (a == s && b == t) || (a == t && b == s) then some e else edge_type_opt g a b))
        × (g'.vdata ≡ g.vdata)
  add_edge_with_type_lem g s t e v ne live_s live_t h =
      let (ed, ed', run, d, d') = add_edge_tables g s t e v live_s live_t in
      let g2 : Graph P S = record g { nume = g.nume + 1; edata = ed' } in
      let valid : IsValid g2 = link-IsValid g s t e ed ed' v ne h d d' in
      (g2, run, valid, λ a b. link_edges g s t e ed ed' a b v valid ne h d d', refl)
