-- ===== src/VecGraph/Fields.antt =====
-- The writers of one vertex's data (`set_phase`, `set_vertex_type`, `set_row` and so on, all through
-- `update_data`) and of one edge's type.
use quizx.Prelude.{
  ℕ, ◌+◌, ◌≡◌, refl, false, ◌&&◌, ◌||◌, Option, some, List, arith, ◌==◌, if◌then◌else◌, slot, set,
  one_if_some, is_some, sym, ◌∙◌, length-set, slot-set, slot-lt, tally-slot_write, tally-set,
  length, get_elem?,
}
use quizx.Types.{EType, etype_eq}
use quizx.VecGraph.{
  Graph, VData, Nhd, update_data, set_half_edge, set_edge_type, edge_type_opt, index,
}
use quizx.VecGraph.Neighbors.{hit, hit_key, index_finds}
use quizx.VecGraph.Valid.{
  IsValid, weigh, weigh_slot, degree_sum, one_each, edge_type_opt-pick, weigh-keys,
}
use quizx.VecGraph.HalfEdges.{edge_type_opt-some, edge_type_opt_sym, edge_ne}

module _ {P S : Type 0} where
  -- What `update_data` promises: one vertex's data changes, and the edges do not.
  pub record Updated (g : Graph P S) (v : ℕ) (d : VData P) (g' : Graph P S) : Type 0 where
    pub valid : IsValid g'
    pub data_of : (w : ℕ) → slot g'.vdata w ≡ (if v == w then some d else slot g.vdata w)
    pub same_edata : g'.edata ≡ g.edata
    pub same_numv : g'.numv ≡ g.numv
    pub same_nume : g'.nume ≡ g.nume
    pub same_inputs : g'.inputs ≡ g.inputs
    pub same_outputs : g'.outputs ≡ g.outputs
    pub same_scalar : g'.scalar ≡ g.scalar

  updated-IsValid :
      (g : Graph P S) (v : ℕ) (d d' : VData P)
      → IsValid g
      → slot g.vdata v ≡ some d
      → IsValid (record g { vdata = set g.vdata v (some d') })
  updated-IsValid g v d d' valid at_v = record {
    same_length = length-set g.vdata v (some d') ∙ valid.same_length;
    same_live = λ w.
        ground (arith, slot-set g.vdata v w (some d') (slot-lt g.vdata v at_v), valid.same_live w);
    symmetric = valid.symmetric;
    simple = valid.simple;
    no_loop = valid.no_loop;
    numv_counts = ground (
      arith,
      valid.numv_counts,
      tally-slot_write one_if_some g.vdata v (some d') (slot-lt g.vdata v at_v),
    );
    nume_counts = valid.nume_counts;
    holes_list = λ w. ground (
      arith,
      valid.holes_list w,
      slot-set g.vdata v w (some d') (slot-lt g.vdata v at_v),
      length-set g.vdata v (some d'),
    );
  }

  update_data_found :
      (g : Graph P S) (v : ℕ) (change : VData P → VData P) {d : VData P}
      → slot g.vdata v ≡ some d
      → update_data g v change ≡ some (record g { vdata = set g.vdata v (some (change d)) })
  unfolding update_data
  update_data_found g v change at_v = ground arith

  -- A writer of a vertex's data succeeds on a vertex of the graph, changes that vertex's data as it
  -- says, and leaves the other vertices, the edges and well-formedness alone.
  pub update_data-Updated :
      (g : Graph P S) (v : ℕ) (change : VData P → VData P) {d : VData P}
      → IsValid g
      → slot g.vdata v ≡ some d
      → (g' : Graph P S) × (update_data g v change ≡ some g') × Updated g v (change d) g'
  update_data-Updated g v change {d} valid at_v = (
    record g { vdata = set g.vdata v (some (change d)) },
    update_data_found g v change at_v,
    record {
      valid = updated-IsValid g v d (change d) valid at_v;
      data_of = λ w. slot-set g.vdata v w (some (change d)) (slot-lt g.vdata v at_v);
      same_edata = refl;
      same_numv = refl;
      same_nume = refl;
      same_inputs = refl;
      same_outputs = refl;
      same_scalar = refl;
    },
  )

-- Two tables that differ in one entry of the list of `s`: `y` in the place of `x`.
pub record Swaps (s : ℕ) (x y : ℕ × EType) (ed ed' : List (Option Nhd)) : Type 0 where
  pub same_length : length ed' ≡ length ed
  pub same_live : (v : ℕ) → is_some (slot ed' v) ≡ is_some (slot ed v)
  pub weight :
      (f : ℕ × EType → ℕ) (v : ℕ)
      → weigh f ed' v + (if s == v then f x else 0) ≡ weigh f ed v + (if s == v then f y else 0)
  pub sum : degree_sum ed' ≡ degree_sum ed

module _ {P S : Type 0} where
  set_half_edge_found :
      (g : Graph P S) (s t : ℕ) (e : EType) {nhd : Nhd} {i : ℕ}
      → slot g.edata s ≡ some nhd
      → index nhd t ≡ some i
      → set_half_edge g s t e ≡ some (record g { edata = set g.edata s (some (set nhd i (t, e))) })
  unfolding set_half_edge
  set_half_edge_found g s t e at_s idx = ground arith

  set_half_edge_lem :
      (g : Graph P S) (s t : ℕ) (e : EType) {e0 : EType}
      → edge_type_opt g s t ≡ some e0
      → (ed : List (Option Nhd)) × (set_half_edge g s t e ≡ some (record g { edata = ed }))
        × Swaps s (t, e0) (t, e) g.edata ed
  set_half_edge_lem g s t e {e0} h =
      let (nhd, at_s, val) = edge_type_opt-some g s t h in
      let (i, idx, elem) = index_finds nhd t val in
      (_, set_half_edge_found g s t e at_s idx, swaps nhd i at_s elem)
    where
      swaps :
          (nhd : Nhd) (i : ℕ)
          → slot g.edata s ≡ some nhd
          → get_elem? nhd i ≡ some (t, e0)
          → Swaps s (t, e0) (t, e) g.edata (set g.edata s (some (set nhd i (t, e))))
      swaps nhd i at_s elem = record {
        same_length = length-set g.edata s _;
        same_live = λ v.
            ground (arith, slot-set g.edata s v (some (set nhd i (t, e))) (slot-lt g.edata s at_s));
        weight = λ f v. ground (
          arith,
          slot-set g.edata s v (some (set nhd i (t, e))) (slot-lt g.edata s at_s),
          tally-set f nhd i (t, e) elem,
        );
        sum = ground (
          arith,
          tally-slot_write (weigh_slot one_each) g.edata s (some (set nhd i (t, e)))
              (slot-lt g.edata s at_s),
          tally-set one_each nhd i (t, e) elem,
        );
      }

  set_edge_type_steps :
      (g g1 g2 : Graph P S) (s t : ℕ) (e : EType)
      → set_half_edge g s t e ≡ some g1
      → set_half_edge g1 t s e ≡ some g2
      → set_edge_type g s t e ≡ some g2
  unfolding set_edge_type
  set_edge_type_steps g g1 g2 s t e first second = ground arith

  -- The counts of an edge that is there.
  pub edge_counts :
      (g : Graph P S) (s t : ℕ) {e : EType}
      → IsValid g
      → edge_type_opt g s t ≡ some e
      → (e' : EType) → weigh (hit t e') g.edata s ≡ (if etype_eq e e' then 1 else 0)
  edge_counts g s t v joined e' =
      ground (arith, edge_type_opt-pick g s t (v.simple s t), weigh-keys g.edata s t, v.simple s t)

  module _ (g : Graph P S) (s t : ℕ) (e e0 : EType) (valid : IsValid g)
      (joined : edge_type_opt g s t ≡ some e0) where
    pub other_end :
        (ed : List (Option Nhd))
        → Swaps s (t, e0) (t, e) g.edata ed
        → edge_type_opt (record g { edata = ed }) t s ≡ some e0
    other_end ed d = ground (
      arith,
      edge_type_opt-pick g t s (valid.simple t s),
      edge_type_opt-pick (record g { edata = ed }) t s,
      edge_type_opt_sym g s t valid,
      edge_ne g s t valid joined,
      d.weight (hit s EType.n) t,
      d.weight (hit s EType.h) t,
      d.weight (hit s EType.wio) t,
      d.weight (hit_key s) t,
      valid.simple t s,
    )

    module _ (ed ed' : List (Option Nhd)) (d : Swaps s (t, e0) (t, e) g.edata ed)
        (d' : Swaps t (s, e0) (s, e) ed ed') where
      pub retyped-IsValid : IsValid (record g { edata = ed' })
      retyped-IsValid = record {
        same_length = omega (arith, valid.same_length, d.same_length, d'.same_length);
        same_live = λ a. valid.same_live a ∙ sym (d.same_live a) ∙ sym (d'.same_live a);
        symmetric = λ a b e'. ground (
          arith,
          valid.symmetric a b e',
          d.weight (hit b e') a,
          d'.weight (hit b e') a,
          d.weight (hit a e') b,
          d'.weight (hit a e') b,
        );
        simple = λ a b.
            ground (arith, valid.simple a b, d.weight (hit_key b) a, d'.weight (hit_key b) a);
        no_loop =
            λ a. ground (arith, valid.no_loop a, d.weight (hit_key a) a, d'.weight (hit_key a) a);
        numv_counts = valid.numv_counts;
        nume_counts = omega (arith, valid.nume_counts, d.sum, d'.sum);
        holes_list = valid.holes_list;
      }

      counts_at_ends :
          (e' : EType)
          → (weigh (hit t e') ed' s ≡ (if etype_eq e e' then 1 else 0))
            × (weigh (hit s e') ed' t ≡ (if etype_eq e e' then 1 else 0))
      counts_at_ends e' = ground (
        arith,
        edge_counts g s t valid joined e',
        valid.symmetric s t e',
        edge_ne g s t valid joined,
        d.weight (hit t e') s,
        d'.weight (hit t e') s,
        d.weight (hit s e') t,
        d'.weight (hit s e') t,
      )

      counts_elsewhere :
          (a b : ℕ) (e' : EType)
          → ((a == s && b == t) || (a == t && b == s)) ≡ false
          → weigh (hit b e') ed' a ≡ weigh (hit b e') g.edata a
      counts_elsewhere a b e' other = ground (arith, d.weight (hit b e') a, d'.weight (hit b e') a)

      at_ends :
          (edge_type_opt (record g { edata = ed' }) s t ≡ some e)
          × (edge_type_opt (record g { edata = ed' }) t s ≡ some e)
      at_ends = ground (
        arith,
        edge_type_opt-pick (record g { edata = ed' }) s t (retyped-IsValid.simple s t),
        edge_type_opt-pick (record g { edata = ed' }) t s (retyped-IsValid.simple t s),
        counts_at_ends EType.n,
        counts_at_ends EType.h,
        counts_at_ends EType.wio,
      )

      elsewhere :
          (a b : ℕ)
          → ((a == s && b == t) || (a == t && b == s)) ≡ false
          → edge_type_opt (record g { edata = ed' }) a b ≡ edge_type_opt g a b
      elsewhere a b other =
          edge_type_opt-pick (record g { edata = ed' }) a b (retyped-IsValid.simple a b)
          ∙ rw
              (
                counts_elsewhere a b EType.n other,
                counts_elsewhere a b EType.h other,
                counts_elsewhere a b EType.wio other,
              )
              (sym (edge_type_opt-pick g a b (valid.simple a b)))

      retyped_edges :
          (a b : ℕ)
          → edge_type_opt (record g { edata = ed' }) a b
            ≡ (if (a == s && b == t) || (a == t && b == s) then some e else edge_type_opt g a b)
      retyped_edges a b = ground (arith, at_ends, elsewhere a b)

  -- The tables after a change of type: one entry changed in the list of either end.
  pub set_edge_tables :
      (g : Graph P S) (s t : ℕ) (e : EType) {e0 : EType}
      → IsValid g
      → edge_type_opt g s t ≡ some e0
      → (ed ed' : List (Option Nhd)) × (set_edge_type g s t e ≡ some (record g { edata = ed' }))
        × Swaps s (t, e0) (t, e) g.edata ed
        × Swaps t (s, e0) (s, e) ed ed'
  set_edge_tables g s t e {e0} valid joined =
      let (ed, first, d) = set_half_edge_lem g s t e joined in
      let g1 : Graph P S = record g { edata = ed } in
      let (ed', second, d') = set_half_edge_lem g1 t s e (other_end g s t e e0 valid joined ed d) in
      let g2 : Graph P S = record g { edata = ed' } in
      (ed, ed', set_edge_type_steps g g1 g2 s t e first second, d, d')

  -- `set_edge_type` on an edge of a well-formed graph succeeds and changes the type of that edge, in
  -- both directions, and nothing else.
  pub set_edge_type_lem :
      (g : Graph P S) (s t : ℕ) (e : EType) {e0 : EType}
      → IsValid g
      → edge_type_opt g s t ≡ some e0
      → (g' : Graph P S) × (set_edge_type g s t e ≡ some g')
        × IsValid g'
        × ((a b : ℕ)
            → edge_type_opt g' a b
              ≡ (if (a == s && b == t) || (a == t && b == s) then some e else edge_type_opt g a b))
        × (g'.vdata ≡ g.vdata)
  set_edge_type_lem g s t e {e0} valid joined =
      let (ed, ed', run, d, d') = set_edge_tables g s t e valid joined in
      (
        record g { edata = ed' },
        run,
        retyped-IsValid g s t e e0 valid joined ed ed' d d',
        retyped_edges g s t e e0 valid joined ed ed' d d',
        refl,
      )
