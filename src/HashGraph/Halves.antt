-- ===== src/HashGraph/Halves.antt =====
-- `add_edge_with_type`, `remove_edge` and `set_edge_type` of quizx/src/hash_graph.rs do what those of
-- quizx/src/vec_graph.rs do.
use quizx.Prelude.{
  ℕ, suc, ◌+◌, ◌≤◌, ◌≡◌, ◌≢◌, refl, sym, ◌∙◌, true, Option, none, some, List, arith, slot, is_some,
  is_some-cases,
}
use quizx.Types.{EType}
use quizx.VecGraph
use quizx.VecGraph.{Graph, Nhd, value}
use quizx.VecGraph.Neighbors.{hit, hit_key}
use quizx.VecGraph.Valid.{IsValid, Drops, weigh, edge_type_opt-pick}
use quizx.VecGraph.HalfEdges.{
  edge_type_opt_sym, edge_type_opt-some, edge_ne, edge_type_opt-Drops_other, unlink-IsValid,
  link-IsValid,
}
use quizx.VecGraph.Edges.{remove_edge_tables, add_edge_tables}
use quizx.VecGraph.Fields.{set_edge_tables, other_end, retyped-IsValid}
use quizx.HashGraph
use quizx.HashGraph.{HashGraph, find, insert, remove}
use quizx.HashGraph.Tables.{find-value}
use quizx.HashGraph.Simulates.{
  SameEdges, Simulates, find_type, SameEdges-remove, SameEdges-insert, SameEdges-swap,
}

-- What an operation owes: both graphs take the step, and what they hold is the same again.
abbrev pub BothStep : {P S : Type 0} → Option (Graph P S) → Option (HashGraph P S) → Type 0
BothStep {P} {S} a b =
    (g' : Graph P S) × (h' : HashGraph P S) × (a ≡ some g')
    × (b ≡ some h')
    × IsValid g'
    × Simulates g' h'

-- A list that one graph has, the other has too.
pub find_list :
    {ed : List (Option Nhd)} {tab : HashGraph.VTab Nhd} (v : ℕ)
    → SameEdges ed tab
    → is_some (slot ed v) ≡ true
    → (nhd : Nhd) × (find tab v ≡ some nhd)
find_list {tab = tab} v same live = is_some-cases (find tab v) (same.live v ∙ live)

module _ {P S : Type 0} where
  -- Writing the edge table and the count keeps the rest.
  pub Simulates-edges :
      (g : Graph P S) (h : HashGraph P S) (ed : List (Option Nhd)) (tab : HashGraph.VTab Nhd)
      (k : ℕ)
      → Simulates g h
      → SameEdges ed tab
      → Simulates (record g { nume = k; edata = ed }) (record h { nume = k; edata = tab })
  Simulates-edges g h ed tab k sim same = record {
    vertices = sim.vertices;
    edges = same;
    same_numv = sim.same_numv;
    same_nume = refl;
    same_inputs = sim.same_inputs;
    same_outputs = sim.same_outputs;
    same_scalar = sim.same_scalar;
  }

  remove_edge_run :
      (h : HashGraph P S) (s t k : ℕ) (nhd nhd' : Nhd)
      → h.nume ≡ suc k
      → find h.edata s ≡ some nhd
      → find (insert h.edata s (remove nhd t)) t ≡ some nhd'
      → HashGraph.remove_edge h s t
        ≡ some (record h {
          nume = k;
          edata = insert (insert h.edata s (remove nhd t)) t (remove nhd' s);
        })
  unfolding HashGraph.remove_edge HashGraph.remove_half_edge
  remove_edge_run h s t k nhd nhd' count at_s at_t = ground (arith, count, at_s, at_t)

  add_edge_run :
      (h : HashGraph P S) (s t : ℕ) (e : EType) (nhd nhd' : Nhd)
      → find h.edata s ≡ some nhd
      → find (insert h.edata s (insert nhd t e)) t ≡ some nhd'
      → HashGraph.add_edge_with_type h s t e
        ≡ some (record h {
          nume = h.nume + 1;
          edata = insert (insert h.edata s (insert nhd t e)) t (insert nhd' s e);
        })
  unfolding HashGraph.add_edge_with_type HashGraph.insert_half_edge
  add_edge_run h s t e nhd nhd' at_s at_t = rw (at_s, at_t) refl

  set_edge_run :
      (h : HashGraph P S) (s t : ℕ) (e e0 e1 : EType) (nhd nhd' : Nhd)
      → find h.edata s ≡ some nhd
      → find nhd t ≡ some e0
      → find (insert h.edata s (insert nhd t e)) t ≡ some nhd'
      → find nhd' s ≡ some e1
      → HashGraph.set_edge_type h s t e
        ≡ some (record h { edata = insert (insert h.edata s (insert nhd t e)) t (insert nhd' s e) })
  unfolding HashGraph.set_edge_type HashGraph.set_half_edge
  set_edge_run h s t e e0 e1 nhd nhd' at_s old at_t old' = rw (at_s, old, at_t, old') refl

  slot_live :
      (g : Graph P S) (s t : ℕ) {e : EType}
      → VecGraph.edge_type_opt g s t ≡ some e
      → is_some (slot g.edata s) ≡ true
  slot_live g s t joined =
      let (nhd, at_s, val) = edge_type_opt-some g s t joined in ground (arith, at_s)

  -- Removing an edge.
  pub remove_edge-BothStep :
      (g : Graph P S) (h : HashGraph P S) (s t : ℕ) {e : EType}
      → IsValid g
      → Simulates g h
      → VecGraph.edge_type_opt g s t ≡ some e
      → BothStep (VecGraph.remove_edge g s t) (HashGraph.remove_edge h s t)
  remove_edge-BothStep g h s t {e} valid sim joined =
      let (k, ed, ed', run, count, d, d') = remove_edge_tables g s t valid joined in
      let ne = edge_ne g s t valid joined in
      let back = edge_type_opt_sym g t s valid ∙ joined in
      let (nhd, at_s) = find_list s sim.edges (slot_live g s t joined) in
      let found = find_type g h.edata s t nhd (valid.simple s t) sim.edges at_s ∙ joined in
      let first = SameEdges-remove {t = t} {e = e} sim.edges d at_s found (valid.simple s t) in
      let (nhd', at_t) = find_list t first (d.same_live t ∙ slot_live g t s back) in
      let g1 : Graph P S = record g { nume = k; edata = ed } in
      let once : weigh (hit_key s) ed t ≤ 1 =
        ground (arith, valid.simple t s, d.weight (hit_key s) t) in
      let found' =
        find_type g1 (insert h.edata s (remove nhd t)) t s nhd' once first at_t
        ∙ edge_type_opt-Drops_other g s t e ed k valid ne d
        ∙ back in
      (
        record g { nume = k; edata = ed' },
        record h { nume = k; edata = insert (insert h.edata s (remove nhd t)) t (remove nhd' s) },
        run,
        remove_edge_run h s t k nhd nhd' (sim.same_nume ∙ count) at_s at_t,
        unlink-IsValid g s t e ed ed' k valid d d' count,
        Simulates-edges g h ed' _ k sim
            (SameEdges-remove {t = s} {e = e} first d' at_t found' once),
      )

  -- The first of two pushes leaves the entries of the other end as they are.
  added_other :
      (g : Graph P S) (s t : ℕ) (e : EType) (ed : List (Option Nhd))
      → IsValid g
      → s ≢ t
      → VecGraph.edge_type_opt g s t ≡ none
      → Drops s (t, e) ed g.edata
      → VecGraph.edge_type_opt (record g { edata = ed }) t s ≡ none
  added_other g s t e ed valid ne absent d = ground (
    arith,
    edge_type_opt-pick g t s (valid.simple t s),
    edge_type_opt-pick (record g { edata = ed }) t s,
    edge_type_opt_sym g t s valid,
    d.weight (hit s EType.n) t,
    d.weight (hit s EType.h) t,
    d.weight (hit s EType.wio) t,
    d.weight (hit_key s) t,
    valid.simple t s,
    ne,
  )

  -- Adding an edge.
  pub add_edge-BothStep :
      (g : Graph P S) (h : HashGraph P S) (s t : ℕ) (e : EType)
      → IsValid g
      → Simulates g h
      → s ≢ t
      → is_some (slot g.vdata s) ≡ true
      → is_some (slot g.vdata t) ≡ true
      → VecGraph.edge_type_opt g s t ≡ none
      → BothStep (VecGraph.add_edge_with_type g s t e) (HashGraph.add_edge_with_type h s t e)
  add_edge-BothStep g h s t e valid sim ne live_s live_t absent =
      let (ed, ed', run, d, d') = add_edge_tables g s t e valid live_s live_t in
      let (nhd, at_s) = find_list s sim.edges (sym (valid.same_live s) ∙ live_s) in
      let missing = find_type g h.edata s t nhd (valid.simple s t) sim.edges at_s ∙ absent in
      let first = SameEdges-insert {t = t} {e = e} sim.edges d at_s missing in
      let (nhd', at_t) =
        find_list t first (sym (d.same_live t) ∙ sym (valid.same_live t) ∙ live_t) in
      let g1 : Graph P S = record g { edata = ed } in
      let none_back = edge_type_opt_sym g t s valid ∙ absent in
      let once : weigh (hit_key s) ed t ≤ 1 =
        ground (arith, valid.simple t s, d.weight (hit_key s) t, ne) in
      let same_other : VecGraph.edge_type_opt g1 t s ≡ none =
        added_other g s t e ed valid ne absent d in
      let missing' =
        find_type g1 (insert h.edata s (insert nhd t e)) t s nhd' once first at_t ∙ same_other in
      (
        record g { nume = g.nume + 1; edata = ed' },
        record h {
          nume = h.nume + 1;
          edata = insert (insert h.edata s (insert nhd t e)) t (insert nhd' s e);
        },
        run,
        add_edge_run h s t e nhd nhd' at_s at_t,
        link-IsValid g s t e ed ed' valid ne absent d d',
        rw sim.same_nume (
            Simulates-edges g h ed' _ (g.nume + 1) sim
              (SameEdges-insert {t = s} {e = e} first d' at_t missing')),
      )

  -- Changing the type of an edge.
  pub set_edge-BothStep :
      (g : Graph P S) (h : HashGraph P S) (s t : ℕ) (e : EType) {e0 : EType}
      → IsValid g
      → Simulates g h
      → VecGraph.edge_type_opt g s t ≡ some e0
      → BothStep (VecGraph.set_edge_type g s t e) (HashGraph.set_edge_type h s t e)
  set_edge-BothStep g h s t e {e0} valid sim joined =
      let (ed, ed', run, d, d') = set_edge_tables g s t e valid joined in
      let ne = edge_ne g s t valid joined in
      let (nhd, at_s) = find_list s sim.edges (slot_live g s t joined) in
      let found = find_type g h.edata s t nhd (valid.simple s t) sim.edges at_s ∙ joined in
      let first = SameEdges-swap {t = t} {e = e} {e0 = e0} sim.edges d at_s found in
      let back = edge_type_opt_sym g t s valid ∙ joined in
      let (nhd', at_t) = find_list t first (d.same_live t ∙ slot_live g t s back) in
      let g1 : Graph P S = record g { edata = ed } in
      let once : weigh (hit_key s) ed t ≤ 1 =
        ground (arith, valid.simple t s, d.weight (hit_key s) t, ne) in
      let found' =
        find_type g1 (insert h.edata s (insert nhd t e)) t s nhd' once first at_t
        ∙ other_end g s t e e0 valid joined ed d in
      (
        record g { edata = ed' },
        record h { edata = insert (insert h.edata s (insert nhd t e)) t (insert nhd' s e) },
        run,
        set_edge_run h s t e e0 e0 nhd nhd' at_s (find-value nhd t ∙ found) at_t
            (find-value nhd' s ∙ found'),
        retyped-IsValid g s t e e0 valid joined ed ed' d d',
        same_count (
            Simulates-edges g h ed' _ g.nume sim
              (SameEdges-swap {t = s} {e = e} {e0 = e0} first d' at_t found')),
      )
    where
      same_count :
          {ed' : List (Option Nhd)} {tab : HashGraph.VTab Nhd}
          → Simulates
              (record g { nume = g.nume; edata = ed' })
              (record h { nume = g.nume; edata = tab })
          → Simulates (record g { edata = ed' }) (record h { edata = tab })
      same_count r = record {
        vertices = sim.vertices;
        edges = r.edges;
        same_numv = sim.same_numv;
        same_nume = sim.same_nume;
        same_inputs = sim.same_inputs;
        same_outputs = sim.same_outputs;
        same_scalar = sim.same_scalar;
      }
