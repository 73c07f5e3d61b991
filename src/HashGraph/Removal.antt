-- ===== src/HashGraph/Removal.antt =====
-- Removing a vertex from the graph of quizx/src/hash_graph.rs and from that of quizx/src/vec_graph.rs.
-- those of quizx/src/vec_graph.rs do.
use quizx.Prelude.{
  ℕ, suc, ◌+◌, ◌≡◌, refl, sym, ◌∙◌, true, false, Option, none, some, List, [], ◌∷◌, arith, ◌==◌,
  if◌then◌else◌, slot, is_some, length, inl, inr, Option-cases,
}
use quizx.Types.{EType}
use quizx.VecGraph
use quizx.VecGraph.{Graph, VData, Nhd, value}
use quizx.VecGraph.Neighbors.{hit_key, at_key}
use quizx.VecGraph.Valid.{IsValid, weigh, weigh_slot, weigh-keys, one_each}
use quizx.VecGraph.Unlinked.{weigh-at_key_absent, tally-one_each}
use quizx.VecGraph.Removal.{Removed, remove_vertex-Removed}
use quizx.HashGraph
use quizx.HashGraph.{VTab, HashGraph, find, insert, remove, keys}
use quizx.HashGraph.Tables.{
  find-insert, find-remove, tally-remove, remove-remove, mem, mem-keys, length-keys,
}
use quizx.HashGraph.Simulates.{SameEdges, Simulates, weigh_tab}
use quizx.HashGraph.Halves.{BothStep, find_list}

-- The edge table after `remove_half_edge`, and after the loop over the neighbors.
abbrev pub drop_half : VTab Nhd → ℕ → ℕ → VTab Nhd
drop_half tab s t = elim (find tab s) [ none ↦ tab | some nhd ↦ insert tab s (remove nhd t) ]

abbrev pub strip : VTab Nhd → ℕ → List ℕ → VTab Nhd
strip tab v [] = tab
strip tab v (k ∷ ks) = strip (drop_half tab k v) v ks

abbrev pub without : ℕ → Option Nhd → Option Nhd
without v none = none
without v (some nhd) = some (remove nhd v)

pub without-without : (v : ℕ) (o : Option Nhd) → without v (without v o) ≡ without v o
without-without v none = refl
without-without v (some nhd) = rw (remove-remove nhd v) refl

pub find-drop_half :
    (tab : VTab Nhd) (s t w : ℕ)
    → find (drop_half tab s t) w ≡ (if s == w then without t (find tab w) else find tab w)
find-drop_half tab s t w = elim (Option-cases (find tab s)) [
  | inl absent ↦ ground (arith, absent)
  | inr (nhd, at_s) ↦ ground (arith, at_s, find-insert tab s w (remove nhd t))
]

pub find-strip :
    (tab : VTab Nhd) (v w : ℕ) (ks : List ℕ)
    → find (strip tab v ks) w ≡ (if mem w ks then without v (find tab w) else find tab w)
find-strip tab v w [] = refl
find-strip tab v w (k ∷ ks) = ground (
  arith,
  find-strip (drop_half tab k v) v w ks,
  find-drop_half tab k v w,
  without-without v (find tab w),
)

module _ {P S : Type 0} where
  pub remove_half_edge_eq :
      (h : HashGraph P S) (s t : ℕ)
      → HashGraph.remove_half_edge h s t ≡ record h { edata = drop_half h.edata s t }
  unfolding HashGraph.remove_half_edge
  remove_half_edge_eq h s t = elim (Option-cases (find h.edata s)) [
    | inl e ↦ ground (arith, e)
    | inr (nhd, e) ↦ ground (arith, e)
  ]

  pub back_edges_run :
      (h : HashGraph P S) (v : ℕ) (ks : List ℕ) (k : ℕ)
      → h.nume ≡ k + length ks
      → HashGraph.remove_back_edges h v ks
        ≡ some (record h { nume = k; edata = strip h.edata v ks })
  unfolding HashGraph.remove_back_edges
  back_edges_run h v [] k count = ground (arith, count)
  back_edges_run h v (w ∷ ks) k count =
      let one_less : h.nume ≡ suc (k + length ks) = omega (arith, count) in
      let h0 : HashGraph P S = record h { nume = k + length ks } in
      let h1 : HashGraph P S = record h0 { edata = drop_half h.edata w v } in
      rw (one_less, remove_half_edge_eq h0 w v) (back_edges_run h1 v ks k refl)

  pub remove_vertex_run :
      (h : HashGraph P S) (v n k : ℕ) (nhd : Nhd)
      → h.numv ≡ suc n
      → find h.edata v ≡ some nhd
      → h.nume ≡ k + length (keys nhd)
      → HashGraph.remove_vertex h v
        ≡ some (record h {
          numv = n;
          nume = k;
          vdata = remove h.vdata v;
          edata = remove (strip h.edata v (keys nhd)) v;
        })
  unfolding HashGraph.remove_vertex
  remove_vertex_run h v n k nhd count at_v enough =
      ground (arith, count, at_v, back_edges_run (record h { numv = n }) v (keys nhd) k enough)

  -- The tables without the vertex.
  pub Removed-SameEdges :
      (g g' : Graph P S) (h : HashGraph P S) (v : ℕ) (nhd : Nhd)
      → IsValid g
      → Simulates g h
      → Removed g v g'
      → find h.edata v ≡ some nhd
      → SameEdges g'.edata (remove (strip h.edata v (keys nhd)) v)
  Removed-SameEdges g g' h v nhd valid sim r at_v = record {
    live = λ w. ground (arith, r.live w, at_left w, sim.edges.live w);
    weight = λ f w. ground (
      arith,
      r.weight f w,
      at_left w,
      sim.edges.weight f w,
      sim.edges.weight (at_key v f) w,
      cut f w,
      apart f w,
    );
  }
    where
      at_left :
          (w : ℕ)
          → find (remove (strip h.edata v (keys nhd)) v) w ≡ (
              if v == w
              then none
              else if mem w (keys nhd)
              then without v (find h.edata w)
              else find h.edata w)
      at_left w =
          ground
            (arith, find-remove (strip h.edata v (keys nhd)) v w, find-strip h.edata v w (keys nhd))

      cut :
          (f : ℕ × EType → ℕ) (w : ℕ)
          → weigh_slot f (without v (find h.edata w)) + weigh_tab (at_key v f) h.edata w
            ≡ weigh_tab f h.edata w
      cut f w = cut_slot f (find h.edata w)
        where
          cut_slot :
              (f : ℕ × EType → ℕ) (o : Option Nhd)
              → weigh_slot f (without v o) + weigh_slot (at_key v f) o ≡ weigh_slot f o
          cut_slot f none = refl
          cut_slot f (some l) = tally-remove f l v

      apart :
          (f : ℕ × EType → ℕ) (w : ℕ) → mem w (keys nhd) ≡ false → weigh (at_key v f) g.edata w ≡ 0
      apart f w out = weigh-at_key_absent g.edata f v w (
          ground (
            arith,
            mem-keys nhd w out,
            at_v,
            sim.edges.weight (hit_key w) v,
            weigh-keys g.edata v w,
            weigh-keys g.edata w v,
            valid.symmetric v w EType.n,
            valid.symmetric v w EType.h,
            valid.symmetric v w EType.wio,
          ))

  -- Removing a vertex.
  pub remove_vertex-BothStep :
      (g : Graph P S) (h : HashGraph P S) (v : ℕ)
      → IsValid g
      → Simulates g h
      → is_some (slot g.vdata v) ≡ true
      → BothStep (VecGraph.remove_vertex g v) (HashGraph.remove_vertex h v)
  remove_vertex-BothStep g h v valid sim live =
      let (g', run, r) = remove_vertex-Removed g v valid live in
      let (nhd, at_v) = find_list v sim.edges (sym (valid.same_live v) ∙ live) in
      let degree : length (keys nhd) ≡ weigh one_each g.edata v =
        ground (arith, length-keys nhd, tally-one_each nhd, at_v, sim.edges.weight one_each v) in
      let enough : h.nume ≡ g'.nume + length (keys nhd) =
        omega (arith, degree, r.nume_less, sim.same_nume) in
      (
        g',
        record h {
          numv = g'.numv;
          nume = g'.nume;
          vdata = remove h.vdata v;
          edata = remove (strip h.edata v (keys nhd)) v;
        },
        run,
        remove_vertex_run h v g'.numv g'.nume nhd (sim.same_numv ∙ r.numv_less) at_v enough,
        r.valid,
        record {
          vertices = λ w. ground (arith, find-remove h.vdata v w, r.data_of w, sim.vertices w);
          edges = Removed-SameEdges g g' h v nhd valid sim r at_v;
          same_numv = refl;
          same_nume = refl;
          same_inputs = sim.same_inputs ∙ sym r.same_inputs;
          same_outputs = sim.same_outputs ∙ sym r.same_outputs;
          same_scalar = sim.same_scalar ∙ sym r.same_scalar;
        },
      )
