-- ===== src/VecGraph/Unlinked.antt =====
-- What the loop of `remove_vertex`, quizx/src/vec_graph.rs, does to the adjacency lists.
use quizx.Prelude.{
  ℕ, suc, ◌+◌, ◌-◌, ◌*◌, ◌≤◌, ◌≡◌, refl, Option, none, some, List, [], ◌∷◌, arith, slot, tally,
  is_some, ◌∙◌, length, ◌≢◌,
}
use quizx.Types.{EType}
use quizx.VecGraph.{Graph, Nhd, remove_back_edges, remove_half_edge, edge_type_opt}
use quizx.VecGraph.Neighbors.{hit, hit_key, at_key, keys-hits, tally-at_key_absent}
use quizx.VecGraph.Valid.{
  Drops, weigh, weigh_slot, edges_of, degree_sum, one_each, edge_type_opt-pick, weigh-keys,
}
use quizx.VecGraph.HalfEdges.{remove_half_edge_lem}
use quizx.VecGraph.Edges.{edge_type_opt_ext}

-- Two tables, the second without the entries for `v`.
pub record Unlinked (v : ℕ) (ed ed' : List (Option Nhd)) : Type 0 where
  pub same_length : length ed' ≡ length ed
  pub same_live : (w : ℕ) → is_some (slot ed' w) ≡ is_some (slot ed w)
  pub others : (a w : ℕ) (e : EType) → a ≢ v → edges_of ed' w a e ≡ edges_of ed w a e
  pub gone : (w : ℕ) (e : EType) → edges_of ed' w v e ≡ 0
  pub weight : (f : ℕ × EType → ℕ) (w : ℕ) → weigh f ed' w + weigh (at_key v f) ed w ≡ weigh f ed w

pub weigh-at_key_absent :
    (ed : List (Option Nhd)) (f : ℕ × EType → ℕ) (v w : ℕ)
    → weigh (hit_key v) ed w ≡ 0
    → weigh (at_key v f) ed w ≡ 0
weigh-at_key_absent ed f v w =
    elim (slot ed w) as (λ o. weigh_slot (hit_key v) o ≡ 0 → weigh_slot (at_key v f) o ≡ 0) [
      | none ↦ λ h. refl
      | some nhd ↦ λ h. tally-at_key_absent f nhd v h
    ]

pub tally-one_each : (l : Nhd) → tally one_each l ≡ length l
tally-one_each [] = refl
tally-one_each (x ∷ xs) = omega (arith, tally-one_each xs)

pub Unlinked-Drops :
    {v v1 : ℕ} {e : EType} {ed ed' ed'' : List (Option Nhd)}
    → Drops v1 (v, e) ed ed'
    → Unlinked v ed' ed''
    → Unlinked v ed ed''
Unlinked-Drops {v} {v1} {e} d un = record {
  same_length = un.same_length ∙ d.same_length;
  same_live = λ w. un.same_live w ∙ d.same_live w;
  others = λ a w e ne. ground (arith, un.others a w e ne, d.weight (hit a e) w);
  gone = un.gone;
  weight = λ f w. ground (arith, un.weight f w, d.weight f w, d.weight (at_key v f) w);
}

module _ {P S : Type 0} where
  pub back_edges_step :
      (g g1 g2 : Graph P S) (v v1 k : ℕ) (e : EType) (adj : Nhd)
      → g.nume ≡ suc k
      → remove_half_edge (record g { nume = k }) v1 v ≡ some g1
      → remove_back_edges g1 v adj ≡ some g2
      → remove_back_edges g v ((v1, e) ∷ adj) ≡ some g2
  unfolding remove_back_edges
  back_edges_step g g1 g2 v v1 k e adj count first rest = ground arith

  -- One round: the entry for `v` in the list of its neighbour `v1` goes.
  pub back_edge_first :
      (g : Graph P S) (v v1 : ℕ) (e : EType) (adj : Nhd)
      → ((w : ℕ) (e' : EType) → edges_of g.edata w v e' ≡ tally (hit w e') ((v1, e) ∷ adj))
      → tally (hit_key v1) ((v1, e) ∷ adj) ≤ 1
      → degree_sum g.edata + suc (length adj) ≡ 2 * g.nume
      → (ed : List (Option Nhd)) × (g.nume ≡ suc (g.nume - 1))
        × (remove_half_edge (record g { nume = g.nume - 1 }) v1 v
            ≡ some (record g { nume = g.nume - 1; edata = ed }))
        × Drops v1 (v, e) g.edata ed
  back_edge_first g v v1 e adj mirror once count =
      let joined : edge_type_opt g v1 v ≡ some e = ground (
        arith,
        edge_type_opt-pick g v1 v,
        weigh-keys g.edata v1 v,
        mirror v1 EType.n,
        mirror v1 EType.h,
        mirror v1 EType.wio,
        keys-hits v1 ((v1, e) ∷ adj),
        once,
      ) in
      let g0 : Graph P S = record g { nume = g.nume - 1 } in
      let (ed, step, d) =
        remove_half_edge_lem g0 v1 v (edge_type_opt_ext g g0 v1 v refl ∙ joined) in
      (ed, omega (arith, d.sum), step, d)

  -- The loop: `adj` is what the other lists still say of `v`.
  pub remove_back_edges_lem :
      (g : Graph P S) (v : ℕ) (adj : Nhd)
      → ((w : ℕ) (e : EType) → edges_of g.edata w v e ≡ tally (hit w e) adj)
      → ((w : ℕ) → tally (hit_key w) adj ≤ 1)
      → degree_sum g.edata + length adj ≡ 2 * g.nume
      → (k : ℕ) × (ed : List (Option Nhd)) × (remove_back_edges g v adj
          ≡ some (record g { nume = k; edata = ed }))
        × (degree_sum ed ≡ 2 * k)
        × (k + length adj ≡ g.nume)
        × Unlinked v g.edata ed
  remove_back_edges_lem g v [] mirror once count = (
    g.nume,
    g.edata,
    unfold remove_back_edges in refl,
    omega arith,
    omega arith,
    record {
      same_length = refl;
      same_live = λ w. refl;
      others = λ a w e ne. refl;
      gone = mirror;
      weight = λ f w. ground (arith, unkeyed f w);
    },
  )
    where
      unkeyed : (f : ℕ × EType → ℕ) (w : ℕ) → weigh (at_key v f) g.edata w ≡ 0
      unkeyed f w = weigh-at_key_absent g.edata f v w (
          ground
            (arith, weigh-keys g.edata w v, mirror w EType.n, mirror w EType.h, mirror w EType.wio))
  remove_back_edges_lem g v ((v1, e) ∷ adj) mirror once count =
      let (ed, pos, step, d) = back_edge_first g v v1 e adj mirror (once v1) count in
      let (k, ed', rest, sum, less, un) =
        remove_back_edges_lem (record g { nume = g.nume - 1; edata = ed }) v adj
          (λ w e'. ground (arith, d.weight (hit v e') w, mirror w e')) (λ w. omega (arith, once w))
          (omega (arith, d.sum)) in
      (
        k,
        ed',
        back_edges_step g (record g { nume = g.nume - 1; edata = ed })
            (record g { nume = k; edata = ed' }) v v1 (g.nume - 1) e adj pos step rest,
        sum,
        omega (arith, less, pos),
        Unlinked-Drops d un,
      )
