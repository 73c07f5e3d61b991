-- ===== src/HashGraph/Simulates.antt =====
-- The graph of quizx/src/hash_graph.rs that holds the same diagram as one of quizx/src/vec_graph.rs,
-- with the tables in any order.
use quizx.Prelude.{
  ℕ, ◌≤◌, ◌≡◌, Option, none, some, List, arith, ◌==◌, if◌then◌else◌, slot, tally, is_some,
}
use quizx.Types.{EType}
use quizx.VecGraph
use quizx.VecGraph.{Graph, VData, Nhd, value}
use quizx.VecGraph.Neighbors.{hit, hit_key, value-hits}
use quizx.VecGraph.Valid.{Drops, weigh, weigh_slot, edge_type_opt-pick}
use quizx.VecGraph.Fields.{Swaps}
use quizx.HashGraph.{VTab, HashGraph, find, insert, remove}
use quizx.HashGraph.Tables.{
  find-insert, tally-remove, tally-at_key_found, tally-insert_absent, tally-insert_found,
}

abbrev pub weigh_tab : (ℕ × EType → ℕ) → VTab Nhd → ℕ → ℕ
weigh_tab f tab v = weigh_slot f (find tab v)

-- The adjacency lists have the same entries, in any order.
pub record SameEdges (ed : List (Option Nhd)) (tab : VTab Nhd) : Type 0 where
  pub live : (v : ℕ) → is_some (find tab v) ≡ is_some (slot ed v)
  pub weight : (f : ℕ × EType → ℕ) (v : ℕ) → weigh_tab f tab v ≡ weigh f ed v

pub record Simulates {P S : Type 0} (g : Graph P S) (h : HashGraph P S) : Type 0 where
  pub vertices : (v : ℕ) → find h.vdata v ≡ slot g.vdata v
  pub edges : SameEdges g.edata h.edata
  pub same_numv : h.numv ≡ g.numv
  pub same_nume : h.nume ≡ g.nume
  pub same_inputs : h.inputs ≡ g.inputs
  pub same_outputs : h.outputs ≡ g.outputs
  pub same_scalar : h.scalar ≡ g.scalar

-- One list changed: the other lists stay.
insert_weight :
    (tab : VTab Nhd) (s : ℕ) (nhd : Nhd) (f : ℕ × EType → ℕ) (v : ℕ)
    → weigh_tab f (insert tab s nhd) v ≡ (if s == v then tally f nhd else weigh_tab f tab v)
insert_weight tab s nhd f v = ground (arith, find-insert tab s v nhd)

-- What a list of the hash table has for a key, by the counts of the other graph.
pub find_type :
    {P S : Type 0} (g : Graph P S) (tab : VTab Nhd) (s t : ℕ) (nhd : Nhd)
    → weigh (hit_key t) g.edata s ≤ 1
    → SameEdges g.edata tab
    → find tab s ≡ some nhd
    → value nhd t ≡ VecGraph.edge_type_opt g s t
find_type g tab s t nhd simple same at_s = ground (
  arith,
  edge_type_opt-pick g s t simple,
  value-hits t nhd,
  simple,
  at_s,
  same.weight (hit_key t) s,
  same.weight (hit t EType.n) s,
  same.weight (hit t EType.h) s,
  same.weight (hit t EType.wio) s,
)

module _ {ed ed' : List (Option Nhd)} {tab : VTab Nhd} {s t : ℕ} {e : EType} {nhd : Nhd} where
  -- Where one graph drops an entry, the other removes its key.
  pub SameEdges-remove :
      SameEdges ed tab
      → Drops s (t, e) ed ed'
      → find tab s ≡ some nhd
      → value nhd t ≡ some e
      → weigh (hit_key t) ed s ≤ 1
      → SameEdges ed' (insert tab s (remove nhd t))
  SameEdges-remove same d at_s found once = record {
    live = λ v.
        ground (
          arith,
          same.live v,
          d.same_live v,
          find-insert tab s v (remove nhd t),
          at_s,
          same.live s,
        );
    weight = λ f v. ground (
      arith,
      same.weight f v,
      same.weight (hit_key t) s,
      d.weight f v,
      at_s,
      insert_weight tab s (remove nhd t) f v,
      tally-remove f nhd t,
      tally-at_key_found f nhd t {e = e},
      once,
      found,
    );
  }

  pub SameEdges-insert :
      SameEdges ed tab
      → Drops s (t, e) ed' ed
      → find tab s ≡ some nhd
      → value nhd t ≡ none
      → SameEdges ed' (insert tab s (insert nhd t e))
  SameEdges-insert same d at_s absent = record {
    live = λ v. ground (
      arith,
      same.live v,
      d.same_live v,
      find-insert tab s v (insert nhd t e),
      at_s,
      same.live s,
    );
    weight = λ f v. ground (
      arith,
      same.weight f v,
      d.weight f v,
      at_s,
      insert_weight tab s (insert nhd t e) f v,
      tally-insert_absent f nhd t e absent,
    );
  }

  pub SameEdges-swap :
      {e0 : EType}
      → SameEdges ed tab
      → Swaps s (t, e0) (t, e) ed ed'
      → find tab s ≡ some nhd
      → value nhd t ≡ some e0
      → SameEdges ed' (insert tab s (insert nhd t e))
  SameEdges-swap {e0} same d at_s found = record {
    live = λ v. ground (
      arith,
      same.live v,
      d.same_live v,
      find-insert tab s v (insert nhd t e),
      at_s,
      same.live s,
    );
    weight = λ f v. ground (
      arith,
      same.weight f v,
      d.weight f v,
      at_s,
      insert_weight tab s (insert nhd t e) f v,
      tally-insert_found f nhd t e found,
    );
  }
