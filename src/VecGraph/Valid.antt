-- ===== src/VecGraph/Valid.antt =====
-- The well-formedness invariant of the adjacency-list graph, and how one entry more or less in an
-- adjacency list changes the counts that it is stated by.
use quizx.Prelude.{
  ℕ, ◌+◌, ◌*◌, ◌≤◌, ◌≡◌, refl, ◌&&◌, Option, none, some, List, arith, ◌==◌, ltb, if◌then◌else◌,
  length, set, slot, tally, occurrences, is_some, one_if_some, slot-set, slot-lt, tally-slot_write,
  length-set, not, sym,
}
use quizx.Types.{EType}
use quizx.VecGraph.{Graph, Nhd, edge_type_opt, value}
use quizx.VecGraph.Neighbors.{hit, hit_key, pick, keys-hits, value-hits}

-- The weight of the adjacency list in a slot; an empty slot weighs 0.
abbrev pub weigh_slot : (ℕ × EType → ℕ) → Option Nhd → ℕ
weigh_slot f none = 0
weigh_slot f (some nhd) = tally f nhd

abbrev pub weigh : (ℕ × EType → ℕ) → List (Option Nhd) → ℕ → ℕ
weigh f ed v = weigh_slot f (slot ed v)

abbrev pub one_each : ℕ × EType → ℕ
one_each _ = 1

-- The sum of all degrees.
abbrev pub degree_sum : List (Option Nhd) → ℕ
degree_sum ed = tally (weigh_slot one_each) ed

-- How many edges of type `e` the adjacency list of `s` has to `t`.
abbrev pub edges_of : List (Option Nhd) → ℕ → ℕ → EType → ℕ
edges_of ed s t e = weigh (hit t e) ed s

-- The invariant: both tables have the same slots in use; the adjacency lists are symmetric, with no
-- loops and no parallel edges; `numv` and `nume` count vertices and edges; `holes` lists each empty
-- slot once.
pub record IsValid {P S : Type 0} (g : Graph P S) : Type 0 where
  pub same_length : length g.vdata ≡ length g.edata
  pub same_live : (v : ℕ) → is_some (slot g.vdata v) ≡ is_some (slot g.edata v)
  pub symmetric : (s t : ℕ) (e : EType) → edges_of g.edata s t e ≡ edges_of g.edata t s e
  pub simple : (s t : ℕ) → weigh (hit_key t) g.edata s ≤ 1
  pub no_loop : (s : ℕ) → weigh (hit_key s) g.edata s ≡ 0
  pub numv_counts : g.numv ≡ tally one_if_some g.vdata
  pub nume_counts : 2 * g.nume ≡ degree_sum g.edata
  pub holes_list :
      (v : ℕ)
      → occurrences v g.holes
        ≡ (if ltb v (length g.vdata) && not (is_some (slot g.vdata v)) then 1 else 0)

pub weigh-keys :
    (ed : List (Option Nhd)) (s t : ℕ)
    → weigh (hit_key t) ed s
      ≡ edges_of ed s t EType.n + edges_of ed s t EType.h + edges_of ed s t EType.wio
weigh-keys ed s t =
    elim (slot ed s)
      as (λ o.
        weigh_slot (hit_key t) o
        ≡ weigh_slot (hit t EType.n) o
          + weigh_slot (hit t EType.h) o
          + weigh_slot (hit t EType.wio) o) [ none ↦ refl | some nhd ↦ keys-hits t nhd ]

-- `edge_type_opt` reads the counts.
pub edge_type_opt-pick :
    {P S : Type 0} (g : Graph P S) (s t : ℕ)
    → weigh (hit_key t) g.edata s ≤ 1
    → edge_type_opt g s t
      ≡ pick
          (edges_of g.edata s t EType.n)
          (edges_of g.edata s t EType.h)
          (edges_of g.edata s t EType.wio)
unfolding edge_type_opt
edge_type_opt-pick g s t = go (slot g.edata s)
  where
    go :
        (o : Option Nhd)
        → weigh_slot (hit_key t) o ≤ 1
        → (elim o [ none ↦ none | some nhd ↦ value nhd t ])
          ≡ pick
              (weigh_slot (hit t EType.n) o)
              (weigh_slot (hit t EType.h) o)
              (weigh_slot (hit t EType.wio) o)
    go none h = refl
    go (some nhd) h = value-hits t nhd h

-- Two tables, the second with one entry `x` less in the adjacency list of `s`.
pub record Drops (s : ℕ) (x : ℕ × EType) (ed ed' : List (Option Nhd)) : Type 0 where
  pub same_length : length ed' ≡ length ed
  pub same_live : (v : ℕ) → is_some (slot ed' v) ≡ is_some (slot ed v)
  pub weight :
      (f : ℕ × EType → ℕ) (v : ℕ) → weigh f ed' v + (if s == v then f x else 0) ≡ weigh f ed v
  pub sum : degree_sum ed' + 1 ≡ degree_sum ed

-- Writing a list with one entry less.
pub Drops-set :
    (ed : List (Option Nhd)) (s : ℕ) (x : ℕ × EType) (nhd nhd' : Nhd)
    → slot ed s ≡ some nhd
    → ((f : ℕ × EType → ℕ) → tally f nhd' + f x ≡ tally f nhd)
    → Drops s x ed (set ed s (some nhd'))
Drops-set ed s x nhd nhd' at_s less = record {
  same_length = length-set ed s (some nhd');
  same_live = λ v. ground (arith, slot-set ed s v (some nhd') (slot-lt ed s at_s));
  weight = λ f v. ground (arith, slot-set ed s v (some nhd') (slot-lt ed s at_s), less f);
  sum = ground (
    arith,
    tally-slot_write (weigh_slot one_each) ed s (some nhd') (slot-lt ed s at_s),
    less one_each,
  );
}

-- Writing a list with one entry more.
pub Drops-set_back :
    (ed : List (Option Nhd)) (s : ℕ) (x : ℕ × EType) (nhd nhd' : Nhd)
    → slot ed s ≡ some nhd
    → ((f : ℕ × EType → ℕ) → tally f nhd + f x ≡ tally f nhd')
    → Drops s x (set ed s (some nhd')) ed
Drops-set_back ed s x nhd nhd' at_s more = record {
  same_length = sym (length-set ed s (some nhd'));
  same_live = λ v. ground (arith, slot-set ed s v (some nhd') (slot-lt ed s at_s));
  weight = λ f v. ground (arith, slot-set ed s v (some nhd') (slot-lt ed s at_s), more f);
  sum = ground (
    arith,
    tally-slot_write (weigh_slot one_each) ed s (some nhd') (slot-lt ed s at_s),
    more one_each,
  );
}
