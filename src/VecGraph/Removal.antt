-- ===== src/VecGraph/Removal.antt =====
-- `remove_vertex`: the vertex and its edges go, and everything else stays.
use quizx.Prelude.{
  ℕ, suc, ◌+◌, ◌-◌, ◌*◌, ◌≤◌, ◌<◌, ◌≡◌, refl, true, false, ◌||◌, Option, none, some, List, arith,
  ◌==◌, if◌then◌else◌, slot, set, push, tally, one_if_eq, is_some-cases, one_if_some, is_some, sym,
  ◌∙◌, length, length-set, slot-set, tally-push, slot-lt, tally-slot_write,
}
use quizx.Prelude.{Bool-cases, inl, inr}
use quizx.Types.{EType}
use quizx.VecGraph.{Graph, Nhd, remove_vertex, remove_back_edges, edge_type_opt}
use quizx.VecGraph.Neighbors.{hit, hit_key, at_key}
use quizx.VecGraph.Valid.{
  IsValid, weigh, weigh_slot, edges_of, degree_sum, one_each, edge_type_opt-pick, weigh-keys,
}
use quizx.VecGraph.Unlinked.{tally-one_each, remove_back_edges_lem, Unlinked}

module _ {P S : Type 0} where
  -- What `remove_vertex` promises.
  pub record Removed (g : Graph P S) (v : ℕ) (g' : Graph P S) : Type 0 where
    pub valid : IsValid g'
    pub data_of : (w : ℕ) → slot g'.vdata w ≡ (if v == w then none else slot g.vdata w)
    pub edges :
        (a b : ℕ) → edge_type_opt g' a b ≡ (if a == v || b == v then none else edge_type_opt g a b)
    pub live :
        (w : ℕ) → is_some (slot g'.edata w) ≡ (if v == w then false else is_some (slot g.edata w))
    pub weight :
        (f : ℕ × EType → ℕ) (w : ℕ)
        → weigh f g'.edata w + (if v == w then weigh f g.edata w else weigh (at_key v f) g.edata w)
          ≡ weigh f g.edata w
    pub numv_less : g.numv ≡ suc g'.numv
    pub nume_less : g'.nume + weigh one_each g.edata v ≡ g.nume
    pub same_inputs : g'.inputs ≡ g.inputs
    pub same_outputs : g'.outputs ≡ g.outputs
    pub same_scalar : g'.scalar ≡ g.scalar

  remove_vertex_steps :
      (g g' : Graph P S) (v n : ℕ) (adj : Nhd)
      → g.numv ≡ suc n
      → slot g.edata v ≡ some adj
      → remove_back_edges
          (record g {
            numv = n;
            holes = push g.holes v;
            vdata = set g.vdata v none;
            edata = set g.edata v none;
          })
          v
          adj
        ≡ some g'
      → remove_vertex g v ≡ some g'
  unfolding remove_vertex
  remove_vertex_steps g g' v n adj count at_v loop = ground arith

  module _ (g : Graph P S) (v : ℕ) (valid : IsValid g) (adj : Nhd)
      (at_v : slot g.edata v ≡ some adj) where
    in_vdata : v < length g.vdata
    in_vdata = omega (arith, slot-lt g.edata v at_v, valid.same_length)

    mirrors : (w : ℕ) (e : EType) → edges_of (set g.edata v none) w v e ≡ tally (hit w e) adj
    mirrors w e = ground (
      arith,
      slot-set g.edata v w none (slot-lt g.edata v at_v),
      valid.symmetric v w e,
      valid.no_loop v,
      weigh-keys g.edata v v,
      at_v,
    )

    once_each : (w : ℕ) → tally (hit_key w) adj ≤ 1
    once_each w = ground (arith, valid.simple v w)

    sum_left : degree_sum (set g.edata v none) + length adj ≡ 2 * g.nume
    sum_left = ground (
      arith,
      valid.nume_counts,
      tally-slot_write (weigh_slot one_each) g.edata v none (slot-lt g.edata v at_v),
      tally-one_each adj,
    )

    numv_pos : g.numv ≡ suc (g.numv - 1)
    numv_pos = ground (
      arith,
      valid.numv_counts,
      tally-slot_write one_if_some g.vdata v none in_vdata,
      valid.same_live v,
    )

    module _ (k : ℕ) (ed : List (Option Nhd)) (sum : degree_sum ed ≡ 2 * k)
        (less : k + length adj ≡ g.nume) (un : Unlinked v (set g.edata v none) ed) where
      abbrev left : Graph P S
      left = record g {
        numv = g.numv - 1;
        holes = push g.holes v;
        vdata = set g.vdata v none;
        edata = ed;
        nume = k;
      }

      edges_left :
          (a b : ℕ) (e : EType)
          → edges_of ed a b e ≡ (if a == v || b == v then 0 else edges_of g.edata a b e)
      edges_left a b e = elim (Bool-cases (b == v)) [
        | inl same ↦ ground (arith, un.gone a e)
        | inr other ↦ ground (
          arith,
          un.others b a e (ground arith),
          slot-set g.edata v a none (slot-lt g.edata v at_v),
        )
      ]

      simple_left : (s t : ℕ) → weigh (hit_key t) ed s ≤ 1
      simple_left s t = ground (
        arith,
        weigh-keys ed s t,
        weigh-keys g.edata s t,
        edges_left s t EType.n,
        edges_left s t EType.h,
        edges_left s t EType.wio,
        valid.simple s t,
      )

      left-IsValid : IsValid left
      left-IsValid = record {
        same_length = omega (
          arith,
          valid.same_length,
          un.same_length,
          length-set g.vdata v none,
          length-set g.edata v none,
        );
        same_live = λ w. ground (
          arith,
          un.same_live w,
          slot-set g.vdata v w none in_vdata,
          slot-set g.edata v w none (slot-lt g.edata v at_v),
          valid.same_live w,
        );
        symmetric =
            λ s t e. ground (arith, edges_left s t e, edges_left t s e, valid.symmetric s t e);
        simple = simple_left;
        no_loop = λ s. ground (
          arith,
          weigh-keys ed s s,
          weigh-keys g.edata s s,
          edges_left s s EType.n,
          edges_left s s EType.h,
          edges_left s s EType.wio,
          valid.no_loop s,
        );
        numv_counts = ground (
          arith,
          valid.numv_counts,
          tally-slot_write one_if_some g.vdata v none in_vdata,
          valid.same_live v,
        );
        nume_counts = sym sum;
        holes_list = λ w. ground (
          arith,
          valid.holes_list w,
          tally-push (one_if_eq w) g.holes v,
          slot-set g.vdata v w none in_vdata,
          length-set g.vdata v none,
          in_vdata,
          valid.same_live v,
        );
      }

      left-Removed : Removed g v left
      left-Removed = record {
        valid = left-IsValid;
        data_of = λ w. slot-set g.vdata v w none in_vdata;
        edges = λ a b. ground (
          arith,
          edge_type_opt-pick left a b (simple_left a b),
          edge_type_opt-pick g a b (valid.simple a b),
          edges_left a b EType.n,
          edges_left a b EType.h,
          edges_left a b EType.wio,
        );
        live =
            λ w. ground (arith, un.same_live w, slot-set g.edata v w none (slot-lt g.edata v at_v));
        weight = λ f w.
            ground (arith, un.weight f w, slot-set g.edata v w none (slot-lt g.edata v at_v));
        numv_less = numv_pos;
        nume_less = ground (arith, less, at_v, tally-one_each adj);
        same_inputs = refl;
        same_outputs = refl;
        same_scalar = refl;
      }

  -- `remove_vertex` of a vertex of a well-formed graph succeeds; the result is well-formed, the
  -- vertex is gone with every edge at it, and all other vertices and edges are as before.
  pub remove_vertex-Removed :
      (g : Graph P S) (v : ℕ)
      → IsValid g
      → is_some (slot g.vdata v) ≡ true
      → (g' : Graph P S) × (remove_vertex g v ≡ some g') × Removed g v g'
  remove_vertex-Removed g v valid live =
      let (adj, at_v) = is_some-cases (slot g.edata v) (sym (valid.same_live v) ∙ live) in
      let (k, ed, loop, sum, less, un) =
        remove_back_edges_lem
          (record g {
            numv = g.numv - 1;
            holes = push g.holes v;
            vdata = set g.vdata v none;
            edata = set g.edata v none;
          })
          v adj (mirrors g v valid adj at_v) (once_each g v valid adj at_v)
          (sum_left g v valid adj at_v) in
      (
        left g v valid adj at_v k ed sum less un,
        remove_vertex_steps g (left g v valid adj at_v k ed sum less un) v (g.numv - 1) adj
            (numv_pos g v valid adj at_v) at_v loop,
        left-Removed g v valid adj at_v k ed sum less un,
      )
