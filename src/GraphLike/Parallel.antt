-- ===== src/GraphLike/Parallel.antt =====
-- quizx/src/graph.rs: the branches of `add_edge_smart` for parallel edges, and a description of what
-- parallel edges add up to.
-- edges add up to.
use quizx.Prelude.{
  ℕ, ◌≡◌, refl, Bool, true, false, ◌&&◌, ◌||◌, not, Option, none, some, slot, ◌>>=◌, ◌==◌,
  if◌then◌else◌, arith, Bool-cases, inl, inr, ap, ◌∙◌,
}
use quizx.Prelude.Int.{pos, negsuc}
use quizx.Types.{VType, EType, vtype_eq, etype_eq}
use quizx.Interface.{PhaseOps, ScalarOps}
use quizx.VecGraph.{Graph, VData, edge_type_opt, remove_edge, set_edge_type, add_to_phase}
use quizx.VecGraph.Valid.{IsValid}
use quizx.VecGraph.HalfEdges.{edge_type_opt_sym}
use quizx.VecGraph.Edges.{edge_type_opt_ext}
use quizx.VecGraph.Fields.{update_data-Updated}
use quizx.GraphLike.{mul_sqrt2_pow, smart_phase, smart_same, smart_other, smart_parallel}

-- A green or a red spider.
abbrev pub is_zx : VType → Bool
is_zx VType.z = true
is_zx VType.x = true
is_zx _ = false

-- A plain or a Hadamard edge.
abbrev pub is_wire : EType → Bool
is_wire EType.wio = false
is_wire _ = true

-- The type of edge along which the two spiders fuse.
abbrev pub fusing : VType → VType → EType
fusing st tt = if vtype_eq st tt then EType.n else EType.h

-- What two parallel edges add up to: two edges that do not fuse cancel; otherwise a fusing edge is left.
abbrev pub parallel : EType → EType → EType → Option EType
parallel k e0 e = if etype_eq e0 k || etype_eq e k then some k else none

-- The edge that is there after the call.
abbrev pub joined_by : EType → Option EType → EType → Option EType
joined_by k none e = some e
joined_by k (some e0) e = parallel k e0 e

-- A fusing edge beside one that does not fuse leaves a phase of pi at the first spider.
abbrev pub leaves_pi : EType → Option EType → EType → Bool
leaves_pi k none e = false
leaves_pi k (some e0) e = if etype_eq e0 k then not (etype_eq e k) else etype_eq e k

-- The data of a spider that gets a phase of pi.
abbrev pub add_pi : {P : Type 0} ⦃p : PhaseOps P⦄ → VData P → VData P
add_pi ⦃p⦄ d = record d { phase = p.normalize (p.add d.phase (p.ratio (pos 1) 1)) }

-- One of the edges fuses, or both do.
pub fusing_left :
    (k e0 e : EType) → (etype_eq e0 k || etype_eq e k) ≡ true → some k ≡ parallel k e0 e
fusing_left k e0 e h = rw h refl

pub same_type : (a b : EType) → etype_eq a b ≡ true → some a ≡ some b
same_type a b h = ground arith

module _ {P S : Type 0} ⦃p : PhaseOps P⦄ ⦃c : ScalarOps P S⦄ where
  -- What the call leaves: the edges but the one between `s` and `t` and the data but the phase of `s` are
  -- as before.
  pub record Joined (g : Graph P S) (s t : ℕ) (edge : Option EType) (pi : Bool) (g' : Graph P S)
      : Type 0 where
    pub valid : IsValid g'
    pub edges :
        (a b : ℕ)
        → edge_type_opt g' a b
          ≡ (if (a == s && b == t) || (a == t && b == s) then edge else edge_type_opt g a b)
    pub data_of :
        (w : ℕ)
        → slot g'.vdata w
          ≡ (if s == w && pi then (slot g.vdata w >>= (λ d. some (add_pi d))) else slot g.vdata w)

  pub parallel_same :
      (g : Graph P S) (s t : ℕ) (st tt : VType) (e0 e : EType)
      → is_zx st ≡ true
      → is_zx tt ≡ true
      → is_wire e0 ≡ true
      → is_wire e ≡ true
      → etype_eq e0 (fusing st tt) ≡ true
      → smart_parallel g s t st tt e0 e
        ≡ (if etype_eq e (fusing st tt) then some g else smart_phase g s)
  unfolding smart_parallel smart_same smart_other
  parallel_same g s t st tt e0 e a b x y h = ground arith

  pub parallel_other :
      (g : Graph P S) (s t : ℕ) (st tt : VType) (e0 e : EType)
      → is_zx st ≡ true
      → is_zx tt ≡ true
      → is_wire e0 ≡ true
      → is_wire e ≡ true
      → etype_eq e0 (fusing st tt) ≡ false
      → etype_eq e (fusing st tt) ≡ true
      → smart_parallel g s t st tt e0 e
        ≡ (set_edge_type g s t (fusing st tt) >>= (λ g1. smart_phase g1 s))
  unfolding smart_parallel smart_same smart_other
  parallel_other g s t st tt e0 e a b x y h k = ground arith

  pub parallel_cancel :
      (g : Graph P S) (s t : ℕ) (st tt : VType) (e0 e : EType)
      → is_zx st ≡ true
      → is_zx tt ≡ true
      → is_wire e0 ≡ true
      → is_wire e ≡ true
      → etype_eq e0 (fusing st tt) ≡ false
      → etype_eq e (fusing st tt) ≡ false
      → smart_parallel g s t st tt e0 e
        ≡ (remove_edge g s t >>= (λ g1. some (mul_sqrt2_pow g1 (negsuc 1))))
  unfolding smart_parallel smart_same smart_other
  parallel_cancel g s t st tt e0 e a b x y h k = ground arith

  pub smart_phase_steps :
      (g g' : Graph P S) (s : ℕ)
      → add_to_phase g s (p.ratio (pos 1) 1) ≡ some g'
      → smart_phase g s ≡ some (mul_sqrt2_pow g' (negsuc 0))
  unfolding smart_phase
  smart_phase_steps g g' s h = rw h refl

  pub rescaled-IsValid : (h : Graph P S) (r : S) → IsValid h → IsValid (record h { scalar = r })
  rescaled-IsValid h r v = record {
    same_length = v.same_length;
    same_live = v.same_live;
    symmetric = v.symmetric;
    simple = v.simple;
    no_loop = v.no_loop;
    numv_counts = v.numv_counts;
    nume_counts = v.nume_counts;
    holes_list = v.holes_list;
  }

  pub smart_phase_lem :
      (g : Graph P S) (s : ℕ) {d : VData P}
      → IsValid g
      → slot g.vdata s ≡ some d
      → (g' : Graph P S) × (smart_phase g s ≡ some g')
        × IsValid g'
        × (g'.edata ≡ g.edata)
        × ((w : ℕ) → slot g'.vdata w ≡ (if s == w then some (add_pi d) else slot g.vdata w))
  smart_phase_lem g s {d} valid at_s =
      let (g1, done, up) = update_data-Updated g s add_pi valid at_s in
      (
        mul_sqrt2_pow g1 (negsuc 0),
        smart_phase_steps g g1 s (unfold add_to_phase in done),
        rescaled-IsValid g1 _ up.valid,
        up.same_edata,
        up.data_of,
      )

  -- The edge is kept or changed first, then the phase is added.
  pub phase_after :
      (g g1 : Graph P S) (s t : ℕ) (edge : Option EType) {d : VData P}
      → IsValid g1
      → slot g.vdata s ≡ some d
      → ((a b : ℕ)
          → edge_type_opt g1 a b
            ≡ (if (a == s && b == t) || (a == t && b == s) then edge else edge_type_opt g a b))
      → g1.vdata ≡ g.vdata
      → (g' : Graph P S) × (smart_phase g1 s ≡ some g') × Joined g s t edge true g'
  phase_after g g1 s t edge {d} valid at_s edges same =
      let (g', done, valid', edata, data_of) =
        smart_phase_lem g1 s valid (ap (λ l. slot l s) same ∙ at_s) in
      (
        g',
        done,
        record {
          valid = valid';
          edges = λ a b. edge_type_opt_ext g1 g' a b edata ∙ edges a b;
          data_of = λ w. data_of w ∙ ground (arith, at_s, ap (λ l. slot l w) same);
        },
      )

  -- Nothing is added to the phase.
  pub no_phase :
      (g g' : Graph P S) (s t : ℕ) (edge : Option EType)
      → IsValid g'
      → ((a b : ℕ)
          → edge_type_opt g' a b
            ≡ (if (a == s && b == t) || (a == t && b == s) then edge else edge_type_opt g a b))
      → g'.vdata ≡ g.vdata
      → Joined g s t edge false g'
  no_phase g g' s t edge valid edges same = record {
    valid = valid;
    edges = edges;
    data_of = λ w. ground (arith, ap (λ l. slot l w) same);
  }

  pub same_edges :
      (g : Graph P S) (s t : ℕ) {e0 : EType}
      → IsValid g
      → edge_type_opt g s t ≡ some e0
      → (a b : ℕ)
      → edge_type_opt g a b
        ≡ (if (a == s && b == t) || (a == t && b == s) then some e0 else edge_type_opt g a b)
  same_edges g s t {e0} valid h a b = elim (Bool-cases (a == s && b == t)) [
    | inl here ↦
        let at_a : a ≡ s = ground arith in
        let at_b : b ≡ t = ground arith in rw (at_a, at_b) (ground (arith, h))
    | inr other ↦ elim (Bool-cases (a == t && b == s)) [
      | inl back ↦
          let at_a : a ≡ t = ground arith in
          let at_b : b ≡ s = ground arith in
          rw (at_a, at_b) (ground (arith, h, edge_type_opt_sym g s t valid))
      | inr apart ↦ ground arith
    ]
  ]
