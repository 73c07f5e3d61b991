-- ===== src/Circuit/Laws.antt =====
-- quizx/src/circuit.rs: basic gates and statistics.
use quizx.Prelude.{
  ◌||◌, if◌then◌else◌, ℕ, ◌+◌, ◌≡◌, refl, Bool, true, false, ◌&&◌, some, List, [], ◌∷◌, ◌++◌,
  length, ◌==◌, arith, ap, sym, ◌∙◌,
}
use mathlib.Core.List.{append_assoc, append-nil}
use quizx.Interface.{PhaseOps}
use quizx.Gate.{GType, gtype_eq, Gate, num_basic_gates, push_basic_gates}
use quizx.Gate.Laws.{has_arity, all_basic, all_basic-append, push_basic_gates_lem, length-append}
use quizx.Circuit.{
  is_cliff_type, is_rotation, Circuit, CircuitStats, count_arity, count_cliff, is_cliff,
  basic_gates_from, to_basic_gates, stats_from, stats,
}

-- Every gate has the number of qubits of its type.
abbrev pub all_arity : {P : Type 0} → List (Gate P) → Bool
all_arity [] = true
all_arity (g ∷ gs) = has_arity g && all_arity gs

abbrev pub sum_basic : {P : Type 0} → List (Gate P) → ℕ
sum_basic [] = 0
sum_basic (g ∷ gs) = num_basic_gates g + sum_basic gs

-- How many gates of a list pass a test.
unfoldable pub count_where : {P : Type 0} → (Gate P → Bool) → List (Gate P) → ℕ
count_where test [] = 0
count_where test (g ∷ gs) = (if test g then 1 else 0) + count_where test gs

abbrev pub acts_on : {P : Type 0} → ℕ → Gate P → Bool
acts_on k g = length g.qs == k

abbrev pub one_of : List GType → GType → Bool
one_of [] ty = false
one_of (a ∷ rest) ty = gtype_eq a ty || one_of rest ty

-- The types that are Clifford gates whatever the phase is, and those that turn by the phase.
abbrev pub clifford_types : List GType
clifford_types =
    GType.had ∷ GType.cnot ∷ GType.cz ∷ GType.swap ∷ GType.not ∷ GType.z ∷ GType.s ∷ GType.sdg ∷ []

abbrev pub turning_types : List GType
turning_types = GType.x_phase ∷ GType.z_phase ∷ []

abbrev pub clifford_if : Bool → GType → Bool
clifford_if b ty = one_of clifford_types ty || (one_of turning_types ty && b)

clifford_cases :
    (ty : GType) (b : Bool)
    → (if is_cliff_type ty then true else if is_rotation ty then b else false) ≡ clifford_if b ty
clifford_cases ty true = ground arith
clifford_cases ty false = ground arith

-- The counts of one more gate, of `n` qubits and Clifford or not.
record Counted (n : ℕ) (b : Bool) (s r : CircuitStats) : Type 0 where
  one : r.oneq ≡ (if n == 1 then 1 else 0) + s.oneq
  two : r.twoq ≡ (if n == 2 then 1 else 0) + s.twoq
  arities : r.oneq + r.twoq + r.moreq ≡ s.oneq + s.twoq + s.moreq + 1
  clifford : r.cliff ≡ (if b then 1 else 0) + s.cliff
  kinds : r.cliff + r.non_cliff ≡ s.cliff + s.non_cliff + 1
  same_total : r.total ≡ s.total
  same_qubits : r.qubits ≡ s.qubits

count_one : (s : CircuitStats) (n : ℕ) (b : Bool) → Counted n b s (count_cliff (count_arity s n) b)
unfolding count_cliff count_arity
count_one s n true = record {
  one = ground arith;
  two = ground arith;
  arities = ground arith;
  clifford = ground arith;
  kinds = ground arith;
  same_total = ground arith;
  same_qubits = ground arith;
}
count_one s n false = record {
  one = ground arith;
  two = ground arith;
  arities = ground arith;
  clifford = ground arith;
  kinds = ground arith;
  same_total = ground arith;
  same_qubits = ground arith;
}

module _ {P : Type 0} ⦃p : PhaseOps P⦄ where
  basic_from_steps :
      (acc acc1 : List (Gate P)) (g : Gate P) (gs : List (Gate P))
      → push_basic_gates acc g ≡ some acc1
      → basic_gates_from acc (g ∷ gs) ≡ basic_gates_from acc1 gs
  unfolding basic_gates_from
  basic_from_steps acc acc1 g gs h = rw h refl

  basic_gates_from_lem :
      (acc gs : List (Gate P))
      → all_arity gs ≡ true
      → (new : List (Gate P)) × (basic_gates_from acc gs ≡ some (acc ++ new))
        × (length new ≡ sum_basic gs)
        × (all_basic new ≡ true)
  basic_gates_from_lem acc [] h =
      ([], unfold basic_gates_from in ap some (sym (append-nil acc)), refl, refl)
  basic_gates_from_lem acc (g ∷ gs) h =
      let first = push_basic_gates_lem acc g (ground arith) in
      let (rest, done, many, basic) = basic_gates_from_lem (acc ++ first.gates) gs (ground arith) in
      (
        first.gates ++ rest,
        basic_from_steps acc (acc ++ first.gates) g gs first.result
            ∙ done
            ∙ ap some (append_assoc acc first.gates rest),
        length-append first.gates rest ∙ omega (arith, many, first.many),
        all_basic-append first.gates rest first.basic basic,
      )

  to_basic_steps :
      (c : Circuit P) (gs : List (Gate P))
      → basic_gates_from [] c.gates ≡ some gs
      → to_basic_gates c ≡ some (record c { gates = gs })
  unfolding to_basic_gates
  to_basic_steps c gs h = rw h refl

  -- A circuit whose gates have the number of qubits of their types is decomposed without a panic, into a
  -- circuit of the same width with only basic gates, as many as the gates' `num_basic_gates` add up to.
  pub to_basic_gates_lem :
      (c : Circuit P)
      → all_arity c.gates ≡ true
      → (d : Circuit P) × (to_basic_gates c ≡ some d)
        × (d.nqubits ≡ c.nqubits)
        × (length d.gates ≡ sum_basic c.gates)
        × (all_basic d.gates ≡ true)
  to_basic_gates_lem c h =
      let (gs, done, many, basic) = basic_gates_from_lem [] c.gates h in
      (record c { gates = gs }, to_basic_steps c gs done, refl, many, basic)

  -- A gate of a Clifford type, or that turns by a phase at which is_clifford holds.
  abbrev pub is_clifford_gate : Gate P → Bool
  is_clifford_gate g = clifford_if (p.is_clifford g.phase) g.ty

  is_cliff_lem : (g : Gate P) → is_cliff g ≡ is_clifford_gate g
  unfolding is_cliff
  is_cliff_lem g = clifford_cases g.ty (p.is_clifford g.phase)

  -- What the statistics `r` have counted of the gates since `s`.
  record Tallied (gs : List (Gate P)) (s r : CircuitStats) : Type 0 where
    one : r.oneq ≡ count_where (acts_on 1) gs + s.oneq
    two : r.twoq ≡ count_where (acts_on 2) gs + s.twoq
    arities : r.oneq + r.twoq + r.moreq ≡ s.oneq + s.twoq + s.moreq + length gs
    clifford : r.cliff ≡ count_where is_clifford_gate gs + s.cliff
    kinds : r.cliff + r.non_cliff ≡ s.cliff + s.non_cliff + length gs
    same_total : r.total ≡ s.total
    same_qubits : r.qubits ≡ s.qubits

  stats_from_lem : (s : CircuitStats) (gs : List (Gate P)) → Tallied gs s (stats_from s gs)
  unfolding stats_from count_where
  stats_from_lem s [] = record {
    one = omega arith;
    two = omega arith;
    arities = omega arith;
    clifford = omega arith;
    kinds = omega arith;
    same_total = refl;
    same_qubits = refl;
  }
  stats_from_lem s (g ∷ gs) =
      let step = count_one s (length g.qs) (is_cliff g) in
      let rest = stats_from_lem (count_cliff (count_arity s (length g.qs)) (is_cliff g)) gs in
      let same = ap {B = ℕ} (λ b. if b then 1 else 0) (is_cliff_lem g) in
      record {
        one = omega (arith, rest.one, step.one);
        two = omega (arith, rest.two, step.two);
        arities = omega (arith, rest.arities, step.arities);
        clifford = omega (arith, rest.clifford, step.clifford, same);
        kinds = omega (arith, rest.kinds, step.kinds);
        same_total = rest.same_total ∙ step.same_total;
        same_qubits = rest.same_qubits ∙ step.same_qubits;
      }

  -- The statistics of a circuit give its width and its number of gates, the numbers of gates with one and
  -- with two qubits, and the number of gates of a Clifford type or that turn by a phase at which
  -- is_clifford holds; the other two counts make up, with these, the number of gates.
  pub stats_lem :
      (c : Circuit P)
      → ((stats c).qubits ≡ c.nqubits)
        × ((stats c).total ≡ length c.gates)
        × ((stats c).oneq ≡ count_where (acts_on 1) c.gates)
        × ((stats c).twoq ≡ count_where (acts_on 2) c.gates)
        × ((stats c).oneq + (stats c).twoq + (stats c).moreq ≡ length c.gates)
        × ((stats c).cliff ≡ count_where is_clifford_gate c.gates)
        × ((stats c).cliff + (stats c).non_cliff ≡ length c.gates)
  unfolding stats
  stats_lem c =
      let counted = stats_from_lem _ c.gates in
      (
        counted.same_qubits,
        counted.same_total,
        omega (arith, counted.one),
        omega (arith, counted.two),
        omega (arith, counted.arities),
        omega (arith, counted.clifford),
        omega (arith, counted.kinds),
      )
