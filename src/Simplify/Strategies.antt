-- ===== src/Simplify/Strategies.antt =====
-- quizx/src/simplify.rs: the strategies that chain loops. Each outer loop has fuel, and each inner one.
use quizx.Prelude.{
  ℕ, zero, suc, ◌-◌, Bool, true, false, ◌&&◌, ◌||◌, not, Option, none, some, List, [], ◌∷◌, map,
  length, ◌>>=◌, ◌==◌, ltb, leb, if◌then◌else◌,
}
use quizx.Prelude.Int.{pos, neg, wrap_i32}
use quizx.Types.{VType, EType, vtype_eq, etype_eq}
use quizx.Interface.{PhaseOps, ScalarOps}
use quizx.VecGraph.{
  Graph, Nhd, vertex_vec, remove_vertex, vertex_type, phase, incident_edges, degree, neighbor_at,
  add_to_phase,
}
use quizx.HashGraph.{VTab, insert}
use quizx.GraphLike.{x_to_z, edge_type, mul_sqrt2_pow}
use quizx.Rules.Checked.{as_i32, sub_i32, mul_i32}
use quizx.Rules.Spiders.{
  check_remove_single, remove_single_unchecked, check_remove_pair, remove_pair_unchecked,
  pi_copy_unchecked,
}
use quizx.Simplify.{
  Outcome, finished, panicked, no_fuel, vertex_simp, edge_simp, id_simp, spider_simp, pivot_simp,
  local_comp_simp, gen_pivot_simp,
}

-- `|| m` after a loop.
abbrev pub or_matched : {G : Type 0} → Bool → Outcome G → Outcome G
or_matched m (finished g m1) = finished g (m1 || m)
or_matched m panicked = panicked
or_matched m no_fuel = no_fuel

-- `m = simp(g) || m`: the next loop, on the diagram that the last one left.
abbrev pub and_then : {G : Type 0} → Outcome G → (G → Outcome G) → Outcome G
and_then (finished g m) next = or_matched m (next g)
and_then panicked next = panicked
and_then no_fuel next = no_fuel

abbrev pub from_option : {G : Type 0} → Option (G × Bool) → Outcome G
from_option none = panicked
from_option (some (g, m)) = finished g m

-- `while m { m = round(g); if m { got_match = true; } }`
unfoldable pub repeat : {G : Type 0} → ℕ → (G → Outcome G) → G → Bool → Outcome G
repeat zero round g got_match = no_fuel
repeat (suc n) round g got_match = elim (round g) [
  | finished g1 m ↦ elim m [ true ↦ repeat n round g1 true | false ↦ finished g1 got_match ]
  | panicked ↦ panicked
  | no_fuel ↦ no_fuel
]

-- `nhd.sort()`
abbrev pub insert_sorted : ℕ → List ℕ → List ℕ
insert_sorted n [] = n ∷ []
insert_sorted n (m ∷ ms) = let rest = insert_sorted n ms in if leb n m then n ∷ m ∷ ms else m ∷ rest

abbrev pub sort : List ℕ → List ℕ
sort [] = []
sort (n ∷ ns) = insert_sorted n (sort ns)

abbrev pub same_list : List ℕ → List ℕ → Bool
same_list [] [] = true
same_list (x ∷ xs) (y ∷ ys) = x == y && same_list xs ys
same_list xs ys = false

-- The hash map from a neighbourhood to the gadgets on it, each a centre and a leaf.
abbrev pub Gadgets : Type 0
Gadgets = List (List ℕ × List (ℕ × ℕ))

-- `gs.push((w, v))`, or a new entry.
unfoldable pub push_gadget : Gadgets → List ℕ → ℕ × ℕ → Gadgets
push_gadget [] nhd gadget = (nhd, gadget ∷ []) ∷ []
push_gadget ((nhd0, gs) ∷ rest) nhd gadget =
    let later = push_gadget rest nhd gadget in
    if same_list nhd0 nhd then (nhd0, quizx.Prelude.push gs gadget) ∷ rest else (nhd0, gs) ∷ later

module _ {P S : Type 0} where
  -- The other neighbours of the centre, without those that are not green or not joined by a Hadamard
  -- edge.
  unfoldable pub gadget_nhd : Graph P S → ℕ → Nhd → Option (List ℕ)
  gadget_nhd g v [] = some []
  gadget_nhd g v ((n, et) ∷ nhd) = do
    rest ← gadget_nhd g v nhd
    t ← vertex_type g n
    (if not (vtype_eq t VType.z) || not (etype_eq et EType.h)
        then some rest
        else some (if n == v then rest else n ∷ rest))

module _ {P S : Type 0} ⦃p : PhaseOps P⦄ ⦃c : ScalarOps P S⦄ where
  unfoldable pub scalar_simp : ℕ → Graph P S → Outcome (Graph P S)
  scalar_simp n g =
      and_then (vertex_simp n check_remove_single remove_single_unchecked false g false)
        (λ g1. edge_simp n check_remove_pair remove_pair_unchecked false g1 false)

  unfoldable pub flow_round : ℕ → Graph P S → Outcome (Graph P S)
  flow_round n g = and_then (and_then (id_simp n g) (spider_simp n)) (scalar_simp n)

  unfoldable pub interior_clifford_round : ℕ → Graph P S → Outcome (Graph P S)
  interior_clifford_round n g =
      and_then
        (and_then (and_then (and_then (id_simp n g) (spider_simp n)) (pivot_simp n))
          (local_comp_simp n))
        (scalar_simp n)

  -- `spider_simp(g); g.x_to_z();` and the loop; the match of the first call is not counted.
  abbrev pub after_x_to_z : ℕ → Graph P S → (Graph P S → Outcome (Graph P S)) → Outcome (Graph P S)
  after_x_to_z n g loop = elim (spider_simp n g) [
    | finished g1 m ↦ elim (x_to_z g1) [ none ↦ panicked | some g2 ↦ loop g2 ]
    | panicked ↦ panicked
    | no_fuel ↦ no_fuel
  ]

  unfoldable pub flow_simp : ℕ → Graph P S → Outcome (Graph P S)
  flow_simp n g = after_x_to_z n g (λ g2. repeat n (flow_round n) g2 false)

  unfoldable pub interior_clifford_simp : ℕ → Graph P S → Outcome (Graph P S)
  interior_clifford_simp n g =
      after_x_to_z n g (λ g2. repeat n (interior_clifford_round n) g2 false)

  unfoldable pub clifford_round : ℕ → Graph P S → Outcome (Graph P S)
  clifford_round n g = and_then (interior_clifford_simp n g) (gen_pivot_simp n)

  unfoldable pub clifford_simp : ℕ → Graph P S → Outcome (Graph P S)
  clifford_simp n g = repeat n (clifford_round n) g false

  -- The first loop of `fuse_gadgets`, over the vertices.
  unfoldable pub find_gadgets : Graph P S → List ℕ → Gadgets → Option Gadgets
  find_gadgets g [] gadgets = some gadgets
  find_gadgets g (v ∷ vs) gadgets = do
    d ← degree g v
    t ← vertex_type g v
    more ←
        (if d == 1 && vtype_eq t VType.z
          then (do
            w ← neighbor_at g v 0
            tw ← vertex_type g w
            q ← phase g w
            (if not (vtype_eq tw VType.z) || not (p.is_zero q) then some gadgets else (do
              inc ← incident_edges g w
              nhd ← gadget_nhd g v inc
              some (push_gadget gadgets (sort nhd) (w, v)))))
          else some gadgets)
    find_gadgets g vs more

  -- The inner loop of the second one: a centre and its leaf go, and the phase of the leaf is added up.
  unfoldable pub remove_gadgets : Graph P S → P → List (ℕ × ℕ) → Option (Graph P S × P)
  remove_gadgets g ph [] = some (g, ph)
  remove_gadgets g ph ((u, v) ∷ gs) = do
    q ← phase g v
    g1 ← remove_vertex g u
    g2 ← remove_vertex g1 v
    remove_gadgets g2 (p.add ph q) gs

  -- The second loop of `fuse_gadgets`.
  unfoldable pub fuse_groups : Graph P S → Gadgets → Bool → Option (Graph P S × Bool)
  fuse_groups g [] fused = some (g, fused)
  fuse_groups g ((vs, []) ∷ gadgets) fused = fuse_groups g gadgets fused
  fuse_groups g ((vs, first ∷ []) ∷ gadgets) fused = fuse_groups g gadgets fused
  fuse_groups g ((vs, first ∷ second ∷ gs) ∷ gadgets) fused = do
    (g1, ph) ← remove_gadgets g p.zero (second ∷ gs)
    g2 ← add_to_phase g1 first.1 ph
    let num = as_i32 (length (first ∷ second ∷ gs))
    let deg = as_i32 (length vs)
    let power = mul_i32 (wrap_i32 (neg (sub_i32 num (pos 1)))) (sub_i32 deg (pos 1))
    fuse_groups (mul_sqrt2_pow g2 power) gadgets true

  -- The hash map is iterated in the order that `arrange` gives.
  unfoldable pub fuse_gadgets : (Gadgets → Gadgets) → Graph P S → Option (Graph P S × Bool)
  fuse_gadgets arrange g = do
    gadgets ← find_gadgets g (vertex_vec g) []
    fuse_groups g (arrange gadgets) false

  -- The test of `remove_gadget_pi` on a vertex: the centre, where the vertex is the leaf of a gadget
  -- whose centre has the phase 1.
  unfoldable pub pi_centre : Graph P S → ℕ → Option (Option ℕ)
  pi_centre g v = do
    d ← degree g v
    t ← vertex_type g v
    (if d == 1 && vtype_eq t VType.z
        then (do
          n ← neighbor_at g v 0
          e ← edge_type g v n
          tn ← vertex_type g n
          q ← phase g n
          some (if etype_eq e EType.h && vtype_eq tn VType.z && p.is_one q then some n else none))
        else some none)

  -- Its hash map from centres to leaves: the last leaf of a centre stays.
  unfoldable pub find_pi_gadgets : Graph P S → List ℕ → VTab ℕ → Option (VTab ℕ)
  find_pi_gadgets g [] gadgets = some gadgets
  find_pi_gadgets g (v ∷ vs) gadgets = do
    centre ← pi_centre g v
    find_pi_gadgets g vs (elim centre [ none ↦ gadgets | some n ↦ insert gadgets n v ])

  unfoldable pub copy_pis : Graph P S → VTab ℕ → Option (Graph P S)
  copy_pis g [] = some g
  copy_pis g ((n, v) ∷ gadgets) = do g1 ← pi_copy_unchecked g v; copy_pis g1 gadgets

  unfoldable pub remove_gadget_pi : (VTab ℕ → VTab ℕ) → Graph P S → Option (Graph P S × Bool)
  remove_gadget_pi arrange g = do
    gadgets ← find_pi_gadgets g (vertex_vec g) []
    g1 ← copy_pis g (arrange gadgets)
    some (g1, elim gadgets [ [] ↦ false | x ∷ xs ↦ true ])

  unfoldable pub full_round :
      (Gadgets → Gadgets) → (VTab ℕ → VTab ℕ) → ℕ → Graph P S → Outcome (Graph P S)
  full_round arrange arrange_pi n g =
      and_then (and_then (clifford_simp n g) (λ g1. from_option (fuse_gadgets arrange g1)))
        (λ g2. from_option (remove_gadget_pi arrange_pi g2))

  unfoldable pub full_simp :
      (Gadgets → Gadgets) → (VTab ℕ → VTab ℕ) → ℕ → Graph P S → Outcome (Graph P S)
  full_simp arrange arrange_pi n g = repeat n (full_round arrange arrange_pi n) g false
