-- ===== src/Rules/Gadgets.antt =====
-- quizx/src/basic_rules.rs: the fusion of two phase gadgets.
use quizx.Prelude.{
  ℕ, Bool, true, false, not, Option, none, some, List, [], ◌∷◌, ◌>>=◌, ◌==◌, if◌then◌else◌,
}
use quizx.Prelude.Int.{pos}
use quizx.Types.{VType, EType, vtype_eq, etype_eq}
use quizx.Interface.{PhaseOps, ScalarOps}
use quizx.VecGraph.{
  Graph, Nhd, remove_vertex, vertex_type, phase, incident_edges, degree, add_to_phase,
}
use quizx.GraphLike.{neighbor_vec, mul_sqrt2_pow}
use quizx.Rules.Checked.{checked, as_i32, sub_i32, set_eq}

module _ {P S : Type 0} where
  -- One vertex of the loop of `check_gadget_fusion`: `found` is `found_gphase`, and the other
  -- neighbours are collected.
  unfoldable pub gadget_scan : Graph P S → Nhd → Bool → List ℕ → Option (Option (List ℕ))
  gadget_scan g [] found acc = some (if found then some acc else none)
  gadget_scan g ((n, et) ∷ nhd) found acc =
      let once = gadget_scan g nhd true acc in
      let more = gadget_scan g nhd found (n ∷ acc) in
      if not (etype_eq et EType.h) then some none else (do
        t ← vertex_type g n
        if not (vtype_eq t VType.z)
            then some none
            else (do d ← degree g n; if d == 1 then (if found then some none else once) else more))

  -- The first neighbour of degree 1.
  unfoldable pub find_leaf : Graph P S → List ℕ → Option ℕ
  find_leaf g [] = none
  find_leaf g (n ∷ ns) =
      let rest = find_leaf g ns in do d ← degree g n; if d == 1 then some n else rest

module _ {P S : Type 0} ⦃p : PhaseOps P⦄ ⦃c : ScalarOps P S⦄ where
  unfoldable pub check_gadget_fusion : Graph P S → ℕ → ℕ → Option Bool
  check_gadget_fusion g v0 v1 = if v0 == v1 then some false else (do
    nhd0 ← incident_edges g v0
    set0 ← gadget_scan g nhd0 false []
    elim set0 [
      | none ↦ some false
      | some xs ↦ (do
        nhd1 ← incident_edges g v1
        set1 ← gadget_scan g nhd1 false []
        elim set1 [ none ↦ some false | some ys ↦ some (set_eq xs ys) ])
    ])

  unfoldable pub gadget_fusion_unchecked : Graph P S → ℕ → ℕ → Option (Graph P S)
  gadget_fusion_unchecked g v0 v1 = do
    ns0 ← neighbor_vec g v0
    gphase0 ← find_leaf g ns0
    ns1 ← neighbor_vec g v1
    gphase1 ← find_leaf g ns1
    q ← phase g gphase1
    g1 ← add_to_phase g gphase0 q
    g2 ← remove_vertex g1 v1
    g3 ← remove_vertex g2 gphase1
    d ← degree g3 v0
    some (mul_sqrt2_pow g3 (sub_i32 (pos 2) (as_i32 d)))

  unfoldable pub gadget_fusion : Graph P S → ℕ → ℕ → Option (Graph P S × Bool)
  gadget_fusion g v0 v1 =
      checked (λ h. check_gadget_fusion h v0 v1) (λ h. gadget_fusion_unchecked h v0 v1) g
