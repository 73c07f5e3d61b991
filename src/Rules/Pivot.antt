-- ===== src/Rules/Pivot.antt =====
-- quizx/src/basic_rules.rs: local complementation, the pivot, and the pivot in its generic form.
use quizx.Prelude.{
  ℕ, Bool, true, false, ◌&&◌, ◌||◌, not, Option, some, List, [], ◌∷◌, length, ◌>>=◌, ◌==◌, ltb,
  if◌then◌else◌,
}
use quizx.Prelude.Int.{pos, div_trunc}
use quizx.Types.{VType, EType, vtype_eq, etype_eq, opposite}
use quizx.Interface.{PhaseOps, ScalarOps}
use quizx.VecGraph.{
  Graph, VData, add_vertex_with_data, remove_vertex, add_edge_with_type, remove_edge, vertex_type,
  phase, qubit, row, set_phase, edge_type_opt, incident_edges, degree, add_to_phase,
}
use quizx.GraphLike.{edge_type, neighbor_vec, add_edge_smart, mul_sqrt2_pow, mul_phase}
use quizx.Rules.Checked.{
  is_edge, all_opt, any_opt, and_opt, checked, as_i32, sub_i32, mul_i32, all_h_to_z, add_to_phases,
}

module _ {P S : Type 0} where
  -- The inner loop of `check_gen_pivot`.
  unfoldable pub gen_pivot_vertex : Graph P S → ℕ → Option Bool
  gen_pivot_vertex g v = do
    tv ← vertex_type g v
    if not (vtype_eq tv VType.z) then some false else (do
      nhd ← incident_edges g v
      all_opt
          (λ x. do
            t ← vertex_type g x.0
            some ((vtype_eq t VType.z && etype_eq x.1 EType.h) || vtype_eq t VType.b))
          nhd)

  unfoldable pub check_gen_pivot : Graph P S → ℕ → ℕ → Option Bool
  check_gen_pivot g v0 v1 =
      if v0 == v1
      then some false
      else if not (is_edge (edge_type_opt g v0 v1) EType.h)
      then some false
      else and_opt (gen_pivot_vertex g v0) (gen_pivot_vertex g v1)

module _ {P S : Type 0} ⦃p : PhaseOps P⦄ ⦃c : ScalarOps P S⦄ where
  unfoldable pub check_local_comp : Graph P S → ℕ → Option Bool
  check_local_comp g v = do
    t ← vertex_type g v
    if not (vtype_eq t VType.z)
        then some false
        else (do q ← phase g v; if p.is_proper_clifford q then all_h_to_z g v else some false)

  -- `for j in (i + 1)..ns.len() { add_edge_smart(ns[i], ns[j], H) }`
  unfoldable pub join_to_all : Graph P S → ℕ → List ℕ → Option (Graph P S)
  join_to_all g w [] = some g
  join_to_all g w (u ∷ us) = do g1 ← add_edge_smart g w u EType.h; join_to_all g1 w us

  -- The outer loop over `i`.
  unfoldable pub complement : Graph P S → P → List ℕ → Option (Graph P S)
  complement g q [] = some g
  complement g q (w ∷ ws) = do
    g1 ← add_to_phase g w (p.neg q)
    g2 ← join_to_all g1 w ws
    complement g2 q ws

  unfoldable pub local_comp_unchecked : Graph P S → ℕ → Option (Graph P S)
  local_comp_unchecked g v = do
    q ← phase g v
    ns ← neighbor_vec g v
    g1 ← complement g q ns
    g2 ← remove_vertex g1 v
    let x = as_i32 (length ns)
    let k = div_trunc (mul_i32 (sub_i32 x (pos 1)) (sub_i32 x (pos 2))) 2
    some (mul_phase (mul_sqrt2_pow g2 k) (p.ratio (p.numer q) 4))

  unfoldable pub local_comp : Graph P S → ℕ → Option (Graph P S × Bool)
  local_comp g v = checked (λ h. check_local_comp h v) (λ h. local_comp_unchecked h v) g

  unfoldable pub check_pivot : Graph P S → ℕ → ℕ → Option Bool
  check_pivot g v0 v1 = do
    t0 ← vertex_type g v0
    if not (vtype_eq t0 VType.z) then some false else (do
      t1 ← vertex_type g v1
      if not (vtype_eq t1 VType.z && is_edge (edge_type_opt g v0 v1) EType.h)
          then some false
          else (do
            q0 ← phase g v0
            if not (p.is_pauli q0) then some false else (do
              q1 ← phase g v1
              if p.is_pauli q1 then and_opt (all_h_to_z g v0) (all_h_to_z g v1) else some false)))

  -- The inner loop of `pivot_unchecked`.
  unfoldable pub pivot_row : Graph P S → ℕ → ℕ → ℕ → List ℕ → Option (Graph P S)
  pivot_row g v0 v1 n0 [] = some g
  pivot_row g v0 v1 n0 (n1 ∷ ns1) = do
    g1 ← if not (n0 == v1) && not (n1 == v0) then add_edge_smart g n0 n1 EType.h else some g
    pivot_row g1 v0 v1 n0 ns1

  unfoldable pub pivot_rows : Graph P S → ℕ → ℕ → P → List ℕ → List ℕ → Option (Graph P S)
  pivot_rows g v0 v1 q1 [] ns1 = some g
  pivot_rows g v0 v1 q1 (n0 ∷ ns0) ns1 = do
    g1 ← add_to_phase g n0 q1
    g2 ← pivot_row g1 v0 v1 n0 ns1
    pivot_rows g2 v0 v1 q1 ns0 ns1

  unfoldable pub pivot_unchecked : Graph P S → ℕ → ℕ → Option (Graph P S)
  pivot_unchecked g v0 v1 = do
    q0 ← phase g v0
    q1 ← phase g v1
    ns0 ← neighbor_vec g v0
    ns1 ← neighbor_vec g v1
    g1 ← pivot_rows g v0 v1 q1 ns0 ns1
    g2 ← add_to_phases g1 q0 ns1
    g3 ← remove_vertex g2 v0
    g4 ← remove_vertex g3 v1
    let x = as_i32 (length ns0)
    let y = as_i32 (length ns1)
    let g5 = mul_sqrt2_pow g4 (mul_i32 (sub_i32 x (pos 2)) (sub_i32 y (pos 2)))
    some (if not (p.is_zero q0) && not (p.is_zero q1) then mul_phase g5 (p.ratio (pos 1) 1) else g5)

  unfoldable pub pivot : Graph P S → ℕ → ℕ → Option (Graph P S × Bool)
  pivot g v0 v1 = checked (λ h. check_pivot h v0 v1) (λ h. pivot_unchecked h v0 v1) g

  unfoldable pub unfuse_boundary : Graph P S → ℕ → ℕ → Option (Graph P S)
  unfuse_boundary g v b = do
    t ← vertex_type g b
    if not (vtype_eq t VType.b) then some g else (do
      r ← row g v
      q ← qubit g v
      let (g1, v1) =
          add_vertex_with_data g (record { ty = VType.z; phase = p.zero; qubit = q; row = r })
      g2 ← add_edge_with_type g1 v v1 EType.h
      e ← edge_type g2 v b
      g3 ← add_edge_with_type g2 v1 b (opposite e)
      remove_edge g3 v b)

  unfoldable pub unfuse_gadget : Graph P S → ℕ → Option (Graph P S)
  unfuse_gadget g v = do
    q ← phase g v
    if p.is_pauli q then some g else (do
      r ← row g v
      k ← qubit g v
      let d : VData P = record { ty = VType.z; phase = p.zero; qubit = k; row = r }
      let (g1, v1) = add_vertex_with_data g d
      let (g2, v2) = add_vertex_with_data g1 d
      q' ← phase g2 v
      g3 ← set_phase g2 v2 q'
      g4 ← set_phase g3 v (p.ratio (pos 0) 1)
      g5 ← add_edge_with_type g4 v v1 EType.h
      add_edge_with_type g5 v1 v2 EType.h)

  unfoldable pub unfuse_boundaries : Graph P S → ℕ → List ℕ → Option (Graph P S)
  unfuse_boundaries g v [] = some g
  unfuse_boundaries g v (w ∷ ws) = do g1 ← unfuse_boundary g v w; unfuse_boundaries g1 v ws

  unfoldable pub is_interior_pauli : Graph P S → ℕ → Option Bool
  is_interior_pauli g v = do
    q ← phase g v
    if p.is_pauli q
        then (do
          ws ← neighbor_vec g v
          all_opt
              (λ w. do
                t ← vertex_type g w
                if vtype_eq t VType.z then (do d ← degree g w; some (ltb 1 d)) else some false)
              ws)
        else some false

  unfoldable pub is_boundary_pauli : Graph P S → ℕ → Option Bool
  is_boundary_pauli g v = do
    q ← phase g v
    if p.is_pauli q
        then (do
          ws ← neighbor_vec g v
          any_opt (λ w. do t ← vertex_type g w; some (vtype_eq t VType.b)) ws)
        else some false

  unfoldable pub check_gen_pivot_reduce : Graph P S → ℕ → ℕ → Option Bool
  check_gen_pivot_reduce g v0 v1 =
      and_opt (check_gen_pivot g v0 v1)
        (is_interior_pauli g v0 >>= λ b. if b then some true else is_interior_pauli g v1)

  unfoldable pub check_boundary_pivot : Graph P S → ℕ → ℕ → Option Bool
  check_boundary_pivot g v0 v1 = and_opt (check_gen_pivot g v0 v1) (is_boundary_pauli g v0)

  unfoldable pub gen_pivot_unchecked : Graph P S → ℕ → ℕ → Option (Graph P S)
  gen_pivot_unchecked g v0 v1 = do
    nhd0 ← neighbor_vec g v0
    g1 ← unfuse_gadget g v0
    g2 ← unfuse_boundaries g1 v0 nhd0
    nhd1 ← neighbor_vec g2 v1
    g3 ← unfuse_gadget g2 v1
    g4 ← unfuse_boundaries g3 v1 nhd1
    pivot_unchecked g4 v0 v1

  unfoldable pub gen_pivot : Graph P S → ℕ → ℕ → Option (Graph P S × Bool)
  gen_pivot g v0 v1 = checked (λ h. check_gen_pivot h v0 v1) (λ h. gen_pivot_unchecked h v0 v1) g

  unfoldable pub boundary_pivot : Graph P S → ℕ → ℕ → Option (Graph P S × Bool)
  boundary_pivot g v0 v1 =
      checked (λ h. check_boundary_pivot h v0 v1) (λ h. gen_pivot_unchecked h v0 v1) g
