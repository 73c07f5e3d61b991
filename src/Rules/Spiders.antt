-- ===== src/Rules/Spiders.antt =====
-- quizx/src/basic_rules.rs: the rules on one spider or a pair: fusion, pi-copy, identity removal,
-- colour change, and the removal of isolated spiders and pairs.
use quizx.Prelude.{
  ℕ, Bool, false, ◌&&◌, ◌||◌, not, Option, none, some, [], ◌∷◌, length, get_elem?, ◌>>=◌, ◌==◌,
  if◌then◌else◌,
}
use quizx.Prelude.Int.{pos, negsuc}
use quizx.Types.{VType, EType, is_spider, vtype_eq, etype_eq}
use quizx.Interface.{PhaseOps, ScalarOps}
use quizx.VecGraph.{
  Graph, Nhd, remove_vertex, vertex_type, phase, set_phase, set_vertex_type, edge_type_opt,
  incident_edges, degree, add_to_phase,
}
use quizx.GraphLike.{
  edge_type, connected, neighbor_vec, toggle_all, add_edge_smart, mul_sqrt2_pow, mul_phase,
  mul_scalar,
}
use quizx.Rules.Checked.{
  is_edge, all_opt, checked, opposite_colour, pi_copy_neighbor, joined_type, add_to_phases,
  one_plus_phase,
}

module _ {P S : Type 0} where
  unfoldable pub check_spider_fusion : Graph P S → ℕ → ℕ → Option Bool
  check_spider_fusion g v0 v1 =
      if not (v0 == v1) && is_edge (edge_type_opt g v0 v1) EType.n
      then (do
        t0 ← vertex_type g v0
        t1 ← vertex_type g v1
        some (
            (vtype_eq t0 VType.z && vtype_eq t1 VType.z)
            || (vtype_eq t0 VType.x && vtype_eq t1 VType.x)))
      else some false

  unfoldable pub check_pi_copy : Graph P S → ℕ → Option Bool
  check_pi_copy g v = do
    vt ← vertex_type g v
    elim (opposite_colour vt) [
      | none ↦ some false
      | some ovt ↦ (do
        d ← degree g v
        if d == 0 then some false else (do
          ws ← neighbor_vec g v
          all_opt
              (λ w. do e ← edge_type g v w; t ← vertex_type g w; some (pi_copy_neighbor vt ovt e t))
              ws))
    ]

module _ {P S : Type 0} ⦃p : PhaseOps P⦄ ⦃c : ScalarOps P S⦄ where
  unfoldable pub check_remove_id : Graph P S → ℕ → Option Bool
  check_remove_id g v = do
    t ← vertex_type g v
    if not (is_spider t) then some false else (do
      q ← phase g v
      if not (p.is_zero q) then some false else (do d ← degree g v; some (d == 2)))

module _ {P S : Type 0} where
  unfoldable pub check_color_change : Graph P S → ℕ → Option Bool
  check_color_change g v = do t ← vertex_type g v; some (is_spider t)

  unfoldable pub check_remove_single : Graph P S → ℕ → Option Bool
  check_remove_single g v = do
    t ← vertex_type g v
    ws ← incident_edges g v
    some (length ws == 0 && is_spider t)

  unfoldable pub check_remove_pair : Graph P S → ℕ → ℕ → Option Bool
  check_remove_pair g v0 v1 = do
    t0 ← vertex_type g v0
    t1 ← vertex_type g v1
    n0 ← incident_edges g v0
    if not (length n0 == 1) then some false else (do
      n1 ← incident_edges g v1
      some (length n1 == 1 && is_spider t0 && is_spider t1 && connected g v0 v1))

module _ {P S : Type 0} ⦃p : PhaseOps P⦄ ⦃c : ScalarOps P S⦄ where
  -- The loop of `spider_fusion_unchecked`.
  unfoldable pub fuse_edges : Graph P S → ℕ → Nhd → Option (Graph P S)
  fuse_edges g v0 [] = some g
  fuse_edges g v0 ((v, et) ∷ nhd) = do
    g1 ← if v == v0 then some g else add_edge_smart g v0 v et
    fuse_edges g1 v0 nhd

  unfoldable pub spider_fusion_unchecked : Graph P S → ℕ → ℕ → Option (Graph P S)
  spider_fusion_unchecked g v0 v1 = do
    nhd ← incident_edges g v1
    g1 ← fuse_edges g v0 nhd
    q ← phase g1 v1
    g2 ← add_to_phase g1 v0 q
    remove_vertex g2 v1

  unfoldable pub spider_fusion : Graph P S → ℕ → ℕ → Option (Graph P S × Bool)
  spider_fusion g v0 v1 =
      checked (λ h. check_spider_fusion h v0 v1) (λ h. spider_fusion_unchecked h v0 v1) g

  unfoldable pub pi_copy_unchecked : Graph P S → ℕ → Option (Graph P S)
  pi_copy_unchecked g v = do
    q ← phase g v
    g1 ← set_phase (mul_phase g q) v (p.neg q)
    ws ← neighbor_vec g1 v
    add_to_phases g1 (p.ratio (pos 1) 1) ws

  unfoldable pub pi_copy : Graph P S → ℕ → Option (Graph P S × Bool)
  pi_copy g v = checked (λ h. check_pi_copy h v) (λ h. pi_copy_unchecked h v) g

  unfoldable pub remove_id_unchecked : Graph P S → ℕ → Option (Graph P S)
  remove_id_unchecked g v = do
    nhd ← incident_edges g v
    (n0, e0) ← get_elem? nhd 0
    (n1, e1) ← get_elem? nhd 1
    et ← joined_type e0 e1
    g1 ← add_edge_smart g n0 n1 et
    remove_vertex g1 v

  unfoldable pub remove_id : Graph P S → ℕ → Option (Graph P S × Bool)
  remove_id g v = checked (λ h. check_remove_id h v) (λ h. remove_id_unchecked h v) g

module _ {P S : Type 0} where
  unfoldable pub color_change_unchecked : Graph P S → ℕ → Option (Graph P S)
  color_change_unchecked g v = do
    t ← vertex_type g v
    g1 ← set_vertex_type g v (if vtype_eq t VType.x then VType.z else VType.x)
    ws ← neighbor_vec g1 v
    toggle_all g1 v ws

module _ {P S : Type 0} ⦃p : PhaseOps P⦄ ⦃c : ScalarOps P S⦄ where
  unfoldable pub color_change : Graph P S → ℕ → Option (Graph P S × Bool)
  color_change g v = checked (λ h. check_color_change h v) (λ h. color_change_unchecked h v) g

  unfoldable pub remove_single_unchecked : Graph P S → ℕ → Option (Graph P S)
  remove_single_unchecked g v = do q ← phase g v; remove_vertex (mul_scalar g (one_plus_phase q)) v

  unfoldable pub remove_single : Graph P S → ℕ → Option (Graph P S × Bool)
  remove_single g v = checked (λ h. check_remove_single h v) (λ h. remove_single_unchecked h v) g

  unfoldable pub remove_pair_unchecked : Graph P S → ℕ → ℕ → Option (Graph P S)
  remove_pair_unchecked g v0 v1 = do
    t0 ← vertex_type g v0
    t1 ← vertex_type g v1
    et ← edge_type g v0 v1
    q0 ← phase g v0
    q1 ← phase g v1
    let same =
        (vtype_eq t0 t1 && etype_eq et EType.n) || (not (vtype_eq t0 t1) && etype_eq et EType.h)
    let q2 = p.add (p.add p.one q0) q1
    let g1 =
        if same
        then mul_scalar g (one_plus_phase (p.add q0 q1))
        else mul_sqrt2_pow
            (mul_scalar g
              (c.add (c.add (c.add c.one (c.from_phase q0)) (c.from_phase q1)) (c.from_phase q2)))
            (negsuc 0)
    g2 ← remove_vertex g1 v0
    remove_vertex g2 v1

  unfoldable pub remove_pair : Graph P S → ℕ → ℕ → Option (Graph P S × Bool)
  remove_pair g v0 v1 =
      checked (λ h. check_remove_pair h v0 v1) (λ h. remove_pair_unchecked h v0 v1) g
