-- ===== src/GraphLike.antt =====
-- quizx/src/graph.rs, the provided methods of the trait `GraphLike`, on the adjacency-list graph.
pub mod Parallel
pub mod Smart
use quizx.Prelude.{
  ℕ, zero, suc, ◌+◌, ◌*◌, ◌≡◌, Bool, true, false, ◌&&◌, ◌||◌, not, Option, none, some, List, [],
  ◌∷◌, ◌++◌, map, length, get_elem?, drop, is_some, guard, ◌>>=◌, ◌>>◌, ◌==◌, leb, ltb,
  if◌then◌else◌,
}
use quizx.Prelude.Int.{ℤ, pos, neg, negsuc}
use quizx.Types.{
  VType, EType, BasisElem, opposite, merge, is_z, is_flipped, is_spider, vtype_eq, etype_eq,
}
use quizx.Interface.{PhaseOps, ScalarOps}
use quizx.VecGraph.{
  Graph, VData, Nhd, new, add_vertex_with_data, add_vertex, remove_vertex, add_edge_with_type,
  remove_edge, vertex_type, vertex_data, phase, set_phase, set_vertex_type, set_edge_type,
  edge_type_opt, incident_edges, degree, add_to_phase, vertex_vec, edge_vec,
}

module _ {P S : Type 0} where
  unfoldable pub add_edge : Graph P S → ℕ → ℕ → Option (Graph P S)
  add_edge g s t = add_edge_with_type g s t EType.n

  -- `edge_type_opt(s, t).expect("Edge not found")`
  unfoldable pub edge_type : Graph P S → ℕ → ℕ → Option EType
  edge_type g s t = edge_type_opt g s t

  unfoldable pub connected : Graph P S → ℕ → ℕ → Bool
  connected g s t = is_some (edge_type_opt g s t)

  unfoldable pub toggle_edge_type : Graph P S → ℕ → ℕ → Option (Graph P S)
  unfolding edge_type
  toggle_edge_type g v0 v1 = do e ← edge_type g v0 v1; set_edge_type g v0 v1 (opposite e)

  unfoldable pub neighbor_vec : Graph P S → ℕ → Option (List ℕ)
  neighbor_vec g v = do nhd ← incident_edges g v; some (map (λ x. x.0) nhd)

  -- `for w in neighbors { toggle_edge_type(v, w) }`
  unfoldable pub toggle_all : Graph P S → ℕ → List ℕ → Option (Graph P S)
  toggle_all g v [] = some g
  toggle_all g v (w ∷ ws) = do g' ← toggle_edge_type g v w; toggle_all g' v ws

  -- One round of `x_to_z`.
  unfoldable pub x_to_z_at : Graph P S → ℕ → Option (Graph P S)
  x_to_z_at g v = do
    t ← vertex_type g v
    if vtype_eq t VType.x
        then (do g1 ← set_vertex_type g v VType.z; ws ← neighbor_vec g1 v; toggle_all g1 v ws)
        else some g

  unfoldable pub x_to_z_all : Graph P S → List ℕ → Option (Graph P S)
  x_to_z_all g [] = some g
  x_to_z_all g (v ∷ vs) = do g' ← x_to_z_at g v; x_to_z_all g' vs

  unfoldable pub x_to_z : Graph P S → Option (Graph P S)
  x_to_z g = x_to_z_all g (vertex_vec g)

-- `BasisElem::phase`
abbrev pub basis_phase : {P : Type 0} ⦃p : PhaseOps P⦄ → BasisElem → P
basis_phase ⦃p⦄ b = if is_flipped b then p.ratio (pos 1) 1 else p.ratio (pos 0) 1

module _ {P S : Type 0} ⦃p : PhaseOps P⦄ ⦃c : ScalarOps P S⦄ where
  -- `scalar_mut().mul_sqrt2_pow(k)`
  abbrev pub mul_sqrt2_pow : Graph P S → ℤ → Graph P S
  mul_sqrt2_pow g k = record g { scalar = c.mul g.scalar (c.sqrt2_pow k) }

  -- `scalar_mut().mul_phase(q)`
  abbrev pub mul_phase : Graph P S → P → Graph P S
  mul_phase g q = record g { scalar = c.mul g.scalar (c.from_phase q) }

  -- `*scalar_mut() *= s`
  abbrev pub mul_scalar : Graph P S → S → Graph P S
  mul_scalar g s = record g { scalar = c.mul g.scalar s }

  unfoldable pub add_vertex_with_phase : Graph P S → VType → P → Option (Graph P S × ℕ)
  add_vertex_with_phase g ty q = do
    let (g1, v) = add_vertex g ty
    g2 ← set_phase g1 v q
    some (g2, v)

  -- A second edge from a vertex to itself.
  unfoldable pub smart_loop : Graph P S → ℕ → VType → EType → Option (Graph P S)
  smart_loop g s st ety =
      if is_spider st
      then (if etype_eq ety EType.h
          then (do g1 ← add_to_phase g s p.one; some (mul_sqrt2_pow g1 (negsuc 0)))
          else some g)
      else none

  -- The pi phase that a parallel edge leaves.
  unfoldable pub smart_phase : Graph P S → ℕ → Option (Graph P S)
  smart_phase g s = do g1 ← add_to_phase g s (p.ratio (pos 1) 1); some (mul_sqrt2_pow g1 (negsuc 0))

  -- A parallel edge `ety` beside `ety0`, between spiders of one colour.
  unfoldable pub smart_same : Graph P S → ℕ → ℕ → EType → EType → Option (Graph P S)
  smart_same g s t EType.n EType.n = some g
  smart_same g s t EType.h EType.h = do g1 ← remove_edge g s t; some (mul_sqrt2_pow g1 (negsuc 1))
  smart_same g s t EType.h EType.n = do g1 ← set_edge_type g s t EType.n; smart_phase g1 s
  smart_same g s t EType.n EType.h = smart_phase g s
  smart_same g s t EType.n EType.wio = none
  smart_same g s t EType.h EType.wio = none
  smart_same g s t EType.wio _ = none

  -- The same between spiders of two colours.
  unfoldable pub smart_other : Graph P S → ℕ → ℕ → EType → EType → Option (Graph P S)
  smart_other g s t EType.n EType.n = do g1 ← remove_edge g s t; some (mul_sqrt2_pow g1 (negsuc 1))
  smart_other g s t EType.n EType.h = do g1 ← set_edge_type g s t EType.h; smart_phase g1 s
  smart_other g s t EType.h EType.n = smart_phase g s
  smart_other g s t EType.h EType.h = some g
  smart_other g s t EType.n EType.wio = none
  smart_other g s t EType.h EType.wio = none
  smart_other g s t EType.wio _ = none

  unfoldable pub smart_parallel :
      Graph P S → ℕ → ℕ → VType → VType → EType → EType → Option (Graph P S)
  smart_parallel g s t VType.z VType.z e0 e = smart_same g s t e0 e
  smart_parallel g s t VType.x VType.x e0 e = smart_same g s t e0 e
  smart_parallel g s t VType.z VType.x e0 e = smart_other g s t e0 e
  smart_parallel g s t VType.x VType.z e0 e = smart_other g s t e0 e
  smart_parallel g s t _ _ e0 e = none

  unfoldable pub add_edge_smart : Graph P S → ℕ → ℕ → EType → Option (Graph P S)
  add_edge_smart g s t ety = do
    st ← vertex_type g s
    if s == t then smart_loop g s st ety else elim (edge_type_opt g s t) [
      | some ety0 ↦ (do tt ← vertex_type g t; smart_parallel g s t st tt ety0 ety)
      | none ↦ add_edge_with_type g s t ety
    ]

  -- Replaces a boundary vertex by a basis element.
  unfoldable pub plug_vertex : Graph P S → ℕ → BasisElem → Option (Graph P S)
  plug_vertex g v b = do
    g1 ← set_vertex_type g v VType.z
    g2 ← set_phase g1 v (basis_phase b)
    if is_z b
        then (do ws ← neighbor_vec g2 v; w ← get_elem? ws 0; toggle_edge_type g2 v w)
        else some g2
