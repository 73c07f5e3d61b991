-- ===== src/HashGraph.antt =====
-- quizx/src/hash_graph.rs: the graph on hash tables. A table is the list of its entries in the order
-- in which it is iterated, which the program leaves open; each key occurs once.
pub mod Tables
pub mod Simulates
pub mod Halves
pub mod Removal
pub mod Vertices
pub mod Refines
use quizx.Prelude.{
  ℕ, zero, suc, ◌+◌, ◌≡◌, refl, Bool, true, false, Option, none, some, List, [], ◌∷◌, map, length,
  is_some, ◌>>=◌, ◌==◌, if◌then◌else◌,
}
use quizx.Prelude.Int.{ℤ, pos}
use quizx.Types.{VType, EType}
use quizx.Interface.{PhaseOps}
use quizx.VecGraph.{VData, Nhd, decrement}

-- type VTab
abbrev pub VTab : Type 0 → Type 0
VTab A = List (ℕ × A)

module _ {A : Type 0} where
  unfoldable pub find : VTab A → ℕ → Option A
  find [] v = none
  find ((v0, a) ∷ tab) v = let rest = find tab v in if v0 == v then some a else rest

  unfoldable pub insert : VTab A → ℕ → A → VTab A
  insert [] v a = (v, a) ∷ []
  insert ((v0, b) ∷ tab) v a =
      let rest = insert tab v a in if v0 == v then (v, a) ∷ tab else (v0, b) ∷ rest

  unfoldable pub remove : VTab A → ℕ → VTab A
  remove [] v = []
  remove ((v0, b) ∷ tab) v = let rest = remove tab v in if v0 == v then rest else (v0, b) ∷ rest

  unfoldable pub keys : VTab A → List ℕ
  keys [] = []
  keys ((v0, a) ∷ tab) = v0 ∷ keys tab

-- struct Graph
pub record HashGraph (P S : Type 0) : Type 0 where
  pub vdata : VTab (VData P)
  pub edata : VTab Nhd
  pub inputs : List ℕ
  pub outputs : List ℕ
  pub numv : ℕ
  pub nume : ℕ
  pub freshv : ℕ
  pub scalar : S

module _ {P S : Type 0} where
  unfoldable pub new : S → HashGraph P S
  new one = record {
    vdata = [];
    edata = [];
    inputs = [];
    outputs = [];
    numv = 0;
    nume = 0;
    freshv = 0;
    scalar = one;
  }

  -- Private; an absent source vertex or edge is ignored.
  unfoldable pub remove_half_edge : HashGraph P S → ℕ → ℕ → HashGraph P S
  remove_half_edge g s t = elim (find g.edata s) [
    | none ↦ g
    | some nhd ↦ record g { edata = insert g.edata s (remove nhd t) }
  ]

  unfoldable pub add_vertex_with_data : HashGraph P S → VData P → HashGraph P S × ℕ
  add_vertex_with_data g d = (
    record g {
      freshv = g.freshv + 1;
      numv = g.numv + 1;
      vdata = insert g.vdata g.freshv d;
      edata = insert g.edata g.freshv [];
    },
    g.freshv,
  )

  -- The loop of `remove_vertex` over the neighbors.
  unfoldable pub remove_back_edges : HashGraph P S → ℕ → List ℕ → Option (HashGraph P S)
  remove_back_edges g v [] = some g
  remove_back_edges g v (v1 ∷ vs) = do
    nume ← decrement g.nume
    remove_back_edges (remove_half_edge (record g { nume = nume }) v1 v) v vs

  unfoldable pub remove_vertex : HashGraph P S → ℕ → Option (HashGraph P S)
  remove_vertex g v = do
    numv ← decrement g.numv
    nhd ← find g.edata v
    g1 ← remove_back_edges (record g { numv = numv }) v (keys nhd)
    some (record g1 { vdata = remove g1.vdata v; edata = remove g1.edata v })

  -- One of the two inserts of `add_edge_with_type`.
  unfoldable pub insert_half_edge : HashGraph P S → ℕ → ℕ → EType → Option (HashGraph P S)
  insert_half_edge g s t e = do
    nhd ← find g.edata s
    some (record g { edata = insert g.edata s (insert nhd t e) })

  unfoldable pub add_edge_with_type : HashGraph P S → ℕ → ℕ → EType → Option (HashGraph P S)
  add_edge_with_type g s t e = do
    g1 ← insert_half_edge (record g { nume = g.nume + 1 }) s t e
    insert_half_edge g1 t s e

  unfoldable pub remove_edge : HashGraph P S → ℕ → ℕ → Option (HashGraph P S)
  remove_edge g s t = do
    nume ← decrement g.nume
    some (remove_half_edge (remove_half_edge (record g { nume = nume }) s t) t s)

  unfoldable pub vertex_data : HashGraph P S → ℕ → Option (VData P)
  vertex_data g v = find g.vdata v

  unfoldable pub vertex_type : HashGraph P S → ℕ → Option VType
  vertex_type g v = do d ← find g.vdata v; some d.ty

  unfoldable pub phase : HashGraph P S → ℕ → Option P
  phase g v = do d ← find g.vdata v; some d.phase

  unfoldable pub qubit : HashGraph P S → ℕ → Option ℤ
  qubit g v = do d ← find g.vdata v; some d.qubit

  unfoldable pub row : HashGraph P S → ℕ → Option ℤ
  row g v = do d ← find g.vdata v; some d.row

  -- The writers of a vertex's data go through `vdata.get_mut`.
  unfoldable pub update_data : HashGraph P S → ℕ → (VData P → VData P) → Option (HashGraph P S)
  update_data g v change = do
    d ← find g.vdata v
    some (record g { vdata = insert g.vdata v (change d) })

  unfoldable pub set_phase : HashGraph P S → ℕ → P → Option (HashGraph P S)
  set_phase g v p = update_data g v (λ d. record d { phase = p })

  unfoldable pub set_vertex_type : HashGraph P S → ℕ → VType → Option (HashGraph P S)
  set_vertex_type g v t = update_data g v (λ d. record d { ty = t })

  unfoldable pub set_coord : HashGraph P S → ℕ → ℤ → ℤ → Option (HashGraph P S)
  set_coord g v x y = update_data g v (λ d. record d { qubit = x; row = y })

  unfoldable pub set_qubit : HashGraph P S → ℕ → ℤ → Option (HashGraph P S)
  set_qubit g v q = update_data g v (λ d. record d { qubit = q })

  unfoldable pub set_row : HashGraph P S → ℕ → ℤ → Option (HashGraph P S)
  set_row g v r = update_data g v (λ d. record d { row = r })

  -- One of the two writes of `set_edge_type`.
  unfoldable pub set_half_edge : HashGraph P S → ℕ → ℕ → EType → Option (HashGraph P S)
  set_half_edge g s t e = do
    nhd ← find g.edata s
    old ← find nhd t
    some (record g { edata = insert g.edata s (insert nhd t e) })

  unfoldable pub set_edge_type : HashGraph P S → ℕ → ℕ → EType → Option (HashGraph P S)
  set_edge_type g s t e = do g1 ← set_half_edge g s t e; set_half_edge g1 t s e

  -- The outer `Option` is a panic: unlike the graph on vectors, this one wants the source vertex.
  unfoldable pub edge_type_opt : HashGraph P S → ℕ → ℕ → Option (Option EType)
  edge_type_opt g s t = do nhd ← find g.edata s; some (find nhd t)

  unfoldable pub neighbors : HashGraph P S → ℕ → Option (List ℕ)
  neighbors g v = do nhd ← find g.edata v; some (keys nhd)

  unfoldable pub incident_edges : HashGraph P S → ℕ → Option Nhd
  incident_edges g v = find g.edata v

  unfoldable pub degree : HashGraph P S → ℕ → Option ℕ
  degree g v = do nhd ← find g.edata v; some (length nhd)

  unfoldable pub contains_vertex : HashGraph P S → ℕ → Bool
  contains_vertex g v = is_some (find g.vdata v)

module _ {P S : Type 0} ⦃p : PhaseOps P⦄ where
  unfoldable pub add_to_phase : HashGraph P S → ℕ → P → Option (HashGraph P S)
  add_to_phase g v q = update_data g v (λ d. record d { phase = p.normalize (p.add d.phase q) })

  unfoldable pub add_vertex : HashGraph P S → VType → HashGraph P S × ℕ
  add_vertex g t =
      add_vertex_with_data g
        (record { ty = t; phase = p.ratio (pos 0) 1; qubit = pos 0; row = pos 0 })
