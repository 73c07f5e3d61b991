-- ===== src/VecGraph.antt =====
-- quizx/src/vec_graph.rs: the adjacency-list graph. A method that may panic returns `Option`; a
-- method with `&mut self` returns the new graph. Phases and scalars are values of the parameters
-- `P` and `S`.
pub mod Neighbors
pub mod Valid
pub mod Vertices
pub mod HalfEdges
pub mod Edges
pub mod Unlinked
pub mod Removal
pub mod Fields
use quizx.Prelude.{
  ℕ, zero, suc, ◌+◌, ◌-◌, ◌≡◌, refl, Bool, true, false, ◌&&◌, Option, none, some, List, [], ◌∷◌,
  ◌++◌, length, get_elem?, set, slot, push, pop, pop_from, is_some, ◌>>=◌, ◌==◌, ltb, leb,
  if◌then◌else◌,
}
use quizx.Prelude.Int.{ℤ, pos}
use quizx.Types.{VType, EType}
use quizx.Interface.{PhaseOps, ScalarOps}

-- struct VData
pub record VData (P : Type 0) : Type 0 where
  pub ty : VType
  pub phase : P
  pub qubit : ℤ
  pub row : ℤ

-- The adjacency list of a vertex.
abbrev pub Nhd : Type 0
Nhd = List (ℕ × EType)

-- struct Graph
pub record Graph (P S : Type 0) : Type 0 where
  pub vdata : List (Option (VData P))
  pub edata : List (Option Nhd)
  pub holes : List ℕ
  pub inputs : List ℕ
  pub outputs : List ℕ
  pub numv : ℕ
  pub nume : ℕ
  pub scalar : S

-- `n -= 1` on a `usize`, with the check for overflow.
abbrev pub decrement : ℕ → Option ℕ
decrement zero = none
decrement (suc n) = some n

-- The position of the first entry for `v`.
unfoldable pub index : Nhd → ℕ → Option ℕ
index [] v = none
index ((v0, e) ∷ nhd) v =
    let rest = index nhd v in if v == v0 then some 0 else (do i ← rest; some (suc i))

-- The type in the first entry for `v`.
unfoldable pub value : Nhd → ℕ → Option EType
value [] v = none
value ((v0, e) ∷ nhd) v = if v == v0 then some e else value nhd v

-- `Vec::swap_remove`: the last entry takes the place of the one that is removed.
unfoldable pub swap_remove : Nhd → ℕ → Option Nhd
swap_remove [] i = none
swap_remove (x ∷ xs) i =
    let (rest, last) = pop_from x xs in
    if ltb i (length rest)
    then some (set rest i last)
    else if i == length rest
    then some rest
    else none

-- The entries of one adjacency list with `v <= v1`: the inner loop of the edge iterator.
unfoldable pub edges_at : ℕ → Nhd → List (ℕ × ℕ × EType)
edges_at v [] = []
edges_at v ((v1, e) ∷ nhd) =
    let rest = edges_at v nhd in if ltb v1 v then rest else (v, v1, e) ∷ rest

-- `edges()` collected, from slot `v` on.
unfoldable pub edges_from : ℕ → List (Option Nhd) → List (ℕ × ℕ × EType)
edges_from v [] = []
edges_from v (none ∷ rest) = edges_from (v + 1) rest
edges_from v (some nhd ∷ rest) = edges_at v nhd ++ edges_from (v + 1) rest

-- `find_edge`: the first edge, in the order of `edges()`, that passes the test.
unfoldable pub find_edge_at : (ℕ → ℕ → EType → Bool) → ℕ → Nhd → Option (ℕ × ℕ × EType)
find_edge_at f v [] = none
find_edge_at f v ((v1, e) ∷ nhd) =
    let rest = find_edge_at f v nhd in if leb v v1 && f v v1 e then some (v, v1, e) else rest

unfoldable pub find_edge_from :
    (ℕ → ℕ → EType → Bool) → ℕ → List (Option Nhd) → Option (ℕ × ℕ × EType)
find_edge_from f v [] = none
find_edge_from f v (none ∷ rest) = find_edge_from f (v + 1) rest
find_edge_from f v (some nhd ∷ rest) =
    let later = find_edge_from f (v + 1) rest in
    elim (find_edge_at f v nhd) [ some found ↦ some found | none ↦ later ]

-- `vertices()` collected: the indices of the slots in use, from `v` on.
unfoldable pub vertices_from {ℓ} : {A : Type ℓ} → ℕ → List (Option A) → List ℕ
vertices_from v [] = []
vertices_from v (none ∷ rest) = vertices_from (v + 1) rest
vertices_from v (some d ∷ rest) = v ∷ vertices_from (v + 1) rest

-- `find_vertex`
unfoldable pub find_vertex_from {ℓ} : {A : Type ℓ} → (ℕ → Bool) → ℕ → List (Option A) → Option ℕ
find_vertex_from f v [] = none
find_vertex_from f v (d ∷ rest) =
    let later = find_vertex_from f (v + 1) rest in if is_some d && f v then some v else later

module _ {P S : Type 0} where
  unfoldable pub vertex_vec : Graph P S → List ℕ
  vertex_vec g = vertices_from 0 g.vdata

  unfoldable pub find_vertex : Graph P S → (ℕ → Bool) → Option ℕ
  find_vertex g f = find_vertex_from f 0 g.vdata

  unfoldable pub edge_vec : Graph P S → List (ℕ × ℕ × EType)
  edge_vec g = edges_from 0 g.edata

  unfoldable pub find_edge : Graph P S → (ℕ → ℕ → EType → Bool) → Option (ℕ × ℕ × EType)
  find_edge g f = find_edge_from f 0 g.edata

  -- `neighbor_at`: vertex 0 where the list is absent, a panic where it is too short.
  unfoldable pub neighbor_at : Graph P S → ℕ → ℕ → Option ℕ
  neighbor_at g v n =
      if ltb v (length g.edata)
      then elim (slot g.edata v) [ some nhd ↦ (do x ← get_elem? nhd n; some x.0) | none ↦ some 0 ]
      else none

module _ {P S : Type 0} where
  -- Graph::new
  pub new : S → Graph P S
  new one = record {
    vdata = [];
    edata = [];
    holes = [];
    inputs = [];
    outputs = [];
    numv = 0;
    nume = 0;
    scalar = one;
  }

  pub vindex : Graph P S → ℕ
  vindex g = length g.vdata

  -- Private; an absent source vertex or edge is ignored.
  unfoldable pub remove_half_edge : Graph P S → ℕ → ℕ → Option (Graph P S)
  remove_half_edge g s t = elim (slot g.edata s) [
    | none ↦ some g
    | some nhd ↦ elim (index nhd t) [
      | none ↦ some g
      | some i ↦ do nhd' ← swap_remove nhd i; some (record g { edata = set g.edata s (some nhd') })
    ]
  ]

  unfoldable pub add_vertex_with_data : Graph P S → VData P → Graph P S × ℕ
  add_vertex_with_data g d = elim (pop g.holes) [
    | some (holes, v) ↦ (
      record g {
        numv = g.numv + 1;
        holes = holes;
        vdata = set g.vdata v (some d);
        edata = set g.edata v (some []);
      },
      v,
    )
    | none ↦ (
      record g { numv = g.numv + 1; vdata = push g.vdata (some d); edata = push g.edata (some []) },
      length g.vdata,
    )
  ]

  -- The loop of `remove_vertex` over the removed adjacency list.
  unfoldable pub remove_back_edges : Graph P S → ℕ → Nhd → Option (Graph P S)
  remove_back_edges g v [] = some g
  remove_back_edges g v ((v1, e) ∷ adj) = do
    nume ← decrement g.nume
    g' ← remove_half_edge (record g { nume = nume }) v1 v
    remove_back_edges g' v adj

  unfoldable pub remove_vertex : Graph P S → ℕ → Option (Graph P S)
  remove_vertex g v = do
    numv ← decrement g.numv
    adj ← slot g.edata v
    remove_back_edges
        (record g {
          numv = numv;
          holes = push g.holes v;
          vdata = set g.vdata v none;
          edata = set g.edata v none;
        })
        v adj

  -- The two `push` calls, one after the other.
  unfoldable pub push_half_edge : Graph P S → ℕ → ℕ → EType → Option (Graph P S)
  push_half_edge g s t e = do
    nhd ← slot g.edata s
    some (record g { edata = set g.edata s (some (push nhd (t, e))) })

  unfoldable pub add_edge_with_type : Graph P S → ℕ → ℕ → EType → Option (Graph P S)
  add_edge_with_type g s t e = do
    g1 ← push_half_edge (record g { nume = g.nume + 1 }) s t e
    push_half_edge g1 t s e

  unfoldable pub remove_edge : Graph P S → ℕ → ℕ → Option (Graph P S)
  remove_edge g s t = do
    nume ← decrement g.nume
    g1 ← remove_half_edge (record g { nume = nume }) s t
    remove_half_edge g1 t s

  -- `vertex_data`, and the reads that go through it
  unfoldable pub vertex_data : Graph P S → ℕ → Option (VData P)
  vertex_data g v = slot g.vdata v

  unfoldable pub vertex_type : Graph P S → ℕ → Option VType
  unfolding vertex_data
  vertex_type g v = do d ← vertex_data g v; some d.ty

  unfoldable pub phase : Graph P S → ℕ → Option P
  phase g v = do d ← slot g.vdata v; some d.phase

  unfoldable pub qubit : Graph P S → ℕ → Option ℤ
  qubit g v = do d ← slot g.vdata v; some d.qubit

  unfoldable pub row : Graph P S → ℕ → Option ℤ
  row g v = do d ← slot g.vdata v; some d.row

  -- `if let Some(Some(d)) = self.vdata.get_mut(v) { change } else { panic }`
  unfoldable pub update_data : Graph P S → ℕ → (VData P → VData P) → Option (Graph P S)
  update_data g v change = do
    d ← slot g.vdata v
    some (record g { vdata = set g.vdata v (some (change d)) })

  unfoldable pub set_phase : Graph P S → ℕ → P → Option (Graph P S)
  set_phase g v p = update_data g v (λ d. record d { phase = p })

  unfoldable pub set_vertex_type : Graph P S → ℕ → VType → Option (Graph P S)
  set_vertex_type g v t = update_data g v (λ d. record d { ty = t })

  unfoldable pub set_coord : Graph P S → ℕ → ℤ → ℤ → Option (Graph P S)
  set_coord g v x y = update_data g v (λ d. record d { qubit = x; row = y })

  unfoldable pub set_qubit : Graph P S → ℕ → ℤ → Option (Graph P S)
  set_qubit g v q = update_data g v (λ d. record d { qubit = q })

  unfoldable pub set_row : Graph P S → ℕ → ℤ → Option (Graph P S)
  set_row g v r = update_data g v (λ d. record d { row = r })

  -- One of the two writes of `set_edge_type`.
  unfoldable pub set_half_edge : Graph P S → ℕ → ℕ → EType → Option (Graph P S)
  set_half_edge g s t e = do
    nhd ← slot g.edata s
    i ← index nhd t
    some (record g { edata = set g.edata s (some (set nhd i (t, e))) })

  unfoldable pub set_edge_type : Graph P S → ℕ → ℕ → EType → Option (Graph P S)
  set_edge_type g s t e = do g1 ← set_half_edge g s t e; set_half_edge g1 t s e

  -- No panic here: an absent vertex or edge reads as `None`.
  unfoldable pub edge_type_opt : Graph P S → ℕ → ℕ → Option EType
  edge_type_opt g s t = elim (slot g.edata s) [ none ↦ none | some nhd ↦ value nhd t ]

  unfoldable pub incident_edges : Graph P S → ℕ → Option Nhd
  incident_edges g v = slot g.edata v

  unfoldable pub degree : Graph P S → ℕ → Option ℕ
  degree g v = do nhd ← slot g.edata v; some (length nhd)

  unfoldable pub contains_vertex : Graph P S → ℕ → Bool
  contains_vertex g v = ltb v (length g.vdata) && is_some (slot g.vdata v)

module _ {P S : Type 0} ⦃p : PhaseOps P⦄ where
  unfoldable pub add_to_phase : Graph P S → ℕ → P → Option (Graph P S)
  add_to_phase g v q = update_data g v (λ d. record d { phase = p.normalize (p.add d.phase q) })

  unfoldable pub add_vertex : Graph P S → VType → Graph P S × ℕ
  add_vertex g t =
      add_vertex_with_data g
        (record { ty = t; phase = p.ratio (pos 0) 1; qubit = pos 0; row = pos 0 })
