-- ===== src/Extract/Biadjacency.antt =====
-- `update_frontier_biadj` of quizx/src/extract.rs: afterwards the edges between the frontier and its
-- neighbours are the ones of the matrix.
use quizx.Prelude.{
  ℕ, zero, suc, ◌+◌, ◌<◌, ◌≡◌, ◌≢◌, refl, sym, ap, ◌∙◌, subst, true, false, ◌&&◌, Option, none,
  some, List, [], ◌∷◌, arith, slot, get_elem?, length, is_some, is_some-cases, Bool-cases,
  Option-cases, inl, inr, ◌==◌, if◌then◌else◌,
}
use quizx.Types.{EType}
use quizx.VecGraph.{Graph, Nhd, edge_type_opt, add_edge_with_type, remove_edge}
use quizx.VecGraph.Valid.{IsValid}
use quizx.VecGraph.Edges.{
  add_edge_with_type_lem, remove_edge_lem, add_edge_tables, remove_edge_tables,
}
use quizx.GraphLike.{connected}
use quizx.Rules.Checked.{contains}
use quizx.Linalg.{Mat2, entry}
use quizx.Extract.{Extractor, seconds, match_row, match_rows, update_frontier_biadj}

-- No vertex occurs twice.
abbrev pub Distinct : List ℕ → Type 0
Distinct [] = Unit
Distinct (w ∷ ws) = (contains ws w ≡ false) × Distinct ws

-- No vertex is in both lists.
abbrev pub Apart : List ℕ → List ℕ → Type 0
Apart [] ws = Unit
Apart (v ∷ vs) ws = (contains ws v ≡ false) × Apart vs ws

-- The edge that an entry of the matrix leaves where there was the edge old: none at 0; at 1 the old
-- one, or a Hadamard edge.
abbrev pub entry_edge : ℕ → Option EType → Option EType
entry_edge b old = if b == 1 then elim old [ none ↦ some EType.h | some e ↦ some e ] else none

get-contains : (ws : List ℕ) (k w : ℕ) → get_elem? ws k ≡ some w → contains ws w ≡ true
get-contains [] k w h = cc
get-contains (x ∷ ws) zero w h = ground (arith, h)
get-contains (x ∷ ws) (suc k) w h = ground (arith, get-contains ws k w h)

contains-ne :
    (ws : List ℕ) (a b : ℕ) → contains ws a ≡ true → contains ws b ≡ false → (a == b) ≡ false
contains-ne ws a b h k = elim (Bool-cases (a == b)) [
  | inr ne ↦ ne
  | inl e ↦
      let same : a ≡ b = ground (arith, e) in absurd (bad (sym (ap (contains ws) same ∙ k) ∙ h))
]
  where
    bad : false ≡ true → ⊥
    bad p = cc

shift : (j k : ℕ) → j + 1 + k ≡ j + suc k
shift j k = omega arith

plus_zero : (k : ℕ) → 0 + k ≡ k
plus_zero k = omega arith

module _ {P S : Type 0} where
  abbrev pub AllLive : Graph P S → List ℕ → Type 0
  AllLive g [] = Unit
  AllLive g (w ∷ ws) = (is_some (slot g.vdata w) ≡ true) × AllLive g ws

  AllLive-vdata :
      (g g' : Graph P S) (ws : List ℕ) → g'.vdata ≡ g.vdata → AllLive g ws → AllLive g' ws
  AllLive-vdata g g' [] e all = tt
  AllLive-vdata g g' (w ∷ ws) e (live, all) =
      (ap (λ d. is_some (slot d w)) e ∙ live, AllLive-vdata g g' ws e all)

  -- All but the edges is the same.
  pub record SameRest (g g' : Graph P S) : Type 0 where
    pub same_vdata : g'.vdata ≡ g.vdata
    pub same_numv : g'.numv ≡ g.numv
    pub same_holes : g'.holes ≡ g.holes
    pub same_inputs : g'.inputs ≡ g.inputs
    pub same_outputs : g'.outputs ≡ g.outputs
    pub same_scalar : g'.scalar ≡ g.scalar

  SameRest-refl : (g : Graph P S) → SameRest g g
  SameRest-refl g = record {
    same_vdata = refl;
    same_numv = refl;
    same_holes = refl;
    same_inputs = refl;
    same_outputs = refl;
    same_scalar = refl;
  }

  SameRest-trans : (g g1 g2 : Graph P S) → SameRest g g1 → SameRest g1 g2 → SameRest g g2
  SameRest-trans g g1 g2 a b = record {
    same_vdata = b.same_vdata ∙ a.same_vdata;
    same_numv = b.same_numv ∙ a.same_numv;
    same_holes = b.same_holes ∙ a.same_holes;
    same_inputs = b.same_inputs ∙ a.same_inputs;
    same_outputs = b.same_outputs ∙ a.same_outputs;
    same_scalar = b.same_scalar ∙ a.same_scalar;
  }

  graph_of : Graph P S → Option (Graph P S) → Graph P S
  graph_of g none = g
  graph_of g (some g1) = g1

  -- Two ends of one run, of which the one only changes edges.
  SameRest-run :
      (g g' : Graph P S) (n : ℕ) (ed : List (Option Nhd)) (o : Option (Graph P S))
      → o ≡ some g'
      → o ≡ some (record g { nume = n; edata = ed })
      → SameRest g g'
  unfolding graph_of
  SameRest-run g g' n ed o run tables =
      let e : g' ≡ record g { nume = n; edata = ed } = ap (graph_of g) (sym run ∙ tables) in
      record {
        same_vdata = ap (λ h. h.vdata) e;
        same_numv = ap (λ h. h.numv) e;
        same_holes = ap (λ h. h.holes) e;
        same_inputs = ap (λ h. h.inputs) e;
        same_outputs = ap (λ h. h.outputs) e;
        same_scalar = ap (λ h. h.scalar) e;
      }

  -- The edge between v and w is the one that the entry b leaves; other edges stay.
  record EdgeSet (g : Graph P S) (v w b : ℕ) (g' : Graph P S) : Type 0 where
    valid : IsValid g'
    same : SameRest g g'
    joined : edge_type_opt g' v w ≡ entry_edge b (edge_type_opt g v w)
    elsewhere :
        (x y : ℕ)
        → (x == v && y == w) ≡ false
        → (x == w && y == v) ≡ false
        → edge_type_opt g' x y ≡ edge_type_opt g x y

  abbrev set_joined : Graph P S → ℕ → ℕ → ℕ → Option (Graph P S)
  set_joined g v w b =
      if b == 1
      then (if connected g v w then some g else add_edge_with_type g v w EType.h)
      else (if connected g v w then remove_edge g v w else some g)

  set_joined-EdgeSet :
      (g : Graph P S) (v w b : ℕ)
      → IsValid g
      → v ≢ w
      → is_some (slot g.vdata v) ≡ true
      → is_some (slot g.vdata w) ≡ true
      → (g' : Graph P S) × (set_joined g v w b ≡ some g') × EdgeSet g v w b g'
  unfolding connected
  set_joined-EdgeSet g v w b valid ne live_v live_w = elim (Bool-cases (b == 1)) [
    | inl one ↦ elim (Option-cases (edge_type_opt g v w)) [
      | inr (e, found) ↦ (
        g,
        ground (arith, one, found),
        record {
          valid = valid;
          same = SameRest-refl g;
          joined = ground (arith, one, found);
          elsewhere = λ x y p q. refl;
        },
      )
      | inl absent ↦
          let (g', run, valid', edges, kept) =
            add_edge_with_type_lem g v w EType.h valid ne live_v live_w absent in
          let (ed, ed', tables, d, d') = add_edge_tables g v w EType.h valid live_v live_w in
          (
            g',
            ground (arith, one, absent, run),
            record {
              valid = valid';
              same =
                  SameRest-run g g' (g.nume + 1) ed' (add_edge_with_type g v w EType.h) run tables;
              joined = ground (arith, one, edges v w);
              elsewhere = λ x y p q. ground (arith, edges x y, p, q);
            },
          )
    ]
    | inr off ↦ elim (Option-cases (edge_type_opt g v w)) [
      | inl absent ↦ (
        g,
        ground (arith, off, absent),
        record {
          valid = valid;
          same = SameRest-refl g;
          joined = ground (arith, off, absent);
          elsewhere = λ x y p q. refl;
        },
      )
      | inr (e, found) ↦
          let (g', run, valid', edges, kept) = remove_edge_lem g v w valid found in
          let (k, ed, ed', tables, count, d, d') = remove_edge_tables g v w valid found in
          (
            g',
            ground (arith, off, found, run),
            record {
              valid = valid';
              same = SameRest-run g g' k ed' (remove_edge g v w) run tables;
              joined = ground (arith, off, edges v w);
              elsewhere = λ x y p q. ground (arith, edges x y, p, q);
            },
          )
    ]
  ]

  -- The same for a row of the matrix, from column j on.
  record RowSet (g : Graph P S) (m : Mat2) (i v j : ℕ) (ws : List ℕ) (g' : Graph P S) : Type 0 where
    valid : IsValid g'
    same : SameRest g g'
    joined :
        (k w b : ℕ)
        → get_elem? ws k ≡ some w
        → entry m i (j + k) ≡ some b
        → edge_type_opt g' v w ≡ entry_edge b (edge_type_opt g v w)
    elsewhere :
        (x y : ℕ)
        → (x == v && contains ws y) ≡ false
        → (contains ws x && y == v) ≡ false
        → edge_type_opt g' x y ≡ edge_type_opt g x y

  row_joined :
      (g g1 g' : Graph P S) (m : Mat2) (i v w j b : ℕ) (ws : List ℕ)
      → EdgeSet g v w b g1
      → RowSet g1 m i v (j + 1) ws g'
      → entry m i j ≡ some b
      → contains ws w ≡ false
      → contains ws v ≡ false
      → (k w' b' : ℕ) → get_elem? (w ∷ ws) k ≡ some w'
      → entry m i (j + k) ≡ some b'
      → edge_type_opt g' v w' ≡ entry_edge b' (edge_type_opt g v w')
  unfolding connected
  row_joined g g1 g' m i v w j b ws set row here new apart zero w' b' at_k at_j =
      let zero_eq : j + 0 ≡ j = omega arith in
      let same_w : w ≡ w' = ground (arith, at_k) in
      let same_b : b ≡ b' = ground (arith, sym here ∙ ap (entry m i) (sym zero_eq) ∙ at_j) in
      subst (λ u. edge_type_opt g' v u ≡ entry_edge b' (edge_type_opt g v u)) same_w
        (subst (λ d. edge_type_opt g' v w ≡ entry_edge d (edge_type_opt g v w)) same_b
          (row.elsewhere v w (ground (arith, new)) (ground (arith, apart)) ∙ set.joined))
  row_joined g g1 g' m i v w j b ws set row here new apart (suc k) w' b' at_k at_j =
      let inside = get-contains ws k w' at_k in
      row.joined k w' b' at_k (ap (entry m i) (shift j k) ∙ at_j)
      ∙ ap (entry_edge b') (
          set.elsewhere v w' (ground (arith, contains-ne ws w' w inside new))
            (ground (arith, contains-ne ws w' v inside apart)))

  RowSet-cons :
      (g g1 g' : Graph P S) (m : Mat2) (i v w j b : ℕ) (ws : List ℕ)
      → EdgeSet g v w b g1
      → RowSet g1 m i v (j + 1) ws g'
      → entry m i j ≡ some b
      → contains ws w ≡ false
      → contains ws v ≡ false
      → RowSet g m i v j (w ∷ ws) g'
  RowSet-cons g g1 g' m i v w j b ws set row here new apart = record {
    valid = row.valid;
    same = SameRest-trans g g1 g' set.same row.same;
    joined = row_joined g g1 g' m i v w j b ws set row here new apart;
    elsewhere = λ x y p q.
        row.elsewhere x y (ground (arith, p)) (ground (arith, q))
        ∙ set.elsewhere x y (ground (arith, p)) (ground (arith, q));
  }

  match_row_step :
      (g g1 : Graph P S) (m : Mat2) (i v w j b : ℕ) (ws : List ℕ)
      → entry m i j ≡ some b
      → set_joined g v w b ≡ some g1
      → match_row g m i v j (w ∷ ws) ≡ match_row g1 m i v (j + 1) ws
  unfolding match_row
  match_row_step g g1 m i v w j b ws here run = rw (here, run) refl

  match_row-RowSet :
      (g : Graph P S) (m : Mat2) (i v j : ℕ) (ws : List ℕ)
      → IsValid g
      → contains ws v ≡ false
      → Distinct ws
      → is_some (slot g.vdata v) ≡ true
      → AllLive g ws
      → ((k : ℕ) → k < length ws → is_some (entry m i (j + k)) ≡ true)
      → (g' : Graph P S) × (match_row g m i v j ws ≡ some g') × RowSet g m i v j ws g'
  unfolding match_row connected
  match_row-RowSet g m i v j [] valid apart distinct live all entries = (
    g,
    refl,
    record {
      valid = valid;
      same = SameRest-refl g;
      joined = λ k w b at_k here. ground (arith, at_k);
      elsewhere = λ x y p q. refl;
    },
  )
  match_row-RowSet g m i v j (w ∷ ws) valid apart (new, distinct) live (live_w, all) entries =
      let zero_eq : j + 0 ≡ j = omega arith in
      let (b, at_j) =
        is_some-cases (entry m i j)
          (ap (λ n. is_some (entry m i n)) (sym zero_eq) ∙ entries 0 (ground arith)) in
      let (g1, run, set) = set_joined-EdgeSet g v w b valid (ground (arith, apart)) live live_w in
      let (g', rest, row) =
        match_row-RowSet g1 m i v (j + 1) ws set.valid (ground (arith, apart)) distinct
          (ap (λ d. is_some (slot d v)) set.same.same_vdata ∙ live)
          (AllLive-vdata g g1 ws set.same.same_vdata all)
          (λ k below.
            ap (λ n. is_some (entry m i n)) (shift j k)
            ∙ entries (suc k) (ground (arith, below))) in
      (
        g',
        match_row_step g g1 m i v w j b ws at_j run ∙ rest,
        RowSet-cons g g1 g' m i v w j b ws set row at_j new (ground (arith, apart)),
      )

  -- The edges between the frontier vs and its neighbours ws are those that the entries of the matrix
  -- leave, from row i on; all other edges and all but the edges stay.
  pub record BiadjSet (g : Graph P S) (m : Mat2) (i : ℕ) (vs ws : List ℕ) (g' : Graph P S)
      : Type 0 where
    pub valid : IsValid g'
    pub same : SameRest g g'
    pub joined :
        (l k v w b : ℕ)
        → get_elem? vs l ≡ some v
        → get_elem? ws k ≡ some w
        → entry m (i + l) k ≡ some b
        → edge_type_opt g' v w ≡ entry_edge b (edge_type_opt g v w)
    pub elsewhere :
        (x y : ℕ)
        → (contains vs x && contains ws y) ≡ false
        → (contains ws x && contains vs y) ≡ false
        → edge_type_opt g' x y ≡ edge_type_opt g x y

  biadj_joined :
      (g g1 g' : Graph P S) (m : Mat2) (i v : ℕ) (vs ws : List ℕ)
      → RowSet g m i v 0 ws g1
      → BiadjSet g1 m (i + 1) vs ws g'
      → contains vs v ≡ false
      → contains ws v ≡ false
      → (l k v' w b : ℕ) → get_elem? (v ∷ vs) l ≡ some v'
      → get_elem? ws k ≡ some w
      → entry m (i + l) k ≡ some b
      → edge_type_opt g' v' w ≡ entry_edge b (edge_type_opt g v' w)
  unfolding connected
  biadj_joined g g1 g' m i v vs ws row rest new apart zero k v' w b at_l at_k here =
      let zero_eq : i + 0 ≡ i = omega arith in
      let same_v : v ≡ v' = ground (arith, at_l) in
      let zero_k = plus_zero k in
      subst (λ u. edge_type_opt g' u w ≡ entry_edge b (edge_type_opt g u w)) same_v
        (rest.elsewhere v w (ground (arith, new)) (ground (arith, apart))
          ∙ row.joined k w b at_k
              (ap (entry m i) zero_k ∙ ap (λ n. entry m n k) (sym zero_eq) ∙ here))
  biadj_joined g g1 g' m i v vs ws row rest new apart (suc l) k v' w b at_l at_k here =
      rest.joined l k v' w b at_l at_k (ap (λ n. entry m n k) (shift i l) ∙ here)
      ∙ ap (entry_edge b) (
          row.elsewhere v' w (ground (arith, contains-ne vs v' v (get-contains vs l v' at_l) new))
            (ground (arith, contains-ne ws w v (get-contains ws k w at_k) apart)))

  BiadjSet-cons :
      (g g1 g' : Graph P S) (m : Mat2) (i v : ℕ) (vs ws : List ℕ)
      → RowSet g m i v 0 ws g1
      → BiadjSet g1 m (i + 1) vs ws g'
      → contains vs v ≡ false
      → contains ws v ≡ false
      → BiadjSet g m i (v ∷ vs) ws g'
  BiadjSet-cons g g1 g' m i v vs ws row rest new apart = record {
    valid = rest.valid;
    same = SameRest-trans g g1 g' row.same rest.same;
    joined = biadj_joined g g1 g' m i v vs ws row rest new apart;
    elsewhere = λ x y p q.
        rest.elsewhere x y (ground (arith, p)) (ground (arith, q))
        ∙ row.elsewhere x y (ground (arith, p)) (ground (arith, q));
  }

  match_rows_step :
      (g g1 : Graph P S) (m : Mat2) (i v : ℕ) (vs ws : List ℕ)
      → match_row g m i v 0 ws ≡ some g1
      → match_rows g m i (v ∷ vs) ws ≡ match_rows g1 m (i + 1) vs ws
  unfolding match_rows
  match_rows_step g g1 m i v vs ws run = rw run refl

  match_rows-BiadjSet :
      (g : Graph P S) (m : Mat2) (i : ℕ) (vs ws : List ℕ)
      → IsValid g
      → Distinct vs
      → Distinct ws
      → Apart vs ws
      → AllLive g vs
      → AllLive g ws
      → ((l k : ℕ) → l < length vs → k < length ws → is_some (entry m (i + l) k) ≡ true)
      → (g' : Graph P S) × (match_rows g m i vs ws ≡ some g') × BiadjSet g m i vs ws g'
  unfolding match_rows
  match_rows-BiadjSet g m i [] ws valid one_v one_w apart live_v live_w entries = (
    g,
    refl,
    record {
      valid = valid;
      same = SameRest-refl g;
      joined = λ l k v w b at_l at_k here. ground (arith, at_l);
      elsewhere = λ x y p q. refl;
    },
  )
  match_rows-BiadjSet g m i (v ∷ vs) ws valid (new, one_v) one_w (apart, aparts) (live, live_v)
        live_w entries =
      let zero_eq : i + 0 ≡ i = omega arith in
      let (g1, run, row) = match_row-RowSet g m i v 0 ws valid apart one_w live live_w (λ k below.
        ap (λ n. is_some (entry m i n)) (plus_zero k)
        ∙ ap (λ n. is_some (entry m n k)) (sym zero_eq)
        ∙ entries 0 k (ground arith) below) in
      let (g', rest_run, rest) =
        match_rows-BiadjSet g1 m (i + 1) vs ws row.valid one_v one_w aparts
          (AllLive-vdata g g1 vs row.same.same_vdata live_v)
          (AllLive-vdata g g1 ws row.same.same_vdata live_w)
          (λ l k below below'.
            ap (λ n. is_some (entry m n k)) (shift i l)
            ∙ entries (suc l) k (ground (arith, below)) below') in
      (
        g',
        match_rows_step g g1 m i v vs ws run ∙ rest_run,
        BiadjSet-cons g g1 g' m i v vs ws row rest new apart,
      )

  -- `update_frontier_biadj`, on a well-formed diagram, with neighbours that are not in the frontier,
  -- no vertex twice and all of them in the diagram, and an entry of the matrix for each pair: it does
  -- not panic and keeps the diagram well-formed. Between a frontier vertex and a neighbour there is no
  -- edge where the entry is not 1; where it is 1, the edge that was there, or else a Hadamard edge. All
  -- other edges, the vertices with their number and the free slots, the inputs, the outputs, the scalar
  -- and the frontier stay.
  pub update_frontier_biadj_lem :
      (e : Extractor P S) (neighbors : List ℕ) (m : Mat2)
      → let vs = seconds e.frontier in
        IsValid e.g
        → Distinct vs
        → Distinct neighbors
        → Apart vs neighbors
        → AllLive e.g vs
        → AllLive e.g neighbors
        → ((l k : ℕ) → l < length vs → k < length neighbors → is_some (entry m l k) ≡ true)
        → (g' : Graph P S) × (update_frontier_biadj e neighbors m ≡ some (record e { g = g' }))
          × BiadjSet e.g m 0 vs neighbors g'
  unfolding update_frontier_biadj
  update_frontier_biadj_lem e neighbors m valid one_v one_w apart live_v live_w entries =
      let (g', run, set) =
        match_rows-BiadjSet e.g m 0 (seconds e.frontier) neighbors valid one_v one_w apart live_v
          live_w
          (λ l k below below'.
            ap (λ n. is_some (entry m n k)) (plus_zero l) ∙ entries l k below below') in
      (g', rw run refl, set)
