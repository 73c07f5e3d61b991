-- ===== src/Simplify/Numv.antt =====
-- How many vertices a diagram has after an operation that returns: most keep the number.
use quizx.Prelude.{
  ℕ, zero, suc, ◌+◌, ◌<◌, ◌≡◌, refl, Bool, true, false, Option, none, some, List, [], ◌∷◌, arith,
  ◌⊎◌, ◌>>=◌, >>=-eq-some, if◌then◌else◌, slot, subst, Option-cases, inl, inr,
}
use quizx.Types.{VType, EType, opposite, vtype_eq}
use quizx.VecGraph.{
  Graph, VData, Nhd, vertex_type, decrement, remove_half_edge, remove_back_edges, remove_vertex,
  push_half_edge, add_edge_with_type, remove_edge, update_data, set_half_edge, set_edge_type,
  set_vertex_type, index, swap_remove,
}
use quizx.GraphLike.{neighbor_vec, toggle_edge_type, toggle_all, x_to_z_at, x_to_z_all, x_to_z}

pub decrement-lt : (n k : ℕ) → decrement n ≡ some k → k < n
decrement-lt zero k h = cc
decrement-lt (suc n) k h = ground (arith, h)

module _ {P S : Type 0} where
  -- Where the operation returns, the number of vertices is as Q says.
  abbrev pub Ends : (ℕ → Type 0) → Option (Graph P S) → Type 0
  Ends q o = (g1 : Graph P S) → o ≡ some g1 → q g1.numv

  abbrev pub Keeps : ℕ → Option (Graph P S) → Type 0
  Keeps n o = Ends (λ m. m ≡ n) o

  abbrev pub Loses : ℕ → Option (Graph P S) → Type 0
  Loses n o = Ends (λ m. m < n) o

  pub Ends-bind :
      (q r : ℕ → Type 0) (o : Option (Graph P S)) (f : Graph P S → Option (Graph P S))
      → Ends q o
      → ((g : Graph P S) → q g.numv → Ends r (f g))
      → Ends r (o >>= f)
  Ends-bind q r o f first rest g1 h =
      let (g, run, last) = >>=-eq-some o f h in rest g (first g run) g1 last

  pub Ends-read :
      {X : Type 0} (r : ℕ → Type 0) (o : Option X) (f : X → Option (Graph P S))
      → ((x : X) → Ends r (f x))
      → Ends r (o >>= f)
  Ends-read r o f rest g1 h = let (x, run, last) = >>=-eq-some o f h in rest x g1 last

  pub Ends-if :
      (r : ℕ → Type 0) (b : Bool) (o o' : Option (Graph P S))
      → Ends r o
      → Ends r o'
      → Ends r (if b then o else o')
  Ends-if r true o o' yes_o no_o = yes_o
  Ends-if r false o o' yes_o no_o = no_o

  pub Keeps-some : (g : Graph P S) (n : ℕ) → g.numv ≡ n → Keeps n (some g)
  Keeps-some g n e g1 h = ground (arith, e, h)

  pub Keeps-none : (n : ℕ) → Keeps n none
  Keeps-none n g1 h = cc

  pub Keeps-remove_half_edge : (g : Graph P S) (s t : ℕ) → Keeps g.numv (remove_half_edge g s t)
  unfolding remove_half_edge
  Keeps-remove_half_edge g s t g1 h = elim (Option-cases (slot g.edata s)) [
    | inl e ↦ ground (arith, e, h)
    | inr (nhd, e) ↦ elim (Option-cases (index nhd t)) [
      | inl e' ↦ ground (arith, e, e', h)
      | inr (i, e') ↦ ground (arith, e, e', h, Option-cases (swap_remove nhd i))
    ]
  ]

  pub Keeps-push_half_edge :
      (g : Graph P S) (s t : ℕ) (e : EType) → Keeps g.numv (push_half_edge g s t e)
  unfolding push_half_edge
  Keeps-push_half_edge g s t e = Ends-read _ _ _ (λ nhd. Keeps-some _ _ refl)

  pub Keeps-set_half_edge :
      (g : Graph P S) (s t : ℕ) (e : EType) → Keeps g.numv (set_half_edge g s t e)
  unfolding set_half_edge
  Keeps-set_half_edge g s t e g1 h =
      let (nhd, at_s, rest) = >>=-eq-some (slot g.edata s) _ h in
      let (i, at_i, last) = >>=-eq-some (index nhd t) _ rest in ground (arith, last)

  pub Keeps-remove_edge : (g : Graph P S) (s t : ℕ) → Keeps g.numv (remove_edge g s t)
  unfolding remove_edge
  Keeps-remove_edge g s t = Ends-read _ _ _ (λ k.
      Ends-bind (λ m. m ≡ g.numv) _ _ _ (Keeps-remove_half_edge (record g { nume = k }) s t)
        (λ g1 e. subst (λ n. Keeps n (remove_half_edge g1 t s)) e (Keeps-remove_half_edge g1 t s)))

  pub Keeps-add_edge_with_type :
      (g : Graph P S) (s t : ℕ) (e : EType) → Keeps g.numv (add_edge_with_type g s t e)
  unfolding add_edge_with_type
  Keeps-add_edge_with_type g s t e =
      Ends-bind (λ m. m ≡ g.numv) _ _ _
        (Keeps-push_half_edge (record g { nume = g.nume + 1 }) s t e)
        (λ g1 same.
          subst (λ n. Keeps n (push_half_edge g1 t s e)) same (Keeps-push_half_edge g1 t s e))

  pub Keeps-set_edge_type :
      (g : Graph P S) (s t : ℕ) (e : EType) → Keeps g.numv (set_edge_type g s t e)
  unfolding set_edge_type
  Keeps-set_edge_type g s t e =
      Ends-bind (λ m. m ≡ g.numv) _ _ _ (Keeps-set_half_edge g s t e)
        (λ g1 same.
          subst (λ n. Keeps n (set_half_edge g1 t s e)) same (Keeps-set_half_edge g1 t s e))

  pub Keeps-update_data :
      (g : Graph P S) (v : ℕ) (change : VData P → VData P) → Keeps g.numv (update_data g v change)
  unfolding update_data
  Keeps-update_data g v change = Ends-read _ _ _ (λ d. Keeps-some _ _ refl)

  pub Keeps-toggle_edge_type : (g : Graph P S) (s t : ℕ) → Keeps g.numv (toggle_edge_type g s t)
  unfolding toggle_edge_type
  Keeps-toggle_edge_type g s t = Ends-read _ _ _ (λ e. Keeps-set_edge_type g s t (opposite e))

  pub Keeps-toggle_all : (g : Graph P S) (v : ℕ) (ws : List ℕ) → Keeps g.numv (toggle_all g v ws)
  unfolding toggle_all
  Keeps-toggle_all g v [] = Keeps-some _ _ refl
  Keeps-toggle_all g v (w ∷ ws) =
      Ends-bind (λ m. m ≡ g.numv) _ _ _ (Keeps-toggle_edge_type g v w)
        (λ g1 same. subst (λ n. Keeps n (toggle_all g1 v ws)) same (Keeps-toggle_all g1 v ws))

  pub Keeps-set_vertex_type :
      (g : Graph P S) (v : ℕ) (t : VType) → Keeps g.numv (set_vertex_type g v t)
  unfolding set_vertex_type
  Keeps-set_vertex_type g v t = Keeps-update_data g v _

  pub if-some :
      (b : Bool) (o o' : Option (Graph P S)) (g1 : Graph P S)
      → (if b then o else o') ≡ some g1
      → (o ≡ some g1) ⊎ (o' ≡ some g1)
  if-some true o o' g1 h = inl h
  if-some false o o' g1 h = inr h

  pub Keeps-x_to_z_at : (g : Graph P S) (v : ℕ) → Keeps g.numv (x_to_z_at g v)
  unfolding x_to_z_at
  Keeps-x_to_z_at g v g1 h =
      let (t, at_v, rest) = >>=-eq-some (vertex_type g v) _ h in
      elim (if-some (vtype_eq t VType.x) _ _ g1 rest) [
        | inl changed ↦
            let (g2, set_v, more) = >>=-eq-some (set_vertex_type g v VType.z) _ changed in
            let (ws, near, last) = >>=-eq-some (neighbor_vec g2 v) _ more in
            omega
              (arith, Keeps-set_vertex_type g v VType.z g2 set_v, Keeps-toggle_all g2 v ws g1 last)
        | inr same ↦ ground (arith, same)
      ]

  pub Keeps-x_to_z_all : (g : Graph P S) (vs : List ℕ) → Keeps g.numv (x_to_z_all g vs)
  unfolding x_to_z_all
  Keeps-x_to_z_all g [] = Keeps-some _ _ refl
  Keeps-x_to_z_all g (v ∷ vs) =
      Ends-bind (λ m. m ≡ g.numv) _ _ _ (Keeps-x_to_z_at g v)
        (λ g1 same. subst (λ n. Keeps n (x_to_z_all g1 vs)) same (Keeps-x_to_z_all g1 vs))

  pub Keeps-x_to_z : (g : Graph P S) → Keeps g.numv (x_to_z g)
  unfolding x_to_z
  Keeps-x_to_z g = Keeps-x_to_z_all g _

  -- Only the count of `remove_vertex` itself goes down.
  pub Keeps-remove_back_edges :
      (g : Graph P S) (v : ℕ) (adj : Nhd) → Keeps g.numv (remove_back_edges g v adj)
  unfolding remove_back_edges
  Keeps-remove_back_edges g v [] = Keeps-some _ _ refl
  Keeps-remove_back_edges g v ((v1, e) ∷ adj) = Ends-read _ _ _ (λ k.
      Ends-bind (λ m. m ≡ g.numv) _ _ _ (Keeps-remove_half_edge (record g { nume = k }) v1 v)
        (λ g1 same.
          subst (λ n. Keeps n (remove_back_edges g1 v adj)) same
            (Keeps-remove_back_edges g1 v adj)))

  pub Loses-remove_vertex : (g : Graph P S) (v : ℕ) → Loses g.numv (remove_vertex g v)
  unfolding remove_vertex
  Loses-remove_vertex g v g1 h =
      let (k, less, rest) = >>=-eq-some (decrement g.numv) _ h in
      let (adj, at_v, last) = >>=-eq-some (slot g.edata v) _ rest in
      omega (arith, Keeps-remove_back_edges _ v adj g1 last, decrement-lt g.numv k less)
