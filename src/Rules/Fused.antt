-- ===== src/Rules/Fused.antt =====
-- quizx/src/basic_rules.rs: what a spider has after some of the edges of another one were moved to it.
use quizx.Prelude.{
  ℕ, ◌≡◌, ◌≢◌, refl, Bool, true, false, Option, none, some, [], ◌∷◌, map, slot, is_some, ◌>>=◌,
  ◌==◌, if◌then◌else◌, arith, ◌⊎◌,
}
use quizx.Types.{VType, EType}
use quizx.Interface.{PhaseOps}
use quizx.VecGraph.{Graph, VData, Nhd, edge_type_opt, value}
use quizx.VecGraph.Valid.{IsValid}
use quizx.GraphLike.Parallel.{is_zx, is_wire, fusing, joined_by, add_pi}
use quizx.Rules.Checked.{contains}

-- The edge `e1` is added beside the edge `e0`, where there is one.
abbrev pub added : EType → Option EType → Option EType → Option EType
added k e0 none = e0
added k e0 (some e) = joined_by k e0 e

abbrev pub data_type : {P : Type 0} → Option (VData P) → VType
data_type none = VType.b
data_type (some d) = d.ty

module _ {P S : Type 0} where
  -- The type of a vertex; a boundary where there is none.
  abbrev pub type_at : Graph P S → ℕ → VType
  type_at g w = data_type (slot g.vdata w)

  -- A neighbour can take another edge to `v0`.
  abbrev pub Fits : Graph P S → ℕ → ℕ → Type 0
  Fits g v0 w = (edge_type_opt g v0 w ≡ none) ⊎ (is_zx (type_at g w) ≡ true)

  -- The vertices of two graphs have the same types and are the same.
  pub record SameTypes (g g' : Graph P S) : Type 0 where
    pub types : (w : ℕ) → type_at g' w ≡ type_at g w
    pub live : (w : ℕ) → is_some (slot g'.vdata w) ≡ is_some (slot g.vdata w)

  -- The edges at `v0` have got those that `list` says.
  pub record Fused (g : Graph P S) (v0 : ℕ) (list : ℕ → Option EType) (g' : Graph P S)
      : Type 0 where
    pub valid : IsValid g'
    pub at_v0 :
        (b : ℕ)
        → edge_type_opt g' v0 b
          ≡ added (fusing (type_at g v0) (type_at g b)) (edge_type_opt g v0 b) (list b)
    pub others :
        (a b : ℕ)
        → (a == v0) ≡ false
        → (b == v0) ≡ false
        → edge_type_opt g' a b ≡ edge_type_opt g a b
    pub same : SameTypes g g'
    pub no_w : (b : ℕ) → edge_type_opt g' v0 b ≢ some EType.wio

pub joined_by_no_w :
    (k e : EType) (o : Option EType)
    → is_wire k ≡ true
    → is_wire e ≡ true
    → o ≢ some EType.wio
    → joined_by k o e ≢ some EType.wio
joined_by_no_w k e none wk we h eq = ground (arith, eq, we)
joined_by_no_w k e (some e0) wk we h eq = ground (arith, eq, we, wk)

-- The entry of the list for a vertex other than `v0`.
abbrev pub entry_for : ℕ → Nhd → ℕ → Option EType
entry_for v0 nhd b = if b == v0 then none else value nhd b

pub no_value : (o : Option EType) → is_some o ≡ false → o ≡ none
no_value none h = refl
no_value (some e) h = absurd (ground arith)

pub wire_fusing : (s' t' : VType) → is_wire (fusing s' t') ≡ true
wire_fusing s' t' = ground arith

pub value-contains : (nhd : Nhd) (u : ℕ) → is_some (value nhd u) ≡ contains (map (λ x. x.0) nhd) u
unfolding value
value-contains [] u = refl
value-contains ((w, e) ∷ nhd) u = ground (arith, value-contains nhd u)

pub value-cons :
    (w : ℕ) (e : EType) (nhd : Nhd) (u : ℕ)
    → value ((w, e) ∷ nhd) u ≡ (if u == w then some e else value nhd u)
unfolding value
value-cons w e nhd u = refl

pub pi_type :
    {P : Type 0} ⦃p : PhaseOps P⦄ (f : Bool) (o : Option (VData P))
    → data_type (if f then (o >>= (λ d. some (add_pi d))) else o) ≡ data_type o
pi_type f none = ground arith
pi_type f (some d) = ground arith

pub pi_live :
    {P : Type 0} ⦃p : PhaseOps P⦄ (f : Bool) (o : Option (VData P))
    → is_some (if f then (o >>= (λ d. some (add_pi d))) else o) ≡ is_some o
pi_live f none = ground arith
pi_live f (some d) = ground arith
