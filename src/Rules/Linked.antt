-- ===== src/Rules/Linked.antt =====
-- quizx/src/basic_rules.rs: Hadamard edges added between pairs of green spiders.
-- green spiders.
use quizx.Prelude.{
  ℕ, ◌≤◌, ◌≡◌, ◌≢◌, refl, Bool, true, false, ◌&&◌, ◌||◌, not, Option, none, some, List, [], ◌∷◌,
  map, slot, ◌>>=◌, ◌==◌, if◌then◌else◌, arith, Bool-cases, inl, inr, sym, ◌∙◌, tally,
}
use quizx.Types.{VType, EType}
use quizx.VecGraph.{Graph, VData, Nhd, edge_type_opt, vertex_type, vertex_data}
use quizx.VecGraph.Neighbors.{hit_key}
use quizx.VecGraph.Valid.{IsValid}
use quizx.GraphLike.Parallel.{joined_by}
use quizx.Rules.Checked.{contains}

-- No vertex twice.
abbrev pub Distinct : List ℕ → Type 0
Distinct [] = Unit
Distinct (x ∷ xs) = (contains xs x ≡ false) × Distinct xs

pub contains-keys :
    (t : ℕ) (nhd : Nhd) → contains (map (λ x. x.0) nhd) t ≡ not (tally (hit_key t) nhd == 0)
contains-keys t [] = refl
contains-keys t ((t', e) ∷ nhd) = ground (arith, contains-keys t nhd)

pub Distinct-keys :
    (nhd : Nhd) → ((t : ℕ) → tally (hit_key t) nhd ≤ 1) → Distinct (map (λ x. x.0) nhd)
Distinct-keys [] h = tt
Distinct-keys ((t', e) ∷ nhd) h =
    (ground (arith, contains-keys t' nhd, h t'), Distinct-keys nhd (λ t. omega (arith, h t)))

-- The edge after a Hadamard edge was added between two green spiders.
abbrev pub with_h : Option EType → Option EType
with_h o = joined_by EType.n o EType.h

pub with_h_no_w : (o : Option EType) → with_h o ≢ some EType.wio
with_h_no_w o h = ground arith

pub contains_ne :
    (xs : List ℕ) (a b : ℕ) → contains xs a ≡ true → contains xs b ≡ false → (a == b) ≡ false
contains_ne [] a b h k = absurd (ground arith)
contains_ne (x ∷ xs) a b h k = ground (arith, contains_ne xs a b)

pub not_in : (us : List ℕ) (u b : ℕ) → contains us u ≡ false → (b == u && contains us b) ≡ false
not_in us u b h = elim (Bool-cases (b == u)) [
  | inl same ↦ let here : b ≡ u = ground arith in rw here (ground (arith, h))
  | inr other ↦ ground arith
]

-- The edges to `u` and those to a list without `u` are different edges.
pub separate :
    (aw bu au bw ca cb : Bool)
    → (bu && cb) ≡ false
    → (au && ca) ≡ false
    → (aw && au) ≡ false
    → (bw && bu) ≡ false
    → ((aw && bu || au && bw) && (aw && cb || bw && ca)) ≡ false
separate aw bu au bw ca cb h1 h2 h3 h4 = ground arith

module _ {P S : Type 0} where
  pub record NoW (g : Graph P S) : Type 0 where
    pub no_w : (a b : ℕ) → edge_type_opt g a b ≢ some EType.wio

  -- Every vertex of the list is a green spider.
  abbrev pub AllZ : Graph P S → List ℕ → Type 0
  AllZ g [] = Unit
  AllZ g (w ∷ ws) = (vertex_type g w ≡ some VType.z) × AllZ g ws

  -- Hadamard edges were added between the pairs that `c` names.
  pub record Linked (g : Graph P S) (c : ℕ → ℕ → Bool) (g' : Graph P S) : Type 0 where
    pub valid : IsValid g'
    pub edges :
        (a b : ℕ)
        → edge_type_opt g' a b
          ≡ (if c a b then with_h (edge_type_opt g a b) else edge_type_opt g a b)
    pub types : (w : ℕ) → vertex_type g' w ≡ vertex_type g w

  pub NoW-Linked : (g g' : Graph P S) (c : ℕ → ℕ → Bool) → NoW g → Linked g c g' → NoW g'
  NoW-Linked g g' c n l = record {
    no_w = λ a b h. elim (Bool-cases (c a b)) [
      | inl yes' ↦ with_h_no_w (edge_type_opt g a b) (sym (l.edges a b ∙ rw yes' refl) ∙ h)
      | inr no' ↦ n.no_w a b (sym (l.edges a b ∙ rw no' refl) ∙ h)
    ];
  }

  pub AllZ-Linked :
      (g g' : Graph P S) (c : ℕ → ℕ → Bool) (ws : List ℕ) → Linked g c g' → AllZ g ws → AllZ g' ws
  AllZ-Linked g g' c [] l z = tt
  AllZ-Linked g g' c (w ∷ ws) l z = (l.types w ∙ z.0, AllZ-Linked g g' c ws l z.1)

  pub Linked-trans :
      (g g1 g2 : Graph P S) (c c1 c2 : ℕ → ℕ → Bool)
      → Linked g c1 g1
      → Linked g1 c2 g2
      → ((a b : ℕ) → c a b ≡ (c1 a b || c2 a b))
      → ((a b : ℕ) → (c1 a b && c2 a b) ≡ false)
      → Linked g c g2
  Linked-trans g g1 g2 c c1 c2 l1 l2 either apart = record {
    valid = l2.valid;
    edges = λ a b. l2.edges a b ∙ ground (arith, l1.edges a b, either a b, apart a b);
    types = λ w. l2.types w ∙ l1.types w;
  }

  pub type_of :
      (g : Graph P S) (w : ℕ) {ty : VType}
      → vertex_type g w ≡ some ty
      → (d : VData P) × (slot g.vdata w ≡ some d) × (d.ty ≡ ty)
  unfolding vertex_type vertex_data
  type_of g w {ty} = go (slot g.vdata w)
    where
      go :
          (o : Option (VData P))
          → (o >>= (λ d. some d.ty)) ≡ some ty
          → (d : VData P) × (o ≡ some d) × (d.ty ≡ ty)
      go none h = absurd (ground arith)
      go (some d) h = (d, refl, ground (arith, h))

  pub types_from :
      (g g' : Graph P S)
      → ((w : ℕ) → (slot g'.vdata w >>= (λ d. some d.ty)) ≡ (slot g.vdata w >>= (λ d. some d.ty)))
      → (w : ℕ) → vertex_type g' w ≡ vertex_type g w
  unfolding vertex_type vertex_data
  types_from g g' h w = h w
