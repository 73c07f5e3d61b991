-- ===== src/Rules/Checked.antt =====
-- quizx/src/basic_rules.rs: what the rules share. A check reads vertices and may panic on one that
-- is absent, so it returns `Option Bool`.
use quizx.Prelude.{
  ℕ, Bool, true, false, ◌&&◌, ◌||◌, Option, none, some, List, [], ◌∷◌, ◌>>=◌, ◌==◌, if◌then◌else◌,
}
use quizx.Prelude.Int.{ℤ, pos, ◌-ℤ◌, ◌*ℤ◌, wrap_i32}
use quizx.Types.{VType, EType, vtype_eq, etype_eq}
use quizx.Interface.{PhaseOps, ScalarOps}
use quizx.VecGraph.{Graph, vertex_type, incident_edges, add_to_phase}

-- `opt == Some(e)`
abbrev pub is_edge : Option EType → EType → Bool
is_edge none e = false
is_edge (some e0) e = etype_eq e0 e

-- `xs.all(f)` for a test that may panic: it stops at the first `false`.
unfoldable pub all_opt {ℓ} : {A : Type ℓ} → (A → Option Bool) → List A → Option Bool
all_opt f [] = some true
all_opt f (x ∷ xs) = let rest = all_opt f xs in do b ← f x; if b then rest else some false

-- `xs.any(f)`
unfoldable pub any_opt {ℓ} : {A : Type ℓ} → (A → Option Bool) → List A → Option Bool
any_opt f [] = some false
any_opt f (x ∷ xs) = let rest = any_opt f xs in do b ← f x; if b then some true else rest

-- `a && b` where `b` may panic: `b` is read only if `a` holds.
abbrev pub and_opt : Option Bool → Option Bool → Option Bool
and_opt a b = a >>= λ x. if x then b else some false

-- The macros `checked_rule1` and `checked_rule2`.
unfoldable pub checked {ℓ} :
    {G : Type ℓ} → (G → Option Bool) → (G → Option G) → G → Option (G × Bool)
checked check unchecked g = do
  b ← check g
  if b then (do g1 ← unchecked g; some (g1, true)) else some (g, false)

-- The number of neighbours as an `i32`, and `i32` arithmetic.
abbrev pub as_i32 : ℕ → ℤ
as_i32 n = wrap_i32 (pos n)

abbrev pub sub_i32 : ℤ → ℤ → ℤ
sub_i32 a b = wrap_i32 (a -ℤ b)

abbrev pub mul_i32 : ℤ → ℤ → ℤ
mul_i32 a b = wrap_i32 (a *ℤ b)

-- The opposite colour of a spider.
abbrev pub opposite_colour : VType → Option VType
opposite_colour VType.z = some VType.x
opposite_colour VType.x = some VType.z
opposite_colour _ = none

-- The test of `check_pi_copy` on one neighbour: `match edge_type(v, n) { N if .. , H if .. }`
abbrev pub pi_copy_neighbor : VType → VType → EType → VType → Bool
pi_copy_neighbor vt ovt EType.n t = vtype_eq t ovt
pi_copy_neighbor vt ovt EType.h t = vtype_eq t vt
pi_copy_neighbor vt ovt EType.wio t = true

-- The type of the edge that replaces two.
abbrev pub joined_type : EType → EType → Option EType
joined_type EType.n EType.n = some EType.n
joined_type EType.n EType.h = some EType.h
joined_type EType.h EType.n = some EType.h
joined_type EType.h EType.h = some EType.n
joined_type EType.n EType.wio = none
joined_type EType.h EType.wio = none
joined_type EType.wio _ = none

-- Equality of two hash sets, given as lists.
abbrev pub contains : List ℕ → ℕ → Bool
contains [] a = false
contains (x ∷ xs) a = x == a || contains xs a

abbrev pub includes : List ℕ → List ℕ → Bool
includes xs [] = true
includes xs (y ∷ ys) = contains xs y && includes xs ys

abbrev pub set_eq : List ℕ → List ℕ → Bool
set_eq xs ys = includes xs ys && includes ys xs

module _ {P S : Type 0} where
  -- Each incident edge is a Hadamard edge to a Z spider.
  unfoldable pub all_h_to_z : Graph P S → ℕ → Option Bool
  all_h_to_z g v = do
    nhd ← incident_edges g v
    all_opt (λ x. do t ← vertex_type g x.0; some (vtype_eq t VType.z && etype_eq x.1 EType.h)) nhd

module _ {P S : Type 0} ⦃p : PhaseOps P⦄ ⦃c : ScalarOps P S⦄ where
  -- `for w in ws { add_to_phase(w, q) }`
  unfoldable pub add_to_phases : Graph P S → P → List ℕ → Option (Graph P S)
  add_to_phases g q [] = some g
  add_to_phases g q (w ∷ ws) = do g1 ← add_to_phase g w q; add_to_phases g1 q ws

  -- `ScalarN::one_plus_phase`
  abbrev pub one_plus_phase : P → S
  one_plus_phase q = c.add c.one (c.from_phase q)
