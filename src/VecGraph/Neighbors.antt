-- ===== src/VecGraph/Neighbors.antt =====
-- Adjacency lists: what `index`, `value` and `swap_remove` do to the entries, counted by weights.
use quizx.Prelude.{
  ℕ, zero, suc, ◌+◌, ◌≤◌, ◌<◌, ◌≡◌, refl, ap, ◌&&◌, Option, none, some, [], ◌∷◌, arith, ◌==◌, ltb,
  if◌then◌else◌, Bool-cases, inl, inr, length, get_elem?, set, tally, pop_from, tally-set,
  tally-pop_from,
}
use quizx.Types.{EType, etype_eq}
use quizx.VecGraph.{Nhd, index, value, swap_remove}

-- 1 for an entry of this target and type, 0 for any other.
abbrev pub hit : ℕ → EType → ℕ × EType → ℕ
hit t e (t', e') = if t' == t && etype_eq e' e then 1 else 0

-- 1 for an entry of this target.
abbrev pub hit_key : ℕ → ℕ × EType → ℕ
hit_key t (t', e') = if t' == t then 1 else 0

-- The weight of the entries for one key.
abbrev pub at_key : ℕ → (ℕ × EType → ℕ) → ℕ × EType → ℕ
at_key v f (t, e) = if t == v then f (t, e) else 0

-- The type that three counts show.
abbrev pub pick : ℕ → ℕ → ℕ → Option EType
pick zero zero zero = none
pick zero zero (suc w) = some EType.wio
pick zero (suc k) w = some EType.h
pick (suc a) k w = some EType.n

pub keys-hits :
    (t : ℕ) (nhd : Nhd)
    → tally (hit_key t) nhd
      ≡ tally (hit t EType.n) nhd + tally (hit t EType.h) nhd + tally (hit t EType.wio) nhd
keys-hits t [] = refl
keys-hits t ((t', e) ∷ nhd) = ground (arith, keys-hits t nhd)

pub value_absent : (t : ℕ) (nhd : Nhd) → tally (hit_key t) nhd ≡ 0 → value nhd t ≡ none
unfolding value
value_absent t [] h = refl
value_absent t ((t', e) ∷ nhd) h = ground (arith, value_absent t nhd)

-- Where a target occurs once at most, `value` reads its type off the counts.
pub value-hits :
    (t : ℕ) (nhd : Nhd)
    → tally (hit_key t) nhd ≤ 1
    → value nhd t
      ≡ pick (tally (hit t EType.n) nhd) (tally (hit t EType.h) nhd) (tally (hit t EType.wio) nhd)
unfolding value
value-hits t [] h = refl
value-hits t ((t', e) ∷ nhd) h =
    ground (arith, value-hits t nhd, value_absent t nhd, keys-hits t nhd)

-- `index` and `value` find the same entry.
pub index_finds :
    (nhd : Nhd) (t : ℕ) {e : EType}
    → value nhd t ≡ some e
    → (i : ℕ) × (index nhd t ≡ some i) × (get_elem? nhd i ≡ some (t, e))
unfolding value index
index_finds [] t h = cc
index_finds ((t', e') ∷ nhd) t {e} h = elim (Bool-cases (t == t')) [
  | inl same ↦ (0, rw same refl, ground arith)
  | inr other ↦
      let h' : value nhd t ≡ some e = ground arith in
      let (i, p, q) = index_finds nhd t h' in (suc i, rw (other, p) refl, q)
]

pub value-index-none : (nhd : Nhd) (t : ℕ) → value nhd t ≡ none → index nhd t ≡ none
unfolding value index
value-index-none [] t h = refl
value-index-none ((t', e') ∷ nhd) t h = ground (arith, value-index-none nhd t)

get_elem?-pop_from :
    (x : ℕ × EType) (xs : Nhd) (i : ℕ) {y : ℕ × EType}
    → get_elem? (x ∷ xs) i ≡ some y
    → i < length (pop_from x xs).0
    → get_elem? (pop_from x xs).0 i ≡ some y
get_elem?-pop_from x [] zero h k = absurd (omega arith)
get_elem?-pop_from x [] (suc i) h k = cc
get_elem?-pop_from x (z ∷ zs) zero h k = h
get_elem?-pop_from x (z ∷ zs) (suc i) h k = get_elem?-pop_from z zs i h (omega arith)

get_elem?-pop_last :
    (x : ℕ × EType) (xs : Nhd) (i : ℕ) {y : ℕ × EType}
    → get_elem? (x ∷ xs) i ≡ some y
    → length (pop_from x xs).0 ≤ i
    → (i ≡ length (pop_from x xs).0) × ((pop_from x xs).1 ≡ y)
get_elem?-pop_last x [] zero h k = (refl, ground arith)
get_elem?-pop_last x [] (suc i) h k = cc
get_elem?-pop_last x (z ∷ zs) zero h k = absurd (omega arith)
get_elem?-pop_last x (z ∷ zs) (suc i) h k =
    let (p, q) = get_elem?-pop_last z zs i h (omega arith) in (omega arith, q)

-- `swap_remove` at a position that holds `y` succeeds, and takes `y` and nothing else away.
pub swap_remove_lem :
    (nhd : Nhd) (i : ℕ) {y : ℕ × EType}
    → get_elem? nhd i ≡ some y
    → (rest : Nhd) × (swap_remove nhd i ≡ some rest)
      × ((f : ℕ × EType → ℕ) → tally f rest + f y ≡ tally f nhd)
unfolding swap_remove
swap_remove_lem [] i h = cc
swap_remove_lem (x ∷ xs) i {y} h = elim (Bool-cases (ltb i (length (pop_from x xs).0))) [
  | inl inside ↦ (
    set (pop_from x xs).0 i (pop_from x xs).1,
    rw inside refl,
    λ f. omega (
      arith,
      tally-set f (pop_from x xs).0 i (pop_from x xs).1
          (get_elem?-pop_from x xs i h (ground arith)),
      tally-pop_from f x xs,
    ),
  )
  | inr outside ↦
      let (at_end, is_y) = get_elem?-pop_last x xs i h (ground arith) in
      ((pop_from x xs).0, ground arith, λ f. omega (arith, tally-pop_from f x xs, ap f is_y))
]

pub tally-at_key_absent :
    (f : ℕ × EType → ℕ) (nhd : Nhd) (v : ℕ) → tally (hit_key v) nhd ≡ 0 → tally (at_key v f) nhd ≡ 0
tally-at_key_absent f [] v h = refl
tally-at_key_absent f ((v0, e) ∷ nhd) v h = ground (arith, tally-at_key_absent f nhd v)
