-- ===== src/HashGraph/Tables.antt =====
-- The tables of quizx/src/hash_graph.rs: what is found after an insert or a removal, and what the
-- two do to sums over a table.
use quizx.Prelude.{
  ℕ, ◌+◌, ◌≤◌, ◌≡◌, refl, none, some, List, [], ◌∷◌, arith, ◌==◌, if◌then◌else◌, length, tally,
  Bool, false, ◌||◌,
}
use quizx.Types.{EType}
use quizx.VecGraph.{Nhd, value}
use quizx.VecGraph.Neighbors.{hit_key, at_key, tally-at_key_absent}
use quizx.HashGraph.{VTab, find, insert, remove, keys}

module _ {A : Type 0} where
  pub find-insert :
      (tab : VTab A) (v w : ℕ) (a : A)
      → find (insert tab v a) w ≡ (if v == w then some a else find tab w)
  unfolding find insert
  find-insert [] v w a = ground arith
  find-insert ((v0, b) ∷ tab) v w a = ground (arith, find-insert tab v w a)

  pub find-remove :
      (tab : VTab A) (v w : ℕ) → find (remove tab v) w ≡ (if v == w then none else find tab w)
  unfolding find remove
  find-remove [] v w = ground arith
  find-remove ((v0, b) ∷ tab) v w = ground (arith, find-remove tab v w)

  pub remove-remove : (tab : VTab A) (v : ℕ) → remove (remove tab v) v ≡ remove tab v
  unfolding remove
  remove-remove [] v = refl
  remove-remove ((v0, b) ∷ tab) v = ground (arith, remove-remove tab v)

pub find-value : (nhd : Nhd) (t : ℕ) → find nhd t ≡ value nhd t
unfolding find value
find-value [] t = refl
find-value ((t0, e) ∷ nhd) t = ground (arith, find-value nhd t)

pub tally-remove :
    (f : ℕ × EType → ℕ) (nhd : Nhd) (v : ℕ)
    → tally f (remove nhd v) + tally (at_key v f) nhd ≡ tally f nhd
unfolding remove
tally-remove f [] v = refl
tally-remove f ((v0, e) ∷ nhd) v = ground (arith, tally-remove f nhd v)

-- The entry that is there is the only one for its key.
pub tally-at_key_found :
    (f : ℕ × EType → ℕ) (nhd : Nhd) (v : ℕ) {e : EType}
    → tally (hit_key v) nhd ≤ 1
    → value nhd v ≡ some e
    → tally (at_key v f) nhd ≡ f (v, e)
unfolding value
tally-at_key_found f [] v h p = cc
tally-at_key_found f ((v0, e0) ∷ nhd) v {e} h p =
    ground (arith, tally-at_key_found f nhd v {e = e}, tally-at_key_absent f nhd v)

pub tally-insert_absent :
    (f : ℕ × EType → ℕ) (nhd : Nhd) (v : ℕ) (e : EType)
    → value nhd v ≡ none
    → tally f (insert nhd v e) ≡ tally f nhd + f (v, e)
unfolding insert value
tally-insert_absent f [] v e h = omega arith
tally-insert_absent f ((v0, e0) ∷ nhd) v e h = ground (arith, tally-insert_absent f nhd v e)

pub tally-insert_found :
    (f : ℕ × EType → ℕ) (nhd : Nhd) (v : ℕ) (e : EType) {e0 : EType}
    → value nhd v ≡ some e0
    → tally f (insert nhd v e) + f (v, e0) ≡ tally f nhd + f (v, e)
unfolding insert value
tally-insert_found f [] v e h = cc
tally-insert_found f ((v0, e1) ∷ nhd) v e {e0} h =
    ground (arith, tally-insert_found f nhd v e {e0 = e0})

-- The keys of an adjacency list are as many as its entries, and hold what `value` finds.
pub length-keys : (nhd : Nhd) → length (keys nhd) ≡ length nhd
unfolding keys
length-keys [] = refl
length-keys ((v0, e) ∷ nhd) = ground (arith, length-keys nhd)

abbrev pub mem : ℕ → List ℕ → Bool
mem w [] = false
mem w (k ∷ ks) = k == w || mem w ks

pub mem-keys : (nhd : Nhd) (w : ℕ) → mem w (keys nhd) ≡ false → tally (hit_key w) nhd ≡ 0
unfolding keys
mem-keys [] w h = refl
mem-keys ((v0, e) ∷ nhd) w h = ground (arith, mem-keys nhd w)
