-- ===== src/Linalg/Bits.antt =====
-- The entries of a matrix as Booleans, and what a row operation does to them.
use quizx.Prelude.{
  ℕ, zero, suc, ◌≤◌, ◌<◌, ◌≡◌, refl, Bool, true, false, not, some, List, [], ◌∷◌, length, get_elem?,
  set, bit_xor, ◌==◌, if◌then◌else◌, arith, length-set, ◌∙◌,
}
use quizx.Linalg.{Mat2, row_add, xor_prefix, num_cols, entry}

-- Addition in F2.
abbrev pub xor : Bool → Bool → Bool
xor true b = not b
xor false b = b

-- Whether a row has an entry that is not zero at `j`; false beyond the row.
abbrev pub row_bit : List ℕ → ℕ → Bool
row_bit [] j = false
row_bit (x ∷ r) zero = not (x == 0)
row_bit (x ∷ r) (suc j) = row_bit r j

abbrev pub bit_of : List (List ℕ) → ℕ → ℕ → Bool
bit_of [] i j = false
bit_of (r ∷ d) zero j = row_bit r j
bit_of (r ∷ d) (suc i) j = bit_of d i j

abbrev pub bit : Mat2 → ℕ → ℕ → Bool
bit m i j = bit_of m.d i j

-- Every entry is 0 or 1.
abbrev pub AllBits : List ℕ → Type 0
AllBits [] = Unit
AllBits (x ∷ r) = (x < 2) × AllBits r

abbrev pub AllRows : ℕ → List (List ℕ) → Type 0
AllRows cols [] = Unit
AllRows cols (r ∷ d) = (length r ≡ cols) × AllBits r × AllRows cols d

-- A matrix of the given shape with entries 0 and 1.
pub record IsMat (rows cols : ℕ) (m : Mat2) : Type 0 where
  pub height : length m.d ≡ rows
  pub width : AllRows cols m.d

bit_xor_small :
    (a b : ℕ)
    → a < 2
    → b < 2
    → (bit_xor a b < 2) × (not (bit_xor a b == 0) ≡ xor (not (a == 0)) (not (b == 0)))
bit_xor_small zero zero h k = (omega arith, refl)
bit_xor_small zero (suc zero) h k = (omega arith, refl)
bit_xor_small (suc zero) zero h k = (omega arith, refl)
bit_xor_small (suc zero) (suc zero) h k = (omega arith, refl)
bit_xor_small (suc (suc a)) b h k = absurd (omega arith)
bit_xor_small a (suc (suc b)) h k = absurd (omega arith)

-- Adding one full row to another.
xor_prefix_lem :
    (n : ℕ) (r1 r0 : List ℕ)
    → length r1 ≡ n
    → length r0 ≡ n
    → AllBits r1
    → AllBits r0
    → (r : List ℕ) × (xor_prefix n r1 r0 ≡ some r)
      × (length r ≡ n)
      × AllBits r
      × ((j : ℕ) → row_bit r j ≡ xor (row_bit r1 j) (row_bit r0 j))
unfolding xor_prefix
xor_prefix_lem zero [] [] h k b1 b0 = ([], refl, refl, tt, λ j. refl)
xor_prefix_lem zero (x ∷ r1) r0 h k b1 b0 = absurd (omega arith)
xor_prefix_lem zero [] (y ∷ r0) h k b1 b0 = absurd (omega arith)
xor_prefix_lem (suc n) [] r0 h k b1 b0 = absurd (omega arith)
xor_prefix_lem (suc n) (x ∷ r1) [] h k b1 b0 = absurd (omega arith)
xor_prefix_lem (suc n) (x ∷ r1) (y ∷ r0) h k b1 b0 =
    let (r, e, len, bits, cells) = xor_prefix_lem n r1 r0 (omega arith) (omega arith) b1.1 b0.1 in
    let (small, head) = bit_xor_small x y b1.0 b0.0 in
    (bit_xor x y ∷ r, rw e refl, omega (arith, len), (small, bits), both r cells head)
  where
    both :
        (r : List ℕ)
        → ((j : ℕ) → row_bit r j ≡ xor (row_bit r1 j) (row_bit r0 j))
        → (not (bit_xor x y == 0) ≡ xor (not (x == 0)) (not (y == 0)))
        → (j : ℕ) → row_bit (bit_xor x y ∷ r) j ≡ xor (row_bit (x ∷ r1) j) (row_bit (y ∷ r0) j)
    both r cells head zero = head
    both r cells head (suc j) = cells j

-- A row of a well-shaped matrix.
pub row_of :
    (cols : ℕ) (d : List (List ℕ)) (i : ℕ)
    → AllRows cols d
    → i < length d
    → (r : List ℕ) × (get_elem? d i ≡ some r)
      × (length r ≡ cols)
      × AllBits r
      × ((j : ℕ) → bit_of d i j ≡ row_bit r j)
row_of cols [] i w h = elim h [ ]
row_of cols (r ∷ d) zero w h = (r, refl, w.0, w.1, λ j. refl)
row_of cols (r ∷ d) (suc i) w h = row_of cols d i w.2 (omega arith)

AllRows-set :
    (cols : ℕ) (d : List (List ℕ)) (i : ℕ) (r : List ℕ)
    → AllRows cols d
    → length r ≡ cols
    → AllBits r
    → AllRows cols (set d i r)
AllRows-set cols [] i r w h b = tt
AllRows-set cols (q ∷ d) zero r w h b = (h, b, w.2)
AllRows-set cols (q ∷ d) (suc i) r w h b = (w.0, w.1, AllRows-set cols d i r w.2 h b)

bit_of-set :
    (d : List (List ℕ)) (k : ℕ) (r : List ℕ) (i j : ℕ)
    → k < length d
    → bit_of (set d k r) i j ≡ (if i == k then row_bit r j else bit_of d i j)
bit_of-set [] k r i j h = elim h [ ]
bit_of-set (q ∷ d) zero r zero j h = refl
bit_of-set (q ∷ d) zero r (suc i) j h = ground arith
bit_of-set (q ∷ d) (suc k) r zero j h = ground arith
bit_of-set (q ∷ d) (suc k) r (suc i) j h = ground (arith, bit_of-set d k r i j)

row_bit_beyond : (r : List ℕ) (j : ℕ) → length r ≤ j → row_bit r j ≡ false
row_bit_beyond [] j h = refl
row_bit_beyond (x ∷ r) zero h = absurd (omega arith)
row_bit_beyond (x ∷ r) (suc j) h = row_bit_beyond r j (omega arith)

pub bit_below : (d : List (List ℕ)) (i j : ℕ) → length d ≤ i → bit_of d i j ≡ false
bit_below [] i j h = refl
bit_below (r ∷ d) zero j h = absurd (omega arith)
bit_below (r ∷ d) (suc i) j h = bit_below d i j (omega arith)

pub bit_right :
    (cols : ℕ) (d : List (List ℕ)) (i j : ℕ) → AllRows cols d → cols ≤ j → bit_of d i j ≡ false
bit_right cols [] i j w h = refl
bit_right cols (r ∷ d) zero j w h = row_bit_beyond r j (omega (arith, w.0))
bit_right cols (r ∷ d) (suc i) j w h = bit_right cols d i j w.2 h

-- The entry that the code reads, and its Boolean.
pub entry_lem :
    (rows cols : ℕ) (m : Mat2) (i j : ℕ)
    → IsMat rows cols m
    → i < rows
    → j < cols
    → (e : ℕ) × (entry m i j ≡ some e) × ((e == 0) ≡ not (bit m i j))
unfolding entry
entry_lem rows cols m i j mat hi hj =
    let (r, at_i, len, bits, cells) = row_of cols m.d i mat.width (omega (arith, mat.height)) in
    let (e, at_j, value) = cell r j (omega (arith, len)) in (e, rw (at_i) at_j, rw (cells j) value)
  where
    cell :
        (r : List ℕ) (j : ℕ)
        → j < length r
        → (e : ℕ) × (get_elem? r j ≡ some e) × ((e == 0) ≡ not (row_bit r j))
    cell [] j h = elim h [ ]
    cell (x ∷ r) zero h = (x, refl, ground arith)
    cell (x ∷ r) (suc j) h = cell r j (omega arith)

row_add_steps :
    (m : Mat2) (r0 r1 n : ℕ) (x y z : List ℕ)
    → num_cols m ≡ suc n
    → get_elem? m.d r1 ≡ some x
    → get_elem? m.d r0 ≡ some y
    → xor_prefix (suc n) x y ≡ some z
    → row_add m r0 r1 ≡ some (record { d = set m.d r1 z })
unfolding row_add
row_add_steps m r0 r1 n x y z cols at1 at0 added = ground arith

row_add_none : (m : Mat2) (r0 r1 : ℕ) → num_cols m ≡ 0 → row_add m r0 r1 ≡ some m
unfolding row_add
row_add_none m r0 r1 cols = ground arith

pub num_cols-IsMat : (rows cols : ℕ) (m : Mat2) → IsMat rows cols m → 0 < rows → num_cols m ≡ cols
unfolding num_cols
num_cols-IsMat rows cols m mat h = go m.d mat.height mat.width
  where
    go :
        (d : List (List ℕ))
        → length d ≡ rows
        → AllRows cols d
        → (elim d [ [] ↦ 0 | r ∷ rs ↦ length r ]) ≡ cols
    go [] e w = absurd (omega arith)
    go (r ∷ d) e w = w.0

-- What a row addition does, entry by entry.
pub record RowAdded (rows cols : ℕ) (m : Mat2) (r0 r1 : ℕ) (m' : Mat2) : Type 0 where
  pub shape : IsMat rows cols m'
  pub bits : (i j : ℕ) → bit m' i j ≡ (if i == r1 then xor (bit m i j) (bit m r0 j) else bit m i j)

-- Adding one row of a matrix to another succeeds, keeps the shape, and adds the entries in F2.
pub row_add-RowAdded :
    (rows cols : ℕ) (m : Mat2) (r0 r1 : ℕ)
    → IsMat rows cols m
    → r0 < rows
    → r1 < rows
    → (m' : Mat2) × (row_add m r0 r1 ≡ some m') × RowAdded rows cols m r0 r1 m'
row_add-RowAdded rows zero m r0 r1 mat h0 h1 = (
  m,
  row_add_none m r0 r1 (num_cols-IsMat rows zero m mat (omega arith)),
  record {
    shape = mat;
    bits = λ i j. ground (
      arith,
      bit_right zero m.d i j mat.width (omega arith),
      bit_right zero m.d r0 j mat.width (omega arith),
    );
  },
)
row_add-RowAdded rows (suc n) m r0 r1 mat h0 h1 =
    let (y, at0, len0, bits0, cells0) =
      row_of (suc n) m.d r0 mat.width (omega (arith, mat.height)) in
    let (x, at1, len1, bits1, cells1) =
      row_of (suc n) m.d r1 mat.width (omega (arith, mat.height)) in
    let (z, added, len, bits, cells) = xor_prefix_lem (suc n) x y len1 len0 bits1 bits0 in
    (
      record { d = set m.d r1 z },
      row_add_steps m r0 r1 n x y z (num_cols-IsMat rows (suc n) m mat (omega arith)) at1 at0 added,
      record {
        shape = record {
          height = length-set m.d r1 z ∙ mat.height;
          width = AllRows-set (suc n) m.d r1 z mat.width len bits;
        };
        bits = λ i j. ground (
          arith,
          bit_of-set m.d r1 z i j (omega (arith, mat.height)),
          cells j,
          cells0 j,
          cells1 j,
        );
      },
    )
