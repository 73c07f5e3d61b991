-- ===== src/Scalar/Zeros.antt =====
-- quizx/src/scalar.rs: lists of zeros as coefficients, and what they are worth.
use quizx.Prelude.{ℕ, zero, suc, ◌+◌, ◌≡◌, refl, some, replicate, arith}
use quizx.Prelude.Int.{ℤ, pos, negsuc, neg, ◌+ℤ◌, ◌*ℤ◌, +ℤ_parts, neg_parts, eq_of_parts}
use quizx.Scalar.{size}
use quizx.Scalar.Product.{Negacyclic, value, *ℤ_expand}

pub zero-*ℤ : (a : ℤ) → pos 0 *ℤ a ≡ pos 0
zero-*ℤ a = eq_of_parts _ _ (ground (arith, *ℤ_expand (pos 0) a))

pub one-*ℤ : (a : ℤ) → pos 1 *ℤ a ≡ a
one-*ℤ a = eq_of_parts _ _ (ground (arith, *ℤ_expand (pos 1) a))

pub minus_one-*ℤ : (a : ℤ) → negsuc 0 *ℤ a ≡ neg a
minus_one-*ℤ a = eq_of_parts _ _ (ground (arith, *ℤ_expand (negsuc 0) a, neg_parts a))

pub zero-+ℤ : (a : ℤ) → pos 0 +ℤ a ≡ a
zero-+ℤ a = eq_of_parts _ _ (ground (arith, +ℤ_parts (pos 0) a))

pub value-replicate : (w : ℕ → ℤ) (i n : ℕ) → value w i (replicate n (pos 0)) ≡ pos 0
value-replicate w i zero = refl
value-replicate w i (suc n) =
    rw (zero-*ℤ (w i), zero-+ℤ (value w (i + 1) (replicate n (pos 0))))
      (value-replicate w (i + 1) n)

-- The additive function that is 0 everywhere.
abbrev pub silent : ℕ → ℤ
silent i = pos 0

pub silent-Negacyclic : (n : ℕ) → Negacyclic n silent
unfolding neg
silent-Negacyclic n i = refl

pub zero_right : (a : ℤ) → a +ℤ pos 0 ≡ a
zero_right a = eq_of_parts _ _ (ground (arith, +ℤ_parts a (pos 0)))

pub some_injective : {A : Type 0} {a b : A} → some a ≡ some b → a ≡ b
some_injective h = cc

pub size-replicate : (n : ℕ) → size (replicate n (pos 0)) ≡ 0
size-replicate zero = refl
size-replicate (suc n) = ground (arith, size-replicate n)
