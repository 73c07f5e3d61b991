-- ===== src/Scalar/Powers.antt =====
-- quizx/src/scalar.rs: the powers that `Add::add` brings together, and the powers of 2 between them.
use quizx.Prelude.{
  ◌^◌, ◌≤◌, ◌⊎◌, ◌>>=◌, none, Option, ◌<◌, ◌≡◌, refl, some, arith, Bool-cases, inl, inr,
}
use quizx.Prelude.Int.{
  pos_part, neg_part, leb_ℤ, ◌≤ℤ◌, -ℤ_parts, checked_i32, ℤ, pos, ◌+ℤ◌, ◌-ℤ◌, min_ℤ, +ℤ_parts,
}
use quizx.Scalar.Ops.{two_pow}

-- The smaller of two powers is not above either.
pub distances : (a b : ℤ) → (neg_part (a -ℤ min_ℤ a b) ≡ 0) × (neg_part (b -ℤ min_ℤ a b) ≡ 0)
distances a b = elim (Bool-cases (leb_ℤ a b)) [
  | inl e ↦ (
    ground (arith, e, -ℤ_parts a a, -ℤ_parts a b, -ℤ_parts b a),
    ground (arith, e, -ℤ_parts a a, -ℤ_parts a b, -ℤ_parts b a),
  )
  | inr e ↦ (
    ground (arith, e, -ℤ_parts b b, -ℤ_parts a b, -ℤ_parts b a),
    ground (arith, e, -ℤ_parts b b, -ℤ_parts a b, -ℤ_parts b a),
  )
]

pub two_pow_small : (e : ℤ) → pos_part e < 63 → two_pow e ≡ some (pos (2 ^ pos_part e))
unfolding two_pow
two_pow_small e h = ground (arith, h)

two_pow_large : (e : ℤ) → 63 ≤ pos_part e → two_pow e ≡ none
unfolding two_pow
two_pow_large e h = ground (arith, h)

pub far_from_low :
    (a b : ℤ)
    → (a +ℤ pos 63 ≤ℤ b) ⊎ (b +ℤ pos 63 ≤ℤ a)
    → (63 ≤ pos_part (a -ℤ min_ℤ a b)) ⊎ (63 ≤ pos_part (b -ℤ min_ℤ a b))
far_from_low a b (inl h) = inr (ground (arith, +ℤ_parts a (pos 63), -ℤ_parts b a, -ℤ_parts b b))
far_from_low a b (inr h) = inl (ground (arith, +ℤ_parts b (pos 63), -ℤ_parts a a, -ℤ_parts a b))

pub two_pow_checked : (a e : ℤ) → 63 ≤ pos_part a → checked_i32 a ≡ some e → two_pow e ≡ none
unfolding checked_i32 two_pow
two_pow_checked a e h run = ground (arith, h, run)

bind_none : {A B : Type 0} (x : Option A) → ◌>>=◌ {B = B} x (λ y. none) ≡ none
bind_none none = refl
bind_none (some x) = refl

pub none_of_powers :
    {A : Type 0} (a b : Option ℤ) (rest : ℤ → ℤ → Option A)
    → ((e : ℤ) → a ≡ some e → two_pow e ≡ none) ⊎ ((e : ℤ) → b ≡ some e → two_pow e ≡ none)
    → (do e0 ← a; base0 ← two_pow e0; e1 ← b; base1 ← two_pow e1; rest base0 base1) ≡ none
none_of_powers none b rest h = refl
none_of_powers (some a) b rest (inl h) = rw (h a refl) refl
none_of_powers (some a) none rest (inr h) = bind_none (two_pow a)
none_of_powers (some a) (some b) rest (inr h) = rw (h b refl) (bind_none (two_pow a))
