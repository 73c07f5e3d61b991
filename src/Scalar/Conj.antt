-- ===== src/Scalar/Conj.antt =====
-- `conj` of quizx/src/scalar.rs: the loop reverses and negates all but the first coefficient.
use quizx.Prelude.{
  ℕ, zero, suc, ◌+◌, ◌-◌, ◌/◌, ◌<◌, ◌≡◌, refl, ap, ◌∙◌, some, List, [], ◌∷◌, ◌++◌, map, reverse,
  length, set, replicate, arith, length-replicate, length-append,
}
use native.Mathlib.Nat
use mathlib.Core.List.{map-append, reverse-cons, append_assoc, append-nil}
use quizx.Prelude.Int.{ℤ, pos, neg}
use quizx.Scalar.{CoeffKind, fixed, vec, new_coeffs, put_at, conj_loop, conj_coeffs}

set-replicate :
    (n : ℕ) (a : ℤ) (ys : List ℤ)
    → set (replicate (suc n) (pos 0) ++ ys) n a ≡ replicate n (pos 0) ++ (a ∷ ys)
set-replicate zero a ys = refl
set-replicate (suc n) a ys = ap (λ l. pos 0 ∷ l) (set-replicate n a ys)

put_last :
    (n : ℕ) (c0 c : ℤ) (done : List ℤ)
    → put_at (c0 ∷ (replicate (suc n) (pos 0) ++ done)) (suc n) c
      ≡ some (c0 ∷ (replicate n (pos 0) ++ (c ∷ done)))
put_last n c0 c done = ground (
  arith,
  set-replicate n c done,
  length-append (replicate (suc n) (pos 0)) done,
  length-replicate (suc n) (pos 0),
)

flip_cons :
    (c : ℤ) (cs done : List ℤ)
    → map neg (reverse cs) ++ (neg c ∷ done) ≡ map neg (reverse (c ∷ cs)) ++ done
flip_cons c cs done =
    rw (reverse-cons c cs, map-append neg (reverse cs) (c ∷ []), append_assoc) refl

-- The loop fills the zeros that are left from the end on.
conj_loop_lem :
    (cs done : List ℤ) (c0 : ℤ) (n i : ℕ)
    → n ≡ i + length cs
    → conj_loop n i cs (c0 ∷ (replicate (length cs) (pos 0) ++ done))
      ≡ some (c0 ∷ (map neg (reverse cs) ++ done))
unfolding conj_loop
conj_loop_lem [] done c0 n i e = refl
conj_loop_lem (c ∷ cs) done c0 n i e =
    let place : n - i ≡ suc (length cs) = omega (arith, e) in
    rw (place, put_last (length cs) c0 (neg c) done)
      (conj_loop_lem cs (neg c ∷ done) c0 n (i + 1) (omega (arith, e))
        ∙ ap (λ l. some (c0 ∷ l)) (flip_cons c cs done))

-- The list is one that the type has.
abbrev pub Fits : CoeffKind → List ℤ → Type 0
Fits (fixed n) cs = length cs ≡ n
Fits vec cs = Unit

new_coeffs-Fits :
    (kind : CoeffKind) (cs : List ℤ)
    → Fits kind cs
    → 0 < length cs
    → (pad : ℕ) × (new_coeffs kind (length cs) ≡ some (replicate (length cs) (pos 0), pad))
unfolding new_coeffs
new_coeffs-Fits (fixed n) cs h some_length = (n / length cs, rw h (ground (arith, Nat.mod_self n)))
new_coeffs-Fits vec cs h some_length = (1, refl)

-- conj on a list of coefficients that its type has: the first stays; the others are negated, in the
-- opposite order.
pub conj_coeffs_lem :
    (kind : CoeffKind) (c : ℤ) (cs : List ℤ)
    → Fits kind (c ∷ cs)
    → conj_coeffs kind (c ∷ cs) ≡ some (c ∷ map neg (reverse cs))
unfolding conj_coeffs
conj_coeffs_lem kind c cs h =
    let (pad, fresh) = new_coeffs-Fits kind (c ∷ cs) h (omega arith) in
    let loop = conj_loop_lem cs [] c (suc (length cs)) 1 (omega arith) in
    rw fresh (
      ground (
        arith,
        loop,
        append-nil (replicate (length cs) (pos 0)),
        append-nil (map neg (reverse cs)),
      ))
