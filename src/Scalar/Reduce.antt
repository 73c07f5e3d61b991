-- ===== src/Scalar/Reduce.antt =====
-- `reduce` of quizx/src/scalar.rs: the loop ends, at the one reduced form of the value.
use quizx.Prelude.{
  ℕ, zero, suc, ◌+◌, ◌/◌, ◌%◌, ◌<◌, ◌≡◌, refl, sym, ap, ◌∙◌, true, false, Option, some, List, [],
  ◌∷◌, map, arith, Bool-cases, inl, inr,
}
use quizx.Prelude.Int.{ℤ, pos, negsuc, ◌+ℤ◌, nat_abs, eq_of_parts, +ℤ_parts}
use quizx.Scalar.{all_zero, any_odd, shift_right, size, reduce_loop, reduce_parts}

-- Twice every coefficient.
abbrev pub double : ℤ → ℤ
double a = a +ℤ a

even_shift : (c : ℤ) → nat_abs c % 2 ≡ 0 → double (shift_right c) ≡ c
even_shift (pos n) h = eq_of_parts _ _ (ground (arith, +ℤ_parts (pos (n / 2)) (pos (n / 2)), h))
even_shift (negsuc n) h =
    eq_of_parts _ _ (ground (arith, +ℤ_parts (negsuc (n / 2)) (negsuc (n / 2)), h))

shift_double : (c : ℤ) → shift_right (double c) ≡ c
unfolding ◌+ℤ◌
shift_double (pos n) = ground arith
shift_double (negsuc n) = ground arith

double_even : (c : ℤ) → nat_abs (double c) % 2 ≡ 0
unfolding ◌+ℤ◌
double_even (pos n) = ground arith
double_even (negsuc n) = ground arith

shift_size :
    (c : ℤ) → nat_abs c % 2 ≡ 0 → nat_abs (shift_right c) + nat_abs (shift_right c) ≡ nat_abs c
shift_size (pos n) h = ground arith
shift_size (negsuc n) h = ground arith

map-double-shift : (cs : List ℤ) → any_odd cs ≡ false → map double (map shift_right cs) ≡ cs
map-double-shift [] h = refl
map-double-shift (c ∷ cs) h =
    rw (even_shift c (ground arith), map-double-shift cs (ground arith)) refl

map-shift-double : (cs : List ℤ) → map shift_right (map double cs) ≡ cs
map-shift-double [] = refl
map-shift-double (c ∷ cs) = rw (shift_double c, map-shift-double cs) refl

any_odd-double : (cs : List ℤ) → any_odd (map double cs) ≡ false
any_odd-double [] = refl
any_odd-double (c ∷ cs) = ground (arith, double_even c, any_odd-double cs)

size-shift :
    (cs : List ℤ)
    → any_odd cs ≡ false
    → size (map shift_right cs) + size (map shift_right cs) ≡ size cs
size-shift [] h = refl
size-shift (c ∷ cs) h = ground (arith, shift_size c, size-shift cs)

all_zero-size : (cs : List ℤ) → all_zero cs ≡ false → 0 < size cs
all_zero-size [] h = cc
all_zero-size (c ∷ cs) h = ground (arith, all_zero-size cs)

size-all_zero : (cs : List ℤ) → 0 < size cs → all_zero cs ≡ false
size-all_zero [] h = absurd (omega arith)
size-all_zero (c ∷ cs) h = ground (arith, size-all_zero cs)

-- k doublings.
abbrev pub doubled : ℕ → List ℤ → List ℤ
doubled zero cs = cs
doubled (suc k) cs = map double (doubled k cs)

doubled-map : (k : ℕ) (cs : List ℤ) → doubled k (map double cs) ≡ map double (doubled k cs)
doubled-map zero cs = refl
doubled-map (suc k) cs = ap (map double) (doubled-map k cs)

-- The loop: the coefficients are those of the result doubled as often as the power went up.
abbrev pub Reduced : ℤ → List ℤ → Option (ℤ × List ℤ) → Type 0
Reduced pow cs o =
    (k : ℕ) × (ds : List ℤ) × (o ≡ some (pow +ℤ pos k, ds))
    × (cs ≡ doubled k ds)
    × (any_odd ds ≡ true)

+ℤ-suc : (a : ℤ) (k : ℕ) → a +ℤ pos 1 +ℤ pos k ≡ a +ℤ pos (suc k)
+ℤ-suc a k =
    eq_of_parts _ _
      (ground (arith, +ℤ_parts a (pos 1), +ℤ_parts (a +ℤ pos 1) (pos k), +ℤ_parts a (pos (suc k))))

+ℤ-none : (a : ℤ) → a +ℤ pos 0 ≡ a
+ℤ-none a = eq_of_parts _ _ (ground (arith, +ℤ_parts a (pos 0)))

reduce_loop_step :
    (fuel : ℕ) (pow : ℤ) (cs : List ℤ)
    → any_odd cs ≡ false
    → reduce_loop (suc fuel) pow cs ≡ reduce_loop fuel (pow +ℤ pos 1) (map shift_right cs)
unfolding reduce_loop
reduce_loop_step fuel pow cs even = rw even refl

reduce_loop_stop :
    (fuel : ℕ) (pow : ℤ) (cs : List ℤ)
    → any_odd cs ≡ true
    → reduce_loop (suc fuel) pow cs ≡ some (pow, cs)
unfolding reduce_loop
reduce_loop_stop fuel pow cs odd = rw odd refl

reduce_loop-Reduced :
    (fuel : ℕ) (pow : ℤ) (cs : List ℤ)
    → 0 < size cs
    → size cs < fuel
    → Reduced pow cs (reduce_loop fuel pow cs)
reduce_loop-Reduced zero pow cs some_size enough = absurd (omega arith)
reduce_loop-Reduced (suc fuel) pow cs some_size enough = elim (Bool-cases (any_odd cs)) [
  | inl odd ↦ (
    0,
    cs,
    reduce_loop_stop fuel pow cs odd ∙ ap (λ p. some (p, cs)) (sym (+ℤ-none pow)),
    refl,
    odd,
  )
  | inr even ↦
      let half = size-shift cs even in
      let (k, ds, run, value, odd) =
        reduce_loop-Reduced fuel (pow +ℤ pos 1) (map shift_right cs) (omega (arith, half))
          (omega (arith, half)) in
      (
        suc k,
        ds,
        reduce_loop_step fuel pow cs even ∙ run ∙ ap (λ p. some (p, ds)) (+ℤ-suc pow k),
        sym (map-double-shift cs even) ∙ ap (map double) value,
        odd,
      )
]

-- reduce of an exact scalar returns: a list of zeros stays, with the power 0; of any other list it
-- takes out the powers of two, so that the power has gone up by k, the coefficients are the result's
-- doubled k times, and a coefficient of the result is odd.
pub reduce_parts_lem :
    (pow : ℤ) (cs : List ℤ)
    → (all_zero cs ≡ true → reduce_parts pow cs ≡ some (pos 0, cs))
      × (all_zero cs ≡ false → Reduced pow cs (reduce_parts pow cs))
unfolding reduce_parts
reduce_parts_lem pow cs = (
  λ h. rw h refl,
  λ h. rw h (reduce_loop-Reduced (suc (size cs)) pow cs (all_zero-size cs h) (omega arith)),
)

doubled_unique :
    (j k : ℕ) (cs ds : List ℤ)
    → doubled j cs ≡ doubled k ds
    → any_odd cs ≡ true
    → any_odd ds ≡ true
    → (j ≡ k) × (cs ≡ ds)
doubled_unique zero zero cs ds e h h' = (refl, e)
doubled_unique zero (suc k) cs ds e h h' =
    absurd (differ (sym h ∙ ap any_odd e ∙ any_odd-double (doubled k ds)))
  where
    differ : true ≡ false → ⊥
    differ p = cc
doubled_unique (suc j) zero cs ds e h h' =
    absurd (differ (sym h' ∙ ap any_odd (sym e) ∙ any_odd-double (doubled j cs)))
  where
    differ : true ≡ false → ⊥
    differ p = cc
doubled_unique (suc j) (suc k) cs ds e h h' =
    let inner =
      sym (map-shift-double (doubled j cs))
      ∙ ap (map shift_right) e
      ∙ map-shift-double (doubled k ds) in
    let (p, q) = doubled_unique j k cs ds inner h h' in (ap suc p, q)

doubled-doubled : (j k : ℕ) (cs : List ℤ) → doubled j (doubled k cs) ≡ doubled (j + k) cs
doubled-doubled zero k cs = let e : k ≡ 0 + k = omega arith in ap (λ n. doubled n cs) e
doubled-doubled (suc j) k cs =
    let e : suc (j + k) ≡ suc j + k = omega arith in
    ap (map double) (doubled-doubled j k cs) ∙ ap (λ n. doubled n cs) e

size-doubled : (k : ℕ) (cs : List ℤ) → 0 < size cs → 0 < size (doubled k cs)
size-doubled zero cs h = h
size-doubled (suc k) cs h =
    let ds = doubled k cs in
    ground (
      arith,
      size-doubled k cs h,
      size-shift (map double ds) (any_odd-double ds),
      map-shift-double ds,
    )

+ℤ--assoc : (a : ℤ) (j k : ℕ) → a +ℤ pos j +ℤ pos k ≡ a +ℤ pos (j + k)
+ℤ--assoc a j k =
    eq_of_parts _ _
      (ground (arith, +ℤ_parts a (pos j), +ℤ_parts (a +ℤ pos j) (pos k), +ℤ_parts a (pos (j + k))))

-- reduce gives one form to each value: a scalar that is not zero, written with a smaller power and
-- coefficients doubled as often, has the same reduced form.
pub reduce_parts-doubled :
    (pow : ℤ) (cs : List ℤ) (k : ℕ)
    → all_zero cs ≡ false
    → reduce_parts pow (doubled k cs) ≡ reduce_parts (pow +ℤ pos k) cs
reduce_parts-doubled pow cs k h =
    let big = size-all_zero (doubled k cs) (size-doubled k cs (all_zero-size cs h)) in
    let (j, ds, run, value, odd) = (reduce_parts_lem pow (doubled k cs)).1 big in
    let (i, es, run', value', odd') = (reduce_parts_lem (pow +ℤ pos k) cs).1 h in
    let (same, equal) =
      doubled_unique j (k + i) ds es (sym value ∙ ap (doubled k) value' ∙ doubled-doubled k i es)
        odd odd' in
    run
    ∙ ap (λ n. some (pow +ℤ pos n, ds)) same
    ∙ ap (λ l. some (pow +ℤ pos (k + i), l)) equal
    ∙ sym (run' ∙ ap (λ p. some (p, es)) (+ℤ--assoc pow k i))
