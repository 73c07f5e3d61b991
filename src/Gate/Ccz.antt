-- ===== src/Gate/Ccz.antt =====
-- quizx/src/gate.rs: the gates of push_ccz_decomp act as CCZ does.
use quizx.Prelude.{
  ℕ, ◌+◌, ◌%◌, ◌≡◌, refl, sym, ◌∙◌, Bool, true, false, ◌&&◌, some, arith, subst, inl, inr,
  Bool-cases, ◌==◌, if◌then◌else◌,
}
use quizx.Interface.{PhaseOps}
use quizx.Linalg.Bits.{xor}
use quizx.Gate.{ccz_gates}
use quizx.Gate.Action.{
  State, flip_at, turn, act, act_all, Same, flip_at-target, flip_at-other, xor_twice,
}

abbrev eighths_of : Bool → ℕ → ℕ
eighths_of b k = if b then k else 0

-- The seven turns of the decomposition add up to half a turn where all three bits are set.
seven_turns :
    (x y z : Bool) (e : ℕ)
    → (e
          + eighths_of (xor y z) 7
          + eighths_of (xor x (xor y z)) 1
          + eighths_of (xor y (xor x (xor y z))) 7
          + eighths_of y 1
          + eighths_of (xor x (xor y (xor x (xor y z)))) 1
          + eighths_of x 1
          + eighths_of (xor x y) 7)
        % 8
      ≡ (e + eighths_of (x && y && z) 4) % 8
seven_turns true true true e = omega arith
seven_turns true true false e = omega arith
seven_turns true false true e = omega arith
seven_turns true false false e = omega arith
seven_turns false true true e = omega arith
seven_turns false true false e = omega arith
seven_turns false false true e = omega arith
seven_turns false false false e = omega arith

-- The bits of the three qubits as the decomposition goes along.
record Bits3 (a b c : ℕ) (x y z : Bool) (bits : ℕ → Bool) : Type 0 where
  at_a : bits a ≡ x
  at_b : bits b ≡ y
  at_c : bits c ≡ z

module _ (a b c : ℕ) (ab : (a == b) ≡ false) (ac : (a == c) ≡ false) (bc : (b == c) ≡ false) where
  flip_bc :
      (x y z : Bool) (f : ℕ → Bool)
      → Bits3 a b c x y z f
      → Bits3 a b c x y (xor y z) (flip_at b c f)
  flip_bc x y z f h = record {
    at_a = flip_at-other b c a f ac ∙ h.at_a;
    at_b = flip_at-other b c b f bc ∙ h.at_b;
    at_c = rw (flip_at-target b c f, h.at_b, h.at_c) refl;
  }

  flip_ac :
      (x y z : Bool) (f : ℕ → Bool)
      → Bits3 a b c x y z f
      → Bits3 a b c x y (xor x z) (flip_at a c f)
  flip_ac x y z f h = record {
    at_a = flip_at-other a c a f ac ∙ h.at_a;
    at_b = flip_at-other a c b f bc ∙ h.at_b;
    at_c = rw (flip_at-target a c f, h.at_a, h.at_c) refl;
  }

  flip_ab :
      (x y z : Bool) (f : ℕ → Bool)
      → Bits3 a b c x y z f
      → Bits3 a b c x (xor x y) z (flip_at a b f)
  flip_ab x y z f h = record {
    at_a = flip_at-other a b a f ab ∙ h.at_a;
    at_b = rw (flip_at-target a b f, h.at_a, h.at_b) refl;
    at_c = flip_at-other a b c f (ground (arith, bc)) ∙ h.at_c;
  }

  untouched :
      (f : ℕ → Bool) (q : ℕ)
      → (q == b) ≡ false
      → (q == c) ≡ false
      → flip_at a b (flip_at a b (flip_at a c (flip_at b c (flip_at a c (flip_at b c f))))) q ≡ f q
  untouched f q qb qc = rw (qb, qc) refl

  xor_four : (x y z : Bool) → xor x (xor y (xor x (xor y z))) ≡ z
  xor_four x y z = ground arith

  -- The bits before each turn of the decomposition.
  bc1 : (f : ℕ → Bool) → Bits3 a b c (f a) (f b) (xor (f b) (f c)) (flip_at b c f)
  bc1 f = flip_bc _ _ _ f (record { at_a = refl; at_b = refl; at_c = refl })

  ac2 :
      (f : ℕ → Bool)
      → Bits3 a b c (f a) (f b) (xor (f a) (xor (f b) (f c))) (flip_at a c (flip_at b c f))
  ac2 f = flip_ac _ _ _ _ (bc1 f)

  bc3 :
      (f : ℕ → Bool)
      → Bits3 a b c
          (f a)
          (f b)
          (xor (f b) (xor (f a) (xor (f b) (f c))))
          (flip_at b c (flip_at a c (flip_at b c f)))
  bc3 f = flip_bc _ _ _ _ (ac2 f)

  ac4 :
      (f : ℕ → Bool)
      → Bits3 a b c
          (f a)
          (f b)
          (xor (f a) (xor (f b) (xor (f a) (xor (f b) (f c)))))
          (flip_at a c (flip_at b c (flip_at a c (flip_at b c f))))
  ac4 f = flip_ac _ _ _ _ (bc3 f)

  ab5 :
      (f : ℕ → Bool)
      → Bits3 a b c
          (f a)
          (xor (f a) (f b))
          (xor (f a) (xor (f b) (xor (f a) (xor (f b) (f c)))))
          (flip_at a b (flip_at a c (flip_at b c (flip_at a c (flip_at b c f)))))
  ab5 f = flip_ab _ _ _ _ (ac4 f)

  ab6 :
      (f : ℕ → Bool)
      → Bits3 a b c
          (f a)
          (xor (f a) (xor (f a) (f b)))
          (xor (f a) (xor (f b) (xor (f a) (xor (f b) (f c)))))
          (flip_at a b (flip_at a b (flip_at a c (flip_at b c (flip_at a c (flip_at b c f))))))
  ab6 f = flip_ab _ _ _ _ (ab5 f)

  bits_back :
      (f : ℕ → Bool) (q : ℕ)
      → flip_at a b (flip_at a b (flip_at a c (flip_at b c (flip_at a c (flip_at b c f))))) q ≡ f q
  bits_back f q = elim (Bool-cases (q == b)) [
    | inl e ↦
        let same : q ≡ b = ground (arith, e) in
        subst
          (λ r.
            flip_at a b (flip_at a b (flip_at a c (flip_at b c (flip_at a c (flip_at b c f))))) r
            ≡ f r)
          (sym same) ((ab6 f).at_b ∙ xor_twice (f a) (f b))
    | inr qb ↦ elim (Bool-cases (q == c)) [
      | inl e ↦
          let same : q ≡ c = ground (arith, e) in
          subst
            (λ r.
              flip_at a b (flip_at a b (flip_at a c (flip_at b c (flip_at a c (flip_at b c f))))) r
              ≡ f r)
            (sym same) ((ab6 f).at_c ∙ xor_four (f a) (f b) (f c))
      | inr qc ↦ untouched f q qb qc
    ]
  ]

module _ {P : Type 0} ⦃p : PhaseOps P⦄ where
  pub ccz_gates_lem :
      (a b c : ℕ) (phase : P)
      → (a == b) ≡ false
      → (a == c) ≡ false
      → (b == c) ≡ false
      → (s : State P)
      → (r : State P) × (act_all (ccz_gates a b c) s ≡ some r)
        × (Same (turn (s.bits a && s.bits b && s.bits c) 4 s) r)
  unfolding act act_all
  ccz_gates_lem a b c phase ab ac bc s = (
    _,
    refl,
    record {
      same_bits = λ q. bits_back a b c ab ac bc s.bits q;
      same_turns =
          rw
            (
              (ab5 a b c ab ac bc s.bits).at_b,
              (ab5 a b c ab ac bc s.bits).at_a,
              (ac4 a b c ab ac bc s.bits).at_c,
              (ac4 a b c ab ac bc s.bits).at_b,
              (bc3 a b c ab ac bc s.bits).at_c,
              (ac2 a b c ab ac bc s.bits).at_c,
              (bc1 a b c ab ac bc s.bits).at_c,
            )
            (seven_turns (s.bits a) (s.bits b) (s.bits c) s.eighths);
      same_phases = refl;
    },
  )
