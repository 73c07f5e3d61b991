-- ===== src/Gate/Parity.antt =====
-- quizx/src/gate.rs: the gates for a parity phase act as the parity phase does.
use quizx.Prelude.{
  ℕ, ◌≡◌, refl, sym, ap, ◌∙◌, Bool, true, false, ◌||◌, some, List, [], ◌∷◌, ◌++◌, reverse, arith,
  subst, inl, inr, Bool-cases, ◌==◌, if◌then◌else◌, pop_from,
}
use quizx.Interface.{PhaseOps}
use quizx.Linalg.Bits.{xor}
use mathlib.Core.List.{reverse-cons, append-nil}
use quizx.Gate.{Gate, cnots_to, parity_gates}
use quizx.Gate.Action.{
  State, flip_at, parity, is_in, distinct, rotate, act, act_all, Same, flip_at-target,
  flip_at-other, xor_twice,
}

xor_assoc : (x y z : Bool) → xor (xor x y) z ≡ xor x (xor y z)
xor_assoc x y z = ground arith

-- The NOTs of `cnots_to` on the bits.
flips : ℕ → List ℕ → (ℕ → Bool) → ℕ → Bool
flips t [] f = f
flips t (c ∷ cs) f = flips t cs (flip_at c t f)

parity-flip_at :
    (c t : ℕ) (f : ℕ → Bool) (cs : List ℕ)
    → is_in t cs ≡ false
    → parity (flip_at c t f) cs ≡ parity f cs
parity-flip_at c t f [] h = refl
parity-flip_at c t f (x ∷ cs) h =
    rw (flip_at-other c t x f (ground (arith, h)), parity-flip_at c t f cs (ground (arith, h))) refl

flips-other : (t q : ℕ) (cs : List ℕ) (f : ℕ → Bool) → (q == t) ≡ false → flips t cs f q ≡ f q
unfolding flips
flips-other t q [] f h = refl
flips-other t q (c ∷ cs) f h = flips-other t q cs (flip_at c t f) h ∙ flip_at-other c t q f h

flips-target :
    (t : ℕ) (cs : List ℕ) (f : ℕ → Bool)
    → is_in t cs ≡ false
    → flips t cs f t ≡ xor (parity f cs) (f t)
unfolding flips
flips-target t [] f h = refl
flips-target t (c ∷ cs) f h =
    flips-target t cs (flip_at c t f) (ground (arith, h))
    ∙ rw (parity-flip_at c t f cs (ground (arith, h)), flip_at-target c t f) (ground (arith))

parity-append : (f : ℕ → Bool) (a b : List ℕ) → parity f (a ++ b) ≡ xor (parity f a) (parity f b)
parity-append f [] b = refl
parity-append f (x ∷ a) b =
    ap (xor (f x)) (parity-append f a b) ∙ sym (xor_assoc (f x) (parity f a) (parity f b))

parity-reverse : (f : ℕ → Bool) (a : List ℕ) → parity f (reverse a) ≡ parity f a
parity-reverse f [] = refl
parity-reverse f (x ∷ a) =
    ap (parity f) (reverse-cons x a)
    ∙ parity-append f (reverse a) (x ∷ [])
    ∙ rw (parity-reverse f a) (ground arith)

is_in-append : (q : ℕ) (a b : List ℕ) → is_in q (a ++ b) ≡ (is_in q a || is_in q b)
is_in-append q [] b = refl
is_in-append q (x ∷ a) b = rw (is_in-append q a b) (ground arith)

is_in-reverse : (q : ℕ) (a : List ℕ) → is_in q (reverse a) ≡ is_in q a
is_in-reverse q [] = refl
is_in-reverse q (x ∷ a) =
    ap (is_in q) (reverse-cons x a)
    ∙ is_in-append q (reverse a) (x ∷ [])
    ∙ rw (is_in-reverse q a) (ground arith)

parity-flips :
    (t : ℕ) (f : ℕ → Bool) (cs ds : List ℕ)
    → is_in t ds ≡ false
    → parity (flips t cs f) ds ≡ parity f ds
parity-flips t f cs [] h = refl
parity-flips t f cs (x ∷ ds) h =
    rw (flips-other t x cs f (ground (arith, h)), parity-flips t f cs ds (ground (arith, h))) refl

-- The NOTs in the reverse order undo the NOTs.
flips_back :
    (t : ℕ) (cs : List ℕ) (f : ℕ → Bool) (q : ℕ)
    → is_in t cs ≡ false
    → flips t (reverse cs) (flips t cs f) q ≡ f q
flips_back t cs f q h = elim (Bool-cases (q == t)) [
  | inl e ↦
      let same : q ≡ t = ground (arith, e) in
      let far = is_in-reverse t cs ∙ h in
      subst (λ r. flips t (reverse cs) (flips t cs f) r ≡ f r) (sym same)
        (flips-target t (reverse cs) (flips t cs f) far
          ∙ rw (parity-flips t f cs (reverse cs) far, parity-reverse f cs, flips-target t cs f h)
              (xor_twice (parity f cs) (f t)))
  | inr ne ↦ flips-other t q (reverse cs) (flips t cs f) ne ∙ flips-other t q cs f ne
]

pub parity-pop_from :
    (f : ℕ → Bool) (a : ℕ) (qs : List ℕ)
    → xor (parity f (pop_from a qs).0) (f (pop_from a qs).1) ≡ parity f (a ∷ qs)
parity-pop_from f a [] = ground arith
parity-pop_from f a (b ∷ qs) =
    xor_assoc (f a) (parity f (pop_from b qs).0) (f (pop_from b qs).1)
    ∙ ap (xor (f a)) (parity-pop_from f b qs)

last_in : (a : ℕ) (qs : List ℕ) → is_in (pop_from a qs).1 (a ∷ qs) ≡ true
last_in a [] = ground arith
last_in a (b ∷ qs) = ground (arith, last_in b qs)

-- The last qubit is none of the others.
pub last_apart :
    (a : ℕ) (qs : List ℕ)
    → distinct (a ∷ qs) ≡ true
    → is_in (pop_from a qs).1 (pop_from a qs).0 ≡ false
last_apart a [] h = refl
last_apart a (b ∷ qs) h = elim (Bool-cases ((pop_from b qs).1 == a)) [
  | inl e ↦
      let same : (pop_from b qs).1 ≡ a = ground (arith, e) in
      let again : is_in a (b ∷ qs) ≡ true =
        subst (λ r. is_in r (b ∷ qs) ≡ true) same (last_in b qs) in
      ground (arith, h, again)
  | inr ne ↦ rw ne (last_apart b qs (ground (arith, h)))
]

module _ {P : Type 0} ⦃p : PhaseOps P⦄ where
  act_cnots :
      (t : ℕ) (cs : List ℕ) (gs : List (Gate P)) (s : State P)
      → act_all (cnots_to t cs ++ gs) s ≡ act_all gs (record s { bits = flips t cs s.bits })
  unfolding act_all act flips
  act_cnots t [] gs s = refl
  act_cnots t (c ∷ cs) gs s = act_cnots t cs gs (record s { bits = flip_at c t s.bits })

  pub parity_end : (rest : List ℕ) (t : ℕ) (phase : P) (s : State P) → State P
  parity_end rest t phase s = record {
    bits = flips t (reverse rest) (flips t rest s.bits);
    eighths = s.eighths;
    phases = if flips t rest s.bits t then phase ∷ s.phases else s.phases;
  }

  pub parity_gates_run :
      (rest : List ℕ) (t : ℕ) (phase : P) (s : State P)
      → act_all (parity_gates rest t phase) s ≡ some (parity_end rest t phase s)
  unfolding act_all act parity_gates parity_end
  parity_gates_run rest t phase s =
      act_cnots t rest _ s
      ∙ ap
          (λ l.
            act_all l
              (rotate (flips t rest s.bits t) phase (record s { bits = flips t rest s.bits })))
          (sym (append-nil (cnots_to t (reverse rest))))
      ∙ act_cnots t (reverse rest) [] _

  pub parity_gates_act :
      (rest : List ℕ) (t : ℕ) (phase : P) (s : State P)
      → is_in t rest ≡ false
      → Same (rotate (xor (parity s.bits rest) (s.bits t)) phase s) (parity_end rest t phase s)
  unfolding parity_end
  parity_gates_act rest t phase s apart = record {
    same_bits = λ q. flips_back t rest s.bits q apart;
    same_turns = refl;
    same_phases = rw (flips-target t rest s.bits apart) refl;
  }
