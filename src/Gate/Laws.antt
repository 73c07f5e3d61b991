-- ===== src/Gate/Laws.antt =====
-- quizx/src/gate.rs: the gates that the decomposition into basic gates makes.
use quizx.Prelude.{
  ℕ, suc, ◌+◌, ◌*◌, ◌≡◌, refl, Bool, true, false, ◌&&◌, none, some, List, [], ◌∷◌, ◌++◌, reverse,
  length, push, ◌==◌, arith, ap, sym, ◌∙◌, Bool-cases, inl, inr, ◌⊎◌, pop_from, length-pop_from,
}
use mathlib.Core.List.{reverse-cons, append_assoc, append-nil}
use quizx.Interface.{PhaseOps}
use quizx.Gate.{
  Gate, GType, gate, num_basic_gates, push_basic_gates, push_ccz_decomp, ccz_gates, cnots_to,
  parity_gates, num_qubits,
}

-- The gate has a type with a number of qubits, and it has that many.
unfoldable pub has_arity : {P : Type 0} → Gate P → Bool
unfolding num_qubits
has_arity g = elim (num_qubits g.ty) [ none ↦ true | some n ↦ length g.qs == n ]

-- The types of the gates that the decomposition leaves alone.
abbrev pub is_basic : GType → Bool
is_basic GType.toff = false
is_basic GType.ccz = false
is_basic GType.parity_phase = false
is_basic _ = true

abbrev pub all_basic : {P : Type 0} → List (Gate P) → Bool
all_basic [] = true
all_basic (g ∷ gs) = is_basic g.ty && all_basic gs

pub all_basic-append :
    {P : Type 0} (a b : List (Gate P))
    → all_basic a ≡ true
    → all_basic b ≡ true
    → all_basic (a ++ b) ≡ true
all_basic-append [] b p q = q
all_basic-append (g ∷ a) b p q = ground (arith, all_basic-append a b)

pub length-append : {A : Type 0} (a b : List A) → length (a ++ b) ≡ length a + length b
length-append [] b = omega arith
length-append (x ∷ a) b = omega (arith, length-append a b)

pub push-append : {A : Type 0} (a : List A) (x : A) → push a x ≡ a ++ (x ∷ [])
push-append [] x = refl
push-append (y ∷ a) x = ap (λ l. y ∷ l) (push-append a x)

length-reverse_lem : {A : Type 0} (l : List A) → length (reverse l) ≡ length l
length-reverse_lem [] = refl
length-reverse_lem (x ∷ l) =
    ap length (reverse-cons x l)
    ∙ length-append (reverse l) (x ∷ [])
    ∙ omega (arith, length-reverse_lem l)

-- The three types that are taken apart.
pub composite_cases :
    (ty : GType)
    → is_basic ty ≡ false
    → (ty ≡ GType.ccz) ⊎ (ty ≡ GType.toff) ⊎ (ty ≡ GType.parity_phase)
composite_cases ty h = ground arith

cnots_to-is_basic :
    (P : Type 0) ⦃p : PhaseOps P⦄ (target : ℕ) (cs : List ℕ)
    → all_basic (cnots_to {P = P} target cs) ≡ true
cnots_to-is_basic P target [] = refl
cnots_to-is_basic P target (c ∷ cs) = cnots_to-is_basic P target cs

length-cnots_to :
    (P : Type 0) ⦃p : PhaseOps P⦄ (target : ℕ) (cs : List ℕ)
    → length (cnots_to {P = P} target cs) ≡ length cs
length-cnots_to P target [] = refl
length-cnots_to P target (c ∷ cs) = ap suc (length-cnots_to P target cs)

module _ {P : Type 0} ⦃p : PhaseOps P⦄ where
  parity_gates_lem :
      (rest : List ℕ) (target : ℕ) (q : P)
      → (length (parity_gates rest target q) ≡ length rest * 2 + 1)
        × (all_basic (parity_gates rest target q) ≡ true)
  unfolding parity_gates
  parity_gates_lem rest target q = (
    length-append (cnots_to target rest) _
        ∙ omega (
          arith,
          length-cnots_to P target rest,
          length-cnots_to P target (reverse rest),
          length-reverse_lem rest,
        ),
    all_basic-append (cnots_to target rest) _ (cnots_to-is_basic P target rest)
        (cnots_to-is_basic P target (reverse rest)),
  )

  -- The gates that stand for a gate: as many as `num_basic_gates` says, all of them basic.
  pub record Decomposed (circ : List (Gate P)) (g : Gate P) : Type 0 where
    pub gates : List (Gate P)
    pub result : push_basic_gates circ g ≡ some (circ ++ gates)
    pub many : length gates ≡ num_basic_gates g
    pub basic : all_basic gates ≡ true

  decompose_basic : (circ : List (Gate P)) (g : Gate P) → is_basic g.ty ≡ true → Decomposed circ g
  unfolding push_basic_gates num_basic_gates
  decompose_basic circ g h = record {
    gates = g ∷ [];
    result = ground (arith, push-append circ g);
    many = ground arith;
    basic = ground arith;
  }

  decompose_parity :
      (circ : List (Gate P)) (qs : List ℕ) (q : P)
      → Decomposed circ (record { ty = GType.parity_phase; qs = qs; phase = q })
  unfolding push_basic_gates num_basic_gates
  decompose_parity circ [] q = record {
    gates = [];
    result = ap some (sym (append-nil circ));
    many = refl;
    basic = refl;
  }
  decompose_parity circ (a ∷ qs) q =
      let (many, basic) = parity_gates_lem (pop_from a qs).0 (pop_from a qs).1 q in
      record {
        gates = parity_gates (pop_from a qs).0 (pop_from a qs).1 q;
        result = refl;
        many = omega (arith, many, length-pop_from a qs);
        basic = basic;
      }

  decompose_ccz :
      (circ : List (Gate P)) (a b c : ℕ) (q : P)
      → Decomposed circ (record { ty = GType.ccz; qs = a ∷ b ∷ c ∷ []; phase = q })
  unfolding push_basic_gates num_basic_gates push_ccz_decomp
  decompose_ccz circ a b c q = record {
    gates = ccz_gates a b c;
    result = refl;
    many = refl;
    basic = refl;
  }

  decompose_toff :
      (circ : List (Gate P)) (a b c : ℕ) (q : P)
      → Decomposed circ (record { ty = GType.toff; qs = a ∷ b ∷ c ∷ []; phase = q })
  unfolding push_basic_gates num_basic_gates push_ccz_decomp
  decompose_toff circ a b c q = record {
    gates = gate GType.had (c ∷ []) ∷ (ccz_gates a b c ++ (gate GType.had (c ∷ []) ∷ []));
    result = ap some (
        push-append (push circ (gate GType.had (c ∷ [])) ++ ccz_gates a b c)
          (gate GType.had (c ∷ []))
        ∙ ap (λ l. (l ++ ccz_gates a b c) ++ (gate GType.had (c ∷ []) ∷ []))
            (push-append circ (gate GType.had (c ∷ [])))
        ∙ ap (λ l. l ++ (gate GType.had (c ∷ []) ∷ []))
            (append_assoc circ (gate GType.had (c ∷ []) ∷ []) (ccz_gates a b c))
        ∙ append_assoc circ (gate GType.had (c ∷ []) ∷ ccz_gates a b c)
            (gate GType.had (c ∷ []) ∷ []));
    many = refl;
    basic = refl;
  }

  three :
      (ty : GType) (qs : List ℕ) (q : P)
      → num_qubits ty ≡ some 3
      → has_arity (record { ty = ty; qs = qs; phase = q }) ≡ true
      → (a b c : ℕ) × (qs ≡ a ∷ b ∷ c ∷ [])
  unfolding has_arity
  three ty [] q n h = absurd (ground arith)
  three ty (a ∷ []) q n h = absurd (ground arith)
  three ty (a ∷ b ∷ []) q n h = absurd (ground arith)
  three ty (a ∷ b ∷ c ∷ []) q n h = (a, b, c, refl)
  three ty (a ∷ b ∷ c ∷ d ∷ qs) q n h = absurd (ground arith)

  -- Decomposing a gate with the number of qubits of its type does not panic, and appends as many gates
  -- as `num_basic_gates` says, all of them of a type that the decomposition leaves alone.
  pub push_basic_gates_lem :
      (circ : List (Gate P)) (g : Gate P) → has_arity g ≡ true → Decomposed circ g
  unfolding num_qubits
  push_basic_gates_lem circ g h = elim (Bool-cases (is_basic g.ty)) [
    | inl basic ↦ decompose_basic circ g basic
    | inr composite ↦ go g.ty g.qs g.phase (composite_cases g.ty composite) h
  ]
    where
      go :
          (ty : GType) (qs : List ℕ) (q : P)
          → (ty ≡ GType.ccz) ⊎ (ty ≡ GType.toff) ⊎ (ty ≡ GType.parity_phase)
          → has_arity (record { ty = ty; qs = qs; phase = q }) ≡ true
          → Decomposed circ (record { ty = ty; qs = qs; phase = q })
      go ty qs q (inl ccz) k =
          let (a, b, c, eq) = three ty qs q (ap num_qubits ccz) k in
          rw (ccz, eq) (decompose_ccz circ a b c q)
      go ty qs q (inr (inl toff)) k =
          let (a, b, c, eq) = three ty qs q (ap num_qubits toff) k in
          rw (toff, eq) (decompose_toff circ a b c q)
      go ty qs q (inr (inr parity)) k = rw parity (decompose_parity circ qs q)
