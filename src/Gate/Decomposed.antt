-- ===== src/Gate/Decomposed.antt =====
-- quizx/src/gate.rs: push_basic_gates appends gates that act as the gate does.
use quizx.Prelude.{
  ℕ, ◌≡◌, refl, sym, ap, ◌∙◌, true, some, List, [], ◌∷◌, ◌++◌, arith, subst, inl, inr, Bool-cases,
  pop_from, ◌⊎◌,
}
use quizx.Interface.{PhaseOps}
use quizx.Gate.Laws.{is_basic, composite_cases, push-append}
use mathlib.Core.List.{append-nil}
use quizx.Gate.{Gate, GType, ccz_gates, parity_gates, push_basic_gates, push_ccz_decomp}
use quizx.Gate.Action.{State, distinct, rotate, act, act_all, Same}
use quizx.Gate.Ccz.{ccz_gates_lem}
use quizx.Gate.Parity.{parity-pop_from, last_apart, parity_end, parity_gates_run, parity_gates_act}

some_injective : {A : Type 0} {a b : A} → some a ≡ some b → a ≡ b
some_injective h = cc

module _ {P : Type 0} ⦃p : PhaseOps P⦄ where
  -- Gates that do the same as `g` to each state of the basis on which it acts.
  pub record Stands (circ : List (Gate P)) (g : Gate P) (s q : State P) : Type 0 where
    pub gates : List (Gate P)
    pub result : push_basic_gates circ g ≡ some (circ ++ gates)
    pub after : State P
    pub run : act_all gates s ≡ some after
    pub same : Same q after

  replace_basic :
      (circ : List (Gate P)) (g : Gate P) (s q : State P)
      → is_basic g.ty ≡ true
      → act g.ty g.qs g.phase s ≡ some q
      → Stands circ g s q
  unfolding push_basic_gates act_all
  replace_basic circ g s q h run = record {
    gates = g ∷ [];
    result = ground (arith, push-append circ g);
    after = q;
    run = rw run refl;
    same = record { same_bits = λ k. refl; same_turns = refl; same_phases = refl };
  }

  replace_ccz :
      (circ : List (Gate P)) (qs : List ℕ) (phase : P) (s q : State P)
      → distinct qs ≡ true
      → act GType.ccz qs phase s ≡ some q
      → Stands circ (record { ty = GType.ccz; qs = qs; phase = phase }) s q
  unfolding act push_basic_gates push_ccz_decomp
  replace_ccz circ [] phase s q h run = cc
  replace_ccz circ (a ∷ []) phase s q h run = cc
  replace_ccz circ (a ∷ b ∷ []) phase s q h run = cc
  replace_ccz circ (a ∷ b ∷ c ∷ []) phase s q h run =
      let (r, done, same) =
        ccz_gates_lem a b c phase (ground (arith, h)) (ground (arith, h)) (ground (arith, h)) s in
      record {
        gates = ccz_gates a b c;
        result = refl;
        after = r;
        run = done;
        same = subst (λ x. Same x r) (some_injective run) same;
      }
  replace_ccz circ (a ∷ b ∷ c ∷ d ∷ qs) phase s q h run = cc

  replace_parity :
      (circ : List (Gate P)) (qs : List ℕ) (phase : P) (s q : State P)
      → distinct qs ≡ true
      → act GType.parity_phase qs phase s ≡ some q
      → Stands circ (record { ty = GType.parity_phase; qs = qs; phase = phase }) s q
  unfolding act push_basic_gates act_all
  replace_parity circ [] phase s q h run = record {
    gates = [];
    result = ap some (sym (append-nil circ));
    after = s;
    run = refl;
    same =
        subst (λ x. Same x s) (some_injective run)
          (record { same_bits = λ k. refl; same_turns = refl; same_phases = refl });
  }
  replace_parity circ (a ∷ qs) phase s q h run =
      let rest = (pop_from a qs).0 in
      let t = (pop_from a qs).1 in
      record {
        gates = parity_gates rest t phase;
        result = refl;
        after = parity_end rest t phase s;
        run = parity_gates_run rest t phase s;
        same =
            subst (λ x. Same x (parity_end rest t phase s))
              (ap (λ b. rotate b phase s) (parity-pop_from s.bits a qs) ∙ some_injective run)
              (parity_gates_act rest t phase s (last_apart a qs h));
      }

  no_toff : (qs : List ℕ) (phase : P) (s q : State P) → act GType.toff qs phase s ≡ some q → ⊥
  unfolding act
  no_toff qs phase s q run = cc

  -- Where no qubit of a gate occurs twice and the gate acts on a state of the computational basis,
  -- decomposing the gate does not panic, and the gates that are appended act on the state and leave the
  -- same bits, the same added phases and, up to whole turns, the same eighths of a turn as the gate.
  pub act-push_basic_gates :
      (circ : List (Gate P)) (g : Gate P) (s q : State P)
      → distinct g.qs ≡ true
      → act g.ty g.qs g.phase s ≡ some q
      → Stands circ g s q
  act-push_basic_gates circ g s q h run = elim (Bool-cases (is_basic g.ty)) [
    | inl basic ↦ replace_basic circ g s q basic run
    | inr composite ↦ go g.ty g.qs g.phase (composite_cases g.ty composite) h run
  ]
    where
      turned :
          (ty ty' : GType) (qs : List ℕ) (phase : P)
          → ty ≡ ty'
          → act ty qs phase s ≡ some q
          → act ty' qs phase s ≡ some q
      turned ty ty' qs phase e run = subst (λ y. act y qs phase s ≡ some q) e run

      go :
          (ty : GType) (qs : List ℕ) (phase : P)
          → (ty ≡ GType.ccz) ⊎ (ty ≡ GType.toff) ⊎ (ty ≡ GType.parity_phase)
          → distinct qs ≡ true
          → act ty qs phase s ≡ some q
          → Stands circ (record { ty = ty; qs = qs; phase = phase }) s q
      go ty qs phase (inl e) h run =
          rw e (replace_ccz circ qs phase s q h (turned _ _ qs phase e run))
      go ty qs phase (inr (inl e)) h run = absurd (no_toff qs phase s q (turned _ _ qs phase e run))
      go ty qs phase (inr (inr e)) h run =
          rw e (replace_parity circ qs phase s q h (turned _ _ qs phase e run))
