-- ===== src/Simplify/Rounds.antt =====
-- quizx/src/simplify.rs: `vertex_simp` with a rule that takes vertices away ends, with no match left.
use quizx.Prelude.{
  ℕ, zero, suc, ◌+◌, ◌≤◌, ◌<◌, ◌≡◌, refl, Bool, true, false, ◌||◌, Option, none, some, List, [],
  ◌∷◌, slot, is_some, ◌==◌, arith, Bool-cases, inl, inr, ap, sym, ◌∙◌, ◌⊎◌, subst,
}
use quizx.VecGraph.{Graph, vertex_vec, vertices_from}
use quizx.Rules.Checked.{contains}
use quizx.Rules.Linked.{Distinct, contains_ne}
use quizx.Simplify.{finished, vertex_round, vertex_simp}

-- The listed vertices are those of the table, each once.
earlier_absent :
    {A : Type 0} (k w : ℕ) (d : List (Option A)) → w < k → contains (vertices_from k d) w ≡ false
unfolding vertices_from
earlier_absent k w [] h = refl
earlier_absent k w (none ∷ d) h = earlier_absent (k + 1) w d (omega arith)
earlier_absent k w (some x ∷ d) h = ground (arith, earlier_absent (k + 1) w d (omega arith))

contains-vertices_from :
    {A : Type 0} (k j : ℕ) (d : List (Option A))
    → contains (vertices_from k d) (k + j) ≡ is_some (slot d j)
unfolding vertices_from
contains-vertices_from k j [] = refl
contains-vertices_from k zero (none ∷ d) = earlier_absent (k + 1) (k + 0) d (omega arith)
contains-vertices_from k zero (some x ∷ d) = ground arith
contains-vertices_from k (suc j) (none ∷ d) =
    let next : k + suc j ≡ k + 1 + j = omega arith in rw next (contains-vertices_from (k + 1) j d)
contains-vertices_from k (suc j) (some x ∷ d) =
    let next : k + suc j ≡ k + 1 + j = omega arith in
    rw next (ground (arith, contains-vertices_from (k + 1) j d))

Distinct-vertices_from : {A : Type 0} (k : ℕ) (d : List (Option A)) → Distinct (vertices_from k d)
unfolding vertices_from
Distinct-vertices_from k [] = tt
Distinct-vertices_from k (none ∷ d) = Distinct-vertices_from (k + 1) d
Distinct-vertices_from k (some x ∷ d) =
    (earlier_absent (k + 1) k d (omega arith), Distinct-vertices_from (k + 1) d)

contains_other :
    (vs : List ℕ) (v w : ℕ) → contains vs v ≡ false → contains vs w ≡ true → (v == w) ≡ false
contains_other vs v w a b = ground (arith, contains_ne vs w v b a)

module _ {P S : Type 0} where
  -- The vertex is in the diagram.
  abbrev pub live : Graph P S → ℕ → Bool
  live g v = is_some (slot g.vdata v)

  pub vertex_vec-live :
      (g : Graph P S) → ((w : ℕ) → contains (vertex_vec g) w ≡ live g w) × Distinct (vertex_vec g)
  unfolding vertex_vec
  vertex_vec-live g = (
    λ w.
        let start : 0 + w ≡ w = omega arith in
        subst (λ k. contains (vertices_from 0 g.vdata) k ≡ live g w) start
          (contains-vertices_from 0 w g.vdata),
    Distinct-vertices_from 0 g.vdata,
  )

  -- A rule that can be run to the end: on the diagrams of the invariant its check does not panic, and where
  -- the check holds the rule does not panic, keeps the invariant, takes a vertex away and keeps all others.
  pub record Reduces (I : Graph P S → Type 0) (check : Graph P S → ℕ → Option Bool)
      (rule : Graph P S → ℕ → Option (Graph P S)) : Type 0 where
    pub total : (g : Graph P S) (v : ℕ) → I g → live g v ≡ true → (b : Bool) × (check g v ≡ some b)
    pub step :
        (g : Graph P S) (v : ℕ)
        → I g
        → live g v ≡ true
        → check g v ≡ some true
        → (g' : Graph P S) × (rule g v ≡ some g')
          × I g'
          × (g'.numv < g.numv)
          × ((w : ℕ) → (v == w) ≡ false → live g w ≡ true → live g' w ≡ true)

  module _ (I : Graph P S → Type 0) (check : Graph P S → ℕ → Option Bool)
      (rule : Graph P S → ℕ → Option (Graph P S)) (reduces : Reduces I check rule) where
    round_match :
        (v : ℕ) (vs : List ℕ) (g g1 : Graph P S) (found : Bool)
        → check g v ≡ some true
        → rule g v ≡ some g1
        → vertex_round check rule (v ∷ vs) g found ≡ vertex_round check rule vs g1 true
    unfolding vertex_round
    round_match v vs g g1 found a b = rw (a, b) refl

    round_skip :
        (v : ℕ) (vs : List ℕ) (g : Graph P S) (found : Bool)
        → check g v ≡ some false
        → vertex_round check rule (v ∷ vs) g found ≡ vertex_round check rule vs g found
    unfolding vertex_round
    round_skip v vs g found a = rw a refl

    -- A round either finds nothing and changes nothing, or takes a vertex away.
    vertex_round_lem :
        (vs : List ℕ) (g : Graph P S) (found : Bool)
        → I g
        → Distinct vs
        → ((w : ℕ) → contains vs w ≡ true → live g w ≡ true)
        → (g' : Graph P S) × (new : Bool) × (vertex_round check rule vs g found ≡ some (g', new))
          × I g'
          × (((new ≡ found) × (g' ≡ g) × ((w : ℕ) → contains vs w ≡ true → check g w ≡ some false))
              ⊎ ((new ≡ true) × (g'.numv < g.numv)))
    vertex_round_lem [] g found i d alive =
        (g, found, unfold vertex_round in refl, i, inl (refl, refl, λ w h. absurd (ground arith)))
    vertex_round_lem (v ∷ vs) g found i d alive =
        let (b, checked) = reduces.total g v i (alive v (ground arith)) in
        elim (Bool-cases b) [
          | inl on ↦
              let k : check g v ≡ some true = checked ∙ ap some on in
              let (g1, ruled, i1, less, others) = reduces.step g v i (alive v (ground arith)) k in
              let (g', new, done, i', r) =
                vertex_round_lem vs g1 true i1 d.1
                  (λ w h. others w (contains_other vs v w d.0 h) (alive w (ground (arith, h)))) in
              (
                g',
                new,
                round_match v vs g g1 found k ruled ∙ done,
                i',
                inr (smaller g1 g' new less r),
              )
          | inr off ↦
              let k : check g v ≡ some false = checked ∙ ap some off in
              let (g', new, done, i', r) =
                vertex_round_lem vs g found i d.1 (λ w h. alive w (ground (arith, h))) in
              (g', new, round_skip v vs g found k ∙ done, i', skipped g' new k r)
        ]
      where
        skipped :
            (g' : Graph P S) (new : Bool)
            → check g v ≡ some false
            → (((new ≡ found)
                  × (g' ≡ g)
                  × ((w : ℕ) → contains vs w ≡ true → check g w ≡ some false))
                ⊎ ((new ≡ true) × (g'.numv < g.numv)))
            → (((new ≡ found)
                  × (g' ≡ g)
                  × ((w : ℕ) → (v == w || contains vs w) ≡ true → check g w ≡ some false))
                ⊎ ((new ≡ true) × (g'.numv < g.numv)))
        skipped g' new k (inr r) = inr r
        skipped g' new k (inl (a, same, none_left)) = inl (
          a,
          same,
          λ w h. elim (Bool-cases (v == w)) [
            | inl here ↦
                let at_w : v ≡ w = ground arith in subst (λ u. check g u ≡ some false) at_w k
            | inr there ↦ none_left w (ground (arith, h))
          ],
        )

        smaller :
            (g1 g' : Graph P S) (new : Bool)
            → (g1.numv < g.numv)
            → (((new ≡ true)
                  × (g' ≡ g1)
                  × ((w : ℕ) → contains vs w ≡ true → check g1 w ≡ some false))
                ⊎ ((new ≡ true) × (g'.numv < g1.numv)))
            → (new ≡ true) × (g'.numv < g.numv)
        smaller g1 g' new less (inl (a, same, none_left)) =
            (a, subst (λ h. h.numv < g.numv) (sym same) less)
        smaller g1 g' new less (inr (a, r)) = (a, omega arith)

    simp_stop :
        (n : ℕ) (g g1 : Graph P S) (got : Bool)
        → vertex_round check rule (vertex_vec g) g false ≡ some (g1, false)
        → vertex_simp (suc n) check rule false g got ≡ finished g1 (got || false)
    unfolding vertex_simp
    simp_stop n g g1 got a = ground (arith, a)

    simp_again :
        (n : ℕ) (g g1 : Graph P S) (got : Bool)
        → vertex_round check rule (vertex_vec g) g false ≡ some (g1, true)
        → vertex_simp (suc n) check rule false g got
          ≡ vertex_simp n check rule false g1 (got || true)
    unfolding vertex_simp
    simp_again n g g1 got a = ground (arith, a)

    -- With more rounds of fuel than the diagram has vertices, the loop ends.
    pub vertex_simp_lem :
        (n : ℕ) (g : Graph P S) (got : Bool)
        → I g
        → g.numv < n
        → (g' : Graph P S) × (m : Bool) × (vertex_simp n check rule false g got ≡ finished g' m)
          × I g'
          × (g'.numv ≤ g.numv)
          × ((v : ℕ) → live g' v ≡ true → check g' v ≡ some false)
    vertex_simp_lem zero g got i fuel = absurd (omega arith)
    vertex_simp_lem (suc n) g got i fuel =
        let (members, distinct) = vertex_vec-live g in
        let (g1, new, done, i1, r) =
          vertex_round_lem (vertex_vec g) g false i distinct (λ w h. sym (members w) ∙ h) in
        elim r [
          | inl (a, same, none_left) ↦ (
            g,
            got || false,
            simp_stop n g g got (done ∙ rw (a, same) refl),
            i,
            omega arith,
            λ v h. none_left v (members v ∙ h),
          )
          | inr (a, less) ↦
              let (g', m, rest, i', fewer, left) =
                vertex_simp_lem n g1 (got || true) i1 (omega arith) in
              (g', m, simp_again n g g1 got (done ∙ rw a refl) ∙ rest, i', omega arith, left)
        ]
