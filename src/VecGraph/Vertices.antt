-- ===== src/VecGraph/Vertices.antt =====
-- `add_vertex_with_data`, in both of its branches: a hole is filled, or the tables grow.
use quizx.Prelude.{
  ℕ, zero, suc, ◌+◌, ◌≤◌, ◌<◌, ◌≡◌, refl, Option, none, some, List, [], ◌∷◌, arith, ◌==◌,
  if◌then◌else◌, slot, set, push, pop, occurrences, one_if_eq, one_if_some, sym, ◌∙◌, inl, inr,
  length, length-push, length-set, slot-set, slot-push, tally-push, tally-slot_write,
  tally-pop_from, Option-cases,
}
use quizx.Types.{EType}
use quizx.VecGraph.{Graph, VData, add_vertex_with_data, edge_type_opt}
use quizx.VecGraph.Neighbors.{hit, hit_key}
use quizx.VecGraph.Valid.{IsValid, weigh, weigh_slot, one_each, edge_type_opt-pick}

pub occurrences-pop :
    (a : ℕ) (xs : List ℕ) {rest : List ℕ} {last : ℕ}
    → pop xs ≡ some (rest, last)
    → occurrences a rest + (if last == a then 1 else 0) ≡ occurrences a xs
occurrences-pop a [] h = cc
occurrences-pop a (x ∷ xs) h = ground (arith, tally-pop_from (one_if_eq a) x xs)

pop-none : (xs : List ℕ) → pop xs ≡ none → xs ≡ []
pop-none [] h = refl
pop-none (x ∷ xs) h = cc

pub slot_beyond {ℓ} : {A : Type ℓ} (xs : List (Option A)) (v : ℕ) → length xs ≤ v → slot xs v ≡ none
slot_beyond [] v h = refl
slot_beyond (x ∷ xs) zero h = absurd (omega arith)
slot_beyond (x ∷ xs) (suc v) h = slot_beyond xs v (omega arith)

module _ {P S : Type 0} (g : Graph P S) (d : VData P) where
  -- The graph when a hole at `v` is filled.
  abbrev reused : List ℕ → ℕ → Graph P S
  reused holes v = record g {
    numv = g.numv + 1;
    holes = holes;
    vdata = set g.vdata v (some d);
    edata = set g.edata v (some []);
  }

  -- The graph when the tables grow.
  abbrev grown : Graph P S
  grown = record g {
    numv = g.numv + 1;
    vdata = push g.vdata (some d);
    edata = push g.edata (some []);
  }

  add_vertex_reuse :
      {holes : List ℕ} {v : ℕ}
      → pop g.holes ≡ some (holes, v)
      → add_vertex_with_data g d ≡ (reused holes v, v)
  unfolding add_vertex_with_data
  add_vertex_reuse h = ground arith

  add_vertex_grow : pop g.holes ≡ none → add_vertex_with_data g d ≡ (grown, length g.vdata)
  unfolding add_vertex_with_data
  add_vertex_grow h = ground arith

  -- What `add_vertex_with_data` promises of the new graph and the new vertex.
  pub record Added (r : Graph P S × ℕ) : Type 0 where
    pub valid : IsValid r.0
    pub fresh : slot g.vdata r.1 ≡ none
    pub data_of : (w : ℕ) → slot r.0.vdata w ≡ (if r.1 == w then some d else slot g.vdata w)
    pub same_edges : (a b : ℕ) → edge_type_opt r.0 a b ≡ edge_type_opt g a b
    pub alone : (a : ℕ) → edge_type_opt r.0 r.1 a ≡ none

  -- A graph whose adjacency lists weigh the same is as well-formed in its edges.
  module _ (h : Graph P S)
      (same : (f : ℕ × EType → ℕ) (w : ℕ) → weigh f h.edata w ≡ weigh f g.edata w) where
    symmetric_same :
        IsValid g → (s t : ℕ) (e : EType) → weigh (hit t e) h.edata s ≡ weigh (hit s e) h.edata t
    symmetric_same v s t e = same (hit t e) s ∙ v.symmetric s t e ∙ sym (same (hit s e) t)

    edges_same : IsValid g → (a b : ℕ) → edge_type_opt h a b ≡ edge_type_opt g a b
    edges_same v a b = ground (
      arith,
      edge_type_opt-pick h a b,
      edge_type_opt-pick g a b (v.simple a b),
      same (hit_key b) a,
      same (hit b EType.n) a,
      same (hit b EType.h) a,
      same (hit b EType.wio) a,
      v.simple a b,
    )

  edge_type_opt-empty :
      (h : Graph P S) (v a : ℕ) → slot h.edata v ≡ some [] → edge_type_opt h v a ≡ none
  edge_type_opt-empty h v a e = ground (arith, edge_type_opt-pick h v a)

  module _ (holes : List ℕ) (v : ℕ) (popped : pop g.holes ≡ some (holes, v))
      (valid : IsValid g) where
    hole_in_range : v < length g.vdata
    hole_in_range = ground (arith, valid.holes_list v, occurrences-pop v g.holes popped)

    hole_empty : slot g.vdata v ≡ none
    hole_empty = ground (arith, valid.holes_list v, occurrences-pop v g.holes popped)

    in_range : v < length g.edata
    in_range = omega (arith, hole_in_range, valid.same_length)

    same_weight_reused :
        (f : ℕ × EType → ℕ) (w : ℕ) → weigh f (set g.edata v (some [])) w ≡ weigh f g.edata w
    same_weight_reused f w =
        ground (arith, slot-set g.edata v w (some []) in_range, valid.same_live v, hole_empty)

    reused-IsValid : IsValid (reused holes v)
    reused-IsValid = record {
      same_length =
          omega (
            arith,
            valid.same_length,
            length-set g.vdata v (some d),
            length-set g.edata v (some []),
          );
      same_live = λ w. ground (
        arith,
        slot-set g.vdata v w (some d) hole_in_range,
        slot-set g.edata v w (some []) in_range,
        valid.same_live w,
      );
      symmetric = symmetric_same (reused holes v) same_weight_reused valid;
      simple = λ s t. omega (arith, same_weight_reused (hit_key t) s, valid.simple s t);
      no_loop = λ s. same_weight_reused (hit_key s) s ∙ valid.no_loop s;
      numv_counts = ground (
        arith,
        valid.numv_counts,
        tally-slot_write one_if_some g.vdata v (some d) hole_in_range,
        hole_empty,
      );
      nume_counts = ground (
        arith,
        valid.nume_counts,
        tally-slot_write (weigh_slot one_each) g.edata v (some []) in_range,
        valid.same_live v,
        hole_empty,
      );
      holes_list = λ w. ground (
        arith,
        valid.holes_list w,
        occurrences-pop w g.holes popped,
        slot-set g.vdata v w (some d) hole_in_range,
        length-set g.vdata v (some d),
        hole_empty,
        hole_in_range,
      );
    }

    reused-Added : Added (reused holes v, v)
    reused-Added = record {
      valid = reused-IsValid;
      fresh = hole_empty;
      data_of = λ w. slot-set g.vdata v w (some d) hole_in_range;
      same_edges = edges_same (reused holes v) same_weight_reused valid;
      alone = λ a.
          edge_type_opt-empty (reused holes v) v a
            (ground (arith, slot-set g.edata v v (some []) in_range));
    }

  module _ (empty : g.holes ≡ []) (valid : IsValid g) where
    end_empty : slot g.vdata (length g.vdata) ≡ none
    end_empty = slot_beyond g.vdata (length g.vdata) (omega arith)

    end_empty_edata : slot g.edata (length g.edata) ≡ none
    end_empty_edata = slot_beyond g.edata (length g.edata) (omega arith)

    same_weight_grown :
        (f : ℕ × EType → ℕ) (w : ℕ) → weigh f (push g.edata (some [])) w ≡ weigh f g.edata w
    same_weight_grown f w = ground (arith, slot-push g.edata w (some []), end_empty_edata)

    grown-IsValid : IsValid grown
    grown-IsValid = record {
      same_length =
          omega
            (arith, valid.same_length, length-push g.vdata (some d), length-push g.edata (some []));
      same_live = λ w. ground (
        arith,
        slot-push g.vdata w (some d),
        slot-push g.edata w (some []),
        valid.same_live w,
        valid.same_length,
      );
      symmetric = symmetric_same grown same_weight_grown valid;
      simple = λ s t. omega (arith, same_weight_grown (hit_key t) s, valid.simple s t);
      no_loop = λ s. same_weight_grown (hit_key s) s ∙ valid.no_loop s;
      numv_counts = ground (arith, valid.numv_counts, tally-push one_if_some g.vdata (some d));
      nume_counts =
          ground (arith, valid.nume_counts, tally-push (weigh_slot one_each) g.edata (some []));
      holes_list = λ w.
          ground
            (arith, valid.holes_list w, slot-push g.vdata w (some d), length-push g.vdata (some d));
    }

    grown-Added : Added (grown, length g.vdata)
    grown-Added = record {
      valid = grown-IsValid;
      fresh = end_empty;
      data_of = λ w. slot-push g.vdata w (some d);
      same_edges = edges_same grown same_weight_grown valid;
      alone = λ a.
          edge_type_opt-empty grown (length g.vdata) a
            (ground (arith, slot-push g.edata (length g.vdata) (some []), valid.same_length));
    }

  -- `add_vertex_with_data` on a well-formed graph: the result is well-formed, the new vertex takes
  -- a slot that was empty, holds the given data and has no edges; every other vertex and every edge
  -- is as before.
  pub add_vertex_with_data-Added : IsValid g → Added (add_vertex_with_data g d)
  add_vertex_with_data-Added valid = elim (Option-cases (pop g.holes)) [
    | inl e ↦ rw (add_vertex_grow e) (grown-Added (pop-none g.holes e) valid)
    | inr (r, e) ↦ rw (add_vertex_reuse e) (reused-Added r.0 r.1 e valid)
  ]
