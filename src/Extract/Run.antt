-- ===== src/Extract/Run.antt =====
-- quizx/src/extract.rs: the phases of the extraction and its loop, on fuel. The elimination that the
-- extractor is set to, `gaussf`, is an argument.
use quizx.Prelude.{
  ℕ, zero, suc, ◌+◌, Bool, true, false, ◌&&◌, ◌||◌, not, Option, none, some, List, [], ◌∷◌, length,
  ◌>>=◌, ◌==◌, ltb, if◌then◌else◌,
}
use quizx.Types.{VType, vtype_eq}
use quizx.Interface.{PhaseOps, ScalarOps}
use quizx.VecGraph.{Graph, vertex_vec, vertex_type, degree, neighbor_at}
use quizx.GraphLike.{neighbor_vec}
use quizx.Rules.Checked.{contains}
use quizx.Rules.Spiders.{remove_id}
use quizx.Rules.Pivot.{boundary_pivot}
use quizx.Circuit
use quizx.Circuit.{Circuit, push_front}
use quizx.Extract.{
  gadget_stays, none_extractible, ExtractError, Step, done, failed, and_go, Extractor,
  single_sln_set,
}
use quizx.Extract.Frontier.{fail, perm_to_cnots, prepare_frontier}

-- How a round of the loop ends where it does not fail: the loop is left, or goes on.
pub data Round (P S : Type 0) : Type 0 where
  left : Extractor P S → Circuit P → Round P S
  again : Extractor P S → List ℕ → Circuit P → Round P S

-- What `extract` returns, with the diagram that is left; or it panics, or the fuel does not last.
pub data Extraction (P S : Type 0) : Type 0 where
  extracted : Circuit P → Graph P S → Extraction P S
  rejected : ExtractError P S → Extraction P S
  crashed : Extraction P S
  unfinished : Extraction P S

-- The hash set without an element.
abbrev pub remove_all : List ℕ → ℕ → List ℕ
remove_all [] n = []
remove_all (x ∷ xs) n = let rest = remove_all xs n in if x == n then rest else x ∷ rest

abbrev pub is_empty : List (ℕ × ℕ) → Bool
is_empty [] = true
is_empty (x ∷ xs) = false

module _ {P S : Type 0} ⦃p : PhaseOps P⦄ ⦃c : ScalarOps P S⦄ where
  -- The inner loop of `fix_gadgets`: `none` inside where no neighbour of v is a gadget.
  unfoldable pub fix_gadget :
      ℕ
      → List ℕ
      → List ℕ
      → Graph P S
      → Circuit P
      → Option (Step (ExtractError P S) (Option (Graph P S × List ℕ)))
  fix_gadget v [] gadgets g a = some (done none)
  fix_gadget v (n ∷ ns) gadgets g a =
      let rest = fix_gadget v ns gadgets g a in
      if contains gadgets n
      then (do
        (g1, fixed) ← boundary_pivot g v n
        some (
            if fixed
            then done (some (g1, remove_all gadgets n))
            else failed (fail (gadget_stays v n) a g1)))
      else rest

  -- `fix_gadgets`: the diagram and the gadgets after it, and whether it removed one.
  unfoldable pub fix_gadgets :
      List (ℕ × ℕ)
      → List ℕ
      → Graph P S
      → Circuit P
      → Option (Step (ExtractError P S) (Graph P S × List ℕ × Bool))
  fix_gadgets [] gadgets g a = some (done (g, gadgets, false))
  fix_gadgets ((q, v) ∷ frontier) gadgets g a = do
    ns ← neighbor_vec g v
    and_go (fix_gadget v ns gadgets g a) (λ r. elim r [
      | some s ↦ some (done (s.0, s.1, true))
      | none ↦ fix_gadgets frontier gadgets g a
    ])

  unfoldable pub extract_from_frontier : List (ℕ × ℕ) → Graph P S → Bool → Option (Graph P S × Bool)
  extract_from_frontier [] g found = some (g, found)
  extract_from_frontier ((q, v) ∷ frontier) g found = do
    (g1, removed) ← remove_id g v
    extract_from_frontier frontier g1 (found || removed)

  -- The set of gadgets at the start: the centres.
  unfoldable pub find_centres : Graph P S → List ℕ → List ℕ → Option (List ℕ)
  find_centres g [] gadgets = some gadgets
  find_centres g (v ∷ vs) gadgets = do
    d ← degree g v
    t ← vertex_type g v
    more ←
        (if d == 1 && vtype_eq t VType.z
          then (do
            n ← neighbor_at g v 0
            tn ← vertex_type g n
            some (
                if vtype_eq tn VType.z && not (contains gadgets n)
                then quizx.Prelude.push gadgets n
                else gadgets))
          else some gadgets)
    find_centres g vs more

  -- The part of a round after the gadgets.
  unfoldable pub extract_vertices :
      (Extractor P S → Circuit P → Option (Extractor P S × Circuit P))
      → Extractor P S
      → List ℕ
      → Circuit P
      → Option (Step (ExtractError P S) (Round P S))
  extract_vertices gaussf e gadgets a = do
    (g1, found) ← extract_from_frontier e.frontier e.g false
    (if found then some (done (again (record e { g = g1 }) gadgets a)) else (do
      (e2, a2) ← gaussf (record e { g = g1 }) a
      (g3, found2) ← extract_from_frontier e2.frontier e2.g false
      some (
          if found2
          then done (again (record e2 { g = g3 }) gadgets a2)
          else failed (fail none_extractible a2 g3))))

  -- One round of the loop of `extract`.
  unfoldable pub extract_round :
      (Extractor P S → Circuit P → Option (Extractor P S × Circuit P))
      → Extractor P S
      → List ℕ
      → Circuit P
      → Option (Step (ExtractError P S) (Round P S))
  extract_round gaussf e gadgets a = and_go (prepare_frontier e a) (λ s.
      if is_empty s.0.frontier
      then some (done (left s.0 s.1))
      else and_go (fix_gadgets s.0.frontier gadgets s.0.g s.1) (λ t.
        if t.2
        then some (done (again (record s.0 { g = t.0 }) t.1 s.1))
        else extract_vertices gaussf (record s.0 { g = t.0 }) t.1 s.1))

  -- The permutation at the end.
  unfoldable pub finish : Extractor P S → Circuit P → Extraction P S
  finish e a =
      if e.up_to_perm
      then extracted a e.g
      else elim (perm_to_cnots e.g 3 a) [ none ↦ crashed | some a1 ↦ extracted a1 e.g ]

  unfoldable pub extract_loop :
      ℕ
      → (Extractor P S → Circuit P → Option (Extractor P S × Circuit P))
      → Extractor P S
      → List ℕ
      → Circuit P
      → Extraction P S
  extract_loop zero gaussf e gadgets a = unfinished
  extract_loop (suc n) gaussf e gadgets a = elim (extract_round gaussf e gadgets a) [
    | none ↦ crashed
    | some s ↦ elim s [
      | failed err ↦ rejected err
      | done r ↦ elim r [
        | left e1 a1 ↦ finish e1 a1
        | again e1 gadgets1 a1 ↦ extract_loop n gaussf e1 gadgets1 a1
      ]
    ]
  ]

  -- `Extractor::extract`
  unfoldable pub extract :
      ℕ
      → (Extractor P S → Circuit P → Option (Extractor P S × Circuit P))
      → Extractor P S
      → Extraction P S
  extract n gaussf e = elim (find_centres e.g (vertex_vec e.g) []) [
    | none ↦ crashed
    | some gadgets ↦ extract_loop n gaussf e gadgets (Circuit.new (length e.g.outputs))
  ]

  -- `to_circuit`, with the elimination that `Extractor::new` sets.
  unfoldable pub to_circuit : ℕ → (Graph P S → List ℕ → List ℕ) → Graph P S → Extraction P S
  to_circuit n arrange g =
      extract n (λ e. single_sln_set (arrange e.g) e)
        (record { g = g; frontier = []; up_to_perm = false })
