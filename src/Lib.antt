-- ===== src/Lib.antt =====
-- QuiZX: ZX-diagrams, their rewrite rules, and the circuits they are made from.
--
-- The program keeps a ZX-diagram in an adjacency-list graph (quizx/src/vec_graph.rs) behind a
-- trait with provided methods (quizx/src/graph.rs); a second graph, on hash tables
-- (quizx/src/hash_graph.rs), implements the same trait. Vertices have phases (quizx/src/phase.rs)
-- and the diagram a scalar (quizx/src/scalar.rs). Rewrite rules (quizx/src/basic_rules.rs) change
-- the diagram, and strategies (quizx/src/simplify.rs) apply them until none matches; circuits
-- (quizx/src/circuit.rs) of gates (quizx/src/gate.rs) are translated into diagrams; matrices over
-- F2 (quizx/src/linalg.rs) serve the way back (quizx/src/extract.rs).
--
-- Types: vertex types, edge types and basis elements of quizx/src/graph.rs.
-- Interface: what the graph, the rules and the gates use of phases and scalars
--   (quizx/src/phase.rs, quizx/src/scalar.rs). The type of phases and the type of scalars are
--   parameters.
-- VecGraph: the graph of quizx/src/vec_graph.rs, a record with the fields of the struct, and each
--   of its operations. VecGraph/Valid states the invariant; Vertices, Edges, Removal and Fields
--   say what the operations do to it; Neighbors, HalfEdges and Unlinked are about the adjacency
--   lists.
-- HashGraph: the graph of quizx/src/hash_graph.rs. HashGraph/Simulates says when it holds the same
--   diagram as a VecGraph; Tables, Halves, Removal and Vertices follow the operations on both;
--   Refines runs sequences of edits on both.
-- Phase: phases as fractions, quizx/src/phase.rs; Phase/Integers, Phase/Rationals and Phase/Range
--   are about the normal form, Phase/Clifford about the tests, Phase/Limit has quizx/src/phase/utils.rs, and Convergents, Loop and
--   Limited are about it.
-- Scalar: exact scalars, quizx/src/scalar.rs: the loops on lists of coefficients; Scalar/Ops has
--   the operations on whole scalars, and Reduce, Conj, Zeros, Powers, Product, Results
--   and Sums are about them.
-- GraphLike: the methods of quizx/src/graph.rs on one diagram; GraphLike/Parallel and
--   GraphLike/Smart are about `add_edge_smart`.
-- Compose: plugging, appending and adjoint of diagrams, from the same file.
-- Rules: the rewrite rules of quizx/src/basic_rules.rs. Rules/Checked has the pattern of a checked
--   rule; Spiders, Pivot and Gadgets have the rules; Linked, Links and LocalComp are about local
--   complementation, Fused, FuseEdges and Fusion about spider fusion, ColorChange about the change
--   of colour.
-- Simplify: the loops of quizx/src/simplify.rs and the strategies that are one loop;
--   Simplify/Strategies has those that chain loops. Simplify/Rounds is about the loop over
--   vertices, LocalComp about its run with local complementation, Count about counting; Matches
--   and Normal say what it means that a loop found no match; Numv and Shrinking count the vertices
--   that operations and rules leave, Ended applies this to the loops.
-- Gate, Circuit: quizx/src/gate.rs and quizx/src/circuit.rs without the diagrams. Gate/Laws,
--   Gate/Names and Circuit/Laws have the proofs; Gate/Action says what gates do to the states of the
--   computational basis, and Ccz, Parity and Decomposed compare a gate with its decomposition.
-- Build: the translation of gates and circuits into diagrams, from the same two files.
-- Linalg: matrices over F2. Linalg/Gauss has the elimination, one function for each loop;
--   Linalg/Bits reads a matrix as Booleans; the children of Linalg/Gauss follow the two halves of
--   the elimination: Loops and Dedup the inner loops, Echelon and Forward the first half, Cleared
--   and Reduced the second, Complete the whole, Solutions what row operations keep, Results the
--   public functions.
-- Extract: circuits from diagrams, quizx/src/extract.rs: matrices between frontier and neighbours;
--   Extract/Frontier has the preparation of the frontier, Extract/Run the loop;
--   Extract/Biadjacency is about the edges at the frontier after an elimination.
-- Examples: concrete diagrams, circuits and matrices, and the results at them; its children have
--   phases, scalars, hash graphs, strategies and extraction.
--
-- A panic, an index out of range and a failed `expect` are `none`. A `usize` that is counted down
-- is checked for 0; sizes and counts are not bounded above. `i32` values are integers, wrapped
-- around by `wrap_i32` where the code adds or multiplies coordinates. Products and sums of
-- scalars are checked for overflow as a debug build does, with `isize` of 64 bits: products and sums
-- of coefficients, negated factors, powers of 2, and sums and differences of `i32` powers are `none`
-- where they do not fit. The negation of a coefficient in `conj` and the power that `reduce` counts
-- up are not checked, nor is the product in `from_phase`; of the arithmetic on phases only the
-- doubling of a denominator is. Hash maps are association lists; where a loop runs over one, the order of
-- the list is that of the loop: a result for every list is one for every order, and
-- `fuse_gadgets`, `remove_gadget_pi` and the extraction take the order as an argument.
-- `Rational64`, floating-point numbers and `lcm`, of other crates, are parameters. Loops over a
-- range or a vector are structural recursions. The one recursion that is not, of `add_to_graph`
-- through the decomposition, is bounded by depth 2: decomposed gates are basic and are not
-- decomposed again. The loops of Simplify take as fuel the number of rounds; where each match
-- takes a vertex away, one round more than there are vertices is enough. `normalize` needs two
-- rounds, `limit_denominator` two more than the denominator, and `reduce` one more than the sum of
-- the sizes of the coefficients. No bound is given for `clifford_simp` and `full_simp`, whose
-- generic pivots add vertices, and for the loop of the extraction: they return `no_fuel` and
-- `unfinished` where the fuel does not last.
--
-- Not modelled: tensors, decompositions, random generation, file formats and the Python bindings;
-- printing; conversions between phases and floating-point numbers.
pub mod HashGraph
pub mod Phase
pub mod Scalar
pub mod Prelude
pub mod Types
pub mod Interface
pub mod VecGraph
pub mod GraphLike
pub mod Compose
pub mod Rules
pub mod Simplify
pub mod Gate
pub mod Circuit
pub mod Build
pub mod Linalg
pub mod Extract
pub mod Examples
