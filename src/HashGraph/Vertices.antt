-- ===== src/HashGraph/Vertices.antt =====
-- `remove_vertex`, `add_vertex` and the writers of a vertex's data of quizx/src/hash_graph.rs do what
-- those of quizx/src/vec_graph.rs do.
use quizx.Prelude.{
  ℕ, ◌+◌, ◌≡◌, refl, sym, ◌∙◌, some, [], arith, slot, length, push, slot-push, length-push,
}
use quizx.VecGraph
use quizx.VecGraph.{Graph, VData, Nhd, value}
use quizx.VecGraph.Valid.{IsValid}
use quizx.VecGraph.Vertices.{add_vertex_with_data-Added}
use quizx.VecGraph.Fields.{update_data-Updated}
use quizx.HashGraph
use quizx.HashGraph.{VTab, HashGraph, find, insert, remove, keys}
use quizx.HashGraph.Tables.{find-insert}
use quizx.HashGraph.Simulates.{Simulates}
use quizx.HashGraph.Halves.{BothStep}

module _ {P S : Type 0} where
  update_data_run :
      (h : HashGraph P S) (v : ℕ) (change : VData P → VData P) {d : VData P}
      → find h.vdata v ≡ some d
      → HashGraph.update_data h v change ≡ some (record h { vdata = insert h.vdata v (change d) })
  unfolding HashGraph.update_data
  update_data_run h v change at_v = rw at_v refl

  -- Writing a vertex's data.
  pub update_data-BothStep :
      (g : Graph P S) (h : HashGraph P S) (v : ℕ) (change : VData P → VData P) {d : VData P}
      → IsValid g
      → Simulates g h
      → slot g.vdata v ≡ some d
      → BothStep (VecGraph.update_data g v change) (HashGraph.update_data h v change)
  update_data-BothStep g h v change {d} valid sim at_v =
      let (g', run, up) = update_data-Updated g v change valid at_v in
      (
        g',
        record h { vdata = insert h.vdata v (change d) },
        run,
        update_data_run h v change (sim.vertices v ∙ at_v),
        up.valid,
        record {
          vertices =
              λ w. ground (arith, find-insert h.vdata v w (change d), up.data_of w, sim.vertices w);
          edges = rw up.same_edata sim.edges;
          same_numv = sim.same_numv ∙ sym up.same_numv;
          same_nume = sim.same_nume ∙ sym up.same_nume;
          same_inputs = sim.same_inputs ∙ sym up.same_inputs;
          same_outputs = sim.same_outputs ∙ sym up.same_outputs;
          same_scalar = sim.same_scalar ∙ sym up.same_scalar;
        },
      )

  grown_eq :
      (g : Graph P S) (d : VData P)
      → g.holes ≡ []
      → VecGraph.add_vertex_with_data g d ≡ (
        record g {
          numv = g.numv + 1;
          vdata = push g.vdata (some d);
          edata = push g.edata (some []);
        },
        length g.vdata,
      )
  unfolding VecGraph.add_vertex_with_data
  grown_eq g d full = ground (arith, full)

  -- Adding a vertex to two graphs that hold the same diagram, where the one on vectors has no freed
  -- slot and the counter of the other is at its length: both give the vertex the same name, the graph
  -- on vectors stays well-formed, the two hold the same diagram again, and again there is no freed
  -- slot and the counter is at the length.
  pub add_vertex-BothStep :
      (g : Graph P S) (h : HashGraph P S) (d : VData P)
      → IsValid g
      → Simulates g h
      → g.holes ≡ []
      → h.freshv ≡ length g.vdata
      → let (g', v) = VecGraph.add_vertex_with_data g d in
        let (h', w) = HashGraph.add_vertex_with_data h d in
        IsValid g' × Simulates g' h' × (v ≡ w) × (g'.holes ≡ []) × (h'.freshv ≡ length g'.vdata)
  unfolding HashGraph.add_vertex_with_data
  add_vertex-BothStep g h d valid sim full fresh =
      let added = add_vertex_with_data-Added g d valid in
      let grown : Graph P S = record g {
        numv = g.numv + 1;
        vdata = push g.vdata (some d);
        edata = push g.edata (some []);
      } in
      rw (grown_eq g d full) (
        ap-valid added.valid,
        record {
          vertices = λ w. ground (
            arith,
            find-insert h.vdata h.freshv w d,
            slot-push g.vdata w (some d),
            sim.vertices w,
            fresh,
          );
          edges = record {
            live = λ w. ground (
              arith,
              find-insert h.edata h.freshv w [],
              slot-push g.edata w (some []),
              sim.edges.live w,
              fresh,
              valid.same_length,
            );
            weight = λ f w. ground (
              arith,
              find-insert h.edata h.freshv w [],
              slot-push g.edata w (some []),
              sim.edges.weight f w,
              fresh,
              valid.same_length,
            );
          };
          same_numv = omega (arith, sim.same_numv);
          same_nume = sim.same_nume;
          same_inputs = sim.same_inputs;
          same_outputs = sim.same_outputs;
          same_scalar = sim.same_scalar;
        },
        sym fresh,
        full,
        omega (arith, fresh, length-push g.vdata (some d)),
      )
    where
      ap-valid :
          IsValid (VecGraph.add_vertex_with_data g d).0
          → IsValid (record g {
            numv = g.numv + 1;
            vdata = push g.vdata (some d);
            edata = push g.edata (some []);
          })
      ap-valid v = rw (grown_eq g d full) at v
