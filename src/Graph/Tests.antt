-- ===== src/Graph/Tests.antt =====
-- pkg/graph/graph.go: a source and a sink, and calls that are refused.
use tidemark.Prelude.{◌≡◌, ◌↔◌, pos, true, false, none, List, [], ◌∷◌}
use tidemark.Graph.{Vertex, source, sink, new_graph, check_source_settings, check_factories}
use tidemark.Graph.Edges.{Change, adds, connects, build, GraphInv, build-GraphInv}
use tidemark.Graph.Settings.{GoodSettings, GoodFactories, check_vertex_lem}

abbrev reader : Vertex
reader = record {
  id = "reader";
  kind = source;
  parallelism = pos 2;
  new_source = true;
  new_operator = false;
  new_sink = false;
  watermark_interval_elements = pos 10;
  max_out_of_orderness = pos 5;
  barrier_interval_elements = pos 100;
}

abbrev writer : Vertex
writer = record {
  id = "writer";
  kind = sink;
  parallelism = pos 1;
  new_source = false;
  new_operator = false;
  new_sink = true;
  watermark_interval_elements = pos 0;
  max_out_of_orderness = pos 0;
  barrier_interval_elements = pos 0;
}

-- The last three are refused.
abbrev changes : List Change
changes =
    adds reader
    ∷ adds writer
    ∷ connects "reader" "writer"
    ∷ connects "reader" "writer"
    ∷ connects "reader" "nowhere"
    ∷ adds writer
    ∷ []

build-GraphInv_example : GraphInv (build new_graph changes)
build-GraphInv_example = build-GraphInv changes

check_vertex_lem_example :
    ((check_factories reader ≡ none) ↔ GoodFactories source true false false)
    × ((check_source_settings reader ≡ none) ↔ GoodSettings source (pos 10) (pos 5) (pos 100))
check_vertex_lem_example = check_vertex_lem reader
