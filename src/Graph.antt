-- ===== src/Graph.antt =====
-- pkg/graph/graph.go: the graph of a job, how it is built, and the checks of one vertex. A Go map from
-- IDs is a list for the vertices and a function for the edges.
pub mod Settings
pub mod Edges
mod Tests
use text.Mathlib.Text.{◌==◌ as str_eq}
use tidemark.Prelude.{
  ℕ, ◌+◌, ◌==◌, ℤ, pos, ltb_ℤ, eqb_ℤ, Bool, true, false, ◌&&◌, ◌||◌, not, Option, none, some, List,
  [], ◌∷◌, ◌++◌, String, if◌then◌else◌,
}

pub data VertexKind : Type 0 where
  source : VertexKind
  operator : VertexKind
  sink : VertexKind
  other_kind : ℕ → VertexKind

-- Of a factory only whether it is nil.
pub record Vertex : Type 0 where
  pub id : String
  pub kind : VertexKind
  pub parallelism : ℤ
  pub new_source : Bool
  pub new_operator : Bool
  pub new_sink : Bool
  pub watermark_interval_elements : ℤ
  pub max_out_of_orderness : ℤ
  pub barrier_interval_elements : ℤ

pub data GraphError : Type 0 where
  empty_id : GraphError
  duplicate_id : String → GraphError
  unknown_vertex : String → GraphError
  duplicate_edge : String → String → GraphError
  unknown_kind : ℕ → GraphError
  missing_factory : GraphError
  extra_factory : GraphError
  negative_out_of_orderness : ℤ → GraphError
  watermark_on_non_source : ℤ → GraphError
  barrier_on_non_source : ℤ → GraphError
  watermark_interval_unset : ℤ → GraphError
  barrier_interval_unset : ℤ → GraphError

pub record Graph : Type 0 where
  pub vertices : List Vertex
  pub out : String → List String
  pub in_edges : String → List String

abbrev pub new_graph : Graph
new_graph = record { vertices = []; out = λ _. []; in_edges = λ _. [] }

-- Whether `byID` has the key.
unfoldable pub has_vertex : List Vertex → String → Bool
has_vertex [] id = false
has_vertex (v ∷ vs) id = str_eq v.id id || has_vertex vs id

-- slices.Contains.
unfoldable pub contains_id : List String → String → Bool
contains_id [] id = false
contains_id (x ∷ xs) id = str_eq x id || contains_id xs id

unfoldable pub add_vertex : Vertex → Graph → Option GraphError × Graph
add_vertex v g =
    if str_eq v.id ""
    then (some empty_id, g)
    else if has_vertex g.vertices v.id
    then (some (duplicate_id v.id), g)
    else (none, record g { vertices = v ∷ g.vertices })

-- One more ID under a key of a map.
abbrev pub append_at : (String → List String) → String → String → String → List String
append_at f k x j = if str_eq k j then f j ++ x ∷ [] else f j

abbrev pub add_edge : String → String → Graph → Graph
add_edge a b g = record g { out = append_at g.out a b; in_edges = append_at g.in_edges b a }

unfoldable pub connect : String → String → Graph → Option GraphError × Graph
connect a b g =
    if not (has_vertex g.vertices a)
    then (some (unknown_vertex a), g)
    else if not (has_vertex g.vertices b)
    then (some (unknown_vertex b), g)
    else if contains_id (g.out a) b
    then (some (duplicate_edge a b), g)
    else (none, add_edge a b g)

is_source : VertexKind → Bool
is_source source = true
is_source operator = false
is_source sink = false
is_source (other_kind n) = false

unfoldable pub check_source_settings : Vertex → Option GraphError
unfolding is_source
check_source_settings v =
    if ltb_ℤ v.max_out_of_orderness (pos 0)
    then some (negative_out_of_orderness v.max_out_of_orderness)
    else if not (is_source v.kind)
    then (if not (eqb_ℤ v.watermark_interval_elements (pos 0))
        then some (watermark_on_non_source v.watermark_interval_elements)
        else if not (eqb_ℤ v.max_out_of_orderness (pos 0))
        then some (watermark_on_non_source v.max_out_of_orderness)
        else if not (eqb_ℤ v.barrier_interval_elements (pos 0))
        then some (barrier_on_non_source v.barrier_interval_elements)
        else none)
    else if ltb_ℤ v.watermark_interval_elements (pos 1)
    then some (watermark_interval_unset v.watermark_interval_elements)
    else if ltb_ℤ v.barrier_interval_elements (pos 1)
    then some (barrier_interval_unset v.barrier_interval_elements)
    else none

-- Whether a factory counts in `set`.
abbrev pub count_factory : Bool → ℕ
count_factory true = 1
count_factory false = 0

-- `checkFactories` behind its switch.
check_set : Bool → Vertex → Option GraphError
check_set matching v =
    if not matching
    then some missing_factory
    else if not
        (count_factory v.new_source + count_factory v.new_operator + count_factory v.new_sink == 1)
    then some extra_factory
    else none

check_kind : VertexKind → Vertex → Option GraphError
unfolding check_set
check_kind source v = check_set v.new_source v
check_kind operator v = check_set v.new_operator v
check_kind sink v = check_set v.new_sink v
check_kind (other_kind n) v = some (unknown_kind n)

unfoldable pub check_factories : Vertex → Option GraphError
unfolding check_kind
check_factories v = check_kind v.kind v
