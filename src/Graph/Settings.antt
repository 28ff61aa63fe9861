-- ===== src/Graph/Settings.antt =====
-- pkg/graph/graph.go: what the checks of one vertex accept.
use tidemark.Prelude.{◌≡◌, ◌↔◌, ℤ, pos, ◌≤ℤ◌, Bool, true, false, none, arith}
use tidemark.Graph.{
  Vertex, VertexKind, source, operator, sink, other_kind, is_source, check_source_settings,
  check_set, check_kind, check_factories,
}

-- What a vertex may set: a source has both intervals and a lag that is not negative, and any other
-- vertex has none of the three.
abbrev pub GoodSettings : VertexKind → ℤ → ℤ → ℤ → Type 0
GoodSettings source w lag b = (pos 1 ≤ℤ w) × (pos 0 ≤ℤ lag) × (pos 1 ≤ℤ b)
GoodSettings operator w lag b = (w ≡ pos 0) × (lag ≡ pos 0) × (b ≡ pos 0)
GoodSettings sink w lag b = (w ≡ pos 0) × (lag ≡ pos 0) × (b ≡ pos 0)
GoodSettings (other_kind n) w lag b = (w ≡ pos 0) × (lag ≡ pos 0) × (b ≡ pos 0)

-- The one factory of a vertex that matches its kind is set, and no other.
abbrev pub GoodFactories : VertexKind → Bool → Bool → Bool → Type 0
GoodFactories source s o k = (s ≡ true) × (o ≡ false) × (k ≡ false)
GoodFactories operator s o k = (s ≡ false) × (o ≡ true) × (k ≡ false)
GoodFactories sink s o k = (s ≡ false) × (o ≡ false) × (k ≡ true)
GoodFactories (other_kind n) s o k = ⊥

settings_of :
    (v : Vertex) (k : VertexKind)
    → (check_source_settings (record v { kind = k }) ≡ none)
      ↔ GoodSettings k v.watermark_interval_elements v.max_out_of_orderness
          v.barrier_interval_elements
unfolding check_source_settings is_source
settings_of v source = ground arith
settings_of v operator = ground arith
settings_of v sink = ground arith
settings_of v (other_kind n) = ground arith

factories_of :
    (v : Vertex) (k : VertexKind)
    → (check_factories (record v { kind = k }) ≡ none)
      ↔ GoodFactories k v.new_source v.new_operator v.new_sink
unfolding check_factories check_kind check_set
factories_of v source = ground arith
factories_of v operator = ground arith
factories_of v sink = ground arith
factories_of v (other_kind n) = ground arith

-- The checks of one vertex accept exactly this: the factory of its kind is set and no other, and its
-- kind is known; a source has a watermark and a barrier interval of at least one and a lag that is
-- not negative; any other vertex has zero for all three.
pub check_vertex_lem :
    (v : Vertex)
    → ((check_factories v ≡ none) ↔ GoodFactories v.kind v.new_source v.new_operator v.new_sink)
      × ((check_source_settings v ≡ none)
          ↔ GoodSettings v.kind v.watermark_interval_elements v.max_out_of_orderness
              v.barrier_interval_elements)
check_vertex_lem v = (factories_of v v.kind, settings_of v v.kind)
