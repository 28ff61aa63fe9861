-- ===== src/Runtime/Source/Loop/Wire.antt =====
-- pkg/runtime/source_task.go: emitters that keep what the loop sent.
use tidemark.Prelude.{Option, none, some, List, [], ◌∷◌, ◌++◌}
use tidemark.Core.{
  Record, StreamElement, record_element, watermark_element, barrier_element, end_of_stream_element,
}
use tidemark.Runtime.Source.Loop.{Emitters}

-- Puts an element behind what was sent, or fails.
abbrev pub tried :
    {E : Type 0} → StreamElement → List StreamElement → Option E → Option E × List StreamElement
tried e out none = (none, out ++ e ∷ [])
tried e out (some x) = (some x, out)

-- A channel on which any send may fail, under a context that may be cancelled at any time.
abbrev pub wire :
    {E : Type 0}
    → (List StreamElement → StreamElement → Option E)
    → (List StreamElement → Option E)
    → Emitters
wire {E} fails cancelled = record {
  Out = List StreamElement;
  EmitError = E;
  context_error = cancelled;
  emit_record = λ r out. tried (record_element r) out (fails out (record_element r));
  emit_watermark = λ w out. tried (watermark_element w) out (fails out (watermark_element w));
  emit_barrier = λ b p out. tried (barrier_element b) out (fails out (barrier_element b));
}

-- The records of a stream.
unfoldable pub records_in : List StreamElement → List Record
records_in [] = []
records_in (record_element r ∷ es) = r ∷ records_in es
records_in (watermark_element w ∷ es) = records_in es
records_in (barrier_element b ∷ es) = records_in es
records_in (end_of_stream_element ∷ es) = records_in es
