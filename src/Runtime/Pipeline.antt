-- ===== src/Runtime/Pipeline.antt =====
-- pkg/runtime: source subtasks that feed a gate, through the writers that route their records.
mod Tests
use tidemark.Prelude.{
  ℕ, ◌≡◌, ◌≤◌, ◌<◌, refl, sym, subst, ℤ, pos, Bool, true, false, Option, some, List, [], ◌∷◌, ◌++◌,
  min_int64, arith, if◌then◌else◌, Bool-cases, inl, inr,
}
use tidemark.Core.{
  Record, StreamElement, record_element, watermark_element, barrier_element, end_of_stream_element,
}
use tidemark.Runtime.Faults.{Faults}
use tidemark.Runtime.Gate.{Tagged}
use tidemark.Runtime.Gate.Streams.{by, InRange}
use tidemark.Runtime.Gate.History.{start, play, output}
use tidemark.Runtime.Gate.Flow.{OnTime}
use tidemark.Runtime.Gate.Completion.{has_end}
use tidemark.Runtime.Gate.EventTime.{play-OnTime}
use tidemark.Runtime.EventTime.{new_watermark_generator}
use tidemark.Runtime.EventTime.Generator.{Lagging}
use tidemark.Runtime.Source.Loop.{Source, SourceResume, LoopOutcome, source_loop}
use tidemark.Runtime.Source.Loop.Sending.{source_loop-OnTime}
use tidemark.Runtime.Source.Loop.Wire.{wire, records_in}

-- A call of `sourceLoop`: its subtask, the settings of its vertex, what fails, and how it ended.
pub record SourceRun : Type 1 where
  pub Failure : Type 0
  pub source : Source
  pub fails : List StreamElement → StreamElement → Option Failure
  pub cancelled : List StreamElement → Option Failure
  pub fuel : ℕ
  pub parallelism : ℕ
  pub index : ℕ
  pub interval : ℤ
  pub lag : ℕ
  pub barrier_interval : ℤ
  pub resume : Option SourceResume
  pub first : source.State
  pub outcome : LoopOutcome source (wire fails cancelled)

abbrev pub RunsTo : SourceRun → Type 0
RunsTo r =
    source_loop r.source (wire r.fails r.cancelled) r.fuel r.parallelism r.index
      (new_watermark_generator r.interval (pos r.lag)) r.barrier_interval r.resume r.first []
    ≡ some r.outcome

abbrev pub sent_by : SourceRun → List StreamElement
sent_by r = r.outcome.1.out

-- What reaches one of the subtasks downstream: the records that are routed to it, and all else.
unfoldable pub routed : (Record → Bool) → List StreamElement → List StreamElement
routed here [] = []
routed here (record_element r ∷ es) =
    let rest = routed here es in if here r then record_element r ∷ rest else rest
routed here (watermark_element w ∷ es) = watermark_element w ∷ routed here es
routed here (barrier_element b ∷ es) = barrier_element b ∷ routed here es
routed here (end_of_stream_element ∷ es) = end_of_stream_element ∷ routed here es

-- The end of stream, if the subtask has come to it.
abbrev pub ended : Bool → List StreamElement
ended true = end_of_stream_element ∷ []
ended false = []

routed-OnTime :
    (here : Record → Bool) (e : Bool) (lo : ℤ) (es : List StreamElement)
    → has_end es ≡ false
    → OnTime lo es
    → OnTime lo (routed here es ++ ended e)
unfolding has_end routed
routed-OnTime here true lo [] h o = refl
routed-OnTime here false lo [] h o = tt
routed-OnTime here e lo (record_element r ∷ es) h o = elim (Bool-cases (here r)) [
  | inl mine ↦ rw mine (o.0, routed-OnTime here e lo es h o.1)
  | inr other ↦ rw other (routed-OnTime here e lo es h o.1)
]
routed-OnTime here e lo (watermark_element w ∷ es) h o = (o.0, routed-OnTime here e w es h o.1)
routed-OnTime here e lo (barrier_element b ∷ es) h o = routed-OnTime here e lo es h o
routed-OnTime here e lo (end_of_stream_element ∷ es) h o = absurd (ground (arith, h))

-- A gate whose inputs are source subtasks, each with its own settings, restored or not, its barriers
-- among its records, and cut off by whatever failure: if the records that each sends have event times
-- that are int64s above the least and never more than its lag, an int64, behind an earlier one, then in every
-- round of every run what leaves the gate is on time, however records are routed and the subtasks
-- interleaved.
pub pipeline-OnTime :
    (n : ℕ) (fs : Faults) (arrivals : List Tagged) (k : ℕ) (sources : ℕ → SourceRun)
    (here : ℕ → Record → Bool) (finished : ℕ → Bool)
    → InRange n arrivals
    → ((i : ℕ) → i < n → RunsTo (sources i))
    → ((i : ℕ) → i < n → (sources i).lag ≤ 9223372036854775807)
    → ((i : ℕ) → i < n → Lagging (sources i).lag min_int64 (records_in (sent_by (sources i))))
    → ((i : ℕ)
        → i < n
        → by i arrivals ≡ routed (here i) (sent_by (sources i)) ++ ended (finished i))
    → OnTime min_int64 (output (play k (start n fs arrivals)))
pipeline-OnTime n fs arrivals k sources here finished h runs le near from =
    play-OnTime n fs arrivals k h (λ i lt.
      let r = sources i in
      let (open_end, on_time) =
        source_loop-OnTime r.source r.fails r.cancelled r.fuel r.parallelism r.index r.interval
          r.barrier_interval r.lag r.resume r.first r.outcome (le i lt) (runs i lt) (near i lt) in
      subst (OnTime min_int64) (sym (from i lt))
        (routed-OnTime (here i) (finished i) min_int64 (sent_by r) open_end on_time))
