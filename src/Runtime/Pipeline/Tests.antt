-- ===== src/Runtime/Pipeline/Tests.antt =====
-- pkg/runtime: a gate that receives the records of one source subtask and not those of another.
use tidemark.Prelude.{
  ℕ, zero, suc, ◌≡◌, ◌≤◌, ◌<◌, refl, pos, negsuc, Bool, true, false, none, List, [], ◌∷◌, ◌++◌,
  min_int64, arith,
}
use tidemark.Core.{Record, StreamElement, watermark_element, end_of_stream_element}
use tidemark.Runtime.Faults.{Faults}
use tidemark.Runtime.Gate.{Tagged}
use tidemark.Runtime.Gate.Streams.{by}
use tidemark.Runtime.Gate.History.{start, play, output}
use tidemark.Runtime.Gate.Flow.{OnTime}
use tidemark.Runtime.EventTime.Generator.{Lagging}
use tidemark.Runtime.Source.Loop.Wire.{records_in}
use tidemark.Runtime.Source.Loop.Tests.{
  two, offset, barrier, each_outcome, each_lem, both_outcome, both_lem,
}
use tidemark.Runtime.Pipeline.{SourceRun, RunsTo, sent_by, routed, ended, pipeline-OnTime}

-- Two vertices with intervals and lags of their own.
abbrev sources : ℕ → SourceRun
sources zero = record {
  Failure = ℕ;
  source = two 1;
  fails = λ out e. none;
  cancelled = λ out. none;
  fuel = 3;
  parallelism = 1;
  index = 0;
  interval = pos 1;
  lag = 0;
  barrier_interval = pos 1;
  resume = none;
  first = pos 0;
  outcome = each_outcome;
}
sources (suc i) = record {
  Failure = ℕ;
  source = two 2;
  fails = λ out e. none;
  cancelled = λ out. none;
  fuel = 3;
  parallelism = 1;
  index = 0;
  interval = pos 2;
  lag = 1;
  barrier_interval = pos 2;
  resume = none;
  first = pos 0;
  outcome = both_outcome;
}

-- The gate gets the records of the first.
abbrev here : ℕ → Record → Bool
here zero r = true
here (suc i) r = false

abbrev finished : ℕ → Bool
finished i = true

abbrev from : ℕ → StreamElement → Tagged
from i e = record { input = i; elem = e }

abbrev arrivals : List Tagged
arrivals =
    from 0 (offset 1 (pos 0))
    ∷ from 1 (watermark_element (negsuc 0))
    ∷ from 1 (barrier (pos 1) (negsuc 0))
    ∷ from 1 end_of_stream_element
    ∷ from 0 (watermark_element (negsuc 0))
    ∷ from 0 (barrier (pos 1) (negsuc 0))
    ∷ from 0 (offset 1 (pos 1))
    ∷ from 0 (watermark_element (pos 0))
    ∷ from 0 (barrier (pos 2) (pos 0))
    ∷ from 0 end_of_stream_element
    ∷ []

abbrev no_faults : Faults
no_faults = record { injector = none; id = record { vertex_id = "count"; index = 0 } }

sources-runs : (i : ℕ) → i < 2 → RunsTo (sources i)
sources-runs zero lt = each_lem
sources-runs (suc i) lt = both_lem

sources-lag : (i : ℕ) → i < 2 → (sources i).lag ≤ 9223372036854775807
sources-lag zero lt = omega arith
sources-lag (suc i) lt = omega arith

sources-Lagging :
    (i : ℕ) → i < 2 → Lagging (sources i).lag min_int64 (records_in (sent_by (sources i)))
unfolding records_in
sources-Lagging zero lt =
    (omega arith, omega arith, omega arith, (omega arith, omega arith, omega arith, tt))
sources-Lagging (suc i) lt =
    (omega arith, omega arith, omega arith, (omega arith, omega arith, omega arith, tt))

by-arrivals :
    (i : ℕ) → i < 2 → by i arrivals ≡ routed (here i) (sent_by (sources i)) ++ ended (finished i)
unfolding by routed
by-arrivals zero lt = refl
by-arrivals (suc zero) lt = refl
by-arrivals (suc (suc i)) lt = absurd (omega arith)

pipeline-OnTime_example : OnTime min_int64 (output (play 20 (start 2 no_faults arrivals)))
pipeline-OnTime_example =
    pipeline-OnTime 2 no_faults arrivals 20 sources here finished
      (
        omega arith,
        (
          omega arith,
          (
            omega arith,
            (
              omega arith,
              (
                omega arith,
                (omega arith, (omega arith, (omega arith, (omega arith, (omega arith, tt))))),
              ),
            ),
          ),
        ),
      )
      sources-runs sources-lag sources-Lagging by-arrivals
