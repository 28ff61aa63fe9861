-- ===== src/Runtime/Source/Loop/Tests.antt =====
-- pkg/runtime/source_task.go: a source of four records, read from the start and from a checkpoint.
use tidemark.Prelude.{
  ℕ, suc, ◌*◌, ◌≡◌, refl, true, none, some, List, [], ◌∷◌, ℤ, pos, negsuc, suc_ℤ, ◌≤ℤ◌, arith,
}
use tidemark.Prelude.Int.{wrap, to_int64, difference}
use tidemark.Core.{Record, StreamElement, record_element, watermark_element, barrier_element}
use tidemark.Runtime.EventTime.{
  new_watermark_generator, observe, count_element, emit_candidate, sub_floor,
}
use tidemark.Runtime.Source.{new_barrier_generator, on_record, max_barriers, source_range}
use tidemark.Runtime.Source.Barriers.{after_records}
use tidemark.Runtime.Source.Loop.{
  produced, Source, Emitters, SourceResume, Assigned, LoopState, LoopOutcome, loop, apply,
  seek_resumed, source_loop, assigned, begin, resumed, turn, turn_in, read, sent, advance_watermark,
  inject, seek_to_range, seek_counted,
}
use tidemark.Runtime.Source.Loop.Wire.{wire}
use tidemark.Runtime.Source.Loop.Range.{Positioned, loop_total}
use tidemark.Runtime.Source.Loop.Resume.{apply_lem}

abbrev at : ℤ → Record
at t = record { key = 1 ∷ []; value = []; event_time = t }

abbrev four : Source
four = record {
  State = ℤ;
  SourceError = ℕ;
  count = λ s. some 4;
  position = λ s. s;
  seek_to = λ o s. (none, o);
  next = λ s. (produced (at s), suc_ℤ s);
}

four-Positioned : Positioned four
four-Positioned = record { advances = λ s r e. refl; seeks = λ o s e. refl }

-- Counts what it is given.
abbrev counting_out : Emitters
counting_out = record {
  Out = ℕ;
  EmitError = ℕ;
  context_error = λ n. none;
  emit_record = λ r n. (none, suc n);
  emit_watermark = λ w n. (none, suc n);
  emit_barrier = λ b p n. (none, suc n);
}

abbrev whole : Assigned
whole = record { start = pos 0; end = pos 4; bounded = true; count = 4 }

abbrev begun : LoopState four counting_out
begun = record {
  source = pos 0;
  out = 0;
  watermarks = new_watermark_generator (pos 1) (pos 0);
  barriers = new_barrier_generator (pos 2) (pos 2);
}

loop_total_example :
    (o : LoopOutcome four counting_out) × (loop four counting_out 5 whole begun ≡ some o)
loop_total_example = loop_total four counting_out four-Positioned 5 whole begun refl (omega arith)

-- Behind the first of two checkpoints.
abbrev taken : SourceResume
taken = record { position = pos 2; barriers_injected = pos 1 }

taken_applies :
    (apply four counting_out taken (new_barrier_generator (pos 2) (pos 2)) whole (pos 0)).0 ≡ none
unfolding apply seek_resumed
taken_applies = refl

apply_lem_example :
    let fresh = new_barrier_generator (pos 2) (pos 2) in
    let o = apply four counting_out taken fresh whole (pos 0) in
    (o.2 ≡ pos 2)
    × (true ≡ true → (pos 0 ≤ℤ pos 2) × (pos 2 ≤ℤ pos 4))
    × (o.1 ≡ after_records (1 * 2) fresh)
apply_lem_example =
    apply_lem four counting_out four-Positioned 2 2 1 taken whole (pos 0) (omega arith)
      (omega arith) (omega arith) (omega arith) refl taken_applies

-- Two records of a key, with their offsets as event times.
abbrev pub two : ℕ → Source
two k = record {
  State = ℤ;
  SourceError = ℕ;
  count = λ s. some 2;
  position = λ s. s;
  seek_to = λ o s. (none, o);
  next = λ s. (produced (record { key = k ∷ []; value = []; event_time = s }), suc_ℤ s);
}

-- Nothing fails, and the job is not cancelled.
abbrev pub sure : Emitters
sure = wire {E = ℕ} (λ out e. none) (λ out. none)

abbrev pub offset : ℕ → ℤ → StreamElement
offset k t = record_element (record { key = k ∷ []; value = []; event_time = t })

abbrev pub barrier : ℤ → ℤ → StreamElement
barrier id t = barrier_element (record { checkpoint_id = id; timestamp = t })

-- A watermark and a barrier behind every record.
abbrev pub each_sent : List StreamElement
each_sent =
    offset 1 (pos 0)
    ∷ watermark_element (negsuc 0)
    ∷ barrier (pos 1) (negsuc 0)
    ∷ offset 1 (pos 1)
    ∷ watermark_element (pos 0)
    ∷ barrier (pos 2) (pos 0)
    ∷ []

abbrev pub each_outcome : LoopOutcome (two 1) sure
each_outcome = (
  none,
  record {
    source = pos 2;
    out = each_sent;
    watermarks = record {
      interval_elements = pos 1;
      max_out_of_orderness = pos 0;
      since_last = pos 0;
      max_event_time = pos 1;
      last_emitted = pos 0;
    };
    barriers = record {
      interval_elements = pos 1;
      max_barriers = pos 2;
      since_last = pos 0;
      injected = pos 2;
    };
  },
)

pub each_lem :
    source_loop (two 1) sure 3 1 0 (new_watermark_generator (pos 1) (pos 0)) (pos 1) none (pos 0) []
    ≡ some each_outcome
unfolding source_loop assigned begin resumed loop turn turn_in read sent advance_watermark inject
    seek_to_range seek_counted new_watermark_generator observe count_element emit_candidate
    sub_floor wrap to_int64 difference new_barrier_generator on_record max_barriers source_range
each_lem = refl

-- One of each behind both records, with a lag of one.
abbrev pub both_sent : List StreamElement
both_sent =
    offset 2 (pos 0)
    ∷ offset 2 (pos 1)
    ∷ watermark_element (negsuc 0)
    ∷ barrier (pos 1) (negsuc 0)
    ∷ []

abbrev pub both_outcome : LoopOutcome (two 2) sure
both_outcome = (
  none,
  record {
    source = pos 2;
    out = both_sent;
    watermarks = record {
      interval_elements = pos 2;
      max_out_of_orderness = pos 1;
      since_last = pos 0;
      max_event_time = pos 1;
      last_emitted = negsuc 0;
    };
    barriers = record {
      interval_elements = pos 2;
      max_barriers = pos 1;
      since_last = pos 0;
      injected = pos 1;
    };
  },
)

pub both_lem :
    source_loop (two 2) sure 3 1 0 (new_watermark_generator (pos 2) (pos 1)) (pos 2) none (pos 0) []
    ≡ some both_outcome
unfolding source_loop assigned begin resumed loop turn turn_in read sent advance_watermark inject
    seek_to_range seek_counted new_watermark_generator observe count_element emit_candidate
    sub_floor wrap to_int64 difference new_barrier_generator on_record max_barriers source_range
both_lem = refl
