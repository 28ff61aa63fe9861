-- ===== src/Runtime/Source/Loop.antt =====
-- pkg/runtime/source_task.go: the loop of a source subtask, from its first offset or a restored one.
-- The source and what the loop hands its elements to are interfaces with a state each.
pub mod Range
pub mod Resume
pub mod Wire
pub mod Sending
pub mod Tests
use tidemark.Prelude.{
  ℕ, zero, suc, ◌≡◌, ◌<◌, Bool, true, false, ◌&&◌, ◌||◌, Option, none, some, ℤ, pos, ltb, ltb_ℤ,
  leb_ℤ, suc_ℤ, if◌then◌else◌,
}
use tidemark.Core.{Record, Barrier}
use tidemark.Runtime.EventTime.{WatermarkGenerator, observe}
use tidemark.Runtime.Source.{
  source_range, max_barriers, BarrierGenerator, new_barrier_generator, on_record,
}

-- What `Next` returns.
pub data Next (E : Type 0) : Type 0 where
  failed : E → Next E
  exhausted : Next E
  produced : Record → Next E

-- A source. `count` is `none` for one that does not report a Count.
pub record Source : Type 1 where
  pub State : Type 0
  pub SourceError : Type 0
  pub count : State → Option ℕ
  pub position : State → ℤ
  pub seek_to : ℤ → State → Option SourceError × State
  pub next : State → Next SourceError × State

-- Where the elements go, and the context of the job.
pub record Emitters : Type 1 where
  pub Out : Type 0
  pub EmitError : Type 0
  pub context_error : Out → Option EmitError
  pub emit_record : Record → Out → Option EmitError × Out
  pub emit_watermark : ℤ → Out → Option EmitError × Out
  pub emit_barrier : Barrier → ℤ → Out → Option EmitError × Out

pub data LoopError (S E : Type 0) : Type 0 where
  not_splittable : ℕ → LoopError S E
  source_failed : S → LoopError S E
  emit_failed : E → LoopError S E
  outside_range : ℤ → ℤ → ℤ → LoopError S E
  negative_position : ℤ → LoopError S E

pub record SourceResume : Type 0 where
  pub position : ℤ
  pub barriers_injected : ℤ

-- The range that a subtask reads, of a source whose Count is known.
pub record Assigned : Type 0 where
  pub start : ℤ
  pub end : ℤ
  pub bounded : Bool
  pub count : ℕ

abbrev pub unassigned : Assigned
unassigned = record { start = pos 0; end = pos 0; bounded = false; count = 0 }

module _ (S : Source) (E : Emitters) where
  open S use {State, SourceError, position, next, seek_to}
  open E use {Out, EmitError, context_error, emit_record, emit_watermark, emit_barrier}

  abbrev pub SeekOutcome : Type 0
  SeekOutcome = Option (LoopError SourceError EmitError) × Assigned × State

  seek_counted : ℕ → ℕ → State → Option ℕ → SeekOutcome
  seek_counted parallelism index s none =
      (if ltb 1 parallelism then some (not_splittable parallelism) else none, unassigned, s)
  seek_counted parallelism index s (some count) =
      let r = source_range count parallelism index in
      elim (seek_to r.start s).0 [
        | some x ↦ (some (source_failed x), unassigned, (seek_to r.start s).1)
        | none ↦ (
          none,
          record { start = r.start; end = r.end; bounded = true; count = count },
          (seek_to r.start s).1,
        )
      ]

  unfoldable pub seek_to_range : ℕ → ℕ → State → SeekOutcome
  unfolding seek_counted
  seek_to_range parallelism index s = seek_counted parallelism index s (S.count s)

  abbrev pub ApplyOutcome : Type 0
  ApplyOutcome = Option (LoopError SourceError EmitError) × BarrierGenerator × State

  -- The end of `apply`, after the checks of the offset.
  seek_resumed : SourceResume → BarrierGenerator → Option SourceError × State → ApplyOutcome
  seek_resumed r br (some x, s) = (some (source_failed x), br, s)
  seek_resumed r br (none, s) =
      (none, record br { injected = r.barriers_injected; since_last = pos 0 }, s)

  unfoldable pub apply : SourceResume → BarrierGenerator → Assigned → State → ApplyOutcome
  unfolding seek_resumed
  apply r br a s =
      if a.bounded && (ltb_ℤ r.position a.start || ltb_ℤ a.end r.position)
      then (some (outside_range r.position a.start a.end), br, s)
      else if ltb_ℤ r.position (pos 0)
      then (some (negative_position r.position), br, s)
      else seek_resumed r br (seek_to r.position s)

  pub record LoopState : Type 0 where
    pub source : State
    pub out : Out
    pub watermarks : WatermarkGenerator
    pub barriers : BarrierGenerator

  -- One turn of the loop: it returns, or goes on.
  pub data Turn : Type 0 where
    returns : Option (LoopError SourceError EmitError) → LoopState → Turn
    goes_on : LoopState → Turn

  -- Goes on if an emitter reports no error.
  sent : (Out → LoopState) → (Out → Turn) → Option EmitError × Out → Turn
  sent at go (some x, o) = returns (some (emit_failed x)) (at o)
  sent at go (none, o) = go o

  inject : LoopState → Option ℤ × BarrierGenerator → Turn
  unfolding sent
  inject l (none, br) = goes_on (record l { barriers = br })
  inject l (some id, br) =
      let at = λ (o : Out). record l { barriers = br; out = o } in
      sent at (λ o. goes_on (at o))
        (emit_barrier (record { checkpoint_id = id; timestamp = l.watermarks.last_emitted })
          (position l.source) l.out)

  advance_watermark : LoopState → Option ℤ × WatermarkGenerator → Turn
  unfolding inject sent
  advance_watermark l (none, wm) = inject (record l { watermarks = wm }) (on_record l.barriers)
  advance_watermark l (some w, wm) =
      let at = λ (o : Out). record l { watermarks = wm; out = o } in
      sent at (λ o. inject (at o) (on_record l.barriers)) (emit_watermark w l.out)

  read : LoopState → Next SourceError × State → Turn
  unfolding advance_watermark sent
  read l (failed x, s) = returns (some (source_failed x)) (record l { source = s })
  read l (exhausted, s) = returns none (record l { source = s })
  read l (produced r, s) =
      let at = λ (o : Out). record l { source = s; out = o } in
      sent at (λ o. advance_watermark (at o) (observe l.watermarks r.event_time))
        (emit_record r l.out)

  turn_in : Assigned → LoopState → Option EmitError → Turn
  unfolding read
  turn_in a l (some x) = returns (some (emit_failed x)) l
  turn_in a l none =
      if a.bounded && leb_ℤ a.end (position l.source)
      then returns none l
      else read l (next l.source)

  unfoldable pub turn : Assigned → LoopState → Turn
  unfolding turn_in
  turn a l = turn_in a l (context_error l.out)

  abbrev pub LoopOutcome : Type 0
  LoopOutcome = Option (LoopError SourceError EmitError) × LoopState

  -- The loop on fuel; the outer `none` means that the fuel ran out.
  unfoldable pub loop : ℕ → Assigned → LoopState → Option LoopOutcome
  loop zero a l = none
  loop (suc fuel) a l = elim (turn a l) [
    | returns x l' ↦ some (x, l')
    | goes_on l' ↦ loop fuel a l'
  ]

  -- `sourceLoop` up to its loop.
  begin : ℕ → WatermarkGenerator → Out → Assigned → ApplyOutcome → Option LoopOutcome
  begin fuel wm o a (some x, br, s) =
      some (some x, record { source = s; out = o; watermarks = wm; barriers = br })
  begin fuel wm o a (none, br, s) =
      loop fuel a (record { source = s; out = o; watermarks = wm; barriers = br })

  resumed : Option SourceResume → BarrierGenerator → Assigned → State → ApplyOutcome
  resumed none br a s = (none, br, s)
  resumed (some r) br a s = apply r br a s

  assigned :
      ℕ → ℕ → ℤ → WatermarkGenerator → Option SourceResume → Out → SeekOutcome → Option LoopOutcome
  unfolding begin resumed
  assigned fuel parallelism interval wm resume o (some x, a, s) = some (
    some x,
    record {
      source = s;
      out = o;
      watermarks = wm;
      barriers = new_barrier_generator interval (pos 0);
    },
  )
  assigned fuel parallelism interval wm resume o (none, a, s) = begin fuel wm o a (
      resumed resume
        (new_barrier_generator interval (max_barriers a.count parallelism interval a.bounded)) a s)

  unfoldable pub source_loop :
      ℕ → ℕ → ℕ → WatermarkGenerator → ℤ → Option SourceResume → State → Out → Option LoopOutcome
  unfolding assigned
  source_loop fuel parallelism index wm interval resume s o =
      assigned fuel parallelism interval wm resume o (seek_to_range parallelism index s)
