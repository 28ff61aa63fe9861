-- ===== src/Runtime/Source/Loop/Sending.antt =====
-- pkg/runtime/source_task.go: what `sourceLoop` sends, with its watermarks and its barriers, is on
-- time.
use tidemark.Prelude.{
  ℕ, zero, suc, ◌≡◌, ◌≤◌, refl, sym, ap, ◌∙◌, subst, ℤ, pos, min_int64, false, ◌&&◌, Option, none,
  some, List, [], ◌∷◌, ◌++◌, append-nil, append_assoc, leb_ℤ, if_cases, Option-cases, inl, inr,
  arith,
}
use tidemark.Core.{Barrier, StreamElement, record_element, watermark_element, barrier_element}
use tidemark.Runtime.Gate.Flow.{OnTime}
use tidemark.Runtime.Gate.Completion.{has_end}
use tidemark.Runtime.EventTime.{WatermarkGenerator, new_watermark_generator, observe}
use tidemark.Runtime.EventTime.Generator.{
  Lagging, Ready, After, observe-Ready, new_watermark_generator-Ready,
}
use tidemark.Runtime.Source.{BarrierGenerator, on_record}
use tidemark.Runtime.Source.Loop.{
  Next, produced, failed, exhausted, Source, Emitters, SourceResume, Assigned, LoopState, Turn,
  returns, goes_on, emit_failed, sent, inject, advance_watermark, read, turn_in, turn, loop,
  LoopOutcome, source_loop, begin, assigned, ApplyOutcome, SeekOutcome, seek_to_range,
}
use tidemark.Runtime.Source.Loop.Wire.{tried, wire, records_in}

module _ {X : Type 0} (S : Source) (fails : List StreamElement → StreamElement → Option X)
    (cancelled : List StreamElement → Option X) (lag : ℕ) (le : lag ≤ 9223372036854775807) where
  abbrev W : Emitters
  W = wire fails cancelled

  abbrev State : Type 0
  State = LoopState S W

  -- Where the loop ends, what it has sent behind `out` has no end of stream, and is on time from `lo`
  -- on if its records lag no further behind `seen`.
  abbrev Sends : (ready : Type 0) → ℤ → ℤ → List StreamElement → Option (LoopOutcome S W) → Type 0
  Sends ready lo seen out res =
      (o : LoopOutcome S W)
      → res ≡ some o
      → (new : List StreamElement) × (o.1.out ≡ out ++ new)
        × (has_end new ≡ false)
        × (ready → Lagging lag seen (records_in new) → OnTime lo new)

  abbrev rest : ℕ → Assigned → Turn S W → Option (LoopOutcome S W)
  rest fuel a t = elim t [ returns x l ↦ some (x, l) | goes_on l ↦ loop S W fuel a l ]

  stop_Sends :
      (ready : Type 0) (lo seen : ℤ) (out : List StreamElement) (o : LoopOutcome S W)
      → o.1.out ≡ out
      → Sends ready lo seen out (some o)
  stop_Sends ready lo seen out o same o' e =
      let same' : o ≡ o' = cc (e) in
      (
        [],
        sym (ap (λ (x : LoopOutcome S W). x.1.out) same') ∙ same ∙ sym (append-nil out),
        unfold has_end in refl,
        λ _ _. tt,
      )

  -- From the state `l` on.
  abbrev From : State → Option (LoopOutcome S W) → Type 0
  From l res =
      Sends (Ready lag l.watermarks) l.watermarks.last_emitted l.watermarks.max_event_time l.out res

  stop_From : (l : State) (o : LoopOutcome S W) → o.1.out ≡ l.out → From l (some o)
  stop_From l o same =
      stop_Sends (Ready lag l.watermarks) l.watermarks.last_emitted l.watermarks.max_event_time
        l.out o same

  -- One element more.
  cons_Sends :
      (ready : Type 0) (lo seen : ℤ) (ready' : Type 0) (lo' seen' : ℤ) (e : StreamElement)
      (out : List StreamElement) (res : Option (LoopOutcome S W))
      → ((es : List StreamElement) → has_end es ≡ false → has_end (e ∷ es) ≡ false)
      → ((es : List StreamElement)
          → ready
          → Lagging lag seen (records_in (e ∷ es))
          → (ready' → Lagging lag seen' (records_in es) → OnTime lo' es)
          → OnTime lo (e ∷ es))
      → Sends ready' lo' seen' (out ++ e ∷ []) res
      → Sends ready lo seen out res
  cons_Sends ready lo seen ready' lo' seen' e out res open_end step h o q =
      let (new, same, open_new, on_time) = h o q in
      (
        e ∷ new,
        same ∙ append_assoc out (e ∷ []) new,
        open_end new open_new,
        λ v l. step new v l on_time,
      )

  sent_cases {ℓ} :
      (P : Turn S W → Type ℓ) (at : List StreamElement → State) (go : List StreamElement → Turn S W)
      (e : StreamElement) (out : List StreamElement) (f : Option X)
      → ((x : X) → P (returns (some (emit_failed x)) (at out)))
      → P (go (out ++ e ∷ []))
      → P (sent S W at go (tried e out f))
  unfolding sent
  sent_cases P at go e out none bad good = good
  sent_cases P at go e out (some x) bad good = bad x

  module _ (fuel : ℕ) (a : Assigned) (again : (l : State) → From l (loop S W fuel a l)) where
    inject_Sends :
        (l : State) (x : Option ℤ × BarrierGenerator) → From l (rest fuel a (inject S W l x))
    unfolding inject
    inject_Sends l (none, br) = again (record l { barriers = br })
    inject_Sends l (some id, br) =
        let g = l.watermarks in
        let b : Barrier = record { checkpoint_id = id; timestamp = g.last_emitted } in
        let at = λ (o : List StreamElement). record l { barriers = br; out = o } in
        sent_cases (λ t. From l (rest fuel a t)) at (λ o. goes_on (at o)) (barrier_element b) l.out
          (fails l.out (barrier_element b)) (λ x. stop_From l (some (emit_failed x), at l.out) refl)
          (cons_Sends (Ready lag g) g.last_emitted g.max_event_time (Ready lag g) g.last_emitted
            g.max_event_time (barrier_element b) l.out _ (λ es h. unfold has_end in h)
            (λ es v lags rest_OnTime. rest_OnTime v (unfold records_in in lags))
            (again (at (l.out ++ barrier_element b ∷ []))))

    advance_Sends :
        (l : State) (lo : ℤ) (x : Option ℤ × WatermarkGenerator)
        → Sends
            (Ready lag x.1 × After lo x)
            lo
            x.1.max_event_time
            l.out
            (rest fuel a (advance_watermark S W l x))
    unfolding advance_watermark
    advance_Sends l lo (none, g) = λ o q.
        let (new, same, open_new, on_time) =
          inject_Sends (record l { watermarks = g }) (on_record l.barriers) o q in
        (new, same, open_new, λ v lags. subst (λ y. OnTime y new) v.1 (on_time v.0 lags))
    advance_Sends l lo (some w, g) =
        let ready = Ready lag g × (After lo (some w, g)) in
        let at = λ (o : List StreamElement). record l { watermarks = g; out = o } in
        let go = λ (o : List StreamElement). inject S W (at o) (on_record l.barriers) in
        sent_cases (λ t. Sends ready lo g.max_event_time l.out (rest fuel a t)) at go
          (watermark_element w) l.out (fails l.out (watermark_element w))
          (λ x. stop_Sends ready lo g.max_event_time l.out (some (emit_failed x), at l.out) refl)
          (cons_Sends ready lo g.max_event_time (Ready lag g) g.last_emitted g.max_event_time
            (watermark_element w) l.out _ (λ es h. unfold has_end in h)
            (λ es v lags rest_OnTime. (
              omega (arith, v.1.0),
              subst (λ y. OnTime y es) v.1.1 (rest_OnTime v.0 (unfold records_in in lags)),
            ))
            (inject_Sends (at (l.out ++ watermark_element w ∷ [])) (on_record l.barriers)))

    read_Sends :
        (l : State) (x : Next S.SourceError × S.State) → From l (rest fuel a (read S W l x))
    unfolding read records_in
    read_Sends l (failed e, s) = stop_From l _ refl
    read_Sends l (exhausted, s) = stop_From l _ refl
    read_Sends l (produced r, s) =
        let g = l.watermarks in
        let x = observe g r.event_time in
        let at = λ (o : List StreamElement). record l { source = s; out = o } in
        let go = λ (o : List StreamElement). advance_watermark S W (at o) x in
        sent_cases (λ t. From l (rest fuel a t)) at go (record_element r) l.out
          (fails l.out (record_element r)) (λ e. stop_From l (some (emit_failed e), at l.out) refl)
          (cons_Sends (Ready lag g) g.last_emitted g.max_event_time
            (Ready lag x.1 × After g.last_emitted x) g.last_emitted x.1.max_event_time
            (record_element r) l.out _ (λ es h. unfold has_end in h)
            (λ es v lags rest_OnTime.
              let (up, top, near, later_lags) = lags in
              let (below, ready, after, seen) = observe-Ready lag g r.event_time le v up top near in
              (
                below,
                rest_OnTime (ready, after)
                    (subst (λ m. Lagging lag m (records_in es)) (sym seen) later_lags),
              ))
            (advance_Sends (at (l.out ++ record_element r ∷ [])) g.last_emitted x))

    turn_Sends : (l : State) → From l (rest fuel a (turn S W a l))
    unfolding turn turn_in
    turn_Sends l =
        let P = λ (t : Turn S W). From l (rest fuel a t) in
        elim (Option-cases (cancelled l.out)) [
          | inr (x, e) ↦ rw e (stop_From l (some (emit_failed x), l) refl)
          | inl e ↦ rw e (
              if_cases P (a.bounded && leb_ℤ a.end (S.position l.source)) _ _
                (λ _. stop_From l (none, l) refl) (λ _. read_Sends l (S.next l.source)))
        ]

  loop_Sends : (fuel : ℕ) (a : Assigned) (l : State) → From l (loop S W fuel a l)
  unfolding loop
  loop_Sends zero a l = λ o q. absurd (cc (q))
  loop_Sends (suc fuel) a l = turn_Sends fuel a (loop_Sends fuel a) l

  -- `sourceLoop` from its first line on.
  source_loop_Sends :
      (fuel parallelism index : ℕ) (g : WatermarkGenerator) (barrier_interval : ℤ)
      (resume : Option SourceResume) (s : S.State) (out : List StreamElement)
      → Sends
          (Ready lag g)
          g.last_emitted
          g.max_event_time
          out
          (source_loop S W fuel parallelism index g barrier_interval resume s out)
  unfolding source_loop assigned begin
  source_loop_Sends fuel parallelism index g barrier_interval resume s out =
      assigned_Sends (seek_to_range S W parallelism index s)
    where
      begin_Sends :
          (a : Assigned) (x : ApplyOutcome S W)
          → Sends (Ready lag g) g.last_emitted g.max_event_time out (begin S W fuel g out a x)
      begin_Sends a (some e, br, s') =
          stop_Sends (Ready lag g) g.last_emitted g.max_event_time out _ refl
      begin_Sends a (none, br, s') =
          loop_Sends fuel a (record { source = s'; out = out; watermarks = g; barriers = br })

      assigned_Sends :
          (x : SeekOutcome S W)
          → Sends
              (Ready lag g)
              g.last_emitted
              g.max_event_time
              out
              (assigned S W fuel parallelism barrier_interval g resume out x)
      assigned_Sends (some e, a, s') =
          stop_Sends (Ready lag g) g.last_emitted g.max_event_time out _ refl
      assigned_Sends (none, a, s') = begin_Sends a _

-- A source subtask that starts or is restored sends, until its loop ends, with whatever error, a
-- stream that is on time and has no end of stream, if the event times of its records are int64s above
-- the least and none is more than the lag behind one before it.
pub source_loop-OnTime :
    {X : Type 0} (S : Source) (fails : List StreamElement → StreamElement → Option X)
    (cancelled : List StreamElement → Option X) (fuel parallelism index : ℕ)
    (interval barrier_interval : ℤ) (lag : ℕ) (resume : Option SourceResume) (s : S.State)
    (o : LoopOutcome S (wire fails cancelled))
    → lag ≤ 9223372036854775807
    → source_loop S
        (wire fails cancelled)
        fuel
        parallelism
        index
        (new_watermark_generator interval (pos lag))
        barrier_interval
        resume
        s
        []
      ≡ some o
    → Lagging lag min_int64 (records_in o.1.out)
    → (has_end o.1.out ≡ false) × OnTime min_int64 o.1.out
unfolding new_watermark_generator
source_loop-OnTime S fails cancelled fuel parallelism index interval barrier_interval lag resume s o
      le q lags =
    let g = new_watermark_generator interval (pos lag) in
    let (new, same, open_new, on_time) =
      source_loop_Sends S fails cancelled lag le fuel parallelism index g barrier_interval resume s
        [] o q in
    let lags' : Lagging lag min_int64 (records_in new) =
      subst (λ es. Lagging lag min_int64 (records_in es)) same lags in
    (
      ap has_end same ∙ open_new,
      subst (OnTime min_int64) (sym same)
          (on_time (new_watermark_generator-Ready interval lag) lags'),
    )
