-- ===== src/Runtime/Gate/Completion.antt =====
-- pkg/runtime/gate.go: calls of `Recv` are runs, and what a run has done once `Recv` reports closure.
use tidemark.Prelude.{
  ℕ, zero, suc, ◌<◌, ◌≡◌, refl, sym, ap, ◌∙◌, Bool, true, false, ◌&&◌, ◌||◌, Option, none, some,
  List, [], ◌∷◌, ◌++◌, append-nil, ◌==◌, subst, Bool-cases, inl, inr, arith,
}
use tidemark.Core.{
  StreamElement, record_element, watermark_element, barrier_element, end_of_stream_element,
}
use tidemark.Runtime.Faults.{Faults, FaultError}
use tidemark.Runtime.Gate.{
  Gate, Tagged, Received, new_gate, any_awaited, advance, complete_alignment, drain_buffers,
  mark_aligned, mark_exhausted, close_output, set_watermark, deliver, holds_back, handle, round,
  round_of, stopped, next_round, recv,
}
use tidemark.Runtime.Gate.Cases.{
  advance_cases, complete_alignment_cases, on_barrier_cases, on_end_of_stream_cases, handle_cases,
}
use tidemark.Runtime.Gate.Structure.{count_live-none_left}
use tidemark.Runtime.Gate.Streams.{by, by-append, waiting, InRange}
use tidemark.Runtime.Gate.History.{
  Run, start, handled, tick, after, play, replayed, round_cases, tick_cases, play-keeps,
}
use tidemark.Runtime.Gate.Fifo.{
  RunInv, start-RunInv, tick-RunInv, handle_held, handle_passed, by-one,
}
use tidemark.Runtime.Gate.Ending.{is_end, deliver-Ended}

abbrev pub got_list : Option StreamElement → List StreamElement
got_list none = []
got_list (some e) = e ∷ []

-- Where the run `s` stands after the result `x` of a call that began in `r`.
abbrev pub Reaches : Run → Received → Run → Type 0
Reaches r x s =
    (s.gate ≡ x.gate) × (s.merged ≡ x.merged) × (s.emitted ≡ r.emitted ++ got_list x.got)

-- A call of `Recv` is some number of rounds of a run, and what it returns is what the run emits.
pub recv-play :
    (fuel : ℕ) (r : Run) (x : Received)
    → recv fuel r.gate r.merged ≡ some x
    → (k : ℕ) × Reaches r x (play k r)
unfolding recv play
recv-play zero r x h = cc
recv-play (suc fuel) r x h =
    let (k, reach) =
      round_cases
        (λ y.
          next_round (recv fuel) r.gate r.merged y ≡ some x
          → (k : ℕ) × Reaches r x (play k (after y r)))
        r.gate r.merged
        (λ e. (0, (ground arith, ground arith, ground (arith, append-nil r.emitted))))
        (λ e es _ q. (0, (ground arith, ground arith, ground arith)))
        (λ t ts _ _ q. recv-play fuel (handled r (replayed r.gate ts) t r.merged) x q)
        (λ t ts _ _ _ q. recv-play fuel (handled r r.gate t ts) x q) h in
    (suc k, unfold tick in reach)

-- Whether a stream has an end of stream.
unfoldable pub has_end : List StreamElement → Bool
has_end [] = false
has_end (e ∷ es) = is_end e || has_end es

has_end-append : (es fs : List StreamElement) → has_end (es ++ fs) ≡ (has_end es || has_end fs)
unfolding has_end
has_end-append [] fs = refl
has_end-append (e ∷ es) fs = ground (arith, has_end-append es fs)

-- An input is exhausted exactly when its end of stream has been delivered.
abbrev Exhausts : List Tagged → Gate → Type 0
Exhausts log g = (i : ℕ) → g.end_of_stream i ≡ has_end (by i log)

-- A gate that has no live input left has closed.
abbrev Closes : Gate → Type 0
Closes g = g.remaining ≡ 0 → g.closed ≡ true

has_end-next :
    (i : ℕ) (log : List Tagged) (t : Tagged)
    → has_end (by i (log ++ t ∷ [])) ≡ (has_end (by i log) || (is_end t.elem && (t.input == i)))
unfolding has_end
has_end-next i log t =
    ap has_end (by-append i log (t ∷ []))
    ∙ has_end-append (by i log) (by i (t ∷ []))
    ∙ ap (λ b. has_end (by i log) || b) (ap has_end (by-one t i) ∙ ground arith)

handled-Exhausts :
    (r : Run) (g : Gate) (t : Tagged) (ms : List Tagged)
    → Exhausts r.log g
    → Exhausts (handled r g t ms).log (handle g t)
handled-Exhausts r g t ms h i = elim (Bool-cases (holds_back g t.input)) [
  | inl hold ↦ rw (hold, handle_held g t hold) (h i)
  | inr pass ↦
      rw (
        pass,
        handle_passed g t pass,
        deliver-Ended g t.input t.elem i,
        has_end-next i r.log t,
        h i,
      )
]

complete_alignment-Closes : (g : Gate) → Closes g → Closes (complete_alignment g)
unfolding drain_buffers
complete_alignment-Closes g h = complete_alignment_cases Closes g (λ _. h) (λ _ _. h)

advance-Closes : (g : Gate) → Closes g → Closes (advance g)
advance-Closes g h = advance_cases Closes g (λ _. h) (λ _. h)

close_output-Closes : (g : Gate) → Closes (close_output g)
unfolding close_output
close_output-Closes g = ground arith

deliver-Closes : (g : Gate) (j : ℕ) (e : StreamElement) → Closes g → Closes (deliver g j e)
unfolding deliver
deliver-Closes g j (record_element r) h = h
deliver-Closes g j (watermark_element w) h = advance-Closes (set_watermark g j w) h
deliver-Closes g j (barrier_element b) h =
    on_barrier_cases Closes g j b (λ _ _. unfold mark_aligned in h)
      (complete_alignment-Closes (mark_aligned g j b) (unfold mark_aligned in h))
deliver-Closes g j end_of_stream_element h =
    on_end_of_stream_cases Closes g j (λ _. h)
      (λ _. complete_alignment-Closes _ (close_output-Closes (advance (mark_exhausted g j))))

handle-Closes : (g : Gate) (t : Tagged) → Closes g → Closes (handle g t)
handle-Closes g t h = handle_cases Closes g t (λ _. h) (λ _. deliver-Closes g t.input t.elem h)

record Accounts (n : ℕ) (arrivals : List Tagged) (r : Run) : Type 0 where
  run : RunInv n arrivals r
  exhausts : Exhausts r.log r.gate
  closes : Closes r.gate

tick-Accounts :
    (n : ℕ) (arrivals : List Tagged) (r : Run)
    → Accounts n arrivals r
    → Accounts n arrivals (tick r)
tick-Accounts n arrivals r v = record {
  run = tick-RunInv n arrivals r v.run;
  exhausts =
      tick_cases (λ s. Exhausts s.log s.gate) r v.exhausts (λ _ _ _. v.exhausts)
        (λ t ts _ _. handled-Exhausts r (replayed r.gate ts) t r.merged v.exhausts)
        (λ t ts _ _ _. handled-Exhausts r r.gate t ts v.exhausts);
  closes =
      tick_cases (λ s. Closes s.gate) r v.closes (λ _ _ _. v.closes)
        (λ t ts _ _. handle-Closes (replayed r.gate ts) t v.closes)
        (λ t ts _ _ _. handle-Closes r.gate t v.closes);
}

any_awaited_some :
    (eos aligned : ℕ → Bool) (n : ℕ)
    → any_awaited eos aligned n ≡ true
    → (i : ℕ) × (i < n) × (eos i ≡ false) × (aligned i ≡ false)
unfolding any_awaited
any_awaited_some eos aligned zero h = cc
any_awaited_some eos aligned (suc n) h = elim (Bool-cases (any_awaited eos aligned n)) [
  | inl e ↦ let (i, lt, live, a) = any_awaited_some eos aligned n e in (i, omega arith, live, a)
  | inr e ↦ (n, omega arith, ground arith, ground arith)
]

round_of_stopped :
    (x : Option FaultError) (ps : List StreamElement) (rs ms : List Tagged) (g : Gate)
    → round_of x ps rs ms g ≡ stopped
    → x ≡ none
    → (ps ≡ []) × (rs ≡ []) × (ms ≡ [])
unfolding round_of
round_of_stopped (some x) ps rs ms g h e = absurd (ground arith)
round_of_stopped none (p ∷ ps) rs ms g h e = absurd (ground arith)
round_of_stopped none [] (t ∷ rs) ms g h e = absurd (ground arith)
round_of_stopped none [] [] (t ∷ ms) g h e = absurd (ground arith)
round_of_stopped none [] [] [] g h e = (refl, refl, refl)

-- When `Recv` reports closure with no abort, there is nothing left to handle.
stopped_empty :
    (g : Gate) (ms : List Tagged)
    → round g ms ≡ stopped
    → g.err ≡ none
    → (g.pending ≡ []) × (g.replay ≡ []) × (ms ≡ [])
unfolding round
stopped_empty g ms h e = round_of_stopped g.err g.pending g.replay ms g h e

streams_left :
    (r : Run) (i : ℕ) (es : List StreamElement)
    → r.gate.buffered i ≡ []
    → r.gate.replay ≡ []
    → r.merged ≡ []
    → by i r.log ++ (waiting r.gate i ++ by i r.merged) ≡ es
    → by i r.log ≡ es
unfolding by
streams_left r i es b q m h =
    sym (append-nil (by i r.log))
    ∙ subst (λ ts. by i r.log ++ by i ts ≡ es) m
        (subst (λ ts. by i r.log ++ (by i ts ++ by i r.merged) ≡ es) q
          (subst (λ ws. by i r.log ++ ((ws ++ by i r.gate.replay) ++ by i r.merged) ≡ es) b h))

-- A run in which `Recv` would report closure, with no abort, over inputs that all end.
module _ (n : ℕ) (arrivals : List Tagged) (r : Run) (v : Accounts n arrivals r)
    (ends : (i : ℕ) → i < n → has_end (by i arrivals) ≡ true)
    (closure : round r.gate r.merged ≡ stopped) (e : r.gate.err ≡ none) where
  empty : (r.gate.pending ≡ []) × (r.gate.replay ≡ []) × (r.merged ≡ [])
  empty = stopped_empty r.gate r.merged closure e

  delivered_if : (i : ℕ) → r.gate.buffered i ≡ [] → by i r.log ≡ by i arrivals
  delivered_if i b = streams_left r i (by i arrivals) b empty.1 empty.2 (v.run.streams i)

  ended_if :
      (i : ℕ) → i < r.gate.inputs → by i r.log ≡ by i arrivals → r.gate.end_of_stream i ≡ true
  ended_if i lt d = v.exhausts i ∙ ap has_end d ∙ ends i (subst (λ m. i < m) v.run.inputs lt)

  not_aligning : r.gate.aligning ≡ false
  not_aligning = elim (Bool-cases r.gate.aligning) [
    | inl on ↦
        let (i, lt, live, free) = any_awaited_some _ _ _ (v.run.inv.awaited on) in
        absurd (ground (arith, ended_if i lt (delivered_if i (v.run.inv.passing i free)), live))
    | inr off ↦ off
  ]

  delivered_all : (i : ℕ) → by i r.log ≡ by i arrivals
  delivered_all i = delivered_if i (v.run.inv.passing i (v.run.inv.idle not_aligning i))

  has_closed : r.gate.closed ≡ true
  has_closed = v.closes (
      v.run.inv.counted
      ∙ count_live-none_left r.gate.end_of_stream r.gate.inputs
          (λ i lt. ended_if i lt (delivered_all i)))

-- Once `Recv` has reported closure and no abort was injected, and every input did send an end of
-- stream: no alignment is left open, every element of every input has been delivered, nothing is
-- pending, and the gate has closed.
pub play-completes :
    (n : ℕ) (fs : Faults) (arrivals : List Tagged) (k : ℕ)
    → InRange n arrivals
    → 0 < n
    → ((i : ℕ) → i < n → has_end (by i arrivals) ≡ true)
    → let r = play k (start n fs arrivals) in
      round r.gate r.merged ≡ stopped
      → r.gate.err ≡ none
      → (r.gate.aligning ≡ false)
        × ((i : ℕ) → by i r.log ≡ by i arrivals)
        × (r.gate.pending ≡ [])
        × (r.gate.closed ≡ true)
play-completes n fs arrivals k h pos ends st e = (
  not_aligning n arrivals r v ends st e,
  delivered_all n arrivals r v ends st e,
  (empty n arrivals r v ends st e).0,
  has_closed n arrivals r v ends st e,
)
  where
    r : Run
    r = play k (start n fs arrivals)

    v : Accounts n arrivals r
    v =
        play-keeps (Accounts n arrivals) (tick-Accounts n arrivals) k (start n fs arrivals)
          (record {
            run = start-RunInv n fs arrivals h;
            exhausts = λ i. unfold new_gate by has_end in refl;
            closes = λ z. absurd (unfold new_gate in omega arith);
          })
