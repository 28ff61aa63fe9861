-- ===== src/Runtime/Gate.antt =====
-- pkg/runtime/gate.go: the inputs of one subtask merged into one stream. A slice that is indexed by
-- input is a function of the index, and `inputs` is its length. The merged channel is the list of
-- what the forwarders will still send before it is closed, so a receive never waits here.
pub mod Cases
pub mod Structure
pub mod Streams
pub mod History
pub mod Fifo
pub mod Output
pub mod Ending
pub mod Epochs
pub mod Flow
pub mod Timing
pub mod Passing
pub mod EventTime
pub mod Watermarks
pub mod Completion
pub mod Progress
pub mod Calls
mod Tests
use tidemark.Prelude.{
  ℕ, zero, suc, ◌+◌, ◌-◌, ℤ, pos, Bool, true, false, ◌&&◌, ◌||◌, not, Option, none, some, List, [],
  ◌∷◌, ◌++◌, map, ◌==◌, if◌then◌else◌, update, ltb_ℤ, leb_ℤ, max_int64, min_int64,
}
use tidemark.Core.{
  Barrier, StreamElement, record_element, watermark_element, barrier_element, end_of_stream_element,
}
use tidemark.Runtime.Faults.{Faults, FaultError, during_alignment}

pub record Tagged : Type 0 where
  pub input : ℕ
  pub elem : StreamElement

pub record Gate : Type 0 where
  pub inputs : ℕ
  pub end_of_stream : ℕ → Bool
  pub remaining : ℕ
  pub closed : Bool
  pub watermarks : ℕ → ℤ
  pub out : ℤ
  pub aligning : Bool
  pub barrier : StreamElement
  pub aligned_for : ℕ → Bool
  pub buffered : ℕ → List StreamElement
  pub replay : List Tagged
  pub pending : List StreamElement
  pub faults : Faults
  pub err : Option FaultError

-- The zero StreamElement: a record element, here with an empty record for the nil pointer. It is in
-- `barrier` only while nothing is aligning, when the field is not read.
abbrev pub zero_element : StreamElement
zero_element = record_element (record { key = []; value = []; event_time = pos 0 })

unfoldable pub new_gate : ℕ → Faults → Gate
new_gate n fs = record {
  inputs = n;
  end_of_stream = λ _. false;
  remaining = n;
  closed = false;
  watermarks = λ _. min_int64;
  out = min_int64;
  aligning = false;
  barrier = zero_element;
  aligned_for = λ _. false;
  buffered = λ _. [];
  replay = [];
  pending = [];
  faults = fs;
  err = none;
}

abbrev pub live : Gate → ℕ → Bool
live g i = not (g.end_of_stream i)

-- The loop of `advance`, over the first `n` inputs.
unfoldable pub min_live : (ℕ → Bool) → (ℕ → ℤ) → ℕ → ℤ
min_live eos ws zero = max_int64
min_live eos ws (suc i) =
    let m = min_live eos ws i in if eos i then m else if ltb_ℤ (ws i) m then ws i else m

-- The minimum of `advance`.
abbrev pub minimum : Gate → ℤ
minimum g = min_live g.end_of_stream g.watermarks g.inputs

abbrev pub emit_watermark : Gate → ℤ → Gate
emit_watermark g m = record g { out = m; pending = g.pending ++ watermark_element m ∷ [] }

-- `advance`, and the append that both of its callers make when it moved.
unfoldable pub advance : Gate → Gate
advance g = if leb_ℤ (minimum g) g.out then g else emit_watermark g (minimum g)

-- The loop of `awaitingBarrier`: a live input among the first `n` that is not aligned.
unfoldable pub any_awaited : (ℕ → Bool) → (ℕ → Bool) → ℕ → Bool
any_awaited eos aligned zero = false
any_awaited eos aligned (suc i) = any_awaited eos aligned i || (not (eos i) && not (aligned i))

unfoldable pub awaiting_barrier : Gate → Bool
awaiting_barrier g = g.aligning && any_awaited g.end_of_stream g.aligned_for g.inputs

count_aligned : (ℕ → Bool) → ℕ → ℕ
count_aligned aligned zero = 0
count_aligned aligned (suc i) = count_aligned aligned i + (if aligned i then 1 else 0)

unfoldable pub delivered : Gate → ℕ
unfolding count_aligned
delivered g = count_aligned g.aligned_for g.inputs

abbrev pub tag : ℕ → List StreamElement → List Tagged
tag i = map λ e. record { input = i; elem = e }

-- What the first `n` inputs hold back, in the order of the inputs.
unfoldable pub held : (ℕ → List StreamElement) → ℕ → List Tagged
held buffered zero = []
held buffered (suc i) = held buffered i ++ tag i (buffered i)

unfoldable pub drain_buffers : Gate → Gate
drain_buffers g = record g { buffered = λ _. []; replay = held g.buffered g.inputs ++ g.replay }

abbrev pub forward_barrier : Gate → Gate
forward_barrier g = record g {
  pending = g.pending ++ g.barrier ∷ [];
  aligning = false;
  barrier = zero_element;
  aligned_for = λ _. false;
}

unfoldable pub complete_alignment : Gate → Gate
complete_alignment g =
    if not g.aligning || awaiting_barrier g then g else drain_buffers (forward_barrier g)

-- The first half of `onBarrier`: the first barrier of a checkpoint starts the alignment.
unfoldable pub mark_aligned : Gate → ℕ → Barrier → Gate
mark_aligned g i b = record g {
  aligning = true;
  barrier = if g.aligning then g.barrier else barrier_element b;
  aligned_for = update g.aligned_for i true;
}

-- `err` is assigned only where the injector asked for an abort.
set_err : Gate → Option FaultError → Gate
set_err g none = g
set_err g (some e) = record g { err = some e }

unfoldable pub on_barrier : Gate → ℕ → Barrier → Gate
unfolding set_err
on_barrier g i b =
    let g' = mark_aligned g i b in
    if awaiting_barrier g'
    then set_err g' (during_alignment g'.faults b.checkpoint_id (delivered g'))
    else complete_alignment g'

-- The bookkeeping of `onEndOfStream` up to the watermark that it may release.
unfoldable pub mark_exhausted : Gate → ℕ → Gate
mark_exhausted g i = record g {
  end_of_stream = update g.end_of_stream i true;
  remaining = g.remaining - 1;
}

abbrev pub emit_end : Gate → Gate
emit_end g = record g { closed = true; pending = g.pending ++ end_of_stream_element ∷ [] }

unfoldable pub close_output : Gate → Gate
close_output g = if (g.remaining == 0) && not g.closed then emit_end g else g

unfoldable pub on_end_of_stream : Gate → ℕ → Gate
on_end_of_stream g i =
    if g.end_of_stream i
    then g
    else complete_alignment (close_output (advance (mark_exhausted g i)))

abbrev pub emit : Gate → StreamElement → Gate
emit g e = record g { pending = g.pending ++ e ∷ [] }

abbrev pub set_watermark : Gate → ℕ → ℤ → Gate
set_watermark g i w = record g { watermarks = update g.watermarks i w }

unfoldable pub deliver : Gate → ℕ → StreamElement → Gate
deliver g i (watermark_element w) = advance (set_watermark g i w)
deliver g i (barrier_element b) = on_barrier g i b
deliver g i end_of_stream_element = on_end_of_stream g i
deliver g i (record_element r) = emit g (record_element r)

-- Whether `handle` holds back what input `i` sends.
abbrev pub holds_back : Gate → ℕ → Bool
holds_back g i = g.aligning && g.aligned_for i

abbrev pub buffer : Gate → ℕ → StreamElement → Gate
buffer g i e = record g { buffered = update g.buffered i (g.buffered i ++ e ∷ []) }

unfoldable pub handle : Gate → Tagged → Gate
handle g t = if holds_back g t.input then buffer g t.input t.elem else deliver g t.input t.elem

-- One round of the loop of `Recv`: it stops, returns the first pending element, or handles the next
-- arrival, out of `replay` before the channel.
pub data Round : Type 0 where
  stopped : Round
  returned : StreamElement → Gate → Round
  handles : Tagged → Gate → List Tagged → Round

round_of : Option FaultError → List StreamElement → List Tagged → List Tagged → Gate → Round
round_of (some e) ps rs ms g = stopped
round_of none (p ∷ ps) rs ms g = returned p (record g { pending = ps })
round_of none [] (t ∷ rs) ms g = handles t (record g { replay = rs }) ms
round_of none [] [] (t ∷ ms) g = handles t g ms
round_of none [] [] [] g = stopped

unfoldable pub round : Gate → List Tagged → Round
unfolding round_of
round g ms = round_of g.err g.pending g.replay ms g

-- What `Recv` returns with the gate and the channel behind it; `none` for closure.
pub record Received : Type 0 where
  pub gate : Gate
  pub merged : List Tagged
  pub got : Option StreamElement

-- What a round leads to, with `go` for the rounds after it.
unfoldable pub next_round :
    (Gate → List Tagged → Option Received) → Gate → List Tagged → Round → Option Received
next_round go g ms stopped = some (record { gate = g; merged = ms; got = none })
next_round go g ms (returned e g') = some (record { gate = g'; merged = ms; got = some e })
next_round go g ms (handles t g' ms') = go (handle g' t) ms'

-- `Recv` on fuel; the outer `none` means that the fuel ran out.
unfoldable pub recv : ℕ → Gate → List Tagged → Option Received
unfolding next_round
recv zero g ms = none
recv (suc fuel) g ms = next_round (recv fuel) g ms (round g ms)
