-- ===== src/Runtime/Gate/Fifo.antt =====
-- pkg/runtime/gate.go: no input's stream is reordered, and nothing of it is lost or made up, whether
-- it is delivered, buffered behind a barrier, or taken back into `replay`.
use tidemark.Prelude.{
  ℕ, ◌<◌, ◌≡◌, refl, ap, ◌∙◌, true, false, List, [], ◌∷◌, ◌++◌, append-nil, append_assoc, subst,
  ◌==◌, ==_iff, if◌then◌else◌, Bool-cases, inl, inr, arith,
}
use tidemark.Core.{StreamElement}
use tidemark.Runtime.Faults.{Faults}
use tidemark.Runtime.Gate.{Gate, Tagged, new_gate, deliver, holds_back, buffer, handle}
use tidemark.Runtime.Gate.Cases.{handle_cases}
use tidemark.Runtime.Gate.Structure.{GateInv, new_gate-GateInv, handle-GateInv}
use tidemark.Runtime.Gate.Streams.{by, by-append, waiting, deliver-waiting, InRange, deliver-Kept}
use tidemark.Runtime.Gate.History.{
  Run, start, handled, tick, play, replayed, tick_cases, play-keeps,
}

-- What holds in every round of a run over `n` inputs whose arrivals name only those inputs, and the
-- streams: what input `i` sent is what was delivered of it, then what waits, then what is to arrive.
pub record RunInv (n : ℕ) (arrivals : List Tagged) (r : Run) : Type 0 where
  pub inv : GateInv r.gate
  pub inputs : r.gate.inputs ≡ n
  pub replays : InRange n r.gate.replay
  pub arriving : InRange n r.merged
  pub streams : (i : ℕ) → by i r.log ++ (waiting r.gate i ++ by i r.merged) ≡ by i arrivals

pub start-RunInv :
    (n : ℕ) (fs : Faults) (ms : List Tagged) → InRange n ms → RunInv n ms (start n fs ms)
unfolding new_gate by
start-RunInv n fs ms h = record {
  inv = new_gate-GateInv n fs;
  inputs = refl;
  replays = tt;
  arriving = h;
  streams = λ i. refl;
}

-- The next element, `t`, as it stands in the stream of input `i`.
abbrev pub next_of : Tagged → ℕ → List StreamElement
next_of t i = if t.input == i then t.elem ∷ [] else []

-- An input that is not held back has nothing in its buffer.
pub passes_empty : (g : Gate) (i : ℕ) → GateInv g → holds_back g i ≡ false → g.buffered i ≡ []
passes_empty g i v pass = elim (Bool-cases g.aligning) [
  | inl on ↦ v.passing i (ground arith)
  | inr off ↦ v.passing i (v.idle off i)
]

pub handle_held :
    (g : Gate) (t : Tagged) → holds_back g t.input ≡ true → handle g t ≡ buffer g t.input t.elem
unfolding handle
handle_held g t e = rw e

pub handle_passed :
    (g : Gate) (t : Tagged) → holds_back g t.input ≡ false → handle g t ≡ deliver g t.input t.elem
unfolding handle
handle_passed g t e = rw e

pub buffer-waiting :
    (g : Gate) (t : Tagged) (i : ℕ)
    → waiting (buffer g t.input t.elem) i ≡ g.buffered i ++ (next_of t i ++ by i g.replay)
buffer-waiting g t i = elim (Bool-cases (t.input == i)) [
  | inl e ↦ rw (e, ← (==_iff t.input i).0 e) (append_assoc (g.buffered t.input) _ _)
  | inr e ↦ rw e
]

deliver-next :
    (g : Gate) (t : Tagged) (i : ℕ) (seen rest : List StreamElement)
    → GateInv g
    → holds_back g t.input ≡ false
    → (seen ++ next_of t i) ++ (waiting g i ++ rest)
      ≡ seen ++ (g.buffered i ++ (next_of t i ++ (by i g.replay ++ rest)))
deliver-next g t i seen rest v pass = elim (Bool-cases (t.input == i)) [
  | inl e ↦ rw e (
      rw (subst (λ j. g.buffered j ≡ []) ((==_iff t.input i).0 e) (passes_empty g t.input v pass))
        (append_assoc seen (t.elem ∷ []) _))
  | inr e ↦ rw e (simp (append-nil, append_assoc))
]

pub by-one : (t : Tagged) (i : ℕ) → by i (t ∷ []) ≡ next_of t i
unfolding by
by-one t i = refl

-- Whatever a gate does with an element, each input's stream is what it was.
handled-streams :
    (r : Run) (g : Gate) (t : Tagged) (ms : List Tagged) (i : ℕ)
    → GateInv g
    → t.input < g.inputs
    → let r' = handled r g t ms in
      by i r'.log ++ (waiting r'.gate i ++ by i r'.merged)
      ≡ by i r.log ++ (g.buffered i ++ (next_of t i ++ (by i g.replay ++ by i ms)))
handled-streams r g t ms i v lt = elim (Bool-cases (holds_back g t.input)) [
  | inl hold ↦ rw (hold, handle_held g t hold, buffer-waiting g t i) (simp append_assoc)
  | inr pass ↦
      rw
        (
          pass,
          handle_passed g t pass,
          by-append i r.log (t ∷ []),
          by-one t i,
          deliver-waiting g t.input t.elem i lt v.books,
        )
        (deliver-next g t i (by i r.log) (by i ms) v pass)
]

pub handle-Kept :
    (n : ℕ) (g : Gate) (t : Tagged)
    → (g.inputs ≡ n) × InRange n g.replay
    → ((handle g t).inputs ≡ n) × InRange n (handle g t).replay
handle-Kept n g t k =
    handle_cases (λ h. (h.inputs ≡ n) × InRange n h.replay) g t (λ _. k)
      (λ _. deliver-Kept n g t.input t.elem k)

by-cons : (t : Tagged) (ts : List Tagged) (i : ℕ) → by i (t ∷ ts) ≡ next_of t i ++ by i ts
unfolding by
by-cons t ts i = ground arith

replayed-GateInv : (g : Gate) (ts : List Tagged) → GateInv g → GateInv (replayed g ts)
replayed-GateInv g ts v = record { books = v.books; awaited = v.awaited }

pub fetch_replay :
    (b m : List StreamElement) (t : Tagged) (ts : List Tagged) (i : ℕ)
    → b ++ (next_of t i ++ (by i ts ++ m)) ≡ (b ++ by i (t ∷ ts)) ++ m
fetch_replay b m t ts i = rw (by-cons t ts i) (simp append_assoc)

pub fetch_merged :
    (b : List StreamElement) (t : Tagged) (ts : List Tagged) (i : ℕ)
    → b ++ (next_of t i ++ (by i [] ++ by i ts)) ≡ (b ++ by i []) ++ by i (t ∷ ts)
unfolding by
fetch_merged b t ts i = ground (arith, by-cons t ts i, append-nil b)

module _ (n : ℕ) (arrivals : List Tagged) where
  handled-RunInv :
      (r : Run) (g : Gate) (t : Tagged) (ms : List Tagged)
      → GateInv g
      → (g.inputs ≡ n) × InRange n g.replay
      → t.input < n
      → InRange n ms
      → ((i : ℕ)
          → by i r.log ++ (g.buffered i ++ (next_of t i ++ (by i g.replay ++ by i ms)))
            ≡ by i arrivals)
      → RunInv n arrivals (handled r g t ms)
  handled-RunInv r g t ms v k lt a s =
      let lt' : t.input < g.inputs = rw k.0 lt in
      let k' = handle-Kept n g t k in
      record {
        inv = handle-GateInv g t lt' v;
        inputs = k'.0;
        replays = k'.1;
        arriving = a;
        streams = λ i. handled-streams r g t ms i v lt' ∙ s i;
      }

  pub tick-RunInv : (r : Run) → RunInv n arrivals r → RunInv n arrivals (tick r)
  tick-RunInv r v =
      tick_cases (RunInv n arrivals) r v
        (λ e es _. record {
          inv = record { books = v.inv.books; awaited = v.inv.awaited };
          inputs = v.inputs;
          replays = v.replays;
          arriving = v.arriving;
          streams = v.streams;
        })
        (λ t ts _ e.
          let h = subst (InRange n) e v.replays in
          handled-RunInv r (replayed r.gate ts) t r.merged (replayed-GateInv r.gate ts v.inv)
            (v.inputs, h.1) h.0 v.arriving
            λ i. ap (λ es. by i r.log ++ es) (rw e (fetch_replay _ _ t ts i)) ∙ v.streams i)
        (λ t ts _ none_left e.
          let h = subst (InRange n) e v.arriving in
          handled-RunInv r r.gate t ts v.inv (v.inputs, v.replays) h.0 h.1
            λ i.
              ap (λ es. by i r.log ++ es) (rw (none_left, e) (fetch_merged _ t ts i)) ∙ v.streams i)

  pub play-RunInv :
      (fs : Faults) (k : ℕ) → InRange n arrivals → RunInv n arrivals (play k (start n fs arrivals))
  play-RunInv fs k h =
      play-keeps (RunInv n arrivals) tick-RunInv k (start n fs arrivals)
        (start-RunInv n fs arrivals h)
