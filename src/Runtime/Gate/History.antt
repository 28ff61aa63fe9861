-- ===== src/Runtime/Gate/History.antt =====
-- pkg/runtime/gate.go: a run of `Recv`'s loop, round by round, with what it has returned and, as a
-- ghost, what it has passed to `deliver`. A subtask that calls `Recv` again and again makes such a
-- run; any interleaving of the forwarders is some list of arrivals.
use tidemark.Prelude.{
  ℕ, zero, suc, ◌≡◌, refl, Option, none, some, List, [], ◌∷◌, ◌++◌, if◌then◌else◌,
}
use tidemark.Core.{StreamElement}
use tidemark.Runtime.Faults.{Faults, FaultError}
use tidemark.Runtime.Gate.{
  Gate, Tagged, new_gate, holds_back, handle, round, round_of, Round, stopped, returned, handles,
}

pub record Run : Type 0 where
  pub gate : Gate
  pub merged : List Tagged
  pub emitted : List StreamElement
  pub log : List Tagged

abbrev pub start : ℕ → Faults → List Tagged → Run
start n fs ms = record { gate = new_gate n fs; merged = ms; emitted = []; log = [] }

-- `handle`, recorded.
abbrev pub handled : Run → Gate → Tagged → List Tagged → Run
handled r g t ms = record {
  gate = handle g t;
  merged = ms;
  emitted = r.emitted;
  log = if holds_back g t.input then r.log else r.log ++ t ∷ [];
}

abbrev pub give : Run → StreamElement → Gate → Run
give r e g = record r { gate = g; emitted = r.emitted ++ e ∷ [] }

unfoldable pub after : Round → Run → Run
after stopped r = r
after (returned e g) r = give r e g
after (handles t g ms) r = handled r g t ms

unfoldable pub tick : Run → Run
unfolding after
tick r = after (round r.gate r.merged) r

unfoldable pub play : ℕ → Run → Run
unfolding tick
play zero r = r
play (suc n) r = play n (tick r)

-- What has left the gate, and what is about to.
abbrev pub output : Run → List StreamElement
output r = r.emitted ++ r.gate.pending

-- The gate that has taken the end of its replay queue as the next element.
abbrev pub replayed : Gate → List Tagged → Gate
replayed g ts = record g { replay = ts }

-- How a round of the loop branches: on the abort, the pending queue, the replay, the channel.
pub round_cases {ℓ} :
    (Q : Round → Type ℓ) (g : Gate) (ms : List Tagged)
    → Q stopped
    → ((e : StreamElement) (es : List StreamElement)
        → g.pending ≡ e ∷ es
        → Q (returned e (record g { pending = es })))
    → ((t : Tagged) (ts : List Tagged)
        → g.pending ≡ []
        → g.replay ≡ t ∷ ts
        → Q (handles t (replayed g ts) ms))
    → ((t : Tagged) (ts : List Tagged)
        → g.pending ≡ []
        → g.replay ≡ []
        → ms ≡ t ∷ ts
        → Q (handles t g ts))
    → Q (round g ms)
unfolding round
round_cases Q g ms stop give_it again next = split g.err g.pending g.replay ms give_it again next
  where
    split :
        (x : Option FaultError) (ps : List StreamElement) (rs ns : List Tagged)
        → ((e : StreamElement) (es : List StreamElement)
            → ps ≡ e ∷ es
            → Q (returned e (record g { pending = es })))
        → ((t : Tagged) (ts : List Tagged)
            → ps ≡ []
            → rs ≡ t ∷ ts
            → Q (handles t (replayed g ts) ns))
        → ((t : Tagged) (ts : List Tagged) → ps ≡ [] → rs ≡ [] → ns ≡ t ∷ ts → Q (handles t g ts))
        → Q (round_of x ps rs ns g)
    split (some x) ps rs ns p r m = stop
    split none (e ∷ es) rs ns p r m = p e es refl
    split none [] (t ∷ rs) ns p r m = r t rs refl refl
    split none [] [] (t ∷ ns) p r m = m t ns refl refl refl
    split none [] [] [] p r m = stop

module _ {ℓ} (P : Run → Type ℓ) where
  pub tick_cases :
      (r : Run)
      → P r
      → ((e : StreamElement) (es : List StreamElement)
          → r.gate.pending ≡ e ∷ es
          → P (give r e (record r.gate { pending = es })))
      → ((t : Tagged) (ts : List Tagged)
          → r.gate.pending ≡ []
          → r.gate.replay ≡ t ∷ ts
          → P (handled r (replayed r.gate ts) t r.merged))
      → ((t : Tagged) (ts : List Tagged)
          → r.gate.pending ≡ []
          → r.gate.replay ≡ []
          → r.merged ≡ t ∷ ts
          → P (handled r r.gate t ts))
      → P (tick r)
  unfolding tick
  tick_cases r stay give_it again next =
      round_cases (λ k. P (after k r)) r.gate r.merged stay give_it again next

  pub play-keeps : ((r : Run) → P r → P (tick r)) → (k : ℕ) (r : Run) → P r → P (play k r)
  unfolding play
  play-keeps keep zero r p = p
  play-keeps keep (suc k) r p = play-keeps keep k (tick r) (keep r p)
