-- ===== src/Runtime/Gate/Calls.antt =====
-- pkg/runtime/gate.go: a subtask calls `Recv` until it reports closure, and then has had everything.
use tidemark.Prelude.{ℕ, zero, suc, ◌<◌, ◌≡◌, Option, none, some, List, [], ◌∷◌, ◌++◌, length, ◌⊎◌}
use tidemark.Core.{StreamElement}
use tidemark.Runtime.Faults.{Faults}
use tidemark.Runtime.Gate.{Gate, Tagged, Received, round, stopped, recv}
use tidemark.Runtime.Gate.Streams.{InRange}
use tidemark.Runtime.Gate.History.{Run, play}
use tidemark.Runtime.Gate.Progress.{budget}

-- What the calls returned, and where the last left the gate.
pub record Answer : Type 0 where
  pub elements : List StreamElement
  pub last : Received

abbrev got_first : StreamElement → Option Answer → Option Answer
got_first e none = none
got_first e (some a) = some (record a { elements = e ∷ a.elements })

abbrev and_on :
    (Gate → List Tagged → Option Answer) → Received → Option StreamElement → Option Answer
and_on go x none = some (record { elements = []; last = x })
and_on go x (some e) = got_first e (go x.gate x.merged)

abbrev after_call : (Gate → List Tagged → Option Answer) → Option Received → Option Answer
after_call go none = none
after_call go (some x) = and_on go x x.got

-- Up to so many calls of `Recv`, until one reports closure.
unfoldable pub recv_calls : ℕ → ℕ → Gate → List Tagged → Option Answer
recv_calls zero fuel g ms = none
recv_calls (suc calls) fuel g ms = after_call (recv_calls calls fuel) (recv fuel g ms)

-- Where the run stands after the calls.
abbrev Ends : Run → Answer → Run → Type 0
Ends r a s =
    (s.gate ≡ a.last.gate)
    × (s.merged ≡ a.last.merged)
    × (s.emitted ≡ r.emitted ++ a.elements)
    × (round s.gate s.merged ≡ stopped)

abbrev Played : Run → Answer → Type 0
Played r a = (k : ℕ) × Ends r a (play k r)

-- The replay queue and the arrivals name only inputs of the gate.
abbrev Named : Gate → List Tagged → Type 0
Named g ms = InRange g.inputs g.replay × InRange g.inputs ms

-- Less to do: a smaller budget, or the same and one element less that waits to be returned.
abbrev Less : Gate → List Tagged → Received → Type 0
Less g ms x =
    (budget x.gate x.merged < budget g ms)
    ⊎ ((budget x.gate x.merged ≡ budget g ms) × (length g.pending ≡ suc (length x.gate.pending)))

-- A call that returns an element.
abbrev Shrinks : Gate → List Tagged → Received → Type 0
Shrinks g ms x = (e : StreamElement) → x.got ≡ some e → Named x.gate x.merged × Less g ms x

-- Enough calls have an answer.
abbrev Answers : ℕ → Gate → List Tagged → Type 0
Answers fuel g ms = (calls : ℕ) × ((a : Answer) × (recv_calls calls fuel g ms ≡ some a))
