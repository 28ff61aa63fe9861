-- ===== src/Runtime/Faults.antt =====
-- pkg/runtime/subtask.go: the fault injector's decisions, asked at three places of a subtask.
use tidemark.Prelude.{ℕ, ℤ, Bool, String, Option, none, some, if◌then◌else◌}

pub record SubtaskId : Type 0 where
  pub vertex_id : String
  pub index : ℕ

-- The interface has one implementation outside the runtime; here it is its three answers.
pub record FaultInjector : Type 0 where
  pub before_element : String → ℕ → ℤ → Bool
  pub after_barrier_forwarded : String → ℕ → ℤ → Bool
  pub during_alignment : String → ℕ → ℤ → ℕ → Bool

pub record Faults : Type 0 where
  pub injector : Option FaultInjector
  pub id : SubtaskId

-- The error's message carries these.
pub data FaultError : Type 0 where
  after_elements : SubtaskId → ℤ → FaultError
  after_barrier : SubtaskId → ℤ → FaultError
  aligning_barrier : SubtaskId → ℤ → ℕ → FaultError

before_element_by : Option FaultInjector → SubtaskId → ℤ → Option FaultError
before_element_by none id n = none
before_element_by (some f) id n =
    if f.before_element id.vertex_id id.index n then some (after_elements id n) else none

unfoldable pub before_element : Faults → ℤ → Option FaultError
unfolding before_element_by
before_element f n = before_element_by f.injector f.id n

after_barrier_by : Option FaultInjector → SubtaskId → ℤ → Option FaultError
after_barrier_by none id k = none
after_barrier_by (some f) id k =
    if f.after_barrier_forwarded id.vertex_id id.index k then some (after_barrier id k) else none

unfoldable pub after_barrier_forwarded : Faults → ℤ → Option FaultError
unfolding after_barrier_by
after_barrier_forwarded f k = after_barrier_by f.injector f.id k

during_alignment_by : Option FaultInjector → SubtaskId → ℤ → ℕ → Option FaultError
during_alignment_by none id k delivered = none
during_alignment_by (some f) id k delivered =
    if f.during_alignment id.vertex_id id.index k delivered
    then some (aligning_barrier id k delivered)
    else none

unfoldable pub during_alignment : Faults → ℤ → ℕ → Option FaultError
unfolding during_alignment_by
during_alignment f k delivered = during_alignment_by f.injector f.id k delivered
