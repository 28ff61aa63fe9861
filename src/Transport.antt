-- ===== src/Transport.antt =====
-- pkg/transport/writer.go: how a subtask's elements reach its outputs. An output is named by its group
-- and its place in the group; what sending to it does is the record `Outputs`.
pub mod Channel
pub mod Reach
pub mod Routing
mod Tests
use Prim.Native.Nat.{bit_xor}
use tidemark.Prelude.{
  ℕ, zero, suc, ◌+◌, ◌*◌, ◌%◌, Option, none, some, List, [], ◌∷◌, ◌++◌, length, if◌then◌else◌, ◌==◌,
  map,
}
use tidemark.Core.{Record, StreamElement, record_element}

abbrev pub fnv_offset64 : ℕ
fnv_offset64 = 14695981039346656037

abbrev pub fnv_prime64 : ℕ
fnv_prime64 = 1099511628211

hash_from : ℕ → List ℕ → ℕ
hash_from h [] = h
hash_from h (c ∷ cs) = hash_from (bit_xor h c * fnv_prime64 % 18446744073709551616) cs

unfoldable pub fnv1a : List ℕ → ℕ
unfolding hash_from
fnv1a b = hash_from fnv_offset64 b

-- The sending ends that a writer owns, with all that they share as one state.
pub record Outputs : Type 1 where
  pub State : Type 0
  pub SendError : Type 0
  pub send : ℕ → ℕ → StreamElement → State → Option SendError × State
  pub close : ℕ → ℕ → State → State

-- `groups` are the numbers of outputs in each.
pub record Writer : Type 0 where
  pub groups : List ℕ
  pub outputs : ℕ

pub data WriterError (E : Type 0) : Type 0 where
  empty_key : ℕ → WriterError E
  send_error : E → WriterError E

-- The number of outputs, or `none` where `NewWriter` panics on an empty group.
count_outputs : List ℕ → Option ℕ
count_outputs [] = some 0
count_outputs (n ∷ ns) = elim (count_outputs ns) [
  | none ↦ none
  | some k ↦ if n == 0 then none else some (n + k)
]

unfoldable pub new_writer : List ℕ → Option Writer
unfolding count_outputs
new_writer gs = elim (count_outputs gs) [
  | none ↦ none
  | some k ↦ some (record { groups = gs; outputs = k })
]

-- Goes on unless there was an error.
abbrev pub and_then {ℓ κ} :
    {E : Type ℓ} {S : Type κ} → Option E × S → (S → Option E × S) → Option E × S
and_then (none, s) go = go s
and_then (some x, s) go = (some x, s)

module _ (O : Outputs) where
  open O use {State, SendError, send, close}

  -- The loop of `EmitRecord`, from group `i` on.
  emit_groups : ℕ → List ℕ → ℕ → StreamElement → State → Option SendError × State
  emit_groups i [] h e s = (none, s)
  emit_groups i (n ∷ ns) h e s = and_then (send i (h % n) e s) (λ t. emit_groups (suc i) ns h e t)

  unfoldable pub wrap_error : Option SendError × State → Option (WriterError SendError) × State
  wrap_error (none, s) = (none, s)
  wrap_error (some x, s) = (some (send_error x), s)

  -- `EmitRecord` by its tests: on the groups, then on the key.
  emit_keyed : Writer → Record → State → List ℕ → List ℕ → Option (WriterError SendError) × State
  unfolding emit_groups wrap_error
  emit_keyed w r s [] k = (none, s)
  emit_keyed w r s (n ∷ ns) [] = (some (empty_key w.outputs), s)
  emit_keyed w r s (n ∷ ns) (c ∷ cs) =
      wrap_error (emit_groups 0 (n ∷ ns) (fnv1a r.key) (record_element r) s)

  unfoldable pub emit_record : Writer → Record → State → Option (WriterError SendError) × State
  unfolding emit_keyed
  emit_record w r s = emit_keyed w r s w.groups r.key

  -- The inner loop of `Broadcast`: `n` outputs of group `i`, from the `j`-th on.
  broadcast_group : ℕ → ℕ → ℕ → StreamElement → State → Option SendError × State
  broadcast_group i j zero e s = (none, s)
  broadcast_group i j (suc n) e s = and_then (send i j e s) (λ t. broadcast_group i (suc j) n e t)

  pub broadcast_groups : ℕ → List ℕ → StreamElement → State → Option SendError × State
  unfolding broadcast_group
  broadcast_groups i [] e s = (none, s)
  broadcast_groups i (n ∷ ns) e s =
      and_then (broadcast_group i 0 n e s) (λ t. broadcast_groups (suc i) ns e t)

  unfoldable pub broadcast : Writer → StreamElement → State → Option SendError × State
  unfolding broadcast_groups
  broadcast w e s = broadcast_groups 0 w.groups e s

  close_group : ℕ → ℕ → ℕ → State → State
  close_group i j zero s = s
  close_group i j (suc n) s = close_group i (suc j) n (close i j s)

  pub close_groups : ℕ → List ℕ → State → State
  unfolding close_group
  close_groups i [] s = s
  close_groups i (n ∷ ns) s = close_groups (suc i) ns (close_group i 0 n s)

  unfoldable pub close_all : Writer → State → State
  unfolding close_groups
  close_all w s = close_groups 0 w.groups s
