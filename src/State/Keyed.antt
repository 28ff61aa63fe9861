-- ===== src/State/Keyed.antt =====
-- pkg/state/state.go: `Memory`, the keyed state of a subtask. The Go map is the list of its entries in
-- the order of their keys, the only one in which they are ever shown: `Iterate` collects the keys and
-- sorts them. A key is looked up again before its entry is visited, so one that the visit of another
-- has deleted is passed over.
pub mod Order
pub mod Laws
pub mod Visits
use tidemark.Prelude.{
  ℕ, Bool, true, false, ◌&&◌, Option, none, some, List, [], ◌∷◌, map, ◌==◌, if◌then◌else◌,
}
use tidemark.State.Encoding.Order.{sorts_before}

abbrev pub Bytes : Type 0
Bytes = List ℕ

abbrev pub Memory : Type 0
Memory = List (Bytes × Bytes)

unfoldable pub bytes_eq : Bytes → Bytes → Bool
bytes_eq [] [] = true
bytes_eq [] (y ∷ ys) = false
bytes_eq (x ∷ xs) [] = false
bytes_eq (x ∷ xs) (y ∷ ys) = (x == y) && bytes_eq xs ys

abbrev pub new_memory : Memory
new_memory = []

unfoldable pub get : Bytes → Memory → Option Bytes
get k [] = none
get k ((j, w) ∷ m) = if bytes_eq k j then some w else get k m

unfoldable pub put : Bytes → Bytes → Memory → Memory
put k v [] = (k, v) ∷ []
put k v ((j, w) ∷ m) =
    if bytes_eq k j
    then (k, v) ∷ m
    else if sorts_before k j
    then (k, v) ∷ (j, w) ∷ m
    else (j, w) ∷ put k v m

unfoldable pub delete : Bytes → Memory → Memory
delete k [] = []
delete k ((j, w) ∷ m) = if bytes_eq k j then m else (j, w) ∷ delete k m

-- Whether to go on, the state, and what the visits gather.
abbrev pub Visit : Type 0 → Type 0
Visit S = Bytes → Bytes → Memory → S → Bool × Memory × S

abbrev pub proceed : {S : Type 0} → Bool × Memory × S → (Memory → S → Memory × S) → Memory × S
proceed (true, m, s) next = next m s
proceed (false, m, s) next = (m, s)

-- The visit of a key, if it has an entry still.
abbrev pub visit_entry :
    {S : Type 0}
    → Visit S
    → Bytes
    → Option Bytes
    → (Memory → S → Memory × S)
    → Memory
    → S
    → Memory × S
visit_entry fn k none next m s = next m s
visit_entry fn k (some v) next m s = proceed (fn k v m s) next

unfoldable pub visit_keys : {S : Type 0} → List Bytes → Visit S → Memory → S → Memory × S
visit_keys [] fn m s = (m, s)
visit_keys (k ∷ ks) fn m s = visit_entry fn k (get k m) (visit_keys ks fn) m s

unfoldable pub iterate : {S : Type 0} → Visit S → Memory → S → Memory × S
iterate fn m s = visit_keys (map (λ e. e.0) m) fn m s

-- The discriminators, the first byte of a key.
abbrev pub prefix_user_state : ℕ
prefix_user_state = 0

abbrev pub prefix_timer : ℕ
prefix_timer = 1

abbrev pub prefix_operator_state : ℕ
prefix_operator_state = 2
