-- ===== src/Operators/Counting/Firing.antt =====
-- pkg/operators/window.go: what firing the due timers does.
use tidemark.Prelude.{
  ◌≡◌, refl, sym, ap, ◌∙◌, subst, ℤ, pos, Option, none, some, List, [], ◌∷◌, ◌++◌, append-nil,
  append_assoc, map, length, All,
}
use tidemark.Core.{Record}
use tidemark.State.Keyed.{Bytes, Memory, get, delete}
use tidemark.State.Keyed.Laws.{get-delete_ne}
use tidemark.Operators.Windows.{WindowCount, fire_time_of}
use tidemark.Operators.Layout.{Parsed, ok, err, state_key, timer_key, encode_count, decode_count}
use tidemark.Operators.Counting.{
  Counts, Outcome, and_then, DueTimer, emit, fire, fire_value, fire_all,
}
use tidemark.Operators.Layout.Keys.{decode_count_lem}
use tidemark.Operators.Counting.Forms.{state-ne-timer}

-- The timer has the key of one, and its window has a count.
pub record IsReady (m : Memory) (t : DueTimer) : Type 0 where
  pub fire_time : ℤ
  pub shape : t.state_key ≡ timer_key fire_time t.key t.window_start
  pub value : Bytes
  pub counted : get (state_key t.key t.window_start) m ≡ some value
  pub eight : length value ≡ 8

-- The count that a value stands for.
unfoldable pub number : Parsed ℤ → ℤ
number (ok n) = n
number (err e) = pos 0

unfoldable pub count_at : Option Bytes → ℤ
unfolding number
count_at none = pos 0
count_at (some v) = number (decode_count v)

-- What a timer's window sends when it fires: its key, the count in the memory and its last instant.
unfoldable pub fired : WindowCount → Memory → DueTimer → Record
unfolding count_at
fired w m t = record {
  key = t.key;
  value = encode_count (count_at (get (state_key t.key t.window_start) m));
  event_time = fire_time_of w t.window_start;
}

unfoldable pub delete_keys : List DueTimer → Memory → Memory
delete_keys [] m = m
delete_keys (t ∷ ts) m = delete_keys ts (delete t.state_key m)

pub record Fires (w : WindowCount) (ts : List DueTimer) (c : Counts) (o : Outcome) : Type 0 where
  pub good : o.0 ≡ none
  pub memory : o.1.memory ≡ delete_keys ts c.memory
  pub dropped : o.1.dropped ≡ c.dropped
  pub emitted : o.1.emitted ≡ c.emitted ++ map (fired w c.memory) ts

-- Deleting a timer changes no count.
count_kept :
    (m : Memory) (t : DueTimer) (k : Bytes) (a : ℤ)
    → IsReady m t
    → get (state_key k a) (delete t.state_key m) ≡ get (state_key k a) m
count_kept m t k a r =
    get-delete_ne (state_key k a) t.state_key m
      (λ e. state-ne-timer k t.key a r.fire_time t.window_start (e ∙ r.shape))

IsReady-delete :
    (m : Memory) (t u : DueTimer) → IsReady m t → IsReady m u → IsReady (delete t.state_key m) u
IsReady-delete m t u r q = record {
  fire_time = q.fire_time;
  shape = q.shape;
  value = q.value;
  counted = count_kept m t u.key u.window_start r ∙ q.counted;
  eight = q.eight;
}

pub All-delete :
    (m : Memory) (t : DueTimer) (ts : List DueTimer)
    → IsReady m t
    → All (IsReady m) ts
    → All (IsReady (delete t.state_key m)) ts
All-delete m t [] r a = tt
All-delete m t (u ∷ ts) r a = (IsReady-delete m t u r a.0, All-delete m t ts r a.1)

fired_kept :
    (w : WindowCount) (m : Memory) (t : DueTimer) (ts : List DueTimer)
    → IsReady m t
    → map (fired w (delete t.state_key m)) ts ≡ map (fired w m) ts
unfolding fired
fired_kept w m t [] r = refl
fired_kept w m t (u ∷ ts) r = rw (count_kept m t u.key u.window_start r, fired_kept w m t ts r) refl

fired_own :
    (w : WindowCount) (m : Memory) (t : DueTimer)
    → IsReady m t
    → fired w (delete t.state_key m) t ≡ fired w m t
unfolding fired
fired_own w m t r = rw (count_kept m t t.key t.window_start r) refl

fire_lem :
    (w : WindowCount) (c : Counts) (t : DueTimer)
    → IsReady c.memory t
    → fire w t.key t.window_start c
      ≡ (none, record c { emitted = c.emitted ++ (fired w c.memory t ∷ []) })
unfolding fire fire_value fired emit count_at number
fire_lem w c t r = let (n, e) = decode_count_lem r.value r.eight in rw (r.counted, e) refl

-- Timers that are ready all fire.
pub fire_all-Fires :
    (w : WindowCount) (ts : List DueTimer) (c : Counts)
    → All (IsReady c.memory) ts
    → Fires w ts c (fire_all w ts c)
unfolding fire_all delete_keys
fire_all-Fires w [] c a = record {
  good = refl;
  memory = refl;
  dropped = refl;
  emitted = sym (append-nil c.emitted);
}
fire_all-Fires w (t ∷ ts) c a =
    let m' = delete t.state_key c.memory in
    let c' = record c { memory = m' } in
    let own : fired w m' t ≡ fired w c.memory t = fired_own w c.memory t a.0 in
    let c2 : Counts = record c' { emitted = c.emitted ++ (fired w m' t ∷ []) } in
    let rest = fire_all-Fires w ts c2 (All-delete c.memory t ts a.0 a.1) in
    let step = fire_lem w c' t (IsReady-delete c.memory t t a.0 a.0) in
    subst (Fires w (t ∷ ts) c) (sym (ap (λ o. and_then o (fire_all w ts)) step)) (record {
      good = rest.good;
      memory = rest.memory;
      dropped = rest.dropped;
      emitted =
          rest.emitted
          ∙ append_assoc c.emitted (fired w m' t ∷ []) (map (fired w m') ts)
          ∙ rw (own, fired_kept w c.memory t ts a.0) refl;
    })
