-- ===== src/Operators/Layout.antt =====
-- pkg/operators/window.go: the entries of an operator's keyed state. A window of a key has one with its
-- count, and until it fires a second, a timer, under a key that sorts by fire time.
pub mod Keys
use tidemark.Prelude.{
  ℕ, ◌-◌, ℤ, to_int64, Option, none, some, [], ◌∷◌, ◌++◌, length, take, drop, ltb, if◌then◌else◌,
}
use tidemark.State.Encoding.{
  big_endian, from_big_endian, to_uint64, encode_ordered_int64, decode_ordered_int64,
}
use tidemark.State.Keyed.{Bytes, prefix_user_state, prefix_timer, prefix_operator_state}

pub data WindowError : Type 0 where
  watermark_too_short : ℕ → WindowError
  count_too_short : ℕ → WindowError
  state_key_too_short : ℕ → WindowError
  timer_key_too_short : ℕ → WindowError
  empty_state_key : WindowError
  fired_without_state : ℤ → Bytes → WindowError

pub data Parsed (A : Type 0) : Type 0 where
  ok : A → Parsed A
  err : WindowError → Parsed A

-- "watermark" behind its discriminator.
abbrev pub watermark_state_key : Bytes
watermark_state_key = prefix_operator_state ∷ 119 ∷ 97 ∷ 116 ∷ 101 ∷ 114 ∷ 109 ∷ 97 ∷ 114 ∷ 107 ∷ []

-- What is read of a value that is long enough; the `none` of a shorter one is not reached.
unfoldable pub number_or : {A : Type 0} → Option A → WindowError → Parsed A
number_or none e = err e
number_or (some a) e = ok a

unfoldable pub start_bytes : ℤ → Bytes
start_bytes start = big_endian 8 (to_uint64 start)

-- appendStateKey and appendTimerKey, onto an empty buffer.
unfoldable pub state_key : Bytes → ℤ → Bytes
state_key key start = prefix_user_state ∷ (key ++ start_bytes start)

unfoldable pub timer_key : ℤ → Bytes → ℤ → Bytes
timer_key fire_time key start =
    prefix_timer ∷ (encode_ordered_int64 fire_time ++ (key ++ start_bytes start))

-- The int64 in the last eight bytes.
last_int64 : Bytes → Option ℤ
last_int64 bs = elim (from_big_endian 8 (drop (length bs - 8) bs)) [
  | none ↦ none
  | some n ↦ some (to_int64 n)
]

unfoldable pub window_start_of : Bytes → Parsed ℤ
unfolding number_or last_int64
window_start_of k =
    if ltb (length k) 9
    then err (state_key_too_short (length k))
    else number_or (last_int64 k) (state_key_too_short (length k))

pub record Timer : Type 0 where
  pub fire_time : ℤ
  pub key : Bytes
  pub window_start : ℤ

timer_of : Option ℤ → Bytes → Option ℤ → Option Timer
timer_of none key start = none
timer_of (some f) key none = none
timer_of (some f) key (some s) = some (record { fire_time = f; key = key; window_start = s })

unfoldable pub parse_timer_key : Bytes → Parsed Timer
unfolding number_or last_int64 timer_of
parse_timer_key k =
    if ltb (length k) 17
    then err (timer_key_too_short (length k))
    else number_or
        (timer_of (decode_ordered_int64 (drop 1 k)) (drop 9 (take (length k - 8) k)) (last_int64 k))
        (timer_key_too_short (length k))

unfoldable pub encode_count : ℤ → Bytes
encode_count n = big_endian 8 (to_uint64 n)

count_of : Option ℕ → WindowError → Parsed ℤ
count_of none e = err e
count_of (some n) e = ok (to_int64 n)

unfoldable pub decode_count : Bytes → Parsed ℤ
unfolding count_of
decode_count v =
    if ltb (length v) 8
    then err (count_too_short (length v))
    else count_of (from_big_endian 8 v) (count_too_short (length v))
