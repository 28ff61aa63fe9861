-- ===== src/Operators/Layout/Keys.antt =====
-- pkg/operators/window.go: what is written into the keys and values can be read out of them.
use native.Mathlib.Nat.{mod-eq_of_lt}
use mathlib.Core.List.{append_cancel_right}
use tidemark.Prelude.{
  ◌-◌, ◌≡◌, ◌≤◌, refl, sym, ap, ◌∙◌, subst, ℤ, IsInt64, to_int64, false, some, ◌∷◌, ◌++◌,
  append_assoc, length, length-append, take, drop, take-append, drop-append, ltb, arith,
}
use tidemark.State.Encoding.{
  big_endian, from_big_endian, to_uint64, encode_ordered_int64, decode_ordered_int64, read_ordered,
}
use tidemark.State.Encoding.Order.{
  from_big_endian-append, from_big_endian-value, value, big_endian_lem, uint64_bound,
  to_int64-to_uint64, encode_ordered_int64_lem,
}
use tidemark.State.Keyed.{Bytes, prefix_timer, prefix_user_state}
use tidemark.Operators.Layout.{
  ok, number_or, last_int64, timer_of, start_bytes, state_key, timer_key, window_start_of,
  parse_timer_key, encode_count, decode_count, count_of,
}

pub length-start_bytes : (start : ℤ) → length (start_bytes start) ≡ 8
unfolding start_bytes
length-start_bytes start = (big_endian_lem 8 (to_uint64 start)).0

pub length-encode_ordered : (v : ℤ) → length (encode_ordered_int64 v) ≡ 8
unfolding encode_ordered_int64
length-encode_ordered v = (big_endian_lem 8 _).0

-- The number in eight bytes.
pub read_start :
    (start : ℤ) → IsInt64 start → from_big_endian 8 (start_bytes start) ≡ some (to_uint64 start)
unfolding start_bytes
read_start start h =
    (big_endian_lem 8 (to_uint64 start)).3 ∙ ap some (mod-eq_of_lt (uint64_bound start))

-- A front and the eight bytes behind it.
drop_front :
    (front : Bytes) (start : ℤ)
    → drop (length (front ++ start_bytes start) - 8) (front ++ start_bytes start)
      ≡ start_bytes start
drop_front front start =
    let n : length (front ++ start_bytes start) - 8 ≡ length front =
      omega (arith, length-append front (start_bytes start), length-start_bytes start) in
    rw n (drop-append front (start_bytes start))

take_front :
    (front : Bytes) (start : ℤ)
    → take (length (front ++ start_bytes start) - 8) (front ++ start_bytes start) ≡ front
take_front front start =
    let n : length (front ++ start_bytes start) - 8 ≡ length front =
      omega (arith, length-append front (start_bytes start), length-start_bytes start) in
    rw n (take-append front (start_bytes start))

last_int64-append :
    (front : Bytes) (start : ℤ)
    → IsInt64 start
    → last_int64 (front ++ start_bytes start) ≡ some start
unfolding last_int64
last_int64-append front start h =
    rw (drop_front front start, last_int64)
      (rw (read_start start h) (ap some (to_int64-to_uint64 start h)))

pub window_start_of-state_key :
    (key : Bytes) (start : ℤ) → IsInt64 start → window_start_of (state_key key start) ≡ ok start
unfolding window_start_of state_key number_or
window_start_of-state_key key start h =
    let front = prefix_user_state ∷ key in
    let long : ltb (length (front ++ start_bytes start)) 9 ≡ false =
      ground (arith, length-append key (start_bytes start), length-start_bytes start) in
    rw (long, last_int64-append front start h) refl

decode_ordered-append :
    (fire : ℤ) (rest : Bytes)
    → IsInt64 fire
    → decode_ordered_int64 (encode_ordered_int64 fire ++ rest) ≡ some fire
unfolding decode_ordered_int64
decode_ordered-append fire rest h =
    ap read_ordered
      (from_big_endian-append 8 (encode_ordered_int64 fire) rest (length-encode_ordered fire))
    ∙ (encode_ordered_int64_lem fire fire h h).0

parse_lem :
    (k : Bytes) (f : ℤ) (key : Bytes) (s : ℤ)
    → 17 ≤ length k
    → decode_ordered_int64 (drop 1 k) ≡ some f
    → drop 9 (take (length k - 8) k) ≡ key
    → last_int64 k ≡ some s
    → parse_timer_key k ≡ ok (record { fire_time = f; key = key; window_start = s })
unfolding parse_timer_key number_or timer_of
parse_lem k f key s h ef ek es =
    let long : ltb (length k) 17 ≡ false = ground (arith, h) in rw (long, ef, es, ek) refl

-- The key of a timer is read as the fire time, the key and the window start that it was made of, where these
-- are int64s.
pub parse_timer_key-timer_key :
    (fire : ℤ) (key : Bytes) (start : ℤ)
    → IsInt64 fire
    → IsInt64 start
    → parse_timer_key (timer_key fire key start)
      ≡ ok (record { fire_time = fire; key = key; window_start = start })
unfolding timer_key
parse_timer_key-timer_key fire key start hf hs =
    let enc = encode_ordered_int64 fire in
    let sb = start_bytes start in
    let front = prefix_timer ∷ (enc ++ key) in
    let shape : front ++ sb ≡ prefix_timer ∷ (enc ++ (key ++ sb)) =
      ap (λ bs. prefix_timer ∷ bs) (append_assoc enc key sb) in
    let key_part : drop 9 front ≡ key =
      subst (λ n. drop n (enc ++ key) ≡ key) (length-encode_ordered fire) (drop-append enc key) in
    subst
      (λ k. parse_timer_key k ≡ ok (record { fire_time = fire; key = key; window_start = start }))
      shape
      (parse_lem (front ++ sb) fire key start
        (omega (
          arith,
          length-append (enc ++ key) sb,
          length-append enc key,
          length-start_bytes start,
          length-encode_ordered fire,
        ))
        (rw (append_assoc enc key sb) (decode_ordered-append fire (key ++ sb) hf))
        (rw (take_front front start) key_part) (last_int64-append front start hs))

pub decode_count_lem : (v : Bytes) → length v ≡ 8 → (n : ℤ) × (decode_count v ≡ ok n)
unfolding decode_count count_of
decode_count_lem v h =
    let long : ltb (length v) 8 ≡ false = ground (arith, h) in
    let e = from_big_endian-value 8 v h in (to_int64 (value v), rw (long, e) refl)

pub decode_count-encode_count : (n : ℤ) → IsInt64 n → decode_count (encode_count n) ≡ ok n
unfolding decode_count encode_count count_of
decode_count-encode_count n h =
    let l = (big_endian_lem 8 (to_uint64 n)).0 in
    let long : ltb (length (big_endian 8 (to_uint64 n))) 8 ≡ false = ground (arith, l) in
    let e : from_big_endian 8 (big_endian 8 (to_uint64 n)) ≡ some (to_uint64 n) =
      (big_endian_lem 8 (to_uint64 n)).3 ∙ ap some (mod-eq_of_lt (uint64_bound n)) in
    rw (long, e) (ap ok (to_int64-to_uint64 n h))

start_bytes-injective : (a b : ℤ) → IsInt64 a → IsInt64 b → start_bytes a ≡ start_bytes b → a ≡ b
start_bytes-injective a b ha hb e =
    let n : some (to_uint64 a) ≡ some (to_uint64 b) =
      sym (read_start a ha) ∙ ap (λ bs. from_big_endian 8 bs) e ∙ read_start b hb in
    let same : to_uint64 a ≡ to_uint64 b = cc (n) in
    sym (to_int64-to_uint64 a ha) ∙ ap to_int64 same ∙ to_int64-to_uint64 b hb

front_same : (k j : Bytes) (a b : ℤ) → a ≡ b → state_key k a ≡ state_key j b → k ≡ j
unfolding state_key
front_same k j a b same e =
    let tails : k ++ start_bytes a ≡ j ++ start_bytes b = cc (e) in
    append_cancel_right k j (start_bytes b) (ap (λ x. k ++ start_bytes x) (sym same) ∙ tails)

-- Windows of different keys or starts have different entries.
pub state_key-injective :
    (k j : Bytes) (a b : ℤ)
    → IsInt64 a
    → IsInt64 b
    → state_key k a ≡ state_key j b
    → (k ≡ j) × (a ≡ b)
state_key-injective k j a b ha hb e =
    let w : ok a ≡ ok b =
      sym (window_start_of-state_key k a ha)
      ∙ ap window_start_of e
      ∙ window_start_of-state_key j b hb in
    let same : a ≡ b = cc (w) in (front_same k j a b same e, same)
