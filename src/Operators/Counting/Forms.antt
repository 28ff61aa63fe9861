-- ===== src/Operators/Counting/Forms.antt =====
-- pkg/operators/window.go: what the entries of an operator's state look like.
use tidemark.Prelude.{
  ℕ, ◌≡◌, ◌≢◌, refl, sym, ap, ◌∙◌, ℤ, ◌≤ℤ◌, IsInt64, ltb_ℤ, true, false, some, [], ◌∷◌, ◌++◌,
  length, arith,
}
use tidemark.State.Encoding.{encode_ordered_int64}
use tidemark.State.Encoding.Order.{sorts_before, encode_ordered_int64_lem}
use tidemark.State.Keyed.{Bytes, Memory, get}
use tidemark.State.Keyed.Order.{IsSorted}
use tidemark.Operators.Windows.{WindowCount, fire_time_of}
use tidemark.Operators.Layout.{state_key, timer_key, watermark_state_key, start_bytes}
use tidemark.Operators.Layout.Keys.{length-encode_ordered}

-- An entry is the count of a window, the timer of a window that has a count, or the watermark.
pub data Form (w : WindowCount) (m : Memory) (k v : Bytes) : Type 0 where
  count :
      (key : Bytes) (start : ℤ)
      → IsInt64 start
      → k ≡ state_key key start
      → length v ≡ 8
      → Form w m k v
  timer :
      (key : Bytes) (start : ℤ) (c : Bytes)
      → IsInt64 start
      → IsInt64 (fire_time_of w start)
      → k ≡ timer_key (fire_time_of w start) key start
      → get (state_key key start) m ≡ some c
      → Form w m k v
  mark :
      (wm : ℤ) → IsInt64 wm → k ≡ watermark_state_key → v ≡ encode_ordered_int64 wm → Form w m k v

pub record IsWellFormed (w : WindowCount) (m : Memory) : Type 0 where
  pub sorted : IsSorted m
  pub formed : (k v : Bytes) → get k m ≡ some v → Form w m k v

-- The discriminators keep the kinds of key apart.
first : Bytes → ℕ
first [] = 9
first (b ∷ bs) = b

pub state-ne-timer : (k j : Bytes) (a f b : ℤ) → state_key k a ≢ timer_key f j b
unfolding state_key timer_key first
state-ne-timer k j a f b e = absurd (omega (arith, ap first e))

pub state-ne-mark : (k : Bytes) (a : ℤ) → state_key k a ≢ watermark_state_key
unfolding state_key first
state-ne-mark k a e = absurd (omega (arith, ap first e))

pub timer-ne-mark : (j : Bytes) (f b : ℤ) → timer_key f j b ≢ watermark_state_key
unfolding timer_key first
timer-ne-mark j f b e = absurd (omega (arith, ap first e))

front_order :
    (xs ys us vs : Bytes)
    → length xs ≡ length ys
    → sorts_before (xs ++ us) (ys ++ vs) ≡ true
    → sorts_before ys xs ≡ false
unfolding sorts_before
front_order [] [] us vs e h = refl
front_order [] (y ∷ ys) us vs e h = absurd (omega (arith, e))
front_order (x ∷ xs) [] us vs e h = absurd (omega (arith, e))
front_order (x ∷ xs) (y ∷ ys) us vs e h =
    ground (arith, h, front_order xs ys us vs (omega (arith, e)))

-- A timer that sorts later fires no sooner.
pub timer_order :
    (f g : ℤ) (k j : Bytes) (a b : ℤ)
    → IsInt64 f
    → IsInt64 g
    → sorts_before (timer_key f k a) (timer_key g j b) ≡ true
    → f ≤ℤ g
unfolding sorts_before timer_key
timer_order f g k j a b hf hg h =
    let inner : sorts_before (encode_ordered_int64 f ++ (k ++ start_bytes a))
          (encode_ordered_int64 g ++ (j ++ start_bytes b))
        ≡ true =
      h in
    let apart : sorts_before (encode_ordered_int64 g) (encode_ordered_int64 f) ≡ false =
      front_order (encode_ordered_int64 f) (encode_ordered_int64 g) (k ++ start_bytes a)
        (j ++ start_bytes b) (length-encode_ordered f ∙ sym (length-encode_ordered g)) inner in
    let less : ltb_ℤ g f ≡ false = sym (encode_ordered_int64_lem g f hg hf).1 ∙ apart in
    ground (arith, less)

-- Of two entries of different kinds the counts come first and the watermark last.
pub mark_last_state : (k : Bytes) (a : ℤ) → sorts_before watermark_state_key (state_key k a) ≡ false
unfolding sorts_before state_key
mark_last_state k a = refl

pub mark_last_timer :
    (k : Bytes) (f a : ℤ) → sorts_before watermark_state_key (timer_key f k a) ≡ false
unfolding sorts_before timer_key
mark_last_timer k f a = refl

pub timer_after_state :
    (k j : Bytes) (f a b : ℤ) → sorts_before (timer_key f k a) (state_key j b) ≡ false
unfolding sorts_before timer_key state_key
timer_after_state k j f a b = refl
