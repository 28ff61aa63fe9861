-- ===== src/Operators/Counting/Invariant.antt =====
-- pkg/operators/window.go: a well-formed state stays well-formed, and no call on it fails.
use tidemark.Prelude.{
  ◌-◌, ◌≡◌, ◌≢◌, ◌≤◌, refl, sym, ap, ◌∙◌, subst, ℤ, pos, IsInt64, min_int64, false, none, some,
  List, [], ◌∷◌, length, All, ltb, if_cases, inl, inr, Bool-cases, Option-cases, increment, arith,
}
use tidemark.Core.{Record}
use tidemark.State.Encoding.{encode_ordered_int64, to_uint64}
use tidemark.State.Encoding.Order.{encode_ordered_int64_lem, big_endian_lem}
use tidemark.State.Keyed.{Bytes, Memory, get, put}
use tidemark.State.Keyed.Order.{put-IsSorted, bytes_eq_iff}
use tidemark.State.Keyed.{bytes_eq}
use tidemark.State.Keyed.Laws.{get-put_self, get-put_ne}
use tidemark.Operators.Windows.{WindowCount, windows_for, fire_time_of, is_purged}
use tidemark.Operators.Windows.Range.{windows_for-IsInt64}
use tidemark.Operators.Windows.Firing.{add_ceil_lem}
use tidemark.Operators.Layout.{
  ok, number_or, state_key, timer_key, watermark_state_key, encode_count,
}
use tidemark.Operators.Counting.{
  Counts, Outcome, and_then, watermark_of, current_watermark, count_or_zero, current_count,
  count_one, add_to_window, add_to_windows, process_element,
}
use tidemark.Operators.Layout.Keys.{length-encode_ordered, decode_count_lem}
use tidemark.Operators.Counting.Forms.{
  Form, count, timer, mark, IsWellFormed, state-ne-timer, state-ne-mark, timer-ne-mark,
}

-- Either the same key or another.
pub key_cases {ℓ} : {A : Type ℓ} (k j : Bytes) → (k ≡ j → A) → (k ≢ j → A) → A
key_cases k j same other = elim (Bool-cases (bytes_eq k j)) [
  | inl e ↦ same ((bytes_eq_iff k j).0 e)
  | inr e ↦ other (λ p. absurd (cc (e, (bytes_eq_iff k j).1 p)))
]

-- What has a form keeps it in a memory in which every count that was there is there still.
pub Form-kept :
    (w : WindowCount) (m m' : Memory) (k v : Bytes)
    → ((key : Bytes) (start : ℤ) (c : Bytes)
        → IsInt64 start
        → get (state_key key start) m ≡ some c
        → (c' : Bytes) × (get (state_key key start) m' ≡ some c'))
    → Form w m k v
    → Form w m' k v
Form-kept w m m' k v keep (count key start hs ek l) = count key start hs ek l
Form-kept w m m' k v keep (mark x hx ek ev) = mark x hx ek ev
Form-kept w m m' k v keep (timer key start c hs hf ek ec) =
    let (c', e) = keep key start c hs ec in timer key start c' hs hf ek e

pub put_keeps :
    (k v : Bytes) (m : Memory) (j c : Bytes)
    → get j m ≡ some c
    → (c' : Bytes) × (get j (put k v m) ≡ some c')
put_keeps k v m j c e =
    key_cases j k
      (λ same. (v, subst (λ x. get x (put k v m) ≡ some v) (sym same) (get-put_self k v m)))
      (λ other. (c, get-put_ne j k v m other ∙ e))

-- One more entry, of a form that the memory with it bears out.
pub put-IsWellFormed :
    (w : WindowCount) (k v : Bytes) (m : Memory)
    → Form w (put k v m) k v
    → IsWellFormed w m
    → IsWellFormed w (put k v m)
put-IsWellFormed w k v m f wf = record {
  sorted = put-IsSorted k v m wf.sorted;
  formed = λ j x e.
      key_cases j k
        (λ same.
          let found : some v ≡ some x =
            sym (get-put_self k v m) ∙ ap (λ y. get y (put k v m)) (sym same) ∙ e in
          let value : v ≡ x = cc (found) in
          subst (λ y. Form w (put k v m) y x) (sym same)
            (subst (λ y. Form w (put k v m) k y) value f))
        (λ other.
          Form-kept w m (put k v m) j x
            (λ key start c hs h. put_keeps k v m (state_key key start) c h)
            (wf.formed j x (sym (get-put_ne j k v m other) ∙ e)));
}

-- The watermark that is stored, whatever it is read as.
mark_value :
    (w : WindowCount) (m : Memory) (v : Bytes)
    → Form w m watermark_state_key v
    → (x : ℤ) × IsInt64 x × (v ≡ encode_ordered_int64 x)
mark_value w m v (count key start hs ek l) = absurd (state-ne-mark key start (sym ek))
mark_value w m v (timer key start c hs hf ek ec) =
    absurd (timer-ne-mark key (fire_time_of w start) start (sym ek))
mark_value w m v (mark x hx ek ev) = (x, hx, ev)

-- The value of a count has eight bytes.
pub count_value :
    (w : WindowCount) (m : Memory) (key : Bytes) (start : ℤ) (v : Bytes)
    → Form w m (state_key key start) v
    → length v ≡ 8
count_value w m key start v (count key' start' hs ek l) = l
count_value w m key start v (timer key' start' c hs hf ek ec) =
    absurd (state-ne-timer key key' start (fire_time_of w start') start' ek)
count_value w m key start v (mark x hx ek ev) = absurd (state-ne-mark key start ek)

pub watermark_read : (x : ℤ) → IsInt64 x → watermark_of (some (encode_ordered_int64 x)) ≡ ok x
unfolding watermark_of number_or
watermark_read x h =
    let long : ltb (length (encode_ordered_int64 x)) 8 ≡ false =
      ground (arith, length-encode_ordered x) in
    rw (long, (encode_ordered_int64_lem x x h h).0) refl

no_watermark : watermark_of none ≡ ok min_int64
unfolding watermark_of
no_watermark = refl

pub current_watermark_lem :
    (w : WindowCount) (m : Memory)
    → IsWellFormed w m
    → (x : ℤ) × IsInt64 x × (current_watermark m ≡ ok x)
unfolding current_watermark
current_watermark_lem w m wf = elim (Option-cases (get watermark_state_key m)) [
  | inl e ↦ (min_int64, omega arith, ap watermark_of e ∙ no_watermark)
  | inr (v, e) ↦
      let (x, hx, ev) = mark_value w m v (wf.formed watermark_state_key v e) in
      (x, hx, ap watermark_of (e ∙ ap some ev) ∙ watermark_read x hx)
]

pub current_count_lem :
    (w : WindowCount) (m : Memory) (key : Bytes) (start : ℤ)
    → IsWellFormed w m
    → (n : ℤ) × (current_count (state_key key start) m ≡ ok n)
unfolding current_count count_or_zero
current_count_lem w m key start wf = elim (Option-cases (get (state_key key start) m)) [
  | inl e ↦ (pos 0, rw e refl)
  | inr (v, e) ↦
      let (n, d) =
        decode_count_lem v (count_value w m key start v (wf.formed (state_key key start) v e)) in
      (n, rw e d)
]

length-encode_count : (n : ℤ) → length (encode_count n) ≡ 8
unfolding encode_count
length-encode_count n = (big_endian_lem 8 (to_uint64 n)).0

-- Without an error, and well-formed.
abbrev pub Fine : WindowCount → Outcome → Type 0
Fine w o = (o.0 ≡ none) × IsWellFormed w o.1.memory

pub and_then-Fine :
    (w : WindowCount) (o : Outcome) (next : Counts → Outcome)
    → Fine w o
    → ((c : Counts) → IsWellFormed w c.memory → Fine w (next c))
    → Fine w (and_then o next)
and_then-Fine w (none, c) next f rest = rest c f.1
and_then-Fine w (some e, c) next f rest = absurd (cc (f.0))

-- A window whose size is an int64.
pub record IsInRange (w : WindowCount) : Type 0 where
  pub size : w.size ≤ 9223372036854775807
  pub lateness : w.allowed_lateness ≤ 9223372036854775807

pub fire_time-IsInt64 :
    (w : WindowCount) (start : ℤ) → IsInRange w → IsInt64 start → IsInt64 (fire_time_of w start)
unfolding fire_time_of
fire_time-IsInt64 w start r h = (add_ceil_lem start (w.size - 1) h (omega (arith, r.size))).0

count_one-Fine :
    (w : WindowCount) (key : Bytes) (start : ℤ) (c : Counts) (n : ℤ)
    → IsInRange w
    → IsInt64 start
    → IsWellFormed w c.memory
    → Fine w (count_one w key start c n)
unfolding count_one
count_one-Fine w key start c n r hs wf =
    let k = state_key key start in
    let v = encode_count (increment n) in
    let m = put k v c.memory in
    let f = fire_time_of w start in
    let kept = get-put_ne k (timer_key f key start) [] m (state-ne-timer key key start f start) in
    (
      refl,
      put-IsWellFormed w (timer_key f key start) [] m
          (timer key start v hs (fire_time-IsInt64 w start r hs) refl
            (kept ∙ get-put_self k v c.memory))
          (put-IsWellFormed w k v c.memory
            (count key start hs refl (length-encode_count (increment n))) wf),
    )

pub add_to_window-Fine :
    (w : WindowCount) (x : ℤ) (key : Bytes) (start : ℤ) (c : Counts)
    → IsInRange w
    → IsInt64 start
    → IsWellFormed w c.memory
    → Fine w (add_to_window w x key start c)
unfolding add_to_window
add_to_window-Fine w x key start c r hs wf =
    let (n, e) = current_count_lem w c.memory key start wf in
    if_cases (Fine w) (is_purged w x start) _ _ (λ late. (refl, wf))
      (λ live. rw e (count_one-Fine w key start c n r hs wf))

pub add_to_windows-Fine :
    (w : WindowCount) (x : ℤ) (key : Bytes) (starts : List ℤ) (c : Counts)
    → IsInRange w
    → All IsInt64 starts
    → IsWellFormed w c.memory
    → Fine w (add_to_windows w x key starts c)
unfolding add_to_windows
add_to_windows-Fine w x key [] c r hs wf = (refl, wf)
add_to_windows-Fine w x key (start ∷ starts) c r hs wf =
    and_then-Fine w (add_to_window w x key start c) (add_to_windows w x key starts)
      (add_to_window-Fine w x key start c r hs.0 wf)
      (λ c' wf'. add_to_windows-Fine w x key starts c' r hs.1 wf')

pub process_element-Fine :
    (w : WindowCount) (rec : Record) (c : Counts)
    → IsInRange w
    → IsWellFormed w c.memory
    → Fine w (process_element w rec c)
unfolding process_element
process_element-Fine w rec c r wf =
    let (x, hx, e) = current_watermark_lem w c.memory wf in
    rw e (
      add_to_windows-Fine w x rec.key (windows_for w rec.event_time) c r
        (windows_for-IsInt64 w rec.event_time) wf)
