-- ===== src/Operators/Counting/Reference.antt =====
-- pkg/operators/window.go: what the counts count. `seen` is all the records of a run, latest first.
use tidemark.Prelude.{
  ℕ, zero, suc, ◌+◌, ◌≡◌, ◌≢◌, ◌≤◌, refl, sym, ap, ◌∙◌, subst, ℤ, pos, negsuc, IsInt64, eqb_ℤ,
  eqb_ℤ_iff, increment, increment-pos, Bool, true, false, Option, none, some, List, [], ◌∷◌, All,
  if_cases, if◌then◌else◌, inl, inr, Bool-cases, arith,
}
use tidemark.Core.{Record}
use tidemark.State.Keyed.{Bytes, bytes_eq, get, put}
use tidemark.State.Keyed.Order.{bytes_eq_iff}
use tidemark.State.Keyed.Laws.{get-put_self, get-put_ne}
use tidemark.Operators.Windows.{WindowCount, windows_for, fire_time_of, is_purged}
use tidemark.Operators.Layout.{ok, state_key, timer_key, encode_count}
use tidemark.Operators.Counting.{
  Counts, Outcome, current_count, count_or_zero, count_one, add_to_window, add_to_windows,
}
use tidemark.Operators.Layout.Keys.{state_key-injective, decode_count-encode_count}
use tidemark.Operators.Counting.Forms.{IsWellFormed, state-ne-timer}
use tidemark.Operators.Counting.Invariant.{current_count_lem, IsInRange, add_to_window-Fine}
use tidemark.Operators.Counting.Watermark.{and_then_good}
use tidemark.Operators.Counting.Firing.{number, count_at}

-- How often a start is among the windows of one record.
unfoldable pub occurrences : ℤ → List ℤ → ℕ
occurrences start [] = 0
occurrences start (s ∷ ss) = let n = occurrences start ss in if eqb_ℤ s start then suc n else n

-- How many of the records have the key and are in the window.
unfoldable pub hits : WindowCount → Bytes → ℤ → List Record → ℕ
hits w key start [] = 0
hits w key start (rec ∷ seen) =
    let n = hits w key start seen in
    if bytes_eq rec.key key then occurrences start (windows_for w rec.event_time) + n else n

-- An int64 that was incremented so often.
unfoldable pub times : ℕ → ℤ
times zero = pos 0
times (suc n) = increment (times n)

pub times-pos : (n : ℕ) → n ≤ 9223372036854775807 → times n ≡ pos n
unfolding times
times-pos zero h = refl
times-pos (suc n) h =
    ap increment (times-pos n (omega (arith, h))) ∙ increment-pos n (omega (arith, h))

increment-IsInt64 : (a : ℤ) → IsInt64 a → IsInt64 (increment a)
increment-IsInt64 (pos n) h = ground (arith, h)
increment-IsInt64 (negsuc zero) h = omega arith
increment-IsInt64 (negsuc (suc n)) h = ground (arith, h)

pub times-IsInt64 : (n : ℕ) → IsInt64 (times n)
unfolding times
times-IsInt64 zero = omega arith
times-IsInt64 (suc n) = increment-IsInt64 (times n) (times-IsInt64 n)

-- The count of a window, as the operator would read it.
abbrev pub counted : Counts → Bytes → ℤ → ℤ
counted c key start = count_at (get (state_key key start) c.memory)

number-count_or_zero : (o : Option Bytes) → count_at o ≡ number (count_or_zero o)
unfolding count_or_zero count_at number
number-count_or_zero none = refl
number-count_or_zero (some v) = refl

-- What the operator reads is what is there.
current_count-counted :
    (c : Counts) (key : Bytes) (start n : ℤ)
    → current_count (state_key key start) c.memory ≡ ok n
    → counted c key start ≡ n
unfolding current_count number
current_count-counted c key start n h =
    number-count_or_zero (get (state_key key start) c.memory) ∙ ap number h

count_at-encode_count : (n : ℤ) → IsInt64 n → count_at (some (encode_count n)) ≡ n
unfolding count_at number
count_at-encode_count n h = ap number (decode_count-encode_count n h)

times-suc : (n : ℕ) → times (1 + n) ≡ increment (times n)
unfolding times
times-suc n = let e : 1 + n ≡ suc n = omega arith in ap times e

zero-add : (n : ℕ) → n ≡ 0 + n
zero-add n = omega arith

added-none : (b : Bool) (n : ℕ) → n ≡ (if b then 0 else 0) + n
added-none true n = omega arith
added-none false n = omega arith

added-one :
    (b e : Bool) (occ n : ℕ)
    → (if b then occ else 0) + ((if b then if e then 1 else 0 else 0) + n)
      ≡ (if b then if e then suc occ else occ else 0) + n
added-one true true occ n = omega arith
added-one true false occ n = omega arith
added-one false e occ n = omega arith

module _ (w : WindowCount) (x : ℤ) (key : Bytes) where
  -- The window that is counted, and any other.
  count_one_self :
      (start n : ℤ) (c : Counts)
      → IsInt64 (increment n)
      → counted (count_one w key start c n).1 key start ≡ increment n
  unfolding count_one
  count_one_self start n c h =
      let k = state_key key start in
      let f = fire_time_of w start in
      let m = put k (encode_count (increment n)) c.memory in
      ap count_at (
        get-put_ne k (timer_key f key start) [] m (state-ne-timer key key start f start)
        ∙ get-put_self k (encode_count (increment n)) c.memory)
      ∙ count_at-encode_count (increment n) h

  count_one_other :
      (k : Bytes) (start s n : ℤ) (c : Counts)
      → state_key k start ≢ state_key key s
      → counted (count_one w key s c n).1 k start ≡ counted c k start
  unfolding count_one
  count_one_other k start s n c ne =
      let f = fire_time_of w s in
      let m = put (state_key key s) (encode_count (increment n)) c.memory in
      ap count_at (
        get-put_ne (state_key k start) (timer_key f key s) [] m (state-ne-timer k key start f s)
        ∙ get-put_ne (state_key k start) (state_key key s) (encode_count (increment n)) c.memory ne)

  add_self :
      (start : ℤ) (c : Counts)
      → IsInt64 (counted c key start)
      → IsWellFormed w c.memory
      → is_purged w x start ≡ false
      → counted (add_to_window w x key start c).1 key start ≡ increment (counted c key start)
  unfolding add_to_window
  add_self start c hn wf live =
      let (n, e) = current_count_lem w c.memory key start wf in
      let same : counted c key start ≡ n = current_count-counted c key start n e in
      rw (live, e, same) (count_one_self start n c (increment-IsInt64 n (subst IsInt64 same hn)))

  add_other :
      (k : Bytes) (start s : ℤ) (c : Counts)
      → state_key k start ≢ state_key key s
      → IsWellFormed w c.memory
      → counted (add_to_window w x key s c).1 k start ≡ counted c k start
  unfolding add_to_window
  add_other k start s c ne wf =
      let (n, e) = current_count_lem w c.memory key s wf in
      if_cases (λ (o : Outcome). counted o.1 k start ≡ counted c k start) (is_purged w x s) _ _
        (λ late. refl) (λ live. rw e (count_one_other k start s n c ne))

  -- One window of one record.
  add_one-counted :
      (k : Bytes) (start s : ℤ) (n : ℕ) (c : Counts)
      → IsInt64 start
      → IsInt64 s
      → is_purged w x start ≡ false
      → IsWellFormed w c.memory
      → counted c k start ≡ times n
      → counted (add_to_window w x key s c).1 k start
        ≡ times ((if bytes_eq key k then if eqb_ℤ s start then 1 else 0 else 0) + n)
  add_one-counted k start s n c hs ht live wf e = elim (Bool-cases (bytes_eq key k)) [
    | inr differs ↦
        let ne : state_key k start ≢ state_key key s = λ p. absurd (
          cc (
            differs,
            (bytes_eq_iff key k).1 (sym (state_key-injective k key start s hs ht p).0),
          )) in
        rw differs (add_other k start s c ne wf ∙ e ∙ ap times (zero-add n))
    | inl same ↦ elim (Bool-cases (eqb_ℤ s start)) [
      | inr differs ↦
          let ne : state_key k start ≢ state_key key s = λ p. absurd (
            cc (
              differs,
              (eqb_ℤ_iff s start).1 (sym (state_key-injective k key start s hs ht p).1),
            )) in
          rw (same, differs) (add_other k start s c ne wf ∙ e ∙ ap times (zero-add n))
      | inl here ↦
          let one : times (1 + n) ≡ increment (times n) = times-suc n in
          rw (same, here)
            (let at_key : counted c key start ≡ times n =
                ap (λ j. counted c j start) ((bytes_eq_iff key k).0 same) ∙ e in
              ap (λ j. counted (add_to_window w x key s c).1 j start)
                (sym ((bytes_eq_iff key k).0 same))
              ∙ ap (λ t. counted (add_to_window w x key t c).1 key start)
                  ((eqb_ℤ_iff s start).0 here)
              ∙ add_self start c (subst IsInt64 (sym at_key) (times-IsInt64 n)) wf live
              ∙ ap increment at_key
              ∙ sym one)
    ]
  ]

  -- All the windows of one record: a count grows by how often its window is among them.
  pub add_to_windows-counted :
      (k : Bytes) (start : ℤ) (starts : List ℤ) (n : ℕ) (c : Counts)
      → IsInRange w
      → IsInt64 start
      → All IsInt64 starts
      → is_purged w x start ≡ false
      → IsWellFormed w c.memory
      → counted c k start ≡ times n
      → counted (add_to_windows w x key starts c).1 k start
        ≡ times ((if bytes_eq key k then occurrences start starts else 0) + n)
  unfolding add_to_windows occurrences
  add_to_windows-counted k start [] n c r hs hss live wf e =
      e ∙ ap times (added-none (bytes_eq key k) n)
  add_to_windows-counted k start (s ∷ starts) n c r hs hss live wf e =
      let o = add_to_window w x key s c in
      let (good, wf') = add_to_window-Fine w x key s c r hss.0 wf in
      let next = add_one-counted k start s n c hs hss.0 live wf e in
      let one = if bytes_eq key k then if eqb_ℤ s start then 1 else 0 else 0 in
      rw (and_then_good o (add_to_windows w x key starts) good) (
        add_to_windows-counted k start starts (one + n) o.1 r hs hss.1 live wf' next
        ∙ ap times (added-one (bytes_eq key k) (eqb_ℤ s start) (occurrences start starts) n))
