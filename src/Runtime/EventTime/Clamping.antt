-- ===== src/Runtime/EventTime/Clamping.antt =====
-- pkg/runtime/source_task.go: `subFloor` is exact, or clamps.
use tidemark.Prelude.{
  ℕ, ◌+◌, ◌≡◌, ◌<◌, ℤ, pos, negsuc, pos_part, neg_part, ◌<ℤ◌, max_int64, min_int64, IsInt64,
  difference, difference_lem, wrap, wrap_inside, wrap_above, wrap_below, arith,
}
use tidemark.Runtime.EventTime.{clamp, sub_floor}

-- That `e` is `a - b`.
abbrev Differs : ℤ → ℤ → ℤ → Type 0
Differs a b e = pos_part e + (pos_part b + neg_part a) ≡ neg_part e + (pos_part a + neg_part b)

clamp-inside : (a b e : ℤ) → Differs a b e → clamp a b e ≡ e
clamp-inside (pos a) (pos b) e h = ground (arith, h)
clamp-inside (pos a) (negsuc b) e h = ground (arith, h)
clamp-inside (negsuc a) (pos b) e h = ground (arith, h)
clamp-inside (negsuc a) (negsuc b) e h = ground (arith, h)

clamp-above :
    (a b : ℤ) (n : ℕ)
    → Differs a b (pos n)
    → IsInt64 a
    → IsInt64 b
    → 9223372036854775807 < n
    → clamp a b (wrap (pos n)) ≡ max_int64
clamp-above (pos a) (pos b) n h ha hb lt = absurd (omega arith)
clamp-above (negsuc a) (pos b) n h ha hb lt = absurd (omega arith)
clamp-above (negsuc a) (negsuc b) n h ha hb lt = absurd (omega arith)
clamp-above (pos a) (negsuc b) n h ha hb lt = rw (wrap_above n lt (omega arith)) (ground arith)

clamp-below :
    (a b : ℤ) (n : ℕ)
    → Differs a b (negsuc n)
    → IsInt64 a
    → IsInt64 b
    → 9223372036854775807 < n
    → clamp a b (wrap (negsuc n)) ≡ min_int64
clamp-below (pos a) (pos b) n h ha hb lt = absurd (omega arith)
clamp-below (pos a) (negsuc b) n h ha hb lt = absurd (omega arith)
clamp-below (negsuc a) (negsuc b) n h ha hb lt = absurd (omega arith)
clamp-below (negsuc a) (pos b) n h ha hb lt = rw (wrap_below n lt (omega arith)) (ground arith)

clamp_lem :
    (a b e : ℤ)
    → Differs a b e
    → IsInt64 a
    → IsInt64 b
    → (IsInt64 e → clamp a b (wrap e) ≡ e)
      × (e <ℤ min_int64 → clamp a b (wrap e) ≡ min_int64)
      × (max_int64 <ℤ e → clamp a b (wrap e) ≡ max_int64)
clamp_lem a b (pos n) h ha hb = (
  λ i. rw (wrap_inside (pos n) i) (clamp-inside a b (pos n) h),
  λ lt. absurd (omega arith),
  λ lt. clamp-above a b n h ha hb (omega arith),
)
clamp_lem a b (negsuc n) h ha hb = (
  λ i. rw (wrap_inside (negsuc n) i) (clamp-inside a b (negsuc n) h),
  λ lt. clamp-below a b n h ha hb (omega arith),
  λ lt. absurd (omega arith),
)

-- On int64s, `subFloor` is the exact difference if that is an int64, and otherwise the end of the
-- int64 range that the difference lies beyond.
pub sub_floor_lem :
    (a b : ℤ)
    → IsInt64 a
    → IsInt64 b
    → let e = difference a b in
      (IsInt64 e → sub_floor a b ≡ e)
      × (e <ℤ min_int64 → sub_floor a b ≡ min_int64)
      × (max_int64 <ℤ e → sub_floor a b ≡ max_int64)
unfolding sub_floor
sub_floor_lem a b ha hb = clamp_lem a b (difference a b) (difference_lem a b) ha hb
