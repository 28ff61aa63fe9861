-- ===== src/Operators/Windows.antt =====
-- pkg/operators/window.go: which windows an event time is in, when they fire and when they are purged.
pub mod Assignment
pub mod Firing
pub mod Range
mod Tests
use tidemark.Prelude.{
  ℕ, zero, suc, ◌+◌, ◌-◌, ◌/◌, ◌%◌, ◌==◌, ℤ, pos, negsuc, negate, pos_part, neg_part, ltb_ℤ, leb_ℤ,
  eqb_ℤ, max_int64, min_int64, difference, wrap, Bool, ◌&&◌, not, Option, none, some, List, [], ◌∷◌,
  if◌then◌else◌,
}

-- The settings of an operator, as NewSlidingCount accepts them: it panics on any others.
pub record WindowCount : Type 0 where
  pub size : ℕ
  pub slide : ℕ
  pub allowed_lateness : ℕ

unfoldable pub new_sliding_count : ℤ → ℤ → ℤ → Option WindowCount
new_sliding_count size slide lateness =
    if leb_ℤ size (pos 0)
    then none
    else if leb_ℤ slide (pos 0)
    then none
    else if not (pos_part size % pos_part slide == 0)
    then none
    else if ltb_ℤ lateness (pos 0)
    then none
    else some (record {
      size = pos_part size;
      slide = pos_part slide;
      allowed_lateness = pos_part lateness;
    })

unfoldable pub new_tumbling_count : ℤ → ℤ → Option WindowCount
new_tumbling_count size lateness = new_sliding_count size size lateness

-- Go's remainder by a positive number: it has the sign of the dividend.
abbrev pub remainder : ℤ → ℕ → ℤ
remainder (pos n) b = pos (n % b)
remainder (negsuc n) b = negate (suc n % b)

unfoldable pub floor_mod : ℤ → ℕ → ℤ
floor_mod a b =
    if ltb_ℤ (remainder a b) (pos 0) then difference (remainder a b) (negate b) else remainder a b

-- The second operand of these two is a slide, a size, a lateness or a remainder: never negative.
unfoldable pub sub_floor : ℤ → ℕ → ℤ
sub_floor a b =
    let d = wrap (difference a (pos b)) in
    if ltb_ℤ (pos 0) (pos b) && ltb_ℤ a d then min_int64 else d

unfoldable pub add_ceil : ℤ → ℕ → ℤ
add_ceil a b =
    let s = wrap (difference a (negate b)) in
    if ltb_ℤ (pos 0) (pos b) && ltb_ℤ s a then max_int64 else s

-- The loop of `windowsFor`, for `n` windows from `start` on.
unfoldable pub windows_from : ℕ → ℕ → ℤ → List ℤ
windows_from slide zero start = []
windows_from slide (suc n) start =
    let rest = windows_from slide n (sub_floor start slide) in
    if eqb_ℤ (sub_floor start slide) start then start ∷ [] else start ∷ rest

unfoldable pub windows_for : WindowCount → ℤ → List ℤ
windows_for w t =
    windows_from w.slide (w.size / w.slide) (sub_floor t (pos_part (floor_mod t w.slide)))

unfoldable pub fire_time_of : WindowCount → ℤ → ℤ
fire_time_of w start = add_ceil start (w.size - 1)

unfoldable pub is_purged : WindowCount → ℤ → ℤ → Bool
is_purged w watermark start = ltb_ℤ (add_ceil (add_ceil start w.size) w.allowed_lateness) watermark
