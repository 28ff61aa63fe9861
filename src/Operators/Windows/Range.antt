-- ===== src/Operators/Windows/Range.antt =====
-- pkg/operators/window.go: the starts of windows are int64s, whatever the event time.
use tidemark.Prelude.{
  ℕ, zero, suc, ◌/◌, ℤ, pos, IsInt64, min_int64, ltb_ℤ, eqb_ℤ, wrap, wrap-IsInt64, ◌&&◌, [], ◌∷◌,
  All, if_cases, arith,
}
use tidemark.Prelude.Int.{difference}
use tidemark.Operators.Windows.{WindowCount, windows_for, windows_from, sub_floor}

sub_floor-IsInt64 : (a : ℤ) (b : ℕ) → IsInt64 (sub_floor a b)
unfolding sub_floor
sub_floor-IsInt64 a b =
    if_cases IsInt64 (ltb_ℤ (pos 0) (pos b) && ltb_ℤ a (wrap (difference a (pos b)))) min_int64 _
      (λ _. omega arith) (λ _. wrap-IsInt64 (difference a (pos b)))

windows_from-IsInt64 :
    (slide n : ℕ) (start : ℤ) → IsInt64 start → All IsInt64 (windows_from slide n start)
unfolding windows_from
windows_from-IsInt64 slide zero start h = tt
windows_from-IsInt64 slide (suc n) start h =
    if_cases (All IsInt64) (eqb_ℤ (sub_floor start slide) start) (start ∷ [])
      (start ∷ windows_from slide n (sub_floor start slide)) (λ _. (h, tt))
      (λ _.
        (h, windows_from-IsInt64 slide n (sub_floor start slide) (sub_floor-IsInt64 start slide)))

pub windows_for-IsInt64 : (w : WindowCount) (t : ℤ) → All IsInt64 (windows_for w t)
unfolding windows_for
windows_for-IsInt64 w t = windows_from-IsInt64 w.slide (w.size / w.slide) _ (sub_floor-IsInt64 t _)
