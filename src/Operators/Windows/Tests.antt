-- ===== src/Operators/Windows/Tests.antt =====
-- pkg/operators/window.go: windows of ten every five, and an event time before 1970.
use tidemark.Prelude.{
  ℕ, ◌+◌, ◌/◌, ◌≡◌, ◌<◌, refl, ℤ, pos, negsuc, pos_part, neg_part, ◌≤ℤ◌, some, length, get_elem?,
  true, arith,
}
use tidemark.Prelude.Int.{wrap, to_int64, difference}
use tidemark.Operators.Windows.{WindowCount, windows_for, add_ceil, fire_time_of, is_purged}
use tidemark.Operators.Windows.Firing.{is_purged-fire_time_of}
use tidemark.Operators.Windows.Assignment.{Residue, windows_for_lem}

abbrev sliding : WindowCount
sliding = record { size = 10; slide = 5; allowed_lateness = 0 }

windows_for_lem_example :
    let t = negsuc 6 in
    let ws = windows_for sliding t in
    (length ws ≡ 10 / 5)
    × ((i : ℕ)
        → i < 10 / 5
        → (s : ℤ) × (get_elem? ws i ≡ some s)
          × Residue s 5 0
          × (s ≤ℤ t)
          × (pos_part t + neg_part s < pos_part s + neg_part t + 10))
    × ((s : ℤ)
        → Residue s 5 0
        → s ≤ℤ t
        → pos_part t + neg_part s < pos_part s + neg_part t + 10
        → (i : ℕ) × (i < 10 / 5) × (get_elem? ws i ≡ some s))
windows_for_lem_example =
    windows_for_lem sliding (negsuc 6) (omega arith) (omega arith) (omega arith, omega arith)
      (omega arith)

purged : is_purged sliding (pos 16) (pos 5) ≡ true
unfolding is_purged add_ceil wrap to_int64 difference
purged = refl

is_purged-fire_time_of_example : fire_time_of sliding (pos 5) ≤ℤ pos 16
is_purged-fire_time_of_example =
    is_purged-fire_time_of sliding (pos 16) (pos 5) (omega arith, omega arith) (omega arith)
      (omega arith) purged
