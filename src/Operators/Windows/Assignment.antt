-- ===== src/Operators/Windows/Assignment.antt =====
-- pkg/operators/window.go: the windows of an event time are those that contain it.
use native.Mathlib.Nat.{
  mod-lt, mod-eq_of_lt, div-add-mod', div-lt_iff_lt-mul, mul-le-mul_right, add-mul-mod_self_right,
}
use tidemark.Prelude.{
  ℕ, zero, suc, ◌+◌, ◌-◌, ◌*◌, ◌/◌, ◌%◌, ◌≡◌, ◌≤◌, ◌<◌, refl, sym, ap, ◌∙◌, subst, ℤ, pos, negsuc,
  negate, pos_part, neg_part, ltb_ℤ, eqb_ℤ, ◌≤ℤ◌, min_int64, IsInt64, ≤ℤ_antisymm, difference_lem,
  wrap_inside, false, some, List, ◌∷◌, length, get_elem?, if◌then◌else◌, arith,
}
use tidemark.Prelude.Int.{difference}
use tidemark.Operators.Windows.{WindowCount, floor_mod, sub_floor, windows_from, windows_for}

-- `r` is `a` modulo `b`: `a + q * b = k * b + r` for some `q` and `k`.
pub record Residue (a : ℤ) (b r : ℕ) : Type 0 where
  pub small : r < b
  pub up : ℕ
  pub down : ℕ
  pub same : pos_part a + up * b ≡ neg_part a + (down * b + r)

floor_mod-pos : (n b : ℕ) → 0 < b → (floor_mod (pos n) b ≡ pos (n % b)) × Residue (pos n) b (n % b)
unfolding floor_mod
floor_mod-pos n b h = (
  ground arith,
  record { small = mod-lt n h; up = 0; down = n / b; same = omega (arith, div-add-mod' n b) },
)

-- The two ends of a negative dividend.
negative_cases :
    (n b m : ℕ)
    → 0 < b
    → m < b
    → suc n / b * b + m ≡ suc n
    → (r : ℕ) × ((if ltb_ℤ (negate m) (pos 0) then difference (negate m) (negate b) else negate m)
        ≡ pos r)
      × Residue (negsuc n) b r
unfolding difference
negative_cases n b zero h lt e =
    (0, ground arith, record { small = h; up = suc n / b; down = 0; same = omega (arith, e) })
negative_cases n zero (suc j) h lt e = absurd (omega arith)
negative_cases n (suc c) (suc j) h lt e = (
  c - j,
  ground arith,
  record { small = omega arith; up = suc (suc n / suc c); down = 0; same = omega (arith, e) },
)

-- `floorMod` by a positive number is the residue of its dividend, of either sign.
floor_mod_lem : (a : ℤ) (b : ℕ) → 0 < b → (r : ℕ) × (floor_mod a b ≡ pos r) × Residue a b r
unfolding floor_mod
floor_mod_lem (pos n) b h = let (e, u) = floor_mod-pos n b h in (n % b, e, u)
floor_mod_lem (negsuc n) b h =
    negative_cases n b (suc n % b) h (mod-lt (suc n) h) (div-add-mod' (suc n) b)

-- A number has one residue.
Residue-unique :
    (a c : ℤ) (b r s d : ℕ)
    → Residue a b r
    → Residue c b s
    → pos_part a + neg_part c ≡ pos_part c + neg_part a + d
    → (s + d) % b ≡ r
Residue-unique a c b r s d u v e =
    sym (add-mul-mod_self_right (s + d) (v.down + u.up) b)
    ∙ ap (λ n. n % b) (omega (arith, u.same, v.same, e))
    ∙ add-mul-mod_self_right r (u.down + v.up) b
    ∙ mod-eq_of_lt u.small

-- Subtracting a natural number, where the result is an int64.
sub_floor_exact :
    (a : ℤ) (b : ℕ)
    → IsInt64 a
    → pos_part min_int64 + neg_part a + b ≤ pos_part a + neg_part min_int64
    → (IsInt64 (sub_floor a b))
      × (pos_part (sub_floor a b) + neg_part a + b ≡ pos_part a + neg_part (sub_floor a b))
unfolding sub_floor
sub_floor_exact a b h room =
    let d = difference a (pos b) in
    let e = difference_lem a (pos b) in
    let i : IsInt64 d = (omega (arith, e, room), omega (arith, e, h)) in
    let up : ltb_ℤ a d ≡ false = ground (arith, e) in
    let same : sub_floor a b ≡ d = rw (wrap_inside d i, up) (ground arith) in
    rw same (i, omega (arith, e))

-- `w` lies `d` before `a`.
abbrev pub Before : ℤ → ℕ → ℤ → Type 0
Before w d a = pos_part w + neg_part a + d ≡ pos_part a + neg_part w

-- There is room for `d` more before `a` in the int64s.
abbrev pub Room : ℕ → ℤ → Type 0
Room d a = neg_part a + d ≤ pos_part a + 9223372036854775808

Before-unique : (v w : ℤ) (d : ℕ) (a : ℤ) → Before v d a → Before w d a → v ≡ w
Before-unique v w d a p q = ≤ℤ_antisymm v w (omega (arith, p, q)) (omega (arith, p, q))

-- The `i`-th of a list lies `i` slides before `start`.
abbrev pub Spaced : ℕ → ℤ → List ℤ → ℕ → Type 0
Spaced slide start ws i = (w : ℤ) × (get_elem? ws i ≡ some w) × Before w (i * slide) start

cons-Spaced :
    (slide n : ℕ) (start next : ℤ) (ws : List ℤ)
    → Before next slide start
    → ((i : ℕ) → i < n → Spaced slide next ws i)
    → (i : ℕ) → i < suc n
    → Spaced slide start (start ∷ ws) i
cons-Spaced slide n start next ws before each zero lt = (start, refl, omega arith)
cons-Spaced slide n start next ws before each (suc i) lt =
    let (w, got, far) = each i (omega arith) in (w, got, omega (arith, far, before))

-- The windows from a start on are `n`, each a slide before the last.
windows_from_lem :
    (slide n : ℕ) (start : ℤ)
    → 0 < slide
    → IsInt64 start
    → Room (n * slide) start
    → (length (windows_from slide n start) ≡ n)
      × ((i : ℕ) → i < n → Spaced slide start (windows_from slide n start) i)
unfolding windows_from
windows_from_lem slide zero start h v room = (refl, λ i lt. absurd (omega arith))
windows_from_lem slide (suc n) start h v room =
    let (inside, before) = sub_floor_exact start slide v (omega (arith, room)) in
    let next = sub_floor start slide in
    let moved : eqb_ℤ next start ≡ false = ground (arith, before) in
    let (many, each) = windows_from_lem slide n next h inside (omega (arith, room, before)) in
    rw moved (
      ap suc many,
      cons-Spaced slide n start next (windows_from slide n next) (omega (arith, before)) each,
    )

aligned_window :
    (t s start : ℤ) (b r i : ℕ)
    → 0 < b
    → Residue t b r
    → Before start r t
    → Before s (i * b) start
    → Residue s b 0
aligned_window t s start b r i h u near far = record {
  small = h;
  up = u.up + i;
  down = u.down;
  same = omega (arith, u.same, near, far);
}

window_contains :
    (t s start : ℤ) (b r i n : ℕ)
    → r < b
    → i < n
    → Before start r t
    → Before s (i * b) start
    → pos_part t + neg_part s < pos_part s + neg_part t + n * b
window_contains t s start b r i n small lt near far =
    omega (arith, mul-le-mul_right b lt, small, near, far)

-- An aligned start that is `d` before the event time is the one of number `d / slide`.
window_listed :
    (t s start : ℤ) (b r n d : ℕ) (ws : List ℤ)
    → 0 < b
    → Residue t b r
    → Before start r t
    → ((i : ℕ) → i < n → Spaced b start ws i)
    → Residue s b 0
    → Before s d t
    → d < n * b
    → (i : ℕ) × (i < n) × (get_elem? ws i ≡ some s)
window_listed t s start b r n d ws h u near each aligned at lt =
    let left : d % b ≡ r =
      ap (λ x. x % b) (omega arith) ∙ Residue-unique t s b r 0 d u aligned (omega (arith, at)) in
    let inside : d / b < n = (div-lt_iff_lt-mul h).1 lt in
    let (w, got, far) = each (d / b) inside in
    let same : w ≡ s =
      Before-unique w s d t (omega (arith, div-add-mod' d b, left, near, far)) at in
    (d / b, inside, got ∙ ap some same)

-- While the windows lie in the int64s: `windowsFor` gives `size / slide` windows, each starts at a
-- multiple of the slide and contains the event time, and every such window is among them.
pub windows_for_lem :
    (w : WindowCount) (t : ℤ)
    → 0 < w.slide
    → w.size % w.slide ≡ 0
    → IsInt64 t
    → Room (w.size + w.slide) t
    → let ws = windows_for w t in
      (length ws ≡ w.size / w.slide)
      × ((i : ℕ)
          → i < w.size / w.slide
          → (s : ℤ) × (get_elem? ws i ≡ some s)
            × Residue s w.slide 0
            × (s ≤ℤ t)
            × (pos_part t + neg_part s < pos_part s + neg_part t + w.size))
      × ((s : ℤ)
          → Residue s w.slide 0
          → s ≤ℤ t
          → pos_part t + neg_part s < pos_part s + neg_part t + w.size
          → (i : ℕ) × (i < w.size / w.slide) × (get_elem? ws i ≡ some s))
unfolding windows_for
windows_for_lem w t h whole v room =
    let n = w.size / w.slide in
    let sized : w.size ≡ n * w.slide = omega (arith, div-add-mod' w.size w.slide, whole) in
    let (r, e, u) = floor_mod_lem t w.slide h in
    let (inside, before) = sub_floor_exact t r v (omega (arith, room, u.small)) in
    let start = sub_floor t r in
    let (many, each) =
      windows_from_lem w.slide n start h inside (omega (arith, room, before, u.small, sized)) in
    rw e (
      many,
      (λ i lt.
          let (s, got, far) = each i lt in
          (
            s,
            got,
            aligned_window t s start w.slide r i h u before far,
            omega (arith, far, before),
            subst (λ z. pos_part t + neg_part s < pos_part s + neg_part t + z) (sym sized)
                (window_contains t s start w.slide r i n u.small lt before far),
          )),
      λ s aligned le lt.
          window_listed t s start w.slide r n
            ((pos_part t + neg_part s) - (pos_part s + neg_part t)) (windows_from w.slide n start) h
            u before each aligned (omega (arith, le)) (omega (arith, le, lt, sized)),
    )
