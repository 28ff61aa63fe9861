-- ===== src/Runtime/EventTime/Generator.antt =====
-- pkg/runtime/source_task.go: what a source subtask sends is on time, if its disorder is bounded.
use tidemark.Prelude.{
  ℕ, ◌+◌, ◌≡◌, ◌≤◌, ◌<◌, refl, sym, ◌⊎◌, inl, inr, ℤ, pos, pos_part, neg_part, ◌≤ℤ◌, ◌<ℤ◌, ltb_ℤ,
  leb_ℤ, max_int64, min_int64, IsInt64, difference, difference_lem, increment, Option, none, some,
  List, [], ◌∷◌, ◌++◌, Bool-cases, arith, subst,
}
use tidemark.Core.{Record, StreamElement, record_element, watermark_element}
use tidemark.Runtime.Gate.Flow.{OnTime}
use tidemark.Runtime.EventTime.{
  sub_floor, WatermarkGenerator, new_watermark_generator, candidate, later, emit_candidate,
  count_element, observe,
}
use tidemark.Runtime.EventTime.Clamping.{sub_floor_lem}

-- What follows a record.
abbrev pub watermark_of : Option ℤ → List StreamElement
watermark_of none = []
watermark_of (some w) = watermark_element w ∷ []

-- What `sourceLoop` sends of a sequence of records: each, and the watermark that it releases.
unfoldable pub with_watermarks : WatermarkGenerator → List Record → List StreamElement
with_watermarks g [] = []
with_watermarks g (r ∷ rs) =
    record_element r ∷ watermark_of (observe g r.event_time).0
    ++ with_watermarks (observe g r.event_time).1 rs

-- Event times are int64s above the least, and none is more than `lag` behind one before it.
abbrev pub Lagging : ℕ → ℤ → List Record → Type 0
Lagging lag seen [] = Unit {0}
Lagging lag seen (r ∷ rs) =
    (min_int64 <ℤ r.event_time)
    × (r.event_time ≤ℤ max_int64)
    × (pos_part seen + neg_part r.event_time ≤ pos_part r.event_time + neg_part seen + lag)
    × Lagging lag (later seen r.event_time) rs

-- How an observation ends: with a watermark or without, and with the event time seen.
observe_cases {ℓ} :
    (P : Option ℤ × WatermarkGenerator → Type ℓ) (g : WatermarkGenerator) (t : ℤ)
    → ((s : ℤ) → P (none, record g { max_event_time = later g.max_event_time t; since_last = s }))
    → (let c = candidate (record g { max_event_time = later g.max_event_time t }) in
        g.last_emitted <ℤ c
        → P (
          some c,
          record g {
            max_event_time = later g.max_event_time t;
            since_last = pos 0;
            last_emitted = c;
          },
        ))
    → P (observe g t)
unfolding observe count_element emit_candidate
observe_cases P g t quiet due =
    let c = candidate (record g { max_event_time = later g.max_event_time t }) in
    elim (Bool-cases (leb_ℤ g.interval_elements (pos 0))) [
      | inl e ↦ rw e (quiet g.since_last)
      | inr e ↦ elim (Bool-cases (ltb_ℤ (increment g.since_last) g.interval_elements)) [
        | inl f ↦ rw (e, f) (quiet (increment g.since_last))
        | inr f ↦ elim (Bool-cases (leb_ℤ c g.last_emitted)) [
          | inl u ↦ rw (e, f, u) (quiet (pos 0))
          | inr u ↦ rw (e, f, u) (due (ground (arith, u)))
        ]
      ]
    ]

-- A lag subtracted from an int64 is exact, or comes to the least int64.
sub_floor-lag :
    (a : ℤ) (l : ℕ)
    → IsInt64 a
    → l ≤ 9223372036854775807
    → (sub_floor a (pos l) ≡ min_int64)
      ⊎ (IsInt64 (sub_floor a (pos l))
          × (pos_part (sub_floor a (pos l)) + (l + neg_part a)
              ≡ neg_part (sub_floor a (pos l)) + pos_part a))
sub_floor-lag a l h le =
    let (inside, below, above) = sub_floor_lem a (pos l) h (omega arith, omega (arith, le)) in
    let d = difference a (pos l) in
    let e = difference_lem a (pos l) in
    elim (Bool-cases (ltb_ℤ d min_int64)) [
      | inl b ↦ inl (below (ground (arith, b)))
      | inr b ↦
          let i : IsInt64 d = ground (arith, b, e, h) in inr (rw (inside i) (i, omega (arith, e)))
    ]

-- More than `lag` before the greatest event time seen.
abbrev Behind : ℕ → ℤ → ℤ → Type 0
Behind lag w seen = pos_part w + neg_part seen + lag < pos_part seen + neg_part w

-- A candidate above the least int64 is more than the lag behind.
candidate-Behind :
    (m : ℤ) (l : ℕ)
    → IsInt64 m
    → l ≤ 9223372036854775807
    → min_int64 <ℤ sub_floor (sub_floor m (pos l)) (pos 1)
    → Behind l (sub_floor (sub_floor m (pos l)) (pos 1)) m
candidate-Behind m l h le up = elim (sub_floor-lag m l h le) [
  | inl e ↦
      elim (sub_floor-lag (sub_floor m (pos l)) 1 (rw e (omega arith, omega arith)) (omega arith)) [
        | inl f ↦ absurd (omega (arith, rw f at up))
        | inr (i, f) ↦ absurd (omega (arith, rw e at f, rw e at i))
      ]
  | inr (i, e) ↦ elim (sub_floor-lag (sub_floor m (pos l)) 1 i (omega arith)) [
    | inl f ↦ absurd (omega (arith, rw f at up))
    | inr (j, f) ↦ omega (arith, e, f)
  ]
]

lag-Behind :
    (m : ℤ) (l : ℕ) (x : ℤ)
    → IsInt64 m
    → l ≤ 9223372036854775807
    → x ≡ pos l
    → min_int64 <ℤ sub_floor (sub_floor m x) (pos 1)
    → Behind l (sub_floor (sub_floor m x) (pos 1)) m
lag-Behind m l x h le e =
    subst
      (λ y.
        min_int64 <ℤ sub_floor (sub_floor m y) (pos 1)
        → Behind l (sub_floor (sub_floor m y) (pos 1)) m)
      (sym e) (candidate-Behind m l h le)

-- The state of a generator whose last watermark is safe.
pub record Ready (lag : ℕ) (g : WatermarkGenerator) : Type 0 where
  lagging : g.max_out_of_orderness ≡ pos lag
  seen : IsInt64 g.max_event_time
  least : min_int64 ≤ℤ g.last_emitted
  safe : (g.last_emitted ≡ min_int64) ⊎ Behind lag g.last_emitted g.max_event_time

later-IsInt64 : (a t : ℤ) → IsInt64 a → IsInt64 t → IsInt64 (later a t)
later-IsInt64 a t h k = ground (arith, h, k)

-- A safe watermark stays so, and is below the next record.
safe-next :
    (lag : ℕ) (w seen t : ℤ)
    → (w ≡ min_int64) ⊎ Behind lag w seen
    → min_int64 <ℤ t
    → pos_part seen + neg_part t ≤ pos_part t + neg_part seen + lag
    → (w <ℤ t) × ((w ≡ min_int64) ⊎ Behind lag w (later seen t))
safe-next lag w seen t (inl e) up near = (rw e up, inl e)
safe-next lag w seen t (inr b) up near = (omega (arith, b, near), inr (ground (arith, b)))

-- A watermark that is released lies above `lo`, and is then the last one.
abbrev pub After : ℤ → Option ℤ × WatermarkGenerator → Type 0
After lo (none, g) = g.last_emitted ≡ lo
After lo (some w, g) = (lo <ℤ w) × (g.last_emitted ≡ w)

-- An event time within the lag is above the last watermark, and the generator stays ready.
pub observe-Ready :
    (lag : ℕ) (g : WatermarkGenerator) (t : ℤ)
    → lag ≤ 9223372036854775807
    → Ready lag g
    → min_int64 <ℤ t
    → t ≤ℤ max_int64
    → pos_part g.max_event_time + neg_part t ≤ pos_part t + neg_part g.max_event_time + lag
    → (g.last_emitted <ℤ t)
      × Ready lag (observe g t).1
      × After g.last_emitted (observe g t)
      × ((observe g t).1.max_event_time ≡ later g.max_event_time t)
observe-Ready lag g t le v up top near =
    let (below, safe) = safe-next lag g.last_emitted g.max_event_time t v.safe up near in
    let seen = later-IsInt64 g.max_event_time t v.seen (omega (arith, up), top) in
    observe_cases
      (λ o.
        (g.last_emitted <ℤ t)
        × Ready lag o.1
        × After g.last_emitted o
        × (o.1.max_event_time ≡ later g.max_event_time t))
      g t
      (λ s. (
        below,
        record { lagging = v.lagging; seen = seen; least = v.least; safe = safe },
        refl,
        refl,
      ))
      (λ higher.
        let over : min_int64 <ℤ candidate (record g { max_event_time = later g.max_event_time t }) =
          omega (arith, higher, v.least) in
        (
          below,
          record {
            lagging = v.lagging;
            seen = seen;
            least = omega (arith, over);
            safe = inr (lag-Behind _ lag _ seen le v.lagging over);
          },
          (higher, refl),
          refl,
        ))

pub new_watermark_generator-Ready :
    (interval : ℤ) (lag : ℕ) → Ready lag (new_watermark_generator interval (pos lag))
unfolding new_watermark_generator
new_watermark_generator-Ready interval lag = record {
  lagging = refl;
  seen = (omega arith, omega arith);
  least = omega arith;
  safe = inl refl;
}

-- A stream that begins with what an observation released.
released-OnTime :
    (lo : ℤ) (x : Option ℤ × WatermarkGenerator) (es : List StreamElement)
    → After lo x
    → OnTime x.1.last_emitted es
    → OnTime lo (watermark_of x.0 ++ es)
released-OnTime lo (none, g) es a h = subst (λ y. OnTime y es) a h
released-OnTime lo (some w, g) es a h = (omega (arith, a.0), subst (λ y. OnTime y es) a.1 h)

with_watermarks-Ready :
    (lag : ℕ) (rs : List Record) (g : WatermarkGenerator)
    → lag ≤ 9223372036854775807
    → Ready lag g
    → Lagging lag g.max_event_time rs
    → OnTime g.last_emitted (with_watermarks g rs)
unfolding with_watermarks
with_watermarks-Ready lag [] g le v h = tt
with_watermarks-Ready lag (r ∷ rs) g le v (up, top, near, rest) =
    let (below, ready, after, seen) = observe-Ready lag g r.event_time le v up top near in
    let x = observe g r.event_time in
    (
      below,
      released-OnTime g.last_emitted x (with_watermarks x.1 rs) after (
          with_watermarks-Ready lag rs x.1 le ready
            (subst (λ m. Lagging lag m rs) (sym seen) rest)),
    )

-- If no event time is more than the lag behind one before it, and all are int64s above the least, a
-- source subtask's records and watermarks are on time: no record follows a watermark that is at or
-- above its event time, and the watermarks do not fall.
pub with_watermarks-OnTime :
    (interval : ℤ) (lag : ℕ) (rs : List Record)
    → lag ≤ 9223372036854775807
    → Lagging lag min_int64 rs
    → OnTime min_int64 (with_watermarks (new_watermark_generator interval (pos lag)) rs)
unfolding new_watermark_generator
with_watermarks-OnTime interval lag rs le h =
    with_watermarks-Ready lag rs (new_watermark_generator interval (pos lag)) le
      (new_watermark_generator-Ready interval lag) h
