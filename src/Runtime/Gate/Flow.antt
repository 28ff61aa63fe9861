-- ===== src/Runtime/Gate/Flow.antt =====
-- pkg/runtime/gate.go: event time along one stream. A watermark w says that no record with event
-- time at most w follows.
use tidemark.Prelude.{
  ℕ, zero, suc, ◌<◌, ◌≡◌, refl, Bool, false, List, [], ◌∷◌, ◌++◌, ℤ, ◌≤ℤ◌, ◌<ℤ◌, arith,
}
use tidemark.Core.{
  Record, Barrier, StreamElement, record_element, watermark_element, barrier_element,
  end_of_stream_element,
}
use tidemark.Runtime.Gate.{min_live}

-- From a watermark `lo` on, the stream's watermarks do not fall, its records lie above the last of
-- them, and nothing follows an end of stream.
abbrev pub OnTime : ℤ → List StreamElement → Type 0
OnTime lo [] = Unit {0}
OnTime lo (record_element r ∷ es) = (lo <ℤ r.event_time) × OnTime lo es
OnTime lo (watermark_element w ∷ es) = (lo ≤ℤ w) × OnTime w es
OnTime lo (barrier_element b ∷ es) = OnTime lo es
OnTime lo (end_of_stream_element ∷ es) = es ≡ []

-- The same of a stream that has not ended, with watermarks that rise strictly up to `hi`.
abbrev pub Rising : ℤ → List StreamElement → ℤ → Type 0
Rising lo [] hi = lo ≡ hi
Rising lo (record_element r ∷ es) hi = (lo <ℤ r.event_time) × Rising lo es hi
Rising lo (watermark_element w ∷ es) hi = (lo <ℤ w) × Rising w es hi
Rising lo (barrier_element b ∷ es) hi = Rising lo es hi
Rising lo (end_of_stream_element ∷ es) hi = ⊥

pub Rising-record :
    (lo : ℤ) (es : List StreamElement) (hi : ℤ) (r : Record)
    → Rising lo es hi
    → hi <ℤ r.event_time
    → Rising lo (es ++ record_element r ∷ []) hi
Rising-record lo [] hi r h a = (rw h a, h)
Rising-record lo (record_element s ∷ es) hi r h a = (h.0, Rising-record lo es hi r h.1 a)
Rising-record lo (watermark_element w ∷ es) hi r h a = (h.0, Rising-record w es hi r h.1 a)
Rising-record lo (barrier_element b ∷ es) hi r h a = Rising-record lo es hi r h a
Rising-record lo (end_of_stream_element ∷ es) hi r h a = h

pub Rising-watermark :
    (lo : ℤ) (es : List StreamElement) (hi m : ℤ)
    → Rising lo es hi
    → hi <ℤ m
    → Rising lo (es ++ watermark_element m ∷ []) m
Rising-watermark lo [] hi m h a = (rw h a, refl)
Rising-watermark lo (record_element s ∷ es) hi m h a = (h.0, Rising-watermark lo es hi m h.1 a)
Rising-watermark lo (watermark_element w ∷ es) hi m h a = (h.0, Rising-watermark w es hi m h.1 a)
Rising-watermark lo (barrier_element b ∷ es) hi m h a = Rising-watermark lo es hi m h a
Rising-watermark lo (end_of_stream_element ∷ es) hi m h a = h

pub Rising-barrier :
    (lo : ℤ) (es : List StreamElement) (hi : ℤ) (b : Barrier)
    → Rising lo es hi
    → Rising lo (es ++ barrier_element b ∷ []) hi
Rising-barrier lo [] hi b h = h
Rising-barrier lo (record_element s ∷ es) hi b h = (h.0, Rising-barrier lo es hi b h.1)
Rising-barrier lo (watermark_element w ∷ es) hi b h = (h.0, Rising-barrier w es hi b h.1)
Rising-barrier lo (barrier_element c ∷ es) hi b h = Rising-barrier lo es hi b h
Rising-barrier lo (end_of_stream_element ∷ es) hi b h = h

-- A rising stream is on time, also with an end of stream behind it.
pub Rising-OnTime : (lo : ℤ) (es : List StreamElement) (hi : ℤ) → Rising lo es hi → OnTime lo es
Rising-OnTime lo [] hi h = tt
Rising-OnTime lo (record_element s ∷ es) hi h = (h.0, Rising-OnTime lo es hi h.1)
Rising-OnTime lo (watermark_element w ∷ es) hi h = (omega (arith, h.0), Rising-OnTime w es hi h.1)
Rising-OnTime lo (barrier_element c ∷ es) hi h = Rising-OnTime lo es hi h
Rising-OnTime lo (end_of_stream_element ∷ es) hi h = absurd h

pub Rising-end :
    (lo : ℤ) (es : List StreamElement) (hi : ℤ)
    → Rising lo es hi
    → OnTime lo (es ++ end_of_stream_element ∷ [])
Rising-end lo [] hi h = refl
Rising-end lo (record_element s ∷ es) hi h = (h.0, Rising-end lo es hi h.1)
Rising-end lo (watermark_element w ∷ es) hi h = (omega (arith, h.0), Rising-end w es hi h.1)
Rising-end lo (barrier_element c ∷ es) hi h = Rising-end lo es hi h
Rising-end lo (end_of_stream_element ∷ es) hi h = absurd h

-- The minimum of `advance` is at most every live watermark.
pub min_live-le :
    (eos : ℕ → Bool) (ws : ℕ → ℤ) (n i : ℕ) → i < n → eos i ≡ false → min_live eos ws n ≤ℤ ws i
unfolding min_live
min_live-le eos ws zero i lt live = absurd (omega arith)
min_live-le eos ws (suc n) i lt live = ground (arith, min_live-le eos ws n i)
