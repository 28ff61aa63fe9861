-- ===== src/State/Keyed/Visits.antt =====
-- pkg/state/state.go: the entries that `Iterate` visits.
use tidemark.Prelude.{
  ◌≡◌, ◌≢◌, refl, sym, ap, subst, true, some, [], ◌∷◌, All, inl, inr, Bool-cases,
}
use tidemark.State.Encoding.Order.{sorts_before}
use tidemark.State.Keyed.{Bytes, Memory, bytes_eq, get}
use tidemark.State.Keyed.Order.{bytes_eq_iff, sorts_before_irrefl, Below, IsSorted}
use tidemark.State.Keyed.Laws.{bytes_eq_refl, bytes_eq_ne}

-- The entries are in the memory.
abbrev pub Holds : Memory → Memory → Type 0
Holds m = All (λ e. get e.0 m ≡ some e.1)

later_key : (k j : Bytes) → sorts_before k j ≡ true → j ≢ k
later_key k j h e = absurd (cc (h, ap (λ x. sorts_before k x) e, sorts_before_irrefl k))

Holds-cons : (k v : Bytes) (m es : Memory) → Below k es → Holds m es → Holds ((k, v) ∷ m) es
unfolding get
Holds-cons k v m [] b h = tt
Holds-cons k v m ((j, w) ∷ es) b h =
    (rw (bytes_eq_ne j k (later_key k j b.0)) h.0, Holds-cons k v m es b.1 h.1)

pub own_entries : (m : Memory) → IsSorted m → Holds m m
unfolding get
own_entries [] s = tt
own_entries ((k, v) ∷ m) s = (rw (bytes_eq_refl k) refl, Holds-cons k v m m s.0 (own_entries m s.1))

-- What holds of every entry holds of what Get finds.
pub get-All {ℓ} :
    (P : Bytes × Bytes → Type ℓ) (k v : Bytes) (m : Memory) → All P m → get k m ≡ some v → P (k, v)
unfolding get
get-All P k v [] a e = absurd (cc)
get-All P k v ((j, w) ∷ m) a e = elim (Bool-cases (bytes_eq k j)) [
  | inl same ↦
      let key : j ≡ k = sym ((bytes_eq_iff k j).0 same) in
      let val : some w ≡ some v = rw same at e in
      let value : w ≡ v = cc (val) in subst (λ x. P (k, x)) value (subst (λ x. P (x, w)) key a.0)
  | inr other ↦ get-All P k v m a.1 (rw other at e)
]

-- And the other way round.
pub All-get {ℓ} :
    (P : Bytes × Bytes → Type ℓ) (m es : Memory)
    → Holds m es
    → ((k v : Bytes) → get k m ≡ some v → P (k, v))
    → All P es
All-get P m [] h f = tt
All-get P m ((k, v) ∷ es) h f = (f k v h.0, All-get P m es h.1 f)
