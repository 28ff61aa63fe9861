-- ===== src/State/Keyed/Laws.antt =====
-- pkg/state/state.go: what Get finds after Put and Delete.
use tidemark.Prelude.{
  ◌≡◌, ◌≢◌, refl, sym, ap, ◌∙◌, subst, inl, inr, true, false, none, some, [], ◌∷◌, Bool-cases,
}
use tidemark.State.Encoding.Order.{sorts_before}
use tidemark.State.Keyed.{Bytes, Memory, bytes_eq, get, put, delete}
use tidemark.State.Keyed.Order.{bytes_eq_iff, sorts_before_irrefl, Below, IsSorted}

pub bytes_eq_refl : (k : Bytes) → bytes_eq k k ≡ true
bytes_eq_refl k = (bytes_eq_iff k k).1 refl

pub bytes_eq_ne : (a b : Bytes) → a ≢ b → bytes_eq a b ≡ false
bytes_eq_ne a b ne = elim (Bool-cases (bytes_eq a b)) [
  | inl e ↦ absurd (ne ((bytes_eq_iff a b).0 e))
  | inr e ↦ e
]

pub get-put_self : (k v : Bytes) (m : Memory) → get k (put k v m) ≡ some v
unfolding get put
get-put_self k v [] = rw (bytes_eq_refl k) refl
get-put_self k v ((j, w) ∷ m) = elim (Bool-cases (bytes_eq k j)) [
  | inl e ↦ rw e (rw (bytes_eq_refl k) refl)
  | inr e ↦ elim (Bool-cases (sorts_before k j)) [
    | inl f ↦ rw (e, f) (rw (bytes_eq_refl k) refl)
    | inr f ↦ rw (e, f) (rw e (get-put_self k v m))
  ]
]

pub get-put_ne : (i k v : Bytes) (m : Memory) → i ≢ k → get i (put k v m) ≡ get i m
unfolding get put
get-put_ne i k v [] ne = rw (bytes_eq_ne i k ne) refl
get-put_ne i k v ((j, w) ∷ m) ne = elim (Bool-cases (bytes_eq k j)) [
  | inl e ↦
      let same : k ≡ j = (bytes_eq_iff k j).0 e in
      rw e (rw (bytes_eq_ne i k ne, bytes_eq_ne i j (λ p. ne (p ∙ sym same))) refl)
  | inr e ↦ elim (Bool-cases (sorts_before k j)) [
    | inl f ↦ rw (e, f) (rw (bytes_eq_ne i k ne) refl)
    | inr f ↦
        rw (e, f)
          (elim (Bool-cases (bytes_eq i j)) [
            | inl g ↦ rw g refl
            | inr g ↦ rw g (get-put_ne i k v m ne)
          ])
  ]
]

-- A key that sorts before all others is not among them.
pub get-Below : (k : Bytes) (m : Memory) → Below k m → get k m ≡ none
unfolding get
get-Below k [] b = refl
get-Below k ((j, w) ∷ m) b =
    let ne : k ≢ j = λ e. absurd (cc (b.0, ap (λ x. sorts_before k x) e, sorts_before_irrefl k)) in
    rw (bytes_eq_ne k j ne) (get-Below k m b.1)

pub get-delete_self : (k : Bytes) (m : Memory) → IsSorted m → get k (delete k m) ≡ none
unfolding get delete
get-delete_self k [] s = refl
get-delete_self k ((j, w) ∷ m) s = elim (Bool-cases (bytes_eq k j)) [
  | inl e ↦ rw e (get-Below k m (subst (λ x. Below x m) (sym ((bytes_eq_iff k j).0 e)) s.0))
  | inr e ↦ rw e (rw e (get-delete_self k m s.1))
]

pub get-delete_ne : (i k : Bytes) (m : Memory) → i ≢ k → get i (delete k m) ≡ get i m
unfolding get delete
get-delete_ne i k [] ne = refl
get-delete_ne i k ((j, w) ∷ m) ne = elim (Bool-cases (bytes_eq k j)) [
  | inl e ↦
      let same : k ≡ j = (bytes_eq_iff k j).0 e in
      rw e (rw (bytes_eq_ne i j (λ p. ne (p ∙ sym same))) refl)
  | inr e ↦ rw e (elim (Bool-cases (bytes_eq i j)) [
    | inl g ↦ rw g refl
    | inr g ↦ rw g (get-delete_ne i k m ne)
  ])
]
