-- ===== src/State/Keyed/Order.antt =====
-- pkg/state/state.go: the order of keys, and that the entries stay in it.
use tidemark.Prelude.{◌≡◌, ◌↔◌, refl, sym, subst, inl, inr, true, false, [], ◌∷◌, Bool-cases, arith}
use tidemark.State.Encoding.Order.{sorts_before}
use tidemark.State.Keyed.{Bytes, Memory, bytes_eq, put, delete}

pub bytes_eq_iff : (a b : Bytes) → (bytes_eq a b ≡ true) ↔ (a ≡ b)
unfolding bytes_eq
bytes_eq_iff [] [] = (λ _. refl, λ _. refl)
bytes_eq_iff [] (y ∷ ys) = (λ h. absurd (cc), λ e. absurd (cc))
bytes_eq_iff (x ∷ xs) [] = (λ h. absurd (cc), λ e. absurd (cc))
bytes_eq_iff (x ∷ xs) (y ∷ ys) =
    let ih = bytes_eq_iff xs ys in (λ h. ground (arith, h, ih), λ e. ground (arith, e, ih))

no_end : (b : Bytes) → sorts_before b [] ≡ false
unfolding sorts_before
no_end [] = refl
no_end (y ∷ ys) = refl

pub sorts_before_trans :
    (a b c : Bytes) → sorts_before a b ≡ true → sorts_before b c ≡ true → sorts_before a c ≡ true
unfolding sorts_before
sorts_before_trans [] b [] h k = absurd (cc (no_end b, k))
sorts_before_trans [] b (z ∷ zs) h k = refl
sorts_before_trans (x ∷ xs) [] c h k = absurd (cc)
sorts_before_trans (x ∷ xs) (y ∷ ys) [] h k = absurd (cc)
sorts_before_trans (x ∷ xs) (y ∷ ys) (z ∷ zs) h k =
    ground (arith, h, k, sorts_before_trans xs ys zs)

pub sorts_before_irrefl : (a : Bytes) → sorts_before a a ≡ false
unfolding sorts_before
sorts_before_irrefl [] = refl
sorts_before_irrefl (x ∷ xs) = ground (arith, sorts_before_irrefl xs)

-- Of two keys that differ one sorts before the other.
pub sorts_before_total :
    (a b : Bytes) → bytes_eq a b ≡ false → sorts_before a b ≡ false → sorts_before b a ≡ true
unfolding sorts_before bytes_eq
sorts_before_total [] [] e h = absurd (cc)
sorts_before_total [] (y ∷ ys) e h = absurd (cc)
sorts_before_total (x ∷ xs) [] e h = refl
sorts_before_total (x ∷ xs) (y ∷ ys) e h = ground (arith, e, h, sorts_before_total xs ys)

-- Every key sorts before those behind it.
abbrev pub Below : Bytes → Memory → Type 0
Below k [] = Unit
Below k ((j, w) ∷ m) = (sorts_before k j ≡ true) × Below k m

abbrev pub IsSorted : Memory → Type 0
IsSorted [] = Unit
IsSorted ((k, v) ∷ m) = Below k m × IsSorted m

pub Below-trans : (k j : Bytes) (m : Memory) → sorts_before k j ≡ true → Below j m → Below k m
Below-trans k j [] h b = tt
Below-trans k j ((i, w) ∷ m) h b = (sorts_before_trans k j i h b.0, Below-trans k j m h b.1)

Below-put : (i k v : Bytes) (m : Memory) → sorts_before i k ≡ true → Below i m → Below i (put k v m)
unfolding put
Below-put i k v [] h b = (h, tt)
Below-put i k v ((j, w) ∷ m) h b = elim (Bool-cases (bytes_eq k j)) [
  | inl e ↦ rw e (h, b.1)
  | inr e ↦ elim (Bool-cases (sorts_before k j)) [
    | inl f ↦ rw (e, f) (h, b)
    | inr f ↦ rw (e, f) (b.0, Below-put i k v m h b.1)
  ]
]

pub put-IsSorted : (k v : Bytes) (m : Memory) → IsSorted m → IsSorted (put k v m)
unfolding put
put-IsSorted k v [] s = (tt, tt)
put-IsSorted k v ((j, w) ∷ m) s = elim (Bool-cases (bytes_eq k j)) [
  | inl e ↦ rw e (subst (λ x. Below x m) (sym ((bytes_eq_iff k j).0 e)) s.0, s.1)
  | inr e ↦ elim (Bool-cases (sorts_before k j)) [
    | inl f ↦ rw (e, f) ((f, Below-trans k j m f s.0), s)
    | inr f ↦ rw (e, f) (Below-put j k v m (sorts_before_total k j e f) s.0, put-IsSorted k v m s.1)
  ]
]

Below-delete : (i k : Bytes) (m : Memory) → Below i m → Below i (delete k m)
unfolding delete
Below-delete i k [] b = tt
Below-delete i k ((j, w) ∷ m) b = elim (Bool-cases (bytes_eq k j)) [
  | inl e ↦ rw e b.1
  | inr e ↦ rw e (b.0, Below-delete i k m b.1)
]

pub delete-IsSorted : (k : Bytes) (m : Memory) → IsSorted m → IsSorted (delete k m)
unfolding delete
delete-IsSorted k [] s = tt
delete-IsSorted k ((j, w) ∷ m) s = elim (Bool-cases (bytes_eq k j)) [
  | inl e ↦ rw e s.1
  | inr e ↦ rw e (Below-delete j k m s.0, delete-IsSorted k m s.1)
]
