-- ===== src/State/Encoding/Order.antt =====
-- pkg/state/encoding.go: the encoding can be read back, and keeps the order.
use native.Mathlib.Nat.{
  mod-lt, mod-eq_of_lt, div-add-mod', add-mul-mod_self_right, pow-suc, mul-le-mul_right,
}
use tidemark.Prelude.{
  ℕ, zero, suc, ◌+◌, ◌-◌, ◌*◌, ◌/◌, ◌%◌, ◌^◌, ◌≡◌, ◌<◌, refl, sym, ap, ◌∙◌, subst, ℤ, pos, negsuc,
  pos_part, neg_part, ltb_ℤ, IsInt64, Bool, true, false, ◌&&◌, ◌||◌, some, List, [], ◌∷◌, ◌++◌,
  length, All, ltb, lt→ltb, ◌==◌, to_int64, to_int64-small, to_int64-large, Bool-cases, inl, inr,
  arith,
}
use tidemark.State.Encoding.{
  big_endian, from_big_endian, to_uint64, flip_sign, encode_ordered_int64, decode_ordered_int64,
  read_ordered,
}

-- The number that big-endian bytes stand for.
unfoldable pub value : List ℕ → ℕ
value [] = 0
value (b ∷ bs) = b * 256 ^ length bs + value bs

-- bytes.Compare: whether the first list sorts before the second.
unfoldable pub sorts_before : List ℕ → List ℕ → Bool
sorts_before [] [] = false
sorts_before [] (y ∷ ys) = true
sorts_before (x ∷ xs) [] = false
sorts_before (x ∷ xs) (y ∷ ys) = ltb x y || ((x == y) && sorts_before xs ys)

abbrev pub AreBytes : List ℕ → Type 0
AreBytes = All (λ b. b < 256)

pow_pos : (k : ℕ) → 0 < 256 ^ k
pow_pos zero = omega arith
pow_pos (suc k) = omega (arith, pow-suc 256 k, pow_pos k)

value_bound : (bs : List ℕ) → AreBytes bs → value bs < 256 ^ length bs
unfolding value
value_bound [] h = omega arith
value_bound (b ∷ bs) h =
    omega
      (arith, pow-suc 256 (length bs), value_bound bs h.1, mul-le-mul_right (256 ^ length bs) h.0)

ltb_same : (a b c d : ℕ) → a ≡ c → b ≡ d → ltb a b ≡ ltb c d
ltb_same a b c d p q = rw (p, q) refl

ltb_shift : (a v w : ℕ) → ltb v w ≡ ltb (a + v) (a + w)
ltb_shift a v w = ground arith

-- The first byte decides, and the rest if it is the same.
digit_first :
    (x y v w P : ℕ) (t : Bool)
    → v < P
    → w < P
    → t ≡ ltb v w
    → (ltb x y || ((x == y) && t)) ≡ ltb (x * P + v) (y * P + w)
digit_first x y v w P t hv hw h = elim (Bool-cases (ltb x y)) [
  | inl e ↦
      let lt : x < y = ground (arith, e) in
      let less : x * P + v < y * P + w = omega (arith, mul-le-mul_right P lt, hv) in
      rw e (sym (lt→ltb _ _ less))
  | inr e ↦ elim (Bool-cases (x == y)) [
    | inl f ↦
        let same : x ≡ y = ground (arith, f) in
        rw (e, f) (h ∙ ltb_shift (x * P) v w ∙ ap (λ z. ltb (x * P + v) (z * P + w)) same)
    | inr f ↦
        let gt : y < x = ground (arith, e, f) in
        let more : y * P + w < x * P + v = omega (arith, mul-le-mul_right P gt, hw) in
        let not_less : ltb (x * P + v) (y * P + w) ≡ false = ground (arith, more) in
        rw (e, f) (sym not_less)
  ]
]

-- Bytes of one length sort as the numbers they stand for.
sorts_before-value :
    (xs ys : List ℕ)
    → length xs ≡ length ys
    → AreBytes xs
    → AreBytes ys
    → sorts_before xs ys ≡ ltb (value xs) (value ys)
unfolding sorts_before value
sorts_before-value [] [] e hx hy = refl
sorts_before-value [] (y ∷ ys) e hx hy = absurd (omega (arith, e))
sorts_before-value (x ∷ xs) [] e hx hy = absurd (omega (arith, e))
sorts_before-value (x ∷ xs) (y ∷ ys) e hx hy =
    let n : length xs ≡ length ys = omega (arith, e) in
    digit_first x y (value xs) (value ys) (256 ^ length xs) (sorts_before xs ys)
      (value_bound xs hx.1) (rw n (value_bound ys hy.1)) (sorts_before-value xs ys n hx.1 hy.1)
    ∙ ap (λ m. ltb (x * 256 ^ length xs + value xs) (y * 256 ^ m + value ys)) n

byte_small : (q : ℕ) → q % 256 < 256
byte_small q = mod-lt q (omega arith)

mod_next : (n P : ℕ) → 0 < P → n % (P * 256) ≡ n / P % 256 * P + n % P
mod_next n P h =
    let q = n / P in
    let low = q % 256 * P + n % P in
    let small : low < P * 256 = omega (arith, mod-lt n h, mul-le-mul_right P (byte_small q)) in
    ap (λ x. x % (P * 256)) (omega (arith, div-add-mod' n P, ap (λ z. z * P) (div-add-mod' q 256)))
    ∙ add-mul-mod_self_right low (q / 256) (P * 256)
    ∙ mod-eq_of_lt small

pub big_endian_lem :
    (k n : ℕ)
    → (length (big_endian k n) ≡ k)
      × AreBytes (big_endian k n)
      × (value (big_endian k n) ≡ n % 256 ^ k)
      × (from_big_endian k (big_endian k n) ≡ some (n % 256 ^ k))
unfolding big_endian from_big_endian value
big_endian_lem zero n = (refl, tt, omega arith, ap some (omega arith))
big_endian_lem (suc k) n =
    let (l, b, v, f) = big_endian_lem k n in
    let next = mod_next n (256 ^ k) (pow_pos k) in
    let whole : n / 256 ^ k % 256 * 256 ^ k + n % 256 ^ k ≡ n % 256 ^ suc k =
      sym next ∙ ap (λ m. n % m) (sym (pow-suc 256 k)) in
    (
      ap suc l,
      (byte_small (n / 256 ^ k), b),
      ap (λ m. n / 256 ^ k % 256 * 256 ^ m + value (big_endian k n)) l
          ∙ ap (λ m. n / 256 ^ k % 256 * 256 ^ k + m) v
          ∙ whole,
      rw f (ap some whole),
    )

pub from_big_endian-append :
    (k : ℕ) (bs xs : List ℕ) → length bs ≡ k → from_big_endian k (bs ++ xs) ≡ from_big_endian k bs
unfolding from_big_endian
from_big_endian-append zero bs xs h = refl
from_big_endian-append (suc k) [] xs h = absurd (omega (arith, h))
from_big_endian-append (suc k) (b ∷ bs) xs h =
    rw (from_big_endian-append k bs xs (omega (arith, h))) refl

pub from_big_endian-value :
    (k : ℕ) (bs : List ℕ) → length bs ≡ k → from_big_endian k bs ≡ some (value bs)
unfolding from_big_endian value
from_big_endian-value zero [] h = refl
from_big_endian-value zero (b ∷ bs) h = absurd (omega (arith, h))
from_big_endian-value (suc k) [] h = absurd (omega (arith, h))
from_big_endian-value (suc k) (b ∷ bs) h =
    let n : length bs ≡ k = omega (arith, h) in
    rw (from_big_endian-value k bs n) (ap (λ m. some (b * 256 ^ m + value bs)) (sym n))

neither_before :
    (xs ys : List ℕ)
    → length xs ≡ length ys
    → sorts_before xs ys ≡ false
    → sorts_before ys xs ≡ false
    → xs ≡ ys
unfolding sorts_before
neither_before [] [] e h k = refl
neither_before [] (y ∷ ys) e h k = absurd (omega (arith, e))
neither_before (x ∷ xs) [] e h k = absurd (omega (arith, e))
neither_before (x ∷ xs) (y ∷ ys) e h k =
    let same : x ≡ y = ground (arith, h, k) in
    let ih : xs ≡ ys = ground (arith, h, k, same, neither_before xs ys) in rw (same, ih) refl

-- Bytes are determined by their number and the number that they stand for.
value-injective :
    (xs ys : List ℕ)
    → length xs ≡ length ys
    → AreBytes xs
    → AreBytes ys
    → value xs ≡ value ys
    → xs ≡ ys
value-injective xs ys e hx hy v =
    neither_before xs ys e (sorts_before-value xs ys e hx hy ∙ ground (arith, v))
      (sorts_before-value ys xs (sym e) hy hx ∙ ground (arith, v))

-- Bytes that were read as a number are the number's.
pub from_big_endian_lem :
    (k n : ℕ) (bs : List ℕ)
    → length bs ≡ k
    → AreBytes bs
    → from_big_endian k bs ≡ some n
    → (bs ≡ big_endian k n) × (n < 256 ^ k)
from_big_endian_lem k n bs l h e =
    let (l', h', v', _) = big_endian_lem k n in
    let v : value bs ≡ n = cc (from_big_endian-value k bs l, e) in
    let small : n < 256 ^ k =
      subst (λ m. m < 256 ^ k) v (subst (λ j. value bs < 256 ^ j) l (value_bound bs h)) in
    (
      value-injective bs (big_endian k n) (l ∙ sym l') h h' (v ∙ sym (v' ∙ mod-eq_of_lt small)),
      small,
    )

-- The word that is encoded is the int64 shifted to start at zero.
flip_sign_lem :
    (v : ℤ)
    → IsInt64 v
    → (flip_sign (to_uint64 v) + neg_part v ≡ pos_part v + 9223372036854775808)
      × (flip_sign (to_uint64 v) < 18446744073709551616)
unfolding flip_sign to_uint64
flip_sign_lem (pos n) h = (omega (arith, h), omega (arith, h))
flip_sign_lem (negsuc n) h = (omega (arith, h), omega (arith, h))

unflip_lem : (v : ℤ) → IsInt64 v → to_int64 (flip_sign (flip_sign (to_uint64 v))) ≡ v
unfolding flip_sign to_uint64
unflip_lem (pos n) h = ap to_int64 (omega (arith, h)) ∙ to_int64-small n (omega (arith, h))
unflip_lem (negsuc n) h =
    ap to_int64 (omega (arith, h))
    ∙ to_int64-large (18446744073709551615 - n) (omega (arith, h)) (omega arith)
    ∙ ap negsuc (omega (arith, h))

-- The encoding of an int64 can be read back, and of two int64s the encodings sort as the numbers.
pub encode_ordered_int64_lem :
    (a b : ℤ)
    → IsInt64 a
    → IsInt64 b
    → (decode_ordered_int64 (encode_ordered_int64 a) ≡ some a)
      × (sorts_before (encode_ordered_int64 a) (encode_ordered_int64 b) ≡ ltb_ℤ a b)
unfolding encode_ordered_int64 decode_ordered_int64 read_ordered
encode_ordered_int64_lem a b ha hb =
    let (fa, la) = flip_sign_lem a ha in
    let (fb, lb) = flip_sign_lem b hb in
    let (na, ba, va, ra) = big_endian_lem 8 (flip_sign (to_uint64 a)) in
    let (nb, bb, vb, rb) = big_endian_lem 8 (flip_sign (to_uint64 b)) in
    (
      ap read_ordered (ra ∙ ap some (mod-eq_of_lt la)) ∙ ap some (unflip_lem a ha),
      sorts_before-value _ _ (na ∙ sym nb) ba bb
          ∙ ltb_same _ _ _ _ (va ∙ mod-eq_of_lt la) (vb ∙ mod-eq_of_lt lb)
          ∙ ground (arith, fa, fb),
    )

pub uint64_bound : (v : ℤ) → to_uint64 v < 256 ^ 8
unfolding to_uint64
uint64_bound (pos n) = omega arith
uint64_bound (negsuc n) = omega arith

pub to_int64-to_uint64 : (v : ℤ) → IsInt64 v → to_int64 (to_uint64 v) ≡ v
unfolding to_uint64
to_int64-to_uint64 (pos n) h =
    ap to_int64 (mod-eq_of_lt (omega (arith, h))) ∙ to_int64-small n (omega (arith, h))
to_int64-to_uint64 (negsuc n) h =
    ap to_int64 (omega (arith, h))
    ∙ to_int64-large (18446744073709551615 - n) (omega (arith, h)) (omega arith)
    ∙ ap negsuc (omega (arith, h))
