-- ===== src/Checkpoint/Codec/Reading.antt =====
-- pkg/checkpoint/storage.go: what the reader's methods do when the bytes they want stand in front.
use native.Mathlib.Nat.{mod-eq_of_lt}
use tidemark.Prelude.{
  take-append, drop-append, ℕ, zero, suc, ◌+◌, ◌-◌, ◌%◌, ◌^◌, ◌≡◌, ◌<◌, refl, sym, ap, ◌∙◌, subst,
  String, true, false, List, [], ◌∷◌, ◌++◌, append-nil, append_assoc, length, length-append, drop,
  ltb, ◌==◌, arith,
}
use tidemark.State.Encoding.{big_endian}
use tidemark.State.Encoding.Order.{big_endian_lem}
use tidemark.Checkpoint.Framing.{bytes_of, string_of, IsByteString, string_of-bytes_of}
use tidemark.Checkpoint.Codec.{
  short_field, ok, Reader, Action, pure, ◌>>=◌, continue, take_bytes, number, read_number,
  short_string, at_end, payload_bytes,
}

-- `rest` is what the reader has still to read.
pub record At (r : Reader) (rest : List ℕ) : Type 0 where
  pub whole : r.offset + length rest ≡ length r.buf
  pub left : drop r.offset r.buf ≡ rest

-- In front of `chunk` the action succeeds with `v` and leaves the reader behind it.
abbrev pub Parses : {A : Type 0} → Action A → List ℕ → A → Type 0
Parses {A} act chunk v =
    (r : Reader) (rest : List ℕ)
    → At r (chunk ++ rest)
    → (r' : Reader) × (act r ≡ ok (v, r')) × At r' rest

suc-add : (m n : ℕ) → suc m + n ≡ suc (m + n)
suc-add m n = omega arith

drop-nil : (n : ℕ) → drop {A = ℕ} n [] ≡ []
drop-nil zero = refl
drop-nil (suc n) = refl

pub drop-drop : (m n : ℕ) (xs : List ℕ) → drop (m + n) xs ≡ drop n (drop m xs)
drop-drop zero n xs = ap (λ k. drop k xs) (omega arith)
drop-drop (suc m) n [] = drop-nil (suc m + n) ∙ sym (drop-nil n)
drop-drop (suc m) n (x ∷ xs) = ap (λ k. drop k (x ∷ xs)) (suc-add m n) ∙ drop-drop m n xs

pub take_bytes-Parses :
    (n : ℕ) (chunk : List ℕ) → length chunk ≡ n → Parses (take_bytes n) chunk chunk
unfolding take_bytes
take_bytes-Parses n chunk e r rest a =
    let fits : ltb (length r.buf) (r.offset + n) ≡ false =
      ground (arith, a.whole, length-append chunk rest, e) in
    (
      record r { offset = r.offset + n },
      rw (fits, a.left, ← e, take-append chunk rest) refl,
      record {
        whole = omega (arith, a.whole, length-append chunk rest, e);
        left = drop-drop r.offset n r.buf ∙ rw (a.left, ← e) (drop-append chunk rest);
      },
    )

pub continue_lem :
    {A B : Type 0} (m : Action A) (f : A → Action B) (r r' : Reader) (v : A)
    → m r ≡ ok (v, r')
    → (m >>= f) r ≡ f v r'
continue_lem m f r r' v e = ap (λ x. continue x f) e

pub read_number-Parses : (k n : ℕ) → Parses (read_number k) (big_endian k n) (n % 256 ^ k)
unfolding read_number number
read_number-Parses k n r rest a =
    let (l, _, _, f) = big_endian_lem k n in
    let (r', e, a') = take_bytes-Parses k (big_endian k n) l r rest a in
    (r', continue_lem (take_bytes k) (number k) r r' (big_endian k n) e ∙ rw (f, number) refl, a')

-- A number that fits its field.
pub field-Parses : (k n : ℕ) → n < 256 ^ k → Parses (read_number k) (big_endian k n) n
field-Parses k n h =
    subst (Parses (read_number k) (big_endian k n)) (mod-eq_of_lt h) (read_number-Parses k n)

pub short_string-Parses :
    (s : String)
    → IsByteString s
    → length (bytes_of s) < 65536
    → Parses short_string (short_field s) s
unfolding short_string short_field
short_string-Parses s h fits r rest a =
    let n = length (bytes_of s) in
    let at : At r (big_endian 2 n ++ (bytes_of s ++ rest)) =
      subst (At r) (append_assoc (big_endian 2 n) (bytes_of s) rest) a in
    let (q, e, b) = field-Parses 2 n (omega (arith, fits)) r (bytes_of s ++ rest) at in
    let (q', e', b') = take_bytes-Parses n (bytes_of s) refl q rest b in
    (
      q',
      continue_lem (read_number 2) (λ n. take_bytes n >>= λ bs. pure (string_of bs)) r q n e
          ∙ (continue_lem (take_bytes n) (λ bs. pure (string_of bs)) q q' (bytes_of s) e'
              ∙ ap (λ t. ok (t, q')) (string_of-bytes_of s h)),
      b',
    )

-- A payload with nothing behind it.
pub payload_bytes_lem :
    (payload : List ℕ) (r : Reader)
    → At r payload
    → (r' : Reader) × (payload_bytes (length payload) r ≡ ok (payload, r'))
unfolding payload_bytes at_end
payload_bytes_lem payload r a =
    let (q, e, b) =
      take_bytes-Parses (length payload) payload refl r []
        (subst (At r) (sym (append-nil payload)) a) in
    let fits : ltb (length r.buf - r.offset) (length payload) ≡ false = ground (arith, a.whole) in
    let done : (q.offset == length q.buf) ≡ true = ground (arith, b.whole) in
    (q, rw fits (continue_lem (take_bytes (length payload)) at_end r q payload e ∙ rw done refl))
