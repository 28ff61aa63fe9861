-- ===== src/Checkpoint/Codec/Inversion.antt =====
-- pkg/checkpoint/storage.go: what stood in front of a reader whose method succeeded.
use tidemark.Prelude.{
  ℕ, ◌+◌, ◌-◌, ◌^◌, ◌≡◌, ◌≤◌, ◌<◌, Option, refl, sym, ap, ◌∙◌, subst, Bool, true, false, none, some,
  List, [], ◌∷◌, ◌++◌, append-nil, append_assoc, length, All-split, take-drop, length-take,
  length-drop, take, drop, ltb, ◌==◌, ==_iff, Bool-cases, inl, inr, arith,
}
use tidemark.State.Encoding.{big_endian, from_big_endian}
use tidemark.State.Encoding.Order.{AreBytes, from_big_endian_lem}
use tidemark.Checkpoint.Framing.{bytes_of, string_of, bytes_of-string_of}
use tidemark.Checkpoint.Codec.{
  short_field, Read, ok, err, FormatError, Reader, Action, ◌>>=◌, continue, pure, take_bytes,
  number, read_number, short_string, at_end, payload_bytes, raise_if,
}
use tidemark.Checkpoint.Codec.Reading.{At, drop-drop}

-- The reader had `chunk` in front, and is behind it now.
pub record Passed (left chunk : List ℕ) (r' : Reader) : Type 0 where
  pub rest : List ℕ
  pub split : left ≡ chunk ++ rest
  pub at : At r' rest
  pub bytes : AreBytes rest

-- An action that succeeds has read the encoding of its value.
abbrev pub Reads : {A : Type 0} → Action A → (A → List ℕ) → Type 0
Reads {A} act encode =
    (r r' : Reader) (left : List ℕ) (v : A)
    → At r left
    → AreBytes left
    → act r ≡ ok (v, r')
    → Passed left (encode v) r'

continue_ok :
    {A B : Type 0} (x : Read (A × Reader)) (f : A → Action B) (r'' : Reader) (b : B)
    → continue x f ≡ ok (b, r'')
    → (a : A) × (r' : Reader) × (x ≡ ok (a, r')) × (f a r' ≡ ok (b, r''))
continue_ok (ok (a, r')) f r'' b e = (a, r', refl, e)
continue_ok (err x) f r'' b e = cc

pub >>=-ok :
    {A B : Type 0} (m : Action A) (f : A → Action B) (r r'' : Reader) (b : B)
    → (m >>= f) r ≡ ok (b, r'')
    → (a : A) × (r' : Reader) × (m r ≡ ok (a, r')) × (f a r' ≡ ok (b, r''))
>>=-ok m f r r'' b e = continue_ok (m r) f r'' b e

pub ok-injective :
    {A : Type 0} {a b : A} {r r' : Reader}
    → ◌≡◌ {A = Read (A × Reader)} (ok (a, r)) (ok (b, r'))
    → (a ≡ b) × (r ≡ r')
ok-injective e = (cc, cc)

take_bytes-Reads :
    (n : ℕ) (r r' : Reader) (left v : List ℕ)
    → At r left
    → AreBytes left
    → take_bytes n r ≡ ok (v, r')
    → (length v ≡ n) × Passed left v r' × AreBytes v
unfolding take_bytes
take_bytes-Reads n r r' left v a h e = elim (Bool-cases (ltb (length r.buf) (r.offset + n))) [
  | inl short ↦ absurd (cc (rw short at e))
  | inr long ↦
      let (ev, er) = ok-injective (rw long at e) in
      let same : take n left ≡ v = ap (take n) (sym a.left) ∙ ev in
      let fits : n ≤ length left = ground (arith, long, a.whole) in
      let parts : take n left ++ drop n left ≡ left = take-drop n left in
      let (hv, hr) = All-split (λ b. b < 256) (take n left) (drop n left) (rw parts h) in
      let at : At (record r { offset = r.offset + n }) (drop n left) = record {
        whole = omega (arith, a.whole, length-drop n left);
        left = drop-drop r.offset n r.buf ∙ ap (drop n) a.left;
      } in
      (
        rw (← same) (length-take n left fits),
        record {
          rest = drop n left;
          split = sym parts ∙ ap (λ c. c ++ drop n left) same;
          at = subst (λ q. At q (drop n left)) er at;
          bytes = hr;
        },
        subst AreBytes same hv,
      )
]

number_ok :
    (o : Option ℕ) (k : ℕ) (bs : List ℕ) (q r' : Reader) (v : ℕ)
    → from_big_endian k bs ≡ o
    → number k bs q ≡ ok (v, r')
    → (o ≡ some v) × (q ≡ r')
unfolding number
number_ok none k bs q r' v e h = absurd (cc (rw (e, number) at h))
number_ok (some n) k bs q r' v e h =
    let (p, p') = ok-injective (rw (e, number) at h) in (ap some p, p')

pub read_number-Reads :
    (k : ℕ) (r r' : Reader) (left : List ℕ) (v : ℕ)
    → At r left
    → AreBytes left
    → read_number k r ≡ ok (v, r')
    → (v < 256 ^ k) × Passed left (big_endian k v) r'
unfolding read_number
read_number-Reads k r r' left v a h e =
    let (bs, q, e1, e2) = >>=-ok (take_bytes k) (number k) r r' v e in
    let (l, p, hb) = take_bytes-Reads k r q left bs a h e1 in
    let (some_v, same) = number_ok (from_big_endian k bs) k bs q r' v refl e2 in
    let (eb, small) = from_big_endian_lem k v bs l hb some_v in
    (small, subst (λ c. Passed left c r') eb (subst (Passed left bs) same p))

Passed-append :
    (left c d : List ℕ) (r' r'' : Reader) (p : Passed left c r')
    → Passed p.rest d r''
    → Passed left (c ++ d) r''
Passed-append left c d r' r'' p q = record {
  rest = q.rest;
  split = p.split ∙ ap (λ l. c ++ l) q.split ∙ sym (append_assoc c d q.rest);
  at = q.at;
  bytes = q.bytes;
}

pub short_string-Reads : Reads short_string short_field
unfolding short_string short_field
short_string-Reads r r' left v a h e =
    let (n, q, e1, e2) =
      >>=-ok (read_number 2) (λ n. take_bytes n >>= λ bs. pure (string_of bs)) r r' v e in
    let (small, p1) = read_number-Reads 2 r q left n a h e1 in
    let (bs, q', e3, e4) = >>=-ok (take_bytes n) (λ bs. pure (string_of bs)) q r' v e2 in
    let (l, p2, hb) = take_bytes-Reads n q q' p1.rest bs p1.at p1.bytes e3 in
    let (ev, er) = ok-injective e4 in
    let eb : bs ≡ bytes_of v = sym (bytes_of-string_of bs hb) ∙ ap bytes_of ev in
    let whole : Passed left (big_endian 2 n ++ bs) q' =
      Passed-append left (big_endian 2 n) bs q q' p1 p2 in
    subst (λ c. Passed left (big_endian 2 (length c) ++ c) r') eb
      (subst (Passed left (big_endian 2 (length bs) ++ bs)) er (rw l whole))

nil_of_length : (xs : List ℕ) → length xs ≡ 0 → xs ≡ []
nil_of_length [] h = refl
nil_of_length (x ∷ xs) h = absurd (omega (arith, h))

at_end-ok :
    (bs v : List ℕ) (q r' : Reader)
    → at_end bs q ≡ ok (v, r')
    → (bs ≡ v) × (q.offset ≡ length q.buf)
unfolding at_end
at_end-ok bs v q r' e = elim (Bool-cases (q.offset == length q.buf)) [
  | inl ended ↦ ((ok-injective (rw ended at e)).0, (==_iff _ _).0 ended)
  | inr more ↦ absurd (cc (rw more at e))
]

-- A payload is all that was left.
pub payload_bytes-Reads :
    (n : ℕ) (r r' : Reader) (left v : List ℕ)
    → At r left
    → AreBytes left
    → payload_bytes n r ≡ ok (v, r')
    → (left ≡ v) × (length v ≡ n)
unfolding payload_bytes
payload_bytes-Reads n r r' left v a h e = elim (Bool-cases (ltb (length r.buf - r.offset) n)) [
  | inl long ↦ absurd (cc (rw long at e))
  | inr fits ↦
      let (bs, q, e1, e2) = >>=-ok (take_bytes n) at_end r r' v (rw fits at e) in
      let (l, p, hb) = take_bytes-Reads n r q left bs a h e1 in
      let (eb, ended) = at_end-ok bs v q r' e2 in
      let empty : p.rest ≡ [] = nil_of_length p.rest (omega (arith, p.at.whole, ended)) in
      (p.split ∙ ap (λ l. bs ++ l) empty ∙ append-nil bs ∙ eb, rw (← eb) l)
]

-- Behind a test that raised nothing.
pub raise_if-ok :
    {B : Type 0} (c : Bool) (x : FormatError) (f : Unit {0} → Action B) (r r' : Reader) (b : B)
    → (raise_if c x >>= f) r ≡ ok (b, r')
    → (c ≡ false) × (f tt r ≡ ok (b, r'))
raise_if-ok true x f r r' b e = absurd (cc)
raise_if-ok false x f r r' b e = (refl, e)
