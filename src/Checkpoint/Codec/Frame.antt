-- ===== src/Checkpoint/Codec/Frame.antt =====
-- pkg/checkpoint/storage.go: what `newReader` accepts and refuses, and that it accepts what was sealed.
use native.Mathlib.Nat.{mod-eq_of_lt}
use tidemark.Prelude.{
  take-append, drop-append, ℕ, ◌-◌, ◌≡◌, ◌≤◌, ◌<◌, refl, sym, ap, ◌∙◌, subst, true, false, none,
  some, List, [], ◌∷◌, ◌++◌, length, length-append, take, drop, ltb, ◌==◌, ==_iff, arith, inl, inr,
  Option, Bool-cases, All-split, take-drop, length-take, length-drop,
}
use tidemark.State.Encoding.{big_endian, from_big_endian}
use tidemark.State.Encoding.Order.{
  from_big_endian-append, big_endian_lem, AreBytes, from_big_endian_lem,
}
use tidemark.Checkpoint.Framing.{checksum_ieee, checksum_ieee-lt}
use tidemark.Checkpoint.Codec.{
  magic, header, sealed, ok, Reader, new_reader, check_frame, check_version, same_number,
  starts_with_magic,
}
use tidemark.Checkpoint.Codec.Reading.{At, drop-drop}

-- A file that is long enough is its body and four bytes more.
new_reader-append :
    (body sum : List ℕ) (version : ℕ)
    → length sum ≡ 4
    → 6 ≤ length body
    → new_reader (body ++ sum) version ≡ check_frame body sum version
unfolding new_reader
new_reader-append body sum version l h =
    let n : length (body ++ sum) - 4 ≡ length body = omega (arith, length-append body sum, l) in
    let long : ltb (length (body ++ sum)) 10 ≡ false = ground (arith, length-append body sum, l) in
    rw (long, n, take-append body sum, drop-append body sum) refl

agree : (o : Option ℕ) (n : ℕ) → o ≡ some n → same_number o n ≡ true
unfolding same_number
agree o n e = rw (e, same_number) ((==_iff n n).1 refl)

version_agrees :
    (body : List ℕ) (o : Option ℕ) (version : ℕ)
    → o ≡ some version
    → check_version body o version ≡ ok (record { buf = body; offset = 6 })
unfolding check_version
version_agrees body o version e =
    let same : (version == version) ≡ true = (==_iff version version).1 refl in
    rw (e, check_version, same) refl

-- A sealed file is opened, at the first byte behind the version.
pub new_reader-sealed :
    (version : ℕ) (fields : List ℕ)
    → version < 65536
    → (r : Reader) × (new_reader (sealed (header version ++ fields)) version ≡ ok r) × At r fields
unfolding sealed header check_frame check_version starts_with_magic same_number
new_reader-sealed version fields h =
    let body = header version ++ fields in
    let c = checksum_ieee body in
    let (l, _, _, f) = big_endian_lem 4 c in
    let (l', _, _, f') = big_endian_lem 2 version in
    let e : from_big_endian 4 (big_endian 4 c) ≡ some c =
      f ∙ ap some (mod-eq_of_lt (omega (arith, checksum_ieee-lt body))) in
    let e' : from_big_endian 2 (big_endian 2 version ++ fields) ≡ some version =
      from_big_endian-append 2 (big_endian 2 version) fields l'
      ∙ f'
      ∙ ap some (mod-eq_of_lt (omega (arith, h))) in
    (
      record { buf = body; offset = 6 },
      new_reader-append body (big_endian 4 c) version l
            (omega (arith, length-append (big_endian 2 version) fields, l'))
          ∙ rw (agree _ c e, version_agrees body _ version e') refl,
      record {
        whole = omega (arith, length-append (big_endian 2 version) fields, l');
        left =
            subst (λ n. drop n (big_endian 2 version ++ fields) ≡ fields) l'
              (drop-append (big_endian 2 version) fields);
      },
    )

ok-injective : {A : Type 0} {a b : A} → ok a ≡ ok b → a ≡ b
ok-injective e = cc

agreed : (o : Option ℕ) (n : ℕ) → same_number o n ≡ true → o ≡ some n
unfolding same_number
agreed none n h = absurd (cc)
agreed (some m) n h = ap some ((==_iff m n).0 h)

begun : (bs : List ℕ) → starts_with_magic bs ≡ true → bs ≡ magic ++ drop 4 bs
unfolding starts_with_magic
begun [] h = absurd (cc)
begun (a ∷ []) h = absurd (cc)
begun (a ∷ b ∷ []) h = absurd (cc)
begun (a ∷ b ∷ c ∷ []) h = absurd (cc)
begun (a ∷ b ∷ c ∷ d ∷ bs) h = ground arith

version_agreed :
    (body : List ℕ) (o : Option ℕ) (version : ℕ) (r : Reader)
    → check_version body o version ≡ ok r
    → (o ≡ some version) × (record { buf = body; offset = 6 } ≡ r)
unfolding check_version
version_agreed body none version r h = absurd (cc)
version_agreed body (some v) version r h = elim (Bool-cases (v == version)) [
  | inl e ↦ (ap some ((==_iff v version).0 e), ok-injective (rw e at h))
  | inr e ↦ absurd (cc (rw e at h))
]

check_frame-ok :
    (body sum : List ℕ) (version : ℕ) (r : Reader)
    → check_frame body sum version ≡ ok r
    → (body ≡ magic ++ drop 4 body)
      × (from_big_endian 4 sum ≡ some (checksum_ieee body))
      × (from_big_endian 2 (drop 4 body) ≡ some version)
      × (record { buf = body; offset = 6 } ≡ r)
unfolding check_frame
check_frame-ok body sum version r h = elim (Bool-cases (starts_with_magic body)) [
  | inr e ↦ absurd (cc (rw e at h))
  | inl m ↦ elim (Bool-cases (same_number (from_big_endian 4 sum) (checksum_ieee body))) [
    | inr e ↦ absurd (cc (rw (m, e) at h))
    | inl c ↦
        let (v, e) = version_agreed body _ version r (rw (m, c) at h) in
        (begun body m, agreed _ _ c, v, e)
  ]
]

-- The first bytes, read as a number, and those behind them.
number_front :
    (k n : ℕ) (bs : List ℕ)
    → k ≤ length bs
    → AreBytes bs
    → from_big_endian k bs ≡ some n
    → bs ≡ big_endian k n ++ drop k bs
number_front k n bs l h e =
    let parts : take k bs ++ drop k bs ≡ bs = take-drop k bs in
    let (ht, _) = All-split (λ b. b < 256) (take k bs) (drop k bs) (rw parts h) in
    let front : from_big_endian k (take k bs) ≡ some n =
      sym (from_big_endian-append k (take k bs) (drop k bs) (length-take k bs l)) ∙ rw parts e in
    let (same, _) = from_big_endian_lem k n (take k bs) (length-take k bs l) ht front in
    sym parts ∙ ap (λ c. c ++ drop k bs) same

-- A file of bytes that is opened was sealed.
pub new_reader-ok :
    (version : ℕ) (raw : List ℕ) (r : Reader)
    → AreBytes raw
    → new_reader raw version ≡ ok r
    → (fields : List ℕ) × (raw ≡ sealed (header version ++ fields)) × At r fields × AreBytes fields
unfolding new_reader sealed header
new_reader-ok version raw r h e = elim (Bool-cases (ltb (length raw) 10)) [
  | inl short ↦ absurd (cc (rw short at e))
  | inr long ↦
      let n = length raw - 4 in
      let body = take n raw in
      let sum = drop n raw in
      let enough : 10 ≤ length raw = ground (arith, long) in
      let parts : body ++ sum ≡ raw = take-drop n raw in
      let (hb, hs) = All-split (λ b. b < 256) body sum (rw parts h) in
      let (m, c, v, er) = check_frame-ok body sum version r (rw long at e) in
      let ls : length sum ≡ 4 = omega (arith, length-drop n raw) in
      let lb : length body ≡ n = length-take n raw (omega arith) in
      let (es, _) = from_big_endian_lem 4 (checksum_ieee body) sum ls hs c in
      let (_, h4) = All-split (λ b. b < 256) magic (drop 4 body) (subst AreBytes m hb) in
      let f : drop 4 body ≡ big_endian 2 version ++ drop 2 (drop 4 body) =
        number_front 2 version (drop 4 body) (omega (arith, length-drop 4 body, lb)) h4 v in
      let (_, hf) =
        All-split (λ b. b < 256) (big_endian 2 version) (drop 2 (drop 4 body))
          (subst AreBytes f h4) in
      let eb : body ≡ magic ++ (big_endian 2 version ++ drop 2 (drop 4 body)) =
        m ∙ ap (λ c. magic ++ c) f in
      let at : At (record { buf = body; offset = 6 }) (drop 2 (drop 4 body)) = record {
        whole = omega (arith, length-drop 4 body, length-drop 2 (drop 4 body), lb);
        left = drop-drop 4 2 body;
      } in
      (
        drop 2 (drop 4 body),
        sym parts ∙ ap (λ c. body ++ c) es ∙ ap sealed eb,
        subst (λ q. At q (drop 2 (drop 4 body))) er at,
        hf,
      )
]
