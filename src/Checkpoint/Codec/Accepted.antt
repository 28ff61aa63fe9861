-- ===== src/Checkpoint/Codec/Accepted.antt =====
-- pkg/checkpoint/storage.go: a state file is accepted only if it is the one that was written.
use text.Mathlib.Text.{◌==◌ as str_eq}
use text.Mathlib.TextEquality.{eq_iff}
use tidemark.Prelude.{
  ℕ, ◌≡◌, ◌↔◌, ◌<◌, refl, sym, ap, ◌∙◌, ℤ, IsInt64, eqb_ℤ, eqb_ℤ_iff, String, false, not, ◌||◌,
  List, ◌++◌, length, ◌==◌, to_int64, to_int64-small, to_int64-large, arith, ltb, Bool-cases, inl,
  inr,
}
use tidemark.State.Encoding.{big_endian, to_uint64}
use tidemark.State.Encoding.Order.{AreBytes}
use tidemark.Checkpoint.Keys.{SubtaskKey}
use tidemark.Checkpoint.Codec.{
  format_ver, header, sealed, short_field, state_body, encode_subtask_state, decode_subtask_state,
  Read, ok, err, Reader, Action, new_reader, read_all, uint32, uint64, short_string, state_fields,
  wrong_checkpoint, wrong_subtask,
}
use tidemark.Checkpoint.Codec.Frame.{new_reader-ok}
use tidemark.Checkpoint.Codec.Reading.{At}
use tidemark.Checkpoint.Codec.Inversion.{
  >>=-ok, read_number-Reads, short_string-Reads, payload_bytes-Reads, raise_if-ok,
}
use tidemark.Checkpoint.Codec.RoundTrip.{FitsKey, decode-encode_subtask_state}

to_uint64-to_int64 : (n : ℕ) → n < 18446744073709551616 → to_uint64 (to_int64 n) ≡ n
unfolding to_uint64
to_uint64-to_int64 n h = elim (Bool-cases (ltb n 9223372036854775808)) [
  | inl e ↦ ap to_uint64 (to_int64-small n (ground (arith, e))) ∙ omega arith
  | inr e ↦ ap to_uint64 (to_int64-large n (ground (arith, e)) h) ∙ omega arith
]

final_ok :
    {A : Type 0} (x : Read (A × Reader)) (v : A)
    → (elim x [ ok (a, r') ↦ ok a | err e ↦ err e ]) ≡ ok v
    → (r' : Reader) × (x ≡ ok (v, r'))
final_ok (ok (a, r')) v h = (r', cc)
final_ok (err e) v h = absurd (cc)

read_all-ok :
    {A : Type 0} (opened : Read Reader) (act : Action A) (v : A)
    → read_all opened act ≡ ok v
    → (r : Reader) × (r' : Reader) × (opened ≡ ok r) × (act r ≡ ok (v, r'))
unfolding read_all
read_all-ok (err e) act v h = absurd (cc)
read_all-ok (ok r) act v h = let (r', e) = final_ok (act r) v h in (r, r', refl, e)

-- The number behind a test for equality.
eqb_ℤ-ok : (a b : ℤ) → not (eqb_ℤ a b) ≡ false → a ≡ b
eqb_ℤ-ok a b h = (eqb_ℤ_iff a b).0 (ground (arith, h))

same_subtask :
    (s : String) (i : ℕ) (key : SubtaskKey)
    → (not (str_eq s key.vertex_id) || not (i == key.index)) ≡ false
    → (s ≡ key.vertex_id) × (i ≡ key.index)
same_subtask s i key h = ((eq_iff s key.vertex_id).0 (ground (arith, h)), ground (arith, h))

-- The fields, one behind the other.
joined :
    (id : ℤ) (key : SubtaskKey) (payload : List ℕ) {n i m : ℕ} {s : String} {left l1 l2 l3 : List ℕ}
    → n ≡ to_uint64 id
    → s ≡ key.vertex_id
    → i ≡ key.index
    → m ≡ length payload
    → left ≡ big_endian 8 n ++ l1
    → l1 ≡ short_field s ++ l2
    → l2 ≡ big_endian 4 i ++ l3
    → l3 ≡ big_endian 8 m ++ payload
    → left
      ≡ big_endian 8 (to_uint64 id)
        ++ (short_field key.vertex_id
            ++ (big_endian 4 key.index ++ (big_endian 8 (length payload) ++ payload)))
joined id key payload en es ei em e e1 e2 e3 = rw (e, e1, e2, e3, en, es, ei, em) refl

state_fields-ok :
    (id : ℤ) (key : SubtaskKey) (r r' : Reader) (left payload : List ℕ)
    → At r left
    → AreBytes left
    → state_fields id key r ≡ ok (payload, r')
    → left
      ≡ big_endian 8 (to_uint64 id)
        ++ (short_field key.vertex_id
            ++ (big_endian 4 key.index ++ (big_endian 8 (length payload) ++ payload)))
unfolding state_fields uint64 uint32
state_fields-ok id key r r' left payload a h e =
    let (n, r1, e1, f1) = >>=-ok uint64 _ r r' payload e in
    let (small, p1) = read_number-Reads 8 r r1 left n a h e1 in
    let (c1, g1) =
      raise_if-ok (not (eqb_ℤ (to_int64 n) id)) (wrong_checkpoint (to_int64 n)) _ r1 r' payload
        f1 in
    let (s, r2, e2, f2) = >>=-ok short_string _ r1 r' payload g1 in
    let p2 = short_string-Reads r1 r2 p1.rest s p1.at p1.bytes e2 in
    let (i, r3, e3, f3) = >>=-ok uint32 _ r2 r' payload f2 in
    let (_, p3) = read_number-Reads 4 r2 r3 p2.rest i p2.at p2.bytes e3 in
    let (c3, g3) =
      raise_if-ok (not (str_eq s key.vertex_id) || not (i == key.index)) (wrong_subtask s i) _ r3 r'
        payload f3 in
    let (m, r4, e4, f4) = >>=-ok uint64 _ r3 r' payload g3 in
    let (_, p4) = read_number-Reads 8 r3 r4 p3.rest m p3.at p3.bytes e4 in
    let (last, long) = payload_bytes-Reads m r4 r' p4.rest payload p4.at p4.bytes f4 in
    let same_n : n ≡ to_uint64 id =
      sym (to_uint64-to_int64 n small) ∙ ap to_uint64 (eqb_ℤ-ok (to_int64 n) id c1) in
    let (same_s, same_i) = same_subtask s i key c3 in
    joined id key payload same_n same_s same_i (sym long) (p1.split) (p2.split) (p3.split)
      (p4.split ∙ ap (λ l. big_endian 8 m ++ l) last)

-- A file is accepted as the state of a subtask at a checkpoint, with some payload, exactly when it is,
-- byte for byte, what was written for that checkpoint, that subtask and that payload.
pub decode_subtask_state_iff :
    (raw : List ℕ) (id : ℤ) (key : SubtaskKey) (payload : List ℕ)
    → AreBytes raw
    → IsInt64 id
    → FitsKey key
    → length payload < 18446744073709551616
    → (decode_subtask_state raw id key ≡ ok payload) ↔ (raw ≡ encode_subtask_state id key payload)
unfolding decode_subtask_state encode_subtask_state state_body
decode_subtask_state_iff raw id key payload h hi hk hp = (
  λ e.
      let (r, r', opened, read) =
        read_all-ok (new_reader raw format_ver) (state_fields id key) payload e in
      let (fields, es, a, hf) = new_reader-ok format_ver raw r h opened in
      es
      ∙ ap (λ f. sealed (header format_ver ++ f))
          (state_fields-ok id key r r' fields payload a hf read),
  λ e.
      ap (λ f. decode_subtask_state f id key) e
      ∙ decode-encode_subtask_state id key payload hi hk hp,
)
