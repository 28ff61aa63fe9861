-- ===== src/Checkpoint/Codec/RoundTrip.antt =====
-- pkg/checkpoint/storage.go: what is read back of a file that was written.
use text.Mathlib.Text.{◌==◌ as str_eq}
use text.Mathlib.TextEquality.{eq_iff}
use tidemark.Prelude.{
  ℕ, ◌≡◌, ◌<◌, refl, ℤ, IsInt64, eqb_ℤ, eqb_ℤ_iff, true, List, [], ◌∷◌, ◌++◌, length, All, ◌==◌,
  ==_iff, to_int64, arith,
}
use tidemark.State.Encoding.{big_endian, to_uint64}
use tidemark.State.Encoding.Order.{uint64_bound, to_int64-to_uint64}
use tidemark.Checkpoint.Keys.{SubtaskKey, VertexMeta, Metadata}
use tidemark.Checkpoint.Framing.{bytes_of, IsByteString}
use tidemark.Checkpoint.Codec.{
  format_ver, metadata_ver, short_field, state_body, metadata_body, encode_vertices,
  encode_subtask_state, encode_metadata, decode_subtask_state, decode_metadata, Read, ok, Reader,
  Action, ◌>>=◌, continue, read_all, uint32, uint64, state_fields, read_vertex, read_vertices,
  metadata_fields,
}
use tidemark.Checkpoint.Codec.Frame.{new_reader-sealed}
use tidemark.Checkpoint.Codec.Reading.{At, field-Parses, short_string-Parses, payload_bytes_lem}

-- What a file holds fits the fields of the format.
pub record FitsKey (k : SubtaskKey) : Type 0 where
  pub bytes : IsByteString k.vertex_id
  pub short : length (bytes_of k.vertex_id) < 65536
  pub small : k.index < 4294967296

pub record FitsVertex (v : VertexMeta) : Type 0 where
  pub bytes : IsByteString v.id
  pub short : length (bytes_of v.id) < 65536
  pub small : v.parallelism < 4294967296
  pub count_IsInt64 : IsInt64 v.count

pub record FitsMetadata (m : Metadata) : Type 0 where
  pub seed : m.seed < 18446744073709551616
  pub few : length m.vertices < 4294967296
  pub vertices : All FitsVertex m.vertices

-- What state_fields reads, in order.
state_fields_lem :
    (id : ℤ) (key : SubtaskKey) (payload : List ℕ) (r : Reader)
    → IsInt64 id
    → FitsKey key
    → length payload < 18446744073709551616
    → At r (
        big_endian 8 (to_uint64 id)
        ++ (short_field key.vertex_id
            ++ (big_endian 4 key.index ++ (big_endian 8 (length payload) ++ payload))))
    → (r' : Reader) × (state_fields id key r ≡ ok (payload, r'))
unfolding state_fields uint64 uint32
state_fields_lem id key payload r hi hk hp a =
    let (r1, e1, a1) = field-Parses 8 (to_uint64 id) (uint64_bound id) r _ a in
    let same_id : eqb_ℤ (to_int64 (to_uint64 id)) id ≡ true =
      (eqb_ℤ_iff _ id).1 (to_int64-to_uint64 id hi) in
    let (r2, e2, a2) = short_string-Parses key.vertex_id hk.bytes hk.short r1 _ a1 in
    let (r3, e3, a3) = field-Parses 4 key.index (omega (arith, hk.small)) r2 _ a2 in
    let same_name : str_eq key.vertex_id key.vertex_id ≡ true = (eq_iff _ _).1 refl in
    let same_index : (key.index == key.index) ≡ true = (==_iff _ _).1 refl in
    let (r4, e4, a4) = field-Parses 8 (length payload) (omega (arith, hp)) r3 payload a3 in
    let (r5, e5) = payload_bytes_lem payload r4 a4 in
    (
      r5,
      rw (e1, ◌>>=◌, continue) (rw same_id (rw e2 (rw e3 (rw (same_name, same_index) (rw e4 e5))))),
    )

read_all_lem :
    {A : Type 0} (opened : Read Reader) (act : Action A) (r r' : Reader) (v : A)
    → opened ≡ ok r
    → act r ≡ ok (v, r')
    → read_all opened act ≡ ok v
unfolding read_all
read_all_lem opened act r r' v e f = rw e (rw (f, read_all) refl)

-- A state file read back for the checkpoint and the subtask it was written for gives its payload.
pub decode-encode_subtask_state :
    (id : ℤ) (key : SubtaskKey) (payload : List ℕ)
    → IsInt64 id
    → FitsKey key
    → length payload < 18446744073709551616
    → decode_subtask_state (encode_subtask_state id key payload) id key ≡ ok payload
unfolding decode_subtask_state encode_subtask_state state_body
decode-encode_subtask_state id key payload hi hk hp =
    let (r, e, a) = new_reader-sealed format_ver _ (omega arith) in
    let (r', f) = state_fields_lem id key payload r hi hk hp a in
    read_all_lem _ (state_fields id key) r r' payload e f

read_vertex_lem :
    (v : VertexMeta) (rest : List ℕ) (r : Reader)
    → FitsVertex v
    → At r (
        short_field v.id
        ++ (big_endian 4 v.parallelism ++ (big_endian 8 (to_uint64 v.count) ++ rest)))
    → (r' : Reader) × (read_vertex r ≡ ok (v, r')) × At r' rest
unfolding read_vertex uint64 uint32
read_vertex_lem v rest r h a =
    let (r1, e1, a1) = short_string-Parses v.id h.bytes h.short r _ a in
    let (r2, e2, a2) = field-Parses 4 v.parallelism (omega (arith, h.small)) r1 _ a1 in
    let (r3, e3, a3) = field-Parses 8 (to_uint64 v.count) (uint64_bound v.count) r2 rest a2 in
    (
      r3,
      rw (e1, ◌>>=◌, continue)
          (rw e2 (rw e3 (rw (to_int64-to_uint64 v.count h.count_IsInt64) refl))),
      a3,
    )

read_vertices_lem :
    (vs : List VertexMeta) (r : Reader)
    → All FitsVertex vs
    → At r (encode_vertices vs)
    → (r' : Reader) × (read_vertices (length vs) r ≡ ok (vs, r'))
unfolding read_vertices encode_vertices
read_vertices_lem [] r h a = (r, refl)
read_vertices_lem (v ∷ vs) r h a =
    let (r1, e1, a1) = read_vertex_lem v (encode_vertices vs) r h.0 a in
    let (r2, e2) = read_vertices_lem vs r1 h.1 a1 in (r2, rw (e1, ◌>>=◌, continue) (rw e2 refl))

-- The metadata that was written is read back.
pub decode-encode_metadata :
    (m : Metadata) → FitsMetadata m → decode_metadata (encode_metadata m) ≡ ok m
unfolding decode_metadata encode_metadata metadata_body metadata_fields uint64 uint32
decode-encode_metadata m h =
    let (r, e, a) =
      new_reader-sealed metadata_ver
        (big_endian 8 m.seed ++ (big_endian 4 (length m.vertices) ++ encode_vertices m.vertices))
        (omega arith) in
    let (r1, e1, a1) = field-Parses 8 m.seed (omega (arith, h.seed)) r _ a in
    let (r2, e2, a2) = field-Parses 4 (length m.vertices) (omega (arith, h.few)) r1 _ a1 in
    let (r3, e3) = read_vertices_lem m.vertices r2 h.vertices a2 in
    read_all_lem _ metadata_fields r r3 m e (rw (e1, ◌>>=◌, continue) (rw e2 (rw e3 refl)))
