-- ===== src/Checkpoint/Codec/Tests.antt =====
-- pkg/checkpoint/storage.go: concrete files.
use tidemark.Prelude.{ℕ, ◌≡◌, ◌↔◌, refl, pos, List, [], ◌∷◌, arith}
use tidemark.Prelude.Int.{to_int64}
use tidemark.State.Encoding.{big_endian, from_big_endian, to_uint64}
use tidemark.Checkpoint.Keys.{SubtaskKey, Metadata}
use tidemark.Checkpoint.Framing.{bytes_of, string_of, checksum_ieee}
use tidemark.Checkpoint.Codec.{
  ok, err, crc_mismatch, wrong_checkpoint, wrong_subtask, encode_subtask_state,
  decode_subtask_state, encode_metadata, decode_metadata, read_all, new_reader, sealed, header,
  short_field, state_fields, uint64, uint32, read_number, take_bytes, payload_bytes, short_string,
}
use tidemark.Checkpoint.Codec.RoundTrip.{
  FitsKey, FitsMetadata, decode-encode_subtask_state, decode-encode_metadata,
}
use tidemark.Checkpoint.Codec.Accepted.{decode_subtask_state_iff}

abbrev key : SubtaskKey
key = record { vertex_id = "map-1"; index = 2 }

-- TDMK, version 1, checkpoint 3, "map-1", 2, two bytes of payload, the checksum.
abbrev file : List ℕ
file =
    84 ∷ 68 ∷ 77 ∷ 75 ∷ 0 ∷ 1 ∷ 0 ∷ 0 ∷ 0 ∷ 0 ∷ 0 ∷ 0 ∷ 0 ∷ 3 ∷ 0 ∷ 5 ∷ 109 ∷ 97 ∷ 112 ∷ 45 ∷ 49 ∷ 0
    ∷ 0 ∷ 0 ∷ 2 ∷ 0 ∷ 0 ∷ 0 ∷ 0 ∷ 0 ∷ 0 ∷ 0 ∷ 2 ∷ 7 ∷ 8 ∷ 0 ∷ 0 ∷ 0 ∷ 0 ∷ []

key-FitsKey : FitsKey key
unfolding bytes_of
key-FitsKey = record { bytes = omega arith; short = omega arith; small = omega arith }

decode-encode_subtask_state_example :
    decode_subtask_state (encode_subtask_state (pos 3) key (7 ∷ 8 ∷ [])) (pos 3) key
    ≡ ok (7 ∷ 8 ∷ [])
decode-encode_subtask_state_example =
    decode-encode_subtask_state (pos 3) key (7 ∷ 8 ∷ []) (omega arith) key-FitsKey (omega arith)

-- The last bytes are not the checksum.
file_refused : decode_subtask_state file (pos 3) key ≡ err crc_mismatch
unfolding decode_subtask_state encode_subtask_state read_all new_reader sealed header big_endian
    short_field bytes_of from_big_endian checksum_ieee to_uint64 state_fields uint64 read_number
    take_bytes to_int64 payload_bytes short_string uint32 string_of
file_refused = refl

decode_subtask_state_iff_example :
    (decode_subtask_state file (pos 3) key ≡ ok (7 ∷ 8 ∷ []))
    ↔ (file ≡ encode_subtask_state (pos 3) key (7 ∷ 8 ∷ []))
decode_subtask_state_iff_example =
    decode_subtask_state_iff file (pos 3) key (7 ∷ 8 ∷ []) (omega arith) (omega arith) key-FitsKey
      (omega arith)

-- A file is refused for another checkpoint, and for another subtask.
refused_checkpoint :
    decode_subtask_state (encode_subtask_state (pos 3) key []) (pos 4) key
    ≡ err (wrong_checkpoint (pos 3))
unfolding decode_subtask_state encode_subtask_state read_all new_reader sealed header big_endian
    short_field bytes_of from_big_endian checksum_ieee to_uint64 state_fields uint64 read_number
    take_bytes to_int64 payload_bytes short_string uint32 string_of
refused_checkpoint = refl

refused_subtask :
    decode_subtask_state
      (encode_subtask_state (pos 3) key [])
      (pos 3)
      (record { vertex_id = "map"; index = 12 })
    ≡ err (wrong_subtask "map-1" 2)
unfolding decode_subtask_state encode_subtask_state read_all new_reader sealed header big_endian
    short_field bytes_of from_big_endian checksum_ieee to_uint64 state_fields uint64 read_number
    take_bytes to_int64 payload_bytes short_string uint32 string_of
refused_subtask = refl

abbrev job : Metadata
job = record {
  vertices =
      record { id = "source"; parallelism = 2; count = pos 5 }
      ∷ record { id = "sink"; parallelism = 1; count = pos 0 }
      ∷ [];
  seed = 1;
}

job-FitsMetadata : FitsMetadata job
unfolding bytes_of
job-FitsMetadata = record {
  seed = omega arith;
  few = omega arith;
  vertices = (
    record {
      bytes = omega arith;
      short = omega arith;
      small = omega arith;
      count_IsInt64 = omega arith;
    },
    (
      record {
        bytes = omega arith;
        short = omega arith;
        small = omega arith;
        count_IsInt64 = omega arith;
      },
      tt,
    ),
  );
}

decode-encode_metadata_example : decode_metadata (encode_metadata job) ≡ ok job
decode-encode_metadata_example = decode-encode_metadata job job-FitsMetadata
