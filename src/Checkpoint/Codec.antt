-- ===== src/Checkpoint/Codec.antt =====
-- pkg/checkpoint/storage.go: the state file of a subtask and the metadata file, as bytes. Both begin
-- with the magic and a version and end with a checksum of all that stands before it. `Reader` is
-- `reader`, whose methods return a value and the reader after it, or an error.
pub mod Frame
pub mod Reading
pub mod RoundTrip
pub mod Inversion
pub mod Accepted
mod Tests
use text.Mathlib.Text.{◌==◌ as str_eq}
use tidemark.Prelude.{
  ℕ, zero, suc, ◌+◌, ◌-◌, ◌≡◌, ℤ, eqb_ℤ, Bool, true, false, ◌&&◌, ◌||◌, not, Option, none, some,
  String, List, [], ◌∷◌, ◌++◌, length, take, drop, ltb, ◌==◌, if◌then◌else◌, to_int64,
}
use tidemark.State.Encoding.{big_endian, from_big_endian, to_uint64}
use tidemark.Checkpoint.Framing.{bytes_of, string_of, checksum_ieee}
use tidemark.Checkpoint.Keys.{SubtaskKey, VertexMeta, Metadata}

-- "TDMK".
abbrev pub magic : List ℕ
magic = 84 ∷ 68 ∷ 77 ∷ 75 ∷ []

abbrev pub format_ver : ℕ
format_ver = 1

abbrev pub metadata_ver : ℕ
metadata_ver = 1

-- A file with its checksum after it.
unfoldable pub sealed : List ℕ → List ℕ
sealed body = body ++ big_endian 4 (checksum_ieee body)

-- What stands before the fields that a file is about.
unfoldable pub header : ℕ → List ℕ
header version = magic ++ big_endian 2 version

-- A string after its length in 16 bits.
unfoldable pub short_field : String → List ℕ
short_field s = big_endian 2 (length (bytes_of s)) ++ bytes_of s

state_body : ℤ → SubtaskKey → List ℕ → List ℕ
state_body id key payload =
    header format_ver
    ++ (big_endian 8 (to_uint64 id)
        ++ (short_field key.vertex_id
            ++ (big_endian 4 key.index ++ (big_endian 8 (length payload) ++ payload))))

unfoldable pub encode_subtask_state : ℤ → SubtaskKey → List ℕ → List ℕ
unfolding state_body
encode_subtask_state id key payload = sealed (state_body id key payload)

encode_vertices : List VertexMeta → List ℕ
encode_vertices [] = []
encode_vertices (v ∷ vs) =
    short_field v.id
    ++ (big_endian 4 v.parallelism ++ (big_endian 8 (to_uint64 v.count) ++ encode_vertices vs))

metadata_body : Metadata → List ℕ
metadata_body m =
    header metadata_ver
    ++ (big_endian 8 m.seed ++ (big_endian 4 (length m.vertices) ++ encode_vertices m.vertices))

unfoldable pub encode_metadata : Metadata → List ℕ
unfolding metadata_body encode_vertices
encode_metadata m = sealed (metadata_body m)

pub data FormatError : Type 0 where
  short_file : FormatError
  bad_magic : FormatError
  crc_mismatch : FormatError
  bad_version : ℕ → FormatError
  wrong_checkpoint : ℤ → FormatError
  wrong_subtask : String → ℕ → FormatError

pub data Read (A : Type 0) : Type 0 where
  ok : A → Read A
  err : FormatError → Read A

pub record Reader : Type 0 where
  pub buf : List ℕ
  pub offset : ℕ

-- A method of the reader.
abbrev pub Action : Type 0 → Type 0
Action A = Reader → Read (A × Reader)

abbrev pub pure : {A : Type 0} → A → Action A
pure a r = ok (a, r)

abbrev pub raise : {A : Type 0} → FormatError → Action A
raise e r = err e

abbrev pub continue : {A B : Type 0} → Read (A × Reader) → (A → Action B) → Read (B × Reader)
continue (ok (a, r)) f = f a r
continue (err e) f = err e

infixl 5 ◌>>=◌
abbrev pub ◌>>=◌ : {A B : Type 0} → Action A → (A → Action B) → Action B
◌>>=◌ m f r = continue (m r) f

-- `take`. Every caller asks for a number that is not negative.
unfoldable pub take_bytes : ℕ → Action (List ℕ)
take_bytes n r =
    if ltb (length r.buf) (r.offset + n)
    then err short_file
    else ok (take n (drop r.offset r.buf), record r { offset = r.offset + n })

-- binary.BigEndian.Uint on a slice that is long enough.
number : ℕ → List ℕ → Action ℕ
number k bs = elim (from_big_endian k bs) [ none ↦ raise short_file | some n ↦ pure n ]

unfoldable pub read_number : ℕ → Action ℕ
unfolding number
read_number k = do bs ← take_bytes k; number k bs

-- `uint32` and `uint64`.
unfoldable pub uint32 : Action ℕ
uint32 = read_number 4

unfoldable pub uint64 : Action ℕ
uint64 = read_number 8

unfoldable pub short_string : Action String
short_string = do n ← read_number 2; bs ← take_bytes n; pure (string_of bs)

-- Whether the reader has come to the end.
at_end : List ℕ → Action (List ℕ)
at_end out r = if not (r.offset == length r.buf) then err short_file else ok (out, r)

-- `bytes`: a payload that runs to the end.
unfoldable pub payload_bytes : ℕ → Action (List ℕ)
unfolding at_end
payload_bytes n r =
    if ltb (length r.buf - r.offset) n then err short_file else (take_bytes n >>= at_end) r

starts_with_magic : List ℕ → Bool
starts_with_magic (a ∷ b ∷ c ∷ d ∷ bs) = (a == 84) && ((b == 68) && ((c == 77) && (d == 75)))
starts_with_magic _ = false

same_number : Option ℕ → ℕ → Bool
same_number none n = false
same_number (some m) n = m == n

-- The version, and the reader behind it.
check_version : List ℕ → Option ℕ → ℕ → Read Reader
check_version body none version = err short_file
check_version body (some v) version =
    if not (v == version) then err (bad_version v) else ok (record { buf = body; offset = 6 })

-- The checks of `newReader` behind the length: `body` is all but the last four bytes.
unfoldable pub check_frame : List ℕ → List ℕ → ℕ → Read Reader
unfolding starts_with_magic same_number check_version
check_frame body sum version =
    if not (starts_with_magic body)
    then err bad_magic
    else if not (same_number (from_big_endian 4 sum) (checksum_ieee body))
    then err crc_mismatch
    else check_version body (from_big_endian 2 (drop 4 body)) version

unfoldable pub new_reader : List ℕ → ℕ → Read Reader
unfolding check_frame
new_reader raw version =
    if ltb (length raw) 10
    then err short_file
    else check_frame (take (length raw - 4) raw) (drop (length raw - 4) raw) version

-- The value that an action on a new reader leaves, and the error of either.
unfoldable pub read_all : {A : Type 0} → Read Reader → Action A → Read A
read_all (err e) act = err e
read_all (ok r) act = elim (act r) [ ok (a, r') ↦ ok a | err e ↦ err e ]

abbrev pub raise_if : Bool → FormatError → Action (Unit {0})
raise_if c e r = if c then err e else ok (tt, r)

unfoldable pub state_fields : ℤ → SubtaskKey → Action (List ℕ)
state_fields want_id want_key = do
  id ← uint64
  _ ← raise_if (not (eqb_ℤ (to_int64 id) want_id)) (wrong_checkpoint (to_int64 id))
  vertex_id ← short_string
  index ← uint32
  _ ←
      raise_if (not (str_eq vertex_id want_key.vertex_id) || not (index == want_key.index))
        (wrong_subtask vertex_id index)
  n ← uint64
  payload_bytes n

unfoldable pub decode_subtask_state : List ℕ → ℤ → SubtaskKey → Read (List ℕ)
decode_subtask_state raw want_id want_key =
    read_all (new_reader raw format_ver) (state_fields want_id want_key)

read_vertex : Action VertexMeta
read_vertex = do
  id ← short_string
  parallelism ← uint32
  count ← uint64
  pure (record { id = id; parallelism = parallelism; count = to_int64 count })

unfoldable pub read_vertices : ℕ → Action (List VertexMeta)
unfolding read_vertex
read_vertices zero = pure []
read_vertices (suc n) = do v ← read_vertex; vs ← read_vertices n; pure (v ∷ vs)

unfoldable pub metadata_fields : Action Metadata
metadata_fields = do
  seed ← uint64
  n ← uint32
  vs ← read_vertices n
  pure (record { vertices = vs; seed = seed })

unfoldable pub decode_metadata : List ℕ → Read Metadata
decode_metadata raw = read_all (new_reader raw metadata_ver) metadata_fields
