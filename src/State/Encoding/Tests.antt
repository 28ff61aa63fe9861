-- ===== src/State/Encoding/Tests.antt =====
-- pkg/state/encoding.go: a negative time sorts before a positive one.
use tidemark.Prelude.{◌≡◌, pos, negsuc, ltb_ℤ, some, arith}
use tidemark.State.Encoding.{encode_ordered_int64, decode_ordered_int64}
use tidemark.State.Encoding.Order.{sorts_before, encode_ordered_int64_lem}

encode_ordered_int64_lem_example :
    (decode_ordered_int64 (encode_ordered_int64 (negsuc 4)) ≡ some (negsuc 4))
    × (sorts_before (encode_ordered_int64 (negsuc 4)) (encode_ordered_int64 (pos 300))
        ≡ ltb_ℤ (negsuc 4) (pos 300))
encode_ordered_int64_lem_example =
    encode_ordered_int64_lem (negsuc 4) (pos 300) (omega arith, omega arith)
      (omega arith, omega arith)
