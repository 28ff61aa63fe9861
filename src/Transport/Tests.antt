-- ===== src/Transport/Tests.antt =====
-- pkg/transport/writer.go: two groups of outputs, one of which refuses what it is sent.
use tidemark.Prelude.{
  ℕ, ◌≡◌, ◌≢◌, ◌<◌, ◌%◌, refl, ◌&&◌, none, some, List, [], ◌∷◌, ◌++◌, length, get_elem?, ◌==◌,
  if◌then◌else◌, pos, true, false, arith,
}
use tidemark.Core.{Record, StreamElement, record_element, end_of_stream_element}
use tidemark.Transport.{
  Outputs, Writer, fnv1a, new_writer, wrap_error, emit_record, broadcast, close_all, count_outputs,
}
use tidemark.Transport.Routing.{routes, every_output, send_to, close_each, emit_record_lem}
use tidemark.Transport.Channel.Order.{
  Call, sends, receives, closes, calls, opened, ChannelInv, calls-ChannelInv,
}
use tidemark.Transport.Reach.{occurrences, has_output, broadcast_lem}

-- What was sent where; output 1 of group 1 refuses.
abbrev recorded : Outputs
recorded = record {
  State = List (ℕ × ℕ × StreamElement);
  SendError = ℕ;
  send = λ i j e s. if (i == 1) && (j == 1) then (some 7, s) else (none, s ++ (i, j, e) ∷ []);
  close = λ i j s. s;
}

abbrev sizes : List ℕ
sizes = 2 ∷ 3 ∷ []

abbrev pair : Writer
pair = record { groups = sizes; outputs = 5 }

abbrev keyed : Record
keyed = record { key = 97 ∷ []; value = []; event_time = pos 1 }

pair_made : new_writer sizes ≡ some pair
unfolding new_writer count_outputs
pair_made = refl

keyed_key : keyed.key ≢ []
keyed_key e = absurd (ground (arith, e))

emit_record_lem_example :
    let h = fnv1a keyed.key in
    (emit_record recorded pair keyed []
      ≡ wrap_error recorded (send_to recorded (routes h 0 sizes) (record_element keyed) []))
    × (length (routes h 0 sizes) ≡ length sizes)
    × ((i n : ℕ)
        → get_elem? sizes i ≡ some n
        → (get_elem? (routes h 0 sizes) i ≡ some (i, h % n)) × (h % n < n))
emit_record_lem_example = emit_record_lem recorded sizes pair keyed [] pair_made keyed_key

broadcast_lem_example :
    let os = every_output 0 pair.groups in
    (broadcast recorded pair end_of_stream_element []
      ≡ send_to recorded os end_of_stream_element [])
    × (close_all recorded pair [] ≡ close_each recorded os [])
    × ((i j : ℕ) → occurrences i j os ≡ (if has_output pair.groups i j then 1 else 0))
broadcast_lem_example = broadcast_lem recorded pair end_of_stream_element []

-- Two sends into one slot, of which the second waits; then both ends go on.
abbrev one_slot : List Call
one_slot =
    sends false true end_of_stream_element
    ∷ sends false true (record_element keyed)
    ∷ receives
    ∷ closes
    ∷ receives
    ∷ []

calls-ChannelInv_example : ChannelInv (calls (opened (pos 1)) one_slot)
calls-ChannelInv_example = calls-ChannelInv (pos 1) one_slot
