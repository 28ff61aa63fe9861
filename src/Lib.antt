-- ===== src/Lib.antt =====
-- A model of Tidemark's stream engine, and the theorems about it.
--
-- A job is a graph of vertices, each run as parallel subtasks. A source subtask reads a range of
-- offsets and sends records, watermarks and barriers; a writer routes what a subtask sends to the
-- subtasks downstream; a gate merges what arrives on a subtask's inputs into one stream; and a
-- coordinator decides which checkpoints are complete.
--
--   Prelude               Boolean tests on natural numbers, lists and arrays, int64.
--   Core                  pkg/core/element.go.
--   Runtime/Faults        pkg/runtime/subtask.go: the fault injector's questions.
--   Runtime/Gate          pkg/runtime/gate.go. `handle`, `deliver`, `on_barrier`,
--                         `complete_alignment`, `on_end_of_stream` and `advance` are the methods of
--                         those names as functions of the gate's state, and `round` is one turn of the
--                         loop of `Recv`. Gate/History has runs: rounds from a new gate, with what it
--                         returned and, as a ghost, what was delivered.
--   Runtime/Source        pkg/runtime/source_task.go: `sourceRange`, `maxBarriers` and
--                         `barrierGenerator`, and in Source/Loop
--                         `sourceLoop` with `seekToRange` and `apply`.
--   Runtime/EventTime     pkg/runtime/source_task.go: `subFloor` and `watermarkGenerator`, whose
--                         `onRecord` is `observe`.
--   Runtime/Pipeline      source subtasks, run by `sourceLoop`, that feed a gate through the routing of records.
--                         What a send or the context may report is a function of what was sent.
--   Transport             pkg/transport/writer.go, and in Transport/Channel
--                         pkg/transport/channel.go.
--   Checkpoint/Keys       pkg/checkpoint/storage.go: keys, metadata, `CheckAgainst`.
--   Checkpoint/Framing    pkg/checkpoint/storage.go: bytes, and the CRC-32 of a file. Checkpoint/Codec has the
--                         encoders and the decoders, Checkpoint/Decimal the numbers in file names, and
--                         Checkpoint/Files `writeFileSynced` and the calls of the storage, over a file
--                         system that is a parameter.
--   Checkpoint/Coordinator  pkg/checkpoint/coordinator.go. Each method holds a mutex from end to end, so
--                         a history is a list of calls.
--   Graph                 pkg/graph/graph.go: `AddVertex`, `Connect` and the checks of one vertex.
--   Operators/Windows     pkg/operators/window.go: which windows contain an event time, when they fire
--                         and when they are purged.
--   Operators/Layout      pkg/operators/window.go: the keys and the values of the operator's state.
--   Operators/Counting    pkg/operators/window.go: `ProcessElement`, and `ProcessWatermark` with the scan
--                         for due timers, the firing and the purge.
--                         Counting/Reference says what is to be counted, without the state: a
--                         record is in a window if `windowsFor` has it among the record's, and
--                         Counting/Run has runs.
--   State/Encoding        pkg/state/encoding.go.
--   State/Keyed           pkg/state/state.go: the state in memory, a map by a list that is sorted by key.
--
-- The modules named Tests hold concrete inputs.
--
-- Goroutines and channels. The forwarders of a gate only interleave their inputs on one channel, so a
-- gate is run on a list of arrivals, and a theorem about every list holds for every interleaving. A
-- receive on a channel with nothing to come is closure.
--
-- Bounds. An int64 is an integer, and its arithmetic wraps where the code's can overflow. `recv` takes
-- fuel, the number of rounds of its loop: more than the square of the elements in hand and to come, plus
-- those that are not held back, is enough. `loop` takes fuel too: more than the offsets that are left.
--
-- What is assumed. The coordinator is given its storage as a record of operations and laws: a write or
-- a completion without an error took effect, and neither removes anything. The storage on files fills
-- this record, over a file system that does what package os says: what a call without an error did is
-- done, and a read finds what was last written. Of a writer's outputs nothing is assumed, and of a source
-- what pkg/core/io.go says of its position. The watermarks of a window operator are those of a gate: they
-- never go back.
--
-- Errors are told apart by their kind and the number in them, not by their text.
--
-- Not modelled: the loops that run operators and sinks, `Validate` and the topological order of a graph,
-- the serialised keyed state and the binding of Pebble, the other operators, the concrete sources and
-- the sinks; nor logging, the command line and the benchmarks.
pub mod Prelude
pub mod Core
pub mod Checkpoint
pub mod Graph
pub mod Operators
pub mod Runtime
pub mod State
pub mod Transport
