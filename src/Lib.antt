-- ===== src/Lib.antt =====
-- weavatrix-memory: an append-only event log, a bitemporal projection of the knowledge that its events
-- carry, and bounded context out of that projection. This library is a model of the crate's core with
-- the theorems that make it correct. Paths are from the repository's root.
--
-- Parts and files:
--   Base (Tests, Lists, Outcome): Boolean tests on numbers and texts, lists over the native numbers,
--     and `Result`, the outcome of a Rust call: `ok`, `err` with a `MemoryError` of src/error.rs, or
--     `panic` (an index out of range, a failed assertion). Map: BTreeMap, HashMap and the sets.
--   Time, Text, Domain, Event: src/time.rs, src/id.rs, src/domain, src/event.rs. Values, and the
--     constructors and validators that reject them.
--   Store: src/store/mod.rs and src/store/in_memory. Parent: state and operations. Log: what a log is.
--     Consistent: the indexes agree with the log. Prepare, Commit, Append, Owned: the two halves of an
--     append, by reference and by value. Restore, Load, History: restarts, queries, histories.
--   Bytes (Xor, Words): little-endian words, slices, exclusive or. Codec: the trait of src/codec/mod.rs.
--     Disk: the calls of std::fs::File, a record of operations on a file's state, of which any may fail,
--     with laws from the standard library's documentation.
--   Frame: src/store/frame.rs, batches as frames and the scan of a file. Checksum (Table): CRC-32C.
--     Room: what vectors are asked for. Reading, Taken: reads that are short or fail. Payload,
--     Layout, Encode: what a frame is. Rounds, Scan, Parts, Total: what the scan finds, and that it
--     returns.
--   FileStore: src/store/file.rs. Rollback, Persist, Append: what a call leaves in the file and in
--     memory. Scanned, Open: opening a file. Crash: an append, a crash, and opening.
--   Subscription (Delivery): src/store/subscription.rs, over any store that reads its log by position.
--   Replay (Cursor, Sequence, Resume, Invariant): src/projection/replay.rs over any projection. The
--     trait is a record of operations, and `IsLawful` is what its documentation asks.
--   Index (Refinement, Listing): src/projection/memory/index.rs, the hashed index of identifiers.
--   Projection: src/projection/memory. State, Query, Update, Apply: state.rs, the read side and the
--     write side of mod.rs, apply.rs. Rebuild (Indexed, Changes, Accepted): the indexes of stored
--     data, of state.rs. Parts: parts.rs. WellFormed (Nodes, Facts, Events, Total): the invariant and
--     that each operation keeps it. Replayed, Active, Incidents (Kept, Events), Visible, Views,
--     Past (Same, Steps): what replays, look-ups and views give.
--   Context (Budget): src/context/model.rs, scope.rs and token.rs. Compiler (the search; Fuel and
--     Total, its rounds and look-ups) and Selection (Totals, Costs, Bounds;
--     Known, Safe): src/context/compiler.rs.
--   Examples: the theorems at concrete inputs.
--
-- How they interact: a client appends to the store, which assigns stream versions and global
-- positions; a subscription polls the log; replay checks a log event by event and folds it into a
-- projection; the memory projection is one such projection and its own implementation of the trait.
--
-- Correspondence: a method that mutates its receiver takes the state and returns the new one, so an
-- error returns no state and the caller keeps the old. `u64` and `usize` are numbers below 2 ^ 64
-- where the code checks them with `checked_add` or `try_from`; the 64-bit arithmetic of the
-- fingerprint wraps. A timestamp is an integer that is only compared. Maps keep the order of their
-- keys; nothing depends on the order of a HashMap. The index's random seed is a parameter.
-- `debug_assert!` panics when it fails, as in a debug build; the sums of token estimates wrap, as
-- in a release build. Room for a vector of more than isize::MAX bytes is a panic; the size of an
-- event in a vector is a field of the codec. The workers of `prepare_facts` are joined in the order
-- of their chunks and are modelled as one pass. Every loop is recursion on a list, but for the
-- split of an identifier's bytes into words of eight, whose fuel is the number of bytes and which
-- takes at least one byte in each round; the filling of a buffer, whose fuel is its length and
-- whose rounds read a byte at least; the scan of a log file, whose rounds take a batch header of
-- sixteen bytes, so that the length of the file is enough; and the search from the seeds, where a
-- node enters the queue once, so that a round for each seed and each end of a fact is enough. A
-- scan or a search that runs out of fuel panics in the model. `usize` has 64 bits, so
-- `usize::try_from` of a `u64` succeeds and its errors do not occur.
--
-- Not modelled: the codecs (JSON, compression, encryption), which call other packages; snapshots;
-- the retrieval of seeds, analytics, evaluation, extraction and the graph translation, which is a
-- parameter of the context compiler, as the token estimator is. An allocation that the system
-- refuses, which aborts the process. Serialization itself: of stored projections only the rebuild
-- of the data read is modelled, and events are encoded by a codec that is a parameter. Of a file,
-- its path and the lock are left to the calls of the operating system. A crash is taken between
-- calls or within a write, and a write leaves a prefix of its bytes at the end of the file.
pub mod Base
pub mod Bytes
pub mod Map
pub mod Time
pub mod Text
pub mod Domain
pub mod Event
pub mod Store
pub mod Codec
pub mod Disk
pub mod Frame
pub mod FileStore
pub mod Subscription
pub mod Replay
pub mod Index
pub mod Projection
pub mod Context
pub mod Examples
