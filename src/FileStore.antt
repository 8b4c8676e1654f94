-- ===== src/FileStore.antt =====
-- store/file.rs: the event store that keeps its log in a file. The file is the state of a `Disk`;
-- a method that mutates its receiver returns the outcome and the state that it leaves, since a
-- failed call may have changed the file.
pub mod Rollback
pub mod Persist
pub mod Append
pub mod Scanned
pub mod Open
pub mod Crash
use weavatrix_memory.Base.{
  ℕ, ◌+◌, ◌*◌, Bool, true, false, not, List, [], ◌∷◌, length, ltb, eqb, if◌then◌else◌, Result, ok,
  err, panic, reject, ◌>>=◌, ◌>>◌, io, corrupt_log, external_modification, invalid_value,
  MemoryError, Option,
}
use weavatrix_memory.Codec.{Codec}
use weavatrix_memory.Disk.{Disk, IoResult, map_io}
use weavatrix_memory.Domain.{StreamId}
use weavatrix_memory.Event.{NewEvent, StoredEvent}
use weavatrix_memory.Frame.{file_header, encode_batch, scan, ScanOutcome}
use weavatrix_memory.Store.{
  InMemoryStore, ExpectedVersion, AppendReceipt, prepare_append, commit_prepared, from_events,
  restore, checked_add, u64_from,
}
use weavatrix_memory.Store as Memory
use weavatrix_memory.Store.Owned.{prepare_append_owned, commit_prepared_owned}

pub data RecoveryPolicy : Type 0 where
  strict truncate_partial_tail : RecoveryPolicy

pub data Durability : Type 0 where
  flush sync_data sync_all : Durability

pub record FileStoreOptions : Type 0 where
  pub recovery : RecoveryPolicy
  pub durability : Durability
  pub max_frame_bytes : ℕ

abbrev pub default_options : FileStoreOptions
default_options = record {
  recovery = RecoveryPolicy.strict;
  durability = Durability.sync_all;
  max_frame_bytes = 256 * 1024 * 1024;
}

-- The codec is an argument of the methods that use it, and the path is used by `open` alone.
pub record FileEventStore (E F : Type 0) : Type 0 where
  pub file : F
  pub options : FileStoreOptions
  pub inner : InMemoryStore E
  pub durable_len : ℕ

-- `self.call()?; rest` where both may change the receiver
infixl 4 ◌and_then◌
abbrev pub ◌and_then◌ : {S A B : Type 0} → Result A × S → (A → S → Result B × S) → Result B × S
(ok a, s) and_then next = next a s
(err e, s) and_then next = (err e, s)
(panic, s) and_then next = (panic, s)

module _ {F : Type 0} where
  unfoldable pub sync : Disk F → Durability → F → Result (Unit {0}) × F
  sync disk Durability.flush f = (ok tt, f)
  sync disk Durability.sync_data f =
      let (outcome, f') = disk.sync_data f in (map_io "sync event log" outcome, f')
  sync disk Durability.sync_all f =
      let (outcome, f') = disk.sync_all f in (map_io "sync event log data and metadata" outcome, f')

  -- the outcome of a call that drops the file when it fails
  abbrev pub keep : {A : Type 0} → Result A × F → Result (A × F)
  keep (ok a, f) = ok (a, f)
  keep (err e, f) = err e
  keep (panic, f) = panic

  -- an empty file gets its header
  unfoldable pub write_header : Disk F → Durability → F → Result F
  write_header disk durability f = do
    let (written, f₁) = disk.write_all file_header f
    map_io "write event log header" written
    (u, f₂) ← keep (sync disk durability f₁)
    ok f₂

module _ {E F : Type 0} where
  -- `open` after the scan, up to the restored store
  unfoldable pub recover :
      Disk F → FileStoreOptions → ScanOutcome E × F → Result (List (StoredEvent E) × ℕ × F)
  recover disk options (ScanOutcome.complete events durable_len, f) = ok (events, durable_len, f)
  recover disk options (ScanOutcome.partial_tail events durable_len, f) = elim options.recovery [
    | RecoveryPolicy.strict ↦ err (corrupt_log durable_len "partial trailing batch")
    | RecoveryPolicy.truncate_partial_tail ↦
        let (cut, f₁) = disk.set_len durable_len f in
        map_io "truncate partial event batch" cut >>= λ u.
        keep (sync disk options.durability f₁) >>= λ (v, f₂). ok (events, durable_len, f₂)
  ]

  -- `opened` is what `OpenOptions::open` gives for the path.
  unfoldable pub open_store :
      Disk F
      → (opened : IoResult F) → Codec (StoredEvent E)
      → FileStoreOptions
      → (fuel : ℕ) → Result (FileEventStore E F)
  open_store disk opened codec options fuel = do
    reject (ltb options.max_frame_bytes 4)
        (invalid_value "max_frame_bytes" "must fit at least the event-count field")
    f ← map_io "open event log" opened
    let (lock, f₁) = disk.try_lock f
    locked ← map_io "lock event log" lock
    reject (not locked) external_modification
    size ← map_io "read event log metadata" (disk.metadata_len f₁)
    f₂ ← if eqb size 0 then write_header disk options.durability f₁ else ok f₁
    scanned ← scan disk codec options.max_frame_bytes fuel f₂
    (events, durable_len, f₃) ← recover disk options scanned
    let (sought, f₄) = disk.seek_end f₃
    map_io "seek event log end" sought
    inner ← restore events
    ok (record { file = f₄; options = options; inner = inner; durable_len = durable_len })

  unfoldable pub rollback_tail :
      Disk F → FileEventStore E F → Result (Unit {0}) × FileEventStore E F
  rollback_tail disk st =
      let (cut, f₁) = disk.set_len st.durable_len st.file in
      (map_io "rollback partial event batch" cut, record st { file = f₁ }) and_then λ u st₁.
      let (sought, f₂) = disk.seek_start st₁.durable_len st₁.file in
      (map_io "seek after rollback" sought, record st₁ { file = f₂ }) and_then λ v st₂.
      let (synced, f₃) = sync disk st₂.options.durability st₂.file in
      (synced, record st₂ { file = f₃ })

  -- `if let Err(error) = call { self.rollback_tail()?; return Err(error); }`
  unfoldable pub or_rollback :
      Disk F → Result (Unit {0}) × FileEventStore E F → Result (Unit {0}) × FileEventStore E F
  or_rollback disk (ok u, st) = (ok u, st)
  or_rollback disk (err e, st) = rollback_tail disk st and_then λ u st'. (err e, st')
  or_rollback disk (panic, st) = (panic, st)

  unfoldable pub write_frame :
      Disk F → FileEventStore E F → (frame : List ℕ) → Result (Unit {0}) × FileEventStore E F
  write_frame disk st frame =
      let (sought, f₁) = disk.seek_start st.durable_len st.file in
      (map_io "seek append position" sought, record st { file = f₁ }) and_then λ u st₁.
      let (written, f₂) = disk.write_all frame st₁.file in
      or_rollback disk (map_io "append event batch" written, record st₁ { file = f₂ })
      and_then λ v st₂.
          let (synced, f₃) = sync disk st₂.options.durability st₂.file in
          or_rollback disk (synced, record st₂ { file = f₃ }) and_then λ w st₃.
          (u64_from (length frame) >>= λ size. checked_add st₃.durable_len size, st₃)
          and_then λ n st₄. (ok tt, record st₄ { durable_len = n })

  -- the frame for a batch, unless the file is not as long as it was left
  unfoldable pub frame_for :
      Disk F → Codec (StoredEvent E) → FileEventStore E F → List (StoredEvent E) → Result (List ℕ)
  frame_for disk codec st events = do
    actual_len ← map_io "read event log metadata" (disk.metadata_len st.file)
    reject (not (eqb actual_len st.durable_len)) external_modification
    encode_batch events codec st.options.max_frame_bytes

  unfoldable pub persist :
      Disk F
      → Codec (StoredEvent E)
      → FileEventStore E F
      → List (StoredEvent E)
      → Result (Unit {0}) × FileEventStore E F
  persist disk codec st [] = (ok tt, st)
  persist disk codec st (event ∷ events) =
      (frame_for disk codec st (event ∷ events), st) and_then λ frame st₁.
      write_frame disk st₁ frame

  unfoldable pub append :
      Disk F
      → Codec (StoredEvent E)
      → FileEventStore E F
      → StreamId
      → ExpectedVersion
      → List (NewEvent E)
      → Result (List (StoredEvent E)) × FileEventStore E F
  append disk codec st stream expected events =
      (prepare_append st.inner stream expected events, st) and_then λ committed st₁.
      persist disk codec st₁ committed and_then λ u st₂.
      (commit_prepared st₂.inner committed, st₂) and_then λ inner st₃.
      (ok committed, record st₃ { inner = inner })

  unfoldable pub append_owned :
      Disk F
      → Codec (StoredEvent E)
      → FileEventStore E F
      → StreamId
      → ExpectedVersion
      → List (NewEvent E)
      → Result (List (StoredEvent E)) × FileEventStore E F
  append_owned disk codec st stream expected events =
      (prepare_append_owned st.inner stream expected events, st) and_then λ committed st₁.
      persist disk codec st₁ committed and_then λ u st₂.
      (commit_prepared st₂.inner committed, st₂) and_then λ inner st₃.
      (ok committed, record st₃ { inner = inner })

  unfoldable pub append_owned_receipt :
      Disk F
      → Codec (StoredEvent E)
      → FileEventStore E F
      → StreamId
      → ExpectedVersion
      → List (NewEvent E)
      → Result AppendReceipt × FileEventStore E F
  append_owned_receipt disk codec st stream expected events =
      (prepare_append_owned st.inner stream expected events, st) and_then λ committed st₁.
      persist disk codec st₁ committed and_then λ u st₂.
      (commit_prepared_owned st₂.inner committed, st₂) and_then λ inner st₃.
      (ok (from_events committed), record st₃ { inner = inner })

  pub load_stream : FileEventStore E F → StreamId → Option ℕ → Result (List (StoredEvent E))
  load_stream st stream after = Memory.load_stream st.inner stream after

  pub load_all : FileEventStore E F → Option ℕ → (limit : ℕ) → List (StoredEvent E)
  load_all st after limit = Memory.load_all st.inner after limit

  pub stream_version : FileEventStore E F → StreamId → Result (Option ℕ)
  stream_version st stream = Memory.stream_version st.inner stream

  pub len : FileEventStore E F → ℕ
  len st = Memory.len st.inner
