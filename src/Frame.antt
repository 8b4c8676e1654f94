-- ===== src/Frame.antt =====
-- store/frame.rs: the frames of the log file. A batch of events is a frame: a marker, the payload's
-- length, its checksum, and the payload, which holds the number of events and each event's length
-- and bytes. `usize` is a 64-bit word, so `usize::try_from` of a `u64` succeeds. Room for more bytes
-- than `isize::MAX` is a panic; an allocation that the system refuses is outside the model.
pub mod Checksum
pub mod Reading
pub mod Room
pub mod Payload
pub mod Layout
pub mod Rounds
pub mod Scan
pub mod Encode
pub mod Taken
pub mod Parts
pub mod Total
use weavatrix_memory.Base.{
  ℕ, zero, suc, ◌+◌, ◌-◌, ◌*◌, ◌%◌, ◌^◌, Bool, true, false, not, Option, none, some, List, [], ◌∷◌,
  ◌++◌, ltb, leb, eqb, if◌then◌else◌, length, take, drop, Result, ok, err, panic, ok_or, reject,
  ◌>>=◌, ◌>>◌, capacity_overflow, corrupt_log, invalid_value, String, MemoryError,
}
use weavatrix_memory.Index.{from_le_bytes}
use weavatrix_memory.Bytes.Words.{to_le_bytes, bytes_eq, get_slice}
use weavatrix_memory.Codec.{Codec}
use weavatrix_memory.Disk.{Disk, IoResult, map_io}
use weavatrix_memory.Event.{StoredEvent}
use weavatrix_memory.Store.{u64_mod, u64_from, checked_add}
use weavatrix_memory.Frame.Checksum.{u32_mod, crc32c}

-- b"WMEMLOG1"
abbrev pub file_header : List ℕ
file_header = 0x57 ∷ 0x4d ∷ 0x45 ∷ 0x4d ∷ 0x4c ∷ 0x4f ∷ 0x47 ∷ 0x31 ∷ []

-- b"BAT1"
abbrev pub batch_magic : List ℕ
batch_magic = 0x42 ∷ 0x41 ∷ 0x54 ∷ 0x31 ∷ []

abbrev pub batch_header_len : ℕ
batch_header_len = 16

-- `isize::MAX`
abbrev pub isize_max : ℕ
isize_max = 2 ^ 63 - 1

-- `vec![0; bytes]` and `Vec::with_capacity`, which panic with a capacity overflow
unfoldable pub allocate : (bytes : ℕ) → Result (Unit {0})
allocate bytes = if ltb isize_max bytes then panic else ok tt

abbrev pub corrupt : (offset : ℕ) (reason : String) → MemoryError
corrupt offset reason = corrupt_log offset reason

-- `checked_add` of two `usize`
abbrev pub checked_end : (cursor length : ℕ) → Option ℕ
checked_end cursor length = if ltb (cursor + length) u64_mod then some (cursor + length) else none

-- `Option::filter`
abbrev pub at_most : (limit : ℕ) → Option ℕ → Option ℕ
at_most limit none = none
at_most limit (some end) = if leb end limit then some end else none

-- `read_u32` and `read_u64`: the value, and the cursor after it
abbrev pub word_of : (end : ℕ) → Option (List ℕ) → Option (ℕ × ℕ)
word_of end none = none
word_of end (some word) = some (from_le_bytes word, end)

abbrev pub read_word_to : (bytes : List ℕ) (cursor : ℕ) → Option ℕ → Option (ℕ × ℕ)
read_word_to bytes cursor none = none
read_word_to bytes cursor (some end) = word_of end (get_slice bytes cursor end)

unfoldable pub read_u32 : (bytes : List ℕ) (cursor : ℕ) → Option (ℕ × ℕ)
read_u32 bytes cursor = read_word_to bytes cursor (checked_end cursor 4)

unfoldable pub read_u64 : (bytes : List ℕ) (cursor : ℕ) → Option (ℕ × ℕ)
read_u64 bytes cursor = read_word_to bytes cursor (checked_end cursor 8)

pub data ReadState : Type 0 where
  complete : (output : List ℕ) → ReadState
  partial eof : ReadState

pub data ScanOutcome (E : Type 0) : Type 0 where
  complete partial_tail : (events : List (StoredEvent E)) (durable_len : ℕ) → ScanOutcome E

module _ {F : Type 0} where
  -- `read_or_partial`, with what is in the buffer so far. Every round reads a byte or more, so the
  -- fuel is the length of the buffer.
  unfoldable pub fill : Disk F → (fuel want : ℕ) (output : List ℕ) → F → IoResult ReadState × F
  fill disk zero want output f = (IoResult.done (ReadState.complete output), f)
  fill disk (suc fuel) want output f = elim (ltb (length output) want) [
    | false ↦ (IoResult.done (ReadState.complete output), f)
    | true ↦
        let (outcome, f') = disk.read (want - length output) f in
        elim outcome [
          | IoResult.failed message ↦ (IoResult.failed message, f')
          | IoResult.done [] ↦ (
            IoResult.done (if eqb (length output) 0 then ReadState.eof else ReadState.partial),
            f',
          )
          | IoResult.done (b ∷ bytes) ↦ fill disk fuel want (output ++ b ∷ bytes) f'
        ]
  ]

  unfoldable pub read_or_partial : Disk F → (want : ℕ) → F → IoResult ReadState × F
  read_or_partial disk want f = fill disk want want [] f

module _ {E : Type 0} where
  unfoldable pub encode_events : Codec (StoredEvent E) → List (StoredEvent E) → Result (List ℕ)
  encode_events codec [] = ok []
  encode_events codec (event ∷ events) = do
    encoded ← codec.encode event
    size ← u64_from (length encoded)
    rest ← encode_events codec events
    ok (to_le_bytes 8 size ++ (encoded ++ rest))

  unfoldable pub encode_payload : Codec (StoredEvent E) → List (StoredEvent E) → Result (List ℕ)
  encode_payload codec events = do
    count ← if ltb (length events) u32_mod then ok (length events) else err capacity_overflow
    encoded ← encode_events codec events
    ok (to_le_bytes 4 count ++ encoded)

  unfoldable pub encode_batch :
      List (StoredEvent E) → Codec (StoredEvent E) → (max_frame_bytes : ℕ) → Result (List ℕ)
  encode_batch events codec max_frame_bytes = do
    payload ← encode_payload codec events
    reject (ltb max_frame_bytes (length payload))
        (invalid_value "event_batch" "encoded batch exceeds max_frame_bytes")
    size ← u64_from (length payload)
    allocate (batch_header_len + length payload)
    crc ← crc32c payload
    ok (batch_magic ++ (to_le_bytes 8 size ++ (to_le_bytes 4 crc ++ payload)))

  -- the body of `for _ in 0..count`, with the events and the cursor so far
  unfoldable pub decode_loop :
      (count : ℕ) (payload : List ℕ)
      → Codec (StoredEvent E)
      → (offset cursor : ℕ) (events : List (StoredEvent E)) → Result (List (StoredEvent E) × ℕ)
  decode_loop zero payload codec offset cursor events = ok (events, cursor)
  decode_loop (suc count) payload codec offset cursor events = do
    (size, start) ← ok_or (corrupt offset "invalid event length") (read_u64 payload cursor)
    end ←
        ok_or (corrupt offset "truncated event payload")
          (at_most (length payload) (checked_end start size))
    event ← codec.decode (take (end - start) (drop start payload))
    decode_loop count payload codec offset end (events ++ event ∷ [])

  unfoldable pub decode_payload :
      (payload : List ℕ) → Codec (StoredEvent E) → (offset : ℕ) → Result (List (StoredEvent E))
  decode_payload payload codec offset = do
    (count, start) ← ok_or (corrupt offset "missing event count") (read_u32 payload 0)
    allocate (count * codec.size_of)
    (events, cursor) ← decode_loop count payload codec offset start []
    reject (not (eqb cursor (length payload))) (corrupt offset "trailing bytes in batch")
    ok events

-- What a round of `scan` finds: the end of the file, a batch that is cut short, or a batch and the
-- offset after it.
pub data Round (E : Type 0) : Type 0 where
  at_end cut_short : Round E
  batch : (events : List (StoredEvent E)) (next : ℕ) → Round E

module _ {E : Type 0} where
  -- the part of a round after the payload is read
  unfoldable pub check_payload :
      Codec (StoredEvent E) → (offset payload_len expected_crc : ℕ) → ReadState → Result (Round E)
  check_payload codec offset payload_len expected_crc ReadState.eof = ok Round.cut_short
  check_payload codec offset payload_len expected_crc ReadState.partial = ok Round.cut_short
  check_payload codec offset payload_len expected_crc (ReadState.complete payload) = do
    crc ← crc32c payload
    reject (not (eqb crc expected_crc)) (corrupt offset "batch checksum mismatch")
    events ← decode_payload payload codec offset
    size ← u64_from ((batch_header_len + payload_len) % u64_mod)
    next ← checked_add offset size
    ok (Round.batch events next)

module _ {E F : Type 0} where
  abbrev pub payload_read :
      Codec (StoredEvent E)
      → (offset payload_len expected_crc : ℕ) → IoResult ReadState × F
      → Result (Round E × F)
  payload_read codec offset payload_len expected_crc (outcome, f) = do
    state ← map_io "read batch" outcome
    round ← check_payload codec offset payload_len expected_crc state
    ok (round, f)

  -- the part of a round after the batch header is read
  unfoldable pub scan_payload :
      Disk F
      → Codec (StoredEvent E)
      → (max_frame_bytes offset : ℕ) (header : List ℕ) → F
      → Result (Round E × F)
  scan_payload disk codec max_frame_bytes offset header f = do
    reject (not (bytes_eq (take 4 header) batch_magic)) (corrupt offset "invalid batch marker")
    let payload_len = from_le_bytes (take 8 (drop 4 header))
    reject (ltb max_frame_bytes payload_len) (corrupt offset "batch exceeds configured frame limit")
    allocate payload_len
    payload_read codec offset payload_len (from_le_bytes (take 4 (drop 12 header)))
        (read_or_partial disk payload_len f)

  abbrev pub header_state :
      Disk F
      → Codec (StoredEvent E)
      → (max_frame_bytes offset : ℕ) → ReadState
      → F
      → Result (Round E × F)
  header_state disk codec max_frame_bytes offset ReadState.eof f = ok (Round.at_end, f)
  header_state disk codec max_frame_bytes offset ReadState.partial f = ok (Round.cut_short, f)
  header_state disk codec max_frame_bytes offset (ReadState.complete header) f =
      scan_payload disk codec max_frame_bytes offset header f

  abbrev pub header_read :
      Disk F
      → Codec (StoredEvent E)
      → (max_frame_bytes offset : ℕ) → IoResult ReadState × F
      → Result (Round E × F)
  header_read disk codec max_frame_bytes offset (outcome, f) = do
    state ← map_io "read batch header" outcome
    header_state disk codec max_frame_bytes offset state f

  -- the body of `loop`, up to what it does with `events` and `offset`
  unfoldable pub scan_round :
      Disk F → Codec (StoredEvent E) → (max_frame_bytes offset : ℕ) → F → Result (Round E × F)
  scan_round disk codec max_frame_bytes offset f =
      header_read disk codec max_frame_bytes offset (read_or_partial disk batch_header_len f)

  unfoldable pub scan_loop :
      Disk F
      → Codec (StoredEvent E)
      → (max_frame_bytes fuel : ℕ) (events : List (StoredEvent E)) (offset : ℕ) → F
      → Result (ScanOutcome E × F)
  scan_loop disk codec max_frame_bytes zero events offset f = panic
  scan_loop disk codec max_frame_bytes (suc fuel) events offset f = do
    (round, f') ← scan_round disk codec max_frame_bytes offset f
    elim round [
      | Round.at_end ↦ ok (ScanOutcome.complete events offset, f')
      | Round.cut_short ↦ ok (ScanOutcome.partial_tail events offset, f')
      | Round.batch read next ↦ scan_loop disk codec max_frame_bytes fuel (events ++ read) next f'
    ]

  -- A round takes a batch header of sixteen bytes off the file, so its length is enough fuel.
  unfoldable pub scan :
      Disk F → Codec (StoredEvent E) → (max_frame_bytes fuel : ℕ) → F → Result (ScanOutcome E × F)
  scan disk codec max_frame_bytes fuel f = do
    let (sought, f₁) = disk.seek_start 0 f
    map_io "seek" sought
    let (outcome, f₂) = disk.read_exact 8 f₁
    header ← map_io "read file header" outcome
    reject (not (bytes_eq header file_header)) (corrupt_log 0 "unsupported file header")
    scan_loop disk codec max_frame_bytes fuel [] (length file_header) f₂
