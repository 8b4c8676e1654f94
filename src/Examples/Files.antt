-- ===== src/Examples/Files.antt =====
-- The log file at concrete inputs.
use weavatrix_memory.Base.{ℕ, ◌≡◌, ◌≢◌, refl, arith, List, [], ◌∷◌, ◌++◌, ok, err, panic}
use weavatrix_memory.Bytes.Words.{to_le_bytes}
use weavatrix_memory.Frame.Checksum.{
  crc32c, crc32c_loop, crc32c_table, table_from, table_bits, table_step, reference_crc32c,
}
use weavatrix_memory.Frame.Checksum.Table.{crc32c_reference}
use weavatrix_memory.Frame.{allocate, encode_events, encode_payload, encode_batch}
use weavatrix_memory.Frame.{file_header, scan, ScanOutcome}
use weavatrix_memory.Base.{take, drop, corrupt_log, inr, io, MemoryError, ◌⊎◌}
use weavatrix_memory.Disk.{IoResult}
use weavatrix_memory.Event.{NewEvent, StoredEvent}
use weavatrix_memory.Frame.Scan.{encode_log, concat, scan-encode_log, scan_cut_short}
use weavatrix_memory.Frame.Total.{scan-ne-panic}
use weavatrix_memory.Map.{contains, lookup}
use weavatrix_memory.Store.Consistent.{IsConsistent}
use weavatrix_memory.Time.{ℤ}
use weavatrix_memory.Store.{
  empty_store, any_version, prepare_append, stream_version, check_expected, unique_ids,
  unique_ids_loop, prepare_loop,
}
use weavatrix_memory.Store.Log.{IsLog}
use weavatrix_memory.Store.Restore.{empty-IsConsistent}
use weavatrix_memory.FileStore.Append.{IsLogged, AppendOutcome, append-IsLogged}
use weavatrix_memory.FileStore.Scanned.{IsTail}
use weavatrix_memory.FileStore.Open.{open_recovers, open_strict}
use weavatrix_memory.FileStore.Crash.{append_then_open}
use weavatrix_memory.FileStore.{
  RecoveryPolicy, Durability, FileStoreOptions, FileEventStore, append, open_store, persist,
  frame_for, write_frame, or_rollback, rollback_tail,
}
use weavatrix_memory.Examples.{draft}
use weavatrix_memory.Examples.Disks.{
  Ram, ram, full_disk, ram-IsDisk, ram-IsReadable, ram-IsWorking, full_disk-IsDisk,
}
use weavatrix_memory.Examples.Codecs.{
  bytes_codec, encode_first, first, bytes_codec-IsLossless, bytes_codec-IsTotal,
}

abbrev digits : List ℕ
digits = 0x31 ∷ 0x32 ∷ 0x33 ∷ 0x34 ∷ 0x35 ∷ 0x36 ∷ 0x37 ∷ 0x38 ∷ 0x39 ∷ []

crc32c_matches_the_standard_check_value : crc32c digits ≡ ok 0xe306_9283
unfolding crc32c crc32c_loop crc32c_table table_from table_bits table_step
crc32c_matches_the_standard_check_value = refl

crc32c_reference_example : crc32c digits ≡ ok (reference_crc32c digits)
crc32c_reference_example = crc32c_reference digits (ground arith)

abbrev frame : List ℕ
frame =
    0x42 ∷ 0x41 ∷ 0x54 ∷ 0x31 ∷ 13 ∷ 0 ∷ 0 ∷ 0 ∷ 0 ∷ 0 ∷ 0 ∷ 0 ∷ 202 ∷ 200 ∷ 220 ∷ 138 ∷ 1 ∷ 0 ∷ 0
    ∷ 0 ∷ 1 ∷ 0 ∷ 0 ∷ 0 ∷ 0 ∷ 0 ∷ 0 ∷ 0 ∷ 1 ∷ []

first_frame : encode_batch (first ∷ []) bytes_codec 64 ≡ ok frame
unfolding allocate encode_batch encode_payload encode_events to_le_bytes crc32c crc32c_loop
    crc32c_table table_from table_bits table_step
first_frame = rw encode_first refl

abbrev batches : List (List (StoredEvent ℕ))
batches = (first ∷ []) ∷ []

first_log : encode_log batches bytes_codec 64 ≡ ok frame
unfolding encode_log
first_log = rw first_frame refl

abbrev contents : Ram → List ℕ
contents f = f.bytes

abbrev position : Ram → ℕ
position f = f.cursor

-- One frame, and most of another.
abbrev cut_file : Ram
cut_file = record { bytes = file_header ++ (frame ++ take 20 frame); cursor = 0 }

scan-encode_log_example :
    (f' : Ram) × (scan ram bytes_codec 64 9 (record { bytes = file_header ++ frame; cursor = 3 })
      ≡ ok (ScanOutcome.complete (concat batches) 37, f'))
    × (contents f' ≡ file_header ++ frame)
scan-encode_log_example =
    scan-encode_log bytes_codec 64 ram contents position ram-IsDisk ram-IsReadable
      bytes_codec-IsLossless batches frame 7 (record { bytes = file_header ++ frame; cursor = 3 })
      first_log refl (omega arith)

scan_cut_short_example :
    (f' : Ram) × (scan ram bytes_codec 64 9 cut_file
      ≡ ok (ScanOutcome.partial_tail (concat batches) 37, f'))
    × (contents f' ≡ contents cut_file)
scan_cut_short_example =
    scan_cut_short bytes_codec 64 ram contents position ram-IsDisk ram-IsReadable
      bytes_codec-IsLossless batches frame (first ∷ []) frame (take 20 frame) (drop 20 frame) 7
      cut_file first_log first_frame refl (omega arith) (omega arith) refl (omega arith)

scan-ne-panic_example : scan ram bytes_codec 64 60 cut_file ≢ panic
scan-ne-panic_example =
    scan-ne-panic bytes_codec bytes_codec-IsTotal ram 64 contents position ram-IsDisk 60 cut_file
      (omega arith) (ground arith) (omega arith)

abbrev options : FileStoreOptions
options = record {
  recovery = RecoveryPolicy.strict;
  durability = Durability.sync_all;
  max_frame_bytes = 64;
}

abbrev file_store : FileEventStore ℕ Ram
file_store = record {
  file = record { bytes = file_header; cursor = 8 };
  options = options;
  inner = empty_store;
  durable_len = 8;
}

file_store-IsLogged : IsLogged bytes_codec contents file_store [] []
unfolding encode_log concat
file_store-IsLogged = record {
  consistent = empty-IsConsistent;
  logged = refl;
  holds = refl;
  events = refl;
  durable_len = refl;
}

abbrev draft_first : NewEvent ℕ
draft_first = record (draft "e0" 10) { occurred_at = ℤ.pos 7 }

append-IsLogged_example :
    AppendOutcome full_disk contents position full_disk-IsDisk bytes_codec bytes_codec-IsLossless
      bytes_codec-IsTotal file_store [] "a" any_version
      (draft_first ∷ [])
append-IsLogged_example =
    append-IsLogged full_disk contents position full_disk-IsDisk bytes_codec bytes_codec-IsLossless
      bytes_codec-IsTotal file_store [] [] "a" any_version (draft_first ∷ []) file_store-IsLogged
      (omega arith)

tail : IsTail bytes_codec 64 (take 20 frame)
tail = inr (record {
  batch = first ∷ [];
  frame = frame;
  more = drop 20 frame;
  encoded = first_frame;
  part = refl;
  missing = omega arith;
})

one_log : IsLog (concat batches)
unfolding concat contains
one_log = ((refl, refl, refl), tt)

open_recovers_example :
    (st : FileEventStore ℕ Ram) × (open_store ram
        (IoResult.done cut_file)
        bytes_codec
        (record options { recovery = RecoveryPolicy.truncate_partial_tail })
        60
      ≡ ok st)
    × (contents st.file ≡ file_header ++ frame)
    × IsLogged bytes_codec contents st batches frame
unfolding concat
open_recovers_example =
    open_recovers ram contents position ram-IsDisk ram-IsWorking bytes_codec bytes_codec-IsLossless
      (record options { recovery = RecoveryPolicy.truncate_partial_tail }) batches frame
      (take 20 frame) 60 first_log tail cut_file refl (omega arith) one_log (omega arith) refl
      (omega arith) (omega arith)

open_strict_example :
    open_store ram (IoResult.done cut_file) bytes_codec options 60
    ≡ err (corrupt_log 37 "partial trailing batch")
open_strict_example =
    open_strict ram contents position ram-IsDisk ram-IsWorking bytes_codec bytes_codec-IsLossless
      options batches frame (take 20 frame) 60 first_log tail cut_file refl (omega arith)
      (omega arith) refl (omega arith) (omega arith)

-- What the full disk leaves of the append.
left_over : append full_disk bytes_codec file_store "a" any_version (draft_first ∷ []) ≡ (
  err (io "rollback partial event batch" "device error"),
  record file_store { file = record { bytes = file_header ++ take 20 frame; cursor = 28 } },
)
unfolding append persist frame_for write_frame or_rollback rollback_tail prepare_append
    stream_version check_expected unique_ids unique_ids_loop prepare_loop lookup contains
left_over = rw first_frame refl

append_then_open_example :
    (st' : FileEventStore ℕ Ram) × (open_store ram
        (IoResult.done
          (append full_disk bytes_codec file_store "a" any_version (draft_first ∷ [])).1.file)
        bytes_codec
        (record options { recovery = RecoveryPolicy.truncate_partial_tail })
        60
      ≡ ok st')
    × IsConsistent st'.inner
    × (((st'.inner.events ≡ [])
          × ((e : MemoryError) × ((append full_disk bytes_codec file_store "a" any_version
                  (draft_first ∷ [])).0
                ≡ err e)))
        ⊎ ((c : List (StoredEvent ℕ)) × (prepare_append empty_store "a" any_version
                (draft_first ∷ [])
              ≡ ok c)
            × (st'.inner.events ≡ c)))
append_then_open_example =
    append_then_open ram contents position ram-IsDisk ram-IsWorking bytes_codec
      bytes_codec-IsLossless full_disk full_disk-IsDisk bytes_codec-IsTotal file_store [] [] "a"
      any_version (draft_first ∷ []) 60 file_store-IsLogged (omega arith) (omega arith)
      (omega arith) (rw left_over (omega arith)) (rw left_over (omega arith))
