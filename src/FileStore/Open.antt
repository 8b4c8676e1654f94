-- ===== src/FileStore/Open.antt =====
-- store/file.rs, `open`: a log file is read back, and a batch that a crash cut short is removed or
-- refused.
use weavatrix_memory.Base.{
  ℕ, ◌+◌, ◌^◌, ◌<◌, ◌≤◌, ◌≡◌, refl, sym, ap, ◌∙◌, inl, inr, arith, List, ◌++◌, length,
  length-append, ok, err, corrupt_log,
}
use weavatrix_memory.Codec.{Codec, IsLossless}
use weavatrix_memory.Disk.{Disk, IoResult, IsDisk, IsWorking}
use weavatrix_memory.Event.{StoredEvent}
use weavatrix_memory.Frame.Scan.{encode_log, concat}
use weavatrix_memory.Frame.{file_header}
use weavatrix_memory.Store.{u64_mod}
use weavatrix_memory.Store.Log.{IsLog}
use weavatrix_memory.Store.Restore.{restore_succeeds}
use weavatrix_memory.FileStore.Append.{IsLogged}
use weavatrix_memory.FileStore.{
  FileEventStore, FileStoreOptions, RecoveryPolicy, recover, open_store,
}
use weavatrix_memory.FileStore.Scanned.{IsTail, opened, scan_tail, scan_recovered}

module _ {E F : Type 0} (disk : Disk F) (contents : F → List ℕ) (position : F → ℕ)
    (laws : IsDisk disk contents position) (working : IsWorking disk contents position)
    (codec : Codec (StoredEvent E)) (lossless : IsLossless codec) (options : FileStoreOptions)
    (batches : List (List (StoredEvent E))) (log cut : List ℕ) (fuel : ℕ)
    (logged : encode_log batches codec options.max_frame_bytes ≡ ok log)
    (tail : IsTail codec options.max_frame_bytes cut) where
  -- If no call of the operating system fails, events take less than 2 ^ 31 bytes in a vector, the
  -- codec decodes what it encodes, the limit on a frame is at least four, and the file holds the
  -- header, the frames of batches whose events are a log of at most 2 ^ 64 events, and then
  -- nothing or a part of a frame, shorter than 2 ^ 64 bytes in all, then `open` with the policy
  -- that truncates and fuel for more rounds than the file has bytes returns a store whose log is
  -- that log, and removes the part of a frame from the file.
  pub open_recovers :
      (f : F)
      → options.recovery ≡ RecoveryPolicy.truncate_partial_tail
      → 4 ≤ options.max_frame_bytes
      → IsLog (concat batches)
      → length (concat batches) ≤ 2 ^ 64
      → contents f ≡ file_header ++ (log ++ cut)
      → length (contents f) < u64_mod
      → length (contents f) < fuel
      → (st : FileEventStore E F) × (open_store disk (IoResult.done f) codec options fuel ≡ ok st)
        × (contents st.file ≡ file_header ++ log)
        × IsLogged codec contents st batches log
  open_recovers f policy big in_order count h room enough =
      let (f₁, same, begins) =
        opened disk contents position laws working codec lossless options fuel f big
          (omega (arith, ap length h)) in
      let (scanned, f₂, run, recovered, kept) =
        scan_recovered disk contents position laws working codec lossless options batches log cut
          fuel logged tail f₁ policy (same ∙ h) (rw same room) (rw same enough) in
      let f₃ = (disk.seek_end f₂).1 in
      let held : contents f₃ ≡ file_header ++ log = laws.end_keeps f₂ ∙ kept in
      let (inner, restored, events, consistent) =
        restore_succeeds (concat batches) in_order count in
      let st : FileEventStore E F = record {
        file = f₃;
        options = options;
        inner = inner;
        durable_len = length file_header + length log;
      } in
      (
        st,
        begins ∙ rw (run, recovered, working.seeks_end f₂, restored) refl,
        held,
        record {
          consistent = consistent;
          logged = logged;
          holds = held;
          events = events;
          durable_len = sym (ap length held ∙ length-append file_header log);
        },
      )

  -- If no call of the operating system fails, events take less than 2 ^ 31 bytes in a vector, the
  -- codec decodes what it encodes, the limit on a frame is at least four, and the file holds the
  -- header, the frames of a list of batches and a part of a frame that has and lacks a byte at
  -- least, shorter than 2 ^ 64 bytes in all, then `open` with the strict policy and fuel for more
  -- rounds than the file has bytes returns the error of a corrupt log at the end of the last whole
  -- frame.
  pub open_strict :
      (f : F)
      → options.recovery ≡ RecoveryPolicy.strict
      → 4 ≤ options.max_frame_bytes
      → 0 < length cut
      → contents f ≡ file_header ++ (log ++ cut)
      → length (contents f) < u64_mod
      → length (contents f) < fuel
      → open_store disk (IoResult.done f) codec options fuel
        ≡ err (corrupt_log (length file_header + length log) "partial trailing batch")
  unfolding recover
  open_strict f policy big some_cut h room enough =
      let (f₁, same, begins) =
        opened disk contents position laws working codec lossless options fuel f big
          (omega (arith, ap length h)) in
      elim (scan_tail disk contents position laws working codec lossless options batches log cut
        fuel logged tail f₁ (same ∙ h) (rw same room) (rw same enough)) [
          | inl (p, f', run, kept) ↦ absurd (omega (arith, ap length p))
          | inr (p, f', run, kept) ↦ begins ∙ rw (run, policy) refl
        ]
