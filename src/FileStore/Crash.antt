-- ===== src/FileStore/Crash.antt =====
-- store/file.rs: an append in which any call of the operating system may fail, and then `open`.
use weavatrix_memory.Base.{
  ℕ, suc, ◌+◌, ◌^◌, ◌<◌, ◌≤◌, ◌≡◌, err, MemoryError, refl, sym, ap, subst, ◌∙◌, ◌⊎◌, inl, inr,
  arith, List, [], ◌∷◌, ◌++◌, append-nil, append_assoc, length, length-append, take, drop,
  take-append-drop, List-cases, ok,
}
use weavatrix_memory.Codec.{Codec, IsLossless, IsTotal}
use weavatrix_memory.Disk.{Disk, IoResult, IsDisk, IsWorking}
use weavatrix_memory.Domain.{StreamId}
use weavatrix_memory.Event.{NewEvent, StoredEvent}
use weavatrix_memory.Frame.Scan.{encode_log, concat}
use weavatrix_memory.Frame.Encode.{encode_log-snoc, concat-snoc}
use weavatrix_memory.Frame.{file_header, batch_header_len, isize_max}
use weavatrix_memory.Store.{u64_mod, ExpectedVersion, prepare_append}
use weavatrix_memory.Store.Log.{IsLog}
use weavatrix_memory.Store.Consistent.{IsConsistent}
use weavatrix_memory.Store.Prepare.{envelopes}
use weavatrix_memory.Store.Append.{append_prepares, prepared_commits, append-IsConsistent}
use weavatrix_memory.FileStore.Append.{IsLogged, AppendOutcome, append-IsLogged, with_batch}
use weavatrix_memory.FileStore.Scanned.{IsPart, IsTail}
use weavatrix_memory.FileStore.Open.{open_recovers}
use weavatrix_memory.FileStore.{
  FileEventStore, FileStoreOptions, RecoveryPolicy, append, open_store,
}

abbrev truncating : FileStoreOptions → FileStoreOptions
truncating options = record options { recovery = RecoveryPolicy.truncate_partial_tail }

length-envelopes :
    {E : Type 0} (s : StreamId) (v p o : ℕ) (events : List (NewEvent E))
    → length (envelopes s v p o events) ≡ length events
length-envelopes s v p o [] = refl
length-envelopes s v p o (e ∷ events) = ap suc (length-envelopes s v p (suc o) events)

module _ {E F : Type 0} (working_disk : Disk F) (contents : F → List ℕ) (position : F → ℕ)
    (laws' : IsDisk working_disk contents position)
    (working : IsWorking working_disk contents position) (codec : Codec (StoredEvent E))
    (lossless : IsLossless codec) where
  -- A file with whole frames and a tail is read back.
  reopen :
      (options : FileStoreOptions) (fuel : ℕ) (f : F) (batches : List (List (StoredEvent E)))
      (log cut : List ℕ) (events : List (StoredEvent E))
      → 4 ≤ options.max_frame_bytes
      → encode_log batches codec options.max_frame_bytes ≡ ok log
      → IsTail codec options.max_frame_bytes cut
      → contents f ≡ file_header ++ (log ++ cut)
      → length (contents f) < u64_mod
      → length (contents f) < fuel
      → concat batches ≡ events
      → IsLog events
      → length events ≤ 2 ^ 64
      → (st : FileEventStore E F) × (open_store working_disk
            (IoResult.done f)
            codec
            (truncating options)
            fuel
          ≡ ok st)
        × (st.inner.events ≡ events)
        × IsConsistent st.inner
  reopen options fuel f batches log cut events big logged tail h room enough same in_order bound =
      let (st, run, held, k) =
        open_recovers working_disk contents position laws' working codec lossless
          (truncating options) batches log cut fuel logged tail f refl big (rw same in_order)
          (rw same bound) h room enough in
      (st, run, k.events ∙ same, k.consistent)

  module _ (disk : Disk F) (laws : IsDisk disk contents position) (total : IsTotal codec) where
    -- Take a file store whose file holds the header and the frames of its batches. Whatever calls
    -- of the operating system fail in `append`, and if the process stops after it: where events
    -- take less than 2 ^ 31 bytes in a vector, the codec decodes what it encodes and does not
    -- panic, the limit on a frame is at least four, there is room for a frame below 2 ^ 63 bytes,
    -- the log in memory with the batch has at most 2 ^ 64 events, and the file that is left is
    -- shorter than 2 ^ 64 bytes, `open` of the file that is left, with the policy that truncates,
    -- no failing call and fuel for more rounds than the file has bytes, returns a consistent
    -- store. Its log is the log before the append, and then `append` returned an error, or that
    -- log followed by the whole batch that `append` prepared.
    pub append_then_open :
        (st : FileEventStore E F) (batches : List (List (StoredEvent E))) (log : List ℕ)
        (stream : StreamId) (expected : ExpectedVersion) (events : List (NewEvent E)) (fuel : ℕ)
        → IsLogged codec contents st batches log
        → 4 ≤ st.options.max_frame_bytes
        → length (contents st.file) + batch_header_len + st.options.max_frame_bytes ≤ isize_max
        → length st.inner.events + length events ≤ 2 ^ 64
        → length (contents (append disk codec st stream expected events).1.file) < u64_mod
        → length (contents (append disk codec st stream expected events).1.file) < fuel
        → (st' : FileEventStore E F) × (open_store working_disk
              (IoResult.done (append disk codec st stream expected events).1.file)
              codec
              (truncating st.options)
              fuel
            ≡ ok st')
          × IsConsistent st'.inner
          × (((st'.inner.events ≡ st.inner.events)
                × ((e : MemoryError) × ((append disk codec st stream expected events).0 ≡ err e)))
              ⊎ ((c : List (StoredEvent E)) × (prepare_append st.inner stream expected events
                    ≡ ok c)
                  × (st'.inner.events ≡ st.inner.events ++ c)))
    unfolding AppendOutcome
    append_then_open st batches log stream expected events fuel k big room bound small enough =
        let count_lem = length-append st.inner.events in
        let before : IsLog st.inner.events = k.consistent.log in
        let outcome =
          append-IsLogged disk contents position laws codec lossless total st batches log stream
            expected events k room in
        elim outcome [
          | inl (c, st₁, log', run, appended, k₁, same) ↦
              let (k₂, grown, q) =
                append-IsConsistent st.inner stream expected events c st₁.inner k.consistent
                  appended in
              let size : length c ≡ length events =
                ap length q ∙ length-envelopes stream _ _ 0 events in
              let (st', opened, evs, k') =
                reopen st.options fuel st₁.file (with_batch batches c) log' [] st₁.inner.events big
                  (rw (← same) k₁.logged) (inl refl)
                  (k₁.holds ∙ ap (λ l. file_header ++ l) (sym (append-nil log'))) (rw run at small)
                  (rw run at enough) (sym k₁.events) k₁.consistent.log
                  (omega (arith, ap length grown, count_lem c, size)) in
              (
                st',
                rw run opened,
                k',
                inr (
                  c,
                  append_prepares st.inner stream expected events c st₁.inner appended,
                  evs ∙ grown,
                ),
              )
          | inr (e, st₁, run, same, len, inl h) ↦
              let (st', opened, evs, k') =
                reopen st.options fuel st₁.file batches log [] st.inner.events big k.logged
                  (inl refl) (h ∙ k.holds ∙ ap (λ l. file_header ++ l) (sym (append-nil log)))
                  (rw run at small) (rw run at enough) (sym k.events) before (omega arith) in
              (st', rw run opened, k', inl (evs, (e, rw run refl)))
          | inr (e, st₁, run, same, len, inr (c, frame, part, prepared, encoded, h)) ↦
              let written = take part frame in
              let left = drop part frame in
              let base : contents st₁.file ≡ file_header ++ (log ++ written) =
                h ∙ ap (λ l. l ++ written) k.holds ∙ append_assoc file_header log written in
              elim (List-cases left) [
                | inr p ↦
                    let tail : IsPart codec st.options.max_frame_bytes written = record {
                      batch = c;
                      frame = frame;
                      more = left;
                      encoded = encoded;
                      part = sym (take-append-drop part frame);
                      missing = p;
                    } in
                    let (st', opened, evs, k') =
                      reopen st.options fuel st₁.file batches log written st.inner.events big
                        k.logged (inr tail) base (rw run at small) (rw run at enough) (sym k.events)
                        before (omega arith) in
                    (st', rw run opened, k', inl (evs, (e, rw run refl)))
                | inl p ↦
                    let full : written ≡ frame =
                      sym (append-nil written)
                      ∙ ap (λ l. written ++ l) (sym p)
                      ∙ take-append-drop part frame in
                    let (inner', done, appended, grown, k₂) =
                      prepared_commits st.inner stream expected events c k.consistent prepared in
                    let (k₃, grown', q) =
                      append-IsConsistent st.inner stream expected events c inner' k.consistent
                        appended in
                    let size : length c ≡ length events =
                      ap length q ∙ length-envelopes stream _ _ 0 events in
                    let (st', opened, evs, k') =
                      reopen st.options fuel st₁.file (batches ++ c ∷ []) (log ++ frame) []
                        (st.inner.events ++ c) big
                        (encode_log-snoc codec st.options.max_frame_bytes batches c log frame
                          k.logged encoded)
                        (inl refl)
                        (base
                          ∙ ap (λ l. file_header ++ (log ++ l)) full
                          ∙ ap (λ l. file_header ++ l) (sym (append-nil (log ++ frame))))
                        (rw run at small) (rw run at enough)
                        (concat-snoc codec batches c ∙ ap (λ l. l ++ c) (sym k.events))
                        (subst IsLog grown k₂.log) (omega (arith, count_lem c, size)) in
                    (st', rw run opened, k', inr (c, prepared, evs))
              ]
        ]
