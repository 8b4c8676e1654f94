-- ===== src/FileStore/Scanned.antt =====
-- store/file.rs, `open`: what the scan of a log file finds, and what is left after the recovery.
use weavatrix_memory.Base.{
  ℕ, suc, ◌+◌, ◌-◌, ◌<◌, ◌≤◌, ◌≡◌, refl, sym, ap, subst, ◌∙◌, ◌⊎◌, inl, inr, arith, List, [], ◌++◌,
  append-nil, append_assoc, length, length-append, take, ok, ◌>>=◌, eqb, ltb, false, List-cases,
}
use weavatrix_memory.Bytes.Words.{take-length_append}
use weavatrix_memory.Codec.{Codec, IsLossless}
use weavatrix_memory.Disk.{Disk, IoResult, IsDisk, IsWorking, map_io}
use weavatrix_memory.Event.{StoredEvent}
use weavatrix_memory.Frame.Scan.{encode_log, concat, scan-encode_log, scan_cut_short}
use weavatrix_memory.Frame.Encode.{length-encode_log}
use weavatrix_memory.Frame.{file_header, encode_batch, scan, ScanOutcome}
use weavatrix_memory.Store.{u64_mod, restore}
use weavatrix_memory.FileStore.{
  FileStoreOptions, RecoveryPolicy, Durability, sync, recover, open_store,
}

module _ {F : Type 0} (disk : Disk F) (contents : F → List ℕ) (position : F → ℕ)
    (laws : IsDisk disk contents position) (working : IsWorking disk contents position) where
  sync_works :
      (durability : Durability) (f : F)
      → (f' : F) × (sync disk durability f ≡ (ok tt, f')) × (contents f' ≡ contents f)
  unfolding sync
  sync_works Durability.flush f = (f, refl, refl)
  sync_works Durability.sync_data f =
      ((disk.sync_data f).1, rw (working.syncs_data f) refl, laws.sync_data_keeps f)
  sync_works Durability.sync_all f =
      ((disk.sync_all f).1, rw (working.syncs_all f) refl, laws.sync_all_keeps f)

-- A part of a frame, which lacks a byte at least.
pub record IsPart {E : Type 0} (codec : Codec (StoredEvent E)) (max_frame_bytes : ℕ) (cut : List ℕ)
    : Type 0 where
  pub batch : List (StoredEvent E)
  pub frame : List ℕ
  pub more : List ℕ
  pub encoded : encode_batch batch codec max_frame_bytes ≡ ok frame
  pub part : frame ≡ cut ++ more
  pub missing : 0 < length more

-- The bytes after the whole frames of a log: none, or a part of a frame.
abbrev pub IsTail :
    {E : Type 0} (codec : Codec (StoredEvent E)) (max_frame_bytes : ℕ) (cut : List ℕ) → Type 0
IsTail codec max_frame_bytes cut = (cut ≡ []) ⊎ IsPart codec max_frame_bytes cut

module _ {E F : Type 0} (disk : Disk F) (contents : F → List ℕ) (position : F → ℕ)
    (laws : IsDisk disk contents position) (working : IsWorking disk contents position)
    (codec : Codec (StoredEvent E)) (lossless : IsLossless codec) where
  -- What `open` does once the file has its header.
  pub opened :
      (options : FileStoreOptions) (fuel : ℕ) (f : F)
      → 4 ≤ options.max_frame_bytes
      → 0 < length (contents f)
      → (f₁ : F) × (contents f₁ ≡ contents f)
        × (open_store disk (IoResult.done f) codec options fuel ≡ (
            scan disk codec options.max_frame_bytes fuel f₁ >>= λ scanned.
            recover disk options scanned >>= λ (events, durable_len, f₃).
            map_io "seek event log end" (disk.seek_end f₃).0 >>= λ u. restore events >>= λ inner.
            ok (record {
              file = (disk.seek_end f₃).1;
              options = options;
              inner = inner;
              durable_len = durable_len;
            })))
  unfolding open_store
  opened options fuel f big some =
      let f₁ = (disk.try_lock f).1 in
      let same = laws.lock_keeps f in
      let fits : ltb options.max_frame_bytes 4 ≡ false = ground arith in
      let headed : eqb (length (contents f₁)) 0 ≡ false = ground (arith, ap length same) in
      (f₁, same, rw (fits, working.locks f, working.measures f₁, headed) refl)

  scan_fuel :
      (batches : List (List (StoredEvent E))) (log : List ℕ) (max_frame_bytes fuel : ℕ)
      → encode_log batches codec max_frame_bytes ≡ ok log
      → length log < fuel
      → length batches + suc (fuel - suc (length batches)) ≡ fuel
  scan_fuel batches log max_frame_bytes fuel h enough =
      omega (arith, length-encode_log codec max_frame_bytes batches log h)

  module _ (options : FileStoreOptions) (batches : List (List (StoredEvent E))) (log cut : List ℕ)
      (fuel : ℕ) (logged : encode_log batches codec options.max_frame_bytes ≡ ok log)
      (tail : IsTail codec options.max_frame_bytes cut) where
    abbrev pub whole : ℕ
    whole = length file_header + length log

    -- The scan of a file that ends in a tail.
    pub scan_tail :
        (f : F)
        → contents f ≡ file_header ++ (log ++ cut)
        → length (contents f) < u64_mod
        → length (contents f) < fuel
        → ((cut ≡ [])
            × (f' : F) × (scan disk codec options.max_frame_bytes fuel f
                ≡ ok (ScanOutcome.complete (concat batches) whole, f'))
            × (contents f' ≡ contents f))
          ⊎ ((0 < length cut)
              × (f' : F) × (scan disk codec options.max_frame_bytes fuel f
                  ≡ ok (ScanOutcome.partial_tail (concat batches) whole, f'))
              × (contents f' ≡ contents f))
    scan_tail f h room enough =
        let limit = options.max_frame_bytes in
        let size : length (contents f) ≡ length file_header + (length log + length cut) =
          ap length h
          ∙ length-append file_header (log ++ cut)
          ∙ ap (◌+◌ (length file_header)) (length-append log cut) in
        let rounds = scan_fuel batches log limit fuel logged (omega (arith, size)) in
        let k = fuel - suc (length batches) in
        elim (List-cases cut) [
          | inl p ↦
              let same : contents f ≡ file_header ++ log =
                h
                ∙ ap (λ c. file_header ++ (log ++ c)) p
                ∙ ap (λ l. file_header ++ l) (append-nil log) in
              let total : length (contents f) ≡ whole =
                ap length same ∙ length-append file_header log in
              let (f', run, kept) =
                scan-encode_log codec limit disk contents position laws working.readable lossless
                  batches log k f logged same room in
              inl (
                p,
                f',
                subst
                    (λ n.
                      scan disk codec limit n f
                      ≡ ok (ScanOutcome.complete (concat batches) whole, f'))
                    rounds (run ∙ ap (λ n. ok (ScanOutcome.complete (concat batches) n, f')) total),
                kept,
              )
          | inr p ↦ elim tail [
            | inl q ↦ absurd (omega (arith, ap length q))
            | inr last ↦
                let (f', run, kept) =
                  scan_cut_short codec limit disk contents position laws working.readable lossless
                    batches log last.batch last.frame cut last.more k f logged last.encoded
                    last.part p last.missing h room in
                inr (
                  p,
                  f',
                  subst
                      (λ n.
                        scan disk codec limit n f
                        ≡ ok (ScanOutcome.partial_tail (concat batches) whole, f'))
                      rounds run,
                  kept,
                )
          ]
        ]

    -- What is left of the tail once it is cut off.
    pub scan_recovered :
        (f : F)
        → options.recovery ≡ RecoveryPolicy.truncate_partial_tail
        → contents f ≡ file_header ++ (log ++ cut)
        → length (contents f) < u64_mod
        → length (contents f) < fuel
        → (scanned : ScanOutcome E × F) × (f' : F) × (scan disk codec options.max_frame_bytes fuel f
            ≡ ok scanned)
          × (recover disk options scanned ≡ ok (concat batches, whole, f'))
          × (contents f' ≡ file_header ++ log)
    unfolding recover
    scan_recovered f policy h room enough = elim (scan_tail f h room enough) [
      | inl (p, f', run, kept) ↦ (
        (ScanOutcome.complete (concat batches) whole, f'),
        f',
        run,
        refl,
        kept
            ∙ h
            ∙ ap (λ c. file_header ++ (log ++ c)) p
            ∙ ap (λ l. file_header ++ l) (append-nil log),
      )
      | inr (p, f', run, kept) ↦
          let f₁ = (disk.set_len whole f').1 in
          let (f₂, synced, same) =
            sync_works disk contents position laws working options.durability f₁ in
          let sizes = length-append file_header log in
          let split : contents f' ≡ (file_header ++ log) ++ cut =
            kept ∙ h ∙ sym (append_assoc file_header log cut) in
          let shorter =
            laws.set_len_law whole f' (working.cuts whole f')
              (omega (arith, ap length split, length-append (file_header ++ log) cut, sizes)) in
          let taken : take whole (contents f') ≡ file_header ++ log =
            rw (split, ← sizes) (take-length_append (file_header ++ log) cut) in
          (
            (ScanOutcome.partial_tail (concat batches) whole, f'),
            f₂,
            run,
            rw (policy, working.cuts whole f', synced) refl,
            same ∙ shorter ∙ taken,
          )
    ]
