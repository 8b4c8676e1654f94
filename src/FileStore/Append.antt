-- ===== src/FileStore/Append.antt =====
-- store/file.rs, `append`: it is the append of the store in memory, and the file has the frames of
-- the batches that succeeded. Every call of the operating system may fail.
use weavatrix_memory.Base.{
  ◌≤◌, ℕ, >>=-eq-ok, reject, not, external_modification, ◌+◌, ◌≡◌, refl, sym, ap, ◌∙◌, ◌⊎◌, inl,
  inr, arith, List, [], ◌∷◌, ◌++◌, append-nil, append_assoc, length, length-append, take, ok, err,
  Result-cases, MemoryError, eqb,
}
use weavatrix_memory.Codec.{Codec, IsLossless, IsTotal}
use weavatrix_memory.Disk.{Disk, IsDisk, map_io}
use weavatrix_memory.Domain.{StreamId}
use weavatrix_memory.Event.{NewEvent, StoredEvent}
use weavatrix_memory.Frame.Scan.{encode_log, concat}
use weavatrix_memory.Frame.Encode.{
  encode_batch-ne-panic, encode_log-snoc, concat-snoc, length-encode_batch,
}
use weavatrix_memory.Frame.{file_header, encode_batch, batch_header_len, isize_max}
use weavatrix_memory.Store.{
  u64_mod, InMemoryStore, ExpectedVersion, prepare_append, commit_prepared,
}
use weavatrix_memory.Store as Memory
use weavatrix_memory.Store.Consistent.{IsConsistent}
use weavatrix_memory.Store.Append.{prepared_commits, prepare_append-ne-panic}
use weavatrix_memory.FileStore.Persist.{IsWritten, write_frame-contents}
use weavatrix_memory.FileStore.{FileEventStore, frame_for, persist, append}

-- The file holds the header and the frames of `batches`, whose events are the log in memory.
pub record IsLogged {E F : Type 0} (codec : Codec (StoredEvent E)) (contents : F → List ℕ)
    (st : FileEventStore E F) (batches : List (List (StoredEvent E))) (log : List ℕ) : Type 0 where
  pub consistent : IsConsistent st.inner
  pub logged : encode_log batches codec st.options.max_frame_bytes ≡ ok log
  pub holds : contents st.file ≡ file_header ++ log
  pub events : st.inner.events ≡ concat batches
  pub durable_len : st.durable_len ≡ length (contents st.file)

-- An empty batch has no frame.
abbrev pub with_batch {ℓ} : {A : Type ℓ} → List (List A) → List A → List (List A)
with_batch batches [] = batches
with_batch batches (event ∷ events) = batches ++ (event ∷ events) ∷ []

module _ {E F : Type 0} (disk : Disk F) (contents : F → List ℕ) (position : F → ℕ)
    (laws : IsDisk disk contents position) (codec : Codec (StoredEvent E))
    (lossless : IsLossless codec) (total : IsTotal codec) where
  frame_for-cases :
      (st : FileEventStore E F) (events : List (StoredEvent E))
      → batch_header_len + st.options.max_frame_bytes ≤ isize_max
      → ((frame : List ℕ) × (frame_for disk codec st events ≡ ok frame)
          × (encode_batch events codec st.options.max_frame_bytes ≡ ok frame))
        ⊎ ((e : MemoryError) × (frame_for disk codec st events ≡ err e))
  unfolding frame_for
  frame_for-cases st events small = elim (Result-cases (frame_for disk codec st events)) [
    | inl (frame, q) ↦
        let (n, measured, h) =
          >>=-eq-ok (map_io "read event log metadata" (disk.metadata_len st.file)) _ q in
        let (u, same, encoded) =
          >>=-eq-ok (reject (not (eqb n st.durable_len)) external_modification)
            (λ u. encode_batch events codec st.options.max_frame_bytes) h in
        inl (frame, q, encoded)
    | inr (inl e) ↦ inr e
    | inr (inr q) ↦ absurd (
        grind (
          arith,
          q,
          encode_batch-ne-panic codec events st.options.max_frame_bytes small lossless total,
        ))
  ]

  -- A batch that is not empty.
  persist_cons :
      (st : FileEventStore E F) (batches : List (List (StoredEvent E))) (log : List ℕ)
      (event : StoredEvent E) (events : List (StoredEvent E))
      → IsLogged codec contents st batches log
      → length (contents st.file) + batch_header_len + st.options.max_frame_bytes ≤ isize_max
      → ((frame : List ℕ) × (st' : FileEventStore E F) × (persist disk codec st (event ∷ events)
            ≡ (ok tt, st'))
          × (encode_batch (event ∷ events) codec st.options.max_frame_bytes ≡ ok frame)
          × IsWritten contents st (contents st.file) frame st')
        ⊎ ((e : MemoryError) × (st' : FileEventStore E F) × (persist disk codec st (event ∷ events)
              ≡ (err e, st'))
            × (st'.inner ≡ st.inner)
            × (st'.durable_len ≡ st.durable_len)
            × ((contents st'.file ≡ contents st.file)
                ⊎ ((frame : List ℕ) × (part : ℕ) × (encode_batch
                        (event ∷ events)
                        codec
                        st.options.max_frame_bytes
                      ≡ ok frame)
                    × (contents st'.file ≡ contents st.file ++ take part frame))))
  unfolding persist
  persist_cons st batches log event events k room =
      elim (frame_for-cases st (event ∷ events) (omega (arith, room))) [
        | inr (e, q) ↦ inr (e, st, rw q refl, refl, refl, inl refl)
        | inl (frame, q, encoded) ↦
            elim (write_frame-contents disk contents position laws st (contents st.file) frame refl
              k.durable_len
              (omega (
                arith,
                length-append (contents st.file) frame,
                (length-encode_batch codec (event ∷ events) st.options.max_frame_bytes frame
                    encoded).1,
              ))) [
                | inl (st', run, written) ↦ inl (frame, st', rw q run, encoded, written)
                | inr (e, st', run, left) ↦ inr (
                  e,
                  st',
                  rw q run,
                  left.inner,
                  left.durable_len,
                  inr (frame, left.part, encoded, left.holds),
                )
              ]
      ]

  -- Either the batch is in memory and in the file, or the call failed.
  unfoldable pub AppendOutcome :
      FileEventStore E F
      → List (List (StoredEvent E))
      → StreamId
      → ExpectedVersion
      → List (NewEvent E)
      → Type 0
  AppendOutcome st batches stream expected events =
      ((c : List (StoredEvent E)) × (st' : FileEventStore E F) × (log' : List ℕ) × (append disk
            codec st stream expected events
          ≡ (ok c, st'))
        × (Memory.append st.inner stream expected events ≡ ok (c, st'.inner))
        × IsLogged codec contents st' (with_batch batches c) log'
        × (st'.options ≡ st.options))
      ⊎ ((e : MemoryError) × (st' : FileEventStore E F) × (append disk codec st stream expected
              events
            ≡ (err e, st'))
          × (st'.inner ≡ st.inner)
          × (st'.durable_len ≡ st.durable_len)
          × ((contents st'.file ≡ contents st.file)
              ⊎ ((c : List (StoredEvent E)) × (frame : List ℕ) × (part : ℕ) × (prepare_append
                      st.inner stream expected events
                    ≡ ok c)
                  × (encode_batch c codec st.options.max_frame_bytes ≡ ok frame)
                  × (contents st'.file ≡ contents st.file ++ take part frame))))

  append_prepared :
      (st : FileEventStore E F) (batches : List (List (StoredEvent E))) (log : List ℕ)
      (stream : StreamId) (expected : ExpectedVersion) (events : List (NewEvent E))
      (c : List (StoredEvent E))
      → IsLogged codec contents st batches log
      → length (contents st.file) + batch_header_len + st.options.max_frame_bytes ≤ isize_max
      → prepare_append st.inner stream expected events ≡ ok c
      → AppendOutcome st batches stream expected events
  unfolding append persist AppendOutcome
  append_prepared st batches log stream expected events [] k room q =
      let (inner', done, appended, evs, k') =
        prepared_commits st.inner stream expected events [] k.consistent q in
      inl (
        [],
        record st { inner = inner' },
        log,
        rw (q, done) refl,
        appended,
        record {
          consistent = k';
          logged = k.logged;
          holds = k.holds;
          events = evs ∙ append-nil st.inner.events ∙ k.events;
          durable_len = k.durable_len;
        },
        refl,
      )
  append_prepared st batches log stream expected events (first ∷ rest) k room q =
      let c = first ∷ rest in
      let (inner', done, appended, evs, k') =
        prepared_commits st.inner stream expected events c k.consistent q in
      elim (persist_cons st batches log first rest k room) [
        | inr (e, st', run, same, len, left) ↦ inr (
          e,
          st',
          rw (q, run) refl,
          same,
          len,
          (elim left [
            | inl h ↦ inl h
            | inr (frame, part, encoded, h) ↦ inr (c, frame, part, q, encoded, h)
          ]),
        )
        | inl (frame, st', run, encoded, w) ↦
            let done' : commit_prepared st'.inner c ≡ ok inner' = rw w.inner done in
            inl (
              c,
              record st' { inner = inner' },
              log ++ frame,
              rw (q, run, done') refl,
              appended,
              record {
                consistent = k';
                logged = rw w.options (
                    encode_log-snoc codec st.options.max_frame_bytes batches c log frame k.logged
                      encoded);
                holds = w.holds ∙ ap (λ l. l ++ frame) k.holds ∙ append_assoc file_header log frame;
                events = evs ∙ ap (λ l. l ++ c) k.events ∙ sym (concat-snoc codec batches c);
                durable_len = w.durable_len ∙ ap length (sym w.holds);
              },
              w.options,
            )
      ]

  -- In a file store whose file holds the header and the frames of its batches, with events that
  -- take less than 2 ^ 31 bytes in a vector, a codec that decodes what it encodes and does not
  -- panic, and room for a frame below 2 ^ 63 bytes, `append` does one of two things, whichever
  -- calls of the operating system fail. It returns what the append of the store in memory returns,
  -- and then the store in memory is that append's, the options are what they were, and the file
  -- holds the frames and, if the batch is not empty, a frame of the batch after them. Or it
  -- returns an error, the store in memory and the durable length are what they were, and the file
  -- has what it had, followed by nothing or by a part of the frame of the batch that was prepared.
  pub append-IsLogged :
      (st : FileEventStore E F) (batches : List (List (StoredEvent E))) (log : List ℕ)
      (stream : StreamId) (expected : ExpectedVersion) (events : List (NewEvent E))
      → IsLogged codec contents st batches log
      → length (contents st.file) + batch_header_len + st.options.max_frame_bytes ≤ isize_max
      → AppendOutcome st batches stream expected events
  unfolding append AppendOutcome
  append-IsLogged st batches log stream expected events k room =
      elim (Result-cases (prepare_append st.inner stream expected events)) [
        | inr (inl (e, q)) ↦ inr (e, st, rw q refl, refl, refl, inl refl)
        | inr (inr q) ↦
            absurd (prepare_append-ne-panic st.inner stream expected events k.consistent q)
        | inl (c, q) ↦ append_prepared st batches log stream expected events c k room q
      ]
