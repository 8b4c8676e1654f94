-- ===== src/FileStore/Persist.antt =====
-- store/file.rs, `persist`: a batch is in the file, or the file is what it was or ends in a part of
-- the batch. Every call of the operating system may fail.
use weavatrix_memory.Base.{
  ℕ, ◌+◌, ◌<◌, ◌≡◌, refl, sym, ap, ◌∙◌, ◌⊎◌, inl, inr, arith, List, [], ◌∷◌, ◌++◌, append-nil,
  length, length-append, take, ok, err, ◌>>=◌, io, MemoryError,
}
use weavatrix_memory.Disk.{Disk, IsDisk, IoResult-cases}
use weavatrix_memory.Store.{u64_mod, u64_from, checked_add}
use weavatrix_memory.FileStore.Rollback.{sync-contents, or_rollback-contents}
use weavatrix_memory.FileStore.{FileEventStore, write_frame, or_rollback}

take_all : {A : Type 0} (xs : List A) → take (length xs) xs ≡ xs
take_all [] = refl
take_all (x ∷ xs) = ap (◌∷◌ x) (take_all xs)

module _ {E F : Type 0} (contents : F → List ℕ) where
  -- The batch is in the file.
  pub record IsWritten (st : FileEventStore E F) (base frame : List ℕ) (st' : FileEventStore E F)
      : Type 0 where
    pub inner : st'.inner ≡ st.inner
    pub options : st'.options ≡ st.options
    pub holds : contents st'.file ≡ base ++ frame
    pub durable_len : st'.durable_len ≡ length (base ++ frame)

  -- The batch is not, but a part of it may be.
  pub record IsNotWritten (st : FileEventStore E F) (base frame : List ℕ) (st' : FileEventStore E F)
      : Type 0 where
    pub inner : st'.inner ≡ st.inner
    pub options : st'.options ≡ st.options
    pub part : ℕ
    pub holds : contents st'.file ≡ base ++ take part frame
    pub durable_len : st'.durable_len ≡ st.durable_len

module _ {E F : Type 0} (disk : Disk F) (contents : F → List ℕ) (position : F → ℕ)
    (laws : IsDisk disk contents position) where
  not_written :
      (st : FileEventStore E F) (base frame : List ℕ) (part : ℕ) (f' : F)
      → (contents f' ≡ base) ⊎ (contents f' ≡ base ++ take part frame)
      → IsNotWritten contents st base frame (record st { file = f' })
  not_written st base frame part f' (inl h) = record {
    inner = refl;
    options = refl;
    part = 0;
    holds = h ∙ sym (append-nil base);
    durable_len = refl;
  }
  not_written st base frame part f' (inr h) = record {
    inner = refl;
    options = refl;
    part = part;
    holds = h;
    durable_len = refl;
  }

  finish :
      (st : FileEventStore E F) (frame : List ℕ)
      → st.durable_len + length frame < u64_mod
      → (u64_from (length frame) >>= λ size. checked_add st.durable_len size)
        ≡ ok (st.durable_len + length frame)
  finish st frame h = ground arith

  pub write_frame-contents :
      (st : FileEventStore E F) (base frame : List ℕ)
      → contents st.file ≡ base
      → st.durable_len ≡ length base
      → length (base ++ frame) < u64_mod
      → ((st' : FileEventStore E F) × (write_frame disk st frame ≡ (ok tt, st'))
          × IsWritten contents st base frame st')
        ⊎ ((e : MemoryError) × (st' : FileEventStore E F) × (write_frame disk st frame
              ≡ (err e, st'))
            × IsNotWritten contents st base frame st')
  unfolding write_frame or_rollback
  write_frame-contents st base frame h size room =
      let sizes = length-append base frame in
      let f₁ = (disk.seek_start st.durable_len st.file).1 in
      let same₁ = laws.seek_keeps st.durable_len st.file in
      let f₂ = (disk.write_all frame f₁).1 in
      elim (IoResult-cases (disk.seek_start st.durable_len st.file).0) [
        | inr (message, q) ↦ inr (
          io "seek append position" message,
          record st { file = f₁ },
          rw q refl,
          not_written st base frame 0 f₁ (inl (same₁ ∙ h)),
        )
        | inl (u, q) ↦
            let at_end : position f₁ ≡ length (contents f₁) =
              laws.seek_law st.durable_len st.file q ∙ size ∙ ap length (sym (same₁ ∙ h)) in
            let (part, wrote) = laws.write_prefix frame f₁ at_end in
            let tail : contents f₂ ≡ base ++ take part frame =
              wrote ∙ ap (λ l. l ++ take part frame) (same₁ ∙ h) in
            elim (IoResult-cases (disk.write_all frame f₁).0) [
              | inr (message, q') ↦
                  elim (or_rollback-contents disk contents position laws
                    (err (io "append event batch" message)) (record st { file = f₂ }) base
                    (take part frame) (λ e. ground arith) tail size) [
                      | inl (c, run) ↦ ground (arith, c)
                      | inr (e, f', run, left) ↦ inr (
                        e,
                        record st { file = f' },
                        rw (q, q', run) refl,
                        not_written st base frame part f' left,
                      )
                    ]
              | inl (v, q') ↦
                  let full : contents f₂ ≡ base ++ frame =
                    laws.write_law frame f₁ q' at_end ∙ ap (λ l. l ++ frame) (same₁ ∙ h) in
                  let (r, f₃, run, returns, same₃) =
                    sync-contents disk contents position laws st.options.durability f₂ in
                  elim (or_rollback-contents disk contents position laws r (record st { file = f₃ })
                    base frame returns (same₃ ∙ full) size) [
                      | inl (c, run') ↦ inl (
                        record st { file = f₃; durable_len = st.durable_len + length frame },
                        rw (q, q', run, run')
                            (rw (finish st frame (omega (arith, size, sizes))) refl),
                        record {
                          inner = refl;
                          options = refl;
                          holds = same₃ ∙ full;
                          durable_len = omega (arith, size, sizes);
                        },
                      )
                      | inr (e, f', run', left) ↦ inr (
                        e,
                        record st { file = f' },
                        rw (q, q', run, run') refl,
                        not_written st base frame (length frame) f' (rw (take_all frame) left),
                      )
                    ]
            ]
      ]
