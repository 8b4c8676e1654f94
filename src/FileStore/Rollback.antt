-- ===== src/FileStore/Rollback.antt =====
-- store/file.rs, `sync` and `rollback_tail`: what they leave in the file, where every call of the
-- operating system may fail.
use weavatrix_memory.Base.{
  String, io, MemoryError, ℕ, ◌≡◌, ◌≢◌, refl, ap, ◌∙◌, ◌⊎◌, inl, inr, arith, List, ◌++◌, length,
  length-append, take, Result, ok, err, panic, ok-ne-panic, Result-cases,
}
use weavatrix_memory.Bytes.Words.{take-length_append}
use weavatrix_memory.Disk.{Disk, IoResult, IsDisk, map_io, IoResult-cases}
use weavatrix_memory.FileStore.{Durability, FileEventStore, sync, rollback_tail, or_rollback}

map_io-ne-panic :
    {A : Type 0} (operation : String) (outcome : IoResult A) → map_io operation outcome ≢ panic
map_io-ne-panic operation (IoResult.done a) = ground arith
map_io-ne-panic operation (IoResult.failed message) = ground arith

err-ne-panic : {A : Type 0} (e : MemoryError) → ◌≢◌ {A = Result A} (err e) panic
err-ne-panic e = ground arith

-- What a failed append leaves alone.
pub record IsSameLog {E F : Type 0} (st st' : FileEventStore E F) : Type 0 where
  pub inner : st'.inner ≡ st.inner
  pub options : st'.options ≡ st.options
  pub durable_len : st'.durable_len ≡ st.durable_len

pub with_file-IsSameLog :
    {E F : Type 0} (st : FileEventStore E F) (f : F) → IsSameLog st (record st { file = f })
with_file-IsSameLog st f = record { inner = refl; options = refl; durable_len = refl }

module _ {F : Type 0} (disk : Disk F) (contents : F → List ℕ) (position : F → ℕ)
    (laws : IsDisk disk contents position) where
  pub sync-contents :
      (durability : Durability) (f : F)
      → (r : Result (Unit {0})) × (f' : F) × (sync disk durability f ≡ (r, f'))
        × (r ≢ panic)
        × (contents f' ≡ contents f)
  unfolding sync
  sync-contents Durability.flush f = (ok tt, f, refl, ok-ne-panic tt, refl)
  sync-contents Durability.sync_data f = (
    map_io "sync event log" (disk.sync_data f).0,
    (disk.sync_data f).1,
    refl,
    map_io-ne-panic _ _,
    laws.sync_data_keeps f,
  )
  sync-contents Durability.sync_all f = (
    map_io "sync event log data and metadata" (disk.sync_all f).0,
    (disk.sync_all f).1,
    refl,
    map_io-ne-panic _ _,
    laws.sync_all_keeps f,
  )

module _ {E F : Type 0} (disk : Disk F) (contents : F → List ℕ) (position : F → ℕ)
    (laws : IsDisk disk contents position) where
  -- Either the tail is gone, or it is still there.
  pub rollback_tail-contents :
      (st : FileEventStore E F) (base tail : List ℕ)
      → contents st.file ≡ base ++ tail
      → st.durable_len ≡ length base
      → (r : Result (Unit {0})) × (f' : F) × (rollback_tail disk st ≡ (r, record st { file = f' }))
        × (r ≢ panic)
        × ((contents f' ≡ base) ⊎ (contents f' ≡ base ++ tail))
  unfolding rollback_tail
  rollback_tail-contents st base tail h size =
      let rolled : take st.durable_len (contents st.file) ≡ base =
        rw (size, h) (take-length_append base tail) in
      let f₁ = (disk.set_len st.durable_len st.file).1 in
      let f₂ = (disk.seek_start st.durable_len f₁).1 in
      let same₂ = laws.seek_keeps st.durable_len f₁ in
      let (r, f₃, run, returns, same₃) =
        sync-contents disk contents position laws st.options.durability f₂ in
      elim (IoResult-cases (disk.set_len st.durable_len st.file).0) [
        | inr (message, q) ↦ (
          err (io "rollback partial event batch" message),
          f₁,
          rw q refl,
          err-ne-panic _,
          inr (laws.set_len_fails st.durable_len st.file q ∙ h),
        )
        | inl (u, q) ↦
            let cut : contents f₁ ≡ base =
              laws.set_len_law st.durable_len st.file q
                (omega (arith, size, ap length h, length-append base tail))
              ∙ rolled in
            elim (IoResult-cases (disk.seek_start st.durable_len f₁).0) [
              | inr (message, q') ↦ (
                err (io "seek after rollback" message),
                f₂,
                rw (q, q') refl,
                err-ne-panic _,
                inl (same₂ ∙ cut),
              )
              | inl (v, q') ↦ (r, f₃, rw (q, q', run) refl, returns, inl (same₃ ∙ same₂ ∙ cut))
            ]
      ]

  -- A call that may fail, followed by the rollback: it succeeded, or it failed and the tail is gone
  -- or still there.
  pub or_rollback-contents :
      (call : Result (Unit {0})) (st : FileEventStore E F) (base tail : List ℕ)
      → call ≢ panic
      → contents st.file ≡ base ++ tail
      → st.durable_len ≡ length base
      → ((call ≡ ok tt) × (or_rollback disk (call, st) ≡ (ok tt, st)))
        ⊎ ((e : MemoryError) × (f' : F) × (or_rollback disk (call, st)
              ≡ (err e, record st { file = f' }))
            × ((contents f' ≡ base) ⊎ (contents f' ≡ base ++ tail)))
  unfolding or_rollback
  or_rollback-contents (ok u) st base tail returns h size = inl (refl, refl)
  or_rollback-contents panic st base tail returns h size = absurd (returns refl)
  or_rollback-contents (err e) st base tail returns h size =
      let (r, f', run, rolls, left) = rollback_tail-contents st base tail h size in
      elim (Result-cases r) [
        | inl (u, q) ↦ inr (e, f', rw (run, q) refl, left)
        | inr (inl (e', q)) ↦ inr (e', f', rw (run, q) refl, left)
        | inr (inr q) ↦ absurd (rolls q)
      ]
