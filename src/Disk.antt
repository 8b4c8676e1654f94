-- ===== src/Disk.antt =====
-- std::fs::File, as the log file uses it. The operating system is not part of the crate: its calls
-- are a record of operations on a file's state, and each may fail. `IsDisk` is what the
-- documentation of the standard library says of them.
use weavatrix_memory.Base.{
  refl, inl, inr, ℕ, ◌≤◌, ◌≡◌, ◌⊎◌, String, Bool, true, ◌<◌, List, [], ◌++◌, length, take, drop,
  Result, ok, err, io,
}

-- `std::io::Result`
pub data IoResult (A : Type 0) : Type 0 where
  done : A → IoResult A
  failed : (message : String) → IoResult A

-- To split on an outcome and keep the equation.
pub IoResult-cases :
    {A : Type 0} (outcome : IoResult A)
    → ((a : A) × (outcome ≡ IoResult.done a))
      ⊎ ((message : String) × (outcome ≡ IoResult.failed message))
IoResult-cases (IoResult.done a) = inl (a, refl)
IoResult-cases (IoResult.failed message) = inr (message, refl)

-- `map_err(|error| io(operation, error))`
abbrev pub map_io : {A : Type 0} → (operation : String) → IoResult A → Result A
map_io operation (IoResult.done a) = ok a
map_io operation (IoResult.failed message) = err (io operation message)

-- Every call returns its outcome and the state that it leaves. A read returns the bytes that it
-- puts into a buffer of the length given.
pub record Disk (F : Type 0) : Type 0 where
  pub metadata_len : F → IoResult ℕ
  pub try_lock : F → IoResult Bool × F
  pub seek_start : ℕ → F → IoResult (Unit {0}) × F
  pub seek_end : F → IoResult (Unit {0}) × F
  pub read : ℕ → F → IoResult (List ℕ) × F
  pub read_exact : ℕ → F → IoResult (List ℕ) × F
  pub write_all : List ℕ → F → IoResult (Unit {0}) × F
  pub set_len : ℕ → F → IoResult (Unit {0}) × F
  pub sync_data : F → IoResult (Unit {0}) × F
  pub sync_all : F → IoResult (Unit {0}) × F

-- the bytes from the cursor on
abbrev pub unread : {F : Type 0} → (contents : F → List ℕ) (position : F → ℕ) → F → List ℕ
unread contents position f = drop (position f) (contents f)

-- `contents` are the file's bytes, and `position` its cursor.
pub record IsDisk {F : Type 0} (disk : Disk F) (contents : F → List ℕ) (position : F → ℕ)
    : Type 0 where
  pub len_law : (f : F) {n : ℕ} → disk.metadata_len f ≡ IoResult.done n → n ≡ length (contents f)
  pub lock_keeps : (f : F) → contents (disk.try_lock f).1 ≡ contents f
  pub seek_keeps : (n : ℕ) (f : F) → contents (disk.seek_start n f).1 ≡ contents f
  pub seek_law :
      (n : ℕ) (f : F)
      → (disk.seek_start n f).0 ≡ IoResult.done tt
      → position (disk.seek_start n f).1 ≡ n
  pub end_keeps : (f : F) → contents (disk.seek_end f).1 ≡ contents f
  pub read_keeps : (n : ℕ) (f : F) → contents (disk.read n f).1 ≡ contents f
  -- At least one byte is read, unless none is asked for or the file is at its end.
  pub read_law :
      (n : ℕ) (f : F) {bytes : List ℕ}
      → (disk.read n f).0 ≡ IoResult.done bytes
      → (unread contents position f ≡ bytes ++ unread contents position (disk.read n f).1)
        × (length bytes ≤ n)
        × ((0 < length bytes) ⊎ (n ≡ 0) ⊎ (unread contents position f ≡ []))
  pub exact_keeps : (n : ℕ) (f : F) → contents (disk.read_exact n f).1 ≡ contents f
  pub exact_law :
      (n : ℕ) (f : F) {bytes : List ℕ}
      → (disk.read_exact n f).0 ≡ IoResult.done bytes
      → (unread contents position f ≡ bytes ++ unread contents position (disk.read_exact n f).1)
        × (length bytes ≡ n)
  pub write_law :
      (bytes : List ℕ) (f : F)
      → (disk.write_all bytes f).0 ≡ IoResult.done tt
      → position f ≡ length (contents f)
      → contents (disk.write_all bytes f).1 ≡ contents f ++ bytes
  -- A write that fails at the end of the file leaves a part of the bytes there.
  pub write_prefix :
      (bytes : List ℕ) (f : F)
      → position f ≡ length (contents f)
      → (k : ℕ) × (contents (disk.write_all bytes f).1 ≡ contents f ++ take k bytes)
  pub set_len_law :
      (n : ℕ) (f : F)
      → (disk.set_len n f).0 ≡ IoResult.done tt
      → n ≤ length (contents f)
      → contents (disk.set_len n f).1 ≡ take n (contents f)
  pub set_len_fails :
      (n : ℕ) (f : F) {message : String}
      → (disk.set_len n f).0 ≡ IoResult.failed message
      → contents (disk.set_len n f).1 ≡ contents f
  pub sync_data_keeps : (f : F) → contents (disk.sync_data f).1 ≡ contents f
  pub sync_all_keeps : (f : F) → contents (disk.sync_all f).1 ≡ contents f

-- Seeks and reads do not fail.
pub record IsReadable {F : Type 0} (disk : Disk F) (contents : F → List ℕ) (position : F → ℕ)
    : Type 0 where
  pub seeks : (n : ℕ) (f : F) → (disk.seek_start n f).0 ≡ IoResult.done tt
  pub reads : (n : ℕ) (f : F) → (bytes : List ℕ) × ((disk.read n f).0 ≡ IoResult.done bytes)
  pub reads_exact :
      (n : ℕ) (f : F)
      → n ≤ length (unread contents position f)
      → (bytes : List ℕ) × ((disk.read_exact n f).0 ≡ IoResult.done bytes)

-- No call fails, and no other process holds the lock.
pub record IsWorking {F : Type 0} (disk : Disk F) (contents : F → List ℕ) (position : F → ℕ)
    : Type 0 where
  pub readable : IsReadable disk contents position
  pub locks : (f : F) → (disk.try_lock f).0 ≡ IoResult.done true
  pub measures : (f : F) → disk.metadata_len f ≡ IoResult.done (length (contents f))
  pub writes : (bytes : List ℕ) (f : F) → (disk.write_all bytes f).0 ≡ IoResult.done tt
  pub cuts : (n : ℕ) (f : F) → (disk.set_len n f).0 ≡ IoResult.done tt
  pub seeks_end : (f : F) → (disk.seek_end f).0 ≡ IoResult.done tt
  pub syncs_data : (f : F) → (disk.sync_data f).0 ≡ IoResult.done tt
  pub syncs_all : (f : F) → (disk.sync_all f).0 ≡ IoResult.done tt
