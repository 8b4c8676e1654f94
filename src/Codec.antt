-- ===== src/Codec.antt =====
-- codec/mod.rs: the trait `Codec`, a record of its operations. The crate's implementations call
-- other packages for the serialization itself.
use weavatrix_memory.Base.{ℕ, ◌^◌, ◌<◌, ◌≡◌, ◌≢◌, List, All, Result, ok, panic}
use weavatrix_memory.Bytes.Words.{IsByte}

pub record Codec (Value : Type 0) : Type 0 where
  -- `size_of::<Value>()`, in bytes
  pub size_of : ℕ
  pub encode : Value → Result (List ℕ)
  pub decode : List ℕ → Result Value

-- What the log relies on: what is encoded is bytes and decodes to the value, whose own size, without
-- what it points to, is below 2 GiB.
pub record IsLossless {Value : Type 0} (codec : Codec Value) : Type 0 where
  pub bytes :
      (value : Value) {encoded : List ℕ} → codec.encode value ≡ ok encoded → All IsByte encoded
  pub small : codec.size_of < 2 ^ 31
  pub decoded :
      (value : Value) {encoded : List ℕ}
      → codec.encode value ≡ ok encoded
      → codec.decode encoded ≡ ok value

-- Neither direction panics, nor does room for as many values as a `u32` counts.
pub record IsTotal {Value : Type 0} (codec : Codec Value) : Type 0 where
  pub small_values : codec.size_of < 2 ^ 31
  pub encode_returns : (value : Value) → codec.encode value ≢ panic
  pub decode_returns : (bytes : List ℕ) → codec.decode bytes ≢ panic
