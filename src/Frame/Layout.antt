-- ===== src/Frame/Layout.antt =====
-- store/frame.rs, `encode_batch`: what a frame is made of.
use weavatrix_memory.Base.{
  ℕ, ◌+◌, ◌≤◌, ◌<◌, ◌≡◌, sym, ap, subst, ◌∙◌, arith, List, ◌++◌, append_assoc, length,
  length-append, take, drop, ltb, ok, >>=-eq-ok, ok_injective, reject, invalid_value,
}
use weavatrix_memory.Index.{from_le_bytes}
use weavatrix_memory.Bytes.Words.{to_le_bytes, length-to_le_bytes, from_le_bytes-to_le_bytes}
use weavatrix_memory.Codec.{Codec}
use weavatrix_memory.Event.{StoredEvent}
use weavatrix_memory.Store.{u64_from, u64_mod}
use weavatrix_memory.Frame.Checksum.{u32_mod, crc32c, crc32c_loop, not_32}
use weavatrix_memory.Frame.Payload.{u64_from-ok}
use weavatrix_memory.Frame.Room.{allocate-ok}
use weavatrix_memory.Frame.{
  isize_max, allocate, batch_magic, batch_header_len, encode_payload, encode_batch,
}

crc32c-lt : (bytes : List ℕ) (crc : ℕ) → crc32c bytes ≡ ok crc → crc < u32_mod
unfolding crc32c
crc32c-lt bytes crc h =
    let (register, q, p) = >>=-eq-ok (crc32c_loop (not_32 0) bytes) (λ c. ok (not_32 c)) h in
    omega (arith, ok_injective p)

abbrev pub batch_header : (size crc : ℕ) → List ℕ
batch_header size crc = batch_magic ++ (to_le_bytes 8 size ++ to_le_bytes 4 crc)

pub length-batch_header : (size crc : ℕ) → length (batch_header size crc) ≡ batch_header_len
length-batch_header size crc = omega (
  arith,
  length-append (to_le_bytes 8 size) (to_le_bytes 4 crc),
  length-to_le_bytes 8 size,
  length-to_le_bytes 4 crc,
)

pub header_size :
    (size crc : ℕ) → size < u64_mod → from_le_bytes (take 8 (drop 4 (batch_header size crc))) ≡ size
unfolding to_le_bytes
header_size size crc h = from_le_bytes-to_le_bytes 8 size h

pub header_crc :
    (size crc : ℕ) → crc < u32_mod → from_le_bytes (take 4 (drop 12 (batch_header size crc))) ≡ crc
unfolding to_le_bytes
header_crc size crc h = from_le_bytes-to_le_bytes 4 crc h

module _ {E : Type 0} (codec : Codec (StoredEvent E)) (max_frame_bytes : ℕ) where
  -- `frame` is the frame of a batch, with its payload and checksum
  pub record IsFrame (events : List (StoredEvent E)) (frame payload : List ℕ) (crc : ℕ)
      : Type 0 where
    pub encoded : encode_payload codec events ≡ ok payload
    pub limit : length payload ≤ max_frame_bytes
    pub size : length payload < u64_mod
    pub room : batch_header_len + length payload ≤ isize_max
    pub checksum : crc32c payload ≡ ok crc
    pub crc_size : crc < u32_mod
    pub layout : frame ≡ batch_header (length payload) crc ++ payload

  pub encode_batch-IsFrame :
      (events : List (StoredEvent E)) (frame : List ℕ)
      → encode_batch events codec max_frame_bytes ≡ ok frame
      → (payload : List ℕ) × (crc : ℕ) × IsFrame events frame payload crc
  unfolding encode_batch
  encode_batch-IsFrame events frame h =
      let (payload, first, h₁) = >>=-eq-ok (encode_payload codec events) _ h in
      let (u, limit, h₂) =
        >>=-eq-ok
          (reject (ltb max_frame_bytes (length payload))
            (invalid_value "event_batch" "encoded batch exceeds max_frame_bytes"))
          _ h₁ in
      let (size, sized, h₃) = >>=-eq-ok (u64_from (length payload)) _ h₂ in
      let (v, room, h₃') = >>=-eq-ok (allocate (batch_header_len + length payload)) _ h₃ in
      let (crc, sum, h₄) = >>=-eq-ok (crc32c payload) _ h₃' in
      let (bound, same) = u64_from-ok (length payload) sized in
      (
        payload,
        crc,
        record {
          encoded = first;
          limit = ground (arith, limit);
          size = bound;
          room = allocate-ok (batch_header_len + length payload) room;
          checksum = sum;
          crc_size = crc32c-lt payload crc sum;
          layout =
              sym (
                subst
                  (λ n. batch_magic ++ (to_le_bytes 8 n ++ (to_le_bytes 4 crc ++ payload)) ≡ frame)
                  same (ok_injective h₄))
              ∙ ap (λ l. batch_magic ++ l)
                  (sym (append_assoc (to_le_bytes 8 (length payload)) (to_le_bytes 4 crc) payload));
        },
      )

  pub length-IsFrame :
      (events : List (StoredEvent E)) {frame payload : List ℕ} {crc : ℕ}
      → IsFrame events frame payload crc
      → length frame ≡ batch_header_len + length payload
  length-IsFrame events {frame} {payload} {crc} k =
      ap length k.layout
      ∙ length-append (batch_header (length payload) crc) payload
      ∙ ap (λ n. n + length payload) (length-batch_header (length payload) crc)
