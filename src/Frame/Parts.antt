-- ===== src/Frame/Parts.antt =====
-- store/frame.rs, the parts of a round of `scan`: none panics, and what a round with a batch has read.
use weavatrix_memory.Base.{
  ok_pair, String, ℕ, zero, suc, ◌≡◌, ◌≢◌, refl, ap, arith, List, [], ◌∷◌, ◌++◌, All, ok, panic,
  >>=-eq-ok, ok_or, ok_or-ok, ok_or-ne-panic, >>=-ne-panic, ok-ne-panic,
}
use weavatrix_memory.Bytes.Words.{IsByte}
use weavatrix_memory.Codec.{Codec, IsTotal}
use weavatrix_memory.Disk.{Disk, IoResult, map_io}
use weavatrix_memory.Event.{StoredEvent}
use weavatrix_memory.Store.{u64_from}
use weavatrix_memory.Frame.Checksum.{crc32c, reference_crc32c}
use weavatrix_memory.Frame.Checksum.Table.{crc32c_reference}
use weavatrix_memory.Frame.Room.{allocate_values, read_u32-lt}
use weavatrix_memory.Frame.{
  read_u32, corrupt, decode_loop, decode_payload, ReadState, Round, check_payload, scan_payload,
  payload_read, header_read,
}

pub append-All {ℓ κ} :
    {A : Type ℓ} (P : A → Type κ) (xs ys : List A) → All P (xs ++ ys) → All P xs × All P ys
append-All P [] ys h = (tt, h)
append-All P (x ∷ xs) ys h = let (left, right) = append-All P xs ys h.1 in ((h.0, left), right)

map_io-ne-panic :
    {A : Type 0} (operation : String) (outcome : IoResult A) → map_io operation outcome ≢ panic
map_io-ne-panic operation (IoResult.done a) = ground arith
map_io-ne-panic operation (IoResult.failed message) = ground arith

u64_from-ne-panic : (n : ℕ) → u64_from n ≢ panic
u64_from-ne-panic n = ground arith

crc32c-ne-panic : (bytes : List ℕ) → All IsByte bytes → crc32c bytes ≢ panic
crc32c-ne-panic bytes h = rw (crc32c_reference bytes h) (ok-ne-panic (reference_crc32c bytes))

module _ {E : Type 0} (codec : Codec (StoredEvent E)) (total : IsTotal codec) where
  decode_loop-ne-panic :
      (count : ℕ) (payload : List ℕ) (offset cursor : ℕ) (events : List (StoredEvent E))
      → decode_loop count payload codec offset cursor events ≢ panic
  unfolding decode_loop
  decode_loop-ne-panic zero payload offset cursor events = ground arith
  decode_loop-ne-panic (suc count) payload offset cursor events =
      grind (arith, total.decode_returns, decode_loop-ne-panic count payload offset)

  decode_payload-ne-panic :
      (payload : List ℕ) (offset : ℕ)
      → All IsByte payload
      → decode_payload payload codec offset ≢ panic
  unfolding decode_payload
  decode_payload-ne-panic payload offset h =
      >>=-ne-panic (ok_or (corrupt offset "missing event count") (read_u32 payload 0)) _
        (ok_or-ne-panic (corrupt offset "missing event count") (read_u32 payload 0))
        (λ (count, start) q.
          let read = ok_or-ok (corrupt offset "missing event count") (read_u32 payload 0) q in
          let fits =
            allocate_values count codec.size_of (read_u32-lt payload count start h read)
              total.small_values in
          rw fits (grind (arith, decode_loop-ne-panic count payload offset start [])))

  check_payload-ne-panic :
      (offset payload_len expected_crc : ℕ) (payload : List ℕ)
      → All IsByte payload
      → check_payload codec offset payload_len expected_crc (ReadState.complete payload) ≢ panic
  unfolding check_payload
  check_payload-ne-panic offset payload_len expected_crc payload h =
      grind (arith, crc32c-ne-panic payload h, decode_payload-ne-panic payload offset h)

  module _ {F : Type 0} (disk : Disk F) (max_frame_bytes : ℕ) where
    pub payload_read-ne-panic :
        (offset payload_len expected_crc : ℕ) (r : IoResult ReadState × F)
        → ((payload : List ℕ) (f : F)
            → r ≡ (IoResult.done (ReadState.complete payload), f)
            → All IsByte payload)
        → payload_read codec offset payload_len expected_crc r ≢ panic
    unfolding check_payload
    payload_read-ne-panic offset n c (IoResult.failed message, f) h = ground arith
    payload_read-ne-panic offset n c (IoResult.done ReadState.eof, f) h = ground arith
    payload_read-ne-panic offset n c (IoResult.done ReadState.partial, f) h = ground arith
    payload_read-ne-panic offset n c (IoResult.done (ReadState.complete payload), f) h =
        grind (arith, check_payload-ne-panic offset n c payload (h payload f refl))

    pub header_read-ne-panic :
        (offset : ℕ) (r : IoResult ReadState × F)
        → ((header : List ℕ) (f : F)
            → r ≡ (IoResult.done (ReadState.complete header), f)
            → scan_payload disk codec max_frame_bytes offset header f ≢ panic)
        → header_read disk codec max_frame_bytes offset r ≢ panic
    header_read-ne-panic offset (IoResult.failed message, f) h = ground arith
    header_read-ne-panic offset (IoResult.done ReadState.eof, f) h = ground arith
    header_read-ne-panic offset (IoResult.done ReadState.partial, f) h = ground arith
    header_read-ne-panic offset (IoResult.done (ReadState.complete header), f) h = h header f refl

    pub payload_read-batch :
        (offset payload_len expected_crc : ℕ) (r : IoResult ReadState × F)
        {batch : List (StoredEvent E)} {next : ℕ} {f' : F}
        → payload_read codec offset payload_len expected_crc r ≡ ok (Round.batch batch next, f')
        → (payload : List ℕ) × (r ≡ (IoResult.done (ReadState.complete payload), f'))
    unfolding check_payload
    payload_read-batch offset n c (IoResult.failed message, f) h = absurd (ground arith)
    payload_read-batch offset n c (IoResult.done ReadState.eof, f) h = absurd (ground arith)
    payload_read-batch offset n c (IoResult.done ReadState.partial, f) h = absurd (ground arith)
    payload_read-batch offset n c (IoResult.done (ReadState.complete payload), f) h =
        let (round, checked, q) =
          >>=-eq-ok (check_payload codec offset n c (ReadState.complete payload))
            (λ round. ok (round, f)) h in
        (payload, ap (λ f. (IoResult.done (ReadState.complete payload), f)) (ok_pair q).1)

    pub header_read-batch :
        (offset : ℕ) (r : IoResult ReadState × F) {batch : List (StoredEvent E)} {next : ℕ} {f' : F}
        → header_read disk codec max_frame_bytes offset r ≡ ok (Round.batch batch next, f')
        → (header : List ℕ) × (f : F) × (r ≡ (IoResult.done (ReadState.complete header), f))
          × (scan_payload disk codec max_frame_bytes offset header f
              ≡ ok (Round.batch batch next, f'))
    header_read-batch offset (IoResult.failed message, f) h = absurd (ground arith)
    header_read-batch offset (IoResult.done ReadState.eof, f) h = absurd (ground arith)
    header_read-batch offset (IoResult.done ReadState.partial, f) h = absurd (ground arith)
    header_read-batch offset (IoResult.done (ReadState.complete header), f) h = (header, f, refl, h)
