-- ===== src/Frame/Total.antt =====
-- store/frame.rs, `scan` on any file: it returns, without a panic, whatever the file holds and
-- whichever reads fail.
use weavatrix_memory.Base.{
  take, drop, take-append-drop, length-drop, ℕ, zero, suc, ◌≤◌, ◌<◌, ◌≡◌, ◌≢◌, ap, subst, inl, inr,
  arith, List, [], ◌++◌, length, length-append, ltb, not, All, Result, ok, panic, >>=-eq-ok, reject,
  reject-ne-panic, >>=-ne-panic, >>-ne-panic,
}
use weavatrix_memory.Bytes.Words.{IsByte, bytes_eq}
use weavatrix_memory.Index.{from_le_bytes}
use weavatrix_memory.Codec.{Codec, IsTotal}
use weavatrix_memory.Disk.{Disk, unread, IoResult, IsDisk, IoResult-cases}
use weavatrix_memory.Event.{StoredEvent}
use weavatrix_memory.Frame.Room.{allocate_fits}
use weavatrix_memory.Frame.Parts.{
  append-All, payload_read-ne-panic, header_read-ne-panic, payload_read-batch, header_read-batch,
}
use weavatrix_memory.Frame.Taken.{read_taken}
use weavatrix_memory.Frame.{
  isize_max, allocate, batch_magic, corrupt, batch_header_len, read_or_partial, ReadState,
  ScanOutcome, Round, scan_payload, scan_round, scan_loop, scan,
}

module _ {E : Type 0} (codec : Codec (StoredEvent E)) (total : IsTotal codec) where
  module _ {F : Type 0} (disk : Disk F) (max_frame_bytes : ℕ) where
    module _ (contents : F → List ℕ) (position : F → ℕ) (laws : IsDisk disk contents position) where
      taken-IsByte :
          (want : ℕ) (f : F) (out : List ℕ) (f' : F)
          → All IsByte (unread contents position f)
          → read_or_partial disk want f ≡ (IoResult.done (ReadState.complete out), f')
          → All IsByte out × All IsByte (unread contents position f')
      taken-IsByte want f out f' bytes r =
          let (split, same, filled) = read_taken disk contents position laws want f r in
          append-All IsByte out (unread contents position f') (subst (All IsByte) split bytes)

      scan_payload-ne-panic :
          (offset : ℕ) (header : List ℕ) (f : F)
          → max_frame_bytes ≤ isize_max
          → All IsByte (unread contents position f)
          → scan_payload disk codec max_frame_bytes offset header f ≢ panic
      unfolding scan_payload
      scan_payload-ne-panic offset header f small bytes =
          let size = from_le_bytes (take 8 (drop 4 header)) in
          let crc = from_le_bytes (take 4 (drop 12 header)) in
          >>-ne-panic _ _
            (reject-ne-panic (not (bytes_eq (take 4 header) batch_magic))
              (corrupt offset "invalid batch marker"))
            (>>=-ne-panic
              (reject (ltb max_frame_bytes size)
                (corrupt offset "batch exceeds configured frame limit"))
              _
              (reject-ne-panic (ltb max_frame_bytes size)
                (corrupt offset "batch exceeds configured frame limit"))
              (λ u limited.
                let within : size ≤ isize_max = ground (arith, limited, small) in
                rw (allocate_fits size within) (
                  payload_read-ne-panic codec total disk max_frame_bytes offset size crc
                    (read_or_partial disk size f)
                    (λ payload f' r. (taken-IsByte size f payload f' bytes r).0))))

      scan_payload-batch :
          (offset : ℕ) (header : List ℕ) (f : F) {batch : List (StoredEvent E)} {next : ℕ} {f' : F}
          → scan_payload disk codec max_frame_bytes offset header f
            ≡ ok (Round.batch batch next, f')
          → (want : ℕ) × (payload : List ℕ) × (read_or_partial disk want f
              ≡ (IoResult.done (ReadState.complete payload), f'))
      unfolding scan_payload
      scan_payload-batch offset header f h =
          let size = from_le_bytes (take 8 (drop 4 header)) in
          let crc = from_le_bytes (take 4 (drop 12 header)) in
          let (u, marked, h₁) =
            >>=-eq-ok
              (reject (not (bytes_eq (take 4 header) batch_magic))
                (corrupt offset "invalid batch marker"))
              _ h in
          let (v, limited, h₂) =
            >>=-eq-ok
              (reject (ltb max_frame_bytes size)
                (corrupt offset "batch exceeds configured frame limit"))
              _ h₁ in
          let (w, roomy, h₃) = >>=-eq-ok (allocate size) _ h₂ in
          let (payload, r) =
            payload_read-batch codec total disk max_frame_bytes offset size crc
              (read_or_partial disk size f) h₃ in
          (size, payload, r)

      scan_round-ne-panic :
          (offset : ℕ) (f : F)
          → max_frame_bytes ≤ isize_max
          → All IsByte (unread contents position f)
          → scan_round disk codec max_frame_bytes offset f ≢ panic
      unfolding scan_round
      scan_round-ne-panic offset f small bytes =
          header_read-ne-panic codec total disk max_frame_bytes offset
            (read_or_partial disk batch_header_len f)
            (λ header f' r.
              scan_payload-ne-panic offset header f' small
                (taken-IsByte batch_header_len f header f' bytes r).1)

      -- A round that finds a batch takes the batch header at least.
      scan_round-batch :
          (offset : ℕ) (f : F) {batch : List (StoredEvent E)} {next : ℕ} {f' : F}
          → All IsByte (unread contents position f)
          → scan_round disk codec max_frame_bytes offset f ≡ ok (Round.batch batch next, f')
          → All IsByte (unread contents position f')
            × (length (unread contents position f') < length (unread contents position f))
      unfolding scan_round
      scan_round-batch offset f {f' = f'} bytes h =
          let (header, f₁, r, h₁) =
            header_read-batch codec total disk max_frame_bytes offset
              (read_or_partial disk batch_header_len f) h in
          let (want, payload, r₁) = scan_payload-batch offset header f₁ h₁ in
          let (split, same, filled) = read_taken disk contents position laws batch_header_len f r in
          let (split₁, same₁, filled₁) = read_taken disk contents position laws want f₁ r₁ in
          let (bytes_header, bytes₁) = taken-IsByte batch_header_len f header f₁ bytes r in
          (
            (taken-IsByte want f₁ payload f' bytes₁ r₁).1,
            omega (
              arith,
              ap length split,
              ap length split₁,
              length-append header (unread contents position f₁),
              length-append payload (unread contents position f'),
              filled,
            ),
          )

      scan_loop-ne-panic :
          (fuel : ℕ) (events : List (StoredEvent E)) (offset : ℕ) (f : F)
          → max_frame_bytes ≤ isize_max
          → All IsByte (unread contents position f)
          → length (unread contents position f) < fuel
          → scan_loop disk codec max_frame_bytes fuel events offset f ≢ panic
      unfolding scan_loop
      scan_loop-ne-panic zero events offset f small bytes enough = absurd (omega arith)
      scan_loop-ne-panic (suc fuel) events offset f small bytes enough =
          >>=-ne-panic (scan_round disk codec max_frame_bytes offset f) _
            (scan_round-ne-panic offset f small bytes)
            (λ (round, f') h.
              after
                (λ read next f'' h'.
                  let (bytes', less) = scan_round-batch offset f bytes h' in
                  scan_loop-ne-panic fuel (events ++ read) next f'' small bytes'
                    (omega (arith, less)))
                round f' h)
        where
          after :
              ((read : List (StoredEvent E)) (next : ℕ) (f' : F)
                → scan_round disk codec max_frame_bytes offset f ≡ ok (Round.batch read next, f')
                → scan_loop disk codec max_frame_bytes fuel (events ++ read) next f' ≢ panic)
              → (round : Round E) (f' : F)
              → scan_round disk codec max_frame_bytes offset f ≡ ok (round, f')
              → (elim round as (λ r. Result (ScanOutcome E × F)) [
                | Round.at_end ↦ ok (ScanOutcome.complete events offset, f')
                | Round.cut_short ↦ ok (ScanOutcome.partial_tail events offset, f')
                | Round.batch read next ↦
                    scan_loop disk codec max_frame_bytes fuel (events ++ read) next f'
              ])
                ≢ panic
          after again Round.at_end f' h = ground arith
          after again Round.cut_short f' h = ground arith
          after again (Round.batch read next) f' h = again read next f' h

      -- If the codec does not panic, events take less than 2 ^ 31 bytes in a vector, and the limit
      -- on a frame is at most `isize::MAX`, then `scan` of any file of bytes does not panic, with
      -- fuel for more rounds than the file has bytes: it does not run out of fuel, never indexes
      -- out of the checksum's table, and asks for no vector beyond `isize::MAX` bytes, whatever
      -- the file holds and whichever reads fail.
      pub scan-ne-panic :
          (fuel : ℕ) (f : F)
          → max_frame_bytes ≤ isize_max
          → All IsByte (contents f)
          → length (contents f) < fuel
          → scan disk codec max_frame_bytes fuel f ≢ panic
      unfolding scan
      scan-ne-panic fuel f small bytes enough =
          let f₁ = (disk.seek_start 0 f).1 in
          let same = laws.seek_keeps 0 f in
          let n = position f₁ in
          let left =
            (append-All IsByte (take n (contents f₁)) (drop n (contents f₁))
              (rw (take-append-drop n (contents f₁), same) bytes)).1 in
          elim (IoResult-cases (disk.read_exact 8 f₁).0) [
            | inr (message, q) ↦ grind (arith, q)
            | inl (header, q) ↦
                let f₂ = (disk.read_exact 8 f₁).1 in
                let (split, size) = laws.exact_law 8 f₁ q in
                let rest =
                  (append-All IsByte header (unread contents position f₂)
                    (subst (All IsByte) split left)).1 in
                let total_size = length-drop n (contents f₁) in
                grind (
                  arith,
                  q,
                  scan_loop-ne-panic fuel [] 8 f₂ small rest (
                      omega (
                        arith,
                        total_size,
                        ap length same,
                        ap length split,
                        length-append header (unread contents position f₂),
                      )),
                )
          ]
