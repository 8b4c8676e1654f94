-- ===== src/Frame/Rounds.antt =====
-- store/frame.rs, one round of `scan`: a whole frame, the end of the file, a part of a frame.
use weavatrix_memory.Base.{
  ℕ, ◌+◌, ◌%◌, ◌≤◌, ◌<◌, ◌≡◌, refl, sym, ap, subst, ◌∙◌, arith, List, [], ◌++◌, append_assoc,
  length, length-append, ltb, ◌⊎◌, inl, inr, eqb, eqb_refl, Bool, true, false, ok, if◌then◌else◌,
}
use weavatrix_memory.Bytes.Words.{bytes_eq_refl}
use weavatrix_memory.Codec.{Codec, IsLossless}
use weavatrix_memory.Disk.{Disk, unread, IoResult, IsDisk, IsReadable}
use weavatrix_memory.Event.{StoredEvent}
use weavatrix_memory.Store.{u64_from, u64_mod}
use weavatrix_memory.Frame.Reading.{read_or_partial_full, read_or_partial_short, append_split}
use weavatrix_memory.Frame.Room.{allocate_fits}
use weavatrix_memory.Frame.Payload.{decode_payload-encode_payload}
use weavatrix_memory.Frame.{
  batch_magic, batch_header_len, encode_batch, read_or_partial, ReadState, Round, check_payload,
  scan_payload, header_read, scan_round,
}
use weavatrix_memory.Frame.Layout.{
  batch_header, length-batch_header, header_size, header_crc, IsFrame, encode_batch-IsFrame,
  length-IsFrame,
}

ltb_cases : (a b : ℕ) → (a < b) ⊎ (b ≤ a)
ltb_cases a b = ground arith

check_short :
    {E : Type 0} (codec : Codec (StoredEvent E)) (offset size crc : ℕ) (none_read : Bool)
    → check_payload codec offset size crc (if none_read then ReadState.eof else ReadState.partial)
      ≡ ok Round.cut_short
unfolding check_payload
check_short codec offset size crc true = refl
check_short codec offset size crc false = refl

module _ {E F : Type 0} (codec : Codec (StoredEvent E)) (max_frame_bytes : ℕ) (disk : Disk F)
    (contents : F → List ℕ) (position : F → ℕ) (laws : IsDisk disk contents position)
    (readable : IsReadable disk contents position) (lossless : IsLossless codec) where
  -- A payload that is all there.
  scan_payload_whole :
      (events : List (StoredEvent E)) {frame payload : List ℕ} {crc : ℕ} (offset : ℕ) (f : F)
      (rest : List ℕ)
      → IsFrame codec max_frame_bytes events frame payload crc
      → unread contents position f ≡ payload ++ rest
      → offset + length frame < u64_mod
      → (f' : F) × (scan_payload disk codec max_frame_bytes offset
            (batch_header (length payload) crc)
            f
          ≡ ok (Round.batch events (offset + length frame), f'))
        × (contents f' ≡ contents f)
        × (unread contents position f' ≡ rest)
  unfolding scan_payload check_payload
  scan_payload_whole events {frame} {payload} {crc} offset f rest k h room =
      let (f', read, same, left) =
        read_or_partial_full disk contents position laws readable payload rest f h in
      let decoded =
        decode_payload-encode_payload codec events payload offset lossless k.encoded k.size in
      let total = length-IsFrame codec max_frame_bytes events k in
      let limit : ltb max_frame_bytes (length payload) ≡ false = ground (arith, k.limit) in
      let sized : u64_from ((batch_header_len + length payload) % u64_mod) ≡ ok (length frame) =
        ground (arith, total, k.room) in
      let roomy = allocate_fits (length payload) (omega (arith, k.room)) in
      let next : u64_from (offset + length frame) ≡ ok (offset + length frame) = ground arith in
      (
        f',
        rw
            (
              bytes_eq_refl batch_magic,
              header_size (length payload) crc k.size,
              limit,
              roomy,
              read,
              k.checksum,
              header_crc (length payload) crc k.crc_size,
              eqb_refl crc,
              decoded,
              sized,
              next,
            )
            refl,
        same,
        left,
      )

  -- A payload that the file ends in.
  scan_payload_cut :
      (events : List (StoredEvent E)) {frame payload : List ℕ} {crc : ℕ} (offset : ℕ) (f : F)
      → IsFrame codec max_frame_bytes events frame payload crc
      → length (unread contents position f) < length payload
      → (f' : F) × (scan_payload disk codec max_frame_bytes offset
            (batch_header (length payload) crc)
            f
          ≡ ok (Round.cut_short, f'))
        × (contents f' ≡ contents f)
  unfolding scan_payload check_payload
  scan_payload_cut events {frame} {payload} {crc} offset f k h =
      let (f', read, same) =
        read_or_partial_short disk contents position laws readable (length payload) f h in
      let limit : ltb max_frame_bytes (length payload) ≡ false = ground (arith, k.limit) in
      (
        f',
        rw
            (
              bytes_eq_refl batch_magic,
              header_size (length payload) crc k.size,
              limit,
              allocate_fits (length payload) (omega (arith, k.room)),
              read,
              check_short codec offset (length payload) _ _,
            )
            refl,
        same,
      )

  pub scan_round_frame :
      (events : List (StoredEvent E)) (frame : List ℕ) (offset : ℕ) (f : F) (rest : List ℕ)
      → encode_batch events codec max_frame_bytes ≡ ok frame
      → unread contents position f ≡ frame ++ rest
      → offset + length frame < u64_mod
      → (f' : F) × (scan_round disk codec max_frame_bytes offset f
          ≡ ok (Round.batch events (offset + length frame), f'))
        × (contents f' ≡ contents f)
        × (unread contents position f' ≡ rest)
  unfolding scan_round
  scan_round_frame events frame offset f rest e h room =
      let (payload, crc, k) = encode_batch-IsFrame codec max_frame_bytes events frame e in
      let header = batch_header (length payload) crc in
      let split : unread contents position f ≡ header ++ (payload ++ rest) =
        h ∙ ap (λ l. l ++ rest) k.layout ∙ append_assoc header payload rest in
      let (f₁, read, same, left) =
        read_or_partial_full disk contents position laws readable header (payload ++ rest) f
          split in
      let (f', run, same', left') = scan_payload_whole events offset f₁ rest k left room in
      let sized : length header ≡ batch_header_len = length-batch_header (length payload) crc in
      (
        f',
        ap (header_read disk codec max_frame_bytes offset) (
              subst
                (λ n. read_or_partial disk n f ≡ (IoResult.done (ReadState.complete header), f₁))
                sized read)
            ∙ run,
        same' ∙ same,
        left',
      )

  -- At the end of the file.
  pub scan_round_end :
      (offset : ℕ) (f : F)
      → unread contents position f ≡ []
      → (f' : F) × (scan_round disk codec max_frame_bytes offset f ≡ ok (Round.at_end, f'))
        × (contents f' ≡ contents f)
  unfolding scan_round
  scan_round_end offset f h =
      let none_left : length (unread contents position f) ≡ 0 = ap length h in
      let (f', read, same) =
        read_or_partial_short disk contents position laws readable batch_header_len f
          (omega (arith, none_left)) in
      (f', rw (read, none_left) refl, same)

  -- At a part of a frame.
  pub scan_round_cut :
      (events : List (StoredEvent E)) (frame cut more : List ℕ) (offset : ℕ) (f : F)
      → encode_batch events codec max_frame_bytes ≡ ok frame
      → frame ≡ cut ++ more
      → 0 < length cut
      → 0 < length more
      → unread contents position f ≡ cut
      → (f' : F) × (scan_round disk codec max_frame_bytes offset f ≡ ok (Round.cut_short, f'))
        × (contents f' ≡ contents f)
  unfolding scan_round
  scan_round_cut events frame cut more offset f e p some_cut some_more h =
      let (payload, crc, k) = encode_batch-IsFrame codec max_frame_bytes events frame e in
      let header = batch_header (length payload) crc in
      let sized : length header ≡ batch_header_len = length-batch_header (length payload) crc in
      elim (ltb_cases (length cut) batch_header_len) [
        | inl short ↦
            let left : length (unread contents position f) ≡ length cut = ap length h in
            let started : eqb (length (unread contents position f)) 0 ≡ false =
              ground (arith, left) in
            let (f', read, same) =
              read_or_partial_short disk contents position laws readable batch_header_len f
                (omega (arith, left)) in
            (f', rw (read, started) refl, same)
        | inr long ↦
            let (tail, q, r) =
              append_split header payload cut more (sym p ∙ k.layout) (omega (arith, sized)) in
            let (f₁, read, same, left) =
              read_or_partial_full disk contents position laws readable header tail f (h ∙ q) in
            let (f', run, same') =
              scan_payload_cut events offset f₁ k
                (omega (arith, ap length left, ap length r, length-append tail more)) in
            (
              f',
              ap (header_read disk codec max_frame_bytes offset) (
                    subst
                      (λ n.
                        read_or_partial disk n f ≡ (IoResult.done (ReadState.complete header), f₁))
                      sized read)
                  ∙ run,
              same' ∙ same,
            )
      ]
