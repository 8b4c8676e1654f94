-- ===== src/Frame/Scan.antt =====
-- store/frame.rs, `scan` against `encode_batch`: what was written is read back, and a batch that is
-- cut short is left out.
use native.Mathlib.Nat.{zero-add, suc-add}
use weavatrix_memory.Base.{
  List-cases, ℕ, suc, ◌+◌, ◌<◌, ◌≡◌, refl, sym, ap, ◌∙◌, arith, List, [], ◌∷◌, ◌++◌, append-nil,
  append_assoc, length, length-append, inl, inr, Result, ok, ◌>>=◌, >>=-eq-ok, ok_injective,
}
use weavatrix_memory.Bytes.Words.{bytes_eq_refl}
use weavatrix_memory.Codec.{Codec, IsLossless}
use weavatrix_memory.Disk.{Disk, unread, IoResult, IsDisk, IsReadable}
use weavatrix_memory.Event.{StoredEvent}
use weavatrix_memory.Store.{u64_mod}
use weavatrix_memory.Frame.Reading.{append_split}
use weavatrix_memory.Frame.{
  file_header, encode_batch, ScanOutcome, Round, scan_round, scan_loop, scan,
}
use weavatrix_memory.Frame.Rounds.{scan_round_frame, scan_round_end, scan_round_cut}

append_whole :
    {A : Type 0} (xs more whole : List A)
    → whole ≡ xs ++ more
    → length xs ≡ length whole
    → more ≡ []
append_whole xs more whole h size = elim (List-cases more) [
  | inl p ↦ p
  | inr p ↦ absurd (omega (arith, ap length h, length-append xs more))
]

-- The frames of a list of batches, one after the other: a log file after its header.
module _ {E : Type 0} where
  unfoldable pub encode_log :
      List (List (StoredEvent E)) → Codec (StoredEvent E) → (max_frame_bytes : ℕ) → Result (List ℕ)
  encode_log [] codec max_frame_bytes = ok []
  encode_log (batch ∷ batches) codec max_frame_bytes = do
    frame ← encode_batch batch codec max_frame_bytes
    rest ← encode_log batches codec max_frame_bytes
    ok (frame ++ rest)

  unfoldable pub concat : List (List (StoredEvent E)) → List (StoredEvent E)
  concat [] = []
  concat (batch ∷ batches) = batch ++ concat batches

module _ {E F : Type 0} (codec : Codec (StoredEvent E)) (max_frame_bytes : ℕ) (disk : Disk F)
    (contents : F → List ℕ) (position : F → ℕ) (laws : IsDisk disk contents position)
    (readable : IsReadable disk contents position) (lossless : IsLossless codec) where
  scan_loop-batch :
      (fuel offset : ℕ) (events : List (StoredEvent E)) (f : F) {batch : List (StoredEvent E)}
      {next : ℕ} {f' : F}
      → scan_round disk codec max_frame_bytes offset f ≡ ok (Round.batch batch next, f')
      → scan_loop disk codec max_frame_bytes (suc fuel) events offset f
        ≡ scan_loop disk codec max_frame_bytes fuel (events ++ batch) next f'
  unfolding scan_loop
  scan_loop-batch fuel offset events f round = rw round refl

  scan_loop-end :
      (fuel offset : ℕ) (events : List (StoredEvent E)) (f : F) {f' : F}
      → scan_round disk codec max_frame_bytes offset f ≡ ok (Round.at_end, f')
      → scan_loop disk codec max_frame_bytes (suc fuel) events offset f
        ≡ ok (ScanOutcome.complete events offset, f')
  unfolding scan_loop
  scan_loop-end fuel offset events f round = rw round refl

  scan_loop-cut :
      (fuel offset : ℕ) (events : List (StoredEvent E)) (f : F) {f' : F}
      → scan_round disk codec max_frame_bytes offset f ≡ ok (Round.cut_short, f')
      → scan_loop disk codec max_frame_bytes (suc fuel) events offset f
        ≡ ok (ScanOutcome.partial_tail events offset, f')
  unfolding scan_loop
  scan_loop-cut fuel offset events f round = rw round refl

  scan_loop-encode_log :
      (batches : List (List (StoredEvent E))) (log rest : List ℕ) (fuel offset : ℕ)
      (events : List (StoredEvent E)) (f : F)
      → encode_log batches codec max_frame_bytes ≡ ok log
      → unread contents position f ≡ log ++ rest
      → offset + length log < u64_mod
      → (f' : F) × (scan_loop disk codec max_frame_bytes (length batches + fuel) events offset f
          ≡ scan_loop disk codec max_frame_bytes fuel
              (events ++ concat batches)
              (offset + length log)
              f')
        × (contents f' ≡ contents f)
        × (unread contents position f' ≡ rest)
  unfolding encode_log scan_loop concat
  scan_loop-encode_log [] log rest fuel offset events f e h room =
      let empty : [] ≡ log = ok_injective e in
      let start : offset + length log ≡ offset = omega (arith, ap length empty) in
      (f, rw (start, append-nil events, zero-add) refl, refl, h ∙ ap (λ l. l ++ rest) (sym empty))
  scan_loop-encode_log (batch ∷ batches) log rest fuel offset events f e h room =
      let (frame, first, e₁) =
        >>=-eq-ok (encode_batch batch codec max_frame_bytes)
          (λ frame. encode_log batches codec max_frame_bytes >>= λ l. ok (frame ++ l)) e in
      let (others, following, e₂) =
        >>=-eq-ok (encode_log batches codec max_frame_bytes) (λ l. ok (frame ++ l)) e₁ in
      let size : length frame + length others ≡ length log =
        omega (arith, length-append frame others, ap length (ok_injective e₂)) in
      let split : unread contents position f ≡ frame ++ (others ++ rest) =
        h ∙ ap (λ l. l ++ rest) (sym (ok_injective e₂)) ∙ append_assoc frame others rest in
      let (f₁, round, same, left) =
        scan_round_frame codec max_frame_bytes disk contents position laws readable lossless batch
          frame offset f (others ++ rest) first split (omega (arith, size)) in
      let (f', run, same', left') =
        scan_loop-encode_log batches others rest fuel (offset + length frame) (events ++ batch) f₁
          following left (omega (arith, size)) in
      let end : offset + length frame + length others ≡ offset + length log = omega (arith, size) in
      (
        f',
        rw suc-add (
            scan_loop-batch (length batches + fuel) offset events f round
            ∙ run
            ∙ ap
                (λ n.
                  scan_loop disk codec max_frame_bytes fuel (events ++ batch ++ concat batches) n
                    f')
                end
            ∙ ap (λ l. scan_loop disk codec max_frame_bytes fuel l (offset + length log) f')
                (append_assoc events batch (concat batches))),
        same' ∙ same,
        left',
      )

  scan-file_header :
      (fuel : ℕ) (f : F) (body : List ℕ)
      → contents f ≡ file_header ++ body
      → (f' : F) × (scan disk codec max_frame_bytes fuel f
          ≡ scan_loop disk codec max_frame_bytes fuel [] (length file_header) f')
        × (contents f' ≡ contents f)
        × (unread contents position f' ≡ body)
  unfolding scan
  scan-file_header fuel f body h =
      let f₁ = (disk.seek_start 0 f).1 in
      let same = laws.seek_keeps 0 f in
      let start = laws.seek_law 0 f (readable.seeks 0 f) in
      let all : unread contents position f₁ ≡ file_header ++ body = rw start (same ∙ h) in
      let (bytes, read) =
        readable.reads_exact 8 f₁ (omega (arith, ap length all, length-append file_header body)) in
      let (split, size) = laws.exact_law 8 f₁ read in
      let (more, p, q) =
        append_split bytes (unread contents position (disk.read_exact 8 f₁).1) file_header body
          (sym all ∙ split) (omega (arith, size)) in
      let none_more : more ≡ [] = append_whole bytes more file_header p (omega (arith, size)) in
      let header : (disk.read_exact 8 f₁).0 ≡ IoResult.done file_header =
        read ∙ ap IoResult.done (sym (p ∙ ap (◌++◌ bytes) none_more ∙ append-nil bytes)) in
      (
        (disk.read_exact 8 f₁).1,
        rw (readable.seeks 0 f, header, bytes_eq_refl file_header) refl,
        laws.exact_keeps 8 f₁ ∙ same,
        q ∙ ap (λ l. l ++ body) none_more,
      )

  -- If seeks and reads do not fail, events take less than 2 ^ 31 bytes in a vector, the codec
  -- decodes what it encodes, and the file holds the file header and then the frames that
  -- `encode_batch` gives for a list of batches, shorter than 2 ^ 64 bytes in all, then `scan` with
  -- fuel for more rounds than there are batches is complete: it returns the events of the batches,
  -- in order, and the length of the file, whose contents it leaves as they are.
  pub scan-encode_log :
      (batches : List (List (StoredEvent E))) (log : List ℕ) (fuel : ℕ) (f : F)
      → encode_log batches codec max_frame_bytes ≡ ok log
      → contents f ≡ file_header ++ log
      → length (contents f) < u64_mod
      → (f' : F) × (scan disk codec max_frame_bytes (length batches + suc fuel) f
          ≡ ok (ScanOutcome.complete (concat batches) (length (contents f)), f'))
        × (contents f' ≡ contents f)
  scan-encode_log batches log fuel f e h room =
      let size : length (contents f) ≡ length file_header + length log =
        ap length h ∙ length-append file_header log in
      let (f₁, start, same₁, left₁) = scan-file_header (length batches + suc fuel) f log h in
      let (f₂, run, same₂, left₂) =
        scan_loop-encode_log batches log [] (suc fuel) (length file_header) [] f₁ e
          (left₁ ∙ sym (append-nil log)) (omega (arith, size)) in
      let (f', end, same₃) =
        scan_round_end codec max_frame_bytes disk contents position laws readable lossless
          (length file_header + length log) f₂ left₂ in
      (
        f',
        start
            ∙ run
            ∙ scan_loop-end fuel _ _ f₂ end
            ∙ ap (λ n. ok (ScanOutcome.complete (concat batches) n, f')) (sym size),
        same₃ ∙ same₂ ∙ same₁,
      )

  -- If seeks and reads do not fail, events take less than 2 ^ 31 bytes in a vector, the codec
  -- decodes what it encodes, and the file holds the header, the frames of a list of batches, and a
  -- part of a frame that has and lacks a byte at least, shorter than 2 ^ 64 bytes in all, then
  -- `scan` with fuel for more rounds than there are batches returns a partial tail: the events of
  -- the batches whose frames are whole, in order, and the number of bytes up to the end of the
  -- last whole frame. It leaves the contents of the file as they are.
  pub scan_cut_short :
      (batches : List (List (StoredEvent E))) (log : List ℕ) (batch : List (StoredEvent E))
      (frame cut more : List ℕ) (fuel : ℕ) (f : F)
      → encode_log batches codec max_frame_bytes ≡ ok log
      → encode_batch batch codec max_frame_bytes ≡ ok frame
      → frame ≡ cut ++ more
      → 0 < length cut
      → 0 < length more
      → contents f ≡ file_header ++ (log ++ cut)
      → length (contents f) < u64_mod
      → (f' : F) × (scan disk codec max_frame_bytes (length batches + suc fuel) f
          ≡ ok (ScanOutcome.partial_tail (concat batches) (length file_header + length log), f'))
        × (contents f' ≡ contents f)
  scan_cut_short batches log batch frame cut more fuel f e last p some_cut some_more h room =
      let size : length (contents f) ≡ length file_header + (length log + length cut) =
        ap length h
        ∙ length-append file_header (log ++ cut)
        ∙ ap (◌+◌ (length file_header)) (length-append log cut) in
      let (f₁, start, same₁, left₁) =
        scan-file_header (length batches + suc fuel) f (log ++ cut) h in
      let (f₂, run, same₂, left₂) =
        scan_loop-encode_log batches log cut (suc fuel) (length file_header) [] f₁ e left₁
          (omega (arith, size)) in
      let (f', end, same₃) =
        scan_round_cut codec max_frame_bytes disk contents position laws readable lossless batch
          frame cut more (length file_header + length log) f₂ last p some_cut some_more left₂ in
      (f', start ∙ run ∙ scan_loop-cut fuel _ _ f₂ end, same₃ ∙ same₂ ∙ same₁)
