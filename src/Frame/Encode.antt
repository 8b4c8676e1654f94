-- ===== src/Frame/Encode.antt =====
-- store/frame.rs, `encode_batch` does not panic where the codec does not, and a list of batches is
-- encoded batch by batch.
use weavatrix_memory.Base.{
  ℕ, ◌+◌, ◌≤◌, ◌≡◌, ◌≢◌, sym, ap, subst, ◌∙◌, arith, List, [], ◌∷◌, ◌++◌, append-nil, append_assoc,
  length, length-append, All, All-append, ok, panic, >>=-eq-ok, ok_injective, Result-cases, inl,
  inr,
}
use weavatrix_memory.Bytes.Words.{IsByte, to_le_bytes, to_le_bytes-IsByte}
use weavatrix_memory.Codec.{Codec, IsLossless, IsTotal}
use weavatrix_memory.Event.{StoredEvent}
use weavatrix_memory.Frame.Payload.{encode_events-cons, encode_payload-ok}
use weavatrix_memory.Frame.Checksum.Table.{crc32c_reference}
use weavatrix_memory.Frame.Room.{allocate_fits}
use weavatrix_memory.Frame.Layout.{encode_batch-IsFrame, length-IsFrame}
use weavatrix_memory.Frame.Scan.{encode_log, concat}
use weavatrix_memory.Frame.{
  encode_events, encode_payload, encode_batch, batch_header_len, isize_max,
}

module _ {E : Type 0} (codec : Codec (StoredEvent E)) where
  encode_events-IsByte :
      (events : List (StoredEvent E)) (bytes : List ℕ)
      → IsLossless codec
      → encode_events codec events ≡ ok bytes
      → All IsByte bytes
  unfolding encode_events
  encode_events-IsByte [] bytes lossless h = subst (All IsByte) (ok_injective h) tt
  encode_events-IsByte (e ∷ events) bytes lossless h =
      let (word, rest, first, short, following, p) = encode_events-cons codec e events bytes h in
      subst (All IsByte) (sym p) (
        All-append IsByte (to_le_bytes 8 (length word)) (word ++ rest)
          (to_le_bytes-IsByte 8 (length word))
          (All-append IsByte word rest (lossless.bytes e first)
            (encode_events-IsByte events rest lossless following)))

  encode_payload-IsByte :
      (events : List (StoredEvent E)) (payload : List ℕ)
      → IsLossless codec
      → encode_payload codec events ≡ ok payload
      → All IsByte payload
  encode_payload-IsByte events payload lossless h =
      let (encoded, bound, all, p) = encode_payload-ok codec events payload h in
      subst (All IsByte) (sym p) (
        All-append IsByte (to_le_bytes 4 (length events)) encoded
          (to_le_bytes-IsByte 4 (length events)) (encode_events-IsByte events encoded lossless all))

  encode_events-ne-panic :
      (events : List (StoredEvent E)) → IsTotal codec → encode_events codec events ≢ panic
  unfolding encode_events
  encode_events-ne-panic [] total = ground arith
  encode_events-ne-panic (e ∷ events) total =
      grind (arith, total.encode_returns, encode_events-ne-panic events total)

  encode_payload-ne-panic :
      (events : List (StoredEvent E)) → IsTotal codec → encode_payload codec events ≢ panic
  unfolding encode_payload
  encode_payload-ne-panic events total = grind (arith, encode_events-ne-panic events total)

  pub encode_batch-ne-panic :
      (events : List (StoredEvent E)) (max_frame_bytes : ℕ)
      → batch_header_len + max_frame_bytes ≤ isize_max
      → IsLossless codec
      → IsTotal codec
      → encode_batch events codec max_frame_bytes ≢ panic
  unfolding encode_batch
  encode_batch-ne-panic events max_frame_bytes small lossless total =
      elim (Result-cases (encode_payload codec events)) [
        | inl (payload, q) ↦ grind (
          arith,
          q,
          small,
          allocate_fits (batch_header_len + length payload),
          crc32c_reference payload (encode_payload-IsByte events payload lossless q),
        )
        | inr (inl (e, q)) ↦ grind (arith, q)
        | inr (inr q) ↦ absurd (encode_payload-ne-panic events total q)
      ]

  pub encode_log-snoc :
      (max_frame_bytes : ℕ) (batches : List (List (StoredEvent E))) (batch : List (StoredEvent E))
      (log frame : List ℕ)
      → encode_log batches codec max_frame_bytes ≡ ok log
      → encode_batch batch codec max_frame_bytes ≡ ok frame
      → encode_log (batches ++ batch ∷ []) codec max_frame_bytes ≡ ok (log ++ frame)
  unfolding encode_log
  encode_log-snoc limit [] batch log frame h e =
      rw (e, append-nil frame) (ap (λ l. ok (l ++ frame)) (ok_injective h))
  encode_log-snoc limit (b ∷ batches) batch log frame h e =
      let (first, q, h₁) = >>=-eq-ok (encode_batch b codec limit) _ h in
      let (rest, q', h₂) = >>=-eq-ok (encode_log batches codec limit) _ h₁ in
      rw (q, encode_log-snoc limit batches batch rest frame q' e)
        (ap ok (sym (append_assoc first rest frame) ∙ ap (λ l. l ++ frame) (ok_injective h₂)))

  pub concat-snoc :
      (batches : List (List (StoredEvent E))) (batch : List (StoredEvent E))
      → concat (batches ++ batch ∷ []) ≡ concat batches ++ batch
  unfolding concat
  concat-snoc [] batch = append-nil batch
  concat-snoc (b ∷ batches) batch =
      ap (◌++◌ b) (concat-snoc batches batch) ∙ sym (append_assoc b (concat batches) batch)

  pub length-encode_batch :
      (events : List (StoredEvent E)) (max_frame_bytes : ℕ) (frame : List ℕ)
      → encode_batch events codec max_frame_bytes ≡ ok frame
      → (batch_header_len ≤ length frame) × (length frame ≤ batch_header_len + max_frame_bytes)
  length-encode_batch events max_frame_bytes frame h =
      let (payload, crc, k) = encode_batch-IsFrame codec max_frame_bytes events frame h in
      let size = length-IsFrame codec max_frame_bytes events k in
      (omega (arith, size), omega (arith, size, k.limit))

  -- There are no more batches than bytes.
  pub length-encode_log :
      (max_frame_bytes : ℕ) (batches : List (List (StoredEvent E))) (log : List ℕ)
      → encode_log batches codec max_frame_bytes ≡ ok log
      → length batches ≤ length log
  unfolding encode_log
  length-encode_log limit [] log h = omega arith
  length-encode_log limit (b ∷ batches) log h =
      let (first, q, h₁) = >>=-eq-ok (encode_batch b codec limit) _ h in
      let (rest, q', h₂) = >>=-eq-ok (encode_log batches codec limit) _ h₁ in
      omega (
        arith,
        ap length (ok_injective h₂),
        length-append first rest,
        (length-encode_batch b limit first q).0,
        length-encode_log limit batches rest q',
      )
