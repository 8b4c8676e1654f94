-- ===== src/Frame/Payload.antt =====
-- store/frame.rs, `decode_payload`: the inverse of what `encode_batch` puts into a payload.
use weavatrix_memory.Base.{
  ℕ, suc, ◌+◌, ◌-◌, ◌^◌, ◌<◌, ◌≡◌, refl, sym, ap, subst, ◌∙◌, arith, some, List, [], ◌∷◌, ◌++◌,
  append-nil, append_assoc, length, length-append, take, drop, ltb, eqb_refl, lt→ltb, ok, err,
  ◌>>=◌, >>=-eq-ok, ok_injective, if◌then◌else◌, true, capacity_overflow,
}
use weavatrix_memory.Bytes.Words.{
  to_le_bytes, length-to_le_bytes, from_le_bytes-to_le_bytes, get_slice, IsAt, IsAt-step,
  get_slice-IsAt, take-length_append, IsAt-length,
}
use weavatrix_memory.Codec.{Codec, IsLossless}
use weavatrix_memory.Event.{StoredEvent}
use weavatrix_memory.Store.{u64_from, u64_mod}
use weavatrix_memory.Frame.Checksum.{u32_mod}
use weavatrix_memory.Frame.Room.{allocate_values}
use weavatrix_memory.Frame.{
  read_u32, read_u64, read_word_to, checked_end, encode_events, encode_payload, decode_loop,
  at_most, decode_payload,
}

pub u64_from-ok : (n : ℕ) {m : ℕ} → u64_from n ≡ ok m → (n < u64_mod) × (m ≡ n)
u64_from-ok n h = ground arith

read_word_lem :
    (bytes : List ℕ) (cursor width n : ℕ) (rest : List ℕ)
    → IsAt bytes cursor (to_le_bytes width n ++ rest)
    → n < 256 ^ width
    → length bytes < u64_mod
    → (read_word_to bytes cursor (checked_end cursor width) ≡ some (n, cursor + width))
      × IsAt bytes (cursor + width) rest
read_word_lem bytes cursor width n rest k bound size =
    let word = to_le_bytes width n in
    let fits = IsAt-length bytes cursor (word ++ rest) k in
    let wide = length-to_le_bytes width n in
    let slice : get_slice bytes cursor (cursor + width) ≡ some word =
      subst (λ w. get_slice bytes cursor (cursor + w) ≡ some word) wide
        (get_slice-IsAt bytes cursor word rest k) in
    let inside : ltb (cursor + width) u64_mod ≡ true =
      lt→ltb (cursor + width) u64_mod (omega (arith, fits, wide, length-append word rest)) in
    (
      rw (inside, slice, from_le_bytes-to_le_bytes width n bound) refl,
      subst (λ w. IsAt bytes (cursor + w) rest) wide (IsAt-step bytes cursor word rest k),
    )

count_lem :
    (n : ℕ) {m : ℕ}
    → (if ltb n u32_mod then ok n else err capacity_overflow) ≡ ok m
    → (n < u32_mod) × (m ≡ n)
count_lem n h = ground arith

module _ {E : Type 0} (codec : Codec (StoredEvent E)) where
  -- The bytes of an event and those of the events after it.
  pub encode_events-cons :
      (event : StoredEvent E) (events : List (StoredEvent E)) (bytes : List ℕ)
      → encode_events codec (event ∷ events) ≡ ok bytes
      → (encoded : List ℕ) × (rest : List ℕ) × (codec.encode event ≡ ok encoded)
        × (length encoded < u64_mod)
        × (encode_events codec events ≡ ok rest)
        × (bytes ≡ to_le_bytes 8 (length encoded) ++ (encoded ++ rest))
  unfolding encode_events
  encode_events-cons event events bytes h =
      let (encoded, first, h₁) = >>=-eq-ok (codec.encode event) _ h in
      let (size, sized, h₂) = >>=-eq-ok (u64_from (length encoded)) _ h₁ in
      let (rest, others, h₃) = >>=-eq-ok (encode_events codec events) _ h₂ in
      let (bound, same) = u64_from-ok (length encoded) sized in
      (
        encoded,
        rest,
        first,
        bound,
        others,
        sym (subst (λ n. to_le_bytes 8 n ++ (encoded ++ rest) ≡ bytes) same (ok_injective h₃)),
      )

  -- One event is read back, whatever follows it.
  decode_loop-event :
      (count offset cursor : ℕ) (payload : List ℕ) (event : StoredEvent E) (encoded rest : List ℕ)
      (events : List (StoredEvent E))
      → IsAt payload cursor (to_le_bytes 8 (length encoded) ++ (encoded ++ rest))
      → length encoded < u64_mod
      → length payload < u64_mod
      → codec.decode encoded ≡ ok event
      → (decode_loop (suc count) payload codec offset cursor events
          ≡ decode_loop count payload codec offset
              (cursor + 8 + length encoded)
              (events ++ event ∷ []))
        × IsAt payload (cursor + 8 + length encoded) rest
  unfolding decode_loop read_u64
  decode_loop-event count offset cursor payload event encoded rest events k short size decoded =
      let (number, at_word) =
        read_word_lem payload cursor 8 (length encoded) (encoded ++ rest) k short size in
      let start = cursor + 8 in
      let end = start + length encoded in
      let after = IsAt-step payload start encoded rest at_word in
      let size_eq : end - start ≡ length encoded = omega arith in
      let word : take (end - start) (drop start payload) ≡ encoded =
        rw (size_eq, at_word.ahead) (take-length_append encoded rest) in
      let fits : at_most (length payload) (checked_end start (length encoded)) ≡ some end =
        ground (arith, IsAt-length payload end rest after) in
      (rw (number, fits, word, decoded) refl, after)

  decode_loop-encode_events :
      (offset cursor : ℕ) (payload : List ℕ) (todo : List (StoredEvent E)) (encoded rest : List ℕ)
      (events : List (StoredEvent E))
      → IsLossless codec
      → encode_events codec todo ≡ ok encoded
      → IsAt payload cursor (encoded ++ rest)
      → length payload < u64_mod
      → decode_loop (length todo) payload codec offset cursor events
        ≡ ok (events ++ todo, cursor + length encoded)
  unfolding decode_loop encode_events
  decode_loop-encode_events offset cursor payload [] encoded rest events lossless h k size =
      let same : cursor + length encoded ≡ cursor = omega (arith, ap length (ok_injective h)) in
      rw (same, append-nil events) refl
  decode_loop-encode_events offset cursor payload (e ∷ todo) encoded rest events lossless h k size =
      let (word, others, first, short, following, p) = encode_events-cons e todo encoded h in
      let whole : encoded ++ rest ≡ to_le_bytes 8 (length word) ++ (word ++ (others ++ rest)) =
        ap (λ l. l ++ rest) p
        ∙ append_assoc (to_le_bytes 8 (length word)) (word ++ others) rest
        ∙ ap (λ l. to_le_bytes 8 (length word) ++ l) (append_assoc word others rest) in
      let (run, at_next) =
        decode_loop-event (length todo) offset cursor payload e word (others ++ rest) events
          (subst (IsAt payload cursor) whole k) short size (lossless.decoded e first) in
      let next = cursor + 8 + length word in
      let last =
        decode_loop-encode_events offset next payload todo others rest (events ++ e ∷ []) lossless
          following at_next size in
      let end : next + length others ≡ cursor + length encoded = omega (
        arith,
        ap length p,
        length-append (to_le_bytes 8 (length word)) (word ++ others),
        length-append word others,
        length-to_le_bytes 8 (length word),
      ) in
      run
      ∙ last
      ∙ ap (λ n. ok (events ++ e ∷ [] ++ todo, n)) end
      ∙ ap (λ l. ok (l, cursor + length encoded)) (append_assoc events (e ∷ []) todo)

  pub encode_payload-ok :
      (events : List (StoredEvent E)) (payload : List ℕ)
      → encode_payload codec events ≡ ok payload
      → (encoded : List ℕ) × (length events < u32_mod)
        × (encode_events codec events ≡ ok encoded)
        × (payload ≡ to_le_bytes 4 (length events) ++ encoded)
  unfolding encode_payload
  encode_payload-ok events payload h =
      let (count, counted, h₁) =
        >>=-eq-ok
          (if ltb (length events) u32_mod then ok (length events) else err capacity_overflow)
          (λ count. encode_events codec events >>= λ encoded. ok (to_le_bytes 4 count ++ encoded))
          h in
      let (encoded, all, h₂) =
        >>=-eq-ok (encode_events codec events) (λ encoded. ok (to_le_bytes 4 count ++ encoded))
          h₁ in
      let (bound, same) = count_lem (length events) counted in
      (
        encoded,
        bound,
        all,
        sym (subst (λ n. to_le_bytes 4 n ++ encoded ≡ payload) same (ok_injective h₂)),
      )

  -- Decoding a payload gives the events that were encoded into it.
  pub decode_payload-encode_payload :
      (events : List (StoredEvent E)) (payload : List ℕ) (offset : ℕ)
      → IsLossless codec
      → encode_payload codec events ≡ ok payload
      → length payload < u64_mod
      → decode_payload payload codec offset ≡ ok events
  unfolding decode_payload read_u32
  decode_payload-encode_payload events payload offset lossless h size =
      let (encoded, bound, all, p) = encode_payload-ok events payload h in
      let start : IsAt payload 0 (to_le_bytes 4 (length events) ++ encoded) = record {
        within = omega arith;
        ahead = p;
      } in
      let (count, at_events) = read_word_lem payload 0 4 (length events) encoded start bound size in
      let run =
        decode_loop-encode_events offset (0 + 4) payload events encoded [] [] lossless all
          (rw (append-nil encoded) at_events) size in
      let last : 0 + 4 + length encoded ≡ length payload =
        omega (arith, IsAt-length payload (0 + 4) encoded at_events) in
      rw
        (
          count,
          allocate_values (length events) codec.size_of bound lossless.small,
          run,
          last,
          eqb_refl (length payload),
        )
        refl
