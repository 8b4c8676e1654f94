-- ===== src/Examples/Codecs.antt =====
-- A codec of three events, each of them one byte.
use native.Nat.{ℕᴺ_discrete}
use weavatrix_memory.Examples.{stored}
use weavatrix_memory.Codec.{Codec, IsLossless, IsTotal}
use weavatrix_memory.Bytes.Words.{IsByte}
use weavatrix_memory.Base.{
  subst, ap, sym, ok_injective, All, arith, panic, ◌≢◌, eqb, if◌then◌else◌, MemoryError, refl, ℕ,
  ◌≡◌, List, [], ◌∷◌, Result, ok, err, String, ==-cases, inl, inr,
}
use weavatrix_memory.Event.{StoredEvent, EventMetadata}
use weavatrix_memory.Time.{ℤ}

ℤ-discrete : Discrete ℤ
ℤ-discrete = hlevel (ℕᴺ_discrete)

String-discrete : Discrete String
String-discrete a b = elim (==-cases a b) [ inl (p, h) ↦ yes p | inr (q, h) ↦ no q ]

metadata-discrete : Discrete EventMetadata
metadata-discrete = hlevel (ℕᴺ_discrete, ℤ-discrete, String-discrete)

pub event-discrete : Discrete (StoredEvent ℕ)
event-discrete = hlevel (ℕᴺ_discrete, metadata-discrete)

abbrev pub first : StoredEvent ℕ
first = stored "e0" "a" 0 0

abbrev pub second : StoredEvent ℕ
second = stored "e1" "b" 0 1

abbrev encode_known : {e : StoredEvent ℕ} → Dec (e ≡ first) → Dec (e ≡ second) → Result (List ℕ)
encode_known (yes p) d = ok (1 ∷ [])
encode_known (no q) (yes p) = ok (2 ∷ 0 ∷ [])
encode_known (no q) (no r) = err (MemoryError.codec "unknown event")

abbrev decode_event : List ℕ → Result (StoredEvent ℕ)
decode_event [] = err (MemoryError.codec "no event")
decode_event (b ∷ bytes) =
    if eqb b 1
    then ok first
    else if eqb b 2
    then ok second
    else err (MemoryError.codec "unknown event")

unfoldable pub bytes_codec : Codec (StoredEvent ℕ)
bytes_codec = record {
  size_of = 264;
  encode = λ e. encode_known (event-discrete e first) (event-discrete e second);
  decode = decode_event;
}

encode_known-first :
    (d : Dec (first ≡ first)) (d' : Dec (first ≡ second)) → encode_known d d' ≡ ok (1 ∷ [])
encode_known-first (yes p) d' = refl
encode_known-first (no q) d' = absurd (q refl)

pub encode_first : bytes_codec.encode first ≡ ok (1 ∷ [])
unfolding bytes_codec
encode_first = encode_known-first (event-discrete first first) (event-discrete first second)

known-IsByte :
    {e : StoredEvent ℕ} (d : Dec (e ≡ first)) (d' : Dec (e ≡ second)) {bytes : List ℕ}
    → encode_known d d' ≡ ok bytes
    → All IsByte bytes
known-IsByte (yes p) d' h = subst (All IsByte) (ok_injective h) (omega arith, tt)
known-IsByte (no q) (yes p) h = subst (All IsByte) (ok_injective h) (omega arith, (omega arith, tt))
known-IsByte (no q) (no r) h = absurd (ground arith)

decode-known :
    {e : StoredEvent ℕ} (d : Dec (e ≡ first)) (d' : Dec (e ≡ second)) {bytes : List ℕ}
    → encode_known d d' ≡ ok bytes
    → decode_event bytes ≡ ok e
decode-known {e} (yes p) d' h = subst (λ b. decode_event b ≡ ok e) (ok_injective h) (ap ok (sym p))
decode-known {e} (no q) (yes p) h =
    subst (λ b. decode_event b ≡ ok e) (ok_injective h) (ap ok (sym p))
decode-known (no q) (no r) h = absurd (ground arith)

known-ne-panic :
    {e : StoredEvent ℕ} (d : Dec (e ≡ first)) (d' : Dec (e ≡ second)) → encode_known d d' ≢ panic
known-ne-panic (yes p) d' h = ground arith
known-ne-panic (no q) (yes p) h = ground arith
known-ne-panic (no q) (no r) h = ground arith

decode-ne-panic : (bytes : List ℕ) → decode_event bytes ≢ panic
decode-ne-panic [] h = ground arith
decode-ne-panic (b ∷ bytes) h = ground arith

pub bytes_codec-IsLossless : IsLossless bytes_codec
unfolding bytes_codec
bytes_codec-IsLossless = record {
  small = omega arith;
  bytes = λ e h. known-IsByte (event-discrete e first) (event-discrete e second) h;
  decoded = λ e h. decode-known (event-discrete e first) (event-discrete e second) h;
}

pub bytes_codec-IsTotal : IsTotal bytes_codec
unfolding bytes_codec
bytes_codec-IsTotal = record {
  small_values = omega arith;
  encode_returns = λ e. known-ne-panic (event-discrete e first) (event-discrete e second);
  decode_returns = decode-ne-panic;
}
