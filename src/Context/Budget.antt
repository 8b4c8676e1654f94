-- ===== src/Context/Budget.antt =====
-- context/token.rs: the estimate of tokens and the bytes of a text.
use native.Mathlib.Nat.{div-add-mod', mod-lt, mul-le-mul_right}
use weavatrix_memory.Base.{
  ℕ, zero, ◌+◌, ◌*◌, ◌/◌, ◌%◌, ◌≤◌, ◌<◌, String, ◌≡◌, Bool-cases, ◌↔◌, ◌⊎◌, inl, inr, eqb,
  if◌then◌else◌, arith, length, ok,
}
use weavatrix_memory.Index.{as_bytes}
use weavatrix_memory.Context.{BytesTokenEstimator, new_estimator, estimate}

mul-suc : (n b : ℕ) → (n + 1) * b ≡ n * b + b
mul-suc n b = omega arith

le-or-lt : (q n : ℕ) → (q ≤ n) ⊎ (n < q)
le-or-lt q n = ground arith

ceil_iff : (q r b n : ℕ) → r < b → ((if eqb r 0 then q else q + 1) ≤ n) ↔ (q * b + r ≤ n * b)
ceil_iff q r b n m = elim (Bool-cases (eqb r 0)) [
  | inl t ↦ elim (le-or-lt q n) [
    | inl le ↦ ground (arith, t, le, mul-le-mul_right b le)
    | inr lt ↦
        let up : n + 1 ≤ q = omega (arith, lt) in
        ground (arith, t, lt, m, mul-le-mul_right b up, mul-suc n b)
  ]
  | inr t ↦ elim (le-or-lt (q + 1) n) [
    | inl le ↦ ground (arith, t, le, m, mul-le-mul_right b le, mul-suc q b)
    | inr lt ↦ let up : n ≤ q = omega (arith, lt) in ground (arith, t, lt, m, mul-le-mul_right b up)
  ]
]

-- For an estimator that `new` accepts and a positive number of tokens, the estimate of a text is
-- at most this number exactly when so many tokens hold the bytes of the text.
pub estimate_at_most_iff :
    (bytes : ℕ) (e : BytesTokenEstimator) (value : String) (n : ℕ)
    → new_estimator bytes ≡ ok e
    → 1 ≤ n
    → (estimate e value ≤ n) ↔ (length (as_bytes value) ≤ n * bytes)
unfolding new_estimator estimate
estimate_at_most_iff bytes e value n h k =
    let len = length (as_bytes value) in
    let positive : zero < bytes = ground (arith, h) in
    let same : e.bytes_per_token ≡ bytes = ground (arith, h) in
    let r = ceil_iff (len / bytes) (len % bytes) bytes n (mod-lt len positive) in
    rw same (ground (arith, k, r.0, r.1, div-add-mod' len bytes))
