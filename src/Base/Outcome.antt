-- ===== src/Base/Outcome.antt =====
-- error.rs: the errors of the crate, and the outcome of a fallible call. A Rust call returns `Ok`,
-- returns `Err`, or panics (an index out of range, a failed assertion, an `expect`).
use Prim.Native.Nat.{ℕ}
use Prim.Native.String.{String}
use mathlib.Core.Path.{◌≡◌, refl, ap}
use mathlib.Core.Logic.{◌≢◌, ◌⊎◌, inl, inr}
use native.Mathlib.Omega.{arith}
use mathlib.Core.Bool.{Bool, false}
use mathlib.Core.Option.{Option, none, some}
use mathlib.Core.List.{List, [], ◌∷◌}
use weavatrix_memory.Base.Tests.{if◌then◌else◌}

-- The text of `MemoryError::InvalidReplay`, by what `format!` puts into it.
pub data ReplayReason : Type 0 where
  not_at_zero : ReplayReason
  global_position : (found expected : ℕ) → ReplayReason
  stream_version : (stream : String) (found expected : ℕ) → ReplayReason

-- error.rs `MemoryError`.
pub data MemoryError : Type 0 where
  invalid_id : (kind value : String) → MemoryError
  invalid_value : (field reason : String) → MemoryError
  version_conflict : (stream : String) (expected actual : Option ℕ) → MemoryError
  duplicate_event : (id : String) → MemoryError
  invalid_replay : (reason : ReplayReason) → MemoryError
  missing_entity : (id : String) → MemoryError
  missing_fact : (id : String) → MemoryError
  conflicting_fact : (id : String) → MemoryError
  budget_too_small : (required available : ℕ) → MemoryError
  capacity_overflow : MemoryError
  io : (operation message : String) → MemoryError
  codec : (message : String) → MemoryError
  corrupt_log : (offset : ℕ) (reason : String) → MemoryError
  external_modification : MemoryError
  retrieval : (provider message : String) → MemoryError
  extraction : (provider message : String) → MemoryError
  graph : String → MemoryError

pub data Result {ℓ} (A : Type ℓ) : Type ℓ where
  ok : A → Result A
  err : MemoryError → Result A
  panic : Result A

infixl 5 ◌>>=◌ ◌>>◌
abbrev pub ◌>>=◌ {ℓ κ} :
    {Value : Type ℓ} {Next : Type κ} → Result Value → (Value → Result Next) → Result Next
panic >>= next = panic
err failure >>= next = err failure
ok value >>= next = next value

abbrev pub ◌>>◌ {ℓ} : {Next : Type ℓ} → Result (Unit {0}) → Result Next → Result Next
check >> rest = check >>= λ _. rest

-- `if bad { return Err(e) }`
abbrev pub reject : Bool → MemoryError → Result (Unit {0})
reject bad e = if bad then err e else ok tt

-- Rust's `ok_or`.
abbrev pub ok_or {ℓ} : {A : Type ℓ} → MemoryError → Option A → Result A
ok_or e none = err e
ok_or e (some a) = ok a

-- An index, an `unwrap` or an `expect`.
abbrev pub or_panic {ℓ} : {A : Type ℓ} → Option A → Result A
or_panic none = panic
or_panic (some a) = ok a

-- Rust's `try_for_each`.
abbrev pub try_for_each {ℓ} : {A : Type ℓ} → (A → Result (Unit {0})) → List A → Result (Unit {0})
try_for_each f [] = ok tt
try_for_each f (x ∷ xs) = f x >> try_for_each f xs

-- `iter().map(f).collect::<Result<Vec<_>>>()`
abbrev pub try_map {ℓ κ} : {A : Type ℓ} {B : Type κ} → (A → Result B) → List A → Result (List B)
try_map f [] = ok []
try_map f (x ∷ xs) = f x >>= λ y. try_map f xs >>= λ ys. ok (y ∷ ys)

pub >>=-eq-ok {ℓ κ} :
    {Value : Type ℓ} {Next : Type κ} (call : Result Value) (next : Value → Result Next)
    {done : Next}
    → (call >>= next) ≡ ok done
    → (value : Value) × (call ≡ ok value) × (next value ≡ ok done)
>>=-eq-ok panic next h = cc
>>=-eq-ok (err failure) next h = cc
>>=-eq-ok (ok value) next h = (value, refl, h)

-- To split on the outcome of a call and keep the equation.
pub Result-cases {ℓ} :
    {A : Type ℓ} (r : Result A)
    → ((a : A) × (r ≡ ok a)) ⊎ ((e : MemoryError) × (r ≡ err e)) ⊎ (r ≡ panic)
Result-cases (ok a) = inl (a, refl)
Result-cases (err e) = inr (inl (e, refl))
Result-cases panic = inr (inr refl)

pub ok_pair {ℓ κ} :
    {A : Type ℓ} {B : Type κ} {a a' : A} {b b' : B}
    → ◌≡◌ {A = Result (A × B)} (ok (a, b)) (ok (a', b'))
    → (a ≡ a') × (b ≡ b')
ok_pair h = ground arith

pub ok_injective {ℓ} : {A : Type ℓ} {a b : A} → ok a ≡ ok b → a ≡ b
ok_injective h = ground arith

pub reject-ok : (bad : Bool) (e : MemoryError) {u : Unit {0}} → reject bad e ≡ ok u → bad ≡ false
reject-ok bad e h = ground arith

pub ok_or-ok {ℓ} :
    {A : Type ℓ} (e : MemoryError) (o : Option A) {a : A} → ok_or e o ≡ ok a → o ≡ some a
ok_or-ok e none h = cc
ok_or-ok e (some x) h = ap some (ok_injective h)

-- No panic in a call and none in what follows it.
pub >>=-ne-panic {ℓ κ} :
    {A : Type ℓ} {B : Type κ} (m : Result A) (k : A → Result B)
    → m ≢ panic
    → ((a : A) → m ≡ ok a → k a ≢ panic)
    → (m >>= k) ≢ panic
>>=-ne-panic (ok a) k h next = next a refl
>>=-ne-panic (err e) k h next = ground arith
>>=-ne-panic panic k h next = λ e. h refl

pub reject-ne-panic : (bad : Bool) (e : MemoryError) → reject bad e ≢ panic
reject-ne-panic bad e = ground arith

pub ok_or-ne-panic {ℓ} : {A : Type ℓ} (e : MemoryError) (o : Option A) → ok_or e o ≢ panic
ok_or-ne-panic e none = ground arith
ok_or-ne-panic e (some a) = ground arith

pub ok-ne-panic {ℓ} : {A : Type ℓ} (a : A) → ok a ≢ panic
ok-ne-panic a = ground arith

-- After a check that does not panic.
pub >>-ne-panic {ℓ} :
    {B : Type ℓ} (m : Result (Unit {0})) (k : Result B) → m ≢ panic → k ≢ panic → (m >> k) ≢ panic
>>-ne-panic m k h next = >>=-ne-panic m (λ _. k) h (λ a q. next)

pub try_for_each-ne-panic {ℓ} :
    {A : Type ℓ} (f : A → Result (Unit {0}))
    → ((a : A) → f a ≢ panic)
    → (xs : List A) → try_for_each f xs ≢ panic
try_for_each-ne-panic f h [] = ok-ne-panic tt
try_for_each-ne-panic f h (x ∷ xs) =
    >>-ne-panic (f x) (try_for_each f xs) (h x) (try_for_each-ne-panic f h xs)
