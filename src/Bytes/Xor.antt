-- ===== src/Bytes/Xor.antt =====
-- Exclusive or of native numbers, which the checksum and the fingerprint of an identifier use: it
-- is an Abelian group of exponent two, and it splits at any power of two.
use Prim.Native.Nat.{bit_and, bit_xor, digits, differ, bit_xor-bitwise, bit_and-bitwise}
use weavatrix_memory.Base.{
  ℕ, zero, suc, ◌+◌, ◌*◌, ◌/◌, ◌%◌, ◌^◌, ◌≤◌, ◌<◌, min, ◌≡◌, refl, sym, subst, ◌∙◌, arith,
}
use native.Mathlib.Nat.{mul_assoc}

-- The count of digits does not matter as long as it reaches the first number.
digits_count :
    (past : ℕ → ℕ) (one : ℕ → ℕ → ℕ) (k l : ℕ) (x y : ℕ)
    → x ≤ k
    → x ≤ l
    → digits past one k x y ≡ digits past one l x y
digits_count past one zero zero x y h i = refl
digits_count past one zero (suc l) zero y h i = refl
digits_count past one zero (suc l) (suc x) y h i = absurd (omega arith)
digits_count past one (suc k) zero zero y h i = refl
digits_count past one (suc k) zero (suc x) y h i = absurd (omega arith)
digits_count past one (suc k) (suc l) zero y h i = refl
digits_count past one (suc k) (suc l) (suc x) y h i =
    rw (digits_count past one k l (suc x / 2) (y / 2) (omega arith) (omega arith)) refl

differ-mod : (x y : ℕ) → x < 2 → y < 2 → differ x y ≡ (x + y) % 2
differ-mod zero y h i = omega arith
differ-mod (suc zero) zero h i = refl
differ-mod (suc zero) (suc zero) h i = refl
differ-mod (suc zero) (suc (suc y)) h i = absurd (omega arith)
differ-mod (suc (suc x)) y h i = absurd (omega arith)

pub zero-bit_xor : (b : ℕ) → bit_xor 0 b ≡ b
zero-bit_xor b = bit_xor-bitwise 0 b

-- The lowest digit is the sum of the digits, without a carry.
pub bit_xor_halves : (a b : ℕ) → bit_xor a b ≡ bit_xor (a / 2) (b / 2) * 2 + (a % 2 + b % 2) % 2
bit_xor_halves zero b = omega (arith, zero-bit_xor b, zero-bit_xor (b / 2))
bit_xor_halves (suc a) b = omega (
  arith,
  bit_xor-bitwise (suc a) b,
  bit_xor-bitwise (suc a / 2) (b / 2),
  digits_count (λ n. n) differ a (suc a / 2) (suc a / 2) (b / 2) (omega arith) (omega arith),
  differ-mod (suc a % 2) (b % 2) (omega arith) (omega arith),
)

-- The mask of the lowest digit.
pub bit_and_halves : (a b : ℕ) → bit_and a b ≡ bit_and (a / 2) (b / 2) * 2 + min (a % 2) (b % 2)
bit_and_halves zero b = omega (arith, bit_and-bitwise 0 b, bit_and-bitwise 0 (b / 2))
bit_and_halves (suc a) b = omega (
  arith,
  bit_and-bitwise (suc a) b,
  bit_and-bitwise (suc a / 2) (b / 2),
  digits_count (λ n. zero) min a (suc a / 2) (suc a / 2) (b / 2) (omega arith) (omega arith),
)

bit_and-zero_below : (bound a : ℕ) → a ≤ bound → bit_and a 0 ≡ 0
bit_and-zero_below bound zero h = bit_and-bitwise 0 0
bit_and-zero_below zero (suc a) h = absurd (omega arith)
bit_and-zero_below (suc bound) (suc a) h =
    omega (arith, bit_and_halves (suc a) 0, bit_and-zero_below bound (suc a / 2) (omega arith))

pub bit_and-zero : (a : ℕ) → bit_and a 0 ≡ 0
bit_and-zero a = bit_and-zero_below a a (omega arith)

pub bit_and-one : (a : ℕ) → bit_and a 1 ≡ a % 2
bit_and-one a = omega (arith, bit_and_halves a 1, bit_and-zero (a / 2))

bit_xor-zero_below : (bound a : ℕ) → a ≤ bound → bit_xor a 0 ≡ a
bit_xor-zero_below bound zero h = zero-bit_xor 0
bit_xor-zero_below zero (suc a) h = absurd (omega arith)
bit_xor-zero_below (suc bound) (suc a) h =
    omega (arith, bit_xor_halves (suc a) 0, bit_xor-zero_below bound (suc a / 2) (omega arith))

pub bit_xor-zero : (a : ℕ) → bit_xor a 0 ≡ a
bit_xor-zero a = bit_xor-zero_below a a (omega arith)

-- Laws by induction on a bound of the numbers.
assoc_below : (bound a b c : ℕ) → a ≤ bound → bit_xor (bit_xor a b) c ≡ bit_xor a (bit_xor b c)
assoc_below bound zero b c h = rw (zero-bit_xor b, zero-bit_xor (bit_xor b c)) refl
assoc_below zero (suc a) b c h = absurd (omega arith)
assoc_below (suc bound) (suc a) b c h = grind (
  arith,
  bit_xor_halves (suc a) b,
  bit_xor_halves b c,
  bit_xor_halves (bit_xor (suc a) b) c,
  bit_xor_halves (suc a) (bit_xor b c),
  assoc_below bound (suc a / 2) (b / 2) (c / 2) (omega arith),
)

pub bit_xor_assoc : (a b c : ℕ) → bit_xor (bit_xor a b) c ≡ bit_xor a (bit_xor b c)
bit_xor_assoc a b c = assoc_below a a b c (omega arith)

comm_below : (bound a b : ℕ) → a ≤ bound → bit_xor a b ≡ bit_xor b a
comm_below bound zero b h = rw (zero-bit_xor b, bit_xor-zero b) refl
comm_below zero (suc a) b h = absurd (omega arith)
comm_below (suc bound) (suc a) b h = omega (
  arith,
  bit_xor_halves (suc a) b,
  bit_xor_halves b (suc a),
  comm_below bound (suc a / 2) (b / 2) (omega arith),
)

pub bit_xor_comm : (a b : ℕ) → bit_xor a b ≡ bit_xor b a
bit_xor_comm a b = comm_below a a b (omega arith)

self_below : (bound a : ℕ) → a ≤ bound → bit_xor a a ≡ 0
self_below bound zero h = zero-bit_xor 0
self_below zero (suc a) h = absurd (omega arith)
self_below (suc bound) (suc a) h =
    omega (arith, bit_xor_halves (suc a) (suc a), self_below bound (suc a / 2) (omega arith))

pub bit_xor_self : (a : ℕ) → bit_xor a a ≡ 0
bit_xor_self a = self_below a a (omega arith)

-- The same number on both sides goes away.
pub bit_xor_cancel : (a b c : ℕ) → bit_xor (bit_xor a c) (bit_xor b c) ≡ bit_xor a b
bit_xor_cancel a b c = grind (
  arith,
  bit_xor_comm b c,
  bit_xor_assoc a c (bit_xor c b),
  bit_xor_assoc c c b,
  bit_xor_self c,
  zero-bit_xor b,
)

pub bit_xor_swap : (a b c : ℕ) → bit_xor (bit_xor a c) b ≡ bit_xor (bit_xor a b) c
bit_xor_swap a b c = grind (arith, bit_xor_assoc a c b, bit_xor_comm c b, bit_xor_assoc a b c)

pub bit_xor-div_2 : (a b : ℕ) → bit_xor a b / 2 ≡ bit_xor (a / 2) (b / 2)
bit_xor-div_2 a b = omega (arith, bit_xor_halves a b)

pub bit_xor-mod_2 : (a b : ℕ) → bit_xor a b % 2 ≡ (a % 2 + b % 2) % 2
bit_xor-mod_2 a b = omega (arith, bit_xor_halves a b)

-- Exclusive or stays within the words of a width.
pub bit_xor-lt : (width a b : ℕ) → a < 2 ^ width → b < 2 ^ width → bit_xor a b < 2 ^ width
bit_xor-lt zero zero zero h i = omega (arith, zero-bit_xor 0)
bit_xor-lt zero zero (suc b) h i = absurd (omega arith)
bit_xor-lt zero (suc a) b h i = absurd (omega arith)
bit_xor-lt (suc width) a b h i =
    grind (arith, bit_xor_halves a b, bit_xor-lt width (a / 2) (b / 2) (grind arith) (grind arith))

bit_xor_even : (n low : ℕ) → bit_xor (n * 2) low ≡ bit_xor n (low / 2) * 2 + low % 2
bit_xor_even n low =
    let half : n * 2 / 2 ≡ n = omega arith in
    let step : bit_xor (n * 2) low ≡ bit_xor n (low / 2) * 2 + (n * 2 % 2 + low % 2) % 2 =
      subst (λ m. bit_xor (n * 2) low ≡ bit_xor m (low / 2) * 2 + (n * 2 % 2 + low % 2) % 2) half
        (bit_xor_halves (n * 2) low) in
    omega (arith, step)

pub times_pow_suc : (n width : ℕ) → n * 2 ^ suc width ≡ n * 2 ^ width * 2
times_pow_suc n width =
    let p : 2 ^ suc width ≡ 2 ^ width * 2 = omega arith in rw p (sym (mul_assoc n (2 ^ width) 2))

-- No digit of one number meets one of the other.
pub bit_xor-disjoint :
    (width high low : ℕ) → low < 2 ^ width → bit_xor (high * 2 ^ width) low ≡ high * 2 ^ width + low
bit_xor-disjoint zero high zero h = bit_xor-zero (high * 2 ^ 0) ∙ omega arith
bit_xor-disjoint zero high (suc low) h = absurd (omega arith)
bit_xor-disjoint (suc width) high low h = rw (times_pow_suc high width) (
    grind (
      arith,
      bit_xor_even (high * 2 ^ width) low,
      bit_xor-disjoint width high (low / 2) (grind arith),
    ))
