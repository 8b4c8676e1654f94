-- ===== src/Time.antt =====
-- time.rs: a timestamp is a signed count of microseconds, compared and never calculated with here.
-- The range of `i64` is not needed for a comparison, so it is not carried along.
use weavatrix_memory.Base.{ℕ, ◌≡◌, Bool, true, false, not, arith, ltb}

-- `negsuc n` is -(n + 1).
pub data ℤ : Type 0 where
  pos : ℕ → ℤ
  negsuc : ℕ → ℤ

abbrev pub Timestamp : Type 0
Timestamp = ℤ

-- a < b and a ≤ b on timestamps
abbrev pub before : Timestamp → Timestamp → Bool
before (pos a) (pos b) = ltb a b
before (pos a) (negsuc b) = false
before (negsuc a) (pos b) = true
before (negsuc a) (negsuc b) = ltb b a

abbrev pub at_or_before : Timestamp → Timestamp → Bool
at_or_before a b = not (before b a)

pub before_irrefl : (a : Timestamp) → before a a ≡ false
before_irrefl a = ground arith

pub before_trans : (a b c : Timestamp) → before a b ≡ true → before b c ≡ true → before a c ≡ true
before_trans a b c h k = ground arith

pub at_or_before_trans :
    (a b c : Timestamp) → before b a ≡ false → before c b ≡ false → before c a ≡ false
at_or_before_trans a b c h k = ground arith

pub before_at_or_before_trans :
    (a b c : Timestamp) → before a b ≡ true → before c b ≡ false → before a c ≡ true
before_at_or_before_trans a b c h k = ground arith
