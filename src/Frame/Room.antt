-- ===== src/Frame/Room.antt =====
-- store/frame.rs: the room that `scan` and `encode_batch` ask for.
use native.Mathlib.Nat.{mul-le-mul}
use weavatrix_memory.Base.{
  ℕ, zero, suc, ◌-◌, ◌*◌, ◌^◌, ◌≤◌, ◌<◌, ◌≡◌, arith, inl, inr, Bool-cases, some, List, [], ◌∷◌, All,
  take, leb, length, ok,
}
use weavatrix_memory.Index.{from_le_bytes}
use weavatrix_memory.Bytes.Words.{IsByte, get_slice}
use weavatrix_memory.Frame.{isize_max, allocate, read_u32}

pub allocate-ok : (bytes : ℕ) {u : Unit {0}} → allocate bytes ≡ ok u → bytes ≤ isize_max
unfolding allocate
allocate-ok bytes h = ground (arith, h)

pub allocate_fits : (bytes : ℕ) → bytes ≤ isize_max → allocate bytes ≡ ok tt
unfolding allocate
allocate_fits bytes h = ground (arith, h)

-- Room for as many values as a `u32` counts.
pub allocate_values :
    (count size : ℕ) → count < 2 ^ 32 → size < 2 ^ 31 → allocate (count * size) ≡ ok tt
allocate_values count size h k =
    let c : count ≤ 2 ^ 32 - 1 = omega (arith, h) in
    let s : size ≤ 2 ^ 31 - 1 = omega (arith, k) in
    allocate_fits (count * size) (omega (arith, mul-le-mul c s))

from_le_bytes-take :
    (width : ℕ) (bytes : List ℕ) → All IsByte bytes → from_le_bytes (take width bytes) < 256 ^ width
unfolding from_le_bytes
from_le_bytes-take zero bytes h = omega arith
from_le_bytes-take (suc width) [] h =
    let p : 256 ^ suc width ≡ 256 ^ width * 256 = omega arith in
    omega (arith, p, from_le_bytes-take width [] tt)
from_le_bytes-take (suc width) (b ∷ bytes) h =
    let p : 256 ^ suc width ≡ 256 ^ width * 256 = omega arith in
    omega (arith, h.0, p, from_le_bytes-take width bytes h.1)

pub read_u32-lt :
    (bytes : List ℕ) (count start : ℕ)
    → All IsByte bytes
    → read_u32 bytes 0 ≡ some (count, start)
    → count < 2 ^ 32
unfolding read_u32 get_slice
read_u32-lt bytes count start h e = elim (Bool-cases (leb 4 (length bytes))) [
  | inl q ↦ ground (arith, e, q, from_le_bytes-take 4 bytes h)
  | inr q ↦ absurd (ground (arith, e, q))
]
