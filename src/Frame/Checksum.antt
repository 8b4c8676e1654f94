-- ===== src/Frame/Checksum.antt =====
-- store/frame.rs, `crc32c` and its table. `reference_crc32c` is the bit by bit checksum that the
-- tests of the file compare with. A `u32` is a number below 2 ^ 32.
pub mod Table
use Prim.Native.Nat.{bit_and, bit_xor}
use weavatrix_memory.Base.{
  ℕ, zero, suc, ◌+◌, ◌-◌, ◌/◌, ◌%◌, ◌^◌, List, [], ◌∷◌, Result, ok, or_panic, ◌>>=◌, get_elem?,
}

abbrev pub u32_mod : ℕ
u32_mod = 2 ^ 32

abbrev pub wrapping_sub_32 : ℕ → ℕ → ℕ
wrapping_sub_32 a b = (a + u32_mod - b) % u32_mod

-- `!crc`
abbrev pub not_32 : ℕ → ℕ
not_32 crc = 0xffff_ffff - crc

-- the body of `while bit < 8`
unfoldable pub table_step : ℕ → ℕ
table_step crc = bit_xor (crc / 2) (bit_and 0x82f6_3b78 (wrapping_sub_32 0 (bit_and crc 1)))

unfoldable pub table_bits : (bits crc : ℕ) → ℕ
table_bits zero crc = crc
table_bits (suc bits) crc = table_bits bits (table_step crc)

-- `while index < table.len()`: the entries from `index` on
unfoldable pub table_from : (index entries : ℕ) → List ℕ
table_from index zero = []
table_from index (suc entries) = table_bits 8 index ∷ table_from (suc index) entries

unfoldable pub crc32c_table : List ℕ
crc32c_table = table_from 0 256

unfoldable pub crc32c_loop : (crc : ℕ) → List ℕ → Result ℕ
crc32c_loop crc [] = ok crc
crc32c_loop crc (byte ∷ bytes) = do
  entry ← or_panic (get_elem? crc32c_table (bit_xor (crc % 256) byte))
  crc32c_loop (bit_xor (crc / 256) entry) bytes

unfoldable pub crc32c : List ℕ → Result ℕ
crc32c bytes = do crc ← crc32c_loop (not_32 0) bytes; ok (not_32 crc)

unfoldable pub reference_loop : (crc : ℕ) → List ℕ → ℕ
reference_loop crc [] = crc
reference_loop crc (byte ∷ bytes) = reference_loop (table_bits 8 (bit_xor crc byte)) bytes

unfoldable pub reference_crc32c : List ℕ → ℕ
reference_crc32c bytes = not_32 (reference_loop (not_32 0) bytes)
