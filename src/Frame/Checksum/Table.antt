-- ===== src/Frame/Checksum/Table.antt =====
-- The table of the checksum: a step of the register is linear, so a byte can be looked up.
use Prim.Native.Nat.{bit_xor}
use weavatrix_memory.Base.{
  ℕ, zero, suc, ◌+◌, ◌*◌, ◌/◌, ◌%◌, ◌^◌, ◌<◌, ◌≡◌, refl, ap, subst, ◌∙◌, ◌⊎◌, inl, inr, arith, List,
  [], ◌∷◌, All, ok, get_elem?, some,
}
use weavatrix_memory.Bytes.Words.{IsByte}
use weavatrix_memory.Bytes.Xor.{
  bit_xor-div_2, bit_xor-mod_2, bit_xor_cancel, bit_xor_swap, bit_xor_assoc, bit_and-one,
  bit_and-zero, bit_xor-zero, bit_xor-lt, bit_xor-disjoint, times_pow_suc,
}
use weavatrix_memory.Frame.Checksum.{
  not_32, table_step, table_bits, table_from, crc32c_table, crc32c_loop, crc32c, reference_loop,
  reference_crc32c,
}

parity : (a : ℕ) → (a % 2 ≡ 0) ⊎ (a % 2 ≡ 1)
parity a = ground arith

table_step_even : (a : ℕ) → a % 2 ≡ 0 → table_step a ≡ a / 2
unfolding table_step
table_step_even a h = rw (bit_and-one a, h) (rw (bit_and-zero 0x82f6_3b78) (bit_xor-zero (a / 2)))

table_step_odd : (a : ℕ) → a % 2 ≡ 1 → table_step a ≡ bit_xor (a / 2) 0x82f6_3b78
unfolding table_step
table_step_odd a h = rw (bit_and-one a, h) refl

-- Exclusive or goes through a step.
table_step-bit_xor : (a b : ℕ) → table_step (bit_xor a b) ≡ bit_xor (table_step a) (table_step b)
table_step-bit_xor a b = elim (parity a) [
  | inl p ↦ elim (parity b) [
    | inl q ↦ grind (
      arith,
      table_step_even a p,
      table_step_even b q,
      table_step_even (bit_xor a b) (omega (arith, bit_xor-mod_2 a b)),
      bit_xor-div_2 a b,
    )
    | inr q ↦ grind (
      arith,
      table_step_even a p,
      table_step_odd b q,
      table_step_odd (bit_xor a b) (omega (arith, bit_xor-mod_2 a b)),
      bit_xor-div_2 a b,
      bit_xor_assoc (a / 2) (b / 2) 0x82f6_3b78,
    )
  ]
  | inr p ↦ elim (parity b) [
    | inl q ↦ grind (
      arith,
      table_step_odd a p,
      table_step_even b q,
      table_step_odd (bit_xor a b) (omega (arith, bit_xor-mod_2 a b)),
      bit_xor-div_2 a b,
      bit_xor_swap (a / 2) (b / 2) 0x82f6_3b78,
    )
    | inr q ↦ grind (
      arith,
      table_step_odd a p,
      table_step_odd b q,
      table_step_even (bit_xor a b) (omega (arith, bit_xor-mod_2 a b)),
      bit_xor-div_2 a b,
      bit_xor_cancel (a / 2) (b / 2) 0x82f6_3b78,
    )
  ]
]

table_bits-bit_xor :
    (bits a b : ℕ) → table_bits bits (bit_xor a b) ≡ bit_xor (table_bits bits a) (table_bits bits b)
unfolding table_bits
table_bits-bit_xor zero a b = refl
table_bits-bit_xor (suc bits) a b =
    rw (table_step-bit_xor a b) (table_bits-bit_xor bits (table_step a) (table_step b))

-- Steps on a number without low digits shift it.
table_bits_shift : (bits high : ℕ) → table_bits bits (high * 2 ^ bits) ≡ high
unfolding table_bits
table_bits_shift zero high = omega arith
table_bits_shift (suc bits) high =
    let half : table_step (high * 2 ^ suc bits) ≡ high * 2 ^ bits =
      rw (times_pow_suc high bits)
        (omega (arith, table_step_even (high * 2 ^ bits * 2) (omega arith))) in
    rw half (table_bits_shift bits high)

-- The step of the table's loop is eight steps of the register.
lookup_step :
    (crc byte : ℕ)
    → bit_xor (crc / 256) (table_bits 8 (bit_xor (crc % 256) byte))
      ≡ table_bits 8 (bit_xor crc byte)
lookup_step crc byte =
    let high = crc / 256 * 2 ^ 8 in
    let split : bit_xor high (crc % 256) ≡ crc =
      omega (arith, bit_xor-disjoint 8 (crc / 256) (crc % 256) (omega arith)) in
    let whole : bit_xor crc byte ≡ bit_xor high (bit_xor (crc % 256) byte) =
      subst (λ n. bit_xor n byte ≡ bit_xor high (bit_xor (crc % 256) byte)) split
        (bit_xor_assoc high (crc % 256) byte) in
    rw whole (
      grind (
        arith,
        table_bits-bit_xor 8 high (bit_xor (crc % 256) byte),
        table_bits_shift 8 (crc / 256),
      ))

table_from-get_elem? :
    (index entries i : ℕ)
    → i < entries
    → get_elem? (table_from index entries) i ≡ some (table_bits 8 (index + i))
unfolding table_from
table_from-get_elem? index zero i h = absurd (omega arith)
table_from-get_elem? index (suc entries) zero h = ap (λ n. some (table_bits 8 n)) (omega arith)
table_from-get_elem? index (suc entries) (suc i) h =
    table_from-get_elem? (suc index) entries i (omega arith)
    ∙ ap (λ n. some (table_bits 8 n)) (omega arith)

crc32c_loop_reference :
    (crc : ℕ) (bytes : List ℕ)
    → All IsByte bytes
    → crc32c_loop crc bytes ≡ ok (reference_loop crc bytes)
unfolding crc32c_loop reference_loop crc32c_table
crc32c_loop_reference crc [] h = refl
crc32c_loop_reference crc (byte ∷ bytes) h =
    let entry =
      table_from-get_elem? 0 256 (bit_xor (crc % 256) byte)
        (bit_xor-lt 8 (crc % 256) byte (omega arith) (omega (arith, h.0))) in
    let index : 0 + bit_xor (crc % 256) byte ≡ bit_xor (crc % 256) byte = omega arith in
    rw (entry, index, lookup_step crc byte)
      (crc32c_loop_reference (table_bits 8 (bit_xor crc byte)) bytes h.1)

-- On bytes, the checksum by table never indexes out of its table and is the checksum by bits.
pub crc32c_reference :
    (bytes : List ℕ) → All IsByte bytes → crc32c bytes ≡ ok (reference_crc32c bytes)
unfolding crc32c reference_crc32c
crc32c_reference bytes h = rw (crc32c_loop_reference (not_32 0) bytes h) refl
