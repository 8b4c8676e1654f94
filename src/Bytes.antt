-- ===== src/Bytes.antt =====
-- Machine words as the bytes that files hold: `to_le_bytes`, `from_le_bytes`, and what the library
-- says of exclusive or.
pub mod Xor
pub mod Words
