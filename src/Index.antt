-- ===== src/Index.antt =====
-- projection/memory/index.rs: the identifier index, a table keyed by a 64-bit fingerprint with a
-- second table for identifiers whose fingerprints collide. The random seed is an argument.
pub mod Refinement
pub mod Listing
use Prim.Native.Nat.{bit_xor}
use Prim.Native.Char.{Char, code}
use weavatrix_memory.Base.{
  ℕ, zero, suc, ◌+◌, ◌*◌, ◌/◌, ◌%◌, ◌^◌, String, Bool, true, false, Option, none, some, List, [],
  ◌∷◌, ◌++◌, ltb, ◌==◌, if◌then◌else◌, length, take, drop,
}
use weavatrix_memory.Map.{Map, lookup, insert, nat_key}
use weavatrix_memory.Store.{u64_mod}

-- `str::as_bytes`: the UTF-8 of one character, and of a text.
unfoldable pub char_bytes : ℕ → List ℕ
char_bytes n =
    if ltb n 0x80
    then n ∷ []
    else if ltb n 0x800
    then (0xc0 + n / 64) ∷ (0x80 + n % 64) ∷ []
    else if ltb n 0x1_0000
    then (0xe0 + n / 4096) ∷ (0x80 + n / 64 % 64) ∷ (0x80 + n % 64) ∷ []
    else (0xf0 + n / 26_2144) ∷ (0x80 + n / 4096 % 64) ∷ (0x80 + n / 64 % 64) ∷ (0x80 + n % 64) ∷ []

unfoldable pub as_bytes : String → List ℕ
as_bytes String.[] = []
as_bytes (String.◌∷◌ c s) = char_bytes (code c) ++ as_bytes s

-- `u64::from_le_bytes`; the zero padding of a short chunk adds nothing
unfoldable pub from_le_bytes : List ℕ → ℕ
from_le_bytes [] = 0
from_le_bytes (b ∷ bs) = b + 256 * from_le_bytes bs

-- `bytes.chunks(8)`; each step of the fuel takes at least one byte
unfoldable pub chunks : (fuel : ℕ) → List ℕ → List (List ℕ)
chunks fuel [] = []
chunks zero (b ∷ bs) = []
chunks (suc fuel) (b ∷ bs) = take 8 (b ∷ bs) ∷ chunks fuel (drop 7 bs)

abbrev pub wrapping_mul : ℕ → ℕ → ℕ
wrapping_mul a b = a * b % u64_mod

abbrev pub rotate_left_23 : ℕ → ℕ
rotate_left_23 a = a * 2 ^ 23 % u64_mod + a / 2 ^ 41

unfoldable pub mix_chunk : ℕ → List ℕ → ℕ
mix_chunk hash chunk =
    wrapping_mul
      (rotate_left_23 (bit_xor hash (wrapping_mul (from_le_bytes chunk) 0xe703_7ed1_a0b4_28db)))
      0x8ebc_6af0_9c88_c6e3

unfoldable pub mix_chunks : ℕ → List (List ℕ) → ℕ
mix_chunks hash [] = hash
mix_chunks hash (chunk ∷ rest) = mix_chunks (mix_chunk hash chunk) rest

unfoldable pub fingerprint : (seed : ℕ) → List ℕ → ℕ
fingerprint seed bytes =
    let mixed = mix_chunks (bit_xor seed 0xa076_1d64_78bd_642f) (chunks (length bytes) bytes) in
    let sized = bit_xor mixed (length bytes) in
    let folded = bit_xor sized (sized / 2 ^ 29) in
    let scrambled = wrapping_mul folded 0x1656_6791_9e37_79f9 in
    bit_xor scrambled (scrambled / 2 ^ 32)

-- A text identifier with the position that it stands for.
abbrev pub Slot : Type 0
Slot = String × ℕ

pub record IdIndex : Type 0 where
  pub seed : ℕ
  pub entries : Map ℕ Slot
  pub collisions : Map ℕ (List Slot)

abbrev pub empty_index : (seed : ℕ) → IdIndex
empty_index seed = record { seed = seed; entries = []; collisions = [] }

unfoldable pub hash : IdIndex → String → ℕ
hash ix id = fingerprint ix.seed (as_bytes id)

-- `bucket.iter().find(|(candidate, _)| candidate == id)`
unfoldable pub find_slot : String → List Slot → Option ℕ
find_slot id [] = none
find_slot id ((candidate, index) ∷ bucket) =
    if candidate == id then some index else find_slot id bucket

-- `mem::replace` in the slot that `find` gives
unfoldable pub replace_slot : String → ℕ → List Slot → List Slot
replace_slot id new [] = []
replace_slot id new ((candidate, index) ∷ bucket) =
    if candidate == id
    then (candidate, new) ∷ bucket
    else (candidate, index) ∷ replace_slot id new bucket

abbrev pub bucket_of : Option (List Slot) → List Slot
bucket_of none = []
bucket_of (some bucket) = bucket

unfoldable pub get_hashed : IdIndex → String → (hash : ℕ) → Option ℕ
get_hashed ix id h =
    let collided = find_slot id (bucket_of (lookup h ix.collisions)) in
    elim (lookup h ix.entries) [
      | none ↦ collided
      | some (candidate, index) ↦ if candidate == id then some index else collided
    ]

unfoldable pub get : IdIndex → String → Option ℕ
get ix id = get_hashed ix id (hash ix id)

-- The bucket gets the identifier: a replaced slot, or a new one at its end.
abbrev pub put_in_bucket :
    IdIndex → String → (index h : ℕ) → List Slot → Option ℕ → Option ℕ × IdIndex
put_in_bucket ix id index h bucket none =
    (none, record ix { collisions = insert h (bucket ++ (id, index) ∷ []) ix.collisions })
put_in_bucket ix id index h bucket (some prior) =
    (some prior, record ix { collisions = insert h (replace_slot id index bucket) ix.collisions })

-- No entry has the fingerprint, but a bucket may.
abbrev pub put_entry : IdIndex → String → (index h : ℕ) → List Slot → Option ℕ → Option ℕ × IdIndex
put_entry ix id index h bucket none =
    (none, record ix { entries = insert h (id, index) ix.entries })
put_entry ix id index h bucket (some prior) =
    (some prior, record ix { collisions = insert h (replace_slot id index bucket) ix.collisions })

-- The two branches on `entries.get_mut(&hash)`; `found` is what the bucket has for the identifier.
abbrev pub insert_with :
    IdIndex
    → String
    → (index h : ℕ) → List Slot
    → (found : Option ℕ) → Option Slot
    → Option ℕ × IdIndex
insert_with ix id index h bucket found none = put_entry ix id index h bucket found
insert_with ix id index h bucket found (some (candidate, prior)) =
    if candidate == id
    then (some prior, record ix { entries = insert h (candidate, index) ix.entries })
    else put_in_bucket ix id index h bucket found

unfoldable pub insert_hashed : IdIndex → String → (index h : ℕ) → Option ℕ × IdIndex
insert_hashed ix id index h =
    let bucket = bucket_of (lookup h ix.collisions) in
    insert_with ix id index h bucket (find_slot id bucket) (lookup h ix.entries)

unfoldable pub insert_id : IdIndex → String → (index : ℕ) → Option ℕ × IdIndex
insert_id ix id index = insert_hashed ix id index (hash ix id)

unfoldable pub contains_id : IdIndex → String → Bool
contains_id ix id = elim (get ix id) [ none ↦ false | some index ↦ true ]
