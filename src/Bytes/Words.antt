-- ===== src/Bytes/Words.antt =====
-- `to_le_bytes` and its inverse, and slices of a byte sequence.
use weavatrix_memory.Base.{
  ℕ, zero, suc, ◌+◌, ◌-◌, ◌*◌, ◌/◌, ◌%◌, ◌^◌, ◌≤◌, ◌<◌, ◌≡◌, refl, ap, ◌∙◌, arith, Bool, true,
  false, ◌&&◌, Option, none, some, List, [], ◌∷◌, ◌++◌, All, length, length-append, take, drop, leb,
  eqb, if◌then◌else◌, length-drop, drop-drop,
}
use weavatrix_memory.Index.{from_le_bytes}

abbrev pub IsByte : ℕ → Type 0
IsByte n = n < 256

-- `u32::to_le_bytes` at a width of four, `u64::to_le_bytes` at eight
unfoldable pub to_le_bytes : (width n : ℕ) → List ℕ
to_le_bytes zero n = []
to_le_bytes (suc width) n = n % 256 ∷ to_le_bytes width (n / 256)

-- `==` of byte slices
unfoldable pub bytes_eq : List ℕ → List ℕ → Bool
bytes_eq [] [] = true
bytes_eq [] (b ∷ bs) = false
bytes_eq (a ∷ xs) [] = false
bytes_eq (a ∷ xs) (b ∷ ys) = eqb a b && bytes_eq xs ys

-- `bytes.get(start..end)`
unfoldable pub get_slice : List ℕ → (start end : ℕ) → Option (List ℕ)
get_slice bytes start end =
    if leb start end && leb end (length bytes)
    then some (take (end - start) (drop start bytes))
    else none

pub length-to_le_bytes : (width n : ℕ) → length (to_le_bytes width n) ≡ width
unfolding to_le_bytes
length-to_le_bytes zero n = refl
length-to_le_bytes (suc width) n = ap suc (length-to_le_bytes width (n / 256))

pub to_le_bytes-IsByte : (width n : ℕ) → All IsByte (to_le_bytes width n)
unfolding to_le_bytes
to_le_bytes-IsByte zero n = tt
to_le_bytes-IsByte (suc width) n = (omega arith, to_le_bytes-IsByte width (n / 256))

pub from_le_bytes-to_le_bytes :
    (width n : ℕ) → n < 256 ^ width → from_le_bytes (to_le_bytes width n) ≡ n
unfolding to_le_bytes from_le_bytes
from_le_bytes-to_le_bytes zero n h = omega arith
from_le_bytes-to_le_bytes (suc width) n h =
    let p : 256 ^ suc width ≡ 256 ^ width * 256 = omega arith in
    let half : n / 256 < 256 ^ width = omega (arith, p) in
    omega (arith, from_le_bytes-to_le_bytes width (n / 256) half)

pub bytes_eq_refl : (bs : List ℕ) → bytes_eq bs bs ≡ true
unfolding bytes_eq
bytes_eq_refl [] = refl
bytes_eq_refl (b ∷ bs) = ground (arith, bytes_eq_refl bs)

module _ {ℓ} {A : Type ℓ} where
  pub take-length_append : (xs ys : List A) → take (length xs) (xs ++ ys) ≡ xs
  take-length_append [] ys = refl
  take-length_append (x ∷ xs) ys = ap (◌∷◌ x) (take-length_append xs ys)

  pub drop-length_append : (xs ys : List A) → drop (length xs) (xs ++ ys) ≡ ys
  drop-length_append [] ys = refl
  drop-length_append (x ∷ xs) ys = drop-length_append xs ys

-- What a cursor has in front of it.
pub record IsAt (bytes : List ℕ) (cursor : ℕ) (rest : List ℕ) : Type 0 where
  pub within : cursor ≤ length bytes
  pub ahead : drop cursor bytes ≡ rest

pub IsAt-length :
    (bytes : List ℕ) (cursor : ℕ) (rest : List ℕ)
    → IsAt bytes cursor rest
    → length bytes ≡ cursor + length rest
IsAt-length bytes cursor rest k =
    let p = ap length k.ahead in omega (arith, k.within, length-drop cursor bytes, p)

pub IsAt-step :
    (bytes : List ℕ) (cursor : ℕ) (word rest : List ℕ)
    → IsAt bytes cursor (word ++ rest)
    → IsAt bytes (cursor + length word) rest
IsAt-step bytes cursor word rest k =
    let p = IsAt-length bytes cursor (word ++ rest) k in
    record {
      within = omega (arith, p, length-append word rest);
      ahead =
          drop-drop cursor (length word) bytes
          ∙ ap (drop (length word)) k.ahead
          ∙ drop-length_append word rest;
    }

-- The slice at the cursor, of a word's length, is the word.
pub get_slice-IsAt :
    (bytes : List ℕ) (cursor : ℕ) (word rest : List ℕ)
    → IsAt bytes cursor (word ++ rest)
    → get_slice bytes cursor (cursor + length word) ≡ some word
unfolding get_slice
get_slice-IsAt bytes cursor word rest k =
    let p = IsAt-length bytes cursor (word ++ rest) k in
    let size : cursor + length word - cursor ≡ length word = omega arith in
    rw (size, k.ahead, take-length_append word rest) (ground (arith, p, length-append word rest))
