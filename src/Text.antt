-- ===== src/Text.antt =====
-- Text validation: `text_id!` of id.rs and `validate_text` of domain/mod.rs, over `str::trim`.
use Prim.Native.Char.{Char, code}
use weavatrix_memory.Base.{
  String, Bool, true, false, not, ◌&&◌, ◌||◌, Option, none, some, leb, eqb, ◌==◌, if◌then◌else◌,
  Result, ok, err, reject, invalid_id, invalid_value,
}

-- `char::is_whitespace`: the Unicode property White_Space.
unfoldable pub is_whitespace : Char → Bool
is_whitespace c =
    let n = code c in
    (leb 0x9 n && leb n 0xd)
    || eqb n 0x20
    || eqb n 0x85
    || eqb n 0xa0
    || eqb n 0x1680
    || (leb 0x2000 n && leb n 0x200a)
    || eqb n 0x2028
    || eqb n 0x2029
    || eqb n 0x202f
    || eqb n 0x205f
    || eqb n 0x3000

unfoldable pub trim_start : String → String
trim_start String.[] = String.[]
trim_start (String.◌∷◌ c s) = if is_whitespace c then trim_start s else String.◌∷◌ c s

-- A character in front of a text whose end is trimmed.
unfoldable pub put_front : Char → String → String
put_front c String.[] = if is_whitespace c then String.[] else String.◌∷◌ c String.[]
put_front c (String.◌∷◌ d s) = String.◌∷◌ c (String.◌∷◌ d s)

unfoldable pub trim_end : String → String
trim_end String.[] = String.[]
trim_end (String.◌∷◌ c s) = put_front c (trim_end s)

-- `str::trim`
unfoldable pub trim : String → String
unfolding trim_start trim_end put_front is_whitespace
trim s = trim_end (trim_start s)

unfoldable pub is_empty : String → Bool
is_empty String.[] = true
is_empty (String.◌∷◌ c s) = false

-- `value.is_empty() || value.trim() != value`
unfoldable pub is_padded : String → Bool
unfolding is_empty trim
is_padded value = is_empty value || not (trim value == value)

-- The constructor that `text_id!` makes for each of the six kinds of identifier.
unfoldable pub new_id : (kind value : String) → Result String
new_id kind value = if is_padded value then err (invalid_id kind value) else ok value

abbrev pub must_be_text : String
must_be_text = "must be non-empty without surrounding whitespace"

unfoldable pub validate_text : (field value : String) → Result (Unit {0})
validate_text field value = reject (is_padded value) (invalid_value field must_be_text)

unfoldable pub validate_optional_text : (field : String) → Option String → Result (Unit {0})
validate_optional_text field none = ok tt
validate_optional_text field (some value) = validate_text field value
