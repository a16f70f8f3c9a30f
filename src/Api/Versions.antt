-- ===== src/Api/Versions.antt =====
-- Fixed-width texts and versions (`padded_str` and `version_struct_from_str` of pkcs11/src/utils.rs,
-- `parse_u8` and the constants of defs.rs).
use Prim.Native.Char.{code}
use nethsm_pkcs.Common.{
  ℕ, ◌+◌, ◌-◌, ◌*◌, ◌%◌, ◌^◌, min, String, Bool, false, Option, none, some, List, [], ◌∷◌, ◌++◌,
  length, take, drop, replicate, unwrap_or, ltb, leb, ◌==◌, if◌then◌else◌,
}
use nethsm_pkcs.Constants

-- CK_VERSION, of two bytes.
pub record CkVersion : Type 0 where
  pub major : ℕ
  pub minor : ℕ

-- The bytes of a text, cut or filled with spaces.
unfoldable pub padded_str : ℕ → List ℕ → List ℕ
padded_str n s = let count = min (length s) n in take count s ++ drop count (replicate n 32)

abbrev is_digit : ℕ → Bool
is_digit c = if leb 48 c then leb c 57 else false

-- `checked_mul`, `checked_sub` and `checked_add` on a u8, for the bytes from the index on.
unfoldable pub parse_u8_from : ℕ → List ℕ → Option ℕ
parse_u8_from acc [] = some acc
parse_u8_from acc (c ∷ s) =
    let rest = parse_u8_from (acc * 10 + (c - 48)) s in
    if leb (acc * 10) 255
    then (if leb 48 c
        then (if leb 10 (c - 48)
            then none
            else if leb (acc * 10 + (c - 48)) 255
            then rest
            else none)
        else none)
    else none

unfoldable pub parse_u8 : List ℕ → Option ℕ
unfolding parse_u8_from
parse_u8 s = parse_u8_from 0 s

abbrev pub default_firmware_version : CkVersion
default_firmware_version = record { major = 0; minor = 1 }

abbrev pub default_hardware_version : CkVersion
default_hardware_version = record { major = 0; minor = 1 }

abbrev pub cryptoki_version : CkVersion
cryptoki_version = record {
  major = Constants.cryptoki_version_major;
  minor = Constants.cryptoki_version_minor;
}

-- `split` at a character.
unfoldable pub split : ℕ → String → List String
split c String.[] = String.[] ∷ []
split c (String.◌∷◌ x s) = elim (split c s) [
  | [] ↦ []
  | part ∷ parts ↦ if code x == c then String.[] ∷ part ∷ parts else String.◌∷◌ x part ∷ parts
]

-- Decimal digits, as a number.
digits : ℕ → String → Option ℕ
digits acc String.[] = some acc
digits acc (String.◌∷◌ x s) =
    let rest = digits (acc * 10 + (code x - 48)) s in if is_digit (code x) then rest else none

at_least_one : String → Option ℕ
unfolding digits
at_least_one String.[] = none
at_least_one (String.◌∷◌ x s) = digits 0 (String.◌∷◌ x s)

below : ℕ → Option ℕ → Option ℕ
below limit none = none
below limit (some n) = if ltb n limit then some n else none

-- The low byte of a number and of its negation.
abbrev low_byte : ℕ → ℕ
low_byte n = n % 256

abbrev low_byte_neg : ℕ → ℕ
low_byte_neg n = (256 - n % 256) % 256

abbrev map_byte : (ℕ → ℕ) → Option ℕ → Option ℕ
map_byte f none = none
map_byte f (some n) = some (f n)

-- `parse` to an i32, with an optional sign, and its low byte, which `as` keeps.
unfoldable pub parse_low_byte : String → Option ℕ
unfolding at_least_one below
parse_low_byte String.[] = none
parse_low_byte (String.◌∷◌ x s) =
    if code x == 45
    then map_byte low_byte_neg (below (2 ^ 31 + 1) (at_least_one s))
    else if code x == 43
    then map_byte low_byte (below (2 ^ 31) (at_least_one s))
    else map_byte low_byte (below (2 ^ 31) (at_least_one (String.◌∷◌ x s)))

version_of_parts : List String → CkVersion
unfolding parse_low_byte
version_of_parts (major ∷ minor ∷ []) = record {
  major = unwrap_or (parse_low_byte major) 0;
  minor = unwrap_or (parse_low_byte minor) 1;
}
version_of_parts _ = record { major = 0; minor = 1 }

unfoldable pub version_struct_from_str : String → CkVersion
unfolding split version_of_parts
version_struct_from_str version_str = version_of_parts (split 46 version_str)
