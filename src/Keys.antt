-- ===== src/Keys.antt =====
-- Templates of keys (`parse_attributes` of pkcs11/src/backend/key.rs, `val_bytes` and `read_value` of
-- backend/db/attr.rs).
pub mod Create
pub mod Values
pub mod Location
pub mod Entries
pub mod Trace
pub mod Fetch
pub mod Generate
use Prim.Native.String
use nethsm_pkcs.Common.{
  ℕ, ◌^◌, String, Bool, true, false, not, ◌&&◌, ◌||◌, Option, none, some, List, [], ◌∷◌, Result, ok,
  err, ◌>>=◌, take, is_some, select, ◌==◌, if◌then◌else◌,
}
use nethsm_pkcs.Constants
use nethsm_pkcs.Errors.{ObjectKind, other, Error, invalid_attribute}
use nethsm_pkcs.Mechanism.Raw.{le_value}
use nethsm_pkcs.Service.{Service}
use nethsm_pkcs.Service.Keys.{KeyService}
use nethsm_pkcs.Db.Attributes.{CkRawAttr, ck_unavailable_information}
use nethsm_pkcs.Db.Objects.{kind_from_class}

-- The slice stops where the memory stops.
unfoldable pub val_bytes : CkRawAttr → Option (List ℕ)
val_bytes a =
    if a.value_len == ck_unavailable_information || a.value_len == 0
    then none
    else elim a.p_value [ none ↦ none | some memory ↦ some (take a.value_len memory) ]

-- `read_value` of a CK_ULONG, of 8 bytes.
unfoldable pub read_value : CkRawAttr → Option ℕ
read_value a =
    if a.value_len == ck_unavailable_information || not (a.value_len == 8)
    then none
    else elim a.p_value [ none ↦ none | some memory ↦ some (le_value (take 8 memory)) ]

pub record ParsedAttributes : Type 0 where
  pub id : Option String
  pub key_type : Option ℕ
  pub sign : Bool
  pub encrypt : Bool
  pub decrypt : Bool
  pub key_class : Option ObjectKind
  pub ec_params : Option (List ℕ)
  pub value : Option (List ℕ)
  pub public_exponent : Option (List ℕ)
  pub prime_p : Option (List ℕ)
  pub prime_q : Option (List ℕ)
  pub value_len : Option ℕ
  pub modulus_bits : Option ℕ
  pub raw_id : Option (List ℕ)

abbrev pub default : ParsedAttributes
default = record {
  id = none;
  key_type = none;
  sign = false;
  encrypt = false;
  decrypt = false;
  key_class = none;
  ec_params = none;
  value = none;
  public_exponent = none;
  prime_p = none;
  prime_q = none;
  value_len = none;
  modulus_bits = none;
  raw_id = none;
}

-- `or` of Option.
abbrev pub or_else {ℓ} : {A : Type ℓ} → Option A → Option A → Option A
or_else none other_ = other_
or_else (some a) other_ = some a

-- `val[0] == 1` where there are bytes.
unfoldable pub is_set : CkRawAttr → Bool
unfolding val_bytes
is_set a = elim (val_bytes a) [ none ↦ false | some [] ↦ false | some (b ∷ more) ↦ b == 1 ]

supported_kind : ObjectKind → Option ObjectKind
supported_kind other = none
supported_kind kind = some kind

module _ {W : Type 0} (k : KeyService W) where
  all_alphanumeric : String → Bool
  all_alphanumeric String.[] = true
  all_alphanumeric (String.◌∷◌ c s) = k.is_alphanumeric c && all_alphanumeric s

  -- What the value of a CKA_ID becomes: an identifier, with the bytes where they are no plain text.
  unfoldable pub read_id : List ℕ → String × Option (List ℕ)
  unfolding all_alphanumeric
  read_id value = elim (k.service.from_utf8 value) [
    | none ↦ (k.hex_encode value, some value)
    | some text ↦ if all_alphanumeric text then (text, none) else (k.hex_encode value, some value)
  ]

  unfoldable pub parse_class : CkRawAttr → ParsedAttributes → Result Error ParsedAttributes
  unfolding read_value supported_kind
  parse_class a parsed = elim (read_value a) [
    | none ↦ err (invalid_attribute Constants.cka_class)
    | some val ↦ ok (record parsed { key_class = supported_kind (kind_from_class val) })
  ]

  unfoldable pub parse_id : CkRawAttr → ParsedAttributes → ParsedAttributes
  unfolding val_bytes read_id
  parse_id a parsed = elim (val_bytes a) [
    | none ↦ parsed
    | some value ↦ record parsed {
      id = some (read_id value).0;
      raw_id = or_else (read_id value).1 parsed.raw_id;
    }
  ]

  unfoldable pub parse_label : CkRawAttr → ParsedAttributes → Result Error ParsedAttributes
  unfolding val_bytes
  parse_label a parsed = elim (val_bytes a) [
    | none ↦ ok parsed
    | some value ↦ elim (k.service.from_utf8 value) [
      | none ↦ err Error.string_parse
      | some label ↦ ok (record parsed { id = or_else parsed.id (some label) })
    ]
  ]

  unfoldable pub parse_key_type : CkRawAttr → ParsedAttributes → Result Error ParsedAttributes
  unfolding read_value
  parse_key_type a parsed = elim (read_value a) [
    | none ↦ err (invalid_attribute Constants.cka_key_type)
    | some val ↦ ok (record parsed { key_type = some val })
  ]

  -- The body of the loop, by the type of the attribute.
  unfoldable pub parse_attr : CkRawAttr → ParsedAttributes → Result Error ParsedAttributes
  unfolding parse_class parse_id parse_label parse_key_type is_set val_bytes read_value
  parse_attr a parsed =
      select a.type_
        ((Constants.cka_class, parse_class a parsed)
          ∷ (Constants.cka_id, ok (parse_id a parsed))
          ∷ (Constants.cka_label, parse_label a parsed)
          ∷ (Constants.cka_key_type, parse_key_type a parsed)
          ∷ (Constants.cka_ec_params, ok (record parsed { ec_params = val_bytes a }))
          ∷ (Constants.cka_value, ok (record parsed { value = val_bytes a }))
          ∷ (Constants.cka_sign, ok (record parsed { sign = parsed.sign || is_set a }))
          ∷ (Constants.cka_encrypt, ok (record parsed { encrypt = parsed.encrypt || is_set a }))
          ∷ (Constants.cka_decrypt, ok (record parsed { decrypt = parsed.decrypt || is_set a }))
          ∷ (Constants.cka_public_exponent, ok (record parsed { public_exponent = val_bytes a }))
          ∷ (Constants.cka_prime_1, ok (record parsed { prime_p = val_bytes a }))
          ∷ (Constants.cka_prime_2, ok (record parsed { prime_q = val_bytes a }))
          ∷ (Constants.cka_value_len, ok (record parsed { value_len = read_value a }))
          ∷ (Constants.cka_modulus_bits, ok (record parsed { modulus_bits = read_value a }))
          ∷ [])
        (ok parsed)

  unfoldable pub parse_from : List CkRawAttr → ParsedAttributes → Result Error ParsedAttributes
  unfolding parse_attr
  parse_from [] parsed = ok parsed
  parse_from (a ∷ template) parsed = parse_attr a parsed >>= parse_from template

  unfoldable pub parse_attributes : List CkRawAttr → Result Error ParsedAttributes
  unfolding parse_from
  parse_attributes template = parse_from template default
