-- ===== src/Keys/Generate.antt =====
-- Generating keys (`generate_key_from_template` of pkcs11/src/backend/key.rs).
use nethsm_pkcs.Common.{
  ℕ, ◌%◌, ◌^◌, String, Option, none, some, List, Result, ok, err, ok_or, ◌>>=◌ as bind,
}
use nethsm_pkcs.Constants
use nethsm_pkcs.Errors.{UserMode, Error, invalid_attribute}
use nethsm_pkcs.Errors
use nethsm_pkcs.Mechanism.{Mechanism, KeyType}
use nethsm_pkcs.Mechanism.Api.{get_all_possible_api_mechs, to_key_type}
use nethsm_pkcs.Service.Keys.{KeyGenerateRequestData, KeyService}
use nethsm_pkcs.Login.{LoginCtx, returns, ◌>>=◌}
use nethsm_pkcs.Db.{Db}
use nethsm_pkcs.Db.Attributes.{CkRawAttr}
use nethsm_pkcs.Keys.{ParsedAttributes, or_else, parse_attributes}
use nethsm_pkcs.Keys.Create.{key_type_from_params, extract_key_id_location_header}
use nethsm_pkcs.Keys.Fetch.{Entries, Outcome, call_api, fetch_key}

-- `len as i32`, as the 32 bits that are kept.
abbrev pub i32_mod : ℕ
i32_mod = 2 ^ 32

own_length : ParsedAttributes → Option ℕ
own_length parsed = or_else parsed.value_len parsed.modulus_bits

unfoldable pub key_length : ParsedAttributes → Option ParsedAttributes → Option ℕ
unfolding own_length
key_length parsed none = own_length parsed
key_length parsed (some public_) = or_else (own_length parsed) (own_length public_)

truncated : Option ℕ → Option ℕ
truncated none = none
truncated (some len) = some (len % i32_mod)

module _ {W : Type 0} (k : KeyService W) where
  unfoldable pub parse_public : Option (List CkRawAttr) → Result Error (Option ParsedAttributes)
  unfolding parse_attributes
  parse_public none = ok none
  parse_public (some template) = bind (parse_attributes k template) (λ parsed. ok (some parsed))

  -- The type of the mechanism, unless the public template names a curve.
  unfoldable pub generated_type : Mechanism → Option ParsedAttributes → Result Error KeyType
  unfolding key_type_from_params
  generated_type mechanism none = ok (to_key_type mechanism)
  generated_type mechanism (some public_) = elim public_.ec_params [
    | none ↦ ok (to_key_type mechanism)
    | some ec_params ↦
        ok_or (key_type_from_params k ec_params) (invalid_attribute Constants.cka_ec_params)
  ]

  unfoldable pub generate_request :
      ParsedAttributes → Option ParsedAttributes → Mechanism → Result Error KeyGenerateRequestData
  unfolding generated_type key_length truncated
  generate_request parsed public_ mechanism = bind (generated_type mechanism public_) (λ key_type.
      ok (record {
        mechanisms = get_all_possible_api_mechs mechanism;
        type_ = key_type;
        id = parsed.id;
        length = truncated (key_length parsed public_);
      }))

  unfoldable pub fetch_generated :
      ParsedAttributes → Option String → LoginCtx → Db → W → Outcome W Entries
  unfolding extract_key_id_location_header fetch_key
  fetch_generated parsed location c db w = elim (extract_key_id_location_header location) [
    | err e ↦ returns (err e, db, w)
    | ok id ↦ fetch_key k id parsed.raw_id c db w
  ]

  unfoldable pub request_key :
      ParsedAttributes → Option ParsedAttributes → Mechanism → LoginCtx → Db → W → Outcome W Entries
  unfolding generate_request call_api fetch_generated
  request_key parsed public_ mechanism c db w = elim (generate_request parsed public_ mechanism) [
    | err e ↦ returns (err e, db, w)
    | ok request ↦ do
      (response, w') ← call_api k (k.keys_generate_post request) UserMode.administrator c w
      elim response [
        | err e ↦ returns (err (Errors.api e), db, w')
        | ok location ↦ fetch_generated parsed location c db w'
      ]
  ]

  -- The private template and the public one.
  unfoldable pub both_parsed :
      List CkRawAttr
      → Option (List CkRawAttr)
      → Result Error (ParsedAttributes × Option ParsedAttributes)
  unfolding parse_attributes parse_public
  both_parsed template public_template =
      bind (parse_attributes k template)
        (λ parsed. bind (parse_public public_template) (λ public_. ok (parsed, public_)))

  unfoldable pub generate_key_from_template :
      List CkRawAttr → Option (List CkRawAttr) → Mechanism → LoginCtx → Db → W → Outcome W Entries
  unfolding both_parsed request_key
  generate_key_from_template template public_template mechanism c db w =
      elim (both_parsed template public_template) [
        | err e ↦ returns (err e, db, w)
        | ok both ↦ request_key both.0 both.1 mechanism c db w
      ]
