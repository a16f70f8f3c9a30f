-- ===== src/Keys/Create.antt =====
-- Uploading keys and certificates (`create_key_from_template`, `upload_certificate`,
-- `key_type_from_params` and `extract_key_id_location_header` of pkcs11/src/backend/key.rs).
use Prim.Native.Char.{code}
use text.Mathlib.Text.{◌==◌ as str_eq}
use nethsm_pkcs.Common.{
  ℕ, String, Bool, true, false, Option, none, some, List, [], ◌∷◌, ◌++◌, Result, ok, err, ◌||◌,
  select, ok_or, unwrap_or, ◌>>=◌ as bind, if◌then◌else◌, ◌==◌,
}
use nethsm_pkcs.Constants
use nethsm_pkcs.Errors.{
  ObjectKind, certificate, UserMode, Error, missing_attribute, invalid_attribute,
  object_class_not_supported, library_not_initialized, invalid_data,
}
use nethsm_pkcs.Errors
use nethsm_pkcs.Mechanism.{Mechanism, MechMode, KeyMechanism, KeyType}
use nethsm_pkcs.Mechanism.Api.{from_key_type, to_api_mech}
use nethsm_pkcs.Mechanism.Sizes.{key_size}
use nethsm_pkcs.Service.Keys.{
  ObjectIdentifier, secp_224_r_1, secp_256_r_1, secp_384_r_1, secp_521_r_1, id_ed_25519, unnamed,
  KeyPrivateData, PrivateKey, KeyService,
}
use nethsm_pkcs.Login.{LoginCtx, Run, returns, ◌>>=◌}
use nethsm_pkcs.Db.Attributes.{CkRawAttr}
use nethsm_pkcs.Db.Objects.{pad_to}
use nethsm_pkcs.Keys.{ParsedAttributes, parse_attributes}
use nethsm_pkcs.Keys.Fetch.{call_api}

-- The statics DEVICE (the option `enable_set_attribute_value`, `none` before initialization) and
-- KEY_ALIASES (data.rs).
pub record Aliases : Type 0 where
  pub enabled : Option Bool
  pub names : List (String × String)

unfoldable pub alias_of : String → List (String × String) → Option String
alias_of name [] = none
alias_of name ((key, value) ∷ names) = if str_eq key name then some value else alias_of name names

-- The identifier, the kind and the raw identifier of what was uploaded.
abbrev pub KeyInfo : Type 0
KeyInfo = String × ObjectKind × Option (List ℕ)

named_type : ObjectIdentifier → Option KeyType
named_type id_ed_25519 = some KeyType.curve25519
named_type secp_224_r_1 = some KeyType.ec_p224
named_type secp_256_r_1 = some KeyType.ec_p256
named_type secp_384_r_1 = some KeyType.ec_p384
named_type secp_521_r_1 = some KeyType.ec_p521
named_type (unnamed bytes) = none

-- The last part of `split('/')`.
unfoldable pub has_slash : String → Bool
has_slash String.[] = false
has_slash (String.◌∷◌ c s) = code c == 47 || has_slash s

unfoldable pub last_segment : String → String
unfolding has_slash
last_segment String.[] = String.[]
last_segment (String.◌∷◌ c s) =
    let last = last_segment s in
    if has_slash s then last else (if code c == 47 then s else String.◌∷◌ c s)

-- The first part of `split('?')`.
unfoldable pub before_query : String → String
before_query String.[] = String.[]
before_query (String.◌∷◌ c s) = if code c == 63 then String.[] else String.◌∷◌ c (before_query s)

unfoldable pub extract_key_id_location_header : Option String → Result Error String
unfolding last_segment before_query
extract_key_id_location_header none = err invalid_data
extract_key_id_location_header (some location_header) =
    ok (before_query (last_segment location_header))

-- The mechanisms of the type for each of the wanted uses.
allowed : Bool → MechMode → Mechanism → List KeyMechanism
allowed false mode mech = []
allowed true mode mech = elim (to_api_mech mech mode) [ none ↦ [] | some m ↦ m ∷ [] ]

unfoldable pub key_mechanisms : ParsedAttributes → List Mechanism → List KeyMechanism
unfolding allowed
key_mechanisms parsed [] = []
key_mechanisms parsed (mech ∷ mechs) =
    allowed parsed.sign MechMode.sign mech
    ++ (allowed parsed.encrypt MechMode.encrypt mech
        ++ (allowed parsed.decrypt MechMode.decrypt mech ++ key_mechanisms parsed mechs))

abbrev data_only : String → KeyPrivateData
data_only text = record {
  data_ = some text;
  prime_p = none;
  prime_q = none;
  public_exponent = none;
}

module _ {W : Type 0} (k : KeyService W) where
  unfoldable pub key_type_from_params : List ℕ → Option KeyType
  unfolding named_type
  key_type_from_params params = elim (k.oid_from_der params) [
    | none ↦ none
    | some oid ↦ named_type oid
  ]

  rsa_key : ParsedAttributes → Result Error (KeyType × KeyPrivateData)
  rsa_key parsed = bind (ok_or parsed.prime_p (missing_attribute Constants.cka_prime_1)) (λ prime_p.
      bind (ok_or parsed.prime_q (missing_attribute Constants.cka_prime_2)) (λ prime_q.
        bind (ok_or parsed.public_exponent (missing_attribute Constants.cka_public_exponent))
          (λ public_exponent. ok (
            KeyType.rsa,
            record {
              data_ = none;
              prime_p = some (k.service.base64_encode prime_p);
              prime_q = some (k.service.base64_encode prime_q);
              public_exponent = some (k.service.base64_encode public_exponent);
            },
          ))))

  ec_key : ParsedAttributes → Result Error (KeyType × KeyPrivateData)
  unfolding key_type_from_params
  ec_key parsed =
      bind (ok_or parsed.ec_params (missing_attribute Constants.cka_ec_params)) (λ params.
        bind (ok_or (key_type_from_params params) (invalid_attribute Constants.cka_ec_params))
          (λ ec_type.
            bind (ok_or (key_size ec_type) (invalid_attribute Constants.cka_ec_params)) (λ size.
              bind (ok_or parsed.value (missing_attribute Constants.cka_value))
                (λ value. ok (ec_type, data_only (k.service.base64_encode (pad_to size value)))))))

  generic_key : ParsedAttributes → Result Error (KeyType × KeyPrivateData)
  generic_key parsed =
      bind (ok_or parsed.value (missing_attribute Constants.cka_value))
        (λ value. ok (KeyType.generic, data_only (k.service.base64_encode value)))

  unfoldable pub key_of_type : ParsedAttributes → ℕ → Result Error (KeyType × KeyPrivateData)
  unfolding rsa_key ec_key generic_key
  key_of_type parsed key_type =
      select key_type
        ((Constants.ckk_rsa, rsa_key parsed)
          ∷ (Constants.ckk_ec, ec_key parsed)
          ∷ (Constants.ckk_ec_edwards, ec_key parsed)
          ∷ (Constants.ckk_generic_secret, generic_key parsed)
          ∷ [])
        (err (invalid_attribute Constants.cka_key_type))

  -- The key that is uploaded.
  unfoldable pub private_key_of : ParsedAttributes → Result Error PrivateKey
  unfolding key_of_type key_mechanisms
  private_key_of parsed =
      bind (ok_or parsed.key_type (invalid_attribute Constants.cka_key_type)) (λ key_type.
        bind (key_of_type parsed key_type) (λ (made : KeyType × KeyPrivateData). ok (record {
          mechanisms = key_mechanisms parsed (from_key_type made.0);
          type_ = made.0;
          private_ = made.1;
        })))

  -- Under the given identifier, or under one that the NetHSM chooses.
  upload_key : Option String → PrivateKey → LoginCtx → W → Run (Result Error String × W)
  unfolding call_api extract_key_id_location_header
  upload_key (some id) key c w = do
    (response, w') ← call_api k (k.keys_key_id_put id key) UserMode.administrator c w
    elim response [ ok done ↦ returns (ok id, w') | err e ↦ returns (err (Errors.api e), w') ]
  upload_key none key c w = do
    (response, w') ← call_api k (k.keys_post key) UserMode.administrator c w
    elim response [
      | ok location ↦ returns (extract_key_id_location_header location, w')
      | err e ↦ returns (err (Errors.api e), w')
    ]

  unfoldable pub real_name : Bool → String → Aliases → String
  real_name false id aliases = id
  real_name true id aliases = unwrap_or (alias_of id aliases.names) id

  unfoldable pub put_certificate :
      List ℕ → String → ParsedAttributes → LoginCtx → W → Run (Result Error KeyInfo × W)
  unfolding call_api
  put_certificate cert id parsed c w = elim (k.pem_encode cert) [
    | none ↦ returns (err Errors.pem, w)
    | some body ↦ do
      (response, w') ← call_api k (k.keys_key_id_cert_put id body) UserMode.administrator c w
      elim response [
        | ok done ↦ returns (ok (id, certificate, parsed.raw_id), w')
        | err e ↦ returns (err (Errors.api e), w')
      ]
  ]

  unfoldable pub upload_certificate :
      ParsedAttributes → Aliases → LoginCtx → W → Run (Result Error KeyInfo × W)
  unfolding put_certificate real_name alias_of
  upload_certificate parsed aliases c w = elim parsed.value [
    | none ↦ returns (err (missing_attribute Constants.cka_value), w)
    | some cert ↦ elim parsed.id [
      | none ↦ returns (err (missing_attribute Constants.cka_id), w)
      | some id ↦ elim aliases.enabled [
        | none ↦ returns (err library_not_initialized, w)
        | some enabled ↦ put_certificate cert (real_name enabled id aliases) parsed c w
      ]
    ]
  ]

  create_key : ParsedAttributes → ObjectKind → LoginCtx → W → Run (Result Error KeyInfo × W)
  unfolding private_key_of upload_key
  create_key parsed key_class c w = elim (private_key_of parsed) [
    | err e ↦ returns (err e, w)
    | ok key ↦ do
      (result, w') ← upload_key parsed.id key c w
      returns (bind result (λ id. ok (id, key_class, parsed.raw_id)), w')
  ]

  -- No kind is both of those that `key_class` is tested for, so no class is refused by the test.
  create_parsed : ParsedAttributes → Aliases → LoginCtx → W → Run (Result Error KeyInfo × W)
  unfolding upload_certificate create_key
  create_parsed parsed aliases c w = elim parsed.key_class [
    | none ↦ returns (err object_class_not_supported, w)
    | some certificate ↦ upload_certificate parsed aliases c w
    | some key_class ↦ create_key parsed key_class c w
  ]

  unfoldable pub create_key_from_template :
      List CkRawAttr → Aliases → LoginCtx → W → Run (Result Error KeyInfo × W)
  unfolding parse_attributes create_parsed
  create_key_from_template template aliases c w = elim (parse_attributes k template) [
    | err e ↦ returns (err e, w)
    | ok parsed ↦ create_parsed parsed aliases c w
  ]
