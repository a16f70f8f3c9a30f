-- ===== src/Db/Objects/Values.antt =====
-- The attributes that `configure_rsa`, `configure_ec`, `configure_generic`, `from_key_data` and
-- `from_cert_data` set (pkcs11/src/backend/db/object.rs).
use nethsm_pkcs.Common.{ℕ, ◌*◌, List, [], ◌∷◌, Assoc, length}
use nethsm_pkcs.Constants
use nethsm_pkcs.Db.{Attr, bytes}
use nethsm_pkcs.Db.Attributes.{ck_unavailable_information}
use nethsm_pkcs.Db.Objects.{
  ck_true, ck_false, from_ck_key_type, from_ck_cert_type, from_ck_cert_category,
  from_ck_mechanism_type, from_ck_object_class, from_ck_ulong,
}

unfoldable pub rsa_attrs : List ℕ → List ℕ → Assoc Attr
rsa_attrs modulus public_exponent =
    (Constants.cka_key_type, from_ck_key_type Constants.ckk_rsa)
    ∷ (Constants.cka_derive, ck_false)
    ∷ (Constants.cka_decrypt, ck_true)
    ∷ (Constants.cka_sign, ck_true)
    ∷ (Constants.cka_sign_recover, ck_false)
    ∷ (Constants.cka_unwrap, ck_false)
    ∷ (Constants.cka_wrap_with_trusted, ck_false)
    ∷ (Constants.cka_modulus, bytes modulus)
    ∷ (Constants.cka_public_exponent, bytes public_exponent)
    ∷ (Constants.cka_modulus_bits, from_ck_ulong (length modulus * 8))
    ∷ []

unfoldable pub ec_attrs : ℕ → List ℕ → List ℕ → Assoc Attr
ec_attrs key_type ec_params encoded_points =
    (Constants.cka_key_type, from_ck_key_type key_type)
    ∷ (Constants.cka_derive, ck_true)
    ∷ (Constants.cka_decrypt, ck_false)
    ∷ (Constants.cka_sign, ck_true)
    ∷ (Constants.cka_sign_recover, ck_false)
    ∷ (Constants.cka_unwrap, ck_false)
    ∷ (Constants.cka_wrap_with_trusted, ck_false)
    ∷ (Constants.cka_ec_params, bytes ec_params)
    ∷ (Constants.cka_ec_point, bytes encoded_points)
    ∷ []

unfoldable pub generic_attrs : Assoc Attr
generic_attrs =
    (Constants.cka_class, from_ck_object_class Constants.cko_secret_key)
    ∷ (Constants.cka_key_type, from_ck_key_type Constants.ckk_generic_secret)
    ∷ (Constants.cka_derive, ck_false)
    ∷ (Constants.cka_decrypt, ck_true)
    ∷ (Constants.cka_encrypt, ck_true)
    ∷ (Constants.cka_sign, ck_false)
    ∷ (Constants.cka_sign_recover, ck_false)
    ∷ (Constants.cka_unwrap, ck_false)
    ∷ (Constants.cka_wrap_with_trusted, ck_false)
    ∷ (Constants.cka_value_len, from_ck_ulong 0)
    ∷ (Constants.cka_always_authenticate, ck_false)
    ∷ (Constants.cka_verify, ck_false)
    ∷ []

unfoldable pub common_attrs : List ℕ → List ℕ → Assoc Attr
common_attrs ck_id label =
    (Constants.cka_id, bytes ck_id)
    ∷ (Constants.cka_class, from_ck_object_class Constants.cko_private_key)
    ∷ (Constants.cka_label, bytes label)
    ∷ (Constants.cka_key_gen_mechanism, from_ck_mechanism_type ck_unavailable_information)
    ∷ (Constants.cka_local, ck_false)
    ∷ (Constants.cka_modifiable, ck_false)
    ∷ (Constants.cka_token, ck_true)
    ∷ (Constants.cka_always_authenticate, ck_false)
    ∷ (Constants.cka_sensitive, ck_true)
    ∷ (Constants.cka_always_sensitive, ck_true)
    ∷ (Constants.cka_extractable, ck_false)
    ∷ (Constants.cka_never_extractable, ck_true)
    ∷ (Constants.cka_private, ck_true)
    ∷ (Constants.cka_verify_recover, ck_false)
    ∷ (Constants.cka_value, bytes [])
    ∷ (Constants.cka_trusted, ck_false)
    ∷ (Constants.cka_wrap, ck_false)
    ∷ []

unfoldable pub public_attrs : ℕ → Assoc Attr
public_attrs key_type =
    (Constants.cka_allowed_mechanisms, bytes [])
    ∷ (Constants.cka_class, from_ck_object_class Constants.cko_public_key)
    ∷ (Constants.cka_key_type, from_ck_key_type key_type)
    ∷ (Constants.cka_private, ck_false)
    ∷ (Constants.cka_sensitive, ck_false)
    ∷ (Constants.cka_always_sensitive, ck_false)
    ∷ (Constants.cka_extractable, ck_false)
    ∷ (Constants.cka_never_extractable, ck_false)
    ∷ (Constants.cka_decrypt, ck_false)
    ∷ (Constants.cka_encrypt, ck_false)
    ∷ (Constants.cka_sign, ck_false)
    ∷ (Constants.cka_verify, ck_false)
    ∷ (Constants.cka_derive, ck_false)
    ∷ (Constants.cka_sign_recover, ck_false)
    ∷ (Constants.cka_unwrap, ck_false)
    ∷ (Constants.cka_wrap, ck_false)
    ∷ (Constants.cka_wrap_with_trusted, ck_false)
    ∷ []

unfoldable pub certificate_attrs : List ℕ → List ℕ → List ℕ → List ℕ → List ℕ → Assoc Attr
certificate_attrs ck_id label cert_der subject issuer =
    (Constants.cka_id, bytes ck_id)
    ∷ (Constants.cka_class, from_ck_object_class Constants.cko_certificate)
    ∷ (Constants.cka_label, bytes label)
    ∷ (Constants.cka_key_gen_mechanism, from_ck_mechanism_type ck_unavailable_information)
    ∷ (Constants.cka_local, ck_true)
    ∷ (Constants.cka_modifiable, ck_false)
    ∷ (Constants.cka_token, ck_true)
    ∷ (Constants.cka_always_authenticate, ck_false)
    ∷ (Constants.cka_sensitive, ck_false)
    ∷ (Constants.cka_always_sensitive, ck_false)
    ∷ (Constants.cka_extractable, ck_false)
    ∷ (Constants.cka_never_extractable, ck_true)
    ∷ (Constants.cka_private, ck_false)
    ∷ (Constants.cka_certificate_type, from_ck_cert_type Constants.ckc_x_509)
    ∷ (Constants.cka_value, bytes cert_der)
    ∷ (Constants.cka_value_len, from_ck_ulong (length cert_der))
    ∷ (Constants.cka_subject, bytes subject)
    ∷ (Constants.cka_issuer, bytes issuer)
    ∷ (Constants.cka_trusted, ck_true)
    ∷ (Constants.cka_certificate_type, from_ck_cert_type Constants.ckc_x_509)
    ∷ (Constants.cka_certificate_category, from_ck_cert_category 0)
    ∷ []
