-- ===== src/Db/Objects/Make.antt =====
-- `from_key_data` and `from_cert_data` with their helpers (pkcs11/src/backend/db/object.rs).
use nethsm_pkcs.Common.{
  ℕ, ◌/◌, String, Option, none, some, List, [], ◌∷◌, map, Result, ok, err, ok_or, Assoc, length,
  ◌>>=◌ as bind,
}
use nethsm_pkcs.Constants
use nethsm_pkcs.Errors.{
  ObjectKind, Error, key_field, private_key, public_key, secret_key, certificate,
}
use nethsm_pkcs.Errors
use nethsm_pkcs.Service.Keys.{PublicKey, KeyService}
use nethsm_pkcs.Mechanism.{KeyMechanism, KeyType}
use nethsm_pkcs.Mechanism.Api.{from_key_mechanism}
use nethsm_pkcs.Mechanism.Raw.{ck_type}
use nethsm_pkcs.Mechanism.Sizes.{key_size}
use nethsm_pkcs.Login.{Run, returns, panics, ◌>>=◌}
use nethsm_pkcs.Db.{Attr, Object}
use nethsm_pkcs.Db.Objects.{
  from_ck_mechanism_type_vec, put_all, KeyData, key_type_to_asn1, ec_key_type, pad_to,
}
use nethsm_pkcs.Db.Objects.Values.{
  rsa_attrs, ec_attrs, generic_attrs, common_attrs, public_attrs, certificate_attrs,
}

-- `?` on a result, in code that may panic.
abbrev pub on_ok :
    {A B : Type 0} → Result Error A → (A → Run (Result Error B)) → Run (Result Error B)
on_ok (ok a) f = f a
on_ok (err e) f = returns (err e)

unfoldable pub configure_generic : KeyData
unfolding generic_attrs
configure_generic = record {
  key_type = Constants.ckk_generic_secret;
  key_size = none;
  attrs = put_all generic_attrs [];
}

abbrev pub mechanism_types : List KeyMechanism → List ℕ
mechanism_types mechanisms = map (λ (m : KeyMechanism). ck_type (from_key_mechanism m)) mechanisms

-- The private object of a key, and the public one.
unfoldable pub private_object : String → Assoc Attr → KeyData → List KeyMechanism → Object
private_object id attrs key_attrs mechanisms = record {
  attrs = attrs;
  kind = private_key;
  id = id;
  size = key_attrs.key_size;
  mechanisms = mechanisms;
}

unfoldable pub public_object : String → Assoc Attr → KeyData → Object
unfolding public_attrs
public_object id attrs key_attrs = record {
  attrs = put_all (public_attrs key_attrs.key_type) attrs;
  kind = public_key;
  id = id;
  size = key_attrs.key_size;
  mechanisms = [];
}

-- The end of `from_key_data`, from the key's own attributes on.
unfoldable pub objects_of : PublicKey → String → List ℕ → List ℕ → KeyData → List Object
unfolding common_attrs private_object public_object
objects_of key_data id ck_id label key_attrs =
    let attrs =
      put_all
        ((
          Constants.cka_allowed_mechanisms,
          from_ck_mechanism_type_vec (mechanism_types key_data.mechanisms),
        )
          ∷ [])
        (put_all key_attrs.attrs (put_all (common_attrs ck_id label) [])) in
    let private_ = private_object id attrs key_attrs key_data.mechanisms in
    elim key_data.type_ [
      | KeyType.generic ↦ record private_ { kind = secret_key } ∷ []
      | _ ↦ public_object id attrs key_attrs ∷ private_ ∷ []
    ]

module _ {W : Type 0} (k : KeyService W) where
  unfoldable pub ck_id_of : String → Option (List ℕ) → List ℕ
  ck_id_of id none = k.to_utf8 id
  ck_id_of id (some raw_id) = raw_id

  base64_bytes : String → Result Error (List ℕ)
  base64_bytes text = ok_or (k.service.base64_decode text) Errors.base64

  unfoldable pub configure_rsa : PublicKey → Result Error KeyData
  unfolding rsa_attrs base64_bytes
  configure_rsa key_data = bind (ok_or key_data.public_ (key_field "public")) (λ public_.
      bind (ok_or public_.modulus (key_field "modulus")) (λ modulus_text.
        bind (ok_or public_.public_exponent (key_field "public_exponent")) (λ exponent_text.
          bind (base64_bytes modulus_text) (λ modulus.
            bind (base64_bytes exponent_text) (λ public_exponent. ok (record {
              key_type = Constants.ckk_rsa;
              key_size = some (length modulus);
              attrs = put_all (rsa_attrs modulus public_exponent) [];
            }))))))

  -- `unwrap` panics where the encoding of the point fails.
  unfoldable pub configure_ec : PublicKey → Run (Result Error KeyData)
  unfolding ec_attrs base64_bytes ec_key_type
  configure_ec key_data = on_ok (ok_or key_data.public_ (key_field "public")) (λ public_.
      on_ok (ok_or public_.data_ (key_field "data")) (λ ec_points.
        on_ok (ok_or (key_size key_data.type_) (key_field "type")) (λ size.
          on_ok (base64_bytes ec_points) (λ ec_point_bytes.
            elim (k.octet_string_to_der (pad_to (size / 8) ec_point_bytes)) [
              | none ↦ panics
              | some encoded_points ↦
                  on_ok (ok_or (key_type_to_asn1 key_data.type_) (key_field "Unsupported key type"))
                    (λ key_params. on_ok (ok_or (k.oid_to_der key_params) Errors.der) (λ ec_params.
                      returns (
                        ok (record {
                          key_type = ec_key_type key_data.type_;
                          key_size = some size;
                          attrs =
                              put_all
                                (ec_attrs (ec_key_type key_data.type_) ec_params encoded_points) [];
                        }))))
            ]))))

  unfoldable pub configure : PublicKey → Run (Result Error KeyData)
  unfolding configure_rsa configure_ec configure_generic
  configure key_data = elim key_data.type_ [
    | KeyType.rsa ↦ returns (configure_rsa key_data)
    | KeyType.generic ↦ returns (ok configure_generic)
    | _ ↦ configure_ec key_data
  ]

  unfoldable pub from_key_data :
      PublicKey → String → Option (List ℕ) → Run (Result Error (List Object))
  unfolding configure ck_id_of objects_of
  from_key_data key_data id raw_id = do
    key_attrs ← configure key_data
    returns
        (bind key_attrs (λ a. ok (objects_of key_data id (ck_id_of id raw_id) (k.to_utf8 id) a)))

  unfoldable pub from_cert_data : List ℕ → String → Option (List ℕ) → Result Error Object
  unfolding certificate_attrs ck_id_of
  from_cert_data cert key_id raw_id =
      bind (ok_or (k.certificate_from_pem cert) Errors.der) (λ parsed.
        bind (ok_or parsed.encoded Errors.der) (λ cert_der.
          bind (ok_or parsed.subject Errors.der) (λ subject.
            bind (ok_or parsed.issuer Errors.der) (λ issuer. ok (record {
              attrs =
                  put_all
                    (certificate_attrs (ck_id_of key_id raw_id) (k.to_utf8 key_id) cert_der subject
                      issuer)
                    [];
              kind = certificate;
              id = key_id;
              size = some (length cert_der);
              mechanisms = [];
            })))))
