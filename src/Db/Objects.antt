-- ===== src/Db/Objects.antt =====
-- The objects that the data of a key or a certificate becomes (pkcs11/src/backend/db/object.rs).
pub mod Values
pub mod Make
pub mod Secrecy
use nethsm_pkcs.Common.{
  ℕ, zero, suc, ◌+◌, ◌-◌, ◌*◌, ◌/◌, ◌%◌, ◌^◌, String, Option, none, some, List, [], ◌∷◌, ◌++◌, map,
  Result, ok, err, ok_or, Assoc, insert, length, replicate, select,
}
use nethsm_pkcs.Constants
use nethsm_pkcs.Errors.{
  ObjectKind, private_key, public_key, secret_key, certificate, other, Error, key_field,
}
use nethsm_pkcs.Errors
use nethsm_pkcs.Service.{Service}
use nethsm_pkcs.Service.Keys.{
  ObjectIdentifier, secp_224_r_1, secp_256_r_1, secp_384_r_1, secp_521_r_1, id_ed_25519, PublicKey,
  KeyPublicData, Certificate, KeyService,
}
use nethsm_pkcs.Mechanism.{KeyMechanism, KeyType}
use nethsm_pkcs.Mechanism
use nethsm_pkcs.Mechanism.Api.{from_key_mechanism}
use nethsm_pkcs.Mechanism.Raw.{ck_type}
use nethsm_pkcs.Mechanism.Sizes.{key_size}
use nethsm_pkcs.Login.{Run, returns, panics, runs_out, ◌>>=◌}
use nethsm_pkcs.Db.{
  Attr, bytes, ck_bbool, ck_key_type, ck_cert_type, ck_cert_category, ck_mechanism_type,
  ck_object_class, ck_ulong, Object,
}
use nethsm_pkcs.Db.Attributes.{ck_unavailable_information}

-- `to_le_bytes` of an integer of the given number of bytes.
unfoldable pub to_le_bytes : ℕ → ℕ → List ℕ
to_le_bytes zero src = []
to_le_bytes (suc width) src = src % 256 ∷ to_le_bytes width (src / 256)

abbrev pub ck_true : Attr
ck_true = ck_bbool (1 ∷ [])

abbrev pub ck_false : Attr
ck_false = ck_bbool (0 ∷ [])

abbrev pub from_ck_key_type : ℕ → Attr
from_ck_key_type src = ck_key_type (to_le_bytes 8 src)

abbrev pub from_ck_cert_type : ℕ → Attr
from_ck_cert_type src = ck_cert_type (to_le_bytes 8 src)

abbrev pub from_ck_cert_category : ℕ → Attr
from_ck_cert_category src = ck_cert_category (to_le_bytes 8 src)

abbrev pub from_ck_mechanism_type : ℕ → Attr
from_ck_mechanism_type src = ck_mechanism_type (to_le_bytes 8 src)

abbrev pub flat_le : List ℕ → List ℕ
flat_le [] = []
flat_le (x ∷ src) = to_le_bytes 8 x ++ flat_le src

abbrev pub from_ck_mechanism_type_vec : List ℕ → Attr
from_ck_mechanism_type_vec src = bytes (flat_le src)

abbrev pub from_ck_object_class : ℕ → Attr
from_ck_object_class src = ck_object_class (to_le_bytes 8 src)

abbrev pub from_ck_ulong : ℕ → Attr
from_ck_ulong src = ck_ulong (to_le_bytes 8 src)

-- `From<CK_OBJECT_CLASS> for ObjectKind`.
unfoldable pub kind_from_class : ℕ → ObjectKind
kind_from_class src =
    select src
      ((Constants.cko_private_key, private_key)
        ∷ (Constants.cko_public_key, public_key)
        ∷ (Constants.cko_secret_key, secret_key)
        ∷ (Constants.cko_certificate, certificate)
        ∷ [])
      other

-- Insertions in a row, and `extend`.
unfoldable pub put_all : Assoc Attr → Assoc Attr → Assoc Attr
put_all [] attrs = attrs
put_all ((type_, attr) ∷ more) attrs = put_all more (insert type_ attr attrs)

pub record KeyData : Type 0 where
  pub key_type : ℕ
  pub key_size : Option ℕ
  pub attrs : Assoc Attr

-- `key_type_to_asn1` of backend/key.rs.
unfoldable pub key_type_to_asn1 : KeyType → Option ObjectIdentifier
key_type_to_asn1 KeyType.ec_p224 = some secp_224_r_1
key_type_to_asn1 KeyType.ec_p256 = some secp_256_r_1
key_type_to_asn1 KeyType.ec_p384 = some secp_384_r_1
key_type_to_asn1 KeyType.ec_p521 = some secp_521_r_1
key_type_to_asn1 KeyType.curve25519 = some id_ed_25519
key_type_to_asn1 _ = none

ec_key_type : KeyType → ℕ
ec_key_type KeyType.curve25519 = Constants.ckk_ec_edwards
ec_key_type _ = Constants.ckk_ec

-- The loop that inserts zeros in front.
abbrev pub pad_to : ℕ → List ℕ → List ℕ
pad_to size value = replicate (size - length value) 0 ++ value
