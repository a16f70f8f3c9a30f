-- ===== src/Mechanism/Api.antt =====
-- Mechanisms under the names of the NetHSM API (backend/mechanism.rs).
use nethsm_pkcs.Common.{false, Option, none, some, List, [], ◌∷◌}
use nethsm_pkcs.Mechanism.{
  md5, sha1, sha224, sha256, sha384, sha512, Mechanism, rsa_pkcs, rsa_pkcs_oaep, rsa_pkcs_pss,
  rsa_x509, generate_generic, generate_aes, generate_rsa, generate_ec, generate_ed, MechMode, sign,
  encrypt, decrypt, KeyMechanism, aes_decryption_cbc, aes_encryption_cbc, ecdsa_signature,
  ed_dsa_signature, rsa_decryption_oaep_md5, rsa_decryption_oaep_sha1, rsa_decryption_oaep_sha224,
  rsa_decryption_oaep_sha256, rsa_decryption_oaep_sha384, rsa_decryption_oaep_sha512,
  rsa_signature_pss_md5, rsa_signature_pss_sha1, rsa_signature_pss_sha224, rsa_signature_pss_sha256,
  rsa_signature_pss_sha384, rsa_signature_pss_sha512, rsa_decryption_pkcs1, rsa_decryption_raw,
  rsa_signature_pkcs1, KeyType, generic, rsa, ec_p224, ec_p256, ec_p384, ec_p521, curve25519,
  SignMode, pss_sha1, pss_sha224, pss_sha256, pss_sha384, pss_sha512, EncryptMode, DecryptMode,
  oaep_md5, oaep_sha1, oaep_sha224, oaep_sha256, oaep_sha384, oaep_sha512,
}

-- `From<KeyMechanism>`.
unfoldable pub from_key_mechanism : KeyMechanism → Mechanism
from_key_mechanism aes_decryption_cbc = Mechanism.aes_cbc none
from_key_mechanism aes_encryption_cbc = Mechanism.aes_cbc none
from_key_mechanism ecdsa_signature = Mechanism.ecdsa none
from_key_mechanism ed_dsa_signature = Mechanism.ed_dsa
from_key_mechanism rsa_decryption_oaep_md5 = rsa_pkcs_oaep md5
from_key_mechanism rsa_decryption_oaep_sha1 = rsa_pkcs_oaep sha1
from_key_mechanism rsa_decryption_oaep_sha224 = rsa_pkcs_oaep sha224
from_key_mechanism rsa_decryption_oaep_sha256 = rsa_pkcs_oaep sha256
from_key_mechanism rsa_decryption_oaep_sha384 = rsa_pkcs_oaep sha384
from_key_mechanism rsa_decryption_oaep_sha512 = rsa_pkcs_oaep sha512
from_key_mechanism rsa_signature_pss_md5 = rsa_pkcs_pss md5 false
from_key_mechanism rsa_signature_pss_sha1 = rsa_pkcs_pss sha1 false
from_key_mechanism rsa_signature_pss_sha224 = rsa_pkcs_pss sha224 false
from_key_mechanism rsa_signature_pss_sha256 = rsa_pkcs_pss sha256 false
from_key_mechanism rsa_signature_pss_sha384 = rsa_pkcs_pss sha384 false
from_key_mechanism rsa_signature_pss_sha512 = rsa_pkcs_pss sha512 false
from_key_mechanism rsa_decryption_pkcs1 = rsa_pkcs none
from_key_mechanism rsa_decryption_raw = rsa_x509
from_key_mechanism rsa_signature_pkcs1 = rsa_pkcs none

abbrev rsa_mechanisms : List Mechanism
rsa_mechanisms =
    rsa_pkcs none
    ∷ rsa_pkcs_oaep md5
    ∷ rsa_pkcs_oaep sha1
    ∷ rsa_pkcs_oaep sha224
    ∷ rsa_pkcs_oaep sha256
    ∷ rsa_pkcs_oaep sha384
    ∷ rsa_pkcs_oaep sha512
    ∷ rsa_pkcs_pss md5 false
    ∷ rsa_pkcs_pss sha1 false
    ∷ rsa_pkcs_pss sha224 false
    ∷ rsa_pkcs_pss sha256 false
    ∷ rsa_pkcs_pss sha384 false
    ∷ rsa_pkcs_pss sha512 false
    ∷ rsa_x509
    ∷ []

unfoldable pub from_key_type : KeyType → List Mechanism
from_key_type generic = Mechanism.aes_cbc none ∷ []
from_key_type rsa = rsa_mechanisms
from_key_type ec_p224 = Mechanism.ecdsa none ∷ []
from_key_type ec_p256 = Mechanism.ecdsa none ∷ []
from_key_type ec_p384 = Mechanism.ecdsa none ∷ []
from_key_type ec_p521 = Mechanism.ecdsa none ∷ []
from_key_type curve25519 = Mechanism.ed_dsa ∷ []

unfoldable pub to_key_type : Mechanism → KeyType
to_key_type (Mechanism.aes_cbc iv) = generic
to_key_type generate_aes = generic
to_key_type generate_generic = generic
to_key_type (rsa_pkcs digest) = rsa
to_key_type (rsa_pkcs_oaep digest) = rsa
to_key_type (rsa_pkcs_pss digest pre_hash) = rsa
to_key_type rsa_x509 = rsa
to_key_type generate_rsa = rsa
to_key_type (Mechanism.ecdsa digest) = ec_p256
to_key_type generate_ec = ec_p256
to_key_type Mechanism.ed_dsa = curve25519
to_key_type generate_ed = curve25519

abbrev rsa_key_mechanisms : List KeyMechanism
rsa_key_mechanisms =
    rsa_decryption_oaep_md5 ∷ rsa_decryption_oaep_sha1 ∷ rsa_decryption_oaep_sha224
    ∷ rsa_decryption_oaep_sha256 ∷ rsa_decryption_oaep_sha384 ∷ rsa_decryption_oaep_sha512
    ∷ rsa_signature_pss_md5 ∷ rsa_signature_pss_sha1 ∷ rsa_signature_pss_sha224
    ∷ rsa_signature_pss_sha256 ∷ rsa_signature_pss_sha384 ∷ rsa_signature_pss_sha512
    ∷ rsa_decryption_pkcs1 ∷ rsa_decryption_raw ∷ rsa_signature_pkcs1 ∷ []

unfoldable pub get_all_possible_api_mechs : Mechanism → List KeyMechanism
get_all_possible_api_mechs (Mechanism.aes_cbc iv) = aes_decryption_cbc ∷ aes_encryption_cbc ∷ []
get_all_possible_api_mechs generate_aes = aes_decryption_cbc ∷ aes_encryption_cbc ∷ []
get_all_possible_api_mechs generate_generic = aes_decryption_cbc ∷ aes_encryption_cbc ∷ []
get_all_possible_api_mechs (rsa_pkcs digest) = rsa_key_mechanisms
get_all_possible_api_mechs (rsa_pkcs_oaep digest) = rsa_key_mechanisms
get_all_possible_api_mechs (rsa_pkcs_pss digest pre_hash) = rsa_key_mechanisms
get_all_possible_api_mechs rsa_x509 = rsa_key_mechanisms
get_all_possible_api_mechs generate_rsa = rsa_key_mechanisms
get_all_possible_api_mechs (Mechanism.ecdsa digest) = ecdsa_signature ∷ []
get_all_possible_api_mechs generate_ec = ecdsa_signature ∷ []
get_all_possible_api_mechs Mechanism.ed_dsa = ed_dsa_signature ∷ []
get_all_possible_api_mechs generate_ed = ed_dsa_signature ∷ []

unfoldable pub to_api_mech : Mechanism → MechMode → Option KeyMechanism
to_api_mech (rsa_pkcs digest) sign = some rsa_signature_pkcs1
to_api_mech (rsa_pkcs_pss md5 pre_hash) sign = some rsa_signature_pss_md5
to_api_mech (rsa_pkcs_pss sha1 pre_hash) sign = some rsa_signature_pss_sha1
to_api_mech (rsa_pkcs_pss sha224 pre_hash) sign = some rsa_signature_pss_sha224
to_api_mech (rsa_pkcs_pss sha256 pre_hash) sign = some rsa_signature_pss_sha256
to_api_mech (rsa_pkcs_pss sha384 pre_hash) sign = some rsa_signature_pss_sha384
to_api_mech (rsa_pkcs_pss sha512 pre_hash) sign = some rsa_signature_pss_sha512
to_api_mech (Mechanism.ecdsa digest) sign = some ecdsa_signature
to_api_mech Mechanism.ed_dsa sign = some ed_dsa_signature
to_api_mech (Mechanism.aes_cbc iv) encrypt = some aes_encryption_cbc
to_api_mech (Mechanism.aes_cbc iv) decrypt = some aes_decryption_cbc
to_api_mech rsa_x509 decrypt = some rsa_decryption_raw
to_api_mech (rsa_pkcs digest) decrypt = some rsa_decryption_pkcs1
to_api_mech (rsa_pkcs_oaep md5) decrypt = some rsa_decryption_oaep_md5
to_api_mech (rsa_pkcs_oaep sha1) decrypt = some rsa_decryption_oaep_sha1
to_api_mech (rsa_pkcs_oaep sha224) decrypt = some rsa_decryption_oaep_sha224
to_api_mech (rsa_pkcs_oaep sha256) decrypt = some rsa_decryption_oaep_sha256
to_api_mech (rsa_pkcs_oaep sha384) decrypt = some rsa_decryption_oaep_sha384
to_api_mech (rsa_pkcs_oaep sha512) decrypt = some rsa_decryption_oaep_sha512
to_api_mech m mode = none

unfoldable pub sign_name : Mechanism → Option SignMode
sign_name (rsa_pkcs digest) = some SignMode.pkcs1
sign_name (rsa_pkcs_pss md5 pre_hash) = some pss_sha1
sign_name (rsa_pkcs_pss sha1 pre_hash) = some pss_sha1
sign_name (rsa_pkcs_pss sha224 pre_hash) = some pss_sha224
sign_name (rsa_pkcs_pss sha256 pre_hash) = some pss_sha256
sign_name (rsa_pkcs_pss sha384 pre_hash) = some pss_sha384
sign_name (rsa_pkcs_pss sha512 pre_hash) = some pss_sha512
sign_name (Mechanism.ecdsa digest) = some SignMode.ecdsa
sign_name Mechanism.ed_dsa = some SignMode.ed_dsa
sign_name m = none

unfoldable pub encrypt_name : Mechanism → Option EncryptMode
encrypt_name (Mechanism.aes_cbc iv) = some EncryptMode.aes_cbc
encrypt_name m = none

unfoldable pub decrypt_name : Mechanism → Option DecryptMode
decrypt_name (Mechanism.aes_cbc iv) = some DecryptMode.aes_cbc
decrypt_name rsa_x509 = some DecryptMode.raw
decrypt_name (rsa_pkcs digest) = some DecryptMode.pkcs1
decrypt_name (rsa_pkcs_oaep md5) = some oaep_md5
decrypt_name (rsa_pkcs_oaep sha1) = some oaep_sha1
decrypt_name (rsa_pkcs_oaep sha224) = some oaep_sha224
decrypt_name (rsa_pkcs_oaep sha256) = some oaep_sha256
decrypt_name (rsa_pkcs_oaep sha384) = some oaep_sha384
decrypt_name (rsa_pkcs_oaep sha512) = some oaep_sha512
decrypt_name m = none
