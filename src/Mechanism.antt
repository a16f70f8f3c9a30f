-- ===== src/Mechanism.antt =====
-- Mechanisms (pkcs11/src/backend/mechanism.rs): the data types. The enumerations of the NetHSM SDK
-- have the constructors that the source names.
pub mod Raw
pub mod Info
pub mod Api
pub mod Sizes
pub mod Keys
pub mod RoundTrip
pub mod Capabilities
use nethsm_pkcs.Common.{ℕ, Bool, Option, List}

pub data MechDigest : Type 0 where
  md5 sha1 sha224 sha256 sha384 sha512 : MechDigest

-- `[u8; 16]`.
abbrev pub InitializationVector : Type 0
InitializationVector = Option (List ℕ)

pub data Mechanism : Type 0 where
  aes_cbc : InitializationVector → Mechanism
  rsa_pkcs : Option MechDigest → Mechanism
  rsa_pkcs_oaep : MechDigest → Mechanism
  rsa_pkcs_pss : MechDigest → Bool → Mechanism
  rsa_x509 : Mechanism
  ed_dsa : Mechanism
  ecdsa : Option MechDigest → Mechanism
  generate_generic generate_aes generate_rsa generate_ec generate_ed : Mechanism

pub data MechMode : Type 0 where
  sign encrypt decrypt : MechMode

pub data KeyMechanism : Type 0 where
  aes_decryption_cbc aes_encryption_cbc ecdsa_signature ed_dsa_signature : KeyMechanism
  rsa_decryption_oaep_md5 rsa_decryption_oaep_sha1 rsa_decryption_oaep_sha224 : KeyMechanism
  rsa_decryption_oaep_sha256 rsa_decryption_oaep_sha384 rsa_decryption_oaep_sha512 : KeyMechanism
  rsa_signature_pss_md5 rsa_signature_pss_sha1 rsa_signature_pss_sha224 : KeyMechanism
  rsa_signature_pss_sha256 rsa_signature_pss_sha384 rsa_signature_pss_sha512 : KeyMechanism
  rsa_decryption_pkcs1 rsa_decryption_raw rsa_signature_pkcs1 : KeyMechanism

pub data KeyType : Type 0 where
  generic rsa ec_p224 ec_p256 ec_p384 ec_p521 curve25519 : KeyType

pub data SignMode : Type 0 where
  pkcs1 pss_sha1 pss_sha224 pss_sha256 pss_sha384 pss_sha512 ecdsa ed_dsa : SignMode

pub data EncryptMode : Type 0 where
  aes_cbc : EncryptMode

pub data DecryptMode : Type 0 where
  aes_cbc raw pkcs1 oaep_md5 oaep_sha1 oaep_sha224 oaep_sha256 oaep_sha384 oaep_sha512 : DecryptMode
