-- ===== src/Service/Keys.antt =====
-- What the code for keys and objects calls and does not contain: the client's functions for keys,
-- and the crates for DER, PEM, X.509 and hexadecimal text.
use Prim.Native.Char.{Char}
use nethsm_pkcs.Common.{ℕ, String, Bool, Option, List}
use nethsm_pkcs.Mechanism.{KeyMechanism, KeyType}
use nethsm_pkcs.Service.{ApiCall, Service}

-- The identifiers that the code names, and all others by their bytes.
pub data ObjectIdentifier : Type 0 where
  secp_224_r_1 secp_256_r_1 secp_384_r_1 secp_521_r_1 id_ed_25519 : ObjectIdentifier
  unnamed : List ℕ → ObjectIdentifier

pub record KeyPublicData : Type 0 where
  pub modulus : Option String
  pub public_exponent : Option String
  pub data_ : Option String

pub record PublicKey : Type 0 where
  pub mechanisms : List KeyMechanism
  pub type_ : KeyType
  pub public_ : Option KeyPublicData

pub record KeyPrivateData : Type 0 where
  pub data_ : Option String
  pub prime_p : Option String
  pub prime_q : Option String
  pub public_exponent : Option String

-- `restrictions` is always `None`.
pub record PrivateKey : Type 0 where
  pub mechanisms : List KeyMechanism
  pub type_ : KeyType
  pub private_ : KeyPrivateData

pub record KeyGenerateRequestData : Type 0 where
  pub mechanisms : List KeyMechanism
  pub type_ : KeyType
  pub id : Option String
  pub length : Option ℕ

-- A parsed certificate by its DER and that of two of its fields; each encoding may fail.
pub record Certificate : Type 0 where
  pub encoded : Option (List ℕ)
  pub subject : Option (List ℕ)
  pub issuer : Option (List ℕ)

-- `now` is the time of `SystemTime::now` in nanoseconds. A response is its entity, or the value of its
-- header "location" where the code reads only that.
pub record KeyService (W : Type 0) : Type 0 where
  pub service : Service W
  pub now : W → ℕ
  pub is_alphanumeric : Char → Bool
  pub to_utf8 : String → List ℕ
  pub hex_encode : List ℕ → String
  pub octet_string_to_der : List ℕ → Option (List ℕ)
  pub oid_to_der : ObjectIdentifier → Option (List ℕ)
  pub oid_from_der : List ℕ → Option ObjectIdentifier
  pub pem_encode : List ℕ → Option (List ℕ)
  pub certificate_from_pem : List ℕ → Option Certificate
  pub keys_get : ApiCall W (List String)
  pub keys_post : PrivateKey → ApiCall W (Option String)
  pub keys_generate_post : KeyGenerateRequestData → ApiCall W (Option String)
  pub keys_key_id_get : String → ApiCall W PublicKey
  pub keys_key_id_put : String → PrivateKey → ApiCall W (Unit {0})
  pub keys_key_id_delete : String → ApiCall W (Unit {0})
  pub keys_key_id_cert_get : String → ApiCall W (List ℕ)
  pub keys_key_id_cert_put : String → List ℕ → ApiCall W (Unit {0})
  pub keys_key_id_cert_delete : String → ApiCall W (Unit {0})
  pub random_post : ℕ → ApiCall W String
