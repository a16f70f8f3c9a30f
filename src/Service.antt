-- ===== src/Service.antt =====
-- What the module calls and does not contain: the NetHSM behind the client of nethsm_sdk_rs, the
-- crates for Base64, DER and digests, the clock's sleep, and UTF-8 decoding. `W` is the state of the
-- world outside the process; a call of the client may change it.
pub mod Keys
use nethsm_pkcs.Common.{ℕ, String, Option, List, Result}
use nethsm_pkcs.Mechanism.{MechDigest, SignMode, EncryptMode, DecryptMode}

-- The fields of the client's configuration that config/initialization.rs sets.
pub record Configuration : Type 0 where
  pub base_path : String
  pub basic_auth : Option (String × Option String)
  pub user_agent : Option String

-- The kinds of transport error that the code tells apart.
pub data UreqErrorKind : Type 0 where
  io connection_failed other : UreqErrorKind

-- The text is what `to_string` gives.
pub data UreqError : Type 0 where
  transport : UreqErrorKind → String → UreqError
  status : String → UreqError

pub data SdkError : Type 0 where
  ureq : UreqError → SdkError
  serde io : SdkError
  response_error : ℕ → List ℕ → SdkError
  string_parse : SdkError

pub data UserRole : Type 0 where
  operator administrator other : UserRole

pub record SignRequestData : Type 0 where
  pub mode : SignMode
  pub message : String

pub record EncryptRequestData : Type 0 where
  pub mode : EncryptMode
  pub message : String
  pub iv : Option String

pub record DecryptRequestData : Type 0 where
  pub mode : DecryptMode
  pub encrypted : String
  pub iv : Option String

abbrev pub ApiCall : Type 0 → Type 0 → Type 0
ApiCall W R = Configuration → W → Result SdkError R × W

pub record Service (W : Type 0) : Type 0 where
  pub sleep : ℕ → W → W
  pub from_utf8 : List ℕ → Option String
  pub base64_encode : List ℕ → String
  pub base64_decode : String → Option (List ℕ)
  pub hash : MechDigest → List ℕ → List ℕ
  -- The integers of a DER sequence of at most two unsigned integers.
  pub from_der : List ℕ → Option (List (List ℕ))
  pub users_user_id_get : String → ApiCall W UserRole
  pub users_user_id_passphrase_post : String → String → ApiCall W (Unit {0})
  pub keys_key_id_sign_post : String → SignRequestData → ApiCall W String
  pub keys_key_id_encrypt_post : String → EncryptRequestData → ApiCall W String
  pub keys_key_id_decrypt_post : String → DecryptRequestData → ApiCall W String
