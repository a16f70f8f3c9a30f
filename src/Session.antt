-- ===== src/Session.antt =====
-- A session (pkcs11/src/backend/session.rs) and the slot that it is opened on (config/device.rs).
-- The cache of a slot is shared by its sessions: a session has the reference, and an operation that
-- locks the cache takes its contents as an argument.
pub mod Signing
pub mod Encrypting
pub mod Decrypting
pub mod Starting
pub mod Parts
pub mod Ciphertext
pub mod Finding
pub mod Objects
pub mod Changes
pub mod Trace
pub mod Deletion
pub mod Rights
pub mod Hidden
pub mod Requirements
use nethsm_pkcs.Common.{ℕ, String, Option, none, some, List, Result, ok, err}
use nethsm_pkcs.Constants
use nethsm_pkcs.Errors.{LoginError, Error, invalid_object_handle}
use nethsm_pkcs.Errors
use nethsm_pkcs.Service.{Configuration, Service}
use nethsm_pkcs.Login.{UserConfig, RetryConfig, LoginCtx, Run, returns, panics, runs_out, ◌>>=◌}
use nethsm_pkcs.Login
use nethsm_pkcs.Login.Pins
use nethsm_pkcs.Db.{Db, Object, object}
use nethsm_pkcs.Sign.{SignCtx}
use nethsm_pkcs.Encrypt.{EncryptCtx}
use nethsm_pkcs.Decrypt.{DecryptCtx}

-- `db` is the reference of an `Arc<Mutex<Db>>`.
pub record Slot : Type 0 where
  pub label : String
  pub retries : Option RetryConfig
  pub description : Option String
  pub instances : List Configuration
  pub operator : Option UserConfig
  pub administrator : Option UserConfig
  pub db : ℕ

pub record EnumCtx : Type 0 where
  pub handles : List ℕ
  pub index : ℕ

pub record Session : Type 0 where
  pub slot_id : ℕ
  pub login_ctx : LoginCtx
  pub flags : ℕ
  pub device_error : ℕ
  pub db : ℕ
  pub sign_ctx : Option SignCtx
  pub encrypt_ctx : Option EncryptCtx
  pub decrypt_ctx : Option DecryptCtx
  pub enum_ctx : Option EnumCtx

-- `Session::new`.
unfoldable pub new : ℕ → Slot → ℕ → Session
new slot_id slot flags = record {
  slot_id = slot_id;
  login_ctx = Login.new slot.operator slot.administrator slot.instances slot.retries;
  flags = flags;
  device_error = Constants.ckr_ok;
  db = slot.db;
  sign_ctx = none;
  encrypt_ctx = none;
  decrypt_ctx = none;
  enum_ctx = none;
}

-- CK_SESSION_INFO.
pub record SessionInfo : Type 0 where
  pub slot_id : ℕ
  pub state : ℕ
  pub flags : ℕ
  pub device_error : ℕ

unfoldable pub get_ck_info : Session → SessionInfo
get_ck_info s = record {
  slot_id = s.slot_id;
  state = s.login_ctx.ck_state;
  flags = s.flags;
  device_error = s.device_error;
}

-- `db.object(key_handle)`, with the error for a handle that the cache has not.
unfoldable pub key_of : Db → ℕ → Result Error Object
key_of db key_handle = elim (object db key_handle) [
  | some key ↦ ok key
  | none ↦ err (invalid_object_handle key_handle)
]

unfoldable pub logout : Session → Session
logout s = record s { login_ctx = Login.logout s.login_ctx }

abbrev pub login_error : {A : Type 0} → Result LoginError A → Result Error A
login_error (ok a) = ok a
login_error (err e) = err (Errors.login e)

module _ {W : Type 0} (x : Service W) where
  unfoldable pub login : ℕ → String → Session → W → Run (Result Error (Unit {0}) × Session × W)
  login user_type pin s w = do
    (result, c, w') ← Pins.login x user_type pin s.login_ctx w
    returns (login_error result, record s { login_ctx = c }, w')
