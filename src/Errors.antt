-- ===== src/Errors.antt =====
-- Errors of the backend and the return values that they become (pkcs11/src/backend/mod.rs), with the
-- enumerations that they carry: ObjectKind (backend/db/object.rs), UserMode, UserStatus and
-- LoginError (backend/login.rs). What a third-party error holds is not kept.
pub mod Values
use nethsm_pkcs.Common.{ℕ, String, List, [], ◌∷◌, select}
use nethsm_pkcs.Constants
use nethsm_pkcs.Mechanism.{Mechanism, MechMode}

pub data ObjectKind : Type 0 where
  private_key public_key secret_key certificate other : ObjectKind

pub data UserMode : Type 0 where
  operator administrator guest operator_or_administrator : UserMode

pub data UserStatus : Type 0 where
  operator administrator logged_out : UserStatus

pub data LoginError : Type 0 where
  invalid_user user_not_present bad_argument incorrect_pin : LoginError

pub record ResponseContent : Type 0 where
  pub status : ℕ
  pub content : String

pub data ApiError : Type 0 where
  ureq : String → ApiError
  serde io : ApiError
  response_error : ResponseContent → ApiError
  instance_removed no_instance string_parse : ApiError

pub data Error : Type 0 where
  der pem : Error
  not_logged_in : UserMode → Error
  invalid_object_handle : ℕ → Error
  invalid_mechanism : String × ObjectKind → Mechanism → Error
  invalid_attribute missing_attribute : ℕ → Error
  object_class_not_supported : Error
  invalid_mechanism_mode : MechMode → Mechanism → Error
  api : ApiError → Error
  base64 string_parse : Error
  login : LoginError → Error
  operation_not_initialized library_not_initialized operation_active : Error
  key_field : String → Error
  db_lock invalid_data_length invalid_data invalid_encrypted_data_length : Error

pub login_error_rv : LoginError → ℕ
login_error_rv invalid_user = Constants.ckr_user_type_invalid
login_error_rv user_not_present = Constants.ckr_user_type_invalid
login_error_rv bad_argument = Constants.ckr_arguments_bad
login_error_rv incorrect_pin = Constants.ckr_pin_incorrect

status_rv : ℕ → ℕ
status_rv status =
    select status
      ((404, Constants.ckr_key_handle_invalid)
        ∷ (401, Constants.ckr_user_not_logged_in)
        ∷ (403, Constants.ckr_user_not_logged_in)
        ∷ (412, Constants.ckr_token_not_present)
        ∷ [])
      Constants.ckr_device_error

api_error_rv : ApiError → ℕ
unfolding status_rv
api_error_rv no_instance = Constants.ckr_token_not_present
api_error_rv (ureq message) = Constants.ckr_device_error
api_error_rv io = Constants.ckr_device_error
api_error_rv serde = Constants.ckr_device_error
api_error_rv (response_error resp) = status_rv resp.status
api_error_rv ApiError.string_parse = Constants.ckr_device_error
api_error_rv instance_removed = Constants.ckr_device_removed

-- `From<Error> for CK_RV`.
unfoldable pub error_rv : Error → ℕ
unfolding api_error_rv login_error_rv
error_rv der = Constants.ckr_device_error
error_rv pem = Constants.ckr_device_error
error_rv invalid_encrypted_data_length = Constants.ckr_encrypted_data_len_range
error_rv invalid_data = Constants.ckr_data_invalid
error_rv invalid_data_length = Constants.ckr_data_len_range
error_rv (invalid_object_handle handle) = Constants.ckr_key_handle_invalid
error_rv operation_not_initialized = Constants.ckr_operation_not_initialized
error_rv library_not_initialized = Constants.ckr_cryptoki_not_initialized
error_rv db_lock = Constants.ckr_device_error
error_rv (key_field field) = Constants.ckr_device_error
error_rv operation_active = Constants.ckr_operation_active
error_rv (login e) = login_error_rv e
error_rv (invalid_attribute attr) = Constants.ckr_attribute_value_invalid
error_rv object_class_not_supported = Constants.ckr_device_memory
error_rv (missing_attribute attr) = Constants.ckr_arguments_bad
error_rv (not_logged_in mode) = Constants.ckr_user_not_logged_in
error_rv (invalid_mechanism key m) = Constants.ckr_mechanism_invalid
error_rv (invalid_mechanism_mode mode m) = Constants.ckr_mechanism_invalid
error_rv base64 = Constants.ckr_device_error
error_rv Error.string_parse = Constants.ckr_device_error
error_rv (api e) = api_error_rv e
