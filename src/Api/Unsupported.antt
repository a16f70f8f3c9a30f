-- ===== src/Api/Unsupported.antt =====
-- The C functions that serve nothing: digests (pkcs11/src/api/digest.rs), verification
-- (pkcs11/src/api/verify.rs), and those of decrypt.rs, sign.rs, generation.rs, object.rs, pin.rs,
-- token.rs and session.rs that only return a constant. A Boolean says whether a pointer is there; what
-- a function does not look at is left out.
use nethsm_pkcs.Common.{ℕ, Bool, ◌&&◌, if◌then◌else◌}
use nethsm_pkcs.Constants

-- The functions that look at their pointers first.
abbrev if_there : Bool → ℕ
if_there there = if there then Constants.ckr_function_not_supported else Constants.ckr_arguments_bad

abbrev c_digest_init : Bool → ℕ
c_digest_init pMechanism = if_there pMechanism

abbrev c_digest : Bool → Bool → Bool → ℕ
c_digest pData pDigest pulDigestLen = if_there (pData && pDigest && pulDigestLen)

abbrev c_digest_update : Bool → ℕ
c_digest_update pPart = if_there pPart

abbrev c_digest_final : Bool → Bool → ℕ
c_digest_final pDigest pulDigestLen = if_there (pDigest && pulDigestLen)

abbrev c_digest_key : ℕ
c_digest_key = Constants.ckr_function_not_supported

abbrev c_digest_encrypt_update : ℕ
c_digest_encrypt_update = Constants.ckr_function_not_supported

abbrev c_decrypt_digest_update : ℕ
c_decrypt_digest_update = Constants.ckr_function_not_supported

abbrev c_verify_init : ℕ
c_verify_init = Constants.ckr_function_not_supported

abbrev c_verify : ℕ
c_verify = Constants.ckr_function_not_supported

abbrev c_verify_update : ℕ
c_verify_update = Constants.ckr_function_not_supported

abbrev c_verify_final : ℕ
c_verify_final = Constants.ckr_function_not_supported

abbrev c_verify_recover_init : ℕ
c_verify_recover_init = Constants.ckr_function_not_supported

abbrev c_verify_recover : ℕ
c_verify_recover = Constants.ckr_function_not_supported

abbrev c_decrypt_verify_update : ℕ
c_decrypt_verify_update = Constants.ckr_function_not_supported

abbrev c_sign_recover_init : ℕ
c_sign_recover_init = Constants.ckr_function_not_supported

abbrev c_sign_recover : ℕ
c_sign_recover = Constants.ckr_function_not_supported

abbrev c_sign_encrypt_update : ℕ
c_sign_encrypt_update = Constants.ckr_function_not_supported

abbrev c_wrap_key : ℕ
c_wrap_key = Constants.ckr_function_not_supported

abbrev c_unwrap_key : ℕ
c_unwrap_key = Constants.ckr_function_not_supported

abbrev c_derive_key : ℕ
c_derive_key = Constants.ckr_function_not_supported

abbrev c_seed_random : ℕ
c_seed_random = Constants.ckr_ok

abbrev c_copy_object : ℕ
c_copy_object = Constants.ckr_action_prohibited

abbrev c_init_pin : ℕ
c_init_pin = Constants.ckr_function_not_supported

abbrev c_init_token : ℕ
c_init_token = Constants.ckr_function_not_supported

abbrev c_get_operation_state : ℕ
c_get_operation_state = Constants.ckr_function_not_supported

abbrev c_set_operation_state : ℕ
c_set_operation_state = Constants.ckr_function_not_supported

abbrev c_get_function_status : ℕ
c_get_function_status = Constants.ckr_function_not_parallel

abbrev c_cancel_function : ℕ
c_cancel_function = Constants.ckr_function_not_parallel
