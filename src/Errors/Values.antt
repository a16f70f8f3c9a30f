-- ===== src/Errors/Values.antt =====
-- The return values that errors become (the conversion at the end of pkcs11/src/backend/mod.rs).
use nethsm_pkcs.Common.{◌≢◌, select, arith}
use nethsm_pkcs.Constants
use nethsm_pkcs.Errors.{Error, error_rv}

-- An error becomes neither CKR_OK nor CKR_BUFFER_TOO_SMALL, whatever status the NetHSM answers
-- with.
pub error_rv_fails :
    (e : Error) → (error_rv e ≢ Constants.ckr_ok) × (error_rv e ≢ Constants.ckr_buffer_too_small)
unfolding error_rv select
error_rv_fails e = ground arith
