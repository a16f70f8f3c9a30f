-- ===== src/Api/Initializing.antt =====
-- Repeated calls of C_Initialize (pkcs11/src/api/mod.rs).
use nethsm_pkcs.Common.{◌≡◌, true, false, Option, none, List, arith}
use nethsm_pkcs.Constants
use nethsm_pkcs.Login.{returns, panics}
use nethsm_pkcs.Session.{Slot}
use nethsm_pkcs.Api.Tokens.{DeviceService}
use nethsm_pkcs.Api.Library.{Library, InitArgs, call_once, c_initialize}

module _ {W : Type 0} (d : DeviceService W) where
  -- Where the first call of C_Initialize cannot read a configuration, it returns CKR_FUNCTION_FAILED,
  -- and a second call with any arguments panics, even with a configuration that can be read.
  pub initialize_again_panics :
      (l : Library) (a b : Option InitArgs) (made : Option (List Slot)) (w v : W)
      → l.init_called ≡ false
      → l.device ≡ none
      → (c_initialize d none a l w
          ≡ returns (Constants.ckr_function_failed, record l { init_called = true }, w))
        × (c_initialize d made b (record l { init_called = true }) v ≡ panics)
  unfolding c_initialize call_once
  initialize_again_panics l a b made w v h n = (ground arith, ground arith)
