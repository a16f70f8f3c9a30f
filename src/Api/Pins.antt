-- ===== src/Api/Pins.antt =====
-- C_SetPIN (pkcs11/src/api/pin.rs).
use nethsm_pkcs.Common.{ℕ, String, Option, some, List, ok, err, if◌then◌else◌}
use nethsm_pkcs.Constants
use nethsm_pkcs.Errors.{UserMode, error_rv}
use nethsm_pkcs.Service.{Service}
use nethsm_pkcs.Login.{Run, returns, ◌>>=◌, can_run_mode}
use nethsm_pkcs.Login.Pins.{change_pin}
use nethsm_pkcs.Session.{login}
use nethsm_pkcs.Api.{Globals, Reply, just, Handler, lock_session}

module _ {W : Type 0} (x : Service W) where
  changed_pin : String → Handler W
  unfolding change_pin can_run_mode
  changed_pin new_pin s w =
      if can_run_mode s.login_ctx UserMode.operator_or_administrator
      then (do
        (rv, c, w') ← change_pin x new_pin s.login_ctx w
        returns (just rv, record s { login_ctx = c }, w'))
      else returns (just Constants.ckr_user_not_logged_in, s, w)

  unfoldable pub set_pin_handler : String → String → Handler W
  unfolding login changed_pin
  set_pin_handler old_pin new_pin s w = do
    (result, s', w') ← login x Constants.cku_user old_pin s w
    elim result [
      | err e ↦ returns (just (error_rv e), s', w')
      | ok done ↦ changed_pin new_pin s' w'
    ]

  parsed_pins : Option String → Option String → Handler W
  unfolding set_pin_handler
  parsed_pins (some old_pin) (some new_pin) s w = set_pin_handler old_pin new_pin s w
  parsed_pins _ _ s w = returns (just Constants.ckr_arguments_bad, s, w)

  raw_pins : Option (List ℕ) → Option (List ℕ) → Handler W
  unfolding parsed_pins
  raw_pins (some old_pin) (some new_pin) s w =
      parsed_pins (x.from_utf8 old_pin) (x.from_utf8 new_pin) s w
  raw_pins _ _ s w = returns (just Constants.ckr_arguments_bad, s, w)

  unfoldable pub c_set_pin :
      ℕ → Option (List ℕ) → Option (List ℕ) → Globals → W → Run (Reply × Globals × W)
  unfolding lock_session raw_pins
  c_set_pin hSession pOldPin pNewPin g w = lock_session hSession (raw_pins pOldPin pNewPin) g w
