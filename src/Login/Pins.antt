-- ===== src/Login/Pins.antt =====
-- Logging in and changing a PIN (`login` and `change_pin` of backend/login.rs).
use nethsm_pkcs.Common.{
  ℕ, String, Bool, true, false, Option, none, some, [], ◌∷◌, Result, ok, err, select, ◌==◌,
  if◌then◌else◌,
}
use nethsm_pkcs.Constants
use nethsm_pkcs.Errors.{
  UserMode, UserStatus, LoginError, invalid_user, user_not_present, bad_argument, incorrect_pin,
}
use nethsm_pkcs.Service.{Configuration, Service}
use nethsm_pkcs.Login.{LoginCtx, Run, returns, ◌>>=◌, operator, administrator}
use nethsm_pkcs.Login.Calls.{get_current_user_status, try_}

abbrev pub status_state : UserStatus → ℕ
status_state UserStatus.operator = Constants.cks_rw_user_functions
status_state UserStatus.administrator = Constants.cks_rw_so_functions
status_state UserStatus.logged_out = Constants.cks_ro_public_session

abbrev pub same_status : UserStatus → UserStatus → Bool
same_status UserStatus.operator UserStatus.operator = true
same_status UserStatus.administrator UserStatus.administrator = true
same_status UserStatus.logged_out UserStatus.logged_out = true
same_status _ _ = false

module _ {W : Type 0} (x : Service W) where
  -- What follows the `match` on the user type: `expected` and the configuration of that user.
  unfoldable pub check_user :
      UserStatus
      → Option Configuration
      → LoginCtx
      → W
      → Run (Result LoginError (Unit {0}) × LoginCtx × W)
  unfolding get_current_user_status
  check_user expected none c w = returns (err user_not_present, c, w)
  check_user expected (some config) c w =
      let (status, w') = get_current_user_status x config w in
      if same_status status expected
      then returns (ok tt, record c { ck_state = status_state expected }, w')
      else returns (err incorrect_pin, c, w')

  unfoldable pub login_so :
      String → LoginCtx → W → Run (Result LoginError (Unit {0}) × LoginCtx × W)
  unfolding administrator check_user
  login_so pin c w = elim c.administrator [
    | none ↦ returns (err user_not_present, c, w)
    | some user ↦ do
      (conf, c') ←
          administrator (record c { administrator = some (record user { password = some pin }) })
      check_user UserStatus.administrator conf c' w
  ]

  unfoldable pub login_user :
      String → LoginCtx → W → Run (Result LoginError (Unit {0}) × LoginCtx × W)
  unfolding operator check_user
  login_user pin c w = elim c.operator [
    | none ↦ returns (err user_not_present, c, w)
    | some user ↦ do
      (conf, c') ← operator (record c { operator = some (record user { password = some pin }) })
      check_user UserStatus.operator conf c' w
  ]

  unfoldable pub login :
      ℕ → String → LoginCtx → W → Run (Result LoginError (Unit {0}) × LoginCtx × W)
  unfolding login_so login_user
  login user_type pin c w =
      select user_type
        ((Constants.cku_context_specific, returns (err invalid_user, c, w))
          ∷ (Constants.cku_so, login_so pin c w)
          ∷ (Constants.cku_user, login_user pin c w)
          ∷ [])
        (returns (err bad_argument, c, w))

  -- The user whose PIN is changed, by the state of the session.
  unfoldable pub pin_user : LoginCtx → Option (String × UserMode)
  pin_user c =
      if c.ck_state == Constants.cks_rw_so_functions
      then elim c.administrator [
        | none ↦ none
        | some user ↦ some (user.username, UserMode.administrator)
      ]
      else if c.ck_state == Constants.cks_rw_user_functions
      then elim c.operator [ none ↦ none | some user ↦ some (user.username, UserMode.operator) ]
      else none

  unfoldable pub change_pin : String → LoginCtx → W → Run (ℕ × LoginCtx × W)
  unfolding pin_user try_
  change_pin pin c w = elim (pin_user c) [
    | none ↦ returns (Constants.ckr_user_not_logged_in, c, w)
    | some (username, mode) ↦ do
      (result, c', w') ← try_ x (x.users_user_id_passphrase_post username pin) mode c w
      elim result [
        | ok done ↦ returns (Constants.ckr_ok, c', w')
        | err e ↦ returns (Constants.ckr_device_error, c', w')
      ]
  ]
