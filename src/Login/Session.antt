-- ===== src/Login/Session.antt =====
-- The outcomes of `login` (backend/login.rs) on every branch.
use nethsm_pkcs.Common.{ℕ, ◌≡◌, ◌⊎◌, String, Option, none, some, [], ok, err, arith, select}
use nethsm_pkcs.Constants
use nethsm_pkcs.Errors.{LoginError, incorrect_pin}
use nethsm_pkcs.Service.{Service}
use nethsm_pkcs.Login.{UserConfig, LoginCtx, returns, panics}
use nethsm_pkcs.Login.Pins.{login}

abbrev pub password_of : Option UserConfig → Option String
password_of none = none
password_of (some user) = user.password

module _ {W : Type 0} (x : Service W) where
  -- A login that succeeds is of the operator (CKU_USER) or of the administrator (CKU_SO). It puts the
  -- session into that user's state, keeps the PIN as that user's password, and leaves the other user
  -- as it was.
  pub login_succeeds :
      (user_type : ℕ) (pin : String) (c c' : LoginCtx) (w w' : W)
      → login x user_type pin c w ≡ returns (ok tt, c', w')
      → ((user_type ≡ Constants.cku_user)
          × (c'.ck_state ≡ Constants.cks_rw_user_functions)
          × (password_of c'.operator ≡ some pin)
          × (c'.administrator ≡ c.administrator))
        ⊎ ((user_type ≡ Constants.cku_so)
            × (c'.ck_state ≡ Constants.cks_rw_so_functions)
            × (password_of c'.administrator ≡ some pin)
            × (c'.operator ≡ c.operator))
  unfolding login select
  login_succeeds user_type pin c c' w w' h = ground arith

  -- A login that fails leaves the state of the session as it was.
  pub login_fails :
      (user_type : ℕ) (pin : String) (c c' : LoginCtx) (w w' : W) (e : LoginError)
      → login x user_type pin c w ≡ returns (err e, c', w')
      → c'.ck_state ≡ c.ck_state
  unfolding login select
  login_fails user_type pin c c' w w' e h = ground arith

  -- A login that fails for an incorrect PIN has put that PIN in the place of the password that the
  -- user had.
  pub login_keeps_incorrect_pin :
      (user_type : ℕ) (pin : String) (c c' : LoginCtx) (w w' : W)
      → login x user_type pin c w ≡ returns (err incorrect_pin, c', w')
      → ((user_type ≡ Constants.cku_user) × (password_of c'.operator ≡ some pin))
        ⊎ ((user_type ≡ Constants.cku_so) × (password_of c'.administrator ≡ some pin))
  unfolding login select
  login_keeps_incorrect_pin user_type pin c c' w w' h = ground arith

  -- On a slot without instances the login of a user that is configured panics.
  pub login_panics :
      (user_type : ℕ) (pin : String) (c : LoginCtx) (w : W) (user : UserConfig)
      → c.instances ≡ []
      → ((user_type ≡ Constants.cku_user) × (c.operator ≡ some user))
        ⊎ ((user_type ≡ Constants.cku_so) × (c.administrator ≡ some user))
      → login x user_type pin c w ≡ panics
  unfolding login select
  login_panics user_type pin c w user h u = ground arith
