-- ===== src/Login/Halves.antt =====
-- The mode `OperatorOrAdministrator` (backend/login.rs) for a session that has only an administrator.
use nethsm_pkcs.Common.{
  ℕ, zero, suc, ◌≡◌, ◌<◌, refl, Bool, true, false, Option, none, some, [], ◌∷◌, Result, ok, err,
  unwrap_or, arith, ap, ◌∙◌,
}
use nethsm_pkcs.Errors.{UserMode, no_instance}
use nethsm_pkcs.Service.{Configuration, SdkError, ApiCall, Service}
use nethsm_pkcs.Login.{
  UserConfig, RetryConfig, LoginCtx, returns, get_config_user_mode, get_user_api_config,
}
use nethsm_pkcs.Login.Calls.{
  skip, verdict, unusable, retry_loop, ask, default_retries, rounds, try_loop, try_,
}
use nethsm_pkcs.Login.Availability.{rounds_pos}

abbrev pub two_instances :
    UserConfig → Configuration → Configuration → ℕ → Option RetryConfig → LoginCtx
two_instances admin a b ck_state retries = record {
  operator = none;
  administrator = some admin;
  instances = a ∷ b ∷ [];
  index = 0;
  ck_state = ck_state;
  retries = retries;
}

-- The mode comes back to the first instance.
either_first :
    (admin : UserConfig) (a b : Configuration) (ck_state : ℕ) (retries : Option RetryConfig)
    → get_config_user_mode UserMode.operator_or_administrator
        (two_instances admin a b ck_state retries)
      ≡ returns (get_user_api_config (some admin) a, two_instances admin a b ck_state retries)
unfolding get_config_user_mode
either_first admin a b ck_state retries = refl

module _ {W R : Type 0} (x : Service W) (call : ApiCall W R) where
  abbrev pub refused : Result SdkError R → Bool
  refused (ok r) = false
  refused (err e) = elim (verdict e) [ unusable ↦ true | _ ↦ false ]

  retry_loop-refused :
      (fuel n : ℕ) (retries : RetryConfig) (k : Configuration) (w : W)
      → 0 < fuel
      → refused (call k w).0 ≡ true
      → retry_loop x call fuel k retries n w ≡ (some skip, (call k w).1)
  unfolding retry_loop
  retry_loop-refused zero n retries k w p h = absurd (omega arith)
  retry_loop-refused (suc fuel) n retries k w p h = ground arith

  ask-refused :
      (retries : RetryConfig) (k : Configuration) (w : W)
      → refused (call k w).0 ≡ true
      → ask x call retries k w ≡ (some skip, (call k w).1)
  unfolding ask
  ask-refused retries k w h =
      retry_loop-refused (rounds retries.count) 0 retries k w (rounds_pos retries.count) h

  round_refused :
      (n : ℕ) (mode : UserMode) (c c' : LoginCtx) (k : Configuration) (w : W)
      → get_config_user_mode mode c ≡ returns (some k, c')
      → refused (call k w).0 ≡ true
      → try_loop x call (suc n) mode c w ≡ try_loop x call n mode c' (call k w).1
  unfolding try_loop
  round_refused n mode c c' k w e h =
      rw e (rw (ask-refused (unwrap_or c'.retries default_retries) k w h))

  two_rounds :
      (mode : UserMode) (c : LoginCtx) (k : Configuration) (w : W)
      → get_config_user_mode mode c ≡ returns (some k, c)
      → ((w : W) → refused (call k w).0 ≡ true)
      → try_loop x call 2 mode c w ≡ returns (err no_instance, c, (call k (call k w).1).1)
  unfolding try_loop
  two_rounds mode c k w e h =
      round_refused 1 mode c c k w e (h w)
      ∙ round_refused 0 mode c c k (call k w).1 e (h (call k w).1)

  -- A session with an administrator alone, on a slot of two instances, with the index at the
  -- first: if the first cannot serve, `try_` in the mode OperatorOrAdministrator gives up with
  -- NoInstance, whatever the second would answer.
  pub either_gives_up :
      (admin : UserConfig) (a b k : Configuration) (ck_state : ℕ) (retries : Option RetryConfig)
      (w : W)
      → get_user_api_config (some admin) a ≡ some k
      → ((w : W) → refused (call k w).0 ≡ true)
      → (w' : W) × (try_ x call UserMode.operator_or_administrator
            (two_instances admin a b ck_state retries)
            w
          ≡ returns (err no_instance, two_instances admin a b ck_state retries, w'))
  unfolding try_ try_loop
  either_gives_up admin a b k ck_state retries w e h = (
    (call k (call k w).1).1,
    two_rounds UserMode.operator_or_administrator (two_instances admin a b ck_state retries) k w
        (either_first admin a b ck_state retries
          ∙ ap (λ (o : Option Configuration). returns (o, two_instances admin a b ck_state retries))
              e)
        h,
  )
