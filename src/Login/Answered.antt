-- ===== src/Login/Answered.antt =====
-- `try_` where the first instance asked answers, with a result or with an error that ends `try_`: one
-- call, and what it gives.
use nethsm_pkcs.Common.{
  ℕ, zero, suc, ◌-◌, ◌<◌, ◌≡◌, subst, some, Result, ok, err, length, unwrap_or, arith,
}
use nethsm_pkcs.Errors.{UserMode, ApiError}
use nethsm_pkcs.Service.{Configuration, ApiCall, Service, SdkError}
use nethsm_pkcs.Login.{RetryConfig, LoginCtx, returns, get_config_user_mode}
use nethsm_pkcs.Login.Calls.{
  Attempt, success, failure, fatal, verdict, to_api_error, retry_loop, ask, default_retries, rounds,
  try_loop, try_,
}
use nethsm_pkcs.Login.Availability.{rounds_pos}

abbrev attempt_of : {R : Type 0} → Result ApiError R → Attempt R
attempt_of (ok r) = success r
attempt_of (err e) = failure e

module _ {W R : Type 0} (x : Service W) (call : ApiCall W R) where
  -- The first round of the inner loop ends it with this outcome.
  abbrev Settles : Configuration → W → Result ApiError R → W → Type 0
  Settles k w out w' =
      (fuel n : ℕ) (retries : RetryConfig)
      → retry_loop x call (suc fuel) k retries n w ≡ (some (attempt_of out), w')

  retry_loop_settled :
      (fuel : ℕ) (retries : RetryConfig) (k : Configuration) (w w' : W) (out : Result ApiError R)
      → 0 < fuel
      → Settles k w out w'
      → retry_loop x call fuel k retries 0 w ≡ (some (attempt_of out), w')
  retry_loop_settled zero retries k w w' out p e = absurd (omega arith)
  retry_loop_settled (suc fuel) retries k w w' out p e = e fuel 0 retries

  ask_settled :
      (retries : RetryConfig) (k : Configuration) (w w' : W) (out : Result ApiError R)
      → Settles k w out w'
      → ask x call retries k w ≡ (some (attempt_of out), w')
  unfolding ask
  ask_settled retries k w w' out e =
      retry_loop_settled (rounds retries.count) retries k w w' out (rounds_pos retries.count) e

  round_settled :
      (n : ℕ) (mode : UserMode) (c c' : LoginCtx) (k : Configuration) (w w' : W)
      (out : Result ApiError R)
      → get_config_user_mode mode c ≡ returns (some k, c')
      → Settles k w out w'
      → try_loop x call (suc n) mode c w ≡ returns (out, c', w')
  unfolding try_loop
  round_settled n mode c c' k w w' (ok r) e a =
      rw e (rw (ask_settled (unwrap_or c'.retries default_retries) k w w' (ok r) a))
  round_settled n mode c c' k w w' (err f) e a =
      rw e (rw (ask_settled (unwrap_or c'.retries default_retries) k w w' (err f) a))

  try_settled :
      (mode : UserMode) (c c' : LoginCtx) (k : Configuration) (w w' : W) (out : Result ApiError R)
      → 0 < length c.instances
      → get_config_user_mode mode c ≡ returns (some k, c')
      → Settles k w out w'
      → try_ x call mode c w ≡ returns (out, c', w')
  unfolding try_
  try_settled mode c c' k w w' out h e a =
      let n : suc (length c.instances - 1) ≡ length c.instances = omega arith in
      subst (λ m. try_loop x call m mode c w ≡ returns (out, c', w')) n
        (round_settled (length c.instances - 1) mode c c' k w w' out e a)

  ok-Settles :
      (k : Configuration) (w w' : W) (r : R) → call k w ≡ (ok r, w') → Settles k w (ok r) w'
  unfolding retry_loop
  ok-Settles k w w' r a fuel n retries = ground arith

  fatal-Settles :
      (k : Configuration) (w w' : W) (f : SdkError)
      → call k w ≡ (err f, w')
      → verdict f ≡ fatal
      → Settles k w (err (to_api_error x f)) w'
  unfolding retry_loop
  fatal-Settles k w w' f a v fuel n retries = ground (arith, a, v)

  pub try_ok :
      (mode : UserMode) (c c' : LoginCtx) (k : Configuration) (w w' : W) (r : R)
      → 0 < length c.instances
      → get_config_user_mode mode c ≡ returns (some k, c')
      → call k w ≡ (ok r, w')
      → try_ x call mode c w ≡ returns (ok r, c', w')
  try_ok mode c c' k w w' r h e a = try_settled mode c c' k w w' (ok r) h e (ok-Settles k w w' r a)

  pub try_fatal :
      (mode : UserMode) (c c' : LoginCtx) (k : Configuration) (w w' : W) (f : SdkError)
      → 0 < length c.instances
      → get_config_user_mode mode c ≡ returns (some k, c')
      → call k w ≡ (err f, w')
      → verdict f ≡ fatal
      → try_ x call mode c w ≡ returns (err (to_api_error x f), c', w')
  try_fatal mode c c' k w w' f h e a v =
      try_settled mode c c' k w w' (err (to_api_error x f)) h e (fatal-Settles k w w' f a v)
