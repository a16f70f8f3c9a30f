-- ===== src/Login/Calls.antt =====
-- Calls of the NetHSM through a login context: `try_`, `login`, `change_pin` (backend/login.rs).
use nethsm_pkcs.Common.{
  ℕ, zero, suc, ◌+◌, ◌%◌, ◌^◌, Bool, ◌||◌, Option, none, some, Result, ok, err, length, unwrap_or,
  ◌==◌, if◌then◌else◌,
}
use nethsm_pkcs.Errors.{UserMode, UserStatus, ApiError, instance_removed, no_instance}
use nethsm_pkcs.Service.{
  Configuration, UreqError, transport, connection_failed, SdkError, response_error, UserRole,
  ApiCall, Service,
}
use nethsm_pkcs.Service
use nethsm_pkcs.Login.{RetryConfig, LoginCtx, Run, returns, runs_out, ◌>>=◌, get_config_user_mode}

-- What `try_` does with an error of the client.
pub data Verdict : Type 0 where
  unusable unreachable fatal : Verdict

abbrev pub u32_mod : ℕ
u32_mod = 2 ^ 32

abbrev is_unusable : ℕ → Bool
is_unusable status =
    status == 500 || status == 501 || status == 502 || status == 503 || status == 412

unfoldable pub verdict : SdkError → Verdict
verdict (response_error status content) = if is_unusable status then unusable else fatal
verdict (SdkError.ureq (transport Service.io message)) = unreachable
verdict (SdkError.ureq (transport connection_failed message)) = unreachable
verdict e = fatal

-- How one instance answers: a result, an error that ends `try_`, or `break`.
pub data Attempt (R : Type 0) : Type 0 where
  success : R → Attempt R
  failure : ApiError → Attempt R
  skip : Attempt R

abbrev pub default_retries : RetryConfig
default_retries = record { count = 1; delay_seconds = 0 }

-- The rounds after which the u32 `retry_count` has met the limit: a limit of 0 is met by overflow.
abbrev pub rounds : ℕ → ℕ
rounds limit = if limit == 0 then u32_mod else limit

module _ {W : Type 0} (x : Service W) where
  -- `From<apis::Error<T>> for ApiError` of backend/mod.rs.
  unfoldable pub to_api_error : SdkError → ApiError
  to_api_error (SdkError.ureq (transport kind message)) = ApiError.ureq message
  to_api_error (SdkError.ureq (UreqError.status message)) = ApiError.ureq message
  to_api_error SdkError.serde = ApiError.serde
  to_api_error SdkError.io = ApiError.io
  to_api_error (response_error status content) =
      ApiError.response_error
        (record { status = status; content = unwrap_or (x.from_utf8 content) "" })
  to_api_error SdkError.string_parse = ApiError.string_parse

  module _ {R : Type 0} (call : ApiCall W R) where
    -- The inner `loop`, on fuel; `none` means that the fuel ran out.
    unfoldable pub retry_loop : ℕ → Configuration → RetryConfig → ℕ → W → Option (Attempt R) × W
    unfolding verdict to_api_error
    retry_loop zero conf retries retry_count w = (none, w)
    retry_loop (suc fuel) conf retries retry_count w =
        let retry_count' = (retry_count + 1) % u32_mod in
        let (response, w') = call conf w in
        let again = retry_loop fuel conf retries retry_count' (x.sleep retries.delay_seconds w') in
        elim response [
          | ok result ↦ (some (success result), w')
          | err e ↦ elim (verdict e) [
            | unusable ↦ (some skip, w')
            | unreachable ↦
                if retry_count' == retries.count
                then (some (failure instance_removed), w')
                else again
            | fatal ↦ (some (failure (to_api_error e)), w')
          ]
        ]

    unfoldable pub ask : RetryConfig → Configuration → W → Option (Attempt R) × W
    unfolding retry_loop
    ask retries conf w = retry_loop (rounds retries.count) conf retries 0 w

    -- What is done with the answer of one instance; `rest` is the `for` from there on.
    abbrev pub settle :
        LoginCtx
        → (W → Run (Result ApiError R × LoginCtx × W))
        → Option (Attempt R) × W
        → Run (Result ApiError R × LoginCtx × W)
    settle c rest (none, w) = runs_out
    settle c rest (some (success result), w) = returns (ok result, c, w)
    settle c rest (some (failure e), w) = returns (err e, c, w)
    settle c rest (some skip, w) = rest w

    -- The outer `for`, by the rounds left.
    unfoldable pub try_loop : ℕ → UserMode → LoginCtx → W → Run (Result ApiError R × LoginCtx × W)
    unfolding get_config_user_mode ask
    try_loop zero mode c w = returns (err no_instance, c, w)
    try_loop (suc n) mode c w = do
      (conf, c') ← get_config_user_mode mode c
      elim conf [
        | none ↦ try_loop n mode c' w
        | some k ↦ settle c' (try_loop n mode c') (ask (unwrap_or c'.retries default_retries) k w)
      ]

    unfoldable pub try_ : UserMode → LoginCtx → W → Run (Result ApiError R × LoginCtx × W)
    unfolding try_loop
    try_ mode c w = try_loop (length c.instances) mode c w

  role_status : UserRole → UserStatus
  role_status UserRole.operator = UserStatus.operator
  role_status UserRole.administrator = UserStatus.administrator
  role_status UserRole.other = UserStatus.logged_out

  unfoldable pub get_current_user_status : Configuration → W → UserStatus × W
  unfolding role_status
  get_current_user_status api_config w = elim api_config.basic_auth [
    | none ↦ (UserStatus.logged_out, w)
    | some (name, none) ↦ (UserStatus.logged_out, w)
    | some (name, some password) ↦
        let (user, w') = x.users_user_id_get name api_config w in
        elim user [ ok role ↦ (role_status role, w') | err e ↦ (UserStatus.logged_out, w') ]
  ]
