-- ===== src/Login.antt =====
-- The login context of a session (pkcs11/src/backend/login.rs).
pub mod Results
pub mod Calls
pub mod Pins
pub mod Retry
pub mod Availability
pub mod Halves
pub mod State
pub mod Session
pub mod Answered
use Prim.Native.String
use nethsm_pkcs.Common.{
  ℕ, zero, suc, ◌+◌, ◌%◌, String, Bool, true, false, not, ◌&&◌, ◌||◌, Option, none, some, List, [],
  ◌∷◌, Result, ok, err, length, get_elem?, is_some, unwrap_or, select, ◌==◌, if◌then◌else◌,
}
use nethsm_pkcs.Constants
use nethsm_pkcs.Errors.{
  UserMode, LoginError, invalid_user, user_not_present, bad_argument, incorrect_pin, ApiError,
  instance_removed, no_instance,
}
use nethsm_pkcs.Service.{
  Configuration, SdkError, UreqError, transport, response_error, UserRole, ApiCall, Service,
  connection_failed,
}
use nethsm_pkcs.Service

-- `UserConfig` and `RetryConfig` of config/config_file.rs.
pub record UserConfig : Type 0 where
  pub username : String
  pub password : Option String

pub record RetryConfig : Type 0 where
  pub count : ℕ
  pub delay_seconds : ℕ

pub record LoginCtx : Type 0 where
  pub operator : Option UserConfig
  pub administrator : Option UserConfig
  pub instances : List Configuration
  pub index : ℕ
  pub ck_state : ℕ
  pub retries : Option RetryConfig

-- A computation that may panic, or that a bound on its rounds may stop.
pub data Run (A : Type 0) : Type 0 where
  returns : A → Run A
  panics runs_out : Run A

infixl 5 ◌>>=◌
abbrev pub ◌>>=◌ : {A B : Type 0} → Run A → (A → Run B) → Run B
returns a >>= f = f a
panics >>= f = panics
runs_out >>= f = runs_out

abbrev pub and_then : {A B : Type 0} → Option A → (A → Option B) → Option B
and_then none f = none
and_then (some a) f = f a

abbrev is_empty : String → Bool
is_empty String.[] = true
is_empty (String.◌∷◌ c s) = false

unfoldable pub get_user_api_config : Option UserConfig → Configuration → Option Configuration
get_user_api_config none api_config = none
get_user_api_config (some user) api_config = elim user.password [
  | none ↦ none
  | some p ↦ some (record api_config { basic_auth = some (user.username, some p) })
]

unfoldable pub user_is_valid : Option UserConfig → Bool
user_is_valid none = false
user_is_valid (some user) =
    not (is_empty user.username) && elim user.password [ none ↦ false | some p ↦ not (is_empty p) ]

first_state : Option UserConfig → Option UserConfig → Configuration → ℕ
first_state operator administrator instance_ =
    if is_some (get_user_api_config operator instance_)
    then Constants.cks_rw_user_functions
    else if is_some (get_user_api_config administrator instance_)
    then Constants.cks_rw_so_functions
    else Constants.cks_ro_public_session

-- `LoginCtx::new`.
unfoldable pub new :
    Option UserConfig → Option UserConfig → List Configuration → Option RetryConfig → LoginCtx
unfolding first_state get_user_api_config
new operator administrator instances retries = record {
  operator = operator;
  administrator = administrator;
  instances = instances;
  index = 0;
  ck_state = elim instances [
    | [] ↦ Constants.cks_ro_public_session
    | instance_ ∷ rest ↦ first_state operator administrator instance_
  ];
  retries = retries;
}

-- `% self.instances.len()` panics where there is no instance.
unfoldable pub next_instance : LoginCtx → Run (Option Configuration × LoginCtx)
next_instance c =
    if length c.instances == 0
    then panics
    else let index = (c.index + 1) % length c.instances in
      returns (get_elem? c.instances index, record c { index = index })

unfoldable pub operator : LoginCtx → Run (Option Configuration × LoginCtx)
unfolding next_instance get_user_api_config
operator c = do
  (instance_, c') ← next_instance c
  returns (and_then instance_ (get_user_api_config c'.operator), c')

unfoldable pub administrator : LoginCtx → Run (Option Configuration × LoginCtx)
unfolding next_instance get_user_api_config
administrator c = do
  (instance_, c') ← next_instance c
  returns (and_then instance_ (get_user_api_config c'.administrator), c')

unfoldable pub operator_or_administrator : LoginCtx → Run (Option Configuration × LoginCtx)
unfolding operator administrator
operator_or_administrator c = do
  (conf, c') ← operator c
  elim conf [ some k ↦ returns (some k, c') | none ↦ administrator c' ]

unfoldable pub get_config_user_mode : UserMode → LoginCtx → Run (Option Configuration × LoginCtx)
unfolding operator administrator operator_or_administrator next_instance
get_config_user_mode UserMode.operator c = operator c
get_config_user_mode UserMode.administrator c = administrator c
get_config_user_mode UserMode.guest c = next_instance c
get_config_user_mode UserMode.operator_or_administrator c = operator_or_administrator c

unfoldable pub can_run_mode : LoginCtx → UserMode → Bool
unfolding user_is_valid
can_run_mode c mode = if length c.instances == 0 then false else elim mode [
  | UserMode.operator ↦ user_is_valid c.operator
  | UserMode.administrator ↦ user_is_valid c.administrator
  | UserMode.guest ↦ true
  | UserMode.operator_or_administrator ↦ user_is_valid c.operator || user_is_valid c.administrator
]

unfoldable pub logout : LoginCtx → LoginCtx
logout c = record c { ck_state = Constants.cks_ro_public_session }
