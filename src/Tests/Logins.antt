-- ===== src/Tests/Logins.antt =====
-- Concrete runs of logins and of calls through a login context.
use text.Mathlib.Text.{◌==◌ as str_eq}
use nethsm_pkcs.Common.{
  ℕ, ◌≡◌, refl, ◌⊎◌, none, some, List, [], ok, err, if◌then◌else◌, arith, select,
}
use nethsm_pkcs.Constants
use nethsm_pkcs.Errors.{UserMode, no_instance}
use nethsm_pkcs.Service.{Configuration, ApiCall, response_error}
use nethsm_pkcs.Login.{LoginCtx, returns, get_user_api_config}
use nethsm_pkcs.Login.Calls.{try_, verdict}
use nethsm_pkcs.Login.Pins.{login}
use nethsm_pkcs.Login.Retry.{Ends, try_-returns}
use nethsm_pkcs.Login.Availability.{Answers, try_-Answers}
use nethsm_pkcs.Login.Halves.{either_gives_up, two_instances}
use nethsm_pkcs.Login.Session.{password_of, login_keeps_incorrect_pin}
use nethsm_pkcs.Tests.World.{quiet, user, login_ctx, first_instance, second_instance}

-- Only the second instance answers.
abbrev second_answers : ApiCall (List ℕ) ℕ
second_answers k w = if str_eq k.base_path "b" then (ok 5, w) else (err (response_error 503 []), w)

abbrev all_refuse : ApiCall (List ℕ) ℕ
all_refuse k w = (err (response_error 503 []), w)

try_-returns_example :
    Ends quiet all_refuse login_ctx
      (try_ quiet all_refuse UserMode.operator_or_administrator login_ctx [])
try_-returns_example =
    try_-returns quiet all_refuse UserMode.operator_or_administrator login_ctx [] (omega arith)

abbrev as_user : Configuration
as_user = record second_instance { basic_auth = some ("op", some "pin") }

try_-Answers_example :
    Answers quiet second_answers (try_ quiet second_answers UserMode.operator login_ctx [])
unfolding verdict
try_-Answers_example =
    try_-Answers quiet second_answers UserMode.operator login_ctx 1 second_instance as_user []
      (λ e. cc) refl (unfold get_user_api_config in refl) (λ w. refl) (λ k w. ground arith)

abbrev as_admin : Configuration
as_admin = record first_instance { basic_auth = some ("op", some "pin") }

either_gives_up_example :
    (w' : List ℕ) × (try_ quiet all_refuse UserMode.operator_or_administrator
        (two_instances user first_instance second_instance 0 none)
        []
      ≡ returns (err no_instance, two_instances user first_instance second_instance 0 none, w'))
unfolding get_user_api_config verdict
either_gives_up_example =
    either_gives_up quiet all_refuse user first_instance second_instance as_admin 0 none [] refl
      (λ w. refl)

abbrev refused_login : LoginCtx
refused_login = record login_ctx {
  administrator = some (record { username = "op"; password = some "1234" });
  index = 1;
}

login_keeps_incorrect_pin_example :
    ((Constants.cku_so ≡ Constants.cku_user) × (password_of refused_login.operator ≡ some "1234"))
    ⊎ ((Constants.cku_so ≡ Constants.cku_so)
        × (password_of refused_login.administrator ≡ some "1234"))
unfolding login select
login_keeps_incorrect_pin_example =
    login_keeps_incorrect_pin quiet Constants.cku_so "1234" login_ctx refused_login [] [] refl
