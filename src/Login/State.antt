-- ===== src/Login/State.antt =====
-- `can_run_mode` and the configurations of a login context (backend/login.rs).
use native.Mathlib.Nat.{mod-lt}
use nethsm_pkcs.Common.{
  ℕ, zero, suc, ◌+◌, ◌%◌, ◌<◌, ◌≡◌, refl, inl, inr, true, ◌||◌, Option, none, some, List, [], ◌∷◌,
  length, get_elem?, arith, ap, ◌∙◌, Bool-cases, Option-cases,
}
use nethsm_pkcs.Errors.{UserMode}
use nethsm_pkcs.Service.{Configuration}
use nethsm_pkcs.Login.{
  UserConfig, LoginCtx, Run, returns, operator, administrator, next_instance, get_config_user_mode,
  operator_or_administrator, get_user_api_config, can_run_mode, user_is_valid,
}
use nethsm_pkcs.Login.Retry.{next_instance_lem}

get_elem?-some {ℓ} :
    {A : Type ℓ} (xs : List A) (i : ℕ) → i < length xs → (a : A) × (get_elem? xs i ≡ some a)
get_elem?-some [] i h = absurd (omega arith)
get_elem?-some (x ∷ xs) zero h = (x, refl)
get_elem?-some (x ∷ xs) (suc i) h = get_elem?-some xs i (omega arith)

abbrev pub Ready : Run (Option Configuration × LoginCtx) → Type 0
Ready r = (k : Configuration) × (c : LoginCtx) × (r ≡ returns (some k, c))

valid_user :
    (user : Option UserConfig) (i : Configuration)
    → user_is_valid user ≡ true
    → (k : Configuration) × (get_user_api_config user i ≡ some k)
unfolding user_is_valid get_user_api_config
valid_user none i h = cc
valid_user (some user) i h = elim (Option-cases user.password) [
  | inl e ↦ absurd (ground arith)
  | inr (p, e) ↦ (record i { basic_auth = some (user.username, some p) }, ground arith)
]

pub nonempty :
    (c : LoginCtx) (mode : UserMode) → can_run_mode c mode ≡ true → 0 < length c.instances
unfolding can_run_mode
nonempty c mode h = ground arith

abbrev next_ctx : LoginCtx → LoginCtx
next_ctx c = record c { index = (c.index + 1) % length c.instances }

next_some :
    (c : LoginCtx)
    → 0 < length c.instances
    → (k : Configuration) × (next_instance c ≡ returns (some k, next_ctx c))
next_some c h =
    let (k, e) =
      get_elem?-some c.instances ((c.index + 1) % length c.instances) (mod-lt (c.index + 1) h) in
    (k, next_instance_lem c h ∙ ap (λ (o : Option Configuration). returns (o, next_ctx c)) e)

operator_Ready :
    (c : LoginCtx) → 0 < length c.instances → user_is_valid c.operator ≡ true → Ready (operator c)
unfolding operator
operator_Ready c h v =
    let (i, e) = next_some c h in
    let (k, f) = valid_user c.operator i v in
    (k, next_ctx c, rw e (ap (λ (o : Option Configuration). returns (o, next_ctx c)) f))

administrator_Ready :
    (c : LoginCtx)
    → 0 < length c.instances
    → user_is_valid c.administrator ≡ true
    → Ready (administrator c)
unfolding administrator
administrator_Ready c h v =
    let (i, e) = next_some c h in
    let (k, f) = valid_user c.administrator i v in
    (k, next_ctx c, rw e (ap (λ (o : Option Configuration). returns (o, next_ctx c)) f))

-- `operator()` gives a configuration, or leaves the next step to `administrator()`.
either_step :
    (c : LoginCtx) (conf : Option Configuration)
    → operator c ≡ returns (conf, next_ctx c)
    → 0 < length c.instances
    → (conf ≡ none → user_is_valid c.administrator ≡ true)
    → Ready (operator_or_administrator c)
unfolding operator_or_administrator
either_step c (some k) e h v = (k, next_ctx c, rw e)
either_step c none e h v = rw e (administrator_Ready (next_ctx c) h (v refl))

operator_lem :
    (c : LoginCtx) (i : Configuration)
    → next_instance c ≡ returns (some i, next_ctx c)
    → operator c ≡ returns (get_user_api_config c.operator i, next_ctx c)
unfolding operator
operator_lem c i e = rw e

either_Ready :
    (c : LoginCtx)
    → 0 < length c.instances
    → (user_is_valid c.operator || user_is_valid c.administrator) ≡ true
    → Ready (operator_or_administrator c)
either_Ready c h v =
    let (i, e) = next_some c h in
    either_step c (get_user_api_config c.operator i) (operator_lem c i e) h λ n.
      elim (Bool-cases (user_is_valid c.operator)) [
        | inl t ↦ let (k, f) = valid_user c.operator i t in cc (n, f)
        | inr t ↦ ground arith
      ]

-- Where `can_run_mode` says yes, there is a configuration to call an instance with, whatever the
-- index.
pub can_run_mode-Ready :
    (c : LoginCtx) (mode : UserMode)
    → can_run_mode c mode ≡ true
    → Ready (get_config_user_mode mode c)
unfolding can_run_mode get_config_user_mode
can_run_mode-Ready c UserMode.operator h =
    operator_Ready c (nonempty c UserMode.operator h) (ground arith)
can_run_mode-Ready c UserMode.administrator h =
    administrator_Ready c (nonempty c UserMode.administrator h) (ground arith)
can_run_mode-Ready c UserMode.guest h =
    let (k, e) = next_some c (nonempty c UserMode.guest h) in (k, next_ctx c, e)
can_run_mode-Ready c UserMode.operator_or_administrator h =
    either_Ready c (nonempty c UserMode.operator_or_administrator h) (ground arith)
