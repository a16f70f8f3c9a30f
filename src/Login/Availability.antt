-- ===== src/Login/Availability.antt =====
-- Which instances `try_` reaches (backend/login.rs).
use native.Mathlib.Nat.{add-mod_right, mod-add-mod, mod-lt, mod-eq_of_lt}
use native.Mathlib.Decide.{dec_lt}
use nethsm_pkcs.Common.{
  ℕ, zero, suc, ◌+◌, ◌-◌, ◌%◌, ◌≤◌, ◌<◌, ◌≡◌, ◌≢◌, refl, Bool, true, false, Option, none, some,
  List, [], ◌∷◌, Result, ok, err, length, get_elem?, unwrap_or, arith, sym, ◌∙◌, ap,
}
use nethsm_pkcs.Errors.{UserMode, ApiError}
use nethsm_pkcs.Service.{Configuration, SdkError, ApiCall, Service}
use nethsm_pkcs.Login.{
  RetryConfig, LoginCtx, Run, returns, operator, administrator, get_config_user_mode,
  get_user_api_config, and_then,
}
use nethsm_pkcs.Login.Calls.{
  Attempt, success, failure, skip, verdict, unusable, retry_loop, ask, default_retries, rounds,
  settle, try_loop, try_,
}
use nethsm_pkcs.Login.Retry.{next_instance_lem}

-- The modes that take one step through the instances for each call.
abbrev pub Single : UserMode → Type 0
Single mode = mode ≢ UserMode.operator_or_administrator

-- The configuration with which a mode calls an instance.
abbrev pub conf_for : UserMode → LoginCtx → Configuration → Option Configuration
conf_for UserMode.operator c = get_user_api_config c.operator
conf_for UserMode.administrator c = get_user_api_config c.administrator
conf_for UserMode.guest c = some
conf_for UserMode.operator_or_administrator c = λ k. none

abbrev pub next_index : LoginCtx → ℕ
next_index c = (c.index + 1) % length c.instances

conf_for_index :
    (mode : UserMode) (c : LoginCtx) (i : ℕ)
    → conf_for mode (record c { index = i }) ≡ conf_for mode c
conf_for_index UserMode.operator c i = refl
conf_for_index UserMode.administrator c i = refl
conf_for_index UserMode.guest c i = refl
conf_for_index UserMode.operator_or_administrator c i = refl

-- The steps from the index to `j`, at least one.
steps_to : (index j n : ℕ) → j < n → (d : ℕ) × (0 < d) × (d ≤ n) × ((index + d) % n ≡ j)
steps_to index j n h =
    let r : ℕ = index % n in
    let small : r < n = mod-lt index (omega arith) in
    elim (dec_lt r j) [
      | yes p ↦
          let back : r + (j - r) ≡ j = omega arith in
          (
            j - r,
            omega arith,
            omega arith,
            sym (mod-add-mod index n (j - r)) ∙ ap (λ (t : ℕ). t % n) back ∙ mod-eq_of_lt h,
          )
      | no p ↦
          let back : r + (j + n - r) ≡ j + n = omega arith in
          (
            j + n - r,
            omega arith,
            omega arith,
            sym (mod-add-mod index n (j + n - r))
                ∙ ap (λ (t : ℕ). t % n) back
                ∙ add-mod_right j n
                ∙ mod-eq_of_lt h,
          )
    ]

and_then-some : (o : Option Configuration) → and_then o some ≡ o
and_then-some none = refl
and_then-some (some k) = refl

pub rounds_pos : (limit : ℕ) → 0 < rounds limit
rounds_pos limit = ground arith

get_elem?-lt {ℓ} :
    {A : Type ℓ} (xs : List A) (i : ℕ) {a : A} → get_elem? xs i ≡ some a → i < length xs
get_elem?-lt [] i e = cc
get_elem?-lt (x ∷ xs) zero e = omega arith
get_elem?-lt (x ∷ xs) (suc i) e = omega (arith, get_elem?-lt xs i e)

get_config-Single :
    (mode : UserMode) (c : LoginCtx)
    → Single mode
    → 0 < length c.instances
    → get_config_user_mode mode c
      ≡ returns (
        and_then (get_elem? c.instances (next_index c)) (conf_for mode c),
        record c { index = next_index c },
      )
unfolding get_config_user_mode operator administrator
get_config-Single UserMode.operator c s h = rw (next_instance_lem c h) refl
get_config-Single UserMode.administrator c s h = rw (next_instance_lem c h) refl
get_config-Single UserMode.guest c s h =
    rw (and_then-some (get_elem? c.instances (next_index c))) (next_instance_lem c h)
get_config-Single UserMode.operator_or_administrator c s h = absurd (s refl)

module _ {W R : Type 0} (x : Service W) (call : ApiCall W R) where
  -- An answer that does not end `try_` with an error.
  abbrev pub soft : Result SdkError R → Bool
  soft (ok r) = true
  soft (err e) = elim (verdict e) [ unusable ↦ true | _ ↦ false ]

  abbrev pub answered : Result SdkError R → Bool
  answered (ok r) = true
  answered (err e) = false

  abbrev pub passes : Option (Attempt R) → Bool
  passes none = false
  passes (some (success r)) = true
  passes (some (failure e)) = false
  passes (some skip) = true

  abbrev pub succeeds : Option (Attempt R) → Bool
  succeeds none = false
  succeeds (some (success r)) = true
  succeeds (some (failure e)) = false
  succeeds (some skip) = false

  retry_loop-soft :
      (fuel n : ℕ) (retries : RetryConfig) (k : Configuration) (w : W)
      → 0 < fuel
      → soft (call k w).0 ≡ true
      → passes (retry_loop x call fuel k retries n w).0 ≡ true
  unfolding retry_loop
  retry_loop-soft zero n retries k w p h = absurd (omega arith)
  retry_loop-soft (suc fuel) n retries k w p h = ground arith

  retry_loop-answered :
      (fuel n : ℕ) (retries : RetryConfig) (k : Configuration) (w : W)
      → 0 < fuel
      → answered (call k w).0 ≡ true
      → succeeds (retry_loop x call fuel k retries n w).0 ≡ true
  unfolding retry_loop
  retry_loop-answered zero n retries k w p h = absurd (omega arith)
  retry_loop-answered (suc fuel) n retries k w p h = ground arith

  ask-soft :
      (retries : RetryConfig) (k : Configuration) (w : W)
      → soft (call k w).0 ≡ true
      → passes (ask x call retries k w).0 ≡ true
  unfolding ask
  ask-soft retries k w h =
      retry_loop-soft (rounds retries.count) 0 retries k w (rounds_pos retries.count) h

  ask-answered :
      (retries : RetryConfig) (k : Configuration) (w : W)
      → answered (call k w).0 ≡ true
      → succeeds (ask x call retries k w).0 ≡ true
  unfolding ask
  ask-answered retries k w h =
      retry_loop-answered (rounds retries.count) 0 retries k w (rounds_pos retries.count) h

  abbrev pub Answers : Run (Result ApiError R × LoginCtx × W) → Type 0
  Answers r = (a : R) × (c : LoginCtx) × (w : W) × (r ≡ returns (ok a, c, w))

  settle_answered :
      (c : LoginCtx) (rest : W → Run (Result ApiError R × LoginCtx × W))
      (a : Option (Attempt R) × W)
      → succeeds a.0 ≡ true
      → Answers (settle x call c rest a)
  settle_answered c rest (none, w) h = cc
  settle_answered c rest (some (success a), w) h = (a, c, w, refl)
  settle_answered c rest (some (failure e), w) h = cc
  settle_answered c rest (some skip, w) h = cc

  settle_soft :
      (c : LoginCtx) (rest : W → Run (Result ApiError R × LoginCtx × W))
      (a : Option (Attempt R) × W)
      → passes a.0 ≡ true
      → ((w : W) → Answers (rest w))
      → Answers (settle x call c rest a)
  settle_soft c rest (none, w) h r = cc
  settle_soft c rest (some (success a), w) h r = (a, c, w, refl)
  settle_soft c rest (some (failure e), w) h r = cc
  settle_soft c rest (some skip, w) h r = r w

  -- One round: an instance that answers ends it, and any other leaves it to the later rounds.
  round-Answers :
      (n : ℕ) (mode : UserMode) (c c' : LoginCtx) (conf : Option Configuration) (w : W)
      → get_config_user_mode mode c ≡ returns (conf, c')
      → ((k : Configuration) (w : W) → soft (call k w).0 ≡ true)
      → ((w : W) → Answers (try_loop x call n mode c' w))
      → Answers (try_loop x call (suc n) mode c w)
  unfolding try_loop
  round-Answers n mode c c' none w e s rest = rw e (rest w)
  round-Answers n mode c c' (some k) w e s rest = rw e (
      settle_soft c' (try_loop x call n mode c') _
        (ask-soft (unwrap_or c'.retries default_retries) k w (s k w)) rest)

  round_hits :
      (n : ℕ) (mode : UserMode) (c c' : LoginCtx) (k : Configuration) (w : W)
      → get_config_user_mode mode c ≡ returns (some k, c')
      → ((w : W) → answered (call k w).0 ≡ true)
      → Answers (try_loop x call (suc n) mode c w)
  unfolding try_loop
  round_hits n mode c c' k w e a = rw e (
      settle_answered c' (try_loop x call n mode c') _
        (ask-answered (unwrap_or c'.retries default_retries) k w (a w)))

  try_loop-Answers :
      (n d j : ℕ) (mode : UserMode) (c : LoginCtx) (inst k : Configuration)
      → Single mode
      → n ≤ length c.instances
      → 0 < d
      → d ≤ n
      → (c.index + d) % length c.instances ≡ j
      → get_elem? c.instances j ≡ some inst
      → conf_for mode c inst ≡ some k
      → ((w : W) → answered (call k w).0 ≡ true)
      → ((k : Configuration) (w : W) → soft (call k w).0 ≡ true)
      → (w : W) → Answers (try_loop x call n mode c w)
  try_loop-Answers zero d j mode c inst k m h p q e g f a s w = absurd (omega arith)
  try_loop-Answers (suc n) zero j mode c inst k m h p q e g f a s w = absurd (omega arith)
  try_loop-Answers (suc n) (suc zero) j mode c inst k m h p q e g f a s w =
      round_hits n mode c _ k w
        (get_config-Single mode c m (omega arith)
          ∙ ap (λ (o : Option Configuration). returns (o, record c { index = next_index c }))
              (rw (e, g) f))
        a
  try_loop-Answers (suc n) (suc (suc d)) j mode c inst k m h p q e g f a s w =
      round-Answers n mode c _ _ w (get_config-Single mode c m (omega arith)) s (
        try_loop-Answers n (suc d) j mode (record c { index = next_index c }) inst k m (omega arith)
          (omega arith) (omega arith)
          (mod-add-mod (c.index + 1) (length c.instances) (suc d)
            ∙ ap (λ (t : ℕ). t % length c.instances) (omega arith)
            ∙ e)
          g (rw (conf_for_index mode c (next_index c)) f) a s)

  -- In a mode of a single user, if no instance answers a call with an error that ends `try_`, and one
  -- instance answers it whenever it is asked, then `try_` returns a result, wherever that instance
  -- stands in the list and whatever the index is.
  pub try_-Answers :
      (mode : UserMode) (c : LoginCtx) (j : ℕ) (inst k : Configuration) (w : W)
      → Single mode
      → get_elem? c.instances j ≡ some inst
      → conf_for mode c inst ≡ some k
      → ((w : W) → answered (call k w).0 ≡ true)
      → ((k : Configuration) (w : W) → soft (call k w).0 ≡ true)
      → Answers (try_ x call mode c w)
  unfolding try_
  try_-Answers mode c j inst k w m g f a s =
      let (d, p, q, e) = steps_to c.index j (length c.instances) (get_elem?-lt c.instances j g) in
      try_loop-Answers (length c.instances) d j mode c inst k m (omega arith) p q e g f a s w
