-- ===== src/Login/Retry.antt =====
-- How `try_` and its loops end (backend/login.rs).
use nethsm_pkcs.Common.{
  ℕ, zero, suc, ◌+◌, ◌%◌, ◌≤◌, ◌<◌, ◌≡◌, refl, inl, inr, true, Option, none, some, Result, ok, err,
  length, unwrap_or, is_some, get_elem?, ◌==◌, arith, Bool-cases,
}
use nethsm_pkcs.Errors.{UserMode, ApiError, no_instance}
use nethsm_pkcs.Service.{Configuration, ApiCall, Service}
use nethsm_pkcs.Login.{
  RetryConfig, LoginCtx, Run, returns, ◌>>=◌, operator, administrator, next_instance,
  get_config_user_mode, operator_or_administrator,
}
use nethsm_pkcs.Login.Calls.{
  settle, Attempt, success, failure, skip, retry_loop, ask, default_retries, u32_mod, try_loop,
  try_,
}

module _ {W R : Type 0} (x : Service W) (call : ApiCall W R) where
  -- With as many rounds as are left until the counter meets the limit, the loop ends by itself.
  retry_loop_ends :
      (fuel retry_count : ℕ) (k : Configuration) (retries : RetryConfig) (w : W)
      → 0 < fuel
      → retry_count + fuel ≤ u32_mod
      → (retry_count + fuel) % u32_mod ≡ retries.count
      → is_some (retry_loop x call fuel k retries retry_count w).0 ≡ true
  unfolding retry_loop
  retry_loop_ends zero n k retries w p b e = absurd (omega arith)
  retry_loop_ends (suc zero) n k retries w p b e = ground arith
  retry_loop_ends (suc (suc fuel)) n k retries w p b e = ground (
    arith,
    retry_loop_ends (suc fuel) ((n + 1) % u32_mod) k retries
        (x.sleep retries.delay_seconds (call k w).1),
  )

  -- The retry loop of one instance ends within the rounds that `ask` allows, for every limit that a
  -- u32 holds.
  ask_ends :
      (retries : RetryConfig) (k : Configuration) (w : W)
      → retries.count < u32_mod
      → is_some (ask x call retries k w).0 ≡ true
  unfolding ask
  ask_ends retries k w h = elim (Bool-cases (retries.count == 0)) [
    | inl e ↦
        rw e (retry_loop_ends u32_mod 0 k retries w (omega arith) (omega arith) (ground arith))
    | inr e ↦
        rw e
          (retry_loop_ends retries.count 0 k retries w (ground arith) (omega arith) (ground arith))
  ]

-- Choosing a configuration moves the index and nothing else, and does not panic.
pub next_instance_lem :
    (c : LoginCtx)
    → 0 < length c.instances
    → next_instance c
      ≡ returns (
        get_elem? c.instances ((c.index + 1) % length c.instances),
        record c { index = (c.index + 1) % length c.instances },
      )
unfolding next_instance
next_instance_lem c h = ground arith

abbrev pub Chosen : LoginCtx → Run (Option Configuration × LoginCtx) → Type 0
Chosen c r = (conf : Option Configuration) × (i : ℕ) × (r ≡ returns (conf, record c { index = i }))

operator-Chosen : (c : LoginCtx) → 0 < length c.instances → Chosen c (operator c)
unfolding operator
operator-Chosen c h = rw (next_instance_lem c h) (_, _, refl)

administrator-Chosen : (c : LoginCtx) → 0 < length c.instances → Chosen c (administrator c)
unfolding administrator
administrator-Chosen c h = rw (next_instance_lem c h) (_, _, refl)

-- `or_else(|| self.administrator())`.
either_step :
    (c : LoginCtx) (r : Run (Option Configuration × LoginCtx))
    → 0 < length c.instances
    → Chosen c r
    → Chosen c
        (r >>= λ (conf, c'). elim conf [ some k ↦ returns (some k, c') | none ↦ administrator c' ])
either_step c r h (some k, i, e) = rw e (some k, i, refl)
either_step c r h (none, i, e) = rw e (administrator-Chosen (record c { index = i }) h)

either-Chosen : (c : LoginCtx) → 0 < length c.instances → Chosen c (operator_or_administrator c)
unfolding operator_or_administrator
either-Chosen c h = either_step c (operator c) h (operator-Chosen c h)

pub get_config-Chosen :
    (mode : UserMode) (c : LoginCtx)
    → 0 < length c.instances
    → Chosen c (get_config_user_mode mode c)
unfolding get_config_user_mode
get_config-Chosen UserMode.operator c h = operator-Chosen c h
get_config-Chosen UserMode.administrator c h = administrator-Chosen c h
get_config-Chosen UserMode.guest c h = rw (next_instance_lem c h) (_, _, refl)
get_config-Chosen UserMode.operator_or_administrator c h = either-Chosen c h

module _ {W R : Type 0} (x : Service W) (call : ApiCall W R) where
  abbrev pub Ends : LoginCtx → Run (Result ApiError R × LoginCtx × W) → Type 0
  Ends c r =
      (res : Result ApiError R) × (i : ℕ) × (w : W) × (r ≡ returns (res, record c { index = i }, w))

  settle-Ends :
      (c : LoginCtx) (i : ℕ) (rest : W → Run (Result ApiError R × LoginCtx × W))
      (a : Option (Attempt R) × W)
      → is_some a.0 ≡ true
      → ((w : W) → Ends c (rest w))
      → Ends c (settle x call (record c { index = i }) rest a)
  settle-Ends c i rest (none, w) s h = cc
  settle-Ends c i rest (some (success result), w) s h = (ok result, i, w, refl)
  settle-Ends c i rest (some (failure e), w) s h = (err e, i, w, refl)
  settle-Ends c i rest (some skip, w) s h = h w

  -- One round of the `for`, from what the later rounds do.
  round-Ends :
      (n : ℕ) (mode : UserMode) (c : LoginCtx) (w : W)
      → (unwrap_or c.retries default_retries).count < u32_mod
      → ((i : ℕ) (w' : W) → Ends c (try_loop x call n mode (record c { index = i }) w'))
      → Chosen c (get_config_user_mode mode c)
      → Ends c (try_loop x call (suc n) mode c w)
  unfolding try_loop
  round-Ends n mode c w l rest (none, i, e) = rw e (rest i w)
  round-Ends n mode c w l rest (some k, i, e) = rw e (
      settle-Ends c i (try_loop x call n mode (record c { index = i }))
        (ask x call (unwrap_or c.retries default_retries) k w)
        (ask_ends x call (unwrap_or c.retries default_retries) k w l) (rest i))

  try_loop-Ends :
      (n : ℕ) (mode : UserMode) (c : LoginCtx) (w : W)
      → n ≤ length c.instances
      → (unwrap_or c.retries default_retries).count < u32_mod
      → Ends c (try_loop x call n mode c w)
  unfolding try_loop
  try_loop-Ends zero mode c w h l = (err no_instance, c.index, w, refl)
  try_loop-Ends (suc n) mode c w h l =
      round-Ends n mode c w l
        (λ i w'. try_loop-Ends n mode (record c { index = i }) w' (omega arith) l)
        (get_config-Chosen mode c (omega arith))

  -- `try_` always returns, whatever the NetHSM answers, for every retry limit that a u32 holds: it
  -- neither panics nor loops for ever, and of the context it changes the index alone.
  pub try_-returns :
      (mode : UserMode) (c : LoginCtx) (w : W)
      → (unwrap_or c.retries default_retries).count < u32_mod
      → Ends c (try_ x call mode c w)
  unfolding try_
  try_-returns mode c w l = try_loop-Ends (length c.instances) mode c w (omega arith) l
