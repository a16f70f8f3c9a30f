-- ===== src/Api/Random.antt =====
-- The bytes of C_GenerateRandom (pkcs11/src/api/generation.rs).
use nethsm_pkcs.Common.{
  ℕ, ◌≤◌, ◌≡◌, ◌⊎◌, refl, inl, inr, Bool, true, false, Option, none, some, List, [], length,
  length-take, arith,
}
use nethsm_pkcs.Constants
use nethsm_pkcs.Errors.{UserMode}
use nethsm_pkcs.Service.Keys.{KeyService}
use nethsm_pkcs.Login.{returns, can_run_mode}
use nethsm_pkcs.Login.Calls.{try_}
use nethsm_pkcs.Login.Results.{After, any_result-After, if-After, After_returns}
use nethsm_pkcs.Session.{Session}
use nethsm_pkcs.Api.{Globals, Reply, lock_session}
use nethsm_pkcs.Api.Replies.{lock_session-After}
use nethsm_pkcs.Api.Generation.{random_reply, random_handler, c_generate_random}

-- At most `n` bytes, and none without CKR_OK.
abbrev pub Within : ℕ → Reply → Type 0
Within n reply = (length reply.bytes ≤ n) × ((reply.bytes ≡ []) ⊎ (reply.rv ≡ Constants.ckr_ok))

module _ {W : Type 0} (k : KeyService W) where
  random_reply-Within : (n : ℕ) (raw : Option (List ℕ)) → Within n (random_reply k n raw)
  unfolding random_reply
  random_reply-Within n none = (omega arith, inl refl)
  random_reply-Within n (some raw) = (omega (arith, length-take n raw), inr refl)

  random_handler-Within :
      (n : ℕ) (s : Session) (w : W)
      → After (λ (r : Reply × Session × W). Within n r.0) (random_handler k n s w)
  unfolding random_handler
  random_handler-Within n s w =
      if-After _ (can_run_mode s.login_ctx UserMode.operator) _ _
        (any_result-After _ (try_ k.service (k.random_post n) UserMode.operator s.login_ctx w) _
          (λ random c v. random_reply-Within n (k.service.base64_decode random))
          (λ e c v. (omega arith, inl refl)))
        (omega arith, inl refl)

  locked-Within :
      (hSession n : ℕ) (g : Globals) (w : W)
      → After
          (λ (r : Reply × Globals × W). Within n r.0)
          (lock_session hSession (random_handler k n) g w)
  locked-Within hSession n g w =
      lock_session-After (Within n) hSession (random_handler k n) g w (omega arith, inl refl)
        (λ s. random_handler-Within n s w)

  -- C_GenerateRandom copies at most as many bytes as it is asked for, and at most 1024; it copies none
  -- where it does not return CKR_OK.
  pub random_bytes_fit :
      (hSession : ℕ) (there : Bool) (n : ℕ) (g g' : Globals) (w w' : W) (reply : Reply)
      → c_generate_random k hSession there n g w ≡ returns (reply, g', w')
      → (length reply.bytes ≤ n)
        × (length reply.bytes ≤ 1024)
        × ((reply.bytes ≡ []) ⊎ (reply.rv ≡ Constants.ckr_ok))
  unfolding c_generate_random
  random_bytes_fit hSession false n g g' w w' reply h = ground arith
  random_bytes_fit hSession true n g g' w w' reply h = ground (
    arith,
    After_returns (λ (r : Reply × Globals × W). Within n r.0)
        (lock_session hSession (random_handler k n) g w) (reply, g', w') _
        (locked-Within hSession n g w),
  )
