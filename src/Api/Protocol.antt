-- ===== src/Api/Protocol.antt =====
-- The functions against the sessions they name: closed sessions, lost data, and the sizes they ask for.
use nethsm_pkcs.Common.{
  ℕ, ◌≤◌, ◌<◌, ◌≡◌, refl, true, some, List, Result, ok, err, length, arith, lookup-remove,
  length-append,
}
use nethsm_pkcs.Constants
use nethsm_pkcs.Errors.{Error}
use nethsm_pkcs.Errors.Values.{error_rv_fails}
use nethsm_pkcs.Service.{Service}
use nethsm_pkcs.Login.{Run, returns, panics, runs_out}
use nethsm_pkcs.Sign
use nethsm_pkcs.Sign.{SignCtx, get_theoretical_size}
use nethsm_pkcs.Session.{Session}
use nethsm_pkcs.Encrypt
use nethsm_pkcs.Encrypt.{EncryptCtx, encrypt_block_size, get_biggest_chunk_len}
use nethsm_pkcs.Api.Encrypting.{update_size}
use nethsm_pkcs.Session.Signing.{sign, sign_theoretical_size}
use nethsm_pkcs.Manager.{get_session, delete_session}
use nethsm_pkcs.Api.{Globals, Reply, just, Handler, lock_session}
use nethsm_pkcs.Api.Signing.{sign_handler}
use nethsm_pkcs.Api.Sessions.{c_close_session}

-- After C_CloseSession, each function that is called for the handle returns
-- CKR_SESSION_HANDLE_INVALID and does nothing.
pub closed_session_refuses :
    {W : Type 0} (h : ℕ) (handler : Handler W) (g : Globals) (w : W)
    → lock_session h handler (c_close_session h g).1 w
      ≡ returns (just Constants.ckr_session_handle_invalid, (c_close_session h g).1, w)
unfolding lock_session c_close_session delete_session get_session
closed_session_refuses h handler g w = ground (arith, lookup-remove h h g.manager.sessions)

-- The chunk that `encrypt_available_data` sends after a part was added to a rest of less than a block
-- is at most as long as the size that C_EncryptUpdate asks for before it adds the part.
pub chunk_update_size :
    (part : List ℕ) (c : EncryptCtx)
    → length c.buffer < encrypt_block_size
    → get_biggest_chunk_len (Encrypt.add_data part c) ≤ update_size part
unfolding get_biggest_chunk_len Encrypt.add_data
chunk_update_size part c h = omega (arith, length-append c.buffer part)

module _ {W : Type 0} (x : Service W) where
  kept_ctx :
      (bytes : List ℕ) (s s' : Session) (c : SignCtx) (w w' : W) (output : Result Error (List ℕ))
      → s.sign_ctx ≡ some c
      → sign x bytes s w ≡ returns (output, s', w')
      → s'.sign_ctx ≡ some (Sign.update bytes c)
  unfolding sign
  kept_ctx bytes s s' c w w' output e h = ground arith

  lost_in :
      (answer : Run (Result Error (List ℕ) × Session × W)) (bytes : List ℕ) (len : ℕ)
      (s s' : Session) (c : SignCtx) (w w' : W) (reply : Reply)
      → sign x bytes s w ≡ answer
      → s.sign_ctx ≡ some c
      → get_theoretical_size c ≤ len
      → sign_handler x (some bytes) true (some len) s w ≡ returns (reply, s', w')
      → reply.rv ≡ Constants.ckr_buffer_too_small
      → s'.sign_ctx ≡ some (Sign.update bytes c)
  unfolding sign_handler sign_theoretical_size
  lost_in (returns (ok signature, t, v)) bytes len s s' c w w' reply a e l h r =
      ground (arith, kept_ctx bytes s t c w v (ok signature) e a)
  lost_in (returns (err f, t, v)) bytes len s s' c w w' reply a e l h r =
      ground (arith, (error_rv_fails f).1)
  lost_in panics bytes len s s' c w w' reply a e l h r = ground arith
  lost_in runs_out bytes len s s' c w w' reply a e l h r = ground arith

  -- Where C_Sign returns CKR_BUFFER_TOO_SMALL though the buffer has the size that it asks for, the
  -- data is left in the operation, after the data that was there.
  pub lost_signature :
      (bytes : List ℕ) (len : ℕ) (s s' : Session) (c : SignCtx) (w w' : W) (reply : Reply)
      → s.sign_ctx ≡ some c
      → get_theoretical_size c ≤ len
      → sign_handler x (some bytes) true (some len) s w ≡ returns (reply, s', w')
      → reply.rv ≡ Constants.ckr_buffer_too_small
      → s'.sign_ctx ≡ some (Sign.update bytes c)
  lost_signature bytes len s s' c w w' reply e l h r =
      lost_in (sign x bytes s w) bytes len s s' c w w' reply refl e l h r
