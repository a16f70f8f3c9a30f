-- ===== src/Api/Clearing.antt =====
-- What a call leaves of a session: the operation that it belongs to, and all else.
use nethsm_pkcs.Common.{ℕ, ◌≡◌, ◌≢◌, Bool, true, false, Option, none, [], is_some, arith}
use nethsm_pkcs.Constants
use nethsm_pkcs.Errors.{error_rv}
use nethsm_pkcs.Service.{Service}
use nethsm_pkcs.Login.{returns}
use nethsm_pkcs.Session.{Session}
use nethsm_pkcs.Session.Signing.{sign, sign_theoretical_size}
use nethsm_pkcs.Session.Encrypting.{encrypt, encrypt_update}
use nethsm_pkcs.Session.Decrypting.{decrypt, decrypt_final, decrypt_theoretical_final_size}
use nethsm_pkcs.Api.{Reply}
use nethsm_pkcs.Api.Calls.{
  Call, signs, encrypts, updates_encryption, decrypts, finishes_signature, finishes_encryption,
  finishes_decryption, serve,
}

-- The operation of a call is over.
abbrev pub Over : Call → Session → Type 0
Over (signs bytes) s = s.sign_ctx ≡ none
Over finishes_signature s = s.sign_ctx ≡ none
Over (encrypts bytes) s = s.encrypt_ctx ≡ none
Over (updates_encryption bytes) s = s.encrypt_ctx ≡ none
Over finishes_encryption s = s.encrypt_ctx ≡ none
Over (decrypts bytes) s = s.decrypt_ctx ≡ none
Over finishes_decryption s = s.decrypt_ctx ≡ none

-- All that the call's operation is not.
abbrev pub Keeps : Call → Session → Session → Type 0
Keeps call s s' =
    (s'.login_ctx ≡ s.login_ctx)
    × (s'.slot_id ≡ s.slot_id)
    × (s'.db ≡ s.db)
    × (s'.flags ≡ s.flags)
    × (s'.enum_ctx ≡ s.enum_ctx)
    × elim call [
      | signs bytes ↦ (s'.encrypt_ctx ≡ s.encrypt_ctx) × (s'.decrypt_ctx ≡ s.decrypt_ctx)
      | finishes_signature ↦ (s'.encrypt_ctx ≡ s.encrypt_ctx) × (s'.decrypt_ctx ≡ s.decrypt_ctx)
      | encrypts bytes ↦ (s'.sign_ctx ≡ s.sign_ctx) × (s'.decrypt_ctx ≡ s.decrypt_ctx)
      | updates_encryption bytes ↦ (s'.sign_ctx ≡ s.sign_ctx) × (s'.decrypt_ctx ≡ s.decrypt_ctx)
      | finishes_encryption ↦ (s'.sign_ctx ≡ s.sign_ctx) × (s'.decrypt_ctx ≡ s.decrypt_ctx)
      | decrypts bytes ↦ (s'.sign_ctx ≡ s.sign_ctx) × (s'.encrypt_ctx ≡ s.encrypt_ctx)
      | finishes_decryption ↦ (s'.sign_ctx ≡ s.sign_ctx) × (s'.encrypt_ctx ≡ s.encrypt_ctx)
    ]

module _ {W : Type 0} (x : Service W) where
  -- A call that returns neither CKR_OK nor CKR_BUFFER_TOO_SMALL has ended its operation, whatever
  -- the reason.
  pub serve_fails-Over :
      (call : Call) (buffer : Bool) (len : Option ℕ) (s s' : Session) (w w' : W) (reply : Reply)
      → serve x call buffer len s w ≡ returns (reply, s', w')
      → reply.rv ≢ Constants.ckr_ok
      → reply.rv ≢ Constants.ckr_buffer_too_small
      → Over call s'
  unfolding serve
  serve_fails-Over (signs bytes) buffer len s s' w w' reply h p q = ground arith
  serve_fails-Over (encrypts bytes) buffer len s s' w w' reply h p q = ground arith
  serve_fails-Over (updates_encryption bytes) buffer len s s' w w' reply h p q = ground arith
  serve_fails-Over (decrypts bytes) buffer len s s' w w' reply h p q = ground arith
  serve_fails-Over finishes_signature buffer len s s' w w' reply h p q = ground arith
  serve_fails-Over finishes_encryption buffer len s s' w w' reply h p q = ground arith
  serve_fails-Over finishes_decryption buffer len s s' w w' reply h p q = ground arith

  -- A call without an output buffer that returns CKR_OK asks for a length and does nothing else: the
  -- NetHSM is not called, the session is as before, nothing is copied, and a length is written.
  pub serve_asks :
      (call : Call) (len : Option ℕ) (s s' : Session) (w w' : W) (reply : Reply)
      → serve x call false len s w ≡ returns (reply, s', w')
      → reply.rv ≡ Constants.ckr_ok
      → (s' ≡ s) × (w' ≡ w) × (reply.bytes ≡ []) × (is_some reply.written ≡ true)
  unfolding serve sign_theoretical_size decrypt_theoretical_final_size error_rv
  serve_asks (signs bytes) len s s' w w' reply h p = ground arith
  serve_asks (encrypts bytes) len s s' w w' reply h p = ground arith
  serve_asks (updates_encryption bytes) len s s' w w' reply h p = ground arith
  serve_asks (decrypts bytes) len s s' w w' reply h p = ground arith
  serve_asks finishes_signature len s s' w w' reply h p = ground arith
  serve_asks finishes_encryption len s s' w w' reply h p = ground arith
  serve_asks finishes_decryption len s s' w w' reply h p = ground arith

  -- A call changes no part of its session other than its own operation: neither the login, nor the
  -- slot, nor the operations of other kinds.
  pub serve-Keeps :
      (call : Call) (buffer : Bool) (len : Option ℕ) (s s' : Session) (w w' : W) (reply : Reply)
      → serve x call buffer len s w ≡ returns (reply, s', w')
      → Keeps call s s'
  unfolding serve sign encrypt encrypt_update decrypt decrypt_final
  serve-Keeps (signs bytes) buffer len s s' w w' reply h = ground arith
  serve-Keeps (encrypts bytes) buffer len s s' w w' reply h = ground arith
  serve-Keeps (updates_encryption bytes) buffer len s s' w w' reply h = ground arith
  serve-Keeps (decrypts bytes) buffer len s s' w w' reply h = ground arith
  serve-Keeps finishes_signature buffer len s s' w w' reply h = ground arith
  serve-Keeps finishes_encryption buffer len s s' w w' reply h = ground arith
  serve-Keeps finishes_decryption buffer len s s' w w' reply h = ground arith
