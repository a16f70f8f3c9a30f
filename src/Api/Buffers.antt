-- ===== src/Api/Buffers.antt =====
-- Output buffers: what the functions of api/sign.rs, api/encrypt.rs and api/decrypt.rs write to them.
use nethsm_pkcs.Common.{ℕ, ◌≤◌, ◌≡◌, ◌⊎◌, Bool, true, Option, some, [], length, arith}
use nethsm_pkcs.Constants
use nethsm_pkcs.Service.{Service}
use nethsm_pkcs.Login.{returns}
use nethsm_pkcs.Session.{Session}
use nethsm_pkcs.Api.{Reply}
use nethsm_pkcs.Api.Calls.{
  Call, signs, encrypts, updates_encryption, decrypts, finishes_signature, finishes_encryption,
  finishes_decryption, serve,
}

-- Nothing is copied, or there is a buffer, the bytes fit into the length that the caller gave, the
-- length written is theirs, and the call succeeds.
abbrev pub Fits : Bool → Option ℕ → Reply → Type 0
Fits buffer len reply =
    (reply.bytes ≡ [])
    ⊎ ((n : ℕ) × (len ≡ some n)
        × (buffer ≡ true)
        × (length reply.bytes ≤ n)
        × (reply.written ≡ some (length reply.bytes))
        × (reply.rv ≡ Constants.ckr_ok))

module _ {W : Type 0} (x : Service W) where
  -- No call writes beyond its output buffer, whatever the NetHSM answers: either it copies
  -- nothing, or there is a buffer, the bytes that it copies fit into the length that the caller
  -- gave, the length that it writes is theirs, and it returns CKR_OK.
  pub serve-Fits :
      (call : Call) (buffer : Bool) (len : Option ℕ) (s s' : Session) (w w' : W) (reply : Reply)
      → serve x call buffer len s w ≡ returns (reply, s', w')
      → Fits buffer len reply
  unfolding serve
  serve-Fits (signs bytes) buffer len s s' w w' reply h = ground arith
  serve-Fits (encrypts bytes) buffer len s s' w w' reply h = ground arith
  serve-Fits (updates_encryption bytes) buffer len s s' w w' reply h = ground arith
  serve-Fits (decrypts bytes) buffer len s s' w w' reply h = ground arith
  serve-Fits finishes_signature buffer len s s' w w' reply h = ground arith
  serve-Fits finishes_encryption buffer len s s' w w' reply h = ground arith
  serve-Fits finishes_decryption buffer len s s' w w' reply h = ground arith
