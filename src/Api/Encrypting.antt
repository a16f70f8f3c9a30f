-- ===== src/Api/Encrypting.antt =====
-- C_EncryptInit, C_Encrypt, C_EncryptUpdate and C_EncryptFinal (pkcs11/src/api/encrypt.rs).
use nethsm_pkcs.Common.{
  ℕ, ◌+◌, ◌*◌, ◌/◌, Bool, true, false, Option, none, some, List, Result, ok, err, length, ltb,
  if◌then◌else◌,
}
use nethsm_pkcs.Constants
use nethsm_pkcs.Errors.{Error, error_rv}
use nethsm_pkcs.Service.{Service}
use nethsm_pkcs.Mechanism.Raw.{CkRawMechanism}
use nethsm_pkcs.Login.{Run, returns, ◌>>=◌}
use nethsm_pkcs.Encrypt.{encrypt_block_size}
use nethsm_pkcs.Session.{Session}
use nethsm_pkcs.Session.Encrypting.{
  encrypt_init, encrypt_get_theoretical_final_size, encrypt_update, encrypt_final, encrypt,
  encrypt_clear,
}
use nethsm_pkcs.Api.{Globals, Reply, just, sized, Handler, lock_session, with_mechanism}

-- After the text is encrypted: it is delivered whole, or it is lost. `size` is the length written
-- before, and `last` says whether a delivery ends the operation.
unfoldable pub deliver_encrypted : Bool → ℕ → ℕ → Result Error (List ℕ) → Session → Reply × Session
unfolding encrypt_clear
deliver_encrypted last buffer_len size (err e) s = (sized (error_rv e) size, encrypt_clear s)
deliver_encrypted last buffer_len size (ok text) s =
    if ltb buffer_len (length text)
    then (sized Constants.ckr_buffer_too_small (length text), s)
    else (
      record { rv = Constants.ckr_ok; written = some (length text); bytes = text },
      if last then encrypt_clear s else s,
    )

-- The size that C_EncryptUpdate asks for.
abbrev pub update_size : List ℕ → ℕ
update_size bytes = encrypt_block_size * (length bytes / encrypt_block_size + 1)

module _ {W : Type 0} (x : Service W) where
  produce_encrypted :
      (Session → W → Run (Result Error (List ℕ) × Session × W)) → Bool → ℕ → ℕ → Handler W
  unfolding deliver_encrypted
  produce_encrypted produce last buffer_len size s w = do
    (output, s', w') ← produce s w
    let (reply, s'') = deliver_encrypted last buffer_len size output s' in returns (reply, s'', w')

  -- What C_Encrypt and C_EncryptUpdate do once their pointers are there: the length is written, and
  -- the buffer is compared with it.
  encrypt_into :
      (Session → W → Run (Result Error (List ℕ) × Session × W)) → Bool → Bool → ℕ → ℕ → Handler W
  unfolding produce_encrypted
  encrypt_into produce last false buffer_len size s w = returns (sized Constants.ckr_ok size, s, w)
  encrypt_into produce last true buffer_len size s w =
      if ltb buffer_len size
      then returns (sized Constants.ckr_buffer_too_small size, s, w)
      else produce_encrypted produce last buffer_len size s w

  -- C_Encrypt.
  unfoldable pub encrypt_handler : Option (List ℕ) → Bool → Option ℕ → Handler W
  unfolding encrypt_into
  encrypt_handler none buffer len s w =
      returns (just Constants.ckr_arguments_bad, encrypt_clear s, w)
  encrypt_handler (some bytes) buffer none s w =
      returns (just Constants.ckr_arguments_bad, encrypt_clear s, w)
  encrypt_handler (some bytes) buffer (some len) s w =
      encrypt_into (encrypt x bytes) true buffer len (length bytes) s w

  -- C_EncryptUpdate.
  unfoldable pub encrypt_update_handler : Option (List ℕ) → Bool → Option ℕ → Handler W
  unfolding encrypt_into
  encrypt_update_handler none buffer len s w =
      returns (just Constants.ckr_arguments_bad, encrypt_clear s, w)
  encrypt_update_handler (some part) buffer none s w =
      returns (just Constants.ckr_arguments_bad, encrypt_clear s, w)
  encrypt_update_handler (some part) buffer (some len) s w =
      encrypt_into (encrypt_update x part) false buffer len (update_size part) s w

  -- `session.encrypt_final()` leaves the session.
  abbrev pub final_text : Session → W → Run (Result Error (List ℕ) × Session × W)
  final_text s w = do (output, w') ← encrypt_final x s w; returns (output, s, w')

  -- C_EncryptFinal. The length that is written first is that of a block, whatever is left.
  unfoldable pub encrypt_final_handler : Bool → Option ℕ → Handler W
  unfolding produce_encrypted
  encrypt_final_handler buffer none s w =
      returns (just Constants.ckr_arguments_bad, encrypt_clear s, w)
  encrypt_final_handler false (some len) s w =
      returns (sized Constants.ckr_ok encrypt_block_size, s, w)
  encrypt_final_handler true (some len) s w = elim (encrypt_get_theoretical_final_size s) [
    | err e ↦ returns (sized (error_rv e) encrypt_block_size, encrypt_clear s, w)
    | ok size ↦
        if ltb len size
        then returns (sized Constants.ckr_buffer_too_small encrypt_block_size, s, w)
        else produce_encrypted final_text true len encrypt_block_size s w
  ]

  unfoldable pub c_encrypt_init :
      ℕ → Option CkRawMechanism → ℕ → Globals → W → Run (Reply × Globals × W)
  unfolding with_mechanism
  c_encrypt_init hSession mechanism hKey g w =
      with_mechanism (λ mech s. encrypt_init mech hKey (g.dbs s.db) s) hSession mechanism g w

  unfoldable pub c_encrypt :
      ℕ → Option (List ℕ) → Bool → Option ℕ → Globals → W → Run (Reply × Globals × W)
  unfolding lock_session encrypt_handler
  c_encrypt hSession bytes buffer len g w =
      lock_session hSession (encrypt_handler bytes buffer len) g w

  unfoldable pub c_encrypt_update :
      ℕ → Option (List ℕ) → Bool → Option ℕ → Globals → W → Run (Reply × Globals × W)
  unfolding lock_session encrypt_update_handler
  c_encrypt_update hSession part buffer len g w =
      lock_session hSession (encrypt_update_handler part buffer len) g w

  unfoldable pub c_encrypt_final : ℕ → Bool → Option ℕ → Globals → W → Run (Reply × Globals × W)
  unfolding lock_session encrypt_final_handler
  c_encrypt_final hSession buffer len g w =
      lock_session hSession (encrypt_final_handler buffer len) g w
