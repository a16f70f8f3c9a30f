-- ===== src/Api/Decrypting.antt =====
-- C_DecryptInit, C_Decrypt, C_DecryptUpdate and C_DecryptFinal (pkcs11/src/api/decrypt.rs).
use nethsm_pkcs.Common.{
  ℕ, Bool, true, false, Option, none, some, List, Result, ok, err, length, ltb, if◌then◌else◌,
}
use nethsm_pkcs.Constants
use nethsm_pkcs.Errors.{Error, error_rv}
use nethsm_pkcs.Service.{Service}
use nethsm_pkcs.Mechanism.Raw.{CkRawMechanism}
use nethsm_pkcs.Login.{Run, returns, ◌>>=◌}
use nethsm_pkcs.Session.{Session}
use nethsm_pkcs.Session.Decrypting.{
  decrypt_init, decrypt_theoretical_size, decrypt_theoretical_final_size, decrypt_update,
  decrypt_final, decrypt, decrypt_clear,
}
use nethsm_pkcs.Api.{Globals, Reply, just, sized, Handler, lock_session, with_mechanism}

-- After the text is decrypted: it is delivered whole, or it is lost and the operation stays.
unfoldable pub deliver_decrypted : ℕ → ℕ → Result Error (List ℕ) → Session → Reply × Session
unfolding decrypt_clear
deliver_decrypted buffer_size size (err e) s = (sized (error_rv e) size, decrypt_clear s)
deliver_decrypted buffer_size size (ok text) s =
    if ltb buffer_size (length text)
    then (sized Constants.ckr_buffer_too_small (length text), s)
    else (
      record { rv = Constants.ckr_ok; written = some (length text); bytes = text },
      decrypt_clear s,
    )

-- C_DecryptUpdate. Its output buffer is not used.
unfoldable pub decrypt_update_handler : {W : Type 0} → Option (List ℕ) → Option ℕ → Handler W
unfolding decrypt_clear
decrypt_update_handler part none s w =
    returns (just Constants.ckr_arguments_bad, decrypt_clear s, w)
decrypt_update_handler none (some len) s w =
    returns (just Constants.ckr_arguments_bad, decrypt_clear s, w)
decrypt_update_handler (some part) (some len) s w =
    let (result, s') = decrypt_update part s in
    elim result [
      | ok done ↦ returns (sized Constants.ckr_ok 0, s', w)
      | err e ↦ returns (sized (error_rv e) 0, decrypt_clear s', w)
    ]

module _ {W : Type 0} (x : Service W) where
  -- What C_Decrypt and C_DecryptFinal do with the size that they ask for.
  decrypt_into :
      (Session → W → Run (Result Error (List ℕ) × Session × W)) → Bool → ℕ → ℕ → Handler W
  unfolding deliver_decrypted
  decrypt_into produce false buffer_size size s w = returns (sized Constants.ckr_ok size, s, w)
  decrypt_into produce true buffer_size size s w =
      if ltb buffer_size size then returns (sized Constants.ckr_buffer_too_small size, s, w) else do
        (output, s', w') ← produce s w
        let (reply, s'') = deliver_decrypted buffer_size size output s' in returns (reply, s'', w')

  -- C_Decrypt.
  unfoldable pub decrypt_handler : Option (List ℕ) → Bool → Option ℕ → Handler W
  unfolding decrypt_into decrypt_theoretical_size
  decrypt_handler bytes buffer none s w =
      returns (just Constants.ckr_arguments_bad, decrypt_clear s, w)
  decrypt_handler none buffer (some len) s w =
      returns (just Constants.ckr_arguments_bad, decrypt_clear s, w)
  decrypt_handler (some bytes) buffer (some len) s w =
      decrypt_into (decrypt x bytes) buffer len (decrypt_theoretical_size (length bytes)) s w

  -- C_DecryptFinal.
  unfoldable pub decrypt_final_handler : Bool → Option ℕ → Handler W
  unfolding decrypt_into
  decrypt_final_handler buffer none s w =
      returns (just Constants.ckr_arguments_bad, decrypt_clear s, w)
  decrypt_final_handler buffer (some len) s w = elim (decrypt_theoretical_final_size s) [
    | err e ↦ returns (just (error_rv e), decrypt_clear s, w)
    | ok size ↦ decrypt_into (decrypt_final x) buffer len size s w
  ]

  unfoldable pub c_decrypt_init :
      ℕ → Option CkRawMechanism → ℕ → Globals → W → Run (Reply × Globals × W)
  unfolding with_mechanism
  c_decrypt_init hSession mechanism hKey g w =
      with_mechanism (λ mech s. decrypt_init mech hKey (g.dbs s.db) s) hSession mechanism g w

  unfoldable pub c_decrypt :
      ℕ → Option (List ℕ) → Bool → Option ℕ → Globals → W → Run (Reply × Globals × W)
  unfolding lock_session decrypt_handler
  c_decrypt hSession bytes buffer len g w =
      lock_session hSession (decrypt_handler bytes buffer len) g w

  unfoldable pub c_decrypt_update :
      ℕ → Option (List ℕ) → Option ℕ → Globals → W → Run (Reply × Globals × W)
  unfolding lock_session decrypt_update_handler
  c_decrypt_update hSession part len g w =
      lock_session hSession (decrypt_update_handler part len) g w

  unfoldable pub c_decrypt_final : ℕ → Bool → Option ℕ → Globals → W → Run (Reply × Globals × W)
  unfolding lock_session decrypt_final_handler
  c_decrypt_final hSession buffer len g w =
      lock_session hSession (decrypt_final_handler buffer len) g w
