-- ===== src/Api/Signing.antt =====
-- C_SignInit, C_Sign, C_SignUpdate and C_SignFinal (pkcs11/src/api/sign.rs).
use nethsm_pkcs.Common.{
  ℕ, Bool, true, false, Option, none, some, List, Result, ok, err, length, ltb, if◌then◌else◌,
}
use nethsm_pkcs.Constants
use nethsm_pkcs.Errors.{Error, error_rv}
use nethsm_pkcs.Service.{Service}
use nethsm_pkcs.Mechanism.Raw.{CkRawMechanism}
use nethsm_pkcs.Login.{Run, returns, ◌>>=◌}
use nethsm_pkcs.Session.{Session}
use nethsm_pkcs.Session.Signing.{
  sign_init, sign_theoretical_size, sign_update, sign_final, sign, sign_clear,
}
use nethsm_pkcs.Api.{Globals, Reply, just, sized, Handler, lock_session, with_mechanism}

-- After the signature is made: it is delivered whole, or it is lost and the operation stays.
unfoldable pub deliver_signature : ℕ → Result Error (List ℕ) → Session → ℕ → Reply × Session
unfolding sign_clear
deliver_signature buffer_size (err e) s size = (sized (error_rv e) size, sign_clear s)
deliver_signature buffer_size (ok signature) s size =
    if ltb buffer_size (length signature)
    then (sized Constants.ckr_buffer_too_small (length signature), s)
    else (
      record { rv = Constants.ckr_ok; written = some (length signature); bytes = signature },
      sign_clear s,
    )

-- C_SignUpdate. `part` is `none` for a null pointer.
unfoldable pub sign_update_handler : {W : Type 0} → Option (List ℕ) → Handler W
unfolding sign_clear
sign_update_handler none s w = returns (just Constants.ckr_arguments_bad, sign_clear s, w)
sign_update_handler (some part) s w =
    let (result, s') = sign_update part s in
    elim result [
      | ok done ↦ returns (just Constants.ckr_ok, s', w)
      | err e ↦ returns (just (error_rv e), sign_clear s', w)
    ]

module _ {W : Type 0} (x : Service W) where
  -- What C_Sign and C_SignFinal do once the length is there. `buffer` says whether there is an output
  -- buffer, and `produce` makes the signature.
  sign_into : (Session → W → Run (Result Error (List ℕ) × Session × W)) → Bool → ℕ → Handler W
  unfolding sign_clear deliver_signature
  sign_into produce buffer buffer_size s w = elim (sign_theoretical_size s) [
    | err e ↦ returns (just (error_rv e), sign_clear s, w)
    | ok size ↦ elim buffer [
      | false ↦ returns (sized Constants.ckr_ok size, s, w)
      | true ↦
          if ltb buffer_size size
          then returns (sized Constants.ckr_buffer_too_small size, s, w)
          else do
            (output, s', w') ← produce s w
            let (reply, s'') = deliver_signature buffer_size output s' size in
                returns (reply, s'', w')
    ]
  ]

  -- C_Sign.
  unfoldable pub sign_handler : Option (List ℕ) → Bool → Option ℕ → Handler W
  unfolding sign_into
  sign_handler none buffer len s w = returns (just Constants.ckr_arguments_bad, sign_clear s, w)
  sign_handler (some bytes) buffer none s w =
      returns (just Constants.ckr_arguments_bad, sign_clear s, w)
  sign_handler (some bytes) buffer (some len) s w = sign_into (sign x bytes) buffer len s w

  -- `session.sign_final()` leaves the session.
  abbrev pub final_signature : Session → W → Run (Result Error (List ℕ) × Session × W)
  final_signature s w = do (output, w') ← sign_final x s w; returns (output, s, w')

  -- C_SignFinal.
  unfoldable pub sign_final_handler : Bool → Option ℕ → Handler W
  unfolding sign_into
  sign_final_handler buffer none s w = returns (just Constants.ckr_arguments_bad, sign_clear s, w)
  sign_final_handler buffer (some len) s w = sign_into final_signature buffer len s w

  unfoldable pub c_sign_init :
      ℕ → Option CkRawMechanism → ℕ → Globals → W → Run (Reply × Globals × W)
  unfolding with_mechanism
  c_sign_init hSession mechanism hKey g w =
      with_mechanism (λ mech s. sign_init mech hKey (g.dbs s.db) s) hSession mechanism g w

  unfoldable pub c_sign :
      ℕ → Option (List ℕ) → Bool → Option ℕ → Globals → W → Run (Reply × Globals × W)
  unfolding lock_session sign_handler
  c_sign hSession bytes buffer len g w = lock_session hSession (sign_handler bytes buffer len) g w

  unfoldable pub c_sign_update : ℕ → Option (List ℕ) → Globals → W → Run (Reply × Globals × W)
  unfolding lock_session sign_update_handler
  c_sign_update hSession part g w = lock_session hSession (sign_update_handler part) g w

  unfoldable pub c_sign_final : ℕ → Bool → Option ℕ → Globals → W → Run (Reply × Globals × W)
  unfolding lock_session sign_final_handler
  c_sign_final hSession buffer len g w = lock_session hSession (sign_final_handler buffer len) g w
