-- ===== src/Session/Decrypting.antt =====
-- The decryption of a session (backend/session.rs).
use nethsm_pkcs.Common.{ℕ, none, some, List, Result, ok, err, length}
use nethsm_pkcs.Errors.{Error, operation_not_initialized, operation_active}
use nethsm_pkcs.Service.{Service}
use nethsm_pkcs.Mechanism.{Mechanism}
use nethsm_pkcs.Login.{Run, returns, ◌>>=◌}
use nethsm_pkcs.Db.{Db, Object}
use nethsm_pkcs.Decrypt
use nethsm_pkcs.Decrypt.{DecryptCtx}
use nethsm_pkcs.Session.{Session, key_of}

-- The context of a new operation, or the error that keeps the session as it is.
started : Result Error DecryptCtx → Session → Result Error (Unit {0}) × Session
started (ok c) s = (ok tt, record s { decrypt_ctx = some c })
started (err e) s = (err e, s)

init_with : Mechanism → Result Error Object → Session → Result Error (Unit {0}) × Session
unfolding started
init_with mechanism (err e) s = (err e, s)
init_with mechanism (ok key) s = started (Decrypt.init mechanism key s.login_ctx) s

unfoldable pub decrypt_init : Mechanism → ℕ → Db → Session → Result Error (Unit {0}) × Session
unfolding init_with key_of
decrypt_init mechanism key_handle db s = elim s.decrypt_ctx [
  | some c ↦ (err operation_active, s)
  | none ↦ init_with mechanism (key_of db key_handle) s
]

unfoldable pub decrypt_update : List ℕ → Session → Result Error (Unit {0}) × Session
decrypt_update bytes s = elim s.decrypt_ctx [
  | none ↦ (err operation_not_initialized, s)
  | some c ↦ (ok tt, record s { decrypt_ctx = some (Decrypt.update bytes c) })
]

unfoldable pub decrypt_theoretical_size : ℕ → ℕ
decrypt_theoretical_size input_size = input_size

unfoldable pub decrypt_theoretical_final_size : Session → Result Error ℕ
decrypt_theoretical_final_size s = elim s.decrypt_ctx [
  | none ↦ err operation_not_initialized
  | some c ↦ ok (length c.buffer)
]

unfoldable pub decrypt_clear : Session → Session
decrypt_clear s = record s { decrypt_ctx = none }

module _ {W : Type 0} (x : Service W) where
  unfoldable pub decrypt_final : Session → W → Run (Result Error (List ℕ) × Session × W)
  decrypt_final s w = elim s.decrypt_ctx [
    | none ↦ returns (err operation_not_initialized, s, w)
    | some c ↦ do
      (output, c', w') ← Decrypt.decrypt_final x c w
      returns (output, record s { decrypt_ctx = some c' }, w')
  ]

  final_after : Result Error (Unit {0}) × Session → W → Run (Result Error (List ℕ) × Session × W)
  unfolding decrypt_final
  final_after (err e, s) w = returns (err e, s, w)
  final_after (ok done, s) w = decrypt_final s w

  unfoldable pub decrypt : List ℕ → Session → W → Run (Result Error (List ℕ) × Session × W)
  unfolding final_after decrypt_update decrypt_final
  decrypt bytes s w = final_after (decrypt_update bytes s) w
