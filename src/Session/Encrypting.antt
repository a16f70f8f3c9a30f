-- ===== src/Session/Encrypting.antt =====
-- The encryption of a session (backend/session.rs).
use nethsm_pkcs.Common.{ℕ, none, some, List, Result, ok, err}
use nethsm_pkcs.Errors.{Error, operation_not_initialized, operation_active}
use nethsm_pkcs.Service.{Service}
use nethsm_pkcs.Mechanism.{Mechanism}
use nethsm_pkcs.Login.{Run, returns, ◌>>=◌}
use nethsm_pkcs.Db.{Db, Object}
use nethsm_pkcs.Encrypt
use nethsm_pkcs.Encrypt.{EncryptCtx, get_biggest_chunk_len}
use nethsm_pkcs.Session.{Session, key_of}

-- The context of a new operation, or the error that keeps the session as it is.
started : Result Error EncryptCtx → Session → Result Error (Unit {0}) × Session
started (ok c) s = (ok tt, record s { encrypt_ctx = some c })
started (err e) s = (err e, s)

init_with : Mechanism → Result Error Object → Session → Result Error (Unit {0}) × Session
unfolding started
init_with mechanism (err e) s = (err e, s)
init_with mechanism (ok key) s = started (Encrypt.init mechanism key s.login_ctx) s

unfoldable pub encrypt_init : Mechanism → ℕ → Db → Session → Result Error (Unit {0}) × Session
unfolding init_with key_of
encrypt_init mechanism key_handle db s = elim s.encrypt_ctx [
  | some c ↦ (err operation_active, s)
  | none ↦ init_with mechanism (key_of db key_handle) s
]

unfoldable pub encrypt_add_data : List ℕ → Session → Result Error (Unit {0}) × Session
encrypt_add_data bytes s = elim s.encrypt_ctx [
  | none ↦ (err operation_not_initialized, s)
  | some c ↦ (ok tt, record s { encrypt_ctx = some (Encrypt.add_data bytes c) })
]

unfoldable pub encrypt_get_theoretical_final_size : Session → Result Error ℕ
encrypt_get_theoretical_final_size s = elim s.encrypt_ctx [
  | none ↦ err operation_not_initialized
  | some c ↦ ok (get_biggest_chunk_len c)
]

unfoldable pub encrypt_clear : Session → Session
encrypt_clear s = record s { encrypt_ctx = none }

module _ {W : Type 0} (x : Service W) where
  unfoldable pub encrypt_available_data : Session → W → Run (Result Error (List ℕ) × Session × W)
  encrypt_available_data s w = elim s.encrypt_ctx [
    | none ↦ returns (err operation_not_initialized, s, w)
    | some c ↦ do
      (output, c', w') ← Encrypt.encrypt_available_data x c w
      returns (output, record s { encrypt_ctx = some c' }, w')
  ]

  unfoldable pub encrypt_final : Session → W → Run (Result Error (List ℕ) × W)
  encrypt_final s w = elim s.encrypt_ctx [
    | none ↦ returns (err operation_not_initialized, w)
    | some c ↦ Encrypt.encrypt_final x c w
  ]

  available_after :
      Result Error (Unit {0}) × Session → W → Run (Result Error (List ℕ) × Session × W)
  unfolding encrypt_available_data
  available_after (err e, s) w = returns (err e, s, w)
  available_after (ok done, s) w = encrypt_available_data s w

  unfoldable pub encrypt_update : List ℕ → Session → W → Run (Result Error (List ℕ) × Session × W)
  unfolding available_after encrypt_add_data encrypt_available_data
  encrypt_update bytes s w = available_after (encrypt_add_data bytes s) w

  final_after : Result Error (Unit {0}) × Session → W → Run (Result Error (List ℕ) × Session × W)
  unfolding encrypt_final
  final_after (err e, s) w = returns (err e, s, w)
  final_after (ok done, s) w = do (output, w') ← encrypt_final s w; returns (output, s, w')

  unfoldable pub encrypt : List ℕ → Session → W → Run (Result Error (List ℕ) × Session × W)
  unfolding final_after encrypt_add_data encrypt_final
  encrypt bytes s w = final_after (encrypt_add_data bytes s) w
