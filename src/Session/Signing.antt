-- ===== src/Session/Signing.antt =====
-- The signing operation of a session (backend/session.rs).
use nethsm_pkcs.Common.{ℕ, none, some, List, Result, ok, err}
use nethsm_pkcs.Errors.{Error, operation_not_initialized, operation_active}
use nethsm_pkcs.Service.{Service}
use nethsm_pkcs.Mechanism.{Mechanism}
use nethsm_pkcs.Login.{Run, returns, ◌>>=◌}
use nethsm_pkcs.Db.{Db, Object}
use nethsm_pkcs.Sign
use nethsm_pkcs.Sign.{SignCtx, get_theoretical_size}
use nethsm_pkcs.Session.{Session, key_of}

-- The context of a new operation, or the error that keeps the session as it is.
started : Result Error SignCtx → Session → Result Error (Unit {0}) × Session
started (ok c) s = (ok tt, record s { sign_ctx = some c })
started (err e) s = (err e, s)

init_with : Mechanism → Result Error Object → Session → Result Error (Unit {0}) × Session
unfolding started
init_with mechanism (err e) s = (err e, s)
init_with mechanism (ok key) s = started (Sign.init mechanism key s.login_ctx) s

unfoldable pub sign_init : Mechanism → ℕ → Db → Session → Result Error (Unit {0}) × Session
unfolding init_with key_of
sign_init mechanism key_handle db s = elim s.sign_ctx [
  | some c ↦ (err operation_active, s)
  | none ↦ init_with mechanism (key_of db key_handle) s
]

unfoldable pub sign_theoretical_size : Session → Result Error ℕ
sign_theoretical_size s = elim s.sign_ctx [
  | none ↦ err operation_not_initialized
  | some c ↦ ok (get_theoretical_size c)
]

unfoldable pub sign_update : List ℕ → Session → Result Error (Unit {0}) × Session
sign_update bytes s = elim s.sign_ctx [
  | none ↦ (err operation_not_initialized, s)
  | some c ↦ (ok tt, record s { sign_ctx = some (Sign.update bytes c) })
]

unfoldable pub sign_clear : Session → Session
sign_clear s = record s { sign_ctx = none }

module _ {W : Type 0} (x : Service W) where
  unfoldable pub sign_final : Session → W → Run (Result Error (List ℕ) × W)
  sign_final s w = elim s.sign_ctx [
    | none ↦ returns (err operation_not_initialized, w)
    | some c ↦ Sign.sign_final x c w
  ]

  after_update : Result Error (Unit {0}) × Session → W → Run (Result Error (List ℕ) × Session × W)
  unfolding sign_final
  after_update (err e, s) w = returns (err e, s, w)
  after_update (ok done, s) w = do (output, w') ← sign_final s w; returns (output, s, w')

  unfoldable pub sign : List ℕ → Session → W → Run (Result Error (List ℕ) × Session × W)
  unfolding after_update sign_update sign_final
  sign bytes s w = after_update (sign_update bytes s) w
