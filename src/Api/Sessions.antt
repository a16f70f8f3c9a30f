-- ===== src/Api/Sessions.antt =====
-- C_OpenSession, C_CloseSession, C_CloseAllSessions and C_GetSessionInfo (pkcs11/src/api/session.rs),
-- C_Login and C_Logout (api/token.rs).
use nethsm_pkcs.Common.{
  ℕ, Bool, true, false, Option, none, some, List, ok, err, bit_and, ◌==◌, if◌then◌else◌,
}
use nethsm_pkcs.Constants
use nethsm_pkcs.Service.{Service}
use nethsm_pkcs.Login.{Run, returns, ◌>>=◌}
use nethsm_pkcs.Session.{SessionInfo, get_ck_info, login, logout}
use nethsm_pkcs.Manager.{create_session, get_session, delete_session, delete_all_slot_sessions}
use nethsm_pkcs.Api.{Globals, Reply, just, get_slot, lock_session, init_rv}

-- `phSession` says whether the pointer is there; the handle is what is written to it.
unfoldable pub c_open_session : ℕ → ℕ → Bool → Globals → (ℕ × Option ℕ) × Globals
unfolding get_slot
c_open_session slotID flags false g = ((Constants.ckr_arguments_bad, none), g)
c_open_session slotID flags true g =
    if bit_and flags Constants.ckf_serial_session == 0
    then ((Constants.ckr_session_parallel_not_supported, none), g)
    else elim (get_slot slotID g) [
      | err e ↦ ((Constants.ckr_slot_id_invalid, none), g)
      | ok slot ↦
          let (session, manager) = create_session slotID slot flags g.manager in
          ((Constants.ckr_ok, some session), record g { manager = manager })
    ]

unfoldable pub c_close_session : ℕ → Globals → ℕ × Globals
c_close_session hSession g =
    let (result, manager) = delete_session hSession g.manager in
    elim result [
      | none ↦ (Constants.ckr_session_handle_invalid, record g { manager = manager })
      | some s ↦ (Constants.ckr_ok, record g { manager = manager })
    ]

unfoldable pub c_close_all_sessions : ℕ → Globals → ℕ × Globals
unfolding get_slot
c_close_all_sessions slotID g = elim (get_slot slotID g) [
  | err e ↦ (Constants.ckr_slot_id_invalid, g)
  | ok slot ↦ (Constants.ckr_ok, record g { manager = delete_all_slot_sessions slotID g.manager })
]

-- `pInfo` says whether the pointer is there.
unfoldable pub c_get_session_info : ℕ → Bool → Globals → ℕ × Option SessionInfo
c_get_session_info hSession false g = (Constants.ckr_arguments_bad, none)
c_get_session_info hSession true g = elim (get_session hSession g.manager) [
  | none ↦ (Constants.ckr_session_handle_invalid, none)
  | some s ↦ (Constants.ckr_ok, some (get_ck_info s))
]

module _ {W : Type 0} (x : Service W) where
  unfoldable pub c_login : ℕ → ℕ → Option (List ℕ) → Globals → W → Run (Reply × Globals × W)
  unfolding lock_session init_rv
  c_login hSession userType none g w = returns (just Constants.ckr_arguments_bad, g, w)
  c_login hSession userType (some bytes) g w = elim (x.from_utf8 bytes) [
    | none ↦ returns (just Constants.ckr_arguments_bad, g, w)
    | some pin ↦
        lock_session hSession
          (λ s w. do
            (result, s', w') ← login x userType pin s w
            returns (just (init_rv result), s', w'))
          g w
  ]

  unfoldable pub c_logout : ℕ → Globals → W → Run (Reply × Globals × W)
  unfolding lock_session
  c_logout hSession g w =
      lock_session hSession (λ s w. returns (just Constants.ckr_ok, logout s, w)) g w
