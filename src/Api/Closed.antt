-- ===== src/Api/Closed.antt =====
-- The handle of a session that C_CloseSession (pkcs11/src/api/session.rs) has closed, under all
-- functions.
use nethsm_pkcs.Common.{
  ℕ, ◌≡◌, ◌<◌, ◌≤◌, ◌+◌, none, some, List, [], ◌∷◌, Bool, true, false, length, lookup-remove, arith,
  Option-cases, Result-cases, inl, inr,
}
use nethsm_pkcs.Constants
use nethsm_pkcs.Service.Keys.{KeyService}
use nethsm_pkcs.Login.{returns}
use nethsm_pkcs.Login.Results.{After, After_returns, any-After, bind-After}
use nethsm_pkcs.Db.{u64_mod}
use nethsm_pkcs.Db.Handles.{Op}
use nethsm_pkcs.Session.{Session, Slot}
use nethsm_pkcs.Manager.{
  SessionManager, get_session, create_session, delete_session, update_session,
  delete_all_slot_sessions,
}
use nethsm_pkcs.Manager.Handles.{IsValid, dead-Step, opened, used, closed_all}
use nethsm_pkcs.Api.{Globals, Handler, CacheHandler, lock_session, lock_cache, get_slot}
use nethsm_pkcs.Api.Frame.{Frame, respond-After}
use nethsm_pkcs.Api.Requests.{Request, respond, respond_all}
use nethsm_pkcs.Api.Sessions.{c_open_session, c_close_session, c_close_all_sessions}

-- The handle was given out, and leads nowhere.
abbrev pub Gone : ℕ → SessionManager → Type 0
Gone h m = (h < m.next_session_handle) × (get_session h m ≡ none)

-- What a call leaves: the handle is gone, and the counter is at most one above what it was.
abbrev Closed : ℕ → SessionManager → SessionManager → Type 0
Closed h m n = Gone h n × (n.next_session_handle ≤ m.next_session_handle + 1)

module _ (h : ℕ) (g : Globals) (d : Gone h g.manager) where
  same_Closed : Closed h g.manager g.manager
  same_Closed = (d, omega arith)

  used_Closed :
      (k : ℕ) (s s' : Session)
      → get_session k g.manager ≡ some s
      → Closed h g.manager (update_session k s' g.manager)
  unfolding update_session
  used_Closed k s s' e = (dead-Step h (used k s s' e) d.0 d.1, omega arith)

  module _ {W : Type 0} where
    lock_session-Closed :
        (k : ℕ) (handler : Handler W) (w : W)
        → After (λ r. Closed h g.manager r.1.manager) (lock_session k handler g w)
    unfolding lock_session
    lock_session-Closed k handler w = elim (Option-cases (get_session k g.manager)) [
      | inl e ↦ rw (e, lock_session) same_Closed
      | inr (s, e) ↦
          rw (e, lock_session)
            (any-After (λ r. Closed h g.manager r.1.manager) (handler s w) _
              (λ r. used_Closed k s r.1 e))
    ]

    lock_cache-Closed :
        (k : ℕ) (handler : CacheHandler W) (w : W)
        → After (λ r. Closed h g.manager r.1.manager) (lock_cache k handler g w)
    unfolding lock_cache
    lock_cache-Closed k handler w = elim (Option-cases (get_session k g.manager)) [
      | inl e ↦ rw (e, lock_cache) same_Closed
      | inr (s, e) ↦
          rw (e, lock_cache)
            (any-After (λ r. Closed h g.manager r.1.manager) (handler s (g.dbs s.db) w) _
              (λ r. used_Closed k s r.1 e))
    ]

  opened_Closed :
      (slot_id : ℕ) (slot : Slot) (flags : ℕ)
      → g.manager.next_session_handle + 1 < u64_mod
      → Closed h g.manager (create_session slot_id slot flags g.manager).1
  unfolding create_session
  opened_Closed slot_id slot flags b =
      (dead-Step h (opened slot_id slot flags b) d.0 d.1, omega (arith, b))

  opens-Closed :
      (slot_id flags : ℕ) (there : Bool)
      → g.manager.next_session_handle + 1 < u64_mod
      → Closed h g.manager (c_open_session slot_id flags there g).1.manager
  unfolding c_open_session
  opens-Closed slot_id flags false b = same_Closed
  opens-Closed slot_id flags true b = elim (Result-cases (get_slot slot_id g)) [
    | inl (slot, e) ↦ ground (arith, e, same_Closed, opened_Closed slot_id slot flags b)
    | inr (rv, e) ↦ ground (arith, e, same_Closed)
  ]

  closes-Closed : (k : ℕ) → Closed h g.manager (c_close_session k g).1.manager
  unfolding c_close_session delete_session get_session
  closes-Closed k = ground (arith, d, lookup-remove k h g.manager.sessions)

  closes_all-Closed : (slot : ℕ) → Closed h g.manager (c_close_all_sessions slot g).1.manager
  unfolding c_close_all_sessions delete_all_slot_sessions
  closes_all-Closed slot = elim (Result-cases (get_slot slot g)) [
    | inl (found, e) ↦ ground (arith, e, dead-Step h (closed_all slot {m = g.manager}) d.0 d.1)
    | inr (rv, e) ↦ ground (arith, e, same_Closed)
  ]

-- A call brings the handle to no session.
calls_frame :
    {W : Type 0} (A : Op → Type 0) (h : ℕ) (g : Globals)
    → Gone h g.manager
    → g.manager.next_session_handle + 1 < u64_mod
    → Frame W A g (λ g'. Closed h g.manager g'.manager)
calls_frame A h g d b = record {
  same = same_Closed h g d;
  locks = λ hSession handler w. lock_session-Closed h g d hSession handler w;
  locks_cache = λ hSession handler w leaves. lock_cache-Closed h g d hSession handler w;
  names = λ aliases. same_Closed h g d;
  opened = λ slot_id flags there. opens-Closed h g d slot_id flags there b;
  closed = λ hSession. closes-Closed h g d hSession;
  closed_all = λ slot_id. closes_all-Closed h g d slot_id;
}

module _ {W : Type 0} (k : KeyService W) (h : ℕ) where
  all-Gone :
      (requests : List (Request W)) (g : Globals) (w : W)
      → Gone h g.manager
      → g.manager.next_session_handle + length requests < u64_mod
      → After (λ r. Gone h r.0.manager) (respond_all k requests g w)
  unfolding respond_all
  all-Gone [] g w d b = d
  all-Gone (r ∷ requests) g w d b =
      bind-After (λ r. Gone h r.0.manager) (λ r. Closed h g.manager r.0.manager) (respond k r g w) _
        (respond-After k g (λ g'. Closed h g.manager g'.manager) r w
          (calls_frame _ h g d (omega (arith, b))))
        (λ (g', w') (d', le). all-Gone requests g' w' d' (omega (arith, b, le)))

  closing_Gone :
      (g : Globals)
      → IsValid g.manager
      → (c_close_session h g).0 ≡ Constants.ckr_ok
      → Gone h (c_close_session h g).1.manager
        × ((c_close_session h g).1.manager.next_session_handle ≡ g.manager.next_session_handle)
  unfolding c_close_session delete_session get_session
  closing_Gone g v e = ground (arith, v.fresh h, lookup-remove h h g.manager.sessions)

  -- After C_CloseSession has returned CKR_OK in a valid table, the handle leads to no session after any
  -- further calls of C functions, whatever these do to their sessions, where they return and the counter
  -- of handles does not wrap.
  pub closed_session_stays :
      (requests : List (Request W)) (g g' : Globals) (w w' : W)
      → IsValid g.manager
      → (c_close_session h g).0 ≡ Constants.ckr_ok
      → g.manager.next_session_handle + length requests < u64_mod
      → respond_all k requests (c_close_session h g).1 w ≡ returns (g', w')
      → get_session h g'.manager ≡ none
  closed_session_stays requests g g' w w' v e b r =
      let (gone, same) = closing_Gone g v e in
      (After_returns (λ r. Gone h r.0.manager) (respond_all k requests (c_close_session h g).1 w)
        (g', w') r (all-Gone requests (c_close_session h g).1 w gone (rw same b))).1
