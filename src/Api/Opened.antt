-- ===== src/Api/Opened.antt =====
-- The handles that C_OpenSession (pkcs11/src/api/session.rs) gives out, under all functions.
use nethsm_pkcs.Common.{
  ℕ, ◌≡◌, ◌==◌, if◌then◌else◌, ◌<◌, ◌≤◌, ◌+◌, true, some, List, [], ◌∷◌, ok, Bool, length,
  lookup-insert, arith, Option-cases, Result-cases, inl, inr,
}
use nethsm_pkcs.Constants
use nethsm_pkcs.Service.Keys.{KeyService}
use nethsm_pkcs.Login.{returns}
use nethsm_pkcs.Login.Results.{After, After_returns, any-After, bind-After}
use nethsm_pkcs.Db.{u64_mod}
use nethsm_pkcs.Db.Handles.{Op}
use nethsm_pkcs.Keys.Trace.{After-weaken}
use nethsm_pkcs.Session.{Session, Slot}
use nethsm_pkcs.Session
use nethsm_pkcs.Manager.{
  SessionManager, get_session, create_session, delete_session, delete_all_slot_sessions,
  update_session,
}
use nethsm_pkcs.Api.{Globals, Handler, CacheHandler, lock_session, lock_cache, get_slot}
use nethsm_pkcs.Api.Frame.{Frame, respond-After}
use nethsm_pkcs.Api.Requests.{Request, respond, respond_all}
use nethsm_pkcs.Api.Sessions.{c_open_session, c_close_session, c_close_all_sessions}

-- The counter of handles grows by one at most.
abbrev Grows : SessionManager → SessionManager → Type 0
Grows m n =
    (m.next_session_handle ≤ n.next_session_handle)
    × (n.next_session_handle ≤ m.next_session_handle + 1)

module _ (g : Globals) where
  lock_session-Grows :
      {W : Type 0} (k : ℕ) (handler : Handler W) (w : W)
      → After (λ r. Grows g.manager r.1.manager) (lock_session k handler g w)
  unfolding lock_session update_session
  lock_session-Grows k handler w = elim (Option-cases (get_session k g.manager)) [
    | inl e ↦ rw (e, lock_session) (omega arith, omega arith)
    | inr (s, e) ↦
        rw (e, lock_session)
          (any-After (λ r. Grows g.manager r.1.manager) (handler s w) _
            (λ r. (omega arith, omega arith)))
  ]

  lock_cache-Grows :
      {W : Type 0} (k : ℕ) (handler : CacheHandler W) (w : W)
      → After (λ r. Grows g.manager r.1.manager) (lock_cache k handler g w)
  unfolding lock_cache update_session
  lock_cache-Grows k handler w = elim (Option-cases (get_session k g.manager)) [
    | inl e ↦ rw (e, lock_cache) (omega arith, omega arith)
    | inr (s, e) ↦
        rw (e, lock_cache)
          (any-After (λ r. Grows g.manager r.1.manager) (handler s (g.dbs s.db) w) _
            (λ r. (omega arith, omega arith)))
  ]

  opens-Grows :
      (slot_id flags : ℕ) (there : Bool)
      → g.manager.next_session_handle + 1 < u64_mod
      → Grows g.manager (c_open_session slot_id flags there g).1.manager
  unfolding c_open_session create_session
  opens-Grows slot_id flags there b = ground arith

  Grows-Frame :
      {W : Type 0} (A : Op → Type 0)
      → g.manager.next_session_handle + 1 < u64_mod
      → Frame W A g (λ g'. Grows g.manager g'.manager)
  unfolding c_close_session c_close_all_sessions delete_session delete_all_slot_sessions
  Grows-Frame A b = record {
    same = (omega arith, omega arith);
    locks = λ hSession handler w. lock_session-Grows hSession handler w;
    locks_cache = λ hSession handler w leaves. lock_cache-Grows hSession handler w;
    names = λ aliases. (omega arith, omega arith);
    opened = λ slot_id flags there. opens-Grows slot_id flags there b;
    closed = λ hSession. ground arith;
    closed_all = λ slot_id. ground arith;
  }

module _ {W : Type 0} (k : KeyService W) where
  all-Grows :
      (requests : List (Request W)) (g : Globals) (w : W)
      → g.manager.next_session_handle + length requests < u64_mod
      → After
          (λ r.
            (g.manager.next_session_handle ≤ r.0.manager.next_session_handle)
            × (r.0.manager.next_session_handle ≤ g.manager.next_session_handle + length requests))
          (respond_all k requests g w)
  unfolding respond_all
  all-Grows [] g w b = (omega arith, omega arith)
  all-Grows (r ∷ requests) g w b =
      bind-After _ (λ s. Grows g.manager s.0.manager) (respond k r g w) _
        (respond-After k g (λ g'. Grows g.manager g'.manager) r w
          (Grows-Frame g _ (omega (arith, b))))
        (λ (g', w') (low, high).
          After-weaken
            (λ s.
              (g'.manager.next_session_handle ≤ s.0.manager.next_session_handle)
              × (s.0.manager.next_session_handle
                  ≤ g'.manager.next_session_handle + length requests))
            _ (respond_all k requests g' w') (all-Grows requests g' w' (omega (arith, b, high)))
            (λ s (l, h). (omega (arith, low, l), omega (arith, high, h))))

-- Where C_OpenSession writes a handle: it is the counter, which is increased, it leads to the new
-- session, and each other handle leads where it led.
abbrev Opened : ℕ → ℕ → ℕ → ℕ → Globals → Globals → Type 0
Opened slotID flags handle other g g' =
    (handle ≡ g.manager.next_session_handle)
    × (g'.manager.next_session_handle ≡ handle + 1)
    × ((slot : Slot) × (get_slot slotID g ≡ ok slot)
        × (get_session other g'.manager ≡ (
            if handle == other
            then some (Session.new slotID slot flags)
            else get_session other g.manager)))

c_open_session-Opened :
    (slotID flags handle other : ℕ) (g g' : Globals)
    → c_open_session slotID flags true g ≡ ((Constants.ckr_ok, some handle), g')
    → g.manager.next_session_handle + 1 < u64_mod
    → Opened slotID flags handle other g g'
unfolding c_open_session create_session get_session
c_open_session-Opened slotID flags handle other g g' e b = elim (Result-cases (get_slot slotID g)) [
  | inl (slot, f) ↦ (
    ground (arith, e, f),
    ground (arith, e, f, b),
    (
      slot,
      f,
      ground (
        arith,
        e,
        f,
        lookup-insert g.manager.next_session_handle other (Session.new slotID slot flags)
            g.manager.sessions,
      ),
    ),
  )
  | inr (rv, f) ↦ absurd (ground (arith, e, f))
]

-- Where C_OpenSession returns CKR_OK with a handle, the handle leads to a new session of the slot, and
-- each other handle leads where it led. Where C_OpenSession returns CKR_OK once more, after any calls
-- of C functions in between that return, it has written a greater handle, as long as the counter of
-- handles does not wrap.
pub opened_sessions_differ :
    {W : Type 0} (k : KeyService W) (slotID flags slotID' flags' a b other : ℕ)
    (requests : List (Request W)) (g g1 g2 g3 : Globals) (w w' : W)
    → c_open_session slotID flags true g ≡ ((Constants.ckr_ok, some a), g1)
    → g.manager.next_session_handle + length requests + 2 < u64_mod
    → respond_all k requests g1 w ≡ returns (g2, w')
    → c_open_session slotID' flags' true g2 ≡ ((Constants.ckr_ok, some b), g3)
    → ((slot : Slot) × (get_slot slotID g ≡ ok slot)
        × (get_session other g1.manager ≡ (
            if a == other
            then some (Session.new slotID slot flags)
            else get_session other g.manager)))
      × (a < b)
opened_sessions_differ k slotID flags slotID' flags' a b other requests g g1 g2 g3 w w' e n r f =
    let (p, q, found) = c_open_session-Opened slotID flags a other g g1 e (omega (arith, n)) in
    let (low, high) =
      After_returns
        (λ s.
          (g1.manager.next_session_handle ≤ s.0.manager.next_session_handle)
          × (s.0.manager.next_session_handle ≤ g1.manager.next_session_handle + length requests))
        (respond_all k requests g1 w) (g2, w') r
        (all-Grows k requests g1 w (omega (arith, n, p, q))) in
    let (p', q', found') =
      c_open_session-Opened slotID' flags' b other g2 g3 f (omega (arith, n, p, q, high)) in
    (found, omega (arith, p, q, low, p'))
