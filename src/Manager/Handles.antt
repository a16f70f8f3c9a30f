-- ===== src/Manager/Handles.antt =====
-- Handles of sessions: what the operations of the table do to the handle that they name, and to the others.
use nethsm_pkcs.Common.{
  ℕ, ◌+◌, ◌<◌, ◌≤◌, ◌≡◌, refl, Bool, true, false, Option, none, some, List, [], ◌∷◌, Assoc, lookup,
  remove, lookup-insert, lookup-remove, Distinct, insert-Distinct, remove-Distinct, ◌∙◌, ◌==◌,
  if◌then◌else◌, arith,
}
use nethsm_pkcs.Db.{u64_mod}
use nethsm_pkcs.Session.{Slot, Session}
use nethsm_pkcs.Session
use nethsm_pkcs.Manager.{
  SessionManager, create_session, get_session, delete_session, slot_handles, remove_all,
  delete_all_slot_sessions, update_session,
}

-- No handle from the next one on is in the table, and each handle has one entry.
pub record IsValid (m : SessionManager) : Type 0 where
  pub distinct : Distinct m.sessions
  pub fresh : (handle : ℕ) → m.next_session_handle ≤ handle → lookup handle m.sessions ≡ none

-- Whether the entry at a handle is of the slot.
abbrev pub of_slot : ℕ → Option Session → Option Session
of_slot slot_id none = none
of_slot slot_id (some s) = if s.slot_id == slot_id then none else some s

abbrev member : ℕ → List ℕ → Bool
member h [] = false
member h (k ∷ ks) = if k == h then true else member h ks

lookup-remove_all :
    (h : ℕ) (ks : List ℕ) (m : Assoc Session)
    → lookup h (remove_all ks m) ≡ (if member h ks then none else lookup h m)
unfolding remove_all
lookup-remove_all h [] m = refl
lookup-remove_all h (k ∷ ks) m =
    ground (arith, lookup-remove_all h ks (remove k m), lookup-remove k h m)

slot_handles_missing :
    (slot_id h : ℕ) (m : Assoc Session)
    → lookup h m ≡ none
    → member h (slot_handles slot_id m) ≡ false
unfolding slot_handles lookup
slot_handles_missing slot_id h [] e = refl
slot_handles_missing slot_id h ((k, s) ∷ m) e = ground (arith, slot_handles_missing slot_id h m)

slot_handles_lem :
    (slot_id h : ℕ) (m : Assoc Session)
    → Distinct m
    → (if member h (slot_handles slot_id m) then none else lookup h m)
      ≡ of_slot slot_id (lookup h m)
unfolding slot_handles lookup
slot_handles_lem slot_id h [] d = refl
slot_handles_lem slot_id h ((k, s) ∷ m) d =
    ground (arith, slot_handles_lem slot_id h m d.1, slot_handles_missing slot_id h m)

-- In a valid table, closing all sessions of a slot closes exactly those: a handle of another
-- slot's session leads to the same session as before, and a handle of the slot's to none.
pub get_session-delete_all :
    (slot_id handle : ℕ) (m : SessionManager)
    → IsValid m
    → get_session handle (delete_all_slot_sessions slot_id m)
      ≡ of_slot slot_id (get_session handle m)
unfolding get_session delete_all_slot_sessions
get_session-delete_all slot_id handle m v =
    lookup-remove_all handle (slot_handles slot_id m.sessions) m.sessions
    ∙ slot_handles_lem slot_id handle m.sessions v.distinct

-- The steps of the table: opening, closing, closing all, and what a function does to a session that is open.
pub data Step : SessionManager → SessionManager → Type 0 where
  opened :
      (slot_id : ℕ) (slot : Slot) (flags : ℕ) {m : SessionManager}
      → m.next_session_handle + 1 < u64_mod
      → Step m (create_session slot_id slot flags m).1
  closed : (handle : ℕ) {m : SessionManager} → Step m (delete_session handle m).1
  closed_all : (slot_id : ℕ) {m : SessionManager} → Step m (delete_all_slot_sessions slot_id m)
  used :
      (handle : ℕ) (s s' : Session) {m : SessionManager}
      → get_session handle m ≡ some s
      → Step m (update_session handle s' m)

pub data Steps : SessionManager → SessionManager → Type 0 where
  done : {m : SessionManager} → Steps m m
  step : {m n o : SessionManager} → Step m n → Steps n o → Steps m o

remove_all-Distinct : (ks : List ℕ) (m : Assoc Session) → Distinct m → Distinct (remove_all ks m)
unfolding remove_all
remove_all-Distinct [] m d = d
remove_all-Distinct (k ∷ ks) m d = remove_all-Distinct ks (remove k m) (remove-Distinct k m d)

-- The table stays valid through every step, as long as the counter of handles does not wrap.
pub Step-IsValid : {m n : SessionManager} → Step m n → IsValid m → IsValid n
unfolding create_session delete_session delete_all_slot_sessions update_session get_session
Step-IsValid (opened slot_id slot flags {m} b) v = record {
  distinct = insert-Distinct m.next_session_handle _ m.sessions v.distinct;
  fresh = λ h le. ground (
    arith,
    v.fresh h,
    lookup-insert m.next_session_handle h (Session.new slot_id slot flags) m.sessions,
  );
}
Step-IsValid (closed handle {m}) v = record {
  distinct = remove-Distinct handle m.sessions v.distinct;
  fresh = λ h le. ground (arith, v.fresh h le, lookup-remove handle h m.sessions);
}
Step-IsValid (closed_all slot_id {m}) v = record {
  distinct = remove_all-Distinct (slot_handles slot_id m.sessions) m.sessions v.distinct;
  fresh = λ h le.
      ground
        (arith, v.fresh h le, lookup-remove_all h (slot_handles slot_id m.sessions) m.sessions);
}
Step-IsValid (used handle s s' {m} e) v = record {
  distinct = insert-Distinct handle s' m.sessions v.distinct;
  fresh = λ h le. ground (arith, v.fresh h le, lookup-insert handle h s' m.sessions);
}

-- A step leaves a handle below the counter that leads nowhere as it is.
pub dead-Step :
    {m n : SessionManager} (h : ℕ)
    → Step m n
    → h < m.next_session_handle
    → get_session h m ≡ none
    → (h < n.next_session_handle) × (get_session h n ≡ none)
unfolding create_session delete_session delete_all_slot_sessions update_session get_session
dead-Step h (opened slot_id slot flags {m} b) l e =
    ground
      (arith, lookup-insert m.next_session_handle h (Session.new slot_id slot flags) m.sessions)
dead-Step h (closed handle {m}) l e = ground (arith, lookup-remove handle h m.sessions)
dead-Step h (closed_all slot_id {m}) l e =
    ground (arith, lookup-remove_all h (slot_handles slot_id m.sessions) m.sessions)
dead-Step h (used handle s s' {m} f) l e = ground (arith, lookup-insert handle h s' m.sessions)

-- A handle that was given out and leads to no session leads to none after any further steps, as
-- long as the counter of handles does not wrap.
pub closed_handles_stay :
    {m n : SessionManager} (h : ℕ)
    → Steps m n
    → h < m.next_session_handle
    → get_session h m ≡ none
    → get_session h n ≡ none
closed_handles_stay h done l e = e
closed_handles_stay h (step s rest) l e =
    let (l', e') = dead-Step h s l e in closed_handles_stay h rest l' e'
