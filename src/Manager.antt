-- ===== src/Manager.antt =====
-- The table of open sessions (`SessionManager` of backend/session.rs).
pub mod Handles
use nethsm_pkcs.Common.{
  ℕ, ◌+◌, ◌%◌, Option, none, some, List, [], ◌∷◌, Assoc, lookup, insert, remove, ◌==◌,
  if◌then◌else◌,
}
use nethsm_pkcs.Db.{u64_mod}
use nethsm_pkcs.Session.{Slot, Session}
use nethsm_pkcs.Session

pub record SessionManager : Type 0 where
  pub sessions : Assoc Session
  pub next_session_handle : ℕ

-- `SessionManager::new`.
unfoldable pub new : SessionManager
new = record { sessions = []; next_session_handle = 1 }

-- A CK_SESSION_HANDLE has 64 bits, and wraps in the release profile.
unfoldable pub create_session : ℕ → Slot → ℕ → SessionManager → ℕ × SessionManager
create_session slot_id slot flags m = (
  m.next_session_handle,
  record {
    sessions = insert m.next_session_handle (Session.new slot_id slot flags) m.sessions;
    next_session_handle = (m.next_session_handle + 1) % u64_mod;
  },
)

unfoldable pub get_session : ℕ → SessionManager → Option Session
get_session handle m = lookup handle m.sessions

unfoldable pub delete_session : ℕ → SessionManager → Option Session × SessionManager
delete_session handle m =
    (lookup handle m.sessions, record m { sessions = remove handle m.sessions })

-- The handles of the slot's sessions.
unfoldable pub slot_handles : ℕ → Assoc Session → List ℕ
slot_handles slot_id [] = []
slot_handles slot_id ((handle, s) ∷ rest) =
    let handles = slot_handles slot_id rest in
    if s.slot_id == slot_id then handle ∷ handles else handles

unfoldable pub remove_all : List ℕ → Assoc Session → Assoc Session
remove_all [] sessions = sessions
remove_all (handle ∷ handles) sessions = remove_all handles (remove handle sessions)

unfoldable pub delete_all_slot_sessions : ℕ → SessionManager → SessionManager
unfolding slot_handles remove_all
delete_all_slot_sessions slot_id m = record m {
  sessions = remove_all (slot_handles slot_id m.sessions) m.sessions;
}

-- What a handler does to a session that it has locked.
unfoldable pub update_session : ℕ → Session → SessionManager → SessionManager
update_session handle s m = record m { sessions = insert handle s m.sessions }
