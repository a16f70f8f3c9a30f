-- ===== src/Tests/Caches.antt =====
-- Calls of C functions in a row.
use nethsm_pkcs.Common.{some, ◌<◌, ok, remove}
use nethsm_pkcs.Api.Sessions.{c_open_session}
use nethsm_pkcs.Db.{add_object}
use nethsm_pkcs.Manager.{update_session, delete_session}
use nethsm_pkcs.Db.Objects.{key_type_to_asn1}
use nethsm_pkcs.Mechanism.Sizes.{key_size}
use nethsm_pkcs.Login
use nethsm_pkcs.Db
use nethsm_pkcs.Session
use nethsm_pkcs.Manager
use nethsm_pkcs.Common.{◌<◌, ok, insert}
use nethsm_pkcs.Manager.{create_session}
use nethsm_pkcs.Common.{◌<◌, ok, lookup}
use nethsm_pkcs.Api.ObjectCalls.{c_find_objects_init}
use nethsm_pkcs.Common.{◌<◌, ok, ℕ, true, ◌≡◌, refl, none, List, [], ◌∷◌, unwrap_or, arith}
use nethsm_pkcs.Login.{Run, returns, panics, runs_out}
use nethsm_pkcs.Db.{object}
use nethsm_pkcs.Db.Handles.{adds, clears, run}
use nethsm_pkcs.Session.{Session, Slot}
use nethsm_pkcs.Session
use nethsm_pkcs.Manager.{get_session}
use nethsm_pkcs.Api.{get_slot, Globals, Reply, just}
use nethsm_pkcs.Api.ObjectCalls.{c_destroy_object}
use nethsm_pkcs.Api.Requests.{Request, finds, destroys, opens, closes, respond_all}
use nethsm_pkcs.Api.Caches.{PermittedBy, caches-Traced}
use nethsm_pkcs.Api.Guarded.{IsGuarded, caches-IsGuarded}
use nethsm_pkcs.Api.Opened.{opened_sessions_differ}
use nethsm_pkcs.Api.Destroyed.{destroyed_handle_stays}
use nethsm_pkcs.Keys.Trace.{Traced}
use nethsm_pkcs.Tests.KeyWorld.{value_of, keys, empty_globals}
use nethsm_pkcs.Tests.World.{one_key, key, session}
use nethsm_pkcs.Api.Sessions.{c_close_session}
use nethsm_pkcs.Api.Closed.{closed_session_stays}
use nethsm_pkcs.Tests.Sessions.{manager-IsValid}
use nethsm_pkcs.Tests.Data.{one_key-IsValid}

abbrev requests : List (Request (List ℕ))
requests = finds 1 none 0 ∷ destroys 1 1 ∷ closes 1 ∷ []

abbrev last_globals : Globals × List ℕ
last_globals = value_of (empty_globals, []) (respond_all keys requests empty_globals [])

caches-Traced_example :
    Traced (PermittedBy keys requests) (empty_globals.dbs 0) (last_globals.0.dbs 0)
unfolding respond_all c_find_objects_init get_session lookup create_session insert Manager.new
    Session.new Db.new Login.new key_size key_type_to_asn1 c_destroy_object update_session object
caches-Traced_example =
    caches-Traced keys 0 requests empty_globals last_globals.0 [] last_globals.1 refl

abbrev with_key : Globals
with_key = record empty_globals { dbs = λ i. one_key }

abbrev destroyed : Reply × Globals × List ℕ
destroyed = value_of (just 1, with_key, []) (c_destroy_object keys 1 1 with_key [])

abbrev first_session : Session
first_session = unwrap_or (get_session 1 with_key.manager) session

destroyed_handle_stays_example :
    object (run (adds key ∷ clears 3 ∷ []) (destroyed.1.dbs first_session.db)) 1 ≡ none
unfolding get_session lookup create_session insert Manager.new c_destroy_object Session.new
    Login.new object add_object Db.new
destroyed_handle_stays_example =
    destroyed_handle_stays keys 1 1 with_key destroyed.1 [] destroyed.2 first_session destroyed.0
      (adds key ∷ clears 3 ∷ []) refl one_key-IsValid refl refl (omega arith)

abbrev later : List (Request (List ℕ))
later = opens 0 4 true ∷ finds 2 none 0 ∷ closes 1 ∷ []

abbrev closed_globals : Globals
closed_globals = (c_close_session 1 empty_globals).1

abbrev later_globals : Globals × List ℕ
later_globals = value_of (empty_globals, []) (respond_all keys later closed_globals [])

closed_session_stays_example : get_session 1 later_globals.0.manager ≡ none
unfolding c_close_session Manager.delete_session lookup create_session insert Manager.new
    respond_all c_find_objects_init get_session c_open_session remove Session.new Db.new Login.new
    key_size key_type_to_asn1
closed_session_stays_example =
    closed_session_stays keys 1 later empty_globals later_globals.0 [] later_globals.1
      manager-IsValid refl (omega arith) refl

caches-IsGuarded_example : IsGuarded (last_globals.0.dbs 0)
unfolding respond_all c_find_objects_init get_session lookup create_session insert Manager.new
    Session.new Db.new Login.new key_size key_type_to_asn1 c_destroy_object update_session object
caches-IsGuarded_example =
    caches-IsGuarded keys requests empty_globals last_globals.0 [] last_globals.1 0 refl
      (λ h o e. cc)

abbrev first_open : Globals
first_open = (c_open_session 0 4 true empty_globals).1

abbrev between : Globals × List ℕ
between = value_of (empty_globals, []) (respond_all keys requests first_open [])

abbrev second_open : Globals
second_open = (c_open_session 0 4 true between.0).1

opened_sessions_differ_example :
    ((s : Slot) × (get_slot 0 empty_globals ≡ ok s)
      × (get_session 2 first_open.manager ≡ some (Session.new 0 s 4)))
    × (2 < 3)
unfolding c_open_session create_session Manager.new respond_all c_find_objects_init get_session
    lookup insert Session.new Db.new Login.new key_size key_type_to_asn1 c_destroy_object
    update_session object c_close_session delete_session remove get_slot
opened_sessions_differ_example =
    opened_sessions_differ keys 0 4 0 4 2 3 2 requests empty_globals first_open between.0
      second_open [] between.1 refl (omega arith) refl refl
