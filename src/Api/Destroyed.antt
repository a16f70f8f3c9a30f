-- ===== src/Api/Destroyed.antt =====
-- The handle of an object that C_DestroyObject (pkcs11/src/api/object.rs) has deleted.
use nethsm_pkcs.Common.{
  ℕ, ◌≡◌, ◌<◌, ◌+◌, sym, subst, none, some, List, length, lookup, lookup-remove, arith,
}
use nethsm_pkcs.Constants
use nethsm_pkcs.Errors.Values.{error_rv_fails}
use nethsm_pkcs.Service.Keys.{KeyService}
use nethsm_pkcs.Login.{returns}
use nethsm_pkcs.Login.Results.{After, After_returns, After-of, wide_result-After}
use nethsm_pkcs.Db.{Db, u64_mod, object, remove_object}
use nethsm_pkcs.Db.Validity.{IsValid, remove_object-IsValid}
use nethsm_pkcs.Db.Handles.{Op, run, dead_handles_stay}
use nethsm_pkcs.Session.{Session}
use nethsm_pkcs.Session.Changes.{delete_object}
use nethsm_pkcs.Session.Deletion.{delete_object_succeeds, delete_object_removes}
use nethsm_pkcs.Manager.{get_session}
use nethsm_pkcs.Api.{Globals, Reply, init_rv}
use nethsm_pkcs.Api.ObjectCalls.{destroy_handler, c_destroy_object}
use nethsm_pkcs.Api.Replies.{locked-After}

-- A handle that was given out, and leads nowhere in a valid cache.
abbrev pub Spent : ℕ → Db → Type 0
Spent h db = IsValid db × (h < db.next_handle) × (lookup h db.objects ≡ none)

removed-Spent : (h : ℕ) (db : Db) → IsValid db → h < db.next_handle → Spent h (remove_object h db).1
removed-Spent h db v b = (
  remove_object-IsValid h db v,
  unfold remove_object in b,
  unfold remove_object in ground (arith, lookup-remove h h db.objects),
)

module _ {W : Type 0} (k : KeyService W) where
  destroyed-Spent :
      (h : ℕ) (s : Session) (db : Db) (w : W)
      → IsValid db
      → After (λ r. r.0.rv ≡ Constants.ckr_ok → Spent h r.2) (destroy_handler k h s db w)
  unfolding destroy_handler init_rv object
  destroyed-Spent h s db w v =
      wide_result-After (λ r. r.0.rv ≡ Constants.ckr_ok → Spent h r.2)
        (λ r. delete_object k h s db w ≡ returns r) (delete_object k h s db w) _
        (After-of _ (delete_object k h s db w) (λ r e. e))
        (λ done s' db' w' e rv.
          let (key, found, deleted, after) = delete_object_succeeds k h h s s' db db' w w' e in
          subst (Spent h) (sym (delete_object_removes k h s s' db db' w w' e))
            (removed-Spent h db v (v.in_range h key found).1))
        (λ e s' db' w' q rv. absurd ((error_rv_fails e).0 rv))

  -- After C_DestroyObject has returned CKR_OK in a session whose cache is valid, the handle leads
  -- nowhere in this cache, whatever operations follow on it, as long as the handles do not run out.
  pub destroyed_handle_stays :
      (hSession hObject : ℕ) (g g' : Globals) (w w' : W) (s : Session) (reply : Reply)
      (ops : List Op)
      → get_session hSession g.manager ≡ some s
      → IsValid (g.dbs s.db)
      → c_destroy_object k hSession hObject g w ≡ returns (reply, g', w')
      → reply.rv ≡ Constants.ckr_ok
      → (g'.dbs s.db).next_handle + length ops < u64_mod
      → object (run ops (g'.dbs s.db)) hObject ≡ none
  unfolding c_destroy_object object
  destroyed_handle_stays hSession hObject g g' w w' s reply ops found v e rv b =
      let (valid, given, gone) =
        After_returns (λ r. r.0.rv ≡ Constants.ckr_ok → Spent hObject (r.1.dbs s.db))
          (c_destroy_object k hSession hObject g w) (reply, g', w') e
          (locked-After (λ r db. r.rv ≡ Constants.ckr_ok → Spent hObject db) hSession
            (destroy_handler k hObject) g w s found (destroyed-Spent hObject s (g.dbs s.db) w v))
          rv in
      dead_handles_stay ops hObject (g'.dbs s.db) valid b given gone
