-- ===== src/Session/Rights.antt =====
-- What needs a user (`create_object`, `delete_object`, `generate_key` and `find_key` of
-- backend/session.rs).
use nethsm_pkcs.Common.{ℕ, ◌≡◌, false, Option, List, err, arith}
use nethsm_pkcs.Errors.{UserMode, not_logged_in}
use nethsm_pkcs.Mechanism.{Mechanism}
use nethsm_pkcs.Service.Keys.{KeyService}
use nethsm_pkcs.Login.{returns, can_run_mode}
use nethsm_pkcs.Db.{Db}
use nethsm_pkcs.Db.Attributes.{CkRawAttr}
use nethsm_pkcs.Keys.Create.{Aliases}
use nethsm_pkcs.Session.{Session}
use nethsm_pkcs.Session.Changes.{create_object, delete_object, generate_key}

module _ {W : Type 0} (k : KeyService W) where
  -- Where the login context cannot run the mode Administrator, creating, deleting and generating
  -- objects give the error NotLoggedIn of this mode, and neither call the NetHSM nor change the
  -- session or the cache.
  pub needs_administrator :
      (s : Session) (db : Db) (w : W) (template : List CkRawAttr) (aliases : Aliases) (handle : ℕ)
      (public_ : Option (List CkRawAttr)) (mechanism : Mechanism)
      → can_run_mode s.login_ctx UserMode.administrator ≡ false
      → (create_object k template aliases s db w
          ≡ returns (err (not_logged_in UserMode.administrator), db, w))
        × (delete_object k handle s db w
            ≡ returns (err (not_logged_in UserMode.administrator), s, db, w))
        × (generate_key k template public_ mechanism s db w
            ≡ returns (err (not_logged_in UserMode.administrator), db, w))
  unfolding create_object delete_object generate_key
  needs_administrator s db w template aliases handle public_ mechanism h =
      (ground arith, ground arith, ground arith)
