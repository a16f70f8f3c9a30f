-- ===== src/Api/Leaves.antt =====
-- What the handlers of api/object.rs and api/generation.rs leave of a cache, and what `lock_session!` of
-- utils.rs makes of it.
use nethsm_pkcs.Common.{
  ℕ, true, sym, subst, Option, List, Result, ◌==◌, ==_iff, Bool-cases, Option-cases, inl, inr,
}
use nethsm_pkcs.Service.Keys.{KeyService}
use nethsm_pkcs.Mechanism.{Mechanism}
use nethsm_pkcs.Errors.{Error}
use nethsm_pkcs.Login.Results.{After, any-After, bind-After}
use nethsm_pkcs.Db.{Db, Object}
use nethsm_pkcs.Db.Handles.{Op, adds, removes, marks}
use nethsm_pkcs.Db.Attributes.{CkRawAttr}
use nethsm_pkcs.Keys.Create.{Aliases}
use nethsm_pkcs.Keys.Fetch.{Entries}
use nethsm_pkcs.Keys.Trace.{Traced, Fetched, Traced-refl}
use nethsm_pkcs.Session.{Session}
use nethsm_pkcs.Session.Objects.{enum_init}
use nethsm_pkcs.Session.Changes.{create_object, delete_object, generate_key}
use nethsm_pkcs.Session.Trace.{
  SessionLeaves, enum_init-Leaves, create_object-Leaves, delete_object-Leaves, generate_key-Leaves,
}
use nethsm_pkcs.Manager.{get_session}
use nethsm_pkcs.Api.{Globals, Reply, Handler, CacheHandler, lock_session, lock_cache, set_db}
use nethsm_pkcs.Api.ObjectCalls.{find_init_handler, create_handler, destroy_handler}
use nethsm_pkcs.Api.Generation.{generate_handler}

set_db-Traced :
    (P : Op → Type 0) (i j : ℕ) (db : Db) (g : Globals)
    → Traced P (g.dbs j) db
    → Traced P (g.dbs i) ((set_db j db g).dbs i)
set_db-Traced P i j db g t = elim (Bool-cases (i == j)) [
  | inl y ↦ rw y (subst (λ n. Traced P (g.dbs n) db) (sym ((==_iff i j).0 y)) t)
  | inr n ↦ rw n (Traced-refl P (g.dbs i))
]

module _ {W : Type 0} (P : Op → Type 0) (i : ℕ) where
  -- What a function leaves of the cache, given what its handler leaves of it.
  pub lock_cache-Traced :
      (hSession : ℕ) (handler : CacheHandler W) (g : Globals) (w : W)
      → ((s : Session) (db : Db) (w : W) → SessionLeaves P db (handler s db w))
      → After (λ r. Traced P (g.dbs i) (r.1.dbs i)) (lock_cache hSession handler g w)
  unfolding lock_cache
  lock_cache-Traced hSession handler g w h = elim (Option-cases (get_session hSession g.manager)) [
    | inl e ↦ rw (e, lock_cache) (Traced-refl P (g.dbs i))
    | inr (s, e) ↦
        rw (e, lock_cache)
          (bind-After (λ r. Traced P (g.dbs i) (r.1.dbs i)) (λ r. Traced P (g.dbs s.db) r.2)
            (handler s (g.dbs s.db) w) _ (h s (g.dbs s.db) w)
            (λ r t. set_db-Traced P i s.db r.2 g t))
  ]

  pub lock_session-Traced :
      (hSession : ℕ) (handler : Handler W) (g : Globals) (w : W)
      → After (λ r. Traced P (g.dbs i) (r.1.dbs i)) (lock_session hSession handler g w)
  unfolding lock_session
  lock_session-Traced hSession handler g w = elim (Option-cases (get_session hSession g.manager)) [
    | inl e ↦ rw (e, lock_session) (Traced-refl P (g.dbs i))
    | inr (s, e) ↦
        rw (e, lock_session)
          (any-After (λ r. Traced P (g.dbs i) (r.1.dbs i)) (handler s w) _
            (λ r. Traced-refl P (g.dbs i)))
  ]

module _ {W : Type 0} (k : KeyService W) (P : Op → Type 0)
    (fetched : (o : Object) → Fetched k o → P (adds o))
    (marked : (now : ℕ) → P (marks now true)) where
  pub find_init_handler-Leaves :
      (template : Option (List CkRawAttr)) (s : Session) (db : Db) (w : W)
      → SessionLeaves P db (find_init_handler k template s db w)
  unfolding find_init_handler
  find_init_handler-Leaves template s db w =
      bind-After (λ r. Traced P db r.2) (λ r. Traced P db r.2) (enum_init k template s db w) _
        (enum_init-Leaves k P fetched marked template s db w) (λ r t. t)

module _ {W : Type 0} (k : KeyService W) (P : Op → Type 0)
    (fetched : (o : Object) → Fetched k o → P (adds o)) where
  pub create_handler-Leaves :
      (template : List CkRawAttr) (aliases : Aliases) (s : Session) (db : Db) (w : W)
      → SessionLeaves P db (create_handler k template aliases s db w)
  unfolding create_handler
  create_handler-Leaves template aliases s db w =
      bind-After (λ r. Traced P db r.2) (λ r. Traced P db r.1)
        (create_object k template aliases s db w) _
        (create_object-Leaves k P fetched template aliases s db w) (λ r t. t)

  pub generate_handler-Leaves :
      (template : List CkRawAttr) (public_template : Option (List CkRawAttr)) (mech : Mechanism)
      (reply : Result Error Entries → Reply) (s : Session) (db : Db) (w : W)
      → SessionLeaves P db (generate_handler k template public_template mech reply s db w)
  unfolding generate_handler
  generate_handler-Leaves template public_template mech reply s db w =
      bind-After (λ r. Traced P db r.2) (λ r. Traced P db r.1)
        (generate_key k template public_template mech s db w) _
        (generate_key-Leaves k P fetched template public_template mech s db w) (λ r t. t)

module _ {W : Type 0} (k : KeyService W) (P : Op → Type 0) where
  pub destroy_handler-Leaves :
      (hObject : ℕ)
      → P (removes hObject)
      → (s : Session) (db : Db) (w : W) → SessionLeaves P db (destroy_handler k hObject s db w)
  unfolding destroy_handler
  destroy_handler-Leaves hObject p s db w =
      bind-After (λ r. Traced P db r.2) (λ r. Traced P db r.2) (delete_object k hObject s db w) _
        (delete_object-Leaves k P hObject s db w p) (λ r t. t)
