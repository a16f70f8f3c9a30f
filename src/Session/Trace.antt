-- ===== src/Session/Trace.antt =====
-- What the methods of a session do to the cache (`enum_init`, `create_object`, `delete_object` and
-- `generate_key` of pkcs11/src/backend/session.rs): some operations of backend/db/mod.rs in a row.
use nethsm_pkcs.Common.{
  ℕ, String, true, refl, Option, none, List, [], ◌∷◌, is_some, Option-cases, inl, inr, lookup,
}
use nethsm_pkcs.Errors.{
  ObjectKind, certificate, private_key, public_key, secret_key, other, UserMode,
}
use nethsm_pkcs.Mechanism.{Mechanism}
use nethsm_pkcs.Service.Keys.{KeyService}
use nethsm_pkcs.Login.{LoginCtx, Run, can_run_mode}
use nethsm_pkcs.Login.Calls.{try_}
use nethsm_pkcs.Login.Results.{
  After, any_result-After, result-After, answer-After, if-After, bind-After, cases-After,
  wide_result-After,
}
use nethsm_pkcs.Db.{Db, Object, remove_object, fetched_all_keys}
use nethsm_pkcs.Db.Handles.{Op, adds, removes, marks, run, step}
use nethsm_pkcs.Db.Attributes.{CkRawAttr}
use nethsm_pkcs.Keys.Create.{
  Aliases, KeyInfo, create_key_from_template, extract_key_id_location_header,
}
use nethsm_pkcs.Keys.Fetch.{wants_keys, call_api, keys_if, fetch_one}
use nethsm_pkcs.Keys.Generate.{
  both_parsed, request_key, generate_request, fetch_generated, generate_key_from_template,
}
use nethsm_pkcs.Keys.{ParsedAttributes}
use nethsm_pkcs.Keys.Trace.{
  Traced, Fetched, Traced-refl, Traced-trans, Leaves, later-Leaves, fetch_key-Leaves,
  fetch_certificate-Leaves, with_certificate-Leaves, keys_if-Leaves, fetch_one-Leaves,
}
use nethsm_pkcs.Session.{Session, key_of}
use nethsm_pkcs.Session.Objects.{
  KeyRequirements, fetch_by_id, find_by_id, fetch_each, fetch_listed, fetch_all_keys, search,
  find_key, init_with, enum_init, parse_key_requirements, of_kind, of_id, is_empty,
}
use nethsm_pkcs.Session.Changes.{
  fetch_created, create_object, delete_remote, remove_local, delete_known, delete_object,
  generate_key,
}

-- A run that gives a result, the session, the cache and the world.
abbrev pub SessionLeaves : {W A : Type 0} → (Op → Type 0) → Db → Run (A × Session × Db × W) → Type 0
SessionLeaves P db m = After (λ r. Traced P db r.2) m

module _ {W : Type 0} (k : KeyService W) (P : Op → Type 0)
    (fetched : (o : Object) → Fetched k o → P (adds o))
    (marked : (now : ℕ) → P (marks now true)) where
  fetch_by_id-Leaves :
      (id : String) (req : KeyRequirements) (c : LoginCtx) (db : Db) (w : W)
      → Leaves P db (fetch_by_id k id req c db w)
  unfolding fetch_by_id
  fetch_by_id-Leaves id req c db w =
      result-After (λ r. Traced P db r.1) (λ r. Traced P db r.1)
        (keys_if k (wants_keys req.kind) id req.raw_id c db w) _
        (keys_if-Leaves k P fetched (wants_keys req.kind) id req.raw_id c db w)
        (λ results db' w' t.
          later-Leaves P db db' _ t
            (with_certificate-Leaves k P fetched _ id req.raw_id c results db' w'))
        (λ e db' w' t. t)

  find_by_id-Leaves :
      (id : String) (req : KeyRequirements) (c : LoginCtx) (db : Db) (w : W)
      → Leaves P db (find_by_id k id req c db w)
  unfolding find_by_id
  find_by_id-Leaves id req c db w =
      if-After (λ r. Traced P db r.1) (is_empty (of_kind req.kind (of_id id db.objects))) _ _
        (fetch_by_id-Leaves id req c db w) (Traced-refl P db)

  fetch_each-Leaves :
      (keys : List String) (kind : Option ObjectKind) (c : LoginCtx) (db : Db) (w : W)
      → Leaves P db (fetch_each k keys kind c db w)
  unfolding fetch_each
  fetch_each-Leaves [] kind c db w = Traced-refl P db
  fetch_each-Leaves (key ∷ keys) kind c db w =
      result-After (λ r. Traced P db r.1) (λ r. Traced P db r.1) (fetch_one k key kind c db w) _
        (fetch_one-Leaves k P fetched key kind c db w)
        (λ entries db' w' t.
          bind-After (λ r. Traced P db r.1) (λ r. Traced P db' r.1)
            (fetch_each k keys kind c db' w') _ (fetch_each-Leaves keys kind c db' w')
            (λ r u. Traced-trans P db db' r.1 t u))
        (λ e db' w' t. t)

  fetch_listed-Leaves :
      (keys : List String) (kind : Option ObjectKind) (c : LoginCtx) (db : Db) (w : W)
      → Leaves P db (fetch_listed k keys kind c db w)
  unfolding fetch_listed run step
  fetch_listed-Leaves keys kind c db w =
      result-After (λ r. Traced P db r.1) (λ r. Traced P db r.1) (fetch_each k keys kind c db w) _
        (fetch_each-Leaves keys kind c db w)
        (λ handles db' w' t.
          Traced-trans P db db' _ t (marks (k.now w') true ∷ [], (marked (k.now w'), tt), refl))
        (λ e db' w' t. t)

  fetch_all_keys-Leaves :
      (kind : Option ObjectKind) (s : Session) (db : Db) (w : W)
      → SessionLeaves P db (fetch_all_keys k kind s db w)
  unfolding fetch_all_keys
  fetch_all_keys-Leaves kind s db w =
      if-After (λ r. Traced P db r.2) (fetched_all_keys (k.now w) db) _ _ (Traced-refl P db)
        (if-After (λ r. Traced P db r.2)
          (can_run_mode s.login_ctx UserMode.operator_or_administrator) _ _
          (any_result-After (λ r. Traced P db r.2)
            (try_ k.service k.keys_get UserMode.operator_or_administrator s.login_ctx w) _
            (λ ids c w'.
              bind-After (λ r. Traced P db r.2) (λ r. Traced P db r.1)
                (fetch_listed k ids kind c db w') _ (fetch_listed-Leaves ids kind c db w')
                (λ r t. t))
            (λ e c w'. Traced-refl P db))
          (Traced-refl P db))

  search-Leaves :
      (req : KeyRequirements) (s : Session) (db : Db) (w : W)
      → SessionLeaves P db (search k req s db w)
  unfolding search
  search-Leaves req s db w = elim (Option-cases req.id) [
    | inl e ↦ rw (e, search) (fetch_all_keys-Leaves req.kind s db w)
    | inr (id, e) ↦
        rw (e, search)
          (bind-After (λ r. Traced P db r.2) (λ r. Traced P db r.1)
            (find_by_id k id req s.login_ctx db w) _ (find_by_id-Leaves id req s.login_ctx db w)
            (λ r t. t))
  ]

  find_key-Leaves :
      (req : KeyRequirements) (s : Session) (db : Db) (w : W)
      → SessionLeaves P db (find_key k req s db w)
  unfolding find_key
  find_key-Leaves req s db w =
      bind-After (λ r. Traced P db r.2) (λ r. Traced P db r.2) (search k req s db w) _
        (search-Leaves req s db w) (λ r t. t)

  init_with-Leaves :
      (req : KeyRequirements) (s : Session) (db : Db) (w : W)
      → SessionLeaves P db (init_with k req s db w)
  unfolding init_with
  init_with-Leaves req s db w =
      wide_result-After (λ r. Traced P db r.2) (λ r. Traced P db r.2) (find_key k req s db w) _
        (find_key-Leaves req s db w) (λ found s' db' w' t. t) (λ e s' db' w' t. t)

  pub enum_init-Leaves :
      (template : Option (List CkRawAttr)) (s : Session) (db : Db) (w : W)
      → SessionLeaves P db (enum_init k template s db w)
  unfolding enum_init
  enum_init-Leaves template s db w =
      if-After (λ r. Traced P db r.2) (is_some s.enum_ctx) _ _ (Traced-refl P db)
        (cases-After (λ r. Traced P db r.2) (parse_key_requirements k template) _ _
          (λ req. init_with-Leaves req s db w) (λ e. Traced-refl P db))

module _ {W : Type 0} (k : KeyService W) (P : Op → Type 0)
    (fetched : (o : Object) → Fetched k o → P (adds o)) where
  fetch_created-Leaves :
      (info : KeyInfo) (c : LoginCtx) (db : Db) (w : W) → Leaves P db (fetch_created k info c db w)
  unfolding fetch_created
  fetch_created-Leaves (id, certificate, raw_id) c db w =
      fetch_certificate-Leaves k P fetched id none c db w
  fetch_created-Leaves (id, secret_key, raw_id) c db w = fetch_key-Leaves k P fetched id none c db w
  fetch_created-Leaves (id, private_key, raw_id) c db w =
      fetch_key-Leaves k P fetched id none c db w
  fetch_created-Leaves (id, public_key, raw_id) c db w = fetch_key-Leaves k P fetched id none c db w
  fetch_created-Leaves (id, other, raw_id) c db w = fetch_key-Leaves k P fetched id none c db w

  pub create_object-Leaves :
      (template : List CkRawAttr) (aliases : Aliases) (s : Session) (db : Db) (w : W)
      → Leaves P db (create_object k template aliases s db w)
  unfolding create_object
  create_object-Leaves template aliases s db w =
      if-After (λ r. Traced P db r.1) (can_run_mode s.login_ctx UserMode.administrator) _ _
        (answer-After (λ r. Traced P db r.1)
          (create_key_from_template k template aliases s.login_ctx w) _
          (λ info w'. fetch_created-Leaves info s.login_ctx db w') (λ e w'. Traced-refl P db))
        (Traced-refl P db)

  fetch_generated-Leaves :
      (parsed : ParsedAttributes) (location : Option String) (c : LoginCtx) (db : Db) (w : W)
      → Leaves P db (fetch_generated k parsed location c db w)
  unfolding fetch_generated
  fetch_generated-Leaves parsed location c db w =
      cases-After (λ r. Traced P db r.1) (extract_key_id_location_header location) _ _
        (λ id. fetch_key-Leaves k P fetched id parsed.raw_id c db w) (λ e. Traced-refl P db)

  request_key-Leaves :
      (parsed : ParsedAttributes) (public_ : Option ParsedAttributes) (mechanism : Mechanism)
      (c : LoginCtx) (db : Db) (w : W)
      → Leaves P db (request_key k parsed public_ mechanism c db w)
  unfolding request_key
  request_key-Leaves parsed public_ mechanism c db w =
      cases-After (λ r. Traced P db r.1) (generate_request k parsed public_ mechanism) _ _
        (λ request.
          answer-After (λ r. Traced P db r.1)
            (call_api k (k.keys_generate_post request) UserMode.administrator c w) _
            (λ location w'. fetch_generated-Leaves parsed location c db w')
            (λ e w'. Traced-refl P db))
        (λ e. Traced-refl P db)

  pub generate_key-Leaves :
      (template : List CkRawAttr) (public_template : Option (List CkRawAttr))
      (mechanism : Mechanism) (s : Session) (db : Db) (w : W)
      → Leaves P db (generate_key k template public_template mechanism s db w)
  unfolding generate_key generate_key_from_template
  generate_key-Leaves template public_template mechanism s db w =
      if-After (λ r. Traced P db r.1) (can_run_mode s.login_ctx UserMode.administrator) _ _
        (cases-After (λ r. Traced P db r.1) (both_parsed k template public_template) _ _
          (λ both. request_key-Leaves both.0 both.1 mechanism s.login_ctx db w)
          (λ e. Traced-refl P db))
        (Traced-refl P db)

module _ {W : Type 0} (k : KeyService W) (P : Op → Type 0) where
  removed-Traced :
      (handle : ℕ) (db : Db) → P (removes handle) → Traced P db (remove_local k handle db).1
  unfolding remove_local run step remove_object
  removed-Traced handle db p = elim (Option-cases (lookup handle db.objects)) [
    | inl e ↦ (removes handle ∷ [], (p, tt), rw (e, remove_local) refl)
    | inr (key, e) ↦ (removes handle ∷ [], (p, tt), rw (e, remove_local) refl)
  ]

  pub delete_object-Leaves :
      (handle : ℕ) (s : Session) (db : Db) (w : W)
      → P (removes handle)
      → SessionLeaves P db (delete_object k handle s db w)
  unfolding delete_object delete_known
  delete_object-Leaves handle s db w p =
      if-After (λ r. Traced P db r.2) (can_run_mode s.login_ctx UserMode.administrator) _ _
        (cases-After (λ r. Traced P db r.2) (key_of db handle) _ _
          (λ key.
            any_result-After (λ r. Traced P db r.2) (delete_remote k key s w) _
              (λ done s' w'. removed-Traced handle db p) (λ e s' w'. Traced-refl P db))
          (λ e. Traced-refl P db))
        (Traced-refl P db)
