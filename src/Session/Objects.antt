-- ===== src/Session/Objects.antt =====
-- Finding objects (`find_key` and `fetch_all_keys` of pkcs11/src/backend/session.rs, `parse_key_requirements` and
-- `enum_init` of backend/object.rs). Keys are fetched one after the other, as they are where the
-- application allows no threads.
use text.Mathlib.Text.{◌==◌ as str_eq}
use nethsm_pkcs.Common.{
  ℕ, String, Bool, true, false, not, ◌&&◌, Option, none, some, List, [], ◌∷◌, ◌++◌, map, Result, ok,
  err, is_some, ◌>>=◌ as bind, ◌==◌, if◌then◌else◌,
}
use nethsm_pkcs.Constants
use nethsm_pkcs.Errors.{
  ObjectKind, certificate, private_key, secret_key, UserMode, ApiError, Error, not_logged_in,
  invalid_attribute, operation_active,
}
use nethsm_pkcs.Errors
use nethsm_pkcs.Service.Keys.{KeyService}
use nethsm_pkcs.Login.{LoginCtx, Run, returns, ◌>>=◌, can_run_mode}
use nethsm_pkcs.Login.Calls.{try_}
use nethsm_pkcs.Db.{Db, Object, same_kind, fetched_all_keys, set_fetched_all_keys}
use nethsm_pkcs.Db.Attributes.{CkRawAttr}
use nethsm_pkcs.Db.Objects.{kind_from_class}
use nethsm_pkcs.Keys.{val_bytes, read_value, or_else, read_id}
use nethsm_pkcs.Keys.Fetch.{Entries, Outcome, wants_keys, fetch_one, keys_if, with_certificate}
use nethsm_pkcs.Session.{Session}
use nethsm_pkcs.Session.Finding

pub record KeyRequirements : Type 0 where
  pub kind : Option ObjectKind
  pub id : Option String
  pub raw_id : Option (List ℕ)

abbrev pub no_requirements : KeyRequirements
no_requirements = record { kind = none; id = none; raw_id = none }

abbrev pub is_kind : Option ObjectKind → ObjectKind → Bool
is_kind none kind = true
is_kind (some wanted) kind = same_kind wanted kind

abbrev pub is_empty : Entries → Bool
is_empty [] = true
is_empty (entry ∷ entries) = false

-- `iter().filter(..)` and `retain`.
unfoldable pub of_kind : Option ObjectKind → Entries → Entries
of_kind kind [] = []
of_kind kind (entry ∷ entries) =
    let rest = of_kind kind entries in if is_kind kind entry.1.kind then entry ∷ rest else rest

unfoldable pub of_id : String → Entries → Entries
of_id key_id [] = []
of_id key_id (entry ∷ entries) =
    let rest = of_id key_id entries in if str_eq entry.1.id key_id then entry ∷ rest else rest

abbrev pub handles_of : Entries → List ℕ
handles_of entries = map (λ (entry : ℕ × Object). entry.0) entries

-- Whether a certificate is fetched after the keys that were found.
certificate_too : Option ObjectKind → Entries → Bool
certificate_too none results = not (is_empty results)
certificate_too (some certificate) results = true
certificate_too (some kind) results = false

module _ {W : Type 0} (k : KeyService W) where
  unfoldable pub requirement : CkRawAttr → KeyRequirements → Result Error KeyRequirements
  unfolding read_value val_bytes read_id
  requirement a req =
      if a.type_ == Constants.cka_class
      then ok (record req {
        kind = elim (read_value a) [ none ↦ none | some c ↦ some (kind_from_class c) ];
      })
      else if a.type_ == Constants.cka_id
      then ok (elim (val_bytes a) [
        | none ↦ req
        | some value ↦ record req {
          id = some (read_id k value).0;
          raw_id = or_else (read_id k value).1 req.raw_id;
        }
      ])
      else if a.type_ == Constants.cka_label && not (is_some req.id)
      then elim (val_bytes a) [
        | none ↦ err (invalid_attribute a.type_)
        | some value ↦ elim (k.service.from_utf8 value) [
          | none ↦ err Error.string_parse
          | some label ↦ ok (record req { id = some label })
        ]
      ]
      else ok req

  unfoldable pub requirements_from : List CkRawAttr → KeyRequirements → Result Error KeyRequirements
  unfolding requirement
  requirements_from [] req = ok req
  requirements_from (a ∷ template) req = bind (requirement a req) (requirements_from template)

  unfoldable pub parse_key_requirements : Option (List CkRawAttr) → Result Error KeyRequirements
  unfolding requirements_from
  parse_key_requirements none = ok no_requirements
  parse_key_requirements (some template) = requirements_from template no_requirements

  -- The search at the NetHSM for an identifier that the cache has not.
  unfoldable pub fetch_by_id : String → KeyRequirements → LoginCtx → Db → W → Outcome W Entries
  unfolding keys_if with_certificate certificate_too
  fetch_by_id key_id req c db w = do
    (result, db', w') ← keys_if k (wants_keys req.kind) key_id req.raw_id c db w
    elim result [
      | err e ↦ returns (err e, db', w')
      | ok results ↦
          with_certificate k (certificate_too req.kind results) key_id req.raw_id c results db' w'
    ]

  unfoldable pub find_by_id : String → KeyRequirements → LoginCtx → Db → W → Outcome W Entries
  unfolding of_id of_kind fetch_by_id
  find_by_id key_id req c db w =
      let cached = of_kind req.kind (of_id key_id db.objects) in
      if is_empty cached then fetch_by_id key_id req c db w else returns (ok cached, db, w)

  -- `iter().map(..).collect()` into a result: the first error ends it.
  unfoldable pub fetch_each :
      List String → Option ObjectKind → LoginCtx → Db → W → Outcome W Entries
  unfolding fetch_one
  fetch_each [] kind c db w = returns (ok [], db, w)
  fetch_each (key ∷ keys) kind c db w = do
    (result, db', w') ← fetch_one k key kind c db w
    elim result [
      | err e ↦ returns (err e, db', w')
      | ok entries ↦ do
        (more, db'', w'') ← fetch_each keys kind c db' w'
        returns (bind more (λ rest. ok (entries ++ rest)), db'', w'')
    ]

  unfoldable pub fetch_listed :
      List String → Option ObjectKind → LoginCtx → Db → W → Outcome W Entries
  unfolding fetch_each set_fetched_all_keys
  fetch_listed keys kind c db w = do
    (results, db', w') ← fetch_each keys kind c db w
    elim results [
      | err e ↦ returns (err e, db', w')
      | ok handles ↦ returns (ok handles, set_fetched_all_keys (k.now w') true db', w')
    ]

  -- The session comes with its login context after `try_`.
  unfoldable pub fetch_all_keys :
      Option ObjectKind → Session → Db → W → Run (Result Error Entries × Session × Db × W)
  unfolding fetched_all_keys can_run_mode try_ fetch_listed
  fetch_all_keys kind s db w =
      if fetched_all_keys (k.now w) db
      then returns (ok db.objects, s, db, w)
      else if can_run_mode s.login_ctx UserMode.operator_or_administrator
      then (do
        (keys, c, w') ← try_ k.service k.keys_get UserMode.operator_or_administrator s.login_ctx w
        elim keys [
          | err e ↦ returns (err (Errors.api e), record s { login_ctx = c }, db, w')
          | ok ids ↦ do
            (results, db', w'') ← fetch_listed ids kind c db w'
            returns (results, record s { login_ctx = c }, db', w'')
        ])
      else returns (err (not_logged_in UserMode.operator_or_administrator), s, db, w)

  -- The entries that `find_key` looks through: of one identifier, or all.
  unfoldable pub search :
      KeyRequirements → Session → Db → W → Run (Result Error Entries × Session × Db × W)
  unfolding find_by_id fetch_all_keys
  search req s db w = elim req.id [
    | none ↦ fetch_all_keys req.kind s db w
    | some key_id ↦ do
      (results, db', w') ← find_by_id key_id req s.login_ctx db w
      returns (results, s, db', w')
  ]

  unfoldable pub find_key :
      KeyRequirements → Session → Db → W → Run (Result Error (List ℕ) × Session × Db × W)
  unfolding search of_kind
  find_key req s db w = do
    (results, s', db', w') ← search req s db w
    returns (bind results (λ entries. ok (handles_of (of_kind req.kind entries))), s', db', w')

  unfoldable pub init_with :
      KeyRequirements → Session → Db → W → Run (Result Error (Unit {0}) × Session × Db × W)
  unfolding find_key
  init_with req s db w = do
    (handles, s', db', w') ← find_key req s db w
    elim handles [
      | err e ↦ returns (err e, s', db', w')
      | ok found ↦ returns (ok tt, record s' { enum_ctx = some (Finding.new found) }, db', w')
    ]

  -- `enum_init` of the session, with the context that it sets.
  unfoldable pub enum_init :
      Option (List CkRawAttr) → Session → Db → W → Run (Result Error (Unit {0}) × Session × Db × W)
  unfolding parse_key_requirements init_with
  enum_init template s db w =
      if is_some s.enum_ctx
      then returns (err operation_active, s, db, w)
      else elim (parse_key_requirements template) [
        | err e ↦ returns (err e, s, db, w)
        | ok req ↦ init_with req s db w
      ]
