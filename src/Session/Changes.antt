-- ===== src/Session/Changes.antt =====
-- Creating, deleting and generating objects (`create_object`, `delete_object` and `generate_key` of
-- pkcs11/src/backend/session.rs).
use nethsm_pkcs.Common.{ℕ, String, Option, none, some, List, Result, ok, err, if◌then◌else◌}
use nethsm_pkcs.Errors.{
  ObjectKind, certificate, private_key, secret_key, UserMode, Error, not_logged_in,
  invalid_object_handle, ApiError,
}
use nethsm_pkcs.Errors
use nethsm_pkcs.Mechanism.{Mechanism}
use nethsm_pkcs.Service.{ApiCall}
use nethsm_pkcs.Service.Keys.{KeyService}
use nethsm_pkcs.Login.{LoginCtx, Run, returns, ◌>>=◌, can_run_mode}
use nethsm_pkcs.Login.Calls.{try_}
use nethsm_pkcs.Db.{Db, Object, remove_object}
use nethsm_pkcs.Db.Attributes.{CkRawAttr}
use nethsm_pkcs.Keys.Create.{Aliases, KeyInfo, create_key_from_template}
use nethsm_pkcs.Keys.Fetch.{Entries, Outcome, fetch_key, fetch_certificate}
use nethsm_pkcs.Keys.Generate.{generate_key_from_template}
use nethsm_pkcs.Session.{Session, key_of}

module _ {W : Type 0} (k : KeyService W) where
  -- What was created is fetched by its identifier alone.
  unfoldable pub fetch_created : KeyInfo → LoginCtx → Db → W → Outcome W Entries
  unfolding fetch_key fetch_certificate
  fetch_created (id, certificate, raw_id) c db w = fetch_certificate k id none c db w
  fetch_created (id, _, raw_id) c db w = fetch_key k id none c db w

  unfoldable pub create_object : List CkRawAttr → Aliases → Session → Db → W → Outcome W Entries
  unfolding can_run_mode create_key_from_template fetch_created
  create_object template aliases s db w =
      if can_run_mode s.login_ctx UserMode.administrator
      then (do
        (created, w') ← create_key_from_template k template aliases s.login_ctx w
        elim created [
          | err e ↦ returns (err e, db, w')
          | ok info ↦ fetch_created info s.login_ctx db w'
        ])
      else returns (err (not_logged_in UserMode.administrator), db, w)

  -- The call at the NetHSM for an object of this kind, and none for other kinds.
  unfoldable pub delete_call : ObjectKind → String → Option (ApiCall W (Unit {0}))
  delete_call certificate id = some (k.keys_key_id_cert_delete id)
  delete_call secret_key id = some (k.keys_key_id_delete id)
  delete_call private_key id = some (k.keys_key_id_delete id)
  delete_call _ id = none

  unfoldable pub delete_remote :
      Object → Session → W → Run (Result ApiError (Unit {0}) × Session × W)
  unfolding delete_call try_
  delete_remote key s w = elim (delete_call key.kind key.id) [
    | none ↦ returns (ok tt, s, w)
    | some call ↦ do
      (response, c, w') ← try_ k.service call UserMode.administrator s.login_ctx w
      returns (response, record s { login_ctx = c }, w')
  ]

  unfoldable pub remove_local : ℕ → Db → Result Error (Unit {0}) × Db
  unfolding remove_object
  remove_local handle db =
      let (removed, db') = remove_object handle db in
      elim removed [ some key ↦ (ok tt, db') | none ↦ (err (invalid_object_handle handle), db') ]

  unfoldable pub delete_known :
      ℕ → Object → Session → Db → W → Run (Result Error (Unit {0}) × Session × Db × W)
  unfolding delete_remote remove_local
  delete_known handle key s db w = do
    (response, s', w') ← delete_remote key s w
    elim response [
      | err e ↦ returns (err (Errors.api e), s', db, w')
      | ok done ↦ let (result, db') = remove_local handle db in returns (result, s', db', w')
    ]

  unfoldable pub delete_object :
      ℕ → Session → Db → W → Run (Result Error (Unit {0}) × Session × Db × W)
  unfolding can_run_mode key_of delete_known
  delete_object handle s db w =
      if can_run_mode s.login_ctx UserMode.administrator
      then elim (key_of db handle) [
        | err e ↦ returns (err e, s, db, w)
        | ok key ↦ delete_known handle key s db w
      ]
      else returns (err (not_logged_in UserMode.administrator), s, db, w)

  unfoldable pub generate_key :
      List CkRawAttr → Option (List CkRawAttr) → Mechanism → Session → Db → W → Outcome W Entries
  unfolding can_run_mode generate_key_from_template
  generate_key template public_template mechanism s db w =
      if can_run_mode s.login_ctx UserMode.administrator
      then generate_key_from_template k template public_template mechanism s.login_ctx db w
      else returns (err (not_logged_in UserMode.administrator), db, w)
