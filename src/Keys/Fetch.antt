-- ===== src/Keys/Fetch.antt =====
-- Fetching keys and certificates into the cache (`fetch_key`, `fetch_certificate`, `fetch_one` of
-- pkcs11/src/backend/key.rs).
use nethsm_pkcs.Common.{
  ℕ, String, Bool, true, false, Option, none, some, List, [], ◌∷◌, ◌++◌, Result, ok, err, ◌==◌,
  if◌then◌else◌,
}
use nethsm_pkcs.Errors.{
  ObjectKind, private_key, public_key, secret_key, certificate, other, UserMode, ApiError,
  response_error, Error, not_logged_in,
}
use nethsm_pkcs.Errors
use nethsm_pkcs.Service.{ApiCall}
use nethsm_pkcs.Service.Keys.{KeyService}
use nethsm_pkcs.Login.{LoginCtx, Run, returns, ◌>>=◌, can_run_mode}
use nethsm_pkcs.Login.Calls.{try_}
use nethsm_pkcs.Db.{Db, Object, add_object}
use nethsm_pkcs.Db.Objects.Make.{from_key_data, from_cert_data}

-- `From<ApiError> for Error`.
abbrev pub api_error : {A : Type 0} → Result ApiError A → Result Error A
api_error (ok a) = ok a
api_error (err e) = err (Errors.api e)

abbrev pub Entries : Type 0
Entries = List (ℕ × Object)

-- A result with the cache and the world after it.
abbrev pub Outcome : Type 0 → Type 0 → Type 0
Outcome W A = Run (Result Error A × Db × W)

-- `status: 404`.
abbrev pub is_missing : ApiError → Bool
is_missing (response_error content) = content.status == 404
is_missing e = false

unfoldable pub add_objects : List Object → Db → Entries × Db
unfolding add_object
add_objects [] db = ([], db)
add_objects (object ∷ objects) db =
    let (entry, db') = add_object object db in
    let (result, last) = add_objects objects db' in (entry ∷ result, last)

-- Whether the kind is one that `fetch_key` is called for.
abbrev pub wants_keys : Option ObjectKind → Bool
wants_keys none = true
wants_keys (some certificate) = false
wants_keys (some kind) = true

module _ {W : Type 0} (k : KeyService W) where
  -- A call through a context that is dropped afterwards.
  unfoldable pub call_api :
      {R : Type 0} → ApiCall W R → UserMode → LoginCtx → W → Run (Result ApiError R × W)
  unfolding try_
  call_api call mode c w = do (result, c', w') ← try_ k.service call mode c w; returns (result, w')

  unfoldable pub keep_objects : Result Error (List Object) → Db → W → Outcome W Entries
  unfolding add_objects
  keep_objects (err e) db w = returns (err e, db, w)
  keep_objects (ok objects) db w =
      let (result, db') = add_objects objects db in returns (ok result, db', w)

  unfoldable pub fetch_key : String → Option (List ℕ) → LoginCtx → Db → W → Outcome W Entries
  unfolding call_api can_run_mode from_key_data keep_objects
  fetch_key key_id raw_id c db w =
      if can_run_mode c UserMode.operator_or_administrator
      then (do
        (response, w') ← call_api (k.keys_key_id_get key_id) UserMode.operator_or_administrator c w
        elim response [
          | err e ↦
              if is_missing e then returns (ok [], db, w') else returns (err (Errors.api e), db, w')
          | ok key_data ↦ do
            objects ← from_key_data k key_data key_id raw_id
            keep_objects objects db w'
        ])
      else returns (err (not_logged_in UserMode.operator_or_administrator), db, w)

  unfoldable pub keep_object : Result Error Object → Db → W → Outcome W Entries
  unfolding add_object
  keep_object (err e) db w = returns (err e, db, w)
  keep_object (ok object) db w =
      let (entry, db') = add_object object db in returns (ok (entry ∷ []), db', w)

  unfoldable pub fetch_certificate :
      String → Option (List ℕ) → LoginCtx → Db → W → Outcome W Entries
  unfolding call_api can_run_mode from_cert_data keep_object
  fetch_certificate key_id raw_id c db w =
      if can_run_mode c UserMode.operator_or_administrator
      then (do
        (response, w') ←
            call_api (k.keys_key_id_cert_get key_id) UserMode.operator_or_administrator c w
        elim response [
          | err e ↦ returns (err (Errors.api e), db, w')
          | ok cert ↦ keep_object (from_cert_data k cert key_id raw_id) db w'
        ])
      else returns (err (not_logged_in UserMode.operator_or_administrator), db, w)

  -- A certificate that cannot be fetched is left out.
  unfoldable pub with_certificate :
      Bool → String → Option (List ℕ) → LoginCtx → Entries → Db → W → Outcome W Entries
  unfolding fetch_certificate
  with_certificate false key_id raw_id c acc db w = returns (ok acc, db, w)
  with_certificate true key_id raw_id c acc db w = do
    (result, db', w') ← fetch_certificate key_id raw_id c db w
    elim result [
      | ok entries ↦ returns (ok (acc ++ entries), db', w')
      | err e ↦ returns (ok acc, db', w')
    ]

  -- `fetch_key` where keys are wanted, and nothing otherwise.
  unfoldable pub keys_if : Bool → String → Option (List ℕ) → LoginCtx → Db → W → Outcome W Entries
  unfolding fetch_key
  keys_if true key_id raw_id c db w = fetch_key key_id raw_id c db w
  keys_if false key_id raw_id c db w = returns (ok [], db, w)

  unfoldable pub wants_certificate : Option ObjectKind → Bool
  wants_certificate none = true
  wants_certificate (some certificate) = true
  wants_certificate (some kind) = false

  unfoldable pub fetch_one : String → Option ObjectKind → LoginCtx → Db → W → Outcome W Entries
  unfolding keys_if with_certificate wants_certificate
  fetch_one key_id kind c db w = do
    (result, db', w') ← keys_if (wants_keys kind) key_id none c db w
    elim result [
      | err e ↦ returns (err e, db', w')
      | ok acc ↦ with_certificate (wants_certificate kind) key_id none c acc db' w'
    ]
