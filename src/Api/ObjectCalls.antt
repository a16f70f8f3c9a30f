-- ===== src/Api/ObjectCalls.antt =====
-- C_FindObjectsInit, C_GetObjectSize, C_CreateObject, C_DestroyObject and
-- C_SetAttributeValue (pkcs11/src/api/object.rs).
use text.Mathlib.Text.{◌==◌ as str_eq}
use nethsm_pkcs.Common.{
  ℕ, String, Bool, true, false, Option, none, some, List, [], ◌∷◌, Result, ok, err, unwrap_or, ltb,
  if◌then◌else◌,
}
use nethsm_pkcs.Constants
use nethsm_pkcs.Errors.{Error, error_rv}
use nethsm_pkcs.Service.Keys.{KeyService}
use nethsm_pkcs.Login.{Run, returns, ◌>>=◌}
use nethsm_pkcs.Db.{Object, object}
use nethsm_pkcs.Db.Attributes.{CkRawAttr}
use nethsm_pkcs.Keys.{ParsedAttributes, parse_attributes}
use nethsm_pkcs.Keys.Create.{Aliases}
use nethsm_pkcs.Keys.Fetch.{Entries}
use nethsm_pkcs.Session.Objects.{enum_init}
use nethsm_pkcs.Session.Changes.{create_object, delete_object}
use nethsm_pkcs.Manager.{get_session}
use nethsm_pkcs.Api.{Globals, Reply, just, sized, init_rv, CacheHandler, lock_cache}

abbrev pub aliases_of : Globals → Aliases
aliases_of g = record {
  enabled = elim g.slots [ none ↦ none | some slots ↦ some g.enable_set_attribute_value ];
  names = g.key_aliases;
}

-- `insert` of a map from names to names.
unfoldable pub set_alias : String → String → List (String × String) → List (String × String)
set_alias name value [] = (name, value) ∷ []
set_alias name value (entry ∷ names) =
    let rest = set_alias name value names in
    if str_eq entry.0 name then (name, value) ∷ names else entry ∷ rest

-- The size that is written, or none.
unfoldable pub c_get_object_size : ℕ → ℕ → Bool → Globals → Reply
c_get_object_size hSession hObject false g = just Constants.ckr_arguments_bad
c_get_object_size hSession hObject true g = elim (get_session hSession g.manager) [
  | none ↦ just Constants.ckr_session_handle_invalid
  | some s ↦ elim (object (g.dbs s.db) hObject) [
    | none ↦ just Constants.ckr_object_handle_invalid
    | some obj ↦ sized Constants.ckr_ok (unwrap_or obj.size 0)
  ]
]

-- The handle that is written is that of the first object.
created_reply : Result Error Entries → Reply
created_reply (err e) = just (error_rv e)
created_reply (ok []) = just Constants.ckr_general_error
created_reply (ok (entry ∷ entries)) = sized Constants.ckr_ok entry.0

module _ {W : Type 0} (k : KeyService W) where
  unfoldable pub find_init_handler : Option (List CkRawAttr) → CacheHandler W
  unfolding enum_init init_rv
  find_init_handler template s db w = do
    (result, s', db', w') ← enum_init k template s db w
    returns (just (init_rv result), s', db', w')

  -- `ulCount` is the number that comes with a null pointer.
  unfoldable pub c_find_objects_init :
      ℕ → Option (List CkRawAttr) → ℕ → Globals → W → Run (Reply × Globals × W)
  unfolding lock_cache find_init_handler
  c_find_objects_init hSession (some template) ulCount g w =
      lock_cache hSession (find_init_handler (some template)) g w
  c_find_objects_init hSession none ulCount g w =
      if ltb 0 ulCount
      then returns (just Constants.ckr_arguments_bad, g, w)
      else lock_cache hSession (find_init_handler none) g w

  unfoldable pub create_handler : List CkRawAttr → Aliases → CacheHandler W
  unfolding create_object created_reply
  create_handler template aliases s db w = do
    (result, db', w') ← create_object k template aliases s db w
    returns (created_reply result, s, db', w')

  -- `phObject` says whether the pointer is there.
  unfoldable pub c_create_object :
      ℕ → Option (List CkRawAttr) → Bool → Globals → W → Run (Reply × Globals × W)
  unfolding lock_cache create_handler
  c_create_object hSession template false g w = returns (just Constants.ckr_arguments_bad, g, w)
  c_create_object hSession none true g w = returns (just Constants.ckr_arguments_bad, g, w)
  c_create_object hSession (some template) true g w =
      lock_cache hSession (create_handler template (aliases_of g)) g w

  unfoldable pub destroy_handler : ℕ → CacheHandler W
  unfolding delete_object init_rv
  destroy_handler hObject s db w = do
    (result, s', db', w') ← delete_object k hObject s db w
    returns (just (init_rv result), s', db', w')

  unfoldable pub c_destroy_object : ℕ → ℕ → Globals → W → Run (Reply × Globals × W)
  unfolding lock_cache destroy_handler
  c_destroy_object hSession hObject g w = lock_cache hSession (destroy_handler hObject) g w

  -- The new name of the object becomes an alias of its identifier.
  unfoldable pub rename : Option String → Object → Globals → ℕ × Globals
  unfolding set_alias
  rename none obj g = (Constants.ckr_attribute_read_only, g)
  rename (some new_name) obj g =
      (Constants.ckr_ok, record g { key_aliases = set_alias new_name obj.id g.key_aliases })

  unfoldable pub set_parsed : ℕ → ℕ → ParsedAttributes → Globals → ℕ × Globals
  unfolding rename
  set_parsed hSession hObject parsed g = elim (aliases_of g).enabled [
    | none ↦ (Constants.ckr_cryptoki_not_initialized, g)
    | some false ↦ (Constants.ckr_attribute_read_only, g)
    | some true ↦ elim (get_session hSession g.manager) [
      | none ↦ (Constants.ckr_session_handle_invalid, g)
      | some s ↦ elim (object (g.dbs s.db) hObject) [
        | none ↦ (Constants.ckr_object_handle_invalid, g)
        | some obj ↦ rename parsed.id obj g
      ]
    ]
  ]

  unfoldable pub c_set_attribute_value : ℕ → ℕ → Option (List CkRawAttr) → Globals → ℕ × Globals
  unfolding parse_attributes set_parsed
  c_set_attribute_value hSession hObject none g = (Constants.ckr_arguments_bad, g)
  c_set_attribute_value hSession hObject (some template) g = elim (parse_attributes k template) [
    | err e ↦ (error_rv e, g)
    | ok parsed ↦ set_parsed hSession hObject parsed g
  ]
