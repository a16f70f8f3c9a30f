-- ===== src/Tests/Keys.antt =====
-- Concrete keys, templates and calls for them.
use nethsm_pkcs.Login
use nethsm_pkcs.Session
use nethsm_pkcs.Mechanism.Raw.{from_ckraw_mech}
use nethsm_pkcs.Manager
use nethsm_pkcs.Manager.{create_session}
use nethsm_pkcs.Session.Objects.{of_kind}
use nethsm_pkcs.Login.{can_run_mode}
use nethsm_pkcs.Common.{insert}
use nethsm_pkcs.Common.{lookup}
use nethsm_pkcs.Session.Objects.{parse_key_requirements}
use nethsm_pkcs.Common.{select}
use nethsm_pkcs.Keys.Create.{has_slash}
use nethsm_pkcs.Db.Objects.{key_type_to_asn1}
use nethsm_pkcs.Mechanism.Sizes.{key_size}
use nethsm_pkcs.Common.{
  ℕ, ◌≡◌, refl, true, none, some, List, [], ◌∷◌, Result, ok, err, replicate, arith, if◌then◌else◌,
  ◌==◌,
}
use nethsm_pkcs.Errors.{Error, certificate, private_key}
use nethsm_pkcs.Mechanism.Raw.{CkRawMechanism}
use nethsm_pkcs.Db.{Db, Object, object}
use nethsm_pkcs.Db
use nethsm_pkcs.Db.Attributes.{CkRawAttr, set_val_bytes}
use nethsm_pkcs.Db.Objects.{to_le_bytes}
use nethsm_pkcs.Db.Objects.Make.{from_key_data}
use nethsm_pkcs.Db.Objects.Secrecy.{Described, from_key_data-Described}
use nethsm_pkcs.Login.{LoginCtx, Run, returns}
use nethsm_pkcs.Keys.{ParsedAttributes, default, read_value, parse_attributes}
use nethsm_pkcs.Keys.Values.{read_value-set_val_bytes}
use nethsm_pkcs.Keys.Location.{location, extract_key_id_location_header-location}
use nethsm_pkcs.Keys.Create.{extract_key_id_location_header, put_certificate, upload_certificate}
use nethsm_pkcs.Keys.Fetch.{Entries, fetch_key}
use nethsm_pkcs.Keys.Entries.{Held, fetch_key-Held}
use nethsm_pkcs.Session.{Session}
use nethsm_pkcs.Session.Objects.{KeyRequirements, no_requirements, find_key}
use nethsm_pkcs.Session.Changes.{delete_object}
use nethsm_pkcs.Session.Requirements.{parse_attributes-parse_key_requirements}
use nethsm_pkcs.Session.Deletion.{Deleted, delete_object_succeeds}
use nethsm_pkcs.Session.Hidden.{all_of, certificates_hide_keys}
use nethsm_pkcs.Manager.{get_session}
use nethsm_pkcs.Api.{Globals, Reply}
use nethsm_pkcs.Api.ObjectCalls.{aliases_of, c_set_attribute_value}
use nethsm_pkcs.Api.Generation.{c_generate_key_pair}
use nethsm_pkcs.Api.KeyPairs.{Written, key_pair_handles}
use nethsm_pkcs.Api.Aliases.{upload_certificate-renamed}
use nethsm_pkcs.Tests.KeyWorld.{value_of, keys, ec_key, empty_globals, new_room}
use nethsm_pkcs.Tests.World.{session, one_key, login_ctx}

abbrev list_of : {A : Type 0} → Result Error (List A) → List A
list_of (ok xs) = xs
list_of (err e) = []

abbrev ec_objects : List Object
ec_objects = list_of (value_of (ok []) (from_key_data keys ec_key "k" none))

from_key_data-Described_example : Described ec_key.type_ "k" (107 ∷ []) ec_objects
unfolding from_key_data key_size key_type_to_asn1
from_key_data-Described_example = from_key_data-Described keys ec_key "k" none ec_objects refl

abbrev fetched : Result Error Entries × Db × List ℕ
fetched = value_of (ok [], Db.new, []) (fetch_key keys "k" none login_ctx Db.new [])

fetch_key-Held_example : Held "k" fetched.1 (list_of fetched.0)
unfolding fetch_key key_size key_type_to_asn1
fetch_key-Held_example =
    fetch_key-Held keys "k" none login_ctx Db.new fetched.1 [] [] (list_of fetched.0) new_room.0
      new_room.1 refl

abbrev buffer : CkRawAttr
buffer = record { type_ = 0; p_value = some (replicate 9 1); value_len = 9 }

read_value-set_val_bytes_example :
    read_value (set_val_bytes (to_le_bytes 8 300) buffer).1 ≡ some 300
read_value-set_val_bytes_example =
    read_value-set_val_bytes 300 buffer (replicate 9 1) (omega arith) refl (omega arith)

extract_key_id_location_header-location_example :
    extract_key_id_location_header (some (location "/api/v1/keys" "key" "mechanisms=A")) ≡ ok "key"
unfolding has_slash
extract_key_id_location_header-location_example =
    extract_key_id_location_header-location "/api/v1/keys" "key" "mechanisms=A" refl refl refl

abbrev named : List CkRawAttr
named = record { type_ = 258; p_value = some (1 ∷ 2 ∷ []); value_len = 2 } ∷ []

abbrev parsed : ParsedAttributes
parsed = record default { id = some "pin" }

abbrev required : KeyRequirements
required = record no_requirements { id = some "pin" }

parse_attributes-parse_key_requirements_example :
    (required.id ≡ parsed.id) × (required.raw_id ≡ parsed.raw_id)
unfolding parse_attributes select parse_key_requirements
parse_attributes-parse_key_requirements_example =
    parse_attributes-parse_key_requirements keys named parsed required refl refl

abbrev deleted : Result Error (Unit {0}) × Session × Db × List ℕ
deleted = value_of (ok tt, session, Db.new, []) (delete_object keys 1 session one_key [])

delete_object_succeeds_example :
    (o : Object) × (object one_key 1 ≡ some o)
    × Deleted keys o session deleted.1 [] []
    × (object deleted.2 5 ≡ (if 1 == 5 then none else object one_key 5))
unfolding delete_object object lookup Db.add_object Db.new insert
delete_object_succeeds_example =
    delete_object_succeeds keys 1 5 session deleted.1 one_key deleted.2 [] [] refl

abbrev found : Result Error (List ℕ) × Session × Db × List ℕ
found = value_of (ok [], session, Db.new, []) (find_key keys (all_of certificate) session Db.new [])

certificates_hide_keys_example :
    find_key keys (all_of private_key) session found.2 [] ≡ returns (ok [], session, found.2, [])
unfolding of_kind Db.new find_key
certificates_hide_keys_example =
    certificates_hide_keys keys session found.1 session Db.new found.2 [] [] [] (list_of found.0)
      refl refl refl

abbrev renamed : Globals
renamed = record empty_globals { dbs = λ i. one_key }

abbrev aliased : Globals
aliased = record renamed { key_aliases = ("pin", "key") ∷ [] }

abbrev upload : ParsedAttributes
upload = record parsed { value = some (9 ∷ []) }

upload_certificate-renamed_example :
    (s : Session) × (o : Object) × (get_session 1 renamed.manager ≡ some s)
    × (object (renamed.dbs s.db) 1 ≡ some o)
    × (upload_certificate keys upload (aliases_of aliased) login_ctx []
        ≡ put_certificate keys (9 ∷ []) o.id upload login_ctx [])
unfolding c_set_attribute_value select get_session lookup create_session insert Manager.new object
    Db.add_object Db.new
upload_certificate-renamed_example =
    upload_certificate-renamed keys 1 1 named renamed aliased parsed upload (9 ∷ []) login_ctx []
      refl refl refl refl

abbrev ec_generation : CkRawMechanism
ec_generation = record { mechanism = 4160; p_parameter = none; parameter_len = 0 }

abbrev generated : Reply × Globals × List ℕ
generated =
    value_of (record { rv = 1; written = none; bytes = [] }, empty_globals, [])
      (c_generate_key_pair keys 1 (some ec_generation) (some named) (some named) true true
        empty_globals [])

key_pair_handles_example :
    (s : Session) × (get_session 1 empty_globals.manager ≡ some s)
    × Written generated.0 (generated.1.dbs s.db)
unfolding c_generate_key_pair from_ckraw_mech get_session lookup create_session insert Manager.new
    Session.new Login.new key_size key_type_to_asn1
key_pair_handles_example =
    key_pair_handles keys 1 ec_generation named named empty_globals generated.1 [] generated.2
      generated.0 (λ i. new_room) refl refl
