-- ===== src/Db.antt =====
-- The object cache of a slot (pkcs11/src/backend/db/mod.rs), and what an object is
-- (backend/db/object.rs). The order of a `HashMap` is that of the list; no property depends on it.
pub mod Validity
pub mod Handles
pub mod View
pub mod Attributes
pub mod Objects
use text.Mathlib.Text.{◌==◌ as str_eq}
use nethsm_pkcs.Common.{
  ℕ, ◌+◌, ◌-◌, ◌/◌, ◌%◌, ◌^◌, String, Bool, true, false, ◌&&◌, Option, none, some, List, [], ◌∷◌,
  Assoc, lookup, insert, remove, ltb, ◌==◌, if◌then◌else◌,
}
use nethsm_pkcs.Errors.{ObjectKind, private_key, public_key, secret_key, certificate, other}
use nethsm_pkcs.Mechanism.{KeyMechanism}

pub data Attr : Type 0 where
  bytes ck_bbool ck_byte ck_key_type ck_cert_type ck_cert_category : List ℕ → Attr
  ck_mechanism_type ck_object_class ck_ulong : List ℕ → Attr
  sensitive : Attr

pub record Object : Type 0 where
  pub attrs : Assoc Attr
  pub kind : ObjectKind
  pub id : String
  pub size : Option ℕ
  pub mechanisms : List KeyMechanism

-- `PartialEq` of ObjectKind.
unfoldable pub same_kind : ObjectKind → ObjectKind → Bool
same_kind private_key private_key = true
same_kind public_key public_key = true
same_kind secret_key secret_key = true
same_kind certificate certificate = true
same_kind other other = true
same_kind _ _ = false

-- Times are in nanoseconds.
pub record Db : Type 0 where
  pub objects : Assoc Object
  pub next_handle : ℕ
  pub last_fetchall_timestamp : Option ℕ

-- A CK_OBJECT_HANDLE has 64 bits, and wraps in the release profile.
abbrev pub u64_mod : ℕ
u64_mod = 2 ^ 64

unfoldable pub new : Db
new = record { objects = []; next_handle = 1; last_fetchall_timestamp = none }

-- `elapsed` fails when the clock stands before the timestamp.
unfoldable pub fetched_all_keys : ℕ → Db → Bool
fetched_all_keys now db = elim db.last_fetchall_timestamp [
  | none ↦ false
  | some last ↦ if ltb now last then false else ltb ((now - last) / 1000000000) 3600
]

unfoldable pub set_fetched_all_keys : ℕ → Bool → Db → Db
set_fetched_all_keys now fetched db = record db {
  last_fetchall_timestamp = if fetched then some now else none;
}

unfoldable pub clear : ℕ → Db → Db
unfolding set_fetched_all_keys
clear now db = record (set_fetched_all_keys now false db) { objects = [] }

unfoldable pub same_object : Object → Object → Bool
unfolding same_kind
same_object a b = str_eq a.id b.id && same_kind a.kind b.kind

-- `iter_mut().find(..)`: the handle of the first object with this id and kind.
unfoldable pub find_same : Object → Assoc Object → Option ℕ
unfolding same_object
find_same object [] = none
find_same object ((handle, obj) ∷ objects) =
    if same_object obj object then some handle else find_same object objects

unfoldable pub add_object : Object → Db → (ℕ × Object) × Db
unfolding find_same
add_object object db = elim (find_same object db.objects) [
  | some handle ↦ ((handle, object), record db { objects = insert handle object db.objects })
  | none ↦ (
    (db.next_handle, object),
    record db {
      objects = insert db.next_handle object db.objects;
      next_handle = (db.next_handle + 1) % u64_mod;
    },
  )
]

unfoldable pub object : Db → ℕ → Option Object
object db handle = lookup handle db.objects

unfoldable pub remove_object : ℕ → Db → Option Object × Db
remove_object handle db =
    (lookup handle db.objects, record db { objects = remove handle db.objects })
