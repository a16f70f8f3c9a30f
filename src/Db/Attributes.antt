-- ===== src/Db/Attributes.antt =====
-- Attribute templates (pkcs11/src/backend/db/attr.rs) and `fill_attr_template` (backend/db/object.rs).
pub mod Filling
pub mod Success
use nethsm_pkcs.Common.{
  ℕ, ◌-◌, ◌^◌, Option, none, some, List, [], ◌∷◌, ◌++◌, Result, ok, err, length, drop, lookup, ltb,
  if◌then◌else◌,
}
use nethsm_pkcs.Constants
use nethsm_pkcs.Db.{
  Attr, bytes, ck_bbool, ck_byte, ck_key_type, ck_cert_type, ck_cert_category, ck_mechanism_type,
  ck_object_class, ck_ulong, sensitive, Object,
}

abbrev pub ck_unavailable_information : ℕ
ck_unavailable_information = 2 ^ 64 - 1

-- A CK_ATTRIBUTE: `p_value` is `none` for a null pointer, and otherwise the memory from there on.
pub record CkRawAttr : Type 0 where
  pub type_ : ℕ
  pub p_value : Option (List ℕ)
  pub value_len : ℕ

pub data AttrError : Type 0 where
  buf_too_small null_ptr_deref : AttrError

unfoldable pub as_bytes : Attr → List ℕ
as_bytes (bytes v) = v
as_bytes (ck_bbool v) = v
as_bytes (ck_byte v) = v
as_bytes (ck_key_type v) = v
as_bytes (ck_cert_type v) = v
as_bytes (ck_cert_category v) = v
as_bytes (ck_mechanism_type v) = v
as_bytes (ck_object_class v) = v
as_bytes (ck_ulong v) = v
as_bytes sensitive = []

abbrev pub set_len : ℕ → CkRawAttr → CkRawAttr
set_len len a = record a { value_len = len }

abbrev pub set_unavailable : CkRawAttr → CkRawAttr
set_unavailable a = set_len ck_unavailable_information a

-- The copy overwrites the start of the memory.
unfoldable pub set_val_bytes : List ℕ → CkRawAttr → Result AttrError (Unit {0}) × CkRawAttr
set_val_bytes v a = elim a.p_value [
  | none ↦ (err null_ptr_deref, set_len (length v) a)
  | some memory ↦
      if ltb a.value_len (length v)
      then (err buf_too_small, a)
      else (ok tt, record a { p_value = some (v ++ drop (length v) memory); value_len = length v })
]

-- What follows from `sres`.
abbrev pub after_set : ℕ → Result AttrError (Unit {0}) × CkRawAttr → ℕ × CkRawAttr
after_set rcode (ok done, a) = (rcode, a)
after_set rcode (err null_ptr_deref, a) = (rcode, a)
after_set rcode (err buf_too_small, a) = (Constants.ckr_buffer_too_small, set_unavailable a)

-- The body of the loop, for the attribute that the object has.
unfoldable pub fill_attr : Option Attr → ℕ → CkRawAttr → ℕ × CkRawAttr
unfolding set_val_bytes as_bytes
fill_attr none rcode a = (Constants.ckr_attribute_type_invalid, set_unavailable a)
fill_attr (some sensitive) rcode a = (Constants.ckr_attribute_sensitive, set_unavailable a)
fill_attr (some attr) rcode a = after_set rcode (set_val_bytes (as_bytes attr) a)

unfoldable pub fill_from : Object → ℕ → List CkRawAttr → ℕ × List CkRawAttr
unfolding fill_attr
fill_from object rcode [] = (rcode, [])
fill_from object rcode (a ∷ tpl) =
    let (rcode', a') = fill_attr (lookup a.type_ object.attrs) rcode a in
    let (last, tpl') = fill_from object rcode' tpl in (last, a' ∷ tpl')

unfoldable pub fill_attr_template : Object → List CkRawAttr → ℕ × List CkRawAttr
unfolding fill_from
fill_attr_template object tpl = fill_from object Constants.ckr_ok tpl
