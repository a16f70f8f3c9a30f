-- ===== src/Db/Attributes/Success.antt =====
-- What the return value CKR_OK of `fill_attr_template` promises.
use nethsm_pkcs.Common.{
  ℕ, ◌≡◌, ◌≢◌, refl, inl, inr, Option, none, some, List, [], ◌∷◌, length, take, drop, lookup, arith,
  Option-cases,
}
use nethsm_pkcs.Constants
use nethsm_pkcs.Db.{
  Attr, bytes, ck_bbool, ck_byte, ck_key_type, ck_cert_type, ck_cert_category, ck_mechanism_type,
  ck_object_class, ck_ulong, sensitive, Object,
}
use nethsm_pkcs.Db.Attributes.{
  CkRawAttr, after_set, as_bytes, set_val_bytes, fill_attr, fill_from, fill_attr_template,
}
use nethsm_pkcs.Db.Attributes.Filling.{Each, take-append}

-- The memory, where there is any, starts with the bytes.
abbrev pub Starts : List ℕ → Option (List ℕ) → Type 0
Starts v none = Unit
Starts v (some memory) = take (length v) memory ≡ v

-- The object has the attribute, it is not sensitive, its length is written, and its bytes too if there
-- is memory for them.
abbrev pub Filled : Option Attr → CkRawAttr → CkRawAttr → Type 0
Filled o a a' =
    (attr : Attr) × (o ≡ some attr)
    × (attr ≢ sensitive)
    × (a'.value_len ≡ length (as_bytes attr))
    × Starts (as_bytes attr) a'.p_value

set_filled :
    (v : List ℕ) (rcode : ℕ) (a : CkRawAttr)
    → (after_set rcode (set_val_bytes v a)).0 ≡ Constants.ckr_ok
    → ((after_set rcode (set_val_bytes v a)).1.value_len ≡ length v)
      × Starts v (after_set rcode (set_val_bytes v a)).1.p_value
      × (rcode ≡ Constants.ckr_ok)
unfolding set_val_bytes
set_filled v rcode a h = elim (Option-cases a.p_value) [
  | inl e ↦ ground arith
  | inr (memory, e) ↦ ground (arith, take-append v (drop (length v) memory))
]

fill_attr-Filled :
    (o : Option Attr) (rcode : ℕ) (a : CkRawAttr)
    → (fill_attr o rcode a).0 ≡ Constants.ckr_ok
    → Filled o a (fill_attr o rcode a).1 × (rcode ≡ Constants.ckr_ok)
unfolding fill_attr as_bytes
fill_attr-Filled none rcode a h = absurd (omega arith)
fill_attr-Filled (some sensitive) rcode a h = absurd (omega arith)
fill_attr-Filled (some (bytes v)) rcode a h =
    let (l, s, r) = set_filled v rcode a h in ((bytes v, refl, λ e. cc, l, s), r)
fill_attr-Filled (some (ck_bbool v)) rcode a h =
    let (l, s, r) = set_filled v rcode a h in ((ck_bbool v, refl, λ e. cc, l, s), r)
fill_attr-Filled (some (ck_byte v)) rcode a h =
    let (l, s, r) = set_filled v rcode a h in ((ck_byte v, refl, λ e. cc, l, s), r)
fill_attr-Filled (some (ck_key_type v)) rcode a h =
    let (l, s, r) = set_filled v rcode a h in ((ck_key_type v, refl, λ e. cc, l, s), r)
fill_attr-Filled (some (ck_cert_type v)) rcode a h =
    let (l, s, r) = set_filled v rcode a h in ((ck_cert_type v, refl, λ e. cc, l, s), r)
fill_attr-Filled (some (ck_cert_category v)) rcode a h =
    let (l, s, r) = set_filled v rcode a h in ((ck_cert_category v, refl, λ e. cc, l, s), r)
fill_attr-Filled (some (ck_mechanism_type v)) rcode a h =
    let (l, s, r) = set_filled v rcode a h in ((ck_mechanism_type v, refl, λ e. cc, l, s), r)
fill_attr-Filled (some (ck_object_class v)) rcode a h =
    let (l, s, r) = set_filled v rcode a h in ((ck_object_class v, refl, λ e. cc, l, s), r)
fill_attr-Filled (some (ck_ulong v)) rcode a h =
    let (l, s, r) = set_filled v rcode a h in ((ck_ulong v, refl, λ e. cc, l, s), r)

-- The return value is never set back to CKR_OK, so each attribute was filled.
fill_from-Filled :
    (object : Object) (rcode : ℕ) (tpl : List CkRawAttr)
    → (fill_from object rcode tpl).0 ≡ Constants.ckr_ok
    → Each (λ a a'. Filled (lookup a.type_ object.attrs) a a') tpl (fill_from object rcode tpl).1
      × (rcode ≡ Constants.ckr_ok)
unfolding fill_from
fill_from-Filled object rcode [] h = (tt, h)
fill_from-Filled object rcode (a ∷ tpl) h =
    let (rest, r) =
      fill_from-Filled object (fill_attr (lookup a.type_ object.attrs) rcode a).0 tpl h in
    let (first, s) = fill_attr-Filled (lookup a.type_ object.attrs) rcode a r in ((first, rest), s)

-- Where fill_attr_template returns CKR_OK, every attribute of the template is one that the object has
-- and that is not sensitive; its length is written, and where there is memory its bytes are too.
pub fill_attr_template-Filled :
    (object : Object) (tpl : List CkRawAttr)
    → (fill_attr_template object tpl).0 ≡ Constants.ckr_ok
    → Each (λ a a'. Filled (lookup a.type_ object.attrs) a a') tpl (fill_attr_template object tpl).1
unfolding fill_attr_template
fill_attr_template-Filled object tpl h = (fill_from-Filled object Constants.ckr_ok tpl h).0
