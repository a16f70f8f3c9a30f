-- ===== src/Db/Attributes/Filling.antt =====
-- What `fill_attr_template` writes into the memory of its caller.
use nethsm_pkcs.Common.{
  ℕ, zero, suc, ◌-◌, ◌≤◌, ◌≡◌, refl, ap, ◌∙◌, inl, inr, Option, none, some, List, [], ◌∷◌, ◌++◌,
  length, take, drop, lookup, arith, Option-cases,
}
use nethsm_pkcs.Constants
use nethsm_pkcs.Db.{
  Attr, bytes, ck_bbool, ck_byte, ck_key_type, ck_cert_type, ck_cert_category, ck_mechanism_type,
  ck_object_class, ck_ulong, sensitive, Object,
}
use nethsm_pkcs.Db.Attributes.{
  CkRawAttr, after_set, as_bytes, set_val_bytes, fill_attr, fill_from, fill_attr_template,
}

drop-append :
    (n : ℕ) (v rest : List ℕ) → length v ≤ n → drop n (v ++ rest) ≡ drop (n - length v) rest
drop-append n [] rest h = ap (λ (k : ℕ). drop k rest) (omega arith)
drop-append zero (b ∷ v) rest h = absurd (omega arith)
drop-append (suc n) (b ∷ v) rest h =
    drop-append n v rest (omega arith) ∙ ap (λ (k : ℕ). drop k rest) (omega arith)

drop_empty : (k : ℕ) → drop {A = ℕ} k [] ≡ []
drop_empty zero = refl
drop_empty (suc k) = refl

drop-drop : (n m : ℕ) (xs : List ℕ) → m ≤ n → drop (n - m) (drop m xs) ≡ drop n xs
drop-drop n zero xs h = ap (λ (k : ℕ). drop k xs) (omega arith)
drop-drop zero (suc m) xs h = absurd (omega arith)
drop-drop (suc n) (suc m) [] h = drop_empty (suc n - suc m)
drop-drop (suc n) (suc m) (x ∷ xs) h =
    ap (λ (k : ℕ). drop k (drop m xs)) (omega arith) ∙ drop-drop n m xs (omega arith)

pub take-append : (v rest : List ℕ) → take (length v) (v ++ rest) ≡ v
take-append [] rest = refl
take-append (b ∷ v) rest = ap (◌∷◌ b) (take-append v rest)

-- The memory beyond the length that the caller gave, and whether there is any.
abbrev pub beyond : CkRawAttr → ℕ → Option (List ℕ)
beyond a len = elim a.p_value [ none ↦ none | some memory ↦ some (drop len memory) ]

-- The memory is as it was, for an attribute that is sensitive or missing.
abbrev pub Unread : Option Attr → CkRawAttr → CkRawAttr → Type 0
Unread none a a' = a'.p_value ≡ a.p_value
Unread (some sensitive) a a' = a'.p_value ≡ a.p_value
Unread (some _) a a' = Unit

-- Nothing is written beyond the caller's length, and nothing at all for an attribute that the object
-- keeps to itself or has not.
abbrev pub Contained : Object → CkRawAttr → CkRawAttr → Type 0
Contained object a a' =
    (a'.type_ ≡ a.type_)
    × (beyond a' a.value_len ≡ beyond a a.value_len)
    × Unread (lookup a.type_ object.attrs) a a'

written :
    (v memory : List ℕ) (n : ℕ)
    → length v ≤ n
    → drop n (v ++ drop (length v) memory) ≡ drop n memory
written v memory n h = drop-append n v (drop (length v) memory) h ∙ drop-drop n (length v) memory h

set_beyond :
    (v : List ℕ) (a : CkRawAttr) → beyond (set_val_bytes v a).1 a.value_len ≡ beyond a a.value_len
unfolding set_val_bytes
set_beyond v a = elim (Option-cases a.p_value) [
  | inl e ↦ ground arith
  | inr (memory, e) ↦ ground (arith, written v memory a.value_len)
]

-- The attribute after a copy that may have failed.
set_type :
    (v : List ℕ) (rcode : ℕ) (a : CkRawAttr)
    → (after_set rcode (set_val_bytes v a)).1.type_ ≡ a.type_
unfolding set_val_bytes
set_type v rcode a = ground arith

set_memory :
    (v : List ℕ) (rcode : ℕ) (a : CkRawAttr)
    → (after_set rcode (set_val_bytes v a)).1.p_value ≡ (set_val_bytes v a).1.p_value
unfolding set_val_bytes
set_memory v rcode a = ground arith

abbrev Kept : Option Attr → CkRawAttr → CkRawAttr → Type 0
Kept o a a' = (a'.type_ ≡ a.type_) × (beyond a' a.value_len ≡ beyond a a.value_len) × Unread o a a'

set_kept :
    (v : List ℕ) (rcode : ℕ) (a : CkRawAttr)
    → ((after_set rcode (set_val_bytes v a)).1.type_ ≡ a.type_)
      × (beyond (after_set rcode (set_val_bytes v a)).1 a.value_len ≡ beyond a a.value_len)
set_kept v rcode a = (
  set_type v rcode a,
  ap
        (λ (m : Option (List ℕ)). elim m [
          | none ↦ none
          | some memory ↦ some (drop a.value_len memory)
        ])
        (set_memory v rcode a)
      ∙ set_beyond v a,
)

fill-Kept : (o : Option Attr) (rcode : ℕ) (a : CkRawAttr) → Kept o a (fill_attr o rcode a).1
unfolding fill_attr as_bytes
fill-Kept none rcode a = (refl, refl, refl)
fill-Kept (some sensitive) rcode a = (refl, refl, refl)
fill-Kept (some (bytes v)) rcode a = let (t, b) = set_kept v rcode a in (t, b, tt)
fill-Kept (some (ck_bbool v)) rcode a = let (t, b) = set_kept v rcode a in (t, b, tt)
fill-Kept (some (ck_byte v)) rcode a = let (t, b) = set_kept v rcode a in (t, b, tt)
fill-Kept (some (ck_key_type v)) rcode a = let (t, b) = set_kept v rcode a in (t, b, tt)
fill-Kept (some (ck_cert_type v)) rcode a = let (t, b) = set_kept v rcode a in (t, b, tt)
fill-Kept (some (ck_cert_category v)) rcode a = let (t, b) = set_kept v rcode a in (t, b, tt)
fill-Kept (some (ck_mechanism_type v)) rcode a = let (t, b) = set_kept v rcode a in (t, b, tt)
fill-Kept (some (ck_object_class v)) rcode a = let (t, b) = set_kept v rcode a in (t, b, tt)
fill-Kept (some (ck_ulong v)) rcode a = let (t, b) = set_kept v rcode a in (t, b, tt)

-- Two templates, attribute by attribute.
abbrev pub Each : (CkRawAttr → CkRawAttr → Type 0) → List CkRawAttr → List CkRawAttr → Type 0
Each P [] [] = Unit
Each P [] (b ∷ filled) = ⊥
Each P (a ∷ tpl) [] = ⊥
Each P (a ∷ tpl) (b ∷ filled) = P a b × Each P tpl filled

fill_from-Contained :
    (object : Object) (rcode : ℕ) (tpl : List CkRawAttr)
    → Each (Contained object) tpl (fill_from object rcode tpl).1
unfolding fill_from
fill_from-Contained object rcode [] = tt
fill_from-Contained object rcode (a ∷ tpl) = (
  fill-Kept (lookup a.type_ object.attrs) rcode a,
  fill_from-Contained object (fill_attr (lookup a.type_ object.attrs) rcode a).0 tpl,
)

-- Filling a template writes nothing beyond the length that the caller gave for an attribute, and
-- nothing into the memory of one that is sensitive or that the object has not.
pub fill_attr_template-Contained :
    (object : Object) (tpl : List CkRawAttr)
    → Each (Contained object) tpl (fill_attr_template object tpl).1
unfolding fill_attr_template
fill_attr_template-Contained object tpl = fill_from-Contained object Constants.ckr_ok tpl
