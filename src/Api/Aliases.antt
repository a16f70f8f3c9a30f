-- ===== src/Api/Aliases.antt =====
-- Aliases of keys: what C_SetAttributeValue (pkcs11/src/api/object.rs) enters, `upload_certificate`
-- (backend/key.rs) looks up.
use text.Mathlib.Text.{◌==◌ as str_eq}
use text.Mathlib.TextEquality.{eq_iff}
use nethsm_pkcs.Common.{
  ℕ, ◌≡◌, refl, String, true, some, List, [], ◌∷◌, ok, if◌then◌else◌, arith, Option-cases, inl, inr,
}
use nethsm_pkcs.Constants
use nethsm_pkcs.Service.Keys.{KeyService}
use nethsm_pkcs.Login.{LoginCtx}
use nethsm_pkcs.Db.{Object, object}
use nethsm_pkcs.Db.Attributes.{CkRawAttr}
use nethsm_pkcs.Keys.{ParsedAttributes, parse_attributes}
use nethsm_pkcs.Keys.Create.{alias_of, real_name, put_certificate, upload_certificate}
use nethsm_pkcs.Session.{Session}
use nethsm_pkcs.Manager.{get_session}
use nethsm_pkcs.Api.{Globals}
use nethsm_pkcs.Api.ObjectCalls.{aliases_of, set_alias, rename, set_parsed, c_set_attribute_value}

alias_of-set_alias :
    (name other value : String) (names : List (String × String))
    → alias_of other (set_alias name value names)
      ≡ (if str_eq name other then some value else alias_of other names)
unfolding alias_of set_alias
alias_of-set_alias name other value [] = refl
alias_of-set_alias name other value (entry ∷ names) = ground (
  arith,
  alias_of-set_alias name other value names,
  eq_iff entry.0 name,
  eq_iff entry.0 other,
  eq_iff name other,
)

-- What a change that succeeds has found and entered.
abbrev Entered : ℕ → ℕ → Globals → Globals → ParsedAttributes → Type 0
Entered hSession hObject g g' p =
    (s : Session) × (obj : Object) × (name : String) × (get_session hSession g.manager ≡ some s)
    × (object (g.dbs s.db) hObject ≡ some obj)
    × (p.id ≡ some name)
    × ((aliases_of g').enabled ≡ some true)
    × (g'.key_aliases ≡ set_alias name obj.id g.key_aliases)

module _ {W : Type 0} (k : KeyService W) where
  set_parsed-Entered :
      (hSession hObject : ℕ) (p : ParsedAttributes) (g g' : Globals)
      → set_parsed k hSession hObject p g ≡ (Constants.ckr_ok, g')
      → Entered hSession hObject g g' p
  unfolding set_parsed rename
  set_parsed-Entered hSession hObject p g g' h =
      elim (Option-cases (get_session hSession g.manager)) [
        | inl e ↦ absurd (ground arith)
        | inr (s, e) ↦ elim (Option-cases (object (g.dbs s.db) hObject)) [
          | inl f ↦ absurd (ground arith)
          | inr (obj, f) ↦ elim (Option-cases p.id) [
            | inl i ↦ absurd (ground arith)
            | inr (name, i) ↦ (s, obj, name, e, f, i, ground arith, ground arith)
          ]
        ]
      ]

  -- Where C_SetAttributeValue returns CKR_OK, the template names a new identifier and the handle
  -- leads to an object in the cache of the session; from then on a certificate that is uploaded
  -- under the new identifier is put to the object's own identifier at the NetHSM.
  pub upload_certificate-renamed :
      (hSession hObject : ℕ) (template : List CkRawAttr) (g g' : Globals) (p q : ParsedAttributes)
      (cert : List ℕ) (c : LoginCtx) (w : W)
      → c_set_attribute_value k hSession hObject (some template) g ≡ (Constants.ckr_ok, g')
      → parse_attributes k template ≡ ok p
      → q.id ≡ p.id
      → q.value ≡ some cert
      → (s : Session) × (obj : Object) × (get_session hSession g.manager ≡ some s)
        × (object (g.dbs s.db) hObject ≡ some obj)
        × (upload_certificate k q (aliases_of g') c w ≡ put_certificate k cert obj.id q c w)
  unfolding c_set_attribute_value upload_certificate real_name
  upload_certificate-renamed hSession hObject template g g' p q cert c w h e i v =
      let (s, obj, name, f, o, n, enabled, entered) =
        set_parsed-Entered hSession hObject p g g' (cc (h, e)) in
      (
        s,
        obj,
        f,
        o,
        ground (arith, alias_of-set_alias name name obj.id g.key_aliases, eq_iff name name),
      )
