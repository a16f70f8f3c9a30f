-- ===== src/Session/Requirements.antt =====
-- What a template names, when a key is created and when it is searched for (`parse_attributes` of
-- backend/key.rs, `parse_key_requirements` of backend/object.rs).
use nethsm_pkcs.Common.{◌≡◌, refl, some, List, [], ◌∷◌, ok, inl, inr, Result-cases, select, arith}
use nethsm_pkcs.Service.Keys.{KeyService}
use nethsm_pkcs.Db.Attributes.{CkRawAttr}
use nethsm_pkcs.Keys.{
  ParsedAttributes, default, parse_attr, parse_class, parse_id, parse_label, parse_key_type,
  parse_from, parse_attributes,
}
use nethsm_pkcs.Session.Objects.{
  KeyRequirements, no_requirements, requirement, requirements_from, parse_key_requirements,
}

abbrev Agree : ParsedAttributes → KeyRequirements → Type 0
Agree p r = (r.id ≡ p.id) × (r.raw_id ≡ p.raw_id)

module _ {W : Type 0} (k : KeyService W) where
  step-Agree :
      (a : CkRawAttr) (p p' : ParsedAttributes) (r r' : KeyRequirements)
      → Agree p r
      → parse_attr k a p ≡ ok p'
      → requirement k a r ≡ ok r'
      → Agree p' r'
  unfolding parse_attr parse_class parse_id parse_label parse_key_type requirement select
  step-Agree a p p' r r' h e f = ground arith

  from-Agree :
      (template : List CkRawAttr) (p p' : ParsedAttributes) (r r' : KeyRequirements)
      → Agree p r
      → parse_from k template p ≡ ok p'
      → requirements_from k template r ≡ ok r'
      → Agree p' r'
  unfolding parse_from requirements_from
  from-Agree [] p p' r r' h e f = (cc (h.0, e, f), cc (h.1, e, f))
  from-Agree (a ∷ template) p p' r r' h e f = elim (Result-cases (parse_attr k a p)) [
    | inr (e', u) ↦ cc (u, e)
    | inl (q, u) ↦ elim (Result-cases (requirement k a r)) [
      | inr (e', v) ↦ cc (v, f)
      | inl (s, v) ↦
          from-Agree template q p' s r' (step-Agree a p q r s h u v) (cc (u, e)) (cc (v, f))
    ]
  ]

  -- Where a template is accepted both for creating an object and for searching one, the search is
  -- for the identifier and the raw identifier that the object is created with.
  pub parse_attributes-parse_key_requirements :
      (template : List CkRawAttr) (p : ParsedAttributes) (r : KeyRequirements)
      → parse_attributes k template ≡ ok p
      → parse_key_requirements k (some template) ≡ ok r
      → (r.id ≡ p.id) × (r.raw_id ≡ p.raw_id)
  unfolding parse_attributes parse_key_requirements
  parse_attributes-parse_key_requirements template p r e f =
      from-Agree template default p no_requirements r (refl, refl) e f
