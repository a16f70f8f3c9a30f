-- ===== src/Db/Objects/Secrecy.antt =====
-- What the objects of a key say and do not say (`from_key_data` of backend/db/object.rs).
use nethsm_pkcs.Keys.{or_else}
use nethsm_pkcs.Common.{
  ◌==◌, if◌then◌else◌, lookup-insert, ℕ, ◌≡◌, refl, subst, String, Option, none, some, List, [],
  ◌∷◌, Result, ok, err, Assoc, lookup, insert, arith,
}
use nethsm_pkcs.Constants
use nethsm_pkcs.Errors.{Error, private_key, public_key, secret_key}
use nethsm_pkcs.Mechanism.{KeyMechanism, KeyType}
use nethsm_pkcs.Service.Keys.{PublicKey, KeyService}
use nethsm_pkcs.Login.{Run, returns, panics, runs_out}
use nethsm_pkcs.Db.{Attr, bytes, Object}
use nethsm_pkcs.Db.Objects.{ck_true, ck_false, from_ck_mechanism_type_vec, put_all, KeyData}
use nethsm_pkcs.Db.Objects.Values.{common_attrs, public_attrs}
use nethsm_pkcs.Db.Objects.Make.{
  mechanism_types, private_object, public_object, objects_of, configure_generic, configure_rsa,
  configure_ec, configure, ck_id_of, from_key_data,
}

-- An object of a key that cannot be read: no value, sensitive, and not extractable.
abbrev pub IsSealed : Object → Type 0
IsSealed o =
    (lookup Constants.cka_value o.attrs ≡ some (bytes []))
    × (lookup Constants.cka_sensitive o.attrs ≡ some ck_true)
    × (lookup Constants.cka_extractable o.attrs ≡ some ck_false)

-- A public object: it has no value either, has no mechanisms, and says of each operation that it does
-- not offer it.
abbrev pub IsInert : Object → Type 0
IsInert o =
    (lookup Constants.cka_value o.attrs ≡ some (bytes []))
    × (o.mechanisms ≡ [])
    × (lookup Constants.cka_sign o.attrs ≡ some ck_false)
    × (lookup Constants.cka_decrypt o.attrs ≡ some ck_false)
    × (lookup Constants.cka_encrypt o.attrs ≡ some ck_false)
    × (lookup Constants.cka_derive o.attrs ≡ some ck_false)
    × (lookup Constants.cka_verify o.attrs ≡ some ck_false)
    × (lookup Constants.cka_verify_recover o.attrs ≡ some ck_false)
    × (lookup Constants.cka_sign_recover o.attrs ≡ some ck_false)
    × (lookup Constants.cka_wrap o.attrs ≡ some ck_false)
    × (lookup Constants.cka_unwrap o.attrs ≡ some ck_false)
    × (lookup Constants.cka_wrap_with_trusted o.attrs ≡ some ck_false)

-- The last value that a row of insertions gives a type.
abbrev pub last_of : ℕ → Assoc Attr → Option Attr
last_of type_ [] = none
last_of type_ ((key, attr) ∷ more) =
    or_else (last_of type_ more) (if key == type_ then some attr else none)

pub lookup-put_all :
    (type_ : ℕ) (more attrs : Assoc Attr)
    → lookup type_ (put_all more attrs) ≡ or_else (last_of type_ more) (lookup type_ attrs)
unfolding put_all
lookup-put_all type_ [] attrs = refl
lookup-put_all type_ ((key, attr) ∷ more) attrs =
    ground
      (arith, lookup-put_all type_ more (insert key attr attrs), lookup-insert key type_ attr attrs)

-- The attributes of the key itself are none of those that all keys have alike.
abbrev IsOwn : KeyData → Type 0
IsOwn a =
    (last_of Constants.cka_value a.attrs ≡ none)
    × (last_of Constants.cka_sensitive a.attrs ≡ none)
    × (last_of Constants.cka_extractable a.attrs ≡ none)
    × (last_of Constants.cka_id a.attrs ≡ none)
    × (last_of Constants.cka_verify_recover a.attrs ≡ none)

configure_generic-IsOwn : IsOwn configure_generic
unfolding configure_generic put_all insert
configure_generic-IsOwn = (refl, refl, refl, refl, refl)

module _ {W : Type 0} (k : KeyService W) where
  configure_rsa-IsOwn : (d : PublicKey) (a : KeyData) → configure_rsa k d ≡ ok a → IsOwn a
  unfolding configure_rsa put_all insert
  configure_rsa-IsOwn d a h = ground arith

  configure_ec-IsOwn : (d : PublicKey) (a : KeyData) → configure_ec k d ≡ returns (ok a) → IsOwn a
  unfolding configure_ec put_all insert
  configure_ec-IsOwn d a h = ground arith

  configure-IsOwn : (d : PublicKey) (a : KeyData) → configure k d ≡ returns (ok a) → IsOwn a
  unfolding configure
  configure-IsOwn d a h =
      ground (arith, configure_generic-IsOwn, configure_rsa-IsOwn d a, configure_ec-IsOwn d a)

abbrev IsNamed : String → List ℕ → Object → Type 0
IsNamed id ck_id o = (o.id ≡ id) × (lookup Constants.cka_id o.attrs ≡ some (bytes ck_id))

-- What a symmetric key becomes, and what the others become: in this order, a public and a private
-- object.
abbrev pub IsSingle : String → List ℕ → List Object → Type 0
IsSingle id ck_id objects =
    (s : Object) × (objects ≡ s ∷ []) × (s.kind ≡ secret_key) × IsNamed id ck_id s × IsSealed s

abbrev pub IsPair : String → List ℕ → List Object → Type 0
IsPair id ck_id objects =
    (p : Object) × (q : Object) × (objects ≡ p ∷ q ∷ [])
    × ((p.kind ≡ public_key) × IsNamed id ck_id p × IsInert p)
    × ((q.kind ≡ private_key) × IsNamed id ck_id q × IsSealed q)

abbrev pub Described : KeyType → String → List ℕ → List Object → Type 0
Described KeyType.generic id ck_id objects = IsSingle id ck_id objects
Described _ id ck_id objects = IsPair id ck_id objects

-- All that a key's attributes come after, and the list of its mechanisms.
abbrev private_attrs : KeyData → Attr → List ℕ → List ℕ → Assoc Attr
private_attrs a allowed ck_id label =
    put_all ((Constants.cka_allowed_mechanisms, allowed) ∷ [])
      (put_all a.attrs (put_all (common_attrs ck_id label) []))

private_object-IsSealed :
    (id : String) (a : KeyData) (allowed : Attr) (ck_id label : List ℕ) (m : List KeyMechanism)
    → IsOwn a
    → IsNamed id ck_id (private_object id (private_attrs a allowed ck_id label) a m)
      × IsSealed (private_object id (private_attrs a allowed ck_id label) a m)
unfolding private_object common_attrs
private_object-IsSealed id a allowed ck_id label m own = (
  (refl, simp (lookup-put_all, own.3)),
  (simp (lookup-put_all, own.0), simp (lookup-put_all, own.1), simp (lookup-put_all, own.2)),
)

public_object-IsInert :
    (id : String) (a : KeyData) (allowed : Attr) (ck_id label : List ℕ)
    → IsOwn a
    → IsNamed id ck_id (public_object id (private_attrs a allowed ck_id label) a)
      × IsInert (public_object id (private_attrs a allowed ck_id label) a)
unfolding public_object public_attrs common_attrs
public_object-IsInert id a allowed ck_id label own = (
  (refl, simp (lookup-put_all, own.3)),
  (
    simp (lookup-put_all, own.0),
    refl,
    simp lookup-put_all,
    simp lookup-put_all,
    simp lookup-put_all,
    simp lookup-put_all,
    simp lookup-put_all,
    simp (lookup-put_all, own.4),
    simp lookup-put_all,
    simp lookup-put_all,
    simp lookup-put_all,
    simp lookup-put_all,
  ),
)

objects_of-Described :
    (d : PublicKey) (id : String) (ck_id label : List ℕ) (a : KeyData)
    → IsOwn a
    → Described d.type_ id ck_id (objects_of d id ck_id label a)
unfolding objects_of
objects_of-Described d id ck_id label a own =
    let allowed = from_ck_mechanism_type_vec (mechanism_types d.mechanisms) in
    let q = private_object-IsSealed id a allowed ck_id label d.mechanisms own in
    let p = public_object-IsInert id a allowed ck_id label own in
    elim d.type_
      as (λ (t : KeyType).
        Described t id ck_id (objects_of (record d { type_ = t }) id ck_id label a)) [
          | KeyType.generic ↦ (_, refl, refl, q.0, q.1)
          | _ ↦ (_, _, refl, (refl, p.0, p.1), (refl, q.0, q.1))
        ]

module _ {W : Type 0} (k : KeyService W) where
  configured-Described :
      (d : PublicKey) (id : String) (raw_id : Option (List ℕ)) (objects : List Object)
      (made : Run (Result Error KeyData))
      → configure k d ≡ made
      → from_key_data k d id raw_id ≡ returns (ok objects)
      → Described d.type_ id (ck_id_of k id raw_id) objects
  unfolding from_key_data
  configured-Described d id raw_id objects (returns (ok a)) e h =
      subst (Described d.type_ id (ck_id_of k id raw_id)) (cc (e, h)) (
        objects_of-Described d id (ck_id_of k id raw_id) (k.to_utf8 id) a (configure-IsOwn k d a e))
  configured-Described d id raw_id objects (returns (err e')) e h = cc (e, h)
  configured-Described d id raw_id objects panics e h = cc (e, h)
  configured-Described d id raw_id objects runs_out e h = cc (e, h)

  -- From the data of a key, `from_key_data` makes a secret object for a generic key, and a public and
  -- a private object in this order for all others. Each has the identifier, and for CKA_ID the raw
  -- identifier or, where there is none, the bytes of the identifier. None has a value; a secret or
  -- private object is sensitive and not extractable. A public one has no mechanisms, and is false for
  -- encrypting, decrypting, signing, verifying, both with recovery, deriving, wrapping (also by trusted
  -- keys only) and unwrapping.
  pub from_key_data-Described :
      (d : PublicKey) (id : String) (raw_id : Option (List ℕ)) (objects : List Object)
      → from_key_data k d id raw_id ≡ returns (ok objects)
      → Described d.type_ id (ck_id_of k id raw_id) objects
  from_key_data-Described d id raw_id objects h =
      configured-Described d id raw_id objects (configure k d) refl h
