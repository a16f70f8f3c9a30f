-- ===== src/Session/Hidden.antt =====
-- What `fetch_all_keys` (backend/session.rs) leaves out of the cache when it looks for one kind.
use nethsm_pkcs.Common.{
  ℕ, ◌≡◌, refl, true, false, Option, none, some, List, [], ◌∷◌, Result, ok, err, Assoc, insert,
  arith, Option-cases, inl, inr, String,
}
use nethsm_pkcs.Errors.{ObjectKind, private_key, certificate, Error, UserMode}
use nethsm_pkcs.Service.Keys.{KeyService}
use nethsm_pkcs.Login.{LoginCtx, returns, can_run_mode}
use nethsm_pkcs.Login.Results.{
  After, result-After, any_result-After, answer-After, bind-After, if-After, After_returns,
}
use nethsm_pkcs.Db.{
  Db, Object, same_kind, find_same, add_object, fetched_all_keys, set_fetched_all_keys,
}
use nethsm_pkcs.Db.Validity.{add_object_missing, add_object_found}
use nethsm_pkcs.Db.Objects.Make.{from_cert_data}
use nethsm_pkcs.Keys.Fetch.{
  keys_if, keep_object, fetch_certificate, with_certificate, wants_certificate, fetch_one, call_api,
}
use nethsm_pkcs.Login.Calls.{try_}
use nethsm_pkcs.Session.{Session}
use nethsm_pkcs.Session.Objects.{
  KeyRequirements, of_kind, fetch_each, fetch_listed, fetch_all_keys, search, find_key,
}

-- No object of the cache is of this kind.
abbrev pub Lacks : ObjectKind → Db → Type 0
Lacks kind db = of_kind (some kind) db.objects ≡ []

of_kind-insert :
    (handle : ℕ) (o : Object) (m : Assoc Object)
    → same_kind private_key o.kind ≡ false
    → of_kind (some private_key) m ≡ []
    → of_kind (some private_key) (insert handle o m) ≡ []
unfolding of_kind insert
of_kind-insert handle o [] h e = ground arith
of_kind-insert handle o (entry ∷ m) h e = ground (arith, of_kind-insert handle o m h)

add_object-Lacks :
    (o : Object) (db : Db)
    → same_kind private_key o.kind ≡ false
    → Lacks private_key db
    → Lacks private_key (add_object o db).1
add_object-Lacks o db h e = elim (Option-cases (find_same o db.objects)) [
  | inl missing ↦
      rw (add_object_missing o db missing) (of_kind-insert db.next_handle o db.objects h e)
  | inr (handle, found) ↦
      rw (add_object_found o db handle found) (of_kind-insert handle o db.objects h e)
]

-- That a result's cache lacks private keys.
abbrev Keeps : {A W : Type 0} → A × Db × W → Type 0
Keeps r = Lacks private_key r.1

-- All objects of a kind.
abbrev pub all_of : ObjectKind → KeyRequirements
all_of kind = record { kind = some kind; id = none; raw_id = none }

module _ {W : Type 0} (k : KeyService W) where
  keep_object-Lacks :
      (r : Result Error Object) (db : Db) (w : W)
      → ((o : Object) → r ≡ ok o → same_kind private_key o.kind ≡ false)
      → Lacks private_key db
      → After Keeps (keep_object k r db w)
  unfolding keep_object
  keep_object-Lacks (ok o) db w f l = add_object-Lacks o db (f o refl) l
  keep_object-Lacks (err e) db w f l = l

  from_cert_data_kind :
      (cert : List ℕ) (id : String) (raw_id : Option (List ℕ)) (o : Object)
      → from_cert_data k cert id raw_id ≡ ok o
      → same_kind private_key o.kind ≡ false
  unfolding from_cert_data same_kind
  from_cert_data_kind cert id raw_id o h = ground arith

  fetch_certificate-Lacks :
      (id : String) (raw_id : Option (List ℕ)) (c : LoginCtx) (db : Db) (w : W)
      → Lacks private_key db
      → After Keeps (fetch_certificate k id raw_id c db w)
  unfolding fetch_certificate
  fetch_certificate-Lacks id raw_id c db w l =
      if-After Keeps (can_run_mode c UserMode.operator_or_administrator) _ _
        (answer-After Keeps
          (call_api k (k.keys_key_id_cert_get id) UserMode.operator_or_administrator c w) _
          (λ cert w'.
            keep_object-Lacks (from_cert_data k cert id raw_id) db w'
              (from_cert_data_kind cert id raw_id) l)
          (λ e w'. l))
        l

  fetch_one-Lacks :
      (id : String) (c : LoginCtx) (db : Db) (w : W)
      → Lacks private_key db
      → After Keeps (fetch_one k id (some certificate) c db w)
  unfolding fetch_one keys_if with_certificate wants_certificate
  fetch_one-Lacks id c db w l =
      result-After Keeps Keeps (fetch_certificate k id none c db w) _
        (fetch_certificate-Lacks id none c db w l) (λ entries d v l'. l') (λ e d v l'. l')

  fetch_each-Lacks :
      (ids : List String) (c : LoginCtx) (db : Db) (w : W)
      → Lacks private_key db
      → After Keeps (fetch_each k ids (some certificate) c db w)
  unfolding fetch_each
  fetch_each-Lacks [] c db w l = l
  fetch_each-Lacks (id ∷ ids) c db w l =
      result-After Keeps Keeps (fetch_one k id (some certificate) c db w) _
        (fetch_one-Lacks id c db w l)
        (λ entries d v l'.
          bind-After Keeps Keeps (fetch_each k ids (some certificate) c d v) _
            (fetch_each-Lacks ids c d v l') (λ q l''. l''))
        (λ e d v l'. l')

  fetch_listed-Lacks :
      (ids : List String) (c : LoginCtx) (db : Db) (w : W)
      → Lacks private_key db
      → After Keeps (fetch_listed k ids (some certificate) c db w)
  unfolding fetch_listed set_fetched_all_keys
  fetch_listed-Lacks ids c db w l =
      result-After Keeps Keeps (fetch_each k ids (some certificate) c db w) _
        (fetch_each-Lacks ids c db w l) (λ handles d v l'. l') (λ e d v l'. l')

  -- That the third part of a result is a cache without private keys.
  abbrev Leaves : {A S : Type 0} → A × S × Db × W → Type 0
  Leaves r = Lacks private_key r.2

  fetch_all_keys-Lacks :
      (s : Session) (db : Db) (w : W)
      → Lacks private_key db
      → After Leaves (fetch_all_keys k (some certificate) s db w)
  unfolding fetch_all_keys
  fetch_all_keys-Lacks s db w l = if-After Leaves (fetched_all_keys (k.now w) db) _ _ l (
      if-After Leaves (can_run_mode s.login_ctx UserMode.operator_or_administrator) _ _
        (any_result-After Leaves
          (try_ k.service k.keys_get UserMode.operator_or_administrator s.login_ctx w) _
          (λ ids c v.
            bind-After Leaves Keeps (fetch_listed k ids (some certificate) c db v) _
              (fetch_listed-Lacks ids c db v l) (λ q l'. l'))
          (λ e c v. l))
        l)

  find_certificates-Lacks :
      (s : Session) (db : Db) (w : W)
      → Lacks private_key db
      → After Leaves (find_key k (all_of certificate) s db w)
  unfolding find_key search
  find_certificates-Lacks s db w l =
      bind-After Leaves Leaves (fetch_all_keys k (some certificate) s db w) _
        (fetch_all_keys-Lacks s db w l) (λ q l'. l')

  -- Where the cache has no private key, and all certificates are looked for with success, private
  -- keys that are looked for afterwards, while the cache counts as complete, are not found: the
  -- result is empty, whatever keys the NetHSM has, since it is not asked.
  pub certificates_hide_keys :
      (s s' t : Session) (db db' : Db) (w w' v : W) (handles : List ℕ)
      → Lacks private_key db
      → find_key k (all_of certificate) s db w ≡ returns (ok handles, s', db', w')
      → fetched_all_keys (k.now v) db' ≡ true
      → find_key k (all_of private_key) t db' v ≡ returns (ok [], t, db', v)
  unfolding find_key search fetch_all_keys
  certificates_hide_keys s s' t db db' w w' v handles l h f =
      let l' =
        After_returns Leaves (find_key k (all_of certificate) s db w) _ h
          (find_certificates-Lacks s db w l) in
      rw f (rw l' refl)
