-- ===== src/Keys/Trace.antt =====
-- What fetching does to the cache (`fetch_key`, `fetch_certificate` and `fetch_one` of
-- pkcs11/src/backend/key.rs): some operations of backend/db/mod.rs in a row.
use nethsm_pkcs.Common.{
  ℕ, ◌≡◌, refl, sym, ◌∙◌, ap, String, Bool, true, false, Option, none, List, [], ◌∷◌, ◌++◌, ◌⊎◌,
  inl, inr, Result, ok, err,
}
use nethsm_pkcs.Errors.{ObjectKind, Error, UserMode}
use nethsm_pkcs.Service.Keys.{KeyService, PublicKey}
use nethsm_pkcs.Login.{LoginCtx, Run, returns, panics, runs_out, can_run_mode}
use nethsm_pkcs.Login.Results.{After, After-of, bind-After, result-After, answer-After, if-After}
use nethsm_pkcs.Db.{Object, Db, add_object}
use nethsm_pkcs.Db.Handles.{Op, adds, run, step}
use nethsm_pkcs.Db.Objects.Make.{from_key_data, from_cert_data}
use nethsm_pkcs.Keys.Fetch.{
  Entries, Outcome, is_missing, add_objects, wants_keys, call_api, keep_objects, fetch_key,
  keep_object, fetch_certificate, with_certificate, keys_if, wants_certificate, fetch_one,
}

-- Every operation of a row has the property.
abbrev pub Each : (Op → Type 0) → List Op → Type 0
Each P [] = Unit
Each P (op ∷ ops) = P op × Each P ops

Each-append : (P : Op → Type 0) (a b : List Op) → Each P a → Each P b → Each P (a ++ b)
Each-append P [] b p q = q
Each-append P (op ∷ a) b p q = (p.0, Each-append P a b p.1 q)

pub map-Each :
    (P Q : Op → Type 0) (ops : List Op) → ((op : Op) → P op → Q op) → Each P ops → Each Q ops
map-Each P Q [] f p = tt
map-Each P Q (op ∷ ops) f p = (f op p.0, map-Each P Q ops f p.1)

-- The second cache is what some operations with the property make of the first.
abbrev pub Traced : (Op → Type 0) → Db → Db → Type 0
Traced P db db' = (ops : List Op) × Each P ops × (db' ≡ run ops db)

-- The object is one of the list.
abbrev pub Among : Object → List Object → Type 0
Among o [] = ⊥
Among o (p ∷ objects) = (p ≡ o) ⊎ Among o objects

-- An object that is made from the data of a key, or from a certificate.
abbrev pub Fetched : {W : Type 0} → KeyService W → Object → Type 0
Fetched k o =
    ((d : PublicKey) × (id : String) × (raw_id : Option (List ℕ)) × (objects : List Object)
      × (from_key_data k d id raw_id ≡ returns (ok objects))
      × Among o objects)
    ⊎ ((cert : List ℕ) × (id : String) × (raw_id : Option (List ℕ)) × (from_cert_data k cert id
            raw_id
          ≡ ok o))

run-append : (a b : List Op) (db : Db) → run (a ++ b) db ≡ run b (run a db)
unfolding run
run-append [] b db = refl
run-append (op ∷ a) b db = run-append a b (step op db)

pub Traced-map :
    (P Q : Op → Type 0) (a b : Db) → ((op : Op) → P op → Q op) → Traced P a b → Traced Q a b
Traced-map P Q a b f (ops, p, e) = (ops, map-Each P Q ops f p, e)

-- What holds after the caches on the way holds after the first.
pub After-weaken {ℓ κ} :
    {A : Type 0} (P : A → Type ℓ) (Q : A → Type κ) (m : Run A)
    → After P m
    → ((a : A) → P a → Q a)
    → After Q m
After-weaken P Q (returns a) p h = h a p
After-weaken P Q panics p h = tt
After-weaken P Q runs_out p h = tt

-- A run that gives a result, the cache and the world.
abbrev pub Leaves : {W A : Type 0} → (Op → Type 0) → Db → Outcome W A → Type 0
Leaves P db m = After (λ r. Traced P db r.1) m

module _ (P : Op → Type 0) where
  pub Traced-refl : (db : Db) → Traced P db db
  unfolding run
  Traced-refl db = ([], tt, refl)

  pub Traced-trans : (a b c : Db) → Traced P a b → Traced P b c → Traced P a c
  Traced-trans a b c (xs, p, e) (ys, q, f) =
      (xs ++ ys, Each-append P xs ys p q, f ∙ ap (run ys) e ∙ sym (run-append xs ys a))

  pub Traced-step : (op : Op) (db : Db) → P op → Traced P db (step op db)
  unfolding run
  Traced-step op db p = (op ∷ [], (p, tt), refl)

  pub later-Leaves :
      {W A : Type 0} (a b : Db) (m : Outcome W A) → Traced P a b → Leaves P b m → Leaves P a m
  later-Leaves a b m t h =
      After-weaken (λ r. Traced P b r.1) (λ r. Traced P a r.1) m h (λ r u. Traced-trans a b r.1 t u)

  add_objects-Traced :
      (objects : List Object) (db : Db)
      → ((o : Object) → Among o objects → P (adds o))
      → Traced P db (add_objects objects db).1
  unfolding add_objects step
  add_objects-Traced [] db h = Traced-refl db
  add_objects-Traced (o ∷ objects) db h =
      let db' = (add_object o db).1 in
      Traced-trans db db' (add_objects objects db').1 (Traced-step (adds o) db (h o (inl refl)))
        (add_objects-Traced objects db' (λ p m. h p (inr m)))

module _ {W : Type 0} (k : KeyService W) (P : Op → Type 0)
    (fetched : (o : Object) → Fetched k o → P (adds o)) where
  kept-Leaves :
      (d : PublicKey) (id : String) (raw_id : Option (List ℕ)) (r : Result Error (List Object))
      (db : Db) (w : W)
      → from_key_data k d id raw_id ≡ returns r
      → Leaves P db (keep_objects k r db w)
  unfolding keep_objects
  kept-Leaves d id raw_id (err e) db w h = Traced-refl P db
  kept-Leaves d id raw_id (ok objects) db w h =
      add_objects-Traced P objects db (λ o m. fetched o (inl (d, id, raw_id, objects, h, m)))

  pub fetch_key-Leaves :
      (id : String) (raw_id : Option (List ℕ)) (c : LoginCtx) (db : Db) (w : W)
      → Leaves P db (fetch_key k id raw_id c db w)
  unfolding fetch_key
  fetch_key-Leaves id raw_id c db w =
      if-After _ (can_run_mode c UserMode.operator_or_administrator) _ _
        (answer-After (λ r. Traced P db r.1)
          (call_api k (k.keys_key_id_get id) UserMode.operator_or_administrator c w) _
          (λ d w'.
            bind-After (λ r. Traced P db r.1) (λ r. from_key_data k d id raw_id ≡ returns r)
              (from_key_data k d id raw_id) _ (After-of _ (from_key_data k d id raw_id) (λ r e. e))
              (λ r e. kept-Leaves d id raw_id r db w' e))
          (λ e w'. if-After _ (is_missing e) _ _ (Traced-refl P db) (Traced-refl P db)))
        (Traced-refl P db)

  kept_one-Leaves :
      (cert : List ℕ) (id : String) (raw_id : Option (List ℕ)) (r : Result Error Object) (db : Db)
      (w : W)
      → from_cert_data k cert id raw_id ≡ r
      → Leaves P db (keep_object k r db w)
  unfolding keep_object step
  kept_one-Leaves cert id raw_id (err e) db w h = Traced-refl P db
  kept_one-Leaves cert id raw_id (ok o) db w h =
      Traced-step P (adds o) db (fetched o (inr (cert, id, raw_id, h)))

  pub fetch_certificate-Leaves :
      (id : String) (raw_id : Option (List ℕ)) (c : LoginCtx) (db : Db) (w : W)
      → Leaves P db (fetch_certificate k id raw_id c db w)
  unfolding fetch_certificate
  fetch_certificate-Leaves id raw_id c db w =
      if-After _ (can_run_mode c UserMode.operator_or_administrator) _ _
        (answer-After (λ r. Traced P db r.1)
          (call_api k (k.keys_key_id_cert_get id) UserMode.operator_or_administrator c w) _
          (λ d w'. kept_one-Leaves d id raw_id (from_cert_data k d id raw_id) db w' refl)
          (λ e w'. Traced-refl P db))
        (Traced-refl P db)

  pub with_certificate-Leaves :
      (b : Bool) (id : String) (raw_id : Option (List ℕ)) (c : LoginCtx) (acc : Entries) (db : Db)
      (w : W)
      → Leaves P db (with_certificate k b id raw_id c acc db w)
  unfolding with_certificate
  with_certificate-Leaves false id raw_id c acc db w = Traced-refl P db
  with_certificate-Leaves true id raw_id c acc db w =
      result-After (λ r. Traced P db r.1) (λ r. Traced P db r.1)
        (fetch_certificate k id raw_id c db w) _ (fetch_certificate-Leaves id raw_id c db w)
        (λ entries db' w' t. t) (λ e db' w' t. t)

  pub keys_if-Leaves :
      (b : Bool) (id : String) (raw_id : Option (List ℕ)) (c : LoginCtx) (db : Db) (w : W)
      → Leaves P db (keys_if k b id raw_id c db w)
  unfolding keys_if
  keys_if-Leaves true id raw_id c db w = fetch_key-Leaves id raw_id c db w
  keys_if-Leaves false id raw_id c db w = Traced-refl P db

  pub fetch_one-Leaves :
      (id : String) (kind : Option ObjectKind) (c : LoginCtx) (db : Db) (w : W)
      → Leaves P db (fetch_one k id kind c db w)
  unfolding fetch_one
  fetch_one-Leaves id kind c db w =
      result-After (λ r. Traced P db r.1) (λ r. Traced P db r.1)
        (keys_if k (wants_keys kind) id none c db w) _
        (keys_if-Leaves (wants_keys kind) id none c db w)
        (λ acc db' w' t.
          later-Leaves P db db' _ t
            (with_certificate-Leaves (wants_certificate k kind) id none c acc db' w'))
        (λ e db' w' t. t)
