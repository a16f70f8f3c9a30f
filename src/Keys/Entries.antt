-- ===== src/Keys/Entries.antt =====
-- The entries that fetching a key leaves in the cache (`fetch_key` of backend/key.rs).
use nethsm_pkcs.Common.{
  ℕ, ◌+◌, ◌<◌, ◌≡◌, ◌≢◌, ◌⊎◌, inl, inr, refl, sym, ap, subst, String, Option, some, List, [], ◌∷◌,
  Result, ok, err, lookup-insert, Option-cases, arith,
}
use nethsm_pkcs.Errors.{private_key, public_key, secret_key, Error, UserMode}
use nethsm_pkcs.Mechanism.{KeyType}
use nethsm_pkcs.Service.Keys.{PublicKey, KeyService}
use nethsm_pkcs.Login.{LoginCtx, returns, can_run_mode}
use nethsm_pkcs.Login.Results.{After, bind-After, answer-After, if-After, After-of, After_returns}
use nethsm_pkcs.Db.{Db, Object, u64_mod, object, add_object, find_same}
use nethsm_pkcs.Db.Validity.{
  IsValid, find_same_found, same_object_id, add_object-IsValid, add_object_missing,
  add_object_found,
}
use nethsm_pkcs.Db.Objects.Make.{from_key_data, ck_id_of}
use nethsm_pkcs.Db.Objects.Secrecy.{Described, IsSingle, IsPair, from_key_data-Described}
use nethsm_pkcs.Keys.Fetch.{Entries, is_missing, add_objects, call_api, keep_objects, fetch_key}

-- An object that was added is found under the handle that it was given.
added_found : (o : Object) (db : Db) → object (add_object o db).1 (add_object o db).0.0 ≡ some o
unfolding object
added_found o db = elim (Option-cases (find_same o db.objects)) [
  | inl e ↦
      rw (add_object_missing o db e)
        (ground (arith, lookup-insert db.next_handle db.next_handle o db.objects))
  | inr (h, e) ↦ rw (add_object_found o db h e) (ground (arith, lookup-insert h h o db.objects))
]

-- An object of another kind that the cache has stays, under another handle.
others_stay :
    (o p : Object) (db : Db) (h : ℕ)
    → IsValid db
    → object db h ≡ some p
    → p.kind ≢ o.kind
    → (object (add_object o db).1 h ≡ some p) × (h ≢ (add_object o db).0.0)
unfolding object
others_stay o p db h v l n = elim (Option-cases (find_same o db.objects)) [
  | inl e ↦
      rw (add_object_missing o db e)
        (ground (arith, lookup-insert db.next_handle h o db.objects, v.in_range h p l))
  | inr (j, e) ↦
      let (q, m, s) = find_same_found o db.objects j v.distinct e in
      let (i, same) = same_object_id q o s in
      rw (add_object_found o db j e) (ground (arith, lookup-insert j h o db.objects))
]

entry_of : (o : Object) (db : Db) → (add_object o db).0 ≡ ((add_object o db).0.0, o)
unfolding add_object
entry_of o db = ground arith

room_after :
    (o : Object) (db : Db)
    → db.next_handle + 2 < u64_mod
    → (add_object o db).1.next_handle + 1 < u64_mod
unfolding add_object
room_after o db b = ground arith

-- A secret key, under a handle of its own.
abbrev pub One : String → Db → Entries → Type 0
One id db entries =
    (h : ℕ) × (s : Object) × (entries ≡ (h, s) ∷ [])
    × (s.kind ≡ secret_key)
    × (s.id ≡ id)
    × (object db h ≡ some s)

-- A public and a private key in this order, under two handles.
abbrev pub Two : String → Db → Entries → Type 0
Two id db entries =
    (h : ℕ) × (j : ℕ) × (p : Object) × (q : Object) × (entries ≡ (h, p) ∷ (j, q) ∷ [])
    × (h ≢ j)
    × ((p.kind ≡ public_key) × (p.id ≡ id) × (object db h ≡ some p))
    × ((q.kind ≡ private_key) × (q.id ≡ id) × (object db j ≡ some q))

-- The cache is valid, and the entries are none, one secret key, or a pair of keys.
abbrev pub Held : String → Db → Entries → Type 0
Held id db entries = IsValid db × ((entries ≡ []) ⊎ (One id db entries ⊎ Two id db entries))

single-Held :
    (id : String) (s : Object) (db : Db)
    → IsValid db
    → db.next_handle + 2 < u64_mod
    → s.kind ≡ secret_key
    → s.id ≡ id
    → Held id (add_objects (s ∷ []) db).1 (add_objects (s ∷ []) db).0
unfolding add_objects
single-Held id s db v b k i = (
  add_object-IsValid s db v (omega (arith, b)),
  inr (
      inl (
        (add_object s db).0.0,
        s,
        ap (λ (e : ℕ × Object). e ∷ []) (entry_of s db),
        k,
        i,
        added_found s db,
      )),
)

pair-Held :
    (id : String) (p q : Object) (db : Db)
    → IsValid db
    → db.next_handle + 2 < u64_mod
    → (p.kind ≡ public_key) × (p.id ≡ id)
    → (q.kind ≡ private_key) × (q.id ≡ id)
    → Held id (add_objects (p ∷ q ∷ []) db).1 (add_objects (p ∷ q ∷ []) db).0
unfolding add_objects
pair-Held id p q db v b m n =
    let db' = (add_object p db).1 in
    let v' = add_object-IsValid p db v (omega (arith, b)) in
    let differ : p.kind ≢ q.kind = ground (arith, m.0, n.0) in
    let stays = others_stay q p db' (add_object p db).0.0 v' (added_found p db) differ in
    (
      add_object-IsValid q db' v' (room_after p db b),
      inr (
          inr (
            (add_object p db).0.0,
            (add_object q db').0.0,
            p,
            q,
            cc (entry_of p db, entry_of q db'),
            stays.1,
            (m.0, m.1, stays.0),
            (n.0, n.1, added_found q db'),
          )),
    )

single_described-Held :
    (id : String) (ck_id : List ℕ) (objects : List Object) (db : Db)
    → IsValid db
    → db.next_handle + 2 < u64_mod
    → IsSingle id ck_id objects
    → Held id (add_objects objects db).1 (add_objects objects db).0
single_described-Held id ck_id objects db v b (s, e, k, named, sealed) =
    subst (λ os. Held id (add_objects os db).1 (add_objects os db).0) (sym e)
      (single-Held id s db v b k named.0)

pair_described-Held :
    (id : String) (ck_id : List ℕ) (objects : List Object) (db : Db)
    → IsValid db
    → db.next_handle + 2 < u64_mod
    → IsPair id ck_id objects
    → Held id (add_objects objects db).1 (add_objects objects db).0
pair_described-Held id ck_id objects db v b (p, q, e, (k, m, i), (l, n, j)) =
    subst (λ os. Held id (add_objects os db).1 (add_objects os db).0) (sym e)
      (pair-Held id p q db v b (k, m.0) (l, n.0))

Described-Held :
    (t : KeyType) (id : String) (ck_id : List ℕ) (objects : List Object) (db : Db)
    → IsValid db
    → db.next_handle + 2 < u64_mod
    → Described t id ck_id objects
    → Held id (add_objects objects db).1 (add_objects objects db).0
Described-Held KeyType.generic id ck_id objects db v b d =
    single_described-Held id ck_id objects db v b d
Described-Held KeyType.rsa id ck_id objects db v b d = pair_described-Held id ck_id objects db v b d
Described-Held KeyType.ec_p224 id ck_id objects db v b d =
    pair_described-Held id ck_id objects db v b d
Described-Held KeyType.ec_p256 id ck_id objects db v b d =
    pair_described-Held id ck_id objects db v b d
Described-Held KeyType.ec_p384 id ck_id objects db v b d =
    pair_described-Held id ck_id objects db v b d
Described-Held KeyType.ec_p521 id ck_id objects db v b d =
    pair_described-Held id ck_id objects db v b d
Described-Held KeyType.curve25519 id ck_id objects db v b d =
    pair_described-Held id ck_id objects db v b d

abbrev pub OutcomeHeld : {W : Type 0} → String → Result Error Entries × Db × W → Type 0
OutcomeHeld id (ok entries, db, w) = Held id db entries
OutcomeHeld id (err e, db, w) = Unit

module _ {W : Type 0} (k : KeyService W) where
  kept-Held :
      (d : PublicKey) (id : String) (raw_id : Option (List ℕ)) (db : Db) (w : W)
      (r : Result Error (List Object))
      → IsValid db
      → db.next_handle + 2 < u64_mod
      → from_key_data k d id raw_id ≡ returns r
      → After (OutcomeHeld id) (keep_objects k r db w)
  unfolding keep_objects
  kept-Held d id raw_id db w (err e) v b h = tt
  kept-Held d id raw_id db w (ok objects) v b h =
      Described-Held d.type_ id (ck_id_of k id raw_id) objects db v b
        (from_key_data-Described k d id raw_id objects h)

  pub fetched-Held :
      (id : String) (raw_id : Option (List ℕ)) (c : LoginCtx) (db : Db) (w : W)
      → IsValid db
      → db.next_handle + 2 < u64_mod
      → After (OutcomeHeld id) (fetch_key k id raw_id c db w)
  unfolding fetch_key
  fetched-Held id raw_id c db w v b =
      if-After _ (can_run_mode c UserMode.operator_or_administrator) _ _
        (answer-After (OutcomeHeld id)
          (call_api k (k.keys_key_id_get id) UserMode.operator_or_administrator c w) _
          (λ d w'.
            bind-After (OutcomeHeld id) (λ r. from_key_data k d id raw_id ≡ returns r)
              (from_key_data k d id raw_id) _ (After-of _ (from_key_data k d id raw_id) (λ r e. e))
              (λ r e. kept-Held d id raw_id db w' r v b e))
          (λ e w'. if-After (OutcomeHeld id) (is_missing e) _ _ (v, inl refl) tt))
        tt

  -- Where fetch_key succeeds in a valid cache that has two handles left, the cache stays valid, and the
  -- entries are none (for a key that the NetHSM has not), or one secret key, or a public and a private
  -- key in this order under two handles; each has the identifier that was asked for, and is found
  -- in the cache under its handle.
  pub fetch_key-Held :
      (id : String) (raw_id : Option (List ℕ)) (c : LoginCtx) (db db' : Db) (w w' : W)
      (entries : Entries)
      → IsValid db
      → db.next_handle + 2 < u64_mod
      → fetch_key k id raw_id c db w ≡ returns (ok entries, db', w')
      → Held id db' entries
  fetch_key-Held id raw_id c db db' w w' entries v b h =
      After_returns (OutcomeHeld id) (fetch_key k id raw_id c db w) (ok entries, db', w') h
        (fetched-Held id raw_id c db w v b)
