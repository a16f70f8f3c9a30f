-- ===== src/Api/Guarded.antt =====
-- The objects of all caches under the C functions: what they let their callers know of keys.
use nethsm_pkcs.Common.{
  ℕ, ◌≡◌, sym, subst, String, inl, inr, some, List, [], ◌∷◌, ok, Option, Option-cases, lookup,
  insert, lookup-remove, arith,
}
use nethsm_pkcs.Errors.{ObjectKind, private_key, public_key, secret_key, certificate, other}
use nethsm_pkcs.Mechanism.{KeyType}
use nethsm_pkcs.Service.Keys.{KeyService}
use nethsm_pkcs.Login.{returns}
use nethsm_pkcs.Db.{Db, Object, find_same, add_object, remove_object, clear, set_fetched_all_keys}
use nethsm_pkcs.Db.Validity.{written, add_object_missing, add_object_found}
use nethsm_pkcs.Db.Handles.{Op, adds, removes, clears, marks, run, step}
use nethsm_pkcs.Db.Objects.Make.{from_cert_data, ck_id_of}
use nethsm_pkcs.Db.Objects.Secrecy.{
  IsSealed, IsInert, IsSingle, IsPair, Described, from_key_data-Described,
}
use nethsm_pkcs.Keys.Trace.{Each, Among, Fetched, map-Each}
use nethsm_pkcs.Api.{Globals}
use nethsm_pkcs.Api.Requests.{
  Request, finds, creates, destroys, generates, generates_pair, sets_attributes, opens, closes,
  closes_all, in_session, respond_all,
}
use nethsm_pkcs.Api.Frame.{Permits}
use nethsm_pkcs.Api.Caches.{PermittedBy, caches-Traced}

-- By its kind: a private or secret object has no value, is sensitive and not extractable; a public one
-- has no value and offers no operation.
abbrev pub GuardedAs : ObjectKind → Object → Type 0
GuardedAs private_key o = IsSealed o
GuardedAs secret_key o = IsSealed o
GuardedAs public_key o = IsInert o
GuardedAs certificate o = Unit
GuardedAs other o = Unit

abbrev pub IsGuarded : Db → Type 0
IsGuarded db = (h : ℕ) (o : Object) → lookup h db.objects ≡ some o → GuardedAs o.kind o

kind-GuardedAs :
    (kind : ObjectKind) (o : Object) → o.kind ≡ kind → GuardedAs kind o → GuardedAs o.kind o
kind-GuardedAs kind o e g = subst (λ n. GuardedAs n o) (sym e) g

-- All objects of a list are guarded.
abbrev AllGuarded : List Object → Type 0
AllGuarded objects = (o : Object) → Among o objects → GuardedAs o.kind o

IsSingle-AllGuarded :
    (id : String) (ck_id : List ℕ) (objects : List Object)
    → IsSingle id ck_id objects
    → AllGuarded objects
IsSingle-AllGuarded id ck_id objects (s, e, k, named, sealed) = subst AllGuarded (sym e) guarded
  where
    guarded : AllGuarded (s ∷ [])
    guarded o (inl same) =
        subst (λ (p : Object). GuardedAs p.kind p) same (kind-GuardedAs secret_key s k sealed)
    guarded o (inr none_left) = absurd none_left

IsPair-AllGuarded :
    (id : String) (ck_id : List ℕ) (objects : List Object)
    → IsPair id ck_id objects
    → AllGuarded objects
IsPair-AllGuarded id ck_id objects (p, q, e, (k, m, inert), (l, n, sealed)) =
    subst AllGuarded (sym e) guarded
  where
    guarded : AllGuarded (p ∷ q ∷ [])
    guarded o (inl same) =
        subst (λ (r : Object). GuardedAs r.kind r) same (kind-GuardedAs public_key p k inert)
    guarded o (inr (inl same)) =
        subst (λ (r : Object). GuardedAs r.kind r) same (kind-GuardedAs private_key q l sealed)
    guarded o (inr (inr none_left)) = absurd none_left

Described-AllGuarded :
    (t : KeyType) (id : String) (ck_id : List ℕ) (objects : List Object)
    → Described t id ck_id objects
    → AllGuarded objects
Described-AllGuarded KeyType.generic id ck_id objects d = IsSingle-AllGuarded id ck_id objects d
Described-AllGuarded KeyType.rsa id ck_id objects d = IsPair-AllGuarded id ck_id objects d
Described-AllGuarded KeyType.ec_p224 id ck_id objects d = IsPair-AllGuarded id ck_id objects d
Described-AllGuarded KeyType.ec_p256 id ck_id objects d = IsPair-AllGuarded id ck_id objects d
Described-AllGuarded KeyType.ec_p384 id ck_id objects d = IsPair-AllGuarded id ck_id objects d
Described-AllGuarded KeyType.ec_p521 id ck_id objects d = IsPair-AllGuarded id ck_id objects d
Described-AllGuarded KeyType.curve25519 id ck_id objects d = IsPair-AllGuarded id ck_id objects d

insert-GuardedAs :
    (h : ℕ) (o : Object) (db : Db)
    → GuardedAs o.kind o
    → IsGuarded db
    → (k : ℕ) (p : Object) → lookup k (insert h o db.objects) ≡ some p
    → GuardedAs p.kind p
insert-GuardedAs h o db q g k p e = elim (written db.objects h k o p e) [
  | inl same ↦ subst (λ (r : Object). GuardedAs r.kind r) same.1 q
  | inr old ↦ g k p old
]

add_object-IsGuarded :
    (o : Object) (db : Db) → GuardedAs o.kind o → IsGuarded db → IsGuarded (add_object o db).1
add_object-IsGuarded o db q g = elim (Option-cases (find_same o db.objects)) [
  | inl missing ↦ rw (add_object_missing o db missing) (insert-GuardedAs db.next_handle o db q g)
  | inr (h, found) ↦ rw (add_object_found o db h found) (insert-GuardedAs h o db q g)
]

-- An operation that adds only a guarded object.
abbrev Fine : Op → Type 0
Fine (adds o) = GuardedAs o.kind o
Fine (removes h) = Unit
Fine (clears now) = Unit
Fine (marks now fetched) = Unit

step-IsGuarded : (op : Op) (db : Db) → Fine op → IsGuarded db → IsGuarded (step op db)
unfolding step
step-IsGuarded (adds o) db q g = add_object-IsGuarded o db q g
step-IsGuarded (removes h) db q g =
    unfold remove_object in (λ k o e. g k o (ground (arith, e, lookup-remove h k db.objects)))
step-IsGuarded (clears now) db q g = unfold clear lookup in (λ k o e. cc)
step-IsGuarded (marks now fetched) db q g = unfold set_fetched_all_keys in g

run-IsGuarded : (ops : List Op) (db : Db) → Each Fine ops → IsGuarded db → IsGuarded (run ops db)
unfolding run
run-IsGuarded [] db q g = g
run-IsGuarded (op ∷ ops) db q g = run-IsGuarded ops (step op db) q.1 (step-IsGuarded op db q.0 g)

module _ {W : Type 0} (k : KeyService W) where
  kind-from_cert_data :
      (cert : List ℕ) (id : String) (raw_id : Option (List ℕ)) (o : Object)
      → from_cert_data k cert id raw_id ≡ ok o
      → o.kind ≡ certificate
  unfolding from_cert_data
  kind-from_cert_data cert id raw_id o h = ground arith

  Fetched-GuardedAs : (o : Object) → Fetched k o → GuardedAs o.kind o
  Fetched-GuardedAs o (inl (d, id, raw_id, objects, h, m)) =
      Described-AllGuarded d.type_ id (ck_id_of k id raw_id) objects
        (from_key_data-Described k d id raw_id objects h) o m
  Fetched-GuardedAs o (inr (cert, id, raw_id, h)) =
      kind-GuardedAs certificate o (kind-from_cert_data cert id raw_id o h) tt

  Permits-Fine : (r : Request W) (op : Op) → Permits k r op → Fine op
  Permits-Fine (finds h template n) (adds o) f = Fetched-GuardedAs o f
  Permits-Fine (creates h template there) (adds o) f = Fetched-GuardedAs o f
  Permits-Fine (generates h mech template there) (adds o) f = Fetched-GuardedAs o f
  Permits-Fine (generates_pair h mech a b there also) (adds o) f = Fetched-GuardedAs o f
  Permits-Fine r (removes h) f = tt
  Permits-Fine r (clears now) f = tt
  Permits-Fine r (marks now fetched) f = tt
  Permits-Fine (destroys h hObject) (adds o) f = absurd f
  Permits-Fine (sets_attributes h hObject template) (adds o) f = absurd f
  Permits-Fine (opens slot_id flags there) (adds o) f = absurd f
  Permits-Fine (closes h) (adds o) f = absurd f
  Permits-Fine (closes_all slot_id) (adds o) f = absurd f
  Permits-Fine (in_session h handler) (adds o) f = absurd f

  PermittedBy-Fine : (requests : List (Request W)) (op : Op) → PermittedBy k requests op → Fine op
  PermittedBy-Fine [] op p = absurd p
  PermittedBy-Fine (r ∷ requests) op (inl p) = Permits-Fine r op p
  PermittedBy-Fine (r ∷ requests) op (inr p) = PermittedBy-Fine requests op p

  -- Whatever C functions are called in a row, and whatever the NetHSM answers: where the calls return and
  -- the objects of a cache were guarded before, they are so afterwards. A private or secret object has
  -- no value, is sensitive and not extractable; a public object has no value and no mechanisms, and is
  -- false for encrypting, decrypting, signing, verifying, both with recovery, deriving, wrapping and
  -- unwrapping.
  pub caches-IsGuarded :
      (requests : List (Request W)) (g g' : Globals) (w w' : W) (i : ℕ)
      → respond_all k requests g w ≡ returns (g', w')
      → IsGuarded (g.dbs i)
      → IsGuarded (g'.dbs i)
  caches-IsGuarded requests g g' w w' i e q =
      let (ops, p, f) = caches-Traced k i requests g g' w w' e in
      subst IsGuarded (sym f) (
        run-IsGuarded ops (g.dbs i)
          (map-Each (PermittedBy k requests) Fine ops (PermittedBy-Fine requests) p) q)
