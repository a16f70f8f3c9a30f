-- ===== src/Db/Handles.antt =====
-- The handles of the cache (pkcs11/src/backend/db/mod.rs) under its operations.
use mathlib.Core.Bool.{false≢true}
use nethsm_pkcs.Common.{
  ℕ, Bool, ◌+◌, ◌<◌, ◌≤◌, ◌≡◌, refl, inl, inr, true, none, some, List, [], ◌∷◌, lookup,
  lookup-insert, lookup-remove, length, arith, Option-cases, sym, ◌∙◌, ap,
}
use nethsm_pkcs.Db.{
  Object, Db, u64_mod, clear, set_fetched_all_keys, same_object, find_same, add_object,
  remove_object,
}
use nethsm_pkcs.Db.Validity.{
  IsValid, find_same_found, find_same_missing, same_object_trans, same_object_sym,
  add_object_missing, add_object_found, add_object-IsValid, remove_object-IsValid, clear-IsValid,
}

-- `find_same` finds the one object that is the same.
pub find_same_unique :
    (db : Db) (h : ℕ) (p o : Object)
    → IsValid db
    → lookup h db.objects ≡ some p
    → same_object p o ≡ true
    → find_same o db.objects ≡ some h
find_same_unique db h p o v l s = elim (Option-cases (find_same o db.objects)) [
  | inl e ↦ absurd (false≢true (sym (find_same_missing o db.objects h p e l) ∙ s))
  | inr (k, e) ↦
      let (q, m, t) = find_same_found o db.objects k v.distinct e in
      e ∙ ap some (v.unique k h q p m l (same_object_trans q o p t (same_object_sym p o s)))
]

-- The handle that `add_object` returns stands for the object from then on.
pub add_object_lem :
    (o : Object) (db : Db) → lookup (add_object o db).0.0 (add_object o db).1.objects ≡ some o
add_object_lem o db = elim (Option-cases (find_same o db.objects)) [
  | inl e ↦
      rw (add_object_missing o db e)
        (ground (arith, lookup-insert db.next_handle db.next_handle o db.objects))
  | inr (h, e) ↦ rw (add_object_found o db h e) (ground (arith, lookup-insert h h o db.objects))
]

-- Adding an object with the id and the kind of the one added before gives the same handle.
pub add_object_again :
    (o o' : Object) (db : Db)
    → IsValid db
    → db.next_handle + 1 < u64_mod
    → same_object o o' ≡ true
    → (add_object o' (add_object o db).1).0.0 ≡ (add_object o db).0.0
add_object_again o o' db v b s =
    ap (λ (r : (ℕ × Object) × Db). r.0.0)
      (add_object_found o' (add_object o db).1 (add_object o db).0.0 (
        find_same_unique (add_object o db).1 (add_object o db).0.0 o o'
          (add_object-IsValid o db v b) (add_object_lem o db) s))

pub data Op : Type 0 where
  adds : Object → Op
  removes clears : ℕ → Op
  marks : ℕ → Bool → Op

unfoldable pub step : Op → Db → Db
step (adds o) db = (add_object o db).1
step (removes h) db = (remove_object h db).1
step (clears now) db = clear now db
step (marks now fetched) db = set_fetched_all_keys now fetched db

unfoldable pub run : List Op → Db → Db
unfolding step
run [] db = db
run (op ∷ ops) db = run ops (step op db)

-- What one operation does to a handle that was given out before and stands for nothing.
record Dead (h : ℕ) (db : Db) : Type 0 where
  valid : IsValid db
  given : h < db.next_handle
  gone : lookup h db.objects ≡ none

add-Dead :
    (h : ℕ) (o : Object) (db : Db)
    → Dead h db
    → db.next_handle + 1 < u64_mod
    → Dead h (add_object o db).1 × ((add_object o db).1.next_handle ≤ db.next_handle + 1)
add-Dead h o db d b = elim (Option-cases (find_same o db.objects)) [
  | inl e ↦
      let v = add_object-IsValid o db d.valid b in
      let r = add_object_missing o db e in
      (
        record {
          valid = v;
          given = rw r (omega (arith, d.given));
          gone =
              rw r (ground (arith, d.given, d.gone, lookup-insert db.next_handle h o db.objects));
        },
        rw r (omega arith),
      )
  | inr (k, e) ↦
      let v = add_object-IsValid o db d.valid b in
      let r = add_object_found o db k e in
      let (p, l, s) = find_same_found o db.objects k d.valid.distinct e in
      (
        record {
          valid = v;
          given = rw r d.given;
          gone = rw r (ground (arith, d.gone, l, lookup-insert k h o db.objects));
        },
        rw r (omega arith),
      )
]

step-Dead :
    (h : ℕ) (op : Op) (db : Db)
    → Dead h db
    → db.next_handle + 1 < u64_mod
    → Dead h (step op db) × ((step op db).next_handle ≤ db.next_handle + 1)
unfolding step
step-Dead h (adds o) db d b = add-Dead h o db d b
step-Dead h (removes k) db d b = (
  record {
    valid = remove_object-IsValid k db d.valid;
    given = unfold remove_object in d.given;
    gone = unfold remove_object in ground (arith, d.gone, lookup-remove k h db.objects);
  },
  unfold remove_object in omega arith,
)
step-Dead h (clears now) db d b = (
  record {
    valid = clear-IsValid now db d.valid;
    given = unfold clear in d.given;
    gone = unfold clear lookup in refl;
  },
  unfold clear in omega arith,
)
step-Dead h (marks now fetched) db d b = (
  record {
    valid =
        unfold set_fetched_all_keys in
        record {
          distinct = d.valid.distinct;
          next_pos = d.valid.next_pos;
          in_range = d.valid.in_range;
          unique = d.valid.unique;
        };
    given = unfold set_fetched_all_keys in d.given;
    gone = unfold set_fetched_all_keys in d.gone;
  },
  unfold set_fetched_all_keys in omega arith,
)

-- In a valid cache, a handle that was given out and stands for no object stands for none after any
-- operations, as long as the handles do not run out.
pub dead_handles_stay :
    (ops : List Op) (h : ℕ) (db : Db)
    → IsValid db
    → db.next_handle + length ops < u64_mod
    → h < db.next_handle
    → lookup h db.objects ≡ none
    → lookup h (run ops db).objects ≡ none
unfolding run
dead_handles_stay [] h db v b g n = n
dead_handles_stay (op ∷ ops) h db v b g n =
    let (d, q) = step-Dead h op db (record { valid = v; given = g; gone = n }) (omega arith) in
    dead_handles_stay ops h (step op db) d.valid (omega arith) d.given d.gone
