-- ===== src/Db/View.antt =====
-- The cache (pkcs11/src/backend/db/mod.rs) without its handles, as a map from id and kind to the object.
use mathlib.Core.Bool.{false≢true}
use nethsm_pkcs.Common.{
  ℕ, ◌+◌, ◌<◌, ◌≡◌, ◌⊎◌, inl, inr, true, false, Option, none, some, lookup, lookup-insert, ◌==◌,
  if◌then◌else◌, arith, Bool-cases, Option-cases, sym, ◌∙◌, ap,
}
use nethsm_pkcs.Db.{Object, Db, u64_mod, same_object, find_same, add_object}
use nethsm_pkcs.Db.Validity.{
  IsValid, find_same_found, find_same_missing, same_object_trans, same_object_sym, written,
  add_object_missing, add_object_found, add_object-IsValid,
}
use nethsm_pkcs.Db.Handles.{find_same_unique, add_object_lem}

-- The cached object with the id and the kind of `key`.
unfoldable pub view : Db → Object → Option Object
view db key = elim (find_same key db.objects) [ none ↦ none | some h ↦ lookup h db.objects ]

view_at :
    (db : Db) (h : ℕ) (p key : Object)
    → IsValid db
    → lookup h db.objects ≡ some p
    → same_object p key ≡ true
    → view db key ≡ some p
unfolding view
view_at db h p key v l s = rw (find_same_unique db h p key v l s, view) l

view_missing : (db : Db) (key : Object) → find_same key db.objects ≡ none → view db key ≡ none
unfolding view
view_missing db key e = rw (e, view)

-- An object with another id or kind is found after the write exactly when it was before.
others_found :
    (o key p : Object) (db : Db) (k : ℕ)
    → IsValid db
    → same_object o key ≡ false
    → lookup k db.objects ≡ some p
    → same_object p key ≡ true
    → lookup k (add_object o db).1.objects ≡ some p
others_found o key p db k v n l s = elim (Option-cases (find_same o db.objects)) [
  | inl e ↦
      rw (add_object_missing o db e)
        (ground (arith, lookup-insert db.next_handle k o db.objects, v.in_range k p l))
  | inr (h, e) ↦
      let (q, m, t) = find_same_found o db.objects h v.distinct e in
      rw (add_object_found o db h e) (elim (Bool-cases (h == k)) [
        | inl a ↦
            let same : q ≡ p = ground (arith, m, l) in
            absurd (
              false≢true
                (sym n ∙ same_object_trans o p key (rw (sym same) (same_object_sym q o t)) s))
        | inr a ↦ ground (arith, lookup-insert h k o db.objects)
      ])
]

-- What is there after the write was written or was there.
after_add :
    (o : Object) (db : Db) (k : ℕ) (p : Object)
    → lookup k (add_object o db).1.objects ≡ some p
    → (o ≡ p) ⊎ (lookup k db.objects ≡ some p)
after_add o db k p l = elim (Option-cases (find_same o db.objects)) [
  | inl e ↦ ground (
    arith,
    written db.objects db.next_handle k o p,
    ap (λ (r : (ℕ × Object) × Db). lookup k r.1.objects) (add_object_missing o db e),
  )
  | inr (h, e) ↦ ground (
    arith,
    written db.objects h k o p,
    ap (λ (r : (ℕ × Object) × Db). lookup k r.1.objects) (add_object_found o db h e),
  )
]

others_missing :
    (o key : Object) (db : Db)
    → IsValid db
    → db.next_handle + 1 < u64_mod
    → same_object o key ≡ false
    → find_same key db.objects ≡ none
    → find_same key (add_object o db).1.objects ≡ none
others_missing o key db v b n e = elim (Option-cases (find_same key (add_object o db).1.objects)) [
  | inl f ↦ f
  | inr (k, f) ↦
      let (p, l, s) =
        find_same_found key (add_object o db).1.objects k (add_object-IsValid o db v b).distinct
          f in
      absurd (clash k p l s)
]
  where
    clash :
        (k : ℕ) (p : Object)
        → lookup k (add_object o db).1.objects ≡ some p
        → same_object p key ≡ true
        → ⊥
    clash k p l s = elim (after_add o db k p l) [
      | inl a ↦ false≢true (sym n ∙ rw a s)
      | inr m ↦ false≢true (sym (find_same_missing key db.objects k p e m) ∙ s)
    ]

-- While handles are left, a valid cache implements a map whose keys are the pairs of an id and a
-- kind: what is added under a key is found under it, and all else is as it was.
pub view-add_object :
    (o key : Object) (db : Db)
    → IsValid db
    → db.next_handle + 1 < u64_mod
    → view (add_object o db).1 key ≡ (if same_object o key then some o else view db key)
view-add_object o key db v b = elim (Bool-cases (same_object o key)) [
  | inl s ↦ rw s (
      view_at (add_object o db).1 (add_object o db).0.0 o key (add_object-IsValid o db v b)
        (add_object_lem o db) s)
  | inr n ↦ rw n (elim (Option-cases (find_same key db.objects)) [
    | inl e ↦
        view_missing (add_object o db).1 key (others_missing o key db v b n e)
        ∙ sym (view_missing db key e)
    | inr (k, e) ↦
        let (p, l, s) = find_same_found key db.objects k v.distinct e in
        view_at (add_object o db).1 k p key (add_object-IsValid o db v b)
          (others_found o key p db k v n l s) s
        ∙ sym (view_at db k p key v l s)
  ])
]
