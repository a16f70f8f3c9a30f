-- ===== src/Db/Validity.antt =====
-- The invariant of the cache (pkcs11/src/backend/db/mod.rs).
use text.Mathlib.TextEquality.{eq_iff}
use mathlib.Core.Bool.{false≢true}
use nethsm_pkcs.Common.{
  ℕ, ◌+◌, ◌%◌, ◌<◌, ◌≡◌, ◌⊎◌, inl, inr, true, false, none, some, [], ◌∷◌, Assoc, lookup, insert,
  remove, Distinct, lookup-insert, lookup-remove, insert-Distinct, remove-Distinct, arith,
  Bool-cases, Option-cases, sym, ◌∙◌,
}
use nethsm_pkcs.Errors.{ObjectKind}
use nethsm_pkcs.Db.{
  Object, Db, u64_mod, new, clear, same_kind, same_object, find_same, add_object, remove_object,
}

pub same_kind_iff : (a b : ObjectKind) → same_kind a b ≡ true → a ≡ b
unfolding same_kind
same_kind_iff a b h = ground arith

pub same_kind_refl : (a : ObjectKind) → same_kind a a ≡ true
unfolding same_kind
same_kind_refl a = ground arith

-- Being the same object, as a relation.
pub same_object_id : (a b : Object) → same_object a b ≡ true → (a.id ≡ b.id) × (a.kind ≡ b.kind)
unfolding same_object
same_object_id a b h = ground (arith, eq_iff a.id b.id, same_kind_iff a.kind b.kind)

pub same_object_of : (a b : Object) → a.id ≡ b.id → a.kind ≡ b.kind → same_object a b ≡ true
unfolding same_object
same_object_of a b i k = ground (arith, eq_iff a.id b.id, same_kind_refl a.kind)

-- What `find_same` finds is there, and what it does not find is not.
pub find_same_found :
    (o : Object) (m : Assoc Object) (h : ℕ)
    → Distinct m
    → find_same o m ≡ some h
    → (p : Object) × (lookup h m ≡ some p) × (same_object p o ≡ true)
unfolding find_same lookup
find_same_found o [] h d e = cc
find_same_found o ((j, p) ∷ m) h d e = elim (Bool-cases (same_object p o)) [
  | inl t ↦ (p, ground arith, t)
  | inr f ↦ let (q, l, s) = find_same_found o m h d.1 (ground arith) in (q, ground (arith, d.0), s)
]

pub find_same_missing :
    (o : Object) (m : Assoc Object) (h : ℕ) (p : Object)
    → find_same o m ≡ none
    → lookup h m ≡ some p
    → same_object p o ≡ false
unfolding find_same lookup
find_same_missing o [] h p e l = cc
find_same_missing o ((j, q) ∷ m) h p e l = ground (arith, find_same_missing o m h p)

-- Handles are given out below `next_handle` and are never 0; no two of them stand for objects with
-- the same id and kind.
pub record IsValid (db : Db) : Type 0 where
  pub distinct : Distinct db.objects
  pub next_pos : 0 < db.next_handle
  pub in_range :
      (h : ℕ) (o : Object) → lookup h db.objects ≡ some o → (0 < h) × (h < db.next_handle)
  pub unique :
      (h k : ℕ) (o p : Object)
      → lookup h db.objects ≡ some o
      → lookup k db.objects ≡ some p
      → same_object o p ≡ true
      → h ≡ k

-- An empty cache is valid.
pub new-IsValid : IsValid new
unfolding new lookup
new-IsValid = record {
  distinct = tt;
  next_pos = omega arith;
  in_range = λ h o l. cc;
  unique = λ h k o p l m s. cc;
}

abbrev Unique : Assoc Object → Type 0
Unique m =
    (h k : ℕ) (o p : Object)
    → lookup h m ≡ some o
    → lookup k m ≡ some p
    → same_object o p ≡ true
    → h ≡ k

pub same_object_trans :
    (a b c : Object) → same_object a b ≡ true → same_object b c ≡ true → same_object a c ≡ true
same_object_trans a b c h k =
    let (i, e) = same_object_id a b h in
    let (j, f) = same_object_id b c k in same_object_of a c (i ∙ j) (e ∙ f)

pub same_object_sym : (a b : Object) → same_object a b ≡ true → same_object b a ≡ true
same_object_sym a b h = let (i, e) = same_object_id a b h in same_object_of b a (sym i) (sym e)

-- An entry after a write is the new one or an old one.
pub written :
    (m : Assoc Object) (h j : ℕ) (object o : Object)
    → lookup j (insert h object m) ≡ some o
    → ((h ≡ j) × (object ≡ o)) ⊎ (lookup j m ≡ some o)
written m h j object o e = ground (arith, lookup-insert h j object m)

-- Writing an object over one that is the same.
replace-Unique :
    (m : Assoc Object) (h : ℕ) (q object : Object)
    → Unique m
    → lookup h m ≡ some q
    → same_object q object ≡ true
    → Unique (insert h object m)
replace-Unique m h q object u l s j k o p lj lk t =
    go (written m h j object o lj) (written m h k object p lk)
  where
    go :
        ((h ≡ j) × (object ≡ o)) ⊎ (lookup j m ≡ some o)
        → ((h ≡ k) × (object ≡ p)) ⊎ (lookup k m ≡ some p)
        → j ≡ k
    go (inl a) (inl b) = sym a.0 ∙ b.0
    go (inl a) (inr b) = sym a.0 ∙ u h k q p l b (same_object_trans q o p (rw (sym a.1) s) t)
    go (inr a) (inl b) =
        u j h o q a l (same_object_trans o p q t (rw (sym b.1) (same_object_sym q object s))) ∙ b.0
    go (inr a) (inr b) = u j k o p a b t

-- Writing an object that is not there yet.
add-Unique :
    (m : Assoc Object) (h : ℕ) (object : Object)
    → Unique m
    → ((j : ℕ) (p : Object) → lookup j m ≡ some p → same_object p object ≡ false)
    → Unique (insert h object m)
add-Unique m h object u f j k o p lj lk t =
    go (written m h j object o lj) (written m h k object p lk)
  where
    go :
        ((h ≡ j) × (object ≡ o)) ⊎ (lookup j m ≡ some o)
        → ((h ≡ k) × (object ≡ p)) ⊎ (lookup k m ≡ some p)
        → j ≡ k
    go (inl a) (inl b) = sym a.0 ∙ b.0
    go (inl a) (inr b) = absurd (false≢true (sym (f k p b) ∙ rw a.1 (same_object_sym o p t)))
    go (inr a) (inl b) = absurd (false≢true (sym (f j o a) ∙ rw b.1 t))
    go (inr a) (inr b) = u j k o p a b t

abbrev pub fresh_db : Object → Db → Db
fresh_db object db = record db {
  objects = insert db.next_handle object db.objects;
  next_handle = (db.next_handle + 1) % u64_mod;
}

abbrev pub updated_db : ℕ → Object → Db → Db
updated_db handle object db = record db { objects = insert handle object db.objects }

-- The two outcomes of `add_object`.
pub add_object_missing :
    (object : Object) (db : Db)
    → find_same object db.objects ≡ none
    → add_object object db ≡ ((db.next_handle, object), fresh_db object db)
unfolding add_object
add_object_missing object db e = rw (e, add_object)

pub add_object_found :
    (object : Object) (db : Db) (h : ℕ)
    → find_same object db.objects ≡ some h
    → add_object object db ≡ ((h, object), updated_db h object db)
unfolding add_object
add_object_found object db h e = rw (e, add_object)

-- Adding an object keeps a valid cache valid, while handles are left.
pub add_object-IsValid :
    (object : Object) (db : Db)
    → IsValid db
    → db.next_handle + 1 < u64_mod
    → IsValid (add_object object db).1
add_object-IsValid object db v b = elim (Option-cases (find_same object db.objects)) [
  | inl e ↦ rw (add_object_missing object db e) (record {
    distinct = insert-Distinct db.next_handle object db.objects v.distinct;
    next_pos = omega (arith, v.next_pos);
    in_range = λ h o l.
        ground (arith, v.next_pos, v.in_range h o, written db.objects db.next_handle h object o l);
    unique =
        add-Unique db.objects db.next_handle object v.unique
          (λ j p. find_same_missing object db.objects j p e);
  })
  | inr (h, e) ↦
      let (q, l, s) = find_same_found object db.objects h v.distinct e in
      rw (add_object_found object db h e) (record {
        distinct = insert-Distinct h object db.objects v.distinct;
        next_pos = v.next_pos;
        in_range = λ j o lj.
            ground (arith, v.in_range h q l, v.in_range j o, written db.objects h j object o lj);
        unique = replace-Unique db.objects h q object v.unique l s;
      })
]

kept :
    (m : Assoc Object) (h j : ℕ) (o : Object) → lookup j (remove h m) ≡ some o → lookup j m ≡ some o
kept m h j o e = ground (arith, lookup-remove h j m)

-- Removing an object keeps the cache valid.
pub remove_object-IsValid : (h : ℕ) (db : Db) → IsValid db → IsValid (remove_object h db).1
unfolding remove_object
remove_object-IsValid h db v = record {
  distinct = remove-Distinct h db.objects v.distinct;
  next_pos = v.next_pos;
  in_range = λ j o l. v.in_range j o (kept db.objects h j o l);
  unique = λ j k o p l m. v.unique j k o p (kept db.objects h j o l) (kept db.objects h k p m);
}

-- Clearing the cache keeps it valid.
pub clear-IsValid : (now : ℕ) (db : Db) → IsValid db → IsValid (clear now db)
unfolding clear lookup
clear-IsValid now db v = record {
  distinct = tt;
  next_pos = v.next_pos;
  in_range = λ h o l. cc;
  unique = λ h k o p l m s. cc;
}
