-- ===== src/Session/Deletion.antt =====
-- Deleting an object (`delete_object` of backend/session.rs).
use nethsm_pkcs.Common.{
  ℕ, ◌≡◌, none, some, ok, err, lookup, lookup-remove, arith, ◌==◌, if◌then◌else◌, Option-cases, inl,
  inr,
}
use nethsm_pkcs.Errors.{UserMode, Error}
use nethsm_pkcs.Service.Keys.{KeyService}
use nethsm_pkcs.Login.{returns}
use nethsm_pkcs.Login.Calls.{try_}
use nethsm_pkcs.Db.{Db, Object, object, remove_object}
use nethsm_pkcs.Session.{Session, key_of}
use nethsm_pkcs.Session.Changes.{
  delete_call, delete_remote, remove_local, delete_known, delete_object,
}

module _ {W : Type 0} (k : KeyService W) where
  -- That the NetHSM has answered the call that deletes an object with success, where there is one.
  abbrev pub Deleted : Object → Session → Session → W → W → Type 0
  Deleted key s s' w w' = elim (delete_call k key.kind key.id) [
    | none ↦ (s' ≡ s) × (w' ≡ w)
    | some call ↦
        try_ k.service call UserMode.administrator s.login_ctx w ≡ returns (ok tt, s'.login_ctx, w')
  ]

  -- A deletion that succeeds was for an object of the cache. Where its kind has a call, the NetHSM
  -- has answered this call with success in the mode Administrator; otherwise nothing was called, and
  -- the session is as it was. Afterwards the handle leads nowhere, and all other handles lead to what
  -- they led to.
  pub delete_object_succeeds :
      (handle other : ℕ) (s s' : Session) (db db' : Db) (w w' : W)
      → delete_object k handle s db w ≡ returns (ok tt, s', db', w')
      → (key : Object) × (object db handle ≡ some key)
        × Deleted key s s' w w'
        × (object db' other ≡ (if handle == other then none else object db other))
  unfolding delete_object delete_known delete_remote remove_local key_of object remove_object
  delete_object_succeeds handle other s s' db db' w w' h =
      elim (Option-cases (lookup handle db.objects)) [
        | inl e ↦ ground arith
        | inr (key, e) ↦
            (key, e, ground arith, ground (arith, lookup-remove handle other db.objects))
      ]

  -- A deletion that fails leaves the cache as it was.
  pub delete_object_fails :
      (handle : ℕ) (s s' : Session) (db db' : Db) (w w' : W) (e : Error)
      → delete_object k handle s db w ≡ returns (err e, s', db', w')
      → db' ≡ db
  unfolding delete_object delete_known delete_remote remove_local key_of object remove_object
  delete_object_fails handle s s' db db' w w' e h = ground arith

  -- A deletion that succeeds takes the handle out of the cache, and does nothing else to it.
  pub delete_object_removes :
      (handle : ℕ) (s s' : Session) (db db' : Db) (w w' : W)
      → delete_object k handle s db w ≡ returns (ok tt, s', db', w')
      → db' ≡ (remove_object handle db).1
  unfolding delete_object delete_known delete_remote remove_local key_of object remove_object
  delete_object_removes handle s s' db db' w w' h = ground arith
