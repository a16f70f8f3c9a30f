-- ===== src/Api/Caches.antt =====
-- The caches of the slots under the C functions: those of api/object.rs and api/generation.rs, which
-- change a cache, those of api/session.rs, and all others, which lock a session and no more.
use nethsm_pkcs.Common.{ℕ, Bool, ◌≡◌, List, [], ◌∷◌, ◌⊎◌, inl, inr, arith}
use nethsm_pkcs.Service.Keys.{KeyService}
use nethsm_pkcs.Login.{returns}
use nethsm_pkcs.Login.Results.{After, After_returns, bind-After}
use nethsm_pkcs.Db.Handles.{Op}
use nethsm_pkcs.Keys.Trace.{Traced, Traced-refl, Traced-trans, Traced-map, After-weaken}
use nethsm_pkcs.Manager.{delete_session}
use nethsm_pkcs.Api.{Globals}
use nethsm_pkcs.Api.Requests.{Request, respond, respond_all}
use nethsm_pkcs.Api.Sessions.{c_open_session, c_close_session, c_close_all_sessions}
use nethsm_pkcs.Api.Frame.{Frame, Permits, respond-After}
use nethsm_pkcs.Api.Leaves.{lock_cache-Traced, lock_session-Traced}

-- An operation that one of the calls permits.
abbrev pub PermittedBy : {W : Type 0} → KeyService W → List (Request W) → Op → Type 0
PermittedBy k [] op = ⊥
PermittedBy k (r ∷ requests) op = Permits k r op ⊎ PermittedBy k requests op

opens_keeps :
    (slot flags : ℕ) (there : Bool) (g : Globals)
    → (c_open_session slot flags there g).1.dbs ≡ g.dbs
unfolding c_open_session
opens_keeps slot flags there g = ground arith

closes_keeps : (h : ℕ) (g : Globals) → (c_close_session h g).1.dbs ≡ g.dbs
unfolding c_close_session delete_session
closes_keeps h g = ground arith

closes_all_keeps : (slot : ℕ) (g : Globals) → (c_close_all_sessions slot g).1.dbs ≡ g.dbs
unfolding c_close_all_sessions
closes_all_keeps slot g = ground arith

module _ (A : Op → Type 0) (i : ℕ) (g : Globals) where
  same_caches : (g' : Globals) → g'.dbs ≡ g.dbs → Traced A (g.dbs i) (g'.dbs i)
  same_caches g' e = rw e (Traced-refl A (g.dbs i))

  -- A call makes of each cache what some operations in a row make of it.
  caches_frame : {W : Type 0} → Frame W A g (λ g'. Traced A (g.dbs i) (g'.dbs i))
  caches_frame = record {
    same = Traced-refl A (g.dbs i);
    locks = λ hSession handler w. lock_session-Traced A i hSession handler g w;
    locks_cache = λ hSession handler w leaves. lock_cache-Traced A i hSession handler g w leaves;
    names = λ aliases. Traced-refl A (g.dbs i);
    opened = λ slot_id flags there.
        same_caches (c_open_session slot_id flags there g).1 (opens_keeps slot_id flags there g);
    closed = λ hSession. same_caches (c_close_session hSession g).1 (closes_keeps hSession g);
    closed_all =
        λ slot_id. same_caches (c_close_all_sessions slot_id g).1 (closes_all_keeps slot_id g);
  }

module _ {W : Type 0} (k : KeyService W) (i : ℕ) where
  all-Traced :
      (requests : List (Request W)) (g : Globals) (w : W)
      → After
          (λ r. Traced (PermittedBy k requests) (g.dbs i) (r.0.dbs i))
          (respond_all k requests g w)
  unfolding respond_all
  all-Traced [] g w = Traced-refl _ (g.dbs i)
  all-Traced (r ∷ requests) g w =
      bind-After (λ s. Traced (PermittedBy k (r ∷ requests)) (g.dbs i) (s.0.dbs i))
        (λ s. Traced (Permits k r) (g.dbs i) (s.0.dbs i)) (respond k r g w) _
        (respond-After k g (λ g'. Traced (Permits k r) (g.dbs i) (g'.dbs i)) r w
          (caches_frame (Permits k r) i g))
        (λ (g', w') t.
          After-weaken (λ s. Traced (PermittedBy k requests) (g'.dbs i) (s.0.dbs i))
            (λ s. Traced (PermittedBy k (r ∷ requests)) (g.dbs i) (s.0.dbs i))
            (respond_all k requests g' w') (all-Traced requests g' w')
            (λ s u.
              Traced-trans (PermittedBy k (r ∷ requests)) (g.dbs i) (g'.dbs i) (s.0.dbs i)
                (Traced-map _ _ _ _ (λ op p. inl p) t) (Traced-map _ _ _ _ (λ op p. inr p) u)))

  -- Whatever C functions are called in a row, and whatever the NetHSM answers: where the calls return,
  -- what becomes of a cache is what operations in a row make of it that the calls permit. A search, a
  -- creation and a generation only add objects that are made from the data of a key or from a
  -- certificate; only a search marks a cache, as complete; only C_DestroyObject removes, and only the
  -- handle that it is called with; nothing else changes a cache.
  pub caches-Traced :
      (requests : List (Request W)) (g g' : Globals) (w w' : W)
      → respond_all k requests g w ≡ returns (g', w')
      → Traced (PermittedBy k requests) (g.dbs i) (g'.dbs i)
  caches-Traced requests g g' w w' e =
      After_returns (λ r. Traced (PermittedBy k requests) (g.dbs i) (r.0.dbs i))
        (respond_all k requests g w) (g', w') e (all-Traced requests g w)
