-- ===== src/Api/Replies.antt =====
-- What holds of the reply of every handler holds of the function that locks the session for it.
use nethsm_pkcs.Common.{ℕ, ◌≡◌, subst, arith, some, Option-cases, inl, inr}
use nethsm_pkcs.Constants
use nethsm_pkcs.Db.{Db}
use nethsm_pkcs.Login.Results.{After, bind-After}
use nethsm_pkcs.Session.{Session}
use nethsm_pkcs.Manager.{get_session}
use nethsm_pkcs.Api.{Globals, Reply, just, Handler, CacheHandler, lock_session, lock_cache}

module _ {ℓ} {W : Type 0} (P : Reply → Type ℓ) where
  pub lock_session-After :
      (hSession : ℕ) (handler : Handler W) (g : Globals) (w : W)
      → P (just Constants.ckr_session_handle_invalid)
      → ((s : Session) → After (λ (r : Reply × Session × W). P r.0) (handler s w))
      → After (λ (r : Reply × Globals × W). P r.0) (lock_session hSession handler g w)
  unfolding lock_session
  lock_session-After hSession handler g w p h =
      elim (Option-cases (get_session hSession g.manager)) [
        | inl e ↦ rw (e, lock_session) p
        | inr (s, e) ↦
            rw (e, lock_session)
              (bind-After (λ (r : Reply × Globals × W). P r.0) (λ (r : Reply × Session × W). P r.0)
                (handler s w) _ (h s) (λ r q. q))
      ]

  pub lock_cache-After :
      (hSession : ℕ) (handler : CacheHandler W) (g : Globals) (w : W)
      → P (just Constants.ckr_session_handle_invalid)
      → ((s : Session) (db : Db) → After (λ (r : Reply × Session × Db × W). P r.0) (handler s db w))
      → After (λ (r : Reply × Globals × W). P r.0) (lock_cache hSession handler g w)
  unfolding lock_cache
  lock_cache-After hSession handler g w p h = elim (Option-cases (get_session hSession g.manager)) [
    | inl e ↦ rw (e, lock_cache) p
    | inr (s, e) ↦
        rw (e, lock_cache)
          (bind-After (λ (r : Reply × Globals × W). P r.0) (λ (r : Reply × Session × Db × W). P r.0)
            (handler s (g.dbs s.db) w) _ (h s (g.dbs s.db)) (λ r q. q))
  ]

-- What holds of a reply and the cache beside it, where the session is there.
pub locked-After {ℓ} :
    {W : Type 0} (P : Reply → Db → Type ℓ) (hSession : ℕ) (handler : CacheHandler W) (g : Globals)
    (w : W) (s : Session)
    → get_session hSession g.manager ≡ some s
    → After (λ (r : Reply × Session × Db × W). P r.0 r.2) (handler s (g.dbs s.db) w)
    → After (λ (r : Reply × Globals × W). P r.0 (r.1.dbs s.db)) (lock_cache hSession handler g w)
unfolding lock_cache
locked-After {W = W} P hSession handler g w s e h =
    rw (e, lock_cache)
      (bind-After (λ (r : Reply × Globals × W). P r.0 (r.1.dbs s.db))
        (λ (r : Reply × Session × Db × W). P r.0 r.2) (handler s (g.dbs s.db) w) _ h
        (λ r q. subst (P r.0) (ground arith) q))
