-- ===== src/Api/KeyPairs.antt =====
-- The handles that C_GenerateKeyPair writes (pkcs11/src/api/generation.rs).
use nethsm_pkcs.Common.{
  ℕ, ◌+◌, ◌<◌, ◌≡◌, ◌≢◌, inl, inr, sym, ap, ◌∙◌, String, true, Option, some, List, [], ◌∷◌, Result,
  ok, err, Option-cases, Result-cases, arith,
}
use nethsm_pkcs.Constants
use nethsm_pkcs.Errors.{private_key, public_key, Error, UserMode}
use nethsm_pkcs.Mechanism.{Mechanism}
use nethsm_pkcs.Mechanism.Raw.{CkRawMechanism, from_ckraw_mech}
use nethsm_pkcs.Service.Keys.{KeyService}
use nethsm_pkcs.Login.{LoginCtx, Run, returns, can_run_mode}
use nethsm_pkcs.Login.Results.{
  After, result-After, answer-After, if-After, cases-After, After_returns,
}
use nethsm_pkcs.Db.{Db, Object, u64_mod, object}
use nethsm_pkcs.Db.Validity.{IsValid}
use nethsm_pkcs.Db.Attributes.{CkRawAttr}
use nethsm_pkcs.Keys.{ParsedAttributes}
use nethsm_pkcs.Keys.Create.{extract_key_id_location_header}
use nethsm_pkcs.Keys.Entries.{Held, OutcomeHeld, fetched-Held}
use nethsm_pkcs.Keys.Fetch.{Entries, call_api}
use nethsm_pkcs.Keys.Generate.{
  both_parsed, generate_request, fetch_generated, request_key, generate_key_from_template,
}
use nethsm_pkcs.Session.{Session}
use nethsm_pkcs.Session.Changes.{generate_key}
use nethsm_pkcs.Manager.{get_session}
use nethsm_pkcs.Api.{Globals, Reply, lock_cache}
use nethsm_pkcs.Api.Replies.{locked-After}
use nethsm_pkcs.Api.Generation.{pair_reply, generate_handler, generate_pair, c_generate_key_pair}

-- The entries of a result are those of one key in the cache beside it.
abbrev Generated : {W : Type 0} → Result Error Entries × Db × W → Type 0
Generated (ok entries, db, w) = (id : String) × Held id db entries
Generated (err e, db, w) = Unit

named_Generated :
    {W : Type 0} (id : String) (m : Run (Result Error Entries × Db × W))
    → After (OutcomeHeld id) m
    → After Generated m
named_Generated id (returns (ok entries, db, w)) h = (id, h)
named_Generated id (returns (err e, db, w)) h = tt
named_Generated id Run.panics h = tt
named_Generated id Run.runs_out h = tt

-- The reply has two handles, of a public and a private key of one identifier in the cache.
abbrev pub Written : Reply → Db → Type 0
Written reply db =
    (h : ℕ) × (j : ℕ) × (p : Object) × (q : Object) × (reply.bytes ≡ h ∷ j ∷ [])
    × (h ≢ j)
    × ((p.kind ≡ public_key) × (object db h ≡ some p))
    × ((q.kind ≡ private_key) × (object db j ≡ some q))
    × (q.id ≡ p.id)

abbrev PairReply : Reply → Db → Type 0
PairReply reply db = reply.rv ≡ Constants.ckr_ok → Written reply db

Held-PairReply :
    (id : String) (db : Db) (entries : Entries)
    → Held id db entries
    → PairReply (pair_reply (ok entries)) db
unfolding pair_reply
Held-PairReply id db entries (v, inl e) r = absurd (ground (arith, e, r))
Held-PairReply id db entries (v, inr (inl (h, s, e, k, i, f))) r = absurd (ground (arith, e, r))
Held-PairReply id db entries (v, inr (inr (h, j, p, q, e, n, (pk, pi, pf), (qk, qi, qf)))) r = (
  h,
  j,
  p,
  q,
  ap (λ (es : Entries). (pair_reply (ok es)).bytes) e,
  n,
  (pk, pf),
  (qk, qf),
  qi ∙ sym pi,
)

failed_pair : (e : Error) → (pair_reply (err e)).rv ≢ Constants.ckr_ok
unfolding pair_reply
failed_pair e r = ground (arith, r)

module _ {W : Type 0} (k : KeyService W) where
  fetch_generated-Generated :
      (parsed : ParsedAttributes) (location : Option String) (c : LoginCtx) (db : Db) (w : W)
      → IsValid db
      → db.next_handle + 2 < u64_mod
      → After Generated (fetch_generated k parsed location c db w)
  unfolding fetch_generated
  fetch_generated-Generated parsed location c db w v b =
      cases-After Generated (extract_key_id_location_header location) _ _
        (λ id. named_Generated id _ (fetched-Held k id parsed.raw_id c db w v b)) (λ e. tt)

  request_key-Generated :
      (parsed : ParsedAttributes) (public_ : Option ParsedAttributes) (m : Mechanism) (c : LoginCtx)
      (db : Db) (w : W)
      → IsValid db
      → db.next_handle + 2 < u64_mod
      → After Generated (request_key k parsed public_ m c db w)
  unfolding request_key
  request_key-Generated parsed public_ m c db w v b =
      cases-After Generated (generate_request k parsed public_ m) _ _
        (λ request.
          answer-After Generated
            (call_api k (k.keys_generate_post request) UserMode.administrator c w) _
            (λ location w'. fetch_generated-Generated parsed location c db w' v b) (λ e w'. tt))
        (λ e. tt)

  generate_key-Generated :
      (template : List CkRawAttr) (public_template : Option (List CkRawAttr)) (m : Mechanism)
      (s : Session) (db : Db) (w : W)
      → IsValid db
      → db.next_handle + 2 < u64_mod
      → After Generated (generate_key k template public_template m s db w)
  unfolding generate_key generate_key_from_template
  generate_key-Generated template public_template m s db w v b =
      if-After Generated (can_run_mode s.login_ctx UserMode.administrator) _ _
        (cases-After Generated (both_parsed k template public_template) _ _
          (λ both. request_key-Generated both.0 both.1 m s.login_ctx db w v b) (λ e. tt))
        tt

  handler_PairReply :
      (template : List CkRawAttr) (public_template : Option (List CkRawAttr)) (m : Mechanism)
      (s : Session) (db : Db) (w : W)
      → IsValid db
      → db.next_handle + 2 < u64_mod
      → After
          (λ (r : Reply × Session × Db × W). PairReply r.0 r.2)
          (generate_handler k template public_template m pair_reply s db w)
  unfolding generate_handler
  handler_PairReply template public_template m s db w v b =
      result-After (λ (r : Reply × Session × Db × W). PairReply r.0 r.2) Generated
        (generate_key k template public_template m s db w) _
        (generate_key-Generated template public_template m s db w v b)
        (λ entries d v' h. Held-PairReply h.0 d entries h.1)
        (λ e d v' h r. absurd (failed_pair e r))

  -- Where C_GenerateKeyPair returns CKR_OK, and the caches are valid and have two handles left, it has
  -- written two different handles: in the cache of the session the first then leads to a public key,
  -- and the second to a private key with the same identifier.
  pub key_pair_handles :
      (hSession : ℕ) (raw : CkRawMechanism) (public_ private_ : List CkRawAttr) (g g' : Globals)
      (w w' : W) (reply : Reply)
      → ((i : ℕ) → IsValid (g.dbs i) × (g.dbs i).next_handle + 2 < u64_mod)
      → c_generate_key_pair k hSession (some raw) (some public_) (some private_) true true g w
        ≡ returns (reply, g', w')
      → reply.rv ≡ Constants.ckr_ok
      → (s : Session) × (get_session hSession g.manager ≡ some s) × Written reply (g'.dbs s.db)
  unfolding c_generate_key_pair generate_pair
  key_pair_handles hSession raw public_ private_ g g' w w' reply v h r =
      elim (Result-cases (from_ckraw_mech raw)) [
        | inr (e', e) ↦ absurd (ground arith)
        | inl (m, e) ↦ elim (Option-cases (get_session hSession g.manager)) [
          | inl e' ↦ absurd (unfold lock_cache in ground arith)
          | inr (s, e') ↦ (
            s,
            e',
            After_returns (λ (r : Reply × Globals × W). PairReply r.0 (r.1.dbs s.db))
                (lock_cache hSession (generate_handler k private_ (some public_) m pair_reply) g w)
                (reply, g', w') (cc (h, e))
                (locked-After PairReply hSession
                  (generate_handler k private_ (some public_) m pair_reply) g w s e'
                  (handler_PairReply private_ (some public_) m s (g.dbs s.db) w (v s.db).0
                    (v s.db).1))
                r,
          )
        ]
      ]
