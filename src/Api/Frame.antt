-- ===== src/Api/Frame.antt =====
-- What every call of a C function keeps: it is enough that it is kept by locking a session, with a cache
-- or without, by opening and closing sessions, and by a new alias.
use nethsm_pkcs.Common.{
  String, subst, refl, ℕ, Bool, true, false, ◌≡◌, Option, none, some, List, ltb, arith,
}
use nethsm_pkcs.Service.Keys.{KeyService}
use nethsm_pkcs.Mechanism.Raw.{CkRawMechanism, from_ckraw_mech}
use nethsm_pkcs.Mechanism.{Mechanism}
use nethsm_pkcs.Login.{Run}
use nethsm_pkcs.Login.Results.{After, bind-After, cases-After, if-After}
use nethsm_pkcs.Db.Attributes.{CkRawAttr}
use nethsm_pkcs.Api.{Globals, Reply}
use nethsm_pkcs.Api.ObjectCalls.{
  aliases_of, find_init_handler, c_find_objects_init, create_handler, c_create_object,
  destroy_handler, c_destroy_object, rename, set_parsed, c_set_attribute_value,
}
use nethsm_pkcs.Api.Generation.{
  generate_handler, c_generate_key, generate_pair, c_generate_key_pair, generated_reply, pair_reply,
}
use nethsm_pkcs.Api.Requests.{
  Request, finds, creates, destroys, generates, generates_pair, sets_attributes, opens, closes,
  closes_all, in_session, after_reply, respond,
}
use nethsm_pkcs.Api.Sessions.{c_open_session, c_close_session, c_close_all_sessions}
use nethsm_pkcs.Api.Leaves.{
  find_init_handler-Leaves, create_handler-Leaves, destroy_handler-Leaves, generate_handler-Leaves,
}
use nethsm_pkcs.Db.{Db, Object}
use nethsm_pkcs.Db.Handles.{Op, adds, removes, marks}
use nethsm_pkcs.Keys.Trace.{Fetched}
use nethsm_pkcs.Session.{Session}
use nethsm_pkcs.Session.Trace.{SessionLeaves}
use nethsm_pkcs.Api.{Handler, CacheHandler, lock_session, lock_cache}

-- A property of the globals after a call that starts in `g`, whatever the handler is that locks a session;
-- a handler with a cache makes of it what operations in a row make of it that have the property A.
pub record Frame (W : Type 0) (A : Op → Type 0) (g : Globals) (P : Globals → Type 0) : Type 0 where
  pub same : P g
  pub locks :
      (hSession : ℕ) (handler : Handler W) (w : W)
      → After (λ r. P r.1) (lock_session hSession handler g w)
  pub locks_cache :
      (hSession : ℕ) (handler : CacheHandler W) (w : W)
      → ((s : Session) (db : Db) (w : W) → SessionLeaves A db (handler s db w))
      → After (λ r. P r.1) (lock_cache hSession handler g w)
  pub names : (aliases : List (String × String)) → P (record g { key_aliases = aliases })
  pub opened : (slot_id flags : ℕ) (there : Bool) → P (c_open_session slot_id flags there g).1
  pub closed : (hSession : ℕ) → P (c_close_session hSession g).1
  pub closed_all : (slot_id : ℕ) → P (c_close_all_sessions slot_id g).1

module _ {W : Type 0} (k : KeyService W) (A : Op → Type 0) (g : Globals) (P : Globals → Type 0)
    (q : Frame W A g P) where
  finds-Kept :
      (fetched : (o : Object) → Fetched k o → A (adds o)) (marked : (now : ℕ) → A (marks now true))
      (h : ℕ) (template : Option (List CkRawAttr)) (n : ℕ) (w : W)
      → After (λ r. P r.1) (c_find_objects_init k h template n g w)
  unfolding c_find_objects_init
  finds-Kept fetched marked h (some template) n w =
      q.locks_cache h (find_init_handler k (some template)) w
        (find_init_handler-Leaves k A fetched marked (some template))
  finds-Kept fetched marked h none n w =
      if-After (λ r. P r.1) (ltb 0 n) _ _ q.same
        (q.locks_cache h (find_init_handler k none) w
          (find_init_handler-Leaves k A fetched marked none))

  creates-Kept :
      (fetched : (o : Object) → Fetched k o → A (adds o)) (h : ℕ)
      (template : Option (List CkRawAttr)) (there : Bool) (w : W)
      → After (λ r. P r.1) (c_create_object k h template there g w)
  unfolding c_create_object
  creates-Kept fetched h template false w = q.same
  creates-Kept fetched h none true w = q.same
  creates-Kept fetched h (some template) true w =
      q.locks_cache h (create_handler k template (aliases_of g)) w
        (create_handler-Leaves k A fetched template (aliases_of g))

  destroys-Kept :
      (h hObject : ℕ) (w : W)
      → A (removes hObject)
      → After (λ r. P r.1) (c_destroy_object k h hObject g w)
  unfolding c_destroy_object
  destroys-Kept h hObject w p =
      q.locks_cache h (destroy_handler k hObject) w (destroy_handler-Leaves k A hObject p)

  generates-Kept :
      (fetched : (o : Object) → Fetched k o → A (adds o)) (h : ℕ)
      (mechanism : Option CkRawMechanism) (template : Option (List CkRawAttr)) (there : Bool)
      (w : W)
      → After (λ r. P r.1) (c_generate_key k h mechanism template there g w)
  unfolding c_generate_key
  generates-Kept fetched h mechanism template false w = q.same
  generates-Kept fetched h none template true w = q.same
  generates-Kept fetched h (some raw) none true w =
      cases-After (λ r. P r.1) (from_ckraw_mech raw) _ _ (λ mech. q.same) (λ e. q.same)
  generates-Kept fetched h (some raw) (some attrs) true w =
      cases-After (λ r. P r.1) (from_ckraw_mech raw) _ _
        (λ mech.
          q.locks_cache h (generate_handler k attrs none mech generated_reply) w
            (generate_handler-Leaves k A fetched attrs none mech generated_reply))
        (λ e. q.same)

  generate_pair-Kept :
      (fetched : (o : Object) → Fetched k o → A (adds o)) (h : ℕ) (mech : Mechanism)
      (a b : Option (List CkRawAttr)) (w : W)
      → After (λ r. P r.1) (generate_pair k h mech a b g w)
  unfolding generate_pair
  generate_pair-Kept fetched h mech (some a) (some b) w =
      q.locks_cache h (generate_handler k b (some a) mech pair_reply) w
        (generate_handler-Leaves k A fetched b (some a) mech pair_reply)
  generate_pair-Kept fetched h mech none b w = q.same
  generate_pair-Kept fetched h mech (some a) none w = q.same

  generates_pair-Kept :
      (fetched : (o : Object) → Fetched k o → A (adds o)) (h : ℕ)
      (mechanism : Option CkRawMechanism) (a b : Option (List CkRawAttr)) (there also : Bool)
      (w : W)
      → After (λ r. P r.1) (c_generate_key_pair k h mechanism a b there also g w)
  unfolding c_generate_key_pair
  generates_pair-Kept fetched h none a b there also w = q.same
  generates_pair-Kept fetched h (some raw) a b false also w = q.same
  generates_pair-Kept fetched h (some raw) a b true false w = q.same
  generates_pair-Kept fetched h (some raw) a b true true w =
      cases-After (λ r. P r.1) (from_ckraw_mech raw) _ _
        (λ mech. generate_pair-Kept fetched h mech a b w) (λ e. q.same)

  -- The aliases are all that C_SetAttributeValue changes.
  sets_attributes_lem :
      (h hObject : ℕ) (template : Option (List CkRawAttr))
      → record g { key_aliases = (c_set_attribute_value k h hObject template g).1.key_aliases }
        ≡ (c_set_attribute_value k h hObject template g).1
  unfolding c_set_attribute_value set_parsed rename
  sets_attributes_lem h hObject template = ground arith

  sets_attributes-Kept :
      (h hObject : ℕ) (template : Option (List CkRawAttr))
      → P (c_set_attribute_value k h hObject template g).1
  sets_attributes-Kept h hObject template =
      subst P (sets_attributes_lem h hObject template)
        (q.names (c_set_attribute_value k h hObject template g).1.key_aliases)

  dropped :
      (m : Run (Reply × Globals × W)) → After (λ r. P r.1) m → After (λ r. P r.0) (after_reply m)
  dropped m h = bind-After (λ r. P r.0) (λ r. P r.1) m _ h (λ r t. t)

-- The operations on a cache that a call may perform: a search adds what it has fetched and may mark the
-- cache as complete; creating and generating add what they have fetched; C_DestroyObject removes the
-- handle that it is called with; all other functions change no cache.
abbrev pub Permits : {W : Type 0} → KeyService W → Request W → Op → Type 0
Permits k (finds h template n) (adds o) = Fetched k o
Permits k (finds h template n) (marks now fetched) = fetched ≡ true
Permits k (creates h template there) (adds o) = Fetched k o
Permits k (destroys h hObject) (removes handle) = hObject ≡ handle
Permits k (generates h mech template there) (adds o) = Fetched k o
Permits k (generates_pair h mech a b there also) (adds o) = Fetched k o
Permits k _ _ = ⊥

module _ {W : Type 0} (k : KeyService W) (g : Globals) (P : Globals → Type 0) where
  pub respond-After :
      (r : Request W) (w : W) → Frame W (Permits k r) g P → After (λ r. P r.0) (respond k r g w)
  unfolding respond
  respond-After (finds h template n) w q =
      dropped k _ g P q _ (finds-Kept k _ g P q (λ o f. f) (λ now. refl) h template n w)
  respond-After (creates h template there) w q =
      dropped k _ g P q _ (creates-Kept k _ g P q (λ o f. f) h template there w)
  respond-After (destroys h o) w q = dropped k _ g P q _ (destroys-Kept k _ g P q h o w refl)
  respond-After (generates h mech template there) w q =
      dropped k _ g P q _ (generates-Kept k _ g P q (λ o f. f) h mech template there w)
  respond-After (generates_pair h mech a b there also) w q =
      dropped k _ g P q _ (generates_pair-Kept k _ g P q (λ o f. f) h mech a b there also w)
  respond-After (sets_attributes h o template) w q = sets_attributes-Kept k _ g P q h o template
  respond-After (opens slot flags there) w q = q.opened slot flags there
  respond-After (closes h) w q = q.closed h
  respond-After (closes_all slot) w q = q.closed_all slot
  respond-After (in_session h handler) w q = dropped k _ g P q _ (q.locks h handler w)
