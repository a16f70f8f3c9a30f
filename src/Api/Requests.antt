-- ===== src/Api/Requests.antt =====
-- The C functions that change a cache, a session or the table of sessions (pkcs11/src/api), as one type
-- of calls, and calls in a row.
use nethsm_pkcs.Common.{ℕ, Bool, Option, List, [], ◌∷◌}
use nethsm_pkcs.Service.Keys.{KeyService}
use nethsm_pkcs.Mechanism.Raw.{CkRawMechanism}
use nethsm_pkcs.Login.{Run, returns, ◌>>=◌}
use nethsm_pkcs.Db.Attributes.{CkRawAttr}
use nethsm_pkcs.Api.{Globals, Reply, Handler, lock_session}
use nethsm_pkcs.Api.ObjectCalls.{
  c_find_objects_init, c_create_object, c_destroy_object, c_set_attribute_value,
}
use nethsm_pkcs.Api.Generation.{c_generate_key, c_generate_key_pair}
use nethsm_pkcs.Api.Sessions.{c_open_session, c_close_session, c_close_all_sessions}

-- The calls of C functions, with their arguments. `in_session` stands for every function that locks a
-- session and has the cache only to read it, with what it does to the session.
pub data Request (W : Type 0) : Type 0 where
  finds : ℕ → Option (List CkRawAttr) → ℕ → Request W
  creates : ℕ → Option (List CkRawAttr) → Bool → Request W
  destroys : ℕ → ℕ → Request W
  generates : ℕ → Option CkRawMechanism → Option (List CkRawAttr) → Bool → Request W
  generates_pair :
      ℕ
      → Option CkRawMechanism
      → Option (List CkRawAttr)
      → Option (List CkRawAttr)
      → Bool
      → Bool
      → Request W
  sets_attributes : ℕ → ℕ → Option (List CkRawAttr) → Request W
  opens : ℕ → ℕ → Bool → Request W
  closes closes_all : ℕ → Request W
  in_session : ℕ → Handler W → Request W

-- Only the globals and the world after a call.
abbrev pub after_reply : {W : Type 0} → Run (Reply × Globals × W) → Run (Globals × W)
after_reply m = do (reply, g, w) ← m; returns (g, w)

unfoldable pub respond : {W : Type 0} → KeyService W → Request W → Globals → W → Run (Globals × W)
respond k (finds h template n) g w = after_reply (c_find_objects_init k h template n g w)
respond k (creates h template there) g w = after_reply (c_create_object k h template there g w)
respond k (destroys h o) g w = after_reply (c_destroy_object k h o g w)
respond k (generates h mech template there) g w =
    after_reply (c_generate_key k h mech template there g w)
respond k (generates_pair h mech pub_ priv there also) g w =
    after_reply (c_generate_key_pair k h mech pub_ priv there also g w)
respond k (sets_attributes h o template) g w =
    returns ((c_set_attribute_value k h o template g).1, w)
respond k (opens slot flags there) g w = returns ((c_open_session slot flags there g).1, w)
respond k (closes h) g w = returns ((c_close_session h g).1, w)
respond k (closes_all slot) g w = returns ((c_close_all_sessions slot g).1, w)
respond k (in_session h handler) g w = after_reply (lock_session h handler g w)

unfoldable pub respond_all :
    {W : Type 0} → KeyService W → List (Request W) → Globals → W → Run (Globals × W)
unfolding respond
respond_all k [] g w = returns (g, w)
respond_all k (r ∷ requests) g w = do (g', w') ← respond k r g w; respond_all k requests g' w'
