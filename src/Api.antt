-- ===== src/Api.antt =====
-- The frame of the C functions (pkcs11/src/api, and the `lock_session!` of utils.rs). A null pointer is
-- `none`; a pointer to bytes is the slice that the code makes of it; a pointer to a length is the
-- value before the call. The lock of a session is held from its lookup to the return, so a call
-- is one step. A lock that a panic has poisoned is not modelled.
pub mod Sessions
pub mod Signing
pub mod Encrypting
pub mod Decrypting
pub mod Calls
pub mod Buffers
pub mod Clearing
pub mod Protocol
pub mod Objects
pub mod ObjectCalls
pub mod Generation
pub mod Pins
pub mod Tokens
pub mod Waiting
pub mod Replies
pub mod Random
pub mod KeyPairs
pub mod Lists
pub mod Events
pub mod Initializing
pub mod Aliases
pub mod Texts
pub mod Versions
pub mod Library
pub mod Unsupported
pub mod Requests
pub mod Leaves
pub mod Frame
pub mod Caches
pub mod Destroyed
pub mod Closed
pub mod Guarded
pub mod Opened
use nethsm_pkcs.Common.{
  ℕ, String, Bool, true, false, ◌==◌, if◌then◌else◌, Option, none, some, List, [], ◌∷◌, Result, ok,
  err, get_elem?,
}
use nethsm_pkcs.Constants
use nethsm_pkcs.Errors.{Error, error_rv}
use nethsm_pkcs.Service.{Service}
use nethsm_pkcs.Mechanism.{Mechanism}
use nethsm_pkcs.Mechanism.Raw.{CkRawMechanism, from_ckraw_mech}
use nethsm_pkcs.Login.{Run, returns, panics, runs_out, ◌>>=◌}
use nethsm_pkcs.Db.{Db}
use nethsm_pkcs.Session.{Slot, Session}
use nethsm_pkcs.Manager.{SessionManager, get_session, update_session}

-- The statics of data.rs that the functions use: DEVICE with its option, KEY_ALIASES,
-- SESSION_MANAGER, and the caches that the slots refer to.
pub record Globals : Type 0 where
  pub slots : Option (List Slot)
  pub enable_set_attribute_value : Bool
  pub key_aliases : List (String × String)
  pub manager : SessionManager
  pub dbs : ℕ → Db

-- What a call gives its caller: the return value, the length written last (none where it is left
-- as it was), and the bytes copied to the output buffer.
pub record Reply : Type 0 where
  pub rv : ℕ
  pub written : Option ℕ
  pub bytes : List ℕ

abbrev pub just : ℕ → Reply
just rv = record { rv = rv; written = none; bytes = [] }

abbrev pub sized : ℕ → ℕ → Reply
sized rv n = record { rv = rv; written = some n; bytes = [] }

-- `get_slot` of backend/slot.rs.
unfoldable pub get_slot : ℕ → Globals → Result ℕ Slot
get_slot slot_id g = elim g.slots [
  | none ↦ err Constants.ckr_cryptoki_not_initialized
  | some slots ↦ elim (get_elem? slots slot_id) [
    | none ↦ err Constants.ckr_slot_id_invalid
    | some slot ↦ ok slot
  ]
]

-- What the handler of a function has to do with its session, where it locks no cache: the functions of
-- api/object.rs and api/generation.rs that lock it are handled by `lock_cache`.
abbrev pub Handler : Type 0 → Type 0
Handler W = Session → W → Run (Reply × Session × W)

unfoldable pub lock_session : {W : Type 0} → ℕ → Handler W → Globals → W → Run (Reply × Globals × W)
lock_session hSession handler g w = elim (get_session hSession g.manager) [
  | none ↦ returns (just Constants.ckr_session_handle_invalid, g, w)
  | some s ↦ do
    (reply, s', w') ← handler s w
    returns (reply, record g { manager = update_session hSession s' g.manager }, w')
]

-- The start of C_SignInit, C_EncryptInit and C_DecryptInit, and the value that they return.
unfoldable pub init_rv : Result Error (Unit {0}) → ℕ
init_rv (ok done) = Constants.ckr_ok
init_rv (err e) = error_rv e

unfoldable pub with_mechanism :
    {W : Type 0}
    → (Mechanism → Session → Result Error (Unit {0}) × Session)
    → ℕ
    → Option CkRawMechanism
    → Globals
    → W
    → Run (Reply × Globals × W)
unfolding lock_session init_rv
with_mechanism init hSession none g w = returns (just Constants.ckr_arguments_bad, g, w)
with_mechanism init hSession (some raw) g w = elim (from_ckraw_mech raw) [
  | err e ↦ returns (just Constants.ckr_mechanism_invalid, g, w)
  | ok mech ↦
      lock_session hSession
        (λ s w. let (result, s') = init mech s in returns (just (init_rv result), s', w)) g w
]

-- A handler that uses the cache of its session too.
abbrev pub CacheHandler : Type 0 → Type 0
CacheHandler W = Session → Db → W → Run (Reply × Session × Db × W)

abbrev pub set_db : ℕ → Db → Globals → Globals
set_db db contents g = record g { dbs = λ i. if i == db then contents else g.dbs i }

unfoldable pub lock_cache :
    {W : Type 0} → ℕ → CacheHandler W → Globals → W → Run (Reply × Globals × W)
lock_cache hSession handler g w = elim (get_session hSession g.manager) [
  | none ↦ returns (just Constants.ckr_session_handle_invalid, g, w)
  | some s ↦ do
    (reply, s', db, w') ← handler s (g.dbs s.db) w
    returns
        (reply, set_db s.db db (record g { manager = update_session hSession s' g.manager }), w')
]
