-- ===== src/Session/Starting.antt =====
-- How the operations of a session start (backend/session.rs, and `init` of backend/sign.rs,
-- backend/encrypt.rs and backend/decrypt.rs).
use nethsm_pkcs.Common.{
  ℕ, ◌≡◌, Option-cases, inl, inr, true, none, some, [], Result, ok, err, arith,
}
use nethsm_pkcs.Errors.{UserMode, Error}
use nethsm_pkcs.Mechanism.{Mechanism, KeyMechanism, MechMode, SignMode, sign, encrypt, decrypt}
use nethsm_pkcs.Mechanism.Api.{to_api_mech, sign_name}
use nethsm_pkcs.Mechanism.Keys.{has_mechanism}
use nethsm_pkcs.Login.{can_run_mode}
use nethsm_pkcs.Db.{Db, Object, object}
use nethsm_pkcs.Sign
use nethsm_pkcs.Sign.{SignCtx}
use nethsm_pkcs.Encrypt
use nethsm_pkcs.Encrypt.{EncryptCtx}
use nethsm_pkcs.Decrypt
use nethsm_pkcs.Decrypt.{DecryptCtx}
use nethsm_pkcs.Session.{Session}
use nethsm_pkcs.Session.Signing.{sign_init}
use nethsm_pkcs.Session.Encrypting.{encrypt_init}
use nethsm_pkcs.Session.Decrypting.{decrypt_init}

-- The mode of a mechanism names the operation; `start` is its function.
unfoldable pub start : MechMode → Mechanism → ℕ → Db → Session → Result Error (Unit {0}) × Session
unfolding sign_init encrypt_init decrypt_init
start sign mechanism handle db s = sign_init mechanism handle db s
start encrypt mechanism handle db s = encrypt_init mechanism handle db s
start decrypt mechanism handle db s = decrypt_init mechanism handle db s

abbrev pub context_of : Mechanism → SignMode → Object → Session → SignCtx
context_of mechanism name key s = record {
  mechanism = mechanism;
  sign_name = name;
  key = key;
  buffer = [];
  login_ctx = s.login_ctx;
}

-- The session was free for the operation and has it now, for the key of the handle and without data;
-- the rest of the session is as it was.
abbrev pub Started : MechMode → Mechanism → Object → Session → Session → Type 0
Started sign mechanism key s s' =
    (s.sign_ctx ≡ none)
    × ((name : SignMode) × (sign_name mechanism ≡ some name)
        × (s' ≡ record s { sign_ctx = some (context_of mechanism name key s) }))
Started encrypt mechanism key s s' =
    (s.encrypt_ctx ≡ none)
    × (s' ≡ record s {
      encrypt_ctx =
          some (record {
            mechanism = mechanism;
            key_id = key.id;
            buffer = [];
            login_ctx = s.login_ctx;
          });
    })
Started decrypt mechanism key s s' =
    (s.decrypt_ctx ≡ none)
    × (s' ≡ record s {
      decrypt_ctx =
          some (record {
            mechanism = mechanism;
            key_id = key.id;
            buffer = [];
            login_ctx = s.login_ctx;
          });
    })

-- The key may be used with the mechanism in the mode, by the operator of the session.
abbrev pub Allowed : MechMode → Mechanism → Object → Session → Type 0
Allowed mode mechanism key s =
    (api_mech : KeyMechanism) × (to_api_mech mechanism mode ≡ some api_mech)
    × (has_mechanism api_mech key.mechanisms ≡ true)
    × (can_run_mode s.login_ctx UserMode.operator ≡ true)

-- An operation starts only for a session that has none of its kind, with a key that the handle leads
-- to, that allows the mechanism in this mode, and for a session whose operator can call the NetHSM.
-- The context that it gets is that of the key and has no data, and no other part of the session changes.
pub start_succeeds :
    (mode : MechMode) (mechanism : Mechanism) (handle : ℕ) (db : Db) (s s' : Session)
    → start mode mechanism handle db s ≡ (ok tt, s')
    → (key : Object) × (object db handle ≡ some key)
      × Allowed mode mechanism key s
      × Started mode mechanism key s s'
unfolding start Sign.init Encrypt.init Decrypt.init
start_succeeds sign mechanism handle db s s' h = elim (Option-cases (object db handle)) [
  | inl n ↦ absurd (ground arith)
  | inr (key, e) ↦ elim (Option-cases (to_api_mech mechanism sign)) [
    | inl n ↦ absurd (ground arith)
    | inr (m, f) ↦ elim (Option-cases (sign_name mechanism)) [
      | inl n ↦ absurd (ground arith)
      | inr (name, i) ↦
          (key, e, (m, f, ground arith, ground arith), (ground arith, (name, i, ground arith)))
    ]
  ]
]
start_succeeds encrypt mechanism handle db s s' h = elim (Option-cases (object db handle)) [
  | inl n ↦ absurd (ground arith)
  | inr (key, e) ↦ elim (Option-cases (to_api_mech mechanism encrypt)) [
    | inl n ↦ absurd (ground arith)
    | inr (m, f) ↦ (key, e, (m, f, ground arith, ground arith), ground arith)
  ]
]
start_succeeds decrypt mechanism handle db s s' h = elim (Option-cases (object db handle)) [
  | inl n ↦ absurd (ground arith)
  | inr (key, e) ↦ elim (Option-cases (to_api_mech mechanism decrypt)) [
    | inl n ↦ absurd (ground arith)
    | inr (m, f) ↦ (key, e, (m, f, ground arith, ground arith), ground arith)
  ]
]

-- A start that fails leaves the session as it was, the operation that is under way included.
pub start_fails :
    (mode : MechMode) (mechanism : Mechanism) (handle : ℕ) (db : Db) (s s' : Session) (e : Error)
    → start mode mechanism handle db s ≡ (err e, s')
    → s' ≡ s
unfolding start Sign.init Encrypt.init Decrypt.init
start_fails sign mechanism handle db s s' e h = ground arith
start_fails encrypt mechanism handle db s s' e h = ground arith
start_fails decrypt mechanism handle db s s' e h = ground arith
