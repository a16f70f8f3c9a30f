-- ===== src/Decrypt.antt =====
-- The context of a decryption (pkcs11/src/backend/decrypt.rs).
use nethsm_pkcs.Common.{ℕ, String, none, some, List, [], ◌∷◌, ◌++◌, Result, ok, err, if◌then◌else◌}
use nethsm_pkcs.Errors.{
  UserMode, Error, invalid_mechanism_mode, invalid_mechanism, not_logged_in, api,
  invalid_encrypted_data_length,
}
use nethsm_pkcs.Service.{Service}
use nethsm_pkcs.Mechanism.{Mechanism, decrypt}
use nethsm_pkcs.Mechanism.Api.{to_api_mech, decrypt_name}
use nethsm_pkcs.Mechanism.Raw.{iv_of}
use nethsm_pkcs.Mechanism.Keys.{has_mechanism}
use nethsm_pkcs.Login.{LoginCtx, Run, returns, ◌>>=◌, can_run_mode}
use nethsm_pkcs.Login.Calls.{try_}
use nethsm_pkcs.Db.{Object}
use nethsm_pkcs.Encrypt.{decoded, iv_text}

pub record DecryptCtx : Type 0 where
  pub mechanism : Mechanism
  pub key_id : String
  pub buffer : List ℕ
  pub login_ctx : LoginCtx

unfoldable pub init : Mechanism → Object → LoginCtx → Result Error DecryptCtx
init mechanism key login_ctx =
    if can_run_mode login_ctx UserMode.operator
    then elim (to_api_mech mechanism decrypt) [
      | none ↦ err (invalid_mechanism_mode decrypt mechanism)
      | some api_mech ↦
          if has_mechanism api_mech key.mechanisms
          then ok (record {
            mechanism = mechanism;
            key_id = key.id;
            buffer = [];
            login_ctx = login_ctx;
          })
          else err (invalid_mechanism (key.id, key.kind) mechanism)
    ]
    else err (not_logged_in UserMode.operator)

unfoldable pub update : List ℕ → DecryptCtx → DecryptCtx
update bytes c = record c { buffer = c.buffer ++ bytes }

module _ {W : Type 0} (x : Service W) where
  -- The request for a buffer that is not empty. `try_` moves the index of the context's own login.
  unfoldable pub decrypt_buffer : DecryptCtx → W → Run (Result Error (List ℕ) × DecryptCtx × W)
  decrypt_buffer c w = elim (decrypt_name c.mechanism) [
    | none ↦ returns (err (invalid_mechanism_mode decrypt c.mechanism), c, w)
    | some mode ↦ do
      (output, login_ctx, w') ←
          try_ x
            (x.keys_key_id_decrypt_post c.key_id (record {
              mode = mode;
              encrypted = x.base64_encode c.buffer;
              iv = iv_text x (iv_of c.mechanism);
            }))
            UserMode.operator c.login_ctx w
      returns (
        elim output [ ok s ↦ decoded x s | err e ↦ err (api e) ],
        record c { login_ctx = login_ctx },
        w',
      )
  ]

  unfoldable pub decrypt_final : DecryptCtx → W → Run (Result Error (List ℕ) × DecryptCtx × W)
  unfolding decrypt_buffer
  decrypt_final c w = elim c.buffer [
    | [] ↦ returns (err invalid_encrypted_data_length, c, w)
    | b ∷ rest ↦ decrypt_buffer c w
  ]
