-- ===== src/Encrypt.antt =====
-- The context of an encryption (pkcs11/src/backend/encrypt.rs).
pub mod Stream
pub mod Parts
pub mod Chaining
use text.Mathlib.Text.{find?}
use nethsm_pkcs.Common.{
  ℕ, ◌*◌, ◌/◌, String, Bool, true, false, ◌||◌, Option, none, some, List, [], ◌∷◌, ◌++◌, Result, ok,
  err, length, take, drop, is_some, ◌==◌, if◌then◌else◌,
}
use nethsm_pkcs.Errors.{
  UserMode, ApiError, ResponseContent, Error, invalid_mechanism_mode, invalid_mechanism,
  invalid_data, invalid_data_length, not_logged_in, base64, api,
}
use nethsm_pkcs.Service.{Service, EncryptRequestData}
use nethsm_pkcs.Mechanism.{Mechanism, KeyMechanism, encrypt}
use nethsm_pkcs.Mechanism.Api.{to_api_mech, encrypt_name}
use nethsm_pkcs.Mechanism.Raw.{iv_of}
use nethsm_pkcs.Mechanism.Keys.{has_mechanism}
use nethsm_pkcs.Login.{LoginCtx, Run, returns, panics, runs_out, ◌>>=◌, can_run_mode}
use nethsm_pkcs.Login.Calls.{try_}
use nethsm_pkcs.Db.{Object}

abbrev pub encrypt_block_size : ℕ
encrypt_block_size = 16

pub record EncryptCtx : Type 0 where
  pub mechanism : Mechanism
  pub key_id : String
  pub buffer : List ℕ
  pub login_ctx : LoginCtx

unfoldable pub init : Mechanism → Object → LoginCtx → Result Error EncryptCtx
init mechanism key login_ctx =
    if can_run_mode login_ctx UserMode.operator
    then elim (to_api_mech mechanism encrypt) [
      | none ↦ err (invalid_mechanism_mode encrypt mechanism)
      | some api_mech ↦
          if has_mechanism api_mech key.mechanisms
          then ok (record {
            mechanism = mechanism;
            key_id = key.id;
            buffer = [];
            login_ctx = login_ctx;
          })
          else err (invalid_mechanism (key.id, key.kind) mechanism)
    ]
    else err (not_logged_in UserMode.operator)

unfoldable pub add_data : List ℕ → EncryptCtx → EncryptCtx
add_data bytes c = record c { buffer = c.buffer ++ bytes }

unfoldable pub get_biggest_chunk_len : EncryptCtx → ℕ
get_biggest_chunk_len c = length c.buffer / encrypt_block_size * encrypt_block_size

-- The `map_err` of `encrypt_data`.
unfoldable pub encrypt_error : ApiError → Error
encrypt_error (ApiError.response_error resp) =
    if resp.status == 400
    then if is_some (find? resp.content "argument length")
      then invalid_data_length
      else invalid_data
    else api (ApiError.response_error resp)
encrypt_error e = api e

module _ {W : Type 0} (x : Service W) where
  -- `Base64::decode_vec`, with `?`.
  abbrev pub decoded : String → Result Error (List ℕ)
  decoded s = elim (x.base64_decode s) [ none ↦ err base64 | some bytes ↦ ok bytes ]

  abbrev pub iv_text : Option (List ℕ) → Option String
  iv_text none = none
  iv_text (some iv) = some (x.base64_encode iv)

  -- The login context is the caller's clone: what `try_` does to it is lost.
  unfoldable pub encrypt_data :
      String → LoginCtx → List ℕ → Mechanism → W → Run (Result Error (List ℕ) × W)
  unfolding encrypt_error
  encrypt_data key_id login_ctx bytes mechanism w = elim (encrypt_name mechanism) [
    | none ↦ returns (err (invalid_mechanism_mode encrypt mechanism), w)
    | some mode ↦ do
      (output, login_ctx', w') ←
          try_ x
            (x.keys_key_id_encrypt_post key_id (record {
              mode = mode;
              message = x.base64_encode bytes;
              iv = iv_text (iv_of mechanism);
            }))
            UserMode.operator login_ctx w
      returns (elim output [ ok s ↦ decoded s | err e ↦ err (encrypt_error e) ], w')
  ]

  -- The chunk leaves the buffer before it is sent.
  unfoldable pub encrypt_available_data :
      EncryptCtx → W → Run (Result Error (List ℕ) × EncryptCtx × W)
  unfolding get_biggest_chunk_len
  encrypt_available_data c w =
      let chunk_size = get_biggest_chunk_len c in
      if chunk_size == 0 then returns (ok [], c, w) else do
        (output, w') ← encrypt_data c.key_id c.login_ctx (take chunk_size c.buffer) c.mechanism w
        returns (output, record c { buffer = drop chunk_size c.buffer }, w')

  unfoldable pub encrypt_final : EncryptCtx → W → Run (Result Error (List ℕ) × W)
  encrypt_final c w = encrypt_data c.key_id c.login_ctx c.buffer c.mechanism w
