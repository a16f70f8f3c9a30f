-- ===== src/Sign.antt =====
-- The context of a signature (pkcs11/src/backend/sign.rs).
pub mod Format
use nethsm_pkcs.Common.{
  ℕ, ◌-◌, min, String, Bool, true, false, ◌||◌, Option, none, some, List, [], ◌∷◌, ◌++◌, Result, ok,
  err, length, take, get_elem?, replicate, ltb, if◌then◌else◌,
}
use nethsm_pkcs.Errors.{
  UserMode, Error, invalid_mechanism_mode, invalid_mechanism, not_logged_in, api, der, invalid_data,
}
use nethsm_pkcs.Service.{Service, SignRequestData}
use nethsm_pkcs.Mechanism.{MechDigest, md5, sha1, Mechanism, SignMode, sign}
use nethsm_pkcs.Mechanism.Api.{to_api_mech, sign_name}
use nethsm_pkcs.Mechanism.Raw.{internal_digest}
use nethsm_pkcs.Mechanism.Sizes.{get_key_size, get_input_size, get_signature_size}
use nethsm_pkcs.Mechanism.Keys.{has_mechanism}
use nethsm_pkcs.Login.{LoginCtx, Run, returns, panics, runs_out, ◌>>=◌, can_run_mode}
use nethsm_pkcs.Login.Calls.{try_}
use nethsm_pkcs.Db.{Object}
use nethsm_pkcs.Encrypt.{decoded}

pub record SignCtx : Type 0 where
  pub mechanism : Mechanism
  pub sign_name : SignMode
  pub key : Object
  pub buffer : List ℕ
  pub login_ctx : LoginCtx

unfoldable pub init : Mechanism → Object → LoginCtx → Result Error SignCtx
init mechanism key login_ctx =
    if can_run_mode login_ctx UserMode.operator
    then elim (sign_name mechanism) [
      | none ↦ err (invalid_mechanism_mode sign mechanism)
      | some name ↦ elim (to_api_mech mechanism sign) [
        | none ↦ err (invalid_mechanism_mode sign mechanism)
        | some api_mech ↦
            if has_mechanism api_mech key.mechanisms
            then ok (record {
              mechanism = mechanism;
              sign_name = name;
              key = key;
              buffer = [];
              login_ctx = login_ctx;
            })
            else err (invalid_mechanism (key.id, key.kind) mechanism)
      ]
    ]
    else err (not_logged_in UserMode.operator)

unfoldable pub update : List ℕ → SignCtx → SignCtx
update bytes c = record c { buffer = c.buffer ++ bytes }

unfoldable pub get_theoretical_size : SignCtx → ℕ
get_theoretical_size c = get_signature_size c.mechanism c.key.size

abbrev pub is_ecdsa : Mechanism → Bool
is_ecdsa (Mechanism.ecdsa digest) = true
is_ecdsa m = false

-- `out[(size - len)..size].copy_from_slice(&data[..len])` over zeros.
unfoldable pub fit : ℕ → List ℕ → List ℕ
fit size bytes = let len = min (length bytes) size in replicate (size - len) 0 ++ take len bytes

-- Two integers, each padded to `size`.
unfoldable pub join : ℕ → List ℕ → List ℕ → Result Error (List ℕ)
join size r s =
    if ltb size (length r) || ltb size (length s)
    then err invalid_data
    else ok (replicate (size - length r) 0 ++ r ++ replicate (size - length s) 0 ++ s)

module _ {W : Type 0} (x : Service W) where
  -- The hash functions by their digest; MD5 has none, and SHA-1 stands in for it.
  hasher : MechDigest → List ℕ → List ℕ
  hasher md5 bytes = x.hash sha1 bytes
  hasher digest bytes = x.hash digest bytes

  -- What is sent to be signed.
  unfoldable pub message_of : SignCtx → List ℕ
  unfolding hasher
  message_of c =
      let hashed : List ℕ = elim (internal_digest c.mechanism) [
        | none ↦ c.buffer
        | some digest ↦ hasher digest c.buffer
      ] in
      if is_ecdsa c.mechanism then fit (get_input_size c.mechanism c.key.size) hashed else hashed

  -- The DER encoding of an ECDSA signature is undone.
  unfoldable pub strip_der : ℕ → List ℕ → Result Error (List ℕ)
  strip_der size bytes = elim (x.from_der bytes) [
    | none ↦ err der
    | some [] ↦ err invalid_data
    | some (r ∷ []) ↦ err invalid_data
    | some (r ∷ s ∷ rest) ↦ join size r s
  ]

  unfoldable pub output_of : SignCtx → String → Result Error (List ℕ)
  unfolding strip_der
  output_of c signature = elim (decoded x signature) [
    | err e ↦ err e
    | ok bytes ↦
        if is_ecdsa c.mechanism
        then strip_der (get_key_size c.mechanism c.key.size) bytes
        else ok bytes
  ]

  -- The login context is a clone: what `try_` does to it is lost.
  unfoldable pub sign_final : SignCtx → W → Run (Result Error (List ℕ) × W)
  unfolding message_of output_of
  sign_final c w = do
    (signature, login_ctx, w') ←
        try_ x
          (x.keys_key_id_sign_post c.key.id
            (record { mode = c.sign_name; message = x.base64_encode (message_of c) }))
          UserMode.operator c.login_ctx w
    returns (elim signature [ ok s ↦ output_of c s | err e ↦ err (api e) ], w')
