-- ===== src/Api/Generation.antt =====
-- C_GenerateKey, C_GenerateKeyPair and C_GenerateRandom (pkcs11/src/api/generation.rs).
use nethsm_pkcs.Common.{
  ℕ, Bool, true, false, Option, none, some, List, [], ◌∷◌, Result, ok, err, take, ltb, ◌==◌,
  if◌then◌else◌,
}
use nethsm_pkcs.Constants
use nethsm_pkcs.Errors.{UserMode, Error}
use nethsm_pkcs.Mechanism.{Mechanism}
use nethsm_pkcs.Mechanism.Raw.{CkRawMechanism, from_ckraw_mech}
use nethsm_pkcs.Service.Keys.{KeyService}
use nethsm_pkcs.Login.{Run, returns, ◌>>=◌, can_run_mode}
use nethsm_pkcs.Login.Calls.{try_}
use nethsm_pkcs.Db.Attributes.{CkRawAttr}
use nethsm_pkcs.Keys.Fetch.{Entries}
use nethsm_pkcs.Session.Changes.{generate_key}
use nethsm_pkcs.Api.{Globals, Reply, just, sized, Handler, lock_session, CacheHandler, lock_cache}

-- The handle of the first key is written.
unfoldable pub generated_reply : Result Error Entries → Reply
generated_reply (err e) = just Constants.ckr_function_failed
generated_reply (ok []) = just Constants.ckr_function_failed
generated_reply (ok (key ∷ keys)) = sized Constants.ckr_ok key.0

-- The reply's `bytes` are the handles that are written: the public key's and the private key's.
unfoldable pub pair_reply : Result Error Entries → Reply
pair_reply (ok (first ∷ second ∷ keys)) = record {
  rv = Constants.ckr_ok;
  written = none;
  bytes = first.0 ∷ second.0 ∷ [];
}
pair_reply _ = just Constants.ckr_function_failed

module _ {W : Type 0} (k : KeyService W) where
  unfoldable pub generate_handler :
      List CkRawAttr
      → Option (List CkRawAttr)
      → Mechanism
      → (Result Error Entries → Reply)
      → CacheHandler W
  unfolding generate_key
  generate_handler template public_template mech reply s db w = do
    (result, db', w') ← generate_key k template public_template mech s db w
    returns (reply result, s, db', w')

  -- `phKey` says whether the pointer is there.
  unfoldable pub c_generate_key :
      ℕ
      → Option CkRawMechanism
      → Option (List CkRawAttr)
      → Bool
      → Globals
      → W
      → Run (Reply × Globals × W)
  unfolding lock_cache generate_handler generated_reply
  c_generate_key hSession mechanism template false g w =
      returns (just Constants.ckr_arguments_bad, g, w)
  c_generate_key hSession none template true g w = returns (just Constants.ckr_arguments_bad, g, w)
  c_generate_key hSession (some raw) template true g w = elim (from_ckraw_mech raw) [
    | err e ↦ returns (just Constants.ckr_mechanism_invalid, g, w)
    | ok mech ↦ elim template [
      | none ↦ returns (just Constants.ckr_arguments_bad, g, w)
      | some attrs ↦ lock_cache hSession (generate_handler attrs none mech generated_reply) g w
    ]
  ]

  unfoldable pub generate_pair :
      ℕ
      → Mechanism
      → Option (List CkRawAttr)
      → Option (List CkRawAttr)
      → Globals
      → W
      → Run (Reply × Globals × W)
  unfolding lock_cache generate_handler pair_reply
  generate_pair hSession mech (some public_template) (some private_template) g w =
      lock_cache hSession (generate_handler private_template (some public_template) mech pair_reply)
        g w
  generate_pair hSession mech _ _ g w = returns (just Constants.ckr_arguments_bad, g, w)

  -- The two tests say whether the pointers to the handles are there.
  unfoldable pub c_generate_key_pair :
      ℕ
      → Option CkRawMechanism
      → Option (List CkRawAttr)
      → Option (List CkRawAttr)
      → Bool
      → Bool
      → Globals
      → W
      → Run (Reply × Globals × W)
  unfolding generate_pair
  c_generate_key_pair hSession (some raw) public_template private_template true true g w =
      elim (from_ckraw_mech raw) [
        | err e ↦ returns (just Constants.ckr_mechanism_invalid, g, w)
        | ok mech ↦ generate_pair hSession mech public_template private_template g w
      ]
  c_generate_key_pair hSession _ _ _ _ _ g w = returns (just Constants.ckr_arguments_bad, g, w)

  -- The copy takes `ulRandomLen` bytes; behind a shorter vector the source reads beyond it.
  unfoldable pub random_reply : ℕ → Option (List ℕ) → Reply
  random_reply ulRandomLen none = just Constants.ckr_function_failed
  random_reply ulRandomLen (some raw_data) = record {
    rv = Constants.ckr_ok;
    written = none;
    bytes = take ulRandomLen raw_data;
  }

  unfoldable pub random_handler : ℕ → Handler W
  unfolding can_run_mode try_ random_reply
  random_handler ulRandomLen s w =
      if can_run_mode s.login_ctx UserMode.operator
      then (do
        (response, c, w') ←
            try_ k.service (k.random_post ulRandomLen) UserMode.operator s.login_ctx w
        elim response [
          | err e ↦ returns (just Constants.ckr_function_failed, record s { login_ctx = c }, w')
          | ok random ↦ returns (
            random_reply ulRandomLen (k.service.base64_decode random),
            record s { login_ctx = c },
            w',
          )
        ])
      else returns (just Constants.ckr_user_not_logged_in, s, w)

  -- `RandomData` says whether the pointer is there.
  unfoldable pub c_generate_random : ℕ → Bool → ℕ → Globals → W → Run (Reply × Globals × W)
  unfolding lock_session random_handler
  c_generate_random hSession false ulRandomLen g w =
      returns (just Constants.ckr_arguments_bad, g, w)
  c_generate_random hSession true ulRandomLen g w =
      if ulRandomLen == 0
      then returns (just Constants.ckr_ok, g, w)
      else if ltb 1024 ulRandomLen
      then returns (just Constants.ckr_arguments_bad, g, w)
      else lock_session hSession (random_handler ulRandomLen) g w
