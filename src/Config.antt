-- ===== src/Config.antt =====
-- The configuration and the slots that it sets up (pkcs11/src/config/config_file.rs and
-- config/initialization.rs), without the fields for logging. The crates for YAML, hexadecimal text
-- and TLS, and the environment, are parameters.
pub mod Slots
pub mod Files
pub mod Trust
pub mod Merging
use Prim.Native.Char.{Char, code}
use Prim.Native.String
use nethsm_pkcs.Common.{
  ℕ, String, Bool, true, false, ◌&&◌, Option, none, some, List, [], ◌∷◌, ◌++◌, Result, ok, err,
  ok_or, ◌>>=◌, unwrap_or, is_some, ◌==◌, if◌then◌else◌,
}
use nethsm_pkcs.Service.{Configuration}
use nethsm_pkcs.Login.{UserConfig, RetryConfig}
use nethsm_pkcs.Session.{Slot}

pub record InstanceConfig : Type 0 where
  pub url : String
  pub danger_insecure_cert : Bool
  pub sha256_fingerprints : List (List ℕ)
  pub max_idle_connections : Option ℕ

pub record SlotConfig : Type 0 where
  pub label : String
  pub operator : Option UserConfig
  pub administrator : Option UserConfig
  pub description : Option String
  pub instances : List InstanceConfig
  pub retries : Option RetryConfig
  pub timeout_seconds : Option ℕ

pub record P11Config : Type 0 where
  pub enable_set_attribute_value : Bool
  pub slots : List SlotConfig

pub data ConfigError : Type 0 where
  io yaml no_config_file : ConfigError

pub data InitializationError : Type 0 where
  config : ConfigError → InitializationError
  no_certs : InitializationError
  no_user : String → InitializationError

-- `overwrite_false` and `append` are the strategies of the crate `merge` that the fields name;
-- `native_certs` is the number of native certificates that were added, where they could be loaded.
pub record Crates : Type 0 where
  pub from_slice : List ℕ → Option P11Config
  pub overwrite_false : Bool → Bool → Bool
  pub append : List SlotConfig → List SlotConfig → List SlotConfig
  pub hex_decode : String → Option (List ℕ)
  pub env_var : String → Option String
  pub sha256 : List ℕ → List ℕ
  pub native_certs : Option ℕ
  pub verify_native : List ℕ → Bool
  pub available_parallelism : Option ℕ

abbrev pub default : P11Config
default = record { enable_set_attribute_value = false; slots = [] }

-- `replace(':', "")`.
unfoldable pub without_colons : String → String
without_colons String.[] = String.[]
without_colons (String.◌∷◌ c s) =
    let rest = without_colons s in if code c == 58 then rest else String.◌∷◌ c rest

abbrev pub is_env : Char → Char → Char → Char → Bool
is_env c d e f = code c == 101 && code d == 110 && code e == 118 && code f == 58

unfoldable pub starts_with_env : String → Bool
starts_with_env (String.◌∷◌ c (String.◌∷◌ d (String.◌∷◌ e (String.◌∷◌ f s)))) = is_env c d e f
starts_with_env _ = false

-- `trim_start_matches` removes the prefix as often as it stands there.
unfoldable pub trim_start_env : String → String
trim_start_env (String.◌∷◌ c (String.◌∷◌ d (String.◌∷◌ e (String.◌∷◌ f s)))) =
    let rest = trim_start_env s in
    if is_env c d e f then rest else String.◌∷◌ c (String.◌∷◌ d (String.◌∷◌ e (String.◌∷◌ f s)))
trim_start_env s = s

abbrev is_empty : String → Bool
is_empty String.[] = true
is_empty (String.◌∷◌ c s) = false

-- How a TLS connection checks the certificate of the NetHSM.
pub data Verifier : Type 0 where
  ignore native : Verifier
  fingerprints : List (List ℕ) → Verifier

-- What the agent of an instance is built with.
pub record Agent : Type 0 where
  pub verifier : Verifier
  pub max_idle_connections : ℕ
  pub timeout_seconds : Option ℕ

pub record Device : Type 0 where
  pub slots : List Slot
  pub agents : List (List Agent)
  pub enable_set_attribute_value : Bool

unfoldable pub same_bytes : List ℕ → List ℕ → Bool
same_bytes [] [] = true
same_bytes (a ∷ as_) (b ∷ bs) = a == b && same_bytes as_ bs
same_bytes _ _ = false

unfoldable pub is_listed : List ℕ → List (List ℕ) → Bool
unfolding same_bytes
is_listed result [] = false
is_listed result (fingerprint ∷ more) =
    if same_bytes fingerprint result then true else is_listed result more

module _ (c : Crates) where
  -- `visit_str` of HexFingerprint.
  unfoldable pub fingerprint_from : String → Option (List ℕ)
  unfolding without_colons
  fingerprint_from v = c.hex_decode (without_colons v)

  -- `none` where the deserialization fails, since the variable is not set.
  unfoldable pub deserialize_password : Option String → Option (Option String)
  unfolding starts_with_env trim_start_env
  deserialize_password none = some none
  deserialize_password (some s) =
      if starts_with_env s
      then elim (c.env_var (trim_start_env s)) [ none ↦ none | some val ↦ some (some val) ]
      else (if is_empty s then some none else some (some s))

  unfoldable pub merge : P11Config → P11Config → P11Config
  merge conf parsed = record {
    enable_set_attribute_value =
        c.overwrite_false conf.enable_set_attribute_value parsed.enable_set_attribute_value;
    slots = c.append conf.slots parsed.slots;
  }

  unfoldable pub merge_from : List (List ℕ) → P11Config → Result ConfigError P11Config
  unfolding merge
  merge_from [] conf = ok conf
  merge_from (file ∷ files) conf =
      ok_or (c.from_slice file) yaml >>= (λ parsed. merge_from files (merge conf parsed))

  unfoldable pub merge_configurations : List (List ℕ) → Result ConfigError P11Config
  unfolding merge_from
  merge_configurations [] = err no_config_file
  merge_configurations (file ∷ files) = merge_from (file ∷ files) default

  -- `verify_server_cert` of the verifier.
  unfoldable pub verify_server_cert : Verifier → List ℕ → Bool
  unfolding is_listed
  verify_server_cert ignore end_entity = true
  verify_server_cert native end_entity = c.verify_native end_entity
  verify_server_cert (fingerprints prints) end_entity = is_listed (c.sha256 end_entity) prints

  unfoldable pub verifier_of : InstanceConfig → Result InitializationError Verifier
  verifier_of i = if i.danger_insecure_cert then ok ignore else elim i.sha256_fingerprints [
    | print ∷ prints ↦ ok (fingerprints (print ∷ prints))
    | [] ↦ elim c.native_certs [
      | none ↦ err no_certs
      | some added ↦ if added == 0 then err no_certs else ok native
    ]
  ]

  unfoldable pub agent_of : Option ℕ → InstanceConfig → Result InitializationError Agent
  unfolding verifier_of
  agent_of timeout_seconds i = verifier_of i >>= (λ verifier. ok (record {
    verifier = verifier;
    max_idle_connections = unwrap_or i.max_idle_connections (unwrap_or c.available_parallelism 100);
    timeout_seconds = timeout_seconds;
  }))

  unfoldable pub agents_of :
      Option ℕ → List InstanceConfig → Result InitializationError (List Agent)
  unfolding agent_of
  agents_of timeout_seconds [] = ok []
  agents_of timeout_seconds (i ∷ instances) =
      agent_of timeout_seconds i
      >>= (λ agent. agents_of timeout_seconds instances >>= (λ agents. ok (agent ∷ agents)))
