-- ===== src/Tests/Settings.antt =====
-- Concrete configurations, slots and texts.
use nethsm_pkcs.Common.{
  ℕ, ◌≡◌, ◌↔◌, refl, true, false, ◌&&◌, none, some, List, [], ◌∷◌, ltb, if◌then◌else◌, length,
}
use nethsm_pkcs.Constants
use nethsm_pkcs.Login.{returns, panics}
use nethsm_pkcs.Config.{InstanceConfig, Crates, Agent, fingerprints, verify_server_cert, agent_of}
use nethsm_pkcs.Config.Trust.{Trusted, agent_of-Trusted}
use nethsm_pkcs.Api.{sized}
use nethsm_pkcs.Api.Tokens.{c_get_slot_list}
use nethsm_pkcs.Api.Lists.{listed, slot_list_asked}
use nethsm_pkcs.Api.Versions.{parse_u8}
use nethsm_pkcs.Api.Texts.{all_digits, decimal, parse_u8-decimal}
use nethsm_pkcs.Api.Library.{Library, fresh_events, c_initialize}
use nethsm_pkcs.Api.Initializing.{initialize_again_panics}
use nethsm_pkcs.Tests.World.{slot}
use nethsm_pkcs.Tests.KeyWorld.{device, empty_globals}

abbrev crates : Crates
crates = record {
  from_slice = λ b. some (record { enable_set_attribute_value = false; slots = [] });
  overwrite_false = λ a b. a;
  append = λ a b. a;
  hex_decode = λ s. some [];
  env_var = λ s. none;
  sha256 = λ b. b;
  native_certs = some 1;
  verify_native = λ b. true;
  available_parallelism = none;
}

abbrev pinned : InstanceConfig
pinned = record {
  url = "a";
  danger_insecure_cert = false;
  sha256_fingerprints = (1 ∷ 2 ∷ []) ∷ [];
  max_idle_connections = none;
}

abbrev pinning : Agent
pinning = record {
  verifier = fingerprints ((1 ∷ 2 ∷ []) ∷ []);
  max_idle_connections = 100;
  timeout_seconds = none;
}

agent_of-Trusted_example :
    (verify_server_cert crates pinning.verifier (3 ∷ []) ≡ true) ↔ Trusted crates pinned (3 ∷ [])
unfolding agent_of
agent_of-Trusted_example = agent_of-Trusted crates none pinned pinning (3 ∷ []) refl

slot_list_asked_example :
    (c_get_slot_list false (some 0) empty_globals ≡ sized Constants.ckr_ok (length (slot ∷ [])))
    × (c_get_slot_list true (some 0) empty_globals ≡ (
        if ltb 0 (length (slot ∷ []))
        then sized Constants.ckr_buffer_too_small (length (slot ∷ []))
        else listed (length (slot ∷ []))))
slot_list_asked_example = slot_list_asked empty_globals (slot ∷ []) 0 refl

abbrev digits : List ℕ
digits = 50 ∷ 53 ∷ 53 ∷ []

parse_u8-decimal_example :
    parse_u8 digits
    ≡ (if all_digits digits && ltb (decimal 0 digits) 256 then some (decimal 0 digits) else none)
parse_u8-decimal_example = parse_u8-decimal digits

abbrev loaded : Library
loaded = record {
  init_called = false;
  device = none;
  threads_allowed = true;
  events = fresh_events;
}

initialize_again_panics_example :
    (c_initialize device none none loaded []
      ≡ returns (Constants.ckr_function_failed, record loaded { init_called = true }, []))
    × (c_initialize device (some []) none (record loaded { init_called = true }) [] ≡ panics)
initialize_again_panics_example =
    initialize_again_panics device loaded none none (some []) [] [] refl refl
