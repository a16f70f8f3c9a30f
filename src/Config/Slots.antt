-- ===== src/Config/Slots.antt =====
-- The device that the configuration sets up (`slot_from_config` and `initialize_with_configs` of
-- pkcs11/src/config/initialization.rs). The loggers and the reading of the files are left out.
use nethsm_pkcs.Common.{
  ℕ, ◌+◌, String, Option, none, some, List, [], ◌∷◌, map, Result, ok, err, ok_or, ◌>>=◌,
}
use nethsm_pkcs.Service.{Configuration}
use nethsm_pkcs.Login.{UserConfig}
use nethsm_pkcs.Session.{Slot}
use nethsm_pkcs.Config.{
  InstanceConfig, SlotConfig, P11Config, ConfigError, InitializationError, config, no_user, Crates,
  Agent, Device, merge_configurations, agents_of,
}

-- DEFAULT_USER_AGENT.
abbrev pub default_user_agent : String
default_user_agent = "pkcs11-rs/0.1.0"

-- `or` of the two users.
unfoldable pub default_user : SlotConfig → Option UserConfig
default_user s = elim s.operator [ some user ↦ some user | none ↦ s.administrator ]

unfoldable pub api_config : UserConfig → InstanceConfig → Configuration
api_config user i = record {
  base_path = i.url;
  basic_auth = some (user.username, user.password);
  user_agent = some default_user_agent;
}

-- `db` is the reference of a cache of its own.
unfoldable pub slot_of : ℕ → SlotConfig → UserConfig → Slot
unfolding api_config
slot_of db s user = record {
  label = s.label;
  retries = s.retries;
  description = s.description;
  instances = map (api_config user) s.instances;
  operator = s.operator;
  administrator = s.administrator;
  db = db;
}

module _ (c : Crates) where
  unfoldable pub slot_from_config : ℕ → SlotConfig → Result InitializationError (Slot × List Agent)
  unfolding default_user agents_of slot_of
  slot_from_config db s = ok_or (default_user s) (no_user s.label) >>= (λ user.
      agents_of c s.timeout_seconds s.instances >>= (λ agents. ok (slot_of db s user, agents)))

  unfoldable pub slots_from :
      ℕ → List SlotConfig → Result InitializationError (List (Slot × List Agent))
  unfolding slot_from_config
  slots_from db [] = ok []
  slots_from db (s ∷ configs) =
      slot_from_config db s
      >>= (λ slot. slots_from (db + 1) configs >>= (λ slots. ok (slot ∷ slots)))

  device_of : P11Config → Result InitializationError Device
  unfolding slots_from
  device_of conf = slots_from 0 conf.slots >>= (λ made. ok (record {
    slots = map (λ (s : Slot × List Agent). s.0) made;
    agents = map (λ (s : Slot × List Agent). s.1) made;
    enable_set_attribute_value = conf.enable_set_attribute_value;
  }))

  -- `files` are the contents of the files that were read.
  unfoldable pub initialize_with_configs :
      Result ConfigError (List (List ℕ)) → Result InitializationError Device
  unfolding merge_configurations device_of
  initialize_with_configs (err e) = err (config e)
  initialize_with_configs (ok files) = elim (merge_configurations c files) [
    | err e ↦ err (config e)
    | ok conf ↦ device_of conf
  ]
