-- ===== src/Tests/KeyWorld.antt =====
-- A NetHSM with one P-256 key and its certificate for the tests of keys, and the device functions.
use nethsm_pkcs.Common.{ℕ, true, none, some, List, [], ◌∷◌, ok, replicate, ◌+◌, ◌<◌, arith}
use nethsm_pkcs.Mechanism.{KeyMechanism, KeyType}
use nethsm_pkcs.Service.Keys.{PublicKey, KeyService, secp_256_r_1}
use nethsm_pkcs.Login.{Run, returns}
use nethsm_pkcs.Db.{Db, u64_mod}
use nethsm_pkcs.Db
use nethsm_pkcs.Db.Validity.{IsValid, new-IsValid}
use nethsm_pkcs.Events.{SystemState}
use nethsm_pkcs.Api.{Globals}
use nethsm_pkcs.Api.Tokens.{DeviceService}
use nethsm_pkcs.Tests.World.{encode, quiet, slot, manager}

abbrev pub ec_key : PublicKey
ec_key = record {
  mechanisms = KeyMechanism.ecdsa_signature ∷ [];
  type_ = KeyType.ec_p256;
  public_ =
      some (record { modulus = none; public_exponent = none; data_ = some (encode (5 ∷ [])) });
}

abbrev pub keys : KeyService (List ℕ)
keys = record {
  service = quiet;
  now = λ w. 0;
  is_alphanumeric = λ c. true;
  to_utf8 = λ s. 107 ∷ [];
  hex_encode = λ b. "hex";
  octet_string_to_der = λ b. some (4 ∷ b);
  oid_to_der = λ o. some (6 ∷ []);
  oid_from_der = λ b. some secp_256_r_1;
  pem_encode = λ b. some b;
  certificate_from_pem =
      λ b. some (record { encoded = some b; subject = some []; issuer = some [] });
  keys_get = λ c w. (ok ("k" ∷ []), w);
  keys_post = λ key c w. (ok (some "/keys/k?a"), w);
  keys_generate_post = λ request c w. (ok (some "/keys/k?a"), w);
  keys_key_id_get = λ id c w. (ok ec_key, w);
  keys_key_id_put = λ id key c w. (ok tt, w);
  keys_key_id_delete = λ id c w. (ok tt, w);
  keys_key_id_cert_get = λ id c w. (ok (9 ∷ []), w);
  keys_key_id_cert_put = λ id b c w. (ok tt, w);
  keys_key_id_cert_delete = λ id c w. (ok tt, w);
  random_post = λ n c w. (ok (encode (replicate n 7)), w);
}

abbrev pub device : DeviceService (List ℕ)
device = record {
  service = quiet;
  to_utf8 = λ s. 107 ∷ [];
  info_get = λ c w. (ok (record { product = "p"; vendor = "v" }), w);
  health_state_get = λ c w. (ok SystemState.operational, w);
  system_info_get =
      λ c w. (ok (record { device_id = "d"; hardware_version = "1.2"; software_version = "3" }), w);
}

abbrev pub empty_globals : Globals
empty_globals = record {
  slots = some (slot ∷ []);
  enable_set_attribute_value = true;
  key_aliases = [];
  manager = manager;
  dbs = λ i. Db.new;
}

pub new_room : IsValid Db.new × Db.new.next_handle + 2 < u64_mod
unfolding Db.new
new_room = (new-IsValid, omega arith)

-- The parts of what a run returns, with a default.
abbrev pub value_of : {A : Type 0} → A → Run A → A
value_of d (returns a) = a
value_of d _ = d
