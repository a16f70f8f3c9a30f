-- ===== src/Mechanism/Sizes.antt =====
-- Sizes in bytes of keys, inputs and signatures (backend/mechanism.rs, `key_size` of backend/key.rs).
use nethsm_pkcs.Common.{ℕ, ◌*◌, ◌/◌, Option, none, some, unwrap_or, ◌==◌, if◌then◌else◌}
use nethsm_pkcs.Mechanism.{
  Mechanism, rsa_pkcs, rsa_pkcs_pss, KeyType, ec_p224, ec_p256, ec_p384, ec_p521, curve25519,
}

abbrev rsa_max_key_bits : ℕ
rsa_max_key_bits = 8192

abbrev ec_max_key_bits : ℕ
ec_max_key_bits = 521

abbrev ed_max_key_bits : ℕ
ed_max_key_bits = 256

unfoldable pub key_size : KeyType → Option ℕ
key_size ec_p224 = some (224 / 8)
key_size ec_p256 = some (256 / 8)
key_size ec_p384 = some (384 / 8)
key_size ec_p521 = some (521 / 8)
key_size curve25519 = some (255 / 8)
key_size t = none

unfoldable pub get_key_size : Mechanism → Option ℕ → ℕ
get_key_size (rsa_pkcs digest) size = unwrap_or size (rsa_max_key_bits / 8)
get_key_size (rsa_pkcs_pss digest pre_hash) size = unwrap_or size (rsa_max_key_bits / 8)
get_key_size (Mechanism.ecdsa digest) size =
    let s = unwrap_or size (ec_max_key_bits / 8) in if s == 65 then 66 else s
get_key_size Mechanism.ed_dsa size = unwrap_or size (ed_max_key_bits / 8)
get_key_size m size = rsa_max_key_bits / 8

unfoldable pub get_input_size : Mechanism → Option ℕ → ℕ
get_input_size (rsa_pkcs digest) size = unwrap_or size (rsa_max_key_bits / 8)
get_input_size (rsa_pkcs_pss digest pre_hash) size = unwrap_or size (rsa_max_key_bits / 8)
get_input_size (Mechanism.ecdsa digest) size =
    let s = unwrap_or size (ec_max_key_bits / 8) in if s == 65 then 64 else s
get_input_size Mechanism.ed_dsa size = unwrap_or size (ed_max_key_bits / 8)
get_input_size m size = rsa_max_key_bits / 8

unfoldable pub get_signature_size : Mechanism → Option ℕ → ℕ
unfolding get_key_size
get_signature_size (Mechanism.ecdsa digest) size = get_key_size (Mechanism.ecdsa digest) size * 2
get_signature_size Mechanism.ed_dsa size = get_key_size Mechanism.ed_dsa size * 2
get_signature_size m size = get_key_size m size
