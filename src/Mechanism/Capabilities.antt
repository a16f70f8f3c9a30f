-- ===== src/Mechanism/Capabilities.antt =====
-- What a mechanism can do: the names of the API, the flags and the lists (backend/mechanism.rs).
use nethsm_pkcs.Common.{
  ℕ, bit_and, Bool, true, false, not, none, some, List, [], ◌∷◌, ◌≡◌, refl, ◌⊎◌, arith, is_some,
  ◌==◌,
}
use nethsm_pkcs.Constants
use nethsm_pkcs.Mechanism.{
  MechDigest, md5, sha1, sha224, sha256, sha384, sha512, Mechanism, rsa_pkcs, rsa_pkcs_oaep,
  rsa_pkcs_pss, rsa_x509, generate_generic, generate_aes, generate_rsa, generate_ec, generate_ed,
  MechMode, sign, encrypt, decrypt, KeyMechanism,
}
use nethsm_pkcs.Mechanism.Api.{
  from_key_mechanism, get_all_possible_api_mechs, to_api_mech, sign_name, encrypt_name,
  decrypt_name,
}
use nethsm_pkcs.Mechanism.Info.{ck_flags}

-- A mechanism has a name for a use exactly when it has an API mechanism for it.
pub names_agree :
    (m : Mechanism)
    → (is_some (sign_name m) ≡ is_some (to_api_mech m sign))
      × (is_some (encrypt_name m) ≡ is_some (to_api_mech m encrypt))
      × (is_some (decrypt_name m) ≡ is_some (to_api_mech m decrypt))
unfolding sign_name encrypt_name decrypt_name to_api_mech
names_agree m = ground arith

-- The use that a key mechanism of the API stands for.
abbrev pub mode_of : KeyMechanism → MechMode
mode_of KeyMechanism.aes_encryption_cbc = encrypt
mode_of KeyMechanism.ecdsa_signature = sign
mode_of KeyMechanism.ed_dsa_signature = sign
mode_of KeyMechanism.rsa_signature_pss_md5 = sign
mode_of KeyMechanism.rsa_signature_pss_sha1 = sign
mode_of KeyMechanism.rsa_signature_pss_sha224 = sign
mode_of KeyMechanism.rsa_signature_pss_sha256 = sign
mode_of KeyMechanism.rsa_signature_pss_sha384 = sign
mode_of KeyMechanism.rsa_signature_pss_sha512 = sign
mode_of KeyMechanism.rsa_signature_pkcs1 = sign
mode_of k = decrypt

-- A key mechanism of the API, read as a mechanism and translated back in its own mode, is itself.
pub to_api_mech-from_key_mechanism :
    (k : KeyMechanism) → to_api_mech (from_key_mechanism k) (mode_of k) ≡ some k
unfolding to_api_mech from_key_mechanism
to_api_mech-from_key_mechanism k = ground arith

abbrev pub has : ℕ → Mechanism → Bool
has flag m = not (bit_and (ck_flags m) flag == 0)

-- The mechanisms for which the flags are right: neither a generator nor OAEP.
abbrev pub is_plain : Mechanism → Bool
is_plain (rsa_pkcs_oaep digest) = false
is_plain generate_generic = false
is_plain generate_aes = false
is_plain generate_rsa = false
is_plain generate_ec = false
is_plain generate_ed = false
is_plain m = true

-- Of a mechanism that is neither a generator nor OAEP the flags CKF_SIGN, CKF_ENCRYPT and
-- CKF_DECRYPT are set exactly when it can sign, encrypt and decrypt.
pub flags_of_plain :
    (m : Mechanism)
    → is_plain m ≡ true
    → (has Constants.ckf_sign m ≡ is_some (to_api_mech m sign))
      × (has Constants.ckf_encrypt m ≡ is_some (to_api_mech m encrypt))
      × (has Constants.ckf_decrypt m ≡ is_some (to_api_mech m decrypt))
unfolding ck_flags to_api_mech
flags_of_plain (Mechanism.aes_cbc iv) h = (refl, refl, refl)
flags_of_plain (rsa_pkcs digest) h = (refl, refl, refl)
flags_of_plain (rsa_pkcs_oaep digest) h = cc
flags_of_plain (rsa_pkcs_pss md5 p) h = (refl, refl, refl)
flags_of_plain (rsa_pkcs_pss sha1 p) h = (refl, refl, refl)
flags_of_plain (rsa_pkcs_pss sha224 p) h = (refl, refl, refl)
flags_of_plain (rsa_pkcs_pss sha256 p) h = (refl, refl, refl)
flags_of_plain (rsa_pkcs_pss sha384 p) h = (refl, refl, refl)
flags_of_plain (rsa_pkcs_pss sha512 p) h = (refl, refl, refl)
flags_of_plain rsa_x509 h = (refl, refl, refl)
flags_of_plain Mechanism.ed_dsa h = (refl, refl, refl)
flags_of_plain (Mechanism.ecdsa digest) h = (refl, refl, refl)
flags_of_plain _ h = cc

-- OAEP is announced as a signing mechanism and not as a decrypting one, and is the opposite.
pub oaep_flags_reversed :
    (d : MechDigest)
    → (has Constants.ckf_sign (rsa_pkcs_oaep d) ≡ true)
      × (has Constants.ckf_decrypt (rsa_pkcs_oaep d) ≡ false)
      × (to_api_mech (rsa_pkcs_oaep d) sign ≡ none)
      × (is_some (to_api_mech (rsa_pkcs_oaep d) decrypt) ≡ true)
unfolding ck_flags to_api_mech
oaep_flags_reversed md5 = (refl, refl, refl, refl)
oaep_flags_reversed sha1 = (refl, refl, refl, refl)
oaep_flags_reversed sha224 = (refl, refl, refl, refl)
oaep_flags_reversed sha256 = (refl, refl, refl, refl)
oaep_flags_reversed sha384 = (refl, refl, refl, refl)
oaep_flags_reversed sha512 = (refl, refl, refl, refl)

abbrev pub Among : KeyMechanism → List KeyMechanism → Type 0
Among k [] = ⊥
Among k (j ∷ js) = (k ≡ j) ⊎ Among k js

-- What a mechanism is translated to, in any mode, is among the mechanisms that a key generated for
-- it gets.
pub generated_keys_allow :
    (m : Mechanism) (mode : MechMode) (k : KeyMechanism)
    → to_api_mech m mode ≡ some k
    → Among k (get_all_possible_api_mechs m)
unfolding to_api_mech get_all_possible_api_mechs
generated_keys_allow m mode k h = ground arith
