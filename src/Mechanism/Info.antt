-- ===== src/Mechanism/Info.antt =====
-- What the module says of its mechanisms: the flags (backend/mechanism.rs) and MECHANISM_LIST (defs.rs).
use nethsm_pkcs.Common.{
  ℕ, bit_or, true, false, Option, none, some, List, [], ◌∷◌, ◌==◌, if◌then◌else◌,
}
use nethsm_pkcs.Constants
use nethsm_pkcs.Mechanism.{
  md5, sha1, sha224, sha256, sha384, sha512, Mechanism, rsa_pkcs, rsa_pkcs_oaep, rsa_pkcs_pss,
  rsa_x509, generate_generic, generate_aes, generate_rsa, generate_ec, generate_ed,
}
use nethsm_pkcs.Mechanism.Raw.{ck_type}

abbrev ec_flags : ℕ
ec_flags =
    bit_or
      (bit_or (bit_or (bit_or Constants.ckf_sign Constants.ckf_ec_f_p) Constants.ckf_ec_namedcurve)
        Constants.ckf_ec_uncompress)
      Constants.ckf_generate_key_pair

-- What `ck_flags` adds to CKF_HW.
mode_flags : Mechanism → ℕ
mode_flags generate_generic =
    bit_or (bit_or Constants.ckf_generate Constants.ckf_generate_key_pair) Constants.ckf_derive
mode_flags (Mechanism.aes_cbc iv) =
    bit_or (bit_or Constants.ckf_encrypt Constants.ckf_decrypt) Constants.ckf_generate
mode_flags generate_aes =
    bit_or (bit_or Constants.ckf_encrypt Constants.ckf_decrypt) Constants.ckf_generate
mode_flags (rsa_pkcs digest) =
    bit_or (bit_or Constants.ckf_sign Constants.ckf_decrypt) Constants.ckf_generate_key_pair
mode_flags generate_rsa =
    bit_or (bit_or Constants.ckf_sign Constants.ckf_decrypt) Constants.ckf_generate_key_pair
mode_flags (rsa_pkcs_pss digest pre_hash) = Constants.ckf_sign
mode_flags rsa_x509 = Constants.ckf_decrypt
mode_flags (Mechanism.ecdsa digest) = ec_flags
mode_flags generate_ec = ec_flags
mode_flags (rsa_pkcs_oaep digest) = Constants.ckf_sign
mode_flags Mechanism.ed_dsa = bit_or Constants.ckf_sign Constants.ckf_generate_key_pair
mode_flags generate_ed = bit_or Constants.ckf_sign Constants.ckf_generate_key_pair

unfoldable pub ck_flags : Mechanism → ℕ
unfolding mode_flags
ck_flags m = bit_or Constants.ckf_hw (mode_flags m)

-- MECHANISM_LIST of defs.rs.
abbrev pub mechanism_list : List Mechanism
mechanism_list =
    Mechanism.aes_cbc none
    ∷ rsa_x509
    ∷ rsa_pkcs none
    ∷ rsa_pkcs (some sha1)
    ∷ rsa_pkcs (some sha224)
    ∷ rsa_pkcs (some sha256)
    ∷ rsa_pkcs (some sha384)
    ∷ rsa_pkcs (some sha512)
    ∷ rsa_pkcs_pss md5 false
    ∷ rsa_pkcs_pss sha1 true
    ∷ rsa_pkcs_pss sha224 true
    ∷ rsa_pkcs_pss sha256 true
    ∷ rsa_pkcs_pss sha384 true
    ∷ rsa_pkcs_pss sha512 true
    ∷ rsa_pkcs_oaep md5
    ∷ Mechanism.ed_dsa
    ∷ Mechanism.ecdsa none
    ∷ Mechanism.ecdsa (some sha1)
    ∷ Mechanism.ecdsa (some sha224)
    ∷ Mechanism.ecdsa (some sha256)
    ∷ Mechanism.ecdsa (some sha384)
    ∷ Mechanism.ecdsa (some sha512)
    ∷ generate_aes
    ∷ generate_rsa
    ∷ generate_ec
    ∷ generate_ed
    ∷ generate_generic
    ∷ []

-- `MECHANISM_LIST.iter().find(|m| m.ck_type() == type_)` of C_GetMechanismInfo.
unfoldable pub find_mechanism : ℕ → List Mechanism → Option Mechanism
unfolding ck_type
find_mechanism type_ [] = none
find_mechanism type_ (m ∷ ms) = if ck_type m == type_ then some m else find_mechanism type_ ms
