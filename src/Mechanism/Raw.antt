-- ===== src/Mechanism/Raw.antt =====
-- Raw mechanisms of PKCS#11 and their translation (backend/mechanism.rs).
use nethsm_pkcs.Common.{
  ℕ, ◌+◌, ◌*◌, true, false, Option, none, some, List, [], ◌∷◌, take, select, Result, ok, err, ◌>>=◌,
  ok_or, ◌==◌, if◌then◌else◌,
}
use nethsm_pkcs.Constants
use nethsm_pkcs.Mechanism.{
  MechDigest, md5, sha1, sha224, sha256, sha384, sha512, Mechanism, rsa_pkcs, rsa_pkcs_oaep,
  rsa_pkcs_pss, rsa_x509, generate_generic, generate_aes, generate_rsa, generate_ec, generate_ed,
}

-- The memory behind a `CK_MECHANISM`: `p_parameter` is `none` for a null pointer, and otherwise the
-- bytes there, at least `parameter_len` of them.
pub record CkRawMechanism : Type 0 where
  pub mechanism : ℕ
  pub p_parameter : Option (List ℕ)
  pub parameter_len : ℕ

pub data CkRawError : Type 0 where
  mech_param_type_mismatch null_ptr_deref : CkRawError

pub data Error : Type 0 where
  ck_raw : CkRawError → Error
  unknown_mech unknown_digest : ℕ → Error

-- `size_of::<T>()` and the reading of a `T` are the arguments.
pub params : {T : Type 0} → ℕ → (List ℕ → T) → CkRawMechanism → Result CkRawError (Option T)
params size read raw = elim raw.p_parameter [
  | none ↦ ok none
  | some bytes ↦
      if raw.parameter_len == 0
      then ok none
      else if size == raw.parameter_len
      then ok (some (read bytes))
      else err mech_param_type_mismatch
]

-- The first `CK_ULONG` of a structure, in the little-endian order of the 64-bit targets: `hashAlg`
-- of `CK_RSA_PKCS_PSS_PARAMS` (24 bytes) and of `CK_RSA_PKCS_OAEP_PARAMS` (40 bytes).
unfoldable pub le_value : List ℕ → ℕ
le_value [] = 0
le_value (b ∷ bytes) = b + 256 * le_value bytes

abbrev pub hash_alg : List ℕ → ℕ
hash_alg bytes = le_value (take 8 bytes)

abbrev pub digest_arms : List (ℕ × Option MechDigest)
digest_arms =
    (Constants.ckm_md5, some md5)
    ∷ (Constants.ckm_sha_1, some sha1)
    ∷ (Constants.ckm_sha224, some sha224)
    ∷ (Constants.ckm_sha256, some sha256)
    ∷ (Constants.ckm_sha384, some sha384)
    ∷ (Constants.ckm_sha512, some sha512)
    ∷ []

pub from_ck_mech : ℕ → Option MechDigest
unfolding select
from_ck_mech mech = select mech digest_arms none

-- `params::<T>().map_err(Error::CkRaw)?` and `.ok_or(Error::CkRaw(NullPtrDeref))?`.
unfoldable pub required : {T : Type 0} → Result CkRawError (Option T) → Result Error T
required (ok (some t)) = ok t
required (ok none) = err (ck_raw null_ptr_deref)
required (err e) = err (ck_raw e)

-- The arms of the `match` in `from_ckraw_mech`.
abbrev pub mech_arms : CkRawMechanism → List (ℕ × Result Error Mechanism)
mech_arms raw =
    (Constants.ckm_aes_key_gen, ok generate_aes)
    ∷ (Constants.ckm_rsa_pkcs_key_pair_gen, ok generate_rsa)
    ∷ (Constants.ckm_ec_key_pair_gen, ok generate_ec)
    ∷ (Constants.ckm_ec_edwards_key_pair_gen, ok generate_ed)
    ∷ (Constants.ckm_generic_secret_key_gen, ok generate_generic)
    ∷ (
      Constants.ckm_aes_cbc,
      (do iv ← required (params 16 (take 16) raw); ok (Mechanism.aes_cbc (some iv))),
    )
    ∷ (Constants.ckm_rsa_pkcs, ok (rsa_pkcs none))
    ∷ (Constants.ckm_sha1_rsa_pkcs, ok (rsa_pkcs (some sha1)))
    ∷ (Constants.ckm_sha224_rsa_pkcs, ok (rsa_pkcs (some sha224)))
    ∷ (Constants.ckm_sha256_rsa_pkcs, ok (rsa_pkcs (some sha256)))
    ∷ (Constants.ckm_sha384_rsa_pkcs, ok (rsa_pkcs (some sha384)))
    ∷ (Constants.ckm_sha512_rsa_pkcs, ok (rsa_pkcs (some sha512)))
    ∷ (
      Constants.ckm_rsa_pkcs_pss,
      (do
        alg ← required (params 24 hash_alg raw)
        digest ← ok_or (from_ck_mech alg) (unknown_digest alg)
        ok (rsa_pkcs_pss digest false)),
    )
    ∷ (Constants.ckm_sha1_rsa_pkcs_pss, ok (rsa_pkcs_pss sha1 true))
    ∷ (Constants.ckm_sha224_rsa_pkcs_pss, ok (rsa_pkcs_pss sha224 true))
    ∷ (Constants.ckm_sha256_rsa_pkcs_pss, ok (rsa_pkcs_pss sha256 true))
    ∷ (Constants.ckm_sha384_rsa_pkcs_pss, ok (rsa_pkcs_pss sha384 true))
    ∷ (Constants.ckm_sha512_rsa_pkcs_pss, ok (rsa_pkcs_pss sha512 true))
    ∷ (
      Constants.ckm_rsa_pkcs_oaep,
      (do
        alg ← required (params 40 hash_alg raw)
        digest ← ok_or (from_ck_mech alg) (unknown_digest alg)
        ok (rsa_pkcs_oaep digest)),
    )
    ∷ (Constants.ckm_rsa_x_509, ok rsa_x509)
    ∷ (Constants.ckm_ecdsa, ok (Mechanism.ecdsa none))
    ∷ (Constants.ckm_ecdsa_sha1, ok (Mechanism.ecdsa (some sha1)))
    ∷ (Constants.ckm_ecdsa_sha224, ok (Mechanism.ecdsa (some sha224)))
    ∷ (Constants.ckm_ecdsa_sha256, ok (Mechanism.ecdsa (some sha256)))
    ∷ (Constants.ckm_ecdsa_sha384, ok (Mechanism.ecdsa (some sha384)))
    ∷ (Constants.ckm_ecdsa_sha512, ok (Mechanism.ecdsa (some sha512)))
    ∷ (Constants.ckm_eddsa, ok Mechanism.ed_dsa)
    ∷ []

unfoldable pub from_ckraw_mech : CkRawMechanism → Result Error Mechanism
unfolding select params required from_ck_mech le_value
from_ckraw_mech raw = select raw.mechanism (mech_arms raw) (err (unknown_mech raw.mechanism))

unfoldable pub ck_type : Mechanism → ℕ
ck_type (Mechanism.aes_cbc iv) = Constants.ckm_aes_cbc
ck_type (rsa_pkcs (some sha1)) = Constants.ckm_sha1_rsa_pkcs
ck_type (rsa_pkcs (some sha224)) = Constants.ckm_sha224_rsa_pkcs
ck_type (rsa_pkcs (some sha256)) = Constants.ckm_sha256_rsa_pkcs
ck_type (rsa_pkcs (some sha384)) = Constants.ckm_sha384_rsa_pkcs
ck_type (rsa_pkcs (some sha512)) = Constants.ckm_sha512_rsa_pkcs
ck_type (rsa_pkcs (some md5)) = Constants.ckm_rsa_pkcs
ck_type (rsa_pkcs none) = Constants.ckm_rsa_pkcs
ck_type (rsa_pkcs_pss sha1 true) = Constants.ckm_sha1_rsa_pkcs_pss
ck_type (rsa_pkcs_pss sha224 true) = Constants.ckm_sha224_rsa_pkcs_pss
ck_type (rsa_pkcs_pss sha256 true) = Constants.ckm_sha256_rsa_pkcs_pss
ck_type (rsa_pkcs_pss sha384 true) = Constants.ckm_sha384_rsa_pkcs_pss
ck_type (rsa_pkcs_pss sha512 true) = Constants.ckm_sha512_rsa_pkcs_pss
ck_type (rsa_pkcs_pss md5 true) = Constants.ckm_rsa_pkcs_pss
ck_type (rsa_pkcs_pss digest false) = Constants.ckm_rsa_pkcs_pss
ck_type (rsa_pkcs_oaep digest) = Constants.ckm_rsa_pkcs_oaep
ck_type rsa_x509 = Constants.ckm_rsa_x_509
ck_type (Mechanism.ecdsa none) = Constants.ckm_ecdsa
ck_type (Mechanism.ecdsa (some sha1)) = Constants.ckm_ecdsa_sha1
ck_type (Mechanism.ecdsa (some sha224)) = Constants.ckm_ecdsa_sha224
ck_type (Mechanism.ecdsa (some sha256)) = Constants.ckm_ecdsa_sha256
ck_type (Mechanism.ecdsa (some sha384)) = Constants.ckm_ecdsa_sha384
ck_type (Mechanism.ecdsa (some sha512)) = Constants.ckm_ecdsa_sha512
ck_type (Mechanism.ecdsa (some md5)) = Constants.ckm_ecdsa
ck_type Mechanism.ed_dsa = Constants.ckm_eddsa
ck_type generate_aes = Constants.ckm_aes_key_gen
ck_type generate_rsa = Constants.ckm_rsa_pkcs_key_pair_gen
ck_type generate_ec = Constants.ckm_ec_key_pair_gen
ck_type generate_ed = Constants.ckm_ec_edwards_key_pair_gen
ck_type generate_generic = Constants.ckm_generic_secret_key_gen

-- `internal_digest` and `iv`.
unfoldable pub internal_digest : Mechanism → Option MechDigest
internal_digest (rsa_pkcs digest) = digest
internal_digest (rsa_pkcs_pss digest true) = some digest
internal_digest (rsa_pkcs_pss digest false) = none
internal_digest (Mechanism.ecdsa digest) = digest
internal_digest m = none

unfoldable pub iv_of : Mechanism → Option (List ℕ)
iv_of (Mechanism.aes_cbc (some iv)) = some iv
iv_of m = none
