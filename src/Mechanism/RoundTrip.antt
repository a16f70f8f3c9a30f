-- ===== src/Mechanism/RoundTrip.antt =====
-- The translations of mechanisms against one another.
use nethsm_pkcs.Common.{
  ℕ, true, false, Option, none, some, ◌≡◌, refl, Arms, select_rule, Result, ok, err, ok_or, ◌>>=◌,
}
use nethsm_pkcs.Mechanism.{
  MechDigest, sha1, sha224, sha256, sha384, sha512, Mechanism, rsa_pkcs, rsa_pkcs_oaep,
  rsa_pkcs_pss, rsa_x509, generate_generic, generate_aes, generate_rsa, generate_ec, generate_ed,
}
use nethsm_pkcs.Mechanism.Raw.{
  CkRawMechanism, CkRawError, Error, from_ckraw_mech, ck_type, mech_arms, required, from_ck_mech,
}

-- A raw mechanism that is accepted is of the type that its translation has.
abbrev Typed : ℕ → Result Error Mechanism → Type 0
Typed k r = (m : Mechanism) → r ≡ ok m → ck_type m ≡ k

arm : (m : Mechanism) → Typed (ck_type m) (ok m)
arm m n e = cc

required_arm :
    {T : Type 0} (k : ℕ) (r : Result CkRawError (Option T)) (f : T → Result Error Mechanism)
    → ((t : T) → Typed k (f t))
    → Typed k (required r >>= f)
unfolding required
required_arm k (ok (some t)) f h m e = h t m e
required_arm k (ok none) f h m e = cc
required_arm k (err x) f h m e = cc

digest_arm :
    (k : ℕ) (o : Option MechDigest) (x : Error) (f : MechDigest → Mechanism)
    → ((d : MechDigest) → ck_type (f d) ≡ k)
    → Typed k (ok_or o x >>= λ d. ok (f d))
digest_arm k (some d) x f h m e = cc (h d)
digest_arm k none x f h m e = cc

mech_arms-Typed : (raw : CkRawMechanism) → Arms Typed (mech_arms raw)
unfolding ck_type
mech_arms-Typed raw = (
  arm generate_aes,
  (
    arm generate_rsa,
    (
      arm generate_ec,
      (
        arm generate_ed,
        (
          arm generate_generic,
          (
            required_arm _ _ _ (λ iv. arm (Mechanism.aes_cbc (some iv))),
            (
              arm (rsa_pkcs none),
              (
                arm (rsa_pkcs (some sha1)),
                (
                  arm (rsa_pkcs (some sha224)),
                  (
                    arm (rsa_pkcs (some sha256)),
                    (
                      arm (rsa_pkcs (some sha384)),
                      (
                        arm (rsa_pkcs (some sha512)),
                        (
                          required_arm _ _ _ (λ alg.
                              digest_arm _ (from_ck_mech alg) _ (λ d. rsa_pkcs_pss d false)
                                (λ d. refl)),
                          (
                            arm (rsa_pkcs_pss sha1 true),
                            (
                              arm (rsa_pkcs_pss sha224 true),
                              (
                                arm (rsa_pkcs_pss sha256 true),
                                (
                                  arm (rsa_pkcs_pss sha384 true),
                                  (
                                    arm (rsa_pkcs_pss sha512 true),
                                    (
                                      required_arm _ _ _ (λ alg.
                                          digest_arm _ (from_ck_mech alg) _ rsa_pkcs_oaep
                                            (λ d. refl)),
                                      (
                                        arm rsa_x509,
                                        (
                                          arm (Mechanism.ecdsa none),
                                          (
                                            arm (Mechanism.ecdsa (some sha1)),
                                            (
                                              arm (Mechanism.ecdsa (some sha224)),
                                              (
                                                arm (Mechanism.ecdsa (some sha256)),
                                                (
                                                  arm (Mechanism.ecdsa (some sha384)),
                                                  (
                                                    arm (Mechanism.ecdsa (some sha512)),
                                                    (arm Mechanism.ed_dsa, tt),
                                                  ),
                                                ),
                                              ),
                                            ),
                                          ),
                                        ),
                                      ),
                                    ),
                                  ),
                                ),
                              ),
                            ),
                          ),
                        ),
                      ),
                    ),
                  ),
                ),
              ),
            ),
          ),
        ),
      ),
    ),
  ),
)

-- Whatever raw mechanism is accepted, its translation is of the raw mechanism's type.
pub ck_type-from_ckraw_mech :
    (raw : CkRawMechanism) (m : Mechanism) → from_ckraw_mech raw ≡ ok m → ck_type m ≡ raw.mechanism
unfolding from_ckraw_mech
ck_type-from_ckraw_mech raw m h =
    select_rule Typed raw.mechanism (mech_arms raw) (err (Error.unknown_mech raw.mechanism))
      (mech_arms-Typed raw) (λ n e. cc) m h
