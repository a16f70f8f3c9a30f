-- ===== src/Sign/Format.antt =====
-- The sizes of what a signing context sends and returns.
use nethsm_pkcs.Common.{
  ℕ, ◌+◌, ◌-◌, ◌*◌, ◌<◌, min, ◌≡◌, refl, String, true, Option, none, some, List, [], ◌∷◌, ◌++◌, ok,
  length, take, replicate, length-append, length-take, length-replicate, arith, Option-cases, inl,
  inr,
}
use nethsm_pkcs.Service.{Service}
use nethsm_pkcs.Mechanism.{
  MechDigest, Mechanism, KeyType, ec_p224, ec_p256, ec_p384, ec_p521, curve25519,
}
use nethsm_pkcs.Mechanism.Sizes.{key_size, get_key_size, get_input_size, get_signature_size}
use nethsm_pkcs.Sign.{
  SignCtx, fit, join, is_ecdsa, message_of, strip_der, output_of, get_theoretical_size,
}

-- A padded or truncated input has the size asked for.
pub length-fit : (size : ℕ) (bytes : List ℕ) → length (fit size bytes) ≡ size
unfolding fit
length-fit size bytes =
    let n = min (length bytes) size in
    omega (
      arith,
      length-append (replicate (size - n) 0) (take n bytes),
      length-replicate {A = ℕ} (size - n) 0,
      length-take n bytes,
    )

length-padded :
    (n m : ℕ) (r s : List ℕ)
    → length (replicate n 0 ++ r ++ replicate m 0 ++ s) ≡ n + length r + m + length s
length-padded n m r s = omega (
  arith,
  length-append (replicate n 0 ++ r ++ replicate m 0) s,
  length-append (replicate n 0 ++ r) (replicate m 0),
  length-append (replicate n 0) r,
  length-replicate {A = ℕ} n 0,
  length-replicate {A = ℕ} m 0,
)

pub length-join : (size : ℕ) (r s o : List ℕ) → join size r s ≡ ok o → length o ≡ size * 2
unfolding join
length-join size r s o h = ground (arith, length-padded (size - length r) (size - length s) r s)

signature_size :
    (c : SignCtx) (o : List ℕ)
    → is_ecdsa c.mechanism ≡ true
    → length o ≡ get_key_size c.mechanism c.key.size * 2
    → length o ≡ get_theoretical_size c
unfolding get_theoretical_size get_signature_size
signature_size c o h e = ground arith

-- The bytes that a coordinate of the curve takes, and 0 for what is no Weierstrass curve.
abbrev pub curve_bytes : KeyType → ℕ
curve_bytes ec_p224 = 28
curve_bytes ec_p256 = 32
curve_bytes ec_p384 = 48
curve_bytes ec_p521 = 66
curve_bytes _ = 0

-- For a key on a P curve, of the size that key_size gives its type, the size that an ECDSA context
-- announces is that of two coordinates.
pub ecdsa_announced_size :
    (t : KeyType) (digest : Option MechDigest) (c : SignCtx)
    → c.mechanism ≡ Mechanism.ecdsa digest
    → 0 < curve_bytes t
    → c.key.size ≡ key_size t
    → get_theoretical_size c ≡ 2 * curve_bytes t
unfolding get_theoretical_size get_signature_size get_key_size key_size
ecdsa_announced_size t digest c m p k = ground arith

-- For an EdDSA key of the size that key_size gives Curve25519, the announced size is two bytes less
-- than the 64 that an Ed25519 signature has.
pub ed_dsa_announced_size :
    (c : SignCtx)
    → c.mechanism ≡ Mechanism.ed_dsa
    → c.key.size ≡ key_size curve25519
    → get_theoretical_size c + 2 ≡ 64
unfolding get_theoretical_size get_signature_size get_key_size key_size
ed_dsa_announced_size c m k = ground arith

module _ {W : Type 0} (x : Service W) where
  length-stripped :
      (size : ℕ) (bytes o : List ℕ) (integers : Option (List (List ℕ)))
      → x.from_der bytes ≡ integers
      → strip_der x size bytes ≡ ok o
      → length o ≡ size * 2
  unfolding strip_der
  length-stripped size bytes o none e h = ground arith
  length-stripped size bytes o (some []) e h = ground arith
  length-stripped size bytes o (some (r ∷ [])) e h = ground arith
  length-stripped size bytes o (some (r ∷ s ∷ rest)) e h = length-join size r s o (ground arith)

  -- For ECDSA, whatever the length of the buffered data or of its digest, the message sent to be
  -- signed has the input size of the key.
  pub ecdsa_input_size :
      (c : SignCtx)
      → is_ecdsa c.mechanism ≡ true
      → length (message_of x c) ≡ get_input_size c.mechanism c.key.size
  unfolding message_of
  ecdsa_input_size c h = rw h (length-fit (get_input_size c.mechanism c.key.size) _)

  -- An ECDSA signature that is returned has the length that get_theoretical_size announces,
  -- whatever lengths the integers of the DER encoding have.
  pub ecdsa_output_size :
      (c : SignCtx) (signature : String) (o : List ℕ)
      → is_ecdsa c.mechanism ≡ true
      → output_of x c signature ≡ ok o
      → length o ≡ get_theoretical_size c
  unfolding output_of get_theoretical_size get_signature_size
  ecdsa_output_size c signature o h e = elim (Option-cases (x.base64_decode signature)) [
    | inl n ↦ ground arith
    | inr (bytes, f) ↦
        let size = get_key_size c.mechanism c.key.size in
        let l = length-stripped size bytes o (x.from_der bytes) refl (ground arith) in
        signature_size c o h l
  ]
