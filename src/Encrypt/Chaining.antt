-- ===== src/Encrypt/Chaining.antt =====
-- The initialization vector of an encryption in parts (backend/encrypt.rs).
use mathlib.Core.List.{append-nil}
use nethsm_pkcs.Common.{
  ℕ, zero, suc, ◌*◌, ◌/◌, ◌%◌, ◌<◌, ◌≡◌, refl, false, ap, List, [], ◌∷◌, ◌++◌, ok, length, take,
  drop, ◌==◌, arith,
}
use nethsm_pkcs.Service.{Service}
use nethsm_pkcs.Login.{returns}
use nethsm_pkcs.Encrypt.{EncryptCtx, add_data, encrypt_data, encrypt_available_data}
use nethsm_pkcs.Encrypt.Stream.{encrypt_parts}

take_all : (n : ℕ) (xs : List ℕ) → n ≡ length xs → take n xs ≡ xs
take_all zero [] e = refl
take_all zero (x ∷ xs) e = absurd (omega arith)
take_all (suc n) [] e = absurd (omega arith)
take_all (suc n) (x ∷ xs) e = ap (◌∷◌ x) (take_all n xs (omega arith))

drop_all : (n : ℕ) (xs : List ℕ) → n ≡ length xs → drop n xs ≡ []
drop_all zero [] e = refl
drop_all zero (x ∷ xs) e = absurd (omega arith)
drop_all (suc n) [] e = absurd (omega arith)
drop_all (suc n) (x ∷ xs) e = drop_all n xs (omega arith)

module _ {W : Type 0} (x : Service W) where
  whole_blocks :
      (c : EncryptCtx) (w : W) (out : List ℕ)
      → 0 < length c.buffer
      → length c.buffer % 16 ≡ 0
      → encrypt_data x c.key_id c.login_ctx c.buffer c.mechanism w ≡ returns (ok out, w)
      → encrypt_available_data x c w ≡ returns (ok out, record c { buffer = [] }, w)
  unfolding encrypt_available_data
  whole_blocks c w out p m e =
      let n : ℕ = length c.buffer / 16 * 16 in
      let q : (n == 0) ≡ false = ground arith in
      rw (q, take_all n c.buffer (omega arith), drop_all n c.buffer (omega arith), e)

  -- From an empty buffer, a part of whole blocks that is encrypted twice in a row gives the same
  -- output twice, where its encryption succeeds and leaves the world as it was.
  pub equal_parts_equal_outputs :
      (part out : List ℕ) (c : EncryptCtx) (w : W)
      → c.buffer ≡ []
      → 0 < length part
      → length part % 16 ≡ 0
      → encrypt_data x c.key_id c.login_ctx part c.mechanism w ≡ returns (ok out, w)
      → encrypt_parts x (part ∷ part ∷ []) c w
        ≡ returns (ok (out ++ out), record c { buffer = [] }, w)
  unfolding encrypt_parts add_data
  equal_parts_equal_outputs part out c w b p m e = rw (
    b,
    whole_blocks (record c { buffer = part }) w out p m e,
    whole_blocks (record c { buffer = part }) w out p m e,
    append-nil,
  )
