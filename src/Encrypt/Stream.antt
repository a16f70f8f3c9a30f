-- ===== src/Encrypt/Stream.antt =====
-- Encryption in parts: what is sent, what stays in the buffer, and how long the outputs are.
use nethsm_pkcs.Common.{
  ℕ, zero, suc, ◌-◌, ◌*◌, ◌/◌, ◌%◌, ◌≤◌, ◌≡◌, refl, sym, ◌∙◌, ap, true, List, [], ◌∷◌, ◌++◌, Result,
  ok, err, length, take, drop, length-drop, ◌==◌, arith, Bool-cases, inl, inr,
}
use nethsm_pkcs.Errors.{Error}
use nethsm_pkcs.Service.{Service}
use nethsm_pkcs.Login.{Run, returns, panics, runs_out, ◌>>=◌}
use nethsm_pkcs.Encrypt.{
  EncryptCtx, add_data, get_biggest_chunk_len, encrypt_data, encrypt_available_data,
}

-- The largest multiple of the block size that the buffer holds.
pub chunk_lem :
    (c : EncryptCtx)
    → (get_biggest_chunk_len c % 16 ≡ 0)
      × (get_biggest_chunk_len c ≤ length c.buffer)
      × (length c.buffer - get_biggest_chunk_len c ≡ length c.buffer % 16)
unfolding get_biggest_chunk_len
chunk_lem c = omega arith

-- The buffer after `drain(..chunk_size)`.
abbrev pub rest_of : EncryptCtx → List ℕ
rest_of c = drop (length c.buffer / 16 * 16) c.buffer

pub length-rest_of : (c : EncryptCtx) → length (rest_of c) ≡ length c.buffer % 16
length-rest_of c = omega (arith, length-drop (length c.buffer / 16 * 16) c.buffer)

pub drop_zero : (n : ℕ) (bytes : List ℕ) → (n == 0) ≡ true → drop n bytes ≡ bytes
drop_zero zero bytes h = refl
drop_zero (suc n) bytes h = absurd (ground arith)

module _ {W : Type 0} (x : Service W) where
  drained :
      (c c' : EncryptCtx) (bytes : List ℕ) (w' : W) (r : Result Error (List ℕ))
      (m : Run (Result Error (List ℕ) × W))
      → ◌>>=◌ {B = Result Error (List ℕ) × EncryptCtx × W} m
          (λ (output, w''). returns (output, record c { buffer = bytes }, w''))
        ≡ returns (r, c', w')
      → c' ≡ record c { buffer = bytes }
  drained c c' bytes w' r (returns (o, w)) h = cc
  drained c c' bytes w' r panics h = cc
  drained c c' bytes w' r runs_out h = cc

  -- Whatever the NetHSM answers, `encrypt_available_data` leaves in the buffer the last bytes that fill
  -- no block, fewer than 16, and changes nothing else of the context.
  pub rest_of_available :
      (c c' : EncryptCtx) (w w' : W) (r : Result Error (List ℕ))
      → encrypt_available_data x c w ≡ returns (r, c', w')
      → (c' ≡ record c { buffer = rest_of c }) × (length c'.buffer ≡ length c.buffer % 16)
  unfolding encrypt_available_data
  rest_of_available c c' w w' r h = elim (Bool-cases (length c.buffer / 16 * 16 == 0)) [
    | inl z ↦
        let same : c ≡ c' = ground (arith, h) in
        let e : c' ≡ record c { buffer = rest_of c } =
          sym same ∙ ap (λ (b : List ℕ). record c { buffer = b }) (sym (drop_zero _ c.buffer z)) in
        (e, ap (λ (k : EncryptCtx). length k.buffer) e ∙ length-rest_of c)
    | inr p ↦
        let e : c' ≡ record c { buffer = rest_of c } =
          drained c c' (rest_of c) w' r
            (encrypt_data x c.key_id c.login_ctx (take (length c.buffer / 16 * 16) c.buffer)
              c.mechanism w)
            (rw p at h) in
        (e, ap (λ (k : EncryptCtx). length k.buffer) e ∙ length-rest_of c)
  ]

  -- What a caller does who encrypts in parts: `encrypt_update` for each part, the outputs in a row.
  unfoldable pub encrypt_parts :
      List (List ℕ) → EncryptCtx → W → Run (Result Error (List ℕ) × EncryptCtx × W)
  encrypt_parts [] c w = returns (ok [], c, w)
  encrypt_parts (part ∷ parts) c w = do
    (first, c', w') ← encrypt_available_data x (add_data part c) w
    elim first [
      | err e ↦ returns (err e, c', w')
      | ok out ↦ do
        (others, c'', w'') ← encrypt_parts parts c' w'
        returns (elim others [ ok outs ↦ ok (out ++ outs) | err e ↦ err e ], c'', w'')
    ]
