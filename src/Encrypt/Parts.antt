-- ===== src/Encrypt/Parts.antt =====
-- Encryption in parts against a NetHSM that encrypts whole blocks (backend/encrypt.rs).
use mathlib.Core.List.{append_assoc, append-nil}
use nethsm_pkcs.Common.{
  ℕ, ◌+◌, ◌*◌, ◌/◌, ◌%◌, ◌≡◌, ◌≢◌, ◌⊎◌, is_some, refl, sym, ◌∙◌, ap, String, true, some, List, [],
  ◌∷◌, ◌++◌, Result, ok, err, length, take, length-append, length-take, take-append-drop, ◌==◌,
  arith, Bool-cases, inl, inr,
}
use text.Mathlib.Text.{find?}
use nethsm_pkcs.Errors.{UserMode, Error, invalid_data_length}
use nethsm_pkcs.Service.{Configuration, Service, EncryptRequestData, response_error}
use nethsm_pkcs.Mechanism.{EncryptMode}
use nethsm_pkcs.Mechanism.Api.{encrypt_name}
use nethsm_pkcs.Mechanism.Raw.{iv_of}
use nethsm_pkcs.Login.{Run, returns, can_run_mode}
use nethsm_pkcs.Login.State.{nonempty, can_run_mode-Ready}
use nethsm_pkcs.Login.Answered.{try_ok, try_fatal}
use nethsm_pkcs.Login.Calls.{verdict, to_api_error}
use nethsm_pkcs.Encrypt.{
  EncryptCtx, add_data, encrypt_data, encrypt_available_data, encrypt_final, decoded, iv_text,
  encrypt_error,
}
use nethsm_pkcs.Encrypt.Stream.{rest_of, length-rest_of, drop_zero, encrypt_parts}

-- A NetHSM that encrypts messages of whole blocks and refuses others, as it does for AES-CBC (features.md):
-- `sent` are the bytes that it has encrypted so far, and its output has the length of its input. Its
-- refusal has the status 400 and a text on the argument's length. Base64 decodes what it encodes.
pub record Receives {W : Type 0} (x : Service W) (sent : W → List ℕ) : Type 0 where
  pub base64_round : (d : List ℕ) → x.base64_decode (x.base64_encode d) ≡ some d
  pub accepts :
      (id : String) (req : EncryptRequestData) (k : Configuration) (w : W) (d : List ℕ)
      → x.base64_decode req.message ≡ some d
      → length d % 16 ≡ 0
      → (s : String) × (w' : W) × (out : List ℕ) × (x.keys_key_id_encrypt_post id req k w
          ≡ (ok s, w'))
        × (x.base64_decode s ≡ some out)
        × (length out ≡ length d)
        × (sent w' ≡ sent w ++ d)
  pub refuses :
      (id : String) (req : EncryptRequestData) (k : Configuration) (w : W) (d : List ℕ)
      → x.base64_decode req.message ≡ some d
      → length d % 16 ≢ 0
      → (content : List ℕ) × (text : String) × (w' : W) × (x.keys_key_id_encrypt_post id req k w
          ≡ (err (response_error 400 content), w'))
        × (x.from_utf8 content ≡ some text)
        × (is_some (find? text "argument length") ≡ true)
        × (sent w' ≡ sent w)

-- The context can encrypt: its mechanism has an API name and there is an operator to call as. What
-- `init` has checked.
pub record IsReady (c : EncryptCtx) : Type 0 where
  pub mode : EncryptMode
  pub named : encrypt_name c.mechanism ≡ some mode
  pub runs : can_run_mode c.login_ctx UserMode.operator ≡ true

module _ {W : Type 0} (x : Service W) (sent : W → List ℕ) (recv : Receives x sent) where
  abbrev pub Sends : W → List ℕ → Run (Result Error (List ℕ) × W) → Type 0
  Sends w bytes r =
      (out : List ℕ) × (w' : W) × (r ≡ returns (ok out, w'))
      × (sent w' ≡ sent w ++ bytes)
      × (length out ≡ length bytes)

  encrypt_data-Sends :
      (c : EncryptCtx) (bytes : List ℕ) (w : W)
      → IsReady c
      → length bytes % 16 ≡ 0
      → Sends w bytes (encrypt_data x c.key_id c.login_ctx bytes c.mechanism w)
  unfolding encrypt_data
  encrypt_data-Sends c bytes w ready z =
      let (k, ctx, e) = can_run_mode-Ready c.login_ctx UserMode.operator ready.runs in
      let req : EncryptRequestData = record {
        mode = ready.mode;
        message = x.base64_encode bytes;
        iv = iv_text x (iv_of c.mechanism);
      } in
      let (s, w', out, p, d, l, t) =
        recv.accepts c.key_id req k w bytes (recv.base64_round bytes) z in
      (
        out,
        w',
        rw (ready.named, encrypt_data)
            (rw
              (try_ok x (x.keys_key_id_encrypt_post c.key_id req) UserMode.operator c.login_ctx ctx
                k w w' s (nonempty c.login_ctx UserMode.operator ready.runs) e p)
              (rw (d, decoded))),
        t,
        l,
      )

  encrypt_data_refused :
      (c : EncryptCtx) (bytes : List ℕ) (w : W)
      → IsReady c
      → length bytes % 16 ≢ 0
      → (w' : W) × (encrypt_data x c.key_id c.login_ctx bytes c.mechanism w
          ≡ returns (err invalid_data_length, w'))
        × (sent w' ≡ sent w)
  unfolding encrypt_data encrypt_error verdict to_api_error
  encrypt_data_refused c bytes w ready z =
      let (k, ctx, e) = can_run_mode-Ready c.login_ctx UserMode.operator ready.runs in
      let req : EncryptRequestData = record {
        mode = ready.mode;
        message = x.base64_encode bytes;
        iv = iv_text x (iv_of c.mechanism);
      } in
      let (content, text, w', p, u, f, t) =
        recv.refuses c.key_id req k w bytes (recv.base64_round bytes) z in
      (
        w',
        rw (ready.named, encrypt_data)
            (rw
              (try_fatal x (x.keys_key_id_encrypt_post c.key_id req) UserMode.operator c.login_ctx
                ctx k w w' (response_error 400 content)
                (nonempty c.login_ctx UserMode.operator ready.runs) e p refl)
              (rw (u, f) refl)),
        t,
      )

  abbrev pub Drains : EncryptCtx → W → Run (Result Error (List ℕ) × EncryptCtx × W) → Type 0
  Drains c w r =
      (out : List ℕ) × (w' : W) × (r ≡ returns (ok out, record c { buffer = rest_of c }, w'))
      × (sent w' ++ rest_of c ≡ sent w ++ c.buffer)
      × (length out ≡ length c.buffer / 16 * 16)

  available-Drains :
      (c : EncryptCtx) (w : W) → IsReady c → Drains c w (encrypt_available_data x c w)
  unfolding encrypt_available_data
  available-Drains c w ready = elim (Bool-cases (length c.buffer / 16 * 16 == 0)) [
    | inl z ↦
        let e : rest_of c ≡ c.buffer = drop_zero _ c.buffer z in
        ([], w, rw (z, e), ap (◌++◌ (sent w)) e, ground arith)
    | inr p ↦
        let n : ℕ = length c.buffer / 16 * 16 in
        let (out, w', e, s, l) =
          encrypt_data-Sends c (take n c.buffer) w ready (omega (arith, length-take n c.buffer)) in
        (
          out,
          w',
          rw (p, e),
          ap (λ (b : List ℕ). b ++ rest_of c) s
              ∙ append_assoc (sent w) (take n c.buffer) (rest_of c)
              ∙ ap (◌++◌ (sent w)) (take-append-drop n c.buffer),
          omega (arith, l, length-take n c.buffer),
        )
  ]

  abbrev pub joined : List (List ℕ) → List ℕ
  joined [] = []
  joined (part ∷ parts) = part ++ joined parts

  abbrev pub Streams :
      List (List ℕ) → EncryptCtx → W → Run (Result Error (List ℕ) × EncryptCtx × W) → Type 0
  Streams parts c w r =
      (outs : List ℕ) × (bytes : List ℕ) × (w' : W) × (r
        ≡ returns (ok outs, record c { buffer = bytes }, w'))
      × (sent w' ++ bytes ≡ sent w ++ c.buffer ++ joined parts)
      × (length outs + length bytes ≡ length c.buffer + length (joined parts))
      × (length bytes % 16 ≡ (length c.buffer + length (joined parts)) % 16)

  -- Against a NetHSM that encrypts whole blocks, encrypting in parts succeeds; what was sent followed by what is left
  -- in the buffer is what was sent before followed by the buffer and the parts, in order; and the
  -- outputs are as long as what was sent.
  pub encrypt_parts-Streams :
      (parts : List (List ℕ)) (c : EncryptCtx) (w : W)
      → IsReady c
      → Streams parts c w (encrypt_parts x parts c w)
  unfolding encrypt_parts add_data
  encrypt_parts-Streams [] c w ready =
      ([], c.buffer, w, refl, sym (append-nil _), omega arith, omega arith)
  encrypt_parts-Streams (part ∷ parts) c w ready =
      let c1 : EncryptCtx = add_data part c in
      let keep : (bytes : List ℕ) → IsReady (record c { buffer = bytes }) =
        λ bytes. record { mode = ready.mode; named = ready.named; runs = ready.runs } in
      let (out, w1, e, s, l) = available-Drains c1 w (keep (c.buffer ++ part)) in
      let (outs, bytes, w2, f, t, m, q) =
        encrypt_parts-Streams parts (record c { buffer = rest_of c1 }) w1 (keep (rest_of c1)) in
      (
        out ++ outs,
        bytes,
        w2,
        rw e (rw f),
        t ∙ ap (λ (b : List ℕ). b ++ joined parts) s ∙ simp append_assoc,
        omega (
          arith,
          l,
          m,
          length-rest_of c1,
          length-append out outs,
          length-append c.buffer part,
          length-append part (joined parts),
        ),
        omega (
          arith,
          q,
          length-rest_of c1,
          length-append c.buffer part,
          length-append part (joined parts),
        ),
      )

  keep : (bytes : List ℕ) (c : EncryptCtx) → IsReady c → IsReady (record c { buffer = bytes })
  keep bytes c ready = record { mode = ready.mode; named = ready.named; runs = ready.runs }

  -- What encrypting the parts and finishing do where all bytes together fill whole blocks, and where
  -- they do not.
  abbrev pub Finishes : List (List ℕ) → EncryptCtx → W → Type 0
  Finishes parts c w =
      (outs : List ℕ) × (last : List ℕ) × (c' : EncryptCtx) × (w' : W) × (w'' : W) × (encrypt_parts
          x parts c w
        ≡ returns (ok outs, c', w'))
      × (encrypt_final x c' w' ≡ returns (ok last, w''))
      × (sent w'' ≡ sent w ++ c.buffer ++ joined parts)
      × (length outs + length last ≡ length c.buffer + length (joined parts))

  abbrev pub IsRefused : List (List ℕ) → EncryptCtx → W → Type 0
  IsRefused parts c w =
      (outs : List ℕ) × (c' : EncryptCtx) × (w' : W) × (w'' : W) × (encrypt_parts x parts c w
        ≡ returns (ok outs, c', w'))
      × (encrypt_final x c' w' ≡ returns (err invalid_data_length, w''))
      × (sent w'' ≡ sent w')
      × (sent w'' ++ c'.buffer ≡ sent w ++ c.buffer ++ joined parts)

  whole_blocks_finish :
      (parts : List (List ℕ)) (c : EncryptCtx) (w : W)
      → IsReady c
      → (length c.buffer + length (joined parts)) % 16 ≡ 0
      → Finishes parts c w
  unfolding encrypt_final
  whole_blocks_finish parts c w ready z =
      let (outs, bytes, w', e, s, l, q) = encrypt_parts-Streams parts c w ready in
      let c' : EncryptCtx = record c { buffer = bytes } in
      let (last, w'', f, t, m) =
        encrypt_data-Sends c' bytes w' (keep bytes c ready) (omega (arith, q, z)) in
      (outs, last, c', w', w'', e, f, t ∙ s, omega (arith, l, m))

  incomplete_block-IsRefused :
      (parts : List (List ℕ)) (c : EncryptCtx) (w : W)
      → IsReady c
      → (length c.buffer + length (joined parts)) % 16 ≢ 0
      → IsRefused parts c w
  unfolding encrypt_final
  incomplete_block-IsRefused parts c w ready z =
      let (outs, bytes, w', e, s, l, q) = encrypt_parts-Streams parts c w ready in
      let c' : EncryptCtx = record c { buffer = bytes } in
      let (w'', f, t) =
        encrypt_data_refused c' bytes w' (keep bytes c ready) (λ y. z (sym q ∙ y)) in
      (outs, c', w', w'', e, f, t, ap (λ (b : List ℕ). b ++ bytes) t ∙ s)

  -- Against a NetHSM that encrypts messages of whole blocks and refuses others, with a context that can
  -- encrypt, encrypting the parts succeeds. Where the buffer and the parts together fill whole blocks,
  -- `encrypt_final` succeeds too, every byte of the buffer and of the parts is sent once and in order,
  -- and the outputs together are as long as the input. Where they do not, `encrypt_final` fails with
  -- InvalidDataLength and nothing more is encrypted; what was encrypted, followed by the buffer that is
  -- left, is what was encrypted before followed by the buffer and the parts, in order.
  pub parts_and_final :
      (parts : List (List ℕ)) (c : EncryptCtx) (w : W)
      → IsReady c
      → (((length c.buffer + length (joined parts)) % 16 ≡ 0) × Finishes parts c w)
        ⊎ (((length c.buffer + length (joined parts)) % 16 ≢ 0) × IsRefused parts c w)
  parts_and_final parts c w ready =
      elim (Bool-cases ((length c.buffer + length (joined parts)) % 16 == 0)) [
        | inl y ↦
            let z : (length c.buffer + length (joined parts)) % 16 ≡ 0 = ground (arith, y) in
            inl (z, whole_blocks_finish parts c w ready z)
        | inr n ↦
            let z : (length c.buffer + length (joined parts)) % 16 ≢ 0 = ground (arith, n) in
            inr (z, incomplete_block-IsRefused parts c w ready z)
      ]
