-- ===== src/Session/Ciphertext.antt =====
-- Ciphertext in several parts (`decrypt_update` and `decrypt_final` of backend/session.rs).
use nethsm_pkcs.Common.{
  ℕ, ◌≡◌, refl, sym, ◌∙◌, ap, Option, none, some, List, [], ◌∷◌, ◌++◌, arith, Option-cases, inl,
  inr,
}
use nethsm_pkcs.Service.{Service}
use nethsm_pkcs.Decrypt
use nethsm_pkcs.Decrypt.{DecryptCtx}
use nethsm_pkcs.Session.{Session}
use nethsm_pkcs.Session.Decrypting.{decrypt_update, decrypt_final, decrypt}
use nethsm_pkcs.Session.Parts.{joined, append_nil, append_assoc}

-- The session after C_DecryptUpdate of each part.
abbrev pub decrypt_updates : List (List ℕ) → Session → Session
decrypt_updates [] s = s
decrypt_updates (part ∷ parts) s = decrypt_updates parts (decrypt_update part s).1

with_ciphertext : Session → DecryptCtx → List ℕ → Session
with_ciphertext s c bytes = record s { decrypt_ctx = some (record c { buffer = bytes }) }

decrypt_update_lem :
    (part bytes : List ℕ) (s : Session) (c : DecryptCtx)
    → (decrypt_update part (with_ciphertext s c bytes)).1 ≡ with_ciphertext s c (bytes ++ part)
unfolding decrypt_update with_ciphertext Decrypt.update
decrypt_update_lem part bytes s c = refl

decrypt_updates_lem :
    (parts : List (List ℕ)) (bytes : List ℕ) (s : Session) (c : DecryptCtx)
    → decrypt_updates parts (with_ciphertext s c bytes)
      ≡ with_ciphertext s c (bytes ++ joined parts)
decrypt_updates_lem [] bytes s c = ap (with_ciphertext s c) (sym (append_nil bytes))
decrypt_updates_lem (part ∷ parts) bytes s c =
    ap (decrypt_updates parts) (decrypt_update_lem part bytes s c)
    ∙ decrypt_updates_lem parts (bytes ++ part) s c
    ∙ ap (with_ciphertext s c) (append_assoc bytes part (joined parts))

with_ciphertext_eta :
    (s : Session) (c : DecryptCtx) → s.decrypt_ctx ≡ some c → s ≡ with_ciphertext s c c.buffer
unfolding with_ciphertext
with_ciphertext_eta s c e = ap (λ (o : Option DecryptCtx). record s { decrypt_ctx = o }) e

-- What the updates of a session come to: nothing without an operation, one update with it.
decrypt_updates-none :
    (parts : List (List ℕ)) (s : Session) → s.decrypt_ctx ≡ none → decrypt_updates parts s ≡ s
unfolding decrypt_update
decrypt_updates-none [] s e = refl
decrypt_updates-none (part ∷ parts) s e =
    ap (decrypt_updates parts) (rw e refl) ∙ decrypt_updates-none parts s e

decrypt_updates-some :
    (parts : List (List ℕ)) (s : Session) (c : DecryptCtx)
    → s.decrypt_ctx ≡ some c
    → decrypt_updates parts s ≡ (decrypt_update (joined parts) s).1
decrypt_updates-some parts s c e =
    ap (decrypt_updates parts) (with_ciphertext_eta s c e)
    ∙ decrypt_updates_lem parts c.buffer s c
    ∙ sym (decrypt_update_lem (joined parts) c.buffer s c)
    ∙ ap (λ t. (decrypt_update (joined parts) t).1) (sym (with_ciphertext_eta s c e))

module _ {W : Type 0} (x : Service W) where
  -- Decrypting data in parts is decrypting it at once: the text, the session after it, the calls of the
  -- NetHSM and their errors are those of one call with the parts joined, with an operation or without.
  pub decrypt_in_parts :
      (parts : List (List ℕ)) (s : Session) (w : W)
      → decrypt_final x (decrypt_updates parts s) w ≡ decrypt x (joined parts) s w
  unfolding decrypt
  decrypt_in_parts parts s w = elim (Option-cases s.decrypt_ctx) [
    | inl e ↦ ap (λ t. decrypt_final x t w) (decrypt_updates-none parts s e) ∙ ground arith
    | inr (c, e) ↦ ap (λ t. decrypt_final x t w) (decrypt_updates-some parts s c e) ∙ ground arith
  ]
