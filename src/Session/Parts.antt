-- ===== src/Session/Parts.antt =====
-- Data in several parts (`*_update` and `*_final` of backend/session.rs).
use nethsm_pkcs.Common.{
  ℕ, ◌≡◌, refl, sym, ◌∙◌, ap, Option, none, some, List, [], ◌∷◌, ◌++◌, Result, arith, Option-cases,
  inl, inr,
}
use nethsm_pkcs.Service.{Service}
use nethsm_pkcs.Errors.{Error}
use nethsm_pkcs.Login.{Run, returns, ◌>>=◌}
use nethsm_pkcs.Sign
use nethsm_pkcs.Sign.{SignCtx}
use nethsm_pkcs.Session.{Session}
use nethsm_pkcs.Session.Signing.{sign_update, sign_final, sign}

abbrev pub joined : List (List ℕ) → List ℕ
joined [] = []
joined (part ∷ parts) = part ++ joined parts

-- The session after C_SignUpdate of each part.
abbrev pub sign_updates : List (List ℕ) → Session → Session
sign_updates [] s = s
sign_updates (part ∷ parts) s = sign_updates parts (sign_update part s).1

pub append_nil : (bytes : List ℕ) → bytes ++ [] ≡ bytes
append_nil [] = refl
append_nil (b ∷ bytes) = ap (◌∷◌ b) (append_nil bytes)

pub append_assoc : (a b c : List ℕ) → (a ++ b) ++ c ≡ a ++ (b ++ c)
append_assoc [] b c = refl
append_assoc (d ∷ a) b c = ap (◌∷◌ d) (append_assoc a b c)

with_signature : Session → SignCtx → List ℕ → Session
with_signature s c bytes = record s { sign_ctx = some (record c { buffer = bytes }) }

sign_update_lem :
    (part bytes : List ℕ) (s : Session) (c : SignCtx)
    → (sign_update part (with_signature s c bytes)).1 ≡ with_signature s c (bytes ++ part)
unfolding sign_update with_signature Sign.update
sign_update_lem part bytes s c = refl

sign_updates_lem :
    (parts : List (List ℕ)) (bytes : List ℕ) (s : Session) (c : SignCtx)
    → sign_updates parts (with_signature s c bytes) ≡ with_signature s c (bytes ++ joined parts)
sign_updates_lem [] bytes s c = ap (with_signature s c) (sym (append_nil bytes))
sign_updates_lem (part ∷ parts) bytes s c =
    ap (sign_updates parts) (sign_update_lem part bytes s c)
    ∙ sign_updates_lem parts (bytes ++ part) s c
    ∙ ap (with_signature s c) (append_assoc bytes part (joined parts))

with_signature_eta :
    (s : Session) (c : SignCtx) → s.sign_ctx ≡ some c → s ≡ with_signature s c c.buffer
unfolding with_signature
with_signature_eta s c e = ap (λ (o : Option SignCtx). record s { sign_ctx = o }) e

-- What the updates of a session come to: nothing without an operation, one update with it.
sign_updates-none :
    (parts : List (List ℕ)) (s : Session) → s.sign_ctx ≡ none → sign_updates parts s ≡ s
unfolding sign_update
sign_updates-none [] s e = refl
sign_updates-none (part ∷ parts) s e =
    ap (sign_updates parts) (rw e refl) ∙ sign_updates-none parts s e

sign_updates-some :
    (parts : List (List ℕ)) (s : Session) (c : SignCtx)
    → s.sign_ctx ≡ some c
    → sign_updates parts s ≡ (sign_update (joined parts) s).1
sign_updates-some parts s c e =
    ap (sign_updates parts) (with_signature_eta s c e)
    ∙ sign_updates_lem parts c.buffer s c
    ∙ sym (sign_update_lem (joined parts) c.buffer s c)
    ∙ ap (λ t. (sign_update (joined parts) t).1) (sym (with_signature_eta s c e))

module _ {W : Type 0} (x : Service W) where
  abbrev pub sign_final_keeps : Session → W → Run (Result Error (List ℕ) × Session × W)
  sign_final_keeps s w = do (output, w') ← sign_final x s w; returns (output, s, w')

  -- Signing data in parts is signing it at once: the signature, the session after it, the calls of the
  -- NetHSM and their errors are those of one call with the parts joined, with an operation or without.
  pub sign_in_parts :
      (parts : List (List ℕ)) (s : Session) (w : W)
      → sign_final_keeps (sign_updates parts s) w ≡ sign x (joined parts) s w
  unfolding sign
  sign_in_parts parts s w = elim (Option-cases s.sign_ctx) [
    | inl e ↦ ap (λ t. sign_final_keeps t w) (sign_updates-none parts s e) ∙ ground arith
    | inr (c, e) ↦ ap (λ t. sign_final_keeps t w) (sign_updates-some parts s c e) ∙ ground arith
  ]
