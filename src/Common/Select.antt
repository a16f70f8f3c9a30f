-- ===== src/Common/Select.antt =====
-- Rust's `match` of a number against constants: the arms in order, then the default.
use Prim.Native.Nat.{ℕ}
use mathlib.Core.List.{List, [], ◌∷◌}
use native.Mathlib.Omega.{arith}
use nethsm_pkcs.Common.Tests.{◌==◌, if◌then◌else◌}

module _ {ℓ} {A : Type ℓ} where
  unfoldable pub select : ℕ → List (ℕ × A) → A → A
  select t [] d = d
  select t ((k, a) ∷ arms) d = if t == k then a else select t arms d

  -- What each arm satisfies at its own constant.
  abbrev pub Arms {κ} : (ℕ → A → Type κ) → List (ℕ × A) → Type κ
  Arms P [] = Unit
  Arms P ((k, a) ∷ arms) = P k a × Arms P arms

  pub select_rule {κ} :
      (P : ℕ → A → Type κ) (t : ℕ) (arms : List (ℕ × A)) (d : A)
      → Arms P arms
      → P t d
      → P t (select t arms d)
  unfolding select
  select_rule P t [] d h p = p
  select_rule P t ((k, a) ∷ arms) d h p = ground (arith, h.0, select_rule P t arms d h.1 p)
