-- ===== src/Common/HashMap.antt =====
-- `HashMap` with numbers for keys, as an association list with at most one entry for a key.
use Prim.Native.Nat.{ℕ}
use mathlib.Core.Path.{◌≡◌, refl}
use mathlib.Core.List.{List, [], ◌∷◌}
use mathlib.Core.Option.{Option, none, some}
use native.Mathlib.Omega.{arith}
use nethsm_pkcs.Common.Tests.{◌==◌, if◌then◌else◌}

abbrev pub Assoc {ℓ} : Type ℓ → Type ℓ
Assoc V = List (ℕ × V)

module _ {ℓ} {V : Type ℓ} where
  unfoldable pub lookup : ℕ → Assoc V → Option V
  lookup key [] = none
  lookup key (entry ∷ table) = if entry.0 == key then some entry.1 else lookup key table

  -- Every entry of the key goes.
  unfoldable pub remove : ℕ → Assoc V → Assoc V
  remove key [] = []
  remove key (entry ∷ table) =
      let rest = remove key table in if entry.0 == key then rest else entry ∷ rest

  pub lookup-remove :
      (key other : ℕ) (table : Assoc V)
      → lookup other (remove key table) ≡ (if key == other then none else lookup other table)
  unfolding lookup remove
  lookup-remove key other [] = ground arith
  lookup-remove key other (entry ∷ table) = ground (arith, lookup-remove key other table)

  -- The first entry of the key is replaced, or a last one is added.
  unfoldable pub insert : ℕ → V → Assoc V → Assoc V
  insert key value [] = (key, value) ∷ []
  insert key value (entry ∷ table) =
      let rest = insert key value table in
      if entry.0 == key then (key, value) ∷ table else entry ∷ rest

  pub lookup-insert :
      (key other : ℕ) (value : V) (table : Assoc V)
      → lookup other (insert key value table)
        ≡ (if key == other then some value else lookup other table)
  unfolding lookup insert
  lookup-insert key other value [] = refl
  lookup-insert key other value (entry ∷ table) =
      ground (arith, lookup-insert key other value table)

  -- Each key has one entry.
  abbrev pub Distinct : Assoc V → Type ℓ
  Distinct [] = Unit
  Distinct (entry ∷ table) = (lookup entry.0 table ≡ none) × Distinct table

  pub remove-Distinct : (key : ℕ) (table : Assoc V) → Distinct table → Distinct (remove key table)
  unfolding remove lookup
  remove-Distinct key [] d = tt
  remove-Distinct key (entry ∷ table) d =
      ground (arith, remove-Distinct key table d.1, lookup-remove key entry.0 table)

  pub insert-Distinct :
      (key : ℕ) (value : V) (table : Assoc V) → Distinct table → Distinct (insert key value table)
  unfolding insert lookup
  insert-Distinct key value [] d = (refl, tt)
  insert-Distinct key value (entry ∷ table) d =
      ground (arith, insert-Distinct key value table d.1, lookup-insert key entry.0 value table)
