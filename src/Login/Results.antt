-- ===== src/Login/Results.antt =====
-- What holds of the result of a computation, if it returns one.
use nethsm_pkcs.Common.{◌≡◌, refl, subst, Bool, Bool, true, false, if◌then◌else◌, Result, ok, err}
use nethsm_pkcs.Login.{Run, returns, panics, runs_out, ◌>>=◌}

abbrev pub After {ℓ} : {A : Type 0} → (A → Type ℓ) → Run A → Type ℓ
After P (returns a) = P a
After P panics = Unit
After P runs_out = Unit

module _ {ℓ} {A B : Type 0} (P : B → Type ℓ) where
  pub bind-After {κ} :
      (Q : A → Type κ) (m : Run A) (f : A → Run B)
      → After Q m
      → ((a : A) → Q a → After P (f a))
      → After P (◌>>=◌ m f)
  bind-After Q (returns a) f q h = h a q
  bind-After Q panics f q h = tt
  bind-After Q runs_out f q h = tt

  -- Whatever the first part gives.
  pub any-After : (m : Run A) (f : A → Run B) → ((a : A) → After P (f a)) → After P (◌>>=◌ m f)
  any-After (returns a) f h = h a
  any-After panics f h = tt
  any-After runs_out f h = tt

-- By the two cases of a result, with what comes beside it.
module _ {ℓ} {E A B R S : Type 0} (P : B → Type ℓ) where
  pub result-After {κ} :
      (Q : Result E A × R × S → Type κ) (m : Run (Result E A × R × S))
      (f : Result E A × R × S → Run B)
      → After Q m
      → ((a : A) (r : R) (s : S) → Q (ok a, r, s) → After P (f (ok a, r, s)))
      → ((e : E) (r : R) (s : S) → Q (err e, r, s) → After P (f (err e, r, s)))
      → After P (◌>>=◌ m f)
  result-After Q (returns (ok a, r, s)) f q g h = g a r s q
  result-After Q (returns (err e, r, s)) f q g h = h e r s q
  result-After Q panics f q g h = tt
  result-After Q runs_out f q g h = tt

  pub any_result-After :
      (m : Run (Result E A × R × S)) (f : Result E A × R × S → Run B)
      → ((a : A) (r : R) (s : S) → After P (f (ok a, r, s)))
      → ((e : E) (r : R) (s : S) → After P (f (err e, r, s)))
      → After P (◌>>=◌ m f)
  any_result-After (returns (ok a, r, s)) f g h = g a r s
  any_result-After (returns (err e, r, s)) f g h = h e r s
  any_result-After panics f g h = tt
  any_result-After runs_out f g h = tt

module _ {ℓ} {E A B R : Type 0} (P : B → Type ℓ) where
  pub answer-After :
      (m : Run (Result E A × R)) (f : Result E A × R → Run B)
      → ((a : A) (r : R) → After P (f (ok a, r)))
      → ((e : E) (r : R) → After P (f (err e, r)))
      → After P (◌>>=◌ m f)
  answer-After (returns (ok a, r)) f g h = g a r
  answer-After (returns (err e, r)) f g h = h e r
  answer-After panics f g h = tt
  answer-After runs_out f g h = tt

pub if-After {ℓ} :
    {A : Type 0} (P : A → Type ℓ) (b : Bool) (m n : Run A)
    → After P m
    → After P n
    → After P (if b then m else n)
if-After P true m n p q = p
if-After P false m n p q = q

pub After_returns {ℓ} :
    {A : Type 0} (P : A → Type ℓ) (m : Run A) (a : A) → m ≡ returns a → After P m → P a
After_returns P m a e h = subst (After P) e h

pub After-of {ℓ} :
    {A : Type 0} (P : A → Type ℓ) (m : Run A) → ((a : A) → m ≡ returns a → P a) → After P m
After-of P (returns a) h = h a refl
After-of P panics h = tt
After-of P runs_out h = tt

-- A result that is taken apart, where each of its cases does.
pub cases-After {ℓ} :
    {E A B : Type 0} (P : B → Type ℓ) (r : Result E A) (f : A → Run B) (g : E → Run B)
    → ((a : A) → After P (f a))
    → ((e : E) → After P (g e))
    → After P (elim r [ ok a ↦ f a | err e ↦ g e ])
cases-After P (ok a) f g p q = p a
cases-After P (err e) f g p q = q e

-- With three more values beside it.
pub wide_result-After {ℓ κ} :
    {E A B R S T : Type 0} (P : B → Type ℓ) (Q : Result E A × R × S × T → Type κ)
    (m : Run (Result E A × R × S × T)) (f : Result E A × R × S × T → Run B)
    → After Q m
    → ((a : A) (r : R) (s : S) (t : T) → Q (ok a, r, s, t) → After P (f (ok a, r, s, t)))
    → ((e : E) (r : R) (s : S) (t : T) → Q (err e, r, s, t) → After P (f (err e, r, s, t)))
    → After P (◌>>=◌ m f)
wide_result-After P Q (returns (ok a, r, s, t)) f q g h = g a r s t q
wide_result-After P Q (returns (err e, r, s, t)) f q g h = h e r s t q
wide_result-After P Q panics f q g h = tt
wide_result-After P Q runs_out f q g h = tt
