-- ===== src/Api/Lists.antt =====
-- C_GetSlotList (pkcs11/src/api/token.rs) in the two calls that an application makes.
use nethsm_pkcs.Common.{
  ℕ, zero, suc, ◌+◌, ◌≡◌, refl, ap, ◌∙◌, ◌++◌, length-append, ltb, if◌then◌else◌, true, false, some,
  List, [], ◌∷◌, length, arith,
}
use nethsm_pkcs.Constants
use nethsm_pkcs.Session.{Slot}
use nethsm_pkcs.Api.{Globals, Reply, sized}
use nethsm_pkcs.Api.Tokens.{ids_from, list_reply, c_get_slot_list}

-- The numbers below a bound.
abbrev pub below : ℕ → List ℕ
below zero = []
below (suc n) = below n ++ (n ∷ [])

-- The same numbers, counted from the front.
abbrev numbers_from : ℕ → ℕ → List ℕ
numbers_from i zero = []
numbers_from i (suc n) = i ∷ numbers_from (i + 1) n

plus_zero : (n : ℕ) → 0 + n ≡ n
plus_zero n = omega arith

numbers_from_last : (i n : ℕ) → numbers_from i (suc n) ≡ numbers_from i n ++ ((i + n) ∷ [])
numbers_from_last i zero = ap (λ (k : ℕ). k ∷ []) (omega arith)
numbers_from_last i (suc n) =
    ap (◌∷◌ i) (
      numbers_from_last (i + 1) n
      ∙ ap (λ (k : ℕ). numbers_from (i + 1) n ++ (k ∷ [])) (omega arith))

numbers_from-below : (n : ℕ) → numbers_from 0 n ≡ below n
numbers_from-below zero = refl
numbers_from-below (suc n) = numbers_from_last 0 n ∙ cc (numbers_from-below n, plus_zero n)

ids_from-numbers_from :
    {A : Type 0} (i : ℕ) (xs : List A) → ids_from i xs ≡ numbers_from i (length xs)
unfolding ids_from
ids_from-numbers_from i [] = refl
ids_from-numbers_from i (x ∷ xs) = ap (◌∷◌ i) (ids_from-numbers_from (i + 1) xs)

length-below : (n : ℕ) → length (below n) ≡ n
length-below zero = refl
length-below (suc n) = omega (arith, length-append (below n) (n ∷ []), length-below n)

abbrev pub listed : ℕ → Reply
listed n = record { rv = Constants.ckr_ok; written = some n; bytes = below n }

-- Where the slots are set up, C_GetSlotList without a buffer writes the number of slots. With a
-- buffer and room for less, it writes this number, copies nothing and returns
-- CKR_BUFFER_TOO_SMALL; with room for this number or more, it returns CKR_OK and copies exactly the
-- numbers below it, in order.
pub slot_list_asked :
    (g : Globals) (slots : List Slot) (room : ℕ)
    → g.slots ≡ some slots
    → (c_get_slot_list false (some room) g ≡ sized Constants.ckr_ok (length slots))
      × (c_get_slot_list true (some room) g ≡ (
          if ltb room (length slots)
          then sized Constants.ckr_buffer_too_small (length slots)
          else listed (length slots)))
unfolding c_get_slot_list list_reply
slot_list_asked g slots room e =
    let ids : ids_from 0 slots ≡ below (length slots) =
      ids_from-numbers_from 0 slots ∙ numbers_from-below (length slots) in
    let n : length (ids_from 0 slots) ≡ length slots =
      ap length ids ∙ length-below (length slots) in
    (ground (arith, n), ground (arith, n, ids))
