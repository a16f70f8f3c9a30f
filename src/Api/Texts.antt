-- ===== src/Api/Texts.antt =====
-- The width of padded texts (pkcs11/src/utils.rs), and `parse_u8` (defs.rs) against the value of
-- decimal digits.
use nethsm_pkcs.Common.{
  ℕ, ◌+◌, ◌-◌, ◌*◌, ◌≤◌, ◌<◌, ◌≡◌, ◌∙◌, ap, zero, suc, min, Bool, true, ◌&&◌, none, some, List, [],
  ◌∷◌, ◌++◌, length, take, drop, replicate, length-append, length-take, length-replicate, ltb, leb,
  if◌then◌else◌, arith,
}
use nethsm_pkcs.Api.Versions.{padded_str, parse_u8_from, parse_u8}

min-suc : (a b : ℕ) → min (suc a) (suc b) ≡ suc (min a b)
min-suc a b = omega arith

spaces : (a n : ℕ) → n - min a n ≡ n - a
spaces a n = omega arith

take-min : {A : Type 0} (n : ℕ) (xs : List A) → take (min (length xs) n) xs ≡ take n xs
take-min zero xs = let e : min (length xs) 0 ≡ 0 = omega arith in ap (λ m. take m xs) e
take-min (suc n) [] = let e : min 0 (suc n) ≡ 0 = omega arith in ap (λ m. take m []) e
take-min (suc n) (x ∷ xs) =
    ap (λ m. take m (x ∷ xs)) (min-suc (length xs) n) ∙ ap (◌∷◌ x) (take-min n xs)

drop-replicate : {A : Type 0} (m n : ℕ) (a : A) → drop m (replicate n a) ≡ replicate (n - m) a
drop-replicate zero n a = let e : n ≡ n - 0 = omega arith in ap (λ k. replicate k a) e
drop-replicate (suc m) zero a = let e : 0 ≡ 0 - suc m = omega arith in ap (λ k. replicate k a) e
drop-replicate (suc m) (suc n) a =
    let e : n - m ≡ suc n - suc m = omega arith in drop-replicate m n a ∙ ap (λ k. replicate k a) e

-- A padded text is the first bytes of the text and the spaces that are left, and has exactly the
-- width that is asked for.
pub length-padded_str :
    (n : ℕ) (s : List ℕ)
    → (padded_str n s ≡ take n s ++ replicate (n - length s) 32) × (length (padded_str n s) ≡ n)
unfolding padded_str
length-padded_str n s =
    let shape : padded_str n s ≡ take n s ++ replicate (n - length s) 32 =
      cc (take-min n s, drop-replicate {A = ℕ} (min (length s) n) n 32, spaces (length s) n) in
    (
      shape,
      ap length shape
          ∙ omega (
            arith,
            length-append (take n s) (replicate (n - length s) 32),
            length-take n s,
            length-replicate {A = ℕ} (n - length s) 32,
          ),
    )

-- The number that digits stand for, and whether they are digits.
abbrev pub decimal : ℕ → List ℕ → ℕ
decimal acc [] = acc
decimal acc (c ∷ s) = decimal (acc * 10 + (c - 48)) s

abbrev pub all_digits : List ℕ → Bool
all_digits [] = true
all_digits (c ∷ s) = leb 48 c && leb c 57 && all_digits s

decimal_grows : (acc : ℕ) (s : List ℕ) → acc ≤ decimal acc s
decimal_grows acc [] = omega arith
decimal_grows acc (c ∷ s) = omega (arith, decimal_grows (acc * 10 + (c - 48)) s)

parse_u8_from-decimal :
    (acc : ℕ) (s : List ℕ)
    → acc < 256
    → parse_u8_from acc s
      ≡ (if all_digits s && ltb (decimal acc s) 256 then some (decimal acc s) else none)
unfolding parse_u8_from
parse_u8_from-decimal acc [] h = ground arith
parse_u8_from-decimal acc (c ∷ s) h =
    ground
      (arith, decimal_grows (acc * 10 + (c - 48)) s, parse_u8_from-decimal (acc * 10 + (c - 48)) s)

-- `parse_u8` gives the decimal value of a text of digits below 256, and an error for every other text.
pub parse_u8-decimal :
    (s : List ℕ)
    → parse_u8 s ≡ (if all_digits s && ltb (decimal 0 s) 256 then some (decimal 0 s) else none)
unfolding parse_u8
parse_u8-decimal s = parse_u8_from-decimal 0 s (omega arith)
