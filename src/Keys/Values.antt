-- ===== src/Keys/Values.antt =====
-- Numbers in attributes: what `set_val_bytes` writes, `read_value` reads (backend/db/attr.rs).
use nethsm_pkcs.Common.{
  ℕ, zero, suc, ◌/◌, ◌^◌, ◌<◌, ◌≤◌, ◌≡◌, refl, ap, some, List, [], ◌∷◌, ◌++◌, length, take, drop,
  arith,
}
use nethsm_pkcs.Mechanism.Raw.{le_value}
use nethsm_pkcs.Db.Attributes.{CkRawAttr, set_val_bytes}
use nethsm_pkcs.Db.Objects.{to_le_bytes}
use nethsm_pkcs.Keys.{read_value}

pub length-to_le_bytes : (width v : ℕ) → length (to_le_bytes width v) ≡ width
unfolding to_le_bytes
length-to_le_bytes zero v = refl
length-to_le_bytes (suc width) v = ap suc (length-to_le_bytes width (v / 256))

take_all : {A : Type 0} (xs ys : List A) → take (length xs) (xs ++ ys) ≡ xs
take_all [] ys = refl
take_all (x ∷ xs) ys = ap (◌∷◌ x) (take_all xs ys)

le_value-to_le_bytes : (width v : ℕ) → v < 256 ^ width → le_value (to_le_bytes width v) ≡ v
unfolding to_le_bytes le_value
le_value-to_le_bytes zero v h = omega (arith, h)
le_value-to_le_bytes (suc width) v h =
    omega (arith, le_value-to_le_bytes width (v / 256) (omega (arith, h)))

-- Where an attribute has memory and a length of at least 8, and `set_val_bytes` has written the 8
-- bytes of a CK_ULONG to it, `read_value` reads this number.
pub read_value-set_val_bytes :
    (v : ℕ) (a : CkRawAttr) (memory : List ℕ)
    → v < 2 ^ 64
    → a.p_value ≡ some memory
    → 8 ≤ a.value_len
    → read_value (set_val_bytes (to_le_bytes 8 v) a).1 ≡ some v
unfolding read_value set_val_bytes
read_value-set_val_bytes v a memory h p q = ground (
  arith,
  length-to_le_bytes 8 v,
  take_all (to_le_bytes 8 v) (drop 8 memory),
  le_value-to_le_bytes 8 v,
)
