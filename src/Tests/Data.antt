-- ===== src/Tests/Data.antt =====
-- Concrete mechanisms, objects and errors.
use nethsm_pkcs.Common.{
  ◌≡◌, refl, false, none, some, [], ◌∷◌, lookup, insert, remove, if◌then◌else◌, arith,
}
use nethsm_pkcs.Errors.{public_key}
use nethsm_pkcs.Mechanism.{sha256, rsa_pkcs_pss}
use nethsm_pkcs.Mechanism.Raw.{CkRawMechanism, from_ckraw_mech, ck_type}
use nethsm_pkcs.Mechanism.RoundTrip.{ck_type-from_ckraw_mech}
use nethsm_pkcs.Db.{Db, Object, new, add_object, remove_object, same_object}
use nethsm_pkcs.Db.Validity.{IsValid, new-IsValid, add_object-IsValid, remove_object-IsValid}
use nethsm_pkcs.Db.Handles.{adds, clears, run, dead_handles_stay}
use nethsm_pkcs.Db.View.{view, view-add_object}
use nethsm_pkcs.Tests.World.{key, one_key}

abbrev raw_pss : CkRawMechanism
raw_pss = record { mechanism = 13; p_parameter = some (80 ∷ 2 ∷ 0 ∷ []); parameter_len = 24 }

ck_type-from_ckraw_mech_example : ck_type (rsa_pkcs_pss sha256 false) ≡ 13
unfolding from_ckraw_mech
ck_type-from_ckraw_mech_example = ck_type-from_ckraw_mech raw_pss (rsa_pkcs_pss sha256 false) refl

abbrev public_part : Object
public_part = record key { kind = public_key }

pub one_key-IsValid : IsValid one_key
unfolding new
one_key-IsValid = add_object-IsValid key new new-IsValid (omega arith)

view-add_object_example :
    view (add_object public_part one_key).1 key
    ≡ (if same_object public_part key then some public_part else view one_key key)
unfolding add_object new
view-add_object_example = view-add_object public_part key one_key one_key-IsValid (omega arith)

abbrev no_key : Db
no_key = (remove_object 1 one_key).1

dead_handles_stay_example : lookup 1 (run (adds key ∷ clears 0 ∷ []) no_key).objects ≡ none
unfolding remove_object lookup add_object new insert remove
dead_handles_stay_example =
    dead_handles_stay (adds key ∷ clears 0 ∷ []) 1 no_key
      (remove_object-IsValid 1 one_key one_key-IsValid) (omega arith) (omega arith) refl
