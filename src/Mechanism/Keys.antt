-- ===== src/Mechanism/Keys.antt =====
-- `key.mechanisms.contains(&api_mech)`, by the derived equality of key mechanisms.
use nethsm_pkcs.Common.{Bool, true, false, List, [], ◌∷◌}
use nethsm_pkcs.Mechanism.{KeyMechanism}

unfoldable KeyMechanism-discrete : Discrete KeyMechanism
KeyMechanism-discrete = hlevel

unfoldable pub has_mechanism : KeyMechanism → List KeyMechanism → Bool
unfolding KeyMechanism-discrete
has_mechanism k [] = false
has_mechanism k (j ∷ js) = elim (KeyMechanism-discrete j k) [
  | yes e ↦ true
  | no n ↦ has_mechanism k js
]
