-- ===== src/Config/Trust.antt =====
-- Which certificates a connection accepts (pkcs11/src/config/initialization.rs).
use nethsm_pkcs.Common.{ℕ, ◌≡◌, ◌↔◌, ◌⊎◌, true, false, Option, List, [], ◌∷◌, ok, arith}
use nethsm_pkcs.Config.{
  InstanceConfig, Crates, Agent, same_bytes, is_listed, verifier_of, verify_server_cert, agent_of,
}

-- A list has a member.
abbrev pub Has : List (List ℕ) → List ℕ → Type 0
Has [] x = ⊥
Has (y ∷ ys) x = (y ≡ x) ⊎ Has ys x

same_bytes_iff : (a b : List ℕ) → (same_bytes a b ≡ true) ↔ (a ≡ b)
unfolding same_bytes
same_bytes_iff (x ∷ a) (y ∷ b) = ground (arith, same_bytes_iff a b)
same_bytes_iff _ _ = ground arith

is_listed-Has : (x : List ℕ) (prints : List (List ℕ)) → (is_listed x prints ≡ true) ↔ Has prints x
unfolding is_listed
is_listed-Has x [] = ground arith
is_listed-Has x (y ∷ prints) = ground (arith, same_bytes_iff y x, is_listed-Has x prints)

-- What the configuration of an instance says of a certificate.
abbrev pub Trusted : Crates → InstanceConfig → List ℕ → Type 0
Trusted c i end_entity =
    (i.danger_insecure_cert ≡ true)
    ⊎ (((i.danger_insecure_cert ≡ false) × Has i.sha256_fingerprints (c.sha256 end_entity))
        ⊎ ((i.danger_insecure_cert ≡ false)
            × (i.sha256_fingerprints ≡ [])
            × (c.verify_native end_entity ≡ true)))

-- The agent of an instance accepts a certificate exactly if the configuration asks for no check, or
-- else lists the SHA-256 hash of the certificate, or lists no hash and the native roots accept it.
pub agent_of-Trusted :
    (c : Crates) (timeout : Option ℕ) (i : InstanceConfig) (agent : Agent) (end_entity : List ℕ)
    → agent_of c timeout i ≡ ok agent
    → (verify_server_cert c agent.verifier end_entity ≡ true) ↔ Trusted c i end_entity
unfolding agent_of verifier_of verify_server_cert
agent_of-Trusted c timeout i agent end_entity h =
    ground (arith, is_listed-Has (c.sha256 end_entity) i.sha256_fingerprints)
