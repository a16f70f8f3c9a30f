-- ===== src/Config/Merging.antt =====
-- The configuration that several files give (pkcs11/src/config/config_file.rs).
use nethsm_pkcs.Common.{
  ℕ, ◌≡◌, sym, ap, ◌∙◌, Bool, false, ◌||◌, some, List, [], ◌∷◌, ◌++◌, ok, arith,
}
use mathlib.Core.List.{append-nil, append_assoc}
use nethsm_pkcs.Config.{
  SlotConfig, P11Config, Crates, default, merge, merge_from, merge_configurations,
}

-- The contents of the files one by one, and what they say together.
abbrev pub Parsed : Crates → List (List ℕ) → List P11Config → Type 0
Parsed c [] [] = Unit
Parsed c (file ∷ files) (p ∷ ps) = (c.from_slice file ≡ some p) × Parsed c files ps
Parsed c _ _ = ⊥

abbrev pub all_slots : List P11Config → List SlotConfig
all_slots [] = []
all_slots (p ∷ ps) = p.slots ++ all_slots ps

abbrev pub any_enabled : List P11Config → Bool
any_enabled [] = false
any_enabled (p ∷ ps) = p.enable_set_attribute_value || any_enabled ps

merged : P11Config → List P11Config → P11Config
merged conf ps = record {
  enable_set_attribute_value = conf.enable_set_attribute_value || any_enabled ps;
  slots = conf.slots ++ all_slots ps;
}

or_false : (b : Bool) → b ≡ (b || false)
or_false b = ground arith

or_assoc : (a b d : Bool) → ((a || b) || d) ≡ (a || (b || d))
or_assoc a b d = ground arith

same_config :
    {a b : Bool} {xs ys : List SlotConfig}
    → a ≡ b
    → xs ≡ ys
    → ◌≡◌ {A = P11Config}
        (record { enable_set_attribute_value = a; slots = xs })
        (record { enable_set_attribute_value = b; slots = ys })
same_config e f = cc (e, f)

module _ (c : Crates) (or : (a b : Bool) → c.overwrite_false a b ≡ (a || b))
    (appends : (a b : List SlotConfig) → c.append a b ≡ a ++ b) where
  merge_from-merged :
      (files : List (List ℕ)) (ps : List P11Config) (conf : P11Config)
      → Parsed c files ps
      → merge_from c files conf ≡ ok (merged conf ps)
  unfolding merge_from merge merged
  merge_from-merged [] [] conf h =
      ap ok (same_config (or_false conf.enable_set_attribute_value) (sym (append-nil conf.slots)))
  merge_from-merged [] (p ∷ ps) conf h = elim h [ ]
  merge_from-merged (file ∷ files) [] conf h = elim h [ ]
  merge_from-merged (file ∷ files) (p ∷ ps) conf h = rw h.0 (
      merge_from-merged files ps (merge c conf p) h.1
      ∙ ap ok (
          same_config
            (ap (λ b. b || any_enabled ps)
                (or conf.enable_set_attribute_value p.enable_set_attribute_value)
              ∙ or_assoc conf.enable_set_attribute_value p.enable_set_attribute_value
                  (any_enabled ps))
            (ap (λ (xs : List SlotConfig). xs ++ all_slots ps) (appends conf.slots p.slots)
              ∙ append_assoc conf.slots p.slots (all_slots ps))))

  -- With the documented strategies of the crate `merge`, files that all can be parsed, at least one,
  -- give a configuration with the slots of all files in order, and the option is set exactly if a
  -- file sets it.
  pub merge_configurations-all :
      (file : List ℕ) (files : List (List ℕ)) (ps : List P11Config)
      → Parsed c (file ∷ files) ps
      → merge_configurations c (file ∷ files)
        ≡ ok (record { enable_set_attribute_value = any_enabled ps; slots = all_slots ps })
  unfolding merge_configurations merged
  merge_configurations-all file files ps h = merge_from-merged (file ∷ files) ps default h
