-- ===== src/Tests/Objects.antt =====
-- Concrete enumerations, attribute templates and reports on slots.
use nethsm_pkcs.Common.{
  ℕ, ◌+◌, Bool, true, false, ◌≡◌, refl, none, some, List, [], ◌∷◌, lookup, replicate, arith,
}
use nethsm_pkcs.Db.{Object, ck_ulong, sensitive}
use nethsm_pkcs.Db.Attributes.{CkRawAttr, fill_attr_template}
use nethsm_pkcs.Db.Attributes.Filling.{Each, Contained, fill_attr_template-Contained}
use nethsm_pkcs.Db.Attributes.Success.{Filled, fill_attr_template-Filled}
use nethsm_pkcs.Session.{Session}
use nethsm_pkcs.Session.Finding.{chunks, new, chunks-new}
use nethsm_pkcs.Events.{EventState}
use nethsm_pkcs.Events.Changes.{occurrences, reports, changes, reports-changes}
use nethsm_pkcs.Tests.World.{key, session}

chunks-new_example : (chunks (2 ∷ 0 ∷ 5 ∷ []) (new (7 ∷ 8 ∷ 9 ∷ []))).0 ≡ 7 ∷ 8 ∷ 9 ∷ []
chunks-new_example = chunks-new (2 ∷ 0 ∷ 5 ∷ []) (7 ∷ 8 ∷ 9 ∷ []) (omega arith)

abbrev described : Object
described = record key { attrs = (0, ck_ulong (3 ∷ 0 ∷ [])) ∷ (17, sensitive) ∷ [] }

abbrev template : List CkRawAttr
template =
    record { type_ = 0; p_value = some (replicate 4 9); value_len = 3 }
    ∷ record { type_ = 17; p_value = some (replicate 4 9); value_len = 4 }
    ∷ []

fill_attr_template-Contained_example :
    Each (Contained described) template (fill_attr_template described template).1
fill_attr_template-Contained_example = fill_attr_template-Contained described template

abbrev plain : List CkRawAttr
plain =
    record { type_ = 0; p_value = some (replicate 4 9); value_len = 3 }
    ∷ record { type_ = 0; p_value = none; value_len = 0 }
    ∷ []

fill_attr_template-Filled_example :
    Each
      (λ a a'. Filled (lookup a.type_ described.attrs) a a')
      plain
      (fill_attr_template described plain).1
unfolding fill_attr_template lookup
fill_attr_template-Filled_example = fill_attr_template-Filled described plain refl

abbrev found : Session
found = record session { enum_ctx = some (record { handles = 7 ∷ 8 ∷ 9 ∷ []; index = 2 }) }

abbrev no_events : EventState
no_events = record { manager = record { events = []; finalized = false }; tokens_state = [] }

abbrev five_reports : List (ℕ × Bool)
five_reports = (0, true) ∷ (1, false) ∷ (0, false) ∷ (1, false) ∷ (0, true) ∷ []

reports-changes_example :
    occurrences 0 (reports five_reports no_events).manager.events
    ≡ 0 + changes 0 (lookup 0 no_events.tokens_state) five_reports
reports-changes_example = reports-changes 0 five_reports no_events
