-- ===== src/Events/Changes.antt =====
-- The events that reports on slots leave in the queue (pkcs11/src/backend/events.rs).
use nethsm_pkcs.Common.{
  ℕ, suc, ◌+◌, ◌≡◌, ap, Bool, Option, none, some, List, [], ◌∷◌, ◌++◌, lookup, lookup-insert, ◌==◌,
  if◌then◌else◌, arith,
}
use nethsm_pkcs.Events.{EventState, same, update_slot_state}

-- How often a slot stands in the queue.
abbrev pub occurrences : ℕ → List ℕ → ℕ
occurrences slot_id [] = 0
occurrences slot_id (i ∷ events) =
    let rest = occurrences slot_id events in if i == slot_id then suc rest else rest

-- A report of slots and their states, one after the other.
abbrev pub reports : List (ℕ × Bool) → EventState → EventState
reports [] s = s
reports (report ∷ rest) s = reports rest (update_slot_state report.0 report.1 s)

-- The changes of a slot among the reports, from the state that is known of it.
abbrev pub changes : ℕ → Option Bool → List (ℕ × Bool) → ℕ
changes slot_id known [] = 0
changes slot_id known (report ∷ rest) =
    let now = changes slot_id (some report.1) rest in
    let before = changes slot_id known rest in
    if report.0 == slot_id
    then elim known [ none ↦ now | some prev ↦ if same prev report.1 then now else suc now ]
    else before

occurrences-append :
    (slot_id i : ℕ) (events : List ℕ)
    → occurrences slot_id (events ++ (i ∷ []))
      ≡ occurrences slot_id events + (if i == slot_id then 1 else 0)
occurrences-append slot_id i [] = ground arith
occurrences-append slot_id i (j ∷ events) = ground (arith, occurrences-append slot_id i events)

-- One report, as it is seen for a slot.
abbrev Step : ℕ → ℕ × Bool → EventState → EventState → Type 0
Step slot_id report s s' =
    (lookup slot_id s'.tokens_state
      ≡ (if report.0 == slot_id then some report.1 else lookup slot_id s.tokens_state))
    × (occurrences slot_id s'.manager.events
        ≡ occurrences slot_id s.manager.events
          + changes slot_id (lookup slot_id s.tokens_state) (report ∷ []))

update-Step :
    (slot_id : ℕ) (report : ℕ × Bool) (s : EventState)
    → Step slot_id report s (update_slot_state report.0 report.1 s)
unfolding update_slot_state
update-Step slot_id report s = ground (
  arith,
  lookup-insert report.0 slot_id report.1 s.tokens_state,
  occurrences-append slot_id report.0 s.manager.events,
)

changes-cons :
    (slot_id : ℕ) (known : Option Bool) (report : ℕ × Bool) (rest : List (ℕ × Bool))
    → changes slot_id known (report ∷ rest)
      ≡ changes slot_id known (report ∷ [])
        + changes slot_id (if report.0 == slot_id then some report.1 else known) rest
changes-cons slot_id known report rest = ground arith

-- However slots and their states are reported, a slot stands in the queue as often as its reported
-- state changed, in addition to before: the first report of a slot and those that repeat its state
-- add nothing.
pub reports-changes :
    (slot_id : ℕ) (rs : List (ℕ × Bool)) (s : EventState)
    → occurrences slot_id (reports rs s).manager.events
      ≡ occurrences slot_id s.manager.events + changes slot_id (lookup slot_id s.tokens_state) rs
reports-changes slot_id [] s = omega arith
reports-changes slot_id (report ∷ rest) s =
    let (known, count) = update-Step slot_id report s in
    let later = reports-changes slot_id rest (update_slot_state report.0 report.1 s) in
    let same_known = ap (λ (o : Option Bool). changes slot_id o rest) known in
    omega (
      arith,
      later,
      count,
      same_known,
      changes-cons slot_id (lookup slot_id s.tokens_state) report rest,
    )
