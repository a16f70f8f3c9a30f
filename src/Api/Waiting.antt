-- ===== src/Api/Waiting.antt =====
-- C_WaitForSlotEvent (pkcs11/src/api/token.rs).
use nethsm_pkcs.Common.{
  ℕ, zero, suc, Bool, true, false, Option, none, some, List, [], ◌∷◌, ok, err, bit_and, ◌==◌,
  if◌then◌else◌,
}
use nethsm_pkcs.Constants
use nethsm_pkcs.Login.{Run, returns, runs_out, ◌>>=◌}
use nethsm_pkcs.Session.{Slot}
use nethsm_pkcs.Events.{EventState, fetch_slots_state}
use nethsm_pkcs.Api.Tokens.{DeviceService}

-- `pop`: the last event, and the others.
unfoldable pub pop : List ℕ → Option (ℕ × List ℕ)
pop [] = none
pop (e ∷ events) = elim (pop events) [
  | none ↦ some (e, [])
  | some (last, rest) ↦ some (last, e ∷ rest)
]

module _ {W : Type 0} (d : DeviceService W) where
  -- The `loop` on fuel, with the slot that is written. Nothing else happens between its rounds.
  unfoldable pub wait_loop :
      ℕ → ℕ → Option (List Slot) → EventState → W → Run ((ℕ × Option ℕ) × EventState × W)
  unfolding pop fetch_slots_state
  wait_loop zero flags slots s w = runs_out
  wait_loop (suc fuel) flags slots s w = elim (pop s.manager.events) [
    | some (slot, events) ↦ returns (
      (Constants.ckr_ok, some slot),
      record s { manager = record s.manager { events = events } },
      w,
    )
    | none ↦
        if bit_and flags Constants.ckf_dont_block == 1
        then returns ((Constants.ckr_no_event, none), s, w)
        else if s.manager.finalized
        then returns ((Constants.ckr_cryptoki_not_initialized, none), s, w)
        else (do
          (result, s', w') ←
              fetch_slots_state d.service d.health_state_get slots s (d.service.sleep 1 w)
          elim result [
            | err rv ↦ returns ((rv, none), s', w')
            | ok done ↦ wait_loop fuel flags slots s' w'
          ])
  ]

  -- `pSlot` says whether the pointer is there.
  unfoldable pub c_wait_for_slot_event :
      ℕ → ℕ → Bool → Option (List Slot) → EventState → W → Run ((ℕ × Option ℕ) × EventState × W)
  unfolding fetch_slots_state wait_loop
  c_wait_for_slot_event fuel flags false slots s w =
      returns ((Constants.ckr_arguments_bad, none), s, w)
  c_wait_for_slot_event fuel flags true slots s w = do
    (result, s', w') ← fetch_slots_state d.service d.health_state_get slots s w
    elim result [
      | err rv ↦ returns ((rv, none), s', w')
      | ok done ↦ wait_loop fuel flags slots s' w'
    ]
