-- ===== src/Events.antt =====
-- Slot events (pkcs11/src/backend/events.rs): the states of tokens, and the queue of slots that
-- changed.
pub mod Changes
use nethsm_pkcs.Common.{
  ℕ, ◌+◌, Bool, true, false, Option, none, some, List, [], ◌∷◌, ◌++◌, Result, ok, err, Assoc,
  lookup, insert,
}
use nethsm_pkcs.Constants
use nethsm_pkcs.Errors.{UserMode, ApiError}
use nethsm_pkcs.Service.{ApiCall, Service}
use nethsm_pkcs.Login.{Run, returns, panics, runs_out, ◌>>=◌}
use nethsm_pkcs.Login
use nethsm_pkcs.Login.Calls.{try_}
use nethsm_pkcs.Session.{Slot}

pub record EventsManager : Type 0 where
  pub events : List ℕ
  pub finalized : Bool

-- EVENTS_MANAGER and TOKENS_STATE of data.rs.
pub record EventState : Type 0 where
  pub manager : EventsManager
  pub tokens_state : Assoc Bool

abbrev pub same : Bool → Bool → Bool
same true b = b
same false true = false
same false false = true

abbrev pub push : ℕ → EventsManager → EventsManager
push slot_id m = record m { events = m.events ++ (slot_id ∷ []) }

unfoldable pub update_slot_state : ℕ → Bool → EventState → EventState
update_slot_state slot_id present s = elim (lookup slot_id s.tokens_state) [
  | none ↦ record s { tokens_state = insert slot_id present s.tokens_state }
  | some prev ↦ elim (same prev present) [
    | true ↦ s
    | false ↦ record {
      manager = push slot_id s.manager;
      tokens_state = insert slot_id present s.tokens_state;
    }
  ]
]

-- The states that the code tells apart.
pub data SystemState : Type 0 where
  operational other : SystemState

abbrev pub is_operational : Result ApiError SystemState → Bool
is_operational (ok operational) = true
is_operational (ok other) = false
is_operational (err e) = false

module _ {W : Type 0} (x : Service W) (health_state_get : ApiCall W SystemState) where
  -- The `for` over the slots, from the index on.
  fetch_from : ℕ → List Slot → EventState → W → Run (EventState × W)
  unfolding update_slot_state
  fetch_from index [] s w = returns (s, w)
  fetch_from index (slot ∷ slots) s w = do
    (state, login_ctx, w') ←
        try_ x health_state_get UserMode.guest (Login.new none none slot.instances slot.retries) w
    fetch_from (index + 1) slots (update_slot_state index (is_operational state) s) w'

  -- `slots` is that of DEVICE, which is `none` before the initialization.
  unfoldable pub fetch_slots_state :
      Option (List Slot) → EventState → W → Run (Result ℕ (Unit {0}) × EventState × W)
  unfolding fetch_from
  fetch_slots_state none s w = returns (err Constants.ckr_cryptoki_not_initialized, s, w)
  fetch_slots_state (some slots) s w = do (s', w') ← fetch_from 0 slots s w; returns (ok tt, s', w')
