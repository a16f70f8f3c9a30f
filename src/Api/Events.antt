-- ===== src/Api/Events.antt =====
-- The events that C_WaitForSlotEvent takes (pkcs11/src/api/token.rs).
use nethsm_pkcs.Common.{ℕ, suc, ◌≡◌, refl, true, Option, none, some, List, [], ◌∷◌, ◌++◌}
use nethsm_pkcs.Constants
use nethsm_pkcs.Login.{returns}
use nethsm_pkcs.Session.{Slot}
use nethsm_pkcs.Events.{EventState}
use nethsm_pkcs.Api.Tokens.{DeviceService}
use nethsm_pkcs.Api.Waiting.{pop, wait_loop}

abbrev pub with_events : List ℕ → EventState → EventState
with_events events s = record s { manager = record s.manager { events = events } }

abbrev pub finalized : EventState → EventState
finalized s = record s { manager = record { events = []; finalized = true } }

pop-append : (events : List ℕ) (e : ℕ) → pop (events ++ (e ∷ [])) ≡ some (e, events)
unfolding pop
pop-append [] e = refl
pop-append (x ∷ events) e = rw (pop-append events e)

module _ {W : Type 0} (d : DeviceService W) where
  -- With an event in the queue, the loop of C_WaitForSlotEvent takes the newest one in its first round,
  -- whatever the flags are, and leaves the others in their order. Without one it returns in its first
  -- round too, with CKR_NO_EVENT for the flag CKF_DONT_BLOCK, and with CKR_CRYPTOKI_NOT_INITIALIZED
  -- for no flags in a library that is finalized. In these cases it calls nothing.
  pub wait_loop_returns :
      (fuel flags : ℕ) (slots : Option (List Slot)) (s : EventState) (w : W) (e : ℕ)
      (events : List ℕ)
      → (wait_loop d (suc fuel) flags slots (with_events (events ++ (e ∷ [])) s) w
          ≡ returns ((Constants.ckr_ok, some e), with_events events s, w))
        × (wait_loop d (suc fuel) Constants.ckf_dont_block slots (with_events [] s) w
            ≡ returns ((Constants.ckr_no_event, none), with_events [] s, w))
        × (wait_loop d (suc fuel) 0 slots (finalized s) w
            ≡ returns ((Constants.ckr_cryptoki_not_initialized, none), finalized s, w))
  unfolding wait_loop pop
  wait_loop_returns fuel flags slots s w e events =
      (rw (pop-append events e, wait_loop) refl, refl, refl)
