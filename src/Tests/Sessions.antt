-- ===== src/Tests/Sessions.antt =====
-- Concrete sessions and calls.
use nethsm_pkcs.Common.{◌≡◌, refl, true, none, some, [], ◌∷◌, replicate, lookup, insert, arith}
use nethsm_pkcs.Errors.{error_rv}
use nethsm_pkcs.Mechanism.{Mechanism, sign}
use nethsm_pkcs.Mechanism.Api.{sign_name, to_api_mech}
use nethsm_pkcs.Mechanism.Keys.{has_mechanism}
use nethsm_pkcs.Login.{can_run_mode}
use nethsm_pkcs.Db
use nethsm_pkcs.Db.{Object, object, add_object}
use nethsm_pkcs.Sign
use nethsm_pkcs.Sign.{SignCtx, get_theoretical_size}
use nethsm_pkcs.Mechanism.Sizes.{get_signature_size}
use nethsm_pkcs.Session.{Session}
use nethsm_pkcs.Session.Signing
use nethsm_pkcs.Login.Calls.{try_}
use nethsm_pkcs.Session.Signing.{sign_theoretical_size}
use nethsm_pkcs.Session.Starting.{start, Started, Allowed, start_succeeds}
use nethsm_pkcs.Manager.{
  SessionManager, create_session, get_session, delete_session, delete_all_slot_sessions,
}
use nethsm_pkcs.Manager
use nethsm_pkcs.Manager.Handles.{IsValid, opened, Step-IsValid}
use nethsm_pkcs.Api.{Reply}
use nethsm_pkcs.Api.Signing.{sign_handler}
use nethsm_pkcs.Api.Calls.{signs, serve}
use nethsm_pkcs.Api.Buffers.{Fits, serve-Fits}
use nethsm_pkcs.Api.Clearing.{Over, Keeps, serve_fails-Over, serve-Keeps}
use nethsm_pkcs.Api.Protocol.{lost_signature}
use nethsm_pkcs.Tests.World.{quiet, one_key, slot, session, signing_session, sign_ctx, manager}

new-IsValid : IsValid Manager.new
unfolding Manager.new lookup
new-IsValid = record { distinct = tt; fresh = λ h le. refl }

pub manager-IsValid : IsValid manager
unfolding Manager.new
manager-IsValid = Step-IsValid (opened 0 slot 4 (omega arith)) new-IsValid

Step-IsValid_example : IsValid (create_session 0 slot 4 Manager.new).1
unfolding Manager.new
Step-IsValid_example = Step-IsValid (opened 0 slot 4 (omega arith)) new-IsValid

start_succeeds_example :
    (k : Object) × (object one_key 1 ≡ some k)
    × Allowed sign Mechanism.ed_dsa k session
    × Started sign Mechanism.ed_dsa k session signing_session
unfolding start Sign.init sign_name to_api_mech has_mechanism can_run_mode object add_object Db.new
    lookup insert
start_succeeds_example = start_succeeds sign Mechanism.ed_dsa 1 one_key session signing_session refl

-- The NetHSM's signature of 64 bytes does not fit into the buffer of 62 bytes that is asked for.
abbrev too_small : Reply
too_small = record { rv = 336; written = some 64; bytes = [] }

abbrev stuck_session : Session
stuck_session = record session { sign_ctx = some (record sign_ctx { buffer = 1 ∷ 2 ∷ [] }) }

lost_signature_example : stuck_session.sign_ctx ≡ some (Sign.update (1 ∷ 2 ∷ []) sign_ctx)
unfolding sign_handler sign_theoretical_size get_theoretical_size get_signature_size Signing.sign
    Sign.sign_final try_ Sign.update
lost_signature_example =
    lost_signature quiet (1 ∷ 2 ∷ []) 62 signing_session stuck_session sign_ctx [] [] too_small refl
      (omega arith) refl refl

abbrev signed : Reply
signed = record { rv = 0; written = some 64; bytes = replicate 64 7 }

serve-Fits_example : Fits true (some 64) signed
unfolding serve sign_theoretical_size get_theoretical_size get_signature_size Signing.sign
    Sign.sign_final try_ Sign.update
serve-Fits_example =
    serve-Fits quiet (signs (some (1 ∷ []))) true (some 64) signing_session session [] [] signed
      refl

abbrev no_operation : Reply
no_operation = record { rv = 145; written = none; bytes = [] }

serve_fails-Over_example : Over (signs (some (1 ∷ []))) session
unfolding serve sign_theoretical_size error_rv
serve_fails-Over_example =
    serve_fails-Over quiet (signs (some (1 ∷ []))) true (some 64) session session [] [] no_operation
      refl (omega arith) (omega arith)

serve-Keeps_example : Keeps (signs (some (1 ∷ []))) signing_session session
unfolding serve sign_theoretical_size get_theoretical_size get_signature_size Signing.sign
    Sign.sign_final try_ Sign.update
serve-Keeps_example =
    serve-Keeps quiet (signs (some (1 ∷ []))) true (some 64) signing_session session [] [] signed
      refl
