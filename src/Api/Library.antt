-- ===== src/Api/Library.antt =====
-- C_Initialize, C_Finalize and C_GetInfo (pkcs11/src/api/mod.rs).
use nethsm_pkcs.Common.{
  ℕ, Bool, true, false, Option, none, some, List, [], Result, ok, err, bit_and, ◌==◌, if◌then◌else◌,
}
use nethsm_pkcs.Constants
use nethsm_pkcs.Login.{Run, returns, panics, ◌>>=◌}
use nethsm_pkcs.Session.{Slot}
use nethsm_pkcs.Events.{EventState, fetch_slots_state}
use nethsm_pkcs.Api.Versions.{CkVersion, padded_str, cryptoki_version}
use nethsm_pkcs.Api.Tokens.{DeviceService}

-- DEVICE_INIT (whether it was called), the slots of DEVICE, THREADS_ALLOWED, EVENTS_MANAGER and
-- TOKENS_STATE (data.rs).
pub record Library : Type 0 where
  pub init_called : Bool
  pub device : Option (List Slot)
  pub threads_allowed : Bool
  pub events : EventState

-- CK_C_INITIALIZE_ARGS; the tests say whether the pointers are there.
pub record InitArgs : Type 0 where
  pub reserved : Bool
  pub flags : ℕ
  pub create_mutex : Bool

abbrev pub fresh_events : EventState
fresh_events = record { manager = record { events = []; finalized = false }; tokens_state = [] }

-- `call_once`: the closure runs in the first call only. The Boolean says whether it failed.
unfoldable pub call_once : Option (List Slot) → Library → Bool × Library
call_once made l = if l.init_called then (false, l) else elim made [
  | none ↦ (true, record l { init_called = true })
  | some slots ↦ (false, record l { init_called = true; device = some slots })
]

-- What the arguments ask for: a return value, or whether threads are allowed.
abbrev pub check_args : Option InitArgs → Bool → Result ℕ Bool
check_args none threads = ok threads
check_args (some args) threads =
    if args.reserved
    then err Constants.ckr_arguments_bad
    else if (if bit_and args.flags Constants.ckf_os_locking_ok == 0
        then args.create_mutex
        else false)
    then err Constants.ckr_cant_lock
    else ok (bit_and args.flags Constants.ckf_library_cant_create_os_threads == 0)

module _ {W : Type 0} (d : DeviceService W) where
  unfoldable pub start : List Slot → Option InitArgs → Library → W → Run (ℕ × Library × W)
  unfolding fetch_slots_state
  start slots pInitArgs l w = elim (check_args pInitArgs l.threads_allowed) [
    | err rv ↦ returns (rv, l, w)
    | ok threads ↦ do
      (result, events, w') ←
          fetch_slots_state d.service d.health_state_get (some slots) fresh_events w
      returns (
        elim result [ ok done ↦ Constants.ckr_ok | err rv ↦ rv ],
        record l { threads_allowed = threads; events = events },
        w',
      )
  ]

  -- `made` is what `initialize` gives, `none` for an error; `expect` panics without a device.
  unfoldable pub c_initialize :
      Option (List Slot) → Option InitArgs → Library → W → Run (ℕ × Library × W)
  unfolding call_once start
  c_initialize made pInitArgs l w =
      let (failed, l') = call_once made l in
      if failed
      then returns (Constants.ckr_function_failed, l', w)
      else elim l'.device [ none ↦ panics | some slots ↦ start slots pInitArgs l' w ]

-- `pReserved` says whether the pointer is there.
unfoldable pub c_finalize : Bool → Library → ℕ × Library
c_finalize true l = (Constants.ckr_arguments_bad, l)
c_finalize false l = (
  Constants.ckr_ok,
  record l { events = record l.events { manager = record l.events.manager { finalized = true } } },
)

-- CK_INFO; its flags are 0. The texts and the version of the library are those of its build.
pub record Info : Type 0 where
  pub cryptoki : CkVersion
  pub manufacturer_id : List ℕ
  pub library_description : List ℕ
  pub library : CkVersion

unfoldable pub c_get_info : List ℕ → List ℕ → CkVersion → Bool → ℕ × Option Info
unfolding padded_str
c_get_info manufacturer description version false = (Constants.ckr_arguments_bad, none)
c_get_info manufacturer description version true = (
  Constants.ckr_ok,
  some (record {
    cryptoki = cryptoki_version;
    manufacturer_id = padded_str 32 manufacturer;
    library_description = padded_str 32 description;
    library = version;
  }),
)
