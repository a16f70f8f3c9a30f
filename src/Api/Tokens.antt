-- ===== src/Api/Tokens.antt =====
-- C_GetSlotList, C_GetSlotInfo, C_GetTokenInfo, C_GetMechanismList and C_GetMechanismInfo
-- (pkcs11/src/api/token.rs), `is_connected` (config/device.rs) and `ck_info`
-- (backend/mechanism.rs).
use text.Mathlib.Text.{◌==◌ as str_eq}
use nethsm_pkcs.Common.{
  ℕ, ◌+◌, String, Bool, true, false, not, Option, none, some, List, [], ◌∷◌, map, Result, ok, err,
  length, bit_or, ltb, if◌then◌else◌,
}
use nethsm_pkcs.Constants
use nethsm_pkcs.Errors.{UserMode, ApiError}
use nethsm_pkcs.Mechanism.{
  Mechanism, rsa_pkcs, rsa_pkcs_pss, rsa_x509, rsa_pkcs_oaep, generate_generic, generate_aes,
  generate_rsa, generate_ec, generate_ed,
}
use nethsm_pkcs.Mechanism.Raw.{ck_type}
use nethsm_pkcs.Mechanism.Info.{ck_flags, mechanism_list, find_mechanism}
use nethsm_pkcs.Service.{Configuration, ApiCall, Service}
use nethsm_pkcs.Login.{LoginCtx, Run, returns, panics, runs_out, ◌>>=◌, can_run_mode}
use nethsm_pkcs.Login
use nethsm_pkcs.Login.Calls.{try_}
use nethsm_pkcs.Session.{Slot}
use nethsm_pkcs.Events.{SystemState, is_operational}
use nethsm_pkcs.Api.{Globals, Reply, just, sized, get_slot}
use nethsm_pkcs.Api.Versions.{
  CkVersion, padded_str, default_firmware_version, default_hardware_version,
  version_struct_from_str,
}

pub record InfoData : Type 0 where
  pub product : String
  pub vendor : String

pub record SystemInfo : Type 0 where
  pub device_id : String
  pub hardware_version : String
  pub software_version : String

-- The client's functions for the device, and the bytes of a text.
pub record DeviceService (W : Type 0) : Type 0 where
  pub service : Service W
  pub to_utf8 : String → List ℕ
  pub info_get : ApiCall W InfoData
  pub health_state_get : ApiCall W SystemState
  pub system_info_get : ApiCall W SystemInfo

-- CK_SLOT_INFO, CK_TOKEN_INFO (the fields that are set) and CK_MECHANISM_INFO.
pub record SlotInfo : Type 0 where
  pub slot_description : List ℕ
  pub manufacturer_id : List ℕ
  pub flags : ℕ
  pub hardware_version : CkVersion
  pub firmware_version : CkVersion

pub record TokenInfo : Type 0 where
  pub label : List ℕ
  pub manufacturer_id : List ℕ
  pub model : List ℕ
  pub serial_number : List ℕ
  pub flags : ℕ
  pub hardware_version : CkVersion
  pub firmware_version : CkVersion

pub record MechanismInfo : Type 0 where
  pub min_key_size : ℕ
  pub max_key_size : ℕ
  pub flags : ℕ

has_password : Configuration → Bool
has_password c = elim c.basic_auth [
  | none ↦ false
  | some (name, none) ↦ false
  | some (name, some password) ↦ not (str_eq password "")
]

unfoldable pub is_connected : Slot → Bool
unfolding has_password
is_connected slot = elim slot.instances [ [] ↦ false | c ∷ rest ↦ has_password c ]

key_bits : Mechanism → ℕ × ℕ
key_bits (Mechanism.aes_cbc iv) = (128, 256)
key_bits generate_aes = (128, 256)
key_bits (rsa_pkcs digest) = (1024, 8192)
key_bits (rsa_pkcs_pss digest pre_hash) = (1024, 8192)
key_bits rsa_x509 = (1024, 8192)
key_bits generate_rsa = (1024, 8192)
key_bits (Mechanism.ecdsa digest) = (224, 521)
key_bits generate_ec = (224, 521)
key_bits (rsa_pkcs_oaep digest) = (1024, 8192)
key_bits Mechanism.ed_dsa = (256, 256)
key_bits generate_ed = (256, 256)
key_bits generate_generic = (128, 256)

unfoldable pub ck_info : Mechanism → MechanismInfo
unfolding key_bits
ck_info m = record {
  min_key_size = (key_bits m).0;
  max_key_size = (key_bits m).1;
  flags = ck_flags m;
}

-- `enumerate` without the values.
unfoldable pub ids_from : {A : Type 0} → ℕ → List A → List ℕ
ids_from i [] = []
ids_from i (a ∷ as_) = i ∷ ids_from (i + 1) as_

-- What C_GetSlotList and C_GetMechanismList do with a list: the size that is asked for, the
-- refusal of a small buffer, or the copy. `room` is the value at the pointer to the length.
unfoldable pub list_reply : List ℕ → Bool → ℕ → Reply
list_reply items false room = sized Constants.ckr_ok (length items)
list_reply items true room =
    if ltb room (length items)
    then sized Constants.ckr_buffer_too_small (length items)
    else record { rv = Constants.ckr_ok; written = some (length items); bytes = items }

-- `pSlotList` says whether the pointer is there, and `pulCount` is the value at the other.
unfoldable pub c_get_slot_list : Bool → Option ℕ → Globals → Reply
unfolding ids_from list_reply
c_get_slot_list pSlotList none g = just Constants.ckr_arguments_bad
c_get_slot_list pSlotList (some room) g = elim g.slots [
  | none ↦ just Constants.ckr_cryptoki_not_initialized
  | some slots ↦ list_reply (ids_from 0 slots) pSlotList room
]

unfoldable pub c_get_mechanism_list : ℕ → Bool → Option ℕ → Globals → Reply
unfolding get_slot list_reply
c_get_mechanism_list slotID pMechanismList none g = just Constants.ckr_arguments_bad
c_get_mechanism_list slotID pMechanismList (some room) g = elim (get_slot slotID g) [
  | err rv ↦ just rv
  | ok slot ↦ list_reply (map ck_type mechanism_list) pMechanismList room
]

unfoldable pub c_get_mechanism_info : ℕ → ℕ → Bool → Globals → ℕ × Option MechanismInfo
unfolding get_slot find_mechanism ck_info
c_get_mechanism_info slotID type_ pInfo g = elim (get_slot slotID g) [
  | err rv ↦ (rv, none)
  | ok slot ↦
      if pInfo
      then elim (find_mechanism type_ mechanism_list) [
        | none ↦ (Constants.ckr_mechanism_invalid, none)
        | some mechanism ↦ (Constants.ckr_ok, some (ck_info mechanism))
      ]
      else (Constants.ckr_arguments_bad, none)
]

module _ {W : Type 0} (d : DeviceService W) where
  info_or_unknown : Result ApiError InfoData → InfoData
  info_or_unknown (ok info) = info
  info_or_unknown (err e) = record { product = "unknown"; vendor = "unknown" }

  unfoldable pub slot_info : Slot → W → Run (SlotInfo × W)
  unfolding try_ padded_str info_or_unknown
  slot_info slot w = do
    (info, c, w') ←
        try_ d.service d.info_get UserMode.guest (Login.new none none slot.instances slot.retries) w
    (state, c', w'') ← try_ d.service d.health_state_get UserMode.guest c w'
    returns (
      record {
        slot_description = padded_str 64 (d.to_utf8 (info_or_unknown info).product);
        manufacturer_id = padded_str 32 (d.to_utf8 (info_or_unknown info).vendor);
        flags = if is_operational state then Constants.ckf_token_present else 0;
        hardware_version = default_hardware_version;
        firmware_version = default_firmware_version;
      },
      w'',
    )

  unfoldable pub c_get_slot_info : ℕ → Bool → Globals → W → Run ((ℕ × Option SlotInfo) × W)
  unfolding get_slot slot_info
  c_get_slot_info slotID false g w = returns ((Constants.ckr_arguments_bad, none), w)
  c_get_slot_info slotID true g w = elim (get_slot slotID g) [
    | err rv ↦ returns ((rv, none), w)
    | ok slot ↦ do (info, w') ← slot_info slot w; returns ((Constants.ckr_ok, some info), w')
  ]

  -- Where there is no administrator that can be asked, or no answer, the fields keep their defaults.
  system_info : LoginCtx → W → Run (Option SystemInfo × W)
  unfolding can_run_mode try_
  system_info c w =
      if can_run_mode c UserMode.administrator
      then (do
        (response, c', w') ← try_ d.service d.system_info_get UserMode.administrator c w
        elim response [ ok info ↦ returns (some info, w') | err e ↦ returns (none, w') ])
      else returns (none, w)

  token_flags : Slot → ℕ
  unfolding is_connected
  token_flags slot =
      let flags =
        bit_or (bit_or Constants.ckf_token_initialized Constants.ckf_user_pin_initialized)
          Constants.ckf_rng in
      if is_connected slot then flags else bit_or flags Constants.ckf_login_required

  unfoldable pub token_info : Slot → InfoData → Option SystemInfo → TokenInfo
  unfolding token_flags padded_str version_struct_from_str
  token_info slot info system = record {
    label = padded_str 32 (d.to_utf8 slot.label);
    manufacturer_id = padded_str 32 (d.to_utf8 info.vendor);
    model = padded_str 16 (d.to_utf8 info.product);
    serial_number =
        padded_str 16 (d.to_utf8 (elim system [ none ↦ "unknown" | some s ↦ s.device_id ]));
    flags = token_flags slot;
    hardware_version = elim system [
      | none ↦ default_hardware_version
      | some s ↦ version_struct_from_str s.hardware_version
    ];
    firmware_version = elim system [
      | none ↦ default_firmware_version
      | some s ↦ version_struct_from_str s.software_version
    ];
  }

  described : Slot → W → Run ((ℕ × Option TokenInfo) × W)
  unfolding try_ system_info token_info
  described slot w = do
    (info, c, w') ←
        try_ d.service d.info_get UserMode.guest
          (Login.new none slot.administrator slot.instances slot.retries) w
    elim info [
      | err e ↦ returns ((Constants.ckr_function_failed, none), w')
      | ok i ↦ do
        (system, w'') ← system_info c w'
        returns ((Constants.ckr_ok, some (token_info slot i system)), w'')
    ]

  unfoldable pub c_get_token_info : ℕ → Bool → Globals → W → Run ((ℕ × Option TokenInfo) × W)
  unfolding get_slot described
  c_get_token_info slotID pInfo g w = elim (get_slot slotID g) [
    | err rv ↦ returns ((rv, none), w)
    | ok slot ↦ if pInfo then described slot w else returns ((Constants.ckr_arguments_bad, none), w)
  ]
