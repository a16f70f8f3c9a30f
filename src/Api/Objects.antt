-- ===== src/Api/Objects.antt =====
-- C_FindObjects, C_FindObjectsFinal and C_GetAttributeValue (pkcs11/src/api/object.rs).
use nethsm_pkcs.Common.{
  ℕ, ◌≤◌, ◌≡◌, inl, inr, Option-cases, Bool, true, false, Option, none, some, List, ok, err, length,
  arith,
}
use nethsm_pkcs.Constants
use nethsm_pkcs.Errors.{error_rv}
use nethsm_pkcs.Login.{Run, returns}
use nethsm_pkcs.Db.{object}
use nethsm_pkcs.Db.Attributes.{CkRawAttr, fill_attr_template}
use nethsm_pkcs.Session.{Session}
use nethsm_pkcs.Session.Finding.{length-next_chunck, enum_next_chunk, enum_final}
use nethsm_pkcs.Manager.{get_session}
use nethsm_pkcs.Api.{Globals, Reply, just, Handler, lock_session}

-- The reply's `bytes` are the handles that are copied.
unfoldable pub find_objects_handler : {W : Type 0} → ℕ → Handler W
unfolding enum_next_chunk
find_objects_handler max_count s w =
    let (result, s') = enum_next_chunk max_count s in
    elim result [
      | err e ↦ returns (just (error_rv e), s', w)
      | ok handles ↦ returns (
        record { rv = Constants.ckr_ok; written = some (length handles); bytes = handles },
        s',
        w,
      )
    ]

-- `phObject` and `pulObjectCount` say whether the pointers are there.
unfoldable pub c_find_objects :
    {W : Type 0} → ℕ → Bool → ℕ → Bool → Globals → W → Run (Reply × Globals × W)
unfolding lock_session find_objects_handler
c_find_objects hSession false max_count count g w = returns (just Constants.ckr_arguments_bad, g, w)
c_find_objects hSession true max_count false g w = returns (just Constants.ckr_arguments_bad, g, w)
c_find_objects hSession true max_count true g w =
    lock_session hSession (find_objects_handler max_count) g w

unfoldable pub c_find_objects_final : {W : Type 0} → ℕ → Globals → W → Run (Reply × Globals × W)
unfolding lock_session enum_final
c_find_objects_final hSession g w =
    lock_session hSession (λ s w. returns (just Constants.ckr_ok, enum_final s, w)) g w

-- The return value, and the template after the call.
unfoldable pub c_get_attribute_value :
    ℕ → ℕ → Option (List CkRawAttr) → Globals → ℕ × Option (List CkRawAttr)
unfolding fill_attr_template
c_get_attribute_value hSession hObject none g = (Constants.ckr_arguments_bad, none)
c_get_attribute_value hSession hObject (some tpl) g = elim (get_session hSession g.manager) [
  | none ↦ (Constants.ckr_session_handle_invalid, some tpl)
  | some s ↦ elim (object (g.dbs s.db) hObject) [
    | none ↦ (Constants.ckr_object_handle_invalid, some tpl)
    | some obj ↦ let (rv, tpl') = fill_attr_template obj tpl in (rv, some tpl')
  ]
]

-- C_FindObjects, where it returns CKR_OK, copies at most as many handles as its caller has room
-- for, and writes their number.
pub find_objects_fit :
    {W : Type 0} (max_count : ℕ) (s s' : Session) (w w' : W) (reply : Reply)
    → find_objects_handler max_count s w ≡ returns (reply, s', w')
    → reply.rv ≡ Constants.ckr_ok
    → (length reply.bytes ≤ max_count) × (reply.written ≡ some (length reply.bytes))
unfolding find_objects_handler
find_objects_fit max_count s s' w w' reply h p = elim (Option-cases s.enum_ctx) [
  | inl e ↦ unfold error_rv in ground arith
  | inr (c, e) ↦ ground (arith, length-next_chunck max_count c)
]
