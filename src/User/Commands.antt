-- ===== src/User/Commands.antt =====
-- The operations of class UserAccess (user_channel/user_mgmt.cpp) that the commands call. The code
-- that a method returns is a number; an exception leaves it.
use phosphor_host_ipmid.User.Access.{
  set_user_privilege, renamed, PamResult, pam_success, pam_authtok_err, pam_other, create_user,
  note_call, Access, delete_user_index, gets, check_and_reload_user_data, delete_user, or_raise,
  rename_user, set_user_enabled, System, Action, ◌>>=◌, ◌>>◌, pure, raise, modify_user, issue,
  write_or_unspecified, Call, get_user_info,
}
use phosphor_host_ipmid.User.Table.{
  no_priv_access, find_user, c_string, UserPrivAccess, PayloadAccess, UserInfo, cur_name, padded,
  modify_at,
}
use phosphor_host_ipmid.Prelude.{
  get_or, none, some, drop, take, [], same, ℕ, Bool, true, false, not, ◌&&◌, ◌||◌, List, ◌∷◌, ◌==◌,
  ltb, if◌then◌else◌, length,
}
use phosphor_host_ipmid.User.Privilege.{
  usr_mgmt_sync_index, invalid_user_id, convert_to_system_privilege, is_valid_channel,
  ipmi_max_user_name, is_valid_user_id,
}
use Prim.Native.String.{String}
use phosphor_host_ipmid.User.Names.{
  is_valid_user_name, is_ipmi_in_available_group_list, user_path, catch_bus_error,
}
use phosphor_host_ipmid.User.Store.{Result, ok, out_of_range, overrun}
use phosphor_host_ipmid.Codes.{
  cc_invalid_field_request, cc_success, cc_parm_out_of_range, cc_unspecified_error,
}

abbrev same_flag : Bool → Bool → Bool
same_flag true b = b
same_flag false b = not b

-- `|=` and `&= ~` of std::bitset
abbrev pub bits_or : List Bool → List Bool → List Bool
bits_or (a ∷ as') (b ∷ bs) = (a || b) ∷ bits_or as' bs
bits_or as' bs = as'

abbrev pub bits_and_not : List Bool → List Bool → List Bool
bits_and_not (a ∷ as') (b ∷ bs) = (a && not b) ∷ bits_and_not as' bs
bits_and_not as' bs = as'

abbrev pub enable_payloads : PayloadAccess → PayloadAccess → PayloadAccess
enable_payloads p a = record a {
  std_payload_enables1 = bits_or a.std_payload_enables1 p.std_payload_enables1;
  oem_payload_enables1 = bits_or a.oem_payload_enables1 p.oem_payload_enables1;
}

abbrev pub disable_payloads : PayloadAccess → PayloadAccess → PayloadAccess
disable_payloads p a = record a {
  std_payload_enables1 = bits_and_not a.std_payload_enables1 p.std_payload_enables1;
  oem_payload_enables1 = bits_and_not a.oem_payload_enables1 p.oem_payload_enables1;
}

abbrev pub change_payloads : ℕ → (PayloadAccess → PayloadAccess) → UserInfo → UserInfo
change_payloads ch f u = record u { payload_access = modify_at ch f u.payload_access }

-- The privilege of a channel, and the other marks if `other_priv_updates`.
abbrev pub change_access : ℕ → UserPrivAccess → Bool → UserInfo → UserInfo
change_access ch p other_priv_updates u = record u {
  user_priv_access =
      modify_at ch (λ a. if other_priv_updates then p else record a { privilege = p.privilege })
        u.user_priv_access;
}

-- memset and memcpy: nothing checks that the name fits.
abbrev store_name : {B : Type 0} → ℕ → List ℕ → Action B Unit
store_name user_id user_name =
    if ltb ipmi_max_user_name (length user_name)
    then raise overrun
    else modify_user user_id (λ u. record u { user_name = padded user_name })

abbrev mark_in_system : {B : Type 0} → ℕ → Action B Unit
mark_in_system user_id = modify_user user_id (λ u. record u { user_in_system = true })

module _ {B : Type 0} (system : System B) where
  -- A call in a try block: ccUnspecifiedError if it fails.
  abbrev try_call : Call → Action B ℕ → Action B ℕ
  try_call c rest s = catch_bus_error (issue system c s) (λ _. rest) (pure cc_unspecified_error)

  unfoldable pub set_user_enabled_state : ℕ → Bool → Action B ℕ
  set_user_enabled_state user_id enabled_state =
      if not (is_valid_user_id user_id)
      then pure cc_parm_out_of_range
      else get_user_info system user_id >>= change
    where
      change : UserInfo → Action B ℕ
      change u =
          if length (cur_name u) == 0
          then pure cc_unspecified_error
          else if same_flag u.user_enabled enabled_state
          then pure cc_success
          else do
            reply ← issue system (set_user_enabled (user_path (cur_name u)) enabled_state)
            modify_user user_id (λ v. record v { user_enabled = enabled_state })
            write_or_unspecified system

  unfoldable pub set_user_payload_access : ℕ → ℕ → ℕ → PayloadAccess → Action B ℕ
  set_user_payload_access ch_num operation user_id payload_access =
      if not (is_valid_channel ch_num)
      then pure cc_invalid_field_request
      else if not (is_valid_user_id user_id)
      then pure cc_parm_out_of_range
      else if not (operation == 0) && not (operation == 1)
      then pure cc_invalid_field_request
      else do
        check_and_reload_user_data system
        modify_user user_id (
            change_payloads ch_num (
              if operation == 0
              then enable_payloads payload_access
              else disable_payloads payload_access))
        write_or_unspecified system

  -- The system's privilege follows that of the channel at the sync index.
  abbrev sync_privilege : ℕ → UserInfo → UserPrivAccess → String → Action B Unit
  sync_privilege ch_num u priv_access priv =
      if ch_num == usr_mgmt_sync_index
        && not (
            priv_access.privilege
            == (get_or u.user_priv_access usr_mgmt_sync_index no_priv_access).privilege)
      then issue system (set_user_privilege (user_path (cur_name u)) priv) >>= (λ _. pure tt)
      else pure tt

  unfoldable pub set_user_privilege_access : ℕ → ℕ → UserPrivAccess → Bool → Action B ℕ
  set_user_privilege_access user_id ch_num priv_access other_priv_updates =
      if not (is_valid_channel ch_num)
      then pure cc_invalid_field_request
      else if not (is_valid_user_id user_id)
      then pure cc_parm_out_of_range
      else get_user_info system user_id >>= change
    where
      change : UserInfo → Action B ℕ
      change u = if length (cur_name u) == 0 then pure cc_unspecified_error else do
        priv ← or_raise out_of_range (convert_to_system_privilege priv_access.privilege)
        sync_privilege ch_num u priv_access priv
        modify_user user_id (change_access ch_num priv_access other_priv_updates)
        write_or_unspecified system

  unfoldable pub get_user_id : List ℕ → Action B ℕ
  get_user_id user_name = do
    check_and_reload_user_data system
    found ← gets (λ s. find_user user_name 1 (drop 1 s.users_tbl))
    pure (elim found [ some usr_index ↦ usr_index | none ↦ invalid_user_id ])

  -- The code, and the name that is assigned: as before if the id is not valid.
  unfoldable pub get_user_name : ℕ → List ℕ → Action B (ℕ × List ℕ)
  get_user_name user_id before =
      if not (is_valid_user_id user_id)
      then pure (cc_parm_out_of_range, before)
      else do u ← get_user_info system user_id; pure (cc_success, cur_name u)

  abbrev delete_existing : ℕ → List ℕ → Action B ℕ
  delete_existing user_id old_user =
      try_call (delete_user (user_path old_user))
        (delete_user_index system user_id >> write_or_unspecified system)

  -- The new user gets no privilege and is not enabled.
  abbrev create_new : ℕ → List ℕ → Action B ℕ
  create_new user_id user_name s =
      catch_bus_error (is_ipmi_in_available_group_list system s)
        (λ ipmi t.
          if not ipmi
          then (ok cc_unspecified_error, t)
          else try_call (create_user (c_string user_name) t.available_groups "" false)
              (do store_name user_id user_name; mark_in_system user_id; write_or_unspecified system)
              t)
        (pure cc_unspecified_error)

  abbrev rename_existing : ℕ → List ℕ → List ℕ → Action B ℕ
  rename_existing user_id old_user user_name =
      try_call (rename_user (c_string old_user) (c_string user_name)) (do
        store_name user_id user_name
        note_call (renamed old_user user_name)
        mark_in_system user_id
        write_or_unspecified system)

  abbrev change_name : ℕ → List ℕ → List ℕ → Bool → Action B ℕ
  change_name user_id old_user user_name valid_user =
      if length user_name == 0 && not (length old_user == 0)
      then delete_existing user_id old_user
      else if length old_user == 0 && not (length user_name == 0) && valid_user
      then create_new user_id user_name
      else if not (same old_user user_name) && valid_user
      then rename_existing user_id old_user user_name
      else if not valid_user
      then pure cc_invalid_field_request
      else write_or_unspecified system

  -- The same name is a success without a change.
  abbrev rename_from : ℕ → List ℕ → List ℕ → Action B ℕ
  rename_from user_id old_user user_name = if same old_user user_name then pure cc_success else do
    valid_user ← is_valid_user_name system user_name
    check_and_reload_user_data system
    change_name user_id old_user user_name valid_user

  unfoldable pub set_user_name : ℕ → List ℕ → Action B ℕ
  unfolding get_user_name
  set_user_name user_id user_name =
      if not (is_valid_user_id user_id)
      then pure cc_parm_out_of_range
      else do old ← get_user_name user_id []; rename_from user_id old.1 user_name

  abbrev password_code : PamResult × B → Access B → Result ℕ × Access B
  password_code (pam_success, b) s = (ok cc_success, record s { bus = b })
  password_code (pam_authtok_err, b) s = (ok cc_invalid_field_request, record s { bus = b })
  password_code (pam_other, b) s = (ok cc_unspecified_error, record s { bus = b })

  abbrev update_password : ℕ × List ℕ → List ℕ → Action B ℕ
  update_password named user_password s =
      if not (named.0 == cc_success)
      then (ok cc_parm_out_of_range, s)
      else password_code (system.update_passwd named.1 (take 20 (c_string user_password)) s.bus) s

  -- A password has up to 20 characters.
  unfoldable pub set_user_password : ℕ → List ℕ → Action B ℕ
  unfolding get_user_name
  set_user_password user_id user_password = do
    named ← get_user_name user_id []
    update_password named user_password
