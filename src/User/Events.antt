-- ===== src/User/Events.antt =====
-- The signals of the user manager that user_channel/user_mgmt.cpp follows: userUpdateHelper and
-- userUpdatedSignalHandler.
use phosphor_host_ipmid.User.Names.{
  new_properties, get_user_obj_properties, with_priv, with_grps, with_enabled, has_group,
  ipmi_grp_name, get_user_name_from_path, UserProperties, get_user_properties, raise_error,
  as_properties, catch_bus_error,
}
use phosphor_host_ipmid.Prelude.{
  length, ◌∷◌, ℕ, Bool, true, false, not, List, [], Option, none, some, ◌==◌, if◌then◌else◌, get_or,
  drop, bit_and, ◌&&◌,
}
use phosphor_host_ipmid.User.Access.{
  PropVariant, DbusUserObjProperties, DbusUserObjValue, System, renamed, Action, ◌>>=◌, ◌>>◌, pure,
  gets, or_raise, modify_user, note_call, get_user_properties_call, issue, write_user_data,
  check_and_reload_user_data, delete_user_index, add_user_entry,
}
use text.Mathlib.Text.{◌==◌ as str_eq}
use Prim.Native.String.{String}
use phosphor_host_ipmid.User.Privilege.{usr_mgmt_sync_index, convert_to_ipmi_privilege}
use phosphor_host_ipmid.User.Table.{UserInfo, no_priv_access, copy_name, find_user, with_privileges}
use phosphor_host_ipmid.User.Store.{out_of_range}

-- UserUpdateEvent, with what each event carries.
pub data UserUpdateEvent : Type 0 where
  user_created : String → Bool → UserUpdateEvent
  user_deleted : UserUpdateEvent
  user_renamed : List ℕ → UserUpdateEvent
  user_priv_updated : String → UserUpdateEvent
  user_state_updated : Bool → UserUpdateEvent

-- The signals: what msg.read gives. An unknown signal is logged only.
pub data Signal : Type 0 where
  interfaces_added : List ℕ → DbusUserObjValue → Signal
  interfaces_removed : List ℕ → Signal
  user_renamed_signal : List ℕ → List ℕ → Signal
  properties_changed : List ℕ → DbusUserObjProperties → Signal
  other_signal : Signal

-- Where the path is no user's, the name stays empty.
abbrev pub name_of_path : List ℕ → List ℕ
name_of_path path = elim (get_user_name_from_path path) [ none ↦ [] | some name ↦ name ]

-- A change of the privilege at the sync index is taken over to all channels.
abbrev pub follow_privilege : ℕ → UserInfo → UserInfo
follow_privilege priv u =
    if (get_or u.user_priv_access usr_mgmt_sync_index no_priv_access).privilege == priv
    then u
    else with_privileges priv u

module _ {B : Type 0} (system : System B) where
  abbrev apply_event : UserUpdateEvent → List ℕ → ℕ → Action B Unit
  apply_event (user_created priv enabled) user_name usr_index = pure tt
  apply_event user_deleted user_name usr_index = delete_user_index system usr_index
  apply_event (user_renamed new_user_name) user_name usr_index = do
    modify_user usr_index (λ u. record u { user_name = copy_name new_user_name })
    note_call (renamed user_name new_user_name)
  apply_event (user_priv_updated priv) user_name usr_index = do
    user_priv ← or_raise out_of_range (convert_to_ipmi_privilege priv)
    modify_user usr_index (follow_privilege (bit_and user_priv 15))
  apply_event (user_state_updated enabled) user_name usr_index =
      modify_user usr_index (λ u. record u { user_enabled = enabled })

  abbrev event_at : UserUpdateEvent → List ℕ → Option ℕ → Action B Unit
  event_at event user_name none = pure tt
  event_at event user_name (some usr_index) =
      apply_event event user_name usr_index >> write_user_data system

  abbrev write_if : Bool → Action B Unit
  write_if true = write_user_data system
  write_if false = pure tt

  unfoldable pub user_update_helper : UserUpdateEvent → List ℕ → Action B Unit
  user_update_helper (user_created priv enabled) user_name = do
    check_and_reload_user_data system
    added ← add_user_entry system user_name priv enabled
    write_if added
  user_update_helper event user_name = do
    check_and_reload_user_data system
    found ← gets (λ s. find_user user_name 1 (drop 1 s.users_tbl))
    event_at event user_name found

  abbrev add_with : List ℕ → UserProperties → Action B (Option UserProperties)
  add_with user_name u =
      user_update_helper (user_created u.usr_priv u.usr_enabled) user_name >> pure (some u)

  -- A user whose groups changed: out of the table, or into it with all of its properties. `none` is
  -- the return from the handler.
  abbrev groups_updated : List ℕ → List ℕ → UserProperties → Action B (Option UserProperties)
  groups_updated path user_name u s =
      if not (has_group ipmi_grp_name u.usr_grps)
      then (user_update_helper user_deleted user_name >> pure (some u)) s
      else catch_bus_error ((issue system (get_user_properties_call path) >>= as_properties) s)
          (λ ps. raise_error (get_user_properties ps u) >>= add_with user_name) (pure none)

  -- One property of PropertiesChanged.
  abbrev property_changed :
      List ℕ → List ℕ → UserProperties → String → PropVariant → Action B (Option UserProperties)
  property_changed path user_name u member v =
      if str_eq member "UserPrivilege"
      then raise_error (with_priv u v)
        >>= (λ w. user_update_helper (user_priv_updated w.usr_priv) user_name >> pure (some w))
      else if str_eq member "UserGroups"
      then raise_error (with_grps u v) >>= groups_updated path user_name
      else if str_eq member "UserEnabled"
      then raise_error (with_enabled u v)
        >>= (λ w. user_update_helper (user_state_updated w.usr_enabled) user_name >> pure (some w))
      else pure (some u)

  abbrev go_on : Option UserProperties → (UserProperties → Action B Unit) → Action B Unit
  go_on none rest = pure tt
  go_on (some u) rest = rest u

  unfoldable pub properties_loop :
      List ℕ → List ℕ → DbusUserObjProperties → UserProperties → Action B Unit
  properties_loop path user_name [] u = pure tt
  properties_loop path user_name ((member, v) ∷ ps) u =
      property_changed path user_name u member v
      >>= (λ next. go_on next (properties_loop path user_name ps))

  -- The common part: a signal without a name is dropped.
  abbrev named : List ℕ → Action B Unit → Action B Unit
  named user_name rest =
      if length user_name == 0 then pure tt else check_and_reload_user_data system >> rest

  abbrev added_object : List ℕ → Bool × UserProperties → Action B Unit
  added_object user_name (found, u) =
      if found && has_group ipmi_grp_name u.usr_grps
      then named user_name (user_update_helper (user_created u.usr_priv u.usr_enabled) user_name)
      else pure tt

  unfoldable pub user_updated_signal_handler : Signal → Action B Unit
  user_updated_signal_handler (interfaces_added path value) =
      raise_error (get_user_obj_properties value new_properties)
      >>= added_object (name_of_path path)
  user_updated_signal_handler (interfaces_removed path) =
      named (name_of_path path) (user_update_helper user_deleted (name_of_path path))
  user_updated_signal_handler (user_renamed_signal user_name new_user_name) =
      if length new_user_name == 0
      then pure tt
      else named user_name (user_update_helper (user_renamed new_user_name) user_name)
  user_updated_signal_handler (properties_changed path ps) =
      named (name_of_path path) (properties_loop path (name_of_path path) ps new_properties)
  user_updated_signal_handler other_signal = pure tt
