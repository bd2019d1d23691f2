-- ===== src/User/Sync.antt =====
-- cacheUserDataFile of user_channel/user_mgmt.cpp, which reads the table, or makes a new one, and
-- brings it in step with the users of the system. The registration of the signals is left out.
pub mod Losing
use phosphor_host_ipmid.Prelude.{
  zero, ℕ, suc, Bool, true, false, not, ◌&&◌, ◌||◌, List, [], ◌∷◌, Option, none, some, ◌==◌,
  if◌then◌else◌, get_or, bit_and, same,
}
use phosphor_host_ipmid.User.Privilege.{
  ipmi_max_users, usr_mgmt_sync_index, convert_to_ipmi_privilege,
}
use phosphor_host_ipmid.User.Table.{UserInfo, first_users, no_priv_access, cur_name}
use phosphor_host_ipmid.User.Store.{Result, ok, err, ios_failure, out_of_range}
use phosphor_host_ipmid.User.Access.{
  DbusUserObjValue, System, get_managed_objects, Access, Action, ◌>>=◌, ◌>>◌, pure, gets, or_raise,
  user_at, modify_user, issue, read_user_data, write_user_data, delete_user_index, add_user_entry,
}
use phosphor_host_ipmid.User.Names.{
  user_path, has_group, ipmi_grp_name, get_user_name_from_path, UserProperties, new_properties,
  get_user_obj_properties, raise_error, as_objects, catch_bus_error,
}
use phosphor_host_ipmid.User.Events.{follow_privilege}

abbrev Objects : Type 0
Objects = List (List ℕ × DbusUserObjValue)

abbrev find_object : List ℕ → Objects → Option DbusUserObjValue
find_object path [] = none
find_object path ((p, v) ∷ os) = if same path p then some v else find_object path os

abbrev erase_object : List ℕ → Objects → Objects
erase_object path [] = []
erase_object path ((p, v) ∷ os) = if same path p then os else (p, v) ∷ erase_object path os

abbrev same_flag : Bool → Bool → Bool
same_flag true b = b
same_flag false b = not b

-- A file that cannot be opened is made anew; other exceptions leave the method.
abbrev catch_ios_failure :
    {B : Type 0} → Result Unit × Access B → Action B Unit → Result Unit × Access B
catch_ios_failure (ok t, s) make = (ok t, s)
catch_ios_failure (err ios_failure, s) make = make s
catch_ios_failure (err f, s) make = (err f, s)

module _ {B : Type 0} (system : System B) where
  unfoldable pub read_or_create : Action B Unit
  read_or_create s =
      catch_ios_failure (read_user_data system s)
        (λ t. write_user_data system (record t { users_tbl = first_users }))

  -- A user that is in the group: its privilege and whether it is enabled. The result says whether
  -- the table changed.
  abbrev update_user : ℕ → UserProperties → Action B Bool
  update_user usr_idx u = do
    converted ← or_raise out_of_range (convert_to_ipmi_privilege u.usr_priv)
    before ← gets (user_at usr_idx)
    modify_user usr_idx
        (λ v. record (follow_privilege (bit_and converted 15) v) { user_enabled = u.usr_enabled })
    pure (
        not (
          (get_or before.user_priv_access usr_mgmt_sync_index no_priv_access).privilege
          == bit_and converted 15)
        || not (same_flag before.user_enabled u.usr_enabled))

  abbrev sync_found : ℕ → Bool × UserProperties → Action B Bool
  sync_found usr_idx (found, u) =
      if not (has_group ipmi_grp_name u.usr_grps)
      then delete_user_index system usr_idx >> pure true
      else update_user usr_idx u

  abbrev sync_object : ℕ → Option DbusUserObjValue → Action B Bool
  sync_object usr_idx none = delete_user_index system usr_idx >> pure true
  sync_object usr_idx (some v) =
      raise_error (get_user_obj_properties v new_properties) >>= sync_found usr_idx

  -- One round of the first loop, with the objects that are left and whether a write is needed.
  abbrev sync_user : ℕ → Objects → Bool → UserInfo → Action B (Objects × Bool)
  sync_user usr_idx os required u =
      if u.user_in_system && not (get_or u.user_name 0 0 == 0)
      then sync_object usr_idx (find_object (user_path (cur_name u)) os)
        >>= (λ changed. pure (erase_object (user_path (cur_name u)) os, changed || required))
      else pure (os, required)

  unfoldable pub sync_users : ℕ → ℕ → Objects → Bool → Action B (Objects × Bool)
  sync_users zero usr_idx os required = pure (os, required)
  sync_users (suc rounds) usr_idx os required = do
    u ← gets (user_at usr_idx)
    left ← sync_user usr_idx os required u
    sync_users rounds (suc usr_idx) left.0 left.1

  -- The second loop adds the other users of the group; it ends when one cannot be added.
  abbrev add_object : (Bool → Action B Bool) → Bool → List ℕ → Bool × UserProperties → Action B Bool
  add_object rest required user_name (found, u) =
      if has_group ipmi_grp_name u.usr_grps
      then add_user_entry system user_name u.usr_priv u.usr_enabled
        >>= (λ added. if added then rest true else pure true)
      else rest required

  abbrev add_named :
      (Bool → Action B Bool) → Bool → Option (List ℕ) → DbusUserObjValue → Action B Bool
  add_named rest required none v = rest required
  add_named rest required (some user_name) v =
      raise_error (get_user_obj_properties v new_properties) >>= add_object rest required user_name

  unfoldable pub add_objects : Objects → Bool → Action B Bool
  add_objects [] required = pure required
  add_objects ((path, v) ∷ os) required =
      add_named (add_objects os) required (get_user_name_from_path path) v

  abbrev write_if : Bool → Action B Unit
  write_if true = write_user_data system
  write_if false = pure tt

  unfoldable pub sync_objects : Objects → Action B Unit
  sync_objects os = do
    left ← sync_users ipmi_max_users 1 os false
    required ← add_objects left.0 left.1
    write_if required

  unfoldable pub cache_user_data_file : Action B Unit
  cache_user_data_file = do
    read_or_create
    λ s.
        catch_bus_error ((issue system get_managed_objects >>= as_objects) s) sync_objects (pure tt)
