-- ===== src/Examples/UserCommands.antt =====
-- A request that sets the access of a user, over the tables of the other examples.
use phosphor_host_ipmid.Prelude.{
  ◌≡◌, ◌≢◌, refl, ap, sym, ◌∙◌, Bool, true, false, not, List, none, ◌==◌, get_or,
}
use phosphor_host_ipmid.User.Privilege.{
  is_valid_privilege, is_valid_priv_limit, is_valid_user_id, convert_to_ipmi_privilege,
  convert_to_system_privilege, is_valid_channel as is_user_channel,
}
use phosphor_host_ipmid.User.Table.{no_user, no_users}
use phosphor_host_ipmid.User.Store.{
  UserEntry, entries_of, entry_of, read_users, read_user, read_channels,
  update_payload_access_in_user_info,
}
use phosphor_host_ipmid.User.Access.{
  Access, check_and_reload_user_data, read_user_data, get_user_info, write_user_data, issue,
}
use phosphor_host_ipmid.User.Commands.{set_user_privilege_access}
use phosphor_host_ipmid.User.Layer.{ipmi_user_set_privilege_access}
use phosphor_host_ipmid.User.Handlers.{SetUserAccess, ipmi_set_user_access}
use phosphor_host_ipmid.User.Handlers.Guards.{Accepted, ipmi_set_user_access-Accepted}
use phosphor_host_ipmid.Channel.Commands.{session_support}
use phosphor_host_ipmid.Channel.Access.{is_valid_channel}
use phosphor_host_ipmid.Examples.Channel.{start as channels}
use phosphor_host_ipmid.Examples.User.{disk, start}

abbrev request : SetUserAccess
request = record {
  channel = 0;
  ipmi_enabled = true;
  link_auth_enabled = false;
  access_callback = false;
  bits_update = true;
  user_id = 2;
  reserved1 = 0;
  privilege = 4;
  reserved2 = 0;
  session_limit = none;
}

-- Whether the second user has a name.
abbrev named : Access (List UserEntry) → Bool
named s = not (get_or (get_or s.users_tbl 2 no_user).user_name 0 0 == 0)

request-named : named (ipmi_set_user_access disk channels 0 request (start no_users)).1 ≡ true
unfolding ipmi_set_user_access is_valid_channel session_support is_valid_user_id is_valid_privilege
    is_valid_priv_limit ipmi_user_set_privilege_access set_user_privilege_access get_user_info
    check_and_reload_user_data read_user_data read_users read_user read_channels
    convert_to_ipmi_privilege update_payload_access_in_user_info convert_to_system_privilege issue
    write_user_data entries_of entry_of is_user_channel
request-named = refl

request-changes : (ipmi_set_user_access disk channels 0 request (start no_users)).1 ≢ start no_users
request-changes e = let h : true ≡ false = sym request-named ∙ ap named e in cc

ipmi_set_user_access-Accepted_example : Accepted channels 0 2 × (false ≡ false)
unfolding is_valid_privilege is_valid_priv_limit
ipmi_set_user_access-Accepted_example =
    ipmi_set_user_access-Accepted disk channels 0 request (start no_users) request-changes
