-- ===== src/Examples/Channel.antt =====
-- A table of channels, and files that keep what is written to them.
use phosphor_host_ipmid.Channel.Data.{
  fault, channel_at, ChannelAccess, ChannelProperties, no_channel, no_access, Kind, non_volatile,
  volatile, AccessEntry, AccessEntries, entries, System, ChannelConfig, ok, thrown,
}
use phosphor_host_ipmid.Prelude.{
  ◌≢◌, ℕ, ◌≡◌, refl, ap, sym, arith, Bool, true, false, [], ◌∷◌, none, some, replicate, length, ◌<◌,
}
use mathlib.Core.List.{Permᴰ}
use mathlib.Core.List.Permᴰ
use phosphor_host_ipmid.Codes.{cc_success}
use phosphor_host_ipmid.Channel.Names.{
  convert_to_access_mode_index, convert_to_priv_limit_index, convert_to_access_mode_string,
  convert_to_priv_limit_string, is_valid_access_mode,
}
use phosphor_host_ipmid.User.Privilege.{is_valid_priv_limit}
use phosphor_host_ipmid.Channel.Store.{
  read_access, read_entries, entry_of, entries_of, read_channel_data, write_channel_data,
  check_and_reload,
}
use phosphor_host_ipmid.Channel.Store.Keeping.{but_settings, check_and_reload-only_settings}
use phosphor_host_ipmid.Channel.Store.Reload.{Keeps, write_channel_data-reload}
use phosphor_host_ipmid.Channel.Access.{
  is_valid_channel, check_channel, set_channel_access_data, get_channel_access,
}
use phosphor_host_ipmid.Channel.Access.Checks.{Merged, Succeeds}
use phosphor_host_ipmid.Channel.Commands.{
  current_ch_num, is_unsupported, session_support, ipmi_set_channel_access, ipmi_get_channel_access,
}
use phosphor_host_ipmid.Channel.Commands.SetGet.{
  active_request, active_query, access_of, ipmi_set_channel_access-get,
}
use phosphor_host_ipmid.Channel.Info.{ipmi_get_channel_payload_support}
use phosphor_host_ipmid.Channel.Info.Payloads.{ipmi_get_channel_payload_support-expected}
use phosphor_host_ipmid.Channel.Access.SetGet.{set_channel_access_data-get}

abbrev Files : Type 0
Files = AccessEntries × AccessEntries

abbrev pick : Kind → Files → AccessEntries
pick non_volatile b = b.0
pick volatile b = b.1

abbrev put : Kind → AccessEntries → Files → Files
put non_volatile es b = (es, b.1)
put volatile es b = (b.0, es)

abbrev disk : System Files
disk = record {
  read_config = λ b. none;
  read_file = λ kind b. entries (pick kind b);
  file_time = λ kind b. none;
  write_file = λ kind es b. (true, put kind es b);
  copy_default = λ kind b. (false, b);
  past_end = λ s. s;
  set_max_privilege = λ name priv b. (true, b);
  get_max_privilege = λ name b. (none, b);
  execute = λ command b. (false, b);
}

disk-kept :
    (kind : Kind) (es : AccessEntries) (b b' : Files)
    → disk.write_file kind es b ≡ (true, b')
    → 0 < length es
    → (read : AccessEntries) × (entries (pick kind b') ≡ entries read) × Permᴰ es read
disk-kept non_volatile es b b' e h =
    (es, sym (ap (λ (r : Bool × Files). entries r.1.0) e), Permᴰ.refl es)
disk-kept volatile es b b' e h =
    (es, sym (ap (λ (r : Bool × Files). entries r.1.1) e), Permᴰ.refl es)

disk-Keeps : Keeps disk
disk-Keeps = record { kept = disk-kept }

abbrev access : ℕ → ChannelAccess
access priv = record no_access { access_mode = 2; priv_limit = priv }

abbrev entry : AccessEntry
entry = record {
  access_mode = some "always_available";
  user_auth_disabled = some false;
  per_msg_auth_disabled = some false;
  alerting_disabled = some false;
  priv_limit = some "priv-admin";
}

-- A channel with sessions of the name "a".
abbrev lan : ChannelProperties
lan = record no_channel {
  ch_name = 97 ∷ [];
  is_ch_valid = true;
  ch_info = record {
    medium_type = 4;
    protocol_type = 1;
    session_supported = 2;
    is_ipmi = true;
    auth_type_supported = 1;
  };
  volatile_data = access 4;
  non_volatile_data = access 4;
}

abbrev file : AccessEntries
file = (some 0, some entry) ∷ []

abbrev pub start : ChannelConfig Files
start = record {
  channel_data = lan ∷ replicate 15 no_channel;
  signal_flag = 0;
  nv_file_last_updated_time = none;
  volt_file_last_updated_time = none;
  bus = (file, file);
}

start-entries : entries_of volatile 0 start.channel_data ≡ some file
unfolding entries_of entry_of convert_to_access_mode_string convert_to_priv_limit_string
start-entries = refl

start-written : (write_channel_data disk volatile start).0 ≡ ok true
unfolding write_channel_data entries_of entry_of convert_to_access_mode_string
    convert_to_priv_limit_string
start-written = refl

write_channel_data-reload_example :
    let t = (write_channel_data disk volatile start).1 in
    (t.channel_data ≡ start.channel_data) × (check_and_reload disk volatile t ≡ (ok true, t))
write_channel_data-reload_example =
    write_channel_data-reload disk disk-Keeps volatile start file (omega arith) start-entries
      (omega arith) start-written

-- A state that does not have the settings of the file.
abbrev unread : ChannelConfig Files
unread = record start { channel_data = replicate 16 no_channel }

unread-inside : (check_and_reload disk volatile unread).0 ≢ fault
unfolding check_and_reload read_channel_data read_entries read_access convert_to_access_mode_index
    convert_to_priv_limit_index
unread-inside = λ e. cc

check_and_reload-only_settings_example :
    but_settings volatile (check_and_reload disk volatile unread).1 ≡ but_settings volatile unread
check_and_reload-only_settings_example =
    check_and_reload-only_settings disk volatile unread unread-inside

start-set : (set_channel_access_data disk 0 (access 3) 16 start).0 ≡ ok cc_success
unfolding set_channel_access_data check_channel is_valid_channel check_and_reload read_channel_data
    read_entries read_access convert_to_access_mode_index convert_to_priv_limit_index
    write_channel_data entries_of entry_of convert_to_access_mode_string
    convert_to_priv_limit_string is_valid_priv_limit
start-set = refl

set_channel_access_data-get_example :
    let old = channel_at 0 (check_and_reload disk volatile start).1 in
    let r = (set_channel_access_data disk 0 (access 3) 16 start).1 in
    (now : ChannelAccess) × (get_channel_access disk volatile 0 r ≡ (ok (cc_success, now), r))
    × Merged 16 (access 3) old.volatile_data now
set_channel_access_data-get_example =
    set_channel_access_data-get disk disk-Keeps 0 (access 3) 16 start refl start-set

-- The channel of the request is the current one.
command-sets :
    Succeeds
      (ipmi_set_channel_access disk 0 (active_request current_ch_num 2 false true false 3) start)
unfolding ipmi_set_channel_access is_unsupported session_support set_channel_access_data
    check_channel is_valid_channel check_and_reload read_channel_data read_entries read_access
    convert_to_access_mode_index convert_to_priv_limit_index write_channel_data entries_of entry_of
    convert_to_access_mode_string convert_to_priv_limit_string is_valid_priv_limit
    is_valid_access_mode
command-sets = refl

ipmi_set_channel_access-get_example :
    let request = active_request current_ch_num 2 false true false 3 in
    let r = (ipmi_set_channel_access disk 0 request start).1 in
    ipmi_get_channel_access disk 0 (active_query current_ch_num) r
    ≡ (ok (cc_success, some (access_of request)), r)
ipmi_set_channel_access-get_example =
    ipmi_set_channel_access-get disk 0 current_ch_num 2 3 false true false disk-Keeps start refl
      (omega arith) (omega arith) command-sets

ipmi_get_channel_payload_support-expected_example :
    ipmi_get_channel_payload_support (λ name b. true) 0 1 0 start ≡ (thrown, start)
ipmi_get_channel_payload_support-expected_example =
    ipmi_get_channel_payload_support-expected (λ name b. true) 0 1 0 start (omega arith)
