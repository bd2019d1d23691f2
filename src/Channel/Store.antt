-- ===== src/Channel/Store.antt =====
-- The files of user_channel/channel_mgmt.cpp: reading and writing the access settings, and the test of
-- their time. A method that returns an error code gives `false`.
pub mod Entries
pub mod Reload
pub mod Keeping
use phosphor_host_ipmid.Channel.Data.{
  without_info, not_configured, configured, no_channel, ConfigEntry, ConfigItem, ChannelAccess,
  ChannelProperties, max_ipmi_channels, Kind, data_of, with_data, AccessEntry, AccessEntries,
  AccessFile, not_found, entries, System, ok, thrown, fault, Action, and_then, ◌>>=◌, ◌>>◌, pure,
  throw, channel_at, catch_all, run, last_time, with_time,
}
use phosphor_host_ipmid.Channel.Names.{
  convert_to_session_support_index, convert_to_protocol_type_index, convert_to_medium_type_index,
  convert_to_access_mode_index, convert_to_access_mode_string, convert_to_priv_limit_index,
  convert_to_priv_limit_string,
}
use Prim.Native.Nat.{zero}
use phosphor_host_ipmid.Prelude.{
  replicate, ℕ, suc, ◌%◌, Bool, true, false, not, List, [], ◌∷◌, Option, none, some, ◌==◌, ltb,
  if◌then◌else◌, set,
}
use Prim.Native.String.{String}

abbrev pub modify_channel :
    {B : Type 0} → ℕ → (ChannelProperties → ChannelProperties) → Action B Unit
modify_channel ch_num f s =
    (ok tt, record s { channel_data = set s.channel_data ch_num (f (channel_at ch_num s)) })

abbrev pub and_convert : {A : Type 0} → Option String → (String → Option A) → Option A
and_convert none convert = none
and_convert (some s) convert = convert s

-- One assignment of the loop: nothing more is done once a value was missing or not known.
abbrev pub try_field :
    {A : Type 0}
    → Option A
    → (A → ChannelAccess → ChannelAccess)
    → Bool × ChannelAccess
    → Bool × ChannelAccess
try_field value put (false, a) = (false, a)
try_field none put (true, a) = (false, a)
try_field (some v) put (true, a) = (true, put v a)

unfoldable pub read_access : AccessEntry → ChannelAccess → Bool × ChannelAccess
read_access e a =
    try_field (and_convert e.priv_limit convert_to_priv_limit_index)
      (λ v a. record a { priv_limit = v })
      (try_field e.alerting_disabled (λ v a. record a { alerting_disabled = v })
        (try_field e.per_msg_auth_disabled (λ v a. record a { per_msg_auth_disabled = v })
          (try_field e.user_auth_disabled (λ v a. record a { user_auth_disabled = v })
            (try_field (and_convert e.access_mode convert_to_access_mode_index)
              (λ v a. record a { access_mode = v }) (true, a)))))

abbrev pub ok_or_thrown : {B : Type 0} → Bool → Action B Unit
ok_or_thrown true = pure tt
ok_or_thrown false = throw

-- Channel 16 passes the test of the number and is behind the end of the array: what the first write
-- there and those after it do to the object is `past_end`.
abbrev pub read_channel : {B : Type 0} → System B → Kind → ℕ → AccessEntry → Action B Unit
read_channel system kind ch_num e s =
    if ch_num == max_ipmi_channels
    then elim (and_convert e.access_mode convert_to_access_mode_index) [
      | none ↦ (thrown, s)
      | some mode ↦ (fault, system.past_end s)
    ]
    else (let r = read_access e (data_of kind (channel_at ch_num s)) in
        and_then (modify_channel ch_num (with_data kind r.1) s) (λ _. ok_or_thrown r.0))

abbrev pub read_value : {B : Type 0} → System B → Kind → ℕ → Option AccessEntry → Action B Unit
read_value system kind ch_num none = throw
read_value system kind ch_num (some e) = read_channel system kind ch_num e

-- The number of std::stoi is cut to a byte.
abbrev pub read_entry :
    {B : Type 0} → System B → Kind → Option ℕ → Option AccessEntry → Action B Unit
read_entry system kind none value = throw
read_entry system kind (some n) value =
    if ltb max_ipmi_channels (n % 256) then throw else read_value system kind (n % 256) value

unfoldable pub read_entries : {B : Type 0} → System B → Kind → AccessEntries → Action B Unit
read_entries system kind [] = pure tt
read_entries system kind ((key, value) ∷ es) =
    read_entry system kind key value >> read_entries system kind es

-- The value for the file; `none` where a number has no name.
abbrev pub access_entry : ChannelAccess → Option String → Option String → Option AccessEntry
access_entry a (some mode) (some priv) = some (record {
  access_mode = some mode;
  user_auth_disabled = some a.user_auth_disabled;
  per_msg_auth_disabled = some a.per_msg_auth_disabled;
  alerting_disabled = some a.alerting_disabled;
  priv_limit = some priv;
})
access_entry a _ _ = none

unfoldable pub entry_of : ChannelAccess → Option AccessEntry
entry_of a =
    access_entry a (convert_to_access_mode_string a.access_mode)
      (convert_to_priv_limit_string a.priv_limit)

abbrev pub add_entry : ℕ → Option AccessEntry → Option AccessEntries → Option AccessEntries
add_entry ch_num (some e) (some es) = some ((some ch_num, some e) ∷ es)
add_entry ch_num _ _ = none

abbrev pub has_sessions : ChannelProperties → Bool
has_sessions c = not (c.ch_info.session_supported == 0)

-- The loop of writing: the channels with sessions, from `ch_num` on.
unfoldable pub entries_of : Kind → ℕ → List ChannelProperties → Option AccessEntries
entries_of kind ch_num [] = some []
entries_of kind ch_num (c ∷ cs) =
    if has_sessions c
    then add_entry ch_num (entry_of (data_of kind c)) (entries_of kind (suc ch_num) cs)
    else entries_of kind (suc ch_num) cs

module _ {B : Type 0} (system : System B) where
  abbrev note_time : Kind → Action B Unit
  note_time kind s = (ok tt, with_time kind (system.file_time kind s.bus) s)

  abbrev read_from : Kind → AccessFile → Action B Bool
  read_from kind not_found = pure false
  read_from kind (entries es) = read_entries system kind es >> note_time kind >> pure true

  -- readChannelVolatileData, readChannelPersistData
  unfoldable pub read_channel_data : Kind → Action B Bool
  read_channel_data kind s = read_from kind (system.read_file kind s.bus) s

  abbrev pub after_write : Kind → Bool → Action B Bool
  after_write kind true = note_time kind >> pure true
  after_write kind false = pure false

  abbrev pub write_to : Kind → Option AccessEntries → Action B Bool
  write_to kind none = pure false
  write_to kind (some es) = run (system.write_file kind es) >>= after_write kind

  -- writeChannelVolatileData, writeChannelPersistData
  unfoldable pub write_channel_data : Kind → Action B Bool
  write_channel_data kind s = write_to kind (entries_of kind 0 s.channel_data) s

  abbrev same_time : Option ℕ → Option ℕ → Bool
  same_time (some t) (some u) = t == u
  same_time _ _ = false

  -- checkAndReloadVolatileData, checkAndReloadNVData: the file is read if its time is another one
  -- or not known.
  unfoldable pub check_and_reload : Kind → Action B Bool
  check_and_reload kind s =
      if same_time (system.file_time kind s.bus) (last_time kind s)
      then (ok true, s)
      else catch_all (read_channel_data kind s)
