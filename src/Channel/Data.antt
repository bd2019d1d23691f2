-- ===== src/Channel/Data.antt =====
-- `ChannelProperties` of user_channel/channel_mgmt.hpp and the members of class ChannelConfig, with
-- the system they reach, a parameter: the files, the D-Bus and the commands for the packet filter.
use Prim.Native.String.{String}
use phosphor_host_ipmid.Prelude.{[], ℕ, Bool, false, List, Option, none, some, get_or}

pub record ChannelAccess : Type 0 where
  pub access_mode : ℕ
  pub user_auth_disabled : Bool
  pub per_msg_auth_disabled : Bool
  pub alerting_disabled : Bool
  pub priv_limit : ℕ

pub record ChannelInfo : Type 0 where
  pub medium_type : ℕ
  pub protocol_type : ℕ
  pub session_supported : ℕ
  pub is_ipmi : Bool
  pub auth_type_supported : ℕ

pub record ChannelProperties : Type 0 where
  pub ch_name : List ℕ
  pub ch_id : ℕ
  pub is_ch_valid : Bool
  pub active_sess_count : ℕ
  pub ch_info : ChannelInfo
  pub non_volatile_data : ChannelAccess
  pub volatile_data : ChannelAccess
  pub max_transfer_size : ℕ

abbrev pub max_ipmi_channels : ℕ
max_ipmi_channels = 16

abbrev pub no_access : ChannelAccess
no_access = record {
  access_mode = 0;
  user_auth_disabled = false;
  per_msg_auth_disabled = false;
  alerting_disabled = false;
  priv_limit = 0;
}

-- `ChannelProperties{}`
abbrev pub no_channel : ChannelProperties
no_channel = record {
  ch_name = [];
  ch_id = 0;
  is_ch_valid = false;
  active_sess_count = 0;
  ch_info = record {
    medium_type = 0;
    protocol_type = 0;
    session_supported = 0;
    is_ipmi = false;
    auth_type_supported = 0;
  };
  non_volatile_data = no_access;
  volatile_data = no_access;
  max_transfer_size = 0;
}

-- The code for the two files is the same but for the file and the member.
pub data Kind : Type 0 where
  non_volatile : Kind
  volatile : Kind

abbrev pub data_of : Kind → ChannelProperties → ChannelAccess
data_of non_volatile c = c.non_volatile_data
data_of volatile c = c.volatile_data

abbrev pub with_data : Kind → ChannelAccess → ChannelProperties → ChannelProperties
with_data non_volatile a c = record c { non_volatile_data = a }
with_data volatile a c = record c { volatile_data = a }

-- A value of the access files; `none` where the key is missing or has a value of another type.
pub record AccessEntry : Type 0 where
  pub access_mode : Option String
  pub user_auth_disabled : Option Bool
  pub per_msg_auth_disabled : Option Bool
  pub alerting_disabled : Option Bool
  pub priv_limit : Option String

-- A key is the number that std::stoi reads from it, `none` where it throws; std::to_string gives
-- the key of a number. A value may be null.
abbrev pub AccessEntries : Type 0
AccessEntries = List (Option ℕ × Option AccessEntry)

-- `not_found` is a file that cannot be opened, and the text "null".
pub data AccessFile : Type 0 where
  not_found : AccessFile
  entries : AccessEntries → AccessFile

-- The channels of the configuration file. `max_transfer_size` and `active_sessions` are optional.
pub record ConfigEntry : Type 0 where
  pub name : Option (List ℕ)
  pub is_valid : Option Bool
  pub active_sessions : ℕ
  pub max_transfer_size : ℕ
  pub medium_type : Option String
  pub protocol_type : Option String
  pub session_supported : Option String
  pub is_ipmi : Option Bool

pub data ConfigItem : Type 0 where
  not_configured : ConfigItem
  without_info : ConfigItem
  configured : ConfigEntry → ConfigItem

pub data FilterCommand : Type 0 where
  check_drop : List ℕ → FilterCommand
  delete_drop : List ℕ → FilterCommand
  insert_drop : List ℕ → FilterCommand
  save_rules : FilterCommand

pub record ChannelConfig (B : Type 0) : Type 0 where
  pub channel_data : List ChannelProperties
  pub signal_flag : ℕ
  pub nv_file_last_updated_time : Option ℕ
  pub volt_file_last_updated_time : Option ℕ
  pub bus : B

-- Times are those of the files, `none` where stat fails. A read of the privilege on the D-Bus fails,
-- or gives a string or a value of another type (`some none`).
pub record System (B : Type 0) : Type 0 where
  pub read_config : B → Option (ℕ → ConfigItem)
  pub read_file : Kind → B → AccessFile
  pub file_time : Kind → B → Option ℕ
  pub write_file : Kind → AccessEntries → B → Bool × B
  pub copy_default : Kind → B → Bool × B
  pub set_max_privilege : List ℕ → String → B → Bool × B
  pub get_max_privilege : List ℕ → B → Option (Option String) × B
  pub execute : FilterCommand → B → Bool × B
  pub past_end : ChannelConfig B → ChannelConfig B

-- How a method ends: a value, an exception, or an access out of the bounds of channelData.
pub data Outcome (A : Type 0) : Type 0 where
  ok : A → Outcome A
  thrown : Outcome A
  fault : Outcome A

abbrev pub Action : Type 0 → Type 0 → Type 0
Action B A = ChannelConfig B → Outcome A × ChannelConfig B

abbrev pub and_then :
    {B A C : Type 0} → Outcome A × ChannelConfig B → (A → Action B C) → Outcome C × ChannelConfig B
and_then (ok a, s) rest = rest a s
and_then (thrown, s) rest = (thrown, s)
and_then (fault, s) rest = (fault, s)

infixl 5 ◌>>=◌ ◌>>◌
abbrev pub ◌>>=◌ : {B A C : Type 0} → Action B A → (A → Action B C) → Action B C
◌>>=◌ m rest s = and_then (m s) rest

abbrev pub ◌>>◌ : {B C : Type 0} → Action B Unit → Action B C → Action B C
m >> rest = m >>= λ _. rest

abbrev pub pure : {B A : Type 0} → A → Action B A
pure a s = (ok a, s)

abbrev pub throw : {B A : Type 0} → Action B A
throw s = (thrown, s)

abbrev pub or_throw : {B A : Type 0} → Option A → Action B A
or_throw none = throw
or_throw (some a) = pure a

abbrev pub gets : {B A : Type 0} → (ChannelConfig B → A) → Action B A
gets f s = (ok (f s), s)

abbrev pub modify : {B : Type 0} → (ChannelConfig B → ChannelConfig B) → Action B Unit
modify f s = (ok tt, f s)

abbrev pub channel_at : {B : Type 0} → ℕ → ChannelConfig B → ChannelProperties
channel_at ch_num s = get_or s.channel_data ch_num no_channel

-- `try { ret = ...; } catch (const std::exception&) { ret = -EIO; }`
abbrev pub catch_all :
    {B : Type 0} → Outcome Bool × ChannelConfig B → Outcome Bool × ChannelConfig B
catch_all (ok b, s) = (ok b, s)
catch_all (thrown, s) = (ok false, s)
catch_all (fault, s) = (fault, s)

-- What the system answers.
abbrev pub run : {B A : Type 0} → (B → A × B) → Action B A
run f s = let (a, b) = f s.bus in (ok a, record s { bus = b })

abbrev pub last_time : {B : Type 0} → Kind → ChannelConfig B → Option ℕ
last_time non_volatile s = s.nv_file_last_updated_time
last_time volatile s = s.volt_file_last_updated_time

abbrev pub with_time : {B : Type 0} → Kind → Option ℕ → ChannelConfig B → ChannelConfig B
with_time non_volatile t s = record s { nv_file_last_updated_time = t }
with_time volatile t s = record s { volt_file_last_updated_time = t }
