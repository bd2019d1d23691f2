-- ===== src/Channel/Config.antt =====
-- The configuration file of user_channel/channel_mgmt.cpp, which is read once at the start.
use phosphor_host_ipmid.Channel.Data.{
  without_info, not_configured, configured, no_channel, ConfigEntry, ConfigItem, ChannelProperties,
  max_ipmi_channels, System, ok, Action,
}
use phosphor_host_ipmid.Channel.Names.{
  convert_to_session_support_index, convert_to_protocol_type_index, convert_to_medium_type_index,
}
use Prim.Native.Nat.{zero}
use phosphor_host_ipmid.Prelude.{
  replicate, ℕ, suc, ◌%◌, Bool, true, false, List, [], ◌∷◌, Option, none, some,
}
use phosphor_host_ipmid.Channel.Store.{and_convert}

-- "RESERVED"
abbrev pub reserved_name : List ℕ
reserved_name = 82 ∷ 69 ∷ 83 ∷ 69 ∷ 82 ∷ 86 ∷ 69 ∷ 68 ∷ []

-- setDefaultChannelConfig; the transfer size was filled with 0 before.
abbrev pub default_channel : ℕ → ChannelProperties → ChannelProperties
default_channel ch_num c = record c {
  ch_name = reserved_name;
  ch_id = ch_num;
  is_ch_valid = false;
  active_sess_count = 0;
  ch_info = record {
    medium_type = 0;
    protocol_type = 3;
    session_supported = 0;
    is_ipmi = false;
    auth_type_supported = 1;
  };
}

-- A channel of the configuration; `none` is an exception, after which the configuration is refused.
abbrev pub configured_channel :
    ℕ
    → ConfigEntry
    → Option (List ℕ)
    → Option Bool
    → Option ℕ
    → Option ℕ
    → Option ℕ
    → Option Bool
    → Option ChannelProperties
configured_channel ch_num e (some name) (some valid) (some medium) (some protocol) (some session)
      (some ipmi) =
    some (record no_channel {
      ch_name = name;
      ch_id = ch_num;
      is_ch_valid = valid;
      active_sess_count = e.active_sessions % 256;
      max_transfer_size = e.max_transfer_size;
      ch_info = record {
        medium_type = medium;
        protocol_type = protocol;
        session_supported = session;
        is_ipmi = ipmi;
        auth_type_supported = 1;
      };
    })
configured_channel ch_num e _ _ _ _ _ _ = none

unfoldable pub channel_of : ℕ → ConfigItem → Option ChannelProperties
channel_of ch_num not_configured = some (default_channel ch_num no_channel)
channel_of ch_num without_info = none
channel_of ch_num (configured e) =
    configured_channel ch_num e e.name e.is_valid
      (and_convert e.medium_type convert_to_medium_type_index)
      (and_convert e.protocol_type convert_to_protocol_type_index)
      (and_convert e.session_supported convert_to_session_support_index) e.is_ipmi

-- The loop of loadChannelConfig. A refused configuration throws out of the constructor, so what the
-- refused channel and those after it hold is not followed.
unfoldable pub load_channels : ℕ → ℕ → (ℕ → ConfigItem) → Bool × List ChannelProperties
load_channels zero ch_num items = (true, [])
load_channels (suc n) ch_num items =
    let rest = load_channels n (suc ch_num) items in
    elim (channel_of ch_num (items ch_num)) [
      | none ↦ (false, replicate (suc n) no_channel)
      | some c ↦ (rest.0, c ∷ rest.1)
    ]

abbrev pub load_from : {B : Type 0} → Option (ℕ → ConfigItem) → Action B Bool
load_from none s = (ok false, s)
load_from (some items) s =
    let r = load_channels max_ipmi_channels 0 items in (ok r.0, record s { channel_data = r.1 })

unfoldable pub load_channel_config : {B : Type 0} → System B → Action B Bool
load_channel_config system s = load_from (system.read_config s.bus) s
