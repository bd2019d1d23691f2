-- ===== src/Channel/Commands.antt =====
-- The handlers of user_channel/channelcommands.cpp. Each takes the channel of the context and the
-- fields of the request. An exception of the code (`thrown`) is answered by the caller of the handler.
pub mod SetGet
use phosphor_host_ipmid.Prelude.{
  ℕ, ◌+◌, ◌/◌, ◌%◌, ◌^◌, Bool, true, false, not, ◌&&◌, ◌||◌, List, Option, none, some, ◌==◌, leb,
  bit_or, if◌then◌else◌,
}
use phosphor_host_ipmid.Codes.{cc_success, cc_invalid_field_request}
use phosphor_host_ipmid.User.Privilege.{is_valid_priv_limit}
use phosphor_host_ipmid.Channel.Data.{
  ChannelAccess, ChannelInfo, no_access, max_ipmi_channels, Kind, non_volatile, volatile, System,
  ok, fault, Action, ◌>>=◌, pure, gets, channel_at,
}
use phosphor_host_ipmid.Channel.Store.{has_sessions}
use phosphor_host_ipmid.Channel.Access.{
  cc_action_not_supported_for_channel, cc_access_mode_not_supported_for_channel, is_valid_channel,
  get_channel_name, get_channel_info, get_channel_access, set_channel_access_data,
}
use phosphor_host_ipmid.Channel.Persist.{set_channel_access_persist_data}

-- user_channel/channel_layer.hpp
abbrev pub current_ch_num : ℕ
current_ch_num = 0xE

abbrev pub convert_current_channel_num : ℕ → ℕ → ℕ
convert_current_channel_num ch_num dev_channel =
    if ch_num == current_ch_num then dev_channel else ch_num

-- EChannelActionType
abbrev pub do_not_set : ℕ
do_not_set = 0

abbrev pub nv_data : ℕ
nv_data = 1

abbrev pub active_data : ℕ
active_data = 2

abbrev pub reserved_action : ℕ
reserved_action = 3

-- getChannelSessionSupport, which does not look whether there is such a channel.
unfoldable pub session_support : {B : Type 0} → ℕ → Action B Bool
session_support ch_num s =
    if leb max_ipmi_channels ch_num
    then (fault, s)
    else (ok (has_sessions (channel_at ch_num s)), s)

abbrev pub unsupported_after : {B : Type 0} → ℕ → Bool → Action B Bool
unsupported_after ch_num false = pure true
unsupported_after ch_num true = is_valid_channel ch_num >>= λ valid. pure (not valid)

-- The channel has no sessions, or is not valid.
unfoldable pub is_unsupported : {B : Type 0} → ℕ → Action B Bool
is_unsupported ch_num = session_support ch_num >>= unsupported_after ch_num

pub record SetAccess : Type 0 where
  pub channel : ℕ
  pub reserved1 : ℕ
  pub access_mode : ℕ
  pub usr_auth : Bool
  pub msg_auth : Bool
  pub alert_disabled : Bool
  pub chan_access : ℕ
  pub channel_priv_limit : ℕ
  pub reserved2 : ℕ
  pub channel_priv_mode : ℕ

-- chActData and chNVData with their flags. The code does not initialise the accesses; a member that
-- the flags do not name is not read.
pub record Planned : Type 0 where
  pub act_data : ChannelAccess
  pub act_flag : ℕ
  pub nv_data : ChannelAccess
  pub nv_flag : ℕ

abbrev pub no_plan : Planned
no_plan = record { act_data = no_access; act_flag = 0; nv_data = no_access; nv_flag = 0 }

abbrev pub with_modes : SetAccess → ChannelAccess → ChannelAccess
with_modes r a = record a {
  access_mode = r.access_mode;
  user_auth_disabled = r.usr_auth;
  per_msg_auth_disabled = r.msg_auth;
  alerting_disabled = r.alert_disabled;
}

-- The two switches; `none` is the completion code for an access mode that is not supported.
abbrev pub plan_modes : SetAccess → Planned → Option Planned
plan_modes r p =
    if r.chan_access == do_not_set
    then some p
    else if r.chan_access == nv_data
    then some (record p { nv_data = with_modes r p.nv_data; nv_flag = bit_or p.nv_flag 15 })
    else if r.chan_access == active_data
    then some (record p { act_data = with_modes r p.act_data; act_flag = bit_or p.act_flag 15 })
    else none

abbrev pub plan_priv : SetAccess → Planned → Option Planned
plan_priv r p =
    if r.channel_priv_mode == do_not_set
    then some p
    else if r.channel_priv_mode == nv_data
    then some (record p {
      nv_data = record p.nv_data { priv_limit = r.channel_priv_limit };
      nv_flag = bit_or p.nv_flag 16;
    })
    else if r.channel_priv_mode == active_data
    then some (record p {
      act_data = record p.act_data { priv_limit = r.channel_priv_limit };
      act_flag = bit_or p.act_flag 16;
    })
    else none

abbrev pub when_set : {B : Type 0} → ℕ → Action B ℕ → Action B ℕ
when_set flag action = if flag == 0 then pure cc_success else action

pub record GetAccess : Type 0 where
  pub channel : ℕ
  pub reserved1 : ℕ
  pub reserved2 : ℕ
  pub access_set_mode : ℕ

module _ {B : Type 0} (system : System B) (ctx_channel : ℕ) where
  abbrev pub set_active : ℕ → Planned → ℕ → Action B ℕ
  set_active ch_num p comp_code =
      if comp_code == cc_success
      then when_set p.act_flag (set_channel_access_data system ch_num p.act_data p.act_flag)
      else pure comp_code

  abbrev pub set_planned : ℕ → Option Planned → Action B ℕ
  set_planned ch_num none = pure cc_access_mode_not_supported_for_channel
  set_planned ch_num (some p) =
      when_set p.nv_flag (set_channel_access_persist_data system ch_num p.nv_data p.nv_flag)
      >>= set_active ch_num p

  abbrev pub plan : SetAccess → Option Planned
  plan r = elim (plan_modes r no_plan) [ none ↦ none | some p ↦ plan_priv r p ]

  abbrev pub set_supported : ℕ → SetAccess → Bool → Action B ℕ
  set_supported ch_num r true = pure cc_action_not_supported_for_channel
  set_supported ch_num r false = set_planned ch_num (plan r)

  unfoldable pub ipmi_set_channel_access : SetAccess → Action B ℕ
  ipmi_set_channel_access r =
      let ch_num = convert_current_channel_num r.channel ctx_channel in
      if not (r.reserved1 == 0)
        || not (r.reserved2 == 0)
        || not (is_valid_priv_limit r.channel_priv_limit)
      then pure cc_invalid_field_request
      else is_unsupported ch_num >>= set_supported ch_num r

  -- The fields are cut to 3 and 4 bits.
  abbrev pub access_fields : ℕ × ChannelAccess → ℕ × Option ChannelAccess
  access_fields (code, a) =
      if code == cc_success
      then (
        cc_success,
        some (record a { access_mode = a.access_mode % 8; priv_limit = a.priv_limit % 16 }),
      )
      else (code, none)

  abbrev pub kind_of : ℕ → Kind
  kind_of mode = if mode == nv_data then non_volatile else volatile

  abbrev pub get_supported : ℕ → ℕ → Bool → Action B (ℕ × Option ChannelAccess)
  get_supported ch_num mode true = pure (cc_action_not_supported_for_channel, none)
  get_supported ch_num mode false =
      get_channel_access system (kind_of mode) ch_num >>= λ r. pure (access_fields r)

  unfoldable pub ipmi_get_channel_access : GetAccess → Action B (ℕ × Option ChannelAccess)
  ipmi_get_channel_access r =
      let ch_num = convert_current_channel_num r.channel ctx_channel in
      if not (r.reserved1 == 0) || not (r.reserved2 == 0)
      then pure (cc_invalid_field_request, none)
      else if r.access_set_mode == do_not_set || r.access_set_mode == reserved_action
      then pure (cc_access_mode_not_supported_for_channel, none)
      else is_unsupported ch_num >>= get_supported ch_num r.access_set_mode
