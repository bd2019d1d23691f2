-- ===== src/Channel/Info.antt =====
-- The handlers of user_channel/channelcommands.cpp that tell of a channel and its payloads, and
-- doesDeviceExist and isValidPayloadType of user_channel/channel_layer.cpp.
pub mod Payloads
use phosphor_host_ipmid.Prelude.{
  ℕ, ◌/◌, ◌%◌, ◌^◌, Bool, true, false, not, ◌&&◌, ◌||◌, List, Option, none, some, ◌==◌, leb, bit_or,
  if◌then◌else◌,
}
use phosphor_host_ipmid.Codes.{cc_success, cc_invalid_field_request}
use phosphor_host_ipmid.Channel.Data.{
  ChannelInfo, max_ipmi_channels, ok, fault, Action, ◌>>=◌, pure, gets, channel_at,
}
use phosphor_host_ipmid.Channel.Access.{
  cc_action_not_supported_for_channel, is_valid_channel, get_channel_name, get_channel_info,
}
use phosphor_host_ipmid.Channel.Commands.{convert_current_channel_num, session_support}

pub record InfoAnswer : Type 0 where
  pub ch_num : ℕ
  pub medium_type : ℕ
  pub protocol_type : ℕ
  pub active_session_count : ℕ
  pub session_type : ℕ
  pub vendor_id : ℕ
  pub aux_ch_info : ℕ

-- getChannelActiveSessions
unfoldable pub get_channel_active_sessions : {B : Type 0} → ℕ → Action B ℕ
get_channel_active_sessions ch_num s =
    if leb max_ipmi_channels ch_num
    then (fault, s)
    else (ok (channel_at ch_num s).active_sess_count, s)

-- The fields are cut to 4, 7, 5, 6 and 2 bits.
abbrev pub info_answer : ℕ → ChannelInfo → ℕ → InfoAnswer
info_answer ch_num info sessions = record {
  ch_num = ch_num % 16;
  medium_type = info.medium_type % 128;
  protocol_type = info.protocol_type % 32;
  active_session_count = sessions % 64;
  session_type = info.session_supported % 4;
  vendor_id = 7154;
  aux_ch_info = 0;
}

abbrev pub info_after : {B : Type 0} → ℕ → ℕ × ChannelInfo → Action B (ℕ × Option InfoAnswer)
info_after {B} ch_num (code, info) = if code == cc_success then with_sessions else pure (code, none)
  where
    with_sessions : Action B (ℕ × Option InfoAnswer)
    with_sessions = get_channel_active_sessions ch_num >>= λ sessions.
        pure (cc_success, some (info_answer ch_num info sessions))

abbrev pub info_of_valid : {B : Type 0} → ℕ → Bool → Action B (ℕ × Option InfoAnswer)
info_of_valid ch_num false = pure (cc_action_not_supported_for_channel, none)
info_of_valid ch_num true = get_channel_info ch_num >>= info_after ch_num

unfoldable pub ipmi_get_channel_info : {B : Type 0} → ℕ → ℕ → ℕ → Action B (ℕ × Option InfoAnswer)
ipmi_get_channel_info ctx_channel channel reserved =
    let ch_num = convert_current_channel_num channel ctx_channel in
    if not (reserved == 0)
    then pure (cc_invalid_field_request, none)
    else is_valid_channel ch_num >>= info_of_valid ch_num

-- PayloadType; OPEN_SESSION_REQUEST is 10h, the types of the session setup follow up to RAKP4.
abbrev pub open_session_request : ℕ
open_session_request = 0x10

abbrev pub rakp4 : ℕ
rakp4 = 0x15

unfoldable pub is_valid_payload_type : ℕ → Bool
is_valid_payload_type t =
    t == 0
    || t == 1
    || t == open_session_request
    || t == 0x11
    || t == 0x12
    || t == 0x13
    || t == 0x14
    || t == rakp4

abbrev pub standard_payload_bit : ℕ → ℕ
standard_payload_bit p = 2 ^ p

abbrev pub session_payload_bit : ℕ → ℕ
session_payload_bit p = 2 ^ p / 2 ^ open_session_request

abbrev pub std_payload_type : ℕ
std_payload_type = bit_or (standard_payload_bit 0) (standard_payload_bit 1)

abbrev pub sess_setup_payload_type : ℕ
sess_setup_payload_type = bit_or (session_payload_bit 0x10) (
    bit_or (session_payload_bit 0x11) (
      bit_or (session_payload_bit 0x12) (
        bit_or (session_payload_bit 0x13)
          (bit_or (session_payload_bit 0x14) (session_payload_bit 0x15)))))

pub record PayloadSupport : Type 0 where
  pub standard : ℕ
  pub session_setup : ℕ
  pub oem : ℕ

module _ {B : Type 0} (device_exists : List ℕ → B → Bool) where
  -- The name of a channel that is not valid is an exception.
  unfoldable pub does_device_exist : ℕ → Action B Bool
  does_device_exist ch_num =
      get_channel_name ch_num >>= λ name. gets (λ s. device_exists name s.bus)

  abbrev pub support_of : Bool → Action B (ℕ × Option PayloadSupport)
  support_of false = pure (cc_action_not_supported_for_channel, none)
  support_of true = pure (
    cc_success,
    some (record { standard = std_payload_type; session_setup = sess_setup_payload_type; oem = 0 }),
  )

  abbrev pub support_valid : ℕ → Bool → Action B (ℕ × Option PayloadSupport)
  support_valid ch_num false = pure (cc_invalid_field_request, none)
  support_valid ch_num true = session_support ch_num >>= support_of

  abbrev pub support_device : ℕ → ℕ → Bool → Action B (ℕ × Option PayloadSupport)
  support_device ch_num reserved false = pure (cc_invalid_field_request, none)
  support_device ch_num reserved true =
      is_valid_channel ch_num >>= λ valid. support_valid ch_num (valid && reserved == 0)

  unfoldable pub ipmi_get_channel_payload_support : ℕ → ℕ → ℕ → Action B (ℕ × Option PayloadSupport)
  ipmi_get_channel_payload_support ctx_channel channel reserved =
      let ch_num = convert_current_channel_num channel ctx_channel in
      does_device_exist ch_num >>= support_device ch_num reserved

-- Get Channel Payload Version: the version 1.0 in BCD.
abbrev pub payload_type_not_supported : ℕ
payload_type_not_supported = 0x80

abbrev pub version_of : {B : Type 0} → ℕ → Bool → Action B (ℕ × Option ℕ)
version_of payload_type false = pure (cc_action_not_supported_for_channel, none)
version_of payload_type true =
    if is_valid_payload_type payload_type
    then pure (cc_success, some 0x10)
    else pure (payload_type_not_supported, none)

abbrev pub version_valid : {B : Type 0} → ℕ → ℕ → Bool → Action B (ℕ × Option ℕ)
version_valid ch_num payload_type false = pure (cc_invalid_field_request, none)
version_valid ch_num payload_type true = session_support ch_num >>= version_of payload_type

unfoldable pub ipmi_get_channel_payload_version :
    {B : Type 0} → ℕ → ℕ → ℕ → ℕ → Action B (ℕ × Option ℕ)
ipmi_get_channel_payload_version ctx_channel channel reserved payload_type =
    let ch_num = convert_current_channel_num channel ctx_channel in
    if not (reserved == 0)
    then pure (cc_invalid_field_request, none)
    else is_valid_channel ch_num >>= version_valid ch_num payload_type
