-- ===== src/Channel/Access.antt =====
-- The operations of class ChannelConfig of user_channel/channel_mgmt.cpp: reading the
-- access of a channel and setting the volatile one.
pub mod Checks
pub mod SetGet
use phosphor_host_ipmid.Channel.Data.{
  ChannelInfo, ChannelAccess, ChannelProperties, no_access, max_ipmi_channels, Kind, non_volatile,
  volatile, data_of, with_data, FilterCommand, check_drop, delete_drop, insert_drop, save_rules,
  System, ok, fault, Action, ◌>>=◌, ◌>>◌, pure, throw, or_throw, gets, modify, channel_at, run,
}
use Prim.Native.String.{String}
use text.Mathlib.Text.{◌==◌ as str_eq}
use phosphor_host_ipmid.Prelude.{
  same, ℕ, ◌*◌, ◌/◌, ◌%◌, ◌^◌, Bool, true, false, not, ◌&&◌, ◌||◌, List, [], ◌∷◌, Option, none,
  some, ◌==◌, ltb, leb, if◌then◌else◌, bit_or,
}
use phosphor_host_ipmid.Codes.{cc_success, cc_invalid_field_request, cc_unspecified_error}
use phosphor_host_ipmid.User.Privilege.{is_valid_priv_limit}
use phosphor_host_ipmid.Channel.Names.{
  is_valid_access_mode, convert_to_priv_limit_string, convert_to_access_mode_string,
}
use phosphor_host_ipmid.Channel.Store.{
  modify_channel, has_sessions, check_and_reload, write_channel_data,
}

-- user_channel/channel_layer.hpp
abbrev pub cc_action_not_supported_for_channel : ℕ
cc_action_not_supported_for_channel = 0x82

abbrev pub cc_access_mode_not_supported_for_channel : ℕ
cc_access_mode_not_supported_for_channel = 0x83

-- Whether bit `i` of a byte is set: setAccessMode is bit 0, setUserAuthEnabled 1, setMsgAuthEnabled
-- 2, setAlertingEnabled 3 and setPrivLimit 4.
abbrev pub has_bit : ℕ → ℕ → Bool
has_bit flags i = flags / 2 ^ i % 2 == 1

-- The members that the flags name, from one access to another.
abbrev pub choose {ℓ} : {A : Type ℓ} → ℕ → ℕ → A → A → A
choose flags i new old = if has_bit flags i then new else old

abbrev pub merge_access : ℕ → ChannelAccess → ChannelAccess → ChannelAccess
merge_access flags new old = record {
  access_mode = choose flags 0 new.access_mode old.access_mode;
  user_auth_disabled = choose flags 1 new.user_auth_disabled old.user_auth_disabled;
  per_msg_auth_disabled = choose flags 2 new.per_msg_auth_disabled old.per_msg_auth_disabled;
  alerting_disabled = choose flags 3 new.alerting_disabled old.alerting_disabled;
  priv_limit = choose flags 4 new.priv_limit old.priv_limit;
}

-- channelData has 16 elements: the test lets 16 through, and element 16 is read.
unfoldable pub is_valid_channel : {B : Type 0} → ℕ → Action B Bool
is_valid_channel ch_num s =
    if ltb max_ipmi_channels ch_num
    then (ok false, s)
    else if ch_num == max_ipmi_channels
    then (fault, s)
    else (ok (channel_at ch_num s).is_ch_valid, s)

unfoldable pub get_channel_name : {B : Type 0} → ℕ → Action B (List ℕ)
get_channel_name ch_num = do
  valid ← is_valid_channel ch_num
  elim valid [ true ↦ gets (λ s. (channel_at ch_num s).ch_name) | false ↦ throw ]

abbrev pub number_of : List ℕ → List ChannelProperties → Option ℕ
number_of name [] = none
number_of name (c ∷ cs) = if same c.ch_name name then some c.ch_id else number_of name cs

unfoldable pub convert_to_channel_number_from_channel_name : {B : Type 0} → List ℕ → Action B ℕ
convert_to_channel_number_from_channel_name name s = or_throw (number_of name s.channel_data) s

-- EAuthType has one bit for each type, and the code shifts by the value of that bit.
unfoldable pub is_valid_auth_type : {B : Type 0} → ℕ → ℕ → Action B Bool
is_valid_auth_type ch_num auth_type s =
    if ltb auth_type 2 || ltb 32 auth_type
    then (ok false, s)
    else if leb max_ipmi_channels ch_num
    then (fault, s)
    else (ok (has_bit (channel_at ch_num s).ch_info.auth_type_supported auth_type), s)

-- The checks at the begin of the accessors: the code that is returned, if one fails.
abbrev pub unless_session : {B : Type 0} → ℕ → Bool → Action B (Option ℕ)
unless_session ch_num false s = (ok (some cc_invalid_field_request), s)
unless_session ch_num true s = (
  ok (
      if has_sessions (channel_at ch_num s)
      then none
      else some cc_action_not_supported_for_channel),
  s,
)

unfoldable pub check_channel : {B : Type 0} → ℕ → Action B (Option ℕ)
check_channel ch_num = do valid ← is_valid_channel ch_num; unless_session ch_num valid

abbrev pub check_settings : ℕ → ChannelAccess → Option ℕ
check_settings flags a =
    if has_bit flags 0 && not (is_valid_access_mode a.access_mode)
    then some cc_access_mode_not_supported_for_channel
    else if has_bit flags 4 && not (is_valid_priv_limit a.priv_limit)
    then some cc_invalid_field_request
    else none

abbrev pub unless : {B A : Type 0} → Option ℕ → Action B A → (ℕ → A) → Action B A
unless none rest code = rest
unless (some c) rest code = pure (code c)

-- The code, and what is given on success.
unfoldable pub get_channel_info : {B : Type 0} → ℕ → Action B (ℕ × ChannelInfo)
get_channel_info ch_num = do
  valid ← is_valid_channel ch_num
  gets (λ s.
      ((if valid then cc_success else cc_invalid_field_request), (channel_at ch_num s).ch_info))

unfoldable pub get_channel_auth_type_supported : {B : Type 0} → ℕ → Action B (ℕ × ℕ)
get_channel_auth_type_supported ch_num = do
  valid ← is_valid_channel ch_num
  gets (λ s. (
    (if valid then cc_success else cc_invalid_field_request),
    (channel_at ch_num s).ch_info.auth_type_supported,
  ))

-- The type is EAuthType::none in every case.
unfoldable pub get_channel_enabled_auth_type : {B : Type 0} → ℕ → ℕ → Action B ℕ
get_channel_enabled_auth_type ch_num priv = do
  valid ← is_valid_channel ch_num
  gets (λ s.
      if valid && has_sessions (channel_at ch_num s) && is_valid_priv_limit priv
      then cc_success
      else cc_invalid_field_request)

module _ {B : Type 0} (system : System B) where
  abbrev read_after : Kind → ℕ → Bool → Action B (ℕ × ChannelAccess)
  read_after kind ch_num true s = (ok (cc_success, data_of kind (channel_at ch_num s)), s)
  read_after kind ch_num false s = (ok (cc_unspecified_error, no_access), s)

  -- getChannelAccessData, getChannelAccessPersistData: the code, and the access on success.
  unfoldable pub get_channel_access : Kind → ℕ → Action B (ℕ × ChannelAccess)
  get_channel_access kind ch_num = do
    checked ← check_channel ch_num
    unless checked (check_and_reload system kind >>= read_after kind ch_num) (λ c. (c, no_access))

  abbrev pub code_after_write : Bool → Action B ℕ
  code_after_write true = pure cc_success
  code_after_write false = pure cc_unspecified_error

  abbrev merge_and_write : ℕ → ChannelAccess → ℕ → Bool → Action B ℕ
  merge_and_write ch_num a flags false = pure cc_unspecified_error
  merge_and_write ch_num a flags true = do
    modify_channel ch_num (λ c. with_data volatile (merge_access flags a (data_of volatile c)) c)
    wrote ← write_channel_data system volatile
    code_after_write wrote

  abbrev set_volatile : ℕ → ChannelAccess → ℕ → Action B ℕ
  set_volatile ch_num a flags = do
    loaded ← check_and_reload system volatile
    merge_and_write ch_num a flags loaded

  unfoldable pub set_channel_access_data : ℕ → ChannelAccess → ℕ → Action B ℕ
  set_channel_access_data ch_num a flags = do
    checked ← check_channel ch_num
    unless checked (unless (check_settings flags a) (set_volatile ch_num a flags) (λ c. c)) (λ c. c)
