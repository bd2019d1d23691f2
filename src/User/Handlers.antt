-- ===== src/User/Handlers.antt =====
-- The handlers of user_channel/usercommands.cpp. They read the table of channels, and work on the
-- table of users. An exception of the code is answered by the caller of the handler.
pub mod Guards
use phosphor_host_ipmid.Prelude.{
  ℕ, ◌%◌, Bool, true, false, not, ◌&&◌, ◌||◌, List, Option, none, some, ◌==◌, ltb, if◌then◌else◌,
  set,
}
use phosphor_host_ipmid.Codes.{cc_success, cc_parm_out_of_range, cc_invalid_field_request}
use phosphor_host_ipmid.Channel.Data.{ChannelConfig, Outcome, ok, thrown, fault}
use phosphor_host_ipmid.Channel.Access.{cc_action_not_supported_for_channel, is_valid_channel}
use phosphor_host_ipmid.Channel.Commands.{convert_current_channel_num, session_support}
use phosphor_host_ipmid.User.Privilege.{is_valid_user_id, is_valid_privilege, is_valid_priv_limit}
use phosphor_host_ipmid.User.Table.{
  UserPrivAccess, PayloadAccess, no_priv_access, no_payload_access, no_bits,
}
use phosphor_host_ipmid.User.Store.{runtime_error, overrun}
use phosphor_host_ipmid.User.Access.{System, Action, ◌>>=◌, pure, raise}
use phosphor_host_ipmid.User.Layer.{
  Counts, ipmi_user_get_all_counts, ipmi_user_check_enabled, ipmi_user_get_privilege_access,
  ipmi_user_set_privilege_access, ipmi_user_set_user_payload_access,
  ipmi_user_get_user_payload_access,
}

-- user_channel/channel_layer.hpp
abbrev pub invalid_channel : ℕ
invalid_channel = 0xff

-- What is read of the table of channels: a read out of its bounds is a fault here too.
abbrev pub lift : {B A : Type 0} → Outcome A → Action B A
lift (ok a) = pure a
lift thrown = raise runtime_error
lift fault = raise overrun

module _ {B C X : Type 0} (channels : ChannelConfig C) where
  -- The checks that the handlers share: each gives its code, and the rest runs if all are passed.
  abbrev pub user_passes : ℕ → (ℕ → X) → Action B X → Bool → Action B X
  user_passes user_id refused rest false = pure (refused cc_action_not_supported_for_channel)
  user_passes user_id refused rest true =
      if is_valid_user_id user_id then rest else pure (refused cc_parm_out_of_range)

  abbrev pub when_sessions : ℕ → ℕ → (ℕ → X) → Action B X → Action B X
  when_sessions ch_num user_id refused rest =
      lift (session_support ch_num channels).0 >>= user_passes user_id refused rest

  abbrev pub channel_passes : X → Action B X → Bool → Action B X
  channel_passes refused rest false = pure refused
  channel_passes refused rest true = rest

  abbrev pub when_valid : ℕ → X → Action B X → Action B X
  when_valid ch_num refused rest =
      lift (is_valid_channel ch_num channels).0 >>= channel_passes refused rest

pub record SetUserAccess : Type 0 where
  pub channel : ℕ
  pub ipmi_enabled : Bool
  pub link_auth_enabled : Bool
  pub access_callback : Bool
  pub bits_update : Bool
  pub user_id : ℕ
  pub reserved1 : ℕ
  pub privilege : ℕ
  pub reserved2 : ℕ
  pub session_limit : Option ℕ

abbrev pub value_or_0 : Option ℕ → ℕ
value_or_0 none = 0
value_or_0 (some n) = n

abbrev pub priv_access_of : SetUserAccess → UserPrivAccess
priv_access_of r =
    if r.bits_update
    then record {
      privilege = r.privilege;
      ipmi_enabled = r.ipmi_enabled;
      link_auth_enabled = r.link_auth_enabled;
      access_callback = r.access_callback;
    }
    else record no_priv_access { privilege = r.privilege }

pub record UserAccessAnswer : Type 0 where
  pub max_ch_users : ℕ
  pub enabled_users : ℕ
  pub enabled_status : ℕ
  pub fixed_users : ℕ
  pub privilege : ℕ
  pub ipmi_enabled : Bool
  pub link_auth_enabled : Bool
  pub access_callback : Bool

-- The fields are cut to 6, 6, 2, 6 and 4 bits.
abbrev pub user_access_answer : Counts → Bool → UserPrivAccess → UserAccessAnswer
user_access_answer c enabled_state p = record {
  max_ch_users = c.max_ch_users % 64;
  enabled_users = c.enabled_users % 64;
  enabled_status = if enabled_state then 1 else 2;
  fixed_users = c.fixed_users % 64;
  privilege = p.privilege % 16;
  ipmi_enabled = p.ipmi_enabled;
  link_auth_enabled = p.link_auth_enabled;
  access_callback = p.access_callback;
}

-- The bits of the request for the user payload access; bit 1 of the first byte is SOL.
pub record SetPayloadAccess : Type 0 where
  pub channel : ℕ
  pub reserved : ℕ
  pub user_id : ℕ
  pub operation : ℕ
  pub std_payload1_sol : Bool
  pub other_std_payloads : Bool
  pub oem_payloads : Bool
  pub std_payload_enables2_reserved : ℕ
  pub oem_payload_enables2_reserved : ℕ

abbrev pub sol_access : Bool → PayloadAccess
sol_access sol = record no_payload_access { std_payload_enables1 = set no_bits 1 sol }

module _ {B C : Type 0} (system : System B) (channels : ChannelConfig C) (ctx_channel : ℕ) where
  unfoldable pub ipmi_set_user_access : SetUserAccess → Action B ℕ
  ipmi_set_user_access r =
      let ch_num = convert_current_channel_num r.channel ctx_channel in
      if not (r.reserved1 == 0)
        || not (r.reserved2 == 0)
        || not (value_or_0 r.session_limit == 0)
        || not (is_valid_privilege r.privilege)
      then pure cc_invalid_field_request
      else when_valid channels ch_num invalid_channel (
          when_sessions channels ch_num r.user_id (λ c. c)
            (ipmi_user_set_privilege_access system r.user_id ch_num (priv_access_of r)
              r.bits_update))

  abbrev pub with_privilege : Counts → ℕ × Bool → ℕ × UserPrivAccess → ℕ × Option UserAccessAnswer
  with_privilege c (code, state) (code2, p) =
      if code2 == cc_success
      then (cc_success, some (user_access_answer c state p))
      else (code2, none)

  abbrev pub after_enabled : Counts → ℕ → ℕ → ℕ × Bool → Action B (ℕ × Option UserAccessAnswer)
  after_enabled c user_id ch_num (code, state) =
      if code == cc_success
      then (ipmi_user_get_privilege_access system user_id ch_num
          >>= (λ p. pure (with_privilege c (code, state) p)))
      else pure (code, none)

  abbrev pub read_user_access : ℕ → ℕ → Action B (ℕ × Option UserAccessAnswer)
  read_user_access user_id ch_num = do
    c ← ipmi_user_get_all_counts system
    e ← ipmi_user_check_enabled system user_id
    after_enabled c user_id ch_num e

  unfoldable pub ipmi_get_user_access : ℕ → ℕ → ℕ → ℕ → Action B (ℕ × Option UserAccessAnswer)
  ipmi_get_user_access channel reserved1 user_id reserved2 =
      let ch_num = convert_current_channel_num channel ctx_channel in
      if not (reserved1 == 0) || not (reserved2 == 0)
      then pure (cc_invalid_field_request, none)
      else when_valid channels ch_num (cc_invalid_field_request, none)
          (when_sessions channels ch_num user_id (λ c. (c, none)) (read_user_access user_id ch_num))

  unfoldable pub ipmi_set_user_payload_access : SetPayloadAccess → Action B ℕ
  ipmi_set_user_payload_access r =
      let ch_num = convert_current_channel_num r.channel ctx_channel in
      if not (r.reserved == 0)
        || r.other_std_payloads
        || r.oem_payloads
        || not (r.std_payload_enables2_reserved == 0)
        || not (r.oem_payload_enables2_reserved == 0)
      then pure cc_invalid_field_request
      else when_valid channels ch_num cc_invalid_field_request (
          if not (r.operation == 0) && not (r.operation == 1)
          then pure cc_invalid_field_request
          else when_sessions channels ch_num r.user_id (λ c. c)
              (ipmi_user_set_user_payload_access system ch_num r.operation r.user_id
                (sol_access r.std_payload1_sol)))

  abbrev pub payload_answer : ℕ × PayloadAccess → ℕ × Option (List Bool × List Bool)
  payload_answer (code, p) =
      if code == cc_success
      then (cc_success, some (p.std_payload_enables1, p.oem_payload_enables1))
      else (code, none)

  -- The bits of the two bytes of enables.
  unfoldable pub ipmi_get_user_payload_access :
      ℕ → ℕ → ℕ → ℕ → Action B (ℕ × Option (List Bool × List Bool))
  ipmi_get_user_payload_access channel reserved1 user_id reserved2 =
      let ch_num = convert_current_channel_num channel ctx_channel in
      if not (reserved1 == 0) || not (reserved2 == 0)
      then pure (cc_invalid_field_request, none)
      else when_valid channels ch_num (cc_invalid_field_request, none)
          (when_sessions channels ch_num user_id (λ c. (c, none))
            (ipmi_user_get_user_payload_access system ch_num user_id
              >>= (λ p. pure (payload_answer p))))

  -- Get Channel Authentication Capabilities: of the answer, the channel and whether there are users
  -- that are enabled; the rest is constant.
  unfoldable pub ipmi_get_channel_authentication_capabilities :
      ℕ → ℕ → Bool → ℕ → ℕ → Action B (ℕ × Option (ℕ × Bool))
  ipmi_get_channel_authentication_capabilities ch_num reserved1 ext_data priv_level reserved2 =
      let channel = convert_current_channel_num ch_num ctx_channel in
      if not (reserved1 == 0) || not (reserved2 == 0)
      then pure (cc_invalid_field_request, none)
      else when_valid channels channel (cc_invalid_field_request, none)
          (if not (is_valid_priv_limit priv_level)
            then pure (cc_invalid_field_request, none)
            else lift (session_support channel channels).0 >>= capabilities channel)
    where
      capabilities : ℕ → Bool → Action B (ℕ × Option (ℕ × Bool))
      capabilities channel false = pure (cc_action_not_supported_for_channel, none)
      capabilities channel true = ipmi_user_get_all_counts system >>= λ c.
          pure (cc_success, some (channel, ltb 0 c.enabled_users))
