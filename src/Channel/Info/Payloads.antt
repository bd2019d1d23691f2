-- ===== src/Channel/Info/Payloads.antt =====
-- Get Channel Payload Support of user_channel/channelcommands.cpp, on every channel of the table.
use phosphor_host_ipmid.Channel.Info.{
  Option, PayloadSupport, does_device_exist, ipmi_get_channel_payload_support,
}
use phosphor_host_ipmid.Prelude.{
  ℕ, ◌<◌, ◌≡◌, refl, arith, Bool, true, false, List, none, some, le→ltb, lt→leb, ne→==, ◌==◌,
}
use phosphor_host_ipmid.Codes.{cc_success, cc_invalid_field_request}
use phosphor_host_ipmid.Channel.Data.{
  ChannelProperties, max_ipmi_channels, ChannelConfig, Outcome, ok, thrown, channel_at,
}
use phosphor_host_ipmid.Channel.Store.{has_sessions}
use phosphor_host_ipmid.Channel.Access.{
  cc_action_not_supported_for_channel, is_valid_channel, get_channel_name,
}
use phosphor_host_ipmid.Channel.Commands.{convert_current_channel_num, session_support}

-- The answer by the validity of the channel, the device, the reserved bits and the sessions.
abbrev pub expected : Bool → Bool → Bool → Bool → Outcome (ℕ × Option PayloadSupport)
expected false _ _ _ = thrown
expected true false _ _ = ok (cc_invalid_field_request, none)
expected true true false _ = ok (cc_invalid_field_request, none)
expected true true true false = ok (cc_action_not_supported_for_channel, none)
expected true true true true =
    ok (cc_success, some (record { standard = 3; session_setup = 63; oem = 0 }))

module _ {B : Type 0} (device_exists : List ℕ → B → Bool) (ctx_channel channel reserved : ℕ)
    (s : ChannelConfig B) where
  abbrev n : ℕ
  n = convert_current_channel_num channel ctx_channel

  abbrev c : ChannelProperties
  c = channel_at n s

  is_valid_channel_lem : n < max_ipmi_channels → is_valid_channel n s ≡ (ok c.is_ch_valid, s)
  unfolding is_valid_channel
  is_valid_channel_lem small =
      rw
        (
          le→ltb max_ipmi_channels n (omega (arith, small)),
          ne→== n max_ipmi_channels (λ e. absurd (omega (arith, small))),
        )
        refl

  answers :
      (valid device unreserved sessions : Bool)
      → n < max_ipmi_channels
      → c.is_ch_valid ≡ valid
      → device_exists c.ch_name s.bus ≡ device
      → (reserved == 0) ≡ unreserved
      → has_sessions c ≡ sessions
      → ipmi_get_channel_payload_support device_exists ctx_channel channel reserved s
        ≡ (expected valid device unreserved sessions, s)
  unfolding ipmi_get_channel_payload_support does_device_exist get_channel_name session_support
  answers false device unreserved sessions small v d r h = rw (is_valid_channel_lem small, v) refl
  answers true false unreserved sessions small v d r h = rw (is_valid_channel_lem small, v, d) refl
  answers true true false sessions small v d r h =
      rw (is_valid_channel_lem small, v, d, is_valid_channel_lem small, v, r) refl
  answers true true true false small v d r h =
      rw
        (
          is_valid_channel_lem small,
          v,
          d,
          is_valid_channel_lem small,
          v,
          r,
          lt→leb n max_ipmi_channels small,
          h,
        )
        refl
  answers true true true true small v d r h =
      rw
        (
          is_valid_channel_lem small,
          v,
          d,
          is_valid_channel_lem small,
          v,
          r,
          lt→leb n max_ipmi_channels small,
          h,
        )
        refl

  -- On a channel of the table, Get Channel Payload Support leaves the state as it is. Where the
  -- channel is not valid it ends in an exception, not in the code for an invalid field; otherwise it
  -- answers that code without a device or with reserved bits, then the code for a channel without
  -- sessions, and else the payloads IPMI and SOL and the six of the session setup.
  pub ipmi_get_channel_payload_support-expected :
      n < max_ipmi_channels
      → ipmi_get_channel_payload_support device_exists ctx_channel channel reserved s ≡ (
        expected c.is_ch_valid (device_exists c.ch_name s.bus) (reserved == 0) (has_sessions c),
        s,
      )
  ipmi_get_channel_payload_support-expected small =
      answers c.is_ch_valid (device_exists c.ch_name s.bus) (reserved == 0) (has_sessions c) small
        refl refl refl refl
