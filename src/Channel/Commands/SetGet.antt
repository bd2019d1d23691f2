-- ===== src/Channel/Commands/SetGet.antt =====
-- Set Channel Access and Get Channel Access of user_channel/channelcommands.cpp, the active data.
use phosphor_host_ipmid.Prelude.{
  ne→==, le→ltb, lt→leb, ltb, if-both, ℕ, ◌<◌, ◌%◌, ◌≡◌, refl, ap, sym, ◌∙◌, arith, Bool, true,
  false, not, some, length, if-cases, ◌==◌,
}
use phosphor_host_ipmid.Channel.Commands.{
  has_sessions, pure, leb, plan, set_planned, unsupported_after, convert_current_channel_num,
  active_data, SetAccess, GetAccess, is_unsupported, session_support, set_supported,
  ipmi_set_channel_access, ipmi_get_channel_access,
}
use phosphor_host_ipmid.Codes.{cc_success}
use phosphor_host_ipmid.User.Privilege.{is_valid_priv_limit}
use phosphor_host_ipmid.Channel.Data.{
  ChannelAccess, max_ipmi_channels, System, ChannelConfig, Outcome, ok, thrown, fault, Action,
  and_then, channel_at,
}
use phosphor_host_ipmid.Channel.Store.Reload.{Keeps}
use phosphor_host_ipmid.Channel.Access.{is_valid_channel, set_channel_access_data}
use phosphor_host_ipmid.Channel.Access.Checks.{Open, Succeeds}
use phosphor_host_ipmid.Channel.Access.SetGet.{set-get, Reads}

-- A request that sets both the access mode and the privilege limit of the active data.
abbrev pub active_request : ℕ → ℕ → Bool → Bool → Bool → ℕ → SetAccess
active_request channel mode usr msg alert priv = record {
  channel = channel;
  reserved1 = 0;
  access_mode = mode;
  usr_auth = usr;
  msg_auth = msg;
  alert_disabled = alert;
  chan_access = active_data;
  channel_priv_limit = priv;
  reserved2 = 0;
  channel_priv_mode = active_data;
}

abbrev pub active_query : ℕ → GetAccess
active_query channel = record {
  channel = channel;
  reserved1 = 0;
  reserved2 = 0;
  access_set_mode = active_data;
}

abbrev pub access_of : SetAccess → ChannelAccess
access_of r = record {
  access_mode = r.access_mode;
  user_auth_disabled = r.usr_auth;
  per_msg_auth_disabled = r.msg_auth;
  alerting_disabled = r.alert_disabled;
  priv_limit = r.channel_priv_limit;
}

module _ {B : Type 0} (system : System B) (ctx_channel channel mode priv : ℕ)
    (usr msg alert : Bool) where
  abbrev ch : ℕ
  ch = convert_current_channel_num channel ctx_channel

  abbrev request : SetAccess
  request = active_request channel mode usr msg alert priv

  is_unsupported-keeps : (n : ℕ) (s : ChannelConfig B) → (is_unsupported n s).1 ≡ s
  unfolding is_unsupported session_support is_valid_channel
  is_unsupported-keeps n s =
      if-both (λ (m : Outcome Bool × ChannelConfig B). (and_then m (unsupported_after n)).1 ≡ s)
        (leb max_ipmi_channels n) (fault, s) _ refl (keeps (has_sessions (channel_at n s)))
    where
      negated : Outcome Bool × ChannelConfig B → Type 0
      negated m = (and_then m (λ valid. pure (not valid))).1 ≡ s

      keeps : (b : Bool) → (unsupported_after n b s).1 ≡ s
      keeps false = refl
      keeps true =
          if-both negated (ltb max_ipmi_channels n) (ok false, s) _ refl
            (if-both negated (n == max_ipmi_channels) (fault, s)
              (ok (channel_at n s).is_ch_valid, s) refl refl)

  supported :
      (r : SetAccess) (s : ChannelConfig B) (m : Outcome Bool × ChannelConfig B)
      → m.1 ≡ s
      → Succeeds (and_then m (set_supported system ctx_channel ch r))
      → and_then m (set_supported system ctx_channel ch r)
        ≡ set_planned system ctx_channel ch (plan system ctx_channel r) s
  supported r s (ok false, t) e h = rw e refl
  supported r s (ok true, t) e h = cc
  supported r s (thrown, t) e h = cc
  supported r s (fault, t) e h = cc

  -- A success comes from setting the volatile access, with all of its members.
  set-runs :
      (s : ChannelConfig B)
      → Succeeds (ipmi_set_channel_access system ctx_channel request s)
      → ipmi_set_channel_access system ctx_channel request s
        ≡ set_channel_access_data system ch (access_of request) 31 s
  unfolding ipmi_set_channel_access
  set-runs s h =
      if-cases P (not (is_valid_priv_limit priv)) _ _ h (λ e k. cc)
        (λ e k.
          rw (e, supported request s (is_unsupported ch s) (is_unsupported-keeps ch s) k) refl)
    where
      P : Action B ℕ → Type 0
      P f = Succeeds (f s)

  is_unsupported-Open : (s : ChannelConfig B) → Open ch s → is_unsupported ch s ≡ (ok false, s)
  unfolding is_unsupported session_support is_valid_channel
  is_unsupported-Open s o =
      rw
        (
          lt→leb ch max_ipmi_channels o.small,
          o.sessions,
          le→ltb max_ipmi_channels ch (omega (arith, o.small)),
          ne→== ch max_ipmi_channels (λ e. absurd (omega (arith, o.small))),
          o.valid,
        )
        refl

  get-Reads :
      (now : ChannelAccess) (s : ChannelConfig B)
      → Reads system ch now s
      → ipmi_get_channel_access system ctx_channel (active_query channel) s ≡ (
        ok (
          cc_success,
          some (record now { access_mode = now.access_mode % 8; priv_limit = now.priv_limit % 16 }),
        ),
        s,
      )
  unfolding ipmi_get_channel_access
  get-Reads now s r = rw (is_unsupported-Open s r.opened, r.reads) refl

  -- Where Set Channel Access succeeds for the active data, with a mode of 3 bits and a limit of 4,
  -- over files that give back what was written, Get Channel Access answers what was set. The table
  -- has its 16 channels.
  pub ipmi_set_channel_access-get :
      Keeps system
      → (s : ChannelConfig B) → length s.channel_data ≡ max_ipmi_channels
      → mode < 8
      → priv < 16
      → Succeeds (ipmi_set_channel_access system ctx_channel request s)
      → let r = (ipmi_set_channel_access system ctx_channel request s).1 in
        ipmi_get_channel_access system ctx_channel (active_query channel) r
        ≡ (ok (cc_success, some (access_of request)), r)
  ipmi_set_channel_access-get keeps s sized m p h =
      let sets = set-runs s h in
      let t = set_channel_access_data system ch (access_of request) 31 s in
      let done = sym (ap (λ (r : Outcome ℕ × ChannelConfig B). r.0) sets) ∙ h in
      let reads = set-get system keeps ch (access_of request) 31 s sized done in
      let cut : (mode % 8 ≡ mode) × (priv % 16 ≡ priv) = (omega (arith, m), omega (arith, p)) in
      rw (sets, get-Reads (access_of request) t.1 reads, cut.0, cut.1) refl
