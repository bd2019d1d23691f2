-- ===== src/Channel/Access/Checks.antt =====
-- The checks at the begin of the accessors of user_channel/channel_mgmt.cpp, and what passes them.
use phosphor_host_ipmid.Channel.Access.{
  choose, merge_access, is_valid_priv_limit, is_valid_access_mode, not, has_bit, unless_session,
  is_valid_channel, check_channel, check_settings, unless, cc_action_not_supported_for_channel,
  cc_access_mode_not_supported_for_channel,
}
use phosphor_host_ipmid.Prelude.{
  if-both, ◌&&◌, ne→==, if-cases, le→ltb, ℕ, ◌<◌, ◌≡◌, refl, arith, Bool, true, false, Option, none,
  some, ltb, ◌==◌,
}
use phosphor_host_ipmid.Channel.Data.{
  ChannelAccess, max_ipmi_channels, ChannelConfig, Outcome, ok, fault, Action, and_then, channel_at,
}
use phosphor_host_ipmid.Codes.{cc_success, cc_invalid_field_request}
use phosphor_host_ipmid.Channel.Store.{has_sessions}

module _ {B : Type 0} where
  pub record Open (ch_num : ℕ) (s : ChannelConfig B) : Type 0 where
    pub small : ch_num < max_ipmi_channels
    pub valid : (channel_at ch_num s).is_ch_valid ≡ true
    pub sessions : has_sessions (channel_at ch_num s) ≡ true

  pub check_channel-Open :
      (ch_num : ℕ) (s : ChannelConfig B) → Open ch_num s → check_channel ch_num s ≡ (ok none, s)
  unfolding check_channel is_valid_channel
  check_channel-Open ch_num s o = rw (
    le→ltb max_ipmi_channels ch_num (omega (arith, o.small)),
    ne→== ch_num max_ipmi_channels (λ e. absurd (omega (arith, o.small))),
    o.valid,
    o.sessions,
  )

  -- The accessors go on only where the code of the guards is not an error.
  abbrev pub Succeeds : (Outcome ℕ × ChannelConfig B) → Type 0
  Succeeds r = r.0 ≡ ok cc_success

  abbrev pub or_code : Option ℕ → Action B ℕ → Action B ℕ
  or_code checked rest = unless checked rest (λ c. c)

  session-passes :
      (ch_num : ℕ) (rest : Action B ℕ) (s : ChannelConfig B) (valid : Bool)
      → Succeeds (and_then (unless_session ch_num valid s) (λ checked. or_code checked rest))
      → (valid ≡ true) × (has_sessions (channel_at ch_num s) ≡ true) × Succeeds (rest s)
  session-passes ch_num rest s false h = cc
  session-passes ch_num rest s true h =
      if-cases (λ (o : Option ℕ). Succeeds (or_code o rest s)) (has_sessions (channel_at ch_num s))
        none (some cc_action_not_supported_for_channel) h (λ e k. (refl, e, k)) (λ e k. cc)

  pub check_channel-passes :
      (ch_num : ℕ) (rest : Action B ℕ) (s : ChannelConfig B)
      → Succeeds (and_then (check_channel ch_num s) (λ checked. or_code checked rest))
      → Open ch_num s × Succeeds (rest s)
  unfolding check_channel is_valid_channel
  check_channel-passes ch_num rest s h =
      if-cases passes (ltb max_ipmi_channels ch_num) (ok false, s) _ h (λ e k. cc)
        (λ e k.
          if-cases passes (ch_num == max_ipmi_channels) (fault, s) _ k (λ f l. cc)
            (λ f l.
              let (valid, sessions, done) =
                session-passes ch_num rest s (channel_at ch_num s).is_ch_valid l in
              (record { small = below e f; valid = valid; sessions = sessions }, done)))
    where
      passes : Outcome Bool × ChannelConfig B → Type 0
      passes m =
          Succeeds (and_then (and_then m (unless_session ch_num)) (λ checked. or_code checked rest))

      below :
          ltb max_ipmi_channels ch_num ≡ false
          → (ch_num == max_ipmi_channels) ≡ false
          → ch_num < max_ipmi_channels
      below e f = ground arith

  pub check_settings-passes :
      (flags : ℕ) (a : ChannelAccess) (rest : Action B ℕ) (s : ChannelConfig B)
      → Succeeds (or_code (check_settings flags a) rest s)
      → (check_settings flags a ≡ none) × Succeeds (rest s)
  check_settings-passes flags a rest s =
      if-both passes (has_bit flags 0 && not (is_valid_access_mode a.access_mode))
        (some cc_access_mode_not_supported_for_channel) _ (λ h. cc)
        (if-both passes (has_bit flags 4 && not (is_valid_priv_limit a.priv_limit))
          (some cc_invalid_field_request) none (λ h. cc) (λ h. (refl, h)))
    where
      passes : Option ℕ → Type 0
      passes o = Succeeds (or_code o rest s) → (o ≡ none) × Succeeds (rest s)

module _ {ℓ} {A : Type ℓ} where
  -- The value of a member after setting it: the new one where its flag is set.
  pub record Taken (flags i : ℕ) (new old result : A) : Type ℓ where
    pub set : has_bit flags i ≡ true → result ≡ new
    pub clear : has_bit flags i ≡ false → result ≡ old

  choose-Taken : (flags i : ℕ) (new old : A) → Taken flags i new old (choose flags i new old)
  choose-Taken flags i new old = record { set = λ e. rw e refl; clear = λ e. rw e refl }

-- What an access is after setting the members that the flags name from a new one: bit 0 names the
-- access mode, bits 1 to 3 the three Booleans in their order, bit 4 the privilege limit.
pub record Merged (flags : ℕ) (new old result : ChannelAccess) : Type 0 where
  pub mode : Taken flags 0 new.access_mode old.access_mode result.access_mode
  pub user : Taken flags 1 new.user_auth_disabled old.user_auth_disabled result.user_auth_disabled
  pub message :
      Taken flags 2 new.per_msg_auth_disabled old.per_msg_auth_disabled result.per_msg_auth_disabled
  pub alerting : Taken flags 3 new.alerting_disabled old.alerting_disabled result.alerting_disabled
  pub priv : Taken flags 4 new.priv_limit old.priv_limit result.priv_limit

pub merge_access-Merged :
    (flags : ℕ) (new old : ChannelAccess) → Merged flags new old (merge_access flags new old)
merge_access-Merged flags new old = record {
  mode = choose-Taken flags 0 _ _;
  user = choose-Taken flags 1 _ _;
  message = choose-Taken flags 2 _ _;
  alerting = choose-Taken flags 3 _ _;
  priv = choose-Taken flags 4 _ _;
}
