-- ===== src/User/Handlers/Guards.antt =====
-- What a request has to be for the handlers of user_channel/usercommands.cpp to change anything.
use phosphor_host_ipmid.User.Handlers.{
  invalid_channel, priv_access_of, ipmi_user_set_privilege_access, lift, user_passes, when_sessions,
  channel_passes, when_valid, SetUserAccess, value_or_0, ipmi_set_user_access,
}
use phosphor_host_ipmid.Codes.{cc_invalid_field_request}
use phosphor_host_ipmid.Prelude.{
  ℕ, ◌<◌, ◌≡◌, ◌≢◌, refl, arith, Bool, true, false, not, ◌||◌, ◌==◌, ltb, leb, if-cases,
}
use phosphor_host_ipmid.Channel.Data.{
  ChannelConfig, max_ipmi_channels, channel_at, Outcome, ok, fault,
}
use phosphor_host_ipmid.Channel.Store.{has_sessions}
use phosphor_host_ipmid.Channel.Access.{is_valid_channel}
use phosphor_host_ipmid.Channel.Access.Checks.{Open}
use phosphor_host_ipmid.Channel.Commands.{convert_current_channel_num, session_support}
use phosphor_host_ipmid.User.Privilege.{is_valid_user_id, is_valid_privilege}
use phosphor_host_ipmid.User.Access.{Access, System, Action, and_then, pure}

module _ {B C X : Type 0} (channels : ChannelConfig C) where
  abbrev Changes : Action B X → Access B → Type 0
  Changes f s = (f s).1 ≢ s

  when_valid-Changes :
      (n : ℕ) (refused : X) (rest : Action B X) (s : Access B)
      → Changes (when_valid channels n refused rest) s
      → (n < max_ipmi_channels) × ((channel_at n channels).is_ch_valid ≡ true) × Changes rest s
  unfolding is_valid_channel
  when_valid-Changes n refused rest s h =
      if-cases P (ltb max_ipmi_channels n) (ok false, channels) _ h (λ e k. absurd (k refl))
        (λ e k.
          if-cases P (n == max_ipmi_channels) (fault, channels)
            (ok (channel_at n channels).is_ch_valid, channels) k (λ f l. absurd (l refl))
            (λ f l.
              let small : n < max_ipmi_channels = below e f in
              let (valid, rest_changes) = passes (channel_at n channels).is_ch_valid l in
              (small, valid, rest_changes)))
    where
      P : Outcome Bool × ChannelConfig C → Type 0
      P m = (and_then (lift m.0 s) (channel_passes channels refused rest)).1 ≢ s

      below :
          ltb max_ipmi_channels n ≡ false → (n == max_ipmi_channels) ≡ false → n < max_ipmi_channels
      below e f = ground arith

      passes :
          (v : Bool)
          → (channel_passes channels refused rest v s).1 ≢ s
          → (v ≡ true) × Changes rest s
      passes true l = (refl, l)
      passes false l = absurd (l refl)

  when_sessions-Changes :
      (n user_id : ℕ) (refused : ℕ → X) (rest : Action B X) (s : Access B)
      → Changes (when_sessions channels n user_id refused rest) s
      → (has_sessions (channel_at n channels) ≡ true)
        × (is_valid_user_id user_id ≡ true)
        × Changes rest s
  unfolding session_support
  when_sessions-Changes n user_id refused rest s h =
      if-cases P (leb max_ipmi_channels n) (fault, channels)
        (ok (has_sessions (channel_at n channels)), channels) h (λ e k. absurd (k refl))
        (λ e k. passes (has_sessions (channel_at n channels)) k)
    where
      P : Outcome Bool × ChannelConfig C → Type 0
      P m = (and_then (lift m.0 s) (user_passes channels user_id refused rest)).1 ≢ s

      passes :
          (v : Bool)
          → (user_passes channels user_id refused rest v s).1 ≢ s
          → (v ≡ true) × (is_valid_user_id user_id ≡ true) × Changes rest s
      passes false l = absurd (l refl)
      passes true l =
          if-cases (λ (f : Action B X). (f s).1 ≢ s) (is_valid_user_id user_id) rest _ l
            (λ e k. (refl, e, k)) (λ e k. absurd (k refl))

-- The channel is valid and has sessions, and the user id is one of the 15.
pub record Accepted {C : Type 0} (channels : ChannelConfig C) (n user_id : ℕ) : Type 0 where
  pub opened : Open n channels
  pub user : is_valid_user_id user_id ≡ true

module _ {B C : Type 0} (channels : ChannelConfig C) where
  accepted :
      (n user_id refused : ℕ) (change : Action B ℕ) (s : Access B)
      → Changes channels
          (when_valid channels n refused (when_sessions channels n user_id (λ c. c) change))
          s
      → Accepted channels n user_id
  accepted n user_id refused change s k =
      let sessions_first = when_sessions channels n user_id (λ c. c) change in
      let (small, valid, l) = when_valid-Changes channels n refused sessions_first s k in
      let (sessions, user, done) = when_sessions-Changes channels n user_id (λ c. c) change s l in
      record { opened = record { small = small; valid = valid; sessions = sessions }; user = user }

module _ {B C : Type 0} (system : System B) (channels : ChannelConfig C) (ctx_channel : ℕ) where
  -- Set User Access changes the users or the system only for a valid privilege, with no reserved bits
  -- or session limit, on a valid channel that has sessions, and for a valid user id.
  pub ipmi_set_user_access-Accepted :
      (r : SetUserAccess) (s : Access B)
      → (ipmi_set_user_access system channels ctx_channel r s).1 ≢ s
      → Accepted channels (convert_current_channel_num r.channel ctx_channel) r.user_id
        × ((not (r.reserved1 == 0)
              || not (r.reserved2 == 0)
              || not (value_or_0 r.session_limit == 0)
              || not (is_valid_privilege r.privilege))
            ≡ false)
  unfolding ipmi_set_user_access
  ipmi_set_user_access-Accepted r s h =
      let n = convert_current_channel_num r.channel ctx_channel in
      let change =
        ipmi_user_set_privilege_access system r.user_id n (priv_access_of r) r.bits_update in
      if-cases (λ (f : Action B ℕ). (f s).1 ≢ s) _ (pure cc_invalid_field_request)
        (when_valid channels n invalid_channel (when_sessions channels n r.user_id (λ c. c) change))
        h (λ e k. absurd (k refl))
        (λ e k. (accepted channels n r.user_id invalid_channel change s k, e))
