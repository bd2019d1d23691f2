-- ===== src/Channel/Persist.antt =====
-- Setting the non-volatile access of a channel in user_channel/channel_mgmt.cpp, with the packet
-- filter and the privilege on the D-Bus.
use phosphor_host_ipmid.Channel.Data.{
  ChannelAccess, non_volatile, data_of, with_data, FilterCommand, check_drop, delete_drop,
  insert_drop, save_rules, System, Action, ◌>>=◌, ◌>>◌, pure, or_throw, gets, modify, channel_at,
  run,
}
use Prim.Native.String.{String}
use text.Mathlib.Text.{◌==◌ as str_eq}
use phosphor_host_ipmid.Prelude.{
  ℕ, ◌*◌, ◌/◌, ◌%◌, ◌^◌, Bool, true, false, not, List, if◌then◌else◌, bit_or,
}
use phosphor_host_ipmid.Codes.{cc_unspecified_error}
use phosphor_host_ipmid.Channel.Names.{convert_to_priv_limit_string, convert_to_access_mode_string}
use phosphor_host_ipmid.Channel.Store.{modify_channel, check_and_reload, write_channel_data}
use phosphor_host_ipmid.Channel.Access.{
  has_bit, merge_access, check_channel, check_settings, unless, code_after_write,
}

module _ {B : Type 0} (system : System B) where
  -- enableNetworkIPMI and disableNetworkIPMI: an exit code other than 0 is `true`. The rules are kept
  -- once they were changed.
  abbrev keep_rules : Bool → Action B Unit
  keep_rules true = pure tt
  keep_rules false = run (system.execute save_rules) >>= (λ _. pure tt)

  abbrev drop_rule : FilterCommand → Bool → Action B Unit
  drop_rule command false = pure tt
  drop_rule command true = run (system.execute command) >>= keep_rules

  unfoldable pub enable_network_ipmi : List ℕ → Action B Unit
  enable_network_ipmi intf =
      run (system.execute (check_drop intf)) >>= (λ code. drop_rule (delete_drop intf) (not code))

  unfoldable pub disable_network_ipmi : List ℕ → Action B Unit
  disable_network_ipmi intf =
      run (system.execute (check_drop intf)) >>= drop_rule (insert_drop intf)

  abbrev filter_packets : String → List ℕ → Action B Unit
  filter_packets mode intf =
      if str_eq mode "disabled"
      then disable_network_ipmi intf
      else if str_eq mode "always_available"
      then enable_network_ipmi intf
      else pure tt

  abbrev set_mode : ℕ → ChannelAccess → Action B Unit
  set_mode ch_num a = do
    modify_channel ch_num
        (λ c. with_data non_volatile (merge_access 1 a (data_of non_volatile c)) c)
    mode ← or_throw (convert_to_access_mode_string a.access_mode)
    c ← gets (channel_at ch_num)
    filter_packets mode c.ch_name

  abbrev persist_mode : ℕ → ChannelAccess → ℕ → Action B Unit
  persist_mode ch_num a flags = if has_bit flags 0 then set_mode ch_num a else pure tt

  abbrev write_persist : ℕ → ChannelAccess → ℕ → Action B ℕ
  write_persist ch_num a flags = do
    wrote ← write_channel_data system non_volatile
    code_after_write system wrote

  -- The change that the D-Bus will report is to be ignored.
  abbrev persist_priv : ℕ → ChannelAccess → ℕ → Bool → Action B ℕ
  persist_priv ch_num a flags false = pure cc_unspecified_error
  persist_priv ch_num a flags true = do
    modify (λ s. record s { signal_flag = bit_or s.signal_flag (2 ^ ch_num) })
    modify_channel ch_num
        (λ c. with_data non_volatile (merge_access 16 a (data_of non_volatile c)) c)
    write_persist ch_num a flags

  abbrev set_persist : ℕ → ChannelAccess → ℕ → Bool → Action B ℕ
  set_persist ch_num a flags false = pure cc_unspecified_error
  set_persist ch_num a flags true = do
    persist_mode ch_num a flags
    modify_channel ch_num (λ c.
        with_data non_volatile (merge_access (flags / 2 % 8 * 2) a (data_of non_volatile c)) c)
    if_priv (has_bit flags 4)
    where
      if_priv : Bool → Action B ℕ
      if_priv false = write_persist ch_num a flags
      if_priv true = do
        priv ← or_throw (convert_to_priv_limit_string a.priv_limit)
        c ← gets (channel_at ch_num)
        sent ← run (system.set_max_privilege c.ch_name priv)
        persist_priv ch_num a flags sent

  abbrev set_non_volatile : ℕ → ChannelAccess → ℕ → Action B ℕ
  set_non_volatile ch_num a flags = do
    loaded ← check_and_reload system non_volatile
    set_persist ch_num a flags loaded

  unfoldable pub set_channel_access_persist_data : ℕ → ChannelAccess → ℕ → Action B ℕ
  set_channel_access_persist_data ch_num a flags = do
    checked ← check_channel ch_num
    unless checked (unless (check_settings flags a) (set_non_volatile ch_num a flags) (λ c. c))
        (λ c. c)
