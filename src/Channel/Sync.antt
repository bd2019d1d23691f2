-- ===== src/Channel/Sync.antt =====
-- How user_channel/channel_mgmt.cpp follows the privileges of the network interfaces on the D-Bus,
-- and initChannelPersistData. The registration of the signal is left out.
use Prim.Native.String.{String}
use text.Mathlib.Text.{◌==◌ as str_eq}
use phosphor_host_ipmid.Prelude.{
  ℕ, zero, suc, ◌+◌, ◌-◌, ◌^◌, Bool, true, false, not, ◌||◌, List, [], ◌∷◌, Option, none, some,
  ◌==◌, leb, if◌then◌else◌, length, take, drop, same,
}
use phosphor_host_ipmid.User.Access.{PropVariant, names_value, text_value, flag_value}
use phosphor_host_ipmid.Channel.Names.{convert_to_priv_limit_index}
use phosphor_host_ipmid.Channel.Data.{
  ChannelProperties, max_ipmi_channels, Kind, non_volatile, volatile, data_of, with_data, System,
  ok, thrown, Action, ◌>>=◌, ◌>>◌, pure, throw, channel_at, run,
}
use phosphor_host_ipmid.Channel.Store.{
  modify_channel, has_sessions, check_and_reload, read_channel_data, write_channel_data,
}
use phosphor_host_ipmid.Channel.Config.{load_channel_config}
use phosphor_host_ipmid.Channel.Access.{has_bit, number_of}

-- "/xyz/openbmc_project/network"
abbrev pub network_intf_object_base_path : List ℕ
network_intf_object_base_path =
    47 ∷ 120 ∷ 121 ∷ 122 ∷ 47 ∷ 111 ∷ 112 ∷ 101 ∷ 110 ∷ 98 ∷ 109 ∷ 99 ∷ 95 ∷ 112 ∷ 114 ∷ 111 ∷ 106
    ∷ 101 ∷ 99 ∷ 116 ∷ 47 ∷ 110 ∷ 101 ∷ 116 ∷ 119 ∷ 111 ∷ 114 ∷ 107 ∷ []

-- `none` is std::invalid_argument.
unfoldable pub get_channel_name_from_path : List ℕ → Option (List ℕ)
get_channel_name_from_path path =
    let n = length network_intf_object_base_path in
    if leb (length path) (n + 1) || not (same (take n path) network_intf_object_base_path)
    then none
    else some (drop (n + 1) path)

-- The first property of the name MaxPrivilege.
abbrev pub max_privilege : List (String × PropVariant) → Option PropVariant
max_privilege [] = none
max_privilege ((key, v) ∷ ps) = if str_eq key "MaxPrivilege" then some v else max_privilege ps

abbrev pub with_priv : Kind → ℕ → ChannelProperties → ChannelProperties
with_priv kind priv c = with_data kind (record (data_of kind c) { priv_limit = priv }) c

module _ {B : Type 0} (system : System B) where
  abbrev follow_volatile : ℕ → ℕ → Bool → Action B Unit
  follow_volatile ch_num priv false s = (ok tt, s)
  follow_volatile ch_num priv true s =
      if (channel_at ch_num s).volatile_data.priv_limit == priv
      then (ok tt, s)
      else (modify_channel ch_num (with_priv volatile priv)
            >> (write_channel_data system volatile >>= (λ wrote. pure tt)))
          s

  abbrev follow : ℕ → ℕ → Action B Unit
  follow ch_num priv s =
      if (channel_at ch_num s).non_volatile_data.priv_limit == priv
      then (ok tt, s)
      else (modify_channel ch_num (with_priv non_volatile priv)
            >> (write_channel_data system non_volatile >>= follow_volatile ch_num priv))
          s

  -- A change that began here is not followed, and the next one is again.
  abbrev follow_unless_own : ℕ → ℕ → Action B Unit
  follow_unless_own ch_num priv s =
      if has_bit s.signal_flag ch_num
      then (ok tt, record s { signal_flag = s.signal_flag - 2 ^ ch_num })
      else (check_and_reload system volatile
            >>= (λ v. check_and_reload system non_volatile >>= (λ n. follow ch_num priv)))
          s

  abbrev follow_known : Option ℕ → Option ℕ → Action B Unit
  follow_known (some priv) (some ch_num) = follow_unless_own ch_num priv
  follow_known (some priv) none = pure tt
  follow_known none _ = pure tt

  abbrev follow_value : List ℕ → Option PropVariant → Action B Unit
  follow_value name none s = (ok tt, s)
  follow_value name (some (text_value priv)) s =
      if str_eq priv ""
      then (ok tt, s)
      else follow_known (convert_to_priv_limit_index priv) (number_of name s.channel_data) s
  follow_value name (some (names_value ns)) s = (thrown, s)
  follow_value name (some (flag_value b)) s = (thrown, s)

  unfoldable pub process_ch_access_prop_change :
      List ℕ → List (String × PropVariant) → Action B Unit
  process_ch_access_prop_change path ps = elim (get_channel_name_from_path path) [
    | none ↦ pure tt
    | some name ↦ follow_value name (max_privilege ps)
  ]

  -- One channel of syncNetworkChannelConfig, and whether any changed.
  abbrev sync_priv : ℕ → Bool → Option ℕ → Action B Bool
  sync_priv ch_num updated none s = (thrown, s)
  sync_priv ch_num updated (some priv) s =
      if (channel_at ch_num s).non_volatile_data.priv_limit == priv
      then (ok updated, s)
      else (modify_channel ch_num (λ c. with_priv volatile priv (with_priv non_volatile priv c))
            >> pure true)
          s

  abbrev sync_reply : ℕ → Bool → Option (Option String) → Action B Bool
  sync_reply ch_num updated none = pure updated
  sync_reply ch_num updated (some none) = pure updated
  sync_reply ch_num updated (some (some priv)) =
      sync_priv ch_num updated (convert_to_priv_limit_index priv)

  abbrev sync_channel : ℕ → Bool → Action B Bool
  sync_channel ch_num updated s =
      if has_sessions (channel_at ch_num s)
      then (run (system.get_max_privilege (channel_at ch_num s).ch_name)
            >>= sync_reply ch_num updated)
          s
      else (ok updated, s)

  unfoldable pub sync_channels : ℕ → ℕ → Bool → Action B Bool
  sync_channels zero ch_num updated = pure updated
  sync_channels (suc n) ch_num updated =
      sync_channel ch_num updated >>= sync_channels n (suc ch_num)

  abbrev write_volatile_after : Bool → Action B Bool
  write_volatile_after true = write_channel_data system volatile
  write_volatile_after false = pure false

  abbrev write_both : Bool → Action B Bool
  write_both true = write_channel_data system non_volatile >>= write_volatile_after
  write_both false = pure true

  unfoldable pub sync_network_channel_config : Action B Bool
  sync_network_channel_config = sync_channels max_ipmi_channels 0 false >>= write_both

  abbrev or_fail : Bool → Action B Unit
  or_fail true = pure tt
  or_fail false = throw

  -- A file that is not there is copied, and read once more.
  abbrev read_or_copy : Kind → Bool → Action B Unit
  read_or_copy kind true = pure tt
  read_or_copy kind false = do
    copied ← run (system.copy_default kind)
    or_fail copied
    again ← read_channel_data system kind
    or_fail again

  unfoldable pub init_channel_persist_data : Action B Unit
  init_channel_persist_data = do
    loaded ← load_channel_config system
    or_fail loaded
    persist ← read_channel_data system non_volatile
    read_or_copy non_volatile persist
    current ← read_channel_data system volatile
    read_or_copy volatile current
    synced ← sync_network_channel_config
    or_fail synced
