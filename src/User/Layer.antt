-- ===== src/User/Layer.antt =====
-- user_channel/user_layer.cpp: what the commands call of class UserAccess.
pub mod Counting
use phosphor_host_ipmid.Prelude.{
  ℕ, zero, suc, ◌+◌, ◌%◌, Bool, true, false, not, List, [], ◌∷◌, get_or, take, drop, if◌then◌else◌,
}
use phosphor_host_ipmid.Codes.{cc_success, cc_invalid_field_request, cc_parm_out_of_range}
use phosphor_host_ipmid.User.Privilege.{
  ipmi_max_user_name, ipmi_max_users, is_valid_channel, is_valid_user_id,
}
use phosphor_host_ipmid.User.Table.{
  UserPrivAccess, PayloadAccess, UserInfo, no_priv_access, no_payload_access, c_string,
}
use phosphor_host_ipmid.User.Access.{
  System, Action, ◌>>=◌, ◌>>◌, pure, gets, check_and_reload_user_data, get_user_info,
}
use phosphor_host_ipmid.User.Commands.{
  set_user_name, set_user_privilege_access, set_user_payload_access,
}

-- The loop of ipmiUserGetAllCounts: two counters of a byte, over the users from 1 to 15.
abbrev pub count_in : ℕ → (UserInfo → Bool) → List UserInfo → ℕ → ℕ
count_in zero f us n = n
count_in (suc k) f [] n = n
count_in (suc k) f (u ∷ us) n = count_in k f us (if f u then (n + 1) % 256 else n)

pub record Counts : Type 0 where
  pub max_ch_users : ℕ
  pub enabled_users : ℕ
  pub fixed_users : ℕ

abbrev pub counts_of : List UserInfo → Counts
counts_of tbl = record {
  max_ch_users = ipmi_max_users;
  enabled_users = count_in ipmi_max_users (λ u. u.user_enabled) (drop 1 tbl) 0;
  fixed_users = count_in ipmi_max_users (λ u. u.fixed_user_name) (drop 1 tbl) 0;
}

-- PrivAccess has the members of UserPrivAccess, each in its bits.
abbrev pub priv_at : ℕ → UserInfo → UserPrivAccess
priv_at ch_num u = get_or u.user_priv_access ch_num no_priv_access

module _ {B : Type 0} (system : System B) where
  -- std::string(userName, 0, ipmiMaxUserName), of bytes with a zero behind them
  unfoldable pub ipmi_user_set_user_name : ℕ → List ℕ → Action B ℕ
  ipmi_user_set_user_name user_id user_name =
      set_user_name system user_id (take ipmi_max_user_name (c_string user_name))

  unfoldable pub ipmi_user_get_all_counts : Action B Counts
  ipmi_user_get_all_counts = check_and_reload_user_data system >> gets (λ s. counts_of s.users_tbl)

  unfoldable pub ipmi_user_check_enabled : ℕ → Action B (ℕ × Bool)
  ipmi_user_check_enabled user_id =
      if not (is_valid_user_id user_id)
      then pure (cc_parm_out_of_range, false)
      else get_user_info system user_id >>= λ u. pure (cc_success, u.user_enabled)

  unfoldable pub ipmi_user_get_privilege_access : ℕ → ℕ → Action B (ℕ × UserPrivAccess)
  ipmi_user_get_privilege_access user_id ch_num =
      if not (is_valid_channel ch_num)
      then pure (cc_invalid_field_request, no_priv_access)
      else if not (is_valid_user_id user_id)
      then pure (cc_parm_out_of_range, no_priv_access)
      else get_user_info system user_id >>= λ u. pure (cc_success, priv_at ch_num u)

  -- Without the other updates the code leaves the marks as they are on the stack, and
  -- setUserPrivilegeAccess does not read them.
  abbrev pub user_priv_access : UserPrivAccess → Bool → UserPrivAccess
  user_priv_access p other_priv_updates =
      if other_priv_updates then p else record no_priv_access { privilege = p.privilege }

  unfoldable pub ipmi_user_set_privilege_access : ℕ → ℕ → UserPrivAccess → Bool → Action B ℕ
  ipmi_user_set_privilege_access user_id ch_num p other_priv_updates =
      set_user_privilege_access system user_id ch_num (user_priv_access p other_priv_updates)
        other_priv_updates

  unfoldable pub ipmi_user_set_user_payload_access : ℕ → ℕ → ℕ → PayloadAccess → Action B ℕ
  ipmi_user_set_user_payload_access ch_num operation user_id payload_access =
      if not (is_valid_channel ch_num)
      then pure cc_invalid_field_request
      else if not (is_valid_user_id user_id)
      then pure cc_parm_out_of_range
      else set_user_payload_access system ch_num operation user_id payload_access

  unfoldable pub ipmi_user_get_user_payload_access : ℕ → ℕ → Action B (ℕ × PayloadAccess)
  ipmi_user_get_user_payload_access ch_num user_id =
      if not (is_valid_channel ch_num)
      then pure (cc_invalid_field_request, no_payload_access)
      else if not (is_valid_user_id user_id)
      then pure (cc_parm_out_of_range, no_payload_access)
      else get_user_info system user_id >>= λ u.
          pure (cc_success, get_or u.payload_access ch_num no_payload_access)
