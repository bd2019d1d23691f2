-- ===== src/User/Privilege.antt =====
-- The privileges of user_channel/user_mgmt.cpp, as numbers and as the names of the user manager.
use phosphor_host_ipmid.Prelude.{
  inr, ◌⊎◌, inl, not, ◌≤◌, ℕ, zero, suc, ◌≡◌, refl, List, [], ◌∷◌, Option, none, some, Bool, ◌&&◌,
  ◌||◌, ◌==◌, ltb, leb, if◌then◌else◌, get_elem?, arith,
}
use Prim.Native.String.{String}
use text.Mathlib.Text.{◌==◌ as str_eq}
use mathlib.Core.Path.{subst, sym}

abbrev pub priv_no_access : ℕ
priv_no_access = 0xF

abbrev pub reserved_user_id : ℕ
reserved_user_id = 0

abbrev pub invalid_user_id : ℕ
invalid_user_id = 0xFF

abbrev pub ipmi_max_user_name : ℕ
ipmi_max_user_name = 16

abbrev pub ipmi_max_users : ℕ
ipmi_max_users = 15

abbrev pub ipmi_max_channels : ℕ
ipmi_max_channels = 16

abbrev pub payloads_per_byte : ℕ
payloads_per_byte = 8

-- PayloadType::SOL
abbrev pub sol : ℕ
sol = 1

-- getUsrMgmtSyncIndex, EChannelID::chanLan1
abbrev pub usr_mgmt_sync_index : ℕ
usr_mgmt_sync_index = 1

unfoldable pub is_valid_channel : ℕ → Bool
is_valid_channel ch_num = ltb ch_num ipmi_max_channels

unfoldable pub is_valid_user_id : ℕ → Bool
is_valid_user_id user_id = leb user_id ipmi_max_users && not (user_id == reserved_user_id)

-- PRIVILEGE_CALLBACK is 1, PRIVILEGE_OEM 5.
unfoldable pub is_valid_priv_limit : ℕ → Bool
is_valid_priv_limit priv = ltb 1 priv && leb priv 5

unfoldable pub is_valid_privilege : ℕ → Bool
unfolding is_valid_priv_limit
is_valid_privilege priv = is_valid_priv_limit priv || priv == priv_no_access

abbrev pub ipmi_priv_index : List String
ipmi_priv_index =
    "priv-reserved" ∷ "priv-callback" ∷ "priv-user" ∷ "priv-operator" ∷ "priv-admin" ∷ "priv-custom"
    ∷ []

-- std::find, then std::distance.
abbrev pub distance_to : String → List String → ℕ → Option ℕ
distance_to value [] i = none
distance_to value (s ∷ ss) i = if str_eq s value then some i else distance_to value ss (suc i)

-- `none` is the exception std::out_of_range, here and below.
unfoldable pub convert_to_ipmi_privilege : String → Option ℕ
convert_to_ipmi_privilege value = elim (distance_to value ipmi_priv_index 0) [
  | some i ↦ some i
  | none ↦ if str_eq value "" then some priv_no_access else none
]

unfoldable pub convert_to_system_privilege : ℕ → Option String
convert_to_system_privilege value =
    if value == priv_no_access then some "" else get_elem? ipmi_priv_index value

-- The privileges that have a name.
abbrev pub IsNamed : ℕ → Type 0
IsNamed v = (v ≤ 5) ⊎ (v ≡ priv_no_access)

module _ (v : ℕ) where
  abbrev Converts : Type 0
  Converts =
      (s : String) × (convert_to_system_privilege v ≡ some s)
      × (convert_to_ipmi_privilege s ≡ some v)

convert_index : (v : ℕ) → v ≤ 5 → Converts v
unfolding convert_to_system_privilege convert_to_ipmi_privilege
convert_index zero h = (_, refl, refl)
convert_index (suc zero) h = (_, refl, refl)
convert_index (suc (suc zero)) h = (_, refl, refl)
convert_index (suc (suc (suc zero))) h = (_, refl, refl)
convert_index (suc (suc (suc (suc zero)))) h = (_, refl, refl)
convert_index (suc (suc (suc (suc (suc zero))))) h = (_, refl, refl)
convert_index (suc (suc (suc (suc (suc (suc v)))))) h = absurd (omega arith)

convert_no_access : Converts priv_no_access
unfolding convert_to_system_privilege convert_to_ipmi_privilege
convert_no_access = (_, refl, refl)

-- Every privilege with a name is got back from its name.
pub convert_round :
    (v : ℕ)
    → IsNamed v
    → (s : String) × (convert_to_system_privilege v ≡ some s)
      × (convert_to_ipmi_privilege s ≡ some v)
convert_round v (inl small) = convert_index v small
convert_round v (inr e) = subst Converts (sym e) convert_no_access
