-- ===== src/User/Table.antt =====
-- `UsersTbl` of user_channel/user_mgmt.hpp, and the loops of user_channel/user_mgmt.cpp over it that
-- neither read nor write the file. A name is a list of characters.
pub mod Unique
use phosphor_host_ipmid.Prelude.{
  ℕ, zero, suc, Bool, true, false, not, ◌&&◌, List, [], ◌∷◌, ◌++◌, map, Option, none, some, ◌==◌,
  if◌then◌else◌, same, take, replicate, get_or, set,
}
use phosphor_host_ipmid.User.Privilege.{ipmi_max_user_name, ipmi_max_channels, priv_no_access, sol}

pub record UserPrivAccess : Type 0 where
  pub privilege : ℕ
  pub ipmi_enabled : Bool
  pub link_auth_enabled : Bool
  pub access_callback : Bool

-- A std::bitset<8> is the list of its bits, the first one first.
pub record PayloadAccess : Type 0 where
  pub std_payload_enables1 : List Bool
  pub std_payload_enables2_reserved : List Bool
  pub oem_payload_enables1 : List Bool
  pub oem_payload_enables2_reserved : List Bool

-- The name fills 16 bytes; there is an access for each of the 16 channels.
pub record UserInfo : Type 0 where
  pub user_name : List ℕ
  pub user_priv_access : List UserPrivAccess
  pub user_enabled : Bool
  pub user_in_system : Bool
  pub fixed_user_name : Bool
  pub payload_access : List PayloadAccess

-- 16 users, of which the first is reserved.
abbrev pub UsersTbl : Type 0
UsersTbl = List UserInfo

abbrev pub no_bits : List Bool
no_bits = replicate 8 false

abbrev pub no_priv_access : UserPrivAccess
no_priv_access = record {
  privilege = 0;
  ipmi_enabled = false;
  link_auth_enabled = false;
  access_callback = false;
}

abbrev pub no_payload_access : PayloadAccess
no_payload_access = record {
  std_payload_enables1 = no_bits;
  std_payload_enables2_reserved = no_bits;
  oem_payload_enables1 = no_bits;
  oem_payload_enables2_reserved = no_bits;
}

-- What `std::fill` with zeros leaves.
abbrev pub no_user : UserInfo
no_user = record {
  user_name = replicate ipmi_max_user_name 0;
  user_priv_access = replicate ipmi_max_channels no_priv_access;
  user_enabled = false;
  user_in_system = false;
  fixed_user_name = false;
  payload_access = replicate ipmi_max_channels no_payload_access;
}

abbrev pub no_users : UsersTbl
no_users = replicate 16 no_user

-- The characters before the first zero.
abbrev pub c_string : List ℕ → List ℕ
c_string [] = []
c_string (zero ∷ cs) = []
c_string (suc c ∷ cs) = suc c ∷ c_string cs

-- `std::string(userName, 0, ipmiMaxUserName)`
abbrev pub cur_name : UserInfo → List ℕ
cur_name u = take ipmi_max_user_name (c_string u.user_name)

-- A name in its 16 bytes, zeros behind it.
abbrev pub padded : List ℕ → List ℕ
padded name = take ipmi_max_user_name (name ++ replicate ipmi_max_user_name 0)

-- std::strncpy
abbrev pub copy_name : List ℕ → List ℕ
copy_name name = padded (c_string name)

abbrev pub modify_at {ℓ} : {A : Type ℓ} → ℕ → (A → A) → List A → List A
modify_at i f [] = []
modify_at zero f (x ∷ xs) = f x ∷ xs
modify_at (suc i) f (x ∷ xs) = x ∷ modify_at i f xs

-- The loop over the users from `index` on, for the one of this name.
unfoldable pub find_user : List ℕ → ℕ → List UserInfo → Option ℕ
find_user name index [] = none
find_user name index (u ∷ us) =
    if same name (cur_name u) then some index else find_user name (suc index) us

abbrev pub is_vacant : UserInfo → Bool
is_vacant u = not u.user_in_system && get_or u.user_name 0 0 == 0

-- The loop of addUserEntry: `none` if the name exists; else the first vacant index, if there is one.
abbrev pub first_of : Option ℕ → ℕ → Bool → Option ℕ
first_of (some free) index vacant = some free
first_of none index true = some index
first_of none index false = none

unfoldable pub find_free : List ℕ → ℕ → Option ℕ → List UserInfo → Option (Option ℕ)
find_free name index free [] = some free
find_free name index free (u ∷ us) =
    if same name (cur_name u)
    then none
    else find_free name (suc index) (first_of free index (is_vacant u)) us

abbrev pub with_privilege : ℕ → UserPrivAccess → UserPrivAccess
with_privilege priv a = record a { privilege = priv }

abbrev pub all_access : ℕ → UserPrivAccess → UserPrivAccess
all_access priv a = record {
  privilege = priv;
  ipmi_enabled = true;
  link_auth_enabled = true;
  access_callback = true;
}

-- deleteUserIndex, but for the password.
unfoldable pub erased : UserInfo → UserInfo
erased u = record u {
  user_name = replicate ipmi_max_user_name 0;
  user_priv_access =
      map
        (λ a. record {
          privilege = priv_no_access;
          ipmi_enabled = false;
          link_auth_enabled = false;
          access_callback = false;
        })
        u.user_priv_access;
  user_in_system = false;
  user_enabled = false;
}

-- addUserEntry, after the name.
unfoldable pub entered : ℕ → Bool → UserInfo → UserInfo
entered priv enabled u = record u {
  user_priv_access = map (all_access priv) u.user_priv_access;
  user_in_system = true;
  user_enabled = enabled;
}

unfoldable pub with_privileges : ℕ → UserInfo → UserInfo
with_privileges priv u = record u {
  user_priv_access = map (with_privilege priv) u.user_priv_access;
}

-- The table that a missing file is made from.
abbrev pub first_user : UserInfo
first_user = record no_user {
  user_priv_access =
      replicate ipmi_max_channels (record no_priv_access { privilege = priv_no_access });
  payload_access =
      replicate ipmi_max_channels
        (record no_payload_access { std_payload_enables1 = set no_bits sol true });
}

abbrev pub first_users : UsersTbl
first_users = no_user ∷ replicate 15 first_user
