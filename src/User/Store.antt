-- ===== src/User/Store.antt =====
-- readUserData and writeUserData of user_channel/user_mgmt.cpp, as far as they convert between the
-- table and the JSON objects of the file. An object is a record of the values under its keys; the
-- text of the file is nlohmann::json's and belongs to the system (User/Access).
pub mod RoundTrip
use Prim.Native.String.{String}
use phosphor_host_ipmid.Prelude.{
  ℕ, zero, suc, Bool, true, false, not, ◌&&◌, List, [], ◌∷◌, map, Option, none, some, ◌==◌,
  if◌then◌else◌, length, replicate, get_or, set,
}
use phosphor_host_ipmid.User.Privilege.{
  ipmi_max_channels, payloads_per_byte, sol, convert_to_ipmi_privilege, convert_to_system_privilege,
}
use phosphor_host_ipmid.User.Table.{
  UserPrivAccess, PayloadAccess, UserInfo, no_bits, cur_name, copy_name,
}

-- The arrays "std_payload0" to "std_payload7" and "OEM_payload0" to "OEM_payload7".
pub record PayloadEnabled : Type 0 where
  pub std_payload : List (List Bool)
  pub oem_payload : List (List Bool)

-- `payload_enabled` is `none` where the file has no such key, or its arrays are too short.
pub record UserEntry : Type 0 where
  pub user_name : List ℕ
  pub privilege : List String
  pub ipmi_enabled : List Bool
  pub link_auth_enabled : List Bool
  pub access_callback : List Bool
  pub user_enabled : Bool
  pub user_in_system : Bool
  pub fixed_user_name : Bool
  pub payload_enabled : Option PayloadEnabled

pub data Failure : Type 0 where
  ios_failure : Failure
  runtime_error : Failure
  out_of_range : Failure
  json_error : Failure
  bad_variant_access : Failure
  bus_error : Failure
  -- no exception: bytes behind the name are overwritten
  overrun : Failure

pub data Result (A : Type 0) : Type 0 where
  ok : A → Result A
  err : Failure → Result A

-- readPayloadAccessFromUserInfo, constructJsonPayloadEnables: a row for each of `n` payloads from
-- `num` on, with an element for each channel.
abbrev pub payload_rows :
    (PayloadAccess → List Bool) → ℕ → ℕ → List PayloadAccess → List (List Bool)
payload_rows bits zero num channels = []
payload_rows bits (suc n) num channels =
    map (λ a. get_or (bits a) num false) channels ∷ payload_rows bits n (suc num) channels

unfoldable pub read_payload_access_from_user_info : UserInfo → PayloadEnabled
read_payload_access_from_user_info u = record {
  std_payload = payload_rows (λ a. a.std_payload_enables1) payloads_per_byte 0 u.payload_access;
  oem_payload = payload_rows (λ a. a.oem_payload_enables1) payloads_per_byte 0 u.payload_access;
}

-- Only the bit of SOL is taken over.
abbrev pub sol_only : Bool → PayloadAccess
sol_only bit = record {
  std_payload_enables1 = set no_bits sol bit;
  std_payload_enables2_reserved = no_bits;
  oem_payload_enables1 = no_bits;
  oem_payload_enables2_reserved = no_bits;
}

abbrev pub sol_channels : ℕ → List Bool → List PayloadAccess → List PayloadAccess
sol_channels ch row [] = []
sol_channels ch row (a ∷ as') = sol_only (get_or row ch false) ∷ sol_channels (suc ch) row as'

unfoldable pub update_payload_access_in_user_info : PayloadEnabled → UserInfo → UserInfo
update_payload_access_in_user_info p u = record u {
  payload_access = sol_channels 0 (get_or p.std_payload sol []) u.payload_access;
}

-- An old file has no payloads: SOL is enabled then.
abbrev pub payloads_or_default : Option PayloadEnabled → PayloadEnabled
payloads_or_default (some p) = p
payloads_or_default none = record {
  std_payload =
      set (replicate payloads_per_byte (replicate ipmi_max_channels false)) sol
        (replicate ipmi_max_channels true);
  oem_payload = replicate payloads_per_byte (replicate ipmi_max_channels false);
}

abbrev pub then_channels :
    Option ℕ
    → Bool
    → Bool
    → Bool
    → List UserPrivAccess
    → Result Unit × List UserPrivAccess
    → Result Unit × List UserPrivAccess
then_channels none i l c before rest = (err out_of_range, before)
then_channels (some priv) i l c before rest = (
  rest.0,
  record { privilege = priv; ipmi_enabled = i; link_auth_enabled = l; access_callback = c }
      ∷ rest.1,
)

-- The loop over the channels of a user; a privilege without a number ends it.
unfoldable pub read_channels :
    List String
    → List Bool
    → List Bool
    → List Bool
    → List UserPrivAccess
    → Result Unit × List UserPrivAccess
read_channels (p ∷ ps) (i ∷ is) (l ∷ ls) (c ∷ cs) (a ∷ as') =
    then_channels (convert_to_ipmi_privilege p) i l c (a ∷ as') (read_channels ps is ls cs as')
read_channels _ _ _ _ as' = (ok tt, as')

abbrev pub has_size {ℓ} : {A : Type ℓ} → List A → Bool
has_size xs = length xs == ipmi_max_channels

-- The end of a user, once its channels were read.
abbrev pub finish_user :
    UserEntry → UserInfo → Result Unit × List UserPrivAccess → Result Unit × UserInfo
finish_user e u (err f, channels) = (err f, record u { user_priv_access = channels })
finish_user e u (ok t, channels) =
    let v =
      update_payload_access_in_user_info (payloads_or_default e.payload_enabled)
        (record u { user_priv_access = channels }) in
    (
      ok tt,
      record v {
        user_enabled = e.user_enabled;
        user_in_system = e.user_in_system;
        fixed_user_name = e.fixed_user_name;
      },
    )

unfoldable pub read_user : UserEntry → UserInfo → Result Unit × UserInfo
read_user e u =
    let named = record u { user_name = copy_name e.user_name } in
    if not (
      has_size e.privilege
      && has_size e.ipmi_enabled
      && has_size e.link_auth_enabled
      && has_size e.access_callback)
    then (err runtime_error, named)
    else finish_user e named (
        read_channels e.privilege e.ipmi_enabled e.link_auth_enabled e.access_callback
          named.user_priv_access)

abbrev pub then_users :
    Result Unit × UserInfo
    → List UserInfo
    → Result Unit × List UserInfo
    → Result Unit × List UserInfo
then_users (ok t, v) before rest = (rest.0, v ∷ rest.1)
then_users (err f, v) before rest = (err f, v ∷ before)

-- An element of the file's array: null, an object of the right form, or one in which a key is missing
-- or has a value of another type. The latter is the name, one of the lists or the payloads behind
-- the name, or a flag at the end, after so many flags that were read.
pub data JsonUser : Type 0 where
  null_user : JsonUser
  bad_name : JsonUser
  bad_lists : List ℕ → JsonUser
  bad_flag : ℕ → UserEntry → JsonUser
  user : UserEntry → JsonUser

-- The user with the first flags of what was read, and the others from before.
abbrev pub flags_before : ℕ → UserInfo → UserInfo → UserInfo
flags_before zero old new = record new {
  user_enabled = old.user_enabled;
  user_in_system = old.user_in_system;
  fixed_user_name = old.fixed_user_name;
}
flags_before (suc zero) old new = record new {
  user_in_system = old.user_in_system;
  fixed_user_name = old.fixed_user_name;
}
flags_before (suc (suc n)) old new = record new { fixed_user_name = old.fixed_user_name }

abbrev pub flag_missing :
    ℕ → UserInfo → List UserInfo → Result Unit × UserInfo → Result Unit × List UserInfo
flag_missing flags u us (ok t, v) = (err json_error, flags_before flags u v ∷ us)
flag_missing flags u us (err f, v) = (err f, v ∷ us)

-- The loop over the users.
unfoldable pub read_users : List JsonUser → List UserInfo → Result Unit × List UserInfo
read_users (null_user ∷ es) (u ∷ us) = (err runtime_error, u ∷ us)
read_users (bad_name ∷ es) (u ∷ us) = (err json_error, u ∷ us)
read_users (bad_lists name ∷ es) (u ∷ us) =
    (err json_error, record u { user_name = copy_name name } ∷ us)
read_users (bad_flag flags e ∷ es) (u ∷ us) = flag_missing flags u us (read_user e u)
read_users (user e ∷ es) (u ∷ us) = then_users (read_user e u) us (read_users es us)
read_users _ us = (ok tt, us)

-- The first exception ends the loop.
abbrev pub cons_both {ℓ} : {A : Type ℓ} → Option A → Option (List A) → Option (List A)
cons_both none rest = none
cons_both (some x) none = none
cons_both (some x) (some xs) = some (x ∷ xs)

abbrev pub system_privileges : List UserPrivAccess → Option (List String)
system_privileges [] = some []
system_privileges (a ∷ as') =
    cons_both (convert_to_system_privilege a.privilege) (system_privileges as')

-- The JSON object of a user, with the names of its privileges.
abbrev pub object_of : UserInfo → Option (List String) → Option UserEntry
object_of u none = none
object_of u (some privilege) = some (record {
  user_name = cur_name u;
  privilege = privilege;
  ipmi_enabled = map (λ a. a.ipmi_enabled) u.user_priv_access;
  link_auth_enabled = map (λ a. a.link_auth_enabled) u.user_priv_access;
  access_callback = map (λ a. a.access_callback) u.user_priv_access;
  user_enabled = u.user_enabled;
  user_in_system = u.user_in_system;
  fixed_user_name = u.fixed_user_name;
  payload_enabled = some (read_payload_access_from_user_info u);
})

-- `none` where a privilege has no name (std::out_of_range).
unfoldable pub entry_of : UserInfo → Option UserEntry
entry_of u = object_of u (system_privileges u.user_priv_access)

-- The array that is written.
unfoldable pub entries_of : List UserInfo → Option (List UserEntry)
entries_of [] = some []
entries_of (u ∷ us) = cons_both (entry_of u) (entries_of us)
