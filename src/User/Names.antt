-- ===== src/User/Names.antt =====
-- What user_channel/user_mgmt.cpp asks the user manager: isValidUserName, the groups, the properties
-- of a user and its path on the D-Bus.
use Prim.Native.String.{String}
use text.Mathlib.Text.{◌==◌ as str_eq}
use phosphor_host_ipmid.Prelude.{
  ℕ, ◌+◌, Bool, true, false, not, ◌&&◌, ◌||◌, List, [], ◌∷◌, ◌++◌, Option, none, some, ◌==◌, leb,
  if◌then◌else◌, length, take, drop, same,
}
use phosphor_host_ipmid.User.Table.{c_string}
use phosphor_host_ipmid.User.Store.{Result, ok, err, bus_error, bad_variant_access}
use phosphor_host_ipmid.User.Access.{
  PropVariant, names_value, text_value, flag_value, DbusUserObjProperties, DbusUserObjValue,
  get_managed_objects, get_manager_properties, Reply, call_error, done, objects, properties, System,
  Access, Action, ◌>>=◌, ◌>>◌, pure, raise, gets, modify, issue, and_then,
}

-- "/xyz/openbmc_project/user"
abbrev pub user_obj_base_path : List ℕ
user_obj_base_path =
    47 ∷ 120 ∷ 121 ∷ 122 ∷ 47 ∷ 111 ∷ 112 ∷ 101 ∷ 110 ∷ 98 ∷ 109 ∷ 99 ∷ 95 ∷ 112 ∷ 114 ∷ 111 ∷ 106
    ∷ 101 ∷ 99 ∷ 116 ∷ 47 ∷ 117 ∷ 115 ∷ 101 ∷ 114 ∷ []

abbrev pub user_path : List ℕ → List ℕ
user_path name = user_obj_base_path ++ 47 ∷ name

-- getUserNameFromPath; `none` is -EINVAL. The character after the prefix is not looked at.
unfoldable pub get_user_name_from_path : List ℕ → Option (List ℕ)
get_user_name_from_path path =
    if leb (length path) (length user_obj_base_path + 1)
      || not (same (take (length user_obj_base_path) path) user_obj_base_path)
    then none
    else some (drop (length user_obj_base_path + 1) path)

-- "root"
abbrev root : List ℕ
root = 114 ∷ 111 ∷ 111 ∷ 116 ∷ []

-- [a-zA-z_]: the range A-z has the characters [ \ ] ^ ` as well.
abbrev pub is_first : ℕ → Bool
is_first c = (leb 97 c && leb c 122) || (leb 65 c && leb c 122) || c == 95

-- [a-zA-Z_0-9]
abbrev pub is_further : ℕ → Bool
is_further c =
    (leb 97 c && leb c 122) || (leb 65 c && leb c 90) || c == 95 || (leb 48 c && leb c 57)

abbrev pub all_further : List ℕ → Bool
all_further [] = true
all_further (c ∷ cs) = is_further c && all_further cs

abbrev pub matches : List ℕ → Bool
matches [] = false
matches (c ∷ cs) = is_first c && all_further cs

abbrev pub has_key {ℓ} : {A : Type ℓ} → List ℕ → List (List ℕ × A) → Bool
has_key k [] = false
has_key k ((k', v) ∷ m) = same k k' || has_key k m

-- std::find on the names of groups.
abbrev pub has_group : String → List String → Bool
has_group g [] = false
has_group g (g' ∷ gs) = str_eq g' g || has_group g gs

abbrev pub ipmi_grp_name : String
ipmi_grp_name = "ipmi"

-- The managed objects; an error of the bus, or a reply of another kind, is a SdBusError.
abbrev pub as_objects : {B : Type 0} → Reply → Action B (List (List ℕ × DbusUserObjValue))
as_objects (objects os) = pure os
as_objects (properties ps) = raise bus_error
as_objects done = raise bus_error
as_objects call_error = raise bus_error

abbrev pub as_properties : {B : Type 0} → Reply → Action B DbusUserObjProperties
as_properties (properties ps) = pure ps
as_properties (objects os) = raise bus_error
as_properties done = raise bus_error
as_properties call_error = raise bus_error

-- `try { ... } catch (const SdBusError&)`: what is done on success, and otherwise.
abbrev pub catch_bus_error :
    {B A C : Type 0} → Result A × Access B → (A → Action B C) → Action B C → Result C × Access B
catch_bus_error (ok a, s) then' otherwise = then' a s
catch_bus_error (err bus_error, s) then' otherwise = otherwise s
catch_bus_error (err f, s) then' otherwise = (err f, s)

-- The variant of the user manager has no Boolean: a reply with one cannot be read.
abbrev pub without_flags :
    {B : Type 0} → DbusUserObjProperties → DbusUserObjProperties → Action B DbusUserObjProperties
without_flags all' [] = pure all'
without_flags all' ((key, names_value ns) ∷ ps) = without_flags all' ps
without_flags all' ((key, text_value t) ∷ ps) = without_flags all' ps
without_flags all' ((key, flag_value b) ∷ ps) = raise bus_error

-- What getUserProperties fills in.
pub record UserProperties : Type 0 where
  pub usr_grps : List String
  pub usr_priv : String
  pub usr_enabled : Bool

abbrev pub new_properties : UserProperties
new_properties = record { usr_grps = []; usr_priv = ""; usr_enabled = false }

-- std::get of another alternative throws.
abbrev pub with_priv : UserProperties → PropVariant → Result UserProperties
with_priv u (text_value t) = ok (record u { usr_priv = t })
with_priv u (names_value ns) = err bad_variant_access
with_priv u (flag_value b) = err bad_variant_access

abbrev pub with_grps : UserProperties → PropVariant → Result UserProperties
with_grps u (names_value ns) = ok (record u { usr_grps = ns })
with_grps u (text_value t) = err bad_variant_access
with_grps u (flag_value b) = err bad_variant_access

abbrev pub with_enabled : UserProperties → PropVariant → Result UserProperties
with_enabled u (flag_value b) = ok (record u { usr_enabled = b })
with_enabled u (names_value ns) = err bad_variant_access
with_enabled u (text_value t) = err bad_variant_access

abbrev pub property_step : UserProperties → String → PropVariant → Result UserProperties
property_step u key v =
    if str_eq key "UserPrivilege"
    then with_priv u v
    else if str_eq key "UserGroups"
    then with_grps u v
    else if str_eq key "UserEnabled"
    then with_enabled u v
    else ok u

unfoldable pub get_user_properties : DbusUserObjProperties → UserProperties → Result UserProperties
get_user_properties [] u = ok u
get_user_properties ((key, v) ∷ ps) u = elim (property_step u key v) [
  | err f ↦ err f
  | ok u' ↦ get_user_properties ps u'
]

-- The properties of the interface User.Attributes; without it they stay as they are, and the code
-- returns -EIO, here `false`.
unfoldable pub get_user_obj_properties :
    DbusUserObjValue → UserProperties → Result (Bool × UserProperties)
get_user_obj_properties [] u = ok (false, u)
get_user_obj_properties ((intf, ps) ∷ os) u =
    let rest = get_user_obj_properties os u in
    if str_eq intf "xyz.openbmc_project.User.Attributes"
    then elim (get_user_properties ps u) [ err f ↦ err f | ok u' ↦ ok (true, u') ]
    else rest

abbrev pub raise_error : {B A : Type 0} → Result A → Action B A
raise_error (ok a) = pure a
raise_error (err f) = raise f

module _ {B : Type 0} (system : System B) where
  -- The loop of getSystemPrivAndGroups over the properties of the user manager.
  abbrev take_groups : String → PropVariant → Action B Unit
  take_groups key (names_value ns) =
      if str_eq key "AllPrivileges"
      then modify (λ s. record s { available_privileges = ns })
      else if str_eq key "AllGroups"
      then modify (λ s. record s { available_groups = ns })
      else pure tt
  take_groups key (text_value t) =
      if str_eq key "AllPrivileges" || str_eq key "AllGroups"
      then raise bad_variant_access
      else pure tt
  take_groups key (flag_value b) = pure tt

  unfoldable pub take_all : DbusUserObjProperties → Action B Unit
  take_all [] = pure tt
  take_all ((key, v) ∷ ps) = take_groups key v >> take_all ps

  unfoldable pub get_system_priv_and_groups : Action B Unit
  get_system_priv_and_groups s =
      catch_bus_error
        ((issue system get_manager_properties >>= as_properties >>= (λ ps. without_flags ps ps)) s)
        take_all (pure tt)

  unfoldable pub is_ipmi_in_available_group_list : Action B Bool
  is_ipmi_in_available_group_list s =
      if has_group ipmi_grp_name s.available_groups then (ok true, s) else elim s.available_groups [
        | [] ↦
            and_then (get_system_priv_and_groups s)
              (λ _. gets (λ t. has_group ipmi_grp_name t.available_groups))
        | g ∷ gs ↦ (ok false, s)
      ]

  unfoldable pub is_valid_user_name : List ℕ → Action B Bool
  is_valid_user_name user_name s =
      if length user_name == 0
      then (ok false, s)
      else if not (matches (c_string user_name))
      then (ok false, s)
      else if same user_name root
      then (ok false, s)
      else catch_bus_error ((issue system get_managed_objects >>= as_objects) s)
          (λ os. pure (not (has_key (user_path user_name) os))) (pure false)
