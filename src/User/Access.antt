-- ===== src/User/Access.antt =====
-- The members of class UserAccess of user_channel/user_mgmt.cpp and what they reach: the file with
-- the users and the D-Bus, which are the system, a parameter. A method takes the state and returns
-- a result or an exception, and the state. The locks are left out: a method is one step.
pub mod Reload
pub mod Adding
use Prim.Native.String.{String}
use phosphor_host_ipmid.Prelude.{
  ℕ, Bool, true, false, List, [], ◌∷◌, ◌++◌, Option, none, some, ◌==◌, if◌then◌else◌, length, take,
  drop, get_or, bit_and,
}
use phosphor_host_ipmid.Codes.{cc_success, cc_unspecified_error}
use phosphor_host_ipmid.User.Privilege.{ipmi_max_users, convert_to_ipmi_privilege}
use phosphor_host_ipmid.User.Table.{
  UserInfo, UsersTbl, no_user, no_users, cur_name, copy_name, modify_at, find_free, erased, entered,
}
use phosphor_host_ipmid.User.Store.{
  UserEntry, JsonUser, Result, ok, err, Failure, ios_failure, runtime_error, out_of_range,
  bus_error, read_users, entries_of,
}

-- The values of the properties on the bus.
pub data PropVariant : Type 0 where
  names_value : List String → PropVariant
  text_value : String → PropVariant
  flag_value : Bool → PropVariant

abbrev pub DbusUserObjProperties : Type 0
DbusUserObjProperties = List (String × PropVariant)

-- The properties of each interface of a user object.
abbrev pub DbusUserObjValue : Type 0
DbusUserObjValue = List (String × DbusUserObjProperties)

-- A call of the user manager includes finding its service. Paths and user names are characters.
pub data Call : Type 0 where
  get_managed_objects : Call
  get_manager_properties : Call
  get_user_properties_call : List ℕ → Call
  create_user : List ℕ → List String → String → Bool → Call
  delete_user : List ℕ → Call
  rename_user : List ℕ → List ℕ → Call
  set_user_enabled : List ℕ → Bool → Call
  set_user_privilege : List ℕ → String → Call

-- Objects come in the order of std::map. What cannot be read as the caller wants is an error.
pub data Reply : Type 0 where
  call_error : Reply
  done : Reply
  objects : List (List ℕ × DbusUserObjValue) → Reply
  properties : DbusUserObjProperties → Reply

-- `holds []` also stands for a text that is no JSON array.
pub data FileContent : Type 0 where
  unreadable : FileContent
  holds : List JsonUser → FileContent

pub data Written : Type 0 where
  written : Written
  not_written : Written
  not_renamed : Written

pub data PamResult : Type 0 where
  pam_success : PamResult
  pam_authtok_err : PamResult
  pam_other : PamResult

pub record System (B : Type 0) : Type 0 where
  pub read_file : B → FileContent
  pub write_file : List UserEntry → B → Written × B
  pub call : Call → B → Reply × B
  pub update_passwd : List ℕ → List ℕ → B → PamResult × B

-- The calls of user_channel/passwd_mgr.cpp.
pub data PasswordCall : Type 0 where
  cleared : List ℕ → PasswordCall
  renamed : List ℕ → List ℕ → PasswordCall

pub record Access (B : Type 0) : Type 0 where
  pub users_tbl : UsersTbl
  pub available_privileges : List String
  pub available_groups : List String
  pub bus : B
  pub password_calls : List PasswordCall

abbrev pub Action : Type 0 → Type 0 → Type 0
Action B A = Access B → Result A × Access B

abbrev pub and_then :
    {B A C : Type 0} → Result A × Access B → (A → Action B C) → Result C × Access B
and_then (ok a, s) rest = rest a s
and_then (err f, s) rest = (err f, s)

infixl 5 ◌>>=◌ ◌>>◌
abbrev pub ◌>>=◌ : {B A C : Type 0} → Action B A → (A → Action B C) → Action B C
◌>>=◌ m rest s = and_then (m s) rest

abbrev pub ◌>>◌ : {B C : Type 0} → Action B Unit → Action B C → Action B C
m >> rest = m >>= λ _. rest

abbrev pub pure : {B A : Type 0} → A → Action B A
pure a s = (ok a, s)

abbrev pub raise : {B A : Type 0} → Failure → Action B A
raise f s = (err f, s)

abbrev pub gets : {B A : Type 0} → (Access B → A) → Action B A
gets f s = (ok (f s), s)

abbrev pub modify : {B : Type 0} → (Access B → Access B) → Action B Unit
modify f s = (ok tt, f s)

abbrev pub or_raise : {B A : Type 0} → Failure → Option A → Action B A
or_raise f none = raise f
or_raise f (some a) = pure a

abbrev pub user_at : {B : Type 0} → ℕ → Access B → UserInfo
user_at i s = get_or s.users_tbl i no_user

abbrev pub modify_user : {B : Type 0} → ℕ → (UserInfo → UserInfo) → Action B Unit
modify_user i f s = (ok tt, record s { users_tbl = modify_at i f s.users_tbl })

abbrev pub note_call : {B : Type 0} → PasswordCall → Action B Unit
note_call c s = (ok tt, record s { password_calls = s.password_calls ++ c ∷ [] })

abbrev pub put_users :
    {B : Type 0} → Access B → Result Unit × List UserInfo → Result Unit × Access B
put_users s (r, us) = (r, record s { users_tbl = take 1 s.users_tbl ++ us })

-- User 0 is reserved and not in the file.
abbrev pub load : {B : Type 0} → Access B → FileContent → Result Unit × Access B
load s unreadable = (err ios_failure, s)
load s (holds es) =
    if length es == ipmi_max_users
    then put_users s (read_users es (drop 1 s.users_tbl))
    else (err runtime_error, s)

abbrev pub wrote : {B : Type 0} → Access B → Written × B → Result Unit × Access B
wrote s (written, b) = (ok tt, record s { bus = b })
wrote s (not_written, b) = (err ios_failure, record s { bus = b })
wrote s (not_renamed, b) = (err runtime_error, record s { bus = b })

-- `try { writeUserData(); } catch (const std::exception&)`, and the code that is returned.
abbrev pub code_of : {B : Type 0} → Result Unit × Access B → Result ℕ × Access B
code_of (ok t, s) = (ok cc_success, s)
code_of (err f, s) = (ok cc_unspecified_error, s)

abbrev pub replied : {B : Type 0} → Access B → Reply × B → Result Reply × Access B
replied s (call_error, b) = (err bus_error, record s { bus = b })
replied s (done, b) = (ok done, record s { bus = b })
replied s (objects os, b) = (ok (objects os), record s { bus = b })
replied s (properties ps, b) = (ok (properties ps), record s { bus = b })

-- addUserEntry, after its loop.
abbrev pub add_at : {B : Type 0} → List ℕ → String → Bool → Option (Option ℕ) → Action B Bool
add_at user_name sys_priv enabled none = pure false
add_at user_name sys_priv enabled (some none) = pure false
add_at user_name sys_priv enabled (some (some free)) = do
  modify_user free (λ u. record u { user_name = copy_name user_name })
  priv ← or_raise out_of_range (convert_to_ipmi_privilege sys_priv)
  modify_user free (entered (bit_and priv 15) enabled)
  pure true

module _ {B : Type 0} (system : System B) where
  -- Any error of the bus is a sdbusplus::exception::SdBusError.
  unfoldable pub issue : Call → Action B Reply
  issue c s = replied s (system.call c s.bus)

  unfoldable pub read_user_data : Action B Unit
  read_user_data s = load s (system.read_file s.bus)

  abbrev pub save : Access B → Option (List UserEntry) → Result Unit × Access B
  save s none = (err out_of_range, s)
  save s (some es) = wrote s (system.write_file es s.bus)

  unfoldable pub write_user_data : Action B Unit
  write_user_data s = save s (entries_of (drop 1 s.users_tbl))

  abbrev pub write_or_unspecified : Action B ℕ
  write_or_unspecified s = code_of (write_user_data s)

  -- The test of the file's time is commented out, so the file is always read.
  unfoldable pub check_and_reload_user_data : Action B Unit
  unfolding read_user_data
  check_and_reload_user_data s = read_user_data (record s { users_tbl = no_users })

  -- getUserInfo returns a pointer: the caller changes the table at `user_id`.
  unfoldable pub get_user_info : ℕ → Action B UserInfo
  get_user_info user_id = check_and_reload_user_data >> gets (user_at user_id)

  unfoldable pub set_user_info : ℕ → UserInfo → Action B Unit
  set_user_info user_id user_info = do
    check_and_reload_user_data
    modify_user user_id (λ u. user_info)
    write_user_data

  unfoldable pub delete_user_index : ℕ → Action B Unit
  delete_user_index usr_idx = do
    check_and_reload_user_data
    u ← gets (user_at usr_idx)
    note_call (cleared (cur_name u))
    modify_user usr_idx erased

  unfoldable pub add_user_entry : List ℕ → String → Bool → Action B Bool
  add_user_entry user_name sys_priv enabled = do
    check_and_reload_user_data
    free ← gets (λ s. find_free user_name 1 none (drop 1 s.users_tbl))
    add_at user_name sys_priv enabled free
