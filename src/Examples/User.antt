-- ===== src/Examples/User.antt =====
-- Tables of users, and a file that keeps what is written to it.
use phosphor_host_ipmid.User.Store.{
  update_payload_access_in_user_info, read_channels, read_user, UserEntry, user, ok, entries_of,
  read_users, entry_of,
}
use phosphor_host_ipmid.User.Table.Unique.{Absent, Unique}
use phosphor_host_ipmid.User.Privilege.{
  priv_no_access, IsNamed, convert_round, convert_to_system_privilege, convert_to_ipmi_privilege,
}
use phosphor_host_ipmid.User.Access.{
  Written, read_user_data, System, Access, holds, written, objects, pam_success, write_user_data,
  check_and_reload_user_data, add_user_entry,
}
use phosphor_host_ipmid.Prelude.{
  ap, sym, ℕ, zero, suc, ◌≡◌, inl, inr, refl, Bool, true, false, List, [], ◌∷◌, map, none, some,
  length, All, drop, replicate, arith,
}
use phosphor_host_ipmid.User.Table.{
  no_priv_access, UserPrivAccess, padded, UserInfo, UsersTbl, no_user, no_users, first_user,
  first_users,
}
use Prim.Native.String.{String}
use phosphor_host_ipmid.User.Store.RoundTrip.{IsUser, stored, read_users-entries_of}
use phosphor_host_ipmid.User.Access.Reload.{Keeps, write_user_data-reload}
use phosphor_host_ipmid.User.Access.Adding.{Added, add_user_entry-Added}
use phosphor_host_ipmid.User.Sync.{sync_users}
use phosphor_host_ipmid.User.Sync.Losing.{Kept, sync_users-OneErased}

convert_round_example :
    (s : String) × (convert_to_system_privilege 4 ≡ some s) × (convert_to_ipmi_privilege s ≡ some 4)
convert_round_example = convert_round 4 (inl (omega arith))

same_privilege :
    (n : ℕ)
    → All {A = UserPrivAccess}
        (λ a. IsNamed a.privilege)
        (replicate n (record no_priv_access { privilege = priv_no_access }))
same_privilege zero = tt
same_privilege (suc n) = (inr refl, same_privilege n)

first_user-IsUser : IsUser first_user
first_user-IsUser = record {
  sized = record { channels = refl; payloads = refl };
  named = refl;
  privileges = same_privilege 16;
}

abbrev two_users : List UserInfo
two_users = first_user ∷ first_user ∷ []

read_users-entries_of_example :
    (es : List UserEntry) × (entries_of two_users ≡ some es)
    × (length es ≡ 2)
    × (read_users (map user es) (no_user ∷ no_user ∷ []) ≡ (ok tt, map stored two_users))
read_users-entries_of_example =
    read_users-entries_of two_users (no_user ∷ no_user ∷ []) refl
      (first_user-IsUser, (first_user-IsUser, tt))
      (
        record { channels = refl; payloads = refl },
        (record { channels = refl; payloads = refl }, tt),
      )

-- The state of the system is what the file holds; the user manager has no users.
abbrev pub disk : System (List UserEntry)
disk = record {
  read_file = λ es. holds (map user es);
  write_file = λ es old. (written, es);
  call = λ c es. (objects [], es);
  update_passwd = λ name password es. (pam_success, es);
}

disk-Keeps : Keeps disk
disk-Keeps = record {
  kept = λ es b b' e. sym (ap (λ (r : Written × List UserEntry). holds (map user r.1)) e);
}

-- What writeUserData makes of a user in the system, or of a first user.
abbrev entry : List ℕ → Bool → UserEntry
entry name in_system = record {
  user_name = name;
  privilege = replicate 16 "";
  ipmi_enabled = replicate 16 false;
  link_auth_enabled = replicate 16 false;
  access_callback = replicate 16 false;
  user_enabled = false;
  user_in_system = in_system;
  fixed_user_name = false;
  payload_enabled = none;
}

abbrev file : List UserEntry
file = entry (97 ∷ []) true ∷ entry (98 ∷ []) true ∷ replicate 13 (entry [] false)

abbrev pub start : UsersTbl → Access (List UserEntry)
start tbl = record {
  users_tbl = tbl;
  available_privileges = [];
  available_groups = [];
  bus = file;
  password_calls = [];
}

all_first : (n : ℕ) → All IsUser (replicate n first_user)
all_first zero = tt
all_first (suc n) = (first_user-IsUser, all_first n)

written_well : (write_user_data disk (start first_users)).0 ≡ ok tt
unfolding write_user_data entries_of entry_of convert_to_system_privilege
written_well = refl

write_user_data-reload_example :
    check_and_reload_user_data disk (write_user_data disk (start first_users)).1 ≡ (
      ok tt,
      record (write_user_data disk (start first_users)).1 {
        users_tbl = no_user ∷ map stored (drop 1 first_users);
      },
    )
write_user_data-reload_example =
    write_user_data-reload disk disk-Keeps (start first_users)
      (record { reserved = refl; users = refl; all_users = all_first 15 }) written_well

abbrev user_of : List ℕ → Bool → UserInfo
user_of name in_system = record first_user { user_name = padded name; user_in_system = in_system }

-- The users of the file.
abbrev users : List UserInfo
users = user_of (97 ∷ []) true ∷ user_of (98 ∷ []) true ∷ replicate 13 first_user

file-reads :
    (s : Access (List UserEntry))
    → s.bus ≡ file
    → check_and_reload_user_data disk s ≡ (ok tt, record s { users_tbl = no_user ∷ users })
unfolding check_and_reload_user_data read_user_data read_users read_user read_channels
    convert_to_ipmi_privilege update_payload_access_in_user_info
file-reads s e = rw e refl

nameless-Unique : (n : ℕ) → Unique (replicate n first_user)
nameless-Unique zero = tt
nameless-Unique (suc n) = (inl refl, nameless-Unique n)

nameless-Absent : (c n : ℕ) → Absent (c ∷ []) (replicate n first_user)
nameless-Absent c zero = tt
nameless-Absent c (suc n) = (refl, nameless-Absent c n)

users-Unique : Unique users
users-Unique =
    (inr (refl, nameless-Absent 97 13), (inr (nameless-Absent 98 13), nameless-Unique 13))

add_user_entry-Added_example :
    Added (99 ∷ []) users (add_user_entry disk (99 ∷ []) "priv-admin" true (start no_users))
add_user_entry-Added_example =
    add_user_entry-Added disk (99 ∷ []) "priv-admin" true (start no_users) (start (no_user ∷ users))
      users
      (record { short = omega arith; some_characters = omega arith; no_zeros = (omega arith, tt) })
      users-Unique (file-reads (start no_users) refl) refl

-- Both users have left the system.
sync_users-OneErased_example :
    Kept disk (no_user ∷ users) file (sync_users disk 15 1 [] false (start (no_user ∷ users)))
sync_users-OneErased_example =
    sync_users-OneErased disk (no_user ∷ users) file 15 1 false (start (no_user ∷ users))
      (record { reads = file-reads }) refl (inl refl)
