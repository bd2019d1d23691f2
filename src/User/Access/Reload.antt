-- ===== src/User/Access/Reload.antt =====
-- writeUserData and the next checkAndReloadUserData of user_channel/user_mgmt.cpp, on a system that
-- gives back what was written to the file.
use mathlib.Core.Path.{subst}
use phosphor_host_ipmid.User.Access.{
  save, Written, written, not_written, not_renamed, System, holds, Access, wrote, write_user_data,
  check_and_reload_user_data, read_user_data, load,
}
use phosphor_host_ipmid.Prelude.{
  ℕ, zero, suc, ◌≡◌, refl, sym, ap, ◌∙◌, List, [], ◌∷◌, map, length, All, drop, take, replicate,
  eq→==,
}
use phosphor_host_ipmid.User.Privilege.{ipmi_max_users}
use phosphor_host_ipmid.User.Table.{UserInfo, UsersTbl, no_user, no_users}
use phosphor_host_ipmid.User.Store.{UserEntry, user, Result, ok, read_users}
use phosphor_host_ipmid.User.Store.RoundTrip.{
  IsUser, Sized, stored, read_users-entries_of, length-map-user,
}

-- The reserved user and 15 others.
pub record IsTable (tbl : UsersTbl) : Type 0 where
  pub reserved : take 1 tbl ≡ no_user ∷ []
  pub users : length (drop 1 tbl) ≡ ipmi_max_users
  pub all_users : All IsUser (drop 1 tbl)

no_users-Sized : (n : ℕ) → All Sized (replicate n no_user)
no_users-Sized zero = tt
no_users-Sized (suc n) = (record { channels = refl; payloads = refl }, no_users-Sized n)

module _ {B : Type 0} where
  wrote-written :
      (s : Access B) (m : Written × B)
      → (wrote s m).0 ≡ ok tt
      → (b : B) × (m ≡ (written, b)) × ((wrote s m).1 ≡ record s { bus = b })
  wrote-written s (written, b) e = (b, refl, refl)
  wrote-written s (not_written, b) e = cc
  wrote-written s (not_renamed, b) e = cc

  -- What nlohmann::json and the file system promise: the text of a file that was written and renamed
  -- without an error parses to what it was made from.
  pub record Keeps (system : System B) : Type 0 where
    pub kept :
        (es : List UserEntry) (b b' : B)
        → system.write_file es b ≡ (written, b')
        → system.read_file b' ≡ holds (map user es)

  load-holds :
      (s : Access B) (es : List UserEntry) (us : List UserInfo)
      → s.users_tbl ≡ no_users
      → length es ≡ ipmi_max_users
      → read_users (map user es) (replicate 15 no_user) ≡ (ok tt, us)
      → load s (holds (map user es)) ≡ (ok tt, record s { users_tbl = no_user ∷ us })
  load-holds s es us new count read =
      rw (new, eq→== (length (map user es)) ipmi_max_users (length-map-user es ∙ count), read)

  -- After the table was written without an exception, a reload succeeds and gives it back, but for
  -- the payloads other than SOL. The table has 15 well-formed users behind the reserved one.
  pub write_user_data-reload :
      (system : System B)
      → Keeps system
      → (s : Access B) → IsTable s.users_tbl
      → (write_user_data system s).0 ≡ ok tt
      → let t = (write_user_data system s).1 in
        check_and_reload_user_data system t
        ≡ (ok tt, record t { users_tbl = no_user ∷ map stored (drop 1 s.users_tbl) })
  unfolding write_user_data check_and_reload_user_data read_user_data
  write_user_data-reload system k s h done =
      let us = drop 1 s.users_tbl in
      let (es, saved, count, read) =
        read_users-entries_of us (replicate 15 no_user) (sym h.users) h.all_users
          (no_users-Sized 15) in
      let saves = ap (save system s) saved in
      let (b, file, after) =
        wrote-written s (system.write_file es s.bus)
          (sym (ap (λ (r : Result Unit × Access B). r.0) saves) ∙ done) in
      let t : (write_user_data system s).1 ≡ record s { bus = b } =
        ap (λ (r : Result Unit × Access B). r.1) saves ∙ after in
      let at_b : Access B = record s { bus = b; users_tbl = no_users } in
      subst
        (λ (t : Access B).
          check_and_reload_user_data system t
          ≡ (ok tt, record t { users_tbl = no_user ∷ map stored us }))
        (sym t)
        (ap (load at_b) (k.kept es s.bus b file)
          ∙ load-holds at_b es (map stored us) refl (count ∙ h.users) read)
