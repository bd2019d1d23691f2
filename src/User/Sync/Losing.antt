-- ===== src/User/Sync/Losing.antt =====
-- The first loop of cacheUserDataFile (user_channel/user_mgmt.cpp), when several users have left the
-- system: deleteUserIndex reads the file again, so each deletion undoes the one before.
use phosphor_host_ipmid.User.Access.{
  and_then, System, Access, Action, user_at, check_and_reload_user_data, delete_user_index,
  DbusUserObjValue,
}
use mathlib.Core.Path.{subst}
use phosphor_host_ipmid.Prelude.{
  ℕ, zero, suc, ◌≡◌, refl, sym, Bool, true, not, ◌&&◌, List, [], ◌⊎◌, inl, inr, Bool-cases, get_or,
  ◌==◌,
}
use phosphor_host_ipmid.User.Table.{UserInfo, UsersTbl, modify_at, erased}
use phosphor_host_ipmid.User.Store.{Result, ok}
use phosphor_host_ipmid.User.Sync.{sync_users, sync_user}

-- The table of the file, or that with one user erased.
abbrev pub OneErased : UsersTbl → UsersTbl → Type 0
OneErased file tbl = (tbl ≡ file) ⊎ ((j : ℕ) × (tbl ≡ modify_at j erased file))

and_then_lem :
    {B A C : Type 0} (m : Result A × Access B) (a : A) (rest : A → Action B C)
    → m.0 ≡ ok a
    → and_then m rest ≡ rest a m.1
and_then_lem m a rest e = rw e

module _ {B : Type 0} (system : System B) (file : UsersTbl) where
  -- A reload of the file with the state `s` gives this table.
  pub record Reads (b : B) : Type 0 where
    pub reads :
        (s : Access B)
        → s.bus ≡ b
        → check_and_reload_user_data system s ≡ (ok tt, record s { users_tbl = file })

  -- A step of the loop that succeeds, leaves no objects and the bus as it is.
  pub record Kept (b : B) (r : Result (List (List ℕ × DbusUserObjValue) × Bool) × Access B)
      : Type 0 where
    pub required : Bool
    pub returned : r.0 ≡ ok ([], required)
    pub same_bus : r.1.bus ≡ b
    pub one : OneErased file r.1.users_tbl

  sync_user-Kept :
      (b : B) (usr_idx : ℕ) (required : Bool) (u : UserInfo) (s : Access B)
      → Reads b
      → s.bus ≡ b
      → OneErased file s.users_tbl
      → Kept b (sync_user system usr_idx [] required u s)
  unfolding delete_user_index
  sync_user-Kept b usr_idx required u s reads e one =
      elim (Bool-cases (u.user_in_system && not (get_or u.user_name 0 0 == 0))) [
        | inl present ↦
            rw (present, reads.reads s e)
              (record { required = true; returned = refl; same_bus = e; one = inr (usr_idx, refl) })
        | inr vacant ↦
            rw vacant (record { required = required; returned = refl; same_bus = e; one = one })
      ]

  -- When the user manager has no users left, the loop erases at most one of the table's, however
  -- many there are.
  pub sync_users-OneErased :
      (b : B) (rounds usr_idx : ℕ) (required : Bool) (s : Access B)
      → Reads b
      → s.bus ≡ b
      → OneErased file s.users_tbl
      → Kept b (sync_users system rounds usr_idx [] required s)
  unfolding sync_users
  sync_users-OneErased b zero usr_idx required s reads e one = record {
    required = required;
    returned = refl;
    same_bus = e;
    one = one;
  }
  sync_users-OneErased b (suc rounds) usr_idx required s reads e one =
      let r = sync_user system usr_idx [] required (user_at usr_idx s) s in
      let kept = sync_user-Kept b usr_idx required (user_at usr_idx s) s reads e one in
      let rest : List (List ℕ × DbusUserObjValue) × Bool
          → Action B (List (List ℕ × DbusUserObjValue) × Bool) =
        λ left. sync_users system rounds (suc usr_idx) left.0 left.1 in
      subst (Kept b) (sym (and_then_lem r ([], kept.required) rest kept.returned))
        (sync_users-OneErased b rounds (suc usr_idx) kept.required r.1 reads kept.same_bus kept.one)
