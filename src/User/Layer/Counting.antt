-- ===== src/User/Layer/Counting.antt =====
-- The counts of user_channel/user_layer.cpp.
use mathlib.Core.Path.{ap, subst}
use phosphor_host_ipmid.Prelude.{
  ◌<◌, ◌∙◌, ℕ, zero, suc, ◌+◌, ◌%◌, ◌≤◌, ◌≡◌, refl, arith, Bool, true, false, List, [], ◌∷◌,
  if◌then◌else◌, drop,
}
use phosphor_host_ipmid.User.Store.{Result, ok, err}
use phosphor_host_ipmid.User.Access.{Access, System, and_then, gets, check_and_reload_user_data}
use phosphor_host_ipmid.User.Layer.{Counts, ipmi_user_get_all_counts, System, count_in, counts_of}
use phosphor_host_ipmid.User.Table.{UserInfo}

-- The elements of the first `k` that pass.
abbrev pub passing : ℕ → (UserInfo → Bool) → List UserInfo → ℕ
passing zero f us = 0
passing (suc k) f [] = 0
passing (suc k) f (u ∷ us) = (if f u then 1 else 0) + passing k f us

passing-bound : (k : ℕ) (f : UserInfo → Bool) (us : List UserInfo) → passing k f us ≤ k
passing-bound zero f us = omega arith
passing-bound (suc k) f [] = omega arith
passing-bound (suc k) f (u ∷ us) = one (f u) (passing-bound k f us)
  where
    one : (b : Bool) → passing k f us ≤ k → (if b then 1 else 0) + passing k f us ≤ suc k
    one true h = omega arith
    one false h = omega arith

count_in-passing :
    (k : ℕ) (f : UserInfo → Bool) (us : List UserInfo) (n : ℕ)
    → n + k ≤ 255
    → count_in k f us n ≡ n + passing k f us
count_in-passing zero f us n h = omega arith
count_in-passing (suc k) f [] n h = omega arith
count_in-passing (suc k) f (u ∷ us) n h = step (f u) (λ m. count_in-passing k f us m)
  where
    step :
        (b : Bool)
        → ((m : ℕ) → m + k ≤ 255 → count_in k f us m ≡ m + passing k f us)
        → count_in k f us (if b then (n + 1) % 256 else n)
          ≡ n + ((if b then 1 else 0) + passing k f us)
    step true counts =
        let small : (n + 1) % 256 ≡ n + 1 = omega (arith, h) in
        rw small (counts (n + 1) (omega arith) ∙ omega arith)
    step false counts = counts n (omega arith) ∙ omega arith

module _ {B : Type 0} (system : System B) where
  abbrev counts : Result Unit × Access B → Result Counts × Access B
  counts m = and_then m (λ _. gets (λ s. counts_of s.users_tbl))

  CountsUsers : Counts → List UserInfo → Type 0
  CountsUsers c users =
      (c.max_ch_users ≡ 15)
      × (c.enabled_users ≡ passing 15 (λ u. u.user_enabled) users)
      × (c.fixed_users ≡ passing 15 (λ u. u.fixed_user_name) users)
      × (c.enabled_users < 64)
      × (c.fixed_users < 64)

  counts_of-CountsUsers : (tbl : List UserInfo) → CountsUsers (counts_of tbl) (drop 1 tbl)
  unfolding CountsUsers
  counts_of-CountsUsers tbl =
      let enabled = count_in-passing 15 (λ u. u.user_enabled) (drop 1 tbl) 0 (omega arith) in
      let fixed = count_in-passing 15 (λ u. u.fixed_user_name) (drop 1 tbl) 0 (omega arith) in
      let b = passing-bound 15 (λ u. u.user_enabled) (drop 1 tbl) in
      let d = passing-bound 15 (λ u. u.fixed_user_name) (drop 1 tbl) in
      (
        refl,
        enabled ∙ omega arith,
        fixed ∙ omega arith,
        omega (arith, enabled, b),
        omega (arith, fixed, d),
      )

  counts-CountsUsers :
      (m : Result Unit × Access B) (c : Counts)
      → (counts m).0 ≡ ok c
      → CountsUsers c (drop 1 (counts m).1.users_tbl)
  counts-CountsUsers (ok t, s) c h =
      subst (λ (c : Counts). CountsUsers c (drop 1 s.users_tbl)) (ap (or_else c) h)
        (counts_of-CountsUsers s.users_tbl)
    where
      or_else : Counts → Result Counts → Counts
      or_else d (ok c) = c
      or_else d (err f) = d
  counts-CountsUsers (err f, s) c h = cc

  -- The counts that are given are those of the table that was read: of the users from 1 to 15 those
  -- that are enabled, and those whose name is fixed. The counters do not wrap around, and fit in the
  -- six bits of Get User Access.
  pub ipmi_user_get_all_counts-passing :
      (s : Access B) (c : Counts)
      → (ipmi_user_get_all_counts system s).0 ≡ ok c
      → let users = drop 1 (ipmi_user_get_all_counts system s).1.users_tbl in
        (c.max_ch_users ≡ 15)
        × (c.enabled_users ≡ passing 15 (λ u. u.user_enabled) users)
        × (c.fixed_users ≡ passing 15 (λ u. u.fixed_user_name) users)
        × (c.enabled_users < 64)
        × (c.fixed_users < 64)
  unfolding ipmi_user_get_all_counts CountsUsers
  ipmi_user_get_all_counts-passing s = counts-CountsUsers (check_and_reload_user_data system s)
