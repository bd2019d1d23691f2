-- ===== src/Examples/Passwd.antt =====
-- A password file with two users, one of which is renamed.
use phosphor_host_ipmid.Prelude.{
  ◌∙◌, ◌≤◌, replicate, arith, false, inl, ◌≢◌, ℕ, ◌≡◌, refl, ap, sym, Bool, true, List, [], ◌∷◌,
  none, some,
}
use phosphor_host_ipmid.Passwd.Fitting.{user_lines}
use mathlib.Core.Option.{some-injective}
use phosphor_host_ipmid.Passwd.{
  print, update_lines, System, PasswdMgr, tokens, pieces, split_colon, is_user_found,
  check_and_reload, update_passwd_special_file,
}
use phosphor_host_ipmid.Passwd.Renaming.{Keeps, renamed, update_passwd_special_file-renamed}

abbrev disk : System (List ℕ)
disk = record {
  block_size = 16;
  read_passwd_file_data = λ text. some text;
  write_passwd_file = λ text old. (true, text);
  file_time = λ text. none;
}

disk-Keeps : Keeps disk
disk-Keeps = record { kept = λ text b b' e. ap (λ (r : Bool × List ℕ). some r.1) (sym e) }

-- "a:x\nb:y\n"
abbrev file : List ℕ
file = 97 ∷ 58 ∷ 120 ∷ 10 ∷ 98 ∷ 58 ∷ 121 ∷ 10 ∷ []

abbrev start : PasswdMgr (List ℕ)
start = record { passwd_map_list = []; file_last_updated_time = none; bus = file }

found : is_user_found (97 ∷ []) (tokens file) ≡ true
unfolding is_user_found pieces split_colon
found = refl

one_line : user_lines (97 ∷ []) (tokens file) ≤ 1
unfolding pieces split_colon
one_line = omega arith

updated : (update_passwd_special_file disk (97 ∷ []) (99 ∷ []) start).0 ≡ some true
unfolding update_passwd_special_file update_lines print is_user_found pieces split_colon
updated = refl

not_failed : (update_passwd_special_file disk (97 ∷ []) (99 ∷ []) start).0 ≢ some false
not_failed e = true-false (some-injective _ _ (sym updated ∙ e))
  where
    true-false : true ≡ false → ⊥
    true-false e = cc

-- The user "a" has three lines "a:x" and gets a name of sixteen characters: the three lines of 19
-- bytes do not fit into the buffer of 44.
overflow :
    (update_passwd_special_file disk
      (97 ∷ [])
      (replicate 16 99)
      (record start { bus = 97 ∷ 58 ∷ 120 ∷ 10 ∷ 97 ∷ 58 ∷ 120 ∷ 10 ∷ 97 ∷ 58 ∷ 120 ∷ 10 ∷ [] })).0
    ≡ none
unfolding update_passwd_special_file update_lines print is_user_found pieces split_colon
overflow = refl

update_passwd_special_file-renamed_example :
    let r = update_passwd_special_file disk (97 ∷ []) (99 ∷ []) start in
    (r.0 ≡ some true)
    × ((check_and_reload disk r.1).passwd_map_list
        ≡ renamed (97 ∷ []) (99 ∷ []) (check_and_reload disk start).passwd_map_list)
update_passwd_special_file-renamed_example =
    update_passwd_special_file-renamed disk disk-Keeps (97 ∷ []) (99 ∷ []) file start (refl, tt)
      (refl, tt) refl found (inl one_line) (omega arith) not_failed
