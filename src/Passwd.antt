-- ===== src/Passwd.antt =====
-- Class PasswdMgr of user_channel/passwd_mgr.cpp: the passwords by user name, kept in a file. The
-- encryption is part of the system, a parameter: it gives the text of the file and takes a new one.
-- Texts are C strings, without zeros.
pub mod Lines
pub mod Fitting
pub mod Renaming
use phosphor_host_ipmid.Prelude.{
  ◌-◌, take, length, ltb, ◌+◌, ℕ, Bool, true, false, not, ◌&&◌, ◌||◌, List, [], ◌∷◌, ◌++◌, Option,
  none, some, ◌==◌, if◌then◌else◌, same,
}

abbrev pub newline : ℕ
newline = 10

abbrev pub colon : ℕ
colon = 58

abbrev pub close_token : List ℕ → List (List ℕ) → List (List ℕ)
close_token [] ts = ts
close_token (c ∷ cs) ts = (c ∷ cs) ∷ ts

-- strtok_r by "\n": the characters up to the first newline, and the tokens behind it.
unfoldable pub pieces : List ℕ → List ℕ × List (List ℕ)
pieces [] = ([], [])
pieces (c ∷ cs) =
    let r = pieces cs in if c == newline then ([], close_token r.0 r.1) else (c ∷ r.0, r.1)

abbrev pub tokens : List ℕ → List (List ℕ)
tokens text = let r = pieces text in close_token r.0 r.1

abbrev pub in_front : ℕ → Option (List ℕ × List ℕ) → Option (List ℕ × List ℕ)
in_front c none = none
in_front c (some (user, rest)) = some (c ∷ user, rest)

-- What is before the first colon of a line, and what is behind it.
unfoldable pub split_colon : List ℕ → Option (List ℕ × List ℕ)
split_colon [] = none
split_colon (c ∷ cs) = let r = split_colon cs in if c == colon then some ([], cs) else in_front c r

-- The passwords by name. The map keeps the first entry of a name, which is the one that is found.
abbrev pub PasswdMap : Type 0
PasswdMap = List (List ℕ × List ℕ)

abbrev pub add_split : Option (List ℕ × List ℕ) → PasswdMap → PasswdMap
add_split none m = m
add_split (some e) m = e ∷ m

unfoldable pub entries_of_lines : List (List ℕ) → PasswdMap
entries_of_lines [] = []
entries_of_lines (l ∷ ls) = add_split (split_colon l) (entries_of_lines ls)

abbrev pub find_passwd : List ℕ → PasswdMap → Option (List ℕ)
find_passwd name [] = none
find_passwd name ((user, password) ∷ m) =
    if same user name then some password else find_passwd name m

-- What is written for a line of the file.
abbrev pub update_split : List ℕ → List ℕ → List ℕ → Option (List ℕ × List ℕ) → List ℕ
update_split name new line none = []
update_split name [] line (some (user, rest)) = if same name user then [] else line ++ newline ∷ []
update_split name (c ∷ new) line (some (user, rest)) =
    if same name user then (c ∷ new) ++ colon ∷ rest ++ newline ∷ [] else line ++ newline ∷ []

-- The buffer of the new text: what is in it, and the sum of what snprintf returned.
pub record Buffer : Type 0 where
  pub text : List ℕ
  pub bytes_written : ℕ

-- snprintf to the end of what is written, in a buffer of `size` bytes; `none` is a write past the
-- end, where `size - bytesWritten` has wrapped around. What does not fit is cut, with a zero at
-- the end, but counted. Where nothing is to be written the code does not call it.
unfoldable pub print : ℕ → List ℕ → Buffer → Option Buffer
print size [] b = some b
print size (c ∷ cs) b =
    let total = b.bytes_written + length (c ∷ cs) in
    if ltb size b.bytes_written
    then none
    else if b.bytes_written == size
    then some (record b { bytes_written = total })
    else if ltb total size
    then some (record { text = b.text ++ c ∷ cs; bytes_written = total })
    else some (record {
      text = b.text ++ take (size - b.bytes_written - 1) (c ∷ cs) ++ 0 ∷ [];
      bytes_written = total;
    })

abbrev pub and_print : Option Buffer → (Buffer → Option Buffer) → Option Buffer
and_print none rest = none
and_print (some b) rest = rest b

unfoldable pub update_lines : ℕ → List ℕ → List ℕ → List (List ℕ) → Buffer → Option Buffer
unfolding print
update_lines size name new [] b = some b
update_lines size name new (l ∷ ls) b =
    and_print (print size (update_split name new l (split_colon l)) b)
      (update_lines size name new ls)

abbrev pub is_user : List ℕ → Option (List ℕ × List ℕ) → Bool
is_user name none = false
is_user name (some (user, rest)) = same name user

unfoldable pub is_user_found : List ℕ → List (List ℕ) → Bool
is_user_found name [] = false
is_user_found name (l ∷ ls) = is_user name (split_colon l) || is_user_found name ls

-- `none` is a file that cannot be read or decrypted, and a time that stat does not give. The block
-- size is that of the cipher.
pub record System (B : Type 0) : Type 0 where
  pub block_size : ℕ
  pub read_passwd_file_data : B → Option (List ℕ)
  pub write_passwd_file : List ℕ → B → Bool × B
  pub file_time : B → Option ℕ

pub record PasswdMgr (B : Type 0) : Type 0 where
  pub passwd_map_list : PasswdMap
  pub file_last_updated_time : Option ℕ
  pub bus : B

abbrev pub same_time : Option ℕ → Option ℕ → Bool
same_time (some t) (some u) = t == u
same_time _ _ = false

module _ {B : Type 0} (system : System B) where
  abbrev pub load_map : Option (List ℕ) → PasswdMgr B → PasswdMgr B
  load_map none s = s
  load_map (some text) s = record s {
    passwd_map_list = s.passwd_map_list ++ entries_of_lines (tokens text);
    file_last_updated_time = system.file_time s.bus;
  }

  unfoldable pub init_password_map : PasswdMgr B → PasswdMgr B
  init_password_map s = load_map (system.read_passwd_file_data s.bus) s

  -- The test of the file's time is commented out.
  unfoldable pub check_and_reload : PasswdMgr B → PasswdMgr B
  check_and_reload s = init_password_map (record s { passwd_map_list = [] })

  abbrev pub or_empty : Option (List ℕ) → List ℕ
  or_empty none = []
  or_empty (some password) = password

  unfoldable pub get_passwd_by_user_name : List ℕ → PasswdMgr B → List ℕ × PasswdMgr B
  get_passwd_by_user_name name s =
      let t = check_and_reload s in (or_empty (find_passwd name t.passwd_map_list), t)

  abbrev pub buffer_size : List ℕ → List ℕ → ℕ
  buffer_size new [] = 0
  buffer_size new (c ∷ text) = length (c ∷ text) + length new + system.block_size

  -- The encryption reads as many bytes of the buffer as were counted.
  abbrev pub write_buffer : ℕ → Bool → Option Buffer → PasswdMgr B → Option Bool × PasswdMgr B
  write_buffer size found none s = (none, s)
  write_buffer size false (some b) s = (some true, s)
  write_buffer size true (some b) s =
      if ltb size b.bytes_written
      then (none, s)
      else (let (wrote, bus) = system.write_passwd_file b.text s.bus in
          (some wrote, record s { bus = bus }))

  abbrev pub write_updated :
      List ℕ → List ℕ → Option (List ℕ) → PasswdMgr B → Option Bool × PasswdMgr B
  write_updated name new none s = (some false, s)
  write_updated name new (some text) s =
      let size = buffer_size new text in
      write_buffer size (is_user_found name (tokens text))
        (update_lines size name new (tokens text) (record { text = []; bytes_written = 0 })) s

  -- Whether it succeeds; `none` is an access past the end of the buffer, and says nothing of the
  -- state. The new text is renamed over the file only as a whole.
  unfoldable pub update_passwd_special_file :
      List ℕ → List ℕ → PasswdMgr B → Option Bool × PasswdMgr B
  update_passwd_special_file name new s =
      write_updated name new (system.read_passwd_file_data s.bus) s

  abbrev pub is_known : Option (List ℕ) → Bool
  is_known none = false
  is_known (some password) = true

  unfoldable pub update_user_entry : List ℕ → List ℕ → PasswdMgr B → Option Bool × PasswdMgr B
  update_user_entry name new s =
      if same_time s.file_last_updated_time (system.file_time s.bus)
        && not (is_known (find_passwd name s.passwd_map_list))
      then (some true, s)
      else update_passwd_special_file name new s
