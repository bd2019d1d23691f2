-- ===== src/Passwd/Renaming.antt =====
-- The text that updatePasswdSpecialFile of user_channel/passwd_mgr.cpp writes, read again.
use phosphor_host_ipmid.Passwd.{
  length, buffer_size, is_user_found, PasswdMgr, init_password_map, check_and_reload,
  update_passwd_special_file, System, add_split, update_split, true, entries_of_lines, newline,
  colon, pieces, tokens, split_colon, PasswdMap,
}
use phosphor_host_ipmid.Prelude.{
  le→ltb, arith, ◌<◌, ◌⊎◌, ◌≤◌, Bool, true, false, All-append, ◌∙◌, append_assoc, ◌≢◌, ℕ, ◌≡◌, refl,
  ap, List, [], ◌∷◌, ◌++◌, some, ◌==◌, if◌then◌else◌, same, All,
}
use phosphor_host_ipmid.Passwd.Fitting.{spliced, spliced-fits, update_lines-fits, user_lines}
use phosphor_host_ipmid.Passwd.Lines.{
  Free-behind, Line, tokens-Line, tokens-line, split_colon-user, tokens-plain, split_colon-joined,
  Free,
}
use mathlib.Core.Option.{none, Option}
use mathlib.Core.Path.{subst}

-- The specification: the entries of the user under the new name, or none where it is empty.
abbrev pub renamed : List ℕ → List ℕ → PasswdMap → PasswdMap
renamed name new [] = []
renamed name [] ((user, password) ∷ m) =
    if same name user then renamed name [] m else (user, password) ∷ renamed name [] m
renamed name (c ∷ new) ((user, password) ∷ m) =
    (if same name user then (c ∷ new, password) else (user, password)) ∷ renamed name (c ∷ new) m

none_renamed : (name new : List ℕ) → [] ≡ renamed name new []
none_renamed name [] = refl
none_renamed name (c ∷ new) = refl

module _ (name : List ℕ) (l u rest : List ℕ) (U : List ℕ) where
  kept :
      Free newline l
      → l ≢ []
      → split_colon l ≡ some (u, rest)
      → entries_of_lines (tokens ((l ++ newline ∷ []) ++ U))
        ≡ (u, rest) ∷ entries_of_lines (tokens U)
  unfolding entries_of_lines
  kept h n e = rw (tokens-plain l U h n, e) refl

  changed :
      (c : ℕ) (new : List ℕ)
      → Free newline (c ∷ new)
      → Free colon (c ∷ new)
      → Free newline rest
      → entries_of_lines (tokens (((c ∷ new) ++ colon ∷ rest ++ newline ∷ []) ++ U))
        ≡ (c ∷ new, rest) ∷ entries_of_lines (tokens U)
  unfolding entries_of_lines
  changed c new h k r =
      rw
        (
          together,
          tokens-line c (new ++ colon ∷ rest) U
              (All-append (λ x. (x == newline) ≡ false) (c ∷ new) (colon ∷ rest) h (refl, r)),
          split_colon-user (c ∷ new) rest k,
        )
        refl
    where
      together :
          ((c ∷ new) ++ colon ∷ rest ++ newline ∷ []) ++ U
          ≡ (c ∷ (new ++ colon ∷ rest)) ++ newline ∷ U
      together = append_assoc ((c ∷ new) ++ colon ∷ rest) (newline ∷ []) U

step :
    (name new l : List ℕ) (U : List ℕ) (m : PasswdMap) (o : Option (List ℕ × List ℕ))
    → split_colon l ≡ o
    → Line l
    → Free newline new
    → Free colon new
    → entries_of_lines (tokens U) ≡ renamed name new m
    → entries_of_lines (tokens (update_split name new l o ++ U)) ≡ renamed name new (add_split o m)
step name new l U m none e line h k same_rest = same_rest
step name [] l U m (some (u, rest)) e line h k same_rest = by (same name u)
  where
    by :
        (b : Bool)
        → entries_of_lines (tokens ((if b then [] else l ++ newline ∷ []) ++ U))
          ≡ (if b then renamed name [] m else (u, rest) ∷ renamed name [] m)
    by true = same_rest
    by false = kept name l u rest U line.0 line.1 e ∙ ap (◌∷◌ (u, rest)) same_rest
step name (c ∷ new) l U m (some (u, rest)) e line h k same_rest = by (same name u)
  where
    behind : Free newline rest
    behind =
        Free-behind newline u rest (subst (Free newline) (split_colon-joined l (u, rest) e) line.0)

    by :
        (b : Bool)
        → entries_of_lines (
            tokens
              ((if b then (c ∷ new) ++ colon ∷ rest ++ newline ∷ [] else l ++ newline ∷ []) ++ U))
          ≡ (if b then (c ∷ new, rest) else (u, rest)) ∷ renamed name (c ∷ new) m
    by true = changed name l u rest U c new h k behind ∙ ap (◌∷◌ (c ∷ new, rest)) same_rest
    by false = kept name l u rest U line.0 line.1 e ∙ ap (◌∷◌ (u, rest)) same_rest

module _ (name new : List ℕ) (h : Free newline new) (k : Free colon new) where
  entries_of-spliced :
      (ls : List (List ℕ))
      → All Line ls
      → entries_of_lines (tokens (spliced name new ls)) ≡ renamed name new (entries_of_lines ls)
  unfolding spliced entries_of_lines pieces
  entries_of-spliced [] lines = none_renamed name new
  entries_of-spliced (l ∷ ls) lines =
      step name new l (spliced name new ls) (entries_of_lines ls) (split_colon l) refl lines.0 h k
        (entries_of-spliced ls lines.1)

  -- The text that is written for another name of a user, which has no colon and no newline, is read
  -- back as the entries of the old text with the new name at those of the user; for an empty name
  -- the entries of the user are gone. Lines without a colon are not kept, which changes no entry.
  spliced-renamed :
      (text : List ℕ)
      → entries_of_lines (tokens (spliced name new (tokens text)))
        ≡ renamed name new (entries_of_lines (tokens text))
  spliced-renamed text = entries_of-spliced (tokens text) (tokens-Line text)

module _ {B : Type 0} (system : System B) where
  -- What the encryption and the file system promise of a file that was written without an error.
  pub record Keeps : Type 0 where
    pub kept :
        (text : List ℕ) (b b' : B)
        → system.write_passwd_file text b ≡ (true, b')
        → system.read_passwd_file_data b' ≡ some text

  reloaded :
      (text : List ℕ) (s : PasswdMgr B)
      → system.read_passwd_file_data s.bus ≡ some text
      → (check_and_reload system s).passwd_map_list ≡ entries_of_lines (tokens text)
  unfolding check_and_reload init_password_map
  reloaded text s h = rw h refl

  -- The whole new text fits into the buffer, so it is what is written.
  update-run :
      (name new text : List ℕ) (s : PasswdMgr B)
      → system.read_passwd_file_data s.bus ≡ some text
      → is_user_found name (tokens text) ≡ true
      → (user_lines name (tokens text) ≤ 1) ⊎ (new ≡ [])
      → 1 < system.block_size
      → let m = system.write_passwd_file (spliced name new (tokens text)) s.bus in
        update_passwd_special_file system name new s ≡ (some m.0, record s { bus = m.1 })
  unfolding update_passwd_special_file is_user_found pieces
  update-run name new [] s reads found room block = cc
  update-run name new (c ∷ text) s reads found room block =
      let fits = spliced-fits name new (c ∷ text) room in
      let ls = tokens (c ∷ text) in
      let size = buffer_size system new (c ∷ text) in
      rw
        (
          reads,
          found,
          update_lines-fits size name new ls [] (omega (arith, fits, block)),
          le→ltb size (length (spliced name new ls)) (omega (arith, fits, block)),
        )
        refl

  -- An update of the file for one of its users, whose new name has no colon and no newline, over a
  -- file that gives back what was written. The user has one line, or the new name is empty, and
  -- the block size of the cipher is more than 1. Unless the file cannot be written, the update
  -- succeeds without an access past the end of its buffer, and what is loaded after it are the
  -- entries from before with the new name at those of the user, or without these where the new name
  -- is empty.
  pub update_passwd_special_file-renamed :
      Keeps
      → (name new text : List ℕ) (s : PasswdMgr B) → Free newline new
      → Free colon new
      → system.read_passwd_file_data s.bus ≡ some text
      → is_user_found name (tokens text) ≡ true
      → (user_lines name (tokens text) ≤ 1) ⊎ (new ≡ [])
      → 1 < system.block_size
      → (update_passwd_special_file system name new s).0 ≢ some false
      → let r = update_passwd_special_file system name new s in
        (r.0 ≡ some true)
        × ((check_and_reload system r.1).passwd_map_list
            ≡ renamed name new (check_and_reload system s).passwd_map_list)
  update_passwd_special_file-renamed keeps name new text s h k reads found room block done =
      let written = spliced name new (tokens text) in
      let m = system.write_passwd_file written s.bus in
      let runs = update-run name new text s reads found room block in
      let good : m.0 ≡ true = succeeds m.0 (λ e.
        done (ap (λ (r : Option Bool × PasswdMgr B). r.0) runs ∙ ap (λ (b : Bool). some b) e)) in
      let wrote : m ≡ (true, m.1) = ap (λ (b : Bool). (b, m.1)) good in
      rw
        (
          runs,
          good,
          reloaded written (record s { bus = m.1 }) (keeps.kept written s.bus m.1 wrote),
          reloaded text s reads,
        )
        (refl, spliced-renamed name new h k text)
    where
      succeeds : (b : Bool) → b ≢ false → b ≡ true
      succeeds true n = refl
      succeeds false n = absurd (n refl)
