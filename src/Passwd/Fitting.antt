-- ===== src/Passwd/Fitting.antt =====
-- The buffer of updatePasswdSpecialFile of user_channel/passwd_mgr.cpp, and what fits into it.
use phosphor_host_ipmid.Prelude.{
  inr, inl, if-both, ◌⊎◌, ℕ, suc, ◌+◌, ◌≤◌, ◌<◌, ◌≡◌, refl, sym, ap, ◌∙◌, Bool, true, false, List,
  [], ◌∷◌, ◌++◌, Option, none, some, arith, length, length-append, append_assoc, append-nil, ◌==◌,
  if◌then◌else◌, lt→ltb, le→ltb, ne→==, same,
}
use phosphor_host_ipmid.Passwd.{
  newline, colon, close_token, pieces, tokens, split_colon, update_split, Buffer, print, and_print,
  update_lines, is_user,
}
use phosphor_host_ipmid.Passwd.Lines.{split_colon-joined}

-- The whole new text.
unfoldable pub spliced : List ℕ → List ℕ → List (List ℕ) → List ℕ
spliced name new [] = []
spliced name new (l ∷ ls) = update_split name new l (split_colon l) ++ spliced name new ls

-- A buffer whose text is as long as was counted.
abbrev pub filled : List ℕ → Buffer
filled text = record { text = text; bytes_written = length text }

print-fits :
    (size : ℕ) (chunk text : List ℕ)
    → length text + length chunk < size
    → print size chunk (filled text) ≡ some (filled (text ++ chunk))
unfolding print
print-fits size [] text h = ap (λ (t : List ℕ). some (filled t)) (sym (append-nil text))
print-fits size (c ∷ cs) text h =
    rw
      (
        le→ltb size (length text) (omega arith),
        ne→== (length text) size (λ e. absurd (omega (arith, e, h))),
        lt→ltb (length text + length (c ∷ cs)) size h,
        length-append text (c ∷ cs),
      )
      refl

pub update_lines-fits :
    (size : ℕ) (name new : List ℕ) (ls : List (List ℕ)) (text : List ℕ)
    → length text + length (spliced name new ls) < size
    → update_lines size name new ls (filled text) ≡ some (filled (text ++ spliced name new ls))
unfolding update_lines spliced
update_lines-fits size name new [] text h =
    ap (λ (t : List ℕ). some (filled t)) (sym (append-nil text))
update_lines-fits size name new (l ∷ ls) text h =
    let chunk = update_split name new l (split_colon l) in
    let rest = spliced name new ls in
    let sum = length-append chunk rest in
    let more = length-append text chunk in
    ap (λ (o : Option Buffer). and_print o (update_lines size name new ls))
      (print-fits size chunk text (omega (arith, h, sum)))
    ∙ update_lines-fits size name new ls (text ++ chunk) (omega (arith, h, sum, more))
    ∙ ap (λ (t : List ℕ). some (filled t)) (append_assoc text chunk rest)

-- The length of lines with their newlines.
abbrev pub total : List (List ℕ) → ℕ
total [] = 0
total (l ∷ ls) = suc (length l) + total ls

total-close_token :
    (t : List ℕ) (ts : List (List ℕ)) → total (close_token t ts) ≤ suc (length t) + total ts
total-close_token [] ts = omega arith
total-close_token (c ∷ cs) ts = omega arith

pieces-total : (text : List ℕ) → length (pieces text).0 + total (pieces text).1 ≤ length text
unfolding pieces
pieces-total [] = omega arith
pieces-total (c ∷ cs) = by (c == newline) (pieces cs) (pieces-total cs)
  where
    by :
        (b : Bool) (r : List ℕ × List (List ℕ))
        → length r.0 + total r.1 ≤ length cs
        → let q : List ℕ × List (List ℕ) =
            if b then ([], close_token r.0 r.1) else (c ∷ r.0, r.1) in
          length q.0 + total q.1 ≤ suc (length cs)
    by true r h = omega (arith, total-close_token r.0 r.1, h)
    by false r h = omega (arith, h)

pub tokens-total : (text : List ℕ) → total (tokens text) ≤ suc (length text)
tokens-total text =
    let r = pieces text in omega (arith, total-close_token r.0 r.1, pieces-total text)

-- The lines of the user.
abbrev pub user_lines : List ℕ → List (List ℕ) → ℕ
user_lines name [] = 0
user_lines name (l ∷ ls) =
    if is_user name (split_colon l) then suc (user_lines name ls) else user_lines name ls

-- What the new name takes at the lines of the user.
abbrev extra : List ℕ → ℕ → List (List ℕ) → ℕ
extra name n [] = 0
extra name n (l ∷ ls) =
    if is_user name (split_colon l) then n + extra name n ls else extra name n ls

update_split-length :
    (name new l : List ℕ) (o : Option (List ℕ × List ℕ))
    → split_colon l ≡ o
    → length (update_split name new l o)
      ≤ suc (length l) + (if is_user name o then length new else 0)
update_split-length name new l none e = omega arith
update_split-length name [] l (some (user, rest)) e = by (same name user)
  where
    by :
        (b : Bool)
        → length (if b then [] else l ++ newline ∷ []) ≤ suc (length l) + (if b then 0 else 0)
    by true = omega arith
    by false = omega (arith, length-append l (newline ∷ []))
update_split-length name (c ∷ new) l (some (user, rest)) e = by (same name user)
  where
    joined_length : length l ≡ length user + suc (length rest)
    joined_length =
        ap length (split_colon-joined l (user, rest) e) ∙ length-append user (colon ∷ rest)

    by :
        (b : Bool)
        → length (if b then (c ∷ new) ++ colon ∷ rest ++ newline ∷ [] else l ++ newline ∷ [])
          ≤ suc (length l) + (if b then suc (length new) else 0)
    by true = omega (
      arith,
      joined_length,
      length-append ((c ∷ new) ++ colon ∷ rest) (newline ∷ []),
      length-append (c ∷ new) (colon ∷ rest),
    )
    by false = omega (arith, length-append l (newline ∷ []))

spliced-length :
    (name new : List ℕ) (ls : List (List ℕ))
    → length (spliced name new ls) ≤ total ls + extra name (length new) ls
unfolding spliced
spliced-length name new [] = omega arith
spliced-length name new (l ∷ ls) =
    let o = split_colon l in
    by (is_user name o) (update_split-length name new l o refl) (spliced-length name new ls)
  where
    sum :
        length (spliced name new (l ∷ ls))
        ≡ length (update_split name new l (split_colon l)) + length (spliced name new ls)
    sum = length-append (update_split name new l (split_colon l)) (spliced name new ls)

    by :
        (b : Bool)
        → length (update_split name new l (split_colon l))
          ≤ suc (length l) + (if b then length new else 0)
        → length (spliced name new ls) ≤ total ls + extra name (length new) ls
        → length (spliced name new (l ∷ ls))
          ≤ suc (length l)
            + total ls
            + (if b then length new + extra name (length new) ls else extra name (length new) ls)
    by true h rest = omega (arith, h, sum, rest)
    by false h rest = omega (arith, h, sum, rest)

extra-zero : (name : List ℕ) (ls : List (List ℕ)) → extra name 0 ls ≡ 0
extra-zero name [] = refl
extra-zero name (l ∷ ls) =
    if-both (λ (n : ℕ). n ≡ 0) (is_user name (split_colon l)) (0 + extra name 0 ls)
      (extra name 0 ls) (omega (arith, extra-zero name ls)) (extra-zero name ls)

extra-no_lines :
    (name : List ℕ) (n : ℕ) (ls : List (List ℕ)) → user_lines name ls ≡ 0 → extra name n ls ≡ 0
extra-no_lines name n [] h = refl
extra-no_lines name n (l ∷ ls) h = by (is_user name (split_colon l)) (extra-no_lines name n ls) h
  where
    by :
        (b : Bool)
        → (user_lines name ls ≡ 0 → extra name n ls ≡ 0)
        → (if b then suc (user_lines name ls) else user_lines name ls) ≡ 0
        → (if b then n + extra name n ls else extra name n ls) ≡ 0
    by true k h = absurd (omega (arith, h))
    by false k h = k h

extra-one_line :
    (name : List ℕ) (n : ℕ) (ls : List (List ℕ)) → user_lines name ls ≤ 1 → extra name n ls ≤ n
extra-one_line name n [] h = omega arith
extra-one_line name n (l ∷ ls) h = by (is_user name (split_colon l)) (extra-one_line name n ls) h
  where
    by :
        (b : Bool)
        → (user_lines name ls ≤ 1 → extra name n ls ≤ n)
        → (if b then suc (user_lines name ls) else user_lines name ls) ≤ 1
        → (if b then n + extra name n ls else extra name n ls) ≤ n
    by true k h = omega (arith, extra-no_lines name n ls (omega (arith, h)))
    by false k h = k h

pub spliced-fits :
    (name new text : List ℕ)
    → (user_lines name (tokens text) ≤ 1) ⊎ (new ≡ [])
    → length (spliced name new (tokens text)) ≤ suc (length text) + length new
spliced-fits name new text (inl one) =
    let h = extra-one_line name (length new) (tokens text) one in
    omega (arith, h, spliced-length name new (tokens text), tokens-total text)
spliced-fits name new text (inr e) =
    let h : extra name (length new) (tokens text) ≡ 0 =
      ap (λ (n : List ℕ). extra name (length n) (tokens text)) e ∙ extra-zero name (tokens text) in
    omega (arith, h, spliced-length name new (tokens text), tokens-total text)
