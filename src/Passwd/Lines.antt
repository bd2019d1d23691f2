-- ===== src/Passwd/Lines.antt =====
-- The lines of the password file of user_channel/passwd_mgr.cpp: the tokens of strtok_r, and the part
-- of a line before its colon.
use phosphor_host_ipmid.Passwd.{
  in_front, true, newline, colon, close_token, pieces, tokens, split_colon,
}
use mathlib.Core.Option.{none, Option, some-injective}
use phosphor_host_ipmid.Prelude.{
  Bool, true, false, arith, if-cases, ◌∙◌, append_assoc, ◌≢◌, ℕ, ◌≡◌, refl, ap, List, [], ◌∷◌, ◌++◌,
  some, ◌==◌, if◌then◌else◌, All,
}

abbrev pub Free : ℕ → List ℕ → Type 0
Free c text = All (λ x. (x == c) ≡ false) text

cons-is_not-nil : (c : ℕ) (t : List ℕ) → (c ∷ t) ≢ []
cons-is_not-nil c t e = cc

pieces-line : (t rest : List ℕ) → Free newline t → pieces (t ++ newline ∷ rest) ≡ (t, tokens rest)
unfolding pieces
pieces-line [] rest h = refl
pieces-line (c ∷ t) rest h = rw (h.0, pieces-line t rest h.1) refl

pub tokens-line :
    (c : ℕ) (t rest : List ℕ)
    → Free newline (c ∷ t)
    → tokens ((c ∷ t) ++ newline ∷ rest) ≡ (c ∷ t) ∷ tokens rest
tokens-line c t rest h =
    ap (λ (r : List ℕ × List (List ℕ)). close_token r.0 r.1) (pieces-line (c ∷ t) rest h)

pub split_colon-user :
    (u rest : List ℕ) → Free colon u → split_colon (u ++ colon ∷ rest) ≡ some (u, rest)
unfolding split_colon
split_colon-user [] rest h = refl
split_colon-user (c ∷ u) rest h = rw (h.0, split_colon-user u rest h.1) refl

pub tokens-plain :
    (l rest : List ℕ)
    → Free newline l
    → l ≢ []
    → tokens ((l ++ newline ∷ []) ++ rest) ≡ l ∷ tokens rest
tokens-plain [] rest h n = absurd (n refl)
tokens-plain (c ∷ t) rest h n =
    ap tokens (append_assoc (c ∷ t) (newline ∷ []) rest) ∙ tokens-line c t rest h

abbrev pub joined : List ℕ × List ℕ → List ℕ
joined r = r.0 ++ colon ∷ r.1

front-joined :
    (c : ℕ) (cs : List ℕ) (o : Option (List ℕ × List ℕ)) (r : List ℕ × List ℕ)
    → in_front c o ≡ some r
    → ((q : List ℕ × List ℕ) → o ≡ some q → cs ≡ joined q)
    → c ∷ cs ≡ joined r
front-joined c cs none r h k = cc
front-joined c cs (some (v, t)) r h k =
    ap (◌∷◌ c) (k (v, t) refl) ∙ ap joined (some-injective _ _ h)

is_colon : (c : ℕ) → (c == colon) ≡ true → c ≡ colon
is_colon c h = ground arith

-- A line with a colon is what is before it and what is behind it.
pub split_colon-joined : (l : List ℕ) (r : List ℕ × List ℕ) → split_colon l ≡ some r → l ≡ joined r
unfolding split_colon
split_colon-joined [] r h = cc
split_colon-joined (c ∷ cs) r h =
    if-cases (λ (o : Option (List ℕ × List ℕ)). o ≡ some r) (c == colon) (some ([], cs))
      (in_front c (split_colon cs)) h
      (λ e k. ap (λ (x : ℕ). x ∷ cs) (is_colon c e) ∙ ap joined (some-injective _ _ k))
      (λ e k. front-joined c cs (split_colon cs) r k (λ q. split_colon-joined cs q))

pub Free-behind : (c : ℕ) (u rest : List ℕ) → Free c (u ++ colon ∷ rest) → Free c rest
Free-behind c [] rest h = h.1
Free-behind c (x ∷ u) rest h = Free-behind c u rest h.1

-- A token: it is not empty, and has no newline.
abbrev pub Line : List ℕ → Type 0
Line l = Free newline l × (l ≢ [])

close_token-Line :
    (t : List ℕ) (ts : List (List ℕ)) → Free newline t → All Line ts → All Line (close_token t ts)
close_token-Line [] ts h k = k
close_token-Line (c ∷ t) ts h k = ((h, λ e. cons-is_not-nil c t e), k)

Pieces : List ℕ × List (List ℕ) → Type 0
Pieces r = Free newline r.0 × All Line r.1

pieces-Pieces : (text : List ℕ) → Pieces (pieces text)
unfolding Pieces pieces
pieces-Pieces [] = (tt, tt)
pieces-Pieces (c ∷ cs) = let r = pieces cs in let h = pieces-Pieces cs in by (c == newline) refl r h
  where
    by :
        (b : Bool)
        → (c == newline) ≡ b
        → (r : List ℕ × List (List ℕ)) → Pieces r
        → Pieces (if b then ([], close_token r.0 r.1) else (c ∷ r.0, r.1))
    by true e r h = (tt, close_token-Line r.0 r.1 h.0 h.1)
    by false e r h = ((e, h.0), h.1)

pub tokens-Line : (text : List ℕ) → All Line (tokens text)
unfolding Pieces
tokens-Line text =
    let h = pieces-Pieces text in close_token-Line (pieces text).0 (pieces text).1 h.0 h.1
