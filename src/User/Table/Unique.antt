-- ===== src/User/Table/Unique.antt =====
-- Names in the table of user_channel/user_mgmt.cpp: no two users have the same name.
use phosphor_host_ipmid.Prelude.{
  ℕ, zero, suc, ◌+◌, ◌≤◌, ◌<◌, ◌≡◌, refl, sym, ap, ◌∙◌, arith, Bool, true, false, List, [], ◌∷◌,
  ◌++◌, Option, none, some, ◌⊎◌, inl, inr, length, All, take, replicate, same, same_refl, same-eq,
  Bool-cases, if◌then◌else◌, take-all, get_or,
}
use phosphor_host_ipmid.User.Privilege.{ipmi_max_user_name}
use phosphor_host_ipmid.User.Table.{
  no_user, UserInfo, c_string, cur_name, padded, copy_name, modify_at, find_user, find_free,
  first_of, is_vacant,
}

-- A name that fits the table: of one to sixteen characters, none of them zero.
pub record IsName (name : List ℕ) : Type 0 where
  pub short : length name ≤ ipmi_max_user_name
  pub some_characters : 0 < length name
  pub no_zeros : All (λ c. 0 < c) name

c_string-zeros : (n m : ℕ) → c_string (take n (replicate m 0)) ≡ []
c_string-zeros zero m = refl
c_string-zeros (suc n) zero = refl
c_string-zeros (suc n) (suc m) = refl

c_string-take :
    (n m : ℕ) (name : List ℕ)
    → length name ≤ n
    → All (λ c. 0 < c) name
    → c_string (take n (name ++ replicate m 0)) ≡ name
c_string-take n m [] h p = c_string-zeros n m
c_string-take zero m (c ∷ cs) h p = absurd (omega arith)
c_string-take (suc n) m (zero ∷ cs) h p = absurd (omega arith)
c_string-take (suc n) m (suc c ∷ cs) h p = ap (◌∷◌ (suc c)) (c_string-take n m cs (omega arith) p.1)

c_string-name : (name : List ℕ) → All (λ c. 0 < c) name → c_string name ≡ name
c_string-name [] p = refl
c_string-name (zero ∷ cs) p = absurd (omega arith)
c_string-name (suc c ∷ cs) p = ap (◌∷◌ (suc c)) (c_string-name cs p.1)

-- A name that was copied into the table is read back.
pub cur_name-padded :
    (name : List ℕ) (u : UserInfo)
    → length name ≤ ipmi_max_user_name
    → All (λ c. 0 < c) name
    → u.user_name ≡ padded name
    → cur_name u ≡ name
cur_name-padded name u short no_zeros e =
    ap (λ (n : List ℕ). take ipmi_max_user_name (c_string n)) e
    ∙ ap (take ipmi_max_user_name)
        (c_string-take ipmi_max_user_name ipmi_max_user_name name short no_zeros)
    ∙ take-all ipmi_max_user_name name short

pub copy_name-name : (name : List ℕ) → All (λ c. 0 < c) name → copy_name name ≡ padded name
copy_name-name name p = ap padded (c_string-name name p)

abbrev pub Absent : List ℕ → List UserInfo → Type 0
Absent name us = All (λ u. same name (cur_name u) ≡ false) us

abbrev pub Unique : List UserInfo → Type 0
Unique [] = Unit
Unique (u ∷ us) = ((cur_name u ≡ []) ⊎ Absent (cur_name u) us) × Unique us

same_sym : (xs ys : List ℕ) → same xs ys ≡ false → same ys xs ≡ false
same_sym xs ys h = elim (Bool-cases (same ys xs)) [
  | inl yes_same ↦
      absurd (not_both (sym (ap (same xs) (same-eq ys xs yes_same) ∙ same_refl xs) ∙ h))
  | inr no_same ↦ no_same
]
  where
    not_both : true ≡ false → ⊥
    not_both e = cc

module _ (name : List ℕ) (f : UserInfo → UserInfo)
    (named : (u : UserInfo) → cur_name (f u) ≡ name) where
  Absent-modify_at :
      (other : List ℕ) (j : ℕ) (us : List UserInfo)
      → same other name ≡ false
      → Absent other us
      → Absent other (modify_at j f us)
  Absent-modify_at other j [] h a = tt
  Absent-modify_at other zero (u ∷ us) h a = (rw (named u) h, a.1)
  Absent-modify_at other (suc j) (u ∷ us) h a = (a.0, Absent-modify_at other j us h a.1)

  -- A user may take a name that no user has.
  pub Unique-modify_at :
      (j : ℕ) (us : List UserInfo) → Absent name us → Unique us → Unique (modify_at j f us)
  Unique-modify_at j [] a q = tt
  Unique-modify_at zero (u ∷ us) a q = (inr (rw (named u) a.1), q.1)
  Unique-modify_at (suc j) (u ∷ us) a q = (
    elim q.0 [
      | inl empty ↦ inl empty
      | inr absent ↦
          inr (Absent-modify_at (cur_name u) j us (same_sym name (cur_name u) a.0) absent)
    ],
    Unique-modify_at j us a.1 q.1,
  )

  -- It is found under its name then.
  pub find_user-modify_at :
      (i j : ℕ) (us : List UserInfo)
      → Absent name us
      → j < length us
      → find_user name i (modify_at j f us) ≡ some (i + j)
  unfolding find_user
  find_user-modify_at i j [] a h = elim h [ ]
  find_user-modify_at i zero (u ∷ us) a h = rw (named u, same_refl name) (ap some (omega arith))
  find_user-modify_at i (suc j) (u ∷ us) a h =
      rw a.0 (find_user-modify_at (suc i) j us a.1 (omega arith) ∙ ap some (omega arith))

else_branch {ℓ} :
    {A : Type ℓ} {a : A} (b : Bool) (o : Option A)
    → (if b then none else o) ≡ some a
    → (b ≡ false) × (o ≡ some a)
else_branch true o h = cc
else_branch false o h = (refl, h)

-- If the loop of addUserEntry ends, no user has the name.
pub find_free-Absent :
    (name : List ℕ) (i : ℕ) (free : Option ℕ) (us : List UserInfo) (slot : Option ℕ)
    → find_free name i free us ≡ some slot
    → Absent name us
unfolding find_free
find_free-Absent name i free [] slot h = tt
find_free-Absent name i free (u ∷ us) slot h =
    let next = first_of free i (is_vacant u) in
    let (other, rest) = else_branch (same name (cur_name u)) (find_free name (suc i) next us) h in
    (other, find_free-Absent name (suc i) next us slot rest)

-- The slot `k` is the place `j` of the users that are counted from `i` on, and it is vacant.
pub record Slot (i k : ℕ) (us : List UserInfo) (j : ℕ) : Type 0 where
  pub counted : k ≡ i + j
  pub inside : j < length us
  pub vacant : is_vacant (get_or us j no_user) ≡ true

first_of-cases :
    (free : Option ℕ) (i k : ℕ) (vacant : Bool)
    → first_of free i vacant ≡ some k
    → (free ≡ some k) ⊎ ((i ≡ k) × (vacant ≡ true))
first_of-cases (some f) i k vacant h = inl h
first_of-cases none i k true h = inr (ground arith, refl)
first_of-cases none i k false h = cc

pub find_free-Slot :
    (name : List ℕ) (i k : ℕ) (free : Option ℕ) (us : List UserInfo)
    → find_free name i free us ≡ some (some k)
    → (free ≡ some k) ⊎ ((j : ℕ) × Slot i k us j)
unfolding find_free
find_free-Slot name i k free [] h = inl (ground arith)
find_free-Slot name i k free (u ∷ us) h =
    let next = first_of free i (is_vacant u) in
    let (other, rest) = else_branch (same name (cur_name u)) (find_free name (suc i) next us) h in
    elim (find_free-Slot name (suc i) k next us rest) [
      | inl before ↦ elim (first_of-cases free i k (is_vacant u) before) [
        | inl old ↦ inl old
        | inr (here, vacant) ↦
            inr (0, record { counted = omega arith; inside = omega arith; vacant = vacant })
      ]
      | inr (j, later) ↦ inr (
        suc j,
        record {
          counted = omega (arith, later.counted);
          inside = omega (arith, later.inside);
          vacant = later.vacant;
        },
      )
    ]
