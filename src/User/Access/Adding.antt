-- ===== src/User/Access/Adding.antt =====
-- addUserEntry of user_channel/user_mgmt.cpp keeps the names of the table apart.
use phosphor_host_ipmid.User.Access.{
  UsersTbl, find_free, check_and_reload_user_data, System, add_user_entry, Access, add_at,
}
use phosphor_host_ipmid.User.Table.Unique.{
  find_free-Absent, find_free-Slot, IsName, Absent, Unique, Unique-modify_at, find_user-modify_at,
  cur_name-padded, copy_name-name, Slot,
}
use mathlib.Core.Path.{sym, subst}
use phosphor_host_ipmid.Prelude.{
  none, Option, arith, ◌∙◌, ℕ, zero, suc, ◌≡◌, refl, ap, Bool, true, List, [], ◌∷◌, some, inl, inr,
  Option-cases, get_or, drop, bit_and,
}
use Prim.Native.String.{String}
use phosphor_host_ipmid.User.Privilege.{convert_to_ipmi_privilege}
use phosphor_host_ipmid.User.Table.{
  UserInfo, no_user, cur_name, copy_name, modify_at, find_user, entered, is_vacant,
}
use phosphor_host_ipmid.User.Store.{Result, ok}

modify_at-modify_at {ℓ} :
    {A : Type ℓ} (i : ℕ) (f g : A → A) (xs : List A)
    → modify_at i g (modify_at i f xs) ≡ modify_at i (λ x. g (f x)) xs
modify_at-modify_at i f g [] = refl
modify_at-modify_at zero f g (x ∷ xs) = refl
modify_at-modify_at (suc i) f g (x ∷ xs) = ap (◌∷◌ x) (modify_at-modify_at i f g xs)

named : List ℕ → UserInfo → UserInfo
named name u = record u { user_name = copy_name name }

cur_name-named : (name : List ℕ) → IsName name → (u : UserInfo) → cur_name (named name u) ≡ name
unfolding named
cur_name-named name n u =
    cur_name-padded name (named name u) n.short n.no_zeros (copy_name-name name n.no_zeros)

cur_name-entered :
    (name : List ℕ)
    → IsName name
    → (priv : ℕ) (enabled : Bool) (u : UserInfo)
    → cur_name (entered priv enabled (named name u)) ≡ name
unfolding entered
cur_name-entered name n priv enabled u = cur_name-named name n u

-- What an attempt to add a user to the users `us` leaves.
pub record Added {B : Type 0} (name : List ℕ) (us : List UserInfo) (r : Result Bool × Access B)
    : Type 0 where
  pub unique : Unique (drop 1 r.1.users_tbl)
  pub found :
      r.0 ≡ ok true
      → (j : ℕ) × (find_user name 1 (drop 1 r.1.users_tbl) ≡ some (suc j))
        × (is_vacant (get_or us j no_user) ≡ true)

module _ {B : Type 0} (name : List ℕ) (sys_priv : String) (enabled : Bool) (us : List UserInfo)
    (is_name : IsName name) (q : Unique us) (a : Absent name us) where
  add_at-Added :
      (t : Access B) (j : ℕ)
      → t.users_tbl ≡ no_user ∷ us
      → Slot 1 (suc j) us j
      → Added name us (add_at name sys_priv enabled (some (some (suc j))) t)
  unfolding named
  add_at-Added t j e slot = elim (Option-cases (convert_to_ipmi_privilege sys_priv)) [
    | inl no_number ↦
        rw (no_number, e)
          (record {
            unique = Unique-modify_at name (named name) (cur_name-named name is_name) j us a q;
            found = λ h. cc;
          })
    | inr (priv, number) ↦
        let p = bit_and priv 15 in
        let both = modify_at-modify_at j (named name) (entered p enabled) us in
        let f : UserInfo → UserInfo = λ u. entered p enabled (named name u) in
        let name_of = cur_name-entered name is_name p enabled in
        rw (number, e, both)
          (record {
            unique = Unique-modify_at name f name_of j us a q;
            found = λ h. (
              j,
              find_user-modify_at name f name_of 1 j us a slot.inside ∙ ap some (omega arith),
              slot.vacant,
            );
          })
  ]

  add_at-Slot :
      (t : Access B) (k j : ℕ)
      → t.users_tbl ≡ no_user ∷ us
      → Slot 1 k us j
      → Added name us (add_at name sys_priv enabled (some (some k)) t)
  add_at-Slot t k j e slot =
      let here : suc j ≡ k = omega (arith, slot.counted) in
      subst
        (λ (k : ℕ). Slot 1 k us j → Added name us (add_at name sys_priv enabled (some (some k)) t))
        here (add_at-Added t j e) slot

-- An attempt to add a user of a name with one to sixteen characters, to a table that was read from
-- the file and has no two users of the same name: afterwards there are no two either, also when an
-- unknown privilege ends it, and if it succeeds the user is found under its name, in a slot that was
-- vacant.
pub add_user_entry-Added :
    {B : Type 0} (system : System B) (name : List ℕ) (sys_priv : String) (enabled : Bool)
    (s t : Access B) (us : List UserInfo)
    → IsName name
    → Unique us
    → check_and_reload_user_data system s ≡ (ok tt, t)
    → t.users_tbl ≡ no_user ∷ us
    → Added name us (add_user_entry system name sys_priv enabled s)
unfolding add_user_entry
add_user_entry-Added system name sys_priv enabled s t us is_name q read e = rw read (
    scanned (find_free name 1 none (drop 1 t.users_tbl))
      (sym (ap (λ (tbl : UsersTbl). find_free name 1 none (drop 1 tbl)) e)))
  where
    scanned :
        (free : Option (Option ℕ))
        → find_free name 1 none us ≡ free
        → Added name us (add_at name sys_priv enabled free t)
    scanned none h = record {
      unique = subst (λ (tbl : UsersTbl). Unique (drop 1 tbl)) (sym e) q;
      found = λ h. cc;
    }
    scanned (some none) h = record {
      unique = subst (λ (tbl : UsersTbl). Unique (drop 1 tbl)) (sym e) q;
      found = λ h. cc;
    }
    scanned (some (some k)) h = elim (find_free-Slot name 1 k none us h) [
      | inl no_slot ↦ absurd cc
      | inr (j, slot) ↦
          add_at-Slot name sys_priv enabled us is_name q
            (find_free-Absent name 1 none us (some k) h) t k j e slot
    ]
