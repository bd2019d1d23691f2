-- ===== src/User/Store/RoundTrip.antt =====
-- writeUserData and then readUserData of user_channel/user_mgmt.cpp.
use phosphor_host_ipmid.User.Store.{
  user, UserEntry, ok, read_channels, read_user, read_users, system_privileges, entry_of,
  entries_of, sol_channels, sol_only, update_payload_access_in_user_info,
  read_payload_access_from_user_info, has_size,
}
use phosphor_host_ipmid.Prelude.{
  ap₂, ℕ, suc, ◌≡◌, refl, sym, ap, ◌∙◌, arith, Bool, true, false, List, [], ◌∷◌, map, some, length,
  get_or, All, eq→==,
}
use Prim.Native.String.{String}
use phosphor_host_ipmid.User.Privilege.{IsNamed, convert_round, sol, ipmi_max_channels}
use phosphor_host_ipmid.User.Table.{UserPrivAccess, PayloadAccess, UserInfo, cur_name, copy_name}

-- As many channels as there are.
pub record Sized (u : UserInfo) : Type 0 where
  pub channels : length u.user_priv_access ≡ ipmi_max_channels
  pub payloads : length u.payload_access ≡ ipmi_max_channels

-- The name is padded with zeros, and every privilege has a name.
pub record IsUser (u : UserInfo) : Type 0 where
  pub sized : Sized u
  pub named : u.user_name ≡ copy_name (cur_name u)
  pub privileges : All (λ a. IsNamed a.privilege) u.user_priv_access

-- What the file keeps of a user: all but the payloads other than SOL.
abbrev pub stored : UserInfo → UserInfo
stored u = record u {
  payload_access = map (λ a. sol_only (get_or a.std_payload_enables1 sol false)) u.payload_access;
}

length-map {ℓ κ} :
    {A : Type ℓ} {B : Type κ} (f : A → B) (xs : List A) → length (map f xs) ≡ length xs
length-map f [] = refl
length-map f (x ∷ xs) = ap suc (length-map f xs)

sol_channels-suc :
    (ch : ℕ) (b : Bool) (row : List Bool) (vs : List PayloadAccess)
    → sol_channels (suc ch) (b ∷ row) vs ≡ sol_channels ch row vs
sol_channels-suc ch b row [] = refl
sol_channels-suc ch b row (v ∷ vs) =
    ap (◌∷◌ (sol_only (get_or row ch false))) (sol_channels-suc (suc ch) b row vs)

sol_channels-map :
    (f : PayloadAccess → Bool) (as' vs : List PayloadAccess)
    → length vs ≡ length as'
    → sol_channels 0 (map f as') vs ≡ map (λ a. sol_only (f a)) as'
sol_channels-map f [] [] h = refl
sol_channels-map f [] (v ∷ vs) h = absurd (omega arith)
sol_channels-map f (a ∷ as') [] h = absurd (omega arith)
sol_channels-map f (a ∷ as') (v ∷ vs) h =
    ap (◌∷◌ (sol_only (f a)))
      (sol_channels-suc 0 (f a) (map f as') vs ∙ sol_channels-map f as' vs (omega arith))

pub record ReadBack (as' vs : List UserPrivAccess) : Type 0 where
  pub names : List String
  pub wrote : system_privileges as' ≡ some names
  pub count : length names ≡ length as'
  pub read :
      read_channels names
        (map (λ a. a.ipmi_enabled) as')
        (map (λ a. a.link_auth_enabled) as')
        (map (λ a. a.access_callback) as')
        vs
      ≡ (ok tt, as')

channels-ReadBack :
    (as' vs : List UserPrivAccess)
    → length vs ≡ length as'
    → All (λ a. IsNamed a.privilege) as'
    → ReadBack as' vs
unfolding read_channels
channels-ReadBack [] [] h n = record { names = []; wrote = refl; count = refl; read = refl }
channels-ReadBack [] (v ∷ vs) h n = absurd (omega arith)
channels-ReadBack (a ∷ as') [] h n = absurd (omega arith)
channels-ReadBack (a ∷ as') (v ∷ vs) h n =
    let (s, to, from) = convert_round a.privilege n.0 in
    let rest = channels-ReadBack as' vs (omega arith) n.1 in
    record {
      names = s ∷ rest.names;
      wrote = rw (to, rest.wrote);
      count = ap suc rest.count;
      read = rw (from, rest.read);
    }

has_size_lem {ℓ} : {A : Type ℓ} (xs : List A) → length xs ≡ ipmi_max_channels → has_size xs ≡ true
has_size_lem xs h = eq→== (length xs) ipmi_max_channels h

-- A user is read back as it was written, but for its payloads.
read_user-entry_of :
    (u v : UserInfo)
    → IsUser u
    → Sized v
    → (e : UserEntry) × (entry_of u ≡ some e) × (read_user e v ≡ (ok tt, stored u))
unfolding read_user entry_of update_payload_access_in_user_info read_payload_access_from_user_info
read_user-entry_of u v h s =
    let back =
      channels-ReadBack u.user_priv_access v.user_priv_access (s.channels ∙ sym h.sized.channels)
        h.privileges in
    let sol_back =
      sol_channels-map (λ a. get_or a.std_payload_enables1 sol false) u.payload_access
        v.payload_access (s.payloads ∙ sym h.sized.payloads) in
    let size = h.sized.channels in
    let n = length-map {A = UserPrivAccess} {B = Bool} in
    (
      record {
        user_name = cur_name u;
        privilege = back.names;
        ipmi_enabled = map (λ a. a.ipmi_enabled) u.user_priv_access;
        link_auth_enabled = map (λ a. a.link_auth_enabled) u.user_priv_access;
        access_callback = map (λ a. a.access_callback) u.user_priv_access;
        user_enabled = u.user_enabled;
        user_in_system = u.user_in_system;
        fixed_user_name = u.fixed_user_name;
        payload_enabled = some (read_payload_access_from_user_info u);
      },
      rw back.wrote,
      rw
          (
            has_size_lem back.names (back.count ∙ size),
            has_size_lem (map (λ a. a.ipmi_enabled) u.user_priv_access) (n _ _ ∙ size),
            has_size_lem (map (λ a. a.link_auth_enabled) u.user_priv_access) (n _ _ ∙ size),
            has_size_lem (map (λ a. a.access_callback) u.user_priv_access) (n _ _ ∙ size),
            back.read,
          )
          (ap₂ (λ n p. (ok tt, record u { user_name = n; payload_access = p })) (sym h.named)
            sol_back),
    )

-- The users that are written to the file are read back, whatever the table was before: each with its
-- name, privileges and marks, and of its payloads only SOL. Every user has 16 channels and payloads,
-- a padded name and privileges that have names.
pub read_users-entries_of :
    (us vs : List UserInfo)
    → length vs ≡ length us
    → All IsUser us
    → All Sized vs
    → (es : List UserEntry) × (entries_of us ≡ some es)
      × (length es ≡ length us)
      × (read_users (map user es) vs ≡ (ok tt, map stored us))
unfolding read_users entries_of
read_users-entries_of [] [] h u s = ([], refl, refl, refl)
read_users-entries_of [] (v ∷ vs) h u s = absurd (omega arith)
read_users-entries_of (u ∷ us) [] h us' s = absurd (omega arith)
read_users-entries_of (u ∷ us) (v ∷ vs) h us' s =
    let (e, wrote, read) = read_user-entry_of u v us'.0 s.0 in
    let (es, wrote_rest, count, read_rest) = read_users-entries_of us vs (omega arith) us'.1 s.1 in
    (e ∷ es, rw (wrote, wrote_rest), ap suc count, rw (read, read_rest))

pub length-map-user : (es : List UserEntry) → length (map user es) ≡ length es
length-map-user es = length-map user es
