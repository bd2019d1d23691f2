-- ===== src/Channel/Store/Entries.antt =====
-- The entries of the access files of user_channel/channel_mgmt.cpp, written and read.
use phosphor_host_ipmid.Prelude.{ℕ, zero, suc, ◌≡◌, refl, true, Option, none, some}
use phosphor_host_ipmid.Channel.Store.{read_access, entry_of, access_entry}
use phosphor_host_ipmid.Channel.Data.{ChannelAccess, AccessEntry}
use mathlib.Core.Path.{subst}
use Prim.Native.String.{String}
use mathlib.Core.Option.{some-injective}
use phosphor_host_ipmid.Channel.Names.{
  convert_to_access_mode_index, convert_to_access_mode_string, convert_to_priv_limit_index,
  convert_to_priv_limit_string,
}

at_name :
    (index : String → Option ℕ) (name : String) (m : ℕ) (s : String)
    → some name ≡ some s
    → index name ≡ some m
    → index s ≡ some m
at_name index name m s h e = subst (λ (s : String). index s ≡ some m) (some-injective name s h) e

mode_round :
    (m : ℕ) (s : String)
    → convert_to_access_mode_string m ≡ some s
    → convert_to_access_mode_index s ≡ some m
unfolding convert_to_access_mode_string convert_to_access_mode_index
mode_round zero s h = at_name convert_to_access_mode_index _ 0 s h refl
mode_round (suc zero) s h = at_name convert_to_access_mode_index _ 1 s h refl
mode_round (suc (suc zero)) s h = at_name convert_to_access_mode_index _ 2 s h refl
mode_round (suc (suc (suc zero))) s h = at_name convert_to_access_mode_index _ 3 s h refl
mode_round (suc (suc (suc (suc m)))) s h = cc

priv_round :
    (p : ℕ) (s : String)
    → convert_to_priv_limit_string p ≡ some s
    → convert_to_priv_limit_index s ≡ some p
unfolding convert_to_priv_limit_string convert_to_priv_limit_index
priv_round zero s h = at_name convert_to_priv_limit_index _ 0 s h refl
priv_round (suc zero) s h = at_name convert_to_priv_limit_index _ 1 s h refl
priv_round (suc (suc zero)) s h = at_name convert_to_priv_limit_index _ 2 s h refl
priv_round (suc (suc (suc zero))) s h = at_name convert_to_priv_limit_index _ 3 s h refl
priv_round (suc (suc (suc (suc zero)))) s h = at_name convert_to_priv_limit_index _ 4 s h refl
priv_round (suc (suc (suc (suc (suc zero))))) s h = at_name convert_to_priv_limit_index _ 5 s h refl
priv_round (suc (suc (suc (suc (suc (suc p)))))) s h = cc

-- An access is read back as it was written, whatever was there before.
read_access-written :
    (a b : ChannelAccess) (mode priv : Option String) (e : AccessEntry)
    → convert_to_access_mode_string a.access_mode ≡ mode
    → convert_to_priv_limit_string a.priv_limit ≡ priv
    → access_entry a mode priv ≡ some e
    → read_access e b ≡ (true, a)
unfolding read_access
read_access-written a b (some mode) (some priv) e m p h =
    subst (λ (e : AccessEntry). read_access e b ≡ (true, a)) (some-injective _ _ h)
      (rw (mode_round a.access_mode mode m, priv_round a.priv_limit priv p) refl)
read_access-written a b (some mode) none e m p h = cc
read_access-written a b none priv e m p h = cc

pub read_access-entry_of :
    (a b : ChannelAccess) (e : AccessEntry) → entry_of a ≡ some e → read_access e b ≡ (true, a)
unfolding entry_of
read_access-entry_of a b e h = read_access-written a b _ _ e refl refl h
