-- ===== src/Channel/Store/Keeping.antt =====
-- The configuration of the channels while an access file of user_channel/channel_mgmt.cpp is read.
use phosphor_host_ipmid.Prelude.{
  ◌≢◌, ℕ, zero, suc, ◌≡◌, refl, ap, ◌∙◌, Bool, true, false, List, [], ◌∷◌, map, Option, none, some,
  if-both, get_or, set, ltb, ◌==◌, ◌%◌,
}
use phosphor_host_ipmid.Channel.Names.{convert_to_access_mode_index}
use phosphor_host_ipmid.Channel.Data.{
  ChannelAccess, ChannelProperties, no_channel, no_access, max_ipmi_channels, Kind, non_volatile,
  volatile, data_of, with_data, AccessEntry, AccessEntries, AccessFile, not_found, entries, System,
  ChannelConfig, Outcome, ok, thrown, fault, Action, and_then, channel_at, with_time, catch_all,
}
use phosphor_host_ipmid.Channel.Store.{
  read_access, read_entry, read_entries, read_channel, and_convert, ok_or_thrown, read_channel_data,
  check_and_reload, read_from, modify_channel,
}

-- A channel without its access settings.
abbrev pub config : ChannelProperties → ChannelProperties
config c = record c { non_volatile_data = no_access; volatile_data = no_access }

module _ {B : Type 0} where
  -- The channels of a state, less the access settings, are these.
  abbrev pub Configured : List ChannelProperties → ChannelConfig B → Type 0
  Configured cs s = map config s.channel_data ≡ cs

  -- A state without the access settings of a kind and the known time of their file.
  abbrev pub but_settings : Kind → ChannelConfig B → ChannelConfig B
  but_settings kind s =
      with_time kind none
        (record s { channel_data = map (with_data kind no_access) s.channel_data })

  -- The predicate holds of the state, unless there was an access behind the end of the array.
  abbrev Kept : {A : Type 0} → (ChannelConfig B → Type 0) → Outcome A × ChannelConfig B → Type 0
  Kept P (ok a, s) = P s
  Kept P (thrown, s) = P s
  Kept P (fault, s) = Unit {0}

config-with_data :
    (kind : Kind) (a : ChannelAccess) (c : ChannelProperties)
    → config (with_data kind a c) ≡ config c
config-with_data non_volatile a c = refl
config-with_data volatile a c = refl

with_data_twice :
    (kind : Kind) (a b : ChannelAccess) (c : ChannelProperties)
    → with_data kind b (with_data kind a c) ≡ with_data kind b c
with_data_twice non_volatile a b c = refl
with_data_twice volatile a b c = refl

-- A function of the channels that does not see the settings that are set.
map-set :
    (f : ChannelProperties → ChannelProperties) (kind : Kind) (a : ChannelAccess)
    → ((c : ChannelProperties) → f (with_data kind a c) ≡ f c)
    → (i : ℕ) (xs : List ChannelProperties)
    → map f (set xs i (with_data kind a (get_or xs i no_channel))) ≡ map f xs
map-set f kind a blind i [] = refl
map-set f kind a blind zero (x ∷ xs) = ap (λ (c : ChannelProperties). c ∷ map f xs) (blind x)
map-set f kind a blind (suc i) (x ∷ xs) = ap (◌∷◌ (f x)) (map-set f kind a blind i xs)

module _ {B : Type 0} (P : ChannelConfig B → Type 0) where
  and_then-Kept :
      {A C : Type 0} (m : Outcome A × ChannelConfig B) (rest : A → Action B C)
      → Kept P m
      → ((a : A) (s : ChannelConfig B) → P s → Kept P (rest a s))
      → Kept P (and_then m rest)
  and_then-Kept (ok a, s) rest h k = k a s h
  and_then-Kept (thrown, s) rest h k = h
  and_then-Kept (fault, s) rest h k = tt

  catch_all-Kept : (m : Outcome Bool × ChannelConfig B) → Kept P m → Kept P (catch_all m)
  catch_all-Kept (ok b, s) h = h
  catch_all-Kept (thrown, s) h = h
  catch_all-Kept (fault, s) h = tt

  ok_or_thrown-Kept : (b : Bool) (s : ChannelConfig B) → P s → Kept P (ok_or_thrown b s)
  ok_or_thrown-Kept true s h = h
  ok_or_thrown-Kept false s h = h

  Kept-holds : {A : Type 0} (m : Outcome A × ChannelConfig B) → m.0 ≢ fault → Kept P m → P m.1
  Kept-holds (ok a, s) n h = h
  Kept-holds (thrown, s) n h = h
  Kept-holds (fault, s) n h = absurd (n refl)

-- Reading keeps whatever does not depend on the settings of the kind and the time of their file.
module _ {B : Type 0} (system : System B) (kind : Kind) (P : ChannelConfig B → Type 0)
    (sets : (a : ChannelAccess) (i : ℕ) (s : ChannelConfig B)
      → P s
      → P (modify_channel i (with_data kind a) s).1)
    (times : (t : Option ℕ) (s : ChannelConfig B) → P s → P (with_time kind t s)) where
  read_channel-Kept :
      (n : ℕ) (e : AccessEntry) (s : ChannelConfig B)
      → P s
      → Kept P (read_channel system kind n e s)
  read_channel-Kept n e s h =
      let r = read_access e (data_of kind (channel_at n s)) in
      let t = modify_channel n (with_data kind r.1) s in
      if-both (Kept P) (n == max_ipmi_channels) _ (and_then t (λ _. ok_or_thrown r.0))
        (elim (and_convert e.access_mode convert_to_access_mode_index)
          as (λ o. Kept P (elim o as (λ _. Outcome Unit × ChannelConfig B) [
            | none ↦ (thrown, s)
            | some mode ↦ (fault, system.past_end s)
          ])) [ none ↦ h | some mode ↦ tt ])
        (ok_or_thrown-Kept P r.0 t.1 (sets r.1 n s h))

  read_entry-Kept :
      (key : Option ℕ) (value : Option AccessEntry) (s : ChannelConfig B)
      → P s
      → Kept P (read_entry system kind key value s)
  read_entry-Kept none value s h = h
  read_entry-Kept (some n) none s h =
      if-both (λ (f : Action B Unit). Kept P (f s)) (ltb max_ipmi_channels (n % 256)) _ _ h h
  read_entry-Kept (some n) (some e) s h =
      if-both (λ (f : Action B Unit). Kept P (f s)) (ltb max_ipmi_channels (n % 256)) _
        (read_channel system kind (n % 256) e) h (read_channel-Kept (n % 256) e s h)

  read_entries-Kept :
      (es : AccessEntries) (s : ChannelConfig B) → P s → Kept P (read_entries system kind es s)
  unfolding read_entries
  read_entries-Kept [] s h = h
  read_entries-Kept ((key, value) ∷ es) s h =
      and_then-Kept P (read_entry system kind key value s) (λ _. read_entries system kind es)
        (read_entry-Kept key value s h) (λ _ t k. read_entries-Kept es t k)

  read_from-Kept :
      (file : AccessFile) (s : ChannelConfig B) → P s → Kept P (read_from system kind file s)
  read_from-Kept not_found s h = h
  read_from-Kept (entries es) s h =
      and_then-Kept P _ _
        (and_then-Kept P (read_entries system kind es s) _ (read_entries-Kept es s h)
          (λ _ t k. times (system.file_time kind t.bus) t k))
        (λ _ t k. k)

  check_and_reload-Kept : (s : ChannelConfig B) → P s → Kept P (check_and_reload system kind s)
  unfolding check_and_reload read_channel_data
  check_and_reload-Kept s h =
      if-both (Kept P) _ (ok true, s) (catch_all (read_channel_data system kind s)) h
        (catch_all-Kept P (read_channel_data system kind s)
          (read_from-Kept (system.read_file kind s.bus) s h))

module _ {B : Type 0} (system : System B) (kind : Kind) (s : ChannelConfig B)
    (inside : (check_and_reload system kind s).0 ≢ fault) where
  pub check_and_reload-Configured :
      (cs : List ChannelProperties)
      → Configured cs s
      → Configured cs (check_and_reload system kind s).1
  check_and_reload-Configured cs h =
      Kept-holds (Configured cs) (check_and_reload system kind s) inside (
        check_and_reload-Kept system kind (Configured cs)
          (λ a i t k. map-set config kind a (config-with_data kind a) i t.channel_data ∙ k)
          (with_time-Configured kind) s h)
    where
      with_time-Configured :
          (kind : Kind) (time : Option ℕ) (t : ChannelConfig B)
          → Configured cs t
          → Configured cs (with_time kind time t)
      with_time-Configured non_volatile time t h = h
      with_time-Configured volatile time t h = h

but_settings-set :
    {B : Type 0} (kind : Kind) (a : ChannelAccess) (i : ℕ) (s : ChannelConfig B)
    → but_settings kind (modify_channel i (with_data kind a) s).1 ≡ but_settings kind s
but_settings-set kind a i s =
    ap (λ (cs : List ChannelProperties). with_time kind none (record s { channel_data = cs }))
      (map-set (with_data kind no_access) kind a (with_data_twice kind a no_access) i
        s.channel_data)

but_settings-time :
    {B : Type 0} (kind : Kind) (time : Option ℕ) (s : ChannelConfig B)
    → but_settings kind (with_time kind time s) ≡ but_settings kind s
but_settings-time non_volatile time s = refl
but_settings-time volatile time s = refl

-- Whatever is in an access file, and whether reading it ends with a value or an exception, but
-- without an access behind the end of the array: checking its time and reading it changes nothing
-- but the settings of that kind and the known time of that file. The channels, the settings of the
-- other kind, the flags of the signals, the time of the other file and what is outside stay.
pub check_and_reload-only_settings :
    {B : Type 0} (system : System B) (kind : Kind) (s : ChannelConfig B)
    → (check_and_reload system kind s).0 ≢ fault
    → but_settings kind (check_and_reload system kind s).1 ≡ but_settings kind s
check_and_reload-only_settings system kind s inside =
    Kept-holds (λ t. but_settings kind t ≡ but_settings kind s) (check_and_reload system kind s)
      inside
      (check_and_reload-Kept system kind (λ t. but_settings kind t ≡ but_settings kind s)
        (λ a i t k. but_settings-set kind a i t ∙ k) (λ time t k. but_settings-time kind time t ∙ k)
        s refl)
