-- ===== src/Channel/Store/Reload.antt =====
-- Writing an access file of user_channel/channel_mgmt.cpp and reading it again.
use phosphor_host_ipmid.Channel.Store.Entries.{read_access-entry_of}
use phosphor_host_ipmid.Prelude.{
  All-reordered, if-both, if◌then◌else◌, ◌∙◌, ◌≤◌, length, ◌+◌, ℕ, zero, suc, ◌%◌, ◌<◌, ◌≡◌, refl,
  ap, arith, true, List, [], ◌∷◌, Option, none, some, get_or, set, All, ne→==, le→ltb,
}
use phosphor_host_ipmid.Channel.Store.{
  has_sessions, after_write, read_channel_data, write_to, check_and_reload, write_channel_data,
  Bool, add_entry, entries_of, read_entry, read_entries, entry_of,
}
use phosphor_host_ipmid.Channel.Data.{
  catch_all, Outcome, and_then, entries, last_time, with_time, System, ChannelProperties,
  no_channel, max_ipmi_channels, Kind, non_volatile, volatile, data_of, with_data, AccessEntry,
  AccessEntries, ChannelConfig, ok,
}
use mathlib.Core.List.{Permᴰ}
use mathlib.Core.Path.{sym, subst}
use mathlib.Core.Bool.{false}
use mathlib.Core.Option.{some-injective}

set_same {ℓ} : {A : Type ℓ} (xs : List A) (i : ℕ) (d : A) → set xs i (get_or xs i d) ≡ xs
set_same [] i d = refl
set_same (x ∷ xs) zero d = refl
set_same (x ∷ xs) (suc i) d = ap (◌∷◌ x) (set_same xs i d)

with_data_same : (kind : Kind) (c : ChannelProperties) → with_data kind (data_of kind c) c ≡ c
with_data_same non_volatile c = refl
with_data_same volatile c = refl

-- An entry that says of its channel what the table says.
pub record Says (kind : Kind) (cs : List ChannelProperties) (entry : Option ℕ × Option AccessEntry)
    : Type 0 where
  pub ch_num : ℕ
  pub value : AccessEntry
  pub key : entry.0 ≡ some ch_num
  pub known : entry.1 ≡ some value
  pub small : ch_num < max_ipmi_channels
  pub agrees : entry_of (data_of kind (get_or cs ch_num no_channel)) ≡ some value

module _ {B : Type 0} (system : System B) where
  read_entry-Says :
      (kind : Kind) (s : ChannelConfig B) (key : Option ℕ) (value : Option AccessEntry)
      → Says kind s.channel_data (key, value)
      → read_entry system kind key value s ≡ (ok tt, s)
  read_entry-Says kind s key value h =
      let c = get_or s.channel_data h.ch_num no_channel in
      rw (
        h.key,
        h.known,
        small,
        le→ltb max_ipmi_channels h.ch_num (omega (arith, h.small)),
        ne→== h.ch_num max_ipmi_channels (λ e. absurd (omega (arith, h.small))),
        read_access-entry_of (data_of kind c) (data_of kind c) h.value h.agrees,
        with_data_same kind c,
        set_same s.channel_data h.ch_num no_channel,
      )
    where
      small : h.ch_num % 256 ≡ h.ch_num
      small = omega (arith, h.small)

  read_entries-Says :
      (kind : Kind) (s : ChannelConfig B) (es : AccessEntries)
      → All (Says kind s.channel_data) es
      → read_entries system kind es s ≡ (ok tt, s)
  unfolding read_entries
  read_entries-Says kind s [] h = refl
  read_entries-Says kind s ((key, value) ∷ es) h =
      rw (read_entry-Says kind s key value h.0) (read_entries-Says kind s es h.1)

pub add_entry-some :
    (n : ℕ) (e : Option AccessEntry) (r : Option AccessEntries) (es : AccessEntries)
    → add_entry n e r ≡ some es
    → (v : AccessEntry) × (vs : AccessEntries) × (e ≡ some v)
      × (r ≡ some vs)
      × (((some n, some v) ∷ vs) ≡ es)
add_entry-some n (some v) (some vs) es h = (v, vs, refl, refl, some-injective _ _ h)
add_entry-some n (some v) none es h = cc
add_entry-some n none r es h = cc

pub branch {ℓ} :
    {A : Type ℓ} (P : Type 0) (b : Bool) (x y z : A)
    → (if b then x else y) ≡ z
    → (x ≡ z → P)
    → (y ≡ z → P)
    → P
branch P true x y z h f g = f h
branch P false x y z h f g = g h

added-Says :
    (kind : Kind) (full : List ChannelProperties) (i : ℕ) (c : ChannelProperties)
    (r : Option AccessEntries) (es : AccessEntries)
    → get_or full i no_channel ≡ c
    → i < max_ipmi_channels
    → ((vs : AccessEntries) → r ≡ some vs → All (Says kind full) vs)
    → add_entry i (entry_of (data_of kind c)) r ≡ some es
    → All (Says kind full) es
added-Says kind full i c r es here small rest h =
    let (v, vs, first, others, eq) = add_entry-some i (entry_of (data_of kind c)) r es h in
    subst (All (Says kind full)) eq (
      record {
        ch_num = i;
        value = v;
        key = refl;
        known = refl;
        small = small;
        agrees = ap (λ (c : ChannelProperties). entry_of (data_of kind c)) here ∙ first;
      },
      rest vs others,
    )

-- What is written says of each channel what the table says.
entries_of-Says :
    (kind : Kind) (full : List ChannelProperties) (i : ℕ) (cs : List ChannelProperties)
    (es : AccessEntries)
    → ((j : ℕ) → get_or full (i + j) no_channel ≡ get_or cs j no_channel)
    → i + length cs ≤ max_ipmi_channels
    → entries_of kind i cs ≡ some es
    → All (Says kind full) es
unfolding entries_of
entries_of-Says kind full i [] es part small h =
    subst (All (Says kind full)) (some-injective [] es h) tt
entries_of-Says kind full i (c ∷ cs) es part small h =
    let next : (j : ℕ) → get_or full (suc i + j) no_channel ≡ get_or cs j no_channel =
      λ j. ap (λ (n : ℕ). get_or full n no_channel) (omega arith) ∙ part (suc j) in
    let rest : (vs : AccessEntries)
        → entries_of kind (suc i) cs ≡ some vs
        → All (Says kind full) vs =
      λ vs. entries_of-Says kind full (suc i) cs vs next (omega arith) in
    branch (All (Says kind full) es) (has_sessions c)
      (add_entry i (entry_of (data_of kind c)) (entries_of kind (suc i) cs))
      (entries_of kind (suc i) cs) (some es) h
      (added-Says kind full i c (entries_of kind (suc i) cs) es
        (ap (λ (n : ℕ). get_or full n no_channel) (omega arith) ∙ part 0) (omega arith) rest)
      (rest es)

module _ {B : Type 0} (system : System B) where
  -- What the file system and nlohmann::json promise of a file that was written without an error:
  -- its text parses to what it was made from, with the keys in an order of its own. An object
  -- without keys is written as "null".
  pub record Keeps : Type 0 where
    pub kept :
        (kind : Kind) (es : AccessEntries) (b b' : B)
        → system.write_file kind es b ≡ (true, b')
        → 0 < length es
        → (read : AccessEntries) × (system.read_file kind b' ≡ entries read) × Permᴰ es read

  with_time_same : (kind : Kind) (s : ChannelConfig B) → with_time kind (last_time kind s) s ≡ s
  with_time_same non_volatile s = refl
  with_time_same volatile s = refl

  wrote-true :
      (kind : Kind) (s : ChannelConfig B) (m : Bool × B)
      → (and_then (ok m.0, record s { bus = m.1 }) (after_write system kind)).0 ≡ ok true
      → (b : B) × (m ≡ (true, b))
        × (and_then (ok m.0, record s { bus = m.1 }) (after_write system kind)
            ≡ (ok true, with_time kind (system.file_time kind b) (record s { bus = b })))
  wrote-true kind s (true, b) h = (b, refl, refl)
  wrote-true kind s (false, b) h = cc

  module _ (es : AccessEntries) (b : B) where
    reads_same :
        (kind : Kind) (t : ChannelConfig B)
        → system.read_file kind t.bus ≡ entries es
        → All (Says kind t.channel_data) es
        → with_time kind (system.file_time kind t.bus) t ≡ t
        → check_and_reload system kind t ≡ (ok true, t)
    unfolding check_and_reload read_channel_data
    reads_same kind t file says time =
        if-both (λ (r : Outcome Bool × ChannelConfig B). r ≡ (ok true, t)) _ (ok true, t)
          (catch_all (read_channel_data system kind t)) refl
          (rw (file, read_entries-Says system kind t es says)
            (ap (λ (t : ChannelConfig B). (ok true, t)) time))

    reload-at :
        (kind : Kind) (s : ChannelConfig B)
        → system.read_file kind b ≡ entries es
        → All (Says kind s.channel_data) es
        → let t = with_time kind (system.file_time kind b) (record s { bus = b }) in
          (t.channel_data ≡ s.channel_data) × (check_and_reload system kind t ≡ (ok true, t))
    reload-at non_volatile s file says = (refl, reads_same non_volatile _ file says refl)
    reload-at volatile s file says = (refl, reads_same volatile _ file says refl)

  -- After a successful write of an access file, checking it again changes nothing, whether the file
  -- is read or its time says that it need not be. At least one channel has sessions.
  pub write_channel_data-reload :
      Keeps
      → (kind : Kind) (s : ChannelConfig B) (es : AccessEntries)
      → length s.channel_data ≤ max_ipmi_channels
      → entries_of kind 0 s.channel_data ≡ some es
      → 0 < length es
      → (write_channel_data system kind s).0 ≡ ok true
      → let t = (write_channel_data system kind s).1 in
        (t.channel_data ≡ s.channel_data) × (check_and_reload system kind t ≡ (ok true, t))
  unfolding write_channel_data
  write_channel_data-reload k kind s es small h some_entries done =
      let m = system.write_file kind es s.bus in
      let saves = ap (λ (o : Option AccessEntries). write_to system kind o s) h in
      let (b, file, after) =
        wrote-true kind s m (sym (ap (λ (r : Outcome Bool × ChannelConfig B). r.0) saves) ∙ done) in
      let says =
        entries_of-Says kind s.channel_data 0 s.channel_data es
          (λ j. ap (λ (n : ℕ). get_or s.channel_data n no_channel) (omega arith)) (omega arith) h in
      let (read, holds, order) = k.kept kind es s.bus b file some_entries in
      rw (saves ∙ after) (
        reload-at read b kind s holds (All-reordered (Says kind s.channel_data) es read order says))
