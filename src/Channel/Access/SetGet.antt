-- ===== src/Channel/Access/SetGet.antt =====
-- Setting and then reading the volatile access of a channel in user_channel/channel_mgmt.cpp.
use phosphor_host_ipmid.Prelude.{
  ◌≢◌, length-set, ℕ, zero, suc, ◌<◌, ◌≡◌, refl, ap, sym, ◌∙◌, arith, Bool, true, false, List, [],
  ◌∷◌, map, Option, none, some, get_or, length, if◌then◌else◌, get_or-set_self,
}
use phosphor_host_ipmid.Channel.Access.{
  merge_access, check_settings, set_volatile, merge_and_write, set_channel_access_data,
  get_channel_access, code_after_write,
}
use mathlib.Core.Path.{subst}
use phosphor_host_ipmid.Channel.Data.{
  AccessEntry, ChannelAccess, ChannelProperties, no_channel, max_ipmi_channels, Kind, volatile,
  data_of, with_data, AccessEntries, System, ChannelConfig, Outcome, ok, thrown, fault, and_then,
  channel_at,
}
use phosphor_host_ipmid.Codes.{cc_success}
use phosphor_host_ipmid.Channel.Store.{
  has_sessions, check_and_reload, write_channel_data, entries_of, entry_of, add_entry, write_to,
  modify_channel,
}
use phosphor_host_ipmid.Channel.Store.Keeping.{config, Configured, check_and_reload-Configured}
use phosphor_host_ipmid.Channel.Store.Reload.{
  Keeps, write_channel_data-reload, add_entry-some, branch,
}
use phosphor_host_ipmid.Channel.Access.Checks.{
  Merged, merge_access-Merged, Open, check_channel-Open, Succeeds, or_code, check_channel-passes,
  check_settings-passes,
}

map-get_or :
    (xs : List ChannelProperties) (i : ℕ)
    → get_or (map config xs) i no_channel ≡ config (get_or xs i no_channel)
map-get_or [] i = refl
map-get_or (x ∷ xs) zero = refl
map-get_or (x ∷ xs) (suc i) = map-get_or xs i

map-length : (xs : List ChannelProperties) → length (map config xs) ≡ length xs
map-length [] = refl
map-length (x ∷ xs) = ap suc (map-length xs)

-- A channel with sessions has an entry.
added-nonempty :
    (i : ℕ) (e : Option AccessEntry) (r : Option AccessEntries) (es : AccessEntries)
    → add_entry i e r ≡ some es
    → 0 < length es
added-nonempty i e r es h =
    let (v, vs, first, others, eq) = add_entry-some i e r es h in
    subst (λ (es : AccessEntries). 0 < length es) eq (omega arith)

entries_of-nonempty :
    (kind : Kind) (i j : ℕ) (cs : List ChannelProperties) (es : AccessEntries)
    → has_sessions (get_or cs j no_channel) ≡ true
    → entries_of kind i cs ≡ some es
    → 0 < length es
unfolding entries_of
entries_of-nonempty kind i j [] es h e = cc
entries_of-nonempty kind i zero (c ∷ cs) es h e =
    let added = add_entry i (entry_of (data_of kind c)) (entries_of kind (suc i) cs) in
    let others = entries_of kind (suc i) cs in
    added-nonempty i (entry_of (data_of kind c)) others es
      (subst (λ (b : Bool). (if b then added else others) ≡ some es) h e)
entries_of-nonempty kind i (suc j) (c ∷ cs) es h e =
    branch (0 < length es) (has_sessions c)
      (add_entry i (entry_of (data_of kind c)) (entries_of kind (suc i) cs))
      (entries_of kind (suc i) cs) (some es) e
      (added-nonempty i (entry_of (data_of kind c)) (entries_of kind (suc i) cs) es)
      (entries_of-nonempty kind (suc i) j cs es h)

module _ {B : Type 0} (system : System B) where
  -- The state in which the merged access is written.
  abbrev merged : ℕ → ChannelAccess → ℕ → ChannelConfig B → ChannelConfig B
  merged ch_num a flags t =
      (modify_channel ch_num (λ c. with_data volatile (merge_access flags a (data_of volatile c)) c)
        t).1

  loaded-true :
      (ch_num : ℕ) (a : ChannelAccess) (flags : ℕ) (m : Outcome Bool × ChannelConfig B)
      → Succeeds (and_then m (merge_and_write system ch_num a flags))
      → m.0 ≡ ok true
  loaded-true ch_num a flags (ok true, t) h = refl
  loaded-true ch_num a flags (ok false, t) h = cc
  loaded-true ch_num a flags (thrown, t) h = cc
  loaded-true ch_num a flags (fault, t) h = cc

  wrote-true :
      (m : Outcome Bool × ChannelConfig B)
      → Succeeds (and_then m (code_after_write system))
      → (m.0 ≡ ok true) × ((and_then m (code_after_write system)).1 ≡ m.1)
  wrote-true (ok true, t) h = (refl, refl)
  wrote-true (ok false, t) h = cc
  wrote-true (thrown, t) h = cc
  wrote-true (fault, t) h = cc

  written-entries :
      (kind : Kind) (s : ChannelConfig B)
      → (write_channel_data system kind s).0 ≡ ok true
      → (es : AccessEntries) × (entries_of kind 0 s.channel_data ≡ some es)
  unfolding write_channel_data
  written-entries kind s = of (entries_of kind 0 s.channel_data)
    where
      of :
          (o : Option AccessEntries)
          → (write_to system kind o s).0 ≡ ok true
          → (es : AccessEntries) × (o ≡ some es)
      of (some es) h = (es, refl)
      of none h = cc

  set-run :
      (ch_num : ℕ) (a : ChannelAccess) (flags : ℕ) (s t : ChannelConfig B)
      → Open ch_num s
      → check_settings flags a ≡ none
      → check_and_reload system volatile s ≡ (ok true, t)
      → set_channel_access_data system ch_num a flags s
        ≡ and_then
            (write_channel_data system volatile (merged ch_num a flags t))
            (code_after_write system)
  unfolding set_channel_access_data
  set-run ch_num a flags s t o e m = rw (check_channel-Open ch_num s o, e, m) refl

  get-run :
      (ch_num : ℕ) (r : ChannelConfig B)
      → Open ch_num r
      → check_and_reload system volatile r ≡ (ok true, r)
      → get_channel_access system volatile ch_num r
        ≡ (ok (cc_success, (channel_at ch_num r).volatile_data), r)
  unfolding get_channel_access
  get-run ch_num r o m = rw (check_channel-Open ch_num r o, m) refl

  pub record Reads (ch_num : ℕ) (now : ChannelAccess) (r : ChannelConfig B) : Type 0 where
    pub opened : Open ch_num r
    pub reads : get_channel_access system volatile ch_num r ≡ (ok (cc_success, now), r)

  module _ (ch_num : ℕ) (a : ChannelAccess) (flags : ℕ) where
    -- Reading the file again leaves the channel what it is.
    reload-Open :
        (s t : ChannelConfig B)
        → check_and_reload system volatile s ≡ (ok true, t)
        → length s.channel_data ≡ max_ipmi_channels
        → Open ch_num s
        → Open ch_num t × (length t.channel_data ≡ max_ipmi_channels)
    reload-Open s t m sized o = (
      record {
        small = o.small;
        valid = ap (λ (c : ChannelProperties). c.is_ch_valid) at ∙ o.valid;
        sessions = ap has_sessions at ∙ o.sessions;
      },
      sym (map-length t.channel_data) ∙ ap length kept ∙ map-length s.channel_data ∙ sized,
    )
      where
        not_fault : ok true ≡ fault → ⊥
        not_fault e = cc

        inside : (check_and_reload system volatile s).0 ≢ fault
        inside f = not_fault (sym (ap (λ (r : Outcome Bool × ChannelConfig B). r.0) m) ∙ f)

        kept : Configured (map config s.channel_data) t
        kept =
            subst
              (λ (r : Outcome Bool × ChannelConfig B). Configured (map config s.channel_data) r.1) m
              (check_and_reload-Configured system volatile s inside (map config s.channel_data)
                refl)

        at : config (channel_at ch_num t) ≡ config (channel_at ch_num s)
        at =
            sym (map-get_or t.channel_data ch_num)
            ∙ ap (λ (cs : List ChannelProperties). get_or cs ch_num no_channel) kept
            ∙ map-get_or s.channel_data ch_num

    merged-at :
        (t : ChannelConfig B)
        → ch_num < length t.channel_data
        → channel_at ch_num (merged ch_num a flags t)
          ≡ with_data volatile
              (merge_access flags a (channel_at ch_num t).volatile_data)
              (channel_at ch_num t)
    merged-at t small = get_or-set_self t.channel_data ch_num _ no_channel small

    after-write :
        Keeps system
        → (t : ChannelConfig B) → Open ch_num t
        → length t.channel_data ≡ max_ipmi_channels
        → (write_channel_data system volatile (merged ch_num a flags t)).0 ≡ ok true
        → let r = (write_channel_data system volatile (merged ch_num a flags t)).1 in
          Reads ch_num (merge_access flags a (channel_at ch_num t).volatile_data) r
    after-write keeps t o sized wrote =
        let u = merged ch_num a flags t in
        let r = (write_channel_data system volatile u).1 in
        let here = merged-at t (omega (arith, sized, o.small)) in
        let (es, entries) = written-entries volatile u wrote in
        let some_entries =
          entries_of-nonempty volatile 0 ch_num u.channel_data es
            (ap has_sessions here ∙ o.sessions) entries in
        let (table, reloaded) =
          write_channel_data-reload system keeps volatile u es
            (omega (arith, sized, length-set t.channel_data ch_num _)) entries some_entries wrote in
        let there =
          ap (λ (cs : List ChannelProperties). get_or cs ch_num no_channel) table ∙ here in
        let open_again : Open ch_num r = record {
          small = o.small;
          valid = ap (λ (c : ChannelProperties). c.is_ch_valid) there ∙ o.valid;
          sessions = ap has_sessions there ∙ o.sessions;
        } in
        record {
          opened = open_again;
          reads =
              get-run ch_num r open_again reloaded
              ∙ ap (λ (c : ChannelProperties). (ok (cc_success, c.volatile_data), r)) there;
        }

  -- A success has passed the checks, and the reading of the file.
  passes :
      (ch_num : ℕ) (a : ChannelAccess) (flags : ℕ) (s : ChannelConfig B)
      → Succeeds (set_channel_access_data system ch_num a flags s)
      → Open ch_num s
        × (check_settings flags a ≡ none)
        × Succeeds (set_volatile system ch_num a flags s)
  unfolding set_channel_access_data
  passes ch_num a flags s h =
      let (o, rest) =
        check_channel-passes ch_num
          (or_code (check_settings flags a) (set_volatile system ch_num a flags)) s h in
      let (settings, done) =
        check_settings-passes flags a (set_volatile system ch_num a flags) s rest in
      (o, settings, done)

  -- Where setting succeeds, reading gives the merged access.
  pub set-get :
      Keeps system
      → (ch_num : ℕ) (a : ChannelAccess) (flags : ℕ) (s : ChannelConfig B)
      → length s.channel_data ≡ max_ipmi_channels
      → (set_channel_access_data system ch_num a flags s).0 ≡ ok cc_success
      → let old = channel_at ch_num (check_and_reload system volatile s).1 in
        let r = (set_channel_access_data system ch_num a flags s).1 in
        Reads ch_num (merge_access flags a old.volatile_data) r
  set-get keeps ch_num a flags s sized h =
      let m = check_and_reload system volatile s in
      let (o, settings, done) = passes ch_num a flags s h in
      let loads : m ≡ (ok true, m.1) =
        ap (λ (b : Outcome Bool). (b, m.1)) (loaded-true ch_num a flags m done) in
      let (open_t, sized_t) = reload-Open ch_num a flags s m.1 loads sized o in
      let runs = set-run ch_num a flags s m.1 o settings loads in
      let w = write_channel_data system volatile (merged ch_num a flags m.1) in
      let (wrote, state) =
        wrote-true w (sym (ap (λ (r : Outcome ℕ × ChannelConfig B). r.0) runs) ∙ h) in
      subst (Reads ch_num (merge_access flags a (channel_at ch_num m.1).volatile_data))
        (sym (ap (λ (r : Outcome ℕ × ChannelConfig B). r.1) runs ∙ state))
        (after-write ch_num a flags keeps m.1 open_t sized_t wrote)

  -- Where setting the volatile access of a channel succeeds, over files that give back what was
  -- written, reading it then changes nothing and gives what the flags name from the new access and
  -- the rest from that before. The table has its 16 channels.
  pub set_channel_access_data-get :
      Keeps system
      → (ch_num : ℕ) (a : ChannelAccess) (flags : ℕ) (s : ChannelConfig B)
      → length s.channel_data ≡ max_ipmi_channels
      → (set_channel_access_data system ch_num a flags s).0 ≡ ok cc_success
      → let old = channel_at ch_num (check_and_reload system volatile s).1 in
        let r = (set_channel_access_data system ch_num a flags s).1 in
        (now : ChannelAccess) × (get_channel_access system volatile ch_num r
          ≡ (ok (cc_success, now), r))
        × Merged flags a old.volatile_data now
  set_channel_access_data-get keeps ch_num a flags s sized h =
      let old = channel_at ch_num (check_and_reload system volatile s).1 in
      (
        merge_access flags a old.volatile_data,
        (set-get keeps ch_num a flags s sized h).reads,
        merge_access-Merged flags a old.volatile_data,
      )
