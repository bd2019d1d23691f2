-- ===== src/Watchdog/Commands/Lawful.antt =====
-- What the calls of app/watchdog_service.cpp do over a D-Bus whose watchdog behaves as documented.
use phosphor_host_ipmid.Prelude.{ℕ, ◌≡◌, refl, sym, ap, ◌∙◌, Bool, ◌||◌, if-both}
use mathlib.Core.Path.{subst}
use phosphor_host_ipmid.Watchdog.Service.{
  Call, Reply, done, all_values, Action, TimerUse, Properties, Peer, Result, returned, State,
  and_then, found, new_method_call, replied, attempt, give_up, perform, find_service, get_all,
  reset_time_remaining_call, set_initialized_call, set_enabled_call, set_expire_action_call,
  set_timer_use_call, set_expired_timer_use_call, set_interval_call, as_done, as_properties,
}

-- A call that succeeds, and what it does to the properties of the watchdog.
abbrev pub Does :
    {B : Type 0} → Peer B → (B → Properties) → Call → (Properties → Properties) → Type 0
Does {B} peer view call change =
    (b : B) → ((peer b call).0 ≡ done) × (view (peer b call).1 ≡ change (view b))

-- What the calls change.
abbrev pub with_initialized : Bool → Properties → Properties
with_initialized v p = record p { initialized = v }

abbrev pub with_enabled : Bool → Properties → Properties
with_enabled v p = record p { enabled = v }

abbrev pub with_expire_action : Action → Properties → Properties
with_expire_action v p = record p { expire_action = v }

abbrev pub with_timer_use : TimerUse → Properties → Properties
with_timer_use v p = record p { timer_use = v }

abbrev pub with_expired_timer_use : TimerUse → Properties → Properties
with_expired_timer_use v p = record p { expired_timer_use = v }

abbrev pub with_interval : ℕ → Properties → Properties
with_interval v p = record p { interval = v }

abbrev pub with_reset : Bool → Properties → Properties
with_reset v p = record p { time_remaining = p.interval; enabled = v || p.enabled }

-- The interface of the watchdog on the D-Bus: a property that is set is changed and no other,
-- ResetTimeRemaining starts the countdown over and may enable the watchdog, and GetAll tells all.
pub record Lawful {B : Type 0} (peer : Peer B) (view : B → Properties) : Type 0 where
  pub finds : Does peer view find_service (λ p. p)
  pub sets_initialized : (v : Bool) → Does peer view (set_initialized_call v) (with_initialized v)
  pub sets_enabled : (v : Bool) → Does peer view (set_enabled_call v) (with_enabled v)
  pub sets_expire_action :
      (v : Action) → Does peer view (set_expire_action_call v) (with_expire_action v)
  pub sets_timer_use : (v : TimerUse) → Does peer view (set_timer_use_call v) (with_timer_use v)
  pub sets_expired_timer_use :
      (v : TimerUse) → Does peer view (set_expired_timer_use_call v) (with_expired_timer_use v)
  pub sets_interval : (v : ℕ) → Does peer view (set_interval_call v) (with_interval v)
  pub resets : (v : Bool) → Does peer view (reset_time_remaining_call v) (with_reset v)
  pub tells_all :
      (b : B) → ((peer b get_all).0 ≡ all_values (view b)) × (view (peer b get_all).1 ≡ view b)

module _ {B : Type 0} (view : B → Properties) where
  -- A part of a body that ends so, changes the watchdog so, and keeps two of the variables.
  pub record Ran {A : Type 0} (end : Result A) (after : Properties) (s : State B)
      (r : Result A × State B) : Type 0 where
    pub ends : r.0 ≡ end
    pub watchdog : view r.1.bus ≡ after
    pub not_log : r.1.timer_not_log_flags ≡ s.timer_not_log_flags
    pub interrupt : r.1.timer_pre_timeout_interrupt ≡ s.timer_pre_timeout_interrupt

  -- The state after a part that returned.
  pub and_then-Ran :
      {A C : Type 0} {a : A} {end : Result C} {middle after : Properties} (s : State B)
      (m : Result A × State B) (rest : A → State B → Result C × State B)
      → Ran (returned a) middle s m
      → ((t : State B) → view t.bus ≡ middle → Ran end after t (rest a t))
      → Ran end after s (and_then m rest)
  and_then-Ran {A} {C} {a} {end} {middle} {after} s m rest h k =
      let n = k m.1 h.watchdog in
      subst (λ (x : Result A). Ran end after s (and_then (x, m.1) rest)) (sym h.ends)
        (record {
          ends = n.ends;
          watchdog = n.watchdog;
          not_log = n.not_log ∙ h.not_log;
          interrupt = n.interrupt ∙ h.interrupt;
        })

module _ {B : Type 0} (peer : Peer B) (view : B → Properties) (law : Lawful peer view) where
  found-Ran :
      (s : State B) (r : Reply × B)
      → r.0 ≡ done
      → view r.1 ≡ view s.bus
      → Ran view (returned tt) (view s.bus) s (found peer s r)
  found-Ran s r e h =
      subst (λ (x : Reply). Ran view (returned tt) (view s.bus) s (found peer s (x, r.1))) (sym e)
        (record { ends = refl; watchdog = h; not_log = refl; interrupt = refl })

  new_method_call-Ran :
      (s : State B) → Ran view (returned tt) (view s.bus) s (new_method_call peer s)
  unfolding new_method_call
  new_method_call-Ran s =
      if-both (Ran view (returned tt) (view s.bus) s) s.service_valid (returned tt, s)
        (found peer s (peer s.bus find_service))
        (record { ends = refl; watchdog = refl; not_log = refl; interrupt = refl })
        (found-Ran s (peer s.bus find_service) (law.finds s.bus).0 (law.finds s.bus).1)

  -- A reply without an error.
  data Plain : Reply → Type 0 where
    plain_done : Plain done
    plain_values : (p : Properties) → Plain (all_values p)

  replied-Ran :
      {A : Type 0} (decode : Reply → Result A) (otherwise : State B → Result A × State B)
      (s : State B) (reply : Reply) (r : Reply × B) (after : Properties)
      → Plain reply
      → r.0 ≡ reply
      → view r.1 ≡ after
      → Ran view (decode reply) after s (replied peer decode otherwise s r)
  replied-Ran decode otherwise s reply (got, b) after plain e h =
      subst
        (λ (x : Reply). Ran view (decode reply) after s (replied peer decode otherwise s (x, b)))
        (sym e) (go reply plain)
    where
      go :
          (reply : Reply)
          → Plain reply
          → Ran view (decode reply) after s (replied peer decode otherwise s (reply, b))
      go _ plain_done = record { ends = refl; watchdog = h; not_log = refl; interrupt = refl }
      go _ (plain_values p) = record { ends = refl; watchdog = h; not_log = refl; interrupt = refl }

  attempt-Ran :
      {A : Type 0} (call : Call) (decode : Reply → Result A)
      (otherwise : State B → Result A × State B) (change : Properties → Properties)
      (answer : Properties → Reply) (s : State B)
      → ((p : Properties) → Plain (answer p))
      → ((b : B) → ((peer b call).0 ≡ answer (view b)) × (view (peer b call).1 ≡ change (view b)))
      → Ran view
          (decode (answer (view s.bus)))
          (change (view s.bus))
          s
          (attempt peer call decode otherwise s)
  unfolding attempt
  attempt-Ran call decode otherwise change answer s plain does =
      and_then-Ran view s (new_method_call peer s)
        (λ (u : Unit) (t : State B). replied peer decode otherwise t (peer t.bus call))
        (new_method_call-Ran s)
        (λ t same.
          replied-Ran decode otherwise t (answer (view s.bus)) (peer t.bus call)
            (change (view s.bus)) (plain (view s.bus)) ((does t.bus).0 ∙ ap answer same)
            ((does t.bus).1 ∙ ap change same))

  perform-Ran :
      {A : Type 0} (call : Call) (decode : Reply → Result A) (change : Properties → Properties)
      (answer : Properties → Reply) (s : State B)
      → ((p : Properties) → Plain (answer p))
      → ((b : B) → ((peer b call).0 ≡ answer (view b)) × (view (peer b call).1 ≡ change (view b)))
      → Ran view (decode (answer (view s.bus))) (change (view s.bus)) s (perform peer call decode s)
  unfolding perform
  perform-Ran {A} call decode change answer s plain does =
      if-both (Ran view (decode (answer (view s.bus))) (change (view s.bus)) s) s.service_valid
        (attempt peer call decode (attempt peer call decode (give_up peer)) s)
        (attempt peer call decode (give_up peer) s)
        (attempt-Ran call decode (attempt peer call decode (give_up peer)) change answer s plain
          does)
        (attempt-Ran call decode (give_up peer) change answer s plain does)

  -- A call that only changes the watchdog.
  pub change-Ran :
      (call : Call) (change : Properties → Properties) (s : State B)
      → Does peer view call change
      → Ran view (returned tt) (change (view s.bus)) s (perform peer call as_done s)
  change-Ran call change s does =
      perform-Ran call as_done change (λ p. done) s (λ p. plain_done) does

  pub get_all-Ran :
      (s : State B)
      → Ran view (returned (view s.bus)) (view s.bus) s (perform peer get_all as_properties s)
  get_all-Ran s = perform-Ran get_all as_properties (λ p. p) all_values s plain_values law.tells_all
