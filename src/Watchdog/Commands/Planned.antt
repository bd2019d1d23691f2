-- ===== src/Watchdog/Commands/Planned.antt =====
-- The watchdog after Set Watchdog Timer (app/watchdog.cpp), and the fields that the command accepts.
use phosphor_host_ipmid.Watchdog.Commands.Lawful.{
  with_initialized, with_enabled, with_expire_action, with_timer_use, with_expired_timer_use,
  with_interval, with_reset, Lawful, Ran, and_then-Ran, change-Ran,
}
use phosphor_host_ipmid.Prelude.{
  ℕ, zero, suc, ◌-◌, ◌*◌, ◌/◌, ◌≤◌, ◌<◌, ◌≡◌, refl, sym, Bool, true, false, ◌||◌, Option, some, ltb,
  ◌==◌, if◌then◌else◌, bit_and, arith, le→ltb,
}
use mathlib.Core.Path.{subst}
use phosphor_host_ipmid.Watchdog.Service.{
  Action, no_action, hard_reset, power_off, power_cycle, reserved_use, Properties, Peer, Result,
  returned, State, and_then, set_timer_use, set_expired_timer_use, set_interval, set_initialized,
  reset_time_remaining, reset_time_remaining_call, set_initialized_call, set_enabled_call,
  set_expire_action_call, set_timer_use_call, set_expired_timer_use_call, set_interval_call,
}
use phosphor_host_ipmid.Watchdog.Commands.{
  Answer, only_code, caught_domain, SetRequest, invalid_fields, set_watchdog_timer, apply_request,
  start_over, stop_timer, set_action, ipmi_action_to_wd_action, ipmi_timer_use_to_wd_timer_use,
  wd_action_to_ipmi_action, wd_timer_use_to_ipmi_timer_use,
}

or-false : (a b : Bool) → (a || b) ≡ false → (a ≡ false) × (b ≡ false)
or-false true b e = absurd (differ e)
  where
    differ : true ≡ false → ⊥
    differ e = cc
or-false false b e = (refl, e)

-- What the test of the fields lets through.
pub record Accepted (r : SetRequest) : Type 0 where
  pub not_0 : (r.timer_use == 0) ≡ false
  pub not_6 : (r.timer_use == 6) ≡ false
  pub not_7 : (r.timer_use == 7) ≡ false
  pub action : ltb 3 r.timeout_action ≡ false

pub accepted : (r : SetRequest) → invalid_fields r ≡ false → Accepted r
unfolding invalid_fields
accepted r h =
    let e1 =
      (or-false _ _ (or-false _ _ (or-false _ _ (or-false _ _ (or-false _ _ h).0).0).0).0).0 in
    let e2 = or-false _ _ e1 in
    let e3 = or-false _ _ e2.0 in
    let e4 = or-false _ _ e3.0 in record { not_0 = e4.0; not_6 = e4.1; not_7 = e3.1; action = e2.1 }

pub use_again :
    (u : ℕ)
    → u < 8
    → (u == 0) ≡ false
    → (u == 6) ≡ false
    → (u == 7) ≡ false
    → wd_timer_use_to_ipmi_timer_use (ipmi_timer_use_to_wd_timer_use u) ≡ u
use_again zero h a b c = cc
use_again (suc zero) h a b c = refl
use_again (suc (suc zero)) h a b c = refl
use_again (suc (suc (suc zero))) h a b c = refl
use_again (suc (suc (suc (suc zero)))) h a b c = refl
use_again (suc (suc (suc (suc (suc zero))))) h a b c = refl
use_again (suc (suc (suc (suc (suc (suc zero)))))) h a b c = cc
use_again (suc (suc (suc (suc (suc (suc (suc zero))))))) h a b c = cc
use_again (suc (suc (suc (suc (suc (suc (suc (suc u)))))))) h a b c = absurd (omega arith)

pub record ActionOf (a : ℕ) : Type 0 where
  pub wanted : Action
  pub is : ipmi_action_to_wd_action (bit_and a 3) ≡ some wanted
  pub again : wd_action_to_ipmi_action wanted ≡ a

pub action_of : (a : ℕ) → ltb 3 a ≡ false → ActionOf a
action_of zero e = record { wanted = no_action; is = refl; again = refl }
action_of (suc zero) e = record { wanted = hard_reset; is = refl; again = refl }
action_of (suc (suc zero)) e = record { wanted = power_off; is = refl; again = refl }
action_of (suc (suc (suc zero))) e = record { wanted = power_cycle; is = refl; again = refl }
action_of (suc (suc (suc (suc a)))) e = absurd (ground arith)

-- The watchdog after the command, from the one before.
abbrev pub stopped : Bool → Properties → Properties
stopped dont_stop_timer p = if dont_stop_timer then p else record p { enabled = false }

abbrev pub started_over : ℕ → Properties → Properties
started_over countdown p = record p {
  interval = countdown * 100;
  time_remaining = countdown * 100;
  initialized = true;
}

-- The watchdog after the whole command.
abbrev pub planned : SetRequest → Action → Properties → Properties
planned r a p = started_over r.initial_countdown (
    with_expired_timer_use reserved_use (
      with_timer_use (ipmi_timer_use_to_wd_timer_use r.timer_use)
        (with_expire_action a (stopped r.dont_stop_timer p))))

module _ {B : Type 0} (peer : Peer B) (view : B → Properties) (law : Lawful peer view) where
  then-Ran :
      {A C : Type 0} {a : A} {end : Result C} (change next : Properties → Properties) (s : State B)
      (m : Result A × State B) (rest : A → State B → Result C × State B)
      → Ran view (returned a) (change (view s.bus)) s m
      → ((t : State B) → Ran view end (next (view t.bus)) t (rest a t))
      → Ran view end (next (change (view s.bus))) s (and_then m rest)
  then-Ran {A} {C} {a} {end} change next s m rest h k =
      and_then-Ran view s m rest h
        (λ t same. subst (λ (p : Properties). Ran view end (next p) t (rest a t)) same (k t))

  start_over-Ran :
      (r : SetRequest) (s : State B)
      → Ran view
          (returned (only_code 0))
          (started_over r.initial_countdown (view s.bus))
          s
          (start_over peer r s)
  start_over-Ran r s =
      let wait = r.initial_countdown * 100 in
      then-Ran (with_interval wait) (λ p. with_initialized true (with_reset false p)) s
        (set_interval peer wait s) _
        (change-Ran peer view law (set_interval_call wait) (with_interval wait) s
          (law.sets_interval wait))
        (λ t.
          then-Ran (with_reset false) (with_initialized true) t (reset_time_remaining peer false t)
            _
            (change-Ran peer view law (reset_time_remaining_call false) (with_reset false) t
              (law.resets false))
            (λ u.
              then-Ran (with_initialized true) (λ p. p) u (set_initialized peer true u) _
                (change-Ran peer view law (set_initialized_call true) (with_initialized true) u
                  (law.sets_initialized true))
                (λ v. record { ends = refl; watchdog = refl; not_log = refl; interrupt = refl })))

  stop_timer-Ran :
      (dont_stop_timer : Bool) (s : State B)
      → Ran view
          (returned tt)
          (stopped dont_stop_timer (view s.bus))
          s
          (stop_timer peer dont_stop_timer s)
  stop_timer-Ran true s = record { ends = refl; watchdog = refl; not_log = refl; interrupt = refl }
  stop_timer-Ran false s =
      change-Ran peer view law (set_enabled_call false) (with_enabled false) s
        (law.sets_enabled false)

  set_action-Ran :
      (o : Option Action) (a : Action) (s : State B)
      → o ≡ some a
      → Ran view (returned tt) (with_expire_action a (view s.bus)) s (set_action peer o s)
  set_action-Ran o a s e =
      subst
        (λ (o : Option Action).
          Ran view (returned tt) (with_expire_action a (view s.bus)) s (set_action peer o s))
        (sym e)
        (change-Ran peer view law (set_expire_action_call a) (with_expire_action a) s
          (law.sets_expire_action a))

  apply_request-Ran :
      (r : SetRequest) (a : Action) (s : State B)
      → ipmi_action_to_wd_action (bit_and r.timeout_action 3) ≡ some a
      → Ran view (returned (only_code 0)) (planned r a (view s.bus)) s (apply_request peer r s)
  apply_request-Ran r a s e =
      let u = ipmi_timer_use_to_wd_timer_use r.timer_use in
      let last = started_over r.initial_countdown in
      then-Ran (stopped r.dont_stop_timer)
        (λ p.
          last (with_expired_timer_use reserved_use (with_timer_use u (with_expire_action a p))))
        s (stop_timer peer r.dont_stop_timer s) _ (stop_timer-Ran r.dont_stop_timer s)
        (λ t.
          then-Ran (with_expire_action a)
            (λ p. last (with_expired_timer_use reserved_use (with_timer_use u p))) t
            (set_action peer (ipmi_action_to_wd_action (bit_and r.timeout_action 3)) t) _
            (set_action-Ran (ipmi_action_to_wd_action (bit_and r.timeout_action 3)) a t e)
            (λ t.
              then-Ran (with_timer_use u) (λ p. last (with_expired_timer_use reserved_use p)) t
                (set_timer_use peer u t) _
                (change-Ran peer view law (set_timer_use_call u) (with_timer_use u) t
                  (law.sets_timer_use u))
                (λ t.
                  then-Ran (with_expired_timer_use reserved_use) last t
                    (set_expired_timer_use peer reserved_use t) _
                    (change-Ran peer view law (set_expired_timer_use_call reserved_use)
                      (with_expired_timer_use reserved_use) t
                      (law.sets_expired_timer_use reserved_use))
                    (λ t.
                      let started = start_over-Ran r (record t {
                        timer_use_expiration_flags =
                            bit_and t.timer_use_expiration_flags (255 - r.exp_flag_value);
                      }) in
                      record {
                        ends = started.ends;
                        watchdog = started.watchdog;
                        not_log = started.not_log;
                        interrupt = started.interrupt;
                      }))))

  pub record SetDone (r : SetRequest) (a : Action) (s : State B) (m : Answer Unit × State B)
      : Type 0 where
    pub code : m.0.cc ≡ 0
    pub watchdog : view m.1.bus ≡ planned r a (view s.bus)
    pub not_log : m.1.timer_not_log_flags ≡ r.dont_log
    pub interrupt : m.1.timer_pre_timeout_interrupt ≡ r.pre_timeout_interrupt

  pub set_watchdog_timer-SetDone :
      (r : SetRequest) (a : Action) (s : State B)
      → invalid_fields r ≡ false
      → r.pre_timeout_interval ≤ r.initial_countdown / 10
      → ipmi_action_to_wd_action (bit_and r.timeout_action 3) ≡ some a
      → SetDone r a s (set_watchdog_timer peer r s)
  unfolding set_watchdog_timer
  set_watchdog_timer-SetDone r a s valid early e =
      rw (valid, le→ltb (r.initial_countdown / 10) r.pre_timeout_interval early)
        (subst (λ (x : Result (Answer Unit)). SetDone r a s (caught_domain (x, m.1))) (sym ran.ends)
          (record {
            code = refl;
            watchdog = ran.watchdog;
            not_log = ran.not_log;
            interrupt = ran.interrupt;
          }))
    where
      noted : State B
      noted = record s {
        timer_not_log_flags = r.dont_log;
        timer_pre_timeout_interrupt = r.pre_timeout_interrupt;
      }

      m : Result (Answer Unit) × State B
      m = apply_request peer r noted

      ran : Ran view (returned (only_code 0)) (planned r a (view noted.bus)) noted m
      ran = apply_request-Ran r a noted e
