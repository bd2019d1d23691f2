-- ===== src/Watchdog/Commands/Reports.antt =====
-- The error reports of app/watchdog.cpp (`reportError`): none is repeated while the watchdog
-- daemon stays away.
use phosphor_host_ipmid.Watchdog.Service.{
  set_enabled_call, set_expire_action_call, set_interval_call, set_initialized_call,
  set_timer_use_call, set_expired_timer_use_call, get_initialized_call, as_flag, as_done,
  as_properties, get_all, reset_time_remaining_call, Action, TimerUse, Properties, Peer, Result,
  returned, State, and_then, get_properties, get_initialized, reset_time_remaining, set_interval,
  set_initialized, set_timer_use, set_expired_timer_use, reserved_use,
}
use phosphor_host_ipmid.Prelude.{
  ◌*◌, ◌-◌, ap, ap₂, ◌||◌, ◌^◌, bit_or, if-both, ℕ, ◌+◌, ◌/◌, ◌≤◌, ◌≡◌, refl, Bool, true, false,
  not, List, [], ◌∷◌, Option, none, some, arith, ltb, ◌==◌, if◌then◌else◌, bit_and,
}
use phosphor_host_ipmid.Watchdog.Commands.{
  only_code, is_reserved, wd_timer_use_to_ipmi_timer_use, Answer, report_error, caught,
  caught_domain, reset_watchdog_timer, answered_initialized, SetRequest, invalid_fields,
  set_watchdog_timer, apply_request, start_over, stop_timer, set_action, ipmi_action_to_wd_action,
  ipmi_timer_use_to_wd_timer_use, get_watchdog_timer, answer_timer, note_expired, clear_not_log,
  succeeded,
}
use phosphor_host_ipmid.Watchdog.Commands.Settled.{
  Same, Same-trans, Settled, settled_answer, settled_failure, settled_domain, settled_other,
  perform-Same, Settled-later, and_then-Settled,
}

abbrev pub credit : {B : Type 0} → State B → ℕ
credit s = if s.last_call_successful then 1 else 0

-- 1 for a command that is answered by another code than the unspecified error.
abbrev pub heard : {A : Type 0} → Answer A → ℕ
heard a = if a.cc == 255 then 0 else 1

-- A report costs a credit, which only an answer gives.
abbrev pub Paid : {B : Type 0} {A : Type 0} → State B → Answer A × State B → Type 0
Paid s (a, t) = t.reports + credit t ≤ s.reports + credit s + heard a

module _ {B : Type 0} where
  report_error-pays :
      (s t : State B)
      → Same s t
      → (report_error t).reports + credit (report_error t) ≤ s.reports + credit s
  unfolding report_error
  report_error-pays s t h = rw⁻¹ (h.same_reports, h.same_last) (go t.last_call_successful refl)
    where
      go :
          (l : Bool)
          → t.last_call_successful ≡ l
          → let u =
              if not l
              then t
              else record t { last_call_successful = false; reports = t.reports + 1 } in
            u.reports + credit u ≤ t.reports + (if l then 1 else 0)
      go true e = omega arith
      go false e = omega (arith, ap {B = ℕ} (λ (b : Bool). if b then 1 else 0) e)

  Same-worth : (s t : State B) → Same s t → t.reports + credit t ≡ s.reports + credit s
  Same-worth s t h = ap₂ (λ (n : ℕ) (b : Bool). n + (if b then 1 else 0)) h.same_reports h.same_last

  credit-le-one : (s : State B) → credit s ≤ 1
  credit-le-one s =
      if-both (λ (n : ℕ). n ≤ 1) s.last_call_successful 1 0 (omega arith) (omega arith)

  module _ {A : Type 0} where
    answer-Paid :
        (s t : State B) (a : Answer A)
        → (a.cc == 255) ≡ false
        → t.reports ≡ s.reports
        → Paid s (a, t)
    answer-Paid s t a c e =
        omega (arith, credit-le-one t, e, ap {B = ℕ} (λ (b : Bool). if b then 0 else 1) c)

    caught-Paid : (s : State B) (r : Result (Answer A) × State B) → Settled s r → Paid s (caught r)
    caught-Paid s _ (settled_answer a t c e) = answer-Paid s t a c e
    caught-Paid s _ (settled_failure t h) = omega (arith, report_error-pays s t h)
    caught-Paid s _ (settled_domain t h) = omega (arith, Same-worth s t h)
    caught-Paid s _ (settled_other t h) = omega (arith, Same-worth s t h)

    caught_domain-Paid :
        (s : State B) (r : Result (Answer A) × State B) → Settled s r → Paid s (caught_domain r)
    caught_domain-Paid s _ (settled_answer a t c e) = answer-Paid s t a c e
    caught_domain-Paid s _ (settled_failure t h) = omega (arith, report_error-pays s t h)
    caught_domain-Paid s _ (settled_domain t h) = omega (arith, Same-worth s t h)
    caught_domain-Paid s _ (settled_other t h) = omega (arith, Same-worth s t h)

module _ {B : Type 0} (peer : Peer B) where
  reset_watchdog_timer-Paid : (s : State B) → Paid s (reset_watchdog_timer peer s)
  unfolding reset_watchdog_timer
  reset_watchdog_timer-Paid s =
      caught-Paid s (and_then (get_initialized peer s) (answered_initialized peer)) (
        and_then-Settled s (get_initialized peer s) (answered_initialized peer)
          (perform-Same peer get_initialized_call as_flag s) settle)
    where
      settle : (b : Bool) (t : State B) → Settled t (answered_initialized peer b t)
      settle false t = settled_answer (only_code 128) (succeeded t) refl refl
      settle true t =
          and_then-Settled t (reset_time_remaining peer true t)
            (λ (u : Unit) (t : State B). (returned (only_code 0), succeeded t))
            (perform-Same peer (reset_time_remaining_call true) as_done t)
            (λ u v. settled_answer (only_code 0) (succeeded v) refl refl)

  clear_not_log-Same : (p : Properties) (s : State B) → Same s (clear_not_log peer p s)
  unfolding clear_not_log
  clear_not_log-Same p s =
      if-both (Same s) (p.enabled || is_reserved p.expired_timer_use) s
        (record s { timer_not_log_flags = false })
        (record { same_reports = refl; same_last = refl })
        (record { same_reports = refl; same_last = refl })

  note_expired-Same : (u : TimerUse) (s : State B) → Same s (note_expired peer u s)
  unfolding note_expired
  note_expired-Same u s =
      if-both (Same s) (is_reserved u) s
        (record s {
          timer_use_expiration_flags =
              bit_or s.timer_use_expiration_flags (2 ^ wd_timer_use_to_ipmi_timer_use u);
        })
        (record { same_reports = refl; same_last = refl })
        (record { same_reports = refl; same_last = refl })

  get_watchdog_timer-Paid : (s : State B) → Paid s (get_watchdog_timer peer s)
  unfolding get_watchdog_timer
  get_watchdog_timer-Paid s = caught-Paid s (and_then (get_properties peer s) (answer_timer peer)) (
      and_then-Settled s (get_properties peer s) (answer_timer peer)
        (perform-Same peer get_all as_properties s)
        (λ p t.
          settled_answer (record { cc = _; fields = _ }) _ refl
            (Same-trans (note_expired-Same p.expired_timer_use t)
              (clear_not_log-Same p (note_expired peer p.expired_timer_use t))).same_reports))

  stop_timer-Same : (b : Bool) (s : State B) → Same s (stop_timer peer b s).1
  stop_timer-Same true s = record { same_reports = refl; same_last = refl }
  stop_timer-Same false s = perform-Same peer (set_enabled_call false) as_done s

  set_action-Same : (o : Option Action) (s : State B) → Same s (set_action peer o s).1
  set_action-Same none s = record { same_reports = refl; same_last = refl }
  set_action-Same (some a) s = perform-Same peer (set_expire_action_call a) as_done s

  start_over-Settled : (r : SetRequest) (s : State B) → Settled s (start_over peer r s)
  start_over-Settled r s =
      and_then-Settled s (set_interval peer (r.initial_countdown * 100) s) _
        (perform-Same peer (set_interval_call (r.initial_countdown * 100)) as_done s)
        (λ u t.
          and_then-Settled t (reset_time_remaining peer false t) _
            (perform-Same peer (reset_time_remaining_call false) as_done t)
            (λ u t.
              and_then-Settled t (set_initialized peer true t) _
                (perform-Same peer (set_initialized_call true) as_done t)
                (λ u t. settled_answer (only_code 0) (succeeded t) refl refl)))

  apply_request-Settled : (r : SetRequest) (s : State B) → Settled s (apply_request peer r s)
  apply_request-Settled r s =
      and_then-Settled s (stop_timer peer r.dont_stop_timer s) _
        (stop_timer-Same r.dont_stop_timer s)
        (λ u t.
          let action = ipmi_action_to_wd_action (bit_and r.timeout_action 3) in
          and_then-Settled t (set_action peer action t) _ (set_action-Same action t) (λ u t.
            let wanted = ipmi_timer_use_to_wd_timer_use r.timer_use in
            and_then-Settled t (set_timer_use peer wanted t) _
              (perform-Same peer (set_timer_use_call wanted) as_done t)
              (λ u t.
                and_then-Settled t (set_expired_timer_use peer reserved_use t) _
                  (perform-Same peer (set_expired_timer_use_call reserved_use) as_done t)
                  (λ u t.
                    Settled-later (record { same_reports = refl; same_last = refl })
                      (start_over-Settled r (record t {
                        timer_use_expiration_flags =
                            bit_and t.timer_use_expiration_flags (255 - r.exp_flag_value);
                      }))))))

  set_watchdog_timer-Paid : (r : SetRequest) (s : State B) → Paid s (set_watchdog_timer peer r s)
  unfolding set_watchdog_timer
  set_watchdog_timer-Paid r s =
      let rejected : Answer Unit × State B = (only_code 204, s) in
      let noted = record s {
        timer_not_log_flags = r.dont_log;
        timer_pre_timeout_interrupt = r.pre_timeout_interrupt;
      } in
      let result = caught_domain (apply_request peer r noted) in
      if-both (Paid s) (invalid_fields r) rejected _ (omega arith) (
        if-both (Paid s) (ltb (r.initial_countdown / 10) r.pre_timeout_interval) rejected result
          (omega arith)
          (caught_domain-Paid s (apply_request peer r noted) (
            Settled-later (record { same_reports = refl; same_last = refl })
              (apply_request-Settled r noted))))

-- A command of the host, and what it does to the daemon and to the count of answers.
pub data Command : Type 0 where
  reset_watchdog_timer_command : Command
  set_watchdog_timer_command : SetRequest → Command
  get_watchdog_timer_command : Command

abbrev pub counted : {B : Type 0} {A : Type 0} → Answer A × State B → ℕ × State B
counted (a, s) = (heard a, s)

abbrev pub step : {B : Type 0} → Peer B → Command → State B → ℕ × State B
step peer reset_watchdog_timer_command s = counted (reset_watchdog_timer peer s)
step peer (set_watchdog_timer_command r) s = counted (set_watchdog_timer peer r s)
step peer get_watchdog_timer_command s = counted (get_watchdog_timer peer s)

-- A sequence of commands: how many are answered by a code other than FFh, and the last state.
abbrev pub run : {B : Type 0} → Peer B → List Command → State B → ℕ × State B
run peer [] s = (0, s)
run peer (c ∷ cs) s = let (n, t) = step peer c s in let (m, u) = run peer cs t in (n + m, u)

step-pays :
    {B : Type 0} (peer : Peer B) (c : Command) (s : State B)
    → let (n, t) = step peer c s in t.reports + credit t ≤ s.reports + credit s + n
step-pays peer reset_watchdog_timer_command s = reset_watchdog_timer-Paid peer s
step-pays peer (set_watchdog_timer_command r) s = set_watchdog_timer-Paid peer r s
step-pays peer get_watchdog_timer_command s = get_watchdog_timer-Paid peer s

-- Whatever the D-Bus does, a sequence of commands commits at most one error report for every
-- command that was answered by another completion code than the unspecified error FFh, and one
-- more if the call before the sequence was successful. So while the watchdog daemon stays away, its
-- absence is reported once at most.
pub run-reports :
    {B : Type 0} (peer : Peer B) (cs : List Command) (s : State B)
    → (run peer cs s).1.reports + credit (run peer cs s).1
      ≤ s.reports + credit s + (run peer cs s).0
run-reports peer [] s = omega arith
run-reports peer (c ∷ cs) s =
    omega (arith, step-pays peer c s, run-reports peer cs (step peer c s).1)
