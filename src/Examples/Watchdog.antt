-- ===== src/Examples/Watchdog.antt =====
-- A sequence of watchdog commands of app/watchdog.cpp while the bus has no watchdog.
use phosphor_host_ipmid.Prelude.{arith, ◌≡◌, refl, ℕ, ◌+◌, ◌≤◌, true, false, List, [], ◌∷◌}
use phosphor_host_ipmid.Watchdog.Commands.SetGet.{Shows, set_watchdog_timer-get_watchdog_timer}
use phosphor_host_ipmid.Watchdog.Commands.Lawful.{
  Lawful, with_initialized, with_enabled, with_expire_action, with_timer_use,
  with_expired_timer_use, with_interval, with_reset,
}
use phosphor_host_ipmid.Watchdog.Commands.{
  SetRequest, invalid_fields, set_watchdog_timer, get_watchdog_timer,
}
use phosphor_host_ipmid.Watchdog.Service.{
  Properties, hard_reset, bios_post, flag_value, all_values, reset_time_remaining_call, get_all,
  get_initialized_call, set_initialized_call, set_enabled_call, set_expire_action_call,
  set_timer_use_call, set_expired_timer_use_call, set_interval_call, Peer, State, method_error,
  done, find_service,
}
use phosphor_host_ipmid.Watchdog.Commands.Reports.{
  Command, reset_watchdog_timer_command, get_watchdog_timer_command, run, credit, run-reports,
}

-- The mapper knows the service, and every call of it is an error.
abbrev absent_watchdog : Peer ℕ
absent_watchdog n find_service = (done, n)
absent_watchdog n call = (method_error, n + 1)

abbrev ticking : State ℕ
ticking = record {
  last_call_successful = true;
  timer_not_log_flags = false;
  timer_use_expiration_flags = 0;
  timer_pre_timeout_interrupt = 0;
  service_valid = true;
  bus = 0;
  reports = 0;
}

abbrev commands : List Command
commands =
    reset_watchdog_timer_command ∷ reset_watchdog_timer_command ∷ get_watchdog_timer_command ∷ []

run-reports_example :
    (run absent_watchdog commands ticking).1.reports
      + credit (run absent_watchdog commands ticking).1
    ≤ 0 + 1 + (run absent_watchdog commands ticking).0
run-reports_example = run-reports absent_watchdog commands ticking

-- A watchdog that stores what it is told.
abbrev obedient : Peer Properties
obedient p find_service = (done, p)
obedient p (reset_time_remaining_call v) = (done, with_reset v p)
obedient p get_all = (all_values p, p)
obedient p get_initialized_call = (flag_value p.initialized, p)
obedient p (set_initialized_call v) = (done, with_initialized v p)
obedient p (set_enabled_call v) = (done, with_enabled v p)
obedient p (set_expire_action_call v) = (done, with_expire_action v p)
obedient p (set_timer_use_call v) = (done, with_timer_use v p)
obedient p (set_expired_timer_use_call v) = (done, with_expired_timer_use v p)
obedient p (set_interval_call v) = (done, with_interval v p)

obedient-Lawful : Lawful obedient (λ (p : Properties). p)
obedient-Lawful = record {
  finds = λ b. (refl, refl);
  sets_initialized = λ v b. (refl, refl);
  sets_enabled = λ v b. (refl, refl);
  sets_expire_action = λ v b. (refl, refl);
  sets_timer_use = λ v b. (refl, refl);
  sets_expired_timer_use = λ v b. (refl, refl);
  sets_interval = λ v b. (refl, refl);
  resets = λ v b. (refl, refl);
  tells_all = λ b. (refl, refl);
}

abbrev expired : Properties
expired = record {
  initialized = true;
  enabled = true;
  expire_action = hard_reset;
  timer_use = bios_post;
  expired_timer_use = bios_post;
  interval = 30000;
  time_remaining = 0;
}

abbrev daemon_state : State Properties
daemon_state = record {
  last_call_successful = false;
  timer_not_log_flags = false;
  timer_use_expiration_flags = 4;
  timer_pre_timeout_interrupt = 0;
  service_valid = false;
  bus = expired;
  reports = 0;
}

-- SMS/OS use, power cycle, a minute.
abbrev set_request : SetRequest
set_request = record {
  timer_use = 4;
  reserved = 0;
  dont_stop_timer = false;
  dont_log = true;
  timeout_action = 3;
  reserved1 = 0;
  pre_timeout_interrupt = 1;
  reserved2 = 0;
  pre_timeout_interval = 5;
  exp_flag_value = 16;
  initial_countdown = 600;
}

request-valid : invalid_fields set_request ≡ false
unfolding invalid_fields
request-valid = refl

set_watchdog_timer-get_watchdog_timer_example :
    ((set_watchdog_timer obedient set_request daemon_state).0.cc ≡ 0)
    × Shows set_request false
        (get_watchdog_timer obedient (set_watchdog_timer obedient set_request daemon_state).1).0
set_watchdog_timer-get_watchdog_timer_example =
    set_watchdog_timer-get_watchdog_timer obedient (λ (p : Properties). p) set_request daemon_state
      obedient-Lawful (omega arith) (omega arith) request-valid (omega arith)
