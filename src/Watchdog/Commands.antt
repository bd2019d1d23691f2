-- ===== src/Watchdog/Commands.antt =====
-- The three commands of app/watchdog.cpp. `htole16` is the identity on a little-endian machine.
pub mod Settled
pub mod Reports
pub mod Lawful
pub mod Planned
pub mod SetGet
use phosphor_host_ipmid.Prelude.{
  ℕ, ◌+◌, ◌-◌, ◌*◌, ◌/◌, ◌%◌, ◌^◌, bit_and, bit_or, Bool, true, false, not, ◌&&◌, ◌||◌, List, [],
  ◌∷◌, Option, none, some, ltb, ◌==◌, if◌then◌else◌,
}
use phosphor_host_ipmid.Codes.{cc_success, cc_invalid_field_request, cc_unspecified_error}
use phosphor_host_ipmid.Watchdog.Service.{
  Action, no_action, hard_reset, power_off, power_cycle, other_action, TimerUse, reserved_use,
  bios_frb2, bios_post, os_load, sms_os, oem, other_use, Properties, Peer, Result, returned,
  internal_failure, domain_error, other_exception, State, and_then, reset_time_remaining,
  get_properties, get_initialized, set_initialized, set_enabled, set_expire_action, set_timer_use,
  set_expired_timer_use, set_interval,
}

unfoldable pub report_error : {B : Type 0} → State B → State B
report_error s =
    if not s.last_call_successful
    then s
    else record s { last_call_successful = false; reports = s.reports + 1 }

-- The completion code, and the fields of the answer where there are some.
pub record Answer (A : Type 0) : Type 0 where
  pub cc : ℕ
  pub fields : Option A

abbrev pub only_code : {A : Type 0} → ℕ → Answer A
only_code cc = record { cc = cc; fields = none }

-- The handlers of the exceptions.
abbrev pub caught : {B : Type 0} {A : Type 0} → Result (Answer A) × State B → Answer A × State B
caught (returned a, s) = (a, s)
caught (internal_failure, s) = (only_code cc_unspecified_error, report_error s)
caught (domain_error, s) = (only_code cc_unspecified_error, s)
caught (other_exception, s) = (only_code cc_unspecified_error, s)

-- Set Watchdog Timer has one more.
abbrev pub caught_domain :
    {B : Type 0} {A : Type 0} → Result (Answer A) × State B → Answer A × State B
caught_domain (returned a, s) = (a, s)
caught_domain (internal_failure, s) = (only_code cc_unspecified_error, report_error s)
caught_domain (domain_error, s) = (only_code cc_invalid_field_request, s)
caught_domain (other_exception, s) = (only_code cc_unspecified_error, s)

-- `none` where the code throws a `std::domain_error`.
abbrev pub ipmi_action_to_wd_action : ℕ → Option Action
ipmi_action_to_wd_action a =
    if a == 0
    then some no_action
    else if a == 1
    then some hard_reset
    else if a == 2
    then some power_off
    else if a == 3
    then some power_cycle
    else none

abbrev pub ipmi_timer_use_to_wd_timer_use : ℕ → TimerUse
ipmi_timer_use_to_wd_timer_use u =
    if u == 0
    then reserved_use
    else if u == 1
    then bios_frb2
    else if u == 2
    then bios_post
    else if u == 3
    then os_load
    else if u == 4
    then sms_os
    else if u == 5
    then oem
    else reserved_use

abbrev pub wd_action_to_ipmi_action : Action → ℕ
wd_action_to_ipmi_action no_action = 0
wd_action_to_ipmi_action hard_reset = 1
wd_action_to_ipmi_action power_off = 2
wd_action_to_ipmi_action power_cycle = 3
wd_action_to_ipmi_action other_action = 0

abbrev pub wd_timer_use_to_ipmi_timer_use : TimerUse → ℕ
wd_timer_use_to_ipmi_timer_use reserved_use = 0
wd_timer_use_to_ipmi_timer_use bios_frb2 = 1
wd_timer_use_to_ipmi_timer_use bios_post = 2
wd_timer_use_to_ipmi_timer_use os_load = 3
wd_timer_use_to_ipmi_timer_use sms_os = 4
wd_timer_use_to_ipmi_timer_use oem = 5
wd_timer_use_to_ipmi_timer_use other_use = 0

-- The arguments of Set Watchdog Timer; `exp_flag_value` is a set of eight bits.
pub record SetRequest : Type 0 where
  pub timer_use : ℕ
  pub reserved : ℕ
  pub dont_stop_timer : Bool
  pub dont_log : Bool
  pub timeout_action : ℕ
  pub reserved1 : ℕ
  pub pre_timeout_interrupt : ℕ
  pub reserved2 : ℕ
  pub pre_timeout_interval : ℕ
  pub exp_flag_value : ℕ
  pub initial_countdown : ℕ

abbrev pub test_bit : ℕ → ℕ → Bool
test_bit flags i = flags / 2 ^ i % 2 == 1

unfoldable pub invalid_fields : SetRequest → Bool
invalid_fields r =
    r.timer_use == 0
    || r.timer_use == 6
    || r.timer_use == 7
    || ltb 3 r.timeout_action
    || r.pre_timeout_interrupt == 4
    || not (bit_or (bit_or r.reserved r.reserved1) r.reserved2 == 0)
    || test_bit r.exp_flag_value 0
    || test_bit r.exp_flag_value 6
    || test_bit r.exp_flag_value 7

-- What Get Watchdog Timer answers, less the fields that are always 0.
pub record Timer : Type 0 where
  pub timer_use : ℕ
  pub started : Bool
  pub dont_log : Bool
  pub action : ℕ
  pub pre_timeout_interrupt : ℕ
  pub pretimeout : ℕ
  pub expire_flags : ℕ
  pub initial_countdown : ℕ
  pub present_countdown : ℕ

-- The expired use that stands for no expiration.
abbrev pub is_reserved : TimerUse → Bool
is_reserved reserved_use = true
is_reserved bios_frb2 = false
is_reserved bios_post = false
is_reserved os_load = false
is_reserved sms_os = false
is_reserved oem = false
is_reserved other_use = false

abbrev pub succeeded : {B : Type 0} → State B → State B
succeeded s = record s { last_call_successful = true }

module _ {B : Type 0} (peer : Peer B) where
  abbrev pub answered_initialized : Bool → State B → Result (Answer Unit) × State B
  answered_initialized initialized s =
      if not initialized
      then (returned (only_code 128), succeeded s)
      else and_then (reset_time_remaining peer true s)
          (λ (u : Unit) (t : State B). (returned (only_code cc_success), succeeded t))

  unfoldable pub reset_watchdog_timer : State B → Answer Unit × State B
  unfolding report_error
  reset_watchdog_timer s = caught (and_then (get_initialized peer s) answered_initialized)

  abbrev pub set_action : Option Action → State B → Result Unit × State B
  set_action none s = (domain_error, s)
  set_action (some a) s = set_expire_action peer a s

  abbrev pub stop_timer : Bool → State B → Result Unit × State B
  stop_timer dont_stop_timer s =
      if not dont_stop_timer then set_enabled peer false s else (returned tt, s)

  -- From the interval on.
  abbrev pub start_over : SetRequest → State B → Result (Answer Unit) × State B
  start_over r s =
      and_then (set_interval peer (r.initial_countdown * 100) s) (λ (u : Unit) (s : State B).
        and_then (reset_time_remaining peer false s) (λ (u : Unit) (s : State B).
          and_then (set_initialized peer true s)
            (λ (u : Unit) (s : State B). (returned (only_code cc_success), succeeded s))))

  abbrev pub apply_request : SetRequest → State B → Result (Answer Unit) × State B
  apply_request r s = and_then (stop_timer r.dont_stop_timer s) (λ (u : Unit) (s : State B).
      and_then (set_action (ipmi_action_to_wd_action (bit_and r.timeout_action 3)) s)
        (λ (u : Unit) (s : State B).
          and_then (set_timer_use peer (ipmi_timer_use_to_wd_timer_use r.timer_use) s)
            (λ (u : Unit) (s : State B).
              and_then (set_expired_timer_use peer reserved_use s) (λ (u : Unit) (s : State B).
                start_over r (record s {
                  timer_use_expiration_flags =
                      bit_and s.timer_use_expiration_flags (255 - r.exp_flag_value);
                })))))

  unfoldable pub set_watchdog_timer : SetRequest → State B → Answer Unit × State B
  unfolding report_error invalid_fields
  set_watchdog_timer r s =
      let noted = caught_domain (
        apply_request r (record s {
          timer_not_log_flags = r.dont_log;
          timer_pre_timeout_interrupt = r.pre_timeout_interrupt;
        })) in
      if invalid_fields r
      then (only_code cc_invalid_field_request, s)
      else if ltb (r.initial_countdown / 10) r.pre_timeout_interval
      then (only_code cc_invalid_field_request, s)
      else noted

  -- An expiration is noted in the flags.
  unfoldable pub note_expired : TimerUse → State B → State B
  note_expired u s = if is_reserved u then s else record s {
    timer_use_expiration_flags =
        bit_or s.timer_use_expiration_flags (2 ^ wd_timer_use_to_ipmi_timer_use u);
  }

  abbrev pub present_countdown_of : Properties → ℕ
  present_countdown_of p =
      if p.enabled
      then p.time_remaining / 100 % 65536
      else (if is_reserved p.expired_timer_use then p.interval / 100 % 65536 else 0)

  -- The flag is cleared when a timer expiration is seen.
  unfoldable pub clear_not_log : Properties → State B → State B
  clear_not_log p s =
      if p.enabled || is_reserved p.expired_timer_use
      then s
      else record s { timer_not_log_flags = false }

  abbrev pub answer_timer : Properties → State B → Result (Answer Timer) × State B
  answer_timer p s =
      let t = succeeded (clear_not_log p (note_expired p.expired_timer_use s)) in
      (
        returned (record {
          cc = cc_success;
          fields = some (record {
            timer_use = wd_timer_use_to_ipmi_timer_use p.timer_use;
            started = p.enabled;
            dont_log = t.timer_not_log_flags;
            action = wd_action_to_ipmi_action p.expire_action;
            pre_timeout_interrupt = t.timer_pre_timeout_interrupt;
            pretimeout = 0;
            expire_flags = t.timer_use_expiration_flags;
            initial_countdown = p.interval / 100 % 65536;
            present_countdown = present_countdown_of p;
          });
        }),
        t,
      )

  unfoldable pub get_watchdog_timer : State B → Answer Timer × State B
  unfolding report_error note_expired clear_not_log
  get_watchdog_timer s = caught (and_then (get_properties peer s) answer_timer)
