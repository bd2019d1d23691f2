-- ===== src/Watchdog/Commands/SetGet.antt =====
-- Set Watchdog Timer, then Get Watchdog Timer (app/watchdog.cpp).
use phosphor_host_ipmid.Watchdog.Commands.{
  is_reserved, Answer, caught, SetRequest, invalid_fields, set_watchdog_timer,
  ipmi_timer_use_to_wd_timer_use, wd_action_to_ipmi_action, wd_timer_use_to_ipmi_timer_use, Timer,
  get_watchdog_timer, answer_timer, note_expired, clear_not_log,
}
use phosphor_host_ipmid.Prelude.{
  ℕ, ◌*◌, ◌/◌, ◌%◌, ◌≤◌, ◌<◌, ◌≡◌, refl, sym, ap, ◌∙◌, Bool, true, false, ◌||◌, some, if◌then◌else◌,
  arith,
}
use mathlib.Core.Path.{subst}
use phosphor_host_ipmid.Watchdog.Service.{
  Action, Properties, Peer, Result, returned, State, and_then, get_properties,
}
use phosphor_host_ipmid.Watchdog.Commands.Lawful.{Lawful, get_all-Ran}
use phosphor_host_ipmid.Watchdog.Commands.Planned.{
  accepted, use_again, action_of, stopped, planned, set_watchdog_timer-SetDone,
}

-- What Get Watchdog Timer answers after the request, the timer started or not.
pub record Shows (r : SetRequest) (started : Bool) (b : Answer Timer) : Type 0 where
  pub timer : Timer
  pub is : b.fields ≡ some timer
  pub code : b.cc ≡ 0
  pub timer_use : timer.timer_use ≡ r.timer_use
  pub is_started : timer.started ≡ started
  pub dont_log : timer.dont_log ≡ r.dont_log
  pub action : timer.action ≡ r.timeout_action
  pub pre_timeout_interrupt : timer.pre_timeout_interrupt ≡ r.pre_timeout_interrupt
  pub initial_countdown : timer.initial_countdown ≡ r.initial_countdown
  pub present_countdown : timer.present_countdown ≡ r.initial_countdown

stopped-enabled :
    (dont_stop_timer : Bool) (p : Properties)
    → (stopped dont_stop_timer p).enabled ≡ (if dont_stop_timer then p.enabled else false)
stopped-enabled true p = refl
stopped-enabled false p = refl

or_true : {A : Type 0} (b : Bool) (x y : A) → (if b || true then x else y) ≡ x
or_true true x y = refl
or_true false x y = refl

either_countdown : (b : Bool) (n : ℕ) → (if b then n else n) ≡ n
either_countdown true n = refl
either_countdown false n = refl

deciseconds : (c : ℕ) → c < 65536 → c * 100 / 100 % 65536 ≡ c
deciseconds c h = omega arith

kept_flag :
    {B : Type 0} (peer : Peer B) (p : Properties) (q : State B)
    → is_reserved p.expired_timer_use ≡ true
    → clear_not_log peer p (note_expired peer p.expired_timer_use q) ≡ q
unfolding clear_not_log note_expired
kept_flag peer p q e = rw e (or_true p.enabled q (record q { timer_not_log_flags = false }))

answer_timer-Shows :
    {B : Type 0} (peer : Peer B) (r : SetRequest) (a : Action) (p : Properties) (q : State B)
    → wd_action_to_ipmi_action a ≡ r.timeout_action
    → wd_timer_use_to_ipmi_timer_use (ipmi_timer_use_to_wd_timer_use r.timer_use) ≡ r.timer_use
    → r.initial_countdown < 65536
    → q.timer_not_log_flags ≡ r.dont_log
    → q.timer_pre_timeout_interrupt ≡ r.pre_timeout_interrupt
    → Shows r
        (if r.dont_stop_timer then p.enabled else false)
        (caught (answer_timer peer (planned r a p) q)).0
answer_timer-Shows peer r a p q action_again use_same fits log interrupt =
    let after = planned r a p in
    let kept = kept_flag peer after q refl in
    record {
      timer = _;
      is = refl;
      code = refl;
      timer_use = use_same;
      is_started = stopped-enabled r.dont_stop_timer p;
      dont_log = ap (λ (t : State _). t.timer_not_log_flags) kept ∙ log;
      action = action_again;
      pre_timeout_interrupt = ap (λ (t : State _). t.timer_pre_timeout_interrupt) kept ∙ interrupt;
      initial_countdown = deciseconds r.initial_countdown fits;
      present_countdown =
          either_countdown after.enabled (r.initial_countdown * 100 / 100 % 65536)
          ∙ deciseconds r.initial_countdown fits;
    }

-- Over a watchdog that behaves as documented, a Set Watchdog Timer whose fields are valid and whose
-- pre-timeout interval is at most a tenth of the countdown succeeds, and a Get Watchdog Timer after
-- it succeeds and answers its timer use, action, don't-log flag, pre-timeout interrupt and initial
-- countdown, with all of the countdown left. The timer is stopped, or as it was if it is not to be
-- stopped.
pub set_watchdog_timer-get_watchdog_timer :
    {B : Type 0} (peer : Peer B) (view : B → Properties) (r : SetRequest) (s : State B)
    → Lawful peer view
    → r.timer_use < 8
    → r.initial_countdown < 65536
    → invalid_fields r ≡ false
    → r.pre_timeout_interval ≤ r.initial_countdown / 10
    → let m = set_watchdog_timer peer r s in
      (m.0.cc ≡ 0)
      × Shows r
          (if r.dont_stop_timer then (view s.bus).enabled else false)
          (get_watchdog_timer peer m.1).0
unfolding get_watchdog_timer
set_watchdog_timer-get_watchdog_timer peer view r s law use_fits fits valid early =
    let fields = accepted r valid in
    let action = action_of r.timeout_action fields.action in
    let use_same = use_again r.timer_use use_fits fields.not_0 fields.not_6 fields.not_7 in
    let set = set_watchdog_timer-SetDone peer view law r action.wanted s valid early action.is in
    let t = (set_watchdog_timer peer r s).1 in
    let ran = get_all-Ran peer view law t in
    let u = (get_properties peer t).1 in
    (
      set.code,
      subst
          (λ (x : Result Properties).
            Shows r (if r.dont_stop_timer then (view s.bus).enabled else false)
              (caught (and_then (x, u) (answer_timer peer))).0)
          (sym (ran.ends ∙ ap returned set.watchdog))
          (answer_timer-Shows peer r action.wanted (view s.bus) u action.again use_same fits
            (ran.not_log ∙ set.not_log) (ran.interrupt ∙ set.interrupt)),
    )
