-- ===== src/Watchdog/Service.antt =====
-- `WatchdogService` of app/watchdog_service.cpp, and the service cache that it uses
-- (`ServiceCache` of libipmid/utils.cpp). The D-Bus is a parameter: a function from its state and a
-- call to the reply and the next state.
use phosphor_host_ipmid.Prelude.{ℕ, Bool, true, false, if◌then◌else◌}

-- The other values stand for what an enumeration of the bus may hold besides the names.
pub data Action : Type 0 where
  no_action : Action
  hard_reset : Action
  power_off : Action
  power_cycle : Action
  other_action : Action

pub data TimerUse : Type 0 where
  reserved_use : TimerUse
  bios_frb2 : TimerUse
  bios_post : TimerUse
  os_load : TimerUse
  sms_os : TimerUse
  oem : TimerUse
  other_use : TimerUse

pub record Properties : Type 0 where
  pub initialized : Bool
  pub enabled : Bool
  pub expire_action : Action
  pub timer_use : TimerUse
  pub expired_timer_use : TimerUse
  pub interval : ℕ
  pub time_remaining : ℕ

pub data Call : Type 0 where
  find_service : Call
  reset_time_remaining_call : Bool → Call
  get_all : Call
  get_initialized_call : Call
  set_initialized_call : Bool → Call
  set_enabled_call : Bool → Call
  set_expire_action_call : Action → Call
  set_timer_use_call : TimerUse → Call
  set_expired_timer_use_call : TimerUse → Call
  set_interval_call : ℕ → Call

-- A reply that the caller cannot decode is `done` where a value is wanted.
pub data Reply : Type 0 where
  method_error : Reply
  bus_exception : Reply
  done : Reply
  flag_value : Bool → Reply
  all_values : Properties → Reply

abbrev pub Peer : Type 0 → Type 0
Peer B = B → Call → Reply × B

-- A value, or the exception that ends the call.
pub data Result (A : Type 0) : Type 0 where
  returned : A → Result A
  internal_failure : Result A
  domain_error : Result A
  other_exception : Result A

-- The static variables of watchdog.cpp, whether the service's name is cached, and the bus.
-- `reports` counts the error reports that were committed.
pub record State (B : Type 0) : Type 0 where
  pub last_call_successful : Bool
  pub timer_not_log_flags : Bool
  pub timer_use_expiration_flags : ℕ
  pub timer_pre_timeout_interrupt : ℕ
  pub service_valid : Bool
  pub bus : B
  pub reports : ℕ

-- The rest of a function's body, which an exception skips.
abbrev pub and_then :
    {B : Type 0} {A C : Type 0}
    → Result A × State B
    → (A → State B → Result C × State B)
    → Result C × State B
and_then (returned a, s) rest = rest a s
and_then (internal_failure, s) rest = (internal_failure, s)
and_then (domain_error, s) rest = (domain_error, s)
and_then (other_exception, s) rest = (other_exception, s)

-- `elog<InternalFailure>()` in the decoders.
abbrev pub as_done : Reply → Result Unit
as_done reply = returned tt

abbrev pub as_flag : Reply → Result Bool
as_flag (flag_value b) = returned b
as_flag method_error = internal_failure
as_flag bus_exception = internal_failure
as_flag done = internal_failure
as_flag (all_values p) = internal_failure

abbrev pub as_properties : Reply → Result Properties
as_properties (all_values p) = returned p
as_properties method_error = internal_failure
as_properties bus_exception = internal_failure
as_properties done = internal_failure
as_properties (flag_value b) = internal_failure

module _ {B : Type 0} (peer : Peer B) where
  -- What the mapper says of the service; a failure is a `std::runtime_error`.
  abbrev pub found : State B → Reply × B → Result Unit × State B
  found s (done, b) = (returned tt, record s { bus = b; service_valid = true })
  found s (flag_value f, b) = (returned tt, record s { bus = b; service_valid = true })
  found s (all_values p, b) = (returned tt, record s { bus = b; service_valid = true })
  found s (method_error, b) = (other_exception, record s { bus = b; service_valid = false })
  found s (bus_exception, b) = (other_exception, record s { bus = b; service_valid = false })

  unfoldable pub new_method_call : State B → Result Unit × State B
  new_method_call s =
      let looked_up = found s (peer s.bus find_service) in
      if s.service_valid then (returned tt, s) else looked_up

  -- The reply, with the cache emptied on an error of the method; `otherwise` is done then.
  abbrev pub replied :
      {A : Type 0}
      → (Reply → Result A)
      → (State B → Result A × State B)
      → State B
      → Reply × B
      → Result A × State B
  replied decode otherwise s (method_error, b) =
      otherwise (record s { bus = b; service_valid = false })
  replied decode otherwise s (bus_exception, b) = (other_exception, record s { bus = b })
  replied decode otherwise s (done, b) = (decode done, record s { bus = b })
  replied decode otherwise s (flag_value f, b) = (decode (flag_value f), record s { bus = b })
  replied decode otherwise s (all_values p, b) = (decode (all_values p), record s { bus = b })

  unfoldable pub attempt :
      {A : Type 0}
      → Call
      → (Reply → Result A)
      → (State B → Result A × State B)
      → State B
      → Result A × State B
  unfolding new_method_call
  attempt call decode otherwise s =
      and_then (new_method_call s)
        (λ (u : Unit) (t : State B). replied decode otherwise t (peer t.bus call))

  abbrev pub give_up : {A : Type 0} → State B → Result A × State B
  give_up s = (internal_failure, s)

  -- A call with a cached name is tried once more after an error: the name is found anew then, and
  -- the second error is final.
  unfoldable pub perform : {A : Type 0} → Call → (Reply → Result A) → State B → Result A × State B
  unfolding attempt
  perform call decode s =
      if s.service_valid
      then attempt call decode (attempt call decode give_up) s
      else attempt call decode give_up s

  abbrev pub reset_time_remaining : Bool → State B → Result Unit × State B
  reset_time_remaining enable s = perform (reset_time_remaining_call enable) as_done s

  abbrev pub get_properties : State B → Result Properties × State B
  get_properties s = perform get_all as_properties s

  abbrev pub get_initialized : State B → Result Bool × State B
  get_initialized s = perform get_initialized_call as_flag s

  abbrev pub set_initialized : Bool → State B → Result Unit × State B
  set_initialized b s = perform (set_initialized_call b) as_done s

  abbrev pub set_enabled : Bool → State B → Result Unit × State B
  set_enabled b s = perform (set_enabled_call b) as_done s

  abbrev pub set_expire_action : Action → State B → Result Unit × State B
  set_expire_action a s = perform (set_expire_action_call a) as_done s

  abbrev pub set_timer_use : TimerUse → State B → Result Unit × State B
  set_timer_use u s = perform (set_timer_use_call u) as_done s

  abbrev pub set_expired_timer_use : TimerUse → State B → Result Unit × State B
  set_expired_timer_use u s = perform (set_expired_timer_use_call u) as_done s

  abbrev pub set_interval : ℕ → State B → Result Unit × State B
  set_interval i s = perform (set_interval_call i) as_done s
