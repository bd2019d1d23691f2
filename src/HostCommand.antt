-- ===== src/HostCommand.antt =====
-- host-cmd-manager.cpp: the queue of commands for the host, the attention signal and the timer.
-- A command is its data and its callback; a callback sends a signal on the D-Bus and is noted here
-- as called. The timer of the event loop and the D-Bus are outside: whether the timer starts and
-- whether the attention signal is delivered is given for each step.
pub mod Order
pub mod Attention
use phosphor_host_ipmid.Prelude.{
  ℕ, zero, suc, Bool, true, false, List, [], ◌∷◌, ◌++◌, leb, ◌==◌, if◌then◌else◌, length,
}

-- The IPMI command and its data.
abbrev pub IpmiCmdData : Type 0
IpmiCmdData = ℕ × ℕ

pub record CommandHandler : Type 0 where
  pub ipmi_cmd_data : IpmiCmdData
  pub call_back : ℕ

pub data Signal : Type 0 where
  set_attention : Signal
  clear_attention : Signal

-- A call of a callback, with the command's data and whether it succeeded.
pub record Called : Type 0 where
  pub call_back : ℕ
  pub ipmi_cmd_data : IpmiCmdData
  pub success : Bool

-- `calls` and `signals` are what was called and delivered, in order.
pub record Manager : Type 0 where
  pub work_queue : List CommandHandler
  pub timer_running : Bool
  pub calls : List Called
  pub signals : List Signal

-- What the outside does in a step.
pub record Outside : Type 0 where
  pub timer_starts : Bool
  pub delivered : Bool

-- How a step ends: with a value, or with an exception, since the signal was not delivered.
pub data Result (A : Type 0) : Type 0 where
  returned : A → Result A
  internal_failure : Result A

abbrev pub cmd_heartbeat : ℕ
cmd_heartbeat = 255

abbrev pub initial : Manager
initial = record { work_queue = []; timer_running = false; calls = []; signals = [] }

unfoldable pub send_attention : Outside → Signal → Manager → Result Unit × Manager
send_attention o signal m =
    if o.delivered
    then (returned tt, record m { signals = m.signals ++ signal ∷ [] })
    else (internal_failure, m)

unfoldable pub check_queue_and_alert_host : Outside → Manager → Result Unit × Manager
unfolding send_attention
check_queue_and_alert_host o m =
    if leb 1 (length m.work_queue)
    then (if o.timer_starts
        then send_attention o set_attention (record m { timer_running = true })
        else (returned tt, m))
    else send_attention o clear_attention m

abbrev pub called : CommandHandler → Bool → Called
called c success = record {
  call_back = c.call_back;
  ipmi_cmd_data = c.ipmi_cmd_data;
  success = success;
}

abbrev pub with_data : {A : Type 0} → A → Result Unit × Manager → Result A × Manager
with_data a (returned u, m) = (returned a, m)
with_data a (internal_failure, m) = (internal_failure, m)

abbrev pub next_of : Outside → List CommandHandler → Manager → Result IpmiCmdData × Manager
next_of o [] m = (returned (cmd_heartbeat, 0), m)
next_of o (c ∷ queue) m = with_data c.ipmi_cmd_data (
    check_queue_and_alert_host o
      (record m { work_queue = queue; calls = m.calls ++ called c true ∷ [] }))

unfoldable pub get_next_command : Outside → Manager → Result IpmiCmdData × Manager
unfolding check_queue_and_alert_host
get_next_command o m = next_of o m.work_queue (record m { timer_running = false })

-- The loop of `clearQueue`, over the queue.
unfoldable pub fail_all : List CommandHandler → Manager → Manager
fail_all [] m = m
fail_all (c ∷ queue) m =
    fail_all queue (record m { work_queue = queue; calls = m.calls ++ called c false ∷ [] })

unfoldable pub clear_queue : Outside → Manager → Result Unit × Manager
unfolding fail_all send_attention
clear_queue o m = send_attention o clear_attention (fail_all m.work_queue m)

-- The timer has expired, so it does not run any more.
unfoldable pub host_timeout : Outside → Manager → Result Unit × Manager
unfolding clear_queue
host_timeout o m = clear_queue o (record m { timer_running = false })

unfoldable pub execute : Outside → CommandHandler → Manager → Result Unit × Manager
unfolding check_queue_and_alert_host
execute o c m =
    let queued = record m { work_queue = m.work_queue ++ c ∷ [] } in
    if length queued.work_queue == 1
    then check_queue_and_alert_host o queued
    else (returned tt, queued)

-- The properties that changed on the host's state: whether they name a requested transition, and
-- which.
pub data Transition : Type 0 where
  not_requested : Transition
  requested_on : Transition
  requested_other : Transition

unfoldable pub clear_queue_on_power_on : Outside → Transition → Manager → Result Unit × Manager
unfolding clear_queue
clear_queue_on_power_on o not_requested m = (returned tt, m)
clear_queue_on_power_on o requested_on m = clear_queue o m
clear_queue_on_power_on o requested_other m = (returned tt, m)
