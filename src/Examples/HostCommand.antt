-- ===== src/Examples/HostCommand.antt =====
-- A sequence of calls of the host command manager of host-cmd-manager.cpp.
use phosphor_host_ipmid.HostCommand.Attention.{
  good, Alerted, in_good_times, execute_all, commands, run-Alerted, execute_all-waiting,
}
use phosphor_host_ipmid.Prelude.{◌≡◌, refl, false, List, [], ◌∷◌, ◌++◌}
use phosphor_host_ipmid.HostCommand.{CommandHandler, Outside, initial}
use phosphor_host_ipmid.HostCommand.Order.{
  Step, execute_step, get_next_command_step, host_timeout_step, run, history, all_queued,
  run-history,
}

abbrev power_off : CommandHandler
power_off = record { ipmi_cmd_data = (1, 0); call_back = 7 }

abbrev heartbeat : CommandHandler
heartbeat = record { ipmi_cmd_data = (255, 0); call_back = 8 }

abbrev broken : Outside
broken = record { timer_starts = false; delivered = false }

abbrev steps : List (Outside × Step)
steps =
    (broken, execute_step power_off)
    ∷ (broken, execute_step heartbeat)
    ∷ (broken, get_next_command_step)
    ∷ (broken, host_timeout_step)
    ∷ []

run-history_example : history (run steps initial) ≡ history initial ++ all_queued steps
run-history_example = run-history steps initial

none_waits : Alerted initial
none_waits = λ some. absurd (some refl)

run-Alerted_example : Alerted (
    run
      (in_good_times (execute_step power_off ∷ execute_step heartbeat ∷ get_next_command_step ∷ []))
      initial)
run-Alerted_example =
    run-Alerted (execute_step power_off ∷ execute_step heartbeat ∷ get_next_command_step ∷ [])
      initial none_waits

-- The first command comes when the timer does not start, the second when it would.
execute_all-waiting_example :
    execute_all ((broken, power_off) ∷ (good, heartbeat) ∷ []) initial
    ≡ record initial { work_queue = power_off ∷ commands ((good, heartbeat) ∷ []) }
execute_all-waiting_example =
    execute_all-waiting broken power_off ((good, heartbeat) ∷ []) initial refl refl
