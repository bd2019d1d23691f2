-- ===== src/HostCommand/Attention.antt =====
-- The attention signal of host-cmd-manager.cpp.
use phosphor_host_ipmid.Prelude.{
  append_assoc, append-nil, ℕ, suc, ◌≤◌, ◌≡◌, ◌≢◌, refl, sym, ap, ◌∙◌, Bool, true, false, List, [],
  ◌∷◌, ◌++◌, leb, ◌==◌, if◌then◌else◌, length, arith, length-append, ne→==,
}
use phosphor_host_ipmid.HostCommand.{
  not_requested, requested_on, requested_other, CommandHandler, Manager, Outside, Signal, Result,
  returned, set_attention, clear_attention, called, next_of, send_attention,
  check_queue_and_alert_host, get_next_command, fail_all, clear_queue, host_timeout, execute,
  clear_queue_on_power_on,
}
use phosphor_host_ipmid.HostCommand.Order.{
  with_data-manager, check-SameWork, Step, execute_step, get_next_command_step, host_timeout_step,
  host_state_step, step, run,
}
use mathlib.Core.Path.{subst}

-- The timer starts and the signals are delivered.
abbrev pub good : Outside
good = record { timer_starts = true; delivered = true }

-- The signal delivered last.
abbrev pub last_of : List Signal → Signal
last_of [] = clear_attention
last_of (s ∷ []) = s
last_of (s ∷ (t ∷ ts)) = last_of (t ∷ ts)

-- While commands wait, the host is told so and the timer runs.
abbrev pub Alerted : Manager → Type 0
Alerted m = m.work_queue ≢ [] → (m.timer_running ≡ true) × (last_of m.signals ≡ set_attention)

last_of-append : (ss : List Signal) (s : Signal) → last_of (ss ++ s ∷ []) ≡ s
last_of-append [] s = refl
last_of-append (t ∷ []) s = refl
last_of-append (t ∷ (u ∷ us)) s = last_of-append (u ∷ us) s

one-le-suc : (n : ℕ) → leb 1 (suc n) ≡ true
one-le-suc n = ground arith

check-Alerted :
    (c : CommandHandler) (q : List CommandHandler) (m : Manager)
    → Alerted (check_queue_and_alert_host good (record m { work_queue = c ∷ q })).1
unfolding check_queue_and_alert_host send_attention
check-Alerted c q m =
    rw (one-le-suc (length q)) (λ some. (refl, last_of-append m.signals set_attention))

no_commands : (m : Manager) → m.work_queue ≡ [] → Alerted m
no_commands m e some = absurd (some e)

next_of-Alerted :
    (q : List CommandHandler) (m : Manager) → m.work_queue ≡ q → Alerted (next_of good q m).1
next_of-Alerted [] m e = no_commands m e
next_of-Alerted (c ∷ q) m e =
    let popped = record m { work_queue = q; calls = m.calls ++ called c true ∷ [] } in
    subst Alerted (sym (with_data-manager c.ipmi_cmd_data (check_queue_and_alert_host good popped)))
      (left q (record m { calls = m.calls ++ called c true ∷ [] }))
  where
    left :
        (q : List CommandHandler) (n : Manager)
        → Alerted (check_queue_and_alert_host good (record n { work_queue = q })).1
    left [] n =
        no_commands (check_queue_and_alert_host good (record n { work_queue = [] })).1
          (check-SameWork good (record n { work_queue = [] })).same_queue
    left (d ∷ q) n = check-Alerted d q n

some-length : (q : List CommandHandler) → q ≢ [] → 1 ≤ length q
some-length [] some = absurd (some refl)
some-length (c ∷ q) some = omega arith

-- A command that comes while others wait is only queued.
execute-waiting :
    (o : Outside) (c : CommandHandler) (m : Manager)
    → m.work_queue ≢ []
    → execute o c m ≡ (returned tt, record m { work_queue = m.work_queue ++ c ∷ [] })
unfolding execute
execute-waiting o c m some =
    ap
      (λ (first : Bool).
        if first
        then check_queue_and_alert_host o (record m { work_queue = m.work_queue ++ c ∷ [] })
        else (returned tt, record m { work_queue = m.work_queue ++ c ∷ [] }))
      (ne→== (length (m.work_queue ++ c ∷ [])) 1 (λ e.
        absurd
          (omega (arith, e, length-append m.work_queue (c ∷ []), some-length m.work_queue some))))

execute-Alerted :
    (c : CommandHandler) (m : Manager) (q : List CommandHandler)
    → m.work_queue ≡ q
    → Alerted m
    → Alerted (execute good c m).1
unfolding execute
execute-Alerted c m [] e h =
    subst
      (λ (l : List CommandHandler).
        Alerted
          (if length l == 1
            then check_queue_and_alert_host good (record m { work_queue = l })
            else (returned tt, record m { work_queue = l })).1)
      (sym (ap (λ (q : List CommandHandler). q ++ c ∷ []) e)) (check-Alerted c [] m)
execute-Alerted c m (d ∷ q) e h =
    let some : m.work_queue ≢ [] = λ none. not_empty (sym e ∙ none) in
    subst (λ (r : Result Unit × Manager). Alerted r.1) (sym (execute-waiting good c m some))
      (λ more. h some)
  where
    not_empty : d ∷ q ≡ [] → ⊥
    not_empty e = cc

fail_all-work_queue :
    (q : List CommandHandler) (m : Manager) → m.work_queue ≡ q → (fail_all q m).work_queue ≡ []
unfolding fail_all
fail_all-work_queue [] m e = e
fail_all-work_queue (c ∷ q) m e =
    fail_all-work_queue q (record m { work_queue = q; calls = m.calls ++ called c false ∷ [] }) refl

clear_queue-Alerted : (m : Manager) → Alerted (clear_queue good m).1
unfolding clear_queue send_attention
clear_queue-Alerted m = no_commands (clear_queue good m).1 (fail_all-work_queue m.work_queue m refl)

step-Alerted : (s : Step) (m : Manager) → Alerted m → Alerted (step good s m)
unfolding get_next_command host_timeout clear_queue_on_power_on
step-Alerted (execute_step c) m h = execute-Alerted c m m.work_queue refl h
step-Alerted get_next_command_step m h =
    next_of-Alerted m.work_queue (record m { timer_running = false }) refl
step-Alerted host_timeout_step m h = clear_queue-Alerted (record m { timer_running = false })
step-Alerted (host_state_step not_requested) m h = h
step-Alerted (host_state_step requested_on) m h = clear_queue-Alerted m
step-Alerted (host_state_step requested_other) m h = h

-- The steps of a time in which the timer starts and the signals are delivered.
abbrev pub in_good_times : List Step → List (Outside × Step)
in_good_times [] = []
in_good_times (s ∷ steps) = (good, s) ∷ in_good_times steps

-- As long as the timer starts and the signals are delivered, no sequence of steps leaves commands
-- waiting without the host being told: while the queue is not empty, the signal delivered last sets
-- the attention, and the timer that ends the waiting runs.
pub run-Alerted :
    (steps : List Step) (m : Manager) → Alerted m → Alerted (run (in_good_times steps) m)
run-Alerted [] m h = h
run-Alerted (s ∷ steps) m h = run-Alerted steps (step good s m) (step-Alerted s m h)

-- Executes commands one after the other, each with what the outside does then.
abbrev pub execute_all : List (Outside × CommandHandler) → Manager → Manager
execute_all [] m = m
execute_all ((o, c) ∷ more) m = execute_all more (execute o c m).1

-- The manager with more commands behind those that wait, and nothing else changed.
abbrev pub waiting : List CommandHandler → Manager → Manager
waiting cs m = record m { work_queue = m.work_queue ++ cs }

abbrev pub commands : List (Outside × CommandHandler) → List CommandHandler
commands [] = []
commands ((o, c) ∷ more) = c ∷ commands more

execute_all-queued :
    (cs : List (Outside × CommandHandler)) (m : Manager)
    → m.work_queue ≢ []
    → execute_all cs m ≡ waiting (commands cs) m
execute_all-queued [] m some =
    ap (λ (q : List CommandHandler). record m { work_queue = q }) (sym (append-nil m.work_queue))
execute_all-queued ((o, c) ∷ cs) m some =
    ap (λ (r : Result Unit × Manager). execute_all cs r.1) (execute-waiting o c m some)
    ∙ execute_all-queued cs (waiting (c ∷ []) m) (still_some m.work_queue)
    ∙ ap (λ (q : List CommandHandler). record m { work_queue = q })
        (append_assoc m.work_queue (c ∷ []) (commands cs))
  where
    still_some : (q : List CommandHandler) → q ++ c ∷ [] ≢ []
    still_some [] e = cc
    still_some (d ∷ q) e = cc

execute-stuck :
    (o : Outside) (c : CommandHandler) (m : Manager)
    → m.work_queue ≡ []
    → o.timer_starts ≡ false
    → execute o c m ≡ (returned tt, record m { work_queue = c ∷ [] })
unfolding execute check_queue_and_alert_host
execute-stuck o c m empty stuck = rw (empty, stuck) refl

-- When the timer does not start for the command that comes to an empty queue, that command and all
-- that are executed after it are only queued, in order, whatever the outside does for the later
-- ones: no callback is called, no signal is sent and no timer is started for any of them.
pub execute_all-waiting :
    (o : Outside) (c : CommandHandler) (cs : List (Outside × CommandHandler)) (m : Manager)
    → m.work_queue ≡ []
    → o.timer_starts ≡ false
    → execute_all ((o, c) ∷ cs) m ≡ record m { work_queue = c ∷ commands cs }
execute_all-waiting o c cs m empty stuck =
    ap (λ (r : Result Unit × Manager). execute_all cs r.1) alone
    ∙ execute_all-queued cs (record m { work_queue = c ∷ [] }) (λ e. cc)
  where
    alone : execute o c m ≡ (returned tt, record m { work_queue = c ∷ [] })
    alone = execute-stuck o c m empty stuck
