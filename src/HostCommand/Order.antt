-- ===== src/HostCommand/Order.antt =====
-- The callbacks of host-cmd-manager.cpp: one for each command, in the order of the commands.
use phosphor_host_ipmid.Prelude.{
  ℕ, ◌≡◌, refl, sym, ap, ap₂, ◌∙◌, Bool, true, false, List, [], ◌∷◌, ◌++◌, leb, ◌==◌, if-both,
  length, append_assoc, append-nil,
}
use phosphor_host_ipmid.HostCommand.{
  CommandHandler, Called, Manager, Outside, Signal, Result, returned, internal_failure,
  set_attention, clear_attention, called, with_data, next_of, send_attention,
  check_queue_and_alert_host, get_next_command, fail_all, clear_queue, host_timeout, execute,
  Transition, not_requested, requested_on, requested_other, clear_queue_on_power_on,
}

-- A call of the manager.
pub data Step : Type 0 where
  execute_step : CommandHandler → Step
  get_next_command_step : Step
  host_timeout_step : Step
  host_state_step : Transition → Step

abbrev pub step : Outside → Step → Manager → Manager
step o (execute_step c) m = (execute o c m).1
step o get_next_command_step m = (get_next_command o m).1
step o host_timeout_step m = (host_timeout o m).1
step o (host_state_step t) m = (clear_queue_on_power_on o t m).1

abbrev pub run : List (Outside × Step) → Manager → Manager
run [] m = m
run ((o, s) ∷ steps) m = run steps (step o s m)

-- The callbacks of the commands that a step queues.
abbrev pub queued_by : Step → List ℕ
queued_by (execute_step c) = c.call_back ∷ []
queued_by get_next_command_step = []
queued_by host_timeout_step = []
queued_by (host_state_step t) = []

abbrev pub all_queued : List (Outside × Step) → List ℕ
all_queued [] = []
all_queued ((o, s) ∷ steps) = queued_by s ++ all_queued steps

-- The callbacks of the calls so far, then those of the queue.
abbrev calls_of : List Called → List ℕ
calls_of [] = []
calls_of (c ∷ cs) = c.call_back ∷ calls_of cs

abbrev queue_of : List CommandHandler → List ℕ
queue_of [] = []
queue_of (c ∷ cs) = c.call_back ∷ queue_of cs

abbrev pub history : Manager → List ℕ
history m = calls_of m.calls ++ queue_of m.work_queue

calls_of-append : (xs ys : List Called) → calls_of (xs ++ ys) ≡ calls_of xs ++ calls_of ys
calls_of-append [] ys = refl
calls_of-append (x ∷ xs) ys = ap (◌∷◌ x.call_back) (calls_of-append xs ys)

queue_of-append : (xs ys : List CommandHandler) → queue_of (xs ++ ys) ≡ queue_of xs ++ queue_of ys
queue_of-append [] ys = refl
queue_of-append (x ∷ xs) ys = ap (◌∷◌ x.call_back) (queue_of-append xs ys)

-- What the history looks at is the same.
pub record SameWork (m n : Manager) : Type 0 where
  pub same_queue : n.work_queue ≡ m.work_queue
  pub same_calls : n.calls ≡ m.calls

send_attention-SameWork :
    (o : Outside) (s : Signal) (m : Manager) → SameWork m (send_attention o s m).1
unfolding send_attention
send_attention-SameWork o s m =
    if-both (λ (r : Result Unit × Manager). SameWork m r.1) o.delivered
      (returned tt, record m { signals = m.signals ++ s ∷ [] }) (internal_failure, m)
      (record { same_queue = refl; same_calls = refl })
      (record { same_queue = refl; same_calls = refl })

pub check-SameWork : (o : Outside) (m : Manager) → SameWork m (check_queue_and_alert_host o m).1
unfolding check_queue_and_alert_host
check-SameWork o m =
    let P = λ (r : Result Unit × Manager). SameWork m r.1 in
    let alert = send_attention o set_attention (record m { timer_running = true }) in
    let same = send_attention-SameWork o set_attention (record m { timer_running = true }) in
    if-both P (leb 1 (length m.work_queue)) _ (send_attention o clear_attention m)
      (if-both P o.timer_starts alert (returned tt, m)
        (record { same_queue = same.same_queue; same_calls = same.same_calls })
        (record { same_queue = refl; same_calls = refl }))
      (send_attention-SameWork o clear_attention m)

SameWork-history : {m n : Manager} → SameWork m n → history n ≡ history m
SameWork-history h =
    ap₂ (λ (cs : List Called) (q : List CommandHandler). calls_of cs ++ queue_of q) h.same_calls
      h.same_queue

-- The first of the queue goes behind the calls.
move_one :
    (cs : List Called) (c : CommandHandler) (success : Bool) (rest : List ℕ)
    → calls_of (cs ++ called c success ∷ []) ++ rest ≡ calls_of cs ++ c.call_back ∷ rest
move_one cs c success rest =
    ap (λ (l : List ℕ). l ++ rest) (calls_of-append cs (called c success ∷ []))
    ∙ append_assoc (calls_of cs) (c.call_back ∷ []) rest

pub with_data-manager : {A : Type 0} (a : A) (r : Result Unit × Manager) → (with_data a r).1 ≡ r.1
with_data-manager a (returned u, m) = refl
with_data-manager a (internal_failure, m) = refl

next_of-history :
    (o : Outside) (q : List CommandHandler) (m : Manager)
    → m.work_queue ≡ q
    → history (next_of o q m).1 ≡ calls_of m.calls ++ queue_of q
next_of-history o [] m e = ap (λ (q : List CommandHandler). calls_of m.calls ++ queue_of q) e
next_of-history o (c ∷ q) m e =
    let popped = record m { work_queue = q; calls = m.calls ++ called c true ∷ [] } in
    ap history (with_data-manager c.ipmi_cmd_data (check_queue_and_alert_host o popped))
    ∙ SameWork-history (check-SameWork o popped)
    ∙ move_one m.calls c true (queue_of q)

fail_all-history :
    (q : List CommandHandler) (m : Manager)
    → m.work_queue ≡ q
    → history (fail_all q m) ≡ calls_of m.calls ++ queue_of q
unfolding fail_all
fail_all-history [] m e = ap (λ (q : List CommandHandler). calls_of m.calls ++ queue_of q) e
fail_all-history (c ∷ q) m e =
    fail_all-history q (record m { work_queue = q; calls = m.calls ++ called c false ∷ [] }) refl
    ∙ move_one m.calls c false (queue_of q)

clear_queue-history : (o : Outside) (m : Manager) → history (clear_queue o m).1 ≡ history m
unfolding clear_queue
clear_queue-history o m =
    SameWork-history (send_attention-SameWork o clear_attention (fail_all m.work_queue m))
    ∙ fail_all-history m.work_queue m refl

execute-history :
    (o : Outside) (c : CommandHandler) (m : Manager)
    → history (execute o c m).1 ≡ history m ++ c.call_back ∷ []
unfolding execute
execute-history o c m =
    let queued = record m { work_queue = m.work_queue ++ c ∷ [] } in
    let longer =
      ap (λ (l : List ℕ). calls_of m.calls ++ l) (queue_of-append m.work_queue (c ∷ []))
      ∙ sym (append_assoc (calls_of m.calls) (queue_of m.work_queue) (c.call_back ∷ [])) in
    if-both (λ (r : Result Unit × Manager). history r.1 ≡ history m ++ c.call_back ∷ [])
      (length queued.work_queue == 1) (check_queue_and_alert_host o queued) (returned tt, queued)
      (SameWork-history (check-SameWork o queued) ∙ longer) longer

step-history :
    (o : Outside) (s : Step) (m : Manager) → history (step o s m) ≡ history m ++ queued_by s
unfolding get_next_command host_timeout clear_queue_on_power_on
step-history o (execute_step c) m = execute-history o c m
step-history o get_next_command_step m =
    next_of-history o m.work_queue (record m { timer_running = false }) refl
    ∙ sym (append-nil (history m))
step-history o host_timeout_step m =
    clear_queue-history o (record m { timer_running = false }) ∙ sym (append-nil (history m))
step-history o (host_state_step not_requested) m = sym (append-nil (history m))
step-history o (host_state_step requested_on) m =
    clear_queue-history o m ∙ sym (append-nil (history m))
step-history o (host_state_step requested_other) m = sym (append-nil (history m))

-- Over any sequence of steps, whatever the timer and the D-Bus do, the callbacks that were called
-- and then those of the commands still queued are those of the commands that were handed in, in
-- their order. So every command is called back once at most, in its turn, and never lost.
pub run-history :
    (steps : List (Outside × Step)) (m : Manager)
    → history (run steps m) ≡ history m ++ all_queued steps
run-history [] m = sym (append-nil (history m))
run-history ((o, s) ∷ steps) m =
    run-history steps (step o s m)
    ∙ ap (λ (l : List ℕ). l ++ all_queued steps) (step-history o s m)
    ∙ append_assoc (history m) (queued_by s) (all_queued steps)
