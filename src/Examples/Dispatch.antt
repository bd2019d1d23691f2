-- ===== src/Examples/Dispatch.antt =====
-- Registrations and requests of ipmid-new.cpp.
use phosphor_host_ipmid.Dispatch.Registry.{
  keeps, register_key, HandlerTuple, find, assign, valid_net_fn, make_cmd_key, register_handler,
}
use phosphor_host_ipmid.Prelude.{
  inl, ◌^◌, ◌<◌, ◌≡◌, ◌≢◌, ◌↔◌, ◌⊎◌, inr, refl, true, false, List, [], ◌∷◌, none, some, arith, ◌==◌,
}
use phosphor_host_ipmid.Message.Payload.{of_raw}
use phosphor_host_ipmid.Dispatch.Request.{Context, Request, Handler, make_response}
use phosphor_host_ipmid.Dispatch.Reservation.{
  SelReservation, reserve, cancel, run, reserve_sel, check_sel_reservation, cancel_sel_reservation,
  reserve_sel-check, run-id,
}
use phosphor_host_ipmid.Dispatch.Execute.NeverRun.{register_handler-never_run}
use mathlib.Core.List.{Permᴰ}
use phosphor_host_ipmid.Dispatch.Registry.Priority.{
  Registration, register_handlers, accepted, winner, find-register_handlers,
}
use phosphor_host_ipmid.Dispatch.Filters.{
  FilterTuple, register_filter, filter_ipmi_command, IsSorted, register_filter-IsSorted,
  register_filter-copies,
}
use phosphor_host_ipmid.Dispatch.Filters.Accept.{Accepts, register_filter-Accepts_iff}
use phosphor_host_ipmid.Dispatch.Execute.{
  Daemon, execute_common, execute_group_command, execute_oem_command, execute_ipmi_command,
}
use phosphor_host_ipmid.Dispatch.Execute.Privilege.{
  replace_all, execute_common-unreachable, execute_ipmi_command-serves,
}
use phosphor_host_ipmid.Dispatch.Execute.Prefix.{
  starting, at_index, with_front, execute_group_command-prefix, execute_oem_command-prefix,
}

abbrev reserved : SelReservation
reserved = record { id = 65535; valid = true }

reserve_sel-check_example :
    let (t, new) = reserve_sel reserved in
    (new ≢ 0)
    × (new < 2 ^ 16)
    × (new ≢ 65535)
    × (check_sel_reservation 1 t ≡ (new == 1))
    × (check_sel_reservation 1 (cancel_sel_reservation t) ≡ false)
reserve_sel-check_example = reserve_sel-check reserved 1 (omega arith)

run-id_example : (run reserved (reserve ∷ cancel ∷ reserve ∷ [])).id < 2 ^ 16
run-id_example = run-id reserved (reserve ∷ cancel ∷ reserve ∷ []) (omega arith)

-- Handlers that answer, of a low and a high priority, for users and for administrators.
abbrev answers : Handler
answers request = make_response request

abbrev low : HandlerTuple
low = record { prio = 0; priv = 2; handler = answers }

abbrev high : HandlerTuple
high = record { prio = 30; priv = 4; handler = answers }

abbrev registrations : List Registration
registrations =
    record { net_fn = 6; cmd = 1; item = high }
    ∷ record { net_fn = 6; cmd = 1; item = low }
    ∷ record { net_fn = 6; cmd = 255; item = low }
    ∷ []

find-register_handlers_example :
    find 1537 (register_handlers [] registrations) ≡ winner 1537 (accepted registrations)
find-register_handlers_example = find-register_handlers 1537 registrations

abbrev lenient : FilterTuple
lenient = record { prio = 5; filter = λ request. 0 }

abbrev strict : FilterTuple
strict = record { prio = 9; filter = λ request. 0xD4 }

lenient-IsSorted : IsSorted (lenient ∷ [])
lenient-IsSorted = tt

register_filter-IsSorted_example : IsSorted (register_filter strict (lenient ∷ []))
register_filter-IsSorted_example = register_filter-IsSorted strict (lenient ∷ []) lenient-IsSorted

register_filter-copies_example :
    Permᴰ (register_filter strict (lenient ∷ [])) (strict ∷ strict ∷ lenient ∷ [])
register_filter-copies_example = register_filter-copies strict (lenient ∷ []) tt

abbrev context : Context
context = record {
  net_fn = 6;
  cmd = 1;
  channel = 1;
  user_id = 2;
  session_id = 0;
  priv = 3;
  rq_sa = 32;
}

abbrev request : Request
request = record { ctx = context; payload = of_raw [] }

register_filter-Accepts_iff_example :
    (filter_ipmi_command (register_filter strict (lenient ∷ [])) request ≡ none)
    ↔ (Accepts request strict × (filter_ipmi_command (lenient ∷ []) request ≡ none))
register_filter-Accepts_iff_example = register_filter-Accepts_iff request strict (lenient ∷ [])

abbrev daemon : Daemon
daemon = record {
  handler_map = register_handlers [] registrations;
  group_handler_map = (make_cmd_key 0xDC 1, low) ∷ [];
  oem_handler_map = [];
  filter_list = lenient ∷ [];
}

execute_common-unreachable_example :
    execute_common
      (replace_all (filter_ipmi_command (lenient ∷ []) request) request answers ((1537, high) ∷ []))
      (lenient ∷ [])
      6
      request
    ≡ execute_common ((1537, high) ∷ []) (lenient ∷ []) 6 request
execute_common-unreachable_example =
    execute_common-unreachable ((1537, high) ∷ []) (lenient ∷ []) 6 request answers

-- A command that only the wildcard handles.
abbrev other_request : Request
other_request = record request { ctx = record context { cmd = 7 } }

all_accept : filter_ipmi_command (lenient ∷ []) other_request ≡ none
unfolding filter_ipmi_command
all_accept = refl

wildcard_wins :
    (winner 1543 (accepted registrations) ≡ some low)
    ⊎ ((winner 1543 (accepted registrations) ≡ none)
        × (winner 1791 (accepted registrations) ≡ some low))
unfolding valid_net_fn
wildcard_wins = inr (refl, refl)

execute_ipmi_command-serves_example :
    execute_ipmi_command daemon other_request ≡ make_response other_request
execute_ipmi_command-serves_example =
    execute_ipmi_command-serves daemon registrations other_request low refl (omega arith)
      (omega arith) all_accept (omega arith) wildcard_wins

none_yet : find (make_cmd_key 0x2C 1) daemon.handler_map ≡ none
unfolding find valid_net_fn register_key keeps register_handler assign
none_yet = refl

execute_group_command-prefix_example :
    execute_group_command daemon (starting request (0xDC ∷ 5 ∷ [])) ≡ (
      let r =
        execute_common daemon.group_handler_map
          (lenient ∷ [])
          0xDC
          (record request { payload = at_index (0xDC ∷ 5 ∷ []) 1 }) in
      with_front r.payload.bit_count (0xDC ∷ []) r)
execute_group_command-prefix_example =
    execute_group_command-prefix daemon request 0xDC (5 ∷ []) (omega arith)

execute_oem_command-prefix_example :
    execute_oem_command daemon (starting request (0xCF ∷ 0xC2 ∷ 0 ∷ 5 ∷ [])) ≡ (
      let r =
        execute_common []
          (lenient ∷ [])
          0xC2CF
          (record request { payload = at_index (0xCF ∷ 0xC2 ∷ 0 ∷ 5 ∷ []) 3 }) in
      with_front r.payload.bit_count (0xCF ∷ 0xC2 ∷ 0 ∷ []) r)
execute_oem_command-prefix_example =
    execute_oem_command-prefix daemon request 0xCF 0xC2 0 (5 ∷ []) (omega arith) (omega arith)
      (omega arith)

-- A handler for an ordinary command of the group's network function.
register_handler-never_run_example :
    let r = register_handler 0x2C 1 high daemon.handler_map in
    (r.1 ≡ true)
    × (execute_ipmi_command (record daemon { handler_map = r.0 }) request
        ≡ execute_ipmi_command daemon request)
register_handler-never_run_example =
    register_handler-never_run daemon 0x2C 1 high request (inl refl) (omega arith) (omega arith)
      none_yet
