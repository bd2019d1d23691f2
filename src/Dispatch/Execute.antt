-- ===== src/Dispatch/Execute.antt =====
-- The execution of a request in ipmid-new.cpp: `executeIpmiCommandCommon`, the group and OEM
-- commands, whose first bytes name the map's key, and `executeIpmiCommand`.
pub mod Privilege
pub mod Prefix
pub mod NeverRun
use phosphor_host_ipmid.Prelude.{
  ℕ, Bool, true, false, List, [], ◌∷◌, Option, none, some, ltb, ◌==◌, if◌then◌else◌,
}
use phosphor_host_ipmid.Codes.{
  cc_invalid_command, cc_req_data_len_invalid, cc_insufficient_privilege, net_fn_group, net_fn_oem,
  cmd_wildcard,
}
use phosphor_host_ipmid.Message.Payload.{Payload, of_raw}
use phosphor_host_ipmid.Message.Item.{uint, fixed, nil, cons}
use phosphor_host_ipmid.Message.Pack.{pack}
use phosphor_host_ipmid.Message.Unpack.{Outcome, ok, failed, fault, unpack_uint, unpack_bits}
use phosphor_host_ipmid.Dispatch.Request.{Request, Response, error_response, prepend}
use phosphor_host_ipmid.Dispatch.Registry.{HandlerTuple, HandlerMap, find, make_cmd_key}
use phosphor_host_ipmid.Dispatch.Filters.{FilterTuple, filter_ipmi_command}

-- The static maps of the daemon.
pub record Daemon : Type 0 where
  pub handler_map : HandlerMap
  pub group_handler_map : HandlerMap
  pub oem_handler_map : HandlerMap
  pub filter_list : List FilterTuple

-- Once a handler is chosen: the filter's response, the privilege, the call.
unfoldable pub serve : Option Response → HandlerTuple → Request → Response
serve (some rejected) chosen request = rejected
serve none chosen request =
    if ltb request.ctx.priv chosen.priv
    then error_response request cc_insufficient_privilege
    else chosen.handler request

-- The handler of the command, or else the one for all commands of the key.
unfoldable pub serve_found :
    Option Response → Option HandlerTuple → Option HandlerTuple → Request → Response
unfolding serve
serve_found filtered (some chosen) wildcard request = serve filtered chosen request
serve_found filtered none (some chosen) request = serve filtered chosen request
serve_found filtered none none request = error_response request cc_invalid_command

unfoldable pub execute_common : HandlerMap → List FilterTuple → ℕ → Request → Response
unfolding serve_found
execute_common handlers filters key_common request =
    serve_found (filter_ipmi_command filters request)
      (find (make_cmd_key key_common request.ctx.cmd) handlers)
      (find (make_cmd_key key_common cmd_wildcard) handlers) request

-- `execute` is the call with the number that was unpacked, `prefix` the number packed again.
abbrev pub prefixed :
    Request → Outcome ℕ × Payload → (ℕ → Request → Response) → (ℕ → Payload) → Response
prefixed request (ok bytes, p) execute prefix =
    prepend (prefix bytes) (execute bytes (record request { payload = p }))
prefixed request (failed, p) execute prefix =
    error_response (record request { payload = record p { unpack_error = true } })
      cc_req_data_len_invalid
prefixed request (fault, p) execute prefix = error_response request cc_req_data_len_invalid

unfoldable pub execute_group_command : Daemon → Request → Response
execute_group_command d request =
    prefixed request (unpack_uint 1 request.payload)
      (execute_common d.group_handler_map d.filter_list)
      (λ bytes. (pack (cons (uint 1 bytes) nil) (of_raw [])).1)

unfoldable pub execute_oem_command : Daemon → Request → Response
execute_oem_command d request =
    prefixed request (unpack_bits 24 request.payload)
      (execute_common d.oem_handler_map d.filter_list)
      (λ bytes. (pack (cons (fixed 24 bytes) nil) (of_raw [])).1)

unfoldable pub execute_ipmi_command : Daemon → Request → Response
unfolding execute_group_command execute_oem_command
execute_ipmi_command d request =
    if net_fn_group == request.ctx.net_fn
    then execute_group_command d request
    else if net_fn_oem == request.ctx.net_fn
    then execute_oem_command d request
    else execute_common d.handler_map d.filter_list request.ctx.net_fn request
