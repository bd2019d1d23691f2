-- ===== src/Dispatch/Handler.antt =====
-- `IpmiHandler` of include/ipmid/handler.hpp, which unpacks the arguments of a callback, calls it and
-- packs what it returns, and `Request::unpack` of include/ipmid/message.hpp.
pub mod Arguments
use phosphor_host_ipmid.Prelude.{ℕ, false, Option, none, some, if◌then◌else◌}
use phosphor_host_ipmid.Codes.{cc_req_data_len_invalid, cc_unspecified_error}
use phosphor_host_ipmid.Message.Payload.{Payload, fully_unpacked}
use phosphor_host_ipmid.Message.Item.{Items, Tys}
use phosphor_host_ipmid.Message.Pack.{pack}
use phosphor_host_ipmid.Message.Unpack.{Outcome, ok, failed, fault, unpack}
use phosphor_host_ipmid.Dispatch.Request.{Context, Request, Response, make_response, error_response}

-- What a callback does: it returns a completion code and perhaps values, or it throws a
-- std::exception or something else. It leaves the request as it is.
pub data Called : Type 0 where
  returned : ℕ → Option Items → Called
  threw : Called
  threw_other : Called

-- What comes of a request. The second catch block rethrows what is no std::exception, and nothing
-- catches that; `faulted` is a read past the end of the message.
pub data Executed : Type 0 where
  answered : Response → Executed
  escaped : Executed
  faulted : Executed

-- `Request::unpack` after `payload.unpack`.
abbrev pub check_trailing : Context → Outcome Items × Payload → Outcome Items × Request
check_trailing ctx (ok xs, p) =
    if p.trailing_ok
    then (ok xs, record { ctx = ctx; payload = p })
    else (let (all, q) = fully_unpacked p in
        ((if all then ok xs else failed), record { ctx = ctx; payload = q }))
check_trailing ctx (failed, p) = (failed, record { ctx = ctx; payload = p })
check_trailing ctx (fault, p) = (fault, record { ctx = ctx; payload = p })

unfoldable pub unpack_arguments : Tys → Request → Outcome Items × Request
unpack_arguments ts request = check_trailing request.ctx (unpack ts request.payload)

unfoldable pub respond : Request → Called → Executed
respond request (returned cc none) = answered (record (make_response request) { cc = cc })
respond request (returned cc (some xs)) =
    let response = make_response request in
    answered (record response { cc = cc; payload = (pack xs response.payload).1 })
respond request threw = answered (error_response request cc_unspecified_error)
respond request threw_other = escaped

abbrev pub call_with : (Request → Items → Called) → Outcome Items × Request → Executed
call_with callback (ok xs, request) = respond request (callback request xs)
call_with callback (failed, request) = answered (error_response request cc_req_data_len_invalid)
call_with callback (fault, request) = faulted

unfoldable pub execute_callback : Tys → (Request → Items → Called) → Request → Executed
execute_callback ts callback request = call_with callback (
    unpack_arguments ts
      (record request { payload = record request.payload { trailing_ok = false } }))
