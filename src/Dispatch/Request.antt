-- ===== src/Dispatch/Request.antt =====
-- `Context`, `Request` and `Response` of include/ipmid/message.hpp, less the D-Bus connection and
-- the coroutine, and `errorResponse` of include/ipmid/handler.hpp.
use phosphor_host_ipmid.Prelude.{ℕ, []}
use phosphor_host_ipmid.Message.Payload.{Payload, of_raw}
use phosphor_host_ipmid.Message.Payload
use phosphor_host_ipmid.Codes.{cc_success}

pub record Context : Type 0 where
  pub net_fn : ℕ
  pub cmd : ℕ
  pub channel : ℕ
  pub user_id : ℕ
  pub session_id : ℕ
  pub priv : ℕ
  pub rq_sa : ℕ

pub record Request : Type 0 where
  pub ctx : Context
  pub payload : Payload

pub record Response : Type 0 where
  pub payload : Payload
  pub ctx : Context
  pub cc : ℕ

unfoldable pub make_response : Request → Response
make_response r = record { payload = of_raw []; ctx = r.ctx; cc = cc_success }

unfoldable pub error_response : Request → ℕ → Response
unfolding make_response
error_response r cc = record (make_response r) { cc = cc }

-- The code ignores whether the payload could be prepended.
unfoldable pub prepend : Payload → Response → Response
prepend p r = record r { payload = (Payload.prepend p r.payload).0 }

abbrev pub Handler : Type 0
Handler = Request → Response

abbrev pub Filter : Type 0
Filter = Request → ℕ
