-- ===== src/Examples/Handler.antt =====
-- A callback of include/ipmid/handler.hpp and a request.
use phosphor_host_ipmid.Prelude.{ℕ, refl, List, [], ◌∷◌, ◌++◌, some, arith}
use phosphor_host_ipmid.Prelude.Bits.{to_bits}
use phosphor_host_ipmid.Message.Payload.{of_raw}
use phosphor_host_ipmid.Message.Item.{
  Items, Tys, uint, fixed, nil, cons, uint_ty, fixed_ty, nil_ty, cons_ty,
}
use phosphor_host_ipmid.Message.Layout.{Layout, field, no_fields, uint_field, fixed_field}
use phosphor_host_ipmid.Dispatch.Request.{Context, Request}
use phosphor_host_ipmid.Dispatch.Handler.{Called, returned, execute_callback}
use phosphor_host_ipmid.Dispatch.Handler.Arguments.{Obeys, execute_callback-arguments}

-- A 16-bit number, three bits and five bits.
abbrev items : Items
items = cons (uint 2 258) (cons (fixed 3 5) (cons (fixed 5 9) nil))

abbrev types : Tys
types = cons_ty (uint_ty 2) (cons_ty (fixed_ty 3) (cons_ty (fixed_ty 5) nil_ty))

abbrev bits : List ℕ
bits = to_bits 16 258 ++ (to_bits 3 5 ++ (to_bits 5 9 ++ []))

layout : Layout items types bits
layout = field 16 258 (uint_field 2 258 (omega arith) (omega arith)) (
    field 3 5 (fixed_field 3 5 (omega arith) (omega arith))
      (field 5 9 (fixed_field 5 9 (omega arith) (omega arith)) no_fields))

-- Their three bytes.
abbrev request : Request
request = record {
  ctx = record {
    net_fn = 6;
    cmd = 1;
    channel = 0;
    user_id = 1;
    session_id = 1;
    priv = 4;
    rq_sa = 32;
  };
  payload = of_raw (2 ∷ 1 ∷ 77 ∷ []);
}

-- The callback answers what it was called with.
abbrev echo : Context → Items → Called
echo ctx xs = returned 0 (some xs)

execute_callback-arguments_example :
    Obeys request.ctx []
      (echo request.ctx items)
      bits
      (execute_callback types (λ r. echo r.ctx) request)
execute_callback-arguments_example =
    execute_callback-arguments echo request [] bits layout
      (record {
        fits = omega arith;
        partial = omega arith;
        inside = omega arith;
        all_bytes = (omega arith, (omega arith, (omega arith, tt)));
      })
      refl refl (types, layout)
