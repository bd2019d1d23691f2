-- ===== src/Dispatch/Execute/NeverRun.antt =====
-- The ordinary registrations of ipmid-new.cpp for the network functions of the group and OEM
-- commands, which `executeIpmiCommand` looks for in other maps.
use phosphor_host_ipmid.Prelude.{
  eq→==, sym, ℕ, ◌<◌, ◌≡◌, ◌≢◌, ◌⊎◌, refl, ap₂, ◌∙◌, true, false, Option, none, ◌==◌, ne→==, arith,
  inl, inr, Bool-cases,
}
use phosphor_host_ipmid.Dispatch.Execute.{
  execute_oem_command, List, execute_group_command, Daemon, serve_found, execute_common,
  execute_ipmi_command,
}
use phosphor_host_ipmid.Codes.{net_fn_group, net_fn_oem, cmd_wildcard}
use phosphor_host_ipmid.Dispatch.Request.{Request}
use phosphor_host_ipmid.Dispatch.Filters.{FilterTuple, filter_ipmi_command}
use phosphor_host_ipmid.Dispatch.Registry.{
  HandlerTuple, HandlerMap, find, keeps, make_cmd_key, register_key, register_handler, valid_net_fn,
}
use phosphor_host_ipmid.Dispatch.Registry.Priority.{find-register_key}

-- The network functions of the group and OEM commands.
abbrev pub IsPrefixed : ℕ → Type 0
IsPrefixed net_fn = (net_fn ≡ net_fn_group) ⊎ (net_fn ≡ net_fn_oem)

register_handler-prefixed :
    (net_fn cmd : ℕ) (item : HandlerTuple) (m : HandlerMap)
    → IsPrefixed net_fn
    → register_handler net_fn cmd item m ≡ register_key (make_cmd_key net_fn cmd) item m
unfolding register_handler valid_net_fn
register_handler-prefixed net_fn cmd item m (inl e) = rw e refl
register_handler-prefixed net_fn cmd item m (inr e) = rw e refl

find-other :
    (net_fn cmd cluster c : ℕ) (item : HandlerTuple) (m : HandlerMap)
    → cmd < 256
    → c < 256
    → net_fn ≢ cluster
    → find (make_cmd_key cluster c) (register_key (make_cmd_key net_fn cmd) item m).0
      ≡ find (make_cmd_key cluster c) m
find-other net_fn cmd cluster c item m h k other =
    find-register_key (make_cmd_key net_fn cmd) (make_cmd_key cluster c) item m
    ∙ rw
        (ne→== (make_cmd_key net_fn cmd) (make_cmd_key cluster c)
          (λ e. other (omega (arith, e, h, k))))
        refl

execute_common-other :
    (net_fn cmd key : ℕ) (item : HandlerTuple) (m : HandlerMap) (filters : List FilterTuple)
    (request : Request)
    → cmd < 256
    → request.ctx.cmd < 256
    → net_fn ≢ key
    → execute_common (register_key (make_cmd_key net_fn cmd) item m).0 filters key request
      ≡ execute_common m filters key request
unfolding execute_common
execute_common-other net_fn cmd key item m filters request h k other =
    ap₂
      (λ (o w : Option HandlerTuple). serve_found (filter_ipmi_command filters request) o w request)
      (find-other net_fn cmd key request.ctx.cmd item m h k other)
      (find-other net_fn cmd key cmd_wildcard item m h (omega arith) other)

register_key-free :
    (key : ℕ) (item : HandlerTuple) (m : HandlerMap)
    → find key m ≡ none
    → (register_key key item m).1 ≡ true
unfolding register_key keeps
register_key-free key item m free = rw free refl

true-false : true ≡ false → ⊥
true-false e = cc

differs :
    (net_fn n : ℕ)
    → IsPrefixed net_fn
    → (net_fn_group == n) ≡ false
    → (net_fn_oem == n) ≡ false
    → net_fn ≢ n
differs net_fn n (inl e) g o f = true-false (sym (eq→== net_fn_group n (sym e ∙ f)) ∙ g)
differs net_fn n (inr e) g o f = true-false (sym (eq→== net_fn_oem n (sym e ∙ f)) ∙ o)

-- Another map of ordinary handlers that serves the request alike where its network function is an
-- ordinary one.
other_map :
    (d : Daemon) (m : HandlerMap) (request : Request)
    → ((net_fn_group == request.ctx.net_fn) ≡ false
        → (net_fn_oem == request.ctx.net_fn) ≡ false
        → execute_common m d.filter_list request.ctx.net_fn request
          ≡ execute_common d.handler_map d.filter_list request.ctx.net_fn request)
    → execute_ipmi_command (record d { handler_map = m }) request ≡ execute_ipmi_command d request
unfolding execute_ipmi_command execute_group_command execute_oem_command
other_map d m request same = elim (Bool-cases (net_fn_group == request.ctx.net_fn)) [
  | inl g ↦ rw g refl
  | inr g ↦ rw g (elim (Bool-cases (net_fn_oem == request.ctx.net_fn)) [
    | inl o ↦ rw o refl
    | inr o ↦ rw o (same g o)
  ])
]

-- The registration of an ordinary handler for the network function of the group or of the OEM
-- commands passes the guard on network functions: it is accepted if there is no handler for the
-- command yet. But the handler is never run: every request is answered as without the registration.
-- Commands are bytes.
pub register_handler-never_run :
    (d : Daemon) (net_fn cmd : ℕ) (item : HandlerTuple) (request : Request)
    → IsPrefixed net_fn
    → cmd < 256
    → request.ctx.cmd < 256
    → find (make_cmd_key net_fn cmd) d.handler_map ≡ none
    → let r = register_handler net_fn cmd item d.handler_map in
      (r.1 ≡ true)
      × (execute_ipmi_command (record d { handler_map = r.0 }) request
          ≡ execute_ipmi_command d request)
register_handler-never_run d net_fn cmd item request prefix h k free =
    let key = make_cmd_key net_fn cmd in
    rw (register_handler-prefixed net_fn cmd item d.handler_map prefix) (
      register_key-free key item d.handler_map free,
      other_map d (register_key key item d.handler_map).0 request (λ g o.
          execute_common-other net_fn cmd request.ctx.net_fn item d.handler_map d.filter_list
            request h k (differs net_fn request.ctx.net_fn prefix g o)),
    )
