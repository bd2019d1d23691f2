-- ===== src/Dispatch/Registry.antt =====
-- The handler maps of ipmid-new.cpp and the registration of handlers.
pub mod Priority
use phosphor_host_ipmid.Prelude.{
  ℕ, zero, suc, ◌+◌, ◌*◌, ◌%◌, ◌≤◌, ◌<◌, ◌≡◌, refl, ap, ◌∙◌, Bool, true, false, ◌&&◌, ◌||◌, List,
  [], ◌∷◌, Option, none, some, ltb, leb, ◌==◌, if◌then◌else◌, eq→==, ne→==, arith, ℕ_discrete, inl,
  inr, Bool-cases, ==_refl,
}
use phosphor_host_ipmid.Codes.{net_fn_transport, net_fn_group, net_fn_oem_eight}
use phosphor_host_ipmid.Dispatch.Request.{Handler}

-- (cluster << 8) | cmd, for a command of one byte
abbrev pub make_cmd_key : ℕ → ℕ → ℕ
make_cmd_key cluster cmd = cluster * 256 + cmd

pub record HandlerTuple : Type 0 where
  pub prio : ℕ
  pub priv : ℕ
  pub handler : Handler

abbrev pub HandlerMap : Type 0
HandlerMap = List (ℕ × HandlerTuple)

unfoldable pub find : ℕ → HandlerMap → Option HandlerTuple
find key [] = none
find key ((k, item) ∷ m) = if k == key then some item else find key m

unfoldable pub assign : ℕ → HandlerTuple → HandlerMap → HandlerMap
assign key item [] = (key, item) ∷ []
assign key item ((k, old) ∷ m) = if k == key then (k, item) ∷ m else (k, old) ∷ assign key item m

-- An entry that `operator[]` has just made holds no handler, and is always replaced.
unfoldable pub keeps : Option HandlerTuple → ℕ → Bool
keeps none prio = false
keeps (some old) prio = ltb prio old.prio

-- What the three registrations share, once they have made their key.
unfoldable pub register_key : ℕ → HandlerTuple → HandlerMap → HandlerMap × Bool
unfolding keeps
register_key key item m =
    if keeps (find key m) item.prio then (m, false) else (assign key item m, true)

-- The guard on the network function.
unfoldable pub valid_net_fn : ℕ → Bool
valid_net_fn net_fn =
    if net_fn % 2 == 1
      || ltb net_fn_transport net_fn && ltb net_fn net_fn_group
      || ltb net_fn_oem_eight net_fn
    then false
    else true

unfoldable pub register_handler : ℕ → ℕ → HandlerTuple → HandlerMap → HandlerMap × Bool
unfolding valid_net_fn
register_handler net_fn cmd item m =
    if valid_net_fn net_fn then register_key (make_cmd_key net_fn cmd) item m else (m, false)

unfoldable pub register_group_handler : ℕ → ℕ → HandlerTuple → HandlerMap → HandlerMap × Bool
register_group_handler group cmd item m = register_key (make_cmd_key group cmd) item m

unfoldable pub register_oem_handler : ℕ → ℕ → HandlerTuple → HandlerMap → HandlerMap × Bool
register_oem_handler iana cmd item m = register_key (make_cmd_key iana cmd) item m
