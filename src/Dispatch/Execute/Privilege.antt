-- ===== src/Dispatch/Execute/Privilege.antt =====
-- Which handlers a request can reach (`executeIpmiCommandCommon` of ipmid-new.cpp).
use phosphor_host_ipmid.Prelude.{
  ◌⊎◌, ℕ, ◌≤◌, ◌≡◌, ◌≢◌, refl, ap, ap₂, ◌∙◌, Bool, true, false, List, [], ◌∷◌, Option, none, some,
  ltb, le→ltb, ◌==◌, if◌then◌else◌, inl, inr, Bool-cases, ne→==,
}
use phosphor_host_ipmid.Codes.{net_fn_group, net_fn_oem, cmd_wildcard}
use phosphor_host_ipmid.Dispatch.Request.{Handler, Request, Response}
use phosphor_host_ipmid.Dispatch.Registry.{HandlerTuple, HandlerMap, find, make_cmd_key}
use phosphor_host_ipmid.Dispatch.Registry.Priority.{
  Registration, register_handlers, accepted, winner, find-register_handlers,
}
use phosphor_host_ipmid.Dispatch.Filters.{FilterTuple, filter_ipmi_command}
use phosphor_host_ipmid.Dispatch.Execute.{
  Daemon, serve, serve_found, execute_common, execute_ipmi_command,
}

-- The request may not reach the handler: a filter rejects it, or its privilege is too low.
abbrev pub blocked : Option Response → Request → HandlerTuple → Bool
blocked (some rejected) request item = true
blocked none request item = ltb request.ctx.priv item.priv

-- Another handler in the place of one that the request may not reach.
abbrev pub replaced : Option Response → Request → Handler → HandlerTuple → HandlerTuple
replaced filtered request other item =
    if blocked filtered request item then record item { handler = other } else item

abbrev pub replace_all : Option Response → Request → Handler → HandlerMap → HandlerMap
replace_all filtered request other [] = []
replace_all filtered request other ((k, item) ∷ m) =
    (k, replaced filtered request other item) ∷ replace_all filtered request other m

module _ (filtered : Option Response) (request : Request) (other : Handler) where
  abbrev replaced? : Option HandlerTuple → Option HandlerTuple
  replaced? none = none
  replaced? (some item) = some (replaced filtered request other item)

  find-replace_all :
      (key : ℕ) (m : HandlerMap)
      → find key (replace_all filtered request other m) ≡ replaced? (find key m)
  unfolding find
  find-replace_all key [] = refl
  find-replace_all key ((k, item) ∷ m) = elim (Bool-cases (k == key)) [
    | inl e ↦ rw e
    | inr e ↦ rw e (find-replace_all key m)
  ]

serve-other :
    (request : Request) (other : Handler) (item : HandlerTuple)
    → ltb request.ctx.priv item.priv ≡ true
    → serve none (record item { handler = other }) request ≡ serve none item request
unfolding serve
serve-other request other item e = rw e

serve-replaced :
    (filtered : Option Response) (request : Request) (other : Handler) (item : HandlerTuple)
    → serve filtered (replaced filtered request other item) request ≡ serve filtered item request
unfolding serve
serve-replaced (some rejected) request other item = refl
serve-replaced none request other item = go (ltb request.ctx.priv item.priv) refl
  where
    go :
        (b : Bool)
        → ltb request.ctx.priv item.priv ≡ b
        → serve none (if b then record item { handler = other } else item) request
          ≡ serve none item request
    go true e = serve-other request other item e
    go false e = refl

serve_found-replaced :
    (filtered : Option Response) (request : Request) (other : Handler) (o w : Option HandlerTuple)
    → serve_found filtered
        (replaced? filtered request other o)
        (replaced? filtered request other w)
        request
      ≡ serve_found filtered o w request
unfolding serve_found
serve_found-replaced filtered request other (some item) w =
    serve-replaced filtered request other item
serve_found-replaced filtered request other none (some item) =
    serve-replaced filtered request other item
serve_found-replaced filtered request other none none = refl

-- A response does not depend on any handler that the request may not reach: with every handler of
-- a higher privilege replaced by another function, and all of them where a filter rejects the
-- request, the response is the same. So such a handler is never called.
pub execute_common-unreachable :
    (m : HandlerMap) (filters : List FilterTuple) (key : ℕ) (request : Request) (other : Handler)
    → execute_common
        (replace_all (filter_ipmi_command filters request) request other m)
        filters
        key
        request
      ≡ execute_common m filters key request
unfolding execute_common
execute_common-unreachable m filters key request other =
    let filtered = filter_ipmi_command filters request in
    ap₂ (λ (o w : Option HandlerTuple). serve_found filtered o w request)
      (find-replace_all filtered request other (make_cmd_key key request.ctx.cmd) m)
      (find-replace_all filtered request other (make_cmd_key key cmd_wildcard) m)
    ∙ serve_found-replaced filtered request other (find (make_cmd_key key request.ctx.cmd) m)
        (find (make_cmd_key key cmd_wildcard) m)

-- A request of an ordinary network function whose privilege suffices, and that all filters accept,
-- is answered by the handler that won the registrations of its command; where there are none for
-- the command, by the one that won those of the wildcard.
pub execute_ipmi_command-serves :
    (d : Daemon) (rs : List Registration) (request : Request) (item : HandlerTuple)
    → d.handler_map ≡ register_handlers [] rs
    → net_fn_group ≢ request.ctx.net_fn
    → net_fn_oem ≢ request.ctx.net_fn
    → filter_ipmi_command d.filter_list request ≡ none
    → item.priv ≤ request.ctx.priv
    → (winner (make_cmd_key request.ctx.net_fn request.ctx.cmd) (accepted rs) ≡ some item)
      ⊎ ((winner (make_cmd_key request.ctx.net_fn request.ctx.cmd) (accepted rs) ≡ none)
          × (winner (make_cmd_key request.ctx.net_fn cmd_wildcard) (accepted rs) ≡ some item))
    → execute_ipmi_command d request ≡ item.handler request
unfolding execute_ipmi_command execute_common serve_found serve
execute_ipmi_command-serves d rs request item maps group oem accept priv won =
    let found = λ (key : ℕ). ap (find key) maps ∙ find-register_handlers key rs in
    let enough = le→ltb request.ctx.priv item.priv priv in
    rw
      (ne→== net_fn_group request.ctx.net_fn group, ne→== net_fn_oem request.ctx.net_fn oem, accept)
      (elim won [
        | inl e ↦ rw (found (make_cmd_key request.ctx.net_fn request.ctx.cmd), e, enough)
        | inr e ↦ rw (
          found (make_cmd_key request.ctx.net_fn request.ctx.cmd),
          e.0,
          found (make_cmd_key request.ctx.net_fn cmd_wildcard),
          e.1,
          enough,
        )
      ])
