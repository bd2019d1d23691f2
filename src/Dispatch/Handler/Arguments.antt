-- ===== src/Dispatch/Handler/Arguments.antt =====
-- A callback of include/ipmid/handler.hpp gets the arguments that are in the message.
use phosphor_host_ipmid.Dispatch.Handler.{
  pack, escaped, Executed, Called, returned, threw, threw_other, answered, check_trailing,
  unpack_arguments, respond, call_with, execute_callback,
}
use phosphor_host_ipmid.Prelude.{
  replicate, suc, ne→==, [], ◌∷◌, ℕ, ◌≡◌, refl, sym, ap, ◌∙◌, arith, Bool, true, false, List, ◌++◌,
  length, ◌==◌, if◌then◌else◌, none, some,
}
use phosphor_host_ipmid.Codes.{cc_unspecified_error, cc_req_data_len_invalid}
use phosphor_host_ipmid.Message.Payload.{of_raw, Payload, fully_unpacked}
use phosphor_host_ipmid.Message.Payload.Reader.{remaining, Reading, bits_left}
use mathlib.Core.Path.{subst}
use phosphor_host_ipmid.Message.RoundTrip.{pack-encodes}
use phosphor_host_ipmid.Prelude.Bits.{byte_bits}
use phosphor_host_ipmid.Message.Payload.Stream.{padding}
use phosphor_host_ipmid.Message.Item.{Items, Tys}
use phosphor_host_ipmid.Message.Layout.{Layout}
use phosphor_host_ipmid.Message.Layout.Taking.{unpack-AllTaken, length-remaining}
use phosphor_host_ipmid.Message.Layout.Trailing.{unpack-trailing}
use phosphor_host_ipmid.Message.Unpack.{Outcome, ok, failed, unpack}
use phosphor_host_ipmid.Dispatch.Request.{Context, Request, make_response, error_response}

fully_unpacked_left :
    (q : Payload) (n : ℕ)
    → Reading q
    → q.unpack_error ≡ false
    → bits_left q ≡ n
    → (fully_unpacked q).0 ≡ (n == 0)
unfolding fully_unpacked
fully_unpacked_left q n h e left = ground (arith, h.inside)

check_trailing_lem :
    (ctx : Context) (m : Outcome Items × Payload) (xs : Items) (b : Bool)
    → m.0 ≡ ok xs
    → m.1.trailing_ok ≡ false
    → (fully_unpacked m.1).0 ≡ b
    → check_trailing ctx m
      ≡ ((if b then ok xs else failed), record { ctx = ctx; payload = (fully_unpacked m.1).1 })
unfolding fully_unpacked
check_trailing_lem ctx m xs b e t f = rw (e, t, f)

-- An answer depends on the request by its context only.
respond-context :
    (ctx : Context) (p q : Payload) (c : Called)
    → respond (record { ctx = ctx; payload = p }) c ≡ respond (record { ctx = ctx; payload = q }) c
unfolding respond make_response error_response
respond-context ctx p q (returned cc none) = refl
respond-context ctx p q (returned cc (some xs)) = refl
respond-context ctx p q threw = refl
respond-context ctx p q threw_other = refl

call_with_lem :
    (callback : Context → Items → Called) (request : Request) (p : Payload) (xs : Items) (b : Bool)
    → call_with
        (λ r. callback r.ctx)
        ((if b then ok xs else failed), record { ctx = request.ctx; payload = p })
      ≡ (if b
          then respond request (callback request.ctx xs)
          else answered (error_response request cc_req_data_len_invalid))
unfolding make_response error_response
call_with_lem callback request p xs true =
    respond-context request.ctx p request.payload (callback request.ctx xs)
call_with_lem callback request p xs false = refl

execute_callback_lem :
    {xs : Items} {ts : Tys} {bs : List ℕ} (callback : Context → Items → Called) (request : Request)
    (rest : List ℕ)
    → Layout xs ts bs
    → Reading request.payload
    → request.payload.unpack_error ≡ false
    → remaining request.payload ≡ bs ++ rest
    → execute_callback ts (λ r. callback r.ctx) request ≡ (
        if length rest == 0
        then respond request (callback request.ctx xs)
        else answered (error_response request cc_req_data_len_invalid))
unfolding execute_callback unpack_arguments
execute_callback_lem {xs} {ts} {bs} callback request rest l h e bits =
    let p = record request.payload { trailing_ok = false } in
    let h' : Reading p = record {
      fits = h.fits;
      partial = h.partial;
      inside = h.inside;
      all_bytes = h.all_bytes;
    } in
    let m = unpack ts p in
    let t = unpack-AllTaken {xs = xs} {ts = ts} {bs = bs} p rest l h' bits in
    let left = sym (length-remaining m.1) ∙ ap length t.left in
    let all = fully_unpacked_left m.1 (length rest) t.reading (t.same_error ∙ e) left in
    let checked =
      check_trailing_lem request.ctx m xs (length rest == 0) t.taken (unpack-trailing p l) all in
    ap (call_with (λ r. callback r.ctx)) checked
    ∙ call_with_lem callback request (fully_unpacked m.1).1 xs (length rest == 0)

-- The specification of the bits that a call's values are packed into, each in the range of its type.
abbrev pub Carries : Called → List ℕ → Type 0
Carries (returned code none) cs = cs ≡ []
Carries (returned code (some ys)) cs = (us : Tys) × Layout ys us cs
Carries threw cs = cs ≡ []
Carries threw_other cs = cs ≡ []

-- An answer in the context with the completion code, whose bytes are the bits, filled up to a whole
-- byte with zeros, with no bits behind them.
abbrev pub Says : Context → ℕ → List ℕ → Executed → Type 0
Says ctx code cs e =
    (p : Payload) × (e ≡ answered (record { payload = p; ctx = ctx; cc = code }))
    × (p.bit_count ≡ 0)
    × (byte_bits p.raw ≡ cs ++ replicate (padding (length cs)) 0)

-- What comes of a request, by the bits that are left of it behind the arguments, by the call of the
-- callback and by the bits of its values.
abbrev pub Obeys : Context → List ℕ → Called → List ℕ → Executed → Type 0
Obeys ctx [] (returned code ys) cs e = Says ctx code cs e
Obeys ctx [] threw cs e = Says ctx cc_unspecified_error [] e
Obeys ctx [] threw_other cs e = e ≡ escaped
Obeys ctx (b ∷ rest) c cs e = Says ctx cc_req_data_len_invalid [] e

respond-Obeys :
    (request : Request) (c : Called) (cs : List ℕ)
    → Carries c cs
    → Obeys request.ctx [] c cs (respond request c)
unfolding respond make_response error_response
respond-Obeys request (returned code none) cs h =
    (of_raw [], refl, refl, sym (ap (λ (x : List ℕ). x ++ replicate (padding (length x)) 0) h))
respond-Obeys request (returned code (some ys)) cs (us, l) =
    let encoded = pack-encodes l in ((pack ys (of_raw [])).1, refl, encoded.1, encoded.2)
respond-Obeys request threw cs h = (of_raw [], refl, refl, refl)
respond-Obeys request threw_other cs h = refl

error-Says :
    (request : Request)
    → Says request.ctx cc_req_data_len_invalid []
        (answered (error_response request cc_req_data_len_invalid))
unfolding error_response make_response
error-Says request = (of_raw [], refl, refl, refl)

-- A callback whose arguments are integers, bool, std::bitset and fixed_uint_t of at most 30 bits is
-- called with the values that the unread bits of a request begin with, if there are no bits after
-- them. The answer then has the context of the request and the completion code that the callback
-- returned, and its bytes are the bits of the values it returned (of such types, each in the range
-- of its type), filled up to a whole byte with zeros. Where the callback throws a std::exception, the
-- answer is the code for an unspecified error without bytes; another exception escapes. Where bits
-- are left behind the arguments, the answer is the code for an invalid length without bytes. The
-- payload has no error mark at first, and the callback uses no more of the request than its context.
pub execute_callback-arguments :
    {xs : Items} {ts : Tys} {bs : List ℕ} (callback : Context → Items → Called) (request : Request)
    (rest cs : List ℕ)
    → Layout xs ts bs
    → Reading request.payload
    → request.payload.unpack_error ≡ false
    → remaining request.payload ≡ bs ++ rest
    → Carries (callback request.ctx xs) cs
    → Obeys request.ctx rest
        (callback request.ctx xs)
        cs
        (execute_callback ts (λ r. callback r.ctx) request)
execute_callback-arguments {xs} callback request [] cs l h e bits carries =
    subst (Obeys request.ctx [] (callback request.ctx xs) cs)
      (sym (execute_callback_lem callback request [] l h e bits))
      (respond-Obeys request (callback request.ctx xs) cs carries)
execute_callback-arguments {xs} callback request (b ∷ rest) cs l h e bits carries =
    subst (Says request.ctx cc_req_data_len_invalid [])
      (sym (
        execute_callback_lem callback request (b ∷ rest) l h e bits
        ∙ rw (ne→== (suc (length rest)) 0 (omega arith)) refl))
      (error-Says request)
