-- ===== src/Dispatch/Execute/Prefix.antt =====
-- The group and OEM commands of ipmid-new.cpp: the bytes that name the handler go back with its
-- response.
use phosphor_host_ipmid.Prelude.{
  ne→==, ◌&&◌, ◌++◌, ◌==◌, if◌then◌else◌, refl, ℕ, ◌+◌, ◌*◌, ◌<◌, ◌/◌, ◌%◌, ◌^◌, ◌≡◌, ap, ◌∙◌, List,
  [], ◌∷◌, arith, length, bit_or, le→ltb, lt→ltb, suc,
}
use phosphor_host_ipmid.Dispatch.Execute.{
  Bool, false, true, Daemon, execute_common, execute_group_command, execute_oem_command,
}
use Prim.Native.Nat.{zero}
use phosphor_host_ipmid.Message.Pack.{pack_uint, pack, pack_bits, pack_bits_loop}
use phosphor_host_ipmid.Message.Unpack.{unpack_bytes, ok, unpack_uint, unpack_bits}
use phosphor_host_ipmid.Dispatch.Request.{prepend, Request, Response}
use native.Mathlib.Nat.{mod-eq_of_lt, div-eq_of_lt}
use phosphor_host_ipmid.Prelude.Bits.{bit_or_fields, bit_and_mask}
use phosphor_host_ipmid.Message.Payload
use phosphor_host_ipmid.Message.Payload.{
  Payload, of_raw, append_bits, drain, drain_loop, fill_bits, fill_loop,
}
use phosphor_host_ipmid.Message.Item.{uint, fixed, nil, cons}

-- A request that starts with the bytes, with nothing read of it yet.
abbrev pub starting : Request → List ℕ → Request
starting request bytes = record request { payload = of_raw bytes }

abbrev pub at_index : List ℕ → ℕ → Payload
at_index bytes i = record (of_raw bytes) { raw_index = i }

-- A byte put into the stream of 72 bits, above `k` bits.
stream_byte :
    (k s b : ℕ) → s < 2 ^ k → b * 2 ^ k < 2 ^ 72 → bit_or s (b * 2 ^ k % 2 ^ 72) ≡ s + b * 2 ^ k
stream_byte k s b h fits = ap (bit_or s) (mod-eq_of_lt fits) ∙ bit_or_fields k s b h

low_byte : (b : ℕ) → b < 256 → bit_or 0 (b * 1 % 2 ^ 72) ≡ b
low_byte b h = stream_byte 0 0 b (omega arith) (omega arith) ∙ omega arith

next_byte : (s b : ℕ) → s < 256 → b < 256 → bit_or (s / 256) (b * 1 % 2 ^ 72) ≡ b
next_byte s b hs hb = rw (div-eq_of_lt hs) (low_byte b hb)

unpack_group :
    (g : ℕ) (ds : List ℕ) → g < 256 → unpack_uint 1 (of_raw (g ∷ ds)) ≡ (ok g, at_index (g ∷ ds) 1)
unfolding unpack_uint unpack_bytes
unpack_group g ds h =
    rw (le→ltb (suc (length ds)) 1 (omega arith)) (
      ap (λ (i : ℕ). (ok i, at_index (g ∷ ds) 1)) (bit_or_fields 0 0 g (omega arith) ∙ omega arith))

unpack_iana :
    (a b c : ℕ) (ds : List ℕ)
    → a < 256
    → b < 256
    → c < 256
    → unpack_bits 24 (of_raw (a ∷ b ∷ c ∷ ds))
      ≡ (ok (a + b * 256 + c * 65536), at_index (a ∷ b ∷ c ∷ ds) 3)
unfolding unpack_bits fill_bits fill_loop
unpack_iana a b c ds ha hb hc =
    let n = suc (suc (suc (length ds))) in
    rw
      (
        lt→ltb 0 n (omega arith),
        lt→ltb 1 n (omega arith),
        lt→ltb 2 n (omega arith),
        low_byte a ha,
        stream_byte 8 a b ha (omega arith),
        stream_byte 16 (a + b * 256) c (omega arith) (omega arith),
        bit_and_mask 24 (a + b * 256 + c * 65536),
      )
      (rw (mod-eq_of_lt fits, div-eq_of_lt fits))
  where
    fits : a + b * 256 + c * 65536 < 16777216
    fits = omega arith

pack_iana :
    (a b c : ℕ)
    → a < 256
    → b < 256
    → c < 256
    → (pack (cons (fixed 24 (a + b * 256 + c * 65536)) nil) (of_raw [])).1 ≡ of_raw (a ∷ b ∷ c ∷ [])
unfolding pack pack_bits pack_bits_loop append_bits drain drain_loop
pack_iana a b c ha hb hc =
    let v = a + b * 256 + c * 65536 in
    rw (
      byte_0,
      byte_1,
      byte_2,
      low_byte a ha,
      next_byte a b ha hb,
      next_byte b c hb hc,
      mod-eq_of_lt ha,
      mod-eq_of_lt hb,
      mod-eq_of_lt hc,
      div-eq_of_lt hc,
    )
  where
    byte_0 : (a + b * 256 + c * 65536) % 256 ≡ a
    byte_0 = omega arith

    byte_1 : (a + b * 256 + c * 65536) / 256 % 256 ≡ b
    byte_1 = omega arith

    byte_2 : (a + b * 256 + c * 65536) / 256 / 256 % 256 ≡ c
    byte_2 = omega arith

pack_group : (g : ℕ) → g < 256 → (pack (cons (uint 1 g) nil) (of_raw [])).1 ≡ of_raw (g ∷ [])
unfolding pack pack_uint drain drain_loop
pack_group g h = ap (λ (b : ℕ). of_raw (b ∷ [])) low
  where
    low : g / 1 % 256 ≡ g
    low = omega arith

-- The specification: bytes in front of the bytes of a response, by the number of its bits that are
-- not yet a byte. Where there are some, the response stays as it is.
abbrev pub with_front : ℕ → List ℕ → Response → Response
with_front zero bytes r = record r { payload = record r.payload { raw = bytes ++ r.payload.raw } }
with_front (suc bits) bytes r = r

prepend-with_front :
    (bytes : List ℕ) (r : Response)
    → prepend (of_raw bytes) r ≡ with_front r.payload.bit_count bytes r
unfolding prepend Payload.prepend
prepend-with_front bytes r = by r.payload.bit_count
  where
    front_or_not : Bool → Payload × Bool
    front_or_not b =
        if b then (record r.payload { raw = bytes ++ r.payload.raw }, true) else (r.payload, false)

    by :
        (n : ℕ)
        → (record r { payload = (front_or_not (n == 0 && 0 == 0)).0 }) ≡ with_front n bytes r
    by zero = refl
    by (suc n) = rw (ne→== (suc n) 0 (omega arith)) refl

-- A group command that carries a group byte runs the handler of that group on the bytes after it,
-- and the response is the handler's with the group byte in front of its bytes. A response that
-- ends in the middle of a byte is sent without the group byte.
pub execute_group_command-prefix :
    (d : Daemon) (request : Request) (g : ℕ) (ds : List ℕ)
    → g < 256
    → execute_group_command d (starting request (g ∷ ds)) ≡ (
        let r =
          execute_common d.group_handler_map d.filter_list g
            (record request { payload = at_index (g ∷ ds) 1 }) in
        with_front r.payload.bit_count (g ∷ []) r)
unfolding execute_group_command
execute_group_command-prefix d request g ds h =
    rw (unpack_group g ds h, pack_group g h)
      (prepend-with_front (g ∷ []) (
        execute_common d.group_handler_map d.filter_list g
          (record request { payload = at_index (g ∷ ds) 1 })))

-- An OEM command of three IANA bytes at least runs the handler of the number that they spell, the
-- lowest byte first, on the bytes after them, and the response is the handler's with the same three
-- bytes in front of its bytes. A response that ends in the middle of a byte is sent without them.
pub execute_oem_command-prefix :
    (d : Daemon) (request : Request) (a b c : ℕ) (ds : List ℕ)
    → a < 256
    → b < 256
    → c < 256
    → execute_oem_command d (starting request (a ∷ b ∷ c ∷ ds)) ≡ (
        let r =
          execute_common d.oem_handler_map d.filter_list
            (a + b * 256 + c * 65536)
            (record request { payload = at_index (a ∷ b ∷ c ∷ ds) 3 }) in
        with_front r.payload.bit_count (a ∷ b ∷ c ∷ []) r)
unfolding execute_oem_command
execute_oem_command-prefix d request a b c ds ha hb hc =
    rw (unpack_iana a b c ds ha hb hc, pack_iana a b c ha hb hc)
      (prepend-with_front (a ∷ b ∷ c ∷ []) (
        execute_common d.oem_handler_map d.filter_list (a + b * 256 + c * 65536)
          (record request { payload = at_index (a ∷ b ∷ c ∷ ds) 3 })))
