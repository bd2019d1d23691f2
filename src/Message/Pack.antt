-- ===== src/Message/Pack.antt =====
-- include/ipmid/message/pack.hpp, and the variadic `Payload::pack` of message.hpp.
-- The first component of a result is the code's return value: 0, or not 0 for an error.
pub mod Fields
use phosphor_host_ipmid.Prelude.{
  ℕ, zero, suc, ◌+◌, ◌-◌, ◌*◌, ◌/◌, ◌%◌, ◌^◌, min, Bool, true, false, List, [], ◌∷◌, ◌++◌, ltb,
  ◌==◌, if◌then◌else◌, length,
}
use phosphor_host_ipmid.Message.Payload.{Payload, drain, append, append_bits, char_bit}
use phosphor_host_ipmid.Message.Item.{
  Item, Items, uint, fixed, flag, bitset, text, absent, present, array, vector, bytes, tuple,
  payload, nil, cons,
}

-- `count` bytes of the number, from byte `index` on.
abbrev pub pack_bytes : ℕ → ℕ → ℕ → List ℕ
pack_bytes zero index i = []
pack_bytes (suc count) index i = (i / 2 ^ (8 * index) % 256) ∷ pack_bytes count (index + 1) i

unfoldable pub pack_bytes_unaligned : ℕ → ℕ → ℕ → Payload → Payload
pack_bytes_unaligned zero index i p = p
pack_bytes_unaligned (suc count) index i p =
    pack_bytes_unaligned count (index + 1) i (append_bits char_bit (i / 2 ^ (8 * index) % 256) p)

unfoldable pub pack_uint : ℕ → ℕ → Payload → Payload
pack_uint size t p =
    if p.bit_count == 0
    then record p { raw = p.raw ++ pack_bytes size 0 t }
    else pack_bytes_unaligned size 0 t p

-- The loop of `fixed_uint_t` and `std::bitset`: a byte a round, so `count` rounds are enough.
unfoldable pub pack_bits_loop : ℕ → ℕ → ℕ → Payload → Payload
pack_bits_loop zero count bits p = p
pack_bits_loop (suc fuel) count bits p =
    let append_count = min count char_bit in
    let rest =
      pack_bits_loop fuel (count - append_count) (bits / 2 ^ char_bit)
        (append_bits append_count (bits % 256) p) in
    if ltb 0 count then rest else p

unfoldable pub pack_bits : ℕ → ℕ → Payload → Payload
unfolding pack_bits_loop
pack_bits count bits p = pack_bits_loop count count bits p

abbrev pub bit_of : Bool → ℕ
bit_of true = 1
bit_of false = 0

unfoldable pub pack_text : List ℕ → Payload → ℕ × Payload
unfolding pack_uint
pack_text t p = if ltb 255 (length t) then (1, p) else (0, append t (pack_uint 1 (length t) p))

-- std::vector<uint8_t>, std::string_view
unfoldable pub pack_raw : List ℕ → Payload → ℕ × Payload
pack_raw t p = if p.bit_count == 0 then (0, record p { raw = p.raw ++ t }) else (1, p)

unfoldable pub pack_payload : Payload → Payload → ℕ × Payload
pack_payload t p =
    if p.bit_count == 0
    then (if t.bit_count == 0 then (0, record p { raw = p.raw ++ t.raw }) else (1, p))
    else (1, p)

-- `pack(arg, args...)` after `arg`: an error returns at once, and otherwise the rest is drained.
abbrev pub then_drain : ℕ × Payload → (Payload → ℕ × Payload) → ℕ × Payload
then_drain (ret, p) rest =
    if ret == 0 then (let (ret', q) = rest p in (ret', drain false q)) else (ret, p)

-- The loops over arrays and vectors stop at the first error.
abbrev pub then_next : ℕ × Payload → (Payload → Payload) → Payload
then_next (ret, p) rest = if ret == 0 then rest p else p

unfoldable mutual
  pub pack_single : Item → Payload → ℕ × Payload
  pack_single (uint size t) p = (0, pack_uint size t p)
  pack_single (fixed count t) p = (0, pack_bits count t p)
  pack_single (flag b) p = (0, append_bits 1 (bit_of b) p)
  pack_single (bitset count t) p = (0, pack_bits count t p)
  pack_single (text t) p = pack_text t p
  pack_single absent p = (0, p)
  pack_single (present t) p = pack_single t p
  -- The `ret` of the loop hides the one that is returned.
  pack_single (array ts) p = (0, pack_each ts p)
  pack_single (vector ts) p = (0, pack_each ts p)
  pack_single (bytes t) p = pack_raw t p
  pack_single (tuple ts) p = pack ts p
  pack_single (payload t) p = pack_payload t p

  pub pack_each : Items → Payload → Payload
  pack_each nil p = p
  pack_each (cons t ts) p = then_next (pack_single t p) (pack_each ts)

  pub pack : Items → Payload → ℕ × Payload
  pack nil p = (0, p)
  pack (cons t ts) p = then_drain (pack_single t p) (pack ts)
