-- ===== src/Message/Payload.antt =====
-- `struct Payload` of include/ipmid/message.hpp: the bytes of a message, with a stream of the bits
-- that do not fill a byte yet (packing) or were taken from a byte already (unpacking).
-- The stream is 72 bits wide, so a shift to the left drops what passes bit 72.
pub mod Stream
pub mod Reader
pub mod Bytes
pub mod Ending
use phosphor_host_ipmid.Prelude.{
  ℕ, zero, suc, ◌+◌, ◌-◌, ◌*◌, ◌/◌, ◌%◌, ◌^◌, min, bit_and, bit_or, Bool, true, false, ◌&&◌, not,
  List, [], ◌∷◌, ◌++◌, Option, none, some, ltb, leb, ◌==◌, if◌then◌else◌, length, get_or, take,
  drop,
}

abbrev pub char_bit : ℕ
char_bit = 8

-- sizeof(uint64_t) + 1 bytes
abbrev pub bit_stream_size : ℕ
bit_stream_size = 72

pub record Payload : Type 0 where
  pub bit_stream : ℕ
  pub bit_count : ℕ
  pub raw : List ℕ
  pub raw_index : ℕ
  pub trailing_ok : Bool
  pub unpack_check : Bool
  pub unpack_error : Bool

-- Payload(std::vector<uint8_t>&& data)
abbrev pub of_raw : List ℕ → Payload
of_raw bytes = record {
  bit_stream = 0;
  bit_count = 0;
  raw = bytes;
  raw_index = 0;
  trailing_ok = true;
  unpack_check = false;
  unpack_error = false;
}

-- One round of the loop of `drain`: the low byte of the stream goes to `raw`.
abbrev pub drain_byte : Payload → Payload
drain_byte p = record p {
  raw = p.raw ++ (p.bit_stream % 256) ∷ [];
  bit_stream = p.bit_stream / 2 ^ min char_bit p.bit_count;
  bit_count = p.bit_count - min char_bit p.bit_count;
}

-- Whether `drain` goes round again.
abbrev pub drains : Bool → Payload → Bool
drains whole_bytes_only p = ltb 0 p.bit_count && not (ltb p.bit_count char_bit && whole_bytes_only)

-- Each round takes a bit at least, so `bit_count` rounds are enough.
unfoldable pub drain_loop : ℕ → Bool → Payload → Payload
drain_loop zero whole_bytes_only p = p
drain_loop (suc fuel) whole_bytes_only p =
    let rest = drain_loop fuel whole_bytes_only (drain_byte p) in
    if drains whole_bytes_only p then rest else p

unfoldable pub drain : Bool → Payload → Payload
unfolding drain_loop
drain whole_bytes_only p = drain_loop p.bit_count whole_bytes_only p

unfoldable pub append : List ℕ → Payload → Payload
append bytes p = let q = drain false p in record q { raw = q.raw ++ bytes }

unfoldable pub append_bits : ℕ → ℕ → Payload → Payload
append_bits count bits p =
    let q = drain true p in
    drain true (record q {
      bit_stream = bit_or q.bit_stream (bits * 2 ^ q.bit_count % 2 ^ bit_stream_size);
      bit_count = q.bit_count + count;
    })

-- The code returns 1 where the second component is false.
unfoldable pub prepend : Payload → Payload → Payload × Bool
prepend prefix p =
    if p.bit_count == 0 && prefix.bit_count == 0
    then (record p { raw = prefix.raw ++ p.raw }, true)
    else (p, false)

abbrev pub discard_bits : Payload → Payload
discard_bits p = record p { bit_stream = 0; bit_count = 0 }

-- `none` is the range of two null pointers. `size() - rawIndex` wraps, but the index is never
-- past the end.
unfoldable pub pop : ℕ → Payload → Option (List ℕ) × Payload
pop count p =
    let q = if p.bit_count == 0 then p else discard_bits p in
    if leb count (length q.raw - q.raw_index)
    then (some (take count (drop q.raw_index q.raw)), record q { raw_index = q.raw_index + count })
    else (none, record q { unpack_error = true })

-- One round of the loop of `fillBits`: the next byte goes above the bits of the stream.
abbrev pub fill_byte : Payload → Payload
fill_byte p = record p {
  bit_stream =
      bit_or p.bit_stream (get_or p.raw p.raw_index 0 * 2 ^ p.bit_count % 2 ^ bit_stream_size);
  bit_count = p.bit_count + char_bit;
  raw_index = p.raw_index + 1;
}

-- The Boolean is the code's result: true for an error. Each round adds eight bits.
unfoldable pub fill_loop : ℕ → ℕ → Payload → Bool × Payload
fill_loop zero count p = (false, p)
fill_loop (suc fuel) count p =
    let more = fill_loop fuel count (fill_byte p) in
    if ltb p.bit_count count
    then (if ltb p.raw_index (length p.raw) then more else (true, record p { unpack_error = true }))
    else (false, p)

unfoldable pub fill_bits : ℕ → Payload → Bool × Payload
unfolding fill_loop
fill_bits count p =
    if ltb (bit_stream_size - char_bit) count
    then (true, record p { unpack_error = true })
    else fill_loop count count p

unfoldable pub pop_bits : ℕ → Payload → ℕ × Payload
pop_bits count p = if ltb p.bit_count count then (0, record p { unpack_error = true }) else (
  bit_and (p.bit_stream % 256) (2 ^ count - 1),
  record p { bit_stream = p.bit_stream / 2 ^ count; bit_count = p.bit_count - count },
)

unfoldable pub reset : Payload → Payload
reset p = record (discard_bits p) { raw_index = 0; unpack_error = false }

unfoldable pub fully_unpacked : Payload → Bool × Payload
fully_unpacked p = (
  length p.raw == p.raw_index && p.bit_count == 0 && not p.unpack_error,
  record p { unpack_check = true },
)
