-- ===== src/Message/Unpack.antt =====
-- include/ipmid/message/unpack.hpp, and the variadic `Payload::unpack` of message.hpp.
pub mod Fields
pub mod Integers
use phosphor_host_ipmid.Prelude.{
  ℕ, zero, suc, ◌+◌, ◌-◌, ◌*◌, ◌/◌, ◌%◌, ◌^◌, bit_and, bit_or, Bool, true, false, List, [], ◌∷◌,
  ltb, leb, ◌==◌, if◌then◌else◌, length, get_or, take, drop, Option, none, some,
}
use phosphor_host_ipmid.Message.Payload.{Payload, fill_bits, pop_bits, pop, char_bit}
use phosphor_host_ipmid.Message.Item.{
  Item, Items, uint, fixed, flag, bitset, text, absent, present, array, bytes, tuple, payload, nil,
  cons, Ty, Tys, uint_ty, fixed_ty, flag_ty, bitset_ty, text_ty, optional_ty, array_ty,
  byte_array_ty, bytes_ty, tuple_ty, payload_ty, nil_ty, cons_ty, byte_items,
}

-- `failed` is a return value other than 0; `fault` a read past the end of the message's bytes.
pub data Outcome {ℓ} (A : Type ℓ) : Type ℓ where
  ok : A → Outcome A
  failed : Outcome A
  fault : Outcome A

abbrev pub map_outcome {ℓ κ} : {A : Type ℓ} {B : Type κ} → (A → B) → Outcome A → Outcome B
map_outcome f (ok a) = ok (f a)
map_outcome f failed = failed
map_outcome f fault = fault

-- No byte is shifted past the top of the number.
unfoldable pub unpack_bytes : ℕ → ℕ → List ℕ → ℕ → ℕ → ℕ
unpack_bytes zero index raw at i = i
unpack_bytes (suc count) index raw at i =
    unpack_bytes count (index + 1) raw (at + 1) (bit_or i (get_or raw at 0 * 2 ^ (8 * index)))

unfoldable pub unpack_bytes_unaligned : ℕ → ℕ → ℕ → Payload → ℕ × Payload
unpack_bytes_unaligned zero index i p = (i, p)
unpack_bytes_unaligned (suc count) index i p =
    let (byte, q) = pop_bits char_bit p in
    unpack_bytes_unaligned count (index + 1) (bit_or i (byte * 2 ^ (8 * index))) q

abbrev pub with_unaligned : ℕ → Bool × Payload → Outcome ℕ × Payload
with_unaligned size (true, p) = (failed, p)
with_unaligned size (false, p) = let (t, q) = unpack_bytes_unaligned size 0 0 p in (ok t, q)

unfoldable pub unpack_uint : ℕ → Payload → Outcome ℕ × Payload
unpack_uint size p =
    if p.bit_count == 0
    then (if ltb (length p.raw) (p.raw_index + size) then (failed, p) else (
      ok (unpack_bytes size 0 p.raw p.raw_index 0),
      record p { raw_index = p.raw_index + size },
    ))
    else with_unaligned size (fill_bits (char_bit * size) p)

-- The low bits of the stream, once enough bits are there. The mask of a fixed_uint_t<N> is shifted as
-- an `int` in the source, which is defined up to N = 30 only; what this gives beyond is a std::bitset's.
abbrev pub take_bits : ℕ → Bool × Payload → Outcome ℕ × Payload
take_bits count (true, p) = (failed, p)
take_bits count (false, p) = (
  ok (bit_and p.bit_stream (2 ^ count - 1)),
  record p { bit_stream = p.bit_stream / 2 ^ count; bit_count = p.bit_count - count },
)

-- fixed_uint_t<N>, bool (one bit) and std::bitset<N>
unfoldable pub unpack_bits : ℕ → Payload → Outcome ℕ × Payload
unpack_bits count p = take_bits count (fill_bits count p)

-- A range of no bytes is an error, also where the length says 0.
abbrev pub text_range : Option (List ℕ) × Payload → Outcome (List ℕ) × Payload
text_range (none, p) = (failed, p)
text_range (some [], p) = (failed, p)
text_range (some (c ∷ cs), p) = (ok (c ∷ cs), p)

-- `raw.size() - sizeof(uint8_t)` wraps around in an empty message.
unfoldable pub unpack_text : Payload → Outcome (List ℕ) × Payload
unpack_text p =
    if ltb ((length p.raw + 2 ^ 64 - 1) % 2 ^ 64) p.raw_index
    then (failed, p)
    else if ltb p.raw_index (length p.raw)
    then text_range (pop (get_or p.raw p.raw_index 0) (record p { raw_index = p.raw_index + 1 }))
    else (fault, p)

unfoldable pub unpack_byte_array : ℕ → Payload → Outcome (List ℕ) × Payload
unpack_byte_array n p =
    if ltb (length p.raw - p.raw_index) n
    then (failed, p)
    else (ok (take n (drop p.raw_index p.raw)), record p { raw_index = p.raw_index + n })

unfoldable pub unpack_raw : Payload → Outcome (List ℕ) × Payload
unpack_raw p = (ok (drop p.raw_index p.raw), record p { raw_index = length p.raw })

abbrev pub roll_back : Payload → Payload → Payload
roll_back prior p = record p {
  bit_stream = prior.bit_stream;
  bit_count = prior.bit_count;
  raw_index = prior.raw_index;
  unpack_error = prior.unpack_error;
}

-- std::tuple: a failure leaves the payload as it was.
abbrev pub atomically : Payload → Outcome Items × Payload → Outcome Item × Payload
atomically prior (ok ts, p) = (ok (tuple ts), p)
atomically prior (failed, p) = (failed, roll_back prior p)
atomically prior (fault, p) = (fault, p)

-- std::optional: a failure leaves the payload as it was, and is a success without a value.
abbrev pub optionally : Payload → Outcome Item × Payload → Outcome Item × Payload
optionally prior (ok t, p) = (ok (present t), p)
optionally prior (failed, p) = (ok absent, roll_back prior p)
optionally prior (fault, p) = (fault, p)

-- The loop of std::array. On a failure the code resets the index of the next byte, and no more.
abbrev pub and_more :
    Payload → Outcome Item × Payload → (Payload → Outcome Items × Payload) → Outcome Items × Payload
and_more prior (ok t, p) rest = let (ts, q) = rest p in (map_outcome (cons t) ts, q)
and_more prior (failed, p) rest = (failed, record p { raw_index = prior.raw_index })
and_more prior (fault, p) rest = (fault, p)

unfoldable pub unpack_array :
    (Payload → Outcome Item × Payload) → Payload → ℕ → Payload → Outcome Items × Payload
unpack_array op prior zero p = (ok nil, p)
unpack_array op prior (suc n) p = and_more prior (op p) (unpack_array op prior n)

-- `unpack(arg, args...)` after `arg`: an error is marked and returned.
abbrev pub then_unpack :
    Outcome Item × Payload → (Payload → Outcome Items × Payload) → Outcome Items × Payload
then_unpack (ok t, p) rest = let (ts, q) = rest p in (map_outcome (cons t) ts, q)
then_unpack (failed, p) rest = (failed, record p { unpack_error = true })
then_unpack (fault, p) rest = (fault, p)

abbrev pub flag_of : ℕ → Bool
flag_of zero = false
flag_of (suc n) = true

abbrev pub as_item {ℓ} : {A : Type ℓ} → (A → Item) → Outcome A × Payload → Outcome Item × Payload
as_item f (r, p) = (map_outcome f r, p)

unfoldable mutual
  pub unpack_single : Ty → Payload → Outcome Item × Payload
  unpack_single (uint_ty size) p = as_item (uint size) (unpack_uint size p)
  unpack_single (fixed_ty count) p = as_item (fixed count) (unpack_bits count p)
  unpack_single flag_ty p = as_item (λ t. flag (flag_of t)) (unpack_bits 1 p)
  unpack_single (bitset_ty count) p = as_item (bitset count) (unpack_bits count p)
  unpack_single text_ty p = as_item text (unpack_text p)
  unpack_single (optional_ty t) p = optionally p (unpack_single t p)
  unpack_single (array_ty n t) p = as_item array (unpack_array (unpack_single t) p n p)
  unpack_single (byte_array_ty n) p = as_item (λ t. array (byte_items t)) (unpack_byte_array n p)
  unpack_single bytes_ty p = as_item bytes (unpack_raw p)
  unpack_single (tuple_ty ts) p = atomically p (unpack ts p)
  unpack_single payload_ty p = (ok (payload p), record p { trailing_ok = true })

  pub unpack : Tys → Payload → Outcome Items × Payload
  unpack nil_ty p = (ok nil, p)
  unpack (cons_ty t ts) p = then_unpack (unpack_single t p) (unpack ts)
