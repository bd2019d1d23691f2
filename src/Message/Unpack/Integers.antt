-- ===== src/Message/Unpack/Integers.antt =====
-- `UnpackSingle` of include/ipmid/message/unpack.hpp for integral types: on a byte boundary and
-- off it the value is the same bits of the message.
use native.Mathlib.Nat.{div-div-eq-div-mul}
use phosphor_host_ipmid.Prelude.{
  ◌≢◌, ℕ, zero, suc, ◌+◌, ◌-◌, ◌*◌, ◌/◌, ◌%◌, ◌^◌, ◌≤◌, ◌<◌, ◌≡◌, refl, sym, ap, ◌∙◌, List, ◌++◌,
  le→ltb, arith, All, length, get_or, take, drop, drop-eq-get_or, ne→==, ℕ_discrete, All-take,
  All-drop, drop-drop,
}
use phosphor_host_ipmid.Prelude.Bits.{
  to_bits, of_bits, byte_bits, bit_or_fields, bit_and_mask, field_bound, IsByte, le_value,
  of_bits-byte_bits, byte_bits-take, byte_bits-drop, two-pow-add, mod-two-pow-add,
}
use phosphor_host_ipmid.Message.Payload.{Payload, pop_bits}
use phosphor_host_ipmid.Message.Payload.Reader.{
  remaining, Reading, bits_left, fill_bits-Filled, IsByte-get_or,
}
use phosphor_host_ipmid.Message.Unpack.{ok, unpack_bytes, unpack_bytes_unaligned, unpack_uint}
use phosphor_host_ipmid.Message.Unpack.Fields.{Reads, take_bits-Reads}

eight-add-one : (k : ℕ) → 8 * (k + 1) ≡ 8 * k + 8
eight-add-one k = omega arith

two-pow-next : (k : ℕ) → 2 ^ (8 * (k + 1)) ≡ 2 ^ (8 * k) * 256
two-pow-next k = ap (λ (t : ℕ). 2 ^ t) (eight-add-one k) ∙ two-pow-add (8 * k) 8

next_byte : (k i b : ℕ) → i < 2 ^ (8 * k) → b < 256 → i + b * 2 ^ (8 * k) < 2 ^ (8 * (k + 1))
next_byte k i b h hb = rw (eight-add-one k) (field_bound (8 * k) 8 i b h hb)

unpack_bytes_lem :
    (w k : ℕ) (raw : List ℕ) (at i : ℕ)
    → All IsByte raw
    → at + w ≤ length raw
    → i < 2 ^ (8 * k)
    → unpack_bytes w k raw at i ≡ i + le_value (take w (drop at raw)) * 2 ^ (8 * k)
unfolding unpack_bytes
unpack_bytes_lem zero k raw at i h inside fits = omega arith
unpack_bytes_lem (suc w) k raw at i h inside fits =
    let b = get_or raw at 0 in
    let byte : b < 256 = IsByte-get_or raw at h in
    rw (bit_or_fields (8 * k) i b fits, drop-eq-get_or at raw 0 (omega arith))
      (omega (
        arith,
        unpack_bytes_lem w (k + 1) raw (at + 1) (i + b * 2 ^ (8 * k)) h (omega arith)
            (next_byte k i b fits byte),
        ap (λ (t : ℕ). le_value (take w (drop (at + 1) raw)) * t) (two-pow-next k),
        ap (λ (t : ℕ). le_value (take w (drop t raw)) * 2 ^ (8 * k)) (index_next at),
      ))
  where
    index_next : (n : ℕ) → n + 1 ≡ suc n
    index_next n = omega arith

-- The payload once the low `n` bits of the stream are taken.
abbrev shifted : ℕ → Payload → Payload
shifted n p = record p { bit_stream = p.bit_stream / 2 ^ n; bit_count = p.bit_count - n }

pop_byte : (p : Payload) → 8 ≤ p.bit_count → pop_bits 8 p ≡ (p.bit_stream % 256, shifted 8 p)
unfolding pop_bits
pop_byte p h = rw (le→ltb p.bit_count 8 h, bit_and_mask 8 (p.bit_stream % 256)) (ground arith)

eight-suc : (w : ℕ) → 8 + 8 * w ≡ 8 * suc w
eight-suc w = omega arith

stream-suc : (w s : ℕ) → s / 2 ^ 8 / 2 ^ (8 * w) ≡ s / 2 ^ (8 * suc w)
stream-suc w s =
    div-div-eq-div-mul s (2 ^ 8) (2 ^ (8 * w))
    ∙ ap (λ (t : ℕ). s / t) (sym (two-pow-add 8 (8 * w)) ∙ ap (λ (t : ℕ). 2 ^ t) (eight-suc w))

value-suc : (w s : ℕ) → s % 2 ^ (8 * suc w) ≡ s % 256 + s / 256 % 2 ^ (8 * w) * 256
value-suc w s = ap (λ (t : ℕ). s % 2 ^ t) (sym (eight-suc w)) ∙ mod-two-pow-add 8 (8 * w) s

unpack_bytes_unaligned_lem :
    (w k i : ℕ) (p : Payload)
    → 8 * w ≤ p.bit_count
    → i < 2 ^ (8 * k)
    → unpack_bytes_unaligned w k i p
      ≡ (i + p.bit_stream % 2 ^ (8 * w) * 2 ^ (8 * k), shifted (8 * w) p)
unfolding unpack_bytes_unaligned
unpack_bytes_unaligned_lem zero k i p h fits = ground arith
unpack_bytes_unaligned_lem (suc w) k i p h fits =
    let s = p.bit_stream in
    rw (pop_byte p (omega arith), bit_or_fields (8 * k) i (s % 256) fits)
      (unpack_bytes_unaligned_lem w (k + 1) (i + s % 256 * 2 ^ (8 * k)) (shifted 8 p) (omega arith)
          (next_byte k i (s % 256) fits (omega arith))
        ∙ (λ j. (value j, record p { bit_stream = stream-suc w s j; bit_count = count j })))
  where
    value :
        i
          + p.bit_stream % 256 * 2 ^ (8 * k)
          + p.bit_stream / 2 ^ 8 % 2 ^ (8 * w) * 2 ^ (8 * (k + 1))
        ≡ i + p.bit_stream % 2 ^ (8 * suc w) * 2 ^ (8 * k)
    value = omega (
      arith,
      ap (λ (t : ℕ). t * 2 ^ (8 * k)) (value-suc w p.bit_stream),
      ap (λ (t : ℕ). p.bit_stream / 2 ^ 8 % 2 ^ (8 * w) * t) (two-pow-next k),
    )

    count : p.bit_count - 8 - 8 * w ≡ p.bit_count - 8 * suc w
    count = omega arith

zero_shift : (v : ℕ) → 0 + v * 2 ^ 0 ≡ v
zero_shift v = omega arith

module _ (size : ℕ) (p : Payload) (r : Reading p) (enough : 8 * size ≤ bits_left p) where
  module _ (aligned : p.bit_count ≡ 0) where
    whole : remaining p ≡ byte_bits (drop p.raw_index p.raw)
    whole = ap (λ (t : ℕ). to_bits t p.bit_stream ++ byte_bits (drop p.raw_index p.raw)) aligned

    fields : All IsByte (take size (drop p.raw_index p.raw))
    fields = All-take IsByte size _ (All-drop IsByte p.raw_index p.raw r.all_bytes)

    value : unpack_bytes size 0 p.raw p.raw_index 0 ≡ of_bits (take (8 * size) (remaining p))
    value =
        unpack_bytes_lem size 0 p.raw p.raw_index 0 r.all_bytes (omega (arith, r.inside))
          (omega arith)
        ∙ omega arith
        ∙ sym (of_bits-byte_bits (take size (drop p.raw_index p.raw)) fields)
        ∙ ap of_bits
            (sym (byte_bits-take size (drop p.raw_index p.raw)) ∙ ap (take (8 * size)) (sym whole))

    aligned-Reads :
        Reads
          (8 * size)
          p
          (unpack_bytes size 0 p.raw p.raw_index 0)
          (record p { raw_index = p.raw_index + size })
    aligned-Reads = record {
      value = value;
      rest =
          ap (λ (t : ℕ). to_bits t p.bit_stream ++ byte_bits (drop (p.raw_index + size) p.raw))
            aligned
          ∙ ap byte_bits (sym (drop-drop p.raw_index size p.raw))
          ∙ sym (byte_bits-drop size (drop p.raw_index p.raw))
          ∙ ap (drop (8 * size)) (sym whole);
      reading = record {
        fits = r.fits;
        partial = r.partial;
        inside = omega (arith, r.inside);
        all_bytes = r.all_bytes;
      };
      same_raw = refl;
      same_error = refl;
    }

  unaligned-Reads :
      size ≤ 8
      → p.bit_count ≢ 0
      → (v : ℕ) × (q : Payload) × (unpack_uint size p ≡ (ok v, q)) × Reads (8 * size) p v q
  unfolding unpack_uint
  unaligned-Reads small off =
      let (q, e, h) = fill_bits-Filled (8 * size) p r (omega arith) enough in
      let reads = take_bits-Reads (8 * size) p q r h in
      (
        _,
        _,
        rw
            (
              ne→== p.bit_count 0 off,
              e,
              unpack_bytes_unaligned_lem size 0 0 q h.enough (omega arith),
            )
            refl,
        record {
          value =
              zero_shift (q.bit_stream % 2 ^ (8 * size))
              ∙ sym (bit_and_mask (8 * size) q.bit_stream)
              ∙ reads.value;
          rest = reads.rest;
          reading = reads.reading;
          same_raw = reads.same_raw;
          same_error = reads.same_error;
        },
      )

  -- An integer of up to eight bytes is the next bits of the message, aligned or not.
  pub unpack_uint-Reads :
      size ≤ 8 → (v : ℕ) × (q : Payload) × (unpack_uint size p ≡ (ok v, q)) × Reads (8 * size) p v q
  unfolding unpack_uint
  unpack_uint-Reads small = elim (ℕ_discrete p.bit_count 0) [
    | yes aligned ↦ (
      _,
      _,
      rw (aligned, le→ltb (length p.raw) (p.raw_index + size) (omega (arith, r.inside))) refl,
      aligned-Reads aligned,
    )
    | no off ↦ unaligned-Reads small off
  ]
