-- ===== src/Message/Unpack/Fields.antt =====
-- `UnpackSingle` of include/ipmid/message/unpack.hpp for the fields of a fixed width: each takes
-- its bits off the list of those that are left.
use phosphor_host_ipmid.Prelude.{
  ℕ, ◌+◌, ◌-◌, ◌/◌, ◌^◌, ◌≤◌, bit_and, ◌≡◌, sym, ap, ◌∙◌, List, ◌++◌, append_assoc, arith, take,
  drop,
}
use phosphor_host_ipmid.Prelude.Bits.{
  to_bits, of_bits, to_bits-split, byte_bits, bit_and_mask, length-to_bits, of_bits-to_bits,
  take-front, drop-front, div-fits,
}
use phosphor_host_ipmid.Message.Payload.{Payload}
use phosphor_host_ipmid.Message.Payload.Reader.{
  remaining, Reading, Filled, bits_left, fill_bits-Filled,
}
use phosphor_host_ipmid.Message.Unpack.{ok, unpack_bits}

-- `v` and `q` are what a read of `n` bits from `p` gives.
pub record Reads (n : ℕ) (p : Payload) (v : ℕ) (q : Payload) : Type 0 where
  pub value : v ≡ of_bits (take n (remaining p))
  pub rest : remaining q ≡ drop n (remaining p)
  pub reading : Reading q
  pub same_raw : q.raw ≡ p.raw
  pub same_error : q.unpack_error ≡ p.unpack_error

module _ (n : ℕ) (p q : Payload) (r : Reading p) (h : Filled n p q) where
  above : List ℕ
  above = to_bits (q.bit_count - n) (q.bit_stream / 2 ^ n) ++ byte_bits (drop q.raw_index q.raw)

  field_first : remaining p ≡ to_bits n q.bit_stream ++ above
  unfolding above
  field_first =
      sym h.same
      ∙ ap (λ (t : ℕ). to_bits t q.bit_stream ++ byte_bits (drop q.raw_index q.raw)) width
      ∙ ap (λ (t : List ℕ). t ++ byte_bits (drop q.raw_index q.raw))
          (to_bits-split n (q.bit_count - n) q.bit_stream)
      ∙ append_assoc (to_bits n q.bit_stream) (to_bits (q.bit_count - n) (q.bit_stream / 2 ^ n))
          (byte_bits (drop q.raw_index q.raw))
    where
      width : q.bit_count ≡ n + (q.bit_count - n)
      width = omega (arith, h.enough)

  pub take_bits-Reads :
      Reads n p
        (bit_and q.bit_stream (2 ^ n - 1))
        (record q { bit_stream = q.bit_stream / 2 ^ n; bit_count = q.bit_count - n })
  unfolding above
  take_bits-Reads = record {
    value =
        bit_and_mask n q.bit_stream
        ∙ sym (of_bits-to_bits n q.bit_stream)
        ∙ sym (
            ap of_bits (
              ap (take n) field_first
              ∙ take-front n (to_bits n q.bit_stream) above (length-to_bits n q.bit_stream)));
    rest = sym (
        ap (drop n) field_first
        ∙ drop-front n (to_bits n q.bit_stream) above (length-to_bits n q.bit_stream));
    reading = record {
      fits = div-fits n q.bit_count q.bit_stream h.enough h.fits;
      partial = omega (arith, h.little_more);
      inside = h.inside;
      all_bytes = rw h.same_raw r.all_bytes;
    };
    same_raw = h.same_raw;
    same_error = h.same_error;
  }

-- A field of up to 64 bits is the next bits of the message, if there are enough.
pub unpack_bits-Reads :
    (n : ℕ) (p : Payload)
    → Reading p
    → n ≤ 64
    → n ≤ bits_left p
    → (v : ℕ) × (q : Payload) × (unpack_bits n p ≡ (ok v, q)) × Reads n p v q
unfolding unpack_bits
unpack_bits-Reads n p r le64 enough =
    let (q, e, h) = fill_bits-Filled n p r le64 enough in (_, _, rw e, take_bits-Reads n p q r h)
