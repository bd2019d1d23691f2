-- ===== src/Examples/Message.antt =====
-- Messages packed and unpacked by include/ipmid/message.hpp.
use phosphor_host_ipmid.Prelude.{
  ltb, ◌⊎◌, ℕ, ◌<◌, ◌%◌, ◌≡◌, ◌↔◌, refl, true, false, List, [], ◌∷◌, ◌++◌, arith, length, replicate,
  ◌==◌,
}
use phosphor_host_ipmid.Message.Payload.Ending.{loops-ended}
use phosphor_host_ipmid.Message.Payload.{drains, drain, fill_bits, of_raw, fully_unpacked}
use phosphor_host_ipmid.Message.Payload.Stream.{padding}
use phosphor_host_ipmid.Prelude.Bits.{to_bits, byte_bits}
use phosphor_host_ipmid.Message.Payload.Reader.{Reading, remaining, bits_left}
use phosphor_host_ipmid.Message.Item.{
  Items, Tys, uint, fixed, flag, text, array, vector, nil, cons, uint_ty, fixed_ty, flag_ty,
  tuple_ty, nil_ty, cons_ty,
}
use phosphor_host_ipmid.Message.Pack.{pack, pack_single, pack_text}
use phosphor_host_ipmid.Message.Unpack.{
  unpack, unpack_single, unpack_uint, unpack_bits, unpack_text, ok, failed, fault,
}
use phosphor_host_ipmid.Message.Layout.{
  Layout, field, no_fields, uint_field, fixed_field, flag_field,
}
use phosphor_host_ipmid.Message.RoundTrip.{pack-encodes, unpack-pack, fully_unpacked-pack}
use phosphor_host_ipmid.Message.Errors.{
  unpack_tuple-restores, unpack_bits-failed_iff, pack_array-hides_error,
}
use phosphor_host_ipmid.Message.Text.{unpack_text-pack_text, unpack_text-past_end, at_text}

-- A 16-bit number, three bits, a Boolean and two bits.
abbrev items : Items
items = cons (uint 2 1000) (cons (fixed 3 5) (cons (flag true) (cons (fixed 2 1) nil)))

abbrev types : Tys
types = cons_ty (uint_ty 2) (cons_ty (fixed_ty 3) (cons_ty flag_ty (cons_ty (fixed_ty 2) nil_ty)))

abbrev bits : List ℕ
bits = to_bits 16 1000 ++ (to_bits 3 5 ++ (to_bits 1 1 ++ (to_bits 2 1 ++ [])))

layout : Layout items types bits
layout = field 16 1000 (uint_field 2 1000 (omega arith) (omega arith)) (
    field 3 5 (fixed_field 3 5 (omega arith) (omega arith)) (
      field 1 1 (flag_field true)
        (field 2 1 (fixed_field 2 1 (omega arith) (omega arith)) no_fields)))

pack-encodes_example :
    ((pack items (of_raw [])).0 ≡ 0)
    × ((pack items (of_raw [])).1.bit_count ≡ 0)
    × (byte_bits (pack items (of_raw [])).1.raw ≡ bits ++ replicate (padding (length bits)) 0)
pack-encodes_example = pack-encodes layout

unpack-pack_example :
    let m = unpack types (of_raw (pack items (of_raw [])).1.raw) in
    (m.0 ≡ ok items)
    × (m.1.unpack_error ≡ false)
    × (remaining m.1 ≡ replicate (padding (length bits)) 0)
unpack-pack_example = unpack-pack layout

fully_unpacked-pack_example :
    (fully_unpacked (unpack types (of_raw (pack items (of_raw [])).1.raw)).1).0
    ≡ (length bits % 8 == 0)
fully_unpacked-pack_example = fully_unpacked-pack layout

one_and_a_half :
    (unpack_single
      (tuple_ty (cons_ty (uint_ty 2) (cons_ty (uint_ty 2) nil_ty)))
      (of_raw (1 ∷ 2 ∷ 3 ∷ []))).0
    ≡ failed
unfolding unpack_single unpack_uint
one_and_a_half = refl

-- Two 16-bit numbers, of which the message has one and a half.
unpack_tuple-restores_example :
    let q =
      (unpack_single
        (tuple_ty (cons_ty (uint_ty 2) (cons_ty (uint_ty 2) nil_ty)))
        (of_raw (1 ∷ 2 ∷ 3 ∷ []))).1 in
    (remaining q ≡ remaining (of_raw (1 ∷ 2 ∷ 3 ∷ []))) × (q.unpack_error ≡ false)
unpack_tuple-restores_example =
    unpack_tuple-restores (cons_ty (uint_ty 2) (cons_ty (uint_ty 2) nil_ty))
      (of_raw (1 ∷ 2 ∷ 3 ∷ [])) one_and_a_half

one_byte-Reading : Reading (of_raw (7 ∷ []))
one_byte-Reading = record {
  fits = omega arith;
  partial = omega arith;
  inside = omega arith;
  all_bytes = (omega arith, tt);
}

unpack_bits-failed_iff_example :
    ((unpack_bits 12 (of_raw (7 ∷ []))).0 ≡ failed) ↔ (bits_left (of_raw (7 ∷ [])) < 12)
unpack_bits-failed_iff_example =
    unpack_bits-failed_iff 12 (of_raw (7 ∷ [])) one_byte-Reading (omega arith)

pack_array-hides_error_example :
    (pack_single (text (replicate 256 65)) (of_raw []) ≡ (1, of_raw []))
    × (pack_single (array (cons (text (replicate 256 65)) nil)) (of_raw []) ≡ (0, of_raw []))
    × (pack_single (vector (cons (text (replicate 256 65)) nil)) (of_raw []) ≡ (0, of_raw []))
pack_array-hides_error_example =
    pack_array-hides_error (replicate 256 65) nil (of_raw []) (omega arith)

abbrev greeting : List ℕ
greeting = 72 ∷ 105 ∷ []

unpack_text-pack_text_example :
    ((pack_text greeting (of_raw [])).0 ≡ 0)
    × (0 < length greeting → (unpack_text (at_text greeting (of_raw []))).0 ≡ ok greeting)
    × (0 < length greeting → (unpack_text (at_text greeting (of_raw []))).1.raw_index ≡ 3)
    × (length greeting ≡ 0 → (unpack_text (at_text greeting (of_raw []))).0 ≡ failed)
unpack_text-pack_text_example =
    unpack_text-pack_text greeting (of_raw []) refl (omega arith) (omega arith)

unpack_text-past_end_example :
    (length (of_raw []).raw ≡ 0 → (unpack_text (of_raw [])).0 ≡ fault)
    × (0 < length (of_raw []).raw → (unpack_text (of_raw [])).0 ≡ failed)
unpack_text-past_end_example = unpack_text-past_end (of_raw []) (omega arith) (omega arith) refl

loops-ended_example :
    (drains true (drain true (of_raw (7 ∷ []))) ≡ false)
    × (((fill_bits 12 (of_raw (7 ∷ []))).0 ≡ true)
        ⊎ (ltb (fill_bits 12 (of_raw (7 ∷ []))).1.bit_count 12 ≡ false))
loops-ended_example = loops-ended true 12 (of_raw (7 ∷ []))
