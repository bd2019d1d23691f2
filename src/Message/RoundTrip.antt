-- ===== src/Message/RoundTrip.antt =====
-- pack.hpp and unpack.hpp of include/ipmid/message/ against the layout of a message: what is packed
-- is the bits of the fields, and what is unpacked is the fields again.
use phosphor_host_ipmid.Prelude.{
  eq→==, ne→==, ◌&&◌, not, ℕ, ◌%◌, ◌≡◌, refl, sym, ap, ◌∙◌, arith, Bool, true, false, List, [],
  ◌++◌, length, length-replicate, replicate, ◌==◌, ℕ_discrete,
}
use phosphor_host_ipmid.Prelude.Bits.{byte_bits}
use phosphor_host_ipmid.Message.Payload.{Payload, of_raw, fully_unpacked}
use phosphor_host_ipmid.Message.Payload.Stream.{Packing, padding}
use phosphor_host_ipmid.Message.Payload.Reader.{remaining, Reading, bits_left}
use phosphor_host_ipmid.Message.Item.{Items, Tys}
use phosphor_host_ipmid.Message.Layout.{Layout, no_fields, field}
use phosphor_host_ipmid.Message.Layout.Packing.{Whole, pack-Whole}
use phosphor_host_ipmid.Message.Layout.Taking.{AllTaken, unpack-AllTaken, length-remaining}
use phosphor_host_ipmid.Message.Pack.{pack}
use phosphor_host_ipmid.Message.Unpack.{ok, unpack}

new_Packing : Packing (of_raw [])
new_Packing = record { fits = omega arith; partial = omega arith }

pack_new-Whole :
    {xs : Items} {ts : Tys} {bs : List ℕ}
    → Layout xs ts bs
    → ((pack xs (of_raw [])).0 ≡ 0) × Whole bs (pack xs (of_raw [])).1
unfolding pack
pack_new-Whole no_fields =
    (refl, record { bytes = refl; empty = refl; clear = refl; all_bytes = tt })
pack_new-Whole (field width v f l) = pack-Whole (of_raw []) f l new_Packing tt

-- Packing the fields of a message (integers, bool, std::bitset and fixed_uint_t of at most 30 bits,
-- each in the range of its type) into a new payload returns no error and leaves no bit pending. The
-- bytes are the bits of the fields in their order, the least significant first, filled up to a whole
-- byte with zeros.
pub pack-encodes :
    {xs : Items} {ts : Tys} {bs : List ℕ}
    → Layout xs ts bs
    → let r = pack xs (of_raw []) in
      (r.0 ≡ 0)
      × (r.1.bit_count ≡ 0)
      × (byte_bits r.1.raw ≡ bs ++ replicate (padding (length bs)) 0)
pack-encodes l = let (e, w) = pack_new-Whole l in (e, w.empty, w.bytes)

unpack_packed :
    {xs : Items} {ts : Tys} {bs : List ℕ}
    → Layout xs ts bs
    → AllTaken xs
        (replicate (padding (length bs)) 0)
        (of_raw (pack xs (of_raw [])).1.raw)
        (unpack ts (of_raw (pack xs (of_raw [])).1.raw))
unpack_packed l =
    let (e, w) = pack_new-Whole l in
    unpack-AllTaken _ _ l
      (record {
        fits = omega arith;
        partial = omega arith;
        inside = omega arith;
        all_bytes = w.all_bytes;
      })
      w.bytes

-- Unpacking the bytes of a packed message (integers, bool, std::bitset and fixed_uint_t of at most 30
-- bits, each in the range of its type) gives its fields back, without an error mark, and only the
-- zeros that fill the last byte are left.
pub unpack-pack :
    {xs : Items} {ts : Tys} {bs : List ℕ}
    → Layout xs ts bs
    → let m = unpack ts (of_raw (pack xs (of_raw [])).1.raw) in
      (m.0 ≡ ok xs)
      × (m.1.unpack_error ≡ false)
      × (remaining m.1 ≡ replicate (padding (length bs)) 0)
unpack-pack l = let t = unpack_packed l in (t.taken, t.same_error, t.left)

fully_unpacked_padded :
    (q : Payload) (n : ℕ)
    → Reading q
    → q.unpack_error ≡ false
    → bits_left q ≡ padding n
    → (fully_unpacked q).0 ≡ (n % 8 == 0)
unfolding fully_unpacked
fully_unpacked_padded q n h e left = elim (ℕ_discrete (n % 8) 0) [
  | yes even ↦ rw (
    e,
    eq→== (n % 8) 0 even,
    eq→== (length q.raw) q.raw_index (omega (arith, h.inside)),
    eq→== q.bit_count 0 (omega arith),
  )
  | no odd ↦
      rw (ne→== (n % 8) 0 odd, ne→== q.bit_count 0 (omega (arith, h.inside)))
        (and_false (length q.raw == q.raw_index) (not q.unpack_error))
]
  where
    and_false : (b c : Bool) → (b && false && c) ≡ false
    and_false true c = refl
    and_false false c = refl

-- After this, for a message of the same fields, the payload counts as fully unpacked exactly when the fields fill whole bytes: up to
-- seven bits of padding are taken for an argument that was not read.
pub fully_unpacked-pack :
    {xs : Items} {ts : Tys} {bs : List ℕ}
    → Layout xs ts bs
    → (fully_unpacked (unpack ts (of_raw (pack xs (of_raw [])).1.raw)).1).0 ≡ (length bs % 8 == 0)
fully_unpacked-pack {xs} {ts} {bs} l =
    let t = unpack_packed l in
    fully_unpacked_padded (unpack ts (of_raw (pack xs (of_raw [])).1.raw)).1 (length bs) t.reading
      t.same_error
      (sym (length-remaining (unpack ts (of_raw (pack xs (of_raw [])).1.raw)).1)
        ∙ ap length t.left
        ∙ length-replicate (padding (length bs)) 0)
