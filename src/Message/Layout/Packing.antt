-- ===== src/Message/Layout/Packing.antt =====
-- Packing a message adds the bits of its fields (`PackSingle` and `Payload::pack` of include/ipmid/).
use mathlib.Core.Path.{subst}
use phosphor_host_ipmid.Prelude.{
  ℕ, ◌≡◌, refl, sym, ap, ◌∙◌, arith, true, false, List, ◌++◌, append_assoc, append-nil, length,
  length-append, replicate, eq→==,
}
use phosphor_host_ipmid.Prelude.Bits.{to_bits, length-to_bits, byte_bits, length-byte_bits}
use phosphor_host_ipmid.Message.Payload.{Payload, drain}
use phosphor_host_ipmid.Message.Payload.Stream.{packed, Packing, padding, drain-Flushed, drain_none}
use phosphor_host_ipmid.Message.Payload.Bytes.{AllBytes, drain-AllBytes}
use phosphor_host_ipmid.Message.Item.{Item, Items, cons, Ty, Tys}
use phosphor_host_ipmid.Message.Layout.{
  Field, uint_field, fixed_field, flag_field, bitset_field, Layout, no_fields, field,
}
use phosphor_host_ipmid.Message.Pack.{then_drain, pack_single, pack}
use phosphor_host_ipmid.Message.Pack.Fields.{Adds, append_bits-Adds, pack_bits-Adds, pack_uint-Adds}

-- A field packs without an error, and adds its bits.
pub pack_single-Adds :
    {x : Item} {t : Ty} {width v : ℕ} (p : Payload)
    → Field x t width v
    → Packing p
    → AllBytes p
    → ((pack_single x p).0 ≡ 0) × Adds (to_bits width v) p (pack_single x p).1
unfolding pack_single
pack_single-Adds p (uint_field size v small fits) h b = (refl, pack_uint-Adds size v p h b)
pack_single-Adds p (fixed_field count v small fits) h b = (refl, pack_bits-Adds count v p h b fits)
pack_single-Adds p (flag_field true) h b =
    (refl, append_bits-Adds 1 1 p h b (omega arith) (omega arith))
pack_single-Adds p (flag_field false) h b =
    (refl, append_bits-Adds 1 0 p h b (omega arith) (omega arith))
pack_single-Adds p (bitset_field count v small fits) h b = (refl, pack_bits-Adds count v p h b fits)

-- A payload without pending bits, whose bytes are the bits filled up with zeros.
pub record Whole (bits : List ℕ) (q : Payload) : Type 0 where
  pub bytes : byte_bits q.raw ≡ bits ++ replicate (padding (length bits)) 0
  pub empty : q.bit_count ≡ 0
  pub clear : q.bit_stream ≡ 0
  pub all_bytes : AllBytes q

padding-packed : (p : Payload) → padding (length (packed p)) ≡ padding p.bit_count
padding-packed p = omega (
  arith,
  length-append (byte_bits p.raw) (to_bits p.bit_count p.bit_stream),
  length-byte_bits p.raw,
  length-to_bits p.bit_count p.bit_stream,
)

drain-Whole : (p : Payload) → Packing p → AllBytes p → Whole (packed p) (drain false p)
drain-Whole p h b =
    let f = drain-Flushed p h.fits in
    record {
      bytes = f.padded ∙ ap (λ (n : ℕ). packed p ++ replicate n 0) (sym (padding-packed p));
      empty = f.empty;
      clear = f.clear;
      all_bytes = drain-AllBytes false p b;
    }

then_drain_lem :
    (m : ℕ × Payload) (rest : Payload → ℕ × Payload)
    → m.0 ≡ 0
    → then_drain m rest ≡ ((rest m.1).0, drain false (rest m.1).1)
then_drain_lem m rest e = rw (eq→== m.0 0 e)

Whole-eq : {xs ys : List ℕ} {q : Payload} → xs ≡ ys → Whole xs q → Whole ys q
Whole-eq {q} e w = subst (λ t. Whole t q) e w

-- `pack` of a message of at least one field.
pub pack-Whole :
    {x : Item} {t : Ty} {width v : ℕ} {xs : Items} {ts : Tys} {bs : List ℕ} (p : Payload)
    → Field x t width v
    → Layout xs ts bs
    → Packing p
    → AllBytes p
    → ((pack (cons x xs) p).0 ≡ 0)
      × Whole (packed p ++ (to_bits width v ++ bs)) (pack (cons x xs) p).1
unfolding pack
pack-Whole {x} {width} {v} p f no_fields h b =
    let single = pack_single x p in
    let (e, a) = pack_single-Adds p f h b in
    let bits = a.added ∙ ap (◌++◌ (packed p)) (sym (append-nil (to_bits width v))) in
    rw (then_drain_lem single (λ q. (0, q)) e)
      (refl, Whole-eq bits (drain-Whole single.1 a.packing a.all_bytes))
pack-Whole {x} {width} {v = v'} p f (field {x = y} {t = u} {xs} {ts} {bs} w v g rest) h b =
    let single = pack_single x p in
    let (e, a) = pack_single-Adds p f h b in
    let (e', whole) =
      pack-Whole {x = y} {t = u} {width = w} {v = v} {xs = xs} {ts = ts} {bs = bs} single.1 g rest
        a.packing a.all_bytes in
    let bits =
      ap (λ (t : List ℕ). t ++ (to_bits w v ++ bs)) a.added
      ∙ append_assoc (packed p) (to_bits width v') (to_bits w v ++ bs) in
    let r = pack (cons y xs) single.1 in
    rw (then_drain_lem single (pack (cons y xs)) e, drain_none false r.1 whole.empty)
      (e', Whole-eq bits whole)
