-- ===== src/Message/Pack/Fields.antt =====
-- `PackSingle` of include/ipmid/message/pack.hpp for the fields of a fixed width: each adds its
-- bits at the end of those that were packed.
use phosphor_host_ipmid.Prelude.{
  ℕ, zero, suc, ◌+◌, ◌-◌, ◌*◌, ◌/◌, ◌%◌, ◌^◌, min, ◌≤◌, ◌<◌, ◌≡◌, refl, sym, ap, ap₂, ◌∙◌, List, [],
  ◌++◌, append_assoc, append-nil, lt→ltb, le→ltb, ne→==, eq→==, arith, dec_lt, ℕ_discrete, All,
  All-append,
}
use native.Mathlib.Nat.{div-div-eq-div-mul, pow-le-pow_right}
use phosphor_host_ipmid.Prelude.Bits.{
  to_bits, to_bits-mod, to_bits-split, byte_bits, byte_bits-append, IsByte, two-pow-add, div-fits,
}
use phosphor_host_ipmid.Message.Payload.{Payload, append_bits}
use phosphor_host_ipmid.Message.Payload.Stream.{
  packed, Packing, packed-append_bits, append_bits-Packing,
}
use phosphor_host_ipmid.Message.Payload.Bytes.{AllBytes, append_bits-AllBytes}
use phosphor_host_ipmid.Message.Pack.{
  pack_bytes, pack_bytes_unaligned, pack_uint, pack_bits_loop, pack_bits,
}

-- `q` is `p` with more bits at the end.
pub record Adds (bits : List ℕ) (p q : Payload) : Type 0 where
  pub added : packed q ≡ packed p ++ bits
  pub packing : Packing q
  pub all_bytes : AllBytes q

pub append_bits-Adds :
    (count bits : ℕ) (p : Payload)
    → Packing p
    → AllBytes p
    → count ≤ 8
    → bits < 2 ^ count
    → Adds (to_bits count bits) p (append_bits count bits p)
append_bits-Adds count bits p h b few fits = record {
  added = packed-append_bits count bits p h few fits;
  packing = append_bits-Packing count bits p h few fits;
  all_bytes = append_bits-AllBytes count bits p b;
}

Adds-trans : (xs ys : List ℕ) (p q r : Payload) → Adds xs p q → Adds ys q r → Adds (xs ++ ys) p r
Adds-trans xs ys p q r a b = record {
  added = b.added ∙ ap (λ (t : List ℕ). t ++ ys) a.added ∙ append_assoc (packed p) xs ys;
  packing = b.packing;
  all_bytes = b.all_bytes;
}

Adds-none : (p : Payload) → Packing p → AllBytes p → Adds [] p p
Adds-none p h b = record { added = sym (append-nil (packed p)); packing = h; all_bytes = b }

Adds-eq : {xs ys : List ℕ} {p q : Payload} → xs ≡ ys → Adds xs p q → Adds ys p q
Adds-eq e a = record { added = rw (← e) a.added; packing = a.packing; all_bytes = a.all_bytes }

-- The first eight bits, and those above.
eight_first :
    (count bits : ℕ)
    → 8 ≤ count
    → to_bits 8 (bits % 256) ++ to_bits (count - 8) (bits / 2 ^ 8) ≡ to_bits count bits
eight_first count bits h =
    ap (λ (t : List ℕ). t ++ to_bits (count - 8) (bits / 2 ^ 8)) (to_bits-mod 8 bits)
    ∙ sym (to_bits-split 8 (count - 8) bits)
    ∙ ap (λ (t : ℕ). to_bits t bits) (width count h)
  where
    width : (count : ℕ) → 8 ≤ count → 8 + (count - 8) ≡ count
    width count h = omega arith

no_bits : (count bits : ℕ) → count ≡ 0 → [] ≡ to_bits count bits
no_bits count bits e = rw e

loop_end : (fuel count bits : ℕ) (p : Payload) → count ≡ 0 → pack_bits_loop fuel count bits p ≡ p
unfolding pack_bits_loop
loop_end zero count bits p e = refl
loop_end (suc fuel) count bits p e = rw (le→ltb 0 count (omega arith))

min-many : (count : ℕ) → 8 ≤ count → min count 8 ≡ 8
min-many count h = omega arith

min-few : (count : ℕ) → count < 8 → min count 8 ≡ count
min-few count h = omega arith

low_bits_fit : (count bits : ℕ) → count < 8 → bits < 2 ^ count → bits % 256 ≡ bits
low_bits_fit count bits h fits =
    omega (arith, pow-le-pow_right {n = 2} (omega arith) {i = count} {j = 8} (omega arith))

pack_bits_loop-Adds :
    (fuel count bits : ℕ) (p : Payload)
    → Packing p
    → AllBytes p
    → count ≤ fuel
    → bits < 2 ^ count
    → Adds (to_bits count bits) p (pack_bits_loop fuel count bits p)
unfolding pack_bits_loop
pack_bits_loop-Adds zero count bits p h b enough fits =
    Adds-eq (no_bits count bits (omega arith)) (Adds-none p h b)
pack_bits_loop-Adds (suc fuel) count bits p h b enough fits = elim (dec_lt count 8) [
  | no many ↦
      let q = append_bits 8 (bits % 256) p in
      let first = append_bits-Adds 8 (bits % 256) p h b (omega arith) (omega arith) in
      rw (min-many count (omega arith), lt→ltb 0 count (omega arith))
        (Adds-eq (eight_first count bits (omega arith)) (
          Adds-trans (to_bits 8 (bits % 256)) (to_bits (count - 8) (bits / 2 ^ 8)) p q _ first (
            pack_bits_loop-Adds fuel (count - 8) (bits / 2 ^ 8) q first.packing first.all_bytes
              (omega arith) (div-fits 8 count bits (omega arith) fits))))
  | yes few ↦ elim (dec_lt 0 count) [
    | no none ↦
        rw (le→ltb 0 count (omega arith))
          (Adds-eq (no_bits count bits (omega arith)) (Adds-none p h b))
    | yes some ↦
        rw
          (
            min-few count few,
            lt→ltb 0 count some,
            low_bits_fit count bits few fits,
            loop_end fuel (count - count) (bits / 2 ^ 8) (append_bits count bits p) (omega arith),
          )
          (append_bits-Adds count bits p h b (omega arith) fits)
  ]
]

-- An unsigned field of `count` bits adds just these bits.
pub pack_bits-Adds :
    (count bits : ℕ) (p : Payload)
    → Packing p
    → AllBytes p
    → bits < 2 ^ count
    → Adds (to_bits count bits) p (pack_bits count bits p)
unfolding pack_bits
pack_bits-Adds count bits p h b fits = pack_bits_loop-Adds count count bits p h b (omega arith) fits

div-next : (k v : ℕ) → v / 2 ^ (8 * k) / 2 ^ 8 ≡ v / 2 ^ (8 * (k + 1))
div-next k v =
    div-div-eq-div-mul v (2 ^ (8 * k)) (2 ^ 8)
    ∙ ap (λ (t : ℕ). v / t) (sym (two-pow-add (8 * k) 8) ∙ ap (λ (t : ℕ). 2 ^ t) (eight-next k))
  where
    eight-next : (k : ℕ) → 8 * k + 8 ≡ 8 * (k + 1)
    eight-next k = omega arith

-- The byte at `k`, and the bytes above it.
bytes_first :
    (w k v : ℕ)
    → to_bits 8 (v / 2 ^ (8 * k) % 256) ++ to_bits (8 * w) (v / 2 ^ (8 * (k + 1)))
      ≡ to_bits (8 * suc w) (v / 2 ^ (8 * k))
bytes_first w k v =
    ap₂ ◌++◌ (to_bits-mod 8 (v / 2 ^ (8 * k))) (ap (to_bits (8 * w)) (sym (div-next k v)))
    ∙ sym (to_bits-split 8 (8 * w) (v / 2 ^ (8 * k)))
    ∙ ap (λ (t : ℕ). to_bits t (v / 2 ^ (8 * k))) (eight-suc w)
  where
    eight-suc : (w : ℕ) → 8 + 8 * w ≡ 8 * suc w
    eight-suc w = omega arith

byte_bits-pack_bytes :
    (w k v : ℕ) → byte_bits (pack_bytes w k v) ≡ to_bits (8 * w) (v / 2 ^ (8 * k))
byte_bits-pack_bytes zero k v = refl
byte_bits-pack_bytes (suc w) k v =
    ap (◌++◌ (to_bits 8 (v / 2 ^ (8 * k) % 256))) (byte_bits-pack_bytes w (k + 1) v)
    ∙ bytes_first w k v

pack_bytes-All : (w k v : ℕ) → All IsByte (pack_bytes w k v)
pack_bytes-All zero k v = tt
pack_bytes-All (suc w) k v = (omega arith, pack_bytes-All w (k + 1) v)

pack_bytes_unaligned-Adds :
    (w k v : ℕ) (p : Payload)
    → Packing p
    → AllBytes p
    → Adds (to_bits (8 * w) (v / 2 ^ (8 * k))) p (pack_bytes_unaligned w k v p)
unfolding pack_bytes_unaligned
pack_bytes_unaligned-Adds zero k v p h b = Adds-none p h b
pack_bytes_unaligned-Adds (suc w) k v p h b =
    let byte = v / 2 ^ (8 * k) % 256 in
    let first = append_bits-Adds 8 byte p h b (omega arith) (omega arith) in
    Adds-eq (bytes_first w k v) (
      Adds-trans (to_bits 8 byte) _ p _ _ first (
        pack_bytes_unaligned-Adds w (k + 1) v (append_bits 8 byte p) first.packing first.all_bytes))

no_shift : (v : ℕ) → v / 2 ^ (8 * 0) ≡ v
no_shift v = omega arith

-- An integer adds its bytes, the least significant first, aligned or not.
pub pack_uint-Adds :
    (size v : ℕ) (p : Payload)
    → Packing p
    → AllBytes p
    → Adds (to_bits (8 * size) v) p (pack_uint size v p)
unfolding pack_uint
pack_uint-Adds size v p h b = elim (ℕ_discrete p.bit_count 0) [
  | no off ↦
      rw (ne→== p.bit_count 0 off)
        (Adds-eq (ap (to_bits (8 * size)) (no_shift v)) (pack_bytes_unaligned-Adds size 0 v p h b))
  | yes aligned ↦ rw (eq→== p.bit_count 0 aligned) (record {
    added =
        no_stream (p.raw ++ pack_bytes size 0 v) aligned
        ∙ byte_bits-append p.raw (pack_bytes size 0 v)
        ∙ ap₂ ◌++◌ (sym (no_stream p.raw aligned))
            (byte_bits-pack_bytes size 0 v ∙ ap (to_bits (8 * size)) (no_shift v));
    packing = record { fits = h.fits; partial = h.partial };
    all_bytes = All-append IsByte p.raw (pack_bytes size 0 v) b (pack_bytes-All size 0 v);
  })
]
  where
    no_stream :
        (raw : List ℕ)
        → p.bit_count ≡ 0
        → byte_bits raw ++ to_bits p.bit_count p.bit_stream ≡ byte_bits raw
    no_stream raw e =
        ap (λ (t : ℕ). byte_bits raw ++ to_bits t p.bit_stream) e ∙ append-nil (byte_bits raw)
