-- ===== src/Message/Payload/Stream.antt =====
-- The payload of include/ipmid/message.hpp as a list of bits, the least significant first: what
-- was packed so far.
use native.Mathlib.Nat.{div-eq_of_lt, mod-eq_of_lt, mul-le-mul, pow-le-pow_right}
use mathlib.Core.Path.{ap₂}
use phosphor_host_ipmid.Prelude.{
  dec_lt, ℕ, zero, suc, ◌+◌, ◌-◌, ◌*◌, ◌/◌, ◌%◌, ◌^◌, ◌≤◌, ◌<◌, min, bit_or, ◌≡◌, refl, sym, ap,
  ◌∙◌, ◌≡⟨◌⟩◌, ◌∎, Bool, true, false, List, ◌++◌, append_assoc, append-nil, replicate, arith,
}
use native.Mathlib.Numerals.{towards_suc}
use phosphor_host_ipmid.Prelude.Bits.{
  to_bits, to_bits-mod, to_bits-add, to_bits-split, to_bits-zero, byte_bits, byte_bits-append,
  bit_or_fields, field_bound,
}
use phosphor_host_ipmid.Message.Payload.{
  Payload, drain_byte, drains, drain_loop, drain, append_bits,
}

-- The bits that were packed: the whole bytes, then the bits of the stream.
abbrev pub packed : Payload → List ℕ
packed p = byte_bits p.raw ++ to_bits p.bit_count p.bit_stream

-- The stream holds no bit past its count.
abbrev pub Fits : Payload → Type 0
Fits p = p.bit_stream < 2 ^ p.bit_count

-- Between two packs less than a byte is pending.
pub record Packing (p : Payload) : Type 0 where
  pub fits : Fits p
  pub partial : p.bit_count < 8

pub two-pow-add_eight : (n : ℕ) → 2 ^ (n + 8) ≡ 256 * 2 ^ n
two-pow-add_eight n = simp towards_suc (omega arith)

eight-add : (c : ℕ) → 8 ≤ c → c ≡ 8 + (c - 8)
eight-add c h = omega arith

module _ (p : Payload) (whole : 8 ≤ p.bit_count) where
  width : p.bit_count ≡ p.bit_count - 8 + 8
  width = omega arith

  min-eight : min 8 p.bit_count ≡ 8
  min-eight = omega arith

  drain_byte-Fits : Fits p → Fits (drain_byte p)
  drain_byte-Fits h =
      rw min-eight (omega (arith, two-pow-add_eight (p.bit_count - 8), ap (λ (t : ℕ). 2 ^ t) width))

  stream_split :
      to_bits 8 (p.bit_stream % 256) ++ to_bits (p.bit_count - 8) (p.bit_stream / 2 ^ 8)
      ≡ to_bits p.bit_count p.bit_stream
  stream_split =
      ap (λ (t : List ℕ). t ++ to_bits (p.bit_count - 8) (p.bit_stream / 2 ^ 8))
        (to_bits-mod 8 p.bit_stream)
      ∙ sym (to_bits-split 8 (p.bit_count - 8) p.bit_stream)
      ∙ ap (λ (t : ℕ). to_bits t p.bit_stream) (omega arith)

  -- A whole byte that leaves the stream is still the same eight bits.
  packed-drain_byte : packed (drain_byte p) ≡ packed p
  packed-drain_byte =
      rw min-eight
        (simp (byte_bits-append, append_assoc) (ap (◌++◌ (byte_bits p.raw)) stream_split))

-- What `drain(true)` leaves: less than a byte, and the same bits.
pub record Drained (p q : Payload) : Type 0 where
  pub same : packed q ≡ packed p
  pub packing : Packing q

drains_partial : (p : Payload) → p.bit_count < 8 → drains true p ≡ false
drains_partial p h = ground arith

drains_whole : (w : Bool) (p : Payload) → 8 ≤ p.bit_count → drains w p ≡ true
drains_whole w p h = ground arith

pub drain_loop_partial : (fuel : ℕ) (p : Payload) → p.bit_count < 8 → drain_loop fuel true p ≡ p
unfolding drain_loop
drain_loop_partial zero p h = refl
drain_loop_partial (suc fuel) p h = rw (drains_partial p h)

drain_loop-Drained :
    (fuel : ℕ) (p : Payload) → p.bit_count ≤ fuel → Fits p → Drained p (drain_loop fuel true p)
unfolding drain_loop
drain_loop-Drained zero p h f = record {
  same = refl;
  packing = record { fits = f; partial = omega arith };
}
drain_loop-Drained (suc fuel) p h f = elim (dec_lt p.bit_count 8) [
  | yes few ↦
      rw (drains_partial p few)
        (record { same = refl; packing = record { fits = f; partial = few } })
  | no many ↦ rw (drains_whole true p (omega arith)) (
      let whole : 8 ≤ p.bit_count = omega arith in
      let rest = drain_loop-Drained fuel (drain_byte p) (omega arith) (drain_byte-Fits p whole f) in
      record { same = rest.same ∙ packed-drain_byte p whole; packing = rest.packing })
]

-- The zeros that fill the last byte.
abbrev pub padding : ℕ → ℕ
padding count = (8 - count % 8) % 8

-- What `drain()` leaves: no bit in the stream, and the bits padded to whole bytes.
pub record Flushed (p q : Payload) : Type 0 where
  pub padded : byte_bits q.raw ≡ packed p ++ replicate (padding p.bit_count) 0
  pub empty : q.bit_count ≡ 0
  pub clear : q.bit_stream ≡ 0

flush_none : (p : Payload) → Fits p → p.bit_count ≡ 0 → Flushed p p
flush_none p f none = record {
  padded = rw none (simp append-nil);
  empty = none;
  clear = omega (arith, ap (λ (t : ℕ). 2 ^ t) none);
}

module _ (p : Payload) (h : Packing p) (pending : 0 < p.bit_count) where
  min-partial : min 8 p.bit_count ≡ p.bit_count
  min-partial = omega (arith, h.partial)

  nothing_above : p.bit_stream / 2 ^ p.bit_count ≡ 0
  nothing_above = div-eq_of_lt h.fits

  byte_width : 8 ≡ p.bit_count + padding p.bit_count
  byte_width = omega (arith, h.partial)

  last_byte :
      to_bits 8 (p.bit_stream % 256)
      ≡ to_bits p.bit_count p.bit_stream ++ replicate (padding p.bit_count) 0
  last_byte =
      to_bits 8 (p.bit_stream % 256)
      ≡⟨ to_bits-mod 8 p.bit_stream ⟩ to_bits 8 p.bit_stream
      ≡⟨ ap (λ (t : ℕ). to_bits t p.bit_stream) byte_width ⟩
        to_bits (p.bit_count + padding p.bit_count) p.bit_stream
      ≡⟨ to_bits-split p.bit_count (padding p.bit_count) p.bit_stream ⟩
        to_bits p.bit_count p.bit_stream
        ++ to_bits (padding p.bit_count) (p.bit_stream / 2 ^ p.bit_count)
      ≡⟨ ap (λ (t : ℕ). to_bits p.bit_count p.bit_stream ++ to_bits (padding p.bit_count) t)
          nothing_above ⟩
        to_bits p.bit_count p.bit_stream ++ to_bits (padding p.bit_count) 0
      ≡⟨ ap (◌++◌ (to_bits p.bit_count p.bit_stream)) (to_bits-zero (padding p.bit_count)) ⟩
        to_bits p.bit_count p.bit_stream ++ replicate (padding p.bit_count) 0 ∎

  flush_partial : Flushed p (drain_byte p)
  flush_partial = record {
    padded =
        simp (byte_bits-append, append_assoc, append-nil) (ap (◌++◌ (byte_bits p.raw)) last_byte);
    empty = omega (arith, h.partial);
    clear = rw min-partial nothing_above;
  }

drains_none : (w : Bool) (p : Payload) → p.bit_count ≡ 0 → drains w p ≡ false
drains_none w p h = ground arith

drains_some : (p : Payload) → 0 < p.bit_count → drains false p ≡ true
drains_some p h = ground arith

pub drain_loop_none :
    (fuel : ℕ) (w : Bool) (p : Payload) → p.bit_count ≡ 0 → drain_loop fuel w p ≡ p
unfolding drain_loop
drain_loop_none zero w p h = refl
drain_loop_none (suc fuel) w p h = rw (drains_none w p h)

flush_whole : (p q : Payload) → 8 ≤ p.bit_count → Flushed (drain_byte p) q → Flushed p q
flush_whole p q whole rest = record {
  padded =
      rest.padded
      ∙ ap₂ (λ (s : List ℕ) (n : ℕ). s ++ replicate n 0) (packed-drain_byte p whole) (omega arith);
  empty = rest.empty;
  clear = rest.clear;
}

drain_loop-Flushed :
    (fuel : ℕ) (p : Payload) → p.bit_count ≤ fuel → Fits p → Flushed p (drain_loop fuel false p)
unfolding drain_loop
drain_loop-Flushed zero p h f = flush_none p f (omega arith)
drain_loop-Flushed (suc fuel) p h f = elim (dec_lt p.bit_count 8) [
  | yes few ↦ elim (dec_lt 0 p.bit_count) [
    | yes pending ↦
        rw (drains_some p pending, drain_loop_none fuel false (drain_byte p) (omega arith))
          (flush_partial p (record { fits = f; partial = few }) pending)
    | no none ↦ rw (drains_none false p (omega arith)) (flush_none p f (omega arith))
  ]
  | no many ↦ rw (drains_some p (omega arith)) (
      flush_whole p _ (omega arith)
        (drain_loop-Flushed fuel (drain_byte p) (omega arith) (drain_byte-Fits p (omega arith) f)))
]

pub drain-Drained : (p : Payload) → Fits p → Drained p (drain true p)
unfolding drain
drain-Drained p f = drain_loop-Drained p.bit_count p (omega arith) f

pub drain-Flushed : (p : Payload) → Fits p → Flushed p (drain false p)
unfolding drain
drain-Flushed p f = drain_loop-Flushed p.bit_count p (omega arith) f

pub drain_partial : (p : Payload) → p.bit_count < 8 → drain true p ≡ p
unfolding drain
drain_partial p h = drain_loop_partial p.bit_count p h

-- The stream after `appendBits` has joined the new bits to it.
abbrev pub joined : ℕ → ℕ → Payload → Payload
joined count bits p = record p {
  bit_stream = p.bit_stream + bits * 2 ^ p.bit_count;
  bit_count = p.bit_count + count;
}

module _ (count bits : ℕ) (p : Payload) (h : Packing p) (few : count ≤ 8)
    (fits : bits < 2 ^ count) where
  shift-fits : bits * 2 ^ p.bit_count < 2 ^ 72
  shift-fits = omega (
    arith,
    mul-le-mul {n₁ = bits} {m₁ = 2 ^ p.bit_count} {n₂ = 256} {m₂ = 256}
        (omega (arith, pow-le-pow_right {n = 2} (omega arith) few))
        (pow-le-pow_right {n = 2} (omega arith) {i = p.bit_count} {j = 8}
          (omega (arith, h.partial))),
  )

  join :
      bit_or p.bit_stream (bits * 2 ^ p.bit_count % 2 ^ 72) ≡ p.bit_stream + bits * 2 ^ p.bit_count
  join = rw (mod-eq_of_lt shift-fits) (bit_or_fields p.bit_count p.bit_stream bits h.fits)

  joined-Fits : Fits (joined count bits p)
  joined-Fits = field_bound p.bit_count count p.bit_stream bits h.fits fits

  append_bits-drain : append_bits count bits p ≡ drain true (joined count bits p)
  unfolding append_bits
  append_bits-drain = rw (drain_partial p h.partial, join)

  -- `appendBits` adds the bits after those that are there.
  pub packed-append_bits : packed (append_bits count bits p) ≡ packed p ++ to_bits count bits
  packed-append_bits =
      rw (append_bits-drain, (drain-Drained (joined count bits p) joined-Fits).same)
        (rw (to_bits-add p.bit_count count p.bit_stream bits h.fits) (
          sym (
            append_assoc (byte_bits p.raw) (to_bits p.bit_count p.bit_stream)
              (to_bits count bits))))

  pub append_bits-Packing : Packing (append_bits count bits p)
  append_bits-Packing =
      rw append_bits-drain ((drain-Drained (joined count bits p) joined-Fits).packing)

pub drain_none : (w : Bool) (p : Payload) → p.bit_count ≡ 0 → drain w p ≡ p
unfolding drain
drain_none w p h = drain_loop_none p.bit_count w p h
