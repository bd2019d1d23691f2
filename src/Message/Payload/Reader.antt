-- ===== src/Message/Payload/Reader.antt =====
-- The payload of include/ipmid/message.hpp as a list of bits, the least significant first: what
-- is left to unpack.
use native.Mathlib.Nat.{mod-eq_of_lt, mul-le-mul, pow-le-pow_right}
use phosphor_host_ipmid.Prelude.{
  ℕ, zero, suc, ◌+◌, ◌-◌, ◌*◌, ◌%◌, ◌^◌, ◌≤◌, ◌<◌, bit_or, ◌≡◌, refl, sym, ap, ◌∙◌, true, false,
  List, [], ◌∷◌, ◌++◌, append_assoc, lt→ltb, le→ltb, arith, All, length, get_or, drop,
  drop-eq-get_or, dec_lt,
}
use phosphor_host_ipmid.Prelude.Bits.{
  to_bits, to_bits-add, byte_bits, bit_or_fields, field_bound, IsByte,
}
use phosphor_host_ipmid.Message.Payload.{Payload, fill_byte, fill_loop, fill_bits}
use phosphor_host_ipmid.Message.Payload.Stream.{Fits}

-- The bits that are left: those of the stream, then the bytes from the index on.
abbrev pub remaining : Payload → List ℕ
remaining p = to_bits p.bit_count p.bit_stream ++ byte_bits (drop p.raw_index p.raw)

-- Between two unpacks less than a byte is in the stream.
pub record Reading (p : Payload) : Type 0 where
  pub fits : Fits p
  pub partial : p.bit_count < 8
  pub inside : p.raw_index ≤ length p.raw
  pub all_bytes : All IsByte p.raw

pub IsByte-get_or : (bs : List ℕ) (i : ℕ) → All IsByte bs → get_or bs i 0 < 256
IsByte-get_or [] i h = omega arith
IsByte-get_or (b ∷ bs) zero h = h.0
IsByte-get_or (b ∷ bs) (suc i) h = IsByte-get_or bs i h.1

suc-eq-add-one : (n : ℕ) → suc n ≡ n + 1
suc-eq-add-one n = omega arith

module _ (p : Payload) (f : Fits p) (h : All IsByte p.raw) (room : p.bit_count < 64) where
  shift-fits : get_or p.raw p.raw_index 0 * 2 ^ p.bit_count < 2 ^ 72
  shift-fits = omega (
    arith,
    mul-le-mul {n₁ = get_or p.raw p.raw_index 0} {m₁ = 2 ^ p.bit_count} {n₂ = 255} {m₂ = 2 ^ 64}
        (omega (arith, IsByte-get_or p.raw p.raw_index h))
        (pow-le-pow_right {n = 2} (omega arith) {i = p.bit_count} {j = 64} (omega arith)),
  )

  fill :
      bit_or p.bit_stream (get_or p.raw p.raw_index 0 * 2 ^ p.bit_count % 2 ^ 72)
      ≡ p.bit_stream + get_or p.raw p.raw_index 0 * 2 ^ p.bit_count
  fill =
      rw (mod-eq_of_lt shift-fits)
        (bit_or_fields p.bit_count p.bit_stream (get_or p.raw p.raw_index 0) f)

  fill_byte-Fits : Fits (fill_byte p)
  fill_byte-Fits =
      rw fill (field_bound p.bit_count 8 p.bit_stream _ f (IsByte-get_or p.raw p.raw_index h))

  remaining-fill_byte : p.raw_index < length p.raw → remaining (fill_byte p) ≡ remaining p
  remaining-fill_byte more =
      ap (λ (t : ℕ). to_bits (p.bit_count + 8) t ++ byte_bits (drop (p.raw_index + 1) p.raw)) fill
      ∙ ap (λ (t : List ℕ). t ++ byte_bits (drop (p.raw_index + 1) p.raw))
          (to_bits-add p.bit_count 8 p.bit_stream (get_or p.raw p.raw_index 0) f)
      ∙ append_assoc (to_bits p.bit_count p.bit_stream) (to_bits 8 (get_or p.raw p.raw_index 0))
          (byte_bits (drop (p.raw_index + 1) p.raw))
      ∙ ap (λ (t : List ℕ). to_bits p.bit_count p.bit_stream ++ byte_bits t) front
    where
      front : get_or p.raw p.raw_index 0 ∷ drop (p.raw_index + 1) p.raw ≡ drop p.raw_index p.raw
      front = sym (
          drop-eq-get_or p.raw_index p.raw 0 more
          ∙ ap (λ (t : ℕ). get_or p.raw p.raw_index 0 ∷ drop t p.raw) (suc-eq-add-one p.raw_index))

-- `fillBits` moved bytes from the message to the stream, and left the list of bits as it was.
pub record Filled (count : ℕ) (p q : Payload) : Type 0 where
  pub fits : Fits q
  pub enough : count ≤ q.bit_count
  pub little_more : q.bit_count < count + 8
  pub inside : q.raw_index ≤ length q.raw
  pub same_raw : q.raw ≡ p.raw
  pub same : remaining q ≡ remaining p
  pub same_error : q.unpack_error ≡ p.unpack_error

-- The bits that a payload still has.
abbrev pub bits_left : Payload → ℕ
bits_left p = p.bit_count + 8 * (length p.raw - p.raw_index)

fill_loop-Filled :
    (fuel count : ℕ) (p : Payload)
    → Fits p
    → All IsByte p.raw
    → p.raw_index ≤ length p.raw
    → count ≤ 64
    → p.bit_count < count + 8
    → count ≤ p.bit_count + 8 * fuel
    → count ≤ bits_left p
    → (q : Payload) × (fill_loop fuel count p ≡ (false, q)) × Filled count p q
unfolding fill_loop
fill_loop-Filled zero count p f h inside le64 few fuel enough = (
  p,
  refl,
  record {
    fits = f;
    enough = omega arith;
    little_more = few;
    inside = inside;
    same_raw = refl;
    same = refl;
    same_error = refl;
  },
)
fill_loop-Filled (suc fuel) count p f h inside le64 few fuel_enough enough =
    elim (dec_lt p.bit_count count) [
      | no done ↦ (
        p,
        rw (le→ltb p.bit_count count (omega arith)),
        record {
          fits = f;
          enough = omega arith;
          little_more = few;
          inside = inside;
          same_raw = refl;
          same = refl;
          same_error = refl;
        },
      )
      | yes short ↦
          let more : p.raw_index < length p.raw = omega arith in
          let (q, e, filled) =
            fill_loop-Filled fuel count (fill_byte p) (fill_byte-Fits p f h (omega arith)) h
              (omega arith) le64 (omega arith) (omega arith) (omega arith) in
          (
            q,
            rw (lt→ltb p.bit_count count short, lt→ltb p.raw_index (length p.raw) more) e,
            record {
              fits = filled.fits;
              enough = filled.enough;
              little_more = filled.little_more;
              inside = filled.inside;
              same_raw = filled.same_raw;
              same = filled.same ∙ remaining-fill_byte p f h (omega arith) more;
              same_error = filled.same_error;
            },
          )
    ]

-- With too few bits left it reports an error.
fill_loop_short :
    (fuel count : ℕ) (p : Payload)
    → p.raw_index ≤ length p.raw
    → count ≤ p.bit_count + 8 * fuel
    → bits_left p < count
    → (fill_loop fuel count p).0 ≡ true
unfolding fill_loop
fill_loop_short zero count p inside fuel short = absurd (omega arith)
fill_loop_short (suc fuel) count p inside fuel_enough short =
    elim (dec_lt p.raw_index (length p.raw)) [
      | no none ↦
          rw (
            lt→ltb p.bit_count count (omega arith),
            le→ltb p.raw_index (length p.raw) (omega arith),
          )
      | yes more ↦
          rw (lt→ltb p.bit_count count (omega arith), lt→ltb p.raw_index (length p.raw) more)
            (fill_loop_short fuel count (fill_byte p) (omega arith) (omega arith) (omega arith))
    ]

pub fill_bits-Filled :
    (count : ℕ) (p : Payload)
    → Reading p
    → count ≤ 64
    → count ≤ bits_left p
    → (q : Payload) × (fill_bits count p ≡ (false, q)) × Filled count p q
unfolding fill_bits
fill_bits-Filled count p r le64 enough = rw (le→ltb 64 count le64) (
    fill_loop-Filled count count p r.fits r.all_bytes r.inside le64 (omega (arith, r.partial))
      (omega arith) enough)

pub fill_bits_short :
    (count : ℕ) (p : Payload) → Reading p → bits_left p < count → (fill_bits count p).0 ≡ true
unfolding fill_bits
fill_bits_short count p r short = elim (dec_lt 64 count) [
  | yes large ↦ rw (lt→ltb 64 count large)
  | no small ↦
      rw (le→ltb 64 count (omega arith))
        (fill_loop_short count count p r.inside (omega arith) short)
]
