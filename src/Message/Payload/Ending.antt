-- ===== src/Message/Payload/Ending.antt =====
-- The loops of `struct Payload` of include/ipmid/message.hpp, and their fuel.
use phosphor_host_ipmid.Prelude.{
  ℕ, zero, suc, ◌+◌, ◌-◌, ◌<◌, ◌≤◌, ◌≡◌, ◌⊎◌, inl, inr, refl, arith, Bool, true, false, not, ◌&&◌,
  ltb, if-both, length, Bool-cases, le→ltb,
}
use phosphor_host_ipmid.Message.Payload.{
  Payload, char_bit, bit_stream_size, drain_byte, drains, drain_loop, drain, fill_byte, fill_loop,
  fill_bits,
}

-- A loop that is entered has a bit at least.
has_bits : (w : Bool) (n : ℕ) → (ltb 0 n && not (ltb n char_bit && w)) ≡ true → 0 < n
has_bits w zero h = cc
has_bits w (suc n) h = omega arith

drain_loop-ended :
    (fuel : ℕ) (w : Bool) (p : Payload)
    → p.bit_count ≤ fuel
    → drains w (drain_loop fuel w p) ≡ false
unfolding drain_loop
drain_loop-ended zero w p h = rw (le→ltb 0 p.bit_count (omega (arith, h))) refl
drain_loop-ended (suc fuel) w p h = elim (Bool-cases (drains w p)) [
  | inl e ↦
      let some_bits : 0 < p.bit_count = has_bits w p.bit_count e in
      rw e (drain_loop-ended fuel w (drain_byte p) (omega (arith, h, some_bits)))
  | inr e ↦ rw (e, e) refl
]

-- The loop has failed, or has as many bits as are asked for.
abbrev Filled : ℕ → Bool × Payload → Type 0
Filled count r = (r.0 ≡ true) ⊎ (ltb r.1.bit_count count ≡ false)

fill_loop-Filled :
    (fuel count : ℕ) (p : Payload)
    → count ≤ p.bit_count + fuel
    → Filled count (fill_loop fuel count p)
unfolding fill_loop
fill_loop-Filled zero count p h = inr (le→ltb p.bit_count count (omega (arith, h)))
fill_loop-Filled (suc fuel) count p h = elim (Bool-cases (ltb p.bit_count count)) [
  | inl e ↦ rw e (
      if-both (Filled count) (ltb p.raw_index (length p.raw)) _ _
        (fill_loop-Filled fuel count (fill_byte p) (omega (arith, h))) (inl refl))
  | inr e ↦ rw e (inr e)
]

-- The fuel of both loops is enough, for every payload: `drain` ends where its condition to go on is
-- false, and `fillBits` has failed or holds the bits that were asked for.
pub loops-ended :
    (w : Bool) (count : ℕ) (p : Payload)
    → (drains w (drain w p) ≡ false)
      × (((fill_bits count p).0 ≡ true) ⊎ (ltb (fill_bits count p).1.bit_count count ≡ false))
unfolding drain fill_bits
loops-ended w count p = (
  drain_loop-ended p.bit_count w p (omega arith),
  if-both (Filled count) (ltb (bit_stream_size - char_bit) count) _ _ (inl refl)
      (fill_loop-Filled count count p (omega arith)),
)
