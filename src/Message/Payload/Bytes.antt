-- ===== src/Message/Payload/Bytes.antt =====
-- The payload of include/ipmid/message.hpp holds bytes, whatever is packed into it.
use phosphor_host_ipmid.Prelude.{
  ℕ, zero, suc, inl, inr, Bool, true, Bool-cases, All, All-append, arith,
}
use phosphor_host_ipmid.Prelude.Bits.{IsByte}
use phosphor_host_ipmid.Message.Payload.{
  Payload, drain_byte, drains, drain_loop, drain, append_bits,
}

abbrev pub AllBytes : Payload → Type 0
AllBytes p = All IsByte p.raw

drain_byte-AllBytes : (p : Payload) → AllBytes p → AllBytes (drain_byte p)
drain_byte-AllBytes p h = All-append IsByte p.raw _ h (omega arith, tt)

drain_loop-AllBytes :
    (fuel : ℕ) (w : Bool) (p : Payload) → AllBytes p → AllBytes (drain_loop fuel w p)
unfolding drain_loop
drain_loop-AllBytes zero w p h = h
drain_loop-AllBytes (suc fuel) w p h = elim (Bool-cases (drains w p)) [
  | inl e ↦ rw e (drain_loop-AllBytes fuel w (drain_byte p) (drain_byte-AllBytes p h))
  | inr e ↦ rw e h
]

pub drain-AllBytes : (w : Bool) (p : Payload) → AllBytes p → AllBytes (drain w p)
unfolding drain
drain-AllBytes w p h = drain_loop-AllBytes p.bit_count w p h

pub append_bits-AllBytes :
    (count bits : ℕ) (p : Payload) → AllBytes p → AllBytes (append_bits count bits p)
unfolding append_bits
append_bits-AllBytes count bits p h = drain-AllBytes true _ (drain-AllBytes true p h)
