-- ===== src/Message/Layout/Trailing.antt =====
-- Unpacking fields of a fixed width leaves `Payload::trailingOk` as it is: only a Payload among the
-- arguments sets it.
use phosphor_host_ipmid.Prelude.{
  ℕ, zero, suc, ◌+◌, ◌*◌, ◌≡◌, refl, ◌∙◌, arith, Bool, true, false, List,
}
use phosphor_host_ipmid.Message.Payload.{Payload, pop_bits, fill_loop, fill_bits, fill_byte}
use phosphor_host_ipmid.Message.Item.{Item, Items, Ty, Tys}
use phosphor_host_ipmid.Message.Layout.{
  Field, uint_field, fixed_field, flag_field, bitset_field, Layout, no_fields, field,
}
use phosphor_host_ipmid.Message.Unpack.{
  Outcome, ok, failed, fault, unpack_bits, take_bits, unpack_uint, unpack_bytes_unaligned,
  unpack_single, unpack, with_unaligned, then_unpack,
}

fill_loop-trailing : (fuel n : ℕ) (p : Payload) → (fill_loop fuel n p).1.trailing_ok ≡ p.trailing_ok
unfolding fill_loop
fill_loop-trailing zero n p = refl
fill_loop-trailing (suc fuel) n p = ground (arith, fill_loop-trailing fuel n (fill_byte p))

fill_bits-trailing : (n : ℕ) (p : Payload) → (fill_bits n p).1.trailing_ok ≡ p.trailing_ok
unfolding fill_bits
fill_bits-trailing n p = ground (arith, fill_loop-trailing n n p)

pop_bits-trailing : (n : ℕ) (p : Payload) → (pop_bits n p).1.trailing_ok ≡ p.trailing_ok
unfolding pop_bits
pop_bits-trailing n p = ground arith

take_bits-trailing : (n : ℕ) (m : Bool × Payload) → (take_bits n m).1.trailing_ok ≡ m.1.trailing_ok
take_bits-trailing n (true, p) = refl
take_bits-trailing n (false, p) = refl

unaligned-trailing :
    (w k i : ℕ) (p : Payload) → (unpack_bytes_unaligned w k i p).1.trailing_ok ≡ p.trailing_ok
unfolding unpack_bytes_unaligned
unaligned-trailing zero k i p = refl
unaligned-trailing (suc w) k i p = unaligned-trailing w (k + 1) _ _ ∙ pop_bits-trailing 8 p

with_unaligned-trailing :
    (n : ℕ) (m : Bool × Payload) → (with_unaligned n m).1.trailing_ok ≡ m.1.trailing_ok
with_unaligned-trailing n (true, p) = refl
with_unaligned-trailing n (false, p) = unaligned-trailing n 0 0 p

unpack_uint-trailing : (n : ℕ) (p : Payload) → (unpack_uint n p).1.trailing_ok ≡ p.trailing_ok
unfolding unpack_uint
unpack_uint-trailing n p =
    ground (arith, with_unaligned-trailing n (fill_bits (8 * n) p), fill_bits-trailing (8 * n) p)

unpack_bits-trailing : (n : ℕ) (p : Payload) → (unpack_bits n p).1.trailing_ok ≡ p.trailing_ok
unfolding unpack_bits
unpack_bits-trailing n p = take_bits-trailing n (fill_bits n p) ∙ fill_bits-trailing n p

unpack_single-trailing :
    {x : Item} {t : Ty} {width v : ℕ} (p : Payload)
    → Field x t width v
    → (unpack_single t p).1.trailing_ok ≡ p.trailing_ok
unfolding unpack_single
unpack_single-trailing p (uint_field size v small fits) = unpack_uint-trailing size p
unpack_single-trailing p (fixed_field count v small fits) = unpack_bits-trailing count p
unpack_single-trailing p (flag_field b) = unpack_bits-trailing 1 p
unpack_single-trailing p (bitset_field count v small fits) = unpack_bits-trailing count p

then_unpack-trailing :
    (b : Bool) (m : Outcome Item × Payload) (rest : Payload → Outcome Items × Payload)
    → m.1.trailing_ok ≡ b
    → ((q : Payload) → (rest q).1.trailing_ok ≡ q.trailing_ok)
    → (then_unpack m rest).1.trailing_ok ≡ b
then_unpack-trailing b (ok t, q) rest e r = r q ∙ e
then_unpack-trailing b (failed, q) rest e r = e
then_unpack-trailing b (fault, q) rest e r = e

pub unpack-trailing :
    {xs : Items} {ts : Tys} {bs : List ℕ} (p : Payload)
    → Layout xs ts bs
    → (unpack ts p).1.trailing_ok ≡ p.trailing_ok
unfolding unpack
unpack-trailing p no_fields = refl
unpack-trailing p (field {t} {ts} width v f l) =
    then_unpack-trailing p.trailing_ok (unpack_single t p) (unpack ts) (unpack_single-trailing p f)
      (λ q. unpack-trailing q l)
