-- ===== src/Message/Layout/Taking.antt =====
-- Unpacking takes the fields of a message off its bits (`UnpackSingle` and `Payload::unpack`).
use native.Mathlib.Nat.{mod-eq_of_lt}
use phosphor_host_ipmid.Prelude.{
  ℕ, ◌*◌, ◌^◌, ◌≤◌, ◌<◌, ◌≡◌, refl, ap, ◌∙◌, arith, Bool, true, false, List, ◌++◌, append_assoc,
  length, length-append, take, drop, length-drop,
}
use phosphor_host_ipmid.Prelude.Bits.{
  to_bits, of_bits, of_bits-to_bits, length-to_bits, byte_bits, length-byte_bits, take-front,
  drop-front,
}
use phosphor_host_ipmid.Message.Payload.{Payload}
use phosphor_host_ipmid.Message.Payload.Reader.{remaining, Reading, bits_left}
use phosphor_host_ipmid.Message.Item.{Item, Items, cons, Ty, Tys, uint, flag, fixed, bitset}
use phosphor_host_ipmid.Message.Layout.{
  Field, uint_field, fixed_field, flag_field, bitset_field, Layout, no_fields, field,
}
use phosphor_host_ipmid.Message.Pack.{bit_of}
use phosphor_host_ipmid.Message.Unpack.{
  Outcome, ok, unpack_single, unpack, flag_of, as_item, then_unpack, map_outcome, unpack_uint,
  unpack_bits,
}
use phosphor_host_ipmid.Message.Unpack.Fields.{Reads, unpack_bits-Reads}
use phosphor_host_ipmid.Message.Unpack.Integers.{unpack_uint-Reads}

-- What a read of `width` bits makes of a list that begins with those of `v`.
Reads-field :
    (width v : ℕ) (rest : List ℕ) (p : Payload) (n : ℕ) (q : Payload)
    → v < 2 ^ width
    → remaining p ≡ to_bits width v ++ rest
    → Reads width p n q
    → (n ≡ v) × (remaining q ≡ rest)
Reads-field width v rest p n q fits e r = (
  r.value
      ∙ ap (λ (t : List ℕ). of_bits (take width t)) e
      ∙ ap of_bits (take-front width (to_bits width v) rest (length-to_bits width v))
      ∙ of_bits-to_bits width v
      ∙ mod-eq_of_lt fits,
  r.rest ∙ ap (drop width) e ∙ drop-front width (to_bits width v) rest (length-to_bits width v),
)

-- What is left after the field `x` was read off.
pub record Taken (x : Item) (rest : List ℕ) (p : Payload) (m : Outcome Item × Payload)
    : Type 0 where
  pub taken : m.0 ≡ ok x
  pub left : remaining m.1 ≡ rest
  pub reading : Reading m.1
  pub same_error : m.1.unpack_error ≡ p.unpack_error

pub length-remaining : (p : Payload) → length (remaining p) ≡ bits_left p
length-remaining p = omega (
  arith,
  length-append (to_bits p.bit_count p.bit_stream) (byte_bits (drop p.raw_index p.raw)),
  length-byte_bits (drop p.raw_index p.raw),
  length-to_bits p.bit_count p.bit_stream,
  length-drop p.raw_index p.raw,
)

enough_bits :
    (width v : ℕ) (rest : List ℕ) (p : Payload)
    → remaining p ≡ to_bits width v ++ rest
    → width ≤ bits_left p
enough_bits width v rest p e = omega (
  arith,
  length-remaining p,
  ap (length {A = ℕ}) e,
  length-append (to_bits width v) rest,
  length-to_bits width v,
)

flag_of-bit_of : (b : Bool) (n : ℕ) → n ≡ bit_of b → flag_of n ≡ b
flag_of-bit_of true n e = rw e
flag_of-bit_of false n e = rw e

bit_of-lt : (b : Bool) → bit_of b < 2 ^ 1
bit_of-lt true = omega arith
bit_of-lt false = omega arith

module _ (p : Payload) (h : Reading p) (rest : List ℕ) where
  take_field :
      {width v : ℕ} {x : Item} (mk : ℕ → Item) (m : Outcome ℕ × Payload)
      → v < 2 ^ width
      → remaining p ≡ to_bits width v ++ rest
      → (n : ℕ) (q : Payload) → m ≡ (ok n, q)
      → Reads width p n q
      → ((n : ℕ) → n ≡ v → mk n ≡ x)
      → Taken x rest p (as_item mk m)
  take_field {width} {v} mk m fits e n q run r good =
      let (value, left) = Reads-field width v rest p n q fits e r in
      rw run (record {
        taken = ap ok (good n value);
        left = left;
        reading = r.reading;
        same_error = r.same_error;
      })

  pub unpack_single-Taken :
      {x : Item} {t : Ty} {width v : ℕ}
      → Field x t width v
      → remaining p ≡ to_bits width v ++ rest
      → Taken x rest p (unpack_single t p)
  unfolding unpack_single
  unpack_single-Taken (uint_field size v small fits) e =
      let (n, q, run, r) = unpack_uint-Reads size p h (enough_bits (8 * size) v rest p e) small in
      take_field (uint size) (unpack_uint size p) fits e n q run r (λ n value. ap (uint size) value)
  unpack_single-Taken (fixed_field count v small fits) e =
      let (n, q, run, r) =
        unpack_bits-Reads count p h (omega (arith, small)) (enough_bits count v rest p e) in
      take_field (fixed count) (unpack_bits count p) fits e n q run r
        (λ n value. ap (fixed count) value)
  unpack_single-Taken (flag_field b) e =
      let (n, q, run, r) =
        unpack_bits-Reads 1 p h (omega arith) (enough_bits 1 (bit_of b) rest p e) in
      take_field (λ t. flag (flag_of t)) (unpack_bits 1 p) (bit_of-lt b) e n q run r
        (λ n value. ap flag (flag_of-bit_of b n value))
  unpack_single-Taken (bitset_field count v small fits) e =
      let (n, q, run, r) = unpack_bits-Reads count p h small (enough_bits count v rest p e) in
      take_field (bitset count) (unpack_bits count p) fits e n q run r
        (λ n value. ap (bitset count) value)

-- The same for a whole message.
pub record AllTaken (xs : Items) (rest : List ℕ) (p : Payload) (m : Outcome Items × Payload)
    : Type 0 where
  pub taken : m.0 ≡ ok xs
  pub left : remaining m.1 ≡ rest
  pub reading : Reading m.1
  pub same_error : m.1.unpack_error ≡ p.unpack_error

then_unpack_lem :
    (x : Item) (m : Outcome Item × Payload) (rest : Payload → Outcome Items × Payload)
    → m.0 ≡ ok x
    → then_unpack m rest ≡ (map_outcome (cons x) (rest m.1).0, (rest m.1).1)
then_unpack_lem x m rest e = rw e

pub unpack-AllTaken :
    {xs : Items} {ts : Tys} {bs : List ℕ} (p : Payload) (rest : List ℕ)
    → Layout xs ts bs
    → Reading p
    → remaining p ≡ bs ++ rest
    → AllTaken xs rest p (unpack ts p)
unfolding unpack
unpack-AllTaken p rest no_fields h e = record {
  taken = refl;
  left = e;
  reading = h;
  same_error = refl;
}
unpack-AllTaken p rest (field {x} {t} {xs} {ts} {bs} width v f l) h e =
    let m = unpack_single t p in
    let one = unpack_single-Taken p h (bs ++ rest) f (e ∙ append_assoc (to_bits width v) bs rest) in
    let more = unpack-AllTaken {xs = xs} {ts = ts} {bs = bs} m.1 rest l one.reading one.left in
    rw (then_unpack_lem x m (unpack ts) one.taken) (record {
      taken = ap (map_outcome (cons x)) more.taken;
      left = more.left;
      reading = more.reading;
      same_error = more.same_error ∙ one.same_error;
    })
