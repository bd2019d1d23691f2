-- ===== src/Message/Layout.antt =====
-- Messages made of fields of a fixed width (integers, fixed_uint_t, bool, std::bitset), and the bits
-- that stand for them: the specification of pack.hpp and unpack.hpp on such messages.
pub mod Packing
pub mod Taking
pub mod Trailing
use phosphor_host_ipmid.Prelude.{
  ℕ, ◌+◌, ◌*◌, ◌^◌, ◌≤◌, ◌<◌, ◌≡◌, refl, Bool, true, false, List, [], ◌∷◌, ◌++◌, length,
  length-append, arith,
}
use phosphor_host_ipmid.Prelude.Bits.{to_bits, length-to_bits}
use phosphor_host_ipmid.Message.Item.{
  Item, Items, uint, fixed, flag, bitset, nil, cons, text, absent, present, array, vector, bytes,
  tuple, payload, Ty, Tys, uint_ty, fixed_ty, flag_ty, bitset_ty, nil_ty, cons_ty,
}
use phosphor_host_ipmid.Message.Pack.{bit_of}

-- A field, in the range of its type. The mask of a fixed_uint_t is shifted as an `int` in unpack.hpp,
-- so its fields have at most 30 bits here; a std::bitset has up to 64.
pub data Field : Item → Ty → ℕ → ℕ → Type 0 where
  uint_field :
      (size v : ℕ) → size ≤ 8 → v < 2 ^ (8 * size) → Field (uint size v) (uint_ty size) (8 * size) v
  fixed_field :
      (count v : ℕ) → count ≤ 30 → v < 2 ^ count → Field (fixed count v) (fixed_ty count) count v
  flag_field : (b : Bool) → Field (flag b) flag_ty 1 (bit_of b)
  bitset_field :
      (count v : ℕ) → count ≤ 64 → v < 2 ^ count → Field (bitset count v) (bitset_ty count) count v

-- A message of such fields, with the bits that stand for it.
pub data Layout : Items → Tys → List ℕ → Type 0 where
  no_fields : Layout nil nil_ty []
  field :
      {x : Item} {t : Ty} {xs : Items} {ts : Tys} {bs : List ℕ} (width v : ℕ)
      → Field x t width v
      → Layout xs ts bs
      → Layout (cons x xs) (cons_ty t ts) (to_bits width v ++ bs)
