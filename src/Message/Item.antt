-- ===== src/Message/Item.antt =====
-- The values that include/ipmid/message/pack.hpp packs and unpack.hpp unpacks, one constructor for
-- each specialization of `PackSingle`, and their types, for `UnpackSingle`.
-- A `std::variant` packs as the alternative that it holds, so it has no constructor of its own.
use phosphor_host_ipmid.Prelude.{ℕ, Bool, List, [], ◌∷◌}
use phosphor_host_ipmid.Message.Payload.{Payload}

mutual
  pub data Item : Type 0 where
    -- an integral type of so many bytes
    uint : ℕ → ℕ → Item
    -- fixed_uint_t<N>
    fixed : ℕ → ℕ → Item
    flag : Bool → Item
    bitset : ℕ → ℕ → Item
    text : List ℕ → Item
    absent : Item
    present : Item → Item
    array : Items → Item
    vector : Items → Item
    -- std::vector<uint8_t> and std::string_view
    bytes : List ℕ → Item
    tuple : Items → Item
    payload : Payload → Item

  pub data Items : Type 0 where
    nil : Items
    cons : Item → Items → Items

-- The types of what is unpacked. A `std::vector` of other items than bytes is not among them.
mutual
  pub data Ty : Type 0 where
    uint_ty : ℕ → Ty
    fixed_ty : ℕ → Ty
    flag_ty : Ty
    bitset_ty : ℕ → Ty
    text_ty : Ty
    optional_ty : Ty → Ty
    array_ty : ℕ → Ty → Ty
    byte_array_ty : ℕ → Ty
    bytes_ty : Ty
    tuple_ty : Tys → Ty
    payload_ty : Ty

  pub data Tys : Type 0 where
    nil_ty : Tys
    cons_ty : Ty → Tys → Tys

-- An array of bytes, item by item.
abbrev pub byte_items : List ℕ → Items
byte_items [] = nil
byte_items (b ∷ bs) = cons (uint 1 b) (byte_items bs)
