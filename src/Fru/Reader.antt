-- ===== src/Fru/Reader.antt =====
-- The fields of the areas of ipmi_fru_info_area.cpp, read as the specification reads them.
use phosphor_host_ipmid.Prelude.{
  ◌-◌, ◌/◌, ℕ, zero, suc, ◌+◌, ◌%◌, ◌≡◌, ◌≢◌, refl, sym, ap, ◌∙◌, List, [], ◌∷◌, ◌++◌, Option, none,
  some, arith, length, take, drop, replicate, append_assoc, append-nil, take-append, drop-append,
  Bool-cases, inl, inr, ◌==◌, if◌then◌else◌, ne→==,
}
use phosphor_host_ipmid.Fru.{
  PropertyMap, find, sum, field_of, chassis_type_of, append_data_checksum, pad_data,
  post_format_processing, pre_format_processing, append_data, append_chassis_type,
  build_chassis_info_area,
}
use phosphor_host_ipmid.Fru.Names
use phosphor_host_ipmid.Fru.Field.{stored, stored-length, field_of-stored}

-- The values of at most so many fields: the low six bits of a type and length byte count the
-- characters after it, and the byte C1h ends the fields.
abbrev pub read_fields : ℕ → List ℕ → List (List ℕ)
read_fields zero bytes = []
read_fields (suc n) [] = []
read_fields (suc n) (t ∷ rest) =
    if t == 193 then [] else take (t % 64) rest ∷ read_fields n (drop (t % 64) rest)

abbrev pub value_of : Option (List ℕ) → List ℕ
value_of none = []
value_of (some v) = stored v

-- A value of one character gets the byte C1h.
abbrev pub NotSingle : Option (List ℕ) → Type 0
NotSingle o = length (value_of o) ≢ 1

field_of-none : field_of none ≡ 0 ∷ []
unfolding field_of
field_of-none = refl

read_fields-field :
    (n : ℕ) (o : Option (List ℕ)) (tail : List ℕ)
    → NotSingle o
    → read_fields (suc n) (field_of o ++ tail) ≡ value_of o ∷ read_fields n tail
read_fields-field n none tail h = rw field_of-none refl
read_fields-field n (some v) tail h =
    rw (field_of-stored v, ne→== (length (stored v) + 192) 193 (λ e. h (omega (arith, e))), low)
      (rw (take-append (stored v) tail, drop-append (stored v) tail) refl)
  where
    low : (length (stored v) + 192) % 64 ≡ length (stored v)
    low = omega (arith, stored-length v)

read_fields-single :
    (n : ℕ) (v tail : List ℕ)
    → length (stored v) ≡ 1
    → read_fields (suc n) (field_of (some v) ++ tail) ≡ []
read_fields-single n v tail h = rw (field_of-stored v, h) refl

pad-zeros : (area : List ℕ) → (zeros : List ℕ) × (pad_data area ≡ area ++ zeros)
unfolding pad_data
pad-zeros area = elim (Bool-cases ((length area + 1) % 8 == 0)) [
  | inl e ↦ ([], rw e (sym (append-nil area)))
  | inr e ↦ (replicate (8 - (length area + 1) % 8) 0, rw e refl)
]

-- The padding and the checksum of an area go behind its fields.
record Finished (x y : ℕ) (body : List ℕ) : Type 0 where
  units : ℕ
  tail : List ℕ
  is : post_format_processing (x ∷ y ∷ body) ≡ x ∷ units ∷ (body ++ tail)

post_format-tail : (x y : ℕ) (body : List ℕ) → Finished x y body
unfolding post_format_processing append_data_checksum
post_format-tail x y body =
    let (zeros, e) = pad-zeros (x ∷ y ∷ body) in
    let units = (length (x ∷ y ∷ (body ++ zeros)) + 1) / 8 % 256 in
    let check = (256 - sum (x ∷ units ∷ (body ++ zeros)) % 256) % 256 in
    record {
      units = units;
      tail = zeros ++ check ∷ [];
      is = rw e (ap (λ (l : List ℕ). x ∷ units ∷ l) (append_assoc body zeros (check ∷ [])));
    }

-- Two fields, then whatever stands behind the end mark.
read_fields-two :
    (n : ℕ) (oa ob : Option (List ℕ)) (tail : List ℕ)
    → NotSingle oa
    → NotSingle ob
    → read_fields (suc (suc (suc n))) ((field_of oa ++ field_of ob ++ 193 ∷ []) ++ tail)
      ≡ value_of oa ∷ value_of ob ∷ []
read_fields-two n oa ob tail ha hb =
    rw
      (
        append_assoc (field_of oa ++ field_of ob) (193 ∷ []) tail,
        append_assoc (field_of oa) (field_of ob) (193 ∷ tail),
        read_fields-field (suc (suc n)) oa (field_of ob ++ 193 ∷ tail) ha,
        read_fields-field (suc n) ob (193 ∷ tail) hb,
      )
      refl

-- Reading the fields of a chassis area gives its model and serial number back, without a leading
-- 0x or 0X and cut to 63 characters, if neither is one character long then.
pub read_fields-chassis :
    (n : ℕ) (e : List ℕ × List ℕ) (m : PropertyMap)
    → NotSingle (find Names.model_number (e ∷ m))
    → NotSingle (find Names.serial_number (e ∷ m))
    → read_fields (suc (suc (suc n))) (drop 3 (build_chassis_info_area (e ∷ m)))
      ≡ value_of (find Names.model_number (e ∷ m))
        ∷ value_of (find Names.serial_number (e ∷ m))
        ∷ []
unfolding build_chassis_info_area pre_format_processing append_chassis_type append_data
read_fields-chassis n e m model serial =
    let oa = find Names.model_number (e ∷ m) in
    let ob = find Names.serial_number (e ∷ m) in
    let t = chassis_type_of (find Names.type_name (e ∷ m)) in
    let end = post_format-tail 1 0 (t ∷ (field_of oa ++ field_of ob ++ 193 ∷ [])) in
    ap (λ (area : List ℕ). read_fields (suc (suc (suc n))) (drop 3 area)) end.is
    ∙ read_fields-two n oa ob end.tail model serial

single_ends :
    (n : ℕ) (o : Option (List ℕ)) (v rest : List ℕ)
    → o ≡ some v
    → length (stored v) ≡ 1
    → read_fields n (field_of o ++ rest) ≡ []
single_ends zero o v rest e one = refl
single_ends (suc n) o v rest e one = rw e (read_fields-single n v rest one)

-- Reading a chassis area whose model number is one character long, without a leading 0x, finds no
-- field at all, not even the serial number: its type and length byte is the one that ends the
-- fields.
pub read_fields-single_model :
    (n : ℕ) (e : List ℕ × List ℕ) (m : PropertyMap) (v : List ℕ)
    → find Names.model_number (e ∷ m) ≡ some v
    → length (stored v) ≡ 1
    → read_fields n (drop 3 (build_chassis_info_area (e ∷ m))) ≡ []
unfolding build_chassis_info_area pre_format_processing append_chassis_type append_data
read_fields-single_model n e m v model one =
    let oa = find Names.model_number (e ∷ m) in
    let ob = find Names.serial_number (e ∷ m) in
    let t = chassis_type_of (find Names.type_name (e ∷ m)) in
    let end = post_format-tail 1 0 (t ∷ (field_of oa ++ field_of ob ++ 193 ∷ [])) in
    ap (λ (area : List ℕ). read_fields n (drop 3 area)) end.is
    ∙ ap (read_fields n) (
        append_assoc (field_of oa ++ field_of ob) (193 ∷ []) end.tail
        ∙ append_assoc (field_of oa) (field_of ob) (193 ∷ end.tail))
    ∙ single_ends n oa v (field_of ob ++ 193 ∷ end.tail) model one
