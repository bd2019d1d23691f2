-- ===== src/Fru/Builders.antt =====
-- The three builders of ipmi_fru_info_area.cpp: what each makes is an area of bounded length.
use phosphor_host_ipmid.Prelude.Bits.{IsByte}
use phosphor_host_ipmid.Prelude.{
  ℕ, ◌+◌, ◌≤◌, ◌≡◌, refl, ◌∙◌, Bool, true, false, List, [], ◌∷◌, ◌++◌, Option, none, some, arith,
  All, length, get_or, length-append, All-append, get_or-append_left, ◌⊎◌, inl, inr,
}
use phosphor_host_ipmid.Fru.{
  FruAreaData, PropertyMap, ℤ, find, mfg_date_of, chassis_type_of, pre_format_processing,
  append_chassis_type, append_data, append_mfg_date, post_format_processing,
  build_chassis_info_area, build_board_info_area, build_product_info_area,
}
use phosphor_host_ipmid.Fru.Area.{
  IsArea, post_format_processing-IsArea, post_format_processing-length,
}
use phosphor_host_ipmid.Fru.Names
use phosphor_host_ipmid.Fru.Field.{
  Short, Texts, find-Texts, field_of-Short, minutes_of-Short, chassis_type_of-IsByte,
}

-- The body of an area, of at most `most` bytes yet.
record Grown (most : ℕ) (area : FruAreaData) : Type 0 where
  small : length area ≤ most
  two : 2 ≤ length area
  version : get_or area 0 0 ≡ 1
  all_bytes : All IsByte area

grow :
    {most : ℕ} {area : FruAreaData} {n : ℕ} {bytes : List ℕ}
    → Grown most area
    → Short n bytes
    → Grown (most + n) (area ++ bytes)
grow {most} {area} {n} {bytes} g s = record {
  small = omega (arith, g.small, s.small, length-append area bytes);
  two = omega (arith, g.two, length-append area bytes);
  version = get_or-append_left area bytes 0 0 (omega (arith, g.two)) ∙ g.version;
  all_bytes = All-append IsByte area bytes g.all_bytes s.all_bytes;
}

grow_field :
    {most : ℕ} {area : FruAreaData} (key : List ℕ) (m : PropertyMap)
    → Texts m
    → Grown most area
    → Grown (most + 64) (append_data key m area)
unfolding append_data
grow_field key m h g = grow g (field_of-Short (find key m) (find-Texts key m h))

one : (b : ℕ) → IsByte b → Short 1 (b ∷ [])
one b h = record { small = omega arith; all_bytes = (h, tt) }

pre_format-Grown : (lang_code : Bool) → Grown 3 (pre_format_processing lang_code [])
unfolding pre_format_processing
pre_format-Grown true = record {
  small = omega arith;
  two = omega arith;
  version = refl;
  all_bytes = (omega arith, (omega arith, (omega arith, tt)));
}
pre_format-Grown false = record {
  small = omega arith;
  two = omega arith;
  version = refl;
  all_bytes = (omega arith, (omega arith, tt));
}

-- No area at all, or one in the format, of at most `most` bytes.
pub record Built (most : ℕ) (area : FruAreaData) : Type 0 where
  pub small : length area ≤ most
  pub framed : (area ≡ []) ⊎ IsArea area

finish :
    {most : ℕ} {area : FruAreaData}
    → most ≤ 2032
    → Grown most area
    → Built (most + 8) (post_format_processing area)
finish {most} {area} h g = record {
  small = omega (arith, g.small, post_format_processing-length area g.all_bytes);
  framed =
      inr (post_format_processing-IsArea area g.two (omega (arith, g.small)) g.all_bytes g.version);
}

pub absent_area : {most : ℕ} → Built most []
absent_area = record { small = omega arith; framed = inl refl }

build_chassis_info_area-Built : (m : PropertyMap) → Texts m → Built 141 (build_chassis_info_area m)
unfolding build_chassis_info_area append_chassis_type
build_chassis_info_area-Built [] h = absent_area
build_chassis_info_area-Built (e ∷ m) h =
    let ps = e ∷ m in
    finish (omega arith) (
      grow
        (grow_field Names.serial_number ps h (
          grow_field Names.model_number ps h (
            grow (pre_format-Grown false) (
              one (chassis_type_of (find Names.type_name ps))
                (chassis_type_of-IsByte (find Names.type_name ps))))))
        (one 193 (omega arith)))

build_product_info_area-Built : (m : PropertyMap) → Texts m → Built 335 (build_product_info_area m)
unfolding build_product_info_area
build_product_info_area-Built [] h = absent_area
build_product_info_area-Built (e ∷ m) h =
    let ps = e ∷ m in
    finish (omega arith) (
      grow
        (grow
          (grow
            (grow
              (grow_field Names.serial_number ps h (
                grow_field Names.version ps h (
                  grow_field Names.model_number ps h (
                    grow_field Names.pretty_name ps h
                      (grow_field Names.manufacturer ps h (pre_format-Grown true))))))
              (one 0 (omega arith)))
            (one 0 (omega arith)))
          (one 0 (omega arith)))
        (one 193 (omega arith)))

module _ (time_string_to_raw : List ℕ → ℤ) where
  mfg_date_of-Short : (o : Option (List ℕ)) → Short 3 (mfg_date_of time_string_to_raw o)
  mfg_date_of-Short none = record {
    small = omega arith;
    all_bytes = (omega arith, (omega arith, (omega arith, tt)));
  }
  mfg_date_of-Short (some []) = record {
    small = omega arith;
    all_bytes = (omega arith, (omega arith, (omega arith, tt)));
  }
  mfg_date_of-Short (some (c ∷ cs)) = minutes_of-Short (time_string_to_raw (c ∷ cs))

  build_board_info_area-Built :
      (m : PropertyMap) → Texts m → Built 273 (build_board_info_area time_string_to_raw m)
  unfolding build_board_info_area append_mfg_date
  build_board_info_area-Built [] h = absent_area
  build_board_info_area-Built (e ∷ m) h =
      let ps = e ∷ m in
      finish (omega arith) (
        grow
          (grow
            (grow
              (grow_field Names.part_number ps h (
                grow_field Names.serial_number ps h (
                  grow_field Names.pretty_name ps h (
                    grow_field Names.manufacturer ps h (
                      grow (pre_format-Grown true)
                        (mfg_date_of-Short (find Names.build_date ps)))))))
              (one 0 (omega arith)))
            (one 0 (omega arith)))
          (one 193 (omega arith)))

  -- From properties whose values are bytes, each builder makes nothing or an area whose first byte
  -- is the version, whose second byte counts its units of eight bytes, and whose bytes sum up to a
  -- multiple of 256; a chassis area has at most 141 bytes, a board area 273, a product area 335.
  pub build_info_areas-Built :
      (m : PropertyMap)
      → Texts m
      → Built 141 (build_chassis_info_area m)
        × (Built 273 (build_board_info_area time_string_to_raw m)
            × Built 335 (build_product_info_area m))
  build_info_areas-Built m h = (
    build_chassis_info_area-Built m h,
    (build_board_info_area-Built m h, build_product_info_area-Built m h),
  )
