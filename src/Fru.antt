-- ===== src/Fru.antt =====
-- ipmi_fru_info_area.cpp: the FRU blob of an inventory item. Strings are lists of characters,
-- the maps association lists, in which the first entry of a name counts.
pub mod Names
pub mod Stoi
pub mod Area
pub mod Field
pub mod Builders
pub mod Offset
pub mod Header
pub mod Reader
use phosphor_host_ipmid.Prelude.{
  same, ℕ, ◌+◌, ◌-◌, ◌*◌, ◌/◌, ◌%◌, min, bit_or, Bool, true, false, ◌&&◌, ◌||◌, not, List, [], ◌∷◌,
  ◌++◌, Option, none, some, ltb, leb, ◌==◌, if◌then◌else◌, length, set, take, drop, replicate,
}

abbrev pub FruAreaData : Type 0
FruAreaData = List ℕ

abbrev pub PropertyMap : Type 0
PropertyMap = List (List ℕ × List ℕ)

abbrev pub FruInventoryData : Type 0
FruInventoryData = List (List ℕ × PropertyMap)

-- time_t
pub data ℤ : Type 0 where
  pos : ℕ → ℤ
  negsuc : ℕ → ℤ

unfoldable pub find {ℓ} : {A : Type ℓ} → List ℕ → List (List ℕ × A) → Option A
find key [] = none
find key ((k, v) ∷ m) = if same k key then some v else find key m

abbrev pub spec_version : ℕ
spec_version = 1

abbrev pub record_unit_of_measurement : ℕ
record_unit_of_measurement = 8

abbrev pub checksum_size : ℕ
checksum_size = 1

abbrev pub end_of_custom_fields : ℕ
end_of_custom_fields = 193

abbrev pub common_header_format_size : ℕ
common_header_format_size = 8

abbrev pub type_ascii : ℕ
type_ascii = 192

abbrev pub max_record_attribute_value : ℕ
max_record_attribute_value = 63

abbrev pub secs_from_1970_1996 : ℕ
secs_from_1970_1996 = 820454400

abbrev pub secs_to_max_mfgdate : ℕ
secs_to_max_mfgdate = secs_from_1970_1996 + 60 * 16777215

abbrev pub fru_min_size : ℕ
fru_min_size = 10208

abbrev pub fru_pad_value : ℕ
fru_pad_value = 255

unfoldable pub pre_format_processing : Bool → FruAreaData → FruAreaData
pre_format_processing lang_code area =
    (area ++ spec_version ∷ 0 ∷ []) ++ (if lang_code then 0 ∷ [] else [])

abbrev pub sum : List ℕ → ℕ
sum [] = 0
sum (x ∷ xs) = x + sum xs

-- The sum is cut to a byte, and so is its negation.
unfoldable pub append_data_checksum : FruAreaData → FruAreaData
append_data_checksum area = area ++ ((256 - sum area % 256) % 256) ∷ []

unfoldable pub pad_data : FruAreaData → FruAreaData
pad_data area =
    let pad = (length area + checksum_size) % record_unit_of_measurement in
    if not (pad == 0) then area ++ replicate (record_unit_of_measurement - pad) 0 else area

-- The area has its first two bytes, so `at` does not throw.
unfoldable pub post_format_processing : FruAreaData → FruAreaData
unfolding append_data_checksum pad_data
post_format_processing area =
    let padded = pad_data area in
    append_data_checksum
      (set padded 1 ((length padded + checksum_size) / record_unit_of_measurement % 256))

abbrev pub chassis_type_of : Option (List ℕ) → ℕ
chassis_type_of none = 0
chassis_type_of (some value) = elim (Stoi.stoi_byte value) [ none ↦ 0 | some t ↦ t ]

unfoldable pub append_chassis_type : PropertyMap → FruAreaData → FruAreaData
append_chassis_type properties area = area ++ chassis_type_of (find Names.type_name properties) ∷ []

-- A leading 0x or 0X goes.
unfoldable pub without_0x : List ℕ → List ℕ
without_0x value =
    if same (take 2 value) (48 ∷ 120 ∷ []) || same (take 2 value) (48 ∷ 88 ∷ [])
    then drop 2 value
    else value

unfoldable pub field_of : Option (List ℕ) → List ℕ
unfolding without_0x
field_of none = 0 ∷ []
field_of (some text) =
    let value = without_0x text in
    let value_length =
      if ltb max_record_attribute_value (length value)
      then max_record_attribute_value
      else length value in
    bit_or value_length type_ascii ∷ take value_length value

unfoldable pub append_data : List ℕ → PropertyMap → FruAreaData → FruAreaData
unfolding field_of
append_data key properties area = area ++ field_of (find key properties)

abbrev pub minutes_of : ℤ → List ℕ
minutes_of (negsuc n) = 0 ∷ 0 ∷ 0 ∷ []
minutes_of (pos raw) =
    if leb secs_from_1970_1996 raw && leb raw secs_to_max_mfgdate
    then (let m = (raw - secs_from_1970_1996) / 60 in
        (m % 256) ∷ (m / 256 % 256) ∷ (m / 65536 % 256) ∷ [])
    else 0 ∷ 0 ∷ 0 ∷ []

-- The section of the common header for an area of the size, and the offset after it.
unfoldable pub build_common_header_section : ℕ → ℕ × FruAreaData → ℕ × FruAreaData
build_common_header_section info_area_size (offset, area) =
    if info_area_size == 0
    then (offset, area ++ 0 ∷ [])
    else (let remainder = offset % record_unit_of_measurement in
        let aligned =
          (offset + (if ltb 0 remainder then record_unit_of_measurement - remainder else 0))
          % 65536 in
        (
          (aligned + info_area_size) % 65536,
          area ++ (aligned / record_unit_of_measurement % 256) ∷ [],
        ))

abbrev pub is_empty {ℓ} : {A : Type ℓ} → List A → Bool
is_empty [] = true
is_empty (x ∷ xs) = false

unfoldable pub build_chassis_info_area : PropertyMap → FruAreaData
unfolding pre_format_processing append_chassis_type append_data post_format_processing
build_chassis_info_area properties =
    if is_empty properties
    then []
    else (let area_1 = append_chassis_type properties (pre_format_processing false []) in
        let area_2 = append_data Names.model_number properties area_1 in
        let area_3 = append_data Names.serial_number properties area_2 in
        post_format_processing (area_3 ++ end_of_custom_fields ∷ []))

unfoldable pub build_product_info_area : PropertyMap → FruAreaData
unfolding pre_format_processing append_data post_format_processing
build_product_info_area properties =
    if is_empty properties
    then []
    else (let area_1 = append_data Names.manufacturer properties (pre_format_processing true []) in
        let area_2 = append_data Names.pretty_name properties area_1 in
        let area_3 = append_data Names.model_number properties area_2 in
        let area_4 = append_data Names.version properties area_3 in
        let area_5 = append_data Names.serial_number properties area_4 in
        post_format_processing
          ((((area_5 ++ 0 ∷ []) ++ 0 ∷ []) ++ 0 ∷ []) ++ end_of_custom_fields ∷ []))

-- The area of a section, where the inventory has the section.
abbrev pub area_of : (PropertyMap → FruAreaData) → Option PropertyMap → FruAreaData
area_of build none = []
area_of build (some properties) = build properties

-- The header, then the areas, then padding.
unfoldable pub assemble : FruAreaData → FruAreaData → FruAreaData → FruAreaData
unfolding build_common_header_section append_data_checksum
assemble chassis_area board_area prod_area =
    let start : ℕ × FruAreaData = (common_header_format_size, spec_version ∷ 0 ∷ []) in
    let header_1 = build_common_header_section (length chassis_area) start in
    let header_2 = build_common_header_section (length board_area) header_1 in
    let header_3 = build_common_header_section (length prod_area) header_2 in
    let header = append_data_checksum ((header_3.1 ++ 0 ∷ []) ++ 0 ∷ []) in
    let comb_fru_area = ((header ++ chassis_area) ++ board_area) ++ prod_area in
    if ltb (length comb_fru_area) fru_min_size
    then comb_fru_area ++ replicate (fru_min_size - length comb_fru_area) fru_pad_value
    else comb_fru_area

-- `timeStringToRaw` reads a date by the locale and the time zone of the machine.
module _ (time_string_to_raw : List ℕ → ℤ) where
  abbrev pub mfg_date_of : Option (List ℕ) → List ℕ
  mfg_date_of none = 0 ∷ 0 ∷ 0 ∷ []
  mfg_date_of (some []) = 0 ∷ 0 ∷ 0 ∷ []
  mfg_date_of (some (c ∷ cs)) = minutes_of (time_string_to_raw (c ∷ cs))

  unfoldable pub append_mfg_date : PropertyMap → FruAreaData → FruAreaData
  append_mfg_date properties area = area ++ mfg_date_of (find Names.build_date properties)

  unfoldable pub build_board_info_area : PropertyMap → FruAreaData
  unfolding pre_format_processing append_data post_format_processing append_mfg_date
  build_board_info_area properties =
      if is_empty properties
      then []
      else (let area_1 = append_mfg_date properties (pre_format_processing true []) in
          let area_2 = append_data Names.manufacturer properties area_1 in
          let area_3 = append_data Names.pretty_name properties area_2 in
          let area_4 = append_data Names.serial_number properties area_3 in
          let area_5 = append_data Names.part_number properties area_4 in
          post_format_processing (((area_5 ++ 0 ∷ []) ++ 0 ∷ []) ++ end_of_custom_fields ∷ []))

  unfoldable pub build_fru_area_data : FruInventoryData → FruAreaData
  unfolding assemble build_chassis_info_area build_board_info_area build_product_info_area
  build_fru_area_data inventory =
      assemble (area_of build_chassis_info_area (find Names.chassis inventory))
        (area_of build_board_info_area (find Names.board inventory))
        (area_of build_product_info_area (find Names.product inventory))
