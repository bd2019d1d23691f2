-- ===== src/Examples/Fru.antt =====
-- An inventory item of ipmi_fru_info_area.cpp.
use phosphor_host_ipmid.Prelude.{ℕ, ◌≡◌, refl, List, [], ◌∷◌, some, arith, length, drop}
use phosphor_host_ipmid.Fru.{
  PropertyMap, FruInventoryData, ℤ, negsuc, find, area_of, without_0x, build_chassis_info_area,
  build_board_info_area, build_product_info_area, build_fru_area_data,
}
use phosphor_host_ipmid.Fru.Names
use phosphor_host_ipmid.Fru.Field.{stored, Texts}
use phosphor_host_ipmid.Fru.Builders.{Built, build_info_areas-Built}
use phosphor_host_ipmid.Fru.Header.{WellFormed, build_fru_area_data-WellFormed}
use phosphor_host_ipmid.Fru.Reader.{
  read_fields, value_of, NotSingle, read_fields-chassis, read_fields-single_model,
}

-- Model "0xAB" and serial number "12".
abbrev entry : List ℕ × List ℕ
entry = (Names.model_number, 48 ∷ 120 ∷ 65 ∷ 66 ∷ [])

abbrev properties : PropertyMap
properties = (Names.serial_number, 49 ∷ 50 ∷ []) ∷ []

abbrev inventory : FruInventoryData
inventory = (Names.chassis, entry ∷ properties) ∷ (Names.product, entry ∷ properties) ∷ []

abbrev no_date : List ℕ → ℤ
no_date text = negsuc 0

properties-Texts : Texts (entry ∷ properties)
properties-Texts = (
  (omega arith, (omega arith, (omega arith, (omega arith, tt)))),
  ((omega arith, (omega arith, tt)), tt),
)

build_info_areas-Built_example :
    Built 141 (build_chassis_info_area (entry ∷ properties))
    × (Built 273 (build_board_info_area no_date (entry ∷ properties))
        × Built 335 (build_product_info_area (entry ∷ properties)))
build_info_areas-Built_example =
    build_info_areas-Built no_date (entry ∷ properties) properties-Texts

build_fru_area_data-WellFormed_example :
    WellFormed
      (build_fru_area_data no_date inventory)
      (area_of build_chassis_info_area (find Names.chassis inventory))
      (area_of (build_board_info_area no_date) (find Names.board inventory))
      (area_of build_product_info_area (find Names.product inventory))
build_fru_area_data-WellFormed_example =
    build_fru_area_data-WellFormed no_date inventory (properties-Texts, (properties-Texts, tt))

two_characters : NotSingle (find Names.model_number (entry ∷ properties))
unfolding find without_0x
two_characters = omega arith

two_digits : NotSingle (find Names.serial_number (entry ∷ properties))
unfolding find without_0x
two_digits = omega arith

read_fields-chassis_example :
    read_fields 3 (drop 3 (build_chassis_info_area (entry ∷ properties)))
    ≡ value_of (find Names.model_number (entry ∷ properties))
      ∷ value_of (find Names.serial_number (entry ∷ properties))
      ∷ []
read_fields-chassis_example = read_fields-chassis 0 entry properties two_characters two_digits

-- A model of one character.
abbrev short_entry : List ℕ × List ℕ
short_entry = (Names.model_number, 65 ∷ [])

one_letter : find Names.model_number (short_entry ∷ properties) ≡ some (65 ∷ [])
unfolding find
one_letter = refl

one_character : length (stored (65 ∷ [])) ≡ 1
unfolding without_0x
one_character = refl

read_fields-single_model_example :
    read_fields 5 (drop 3 (build_chassis_info_area (short_entry ∷ properties))) ≡ []
read_fields-single_model_example =
    read_fields-single_model 5 short_entry properties (65 ∷ []) one_letter one_character
