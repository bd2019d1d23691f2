-- ===== src/Fru/Names.antt =====
-- The names of the inventory's properties and sections in ipmi_fru_info_area.cpp, as characters.
use phosphor_host_ipmid.Prelude.{ℕ, List, [], ◌∷◌}

-- "Part Number"
abbrev pub part_number : List ℕ
part_number = 80 ∷ 97 ∷ 114 ∷ 116 ∷ 32 ∷ 78 ∷ 117 ∷ 109 ∷ 98 ∷ 101 ∷ 114 ∷ []

-- "Serial Number"
abbrev pub serial_number : List ℕ
serial_number = 83 ∷ 101 ∷ 114 ∷ 105 ∷ 97 ∷ 108 ∷ 32 ∷ 78 ∷ 117 ∷ 109 ∷ 98 ∷ 101 ∷ 114 ∷ []

-- "Manufacturer"
abbrev pub manufacturer : List ℕ
manufacturer = 77 ∷ 97 ∷ 110 ∷ 117 ∷ 102 ∷ 97 ∷ 99 ∷ 116 ∷ 117 ∷ 114 ∷ 101 ∷ 114 ∷ []

-- "Mfg Date"
abbrev pub build_date : List ℕ
build_date = 77 ∷ 102 ∷ 103 ∷ 32 ∷ 68 ∷ 97 ∷ 116 ∷ 101 ∷ []

-- "Model Number"
abbrev pub model_number : List ℕ
model_number = 77 ∷ 111 ∷ 100 ∷ 101 ∷ 108 ∷ 32 ∷ 78 ∷ 117 ∷ 109 ∷ 98 ∷ 101 ∷ 114 ∷ []

-- "Name"
abbrev pub pretty_name : List ℕ
pretty_name = 78 ∷ 97 ∷ 109 ∷ 101 ∷ []

-- "Version"
abbrev pub version : List ℕ
version = 86 ∷ 101 ∷ 114 ∷ 115 ∷ 105 ∷ 111 ∷ 110 ∷ []

-- "Type"
abbrev pub type_name : List ℕ
type_name = 84 ∷ 121 ∷ 112 ∷ 101 ∷ []

-- "Board"
abbrev pub board : List ℕ
board = 66 ∷ 111 ∷ 97 ∷ 114 ∷ 100 ∷ []

-- "Chassis"
abbrev pub chassis : List ℕ
chassis = 67 ∷ 104 ∷ 97 ∷ 115 ∷ 115 ∷ 105 ∷ 115 ∷ []

-- "Product"
abbrev pub product : List ℕ
product = 80 ∷ 114 ∷ 111 ∷ 100 ∷ 117 ∷ 99 ∷ 116 ∷ []
