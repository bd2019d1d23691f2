-- ===== src/Channel/Names.antt =====
-- The names in the JSON files of user_channel/channel_mgmt.cpp and the numbers that they stand for.
use Prim.Native.String.{String}
use text.Mathlib.Text.{◌==◌ as str_eq}
use phosphor_host_ipmid.Prelude.{
  ℕ, Bool, ◌&&◌, List, [], ◌∷◌, Option, none, some, leb, if◌then◌else◌, get_elem?,
}
use phosphor_host_ipmid.User.Privilege.{distance_to}

abbrev pub access_mode_list : List String
access_mode_list = "disabled" ∷ "pre-boot" ∷ "always_available" ∷ "shared" ∷ []

abbrev pub session_support_list : List String
session_support_list = "session-less" ∷ "single-session" ∷ "multi-session" ∷ "session-based" ∷ []

abbrev pub priv_list : List String
priv_list =
    "priv-reserved" ∷ "priv-callback" ∷ "priv-user" ∷ "priv-operator" ∷ "priv-admin" ∷ "priv-oem"
    ∷ []

abbrev pub medium_type_map : List (String × ℕ)
medium_type_map =
    ("reserved", 0x00)
    ∷ ("ipmb", 0x01)
    ∷ ("icmb-v1.0", 0x02)
    ∷ ("icmb-v0.9", 0x03)
    ∷ ("lan-802.3", 0x04)
    ∷ ("serial", 0x05)
    ∷ ("other-lan", 0x06)
    ∷ ("pci-smbus", 0x07)
    ∷ ("smbus-v1.0", 0x08)
    ∷ ("smbus-v2.0", 0x09)
    ∷ ("usb-1x", 0x0A)
    ∷ ("usb-2x", 0x0B)
    ∷ ("system-interface", 0x0C)
    ∷ ("oem", 0x60)
    ∷ ("unknown", 0x82)
    ∷ []

abbrev pub protocol_type_map : List (String × ℕ)
protocol_type_map =
    ("na", 0x00)
    ∷ ("ipmb-1.0", 0x01)
    ∷ ("icmb-2.0", 0x02)
    ∷ ("reserved", 0x03)
    ∷ ("ipmi-smbus", 0x04)
    ∷ ("kcs", 0x05)
    ∷ ("smic", 0x06)
    ∷ ("bt-10", 0x07)
    ∷ ("bt-15", 0x08)
    ∷ ("tmode", 0x09)
    ∷ ("oem", 0x1C)
    ∷ []

-- `none` is the exception std::invalid_argument, here and below.
abbrev pub find_type : String → List (String × ℕ) → Option ℕ
find_type value [] = none
find_type value ((s, n) ∷ m) = if str_eq s value then some n else find_type value m

unfoldable pub convert_to_access_mode_index : String → Option ℕ
convert_to_access_mode_index mode = distance_to mode access_mode_list 0

unfoldable pub convert_to_access_mode_string : ℕ → Option String
convert_to_access_mode_string value = get_elem? access_mode_list value

unfoldable pub convert_to_priv_limit_index : String → Option ℕ
convert_to_priv_limit_index value = distance_to value priv_list 0

unfoldable pub convert_to_priv_limit_string : ℕ → Option String
convert_to_priv_limit_string value = get_elem? priv_list value

unfoldable pub convert_to_session_support_index : String → Option ℕ
convert_to_session_support_index value = distance_to value session_support_list 0

unfoldable pub convert_to_medium_type_index : String → Option ℕ
convert_to_medium_type_index value = find_type value medium_type_map

unfoldable pub convert_to_protocol_type_index : String → Option ℕ
convert_to_protocol_type_index value = find_type value protocol_type_map

-- isValidAccessMode of user_channel/channel_layer.cpp
unfoldable pub is_valid_access_mode : ℕ → Bool
is_valid_access_mode access_mode = leb 0 access_mode && leb access_mode 3
