-- ===== src/Fru/Stoi.antt =====
-- `std::stoi` as ipmi_fru_info_area.cpp uses it: blanks, a sign, the digits that follow, and the
-- exceptions for no digits and for a number out of the range of `int`.
use phosphor_host_ipmid.Prelude.{
  ℕ, ◌+◌, ◌-◌, ◌*◌, ◌^◌, ◌%◌, Bool, ◌&&◌, ◌||◌, List, [], ◌∷◌, Option, none, some, leb, ◌==◌,
  if◌then◌else◌,
}

abbrev pub is_space : ℕ → Bool
is_space c = c == 32 || (leb 9 c && leb c 13)

abbrev pub is_digit : ℕ → Bool
is_digit c = leb 48 c && leb c 57

unfoldable pub skip_spaces : List ℕ → List ℕ
skip_spaces [] = []
skip_spaces (c ∷ cs) = if is_space c then skip_spaces cs else c ∷ cs

-- The number of the leading digits after `n`; `none` where there is no digit and none was seen.
unfoldable pub digits : Option ℕ → List ℕ → Option ℕ
digits seen [] = seen
digits none (c ∷ cs) = if is_digit c then digits (some (c - 48)) cs else none
digits (some n) (c ∷ cs) = if is_digit c then digits (some (n * 10 + (c - 48))) cs else some n

abbrev pub in_range : ℕ → Option ℕ → Option ℕ
in_range most none = none
in_range most (some n) = if leb n most then some n else none

-- The number as `uint8_t`: the low byte of its two's complement.
abbrev pub negative_byte : Option ℕ → Option ℕ
negative_byte none = none
negative_byte (some n) = some ((256 - n % 256) % 256)

abbrev pub low_byte : Option ℕ → Option ℕ
low_byte none = none
low_byte (some n) = some (n % 256)

unfoldable pub signed_byte : List ℕ → Option ℕ
unfolding digits
signed_byte [] = none
signed_byte (c ∷ cs) =
    if c == 45
    then negative_byte (in_range (2 ^ 31) (digits none cs))
    else if c == 43
    then low_byte (in_range (2 ^ 31 - 1) (digits none cs))
    else low_byte (in_range (2 ^ 31 - 1) (digits none (c ∷ cs)))

-- `uint8_t x = std::stoi(value)`; `none` where it throws.
unfoldable pub stoi_byte : List ℕ → Option ℕ
unfolding signed_byte skip_spaces
stoi_byte value = signed_byte (skip_spaces value)
