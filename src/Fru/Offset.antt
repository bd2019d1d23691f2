-- ===== src/Fru/Offset.antt =====
-- `buildCommonHeaderSection` of ipmi_fru_info_area.cpp: the byte of the header for one area.
use phosphor_host_ipmid.Prelude.{
  ap₂, ℕ, ◌+◌, ◌*◌, ◌/◌, ◌%◌, ◌≤◌, ◌<◌, ◌≡◌, refl, ap, ◌∙◌, List, [], ◌∷◌, ◌++◌, arith, length,
  take, drop, take-append, drop-append, ℕ_discrete, eq→==, ne→==, ◌==◌, if◌then◌else◌,
}
use phosphor_host_ipmid.Fru.{FruAreaData, build_common_header_section}

-- The byte of the common header for an area: 0 for an empty one, and else the area's place in units
-- of eight bytes, which is not 0.
pub data Located (blob : FruAreaData) (byte : ℕ) (area : FruAreaData) : Type 0 where
  absent : area ≡ [] → byte ≡ 0 → Located blob byte area
  present :
      0 < length area
      → 0 < byte
      → take (length area) (drop (byte * 8) blob) ≡ area
      → Located blob byte area

abbrev pub offset_byte : ℕ → ℕ → ℕ
offset_byte offset size = if size == 0 then 0 else offset / 8

pub section-aligned :
    (size offset : ℕ) (area : FruAreaData)
    → offset % 8 ≡ 0
    → offset + size < 2048
    → build_common_header_section size (offset, area)
      ≡ (offset + size, area ++ offset_byte offset size ∷ [])
unfolding build_common_header_section
section-aligned size offset area whole small = elim (ℕ_discrete size 0) [
  | yes e ↦ rw (eq→== size 0 e) (ap (λ (n : ℕ). (n, area ++ 0 ∷ [])) (same_offset e))
  | no e ↦ rw (ne→== size 0 e, whole) (ap₂ (λ (n b : ℕ). (n, area ++ b ∷ [])) next_offset byte)
]
  where
    same_offset : size ≡ 0 → offset ≡ offset + size
    same_offset e = omega arith

    next_offset : ((offset + 0) % 65536 + size) % 65536 ≡ offset + size
    next_offset = omega arith

    byte : (offset + 0) % 65536 / 8 % 256 ≡ offset / 8
    byte = omega arith

-- A list in the middle of another.
take-drop-middle : (xs ys zs : List ℕ) → take (length ys) (drop (length xs) (xs ++ (ys ++ zs))) ≡ ys
take-drop-middle xs ys zs = ap (take (length ys)) (drop-append xs (ys ++ zs)) ∙ take-append ys zs

pub located :
    (before area after : FruAreaData) (offset : ℕ)
    → offset ≡ length before
    → offset % 8 ≡ 0
    → 8 ≤ offset
    → Located (before ++ (area ++ after)) (offset_byte offset (length area)) area
located before [] after offset e whole least = absent refl refl
located before (x ∷ xs) after offset e whole least = rw (ne→== (length (x ∷ xs)) 0 (omega arith)) (
    present (omega arith) (omega arith) (
      ap (λ (n : ℕ). take (length (x ∷ xs)) (drop n (before ++ (x ∷ xs ++ after)))) place
      ∙ take-drop-middle before (x ∷ xs) after))
  where
    place : offset / 8 * 8 ≡ length before
    place = omega (arith, e, whole)
