-- ===== src/Fru/Field.antt =====
-- The fields of the areas in ipmi_fru_info_area.cpp: `appendData`, `appendMfgDate` and the chassis type.
use phosphor_host_ipmid.Fru.{
  Bool, secs_to_max_mfgdate, secs_from_1970_1996, PropertyMap, ℤ, pos, negsuc, find, without_0x,
  field_of, minutes_of, chassis_type_of,
}
use phosphor_host_ipmid.Prelude.{
  if-both, dec_lt, lt→ltb, le→ltb, take-all, ap₂, Bool-cases, ◌&&◌, ◌^◌, same, ℕ, ◌+◌, ◌-◌, ◌/◌,
  ◌%◌, ◌≤◌, ◌<◌, ◌≡◌, sym, ap, ◌∙◌, true, false, ◌||◌, List, [], ◌∷◌, Option, none, some, arith,
  All, length, take, length-take, All-take, ◌==◌, if◌then◌else◌, ltb, leb, inl, inr, bit_or,
}
use mathlib.Core.Path.{refl}
use phosphor_host_ipmid.Fru.Stoi.{
  low_byte, negative_byte, stoi_byte, signed_byte, digits, skip_spaces, in_range,
}
use phosphor_host_ipmid.Prelude.Bits.{IsByte, bit_or_fields}

-- Every value of the properties is a string of bytes.
abbrev pub Texts : PropertyMap → Type 0
Texts properties = All (λ (e : List ℕ × List ℕ). All IsByte e.1) properties

abbrev pub Holds {ℓ κ} : {A : Type ℓ} → (A → Type κ) → Option A → Type κ
Holds P none = Unit
Holds P (some a) = P a

pub find-Texts : (key : List ℕ) (m : PropertyMap) → Texts m → Holds (All IsByte) (find key m)
unfolding find
find-Texts key [] h = tt
find-Texts key ((k, v) ∷ m) h =
    elim (same k key) as (λ b. Holds (All IsByte) (if b then some v else find key m)) [
      | true ↦ h.0
      | false ↦ find-Texts key m h.1
    ]

-- A type and length byte is 192 more than the length.
pub type_length : (n : ℕ) → n < 64 → bit_or n 192 ≡ n + 192
type_length n h = bit_or_fields 6 n 3 h

-- The specification: a value without the first two characters where they are "0x" or "0X".
abbrev pub shown : List ℕ → List ℕ
shown [] = []
shown (c ∷ []) = c ∷ []
shown (c ∷ d ∷ v) = if (c == 48) && (d == 120 || d == 88) then v else c ∷ d ∷ v

without_0x-shown : (v : List ℕ) → without_0x v ≡ shown v
unfolding without_0x
without_0x-shown [] = refl
without_0x-shown (c ∷ []) = by (c == 48)
  where
    by : (b : Bool) → (if (b && false) || (b && false) then [] else c ∷ []) ≡ c ∷ []
    by true = refl
    by false = refl
without_0x-shown (c ∷ d ∷ v) = by (c == 48) (d == 120) (d == 88)
  where
    by :
        (b x y : Bool)
        → (if (b && (x && true)) || (b && (y && true)) then v else c ∷ d ∷ v)
          ≡ (if b && (x || y) then v else c ∷ d ∷ v)
    by true true y = refl
    by true false true = refl
    by true false false = refl
    by false x y = refl

-- The specification: what of a property's value goes into the field.
abbrev pub stored : List ℕ → List ℕ
stored value = take 63 (shown value)

shown-bytes : (v : List ℕ) → All IsByte v → All IsByte (shown v)
shown-bytes [] h = h
shown-bytes (c ∷ []) h = h
shown-bytes (c ∷ d ∷ v) h =
    if-both (All IsByte) ((c == 48) && (d == 120 || d == 88)) v (c ∷ d ∷ v) h.1.1 h

abbrev value_length : List ℕ → ℕ
value_length v = if ltb 63 (length v) then 63 else length v

value_length-min : (v : List ℕ) → value_length v ≡ length (take 63 v)
value_length-min v = elim (dec_lt 63 (length v)) [
  | yes h ↦ rw (lt→ltb 63 (length v) h) (omega (arith, length-take 63 v))
  | no h ↦ rw (le→ltb 63 (length v) (omega arith)) (omega (arith, length-take 63 v))
]

take-value_length : (v : List ℕ) → take (value_length v) v ≡ take 63 v
take-value_length v = elim (dec_lt 63 (length v)) [
  | yes h ↦ rw (lt→ltb 63 (length v) h)
  | no h ↦
      rw (le→ltb 63 (length v) (omega arith))
        (take-all (length v) v (omega arith) ∙ sym (take-all 63 v (omega arith)))
]

pub stored-length : (v : List ℕ) → length (stored v) ≤ 63
stored-length v = omega (arith, length-take 63 (shown v))

pub field_of-stored : (v : List ℕ) → field_of (some v) ≡ (length (stored v) + 192) ∷ stored v
unfolding field_of
field_of-stored v = rw (without_0x-shown v) (
    ap₂ (λ (n : ℕ) (t : List ℕ). n ∷ t)
      (ap (λ (n : ℕ). bit_or n 192) (value_length-min (shown v))
        ∙ type_length (length (stored v)) (omega (arith, stored-length v)))
      (take-value_length (shown v)))

-- At most `most` bytes.
pub record Short (most : ℕ) (bytes : List ℕ) : Type 0 where
  pub small : length bytes ≤ most
  pub all_bytes : All IsByte bytes

pub field_of-Short : (o : Option (List ℕ)) → Holds (All IsByte) o → Short 64 (field_of o)
unfolding field_of
field_of-Short none h = record { small = omega arith; all_bytes = (omega arith, tt) }
field_of-Short (some v) h = rw (field_of-stored v) (record {
  small = omega (arith, stored-length v);
  all_bytes = (omega (arith, stored-length v), All-take IsByte 63 (shown v) (shown-bytes v h));
})

pub minutes_of-Short : (t : ℤ) → Short 3 (minutes_of t)
minutes_of-Short (negsuc n) = record {
  small = omega arith;
  all_bytes = (omega arith, (omega arith, (omega arith, tt)));
}
minutes_of-Short (pos raw) =
    elim (leb 820454400 raw && leb raw secs_to_max_mfgdate)
      as (λ b. Short 3 (
        if b
        then (let m = (raw - secs_from_1970_1996) / 60 in
            (m % 256) ∷ (m / 256 % 256) ∷ (m / 65536 % 256) ∷ [])
        else 0 ∷ 0 ∷ 0 ∷ [])) [
          | true ↦ record {
            small = omega arith;
            all_bytes = (omega arith, (omega arith, (omega arith, tt)));
          }
          | false ↦ record {
            small = omega arith;
            all_bytes = (omega arith, (omega arith, (omega arith, tt)));
          }
        ]

in_range-IsByte : (n : Option ℕ) (most : ℕ) → Holds IsByte (low_byte (in_range most n))
in_range-IsByte none most = tt
in_range-IsByte (some n) most =
    elim (leb n most) as (λ b. Holds IsByte (low_byte (if b then some n else none))) [
      | true ↦ omega arith
      | false ↦ tt
    ]

in_range-negative : (n : Option ℕ) (most : ℕ) → Holds IsByte (negative_byte (in_range most n))
in_range-negative none most = tt
in_range-negative (some n) most =
    elim (leb n most) as (λ b. Holds IsByte (negative_byte (if b then some n else none))) [
      | true ↦ omega arith
      | false ↦ tt
    ]

signed_byte-IsByte : (v : List ℕ) → Holds IsByte (signed_byte v)
unfolding signed_byte
signed_byte-IsByte [] = tt
signed_byte-IsByte (c ∷ cs) = elim (Bool-cases (c == 45)) [
  | inl e ↦ rw e (in_range-negative (digits none cs) (2 ^ 31))
  | inr e ↦ rw e (elim (Bool-cases (c == 43)) [
    | inl e ↦ rw e (in_range-IsByte (digits none cs) (2 ^ 31 - 1))
    | inr e ↦ rw e (in_range-IsByte (digits none (c ∷ cs)) (2 ^ 31 - 1))
  ])
]

pub chassis_type_of-IsByte : (o : Option (List ℕ)) → IsByte (chassis_type_of o)
unfolding stoi_byte
chassis_type_of-IsByte none = omega arith
chassis_type_of-IsByte (some v) = go (stoi_byte v) (signed_byte-IsByte (skip_spaces v))
  where
    go : (o : Option ℕ) → Holds IsByte o → IsByte (elim o [ none ↦ 0 | some t ↦ t ])
    go none h = omega arith
    go (some t) h = h
