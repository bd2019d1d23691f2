-- ===== src/Fru/Header.antt =====
-- `buildFruAreaData` of ipmi_fru_info_area.cpp: the common header points at the areas.
use phosphor_host_ipmid.Prelude.{
  same, ℕ, ◌+◌, ◌-◌, ◌/◌, ◌%◌, ◌<◌, ◌≡◌, refl, sym, ◌∙◌, inl, inr, true, false, List, [], ◌∷◌, ◌++◌,
  Option, none, some, arith, All, length, get_or, take, replicate, length-append, length-replicate,
  append_assoc, All-append, lt→ltb, ◌==◌, if◌then◌else◌,
}
use phosphor_host_ipmid.Fru.Builders.{absent_area, Built, build_info_areas-Built}
use mathlib.Core.Path.{subst}
use phosphor_host_ipmid.Prelude.Bits.{IsByte}
use phosphor_host_ipmid.Fru.{
  FruAreaData, PropertyMap, FruInventoryData, ℤ, find, sum, append_data_checksum, area_of, assemble,
  build_chassis_info_area, build_board_info_area, build_product_info_area, build_fru_area_data,
}
use phosphor_host_ipmid.Fru.Names
use phosphor_host_ipmid.Fru.Area.{
  append_data_checksum-sum, append_data_checksum-bytes, append_data_checksum-length, All-replicate,
}
use phosphor_host_ipmid.Fru.Field.{Texts, Holds}
use phosphor_host_ipmid.Fru.Offset.{Located, offset_byte, section-aligned, located}

-- A blob with the three areas in it.
pub record WellFormed (blob chassis_area board_area prod_area : FruAreaData) : Type 0 where
  pub chassis_at : Located blob (get_or blob 2 0) chassis_area
  pub board_at : Located blob (get_or blob 3 0) board_area
  pub product_at : Located blob (get_or blob 4 0) prod_area
  pub header_sum : sum (take 8 blob) % 256 ≡ 0
  pub size : length blob ≡ 10208
  pub all_bytes : All IsByte blob

Built-whole : {most : ℕ} {area : FruAreaData} → Built most area → length area % 8 ≡ 0
Built-whole b = elim b.framed [ inl e ↦ rw e | inr a ↦ a.whole ]

Built-bytes : {most : ℕ} {area : FruAreaData} → Built most area → All IsByte area
Built-bytes b = elim b.framed [ inl e ↦ rw e tt | inr a ↦ a.all_bytes ]

abbrev header_of : (x y z : ℕ) → FruAreaData
header_of x y z = append_data_checksum (1 ∷ 0 ∷ x ∷ y ∷ z ∷ 0 ∷ 0 ∷ [])

module _ {a b c : FruAreaData} (ha : Built 141 a) (hb : Built 273 b) (hc : Built 335 c) where
  abbrev header : FruAreaData
  header =
      header_of (offset_byte 8 (length a)) (offset_byte (8 + length a) (length b))
        (offset_byte (8 + length a + length b) (length c))

  abbrev filled : FruAreaData
  filled = header ++ a ++ b ++ c

  abbrev filler : FruAreaData
  filler = replicate (10208 - length filled) 255

  header-length : length header ≡ 8
  header-length = append_data_checksum-length (
      1
      ∷ 0
      ∷ offset_byte 8 (length a)
      ∷ offset_byte (8 + length a) (length b)
      ∷ offset_byte (8 + length a + length b) (length c)
      ∷ 0
      ∷ 0
      ∷ [])

  front-length : length (header ++ a) ≡ 8 + length a
  front-length = omega (arith, length-append header a, header-length)

  middle-length : length (header ++ a ++ b) ≡ 8 + length a + length b
  middle-length = omega (arith, length-append (header ++ a) b, front-length)

  filled-length : length filled ≡ 8 + length a + length b + length c
  filled-length = omega (arith, length-append (header ++ a ++ b) c, middle-length)

  assemble-eq : assemble a b c ≡ filled ++ filler
  unfolding assemble append_data_checksum
  assemble-eq =
      rw
        (
          section-aligned (length a) 8 (1 ∷ 0 ∷ []) (omega arith) (omega (arith, ha.small)),
          section-aligned (length b) (8 + length a) (1 ∷ 0 ∷ offset_byte 8 (length a) ∷ [])
              (omega (arith, Built-whole ha)) (omega (arith, ha.small, hb.small)),
          section-aligned (length c) (8 + length a + length b)
              (1 ∷ 0 ∷ offset_byte 8 (length a) ∷ offset_byte (8 + length a) (length b) ∷ [])
              (omega (arith, Built-whole ha, Built-whole hb))
              (omega (arith, ha.small, hb.small, hc.small)),
          lt→ltb (length filled) 10208 (omega (arith, filled-length, ha.small, hb.small, hc.small)),
        )
        refl

  at_a : filled ++ filler ≡ header ++ (a ++ (b ++ (c ++ filler)))
  at_a =
      append_assoc (header ++ a ++ b) c filler
      ∙ append_assoc (header ++ a) b (c ++ filler)
      ∙ append_assoc header a (b ++ (c ++ filler))

  at_b : filled ++ filler ≡ (header ++ a) ++ (b ++ (c ++ filler))
  at_b = append_assoc (header ++ a ++ b) c filler ∙ append_assoc (header ++ a) b (c ++ filler)

  blob-length : length (filled ++ filler) ≡ 10208
  blob-length = omega (
    arith,
    length-append filled filler,
    length-replicate {A = ℕ} (10208 - length filled) 255,
    filled-length,
    ha.small,
    hb.small,
    hc.small,
  )

  header-sum : sum (take 8 (filled ++ filler)) % 256 ≡ 0
  unfolding append_data_checksum
  header-sum = append_data_checksum-sum (
      1
      ∷ 0
      ∷ offset_byte 8 (length a)
      ∷ offset_byte (8 + length a) (length b)
      ∷ offset_byte (8 + length a + length b) (length c)
      ∷ 0
      ∷ 0
      ∷ [])

  offset_byte-IsByte : (offset size : ℕ) → offset < 2048 → IsByte (offset_byte offset size)
  offset_byte-IsByte offset size h =
      elim (size == 0) as (λ t. IsByte (if t then 0 else offset / 8)) [
        | true ↦ omega arith
        | false ↦ omega arith
      ]

  header-bytes : All IsByte header
  header-bytes =
      append_data_checksum-bytes
        (1
          ∷ 0
          ∷ offset_byte 8 (length a)
          ∷ offset_byte (8 + length a) (length b)
          ∷ offset_byte (8 + length a + length b) (length c)
          ∷ 0
          ∷ 0
          ∷ [])
        (
          omega arith,
          (
            omega arith,
            (
              offset_byte-IsByte 8 (length a) (omega arith),
              (
                offset_byte-IsByte (8 + length a) (length b) (omega (arith, ha.small)),
                (
                  offset_byte-IsByte (8 + length a + length b) (length c)
                      (omega (arith, ha.small, hb.small)),
                  (omega arith, (omega arith, tt)),
                ),
              ),
            ),
          ),
        )

  blob-bytes : All IsByte (filled ++ filler)
  blob-bytes =
      All-append IsByte filled filler
        (All-append IsByte (header ++ a ++ b) c
          (All-append IsByte (header ++ a) b
            (All-append IsByte header a header-bytes (Built-bytes ha)) (Built-bytes hb))
          (Built-bytes hc))
        (All-replicate (10208 - length filled) 255 (omega arith))

  assembled-WellFormed : WellFormed (filled ++ filler) a b c
  unfolding append_data_checksum
  assembled-WellFormed = record {
    chassis_at =
        subst (λ (blob : FruAreaData). Located blob (get_or (filled ++ filler) 2 0) a) (sym at_a)
          (located header a (b ++ (c ++ filler)) 8 (sym header-length) (omega arith) (omega arith));
    board_at =
        subst (λ (blob : FruAreaData). Located blob (get_or (filled ++ filler) 3 0) b) (sym at_b)
          (located (header ++ a) b (c ++ filler) (8 + length a) (sym front-length)
            (omega (arith, Built-whole ha)) (omega arith));
    product_at =
        subst (λ (blob : FruAreaData). Located blob (get_or (filled ++ filler) 4 0) c)
          (sym (append_assoc (header ++ a ++ b) c filler))
          (located (header ++ a ++ b) c filler (8 + length a + length b) (sym middle-length)
            (omega (arith, Built-whole ha, Built-whole hb)) (omega arith));
    header_sum = header-sum;
    size = blob-length;
    all_bytes = blob-bytes;
  }

-- The properties of every section have strings of bytes as their values.
abbrev pub AllTexts : FruInventoryData → Type 0
AllTexts inventory = All (λ (e : List ℕ × PropertyMap). Texts e.1) inventory

find-AllTexts : (key : List ℕ) (m : FruInventoryData) → AllTexts m → Holds Texts (find key m)
unfolding find
find-AllTexts key [] h = tt
find-AllTexts key ((k, v) ∷ m) h =
    elim (same k key) as (λ t. Holds Texts (if t then some v else find key m)) [
      | true ↦ h.0
      | false ↦ find-AllTexts key m h.1
    ]

area_of-Built :
    {most : ℕ} (build : PropertyMap → FruAreaData) (o : Option PropertyMap)
    → ((m : PropertyMap) → Texts m → Built most (build m))
    → Holds Texts o
    → Built most (area_of build o)
area_of-Built build none built h = absent_area
area_of-Built build (some m) built h = built m h

-- The blob of an inventory whose values are bytes has 10208 bytes. The eight bytes of its header
-- sum up to a multiple of 256, and the header's third, fourth and fifth byte, times eight, are
-- where the chassis, board and product area start; a byte is 0 where the area is missing.
pub build_fru_area_data-WellFormed :
    (time_string_to_raw : List ℕ → ℤ) (inventory : FruInventoryData)
    → AllTexts inventory
    → WellFormed
        (build_fru_area_data time_string_to_raw inventory)
        (area_of build_chassis_info_area (find Names.chassis inventory))
        (area_of (build_board_info_area time_string_to_raw) (find Names.board inventory))
        (area_of build_product_info_area (find Names.product inventory))
unfolding build_fru_area_data
build_fru_area_data-WellFormed time inventory texts =
    let ha =
      area_of-Built build_chassis_info_area (find Names.chassis inventory)
        (λ m h. (build_info_areas-Built time m h).0)
        (find-AllTexts Names.chassis inventory texts) in
    let hb =
      area_of-Built (build_board_info_area time) (find Names.board inventory)
        (λ m h. (build_info_areas-Built time m h).1.0)
        (find-AllTexts Names.board inventory texts) in
    let hc =
      area_of-Built build_product_info_area (find Names.product inventory)
        (λ m h. (build_info_areas-Built time m h).1.1)
        (find-AllTexts Names.product inventory texts) in
    rw (assemble-eq ha hb hc) (assembled-WellFormed ha hb hc)
