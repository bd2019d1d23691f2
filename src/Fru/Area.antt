-- ===== src/Fru/Area.antt =====
-- The framing of the areas of ipmi_fru_info_area.cpp (`postFormatProcessing`): size, checksum.
use phosphor_host_ipmid.Prelude.Bits.{IsByte}
use phosphor_host_ipmid.Prelude.{
  ℕ, zero, suc, ◌+◌, ◌-◌, ◌*◌, ◌/◌, ◌%◌, ◌≤◌, ◌<◌, ◌≡◌, refl, ◌∙◌, List, [], ◌∷◌, ◌++◌, arith, All,
  length, get_or, set, replicate, length-append, length-replicate, length-set, All-append,
  ℕ_discrete, get_or-append_left, get_or-set_self, eq→==, ne→==,
}
use phosphor_host_ipmid.Fru.{
  FruAreaData, sum, append_data_checksum, pad_data, post_format_processing,
}

-- An area as the specification of FRU information wants it.
pub record IsArea (area : FruAreaData) : Type 0 where
  pub version : get_or area 0 0 ≡ 1
  pub whole : length area % 8 ≡ 0
  pub size : get_or area 1 0 * 8 ≡ length area
  pub checksum : sum area % 256 ≡ 0
  pub all_bytes : All IsByte area

sum-append : (xs ys : List ℕ) → sum (xs ++ ys) ≡ sum xs + sum ys
sum-append [] ys = omega arith
sum-append (x ∷ xs) ys = omega (arith, sum-append xs ys)

pub All-replicate : (n a : ℕ) → IsByte a → All IsByte (replicate n a)
All-replicate zero a h = tt
All-replicate (suc n) a h = (h, All-replicate n a h)

All-set : (xs : List ℕ) (i v : ℕ) → All IsByte xs → IsByte v → All IsByte (set xs i v)
All-set [] i v h k = tt
All-set (x ∷ xs) zero v h k = (k, h.1)
All-set (x ∷ xs) (suc i) v h k = (h.0, All-set xs i v h.1 k)

-- The last byte makes the sum of all a multiple of 256.
pub append_data_checksum-sum : (area : FruAreaData) → sum (append_data_checksum area) % 256 ≡ 0
unfolding append_data_checksum
append_data_checksum-sum area = omega (arith, sum-append area (((256 - sum area % 256) % 256) ∷ []))

pub append_data_checksum-length :
    (area : FruAreaData) → length (append_data_checksum area) ≡ length area + 1
unfolding append_data_checksum
append_data_checksum-length area = length-append area (((256 - sum area % 256) % 256) ∷ [])

pub append_data_checksum-bytes :
    (area : FruAreaData) → All IsByte area → All IsByte (append_data_checksum area)
unfolding append_data_checksum
append_data_checksum-bytes area h =
    All-append IsByte area (((256 - sum area % 256) % 256) ∷ []) h (omega arith, tt)

pub append_data_checksum-get_or :
    (area : FruAreaData) (i : ℕ)
    → i < length area
    → get_or (append_data_checksum area) i 0 ≡ get_or area i 0
unfolding append_data_checksum
append_data_checksum-get_or area i h =
    get_or-append_left area (((256 - sum area % 256) % 256) ∷ []) i 0 h

record Padded (area padded : FruAreaData) : Type 0 where
  room : (length padded + 1) % 8 ≡ 0
  least : length area ≤ length padded
  most : length padded ≤ length area + 7
  same_start : (i : ℕ) → i < length area → get_or padded i 0 ≡ get_or area i 0
  bytes : All IsByte padded

pad_data-Padded : (area : FruAreaData) → All IsByte area → Padded area (pad_data area)
unfolding pad_data
pad_data-Padded area h = elim (ℕ_discrete ((length area + 1) % 8) 0) [
  | yes e ↦ rw (eq→== ((length area + 1) % 8) 0 e) (record {
    room = e;
    least = omega arith;
    most = omega arith;
    same_start = λ i k. refl;
    bytes = h;
  })
  | no e ↦
      let zeros = replicate (8 - (length area + 1) % 8) 0 in
      let long = length-append area zeros in
      let short = length-replicate {A = ℕ} (8 - (length area + 1) % 8) 0 in
      rw (ne→== ((length area + 1) % 8) 0 e) (record {
        room = omega (arith, long, short);
        least = omega (arith, long);
        most = omega (arith, long, short);
        same_start = λ i k. get_or-append_left area zeros i 0 k;
        bytes =
            All-append IsByte area zeros h
              (All-replicate (8 - (length area + 1) % 8) 0 (omega arith));
      })
]

-- Index 0 of a list whose index 1 is written.
get_or-set_one : (xs : List ℕ) (v : ℕ) → get_or (set xs 1 v) 0 0 ≡ get_or xs 0 0
get_or-set_one [] v = refl
get_or-set_one (x ∷ xs) v = refl

-- What the body of an area becomes: an area, at most eight bytes longer.
pub post_format_processing-IsArea :
    (body : FruAreaData)
    → 2 ≤ length body
    → length body ≤ 2032
    → All IsByte body
    → get_or body 0 0 ≡ 1
    → IsArea (post_format_processing body)
unfolding post_format_processing
post_format_processing-IsArea body two most bytes version =
    let p = pad_data-Padded body bytes in
    let padded = pad_data body in
    let n = (length padded + 1) / 8 % 256 in
    let sized = set padded 1 n in
    let same_length = length-set padded 1 n in
    let total = append_data_checksum-length sized in
    record {
      version =
          append_data_checksum-get_or sized 0 (omega (arith, same_length, p.least))
          ∙ get_or-set_one padded n
          ∙ p.same_start 0 (omega arith)
          ∙ version;
      whole = omega (arith, total, same_length, p.room);
      size = omega (
        arith,
        total,
        same_length,
        p.room,
        p.most,
        append_data_checksum-get_or sized 1 (omega (arith, same_length, p.least))
            ∙ get_or-set_self padded 1 n 0 (omega (arith, p.least)),
      );
      checksum = append_data_checksum-sum sized;
      all_bytes = append_data_checksum-bytes sized (All-set padded 1 n p.bytes (omega arith));
    }

pub post_format_processing-length :
    (body : FruAreaData) → All IsByte body → length (post_format_processing body) ≤ length body + 8
unfolding post_format_processing
post_format_processing-length body bytes =
    let p = pad_data-Padded body bytes in
    let n = (length (pad_data body) + 1) / 8 % 256 in
    omega (
      arith,
      append_data_checksum-length (set (pad_data body) 1 n),
      length-set (pad_data body) 1 n,
      p.most,
    )
