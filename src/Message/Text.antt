-- ===== src/Message/Text.antt =====
-- Strings with a length byte: the `std::string` specializations of pack.hpp and unpack.hpp of
-- include/ipmid/message/, on a byte boundary.
use phosphor_host_ipmid.Prelude.{
  ℕ, ◌+◌, ◌-◌, ◌*◌, ◌/◌, ◌^◌, ◌%◌, ◌≤◌, ◌<◌, ◌≡◌, refl, sym, ap, ◌∙◌, arith, false, List, [], ◌∷◌,
  ◌++◌, append_assoc, length, length-append, lt→ltb, le→ltb, eq→==, ap₂, get_or, take, drop,
  drop-append, some, drop-drop,
}
use phosphor_host_ipmid.Message.Payload.{Payload, append, pop}
use phosphor_host_ipmid.Message.Payload.Stream.{drain_none}
use phosphor_host_ipmid.Message.Pack.{pack_text, pack_uint}
use phosphor_host_ipmid.Message.Unpack.{Outcome, ok, failed, fault, unpack_text, text_range}

pack_length :
    (n : ℕ) (p : Payload)
    → p.bit_count ≡ 0
    → n < 256
    → pack_uint 1 n p ≡ record p { raw = p.raw ++ n ∷ [] }
unfolding pack_uint
pack_length n p aligned small =
    rw (eq→== p.bit_count 0 aligned) (ap (λ (t : ℕ). record p { raw = p.raw ++ t ∷ [] }) same)
  where
    same : n / 2 ^ (8 * 0) % 256 ≡ n
    same = omega arith

append_aligned :
    (s : List ℕ) (p : Payload) → p.bit_count ≡ 0 → append s p ≡ record p { raw = p.raw ++ s }
unfolding append
append_aligned s p aligned = rw (drain_none false p aligned)

-- A string of up to 255 characters is packed as its length and its characters.
pack_text-raw :
    (s : List ℕ) (p : Payload)
    → p.bit_count ≡ 0
    → length s < 256
    → pack_text s p ≡ (0, record p { raw = p.raw ++ (length s ∷ s) })
unfolding pack_text
pack_text-raw s p aligned short =
    let q = record p { raw = p.raw ++ length s ∷ [] } in
    rw
      (
        le→ltb 255 (length s) (omega arith),
        pack_length (length s) p aligned short,
        append_aligned s q aligned,
      )
      (ap (λ (t : List ℕ). (0, record p { raw = t })) (append_assoc p.raw (length s ∷ []) s))

get_or-middle : (xs : List ℕ) (y : ℕ) (ys : List ℕ) → get_or (xs ++ (y ∷ ys)) (length xs) 0 ≡ y
get_or-middle [] y ys = refl
get_or-middle (x ∷ xs) y ys = get_or-middle xs y ys

drop-middle : (xs : List ℕ) (y : ℕ) (ys : List ℕ) → drop (length xs + 1) (xs ++ (y ∷ ys)) ≡ ys
drop-middle xs y ys =
    sym (drop-drop (length xs) 1 (xs ++ (y ∷ ys))) ∙ ap (drop 1) (drop-append xs (y ∷ ys))

take-all : (xs : List ℕ) → take (length xs) xs ≡ xs
take-all [] = refl
take-all (x ∷ xs) = ap (◌∷◌ x) (take-all xs)

-- A payload on a byte boundary whose next byte is the length of the string that follows, and that
-- ends with it.
pub record TextNext (s : List ℕ) (p : Payload) : Type 0 where
  pub before : List ℕ
  pub raw : p.raw ≡ before ++ (length s ∷ s)
  pub index : p.raw_index ≡ length before
  pub aligned : p.bit_count ≡ 0
  pub below_size_max : length p.raw < 2 ^ 64

pop_aligned :
    (n : ℕ) (p : Payload)
    → p.bit_count ≡ 0
    → p.raw_index + n ≤ length p.raw
    → pop n p ≡ (some (take n (drop p.raw_index p.raw)), record p { raw_index = p.raw_index + n })
unfolding pop
pop_aligned n p aligned fits = rw (eq→== p.bit_count 0 aligned) (ground arith)

module _ (s : List ℕ) (p : Payload) (h : TextNext s p) where
  open h use {before}

  total : length p.raw ≡ length before + 1 + length s
  total = ap length h.raw ∙ length-append before (length s ∷ s) ∙ omega arith

  size : get_or p.raw p.raw_index 0 ≡ length s
  size =
      ap₂ (λ (xs : List ℕ) (i : ℕ). get_or xs i 0) h.raw h.index ∙ get_or-middle before (length s) s

  chars : take (length s) (drop (p.raw_index + 1) p.raw) ≡ s
  chars =
      ap₂ (λ (xs : List ℕ) (i : ℕ). take (length s) (drop (i + 1) xs)) h.raw h.index
      ∙ ap (take (length s)) (drop-middle before (length s) s)
      ∙ take-all s

  unpack_text-range :
      unpack_text p ≡ text_range (some s, record p { raw_index = p.raw_index + 1 + length s })
  unfolding unpack_text
  unpack_text-range = rw (
    le→ltb ((length p.raw + 2 ^ 64 - 1) % 2 ^ 64) p.raw_index
        (omega (arith, h.index, h.below_size_max, total)),
    lt→ltb p.raw_index (length p.raw) (omega (arith, h.index, total)),
    size,
    pop_aligned (length s) (record p { raw_index = p.raw_index + 1 }) h.aligned
        (omega (arith, h.index, total)),
    chars,
  )

-- The reader stands where the string was packed.
abbrev pub at_text : List ℕ → Payload → Payload
at_text s p = record (pack_text s p).1 { raw_index = length p.raw }

at_text-TextNext :
    (s : List ℕ) (p : Payload)
    → p.bit_count ≡ 0
    → length s < 256
    → length p.raw + 256 < 2 ^ 64
    → TextNext s (at_text s p)
at_text-TextNext s p aligned short small = rw (pack_text-raw s p aligned short) (record {
  before = p.raw;
  raw = refl;
  index = refl;
  aligned = aligned;
  below_size_max = omega (arith, length-append p.raw (length s ∷ s));
})

-- A string of 1 to 255 characters that is packed on a byte boundary is read back whole, and the
-- reader stands behind it. An empty string is packed without an error too, and reading it back fails.
pub unpack_text-pack_text :
    (s : List ℕ) (p : Payload)
    → p.bit_count ≡ 0
    → length s < 256
    → length p.raw + 256 < 2 ^ 64
    → ((pack_text s p).0 ≡ 0)
      × (0 < length s → (unpack_text (at_text s p)).0 ≡ ok s)
      × (0 < length s → (unpack_text (at_text s p)).1.raw_index ≡ length p.raw + 1 + length s)
      × (length s ≡ 0 → (unpack_text (at_text s p)).0 ≡ failed)
unpack_text-pack_text s p aligned short small =
    let run = unpack_text-range s (at_text s p) (at_text-TextNext s p aligned short small) in
    let q = record (at_text s p) { raw_index = length p.raw + 1 + length s } in
    (
      ap (λ (m : ℕ × Payload). m.0) (pack_text-raw s p aligned short),
      λ some. ap (λ (m : Outcome (List ℕ) × Payload). m.0) run ∙ range_some s q some,
      λ some. ap (λ (m : Outcome (List ℕ) × Payload). m.1.raw_index) run ∙ range_index s q some,
      λ none. ap (λ (m : Outcome (List ℕ) × Payload). m.0) run ∙ range_none s q none,
    )
  where
    range_some : (s : List ℕ) (q : Payload) → 0 < length s → (text_range (some s, q)).0 ≡ ok s
    range_some [] q h = elim h [ ]
    range_some (c ∷ cs) q h = refl

    range_index :
        (s : List ℕ) (q : Payload)
        → 0 < length s
        → (text_range (some s, q)).1.raw_index ≡ q.raw_index
    range_index [] q h = elim h [ ]
    range_index (c ∷ cs) q h = refl

    range_none : (s : List ℕ) (q : Payload) → length s ≡ 0 → (text_range (some s, q)).0 ≡ failed
    range_none [] q h = refl
    range_none (c ∷ cs) q h = absurd (omega arith)

-- Reading a string from a message without bytes reads past its end: the test for the length byte
-- wraps around. In every other message a missing length byte is an error.
pub unpack_text-past_end :
    (p : Payload)
    → p.raw_index ≤ length p.raw
    → length p.raw < 2 ^ 64
    → p.raw_index ≡ length p.raw
    → ((length p.raw ≡ 0 → (unpack_text p).0 ≡ fault))
      × (0 < length p.raw → (unpack_text p).0 ≡ failed)
unfolding unpack_text
unpack_text-past_end p inside small end = (
  λ empty. rw (
    le→ltb ((length p.raw + 2 ^ 64 - 1) % 2 ^ 64) p.raw_index (omega arith),
    le→ltb p.raw_index (length p.raw) (omega arith),
  ),
  λ some. rw (lt→ltb ((length p.raw + 2 ^ 64 - 1) % 2 ^ 64) p.raw_index (omega arith)),
)
