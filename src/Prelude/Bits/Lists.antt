-- ===== src/Prelude/Bits/Lists.antt =====
-- Numbers as lists of bits, the least significant first.
use Prim.Native.Nat.{ℕ, zero, suc, ◌+◌, ◌-◌, ◌*◌, ◌/◌, ◌%◌, ◌^◌, ◌≤◌, ◌<◌}
use mathlib.Core.Path.{◌≡◌, refl, sym, ap, ap₂, ◌∙◌, ◌≡⟨◌⟩◌, ◌∎}
use mathlib.Core.List.{List, [], ◌∷◌, ◌++◌}
use native.Mathlib.Omega.{arith}
use Prim.Native.Nat.add
use native.Mathlib.Nat.{pow-suc, pow-succ', div-div-eq-div-mul, div-lt_iff_lt-mul, one-le-pow}
use phosphor_host_ipmid.Prelude.Lists.{All, take-append, drop-append, take, drop, length, replicate}
use phosphor_host_ipmid.Prelude.Bits.Digits.{mul-two-pow-suc, mod-two-pow-suc, two-pow-add}

-- The `n` low bits of a number.
abbrev pub to_bits : ℕ → ℕ → List ℕ
to_bits zero v = []
to_bits (suc n) v = (v % 2) ∷ to_bits n (v / 2)

abbrev pub of_bits : List ℕ → ℕ
of_bits [] = 0
of_bits (b ∷ bs) = b + 2 * of_bits bs

pub length-to_bits : (n v : ℕ) → length (to_bits n v) ≡ n
length-to_bits zero v = refl
length-to_bits (suc n) v = ap suc (length-to_bits n (v / 2))

pub of_bits-to_bits : (n v : ℕ) → of_bits (to_bits n v) ≡ v % 2 ^ n
of_bits-to_bits zero v = omega arith
of_bits-to_bits (suc n) v = omega (arith, of_bits-to_bits n (v / 2), mod-two-pow-suc v n)

pub to_bits-mod : (n v : ℕ) → to_bits n (v % 2 ^ n) ≡ to_bits n v
to_bits-mod zero v = refl
to_bits-mod (suc n) v = ap₂ ◌∷◌ low (rest ∙ to_bits-mod n (v / 2))
  where
    low : v % 2 ^ suc n % 2 ≡ v % 2
    low = omega (arith, mod-two-pow-suc v n)

    rest : to_bits n (v % 2 ^ suc n / 2) ≡ to_bits n (v / 2 % 2 ^ n)
    rest = ap (to_bits n) (omega (arith, mod-two-pow-suc v n))

-- A field put above `c` bits comes after them.
pub to_bits-add :
    (c n s b : ℕ) → s < 2 ^ c → to_bits (c + n) (s + b * 2 ^ c) ≡ to_bits c s ++ to_bits n b
to_bits-add zero n s b h = ap₂ to_bits (omega arith) (omega arith)
to_bits-add (suc c) n s b h = rw (add.suc c n) (
    ap₂ ◌∷◌ low
      (ap (to_bits (c + n)) rest ∙ to_bits-add c n (s / 2) b (omega (arith, pow-suc 2 c))))
  where
    low : (s + b * 2 ^ suc c) % 2 ≡ s % 2
    low = omega (arith, mul-two-pow-suc b c)

    rest : (s + b * 2 ^ suc c) / 2 ≡ s / 2 + b * 2 ^ c
    rest = omega (arith, mul-two-pow-suc b c)

div-two-pow-suc : (v c : ℕ) → v / 2 / 2 ^ c ≡ v / 2 ^ suc c
div-two-pow-suc v c = div-div-eq-div-mul v 2 (2 ^ c) ∙ ap (λ (t : ℕ). v / t) (sym (pow-succ' 2 c))

-- Splitting a field at `c` bits.
pub to_bits-split : (c n v : ℕ) → to_bits (c + n) v ≡ to_bits c v ++ to_bits n (v / 2 ^ c)
to_bits-split zero n v = ap₂ to_bits (omega arith) (omega arith)
to_bits-split (suc c) n v =
    rw (add.suc c n, ← div-two-pow-suc v c) (ap (◌∷◌ (v % 2)) (to_bits-split c n (v / 2)))

pub to_bits-zero : (n : ℕ) → to_bits n 0 ≡ replicate n 0
to_bits-zero zero = refl
to_bits-zero (suc n) = ap (◌∷◌ 0) (to_bits-zero n)

-- The bits of a sequence of bytes.
abbrev pub byte_bits : List ℕ → List ℕ
byte_bits [] = []
byte_bits (b ∷ bs) = to_bits 8 b ++ byte_bits bs

pub byte_bits-append : (xs ys : List ℕ) → byte_bits (xs ++ ys) ≡ byte_bits xs ++ byte_bits ys
byte_bits-append [] ys = refl
byte_bits-append (x ∷ xs) ys = ap (◌++◌ (to_bits 8 x)) (byte_bits-append xs ys)

pub length-byte_bits : (xs : List ℕ) → length (byte_bits xs) ≡ 8 * length xs
length-byte_bits [] = refl
length-byte_bits (x ∷ xs) = omega (arith, length-byte_bits xs)

pub of_bits-append : (xs ys : List ℕ) → of_bits (xs ++ ys) ≡ of_bits xs + of_bits ys * 2 ^ length xs
of_bits-append [] ys = omega arith
of_bits-append (x ∷ xs) ys =
    omega (arith, of_bits-append xs ys, mul-two-pow-suc (of_bits ys) (length xs))

-- The remainder by a power of two, in two fields.
pub mod-two-pow-add : (a b v : ℕ) → v % 2 ^ (a + b) ≡ v % 2 ^ a + v / 2 ^ a % 2 ^ b * 2 ^ a
mod-two-pow-add a b v =
    v % 2 ^ (a + b)
    ≡⟨ sym (of_bits-to_bits (a + b) v) ⟩ of_bits (to_bits (a + b) v)
    ≡⟨ ap of_bits (to_bits-split a b v) ⟩ of_bits (to_bits a v ++ to_bits b (v / 2 ^ a))
    ≡⟨ of_bits-append (to_bits a v) (to_bits b (v / 2 ^ a)) ⟩
      of_bits (to_bits a v) + of_bits (to_bits b (v / 2 ^ a)) * 2 ^ length (to_bits a v)
    ≡⟨ (rw (length-to_bits a v, of_bits-to_bits a v, of_bits-to_bits b (v / 2 ^ a))) ⟩
      v % 2 ^ a + v / 2 ^ a % 2 ^ b * 2 ^ a ∎

-- The number that bytes stand for, the least significant first.
abbrev pub le_value : List ℕ → ℕ
le_value [] = 0
le_value (b ∷ bs) = b + 256 * le_value bs

abbrev pub IsByte : ℕ → Type 0
IsByte b = b < 256

pub of_bits-byte_bits : (bs : List ℕ) → All IsByte bs → of_bits (byte_bits bs) ≡ le_value bs
of_bits-byte_bits [] h = refl
of_bits-byte_bits (b ∷ bs) h =
    of_bits-append (to_bits 8 b) (byte_bits bs) ∙ omega (arith, of_bits-byte_bits bs h.1, h.0)

-- Reading a field off the front.
pub take-front : (n : ℕ) (xs ys : List ℕ) → length xs ≡ n → take n (xs ++ ys) ≡ xs
take-front n xs ys e = rw (← e) (take-append xs ys)

pub drop-front : (n : ℕ) (xs ys : List ℕ) → length xs ≡ n → drop n (xs ++ ys) ≡ ys
drop-front n xs ys e = rw (← e) (drop-append xs ys)

take-append_add : (xs ys : List ℕ) (k : ℕ) → take (length xs + k) (xs ++ ys) ≡ xs ++ take k ys
take-append_add [] ys k = rw (add.zero k)
take-append_add (x ∷ xs) ys k = rw (add.suc (length xs) k) (ap (◌∷◌ x) (take-append_add xs ys k))

drop-append_add : (xs ys : List ℕ) (k : ℕ) → drop (length xs + k) (xs ++ ys) ≡ drop k ys
drop-append_add [] ys k = rw (add.zero k)
drop-append_add (x ∷ xs) ys k = rw (add.suc (length xs) k) (drop-append_add xs ys k)

eight-suc : (n : ℕ) → 8 * suc n ≡ 8 + 8 * n
eight-suc n = omega arith

take-nil : (n : ℕ) → take {A = ℕ} n [] ≡ []
take-nil zero = refl
take-nil (suc n) = refl

drop-nil : (n : ℕ) → drop {A = ℕ} n [] ≡ []
drop-nil zero = refl
drop-nil (suc n) = refl

pub byte_bits-take : (n : ℕ) (bs : List ℕ) → take (8 * n) (byte_bits bs) ≡ byte_bits (take n bs)
byte_bits-take zero bs = refl
byte_bits-take (suc n) [] = take-nil (8 * suc n)
byte_bits-take (suc n) (b ∷ bs) = rw (eight-suc n) (
    take-append_add (to_bits 8 b) (byte_bits bs) (8 * n)
    ∙ ap (◌++◌ (to_bits 8 b)) (byte_bits-take n bs))

pub byte_bits-drop : (n : ℕ) (bs : List ℕ) → drop (8 * n) (byte_bits bs) ≡ byte_bits (drop n bs)
byte_bits-drop zero bs = refl
byte_bits-drop (suc n) [] = drop-nil (8 * suc n)
byte_bits-drop (suc n) (b ∷ bs) =
    rw (eight-suc n) (drop-append_add (to_bits 8 b) (byte_bits bs) (8 * n) ∙ byte_bits-drop n bs)

-- What is left of a field above its `n` low bits.
pub div-fits : (n c s : ℕ) → n ≤ c → s < 2 ^ c → s / 2 ^ n < 2 ^ (c - n)
div-fits n c s h k =
    (div-lt_iff_lt-mul (one-le-pow n 2 (omega arith))).1
      (omega (arith, two-pow-add n (c - n), ap (λ (t : ℕ). 2 ^ t) (split n c h)))
  where
    split : (n c : ℕ) → n ≤ c → n + (c - n) ≡ c
    split n c h = omega arith
