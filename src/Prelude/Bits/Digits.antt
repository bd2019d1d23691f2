-- ===== src/Prelude/Bits/Digits.antt =====
-- `bit_or` of disjoint fields is a sum, and `bit_and` with a low mask a remainder, at every width.
use mathlib.Core.Path.{sym, ◌∙◌, ◌≡◌, refl, ap, ◌≡⟨◌⟩◌, ◌∎}
use native.Mathlib.Decide.{ℕ_discrete}
use Prim.Native.Nat.{
  ℕ, zero, suc, ◌+◌, ◌-◌, ◌*◌, ◌/◌, ◌%◌, ◌^◌, ◌≤◌, ◌<◌, min, max, bit_and, bit_or, digits, bitwise,
  bit_and-bitwise, bit_or-bitwise,
}
use Prim.Native.Nat.add
use native.Mathlib.Omega.{arith}
use native.Mathlib.Nat.{
  le_refl, pow-suc, one-le-pow, add-mul-mod_self_right, mod-eq_of_lt, div-add-mod', mod-lt,
  pow-succ', mul-le-mul_right,
}

-- The native operations recur on a count of digits to go, which may be as large as it likes.
module _ (end : ℕ → ℕ) (op : ℕ → ℕ → ℕ) where
  one_more : (n a b : ℕ) → a ≤ n → digits end op (suc n) a b ≡ digits end op n a b
  one_more zero zero b h = refl
  one_more zero (suc a) b h = absurd (omega arith)
  one_more (suc n) zero b h = refl
  one_more (suc n) (suc a) b h =
      ap (λ (low : ℕ). low * 2 + op (suc a % 2) (b % 2))
        (one_more n (suc a / 2) (b / 2) (omega arith))

  many_more : (m n a b : ℕ) → n ≤ m → a ≤ n → digits end op m a b ≡ digits end op n a b
  many_more zero zero a b h k = refl
  many_more zero (suc n) a b h k = absurd (omega arith)
  many_more (suc m) n a b h k = elim (ℕ_discrete n (suc m)) [
    | yes e ↦ ap (λ (count : ℕ). digits end op count a b) (sym e)
    | no e ↦ one_more m a b (omega arith) ∙ many_more m n a b (omega arith) k
  ]

  lowest :
      (a b : ℕ)
      → bitwise end op (suc a) b ≡ op (suc a % 2) (b % 2) + 2 * bitwise end op (suc a / 2) (b / 2)
  lowest a b = omega (arith, many_more a (suc a / 2) (suc a / 2) (b / 2) (omega arith) half_enough)
    where
      half_enough : suc a / 2 ≤ suc a / 2
      half_enough = omega arith

or_digit : (a b : ℕ) → bit_or a b ≡ max (a % 2) (b % 2) + 2 * bit_or (a / 2) (b / 2)
or_digit zero b = rw (bit_or-bitwise 0 b, bit_or-bitwise 0 (b / 2)) (omega arith)
or_digit (suc a) b =
    rw (bit_or-bitwise (suc a) b, bit_or-bitwise (suc a / 2) (b / 2)) (lowest (λ y. y) max a b)

and_digit : (a b : ℕ) → bit_and a b ≡ min (a % 2) (b % 2) + 2 * bit_and (a / 2) (b / 2)
and_digit zero b = rw (bit_and-bitwise 0 b, bit_and-bitwise 0 (b / 2)) (omega arith)
and_digit (suc a) b =
    rw (bit_and-bitwise (suc a) b, bit_and-bitwise (suc a / 2) (b / 2)) (lowest (λ y. 0) min a b)

zero-bit_or : (b : ℕ) → bit_or 0 b ≡ b
zero-bit_or b = bit_or-bitwise 0 b

pub mul-two-pow-suc : (q k : ℕ) → q * 2 ^ suc k ≡ 2 * (q * 2 ^ k)
mul-two-pow-suc q k = rw (pow-suc 2 k) (omega arith)

-- `s | (b << k)` is a sum when `s` fits `k` bits.
pub bit_or_fields : (k s b : ℕ) → s < 2 ^ k → bit_or s (b * 2 ^ k) ≡ s + b * 2 ^ k
bit_or_fields zero s b h = ground (arith, zero-bit_or b)
bit_or_fields (suc k) s b h =
    let half_fits = bit_or_fields k (s / 2) b (omega (arith, pow-suc 2 k)) in
    ground (arith, or_digit s (b * 2 ^ suc k), mul-two-pow-suc b k, half_fits)

-- No digit is left of a number and zero, by its number of halvings.
none_in_zero : (halvings a : ℕ) → a ≤ halvings → bit_and a 0 ≡ 0
none_in_zero n zero h = refl
none_in_zero zero (suc a) h = absurd (omega arith)
none_in_zero (suc n) (suc a) h =
    let rest = none_in_zero n (suc a / 2) (omega arith) in omega (arith, and_digit (suc a) 0, rest)

-- The remainder by a power of two, digit by digit.
pub mod-two-pow-suc : (a k : ℕ) → a % 2 ^ suc k ≡ a / 2 % 2 ^ k * 2 + a % 2
mod-two-pow-suc a k =
    a % 2 ^ suc k
    ≡⟨ ap (λ (t : ℕ). t % 2 ^ suc k) split ⟩ (low + a / 2 / 2 ^ k * 2 ^ suc k) % 2 ^ suc k
    ≡⟨ add-mul-mod_self_right low (a / 2 / 2 ^ k) (2 ^ suc k) ⟩ low % 2 ^ suc k
    ≡⟨ mod-eq_of_lt fits ⟩ low ∎
  where
    low : ℕ
    low = a / 2 % 2 ^ k * 2 + a % 2

    split : a ≡ low + a / 2 / 2 ^ k * 2 ^ suc k
    split = omega (arith, mul-two-pow-suc (a / 2 / 2 ^ k) k, div-add-mod' (a / 2) (2 ^ k))

    fits : low < 2 ^ suc k
    fits = omega (arith, pow-suc 2 k, mod-lt (a / 2) (one-le-pow k 2 (omega arith)))

-- Masking keeps the remainder.
pub bit_and_mask : (k a : ℕ) → bit_and a (2 ^ k - 1) ≡ a % 2 ^ k
bit_and_mask zero a = ground (arith, none_in_zero a a (le_refl a))
bit_and_mask (suc k) a = omega (
  arith,
  and_digit a (2 ^ suc k - 1),
  pow-suc 2 k,
  one-le-pow k 2 (omega arith),
  ap (bit_and (a / 2)) half,
  bit_and_mask k (a / 2),
  mod-two-pow-suc a k,
)
  where
    half : (2 ^ suc k - 1) / 2 ≡ 2 ^ k - 1
    half = omega (arith, pow-suc 2 k, one-le-pow k 2 (omega arith))

pub two-pow-add : (a b : ℕ) → 2 ^ (a + b) ≡ 2 ^ a * 2 ^ b
two-pow-add zero b = rw (add.zero b) (omega arith)
two-pow-add (suc a) b =
    rw (add.suc a b, pow-succ' 2 a, pow-succ' 2 (a + b), two-pow-add a b) (omega arith)

-- A field of `n` bits above one of `c` bits takes `c + n` bits.
pub field_bound : (c n s b : ℕ) → s < 2 ^ c → b < 2 ^ n → s + b * 2 ^ c < 2 ^ (c + n)
field_bound c n s b h k = rw (two-pow-add c n) (omega (arith, mul-le-mul_right (2 ^ c) k))
