-- ===== src/Prelude/Tests.antt =====
-- Boolean tests on the native numbers, and the conditional.
use Prim.Native.Nat.{ℕ, ◌≤◌, ◌<◌, compare, Ordering}
use mathlib.Core.Path.{◌≡◌, refl, ap₂}
use mathlib.Core.Logic.{◌≢◌, ◌⊎◌, inl, inr}
use mathlib.Core.Bool.{Bool, true, false, ◌&&◌}
use mathlib.Core.List.{List, [], ◌∷◌}
use mathlib.Core.Option.{Option, none, some}
use native.Mathlib.Omega.{arith}

abbrev pub ltb : ℕ → ℕ → Bool
ltb a b = elim (compare a b) [ Ordering.lt ↦ true | _ ↦ false ]

abbrev pub leb : ℕ → ℕ → Bool
leb a b = elim (compare a b) [ Ordering.gt ↦ false | _ ↦ true ]

infix 50 ◌==◌
abbrev pub ◌==◌ : ℕ → ℕ → Bool
a == b = elim (compare a b) [ Ordering.eq ↦ true | _ ↦ false ]

infix 1 if◌then◌else◌
abbrev pub if◌then◌else◌ {ℓ} : {A : Type ℓ} → Bool → A → A → A
if true then x else y = x
if false then x else y = y

pub lt→ltb : (a b : ℕ) → a < b → ltb a b ≡ true
lt→ltb a b h = ground arith

pub le→ltb : (a b : ℕ) → b ≤ a → ltb a b ≡ false
le→ltb a b h = ground arith

pub lt→leb : (a b : ℕ) → a < b → leb b a ≡ false
lt→leb a b h = ground arith

pub ==_refl : (a : ℕ) → (a == a) ≡ true
==_refl a = ground arith

pub ne→== : (a b : ℕ) → a ≢ b → (a == b) ≡ false
ne→== a b h = ground arith

-- To split on a computed value and keep the equation.
pub Bool-cases : (b : Bool) → (b ≡ true) ⊎ (b ≡ false)
Bool-cases true = inl refl
Bool-cases false = inr refl

pub Option-cases {ℓ} : {A : Type ℓ} (o : Option A) → (o ≡ none) ⊎ ((a : A) × (o ≡ some a))
Option-cases none = inl refl
Option-cases (some a) = inr (a, refl)

pub eq→== : (a b : ℕ) → a ≡ b → (a == b) ≡ true
eq→== a b h = ground arith

-- A conditional of which something holds, by its test.
pub if-cases {ℓ κ} :
    {A : Type ℓ} (P : A → Type κ) {Q : Type κ} (b : Bool) (x y : A)
    → P (if b then x else y)
    → (b ≡ true → P x → Q)
    → (b ≡ false → P y → Q)
    → Q
if-cases P true x y h f g = f refl h
if-cases P false x y h f g = g refl h

-- What holds of both branches holds of the conditional.
pub if-both {ℓ κ} :
    {A : Type ℓ} (P : A → Type κ) (b : Bool) (x y : A) → P x → P y → P (if b then x else y)
if-both P true x y h k = h
if-both P false x y h k = k

-- Strings of bytes.
abbrev pub same : List ℕ → List ℕ → Bool
same [] [] = true
same [] (y ∷ ys) = false
same (x ∷ xs) [] = false
same (x ∷ xs) (y ∷ ys) = x == y && same xs ys

pub same_refl : (xs : List ℕ) → same xs xs ≡ true
same_refl [] = refl
same_refl (x ∷ xs) = rw (==_refl x) (same_refl xs)

pub same-eq : (xs ys : List ℕ) → same xs ys ≡ true → xs ≡ ys
same-eq [] [] h = refl
same-eq [] (y ∷ ys) h = cc
same-eq (x ∷ xs) [] h = cc
same-eq (x ∷ xs) (y ∷ ys) h = ap₂ ◌∷◌ (ground arith) (same-eq xs ys (ground arith))
