-- ===== src/Common/Tests.antt =====
-- Boolean tests on the native numbers, the conditional, and the 64-bit wrap-around of `size_t`.
use Prim.Native.Nat.{ℕ, ◌%◌, compare, Ordering}
use mathlib.Core.Path.{◌≡◌, refl}
use mathlib.Core.Logic.{◌⊎◌, inl, inr}
use mathlib.Core.Bool.{Bool, true, false}
use mathlib.Core.Option.{Option, none, some}

abbrev pub ltb : ℕ → ℕ → Bool
ltb a b = elim (compare a b) [ Ordering.lt ↦ true | _ ↦ false ]

abbrev pub leb : ℕ → ℕ → Bool
leb a b = elim (compare a b) [ Ordering.gt ↦ false | _ ↦ true ]

infix 50 ◌==◌
abbrev pub ◌==◌ : ℕ → ℕ → Bool
a == b = elim (compare a b) [ Ordering.eq ↦ true | _ ↦ false ]

infix 1 if◌then◌else◌
abbrev pub if◌then◌else◌ {ℓ} : {A : Type ℓ} → Bool → A → A → A
if true then x else y = x
if false then x else y = y

-- `==` on the C++ type `bool`.
abbrev pub same : Bool → Bool → Bool
same true b = b
same false true = false
same false false = true

-- The number of values of `size_t` and `uint64_t`.
abbrev pub u64_mod : ℕ
u64_mod = 18446744073709551616

abbrev pub u64 : ℕ → ℕ
u64 n = n % 18446744073709551616

pub Bool-cases : (b : Bool) → (b ≡ true) ⊎ (b ≡ false)
Bool-cases true = inl refl
Bool-cases false = inr refl

pub Option-cases {ℓ} : {A : Type ℓ} (o : Option A) → (o ≡ none) ⊎ ((a : A) × (o ≡ some a))
Option-cases none = inl refl
Option-cases (some a) = inr (a, refl)

-- What holds of both branches, each under its test, holds of the conditional.
pub if_elim {ℓ κ} :
    {A : Type ℓ} (P : A → Type κ) (c : Bool) (x y : A)
    → (c ≡ true → P x)
    → (c ≡ false → P y)
    → P (if c then x else y)
if_elim P true x y f g = f refl
if_elim P false x y f g = g refl
