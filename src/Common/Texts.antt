-- ===== src/Common/Texts.antt =====
-- A `std::string` is a list of byte values.
use Prim.Native.Nat.{ℕ}
use Prim.Native.Char.{code}
use Prim.Native.String.{String}
use mathlib.Core.Path.{◌≡◌, refl, ap₂}
use mathlib.Core.List.{List, [], ◌∷◌}
use native.Mathlib.Decide.{ℕ_discrete}

abbrev pub Bytes : Type 0
Bytes = List ℕ

-- The bytes of an ASCII literal.
abbrev pub codes : String → Bytes
codes String.[] = []
codes (String.◌∷◌ c s) = code c ∷ codes s

cons-eq : (x y : ℕ) (xs ys : Bytes) → Dec (x ≡ y) → Dec (xs ≡ ys) → Dec (x ∷ xs ≡ y ∷ ys)
cons-eq x y xs ys (yes p) (yes q) = yes (ap₂ ◌∷◌ p q)
cons-eq x y xs ys (yes p) (no q) = no (λ e. q (cc))
cons-eq x y xs ys (no p) d = no (λ e. p (cc))

-- `operator==` of `std::string`.
unfoldable pub bytes_discrete : Discrete Bytes
unfolding cons-eq ℕ_discrete
bytes_discrete [] [] = yes refl
bytes_discrete [] (y ∷ ys) = no (λ e. cc)
bytes_discrete (x ∷ xs) [] = no (λ e. cc)
bytes_discrete (x ∷ xs) (y ∷ ys) = cons-eq x y xs ys (ℕ_discrete x y) (bytes_discrete xs ys)
