-- ===== src/Numerals.antt =====
-- What the code uses of `std::to_string`, `std::stoul` and `std::stoll`, in base 10. To read a number, white space is skipped, a sign may
-- follow, then digits; what comes after them is ignored. No digit, or a value out of range, throws.
pub mod Reading
use put_in_pipe.Common.{
  ℕ, zero, suc, ◌+◌, ◌/◌, ◌%◌, ◌-◌, ◌*◌, ◌==◌, ltb, leb, u64_mod, Bool, true, false, ◌&&◌, ◌||◌,
  List, [], ◌∷◌, Option, none, some, Bytes, if◌then◌else◌,
}

-- `std::to_string`: the decimal digits, the last one first in the loop.
unfoldable pub digits : ℕ → ℕ → Bytes → Bytes
digits zero n acc = acc
digits (suc fuel) n acc =
    let rest = digits fuel (n / 10) ((48 + n % 10) ∷ acc) in
    if ltb n 10 then (48 + n) ∷ acc else rest

-- A number has fewer digits than its value and one.
unfoldable pub to_string : ℕ → Bytes
to_string n = digits (suc n) n []

-- `negsuc n` is -(n + 1).
pub data ℤ : Type 0 where
  pos : ℕ → ℤ
  negsuc : ℕ → ℤ

abbrev pub negated : ℕ → ℤ
negated n = if n == 0 then pos 0 else negsuc (n - 1)

abbrev pub is_digit : ℕ → Bool
is_digit c = leb b'0' c && leb c b'9'

abbrev pub is_space : ℕ → Bool
is_space c = c == 32 || leb 9 c && leb c 13

-- The value of the digits at the front.
unfoldable pub digits_value : ℕ → Bytes → ℕ
digits_value acc [] = acc
digits_value acc (c ∷ cs) =
    let rest = digits_value (acc * 10 + (c - 48)) cs in if is_digit c then rest else acc

unfoldable pub magnitude : Bytes → Option ℕ
magnitude [] = none
magnitude (c ∷ cs) = if is_digit c then some (digits_value 0 (c ∷ cs)) else none

-- Whether there is a minus, and what follows the sign.
unfoldable pub sign_and_rest : Bytes → Bool × Bytes
sign_and_rest [] = (false, [])
sign_and_rest (c ∷ cs) =
    if c == b'-' then (true, cs) else if c == b'+' then (false, cs) else (false, c ∷ cs)

unfoldable pub skip_space : Bytes → Bytes
skip_space [] = []
skip_space (c ∷ cs) = let rest = skip_space cs in if is_space c then rest else c ∷ cs

-- A minus negates in the unsigned type.
unfoldable pub stoul : Bytes → Option ℕ
stoul t =
    let (negative, rest) = sign_and_rest (skip_space t) in
    elim (magnitude rest) [
      | none ↦ none
      | some n ↦
          if leb u64_mod n then none else some (if negative && ltb 0 n then u64_mod - n else n)
    ]

-- `long long` reaches from -2^63 to 2^63 - 1.
unfoldable pub stoll : Bytes → Option ℤ
stoll t =
    let (negative, rest) = sign_and_rest (skip_space t) in
    elim (magnitude rest) [
      | none ↦ none
      | some n ↦
          if negative
          then (if ltb 9223372036854775808 n then none else some (negated n))
          else if leb 9223372036854775808 n
          then none
          else some (pos n)
    ]

-- A signed number, as a stream prints it.
unfoldable pub print : ℤ → Bytes
print (pos n) = to_string n
print (negsuc n) = b'-' ∷ to_string (n + 1)

-- What fits in `long long`.
abbrev pub fits : ℤ → Bool
fits (pos n) = ltb n 9223372036854775808
fits (negsuc n) = ltb n 9223372036854775808
