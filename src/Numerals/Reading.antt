-- ===== src/Numerals/Reading.antt =====
-- A printed number reads back.
use put_in_pipe.Common.{
  ℕ, zero, suc, ◌+◌, ◌*◌, ◌/◌, ◌%◌, ◌<◌, ◌≡◌, refl, ltb, Bool, true, false, [], ◌∷◌, ◌++◌, some,
  All, Bytes, if◌then◌else◌, arith, Bool-cases, inl, inr, ◌∙◌,
}
use put_in_pipe.Numerals.{
  digits, to_string, digits_value, magnitude, is_digit, sign_and_rest, skip_space, stoll, stoul, ℤ,
  pos, negsuc, print, fits,
}

-- Reading the digits of a number on top of what was read.
unfoldable pub shifted : ℕ → ℕ → ℕ → ℕ
shifted zero n acc = acc
shifted (suc fuel) n acc =
    let rest = shifted fuel (n / 10) acc in if ltb n 10 then acc * 10 + n else rest * 10 + n % 10

pub shifted-zero : (fuel n : ℕ) → n < fuel → shifted fuel n 0 ≡ n
unfolding shifted
shifted-zero zero n h = absurd (omega arith)
shifted-zero (suc fuel) n h = ground (arith, shifted-zero fuel (n / 10))

pub digits-append : (fuel n : ℕ) (xs ys : Bytes) → digits fuel n xs ++ ys ≡ digits fuel n (xs ++ ys)
unfolding digits
digits-append zero n xs ys = refl
digits-append (suc fuel) n xs ys =
    ground (arith, digits-append fuel (n / 10) ((48 + n % 10) ∷ xs) ys)

abbrev starts_digit : Bytes → Bool
starts_digit [] = false
starts_digit (c ∷ cs) = is_digit c

value-digits :
    (fuel n acc : ℕ) (out : Bytes)
    → n < fuel
    → digits_value acc (digits fuel n out) ≡ digits_value (shifted fuel n acc) out
unfolding digits shifted digits_value
value-digits zero n acc out h = absurd (omega arith)
value-digits (suc fuel) n acc out h = elim (Bool-cases (ltb n 10)) [
  | inl small ↦ rw small (ground arith)
  | inr big ↦
      rw big (value-digits fuel (n / 10) acc ((48 + n % 10) ∷ out) (ground arith) ∙ ground arith)
]

-- The digits end where a text that begins with no digit begins.
value-end : (acc : ℕ) (rest : Bytes) → starts_digit rest ≡ false → digits_value acc rest ≡ acc
unfolding digits_value
value-end acc [] h = refl
value-end acc (c ∷ cs) h = ground arith

starts-digits : (fuel n : ℕ) (out : Bytes) → n < fuel → starts_digit (digits fuel n out) ≡ true
unfolding digits
starts-digits zero n out h = absurd (omega arith)
starts-digits (suc fuel) n out h = ground (arith, starts-digits fuel (n / 10) ((48 + n % 10) ∷ out))

magnitude-starts : (t : Bytes) → starts_digit t ≡ true → magnitude t ≡ some (digits_value 0 t)
unfolding magnitude
magnitude-starts [] h = cc
magnitude-starts (c ∷ cs) h = ground arith

pub magnitude-to_string : (n : ℕ) → magnitude (to_string n) ≡ some n
unfolding to_string
magnitude-to_string n =
    rw
      (
        magnitude-starts (digits (suc n) n []) (starts-digits (suc n) n [] (omega arith)),
        value-digits (suc n) n 0 [] (omega arith),
        shifted-zero (suc n) n (omega arith),
      )
      (unfold digits_value in refl)

digits-All :
    (fuel n : ℕ) (out : Bytes)
    → All (λ c. is_digit c ≡ true) out
    → All (λ c. is_digit c ≡ true) (digits fuel n out)
unfolding digits
digits-All zero n out a = a
digits-All (suc fuel) n out a = elim (Bool-cases (ltb n 10)) [
  | inl small ↦ rw small (ground arith, a)
  | inr big ↦ rw big (digits-All fuel (n / 10) ((48 + n % 10) ∷ out) (ground arith, a))
]

pub to_string-All : (n : ℕ) → All (λ c. is_digit c ≡ true) (to_string n)
unfolding to_string
to_string-All n = digits-All (suc n) n [] tt

no_space : (t : Bytes) → starts_digit t ≡ true → sign_and_rest (skip_space t) ≡ (false, t)
unfolding skip_space sign_and_rest
no_space [] h = cc
no_space (c ∷ cs) h = ground arith

to_string-starts : (n : ℕ) → starts_digit (to_string n) ≡ true
unfolding to_string
to_string-starts n = starts-digits (suc n) n [] (omega arith)

skip_minus : (t : Bytes) → sign_and_rest (skip_space (b'-' ∷ t)) ≡ (true, t)
unfolding skip_space sign_and_rest
skip_minus t = refl

-- Round trip: a signed number that fits in `long long` is read back as it was printed.
pub stoll-print : (z : ℤ) → fits z ≡ true → stoll (print z) ≡ some z
unfolding stoll print
stoll-print (pos n) h =
    rw
      (
        stoll,
        no_space (to_string n) (to_string-starts n),
        magnitude-to_string n,
        no_space (to_string n) (to_string-starts n),
      )
      (ground arith)
stoll-print (negsuc n) h =
    rw
      (
        stoll,
        skip_minus (to_string (n + 1)),
        magnitude-to_string (n + 1),
        skip_minus (to_string (n + 1)),
      )
      (ground arith)

-- So is an unsigned one of 64 bits.
pub stoul-to_string : (n : ℕ) → n < 18446744073709551616 → stoul (to_string n) ≡ some n
unfolding stoul
stoul-to_string n h =
    rw
      (
        stoul,
        no_space (to_string n) (to_string-starts n),
        magnitude-to_string n,
        no_space (to_string n) (to_string-starts n),
      )
      (ground arith)
