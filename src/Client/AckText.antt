-- ===== src/Client/AckText.antt =====
-- The text of a message that wants an acknowledgement: `"id":<n>` is put in after the first brace.
use put_in_pipe.Common.{
  ℕ, zero, suc, ◌+◌, ◌-◌, ◌*◌, ◌/◌, ◌%◌, ◌<◌, ◌≡◌, refl, ltb, leb, true, false, ◌&&◌, [], ◌∷◌, ◌++◌,
  length, drop, Bytes, codes, if◌then◌else◌, arith, Bool-cases, inl, inr, ◌∙◌,
}
use put_in_pipe.Numerals.{digits, to_string}
use put_in_pipe.Numerals.Reading.{shifted, shifted-zero, digits-append}

unfoldable pub with_id : ℕ → Bytes → Bytes
with_id id event_json =
    b'{' ∷ codes "\"id\":"
    ++ (to_string id
        ++ (if ltb 2 (length event_json) then b',' ∷ drop 1 event_json else drop 1 event_json))

-- A reader of such a text: the number up to the comma, and the message without it.
read_number : ℕ → Bytes → ℕ × Bytes
read_number acc [] = (acc, [])
read_number acc (c ∷ cs) = elim (leb 48 c && leb c 57) [
  | true ↦ read_number (acc * 10 + (c - 48)) cs
  | false ↦ (acc, c ∷ cs)
]

unfoldable pub strip_id : Bytes → ℕ × Bytes
unfolding read_number
strip_id t = let (id, rest) = read_number 0 (drop 6 t) in (id, b'{' ∷ drop 1 rest)

read-digit :
    (acc d : ℕ) (cs : Bytes)
    → d < 10
    → read_number acc ((48 + d) ∷ cs) ≡ read_number (acc * 10 + d) cs
unfolding read_number
read-digit acc d cs h = ground arith

read-digits :
    (fuel n acc : ℕ) (out : Bytes)
    → n < fuel
    → read_number acc (digits fuel n out) ≡ read_number (shifted fuel n acc) out
unfolding digits shifted
read-digits zero n acc out h = absurd (omega arith)
read-digits (suc fuel) n acc out h = elim (Bool-cases (ltb n 10)) [
  | inl small ↦ rw small (read-digit acc n out (ground arith))
  | inr big ↦ rw big (
      read-digits fuel (n / 10) acc ((48 + n % 10) ∷ out) (ground arith)
      ∙ read-digit (shifted fuel (n / 10) acc) (n % 10) out (omega arith))
]

read-to_string :
    (n : ℕ) (rest : Bytes) → read_number 0 (to_string n ++ b',' ∷ rest) ≡ (n, b',' ∷ rest)
unfolding to_string
read-to_string n rest =
    rw
      (
        digits-append (suc n) n [] (b',' ∷ rest),
        read-digits (suc n) n 0 (b',' ∷ rest) (omega arith),
        shifted-zero (suc n) n (omega arith),
      )
      (unfold read_number in refl)

-- Round trip: of a message that begins with a brace and has at least two more bytes, the text with an
-- identifier gives back both the identifier and the message.
pub strip_id-with_id :
    (id : ℕ) (a b : ℕ) (rest : Bytes)
    → strip_id (with_id id (b'{' ∷ a ∷ b ∷ rest)) ≡ (id, b'{' ∷ a ∷ b ∷ rest)
unfolding strip_id with_id
strip_id-with_id id a b rest =
    let long : ltb 2 (length (b'{' ∷ a ∷ b ∷ rest)) ≡ true = ground arith in
    rw (long, read-to_string id (a ∷ b ∷ rest))
