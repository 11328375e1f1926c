-- ===== src/Tests/Tokens.antt =====
-- The captcha's tokens with a toy cipher: base64 moves every byte up by 256, the cipher puts sixteen zeros before the text.
use put_in_pipe.Common.{
  ℕ, ◌+◌, ◌-◌, ◌<◌, ◌==◌, leb, ◌≡◌, refl, ap₂, ◌&&◌, [], ◌∷◌, ◌++◌, map, some, length, drop, Bytes,
  codes, arith,
}
use put_in_pipe.Numerals.{pos}
use put_in_pipe.Session.Receivers.{text_eq}
use put_in_pipe.Captcha.Texts.{split}
use put_in_pipe.Captcha.Split.{Free, pieces, split-pieces}
use put_in_pipe.Captcha.Crypto.{Crypto}
use put_in_pipe.Captcha.Token.{Token, dump, from_string}
use put_in_pipe.Captcha.Payload
use put_in_pipe.Captcha.Payload.{PrivatePayload}
use put_in_pipe.Captcha.Reading.{payload-round_trip}
use put_in_pipe.Captcha.Expiring.{generate_captcha, validate, to_upper, captcha_string_length}
use put_in_pipe.Captcha.Lawful.{Lawful, token-round_trip}
use put_in_pipe.Captcha.Signed.{accepted-IsSigned, IsSigned}
use put_in_pipe.Captcha.Validate.{validate_exact}

abbrev zeros : Bytes
zeros = 0 ∷ 0 ∷ 0 ∷ 0 ∷ 0 ∷ 0 ∷ 0 ∷ 0 ∷ 0 ∷ 0 ∷ 0 ∷ 0 ∷ 0 ∷ 0 ∷ 0 ∷ 0 ∷ []

abbrev pub toy : Crypto
toy = record {
  encode = map (λ c. c + 256);
  decode = map (λ c. c - 256);
  encode_urlsafe = map (λ c. c + 256);
  seal = λ nonce text. zeros ++ text;
  unseal = λ nonce ciphertext. some (drop 16 ciphertext);
  sha256 = λ text. text;
  hash_key = 1 ∷ [];
}

moved_back : (t : Bytes) → map (λ c. c - 256) (map (λ c. c + 256) t) ≡ t
moved_back [] = refl
moved_back (c ∷ cs) = ap₂ ◌∷◌ (omega arith) (moved_back cs)

moved-Free : (d : ℕ) (t : Bytes) → d < 256 → Free d (map (λ c. c + 256) t)
moved-Free d [] h = tt
moved-Free d (c ∷ cs) h = (λ e. omega arith, moved-Free d cs h)

pub toy-Lawful : Lawful toy
toy-Lawful = record {
  decode-encode = moved_back;
  encode-no_dot = λ t. moved-Free b'.' t (omega arith);
  encode-no_bar = λ t. moved-Free b'|' t (omega arith);
  urlsafe-no_dot = λ t. moved-Free b'.' t (omega arith);
  unseal-seal = λ n t h. refl;
  length-seal = λ n t. omega arith;
}

abbrev pub nonce : Bytes
nonce = codes "twelve bytes"

abbrev some_token : Token
some_token = record { payload = codes "a|b"; nonce = nonce }

token-round_trip_example : from_string toy (dump toy some_token) ≡ some some_token
token-round_trip_example = token-round_trip toy toy-Lawful some_token refl

accepted-IsSigned_example : IsSigned toy (dump toy some_token)
accepted-IsSigned_example =
    accepted-IsSigned toy (dump toy some_token) some_token
      (token-round_trip toy toy-Lawful some_token refl)

split-pieces_example : split (codes "a.b..c") b'.' ≡ some (pieces b'.' (codes "a.b..c"))
split-pieces_example = split-pieces (codes "a.b..c") b'.'

four_parts : pieces b'.' (codes "a.b..c") ≡ codes "a" ∷ codes "b" ∷ [] ∷ codes "c" ∷ []
unfolding pieces
four_parts = refl

-- A payload with separators in the user's part.
abbrev some_payload : PrivatePayload
some_payload = record { users_payload = codes "a|1|"; created = pos 17; lifetime = pos 180 }

payload-round_trip_example : Payload.from_string (Payload.dump some_payload) ≡ some some_payload
payload-round_trip_example = payload-round_trip some_payload refl refl (
    unfold Payload.dump put_in_pipe.Numerals.print put_in_pipe.Numerals.to_string
      put_in_pipe.Numerals.digits in
    omega arith)

-- The answer in lower case, at the last second.
validate_exact_example :
    validate toy 197
      (7 ∷ [])
      (generate_captcha toy 17 nonce [] (codes "AB1CD") (7 ∷ []) 180).token
      (codes "ab1cd")
    ≡ (length (codes "ab1cd") == captcha_string_length
        && (leb 197 (17 + 180)
            && (text_eq (7 ∷ []) (7 ∷ [])
                && text_eq (codes "AB1CD") (map to_upper (codes "ab1cd")))))
validate_exact_example =
    validate_exact toy toy-Lawful 17 197 nonce [] (codes "AB1CD") (7 ∷ []) 180 (7 ∷ [])
      (codes "ab1cd") refl (ground arith) refl refl
      (unfold Payload.dump put_in_pipe.Numerals.print put_in_pipe.Numerals.to_string
          put_in_pipe.Numerals.digits in
        omega arith)
