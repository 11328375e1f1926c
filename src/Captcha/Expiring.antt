-- ===== src/Captcha/Expiring.antt =====
-- token.cpp: `ExpiringToken`, whose state is its private payload, and skaptcha.cpp. The time and the random nonce are arguments.
use put_in_pipe.Common.{
  ℕ, ◌-◌, ◌==◌, leb, ◌&&◌, Bool, false, not, List, [], ◌∷◌, ◌++◌, map, Option, none, some, length,
  Bytes, if◌then◌else◌,
}
use put_in_pipe.Numerals.{pos}
use put_in_pipe.Session.Receivers.{text_eq}
use put_in_pipe.Captcha.Texts.{split}
use put_in_pipe.Captcha.Crypto.{Crypto}
use put_in_pipe.Captcha.Token
use put_in_pipe.Captcha.Payload
use put_in_pipe.Captcha.Payload.{PrivatePayload, is_expired}

-- `Skaptcha::View`.
pub record View : Type 0 where
  pub png : Bytes
  pub token : Bytes

-- CAPTCHA_STRING_LENGTH.
abbrev pub captcha_string_length : ℕ
captcha_string_length = 5

-- `toupper` in the C locale.
abbrev pub to_upper : ℕ → ℕ
to_upper c = if leb b'a' c && leb c b'z' then c - 32 else c

-- `ExpiringToken::generate`.
abbrev pub generate_expiring : Bytes → ℕ → PrivatePayload
generate_expiring payload seconds_lifetime = record {
  users_payload = payload;
  created = pos 0;
  lifetime = pos seconds_lifetime;
}

module _ (crypto : Crypto) (now : ℕ) where
  -- `ExpiringToken::dump`.
  unfoldable pub dump_expiring : Bytes → PrivatePayload → Bytes
  dump_expiring random p =
      Token.dump crypto (Token.generate random (Payload.dump (record p { created = pos now })))

  -- `ExpiringToken::fromString`.
  unfoldable pub expiring_from_string : Bytes → Option PrivatePayload
  expiring_from_string token = elim (Token.from_string crypto token) [
    | none ↦ none
    | some base ↦ elim (Payload.from_string base.payload) [
      | none ↦ none
      | some p ↦ if is_expired now p then none else some p
    ]
  ]

  -- `Skaptcha::generate`, of the captcha that the backend drew: its picture and its answer.
  unfoldable pub generate_captcha : Bytes → Bytes → Bytes → Bytes → ℕ → View
  generate_captcha random png answer context lifetime = record {
    png = png;
    token =
        dump_expiring random (generate_expiring (answer ++ b'|' ∷ crypto.encode context) lifetime);
  }

  -- What is left of `validate` when the payload is split.
  unfoldable pub right_answer : Bytes → Bytes → List Bytes → Bool
  right_answer context answer (expected ∷ encoded ∷ []) =
      text_eq (crypto.decode encoded) context && text_eq expected (map to_upper answer)
  right_answer context answer _ = false

  -- `Skaptcha::validate`.
  unfoldable pub validate : Bytes → Bytes → Bytes → Bool
  validate context token answer =
      if not (length answer == captcha_string_length)
      then false
      else elim (expiring_from_string token) [
        | none ↦ false
        | some p ↦ elim (split p.users_payload b'|') [
          | none ↦ false
          | some parts ↦ right_answer context answer parts
        ]
      ]
