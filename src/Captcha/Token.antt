-- ===== src/Captcha/Token.antt =====
-- token.cpp: `Token`. The random nonce is an argument of `generate`; the null pointer is `none`.
use put_in_pipe.Common.{
  ◌==◌, not, List, [], ◌∷◌, ◌++◌, Option, none, some, length, Bytes, codes, if◌then◌else◌,
}
use put_in_pipe.Session.Receivers.{text_eq}
use put_in_pipe.Captcha.Texts.{split}
use put_in_pipe.Captcha.Crypto.{Crypto, nonce_size, encrypt, decrypt, sign}

pub record Token : Type 0 where
  pub payload : Bytes
  pub nonce : Bytes

-- `Token::generate`.
abbrev pub generate : Bytes → Bytes → Token
generate random payload = record { payload = payload; nonce = random }

module _ (crypto : Crypto) where
  unfoldable pub dump : Token → Bytes
  dump token = elim (encrypt crypto token.payload token.nonce) [
    | none ↦ codes "500"
    | some ciphertext ↦
        let token_payload = crypto.encode token.nonce ++ b'.' ∷ crypto.encode ciphertext in
        token_payload ++ b'.' ∷ sign crypto token_payload
  ]

  -- What `fromString` does with the three parts.
  unfoldable pub open_parts : Bytes → Bytes → Bytes → Option Token
  open_parts first second signature =
      if not (text_eq (sign crypto (first ++ b'.' ∷ second)) signature)
      then none
      else let nonce = crypto.decode first in
        if not (length nonce == nonce_size)
        then none
        else elim (decrypt crypto (crypto.decode second) nonce) [
          | none ↦ none
          | some payload ↦ some (record { payload = payload; nonce = nonce })
        ]

  unfoldable pub of_parts : List Bytes → Option Token
  of_parts (first ∷ second ∷ signature ∷ []) = open_parts first second signature
  of_parts _ = none

  -- `Token::fromString`. (The fuel of `split` never ends.)
  unfoldable pub from_string : Bytes → Option Token
  from_string token = elim (split token b'.') [ none ↦ none | some parts ↦ of_parts parts ]
