-- ===== src/Captcha/Crypto.antt =====
-- skaptcha_tools.cpp: `crypto::ChaCha20` and `crypto::HashSignature`. The ciphers, the hash and crow's base64 are parameters; an exception is `none`.
use put_in_pipe.Common.{
  ℕ, zero, suc, ◌==◌, ltb, not, ◌++◌, Option, none, some, length, Bytes, if◌then◌else◌,
}
use put_in_pipe.Captcha.Texts.{rfind, erase_at}

-- `seal` and `unseal` are portable_chacha20_poly1305_encrypt and _decrypt with the key of the
-- `ChaCha20` object, the nonce first; `none` is a tag that does not match.
pub record Crypto : Type 0 where
  pub encode : Bytes → Bytes
  pub decode : Bytes → Bytes
  pub encode_urlsafe : Bytes → Bytes
  pub seal : Bytes → Bytes → Bytes
  pub unseal : Bytes → Bytes → Option Bytes
  pub sha256 : Bytes → Bytes
  pub hash_key : Bytes

-- RFC_8439_NONCE_SIZE and RFC_8439_TAG_SIZE.
abbrev pub nonce_size : ℕ
nonce_size = 12

abbrev pub tag_size : ℕ
tag_size = 16

-- The loop that erases the padding, from the end; with no fuel left it stops.
unfoldable pub erase_padding : ℕ → Bytes → Option ℕ → Bytes
erase_padding fuel t none = t
erase_padding zero t (some k) = t
erase_padding (suc fuel) t (some k) = erase_padding fuel (erase_at k t) (rfind b'=' (erase_at k t))

module _ (crypto : Crypto) where
  unfoldable pub encrypt : Bytes → Bytes → Option Bytes
  encrypt text nonce =
      if not (length nonce == nonce_size) then none else some (crypto.seal nonce text)

  unfoldable pub decrypt : Bytes → Bytes → Option Bytes
  decrypt ciphertext nonce =
      if not (length nonce == nonce_size)
      then none
      else if ltb (length ciphertext) tag_size
      then none
      else crypto.unseal nonce ciphertext

  unfoldable pub sign : Bytes → Bytes
  sign text =
      let result = crypto.encode_urlsafe (crypto.sha256 (text ++ crypto.hash_key)) in
      erase_padding (length result) result (rfind b'=' result)
