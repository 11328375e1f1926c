-- ===== src/Captcha/Lawful.antt =====
-- What the tokens rely on of the ciphers, the hash and base64, and the round trip of a `Token`.
use put_in_pipe.Common.{
  ◌+◌, ◌==◌, ◌≡◌, refl, [], ◌∷◌, ◌++◌, some, length, Bytes, All-keep, arith, append_assoc, true,
}
use put_in_pipe.Session.Receivers.{text_eq}
use put_in_pipe.Captcha.Texts.{split}
use put_in_pipe.Captcha.Split.{Free, split-pieces, pieces-Free, pieces-append}
use put_in_pipe.Captcha.Crypto.{Crypto, nonce_size, tag_size, encrypt, decrypt, sign}
use put_in_pipe.Captcha.Padding.{sign-keep}
use put_in_pipe.Captcha.Token.{Token, dump, open_parts, of_parts, from_string}

-- base64 can be undone and uses neither separator; the cipher can be undone under the same nonce and
-- adds its tag.
pub record Lawful (crypto : Crypto) : Type 0 where
  pub decode-encode : (t : Bytes) → crypto.decode (crypto.encode t) ≡ t
  pub encode-no_dot : (t : Bytes) → Free b'.' (crypto.encode t)
  pub encode-no_bar : (t : Bytes) → Free b'|' (crypto.encode t)
  pub urlsafe-no_dot : (t : Bytes) → Free b'.' (crypto.encode_urlsafe t)
  pub unseal-seal :
      (n t : Bytes) → length n ≡ nonce_size → crypto.unseal n (crypto.seal n t) ≡ some t
  pub length-seal : (n t : Bytes) → length (crypto.seal n t) ≡ length t + tag_size

pub text_eq_refl : (t : Bytes) → text_eq t t ≡ true
text_eq_refl t = ground arith

pub text_eq-true : (a b : Bytes) → text_eq a b ≡ true → a ≡ b
text_eq-true a b h = ground arith

split-three :
    (a b c : Bytes)
    → Free b'.' a
    → Free b'.' b
    → Free b'.' c
    → split ((a ++ b'.' ∷ b) ++ b'.' ∷ c) b'.' ≡ some (a ∷ b ∷ c ∷ [])
split-three a b c fa fb fc =
    let e : (a ++ b'.' ∷ b) ++ b'.' ∷ c ≡ a ++ b'.' ∷ (b ++ b'.' ∷ c) =
      append_assoc a (b'.' ∷ b) (b'.' ∷ c) in
    rw
      (
        split-pieces ((a ++ b'.' ∷ b) ++ b'.' ∷ c) b'.',
        e,
        pieces-append b'.' a (b ++ b'.' ∷ c) fa,
        pieces-append b'.' b c fb,
        pieces-Free b'.' c fc,
      )
      refl

module _ (crypto : Crypto) (lawful : Lawful crypto) where
  sign-no_dot : (t : Bytes) → Free b'.' (sign crypto t)
  sign-no_dot t = rw (sign-keep crypto t) (All-keep _ _ _ (lawful.urlsafe-no_dot _))

  encrypt-some : (t n : Bytes) → length n ≡ nonce_size → encrypt crypto t n ≡ some (crypto.seal n t)
  unfolding encrypt
  encrypt-some t n h = ground arith

  decrypt-seal : (t n : Bytes) → length n ≡ nonce_size → decrypt crypto (crypto.seal n t) n ≡ some t
  unfolding decrypt
  decrypt-seal t n h = ground (arith, lawful.unseal-seal n t h, lawful.length-seal n t)

  open-signed :
      (t n : Bytes)
      → length n ≡ nonce_size
      → let first = crypto.encode n in
        let second = crypto.encode (crypto.seal n t) in
        open_parts crypto first second (sign crypto (first ++ b'.' ∷ second))
        ≡ some (record { payload = t; nonce = n })
  unfolding open_parts
  open-signed t n h =
      let first = crypto.encode n in
      let second = crypto.encode (crypto.seal n t) in
      let size : (length n == nonce_size) ≡ true = ground arith in
      rw
        (
          open_parts,
          text_eq_refl (sign crypto (first ++ b'.' ∷ second)),
          lawful.decode-encode n,
          size,
          lawful.decode-encode (crypto.seal n t),
          decrypt-seal t n h,
          lawful.decode-encode n,
        )
        refl

  -- Round trip: with a cipher and a base64 that can be undone, the text of a token with a nonce of
  -- twelve bytes is read back as the token.
  pub token-round_trip :
      (t : Token) → length t.nonce ≡ nonce_size → from_string crypto (dump crypto t) ≡ some t
  unfolding from_string dump of_parts
  token-round_trip t h =
      let n = t.nonce in
      let first = crypto.encode n in
      let second = crypto.encode (crypto.seal n t.payload) in
      rw
        (
          dump,
          encrypt-some t.payload n h,
          from_string,
          split-three first second (sign crypto (first ++ b'.' ∷ second)) (lawful.encode-no_dot _)
              (lawful.encode-no_dot _) (sign-no_dot _),
          open-signed t.payload n h,
        )
        refl
