-- ===== src/Captcha/Validate.antt =====
-- Which answers to a captcha are accepted.
use put_in_pipe.Common.{
  ℕ, ◌+◌, ◌<◌, ◌==◌, leb, ltb, ◌≡◌, refl, true, ◌&&◌, [], ◌∷◌, ◌++◌, map, none, some, length, Bytes,
  arith, if◌then◌else◌, Bool-cases, inl, inr,
}
use put_in_pipe.Numerals.{pos, fits}
use put_in_pipe.Session.Receivers.{text_eq}
use put_in_pipe.Captcha.Texts.{split}
use put_in_pipe.Captcha.Split.{Free, split-pieces, pieces-append, pieces-Free}
use put_in_pipe.Captcha.Crypto.{Crypto, nonce_size}
use put_in_pipe.Captcha.Lawful.{Lawful, token-round_trip}
use put_in_pipe.Captcha.Token
use put_in_pipe.Captcha.Payload
use put_in_pipe.Captcha.Payload.{PrivatePayload, is_expired}
use put_in_pipe.Captcha.Reading.{payload-round_trip}
use put_in_pipe.Captcha.Expiring.{
  generate_expiring, dump_expiring, expiring_from_string, generate_captcha, validate, right_answer,
  to_upper, captcha_string_length,
}

-- What goes into the token of a captcha drawn at `made`.
abbrev pub sealed_payload : Crypto → ℕ → Bytes → Bytes → ℕ → PrivatePayload
sealed_payload crypto made expected context lifetime = record {
  users_payload = expected ++ b'|' ∷ crypto.encode context;
  created = pos made;
  lifetime = pos lifetime;
}

module _ (crypto : Crypto) (lawful : Lawful crypto) where
  -- The token of an unexpired payload gives it back, and that of an expired one nothing.
  expiring-round_trip :
      (made now : ℕ) (random : Bytes) (p : PrivatePayload)
      → length random ≡ nonce_size
      → fits (pos made) ≡ true
      → fits p.lifetime ≡ true
      → length (Payload.dump (record p { created = pos made })) < 18446744073709551616
      → let q = record p { created = pos made } in
        expiring_from_string crypto now (dump_expiring crypto made random p)
        ≡ (if is_expired now q then none else some q)
  unfolding expiring_from_string dump_expiring
  expiring-round_trip made now random p size fm fl small =
      let q = record p { created = pos made } in
      rw
        (
          dump_expiring,
          expiring_from_string,
          token-round_trip crypto lawful (Token.generate random (Payload.dump q)) size,
          payload-round_trip q fm fl small,
        )
        refl

  split-answer :
      (expected context : Bytes)
      → Free b'|' expected
      → split (expected ++ b'|' ∷ crypto.encode context) b'|'
        ≡ some (expected ∷ crypto.encode context ∷ [])
  split-answer expected context free =
      rw
        (
          split-pieces (expected ++ b'|' ∷ crypto.encode context) b'|',
          pieces-append b'|' expected (crypto.encode context) free,
          pieces-Free b'|' (crypto.encode context) (lawful.encode-no_bar context),
        )
        refl

  -- Of a captcha that was drawn at `made` for a context, with an answer without the separator,
  -- sealed under a nonce of twelve bytes by a cipher that can be undone, its times fitting in `long
  -- long` and its text shorter than 2^64: a reply is accepted exactly when it has five characters,
  -- the lifetime is not over, the context is the same, and its upper case is the answer.
  pub validate_exact :
      (made now : ℕ) (random png expected context : Bytes) (lifetime : ℕ) (context' answer : Bytes)
      → length random ≡ nonce_size
      → Free b'|' expected
      → fits (pos made) ≡ true
      → fits (pos lifetime) ≡ true
      → length (Payload.dump (sealed_payload crypto made expected context lifetime))
        < 18446744073709551616
      → validate crypto now context'
          (generate_captcha crypto made random png expected context lifetime).token
          answer
        ≡ (length answer == captcha_string_length
            && (leb now (made + lifetime)
                && (text_eq context context' && text_eq expected (map to_upper answer))))
  unfolding validate generate_captcha right_answer
  validate_exact made now random png expected context lifetime context' answer size free fm fl
        small =
      let user = expected ++ b'|' ∷ crypto.encode context in
      let trip =
        expiring-round_trip made now random (generate_expiring user lifetime) size fm fl small in
      let parts = split-answer expected context free in
      rw (validate, trip)
        (elim (Bool-cases (ltb (made + lifetime) (now + 0 + 0))) [
          | inl late ↦ rw late (ground arith)
          | inr early ↦ rw (early, parts, right_answer, lawful.decode-encode context) (ground arith)
        ])
