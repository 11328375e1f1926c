-- ===== src/Http/Captchas.antt =====
-- The captcha from end to end: the token that `Skaptcha::generate` made for an identifier, given to `identityValidation`.
use put_in_pipe.Common.{
  ℕ, ◌+◌, ◌<◌, ◌==◌, leb, ◌≡◌, refl, ◌∙◌, Bool, true, false, ◌&&◌, [], ◌∷◌, ◌++◌, map, Option, none,
  some, length, is_empty, Bytes, String, arith, if◌then◌else◌, Bool-cases, inl, inr,
}
use put_in_pipe.Config.{Config}
use put_in_pipe.Numerals.{pos, fits}
use put_in_pipe.Session.Receivers.{text_eq}
use put_in_pipe.ClientList.{get_client, client_count, create_client}
use put_in_pipe.Captcha.Split.{Free}
use put_in_pipe.Captcha.Crypto.{Crypto, nonce_size, encrypt}
use put_in_pipe.Captcha.Token
use put_in_pipe.Captcha.Lawful.{Lawful, text_eq_refl}
use put_in_pipe.Captcha.Payload
use put_in_pipe.Captcha.Expiring.{
  dump_expiring, generate_captcha, validate, to_upper, captcha_string_length,
}
use put_in_pipe.Captcha.Validate.{sealed_payload, validate_exact}
use put_in_pipe.Server.{Server}
use put_in_pipe.Http.{Request, Reply, identified}
use put_in_pipe.Http.Identity.{Strings, required, internal_create_client, identity_validation}

module _ (sign : Bytes → Bytes) (cfg : Config) (now : ℕ) (candidate : Bytes) where
  required-given :
      (json : Strings) (key why empty : String) (go_on : Bytes → Reply) (sv : Server)
      (value : Bytes)
      → json key ≡ some value
      → is_empty value ≡ false
      → required sign cfg now candidate json key why empty go_on sv ≡ go_on value
  unfolding required
  required-given json key why empty go_on sv value e full = rw (required, e, full) refl

  created_code :
      (name id : Bytes) (sv : Server)
      → is_empty id ≡ false
      → get_client id sv.clients ≡ none
      → (internal_create_client sign cfg now candidate name id sv).2.code ≡ 201
  unfolding internal_create_client create_client get_client
  created_code name id sv full fresh = rw (internal_create_client, full, create_client, fresh) refl

  -- A body with all the fields is answered by the captcha alone.
  confirmed_code :
      (load : Bytes → Option Strings) (check : Bytes → Bytes → Bytes → Bool) (req : Request)
      (sv : Server) (json : Strings) (answer id token name : Bytes)
      → identified req sv ≡ none
      → client_count sv.clients < cfg.api_max_client_count
      → load req.body ≡ some json
      → (json "captcha_answer" ≡ some answer) × (is_empty answer ≡ false)
      → (json "client_id" ≡ some id) × (is_empty id ≡ false)
      → (json "captcha_token" ≡ some token) × (is_empty token ≡ false)
      → (json "name" ≡ some name) × (is_empty name ≡ false)
      → get_client id sv.clients ≡ none
      → (identity_validation sign cfg now candidate load check req sv).2.code
        ≡ (if check id token answer then 201 else 403)
  unfolding identity_validation required
  confirmed_code load check req sv json answer id token name nobody room loaded a i t n fresh =
      let some_room : leb cfg.api_max_client_count (client_count sv.clients) ≡ false =
        ground (arith, room) in
      rw
        (
          identity_validation, nobody, some_room, loaded, required, a.0, a.1, i.0, i.1, t.0, t.1,
          n.0, n.1,
        )
        (elim (Bool-cases (check id token answer)) [
          | inl e ↦ rw e (created_code name id sv i.1 fresh)
          | inr e ↦ rw e refl
        ])

append-nonempty : (a : Bytes) (c : ℕ) (b : Bytes) → is_empty (a ++ c ∷ b) ≡ false
append-nonempty [] c b = refl
append-nonempty (x ∷ a) c b = refl

token-nonempty :
    (crypto : Crypto) (made : ℕ) (random png expected context : Bytes) (lifetime : ℕ)
    → length random ≡ nonce_size
    → is_empty (generate_captcha crypto made random png expected context lifetime).token ≡ false
unfolding generate_captcha dump_expiring Token.dump encrypt
token-nonempty crypto made random png expected context lifetime size =
    let sized : (length random == nonce_size) ≡ true = ground (arith, size) in
    rw (dump_expiring, Token.dump, encrypt, sized) (append-nonempty _ b'.' _)

-- A confirmation with all four fields, from nobody known, while there is room and the identifier is
-- free, whose token was made at `made` for that identifier (with an answer that has no separator,
-- under a nonce of twelve bytes by a cipher that can be undone, the times fitting in `long long`
-- and the text shorter than 2^64): the response is 201 exactly when the answer given has five
-- characters, the token's lifetime is not over, and the upper case of the answer given is that
-- answer; otherwise it is 403.
pub captcha_decides :
    (crypto : Crypto) (sign : Bytes → Bytes) (cfg : Config) (made now : ℕ)
    (random png expected candidate : Bytes) (lifetime : ℕ) (load : Bytes → Option Strings)
    (req : Request) (sv : Server) (json : Strings) (answer id name : Bytes)
    → Lawful crypto
    → length random ≡ nonce_size
    → Free b'|' expected
    → (fits (pos made) ≡ true) × (fits (pos lifetime) ≡ true)
    → length (Payload.dump (sealed_payload crypto made expected id lifetime)) < 18446744073709551616
    → identified req sv ≡ none
    → client_count sv.clients < cfg.api_max_client_count
    → load req.body ≡ some json
    → (json "captcha_answer" ≡ some answer) × (is_empty answer ≡ false)
    → (json "client_id" ≡ some id) × (is_empty id ≡ false)
    → json "captcha_token"
      ≡ some (generate_captcha crypto made random png expected id lifetime).token
    → (json "name" ≡ some name) × (is_empty name ≡ false)
    → get_client id sv.clients ≡ none
    → (identity_validation sign cfg now candidate load (validate crypto now) req sv).2.code ≡ (
        if length answer == captcha_string_length
          && (leb now (made + lifetime) && text_eq expected (map to_upper answer))
        then 201
        else 403)
captcha_decides crypto sign cfg made now random png expected candidate lifetime load req sv json
      answer id name lawful size free times small nobody room loaded a i t n fresh =
    let token = (generate_captcha crypto made random png expected id lifetime).token in
    let code =
      confirmed_code sign cfg now candidate load (validate crypto now) req sv json answer id token
        name nobody room loaded a i
        (t, token-nonempty crypto made random png expected id lifetime size) n fresh in
    let decision =
      validate_exact crypto lawful made now random png expected id lifetime id answer size free
        times.0 times.1 small in
    code ∙ rw (decision, text_eq_refl id) refl
