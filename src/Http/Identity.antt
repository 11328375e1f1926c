-- ===== src/Http/Identity.antt =====
-- webapi.cpp: `identityRequest`, `identityValidation` and `internalCreateClient`.
use put_in_pipe.Common.{
  ℕ, ◌+◌, ltb, leb, Bool, not, [], ◌++◌, Option, none, some, map, is_empty, String, Bytes,
  if◌then◌else◌,
}
use put_in_pipe.Config.{Config}
use put_in_pipe.Json.{num, text, obj, end, field}
use put_in_pipe.Client.{set_name}
use put_in_pipe.ClientList.{client_count, create_client}
use put_in_pipe.Server.{Server, by_client, put_client}
use put_in_pipe.Http.{Request, Reply, answer, reply, json_body, identified}

-- An object read by `operator[]` and `s()`; `none` is an exception.
abbrev pub Strings : Type 0
Strings = String → Option Bytes

-- A captcha: its picture in base64 and its token.
pub record Puzzle : Type 0 where
  pub image : Bytes
  pub token : Bytes

-- `sign` is `HashSignature::sign`; `candidate` is what `generateIdCondidate` gives.
module _ (sign : Bytes → Bytes) (cfg : Config) (now : ℕ) (candidate : Bytes) where
  -- An empty `client_id` is the default argument.
  unfoldable pub internal_create_client : Bytes → Bytes → Server → Reply
  internal_create_client name client_id sv =
      let id = if is_empty client_id then candidate else client_id in
      let (l, calls, created) = create_client sign cfg now id sv.clients in
      elim created [
        | none ↦ reply sv 403 "The captcha has already been used"
        | some client ↦
            let (named, told) = set_name name client in
            (
              put_client named (record sv { clients = l }),
              map (by_client id) (calls ++ told),
              record {
                code = 201;
                body =
                    json_body (
                      obj (field "id" (text named.public_id) (field "name" (text named.name) end)));
                set_cookie =
                    some (named.id, cfg.transfer_session_max_lifetime + cfg.client_timeout);
              },
            )
      ]

  -- `puzzle` is what `Skaptcha::generate` gives for the candidate; `answer_length` its constant.
  unfoldable pub identity_request : Puzzle → ℕ → Request → Server → Reply
  identity_request puzzle answer_length req sv = elim (identified req sv) [
    | some c ↦ reply sv 400 "You are already authorized"
    | none ↦ elim (req.url_param "name") [
      | none ↦ reply sv 403 "You must pass the name"
      | some name ↦
          if leb cfg.api_max_client_count (client_count sv.clients)
          then reply sv 503 "The maximum number of clients has been reached, please try again later"
          else if ltb (client_count sv.clients) cfg.api_without_captcha_threshold
          then internal_create_client name [] sv
          else (
            sv,
            [],
            answer 401 (
                json_body (
                  obj (
                    field "captcha_image" (text puzzle.image) (
                      field "captcha_token" (text puzzle.token) (
                        field "captcha_lifetime" (num cfg.api_captcha_lifetime) (
                          field "client_id" (text candidate)
                            (field "captcha_answer_length" (num answer_length) end))))))),
          )
    ]
  ]

  -- A text field that has to be there and not to be empty.
  unfoldable pub required : Strings → String → String → String → (Bytes → Reply) → Server → Reply
  required json key not_a_string empty go_on sv = elim (json key) [
    | none ↦ reply sv 400 not_a_string
    | some value ↦ if is_empty value then reply sv 400 empty else go_on value
  ]

  -- `load` is `crow::json::load`, where `none` is an exception; `validate` is `Skaptcha::validate`.
  unfoldable pub identity_validation :
      (Bytes → Option Strings) → (Bytes → Bytes → Bytes → Bool) → Request → Server → Reply
  unfolding required
  identity_validation load validate req sv = elim (identified req sv) [
    | some c ↦ reply sv 400 "You are already authorized"
    | none ↦
        if leb cfg.api_max_client_count (client_count sv.clients)
        then reply sv 503 "The maximum number of clients has been reached, please try again later"
        else elim (load req.body) [
          | none ↦ reply sv 400 "Invalid JSON"
          | some json ↦
              required json "captcha_answer" ".captcha_answer should be a string"
                ".captcha_answer is empty"
                (λ answer'.
                  required json "client_id" ".client_id should be a string" ".client_id is empty"
                    (λ client_id.
                      required json "captcha_token" ".captcha_token should be a string"
                        ".captcha_token is empty"
                        (λ captcha_token.
                          required json "name" ".name should be a string" ".name is empty"
                            (λ name.
                              if not (validate client_id captcha_token answer')
                              then reply sv 403 "Incorrect response or captcha expired"
                              else internal_create_client name client_id sv)
                            sv)
                        sv)
                    sv)
                sv
        ]
  ]
