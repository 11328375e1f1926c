-- ===== src/Http/Admission.antt =====
-- Who gets an identity.
use put_in_pipe.Common.{
  ◌<◌, ◌≡◌, ltb, leb, true, false, not, List, [], some, Bytes, String, is_empty, Option-cases,
  if_elim, inl, inr, ◌⊎◌, ◌∙◌, sym, ap, subst, bytes_discrete, arith, if◌then◌else◌,
}
use put_in_pipe.Config.{Config}
use put_in_pipe.ClientList.{client_count}
use put_in_pipe.Server.{Server, ServerEffect}
use put_in_pipe.Http.{Request, Reply, Response, identified, reply}
use put_in_pipe.Http.Info.{current_statistics}
use put_in_pipe.Http.Identity.{
  Strings, internal_create_client, identity_request, required, identity_validation,
}
use put_in_pipe.Http.Keeps.{
  Anything, me_info-keeps, me_leave-keeps, session_join-keeps, session_create-keeps,
  session_chunk_post-keeps, session_chunk_get-keeps,
}
use put_in_pipe.Http.Unknown.{Unknown, Unknown-Keeping, internal_create_client-Unknown}
use put_in_pipe.Http.Routes.{
  Route, statistics_current, me_info_route, me_leave_route, identity_request_route,
  identity_confirmation, session_create_route, session_join_route, chunk_get, chunk_post,
  Environment, Chance, handle,
}

-- Why a request may give out an identifier: there are so few clients that no captcha is asked for, and
-- it is the new random one; or the captcha in the body was accepted for it.
abbrev pub IsAdmitted : Environment → Config → Chance → Route → Request → Server → Bytes → Type 0
IsAdmitted env cfg ch identity_request_route req sv id =
    (client_count sv.clients < cfg.api_without_captcha_threshold) × (id ≡ ch.candidate)
IsAdmitted env cfg ch identity_confirmation req sv id =
    (json : Strings) × (token : Bytes) × (answer : Bytes) × (env.load_strings req.body ≡ some json)
    × (json "client_id" ≡ some id)
    × (json "captcha_token" ≡ some token)
    × (json "captcha_answer" ≡ some answer)
    × (env.validate id token answer ≡ true)
IsAdmitted env cfg ch _ req sv id = ⊥

module _ (env : Environment) (cfg : Config) (ch : Chance) (req : Request) (sv : Server) (id : Bytes)
    (u : Unknown id sv) where
  Result : Route → Reply → Type 0
  Result route r = Unknown id r.0 ⊎ IsAdmitted env cfg ch route req sv id

  unknown : (route : Route) (r : Reply) → Unknown id r.0 → Result route r
  unfolding Result
  unknown route r h = inl h

  given : (route : Route) (r : Reply) → IsAdmitted env cfg ch route req sv id → Result route r
  unfolding Result
  given route r h = inr h

  same :
      (route : Route) (calls : List ServerEffect) (answer' : Response)
      → Result route (sv, calls, answer')
  same route calls answer' = unknown route (sv, calls, answer') u

  result-cases :
      (route : Route) (r : Reply)
      → Result route r
      → Unknown id r.0 ⊎ IsAdmitted env cfg ch route req sv id
  unfolding Result
  result-cases route r h = h

  identity_request-Result :
      Result identity_request_route
        (identity_request env.sign cfg ch.now ch.candidate ch.puzzle env.answer_length req sv)
  unfolding identity_request
  identity_request-Result = elim (Option-cases (identified req sv)) [
    | inr (c, e) ↦ rw (e, identity_request) (same _ _ _)
    | inl e ↦ elim (Option-cases (req.url_param "name")) [
      | inl f ↦ rw (e, identity_request, f) (same _ _ _)
      | inr (name, f) ↦
          rw (e, identity_request, f)
            (if_elim (Result identity_request_route)
              (leb cfg.api_max_client_count (client_count sv.clients)) _ _ (λ _. same _ _ _)
              (λ room.
                if_elim (Result identity_request_route)
                  (ltb (client_count sv.clients) cfg.api_without_captcha_threshold) _ _
                  (λ early. elim (bytes_discrete ch.candidate id) [
                    | yes e' ↦ given identity_request_route _ (ground (arith, early), sym e')
                    | no other ↦ unknown identity_request_route _ (
                        internal_create_client-Unknown cfg sv id u env.sign ch.now ch.candidate name
                          [] other)
                  ])
                  (λ _. same _ _ _)))
    ]
  ]

  required-Result :
      (json : Strings) (key why empty : String) (go_on : Bytes → Reply)
      → ((value : Bytes)
          → json key ≡ some value
          → is_empty value ≡ false
          → Result identity_confirmation (go_on value))
      → Result identity_confirmation
          (required env.sign cfg ch.now ch.candidate json key why empty go_on sv)
  unfolding required
  required-Result json key why empty go_on h = elim (Option-cases (json key)) [
    | inl e ↦ rw (e, required) (same _ _ _)
    | inr (value, e) ↦
        rw (e, required)
          (if_elim (Result identity_confirmation) (is_empty value) _ _ (λ _. same _ _ _)
            (λ full. h value e full))
  ]

  -- The end of the handler, when all the fields are there.
  confirmed-Result :
      (json : Strings) (answer' client_id token name : Bytes)
      → env.load_strings req.body ≡ some json
      → json "client_id" ≡ some client_id
      → is_empty client_id ≡ false
      → json "captcha_token" ≡ some token
      → json "captcha_answer" ≡ some answer'
      → Result identity_confirmation (
          if not (env.validate client_id token answer')
          then reply sv 403 "Incorrect response or captcha expired"
          else internal_create_client env.sign cfg ch.now ch.candidate name client_id sv)
  confirmed-Result json answer' client_id token name loaded has_id full has_token has_answer =
      if_elim (Result identity_confirmation) (not (env.validate client_id token answer')) _ _
        (λ _. same _ _ _)
        (λ accepted. elim (bytes_discrete client_id id) [
          | yes e' ↦ given identity_confirmation _ (
            json,
            token,
            answer',
            loaded,
            has_id ∙ ap some e',
            has_token,
            has_answer,
            subst (λ i. env.validate i token answer' ≡ true) e' (ground (arith, accepted)),
          )
          | no other ↦ unknown identity_confirmation _ (
              internal_create_client-Unknown cfg sv id u env.sign ch.now ch.candidate name client_id
                (rw full other))
        ])

  identity_validation-Result :
      Result identity_confirmation
        (identity_validation env.sign cfg ch.now ch.candidate env.load_strings env.validate req sv)
  unfolding identity_validation
  identity_validation-Result = elim (Option-cases (identified req sv)) [
    | inr (c, e) ↦ rw (e, identity_validation) (same _ _ _)
    | inl e ↦
        rw (e, identity_validation)
          (if_elim (Result identity_confirmation)
            (leb cfg.api_max_client_count (client_count sv.clients)) _ _ (λ _. same _ _ _)
            (λ room. elim (Option-cases (env.load_strings req.body)) [
              | inl f ↦ rw f (same _ _ _)
              | inr (json, f) ↦ rw f (
                  required-Result json _ _ _ _ (λ a has_answer _.
                    required-Result json _ _ _ _ (λ client_id has_id full.
                      required-Result json _ _ _ _ (λ token has_token _.
                        required-Result json _ _ _ _ (λ name _ _.
                          confirmed-Result json a client_id token name f has_id full has_token
                            has_answer)))))
            ]))
  ]

-- An identifier that names no client names none after a request either, or it was given out: by a request
-- for an identity, as the new random identifier, while there were fewer clients than it takes to
-- ask for captchas; or by a confirmation whose body holds it with a token and an answer that the
-- captcha accepted for it.
pub handle_admits :
    (env : Environment) (cfg : Config) (ch : Chance) (route : Route) (req : Request) (sv : Server)
    (id : Bytes)
    → Unknown id sv
    → Unknown id (handle env cfg ch route req sv).0 ⊎ IsAdmitted env cfg ch route req sv id
unfolding handle current_statistics
handle_admits env cfg ch statistics_current req sv id u = inl u
handle_admits env cfg ch me_info_route req sv id u =
    inl (me_info-keeps cfg (Unknown id) Anything (Unknown-Keeping cfg id) sv u req)
handle_admits env cfg ch me_leave_route req sv id u =
    inl (me_leave-keeps cfg (Unknown id) Anything (Unknown-Keeping cfg id) sv u req)
handle_admits env cfg ch identity_request_route req sv id u =
    result-cases env cfg ch req sv id u identity_request_route _
      (identity_request-Result env cfg ch req sv id u)
handle_admits env cfg ch identity_confirmation req sv id u =
    result-cases env cfg ch req sv id u identity_confirmation _
      (identity_validation-Result env cfg ch req sv id u)
handle_admits env cfg ch session_create_route req sv id u = inl (
    session_create-keeps cfg (Unknown id) Anything (Unknown-Keeping cfg id) sv u env.load_options
      ch.now req)
handle_admits env cfg ch session_join_route req sv id u =
    inl (session_join-keeps cfg (Unknown id) Anything (Unknown-Keeping cfg id) sv u ch.now req)
handle_admits env cfg ch chunk_get req sv id u =
    inl (session_chunk_get-keeps cfg (Unknown id) Anything (Unknown-Keeping cfg id) sv u ch.now req)
handle_admits env cfg ch chunk_post req sv id u =
    inl
      (session_chunk_post-keeps cfg (Unknown id) Anything (Unknown-Keeping cfg id) sv u ch.now req)
