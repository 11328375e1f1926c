-- ===== src/Tests/Servers.antt =====
-- A server at concrete inputs: what it keeps, and the captcha from end to end.
use put_in_pipe.Common.{
  ◌+◌, ◌==◌, ◌≤◌, ◌≡◌, refl, leb, ◌&&◌, true, List, [], ◌∷◌, map, length, some, bytes_discrete,
  codes, if◌then◌else◌, arith,
}
use put_in_pipe.Tests.{small}
use put_in_pipe.Tests.Requests.{environment, no_messages, at, request}
use put_in_pipe.Tests.Tokens.{toy, toy-Lawful, nonce}
use put_in_pipe.Keyed.{lookup, alter_key}
use put_in_pipe.TimerCallback.{new_timer, start, time_remaining}
use put_in_pipe.Session.Receivers.{text_eq}
use put_in_pipe.Session.{Session, new_session, init_timers}
use put_in_pipe.Session.Delivery.{fresh_session}
use put_in_pipe.Client.{new_client, set_name, join_session}
use put_in_pipe.ClientList.{create_client, get_client}
use put_in_pipe.SessionList.{create_session, get_session}
use put_in_pipe.Server.{put_client}
use put_in_pipe.Captcha.Payload
use put_in_pipe.Captcha.Expiring.{generate_captcha, validate, to_upper, captcha_string_length}
use put_in_pipe.Http.{identified}
use put_in_pipe.Http.Identity.{
  Strings, identity_request, internal_create_client, identity_validation,
}
use put_in_pipe.Http.Sessions.{session_create, read_options, created}
use put_in_pipe.Http.Routes.{handle, identity_request_route, session_create_route}
use put_in_pipe.Http.Calls.{ServerCall, requests, empty_server, server_step, server_run}
use put_in_pipe.Http.Reached.{Reached, server_run-refines}
use put_in_pipe.Http.Memory.{memory_held, server_run-memory}
use put_in_pipe.Http.Captchas.{captcha_decides}
use put_in_pipe.Startup.{max_memory}

abbrev two_calls : List ServerCall
two_calls =
    requests (at 1) identity_request_route (request [] [])
    ∷ requests (at 2) session_create_route (request (7 ∷ []) (5 ∷ []))
    ∷ []

-- The session that the client with the identifier 7 creates.
abbrev made_session : Session
made_session =
    fresh_session small (record { id = 7 ∷ []; public_id = 9 ∷ 7 ∷ [] }) (9 ∷ 7 ∷ []) true 2

made_found :
    get_session 2
      (9 ∷ 7 ∷ [])
      (server_run environment no_messages small two_calls empty_server).sessions
    ≡ some (made_session, 7200)
unfolding server_run server_step handle identity_request internal_create_client create_client
    get_client set_name new_client put_client alter_key lookup identified session_create
    read_options created create_session get_session join_session bytes_discrete time_remaining start
    new_timer new_session init_timers
made_found = refl

server_run-refines_example : Reached small made_session
server_run-refines_example =
    server_run-refines environment no_messages small two_calls 2 (9 ∷ 7 ∷ []) made_session 7200
      made_found

server_run-memory_example :
    memory_held (server_run environment no_messages small two_calls empty_server).sessions.sessions
    ≤ max_memory small
server_run-memory_example =
    server_run-memory environment no_messages small two_calls (omega arith) (omega arith)

-- A body that says "ab1cd" everywhere but at the token.
abbrev body : Strings
body key =
    if text_eq (codes key) (codes "captcha_token")
    then some (generate_captcha toy 17 nonce [] (codes "AB1CD") (codes "ab1cd") 180).token
    else some (codes "ab1cd")

captcha_decides_example :
    (identity_validation
      (λ id. 9 ∷ id)
      small
      197
      (7 ∷ [])
      (λ text. some body)
      (validate toy 197)
      (request [] [])
      empty_server).2.code
    ≡ (if length (codes "ab1cd") == captcha_string_length
          && (leb 197 (17 + 180) && text_eq (codes "AB1CD") (map to_upper (codes "ab1cd")))
        then 201
        else 403)
captcha_decides_example =
    captcha_decides toy (λ id. 9 ∷ id) small 17 197 nonce [] (codes "AB1CD") (7 ∷ []) 180
      (λ text. some body) (request [] []) empty_server body (codes "ab1cd") (codes "ab1cd")
      (codes "ab1cd") toy-Lawful refl (ground arith) (refl, refl)
      (unfold Payload.dump put_in_pipe.Numerals.print put_in_pipe.Numerals.to_string
          put_in_pipe.Numerals.digits in
        omega arith)
      (unfold identified get_client lookup in refl) (omega arith) refl
      (unfold bytes_discrete in (refl, refl)) (unfold bytes_discrete in (refl, refl))
      (unfold bytes_discrete in refl) (unfold bytes_discrete in (refl, refl))
      (unfold get_client lookup in refl)
