-- ===== src/Tests/Requests.antt =====
-- Requests at a small server: a client that gets an identity, creates a session and uploads.
use put_in_pipe.Common.{
  ℕ, ◌≤◌, ◌≡◌, refl, ◌⊎◌, true, List, [], ◌∷◌, Option, none, some, Bytes, String, codes,
}
use put_in_pipe.Tests.{small}
use put_in_pipe.Keyed.{lookup}
use put_in_pipe.WsMessages.{Message, is_creator}
use put_in_pipe.Client.{Client}
use put_in_pipe.ClientList.{get_client}
use put_in_pipe.Session.{Session}
use put_in_pipe.Server.{Server, is_alive}
use put_in_pipe.Server.Valid.{Valid}
use put_in_pipe.Http.{Request, identified, answer, plain}
use put_in_pipe.Http.Chunks.{session_chunk_post, session_chunk_get}
use put_in_pipe.Http.Routes.{
  Environment, Chance, handle, identity_request_route, session_create_route, chunk_post,
  me_info_route,
}
use put_in_pipe.Http.Calls.{ServerCall, requests, connects, sends, empty_server, server_run}
use put_in_pipe.Http.Limits.{server_run-Valid}
use put_in_pipe.Http.Unknown.{Unknown}
use put_in_pipe.Http.Admission.{IsAdmitted, handle_admits}
use put_in_pipe.Http.Access.{IsOpen, handle_unidentified}
use put_in_pipe.Http.Upload.{
  IsRefusal, IsParticipant, Uploaded, Downloaded, session_chunk_post_cases, session_chunk_get_cases,
}

abbrev pub environment : Environment
environment = record {
  version = codes "1";
  sign = λ id. 9 ∷ id;
  load_strings = λ body. some (λ (key : String). some (codes "x"));
  load_options = λ body. record {
    is_valid = true;
    has = λ (key : String). true;
    boolean = λ (key : String). some true;
  };
  answer_length = 5;
  validate = λ context token text. true;
}

abbrev pub no_messages : Bytes → Option Message
no_messages text = none

abbrev pub at : ℕ → Chance
at now = record { now = now; candidate = 7 ∷ []; puzzle = record { image = []; token = [] } }

-- A request with a cookie and a body, whose parameters are all "1".
abbrev pub request : Bytes → Bytes → Request
request cookie body = record {
  cookie = cookie;
  url_param = λ (key : String). some (codes "1");
  body = body;
  remote_ip_address = codes "::1";
}

abbrev first_calls : List ServerCall
first_calls =
    requests (at 1) identity_request_route (request [] [])
    ∷ requests (at 2) session_create_route (request (7 ∷ []) (5 ∷ []))
    ∷ requests (at 3) chunk_post (request (7 ∷ []) (5 ∷ 6 ∷ []))
    ∷ connects 4 1 (record { connection = none; client = 7 ∷ [] })
    ∷ sends 5 (5 ∷ []) true (some (record { connection = some 1; client = 7 ∷ [] }))
    ∷ []

abbrev busy_server : Server
busy_server = server_run environment no_messages small first_calls empty_server

server_run-Valid_example : Valid small busy_server
server_run-Valid_example = server_run-Valid environment no_messages small first_calls

handle_admits_example :
    Unknown
      (7 ∷ [])
      (handle environment small (at 1) identity_request_route (request [] []) empty_server).0
    ⊎ IsAdmitted environment small
        (at 1)
        identity_request_route
        (request [] [])
        empty_server
        (7 ∷ [])
handle_admits_example =
    handle_admits environment small (at 1) identity_request_route (request [] []) empty_server
      (7 ∷ []) (unfold get_client lookup in refl)

handle_unidentified_example :
    IsOpen me_info_route
    ⊎ (handle environment small (at 1) me_info_route (request (8 ∷ []) []) empty_server
        ≡ (empty_server, [], answer 401 (plain "You have not been identified")))
handle_unidentified_example =
    handle_unidentified environment small (at 1) me_info_route (request (8 ∷ []) []) empty_server
      (unfold identified get_client lookup in refl)

session_chunk_post_cases_example :
    IsRefusal busy_server (session_chunk_post small 6 (request (7 ∷ []) (5 ∷ 6 ∷ [])) busy_server)
    ⊎ ((c : Client) × (s : Session) × IsParticipant 6
          (request (7 ∷ []) (5 ∷ 6 ∷ []))
          busy_server
          c
          s
        × (is_creator (is_alive busy_server) c s ≡ true)
        × (2 ≤ 4)
        × Uploaded 6
            (request (7 ∷ []) (5 ∷ 6 ∷ []))
            busy_server
            small
            s
            (session_chunk_post small 6 (request (7 ∷ []) (5 ∷ 6 ∷ [])) busy_server))
session_chunk_post_cases_example =
    session_chunk_post_cases 6 (request (7 ∷ []) (5 ∷ 6 ∷ [])) busy_server small

session_chunk_get_cases_example :
    IsRefusal busy_server (session_chunk_get 6 (request (7 ∷ []) []) busy_server)
    ⊎ ((c : Client) × (s : Session) × (index : ℕ) × (text : Bytes) × IsParticipant 6
          (request (7 ∷ []) [])
          busy_server
          c
          s
        × (some (codes "1") ≡ some text)
        × (put_in_pipe.Numerals.stoul text ≡ some index)
        × Downloaded 6
            (request (7 ∷ []) [])
            busy_server
            index
            c
            s
            (session_chunk_get 6 (request (7 ∷ []) []) busy_server))
session_chunk_get_cases_example = session_chunk_get_cases 6 (request (7 ∷ []) []) busy_server
