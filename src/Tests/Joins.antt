-- ===== src/Tests/Joins.antt =====
-- Creating and joining a session at concrete inputs.
use put_in_pipe.Common.{◌≡◌, refl, ◌⊎◌, Bool, ℕ, List, [], ◌∷◌, some, String, bytes_discrete}
use put_in_pipe.Tests.{small}
use put_in_pipe.Tests.Requests.{environment, no_messages, at, request}
use put_in_pipe.AtomicSet
use put_in_pipe.Keyed.{lookup, alter_key}
use put_in_pipe.TimerCallback.{new_timer, start, time_remaining}
use put_in_pipe.Session.{Session, new_session, init_timers}
use put_in_pipe.Session.Receivers.{add_receiver, subscribe_others}
use put_in_pipe.Buffer.{add_new_to_expected_consumers}
use put_in_pipe.Client.{Client, new_client, set_name, join_session}
use put_in_pipe.ClientList.{create_client, get_client}
use put_in_pipe.SessionList.{create_session, get_session}
use put_in_pipe.Server.{Server, is_alive, put_client, put_session}
use put_in_pipe.Http.{Request, identified}
use put_in_pipe.Http.Identity.{identity_request, internal_create_client}
use put_in_pipe.Http.Sessions.{session_create, session_join, read_options, created}
use put_in_pipe.Http.Routes.{handle, identity_request_route, session_create_route}
use put_in_pipe.Http.Calls.{ServerCall, requests, empty_server, server_step, server_run}
use put_in_pipe.Http.Limits.{server_run-Valid}
use put_in_pipe.Http.Creation.{Created, session_create_creates}
use put_in_pipe.Http.Joining.{Joined, session_join_joins}

-- Two clients, with the identifiers 7 and 8.
abbrev arrivals : List ServerCall
arrivals =
    requests (at 1) identity_request_route (request [] [])
    ∷ requests (record (at 1) { candidate = 8 ∷ [] }) identity_request_route (request [] [])
    ∷ []

abbrev two_clients : Server
two_clients = server_run environment no_messages small arrivals empty_server

created_code :
    (session_create environment.load_options small 2 (request (7 ∷ []) (5 ∷ [])) two_clients).2.code
    ≡ 201
unfolding server_run server_step handle identity_request internal_create_client create_client
    get_client set_name new_client put_client alter_key lookup identified session_create
    read_options created create_session join_session bytes_discrete start new_session init_timers
created_code = refl

session_create_creates_example :
    (c : Client) × (auto_drop : Bool) × (identified (request (7 ∷ []) (5 ∷ [])) two_clients
      ≡ some c)
    × (c.joined_session ≡ [])
    × Created small 2 c auto_drop two_clients
        (session_create environment.load_options small 2 (request (7 ∷ []) (5 ∷ [])) two_clients).0
session_create_creates_example =
    session_create_creates environment.load_options small 2 (request (7 ∷ []) (5 ∷ [])) two_clients
      (server_run-Valid environment no_messages small arrivals) created_code

-- The first client creates a session.
abbrev with_session : List ServerCall
with_session =
    requests (at 1) identity_request_route (request [] [])
    ∷ requests (record (at 1) { candidate = 8 ∷ [] }) identity_request_route (request [] [])
    ∷ requests (at 2) session_create_route (request (7 ∷ []) (5 ∷ []))
    ∷ []

abbrev hosting : Server
hosting = server_run environment no_messages small with_session empty_server

-- The second client joins it.
abbrev joining : Request
joining = record (request (8 ∷ []) []) { url_param = λ (key : String). some (9 ∷ 7 ∷ []) }

joined_code : (session_join small 3 joining hosting).2.code ≡ 202
unfolding server_run server_step handle identity_request internal_create_client create_client
    get_client set_name new_client put_client alter_key lookup identified session_create
    read_options created create_session get_session join_session bytes_discrete time_remaining start
    new_timer new_session init_timers session_join add_receiver subscribe_others
    add_new_to_expected_consumers AtomicSet.add AtomicSet.contains put_session is_alive
joined_code = refl

session_join_joins_example :
    (c : Client) × (s : Session) × (left : ℕ) × (identified joining hosting ≡ some c)
    × (some (9 ∷ 7 ∷ []) ≡ some s.id)
    × (get_session 3 s.id hosting.sessions ≡ some (s, left))
    × (((c.joined_session ≡ s.id) × ((session_join small 3 joining hosting).0 ≡ hosting))
        ⊎ ((c.joined_session ≡ [])
            × Joined small 3 c s left hosting (session_join small 3 joining hosting).0))
session_join_joins_example =
    session_join_joins small 3 joining hosting
      (server_run-Valid environment no_messages small with_session) joined_code
