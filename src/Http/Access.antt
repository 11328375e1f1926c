-- ===== src/Http/Access.antt =====
-- Who gets what: requests with no identity.
use put_in_pipe.Common.{◌≡◌, refl, ◌⊎◌, inl, inr, [], none}
use put_in_pipe.Config.{Config}
use put_in_pipe.Server.{Server}
use put_in_pipe.Http.{Request, identified, answer, plain}
use put_in_pipe.Http.Info.{me_info, me_leave}
use put_in_pipe.Http.Sessions.{session_create, session_join}
use put_in_pipe.Http.Chunks.{session_chunk_post, session_chunk_get, with_joined_session}
use put_in_pipe.Http.Routes.{
  Route, statistics_current, me_info_route, me_leave_route, identity_request_route,
  identity_confirmation, session_create_route, session_join_route, chunk_get, chunk_post,
  Environment, Chance, handle,
}

-- The routes that anyone may use.
abbrev pub IsOpen : Route → Type 0
IsOpen route =
    (route ≡ statistics_current)
    ⊎ ((route ≡ identity_request_route) ⊎ (route ≡ identity_confirmation))

-- A request whose cookie names no client is answered 401 on every route but the statistics and the two
-- that give out identities, and changes nothing.
pub handle_unidentified :
    (env : Environment) (cfg : Config) (ch : Chance) (route : Route) (req : Request) (sv : Server)
    → identified req sv ≡ none
    → IsOpen route
      ⊎ (handle env cfg ch route req sv
          ≡ (sv, [], answer 401 (plain "You have not been identified")))
unfolding handle me_info me_leave session_create session_join with_joined_session
handle_unidentified env cfg ch statistics_current req sv h = inl (inl refl)
handle_unidentified env cfg ch me_info_route req sv h = inr (rw (h, me_info) refl)
handle_unidentified env cfg ch me_leave_route req sv h = inr (rw (h, me_leave) refl)
handle_unidentified env cfg ch identity_request_route req sv h = inl (inr (inl refl))
handle_unidentified env cfg ch identity_confirmation req sv h = inl (inr (inr refl))
handle_unidentified env cfg ch session_create_route req sv h = inr (rw (h, session_create) refl)
handle_unidentified env cfg ch session_join_route req sv h = inr (rw (h, session_join) refl)
handle_unidentified env cfg ch chunk_get req sv h =
    inr (unfold session_chunk_get in rw (h, with_joined_session) refl)
handle_unidentified env cfg ch chunk_post req sv h =
    inr (unfold session_chunk_post in rw (h, with_joined_session) refl)
