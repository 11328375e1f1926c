-- ===== src/Http/Routes.antt =====
-- webapi.cpp: `initRoutes`, which gives each path its handler (less the page itself, which the build
-- generates).
use put_in_pipe.Common.{ℕ, Bool, Option, Bytes}
use put_in_pipe.Config.{Config}
use put_in_pipe.Server.{Server}
use put_in_pipe.Http.{Request, Reply}
use put_in_pipe.Http.Info.{current_statistics, me_info, me_leave}
use put_in_pipe.Http.Identity.{Strings, Puzzle, identity_request, identity_validation}
use put_in_pipe.Http.Sessions.{Options, session_create, session_join}
use put_in_pipe.Http.Chunks.{session_chunk_post, session_chunk_get}

pub data Route : Type 0 where
  statistics_current : Route
  me_info_route : Route
  me_leave_route : Route
  identity_request_route : Route
  identity_confirmation : Route
  session_create_route : Route
  session_join_route : Route
  chunk_get : Route
  chunk_post : Route

-- What the handlers call outside: the version of the build, `HashSignature::sign`, crow's reading of
-- JSON, and the captcha's constant and validation.
pub record Environment : Type 0 where
  pub version : Bytes
  pub sign : Bytes → Bytes
  pub load_strings : Bytes → Option Strings
  pub load_options : Bytes → Options
  pub answer_length : ℕ
  pub validate : Bytes → Bytes → Bytes → Bool

-- What differs from request to request: the time, a random identifier, and a random captcha.
pub record Chance : Type 0 where
  pub now : ℕ
  pub candidate : Bytes
  pub puzzle : Puzzle

unfoldable pub handle : Environment → Config → Chance → Route → Request → Server → Reply
handle env cfg ch statistics_current req sv = current_statistics env.version cfg sv
handle env cfg ch me_info_route req sv = me_info req sv
handle env cfg ch me_leave_route req sv = me_leave req sv
handle env cfg ch identity_request_route req sv =
    identity_request env.sign cfg ch.now ch.candidate ch.puzzle env.answer_length req sv
handle env cfg ch identity_confirmation req sv =
    identity_validation env.sign cfg ch.now ch.candidate env.load_strings env.validate req sv
handle env cfg ch session_create_route req sv = session_create env.load_options cfg ch.now req sv
handle env cfg ch session_join_route req sv = session_join cfg ch.now req sv
handle env cfg ch chunk_get req sv = session_chunk_get ch.now req sv
handle env cfg ch chunk_post req sv = session_chunk_post cfg ch.now req sv
