-- ===== src/Http/Limits.antt =====
-- The limits of the server.
use put_in_pipe.Common.{List, Option, Bytes, arith}
use put_in_pipe.Config.{Config}
use put_in_pipe.SessionList.{create_session, remove_session}
use put_in_pipe.SessionList.Limit.{create-Sound, remove-Sound}
use put_in_pipe.WsMessages.{Message}
use put_in_pipe.Server.Valid.{
  Valid, put_client-Valid, put_session-Valid, with_sessions-Valid, remove_client-Valid,
  create_client-Valid,
}
use put_in_pipe.Http.Keeps.{Keeping, Anything}
use put_in_pipe.Http.Routes.{Environment}
use put_in_pipe.Http.Calls.{ServerCall, empty_server, server_run}
use put_in_pipe.Http.Runs.{server_run-keeps}

Valid-Keeping : (cfg : Config) → Keeping cfg (Valid cfg) Anything
Valid-Keeping cfg = record {
  keeps_client = put_client-Valid cfg;
  holds_session = λ now j s remaining sv v e. tt;
  keeps_calls = λ alive call s q. tt;
  keeps_session = λ s sv q. put_session-Valid cfg s sv;
  keeps_creation = λ now creator auto_drop sv room v.
      with_sessions-Valid cfg (create_session cfg now creator auto_drop sv.sessions).0 sv
        (create-Sound cfg now creator auto_drop sv.sessions room v.sessions) v;
  keeps_removal = λ id sv v.
      with_sessions-Valid cfg (remove_session id sv.sessions).0 sv
        (remove-Sound cfg id sv.sessions v.sessions) v;
  keeps_leaving = remove_client-Valid cfg;
}

empty-Valid : (cfg : Config) → Valid cfg empty_server
empty-Valid cfg = record {
  clients = record { single = tt; named = tt; few = omega arith };
  sessions = record { single = tt; named = tt; few = omega arith };
}

-- From the empty server, after any requests, connections opened and closed, messages, removals and expired timers,
-- one at a time, whatever they hold and whoever sends them: no identifier names two clients or two
-- sessions, each client and each session has the identifier that names it, and there are at most as
-- many clients and at most as many sessions as configured.
pub server_run-Valid :
    (env : Environment) (load : Bytes → Option Message) (cfg : Config) (cs : List ServerCall)
    → Valid cfg (server_run env load cfg cs empty_server)
server_run-Valid env load cfg cs =
    server_run-keeps cfg (Valid cfg) Anything (Valid-Keeping cfg)
      (λ sign now id sv. create_client-Valid sign cfg now id sv) env load cs empty_server
      (empty-Valid cfg)
