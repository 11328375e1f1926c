-- ===== src/Http/Calls.antt =====
-- What happens to the server, one event at a time: requests, connections that open, send and close, and the
-- timers of the two lists, whose callbacks remove a client or a session.
use put_in_pipe.Common.{ℕ, Bool, List, [], ◌∷◌, Option, none, some, Bytes}
use put_in_pipe.Config.{Config}
use put_in_pipe.ClientList.{no_clients, remove_client}
use put_in_pipe.Session.History.{SessionCall, client_destroyed, drops_freeze, session_step}
use put_in_pipe.SessionList.{get_session, no_sessions, session_timeout}
use put_in_pipe.WsMessages.{Message}
use put_in_pipe.Server.{Server, is_alive, put_session}
use put_in_pipe.Http.{Request}
use put_in_pipe.Http.Sockets.{WebSocketConnection, ws_on_connect, ws_on_close}
use put_in_pipe.Http.Messages.{ws_message}
use put_in_pipe.Http.Routes.{Route, Environment, Chance, handle}

pub data ServerCall : Type 0 where
  requests : Chance → Route → Request → ServerCall
  -- the time and the connection
  connects : ℕ → ℕ → WebSocketConnection → ServerCall
  closes : ℕ → Option WebSocketConnection → ServerCall
  -- the time, the message, and whether it is binary
  sends : ℕ → Bytes → Bool → Option WebSocketConnection → ServerCall
  -- a client that timed out or was kicked is removed
  client_expires : Bytes → ServerCall
  -- a session that timed out or ended is removed
  session_expires : Bytes → ServerCall
  -- the session in the first place hears that a client is destroyed
  session_hears : Bytes → Bytes → ServerCall
  -- the timer of a session's initial freeze
  freeze_expires : Bytes → ServerCall

abbrev pub empty_server : Server
empty_server = record { clients = no_clients; sessions = no_sessions }

-- One call of the session that an identifier names, if there is one.
unfoldable pub call_session : Config → Bytes → SessionCall → Server → Server
call_session cfg id call sv = elim (get_session 0 id sv.sessions) [
  | none ↦ sv
  | some (s, remaining) ↦ put_session (session_step cfg (is_alive sv) call s).0 sv
]

module _ (env : Environment) (load : Bytes → Option Message) (cfg : Config) where
  unfoldable pub server_step : ServerCall → Server → Server
  server_step (requests ch route req) sv = (handle env cfg ch route req sv).0
  server_step (connects now conn ws) sv = (ws_on_connect cfg now conn ws sv).1
  server_step (closes now ws) sv = (ws_on_close now ws sv).0
  server_step (sends now bytes is_binary ws) sv = (ws_message load cfg now bytes is_binary ws sv).0
  server_step (client_expires id) sv = record sv { clients = (remove_client id sv.clients).0 }
  server_step (session_expires id) sv = record sv { sessions = (session_timeout id sv.sessions).0 }
  server_step (session_hears id public_id) sv = call_session cfg id (client_destroyed public_id) sv
  server_step (freeze_expires id) sv = call_session cfg id drops_freeze sv

  unfoldable pub server_run : List ServerCall → Server → Server
  server_run [] sv = sv
  server_run (c ∷ cs) sv = server_run cs (server_step c sv)
