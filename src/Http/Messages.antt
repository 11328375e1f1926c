-- ===== src/Http/Messages.antt =====
-- webapi.cpp: `wsOnMessage`, from the connection that a message came on to the two lists.
use put_in_pipe.Common.{ℕ, Bool, List, [], ◌∷◌, Option, none, some, is_empty, Bytes, if◌then◌else◌}
use put_in_pipe.Config.{Config}
use put_in_pipe.ClientList.{get_client}
use put_in_pipe.SessionList.{get_session}
use put_in_pipe.WsMessages.{Message, WsEffect, closes_conn, ws_on_message}
use put_in_pipe.Server.{Server, is_alive, put_client, put_session}
use put_in_pipe.Http.Sockets.{WebSocketConnection}

-- `load` is crow's reading of JSON; `none` for the connection is a null wrapper.
unfoldable pub ws_message :
    (Bytes → Option Message)
    → Config
    → ℕ
    → Bytes
    → Bool
    → Option WebSocketConnection
    → Server
    → Server × List WsEffect
ws_message load cfg now bytes is_binary none sv = (sv, [])
ws_message load cfg now bytes is_binary (some ws) sv = elim (get_client ws.client sv.clients) [
  | none ↦ (sv, closes_conn "Client not found" ∷ [])
  | some c ↦
      if is_empty c.joined_session
      then (
        sv,
        closes_conn
              "Protocol error: it is impossible to receive data before connecting to the session"
            ∷ [],
      )
      else elim (get_session now c.joined_session sv.sessions) [
        | none ↦ (sv, closes_conn "Session not found" ∷ [])
        | some (s, remaining) ↦
            let (c', s', calls) = ws_on_message load cfg (is_alive sv) bytes is_binary c s in
            (put_client c' (put_session s' sv), calls)
      ]
]
