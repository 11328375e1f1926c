-- ===== src/Http/Runs.antt =====
-- Everything that happens to the server keeps what the steps of `Keeping` and a new client keep.
use put_in_pipe.Common.{
  ◌<◌, ℕ, Bool, List, [], ◌∷◌, Option, none, some, is_empty, Bytes, Option-cases, if_elim, inl, inr,
}
use put_in_pipe.Config.{Config}
use put_in_pipe.Client.{Client, on_web_socket_connected, on_web_socket_disconnected}
use put_in_pipe.ClientList.{get_client, client_count, create_client}
use put_in_pipe.Session.{Session}
use put_in_pipe.Session.History.{SessionCall, client_destroyed, drops_freeze, session_step}
use put_in_pipe.WsMessages.Creator.{ws_on_message-Acts}
use put_in_pipe.SessionList.{get_session, session_timeout}
use put_in_pipe.WsMessages.{Message, WsEffect, ws_on_message}
use put_in_pipe.Server.{Server, is_alive, put_session}
use put_in_pipe.Http.Sockets.{
  WebSocketConnection, set_connection, destroy_connection, ws_on_connect, ws_on_close,
}
use put_in_pipe.Http.Messages.{ws_message}
use put_in_pipe.Http.Routes.{Environment}
use put_in_pipe.Http.Keeps.{Keeping}
use put_in_pipe.Http.Handles.{handle-keeps}
use put_in_pipe.Http.Calls.{
  ServerCall, requests, connects, closes, sends, client_expires, session_expires, session_hears,
  freeze_expires, call_session, server_step, server_run,
}

module _ {ℓ κ} (cfg : Config) (P : Server → Type ℓ) (Q : Session → Type κ) (k : Keeping cfg P Q)
    (sv : Server) (v : P sv) where
  set_connection-keeps : (conn : ℕ) (ws : WebSocketConnection) → P (set_connection conn ws sv).1
  unfolding set_connection
  set_connection-keeps conn ws = elim (Option-cases (get_client ws.client sv.clients)) [
    | inl e ↦ rw (e, set_connection) v
    | inr (c, e) ↦ rw (e, set_connection) (k.keeps_client (on_web_socket_connected conn c).0 sv v)
  ]

  pub ws_on_connect-keeps :
      (now conn : ℕ) (ws : WebSocketConnection) → P (ws_on_connect cfg now conn ws sv).1
  unfolding ws_on_connect
  ws_on_connect-keeps now conn ws = elim (Option-cases (get_client ws.client sv.clients)) [
    | inl e ↦ rw (e, ws_on_connect) v
    | inr (c, e) ↦
        let sv' = (set_connection conn ws sv).1 in
        elim (Option-cases (get_session now c.joined_session sv'.sessions)) [
          | inl f ↦ rw (e, ws_on_connect, f) (set_connection-keeps conn ws)
          | inr (s, f) ↦ rw (e, ws_on_connect, f) (set_connection-keeps conn ws)
        ]
  ]

  pub ws_on_close-keeps : (now : ℕ) (ws : Option WebSocketConnection) → P (ws_on_close now ws sv).0
  unfolding ws_on_close destroy_connection
  ws_on_close-keeps now none = v
  ws_on_close-keeps now (some ws) = elim (Option-cases (get_client ws.client sv.clients)) [
    | inl e ↦ rw (ws_on_close, e, destroy_connection) v
    | inr (c, e) ↦
        rw (ws_on_close, e, destroy_connection)
          (k.keeps_client (on_web_socket_disconnected now c).0 sv v)
  ]

  message-keeps :
      (load : Bytes → Option Message) (bytes : Bytes) (is_binary : Bool) (c : Client) (s : Session)
      → Q s
      → Q (ws_on_message load cfg (is_alive sv) bytes is_binary c s).1
  message-keeps load bytes is_binary c s q =
      elim (ws_on_message-Acts load cfg (is_alive sv) bytes is_binary c s) [
        | inl e ↦ rw e q
        | inr (call, e, _) ↦ rw e (k.keeps_calls (is_alive sv) call s q)
      ]

  call_session-keeps : (id : Bytes) (call : SessionCall) → P (call_session cfg id call sv)
  unfolding call_session
  call_session-keeps id call = elim (Option-cases (get_session 0 id sv.sessions)) [
    | inl e ↦ rw (call_session, e) v
    | inr ((s, remaining), e) ↦
        rw (call_session, e)
          (k.keeps_session (session_step cfg (is_alive sv) call s).0 sv
            (k.keeps_calls (is_alive sv) call s (k.holds_session 0 id s remaining sv v e)) v)
  ]

  pub ws_message-keeps :
      (load : Bytes → Option Message) (now : ℕ) (bytes : Bytes) (is_binary : Bool)
      (ws : Option WebSocketConnection)
      → P (ws_message load cfg now bytes is_binary ws sv).0
  unfolding ws_message
  ws_message-keeps load now bytes is_binary none = v
  ws_message-keeps load now bytes is_binary (some ws) =
      elim (Option-cases (get_client ws.client sv.clients)) [
        | inl e ↦ rw (ws_message, e) v
        | inr (c, e) ↦
            rw (ws_message, e)
              (if_elim (λ (r : Server × List WsEffect). P r.0) (is_empty c.joined_session) _ _
                (λ _. v)
                (λ _. elim (Option-cases (get_session now c.joined_session sv.sessions)) [
                  | inl f ↦ rw f v
                  | inr ((s, remaining), f) ↦
                      let r = ws_on_message load cfg (is_alive sv) bytes is_binary c s in
                      rw f (
                        k.keeps_client r.0 (put_session r.1 sv) (
                          k.keeps_session r.1 sv
                            (message-keeps load bytes is_binary c s
                              (k.holds_session now c.joined_session s remaining sv v f))
                            v))
                ]))
      ]

module _ {ℓ κ} (cfg : Config) (P : Server → Type ℓ) (Q : Session → Type κ) (k : Keeping cfg P Q)
    (grow : (sign : Bytes → Bytes) (now : ℕ) (id : Bytes) (sv : Server)
      → client_count sv.clients < cfg.api_max_client_count
      → P sv
      → P (record sv { clients = (create_client sign cfg now id sv.clients).0 }))
    (env : Environment) (load : Bytes → Option Message) where
  server_step-keeps :
      (call : ServerCall) (sv : Server) → P sv → P (server_step env load cfg call sv)
  unfolding server_step session_timeout
  server_step-keeps (requests ch route req) sv v = handle-keeps cfg P Q k grow sv v env ch route req
  server_step-keeps (connects now conn ws) sv v = ws_on_connect-keeps cfg P Q k sv v now conn ws
  server_step-keeps (closes now ws) sv v = ws_on_close-keeps cfg P Q k sv v now ws
  server_step-keeps (sends now bytes is_binary ws) sv v =
      ws_message-keeps cfg P Q k sv v load now bytes is_binary ws
  server_step-keeps (client_expires id) sv v = k.keeps_leaving id sv v
  server_step-keeps (session_expires id) sv v = k.keeps_removal id sv v
  server_step-keeps (session_hears id public_id) sv v =
      call_session-keeps cfg P Q k sv v id (client_destroyed public_id)
  server_step-keeps (freeze_expires id) sv v = call_session-keeps cfg P Q k sv v id drops_freeze

  pub server_run-keeps :
      (cs : List ServerCall) (sv : Server) → P sv → P (server_run env load cfg cs sv)
  unfolding server_run
  server_run-keeps [] sv v = v
  server_run-keeps (c ∷ cs) sv v =
      server_run-keeps cs (server_step env load cfg c sv) (server_step-keeps c sv v)
