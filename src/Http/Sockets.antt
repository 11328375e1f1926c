-- ===== src/Http/Sockets.antt =====
-- webapi.cpp: `wsOnAccept`, `wsOnConnect` and `wsOnClose`; websocketconnection.h and
-- websocketconnection.cpp: a connection and the wrapper that crow keeps. A connection is a number.
use put_in_pipe.Common.{
  ℕ, Bool, true, false, List, [], ◌∷◌, ◌++◌, Option, none, some, map, is_empty, Bytes, String,
  if◌then◌else◌,
}
use put_in_pipe.Config.{Config}
use put_in_pipe.Json.{Json, Items, null, bool, num, text, arr, obj, end, field, nil, cons, assigned}
use put_in_pipe.Buffer.{chunks_info}
use put_in_pipe.Client.{
  Client, online, drop_current_ws_connection, on_web_socket_connected, on_web_socket_disconnected,
}
use put_in_pipe.ClientList.{get_client}
use put_in_pipe.Session.{Session, ClientRef, remaining_until_auto_drop_initial_freeze}
use put_in_pipe.SessionList.{get_session}
use put_in_pipe.Server.{Server, ServerEffect, by_client, put_client}
use put_in_pipe.Http.{Request, identified}

-- Whether the connection is accepted, the client that it is for, and the calls on other objects. The
-- current connection is dropped before the session is looked up.
unfoldable pub ws_on_accept : ℕ → Request → Server → Option Client × List ServerEffect
ws_on_accept now req sv = elim (identified req sv) [
  | none ↦ (none, [])
  | some c ↦
      if is_empty c.joined_session
      then (none, [])
      else let dropped =
          if online c then map (by_client c.id) (drop_current_ws_connection c) else [] in
        elim (get_session now c.joined_session sv.sessions) [
          | none ↦ (none, dropped)
          | some session ↦ (some c, dropped)
        ]
]

-- `WebSocketConnection`: the client that it is for, and crow's connection once that is open.
pub record WebSocketConnection : Type 0 where
  pub connection : Option ℕ
  pub client : Bytes

-- `setConnection`: the client is told, if it still exists.
unfoldable pub set_connection :
    ℕ → WebSocketConnection → Server → WebSocketConnection × Server × List ServerEffect
set_connection conn ws sv = elim (get_client ws.client sv.clients) [
  | none ↦ (record ws { connection = some conn }, sv, [])
  | some c ↦
      let (c', calls) = on_web_socket_connected conn c in
      (record ws { connection = some conn }, put_client c' sv, map (by_client c.id) calls)
]

-- The destructor of `WebSocketConnection`.
unfoldable pub destroy_connection : ℕ → WebSocketConnection → Server → Server × List ServerEffect
destroy_connection now ws sv = elim (get_client ws.client sv.clients) [
  | none ↦ (sv, [])
  | some c ↦
      let (c', calls) = on_web_socket_disconnected now c in
      (put_client c' sv, map (by_client c.id) calls)
]

-- `wsOnClose`: the wrapper is deleted, if there is one.
unfoldable pub ws_on_close : ℕ → Option WebSocketConnection → Server → Server × List ServerEffect
ws_on_close now none sv = (sv, [])
ws_on_close now (some ws) sv = destroy_connection now ws sv

-- The entries of the receivers that still exist.
unfoldable pub receivers_json : Server → List ClientRef → Items
receivers_json sv [] = nil
receivers_json sv (r ∷ rs) = elim (get_client r.id sv.clients) [
  | none ↦ receivers_json sv rs
  | some c ↦
      cons
        (obj (
          field "id" (text c.public_id) (
            field "name" (text c.name) (
              field "current_chunk" (num c.current_chunk_index)
                (field "is_online" (bool (online c)) end)))))
        (receivers_json sv rs)
]

unfoldable pub sender_json : Server → ClientRef → Json
sender_json sv sender = elim (get_client sender.id sv.clients) [
  | none ↦ null
  | some c ↦ obj (
      field "id" (text c.public_id)
        (field "name" (text c.name) (field "is_online" (bool (online c)) end)))
]

abbrev size_json : ℕ × ℕ → Json
size_json info = obj (field "index" (num info.0) (field "size" (num info.1) end))

abbrev limits_json : Config → Json
limits_json cfg = obj (
    field "max_receiver_count" (num cfg.transfer_session_max_consumer_count) (
      field "max_chunk_size" (num cfg.transfer_session_max_chunk_size) (
        field "max_initial_freeze" (num cfg.transfer_session_max_initial_freeze_duration)
          (field "max_chunk_queue" (num cfg.transfer_session_chunk_queue_max_size) end))))

-- What a session looks like to a client that connects, at a time, with its remaining lifetime.
unfoldable pub start_init : Config → ℕ → Server → Client → Session → ℕ → Json
unfolding receivers_json sender_json
start_init cfg now sv c s expiration =
    let state = obj (
      field "current_chunk" (num s.buffer.chunks_max_index) (
        field "upload_finished" (bool s.buffer.end_of_file) (
          field "some_chunk_was_removed" (bool s.buffer.some_chunk_was_removed) (
            field "initial_freeze" (bool s.buffer.initial_chunks_freezing) (
              field "initial_freeze_remaining"
                (num (remaining_until_auto_drop_initial_freeze now s))
                (field "chunks" (assigned size_json (chunks_info s.buffer)) (
                  field "expiration_in" (num expiration) (
                    field "file"
                      (obj (
                        field "name" (text s.file_info.name)
                          (field "size" (num s.file_info.size) end)))
                      end)))))))) in
    let members = obj (
      field "receivers" (arr (receivers_json sv s.data_receivers))
        (field "sender" (sender_json sv s.data_sender) end)) in
    let transferred = obj (
      field "global"
        (obj (
          field "from_sender" (num s.buffer.bytes_in_total)
            (field "to_receivers" (num s.buffer.bytes_out_total) end)))
        (field "received_by_you" (num c.bytes_received) end)) in
    obj (
      field "data"
        (obj (
          field "session_id" (text s.id) (
            field "limits" (limits_json cfg) (
              field "members" members
                (field "state" state (field "transferred" transferred end))))))
        (field "event" (text (put_in_pipe.Common.codes "start_init")) end))

-- What `wsOnConnect` does with the connection of its wrapper.
pub data Greeting : Type 0 where
  closes_conn : String → Greeting
  sends_json : Json → Greeting

unfoldable pub ws_on_connect :
    Config
    → ℕ
    → ℕ
    → WebSocketConnection
    → Server
    → WebSocketConnection × Server × List ServerEffect × Greeting
ws_on_connect cfg now conn ws sv = elim (get_client ws.client sv.clients) [
  | none ↦ (ws, sv, [], closes_conn "Client not found")
  | some c ↦
      let (ws', sv', calls) = set_connection conn ws sv in
      elim (get_session now c.joined_session sv'.sessions) [
        | none ↦ (ws', sv', calls, closes_conn "Session not found")
        | some (s, remaining) ↦ (ws', sv', calls, sends_json (start_init cfg now sv' c s remaining))
      ]
]
