-- ===== src/Client.antt =====
-- client.h and client.cpp: `Client`. An operation returns the new state and the calls that it makes
-- on other objects, in their order. `dump` turns a message into text; crow does that.
pub mod PendingAcks
pub mod ExactlyOnce
pub mod AckRuns
pub mod AckText
pub mod Presence
use put_in_pipe.Common.{
  ℕ, ◌+◌, ltb, u64, Bool, true, false, not, List, [], ◌∷◌, ◌++◌, map, Option, none, some, length,
  take, is_empty, if◌then◌else◌, Bytes,
}
use put_in_pipe.Config.{Config}
use put_in_pipe.Json.{Json}
use put_in_pipe.SerializableEvent.{ServerEvent, json}
use put_in_pipe.SerializableEvent
use put_in_pipe.Session.{
  SessionEvent, ClientRef, FileInfo, CompleteType, new_receiver, receiver_removed,
  file_info_updated, chunk_download_started, chunk_download_finished, new_chunk_is_available,
  chunks_was_removed, bytes_in_updated, bytes_out_updated, chunks_are_unfrozen,
  file_upload_finished, complete,
}
use put_in_pipe.TimerCallback.{TimerCallback, AsioCall, new_timer, start, stop, restart}
use PendingAcks.{Acks, no_acks, register, resolve_ack, process_ack, drain}
use AckText.{with_id}

-- What clients tell each other.
pub data ClientsDirect : Type 0 where
  connected : Bytes → ClientsDirect
  disconnected : Bytes → ClientsDirect
  name_changed : Bytes → Bytes → ClientsDirect

pub data ClientEffect : Type 0 where
  -- `WebSocketConnection::sendText` on a connection
  sends_text : ℕ → Bytes → ClientEffect
  -- `WebSocketConnection::close`
  closes : ℕ → ClientEffect
  -- `Publisher<Event::ClientsDirect>::notifySubscribers`
  publishes : ClientsDirect → ClientEffect
  -- `Publisher<Event::ClientInternal>::notifySubscribers`, `destroyed`
  publishes_destroyed : Bytes → ClientEffect
  -- `ClientList::remove`, which is what each acknowledgement's callback does
  removes_client : Bytes → ClientEffect
  -- the fallback timer of an acknowledgement is set
  arms_fallback : ℕ → ClientEffect
  -- it is cancelled
  cancels_fallback : ℕ → ClientEffect
  -- a call on the timer of the timeout
  calls_timer : AsioCall → ClientEffect

-- `web_socket` is the connection that the weak pointer locks to. A pending callback is the identifier
-- of the client that it removes.
pub record Client : Type 0 where
  pub id : Bytes
  pub public_id : Bytes
  pub joined_session : Bytes
  pub name : Bytes
  pub web_socket : Option ℕ
  pub current_chunk_index : ℕ
  pub bytes_received : ℕ
  pub ws_timeout_timer : TimerCallback
  pub acks : Acks Bytes

abbrev pub name_max_length : ℕ
name_max_length = 20

abbrev pub timer_calls : List AsioCall → List ClientEffect
timer_calls calls = map calls_timer calls

abbrev pub online : Client → Bool
online c = not c.ws_timeout_timer.is_running

-- The constructor; `sign` is `HashSignature::sign`.
unfoldable pub new_client : (Bytes → Bytes) → Config → ℕ → Bytes → Client × List ClientEffect
new_client sign cfg now id =
    let (timer, calls) = start now (new_timer true cfg.client_timeout now) in
    (
      record {
        id = id;
        public_id = sign id;
        joined_session = [];
        name = [];
        web_socket = none;
        current_chunk_index = 0;
        bytes_received = 0;
        ws_timeout_timer = timer;
        acks = no_acks;
      },
      timer_calls calls,
    )

-- `std::string::resize` to at most the maximal length; the publication tells the stored name.
unfoldable pub set_name : Bytes → Client → Client × List ClientEffect
set_name name c =
    if is_empty name
    then (c, [])
    else let stored =
        if ltb name_max_length (length name) then take name_max_length name else name in
      (record c { name = stored }, publishes (name_changed stored c.public_id) ∷ [])

unfoldable pub join_session : Bytes → Client → Client × Bool
join_session id c =
    if is_empty id
    then (c, false)
    else if not (is_empty c.joined_session)
    then (c, false)
    else (record c { joined_session = id }, true)

unfoldable pub on_web_socket_connected : ℕ → Client → Client × List ClientEffect
on_web_socket_connected connection c =
    let (timer, calls) = stop c.ws_timeout_timer in
    (
      record c { web_socket = some connection; ws_timeout_timer = timer },
      timer_calls calls ++ publishes (connected c.public_id) ∷ [],
    )

unfoldable pub on_web_socket_disconnected : ℕ → Client → Client × List ClientEffect
on_web_socket_disconnected now c =
    let (timer, calls) = start now c.ws_timeout_timer in
    (
      record c { web_socket = none; ws_timeout_timer = timer },
      timer_calls calls ++ publishes (disconnected c.public_id) ∷ [],
    )

unfoldable pub reset_ws_timeout_timer_if_it_active : ℕ → Client → Client × List ClientEffect
reset_ws_timeout_timer_if_it_active now c =
    let (timer, calls) = restart now c.ws_timeout_timer in
    if c.ws_timeout_timer.is_running
    then (record c { ws_timeout_timer = timer }, timer_calls calls)
    else (c, [])

unfoldable pub drop_current_ws_connection : Client → List ClientEffect
drop_current_ws_connection c = elim c.web_socket [
  | none ↦ []
  | some connection ↦ closes connection ∷ []
]

-- What `resolveAck` calls for an identifier that was pending.
abbrev pub ran : ℕ → Option Bytes → List ClientEffect
ran id none = []
ran id (some client) = cancels_fallback id ∷ removes_client client ∷ []

unfoldable pub client_resolve_ack : ℕ → Client → Client × List ClientEffect
client_resolve_ack id c =
    let (acks, callback) = resolve_ack id c.acks in (record c { acks = acks }, ran id callback)

unfoldable pub client_process_ack : ℕ → Client → Client × List ClientEffect
client_process_ack ack_id c = client_resolve_ack ack_id c

-- The callback removes the client `target`.
unfoldable pub send_text_with_ack : Bytes → Bytes → Client → Client × List ClientEffect
send_text_with_ack event_json target c =
    let (acks, id) = register target c.acks in
    let pending : Client = record c { acks = acks } in
    elim c.web_socket [
      | some connection ↦
          (pending, arms_fallback id ∷ sends_text connection (with_id id event_json) ∷ [])
      | none ↦
          let (resolved, effects) = client_resolve_ack id pending in
          (resolved, arms_fallback id ∷ effects)
    ]

-- The loop of the destructor over what is pending.
abbrev pub resolve_pending : List (ℕ × Bytes) → List ClientEffect
resolve_pending [] = []
resolve_pending ((id, client) ∷ m) = cancels_fallback id ∷ removes_client client ∷ resolve_pending m

-- The destructor.
unfoldable pub destroy_client : Client → List ClientEffect
destroy_client c =
    resolve_pending c.acks.pending_acks
    ++ publishes_destroyed c.public_id ∷ drop_current_ws_connection c

module _ (dump : Json → Bytes) where
  -- `if (auto sp = m_webSocketConnection.lock()) sp->sendText(….json())`
  unfoldable pub send : ServerEvent → Client → List ClientEffect
  send e c = elim c.web_socket [
    | none ↦ []
    | some connection ↦ sends_text connection (dump (json e)) ∷ []
  ]

  unfoldable pub increment_received : ℕ → Client → Client × List ClientEffect
  increment_received bytes c =
      let c' : Client = record c { bytes_received = u64 (c.bytes_received + bytes) } in
      (c', send (SerializableEvent.personal_received_updated c'.bytes_received) c')

  -- `update(Event::ClientsDirect)`.
  unfoldable pub update_clients_direct : ClientsDirect → Client → List ClientEffect
  update_clients_direct (connected public_id) c = send (SerializableEvent.online public_id true) c
  update_clients_direct (disconnected public_id) c =
      send (SerializableEvent.online public_id false) c
  update_clients_direct (name_changed name public_id) c =
      send (SerializableEvent.name_changed public_id name) c

  -- `update(Event::TransferSession)`. For a new receiver, `name_of` is its name.
  unfoldable pub update_session :
      (ClientRef → Bytes) → SessionEvent → Client → Client × List ClientEffect
  update_session name_of (new_receiver client) c =
      (c, send (SerializableEvent.new_receiver client.public_id (name_of client)) c)
  update_session name_of (receiver_removed public_id) c =
      (c, send (SerializableEvent.receiver_removed public_id) c)
  update_session name_of (file_info_updated info) c =
      (c, send (SerializableEvent.file_info_updated info.name info.size) c)
  update_session name_of (chunk_download_started public_id chunk_id) c =
      (c, send (SerializableEvent.chunk_download public_id chunk_id true) c)
  update_session name_of (chunk_download_finished public_id chunk_id) c =
      (c, send (SerializableEvent.chunk_download public_id chunk_id false) c)
  update_session name_of (new_chunk_is_available index size) c =
      (c, send (SerializableEvent.new_chunk_available index size) c)
  update_session name_of (chunks_was_removed list) c =
      (c, send (SerializableEvent.chunks_removed list) c)
  update_session name_of file_upload_finished c = (c, send SerializableEvent.upload_finished c)
  update_session name_of (complete type) c =
      send_text_with_ack (dump (json (SerializableEvent.session_complete type))) c.id c
  update_session name_of (bytes_in_updated value) c =
      (c, send (SerializableEvent.total_bytes_count value true) c)
  update_session name_of (bytes_out_updated value) c =
      (c, send (SerializableEvent.total_bytes_count value false) c)
  update_session name_of chunks_are_unfrozen c = (c, send SerializableEvent.chunks_are_unfrozen c)

  -- `update(Event::TransferSessionForSender)`.
  unfoldable pub update_for_sender : Bool → Client → List ClientEffect
  update_for_sender status c = send (SerializableEvent.new_chunk_is_allowed status) c
