-- ===== src/WsMessages.antt =====
-- webapi.cpp: `wsOnMessage` and `internalWsMessageProcessing`, what a client's web socket message does
-- to the client and its session. Reading JSON is crow's: `load` and the fields of `Data` are given.
pub mod Creator
pub mod Others
use put_in_pipe.Common.{
  ℕ, Bool, true, false, not, ◌||◌, List, [], ◌∷◌, ◌++◌, Option, none, some, map, is_empty, Bytes,
  String, codes, if◌then◌else◌,
}
use put_in_pipe.Config.{Config}
use put_in_pipe.Buffer.{chunks_info}
use put_in_pipe.SerializableEvent.{
  ServerEvent, adding_chunk_failure, set_file_info_failure, get_chunk_failure, unknown_action,
}
use put_in_pipe.Session.{Session, ClientRef, Effect, manual_terminate}
use put_in_pipe.Session.Info.{set_file_info}
use put_in_pipe.Session.Freeze.{drop_initial_chunks_freeze, session_set_end_of_file}
use put_in_pipe.Session.Chunks.{session_add_chunk, session_get_chunk, session_set_chunk_as_received}
use put_in_pipe.Session.Receivers.{remove_receiver, text_eq}
use put_in_pipe.Client.{Client, ClientEffect, set_name, client_process_ack}

-- The object under "data", read by `operator[]` and `s()` or `u()`; `none` is an exception.
pub record Data : Type 0 where
  pub s : String → Option Bytes
  pub u : String → Option ℕ
  pub has : String → Bool

-- A text message that is JSON: its "action" if that is a string, and its "data" if that is an object.
pub record Message : Type 0 where
  pub action : Option Bytes
  pub content : Option Data

pub data WsEffect : Type 0 where
  by_session : Effect → WsEffect
  by_client : ClientEffect → WsEffect
  -- `close` with its reason; the status code is left out, and so is the text of an exception.
  closes_conn : String → WsEffect
  sends_event : ServerEvent → WsEffect
  sends_binary : Bytes → WsEffect

-- The client that sent the message and its session, after it, and the calls on other objects.
abbrev pub Outcome : Type 0
Outcome = Client × Session × List WsEffect

abbrev pub client_ref : Client → ClientRef
client_ref c = record { id = c.id; public_id = c.public_id }

-- `creatorSp == nullptr or creatorSp->id() != client->id()`, negated.
abbrev pub is_creator : (Bytes → Bool) → Client → Session → Bool
is_creator alive c s = not (not (alive s.data_sender.id) || not (text_eq s.data_sender.id c.id))

abbrev with_session : Client → Session × List Effect → Outcome
with_session c r = (c, r.0, map by_session r.1)

abbrev pub refuse : String → Client → Session → Outcome
refuse reason c s = (c, s, closes_conn reason ∷ [])

-- The branches of `internalWsMessageProcessing`; `none` is an exception.
module _ (cfg : Config) (alive : Bytes → Bool) (data' : Data) (c : Client) (s : Session) where
  unfoldable pub on_set_file_info : Option Outcome
  on_set_file_info =
      if not (is_creator alive c s)
      then some (refuse "Only the session creator can set the file information" c s)
      else elim (data'.s "name") [
        | none ↦ none
        | some name ↦ elim (data'.u "size") [
          | none ↦ none
          | some size ↦
              let (s', told, accepted) = set_file_info (record { name = name; size = size }) s in
              some (
                c,
                s',
                map by_session told
                    ++ (if accepted then [] else sends_event set_file_info_failure ∷ []),
              )
        ]
      ]

  unfoldable pub on_upload_finished : Option Outcome
  on_upload_finished =
      if not (is_creator alive c s)
      then some (refuse "Only the session creator can set the upload finish" c s)
      else some (with_session c (session_set_end_of_file s))

  unfoldable pub on_kick_receiver : Option Outcome
  on_kick_receiver =
      if not (is_creator alive c s)
      then some (refuse "Only the session creator can delete participants" c s)
      else elim (data'.s "id") [
        | none ↦ none
        | some public_id ↦
            if text_eq c.public_id public_id
            then some (refuse "You can't delete yourself" c s)
            else some (with_session c (remove_receiver alive public_id s))
      ]

  unfoldable pub on_terminate_session : Option Outcome
  on_terminate_session =
      if not (is_creator alive c s)
      then some (refuse "Only the creator of the session can forcibly terminate it" c s)
      else some (with_session c (manual_terminate s))

  unfoldable pub on_drop_freeze : Option Outcome
  on_drop_freeze =
      if not (is_creator alive c s)
      then some (c, s, [])
      else some (with_session c (drop_initial_chunks_freeze cfg s))

  unfoldable pub on_new_name : Option Outcome
  on_new_name = elim (data'.s "name") [
    | none ↦ none
    | some name ↦ let (c', told) = set_name name c in some (c', s, map by_client told)
  ]

  unfoldable pub on_get_chunk : Option Outcome
  on_get_chunk = elim (data'.u "index") [
    | none ↦ none
    | some chunk_id ↦
        let (s', told, found) = session_get_chunk chunk_id (some (client_ref c)) s in
        some (
          c,
          s',
          map by_session told ++ elim found [
            | none ↦ sends_event (get_chunk_failure (chunks_info s'.buffer)) ∷ []
            | some bytes ↦ sends_binary bytes ∷ []
          ],
        )
  ]

  unfoldable pub on_confirm_chunk : Option Outcome
  on_confirm_chunk = elim (data'.u "index") [
    | none ↦ none
    | some chunk_id ↦ some (
        with_session (record c { current_chunk_index = chunk_id })
          (session_set_chunk_as_received cfg chunk_id (some (client_ref c)) s))
  ]

  unfoldable pub on_ack : Option Outcome
  on_ack = if not (data'.has "id") then some (c, s, []) else elim (data'.u "id") [
    | none ↦ none
    | some id ↦ let (c', ran) = client_process_ack id c in some (c', s, map by_client ran)
  ]

  unfoldable pub internal_ws_message_processing : Bytes → Option Outcome
  internal_ws_message_processing action =
      if text_eq action (codes "set_file_info")
      then on_set_file_info
      else if text_eq action (codes "upload_finished")
      then on_upload_finished
      else if text_eq action (codes "kick_receiver")
      then on_kick_receiver
      else if text_eq action (codes "terminate_session")
      then on_terminate_session
      else if text_eq action (codes "drop_freeze")
      then on_drop_freeze
      else if text_eq action (codes "new_name")
      then on_new_name
      else if text_eq action (codes "get_chunk")
      then on_get_chunk
      else if text_eq action (codes "confirm_chunk")
      then on_confirm_chunk
      else if text_eq action (codes "ack")
      then on_ack
      else some (c, s, sends_event (unknown_action action) ∷ [])

-- A binary message.
unfoldable pub on_binary : Config → (Bytes → Bool) → Bytes → Client → Session → Outcome
on_binary cfg alive bytes c s =
    if not (alive s.data_sender.id)
    then refuse "It is impossible to verify the session creator" c s
    else if not (text_eq c.id s.data_sender.id)
    then refuse "Only the session creator can send binary data" c s
    else let (s', told, accepted) = session_add_chunk cfg bytes s in
      (
        c,
        s',
        map by_session told ++ (if accepted then [] else sends_event adding_chunk_failure ∷ []),
      )

-- A text message; an exception closes the connection.
unfoldable pub on_text :
    (Bytes → Option Message) → Config → (Bytes → Bool) → Bytes → Client → Session → Outcome
on_text load cfg alive text c s = elim (load text) [
  | none ↦ refuse "Text messages are expected only in JSON format" c s
  | some m ↦ elim m.action [
    | none ↦ refuse "Invalid JSON: the 'action' string must be passed" c s
    | some action ↦ elim m.content [
      | none ↦ refuse "Invalid JSON: the 'data' object must be passed" c s
      | some content ↦ elim (internal_ws_message_processing cfg alive content c s action) [
        | none ↦ refuse "Exception" c s
        | some outcome ↦ outcome
      ]
    ]
  ]
]

-- `wsOnMessage` for a client that exists and whose session was found.
unfoldable pub ws_on_message :
    (Bytes → Option Message) → Config → (Bytes → Bool) → Bytes → Bool → Client → Session → Outcome
ws_on_message load cfg alive bytes is_binary c s =
    if is_empty c.joined_session
    then refuse "Protocol error: it is impossible to receive data before connecting to the session"
        c s
    else if is_binary
    then on_binary cfg alive bytes c s
    else on_text load cfg alive bytes c s
