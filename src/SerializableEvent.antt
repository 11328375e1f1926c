-- ===== src/SerializableEvent.antt =====
-- serializableevent.h and serializableevent.cpp: the messages that the server sends to a client. Each
-- struct is a constructor with the struct's fields, and `json` is its `json()` before `dump()`.
pub mod Decode
use put_in_pipe.Common.{ℕ, Bool, true, false, List, [], ◌∷◌, String, Bytes, codes, if◌then◌else◌}
use put_in_pipe.Json.{Json, null, bool, num, text, arr, obj, Fields, end, field, assigned}
use put_in_pipe.Session.{CompleteType, ok, timeout, sender_is_gone, no_receivers}

pub data ServerEvent : Type 0 where
  online : Bytes → Bool → ServerEvent
  name_changed : Bytes → Bytes → ServerEvent
  new_receiver : Bytes → Bytes → ServerEvent
  receiver_removed : Bytes → ServerEvent
  file_info_updated : Bytes → ℕ → ServerEvent
  chunk_download : Bytes → ℕ → Bool → ServerEvent
  new_chunk_available : ℕ → ℕ → ServerEvent
  chunks_removed : List ℕ → ServerEvent
  upload_finished : ServerEvent
  session_complete : CompleteType → ServerEvent
  kicked : ServerEvent
  total_bytes_count : ℕ → Bool → ServerEvent
  new_chunk_is_allowed : Bool → ServerEvent
  chunks_are_unfrozen : ServerEvent
  personal_received_updated : ℕ → ServerEvent
  adding_chunk_failure : ServerEvent
  set_file_info_failure : ServerEvent
  get_chunk_failure : List (ℕ × ℕ) → ServerEvent
  unknown_action : Bytes → ServerEvent

abbrev pub message : String → Json → Json
message name body = obj (field "event" (text (codes name)) (field "data" body end))

abbrev pub one : String → Json → Json
one k v = obj (field k v end)

abbrev pub two : String → Json → String → Json → Json
two k v k' v' = obj (field k v (field k' v' end))

abbrev pub status_text : CompleteType → Bytes
status_text ok = codes "ok"
status_text timeout = codes "timeout"
status_text sender_is_gone = codes "sender_is_gone"
status_text no_receivers = codes "no_receivers"

unfoldable pub json : ServerEvent → Json
json (online id connected) = message "online" (two "id" (text id) "status" (bool connected))
json (name_changed id name) = message "name_changed" (two "id" (text id) "name" (text name))
json (new_receiver id name) = message "new_receiver" (two "id" (text id) "name" (text name))
json (receiver_removed id) = message "receiver_removed" (one "id" (text id))
json (file_info_updated name size) = message "file_info" (two "name" (text name) "size" (num size))
json (chunk_download id chunk_id started) = message "chunk_download" (
    obj (
      field "id" (text id) (
        field "index" (num chunk_id)
          (field "action" (text (if started then codes "started" else codes "finished")) end))))
json (new_chunk_available chunk_id size) =
    message "new_chunk" (two "index" (num chunk_id) "size" (num size))
json (chunks_removed list) = message "chunk_removed" (one "id" (assigned num list))
json upload_finished = message "upload_finished" (obj end)
json (session_complete type) = message "complete" (one "status" (text (status_text type)))
json kicked = message "kicked" (obj end)
json (total_bytes_count value inward) = message "bytes_count" (
    two "value" (num value) "direction"
      (text (if inward then codes "from_sender" else codes "to_receivers")))
json (new_chunk_is_allowed status) = message "new_chunk_allowed" (one "status" (bool status))
json chunks_are_unfrozen = message "chunks_unfrozen" (obj end)
json (personal_received_updated bytes) = message "personal_received" (one "bytes" (num bytes))
json adding_chunk_failure = message "add_chunk_failure" (obj end)
json set_file_info_failure = message "set_file_info_failure" (obj end)
json (get_chunk_failure list) =
    message "requested_chunk_not_found"
      (one "available" (assigned (λ info. two "index" (num info.0) "size" (num info.1)) list))
json (unknown_action action) = message "unknown_action" (one "name" (text action))
