-- ===== src/Session.antt =====
-- transfersession.h: the state of a `TransferSession`, its events, and the calls that it makes on
-- other objects. An operation returns the new state and those calls, in their order.
pub mod Freeze
pub mod Chunks
pub mod Receivers
pub mod Info
pub mod Flow
pub mod Told
pub mod History
pub mod Refinement
pub mod Members
pub mod Expected
pub mod Ending
pub mod Confirming
pub mod Leaving
pub mod Completion
pub mod Names
pub mod Delivery
pub mod Faults
use put_in_pipe.Common.{ℕ, Bool, true, false, List, [], ◌∷◌, Option, none, some, Bytes, ◌*◌}
use put_in_pipe.Config.{Config}
use put_in_pipe.Buffer.{Buffer, new_buffer}
use put_in_pipe.TimerCallback.{TimerCallback, new_timer, start, time_remaining}

-- A client as a session sees it: its two identifiers. A weak pointer to it is such a value together
-- with the answer whether the client still exists, which each operation takes as `alive`.
pub record ClientRef : Type 0 where
  pub id : Bytes
  pub public_id : Bytes

pub data CompleteType : Type 0 where
  ok timeout sender_is_gone no_receivers : CompleteType

pub record FileInfo : Type 0 where
  pub name : Bytes
  pub size : ℕ

pub data SessionEvent : Type 0 where
  new_receiver : ClientRef → SessionEvent
  receiver_removed : Bytes → SessionEvent
  file_info_updated : FileInfo → SessionEvent
  chunk_download_started : Bytes → ℕ → SessionEvent
  chunk_download_finished : Bytes → ℕ → SessionEvent
  new_chunk_is_available : ℕ → ℕ → SessionEvent
  chunks_was_removed : List ℕ → SessionEvent
  bytes_in_updated : ℕ → SessionEvent
  bytes_out_updated : ℕ → SessionEvent
  chunks_are_unfrozen : SessionEvent
  file_upload_finished : SessionEvent
  complete : CompleteType → SessionEvent

pub data Effect : Type 0 where
  -- `Publisher<Event::TransferSession>::notifySubscribers`
  notifies : SessionEvent → Effect
  -- `Publisher<Event::TransferSessionForSender>::notifySubscribers`, `newChunkIsAllowed`
  notifies_sender : Bool → Effect
  -- `TransferSessionList::remove` of this session
  removes_session : Effect
  -- `sendTextWithAck` of a `Kicked` event, whose callback removes the client
  kicks : ClientRef → Effect
  -- `Client::incrementReceived`
  increments_received : ClientRef → ℕ → Effect
  -- the second becomes a subscriber of the first's `Publisher<Event::ClientsDirect>`
  subscribes : ClientRef → ClientRef → Effect
  -- this session becomes a subscriber of the client's `Publisher<Event::ClientInternal>`
  watches : ClientRef → Effect
  -- the client becomes a subscriber of this session's `Publisher<Event::TransferSession>`
  subscribes_session : ClientRef → Effect

pub record Session : Type 0 where
  pub id : Bytes
  pub data_sender : ClientRef
  pub data_receivers : List ClientRef
  pub file_info : FileInfo
  pub buffer : Buffer
  pub initial_freeze_timer : Option TimerCallback
  pub auto_drop_freeze_on_first_chunk : Bool
  pub auto_drop_freeze_fired : Bool
  pub complete_type : CompleteType

-- The constructor.
unfoldable pub new_session : ClientRef → Bytes → Bool → Session
new_session sender session_id auto_drop = record {
  id = session_id;
  data_sender = sender;
  data_receivers = [];
  file_info = record { name = []; size = 0 };
  buffer = new_buffer;
  initial_freeze_timer = none;
  auto_drop_freeze_on_first_chunk = auto_drop;
  auto_drop_freeze_fired = false;
  complete_type = ok;
}

-- `initTimers`. The callback of the timer is `dropInitialChunksFreeze`.
unfoldable pub init_timers : Config → ℕ → Session → Session
init_timers cfg now s = record s {
  initial_freeze_timer =
      some (start now (new_timer true cfg.transfer_session_max_initial_freeze_duration now)).0;
}

unfoldable pub remaining_until_auto_drop_initial_freeze : ℕ → Session → ℕ
remaining_until_auto_drop_initial_freeze now s = elim s.initial_freeze_timer [
  | none ↦ 0
  | some t ↦ time_remaining now t
]

unfoldable pub manual_terminate : Session → Session × List Effect
manual_terminate s = (record s { complete_type = sender_is_gone }, removes_session ∷ [])

unfoldable pub set_timedout : Session → Session
set_timedout s = record s { complete_type = timeout }

-- The destructor: what the subscribers are told.
unfoldable pub destroy : Session → List Effect
destroy s = notifies (complete s.complete_type) ∷ []
