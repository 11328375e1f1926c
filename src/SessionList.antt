-- ===== src/SessionList.antt =====
-- transfersessionlist.h and transfersessionlist.cpp: `TransferSessionList`, the sessions by their
-- identifiers, each with the timer of its lifetime. Each operation is one critical section. A removed
-- session is returned: its destructor runs when the last reference to it is gone.
pub mod Limit
use put_in_pipe.Common.{
  ℕ, ltb, Bool, true, false, List, [], ◌∷◌, map, length, Option, none, some, Bytes,
}
use put_in_pipe.Config.{Config}
use put_in_pipe.Keyed.{lookup, erase_key}
use put_in_pipe.TimerCallback.{TimerCallback, AsioCall, new_timer, start, time_remaining}
use put_in_pipe.Session.{Session, ClientRef, new_session, init_timers, set_timedout}

pub record SessionWithTimer : Type 0 where
  pub session : Session
  pub timer : TimerCallback

pub record SessionList : Type 0 where
  pub sessions : List (Bytes × SessionWithTimer)

pub data ListEffect : Type 0 where
  -- the creator becomes a subscriber of both publishers of the session
  creator_subscribes : ClientRef → Bytes → ListEffect
  creator_subscribes_for_sender : ClientRef → Bytes → ListEffect
  -- the session becomes a subscriber of the creator's `Publisher<Event::ClientInternal>`
  session_watches : Bytes → ClientRef → ListEffect
  calls_lifetime_timer : AsioCall → ListEffect

abbrev pub no_sessions : SessionList
no_sessions = record { sessions = [] }

-- The new session and the seconds it has left; `none` is the null pointer. The identifier of a session
-- is the public identifier of its creator.
unfoldable pub create_session :
    Config
    → ℕ
    → Option ClientRef
    → Bool
    → SessionList
    → SessionList × List ListEffect × Option (Session × ℕ)
create_session cfg now none auto_drop l = (l, [], none)
create_session cfg now (some creator) auto_drop l =
    let session = init_timers cfg now (new_session creator creator.public_id auto_drop) in
    let started = start now (new_timer true cfg.transfer_session_max_lifetime now) in
    elim (lookup creator.public_id l.sessions) [
      | some there ↦ (l, [], none)
      | none ↦ (
        record {
          sessions =
              (creator.public_id, record { session = session; timer = started.0 }) ∷ l.sessions;
        },
        creator_subscribes creator creator.public_id
            ∷ creator_subscribes_for_sender creator creator.public_id
            ∷ session_watches creator.public_id creator
            ∷ map calls_lifetime_timer started.1,
        some (session, time_remaining now started.0),
      )
    ]

unfoldable pub get_session : ℕ → Bytes → SessionList → Option (Session × ℕ)
get_session now id l = elim (lookup id l.sessions) [
  | none ↦ none
  | some entry ↦ some (entry.session, time_remaining now entry.timer)
]

abbrev pub session_count : SessionList → ℕ
session_count l = length l.sessions

abbrev pub possible_to_create_new : Config → SessionList → Bool
possible_to_create_new cfg l = ltb (session_count l) cfg.transfer_session_count_limit

unfoldable pub remove_session : Bytes → SessionList → SessionList × Option Session
remove_session id l = elim (lookup id l.sessions) [
  | none ↦ (l, none)
  | some entry ↦ (record { sessions = erase_key id l.sessions }, some entry.session)
]

-- The callback of the lifetime's timer: the session is marked, then removed.
unfoldable pub session_timeout : Bytes → SessionList → SessionList × Option Session
session_timeout id l =
    let (l', removed) = remove_session id l in
    (l', elim removed [ none ↦ none | some session ↦ some (set_timedout session) ])
