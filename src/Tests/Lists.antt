-- ===== src/Tests/Lists.antt =====
-- The lists of sessions and of clients at concrete inputs.
use put_in_pipe.Common.{
  ◌+◌, ◌≡◌, ◌≢◌, ◌⊎◌, refl, false, true, [], ◌∷◌, some, none, Bytes, bytes_discrete,
}
use put_in_pipe.Tests.{small, sender, receiver, other}
use put_in_pipe.Keyed.{lookup}
use put_in_pipe.TimerCallback.{new_timer, start, time_remaining}
use put_in_pipe.Session.{Session, new_session, init_timers}
use put_in_pipe.SessionList.{SessionList, no_sessions, create_session, get_session, session_count}
use put_in_pipe.SessionList.Limit.{create_session_lem}
use put_in_pipe.Client.{Client}
use put_in_pipe.ClientList.{no_clients, create_client, get_client, remove_client}
use put_in_pipe.ClientList.Entries.{create_client_lem}

-- One session.
abbrev one_session : SessionList
one_session = (create_session small 5 (some sender) false no_sessions).0

create_session_lem_example :
    ((get_session 6 receiver.public_id one_session ≢ none)
      × (create_session small 6 (some receiver) true one_session ≡ (one_session, [], none)))
    ⊎ ((get_session 6 receiver.public_id one_session ≡ none)
        × ((create_session small 6 (some receiver) true one_session).2
            ≡ some (init_timers small 6 (new_session receiver receiver.public_id true), 7200))
        × (get_session 6 receiver.public_id
              (create_session small 6 (some receiver) true one_session).0
            ≡ (create_session small 6 (some receiver) true one_session).2)
        × (session_count (create_session small 6 (some receiver) true one_session).0
            ≡ session_count one_session + 1)
        × ((id : Bytes)
            → receiver.public_id ≢ id
            → get_session 6 id (create_session small 6 (some receiver) true one_session).0
              ≡ get_session 6 id one_session))
create_session_lem_example = create_session_lem small 6 receiver true one_session

-- It is found.
abbrev only_session : Session
only_session = init_timers small 5 (new_session sender sender.public_id false)

found_again : get_session 5 sender.public_id one_session ≡ some (only_session, 7200)
unfolding get_session create_session lookup bytes_discrete time_remaining start new_timer
found_again = refl

differ : receiver.public_id ≢ other.public_id
differ e = cc

create_client_lem_example :
    ((get_client (7 ∷ []) no_clients ≢ none)
      × (create_client (λ id. 9 ∷ id) small 0 (7 ∷ []) no_clients ≡ (no_clients, [], none)))
    ⊎ ((get_client (7 ∷ []) no_clients ≡ none)
        × ((c : Client) × (get_client
                (7 ∷ [])
                (create_client (λ id. 9 ∷ id) small 0 (7 ∷ []) no_clients).0
              ≡ some c)
            × (c.id ≡ 7 ∷ [])
            × (c.public_id ≡ 9 ∷ 7 ∷ [])
            × (c.name ≡ [])
            × (c.joined_session ≡ [])
            × (c.web_socket ≡ none))
        × ((token : Bytes)
            → 7 ∷ [] ≢ token
            → get_client token (create_client (λ id. 9 ∷ id) small 0 (7 ∷ []) no_clients).0
              ≡ get_client token no_clients)
        × (get_client
              (7 ∷ [])
              (remove_client
                (7 ∷ [])
                (create_client (λ id. 9 ∷ id) small 0 (7 ∷ []) no_clients).0).0
            ≡ none))
create_client_lem_example = create_client_lem (λ id. 9 ∷ id) small 0 (7 ∷ []) no_clients tt
