-- ===== src/Server.antt =====
-- The state of the whole server: the two singletons `ClientList` and `TransferSessionList`. A handler
-- works on the objects that the lists point to, so what it does to one is stored back under its key.
pub mod Valid
use put_in_pipe.Common.{ℕ, Bool, true, false, List, [], ◌∷◌, Option, none, some, map, Bytes}
use put_in_pipe.Keyed.{lookup, alter_key}
use put_in_pipe.Client.{Client, ClientEffect, destroy_client}
use put_in_pipe.ClientList.{ClientList, get_client, remove_client}
use put_in_pipe.Session.{Session, Effect, destroy}
use put_in_pipe.SessionList.{SessionList, SessionWithTimer, ListEffect}

pub record Server : Type 0 where
  pub clients : ClientList
  pub sessions : SessionList

-- A call on another object, with the identifier of the client or session that makes it.
pub data ServerEffect : Type 0 where
  by_client : Bytes → ClientEffect → ServerEffect
  by_session : Bytes → Effect → ServerEffect
  by_list : ListEffect → ServerEffect

-- Whether a weak pointer to the client locks: the list has the only lasting reference to it.
unfoldable pub is_alive : Server → Bytes → Bool
is_alive sv id = elim (lookup id sv.clients.clients) [ none ↦ false | some c ↦ true ]

abbrev pub store_client : Client → ClientList → ClientList
store_client c l = record { clients = alter_key c.id (λ _. c) l.clients }

unfoldable pub put_client : Client → Server → Server
put_client c sv = record sv { clients = store_client c sv.clients }

unfoldable pub put_session : Session → Server → Server
put_session s sv = record sv {
  sessions = record {
    sessions = alter_key s.id (λ entry. record entry { session = s }) sv.sessions.sessions;
  };
}
