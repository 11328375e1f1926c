-- ===== src/Server/Valid.antt =====
-- What is always true of the server's two lists, and what keeps it true.
use put_in_pipe.Common.{ℕ, ◌<◌, ◌≤◌, ◌≡◌, refl, All, Bytes, Option-cases, inl, inr, arith}
use put_in_pipe.Config.{Config}
use put_in_pipe.Keyed.{lookup}
use put_in_pipe.Keyed.Laws.{
  SingleKeys, alter-SingleKeys, alter-All, length-alter_key, erase-SingleKeys, erase-All,
  length-erase_key,
}
use put_in_pipe.Client.{Client, new_client}
use put_in_pipe.ClientList.{ClientList, client_count, create_client, remove_client}
use put_in_pipe.Session.{Session}
use put_in_pipe.SessionList.{SessionList, SessionWithTimer}
use put_in_pipe.SessionList.Limit.{Sound}
use put_in_pipe.Server.{Server, put_client, put_session}

-- No identifier names two clients, each client has the identifier that names it, and there are no
-- more clients than configured.
pub record FewClients (cfg : Config) (l : ClientList) : Type 0 where
  pub single : SingleKeys l.clients
  pub named : All (λ e. e.1.id ≡ e.0) l.clients
  pub few : client_count l ≤ cfg.api_max_client_count

-- That, and the same of the sessions.
pub record Valid (cfg : Config) (sv : Server) : Type 0 where
  pub clients : FewClients cfg sv.clients
  pub sessions : Sound cfg sv.sessions

pub put_client-Valid :
    (cfg : Config) (c : Client) (sv : Server) → Valid cfg sv → Valid cfg (put_client c sv)
unfolding put_client
put_client-Valid cfg c sv v = record {
  clients = record {
    single = alter-SingleKeys c.id (λ _. c) sv.clients.clients v.clients.single;
    named =
        alter-All (λ e. e.1.id ≡ e.0) c.id (λ _. c) sv.clients.clients (λ _ _. refl)
          v.clients.named;
    few =
        omega (arith, length-alter_key c.id (λ (_ : Client). c) sv.clients.clients, v.clients.few);
  };
  sessions = v.sessions;
}

pub put_session-Valid :
    (cfg : Config) (s : Session) (sv : Server) → Valid cfg sv → Valid cfg (put_session s sv)
unfolding put_session
put_session-Valid cfg s sv v =
    let put = λ (entry : SessionWithTimer). record entry { session = s } in
    record {
      clients = v.clients;
      sessions = record {
        single = alter-SingleKeys s.id put sv.sessions.sessions v.sessions.single;
        named =
            alter-All (λ e. e.1.session.id ≡ e.0) s.id put sv.sessions.sessions (λ _ _. refl)
              v.sessions.named;
        few = omega (arith, length-alter_key s.id put sv.sessions.sessions, v.sessions.few);
      };
    }

pub with_sessions-Valid :
    (cfg : Config) (l : SessionList) (sv : Server)
    → Sound cfg l
    → Valid cfg sv
    → Valid cfg (record sv { sessions = l })
with_sessions-Valid cfg l sv h v = record { clients = v.clients; sessions = h }

pub remove_client-Valid :
    (cfg : Config) (id : Bytes) (sv : Server)
    → Valid cfg sv
    → Valid cfg (record sv { clients = (remove_client id sv.clients).0 })
unfolding remove_client
remove_client-Valid cfg id sv v = elim (Option-cases (lookup id sv.clients.clients)) [
  | inl e ↦ rw (e, remove_client) v
  | inr (c, e) ↦
      rw (e, remove_client)
        (record {
          clients = record {
            single = erase-SingleKeys id sv.clients.clients v.clients.single;
            named = erase-All (λ e. e.1.id ≡ e.0) id sv.clients.clients v.clients.named;
            few = omega (arith, length-erase_key id sv.clients.clients c e, v.clients.few);
          };
          sessions = v.sessions;
        })
]

pub create_client-Valid :
    (sign : Bytes → Bytes) (cfg : Config) (now : ℕ) (id : Bytes) (sv : Server)
    → client_count sv.clients < cfg.api_max_client_count
    → Valid cfg sv
    → Valid cfg (record sv { clients = (create_client sign cfg now id sv.clients).0 })
unfolding create_client new_client
create_client-Valid sign cfg now id sv room v = elim (Option-cases (lookup id sv.clients.clients)) [
  | inr (c, e) ↦ rw (e, create_client) v
  | inl e ↦
      rw (e, create_client)
        (record {
          clients = record {
            single = (e, v.clients.single);
            named = (refl, v.clients.named);
            few = omega (arith, room);
          };
          sessions = v.sessions;
        })
]
