-- ===== src/Http/EachSession.antt =====
-- What holds of a new session, and is kept by the calls of a session, holds of every session of the server.
use put_in_pipe.Common.{
  ℕ, ◌≡◌, subst, List, Option, none, some, Bool, All, Bytes, Option-cases, inl, inr, arith,
}
use put_in_pipe.Config.{Config}
use put_in_pipe.Keyed.{lookup}
use put_in_pipe.Keyed.Laws.{alter-All, erase-All, All-lookup}
use put_in_pipe.Session.{Session, ClientRef}
use put_in_pipe.Session.History.{SessionCall, session_step}
use put_in_pipe.Session.Delivery.{fresh_session}
use put_in_pipe.SessionList.{SessionWithTimer, create_session, get_session, remove_session}
use put_in_pipe.WsMessages.{Message}
use put_in_pipe.Server.{Server, put_client, put_session}
use put_in_pipe.Http.Keeps.{Keeping}
use put_in_pipe.Http.Routes.{Environment}
use put_in_pipe.Http.Calls.{ServerCall, empty_server, server_run}
use put_in_pipe.Http.Runs.{server_run-keeps}

module _ {κ} (cfg : Config) (Q : Session → Type κ)
    (keeps : (alive : Bytes → Bool) (call : SessionCall) (s : Session)
      → Q s
      → Q (session_step cfg alive call s).0)
    (starts : (now : ℕ) (creator : ClientRef) (auto_drop : Bool)
      → Q (fresh_session cfg creator creator.public_id auto_drop now)) where
  abbrev pub EachSession : Server → Type κ
  EachSession sv = All (λ e. Q e.1.session) sv.sessions.sessions

  pub found-EachSession :
      (now : ℕ) (id : Bytes) (s : Session) (remaining : ℕ) (sv : Server)
      → EachSession sv
      → get_session now id sv.sessions ≡ some (s, remaining)
      → Q s
  unfolding get_session
  found-EachSession now id s remaining sv a found =
      elim (Option-cases (lookup id sv.sessions.sessions)) [
        | inl e ↦ absurd (ground (arith, found, e))
        | inr (entry, e) ↦
            let same : entry.session ≡ s = ground (arith, found, e) in
            subst Q same (All-lookup (λ x. Q x.1.session) id entry sv.sessions.sessions a e)
      ]

  put_session-EachSession :
      (s : Session) (sv : Server) → Q s → EachSession sv → EachSession (put_session s sv)
  unfolding put_session
  put_session-EachSession s sv h a =
      alter-All (λ e. Q e.1.session) s.id
        (λ (entry : SessionWithTimer). record entry { session = s }) sv.sessions.sessions (λ _ _. h)
        a

  create_session-EachSession :
      (now : ℕ) (creator : Option ClientRef) (auto_drop : Bool) (sv : Server)
      → EachSession sv
      → EachSession
          (record sv { sessions = (create_session cfg now creator auto_drop sv.sessions).0 })
  unfolding create_session
  create_session-EachSession now none auto_drop sv a = a
  create_session-EachSession now (some creator) auto_drop sv a =
      elim (Option-cases (lookup creator.public_id sv.sessions.sessions)) [
        | inl e ↦ rw (e, create_session) (starts now creator auto_drop, a)
        | inr (there, e) ↦ rw (e, create_session) a
      ]

  remove_session-EachSession :
      (id : Bytes) (sv : Server)
      → EachSession sv
      → EachSession (record sv { sessions = (remove_session id sv.sessions).0 })
  unfolding remove_session
  remove_session-EachSession id sv a = elim (Option-cases (lookup id sv.sessions.sessions)) [
    | inl e ↦ rw (e, remove_session) a
    | inr (there, e) ↦
        rw (e, remove_session) (erase-All (λ x. Q x.1.session) id sv.sessions.sessions a)
  ]

  EachSession-Keeping : Keeping cfg EachSession Q
  unfolding put_client
  EachSession-Keeping = record {
    keeps_client = λ c sv a. a;
    holds_session = found-EachSession;
    keeps_calls = keeps;
    keeps_session = put_session-EachSession;
    keeps_creation =
        λ now creator auto_drop sv room a. create_session-EachSession now creator auto_drop sv a;
    keeps_removal = remove_session-EachSession;
    keeps_leaving = λ id sv a. a;
  }

  pub server_run-EachSession :
      (env : Environment) (load : Bytes → Option Message) (cs : List ServerCall)
      → EachSession (server_run env load cfg cs empty_server)
  server_run-EachSession env load cs =
      server_run-keeps cfg EachSession Q EachSession-Keeping (λ sign t new sv room a. a) env load cs
        empty_server tt
