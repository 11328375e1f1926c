-- ===== src/Http/Reached.antt =====
-- The sessions of the server are sessions: what was proved of a session by itself holds of each of them.
use put_in_pipe.Common.{ℕ, ◌≡◌, refl, ◌∙◌, sym, ap, List, [], ◌∷◌, ◌++◌, Option, some, Bool, Bytes}
use put_in_pipe.Config.{Config}
use put_in_pipe.Session.{Session, ClientRef}
use put_in_pipe.Session.History.{SessionCall, session_step, session_run}
use put_in_pipe.Session.Delivery.{fresh_session}
use put_in_pipe.SessionList.{get_session}
use put_in_pipe.WsMessages.{Message}
use put_in_pipe.Http.Routes.{Environment}
use put_in_pipe.Http.Calls.{ServerCall, empty_server, server_run}
use put_in_pipe.Http.EachSession.{found-EachSession, server_run-EachSession}

-- What calls of a session make of a new one.
abbrev pub Reached : Config → Session → Type 0
Reached cfg s =
    (creator : ClientRef) × (auto_drop : Bool) × (now : ℕ) × (calls : List
      ((Bytes → Bool) × SessionCall))
    × (s ≡ session_run cfg calls (fresh_session cfg creator creator.public_id auto_drop now))

session_run-append :
    (cfg : Config) (cs : List ((Bytes → Bool) × SessionCall)) (alive : Bytes → Bool)
    (call : SessionCall) (s : Session)
    → session_run cfg (cs ++ (alive, call) ∷ []) s
      ≡ (session_step cfg alive call (session_run cfg cs s)).0
unfolding session_run
session_run-append cfg [] alive call s = refl
session_run-append cfg ((a, c) ∷ cs) alive call s =
    session_run-append cfg cs alive call (session_step cfg a c s).0

step-Reached :
    (cfg : Config) (alive : Bytes → Bool) (call : SessionCall) (s : Session)
    → Reached cfg s
    → Reached cfg (session_step cfg alive call s).0
step-Reached cfg alive call s (creator, auto_drop, now, calls, e) = (
  creator,
  auto_drop,
  now,
  calls ++ (alive, call) ∷ [],
  ap (λ (t : Session). (session_step cfg alive call t).0) e
      ∙ sym (
          session_run-append cfg calls alive call
            (fresh_session cfg creator creator.public_id auto_drop now)),
)

fresh-Reached :
    (cfg : Config) (now : ℕ) (creator : ClientRef) (auto_drop : Bool)
    → Reached cfg (fresh_session cfg creator creator.public_id auto_drop now)
unfolding session_run
fresh-Reached cfg now creator auto_drop = (creator, auto_drop, now, [], refl)

-- Refinement: from the empty server, after any requests, connections opened and closed, messages,
-- removals and expired timers, every session that is found is what calls of a session, with some
-- clients there at each of them, make of a new session of some creator.
pub server_run-refines :
    (env : Environment) (load : Bytes → Option Message) (cfg : Config) (cs : List ServerCall)
    (now : ℕ) (id : Bytes) (s : Session) (remaining : ℕ)
    → get_session now id (server_run env load cfg cs empty_server).sessions ≡ some (s, remaining)
    → Reached cfg s
server_run-refines env load cfg cs now id s remaining found =
    found-EachSession cfg (Reached cfg) (step-Reached cfg) (fresh-Reached cfg) now id s remaining
      (server_run env load cfg cs empty_server)
      (server_run-EachSession cfg (Reached cfg) (step-Reached cfg) (fresh-Reached cfg) env load cs)
      found
