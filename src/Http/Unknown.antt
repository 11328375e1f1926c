-- ===== src/Http/Unknown.antt =====
-- An identifier that names no client: what keeps it so.
use put_in_pipe.Common.{
  ℕ, ◌≡◌, ◌≢◌, none, Bytes, is_empty, Option-cases, inl, inr, ◌∙◌, if◌then◌else◌,
}
use put_in_pipe.Config.{Config}
use put_in_pipe.Keyed.{lookup}
use put_in_pipe.Keyed.Laws.{lookup-cons_other, lookup-alter_none, lookup-erase_absent}
use put_in_pipe.Client.{Client, set_name, new_client}
use put_in_pipe.ClientList.{get_client, create_client, remove_client}
use put_in_pipe.Server.{Server, put_client, put_session}
use put_in_pipe.Http.Identity.{internal_create_client}
use put_in_pipe.Http.Keeps.{Anything, Keeping}

abbrev pub Unknown : Bytes → Server → Type 0
Unknown id sv = get_client id sv.clients ≡ none

put_client-Unknown :
    (id : Bytes) (c : Client) (sv : Server) → Unknown id sv → Unknown id (put_client c sv)
unfolding put_client get_client
put_client-Unknown id c sv u = lookup-alter_none c.id id (λ _. c) sv.clients.clients u

put_session-Unknown :
    (id : Bytes) (s : put_in_pipe.Session.Session) (sv : Server)
    → Unknown id sv
    → Unknown id (put_session s sv)
unfolding put_session
put_session-Unknown id s sv u = u

remove_client-Unknown :
    (id j : Bytes) (sv : Server)
    → Unknown id sv
    → Unknown id (record sv { clients = (remove_client j sv.clients).0 })
unfolding remove_client get_client
remove_client-Unknown id j sv u = elim (Option-cases (lookup j sv.clients.clients)) [
  | inl e ↦ rw (e, remove_client) u
  | inr (c, e) ↦ rw (e, remove_client) (lookup-erase_absent j id sv.clients.clients u)
]

pub Unknown-Keeping : (cfg : Config) (id : Bytes) → Keeping cfg (Unknown id) Anything
Unknown-Keeping cfg id = record {
  keeps_client = put_client-Unknown id;
  holds_session = λ now j s remaining sv u e. tt;
  keeps_calls = λ alive call s q. tt;
  keeps_session = λ s sv q. put_session-Unknown id s sv;
  keeps_creation = λ now creator auto_drop sv room u. u;
  keeps_removal = λ j sv u. u;
  keeps_leaving = remove_client-Unknown id;
}

module _ (cfg : Config) (sv : Server) (id : Bytes) (u : Unknown id sv) where
  create_client-Unknown :
      (sign : Bytes → Bytes) (now : ℕ) (made : Bytes)
      → made ≢ id
      → Unknown id (record sv { clients = (create_client sign cfg now made sv.clients).0 })
  unfolding create_client get_client
  create_client-Unknown sign now made other = elim (Option-cases (lookup made sv.clients.clients)) [
    | inr (c, e) ↦ rw (e, create_client) u
    | inl e ↦
        rw (e, create_client)
          (lookup-cons_other made id (new_client sign cfg now made).0 sv.clients.clients other ∙ u)
  ]

  pub internal_create_client-Unknown :
      (sign : Bytes → Bytes) (now : ℕ) (candidate name client_id : Bytes)
      → (if is_empty client_id then candidate else client_id) ≢ id
      → Unknown id (internal_create_client sign cfg now candidate name client_id sv).0
  unfolding internal_create_client
  internal_create_client-Unknown sign now candidate name client_id other =
      let made = if is_empty client_id then candidate else client_id in
      let r = create_client sign cfg now made sv.clients in
      let new = create_client-Unknown sign now made other in
      elim (Option-cases r.2) [
        | inl e ↦ rw (e, internal_create_client) u
        | inr (c, e) ↦
            rw (e, internal_create_client)
              (put_client-Unknown id (set_name name c).0 (record sv { clients = r.0 }) new)
      ]
