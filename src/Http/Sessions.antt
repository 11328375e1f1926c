-- ===== src/Http/Sessions.antt =====
-- webapi.cpp: `sessionCreate` and `sessionJoin`.
use put_in_pipe.Common.{
  ℕ, Bool, false, not, ◌&&◌, [], ◌++◌, Option, none, some, map, any, is_empty, String, Bytes,
  if◌then◌else◌,
}
use put_in_pipe.Config.{Config}
use put_in_pipe.Json.{Json, text, obj, end, field}
use put_in_pipe.Client.{Client, join_session, reset_ws_timeout_timer_if_it_active}
use put_in_pipe.Session.{Session, destroy}
use put_in_pipe.Session.Receivers.{add_receiver, text_eq}
use put_in_pipe.SessionList.{create_session, get_session, possible_to_create_new, remove_session}
use put_in_pipe.WsMessages.{client_ref}
use put_in_pipe.Server.{Server, by_client, by_session, by_list, is_alive, put_client, put_session}
use put_in_pipe.Http.{Request, Reply, answer, reply, json_body, identified, not_identified}

-- What `sessionCreate` reads of a JSON text: whether it is one, whether it has a key, and the value
-- there if it is true or false. At a number, a text or a truth value, which have no keys, crow throws;
-- that exception is left out.
pub record Options : Type 0 where
  pub is_valid : Bool
  pub has : String → Bool
  pub boolean : String → Option Bool

-- The option, or the reason why the body is refused. An empty body leaves the default.
unfoldable pub read_options : (Bytes → Options) → Bytes → Option Bool × String
read_options load body =
    if is_empty body
    then (some false, "")
    else let json = load body in
      if not json.is_valid
      then (none, "Invalid JSON body")
      else if json.has "auto_drop_freeze"
      then (json.boolean "auto_drop_freeze", ".auto_drop_freeze must be a boolean")
      else (some false, "")

abbrev created_id : Bytes → Json
created_id id = obj (field "id" (text id) end)

-- The end of `sessionCreate`: the session is made, and its creator joins it.
unfoldable pub created : Config → ℕ → Client → Bool → Server → Reply
created cfg now c auto_drop sv =
    let (l, calls, session) = create_session cfg now (some (client_ref c)) auto_drop sv.sessions in
    let sv' : Server = record sv { sessions = l } in
    elim session [
      | none ↦
          (sv', map by_list calls, answer 500 (put_in_pipe.Http.plain "Session creation failed"))
      | some (s, remaining) ↦
          let (c', joined) = join_session s.id c in
          if joined
          then (put_client c' sv', map by_list calls, answer 201 (json_body (created_id s.id)))
          else (
            record sv' { sessions = (remove_session s.id l).0 },
            map by_list calls ++ map (by_session s.id) (destroy s),
            answer 500 (put_in_pipe.Http.plain "Session creation failed"),
          )
    ]

unfoldable pub session_create : (Bytes → Options) → Config → ℕ → Request → Server → Reply
session_create load cfg now req sv = elim (identified req sv) [
  | none ↦ not_identified sv
  | some c ↦
      if not (is_empty c.joined_session)
      then reply sv 403 "You are already a participant in the session"
      else if not (possible_to_create_new cfg sv.sessions)
      then (let (c', calls) = reset_ws_timeout_timer_if_it_active now c in
          (
            put_client c' sv,
            map (by_client c.id) calls,
            answer 503 (
                put_in_pipe.Http.plain
                  "The maximum number of sessions has been reached, please try again later"),
          ))
      else let (options, refusal) = read_options load req.body in
        elim options [
          | none ↦ reply sv 400 refusal
          | some auto_drop ↦ created cfg now c auto_drop sv
        ]
]

-- The loop over the receivers of a session that has lost a chunk.
unfoldable pub is_member : (Bytes → Bool) → Client → Session → Bool
is_member alive c s = any (λ r. alive r.id && text_eq r.id c.id) s.data_receivers

unfoldable pub session_join : Config → ℕ → Request → Server → Reply
session_join cfg now req sv = elim (identified req sv) [
  | none ↦ not_identified sv
  | some c ↦ elim (req.url_param "id") [
    | none ↦ reply sv 400 "You need to send the session ID"
    | some id ↦ elim (get_session now id sv.sessions) [
      | none ↦ reply sv 404 "Session not found"
      | some (s, remaining) ↦
          if not (is_empty c.joined_session)
          then (if text_eq s.id c.joined_session
              then (sv, [], answer 202 (json_body (created_id s.id)))
              else reply sv 400 "You are already a participant in some another session")
          else if s.buffer.some_chunk_was_removed && not (is_member (is_alive sv) c s)
          then reply sv 403 "It is impossible to join the session"
          else let (s', told, accepted) = add_receiver (is_alive sv) cfg (some (client_ref c)) s in
            let sv' = put_session s' sv in
            let calls = map (by_session s.id) told in
            if not accepted
            then (sv', calls, answer 500 (put_in_pipe.Http.plain "Couldn't join the session"))
            else let (c', joined) = join_session s.id c in
              if joined
              then (put_client c' sv', calls, answer 202 (json_body (created_id s.id)))
              else (sv', calls, answer 500 (put_in_pipe.Http.plain "Couldn't join the session (2)"))
    ]
  ]
]
