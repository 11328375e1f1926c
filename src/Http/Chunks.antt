-- ===== src/Http/Chunks.antt =====
-- webapi.cpp: `sessionChunkPost` and `sessionChunkGet`.
use put_in_pipe.Common.{ℕ, ltb, not, none, some, map, length, is_empty, if◌then◌else◌}
use put_in_pipe.Numerals.{stoul}
use put_in_pipe.Config.{Config}
use put_in_pipe.Client.{Client}
use put_in_pipe.Session.{Session}
use put_in_pipe.Session.Chunks.{session_add_chunk, session_get_chunk}
use put_in_pipe.SessionList.{get_session}
use put_in_pipe.WsMessages.{client_ref, is_creator}
use put_in_pipe.Server.{Server, by_session, is_alive, put_session}
use put_in_pipe.Http.{
  Request, Reply, answer, reply, plain, no_body, octets, identified, not_identified,
}

-- What both handlers begin with: the client, and the session that it joined.
unfoldable pub with_joined_session : ℕ → Request → Server → (Client → Session → Reply) → Reply
with_joined_session now req sv go_on = elim (identified req sv) [
  | none ↦ not_identified sv
  | some c ↦
      if is_empty c.joined_session
      then reply sv 400 "You are not connected to the transfer session"
      else elim (get_session now c.joined_session sv.sessions) [
        | none ↦ reply sv 500 "Session not found"
        | some (s, remaining) ↦ go_on c s
      ]
]

unfoldable pub post_chunk : Config → Request → Server → Client → Session → Reply
post_chunk cfg req sv c s =
    if not (is_creator (is_alive sv) c s)
    then reply sv 403 "Only the session creator can send data"
    else if ltb cfg.transfer_session_max_chunk_size (length req.body)
    then reply sv 400 "The data size exceeds the maximum allowed chunk size"
    else let (s', told, accepted) = session_add_chunk cfg req.body s in
      (
        put_session s' sv,
        map (by_session s.id) told,
        if accepted then answer 202 no_body else answer 421 (plain "Adding a chunk failed"),
      )

unfoldable pub session_chunk_post : Config → ℕ → Request → Server → Reply
session_chunk_post cfg now req sv = with_joined_session now req sv (post_chunk cfg req sv)

unfoldable pub get_chunk_by_id : Request → Server → Client → Session → Reply
get_chunk_by_id req sv c s = elim (req.url_param "id") [
  | none ↦ reply sv 400 "You need to send the chunk ID"
  | some chunk_id ↦ elim (stoul chunk_id) [
    | none ↦ reply sv 400 "You need to send the chunk ID as a number"
    | some index ↦
        let (s', told, chunk) = session_get_chunk index (some (client_ref c)) s in
        (
          put_session s' sv,
          map (by_session s.id) told,
          elim chunk [
            | none ↦ answer 404 (plain "Chunk not found")
            | some bytes ↦ answer 200 (octets bytes)
          ],
        )
  ]
]

unfoldable pub session_chunk_get : ℕ → Request → Server → Reply
session_chunk_get now req sv = with_joined_session now req sv (get_chunk_by_id req sv)
