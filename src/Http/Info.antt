-- ===== src/Http/Info.antt =====
-- webapi.cpp: `currentStatistics`, `meInfo` and `meLeave`.
use put_in_pipe.Common.{[], none, some, map, Bytes}
use put_in_pipe.Config.{Config}
use put_in_pipe.Json.{num, text, obj, end, field}
use put_in_pipe.Client.{destroy_client}
use put_in_pipe.ClientList.{client_count, remove_client}
use put_in_pipe.SessionList.{session_count}
use put_in_pipe.Server.{Server, by_client}
use put_in_pipe.Http.{Request, Reply, answer, reply, json_body, identified, not_identified}

-- `version` is the macro `APP_VERSION` of the build.
unfoldable pub current_statistics : Bytes → Config → Server → Reply
current_statistics version cfg sv = (
  sv,
  [],
  answer 200 (
      json_body (
        obj (
          field "current_user_count" (num (client_count sv.clients)) (
            field "current_session_count" (num (session_count sv.sessions)) (
              field "max_user_count" (num cfg.api_max_client_count) (
                field "max_session_count" (num cfg.transfer_session_count_limit)
                  (field "version" (text version) end))))))),
)

unfoldable pub me_info : Request → Server → Reply
me_info req sv = elim (identified req sv) [
  | none ↦ not_identified sv
  | some c ↦ (
    sv,
    [],
    answer 200 (
        json_body (
          obj (
            field "id" (text c.public_id)
              (field "name" (text c.name) (field "session" (text c.joined_session) end))))),
  )
]

-- The handler's own reference is the last one: the client's destructor runs when it returns.
unfoldable pub me_leave : Request → Server → Reply
me_leave req sv = elim (identified req sv) [
  | none ↦ not_identified sv
  | some c ↦ (
    record sv { clients = (remove_client c.id sv.clients).0 },
    map (by_client c.id) (destroy_client c),
    answer 200 (put_in_pipe.Http.plain "Your ID has been deleted"),
  )
]
