-- ===== src/Http/Handles.antt =====
-- Every handler of a request keeps what the steps of `Keeping` and a new client keep.
use put_in_pipe.Common.{
  ℕ, ◌<◌, ltb, leb, Bool, not, [], Option, Bytes, String, is_empty, Option-cases, if_elim, inl, inr,
  arith, if◌then◌else◌,
}
use put_in_pipe.Config.{Config}
use put_in_pipe.Client.{set_name}
use put_in_pipe.ClientList.{client_count, create_client}
use put_in_pipe.Session.{Session}
use put_in_pipe.Server.{Server}
use put_in_pipe.Http.{Request, Reply, identified}
use put_in_pipe.Http.Info.{current_statistics}
use put_in_pipe.Http.Identity.{
  Strings, Puzzle, internal_create_client, identity_request, required, identity_validation,
}
use put_in_pipe.Http.Keeps.{
  Keeping, me_info-keeps, me_leave-keeps, session_join-keeps, session_create-keeps,
  session_chunk_post-keeps, session_chunk_get-keeps,
}
use put_in_pipe.Http.Routes.{
  Route, statistics_current, me_info_route, me_leave_route, identity_request_route,
  identity_confirmation, session_create_route, session_join_route, chunk_get, chunk_post,
  Environment, Chance, handle,
}

module _ {ℓ κ} (cfg : Config) (P : Server → Type ℓ) (Q : Session → Type κ) (k : Keeping cfg P Q)
    (grow : (sign : Bytes → Bytes) (now : ℕ) (id : Bytes) (sv : Server)
      → client_count sv.clients < cfg.api_max_client_count
      → P sv
      → P (record sv { clients = (create_client sign cfg now id sv.clients).0 }))
    (sv : Server) (v : P sv) where
  abbrev Fine : Reply → Type ℓ
  Fine r = P r.0

  internal_create_client-keeps :
      (sign : Bytes → Bytes) (now : ℕ) (candidate name client_id : Bytes)
      → client_count sv.clients < cfg.api_max_client_count
      → Fine (internal_create_client sign cfg now candidate name client_id sv)
  unfolding internal_create_client
  internal_create_client-keeps sign now candidate name client_id room =
      let id = if is_empty client_id then candidate else client_id in
      let r = create_client sign cfg now id sv.clients in
      elim (Option-cases r.2) [
        | inl e ↦ rw (e, internal_create_client) v
        | inr (c, e) ↦
            rw (e, internal_create_client)
              (k.keeps_client (set_name name c).0 (record sv { clients = r.0 })
                (grow sign now id sv room v))
      ]

  identity_request-keeps :
      (sign : Bytes → Bytes) (now : ℕ) (candidate : Bytes) (puzzle : Puzzle) (n : ℕ) (req : Request)
      → Fine (identity_request sign cfg now candidate puzzle n req sv)
  unfolding identity_request
  identity_request-keeps sign now candidate puzzle n req = elim (Option-cases (identified req sv)) [
    | inr (c, e) ↦ rw (e, identity_request) v
    | inl e ↦ elim (Option-cases (req.url_param "name")) [
      | inl f ↦ rw (e, identity_request, f) v
      | inr (name, f) ↦
          rw (e, identity_request, f)
            (if_elim Fine (leb cfg.api_max_client_count (client_count sv.clients)) _ _ (λ _. v)
              (λ room.
                if_elim Fine (ltb (client_count sv.clients) cfg.api_without_captcha_threshold) _ _
                  (λ _.
                    internal_create_client-keeps sign now candidate name [] (ground (arith, room)))
                  (λ _. v)))
    ]
  ]

  required-keeps :
      (sign : Bytes → Bytes) (now : ℕ) (candidate : Bytes) (json : Strings) (key why empty : String)
      (go_on : Bytes → Reply)
      → ((value : Bytes) → Fine (go_on value))
      → Fine (required sign cfg now candidate json key why empty go_on sv)
  unfolding required
  required-keeps sign now candidate json key why empty go_on h = elim (Option-cases (json key)) [
    | inl e ↦ rw (e, required) v
    | inr (value, e) ↦ rw (e, required) (if_elim Fine (is_empty value) _ _ (λ _. v) (λ _. h value))
  ]

  identity_validation-keeps :
      (sign : Bytes → Bytes) (now : ℕ) (candidate : Bytes) (load : Bytes → Option Strings)
      (validate : Bytes → Bytes → Bytes → Bool) (req : Request)
      → Fine (identity_validation sign cfg now candidate load validate req sv)
  unfolding identity_validation
  identity_validation-keeps sign now candidate load validate req =
      elim (Option-cases (identified req sv)) [
        | inr (c, e) ↦ rw (e, identity_validation) v
        | inl e ↦
            rw (e, identity_validation)
              (if_elim Fine (leb cfg.api_max_client_count (client_count sv.clients)) _ _ (λ _. v)
                (λ room. elim (Option-cases (load req.body)) [
                  | inl f ↦ rw f v
                  | inr (json, f) ↦ rw f (
                      required-keeps sign now candidate json _ _ _ _ (λ a.
                        required-keeps sign now candidate json _ _ _ _ (λ client_id.
                          required-keeps sign now candidate json _ _ _ _ (λ token.
                            required-keeps sign now candidate json _ _ _ _ (λ name.
                              if_elim Fine (not (validate client_id token a)) _ _ (λ _. v)
                                (λ _.
                                  internal_create_client-keeps sign now candidate name client_id
                                    (ground (arith, room))))))))
                ]))
      ]

  pub handle-keeps :
      (env : Environment) (ch : Chance) (route : Route) (req : Request)
      → Fine (handle env cfg ch route req sv)
  unfolding handle current_statistics
  handle-keeps env ch statistics_current req = v
  handle-keeps env ch me_info_route req = me_info-keeps cfg P Q k sv v req
  handle-keeps env ch me_leave_route req = me_leave-keeps cfg P Q k sv v req
  handle-keeps env ch identity_request_route req =
      identity_request-keeps env.sign ch.now ch.candidate ch.puzzle env.answer_length req
  handle-keeps env ch identity_confirmation req =
      identity_validation-keeps env.sign ch.now ch.candidate env.load_strings env.validate req
  handle-keeps env ch session_create_route req =
      session_create-keeps cfg P Q k sv v env.load_options ch.now req
  handle-keeps env ch session_join_route req = session_join-keeps cfg P Q k sv v ch.now req
  handle-keeps env ch chunk_get req = session_chunk_get-keeps cfg P Q k sv v ch.now req
  handle-keeps env ch chunk_post req = session_chunk_post-keeps cfg P Q k sv v ch.now req
