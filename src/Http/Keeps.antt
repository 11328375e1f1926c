-- ===== src/Http/Keeps.antt =====
-- What every handler of a request or a connection keeps, if storing a client or a session, creating and removing a session, and removing a client keep it.
use put_in_pipe.Common.{
  length, ltb, ℕ, ◌≡◌, Bool, true, not, ◌&&◌, Option, some, Bytes, is_empty, Option-cases, if_elim,
  inl, inr, arith,
}
use put_in_pipe.Config.{Config}
use put_in_pipe.Client.{Client, join_session, reset_ws_timeout_timer_if_it_active}
use put_in_pipe.ClientList.{remove_client}
use put_in_pipe.Session.{Session, ClientRef}
use put_in_pipe.Session.Chunks.{session_add_chunk, session_get_chunk}
use put_in_pipe.Session.Receivers.{add_receiver, text_eq}
use put_in_pipe.SessionList.{create_session, get_session, possible_to_create_new, remove_session}
use put_in_pipe.WsMessages.{client_ref, is_creator}
use put_in_pipe.Session.History.{SessionCall, adds_receiver, adds_chunk, gets_chunk, session_step}
use put_in_pipe.Numerals.{stoul}
use put_in_pipe.Server.{Server, is_alive, put_client, put_session}
use put_in_pipe.Http.{Request, Reply, identified}
use put_in_pipe.Http.Info.{me_info, me_leave}
use put_in_pipe.Http.Sessions.{
  Options, read_options, session_create, created, is_member, session_join,
}
use put_in_pipe.Http.Chunks.{
  with_joined_session, post_chunk, session_chunk_post, get_chunk_by_id, session_chunk_get,
}

-- No demand on sessions.
abbrev pub Anything : Session → Type 0
Anything s = Unit

-- `Q` is what is so of each session; the calls of a session keep it.
pub record Keeping {ℓ κ} (cfg : Config) (P : Server → Type ℓ) (Q : Session → Type κ)
    : Type (ℓ ⊔ κ) where
  pub keeps_client : (c : Client) (sv : Server) → P sv → P (put_client c sv)
  pub holds_session :
      (now : ℕ) (id : Bytes) (s : Session) (remaining : ℕ) (sv : Server)
      → P sv
      → get_session now id sv.sessions ≡ some (s, remaining)
      → Q s
  pub keeps_calls :
      (alive : Bytes → Bool) (call : SessionCall) (s : Session)
      → Q s
      → Q (session_step cfg alive call s).0
  pub keeps_session : (s : Session) (sv : Server) → Q s → P sv → P (put_session s sv)
  pub keeps_creation :
      (now : ℕ) (creator : Option ClientRef) (auto_drop : Bool) (sv : Server)
      → possible_to_create_new cfg sv.sessions ≡ true
      → P sv
      → P (record sv { sessions = (create_session cfg now creator auto_drop sv.sessions).0 })
  pub keeps_removal :
      (id : Bytes) (sv : Server)
      → P sv
      → P (record sv { sessions = (remove_session id sv.sessions).0 })
  pub keeps_leaving :
      (id : Bytes) (sv : Server)
      → P sv
      → P (record sv { clients = (remove_client id sv.clients).0 })

module _ {ℓ κ} (cfg : Config) (P : Server → Type ℓ) (Q : Session → Type κ) (k : Keeping cfg P Q)
    (sv : Server) (v : P sv) where
  abbrev Fine : Reply → Type ℓ
  Fine r = P r.0

  pub me_info-keeps : (req : Request) → Fine (me_info req sv)
  unfolding me_info
  me_info-keeps req = elim (Option-cases (identified req sv)) [
    | inl e ↦ rw (e, me_info) v
    | inr (c, e) ↦ rw (e, me_info) v
  ]

  pub me_leave-keeps : (req : Request) → Fine (me_leave req sv)
  unfolding me_leave
  me_leave-keeps req = elim (Option-cases (identified req sv)) [
    | inl e ↦ rw (e, me_leave) v
    | inr (c, e) ↦ rw (e, me_leave) (k.keeps_leaving c.id sv v)
  ]

  pub session_join-keeps : (now : ℕ) (req : Request) → Fine (session_join cfg now req sv)
  unfolding session_join session_step
  session_join-keeps now req = elim (Option-cases (identified req sv)) [
    | inl e ↦ rw (e, session_join) v
    | inr (c, e) ↦ elim (Option-cases (req.url_param "id")) [
      | inl f ↦ rw (e, session_join, f) v
      | inr (id, f) ↦ elim (Option-cases (get_session now id sv.sessions)) [
        | inl g ↦ rw (e, session_join, f, g) v
        | inr ((s, remaining), g) ↦
            let r = add_receiver (is_alive sv) cfg (some (client_ref c)) s in
            let held = k.holds_session now id s remaining sv v g in
            let put =
              k.keeps_session r.0 sv
                (k.keeps_calls (is_alive sv) (adds_receiver (some (client_ref c))) s held) v in
            rw (e, session_join, f, g)
              (if_elim Fine (not (is_empty c.joined_session)) _ _
                (λ _. if_elim Fine (text_eq s.id c.joined_session) _ _ (λ _. v) (λ _. v))
                (λ _.
                  if_elim Fine
                    (s.buffer.some_chunk_was_removed && not (is_member (is_alive sv) c s)) _ _
                    (λ _. v)
                    (λ _.
                      if_elim Fine (not r.2) _ _ (λ _. put)
                        (λ _.
                          if_elim Fine (join_session s.id c).1 _ _
                            (λ _. k.keeps_client (join_session s.id c).0 _ put) (λ _. put)))))
      ]
    ]
  ]

  created-keeps :
      (c : Client) (now : ℕ) (auto_drop : Bool)
      → possible_to_create_new cfg sv.sessions ≡ true
      → Fine (created cfg now c auto_drop sv)
  unfolding created
  created-keeps c now auto_drop room =
      let r = create_session cfg now (some (client_ref c)) auto_drop sv.sessions in
      let more = k.keeps_creation now (some (client_ref c)) auto_drop sv room v in
      elim (Option-cases r.2) [
        | inl e ↦ rw (e, created) more
        | inr ((s, remaining), e) ↦
            rw (e, created)
              (if_elim Fine (join_session s.id c).1 _ _
                (λ _. k.keeps_client (join_session s.id c).0 (record sv { sessions = r.0 }) more)
                (λ _. k.keeps_removal s.id (record sv { sessions = r.0 }) more))
      ]

  pub session_create-keeps :
      (load : Bytes → Options) (now : ℕ) (req : Request) → Fine (session_create load cfg now req sv)
  unfolding session_create
  session_create-keeps load now req = elim (Option-cases (identified req sv)) [
    | inl e ↦ rw (e, session_create) v
    | inr (c, e) ↦
        rw (e, session_create)
          (if_elim Fine (not (is_empty c.joined_session)) _ _ (λ _. v)
            (λ _.
              if_elim Fine (not (possible_to_create_new cfg sv.sessions)) _ _
                (λ _. k.keeps_client (reset_ws_timeout_timer_if_it_active now c).0 sv v)
                (λ room. elim (Option-cases (read_options load req.body).0) [
                  | inl f ↦ rw f v
                  | inr (auto_drop, f) ↦ rw f (created-keeps c now auto_drop (ground (arith, room)))
                ])))
  ]

  with_joined-keeps :
      (now : ℕ) (req : Request) (go_on : Client → Session → Reply)
      → ((c : Client) (s : Session) → Q s → Fine (go_on c s))
      → Fine (with_joined_session now req sv go_on)
  unfolding with_joined_session
  with_joined-keeps now req go_on h = elim (Option-cases (identified req sv)) [
    | inl e ↦ rw (e, with_joined_session) v
    | inr (c, e) ↦
        rw (e, with_joined_session)
          (if_elim Fine (is_empty c.joined_session) _ _ (λ _. v)
            (λ _. elim (Option-cases (get_session now c.joined_session sv.sessions)) [
              | inl f ↦ rw f v
              | inr ((s, remaining), f) ↦
                  rw f (h c s (k.holds_session now c.joined_session s remaining sv v f))
            ]))
  ]

  post_chunk-keeps :
      (req : Request) (c : Client) (s : Session) → Q s → Fine (post_chunk cfg req sv c s)
  unfolding post_chunk session_step
  post_chunk-keeps req c s q =
      let put =
        k.keeps_session (session_add_chunk cfg req.body s).0 sv
          (k.keeps_calls (is_alive sv) (adds_chunk req.body) s q) v in
      if_elim Fine (not (is_creator (is_alive sv) c s)) _ _ (λ _. v)
        (λ _.
          if_elim Fine (ltb cfg.transfer_session_max_chunk_size (length req.body)) _ _ (λ _. v)
            (λ _. put))

  get_chunk_by_id-keeps :
      (req : Request) (c : Client) (s : Session) → Q s → Fine (get_chunk_by_id req sv c s)
  unfolding get_chunk_by_id session_step
  get_chunk_by_id-keeps req c s q = elim (Option-cases (req.url_param "id")) [
    | inl e ↦ rw (e, get_chunk_by_id) v
    | inr (id, e) ↦ elim (Option-cases (stoul id)) [
      | inl f ↦ rw (e, get_chunk_by_id, f) v
      | inr (i, f) ↦
          rw (e, get_chunk_by_id, f)
            (k.keeps_session (session_get_chunk i (some (client_ref c)) s).0 sv
              (k.keeps_calls (is_alive sv) (gets_chunk i (some (client_ref c))) s q) v)
    ]
  ]

  pub session_chunk_post-keeps :
      (now : ℕ) (req : Request) → Fine (session_chunk_post cfg now req sv)
  unfolding session_chunk_post
  session_chunk_post-keeps now req = with_joined-keeps now req _ (post_chunk-keeps req)

  pub session_chunk_get-keeps : (now : ℕ) (req : Request) → Fine (session_chunk_get now req sv)
  unfolding session_chunk_get
  session_chunk_get-keeps now req = with_joined-keeps now req _ (get_chunk_by_id-keeps req)
