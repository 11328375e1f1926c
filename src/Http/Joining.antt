-- ===== src/Http/Joining.antt =====
-- What a client has when its request to join a session is answered 202.
use put_in_pipe.Common.{
  ℕ, ◌≡◌, refl, sym, ◌∙◌, subst, ap, Bool, true, false, not, ◌&&◌, ◌⊎◌, List, [], Option, none,
  some, is_empty, Bytes, Option-cases, Bool-cases, inl, inr, arith,
}
use put_in_pipe.Config.{Config}
use put_in_pipe.Keyed.{lookup, alter_key}
use put_in_pipe.Keyed.Laws.{lookup-alter_key, All-lookup}
use put_in_pipe.TimerCallback.{time_remaining}
use put_in_pipe.Client.{Client, join_session}
use put_in_pipe.ClientList.{get_client}
use put_in_pipe.Session.{Session, ClientRef}
use put_in_pipe.Session.Receivers.{add_receiver, text_eq}
use put_in_pipe.SessionList.{SessionWithTimer, get_session}
use put_in_pipe.WsMessages.{client_ref}
use put_in_pipe.Captcha.Lawful.{text_eq-true}
use put_in_pipe.Server.{Server, is_alive, put_client, put_session}
use put_in_pipe.Server.Valid.{Valid}
use put_in_pipe.Http.{Request, identified}
use put_in_pipe.Http.Sessions.{session_join, is_member}
use put_in_pipe.Http.Creation.{
  identified-id, put_client-get, put_client-sessions, joined_session_lem, empty-nil,
}

-- The session took the client in, it is stored under its identifier with the lifetime it had left, and the
-- client has joined it.
abbrev pub Joined : Config → ℕ → Client → Session → ℕ → Server → Server → Type 0
Joined cfg now c s left sv sv' =
    let r = add_receiver (is_alive sv) cfg (some (client_ref c)) s in
    (r.2 ≡ true)
    × ((s.buffer.some_chunk_was_removed && not (is_member (is_alive sv) c s)) ≡ false)
    × (get_session now s.id sv'.sessions ≡ some (r.0, left))
    × (get_client c.id sv'.clients ≡ some (record c { joined_session = s.id }))

found-id :
    (cfg : Config) (now : ℕ) (id : Bytes) (s : Session) (left : ℕ) (sv : Server)
    → Valid cfg sv
    → get_session now id sv.sessions ≡ some (s, left)
    → s.id ≡ id
unfolding get_session
found-id cfg now id s left sv v e = elim (Option-cases (lookup id sv.sessions.sessions)) [
  | inl f ↦ absurd (ground (arith, e, f))
  | inr (entry, f) ↦
      let same : entry.session ≡ s = ground (arith, e, f) in
      subst (λ (t : Session). t.id ≡ id) same
        (All-lookup (λ x. x.1.session.id ≡ x.0) id entry sv.sessions.sessions v.sessions.named f)
]

lookup-alter_self :
    (k : Bytes) (f : SessionWithTimer → SessionWithTimer) (v : SessionWithTimer)
    (m : List (Bytes × SessionWithTimer))
    → lookup k m ≡ some v
    → lookup k (alter_key k f m) ≡ some (f v)
lookup-alter_self k f v m e = ground (arith, lookup-alter_key k k f m, e)

put_session-get_own :
    (now : ℕ) (s s' : Session) (left : ℕ) (sv : Server)
    → get_session now s'.id sv.sessions ≡ some (s, left)
    → get_session now s'.id (put_session s' sv).sessions ≡ some (s', left)
unfolding put_session get_session
put_session-get_own now s s' left sv e = elim (Option-cases (lookup s'.id sv.sessions.sessions)) [
  | inl f ↦ absurd (ground (arith, e, f))
  | inr (entry, f) ↦
      let put = λ (x : SessionWithTimer). record x { session = s' } in
      let time : time_remaining now entry.timer ≡ left = ground (arith, e, f) in
      rw (put_session, get_session, lookup-alter_self s'.id put entry sv.sessions.sessions f, time)
        refl
]

put_session-get :
    (now : ℕ) (s s' : Session) (left : ℕ) (sv : Server)
    → s'.id ≡ s.id
    → get_session now s.id sv.sessions ≡ some (s, left)
    → get_session now s.id (put_session s' sv).sessions ≡ some (s', left)
put_session-get now s s' left sv same e =
    subst (λ (i : Bytes). get_session now i (put_session s' sv).sessions ≡ some (s', left)) same
      (put_session-get_own now s s' left sv
        (subst (λ (i : Bytes). get_session now i sv.sessions ≡ some (s, left)) (sym same) e))

add_receiver-id :
    (alive : Bytes → Bool) (cfg : Config) (client : Option ClientRef) (s : Session)
    → (add_receiver alive cfg client s).0.id ≡ s.id
unfolding add_receiver
add_receiver-id alive cfg none s = refl
add_receiver-id alive cfg (some client) s = ground arith

put_session-clients : (s : Session) (sv : Server) → (put_session s sv).clients ≡ sv.clients
unfolding put_session
put_session-clients s sv = refl

-- What a client in no session gets of a session that was found.
taken_in :
    (cfg : Config) (now : ℕ) (req : Request) (sv : Server) (c : Client) (id : Bytes) (s : Session)
    (left : ℕ)
    → identified req sv ≡ some c
    → req.url_param "id" ≡ some id
    → get_session now id sv.sessions ≡ some (s, left)
    → get_session now s.id sv.sessions ≡ some (s, left)
    → get_client c.id sv.clients ≡ some c
    → is_empty c.joined_session ≡ true
    → (session_join cfg now req sv).2.code ≡ 202
    → Joined cfg now c s left sv (session_join cfg now req sv).0
unfolding session_join
taken_in cfg now req sv c id s left e f g own known free code =
    let r = add_receiver (is_alive sv) cfg (some (client_ref c)) s in
    let sv' = put_session r.0 sv in
    elim (Bool-cases (s.buffer.some_chunk_was_removed && not (is_member (is_alive sv) c s))) [
      | inl h ↦ absurd (omega (arith, rw (session_join, e, f, g, free, h) at code))
      | inr h ↦ elim (Bool-cases r.2) [
        | inr i ↦ absurd (omega (arith, rw (session_join, e, f, g, free, h, i) at code))
        | inl i ↦ elim (Bool-cases (join_session s.id c).1) [
          | inr j ↦ absurd (omega (arith, rw (session_join, e, f, g, free, h, i, j) at code))
          | inl j ↦
              let d : Client = record c { joined_session = s.id } in
              let after : (session_join cfg now req sv).0 ≡ put_client d sv' =
                rw (session_join, e, f, g, free, h, i, j)
                  (ap (λ (x : Client). put_client x sv') (joined_session_lem s.id c j)) in
              rw after (
                i,
                h,
                ap (get_session now s.id) (put_client-sessions d sv')
                    ∙ put_session-get now s r.0 left sv
                        (add_receiver-id (is_alive sv) cfg (some (client_ref c)) s) own,
                put_client-get d c sv' (ap (get_client c.id) (put_session-clients r.0 sv) ∙ known),
              )
        ]
      ]
    ]

-- A request to join a session that is answered 202 comes from the client that its cookie names and names
-- a session by its identifier. Either the client was in that session already and nothing changed; or
-- it was in none, no chunk was removed from the session or it is a receiver of it, the session took
-- it in, the session is stored as it is then with the lifetime it had left, and the client has
-- joined it. (The server is valid.)
pub session_join_joins :
    (cfg : Config) (now : ℕ) (req : Request) (sv : Server)
    → Valid cfg sv
    → (session_join cfg now req sv).2.code ≡ 202
    → (c : Client) × (s : Session) × (left : ℕ) × (identified req sv ≡ some c)
      × (req.url_param "id" ≡ some s.id)
      × (get_session now s.id sv.sessions ≡ some (s, left))
      × (((c.joined_session ≡ s.id) × ((session_join cfg now req sv).0 ≡ sv))
          ⊎ ((c.joined_session ≡ []) × Joined cfg now c s left sv (session_join cfg now req sv).0))
unfolding session_join
session_join_joins cfg now req sv v code = elim (Option-cases (identified req sv)) [
  | inl e ↦ absurd (omega (arith, rw (session_join, e) at code))
  | inr (c, e) ↦ elim (Option-cases (req.url_param "id")) [
    | inl f ↦ absurd (omega (arith, rw (session_join, e, f) at code))
    | inr (id, f) ↦ elim (Option-cases (get_session now id sv.sessions)) [
      | inl g ↦ absurd (omega (arith, rw (session_join, e, f, g) at code))
      | inr ((s, left), g) ↦
          let same = found-id cfg now id s left sv v g in
          let own =
            subst (λ (i : Bytes). get_session now i sv.sessions ≡ some (s, left)) (sym same) g in
          let named = f ∙ ap some (sym same) in
          (
            c,
            s,
            left,
            e,
            named,
            own,
            elim (Bool-cases (is_empty c.joined_session)) [
              | inl free ↦ inr (
                empty-nil c.joined_session free,
                taken_in cfg now req sv c id s left e f g own (identified-id cfg req sv c v e) free
                    code,
              )
              | inr busy ↦ elim (Bool-cases (text_eq s.id c.joined_session)) [
                | inl there ↦ inl (
                  sym (text_eq-true s.id c.joined_session there),
                  rw (session_join, e, f, g, busy, there) refl,
                )
                | inr elsewhere ↦
                    absurd (omega (arith, rw (session_join, e, f, g, busy, elsewhere) at code))
              ]
            ],
          )
    ]
  ]
]
