-- ===== src/Http/Creation.antt =====
-- What a client has when its request for a session is answered 201.
use put_in_pipe.Common.{
  ℕ, ◌+◌, ◌≡◌, refl, sym, ◌∙◌, subst, ap, Bool, true, false, List, [], ◌∷◌, Option, none, some,
  is_empty, Bytes, Option-cases, Bool-cases, inl, inr, arith,
}
use put_in_pipe.Config.{Config}
use put_in_pipe.Keyed.{lookup}
use put_in_pipe.Keyed.Laws.{lookup-alter_key, All-lookup}
use put_in_pipe.Client.{Client, join_session}
use put_in_pipe.ClientList.{get_client}
use put_in_pipe.Session.{Session, ClientRef, new_session, init_timers}
use put_in_pipe.Session.Delivery.{fresh_session}
use put_in_pipe.SessionList.{
  SessionList, ListEffect, create_session, get_session, session_count, possible_to_create_new,
}
use put_in_pipe.SessionList.Limit.{create_session_lem}
use put_in_pipe.WsMessages.{client_ref}
use put_in_pipe.Server.{Server, put_client}
use put_in_pipe.Server.Valid.{Valid}
use put_in_pipe.Http.{Request, Reply, identified}
use put_in_pipe.Http.Sessions.{Options, read_options, created, session_create}

-- A new session of the client is found under the client's public identifier, with its whole lifetime, and
-- the client has joined it.
abbrev pub Created : Config → ℕ → Client → Bool → Server → Server → Type 0
Created cfg now c auto_drop sv sv' =
    (get_session now c.public_id sv'.sessions
      ≡ some (
        fresh_session cfg (client_ref c) c.public_id auto_drop now,
        cfg.transfer_session_max_lifetime,
      ))
    × (session_count sv'.sessions ≡ session_count sv.sessions + 1)
    × (get_client c.id sv'.clients ≡ some (record c { joined_session = c.public_id }))

pub empty-nil : (t : Bytes) → is_empty t ≡ true → t ≡ []
empty-nil [] h = refl
empty-nil (c ∷ t) h = absurd (ground (arith, h))

pub identified-id :
    (cfg : Config) (req : Request) (sv : Server) (c : Client)
    → Valid cfg sv
    → identified req sv ≡ some c
    → get_client c.id sv.clients ≡ some c
unfolding identified get_client
identified-id cfg req sv c v e = elim (Bool-cases (is_empty req.cookie)) [
  | inl none_given ↦ absurd (ground (arith, e, none_given))
  | inr given ↦
      let found : lookup req.cookie sv.clients.clients ≡ some c = ground (arith, e, given) in
      let same =
        All-lookup (λ x. x.1.id ≡ x.0) req.cookie c sv.clients.clients v.clients.named found in
      subst (λ (i : Bytes). lookup i sv.clients.clients ≡ some c) (sym same) found
]

pub put_client-get :
    (c d : Client) (sv : Server)
    → get_client c.id sv.clients ≡ some d
    → get_client c.id (put_client c sv).clients ≡ some c
unfolding put_client get_client
put_client-get c d sv e = ground (arith, lookup-alter_key c.id c.id (λ _. c) sv.clients.clients, e)

module _ (cfg : Config) (now : ℕ) (c : Client) (auto_drop : Bool) (sv : Server) where
  abbrev made : SessionList × List ListEffect × Option (Session × ℕ)
  made = create_session cfg now (some (client_ref c)) auto_drop sv.sessions

  created-none : made.2 ≡ none → (created cfg now c auto_drop sv).2.code ≡ 500
  unfolding created
  created-none e = rw (created, e) refl

  created-refused :
      (s : Session) (left : ℕ)
      → made.2 ≡ some (s, left)
      → (join_session s.id c).1 ≡ false
      → (created cfg now c auto_drop sv).2.code ≡ 500
  unfolding created
  created-refused s left e f = rw (created, e, f) refl

  created-joined :
      (s : Session) (left : ℕ)
      → made.2 ≡ some (s, left)
      → (join_session s.id c).1 ≡ true
      → (created cfg now c auto_drop sv).0
        ≡ put_client (join_session s.id c).0 (record sv { sessions = made.0 })
  unfolding created
  created-joined s left e f = rw (created, e, f) refl

pub joined_session_lem :
    (id : Bytes) (c : Client)
    → (join_session id c).1 ≡ true
    → (join_session id c).0 ≡ record c { joined_session = id }
unfolding join_session
joined_session_lem id c h = ground (arith, h)

fresh-id :
    (cfg : Config) (creator : ClientRef) (id : Bytes) (auto_drop : Bool) (now : ℕ)
    → (fresh_session cfg creator id auto_drop now).id ≡ id
unfolding init_timers new_session
fresh-id cfg creator id auto_drop now = refl

pub put_client-sessions : (c : Client) (sv : Server) → (put_client c sv).sessions ≡ sv.sessions
unfolding put_client
put_client-sessions c sv = refl

created-Created :
    (cfg : Config) (now : ℕ) (c : Client) (auto_drop : Bool) (sv : Server)
    → get_client c.id sv.clients ≡ some c
    → (created cfg now c auto_drop sv).2.code ≡ 201
    → Created cfg now c auto_drop sv (created cfg now c auto_drop sv).0
created-Created cfg now c auto_drop sv known code =
    let l = (made cfg now c auto_drop sv).0 in
    let s = fresh_session cfg (client_ref c) c.public_id auto_drop now in
    let left = cfg.transfer_session_max_lifetime in
    let same_id : s.id ≡ c.public_id = fresh-id cfg (client_ref c) c.public_id auto_drop now in
    elim (create_session_lem cfg now (client_ref c) auto_drop sv.sessions) [
      | inl (_, e) ↦
          absurd (omega (arith, code, created-none cfg now c auto_drop sv (ap (λ r. r.2) e)))
      | inr (_, new, found, more, _) ↦ elim (Bool-cases (join_session s.id c).1) [
        | inr f ↦ absurd (omega (arith, code, created-refused cfg now c auto_drop sv s left new f))
        | inl f ↦
            let after : (created cfg now c auto_drop sv).0
                ≡ put_client (record c { joined_session = c.public_id })
                    (record sv { sessions = l }) =
              created-joined cfg now c auto_drop sv s left new f
              ∙ ap (λ (d : Client). put_client d (record sv { sessions = l }))
                  (joined_session_lem s.id c f
                    ∙ ap (λ (i : Bytes). record c { joined_session = i }) same_id) in
            rw after (
              ap (get_session now c.public_id) (
                    put_client-sessions (record c { joined_session = c.public_id })
                      (record sv { sessions = l }))
                  ∙ (found ∙ new),
              ap session_count (
                    put_client-sessions (record c { joined_session = c.public_id })
                      (record sv { sessions = l }))
                  ∙ more,
              put_client-get (record c { joined_session = c.public_id }) c
                  (record sv { sessions = l }) known,
            )
      ]
    ]

-- A request for a session that is answered 201 comes from the client that its cookie names, which was in no
-- session: afterwards a new session of that client is found under the client's public identifier, with
-- its whole lifetime, there is one session more, and the client has joined it. (The server is valid.)
pub session_create_creates :
    (load : Bytes → Options) (cfg : Config) (now : ℕ) (req : Request) (sv : Server)
    → Valid cfg sv
    → (session_create load cfg now req sv).2.code ≡ 201
    → (c : Client) × (auto_drop : Bool) × (identified req sv ≡ some c)
      × (c.joined_session ≡ [])
      × Created cfg now c auto_drop sv (session_create load cfg now req sv).0
unfolding session_create
session_create_creates load cfg now req sv v code = elim (Option-cases (identified req sv)) [
  | inl e ↦ absurd (omega (arith, rw (session_create, e) at code))
  | inr (c, e) ↦ elim (Bool-cases (is_empty c.joined_session)) [
    | inr f ↦ absurd (omega (arith, rw (session_create, e, f) at code))
    | inl f ↦ elim (Bool-cases (possible_to_create_new cfg sv.sessions)) [
      | inr g ↦ absurd (omega (arith, rw (session_create, e, f, g) at code))
      | inl g ↦ elim (Option-cases (read_options load req.body).0) [
        | inl h ↦ absurd (omega (arith, rw (session_create, e, f, g, h) at code))
        | inr (auto_drop, h) ↦
            let body : session_create load cfg now req sv ≡ created cfg now c auto_drop sv =
              rw (session_create, e, f, g, h) refl in
            let known = identified-id cfg req sv c v e in
            (
              c,
              auto_drop,
              e,
              empty-nil c.joined_session f,
              rw body (
                  created-Created cfg now c auto_drop sv known
                    (sym (ap (λ (r : Reply). r.2.code) body) ∙ code)),
            )
      ]
    ]
  ]
]
