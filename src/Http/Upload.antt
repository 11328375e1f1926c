-- ===== src/Http/Upload.antt =====
-- The answers to chunks that are sent and asked for by HTTP.
use put_in_pipe.Common.{
  ℕ, ◌≤◌, ◌≡◌, refl, ltb, Bool, true, false, [], Option, none, some, map, length, is_empty, Bytes,
  Option-cases, Bool-cases, inl, inr, ◌⊎◌, arith, if◌then◌else◌,
}
use put_in_pipe.Config.{Config}
use put_in_pipe.Client.{Client}
use put_in_pipe.Session.{Session}
use put_in_pipe.Session.Chunks.{session_add_chunk, session_get_chunk}
use put_in_pipe.SessionList.{get_session}
use put_in_pipe.WsMessages.{client_ref, is_creator}
use put_in_pipe.Numerals.{stoul}
use put_in_pipe.Server.{Server, is_alive, put_session, by_session}
use put_in_pipe.Http.{Request, Reply, Response, answer, plain, no_body, octets, identified}
use put_in_pipe.Http.Chunks.{
  with_joined_session, post_chunk, session_chunk_post, get_chunk_by_id, session_chunk_get,
}

-- The request's client, in the session that it joined.
abbrev pub IsParticipant : ℕ → Request → Server → Client → Session → Type 0
IsParticipant now req sv c s =
    (remaining : ℕ) × (identified req sv ≡ some c)
    × (is_empty c.joined_session ≡ false)
    × (get_session now c.joined_session sv.sessions ≡ some (s, remaining))

-- An error that changed nothing and called nobody.
abbrev pub IsRefusal : Server → Reply → Type 0
IsRefusal sv r = (r.0 ≡ sv) × (r.1 ≡ []) × (400 ≤ r.2.code)

upload_code :
    (accepted : Bool)
    → (if accepted then answer 202 no_body else answer 421 (plain "Adding a chunk failed")).code
      ≡ (if accepted then 202 else 421)
upload_code true = refl
upload_code false = refl

-- The answer to a chunk that was asked for.
abbrev pub chunk_answer : Option Bytes → Response
chunk_answer none = answer 404 (plain "Chunk not found")
chunk_answer (some bytes) = answer 200 (octets bytes)

download_answer :
    (chunk : Option Bytes)
    → (elim chunk [
      | none ↦ answer 404 (plain "Chunk not found")
      | some bytes ↦ answer 200 (octets bytes)
    ])
      ≡ chunk_answer chunk
download_answer none = refl
download_answer (some bytes) = refl

module _ (now : ℕ) (req : Request) (sv : Server) where
  joined-cases :
      (go_on : Client → Session → Reply)
      → IsRefusal sv (with_joined_session now req sv go_on)
        ⊎ ((c : Client) × (s : Session) × IsParticipant now req sv c s
            × (with_joined_session now req sv go_on ≡ go_on c s))
  unfolding with_joined_session
  joined-cases go_on = elim (Option-cases (identified req sv)) [
    | inl e ↦ rw (e, with_joined_session) (inl (refl, refl, omega arith))
    | inr (c, e) ↦ elim (Bool-cases (is_empty c.joined_session)) [
      | inl f ↦ rw (e, with_joined_session, f) (inl (refl, refl, omega arith))
      | inr f ↦ elim (Option-cases (get_session now c.joined_session sv.sessions)) [
        | inl g ↦ rw (e, with_joined_session, f, g) (inl (refl, refl, omega arith))
        | inr ((s, remaining), g) ↦
            inr (c, s, (remaining, e, f, g), rw (e, with_joined_session, f, g) refl)
      ]
    ]
  ]

  -- What an upload that reaches the session does.
  abbrev pub Uploaded : Config → Session → Reply → Type 0
  Uploaded cfg s r =
      let (s', told, accepted) = session_add_chunk cfg req.body s in
      (r.0 ≡ put_session s' sv)
      × (r.1 ≡ map (by_session s.id) told)
      × (r.2.code ≡ (if accepted then 202 else 421))

  -- A chunk that is sent is refused with an error, the server unchanged and nobody told; or it comes from
  -- the creator of the session that the cookie's client joined, is at most as long as configured, and is
  -- given to that session: the answer is 202 if the session took it and 421 if not.
  pub session_chunk_post_cases :
      (cfg : Config)
      → IsRefusal sv (session_chunk_post cfg now req sv)
        ⊎ ((c : Client) × (s : Session) × IsParticipant now req sv c s
            × (is_creator (is_alive sv) c s ≡ true)
            × (length req.body ≤ cfg.transfer_session_max_chunk_size)
            × Uploaded cfg s (session_chunk_post cfg now req sv))
  unfolding session_chunk_post post_chunk
  session_chunk_post_cases cfg = elim (joined-cases (post_chunk cfg req sv)) [
    | inl refused ↦ inl refused
    | inr (c, s, here, e) ↦ elim (Bool-cases (is_creator (is_alive sv) c s)) [
      | inr f ↦ rw (session_chunk_post, e, post_chunk, f) (inl (refl, refl, omega arith))
      | inl f ↦ elim (Bool-cases (ltb cfg.transfer_session_max_chunk_size (length req.body))) [
        | inl g ↦ rw (session_chunk_post, e, post_chunk, f, g) (inl (refl, refl, omega arith))
        | inr g ↦
            rw (session_chunk_post, e, post_chunk, f, g)
              (inr (
                c,
                s,
                here,
                f,
                ground (arith, g),
                (refl, refl, upload_code (session_add_chunk cfg req.body s).2),
              ))
      ]
    ]
  ]

  -- What a download that reaches the session does.
  abbrev pub Downloaded : ℕ → Client → Session → Reply → Type 0
  Downloaded index c s r =
      let (s', told, chunk) = session_get_chunk index (some (client_ref c)) s in
      (r.0 ≡ put_session s' sv) × (r.1 ≡ map (by_session s.id) told) × (r.2 ≡ chunk_answer chunk)

  -- A request for a chunk is refused with an error, the server unchanged and nobody told; or it names an
  -- index that reads as a number and comes from a client that joined a session: the session is asked
  -- for that chunk in the client's name, and the answer is 200 with the chunk's bytes or 404.
  pub session_chunk_get_cases :
      IsRefusal sv (session_chunk_get now req sv)
      ⊎ ((c : Client) × (s : Session) × (index : ℕ) × (text : Bytes) × IsParticipant now req sv c s
          × (req.url_param "id" ≡ some text)
          × (stoul text ≡ some index)
          × Downloaded index c s (session_chunk_get now req sv))
  unfolding session_chunk_get get_chunk_by_id
  session_chunk_get_cases = elim (joined-cases (get_chunk_by_id req sv)) [
    | inl refused ↦ inl refused
    | inr (c, s, here, e) ↦ elim (Option-cases (req.url_param "id")) [
      | inl f ↦ rw (session_chunk_get, e, get_chunk_by_id, f) (inl (refl, refl, omega arith))
      | inr (text, f) ↦ elim (Option-cases (stoul text)) [
        | inl g ↦ rw (session_chunk_get, e, get_chunk_by_id, f, g) (inl (refl, refl, omega arith))
        | inr (index, g) ↦
            rw (session_chunk_get, e, get_chunk_by_id, f, g)
              (inr (
                c,
                s,
                index,
                text,
                here,
                refl,
                g,
                (refl, refl, download_answer (session_get_chunk index (some (client_ref c)) s).2),
              ))
      ]
    ]
  ]
