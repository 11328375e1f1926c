-- ===== src/WsMessages/Creator.antt =====
-- What a client's message can do to its session, and what only the session's creator can do.
use put_in_pipe.Common.{
  ◌≡◌, refl, Bool, true, false, not, Option, none, some, Bytes, codes, if◌then◌else◌, ◌⊎◌, inl, inr,
  Bool-cases, Option-cases, if_elim, subst, String, is_empty, arith,
}
use put_in_pipe.Config.{Config}
use put_in_pipe.Session.{Session}
use put_in_pipe.Session.Receivers.{text_eq}
use put_in_pipe.Session.History.{
  SessionCall, sets_file_info, ends_file, removes_receiver, terminates, drops_freeze, gets_chunk,
  adds_chunk, confirms_chunk, session_step,
}
use put_in_pipe.Client.{Client}
use put_in_pipe.WsMessages.{
  Data, Message, Outcome, is_creator, client_ref, internal_ws_message_processing, on_set_file_info,
  on_upload_finished, on_kick_receiver, on_terminate_session, on_drop_freeze, on_new_name,
  on_get_chunk, on_confirm_chunk, on_ack, on_binary, on_text, ws_on_message,
}

-- The calls that every participant may make.
abbrev pub is_open : SessionCall → Bool
is_open (gets_chunk index client) = true
is_open (confirms_chunk index client) = true
is_open _ = false

module _ (cfg : Config) (alive : Bytes → Bool) (c : Client) (s : Session) where
  -- The session did not change, or changed by one of its calls, one that the client may make.
  abbrev pub Acts : Session → Type 0
  Acts s' =
      (s' ≡ s)
      ⊎ ((call : SessionCall) × (s' ≡ (session_step cfg alive call s).0)
          × ((is_creator alive c s ≡ true) ⊎ (is_open call ≡ true)))

  abbrev ActsIfAny : Option Outcome → Type 0
  ActsIfAny none = Unit
  ActsIfAny (some o) = Acts o.1

  creator-cases :
      (o p : Option Outcome)
      → ActsIfAny o
      → (is_creator alive c s ≡ true → ActsIfAny p)
      → ActsIfAny (if not (is_creator alive c s) then o else p)
  creator-cases o p refused allowed = elim (Bool-cases (is_creator alive c s)) [
    | inl ours ↦ rw ours (allowed ours)
    | inr other ↦ rw other refused
  ]

  named :
      (action : Bytes) (name : String) (o p : Option Outcome)
      → ActsIfAny o
      → ActsIfAny p
      → ActsIfAny (if text_eq action (codes name) then o else p)
  named action name o p h k = if_elim ActsIfAny (text_eq action (codes name)) o p (λ _. h) (λ _. k)

  module _ (content : Data) where
    set_file_info-Acts : ActsIfAny (on_set_file_info cfg alive content c s)
    unfolding on_set_file_info session_step
    set_file_info-Acts = creator-cases _ _ (inl refl) (λ ours.
        elim (Option-cases (content.s "name")) [
          | inl e ↦ rw e tt
          | inr (name, e) ↦ rw e (elim (Option-cases (content.u "size")) [
            | inl f ↦ rw f tt
            | inr (size, f) ↦
                rw f (inr (sets_file_info (record { name = name; size = size }), refl, inl ours))
          ])
        ])

    upload_finished-Acts : ActsIfAny (on_upload_finished cfg alive content c s)
    unfolding on_upload_finished session_step
    upload_finished-Acts = creator-cases _ _ (inl refl) (λ ours. inr (ends_file, refl, inl ours))

    kick_receiver-Acts : ActsIfAny (on_kick_receiver cfg alive content c s)
    unfolding on_kick_receiver session_step
    kick_receiver-Acts = creator-cases _ _ (inl refl) (λ ours.
        elim (Option-cases (content.s "id")) [
          | inl e ↦ rw e tt
          | inr (public_id, e) ↦ rw e (
              if_elim ActsIfAny (text_eq c.public_id public_id) _ _ (λ _. inl refl)
                (λ _. inr (removes_receiver public_id, refl, inl ours)))
        ])

    terminate_session-Acts : ActsIfAny (on_terminate_session cfg alive content c s)
    unfolding on_terminate_session session_step
    terminate_session-Acts = creator-cases _ _ (inl refl) (λ ours. inr (terminates, refl, inl ours))

    drop_freeze-Acts : ActsIfAny (on_drop_freeze cfg alive content c s)
    unfolding on_drop_freeze session_step
    drop_freeze-Acts = creator-cases _ _ (inl refl) (λ ours. inr (drops_freeze, refl, inl ours))

    new_name-Acts : ActsIfAny (on_new_name cfg alive content c s)
    unfolding on_new_name
    new_name-Acts = elim (Option-cases (content.s "name")) [
      | inl e ↦ rw (e, ActsIfAny) tt
      | inr (name, e) ↦ rw (e, ActsIfAny) (inl refl)
    ]

    get_chunk-Acts : ActsIfAny (on_get_chunk cfg alive content c s)
    unfolding on_get_chunk session_step
    get_chunk-Acts = elim (Option-cases (content.u "index")) [
      | inl e ↦ rw (e, ActsIfAny) tt
      | inr (index, e) ↦
          rw (e, ActsIfAny) (inr (gets_chunk index (some (client_ref c)), refl, inr refl))
    ]

    confirm_chunk-Acts : ActsIfAny (on_confirm_chunk cfg alive content c s)
    unfolding on_confirm_chunk session_step
    confirm_chunk-Acts = elim (Option-cases (content.u "index")) [
      | inl e ↦ rw (e, ActsIfAny) tt
      | inr (index, e) ↦
          rw (e, ActsIfAny) (inr (confirms_chunk index (some (client_ref c)), refl, inr refl))
    ]

    ack-Acts : ActsIfAny (on_ack cfg alive content c s)
    unfolding on_ack
    ack-Acts =
        if_elim ActsIfAny (not (content.has "id")) _ _ (λ _. inl refl)
          (λ _. elim (Option-cases (content.u "id")) [
            | inl e ↦ rw e tt
            | inr (id, e) ↦ rw e (inl refl)
          ])

    processing-Acts :
        (action : Bytes) → ActsIfAny (internal_ws_message_processing cfg alive content c s action)
    unfolding internal_ws_message_processing
    processing-Acts action = named action "set_file_info" _ _ set_file_info-Acts (
        named action "upload_finished" _ _ upload_finished-Acts (
          named action "kick_receiver" _ _ kick_receiver-Acts (
            named action "terminate_session" _ _ terminate_session-Acts (
              named action "drop_freeze" _ _ drop_freeze-Acts (
                named action "new_name" _ _ new_name-Acts (
                  named action "get_chunk" _ _ get_chunk-Acts (
                    named action "confirm_chunk" _ _ confirm_chunk-Acts
                      (named action "ack" _ _ ack-Acts (inl refl)))))))))

  text_eq-swap : (a b : Bytes) → text_eq a b ≡ true → text_eq b a ≡ true
  text_eq-swap a b h = ground arith

  binary-Acts : (bytes : Bytes) → Acts (on_binary cfg alive bytes c s).1
  unfolding on_binary session_step
  binary-Acts bytes =
      if_elim (λ (o : Outcome). Acts o.1) (not (alive s.data_sender.id)) _ _ (λ _. inl refl)
        (λ here.
          if_elim (λ (o : Outcome). Acts o.1) (not (text_eq c.id s.data_sender.id)) _ _
            (λ _. inl refl)
            (λ ours.
              inr
                (adds_chunk bytes, refl, inl (ground (arith, text_eq-swap c.id s.data_sender.id)))))

  text-Acts :
      (load : Bytes → Option Message) (text : Bytes) → Acts (on_text load cfg alive text c s).1
  unfolding on_text
  text-Acts load text = elim (Option-cases (load text)) [
    | inl e ↦ rw (e, on_text) (inl refl)
    | inr (m, e) ↦ elim (Option-cases m.action) [
      | inl f ↦ rw (e, on_text, f) (inl refl)
      | inr (a, f) ↦ elim (Option-cases m.content) [
        | inl g ↦ rw (e, on_text, f, g) (inl refl)
        | inr (d, g) ↦ elim (Option-cases (internal_ws_message_processing cfg alive d c s a)) [
          | inl h ↦ rw (e, on_text, f, g, h) (inl refl)
          | inr (o, h) ↦ rw (e, on_text, f, g, h) (subst ActsIfAny h (processing-Acts d a))
        ]
      ]
    ]
  ]

-- Whatever a client sends, text or binary, valid or not: its session does not change, or it changes by
-- one of its calls; and the client is the creator of the session, with the creator still there, or the
-- call is the download or the confirmation of a chunk. (`load`, which reads JSON, is any function.)
pub ws_on_message-Acts :
    (load : Bytes → Option Message) (cfg : Config) (alive : Bytes → Bool) (bytes : Bytes)
    (is_binary : Bool) (c : Client) (s : Session)
    → Acts cfg alive c s (ws_on_message load cfg alive bytes is_binary c s).1
unfolding ws_on_message
ws_on_message-Acts load cfg alive bytes is_binary c s =
    if_elim (λ (o : Outcome). Acts cfg alive c s o.1) (is_empty c.joined_session) _ _
      (λ _. inl refl)
      (λ _.
        if_elim (λ (o : Outcome). Acts cfg alive c s o.1) is_binary _ _
          (λ _. binary-Acts cfg alive c s bytes) (λ _. text-Acts cfg alive c s load bytes))
