-- ===== src/Session/Receivers.antt =====
-- transfersession.cpp: `addReceiver`, `removeReceiver` and `update(Event::ClientInternal)`.
use put_in_pipe.Common.{
  ◌==◌, Bool, true, false, not, ◌&&◌, ◌||◌, List, [], ◌∷◌, ◌++◌, Option, none, some, is_empty, any,
  if◌then◌else◌, Bytes, bytes_discrete,
}
use put_in_pipe.Config.{Config}
use put_in_pipe.Buffer.{
  add_new_to_expected_consumers, remove_one_from_expected_consumers, chunk_count,
}
use put_in_pipe.Session.{
  Session, ClientRef, Effect, notifies, removes_session, kicks, subscribes, watches,
  subscribes_session, new_receiver, receiver_removed, ok, sender_is_gone, no_receivers,
}
use put_in_pipe.Session.Freeze.{tell_removed}

-- `==` of `std::string`, as a Boolean.
abbrev pub text_eq : Bytes → Bytes → Bool
text_eq a b = elim (bytes_discrete a b) [ yes _ ↦ true | no _ ↦ false ]

module _ (alive : Bytes → Bool) where
  -- The subscriptions between the new receiver and the others.
  unfoldable pub subscribe_others : ClientRef → List ClientRef → List Effect
  subscribe_others client [] = []
  subscribe_others client (other ∷ others) =
      let rest = subscribe_others client others in
      if alive other.id && not (text_eq other.public_id client.public_id)
      then subscribes client other ∷ subscribes other client ∷ rest
      else rest

  unfoldable pub add_receiver : Config → Option ClientRef → Session → Session × List Effect × Bool
  add_receiver cfg none s = (s, [], false)
  add_receiver cfg (some client) s =
      if any (λ c. alive c.id && text_eq c.id client.id) s.data_receivers
      then (s, [], false)
      else let (b, accepted) = add_new_to_expected_consumers cfg client.public_id s.buffer in
        if not accepted then (record s { buffer = b }, [], false) else (
          record s { buffer = b; data_receivers = s.data_receivers ++ client ∷ [] },
          subscribe_others client s.data_receivers
              ++ ((if alive s.data_sender.id
                    then subscribes client s.data_sender ∷ subscribes s.data_sender client ∷ []
                    else [])
                  ++ watches client
                    ∷ subscribes_session client
                    ∷ notifies (new_receiver client)
                    ∷ []),
          true,
        )

  -- The loop over the receivers: those that stay, and the one that was removed. Entries whose client
  -- is gone are dropped.
  unfoldable pub erase_receiver :
      Bytes → List ClientRef → Option ClientRef → List ClientRef × Option ClientRef
  erase_receiver public_id [] removed = ([], removed)
  erase_receiver public_id (c ∷ cs) removed = elim (alive c.id) [
    | false ↦ erase_receiver public_id cs removed
    | true ↦ elim (text_eq c.public_id public_id) [
      | true ↦ erase_receiver public_id cs (some c)
      | false ↦ let (rest, last) = erase_receiver public_id cs removed in (c ∷ rest, last)
    ]
  ]

  -- What happens where no receivers are left.
  unfoldable pub end_without_receivers : Session → Session × List Effect
  end_without_receivers s =
      if s.auto_drop_freeze_on_first_chunk
      then (record s { complete_type = ok }, removes_session ∷ [])
      else if s.buffer.some_chunk_was_removed || not s.buffer.initial_chunks_freezing
      then (
        record s {
          complete_type =
              if s.buffer.end_of_file && chunk_count s.buffer == 0 then ok else no_receivers;
        },
        removes_session ∷ [],
      )
      else (s, [])

  unfoldable pub remove_receiver : Bytes → Session → Session × List Effect
  remove_receiver public_id s =
      let (rest, removed_client) = erase_receiver public_id s.data_receivers none in
      let (b, removed) = remove_one_from_expected_consumers public_id s.buffer [] in
      let left : Session = record s { data_receivers = rest; buffer = b } in
      let kicked : List Effect = elim removed_client [ none ↦ [] | some c ↦ kicks c ∷ [] ] in
      let (s', ending) = if is_empty rest then end_without_receivers left else (left, []) in
      (s', tell_removed removed ++ (kicked ++ notifies (receiver_removed public_id) ∷ ending))

  -- `update`, with the event `destroyed` and the public identifier of the client.
  unfoldable pub update_destroyed : Bytes → Session → Session × List Effect
  update_destroyed public_id s =
      if not (alive s.data_sender.id) || text_eq s.data_sender.public_id public_id
      then if s.buffer.end_of_file
        then if is_empty s.data_receivers
          then (record s { complete_type = no_receivers }, removes_session ∷ [])
          else (s, [])
        else (record s { complete_type = sender_is_gone }, removes_session ∷ [])
      else remove_receiver public_id s
