-- ===== src/Session/Delivery.antt =====
-- What a receiver of a session can rely on, whatever was called on the session before.
use put_in_pipe.Common.{
  ℕ, ◌+◌, ◌-◌, ◌*◌, ◌≤◌, ◌<◌, ◌≡◌, refl, u64_mod, Bool, true, List, [], some, length, get_elem?,
  Bytes, arith, sym, ◌∙◌, ap, subst,
}
use put_in_pipe.Config.{Config}
use put_in_pipe.Buffer.{Buffer, new_buffer, get_chunk, add_new_to_expected_consumers}
use put_in_pipe.Buffer.History.{run, uploaded}
use put_in_pipe.Buffer.Delivery.{get_chunk-uploaded, join_sees_all}
use put_in_pipe.Session.{Session, ClientRef, new_session, init_timers}
use put_in_pipe.Session.Chunks.{session_get_chunk}
use put_in_pipe.Session.Receivers.{add_receiver}
use put_in_pipe.Session.History.{SessionCall, session_run, session_uploaded}
use put_in_pipe.Session.Refinement.{session_run-refines}

-- A session as `TransferSessionList::create` makes it.
abbrev pub fresh_session : Config → ClientRef → Bytes → Bool → ℕ → Session
fresh_session cfg sender id auto_drop now = init_timers cfg now (new_session sender id auto_drop)

fresh-buffer :
    (cfg : Config) (sender : ClientRef) (id : Bytes) (auto_drop : Bool) (now : ℕ)
    → (fresh_session cfg sender id auto_drop now).buffer ≡ new_buffer
unfolding init_timers new_session
fresh-buffer cfg sender id auto_drop now = refl

get_chunk-result :
    (i : ℕ) (client : ClientRef) (s : Session)
    → (session_get_chunk i (some client) s).2 ≡ (get_chunk i s.buffer).1
unfolding session_get_chunk get_chunk
get_chunk-result i client s = ground arith

add_receiver-joined :
    (cfg : Config) (alive : Bytes → Bool) (client : ClientRef) (s : Session)
    → (add_receiver alive cfg (some client) s).2 ≡ true
    → ((add_new_to_expected_consumers cfg client.public_id s.buffer).1 ≡ true)
      × ((add_receiver alive cfg (some client) s).0.buffer
          ≡ (add_new_to_expected_consumers cfg client.public_id s.buffer).0)
unfolding add_receiver
add_receiver-joined cfg alive client s h = ground arith

module _ (cfg : Config) (sender : ClientRef) (id : Bytes) (auto_drop : Bool) (now : ℕ) where
  -- After any calls on a new session, `getChunk` gives a client either nothing or exactly the data of
  -- the upload, accepted by `addChunk`, that the index counts. (Three times the number of calls is
  -- below 2^64.)
  pub session_delivers :
      (cs : List ((Bytes → Bool) × SessionCall)) (i : ℕ) (client : ClientRef) (d : Bytes)
      → 3 * length cs < u64_mod
      → (session_get_chunk i
          (some client)
          (session_run cfg cs (fresh_session cfg sender id auto_drop now))).2
        ≡ some d
      → get_elem? (session_uploaded cfg cs (fresh_session cfg sender id auto_drop now) []) (i - 1)
        ≡ some d
  session_delivers cs i client d room h =
      let s = fresh_session cfg sender id auto_drop now in
      let (bs, few, by, added) = session_run-refines cfg cs s [] in
      let start = fresh-buffer cfg sender id auto_drop now in
      let by' = by ∙ ap (run cfg bs) start in
      let added' = added ∙ ap (λ (b : Buffer). uploaded cfg bs b []) start in
      let found =
        sym (ap (λ (b : Buffer). (get_chunk i b).1) by')
        ∙ sym (get_chunk-result i client (session_run cfg cs s))
        ∙ h in
      ap (λ (ups : List Bytes). get_elem? ups (i - 1)) added'
      ∙ get_chunk-uploaded cfg bs i d (omega arith) found

  -- A client that `addReceiver` accepts, after any calls on a new session, can then get every chunk
  -- that the session has accepted so far, the first included, unchanged. (Three times the number of
  -- calls, and one, is below 2^64.)
  pub late_receiver_gets_all :
      (cs : List ((Bytes → Bool) × SessionCall)) (alive : Bytes → Bool) (client : ClientRef) (i : ℕ)
      → 3 * length cs + 1 < u64_mod
      → (add_receiver alive cfg
          (some client)
          (session_run cfg cs (fresh_session cfg sender id auto_drop now))).2
        ≡ true
      → 0 < i
      → i ≤ length (session_uploaded cfg cs (fresh_session cfg sender id auto_drop now) [])
      → (d : Bytes) × ((session_get_chunk i
            (some client)
            (add_receiver alive cfg
              (some client)
              (session_run cfg cs (fresh_session cfg sender id auto_drop now))).0).2
          ≡ some d)
        × (get_elem?
              (session_uploaded cfg cs (fresh_session cfg sender id auto_drop now) [])
              (i - 1)
            ≡ some d)
  late_receiver_gets_all cs alive client i room accepted low high =
      let s = fresh_session cfg sender id auto_drop now in
      let s' = session_run cfg cs s in
      let (bs, few, by, added) = session_run-refines cfg cs s [] in
      let start = fresh-buffer cfg sender id auto_drop now in
      let by' = by ∙ ap (run cfg bs) start in
      let added' = added ∙ ap (λ (b : Buffer). uploaded cfg bs b []) start in
      let (joined, then_by) = add_receiver-joined cfg alive client s' accepted in
      let (d, found, same) =
        join_sees_all cfg bs client.public_id i (omega arith)
          (sym (ap (λ (b : Buffer). (add_new_to_expected_consumers cfg client.public_id b).1) by')
            ∙ joined)
          low (subst (λ (ups : List Bytes). i ≤ length ups) added' high) in
      (
        d,
        get_chunk-result i client (add_receiver alive cfg (some client) s').0
            ∙ ap (λ (b : Buffer). (get_chunk i b).1)
                (then_by
                  ∙ ap (λ (b : Buffer). (add_new_to_expected_consumers cfg client.public_id b).0)
                      by')
            ∙ found,
        ap (λ (ups : List Bytes). get_elem? ups (i - 1)) added' ∙ same,
      )
