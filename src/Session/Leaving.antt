-- ===== src/Session/Leaving.antt =====
-- transfersession.cpp: when `removeReceiver` ends the session, and with which result.
use put_in_pipe.Common.{
  ℕ, ◌-◌, ◌≡◌, refl, ◌==◌, Bool, true, not, ◌&&◌, ◌||◌, List, [], ◌∷◌, ◌++◌, Option, none, some,
  length, is_empty, any, keep, if◌then◌else◌, Bytes, bytes_discrete, arith, Bool-cases, inl, inr,
}
use put_in_pipe.AtomicSet
use put_in_pipe.AtomicSet.{contains}
use put_in_pipe.AtomicSet.Laws.{length-erase}
use put_in_pipe.Chunk.{Chunk}
use put_in_pipe.Buffer.{Buffer, remove_one_from_expected_consumers, expected_consumer_count}
use put_in_pipe.Buffer.Sanitize.{sanitize_exact, is_live}
use put_in_pipe.Session.{
  Session, ClientRef, Effect, ok, no_receivers, notifies, receiver_removed, kicks,
}
use put_in_pipe.Session.Freeze.{tell_removed}
use put_in_pipe.Session.Receivers.{remove_receiver, erase_receiver, end_without_receivers, text_eq}
use put_in_pipe.Session.Ending.{tell_removed-ends}
use put_in_pipe.Session.Told.{ends, ends-append}

-- No other receiver of the session exists.
abbrev pub nobody_else : (Bytes → Bool) → Bytes → List ClientRef → Bool
nobody_else alive public_id rs =
    not (any (λ c. alive c.id && not (text_eq c.public_id public_id)) rs)

-- The chunks that are left when the expected consumer has left: after the freeze those whose counter
-- is below the number of the other expected consumers, so none if there is no other.
abbrev pub left_chunks : Bytes → Buffer → List (ℕ × Chunk)
left_chunks public_id b =
    if not b.initial_chunks_freezing
      && contains bytes_discrete public_id b.expected_consumers.elements
    then keep (is_live (expected_consumer_count b - 1)) b.chunks
    else b.chunks

-- Whether the session can no longer take in a receiver.
abbrev pub is_underway : Buffer → Bool
is_underway b = b.some_chunk_was_removed || not b.initial_chunks_freezing

-- After the freeze, and nobody else is expected to read the chunks.
abbrev pub only_expected : Bytes → Buffer → Bool
only_expected public_id b =
    not b.initial_chunks_freezing
    && (contains bytes_discrete public_id b.expected_consumers.elements
        && expected_consumer_count b == 1)

none_live : (m : List (ℕ × Chunk)) → keep (is_live 0) m ≡ []
none_live [] = refl
none_live ((i, c) ∷ m) = ground (arith, none_live m)

only_expected-left :
    (public_id : Bytes) (b : Buffer)
    → only_expected public_id b ≡ true
    → length (left_chunks public_id b) ≡ 0
only_expected-left public_id b h =
    let one : expected_consumer_count b - 1 ≡ 0 = ground arith in
    let gone : keep (is_live (expected_consumer_count b - 1)) b.chunks ≡ [] =
      rw one (none_live b.chunks) in
    ground (arith, gone)

erase_receiver-empty :
    (alive : Bytes → Bool) (public_id : Bytes) (rs : List ClientRef) (last : Option ClientRef)
    → is_empty (erase_receiver alive public_id rs last).0 ≡ nobody_else alive public_id rs
unfolding erase_receiver
erase_receiver-empty alive public_id [] last = refl
erase_receiver-empty alive public_id (c ∷ cs) last = ground (
  arith,
  erase_receiver-empty alive public_id cs last,
  erase_receiver-empty alive public_id cs (some c),
)

leave-chunks :
    (public_id : Bytes) (b : Buffer)
    → ((remove_one_from_expected_consumers public_id b []).0.chunks ≡ left_chunks public_id b)
      × ((remove_one_from_expected_consumers public_id b []).0.end_of_file ≡ b.end_of_file)
      × (is_underway (remove_one_from_expected_consumers public_id b []).0 ≡ is_underway b)
unfolding remove_one_from_expected_consumers AtomicSet.remove
leave-chunks public_id b =
    let rest : Buffer = record b {
      expected_consumers = record {
        elements = AtomicSet.erase bytes_discrete public_id b.expected_consumers.elements;
      };
    } in
    elim (Bool-cases (contains bytes_discrete public_id b.expected_consumers.elements)) [
      | inl there ↦
          let fewer = length-erase bytes_discrete public_id b.expected_consumers.elements there in
          let count : expected_consumer_count rest ≡ expected_consumer_count b - 1 =
            omega (arith, fewer) in
          rw there (ground (arith, rw count at (sanitize_exact rest [])))
      | inr absent ↦ ground (arith, absent)
    ]

kicked-ends :
    (client : Option ClientRef) (es : List Effect)
    → ends (elim client [ none ↦ [] | some c ↦ kicks c ∷ [] ] ++ es) ≡ ends es
kicked-ends none es = refl
kicked-ends (some c) es = refl

-- Removing a receiver ends the session exactly if no other receiver exists, and the session is in
-- auto-drop mode, has lost a chunk, or is past the freeze. The result is then `ok` in auto-drop mode. It
-- is also `ok` past the end of the file, if the removal leaves no chunk in the buffer; past the freeze
-- this is always so where the removed one was the only expected consumer, whether or not it had
-- confirmed the chunks. Otherwise the result is `no_receivers`. If the session does not end, its result
-- stays as it was.
pub remove_receiver-ends :
    (alive : Bytes → Bool) (public_id : Bytes) (s : Session)
    → (ends (remove_receiver alive public_id s).1 ≡ (
        nobody_else alive public_id s.data_receivers
        && (s.auto_drop_freeze_on_first_chunk || is_underway s.buffer)))
      × ((remove_receiver alive public_id s).0.complete_type ≡ (
          if nobody_else alive public_id s.data_receivers
            && (s.auto_drop_freeze_on_first_chunk || is_underway s.buffer)
          then if s.auto_drop_freeze_on_first_chunk
              || (s.buffer.end_of_file
                  && (only_expected public_id s.buffer
                      || length (left_chunks public_id s.buffer) == 0))
            then ok
            else no_receivers
          else s.complete_type))
unfolding remove_receiver end_without_receivers
remove_receiver-ends alive public_id s =
    let e = erase_receiver alive public_id s.data_receivers none in
    let r = remove_one_from_expected_consumers public_id s.buffer [] in
    let left : Session = record s { data_receivers = e.0; buffer = r.0 } in
    let ending = if is_empty e.0 then (end_without_receivers alive left).1 else [] in
    let told = notifies (receiver_removed public_id) ∷ ending in
    let kicked : List Effect = elim e.1 [ none ↦ [] | some c ↦ kicks c ∷ [] ] in
    ground (
      arith,
      erase_receiver-empty alive public_id s.data_receivers none,
      leave-chunks public_id s.buffer,
      only_expected-left public_id s.buffer,
      ends-append (tell_removed r.1) (kicked ++ told),
      tell_removed-ends r.1,
      kicked-ends e.1 told,
    )
