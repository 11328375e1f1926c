-- ===== src/Tests/Completions.antt =====
-- The end of a transfer at a concrete input: the second of two receivers confirms the only chunk.
use put_in_pipe.Common.{ℕ, List, ◌≡◌, refl, true, false, [], ◌∷◌, bytes_discrete, arith}
use put_in_pipe.Tests.{small, sender, receiver, other}
use put_in_pipe.AtomicSet
use put_in_pipe.OrderedMap.{find, try_emplace, modify}
use put_in_pipe.Chunk.{new_chunk, increment_uses, how_much_is_left}
use put_in_pipe.Buffer.{
  Buffer, new_buffer, add_chunk, set_chunk_as_received, sanitize, sanitize_loop,
  add_new_to_expected_consumers, set_end_of_file, set_initial_chunks_freezing_dropped, chunk_count,
}
use put_in_pipe.Buffer.History.{Call, step, run, uploaded, confirms, ends, adds, joins, unfreezes}
use put_in_pipe.Buffer.Delivery.{reached-Stored}
use put_in_pipe.Session.{Session, ClientRef}
use put_in_pipe.Session.Delivery.{fresh_session}
use put_in_pipe.Session.Told
use put_in_pipe.Session.Completion.{confirm_all, confirmed_all_ends}

abbrev calls : List Call
calls = joins (12 ∷ []) ∷ joins (13 ∷ []) ∷ adds (5 ∷ 6 ∷ []) ∷ unfreezes ∷ confirms 1 ∷ ends ∷ []

abbrev waiting_buffer : Buffer
waiting_buffer = run small calls new_buffer

abbrev waiting : Session
waiting = record (fresh_session small sender (11 ∷ []) false 0) { buffer = waiting_buffer }

-- The download of a chunk that is gone, and of the one that is there.
abbrev confirmations : List (ℕ × ClientRef)
confirmations = (2, receiver) ∷ (1, other) ∷ []

buffer_lem : waiting_buffer ≡ (record {
  expected_consumers = record { elements = (13 ∷ []) ∷ (12 ∷ []) ∷ [] };
  chunks = (1, record { bytes = 5 ∷ 6 ∷ []; uses = 1 }) ∷ [];
  chunks_max_index = 1;
  bytes_in_total = 2;
  bytes_out_total = 0;
  some_chunk_was_removed = false;
  end_of_file = true;
  initial_chunks_freezing = false;
})
unfolding run step add_new_to_expected_consumers add_chunk try_emplace new_chunk AtomicSet.add
    AtomicSet.contains find set_initial_chunks_freezing_dropped set_chunk_as_received sanitize
    sanitize_loop increment_uses how_much_is_left modify bytes_discrete set_end_of_file
buffer_lem = refl

confirmed_all_ends_example :
    (chunk_count (confirm_all small confirmations waiting).0.buffer ≡ 0)
    × (Told.ends (confirm_all small confirmations waiting).1 ≡ true)
confirmed_all_ends_example =
    confirmed_all_ends small (uploaded small calls new_buffer []) confirmations waiting
      (reached-Stored small calls (omega arith)) (rw buffer_lem (λ _. (omega arith, tt)))
      (rw buffer_lem refl) (rw buffer_lem refl) (rw buffer_lem (omega arith))
      (rw buffer_lem (omega arith)) (rw buffer_lem (omega arith)) (rw buffer_lem (omega arith, tt))
