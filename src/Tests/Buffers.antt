-- ===== src/Tests/Buffers.antt =====
-- Buffers at concrete inputs.
use put_in_pipe.Common.{
  ◌+◌, ◌*◌, ◌≤◌, ◌≡◌, ◌⊎◌, refl, u64, true, false, ◌||◌, [], ◌∷◌, ◌++◌, some, length, keep, any,
  bytes_discrete, arith, if◌then◌else◌, ◌<◌, List,
}
use put_in_pipe.Tests.{small, two_uploads, half_confirmed}
use put_in_pipe.AtomicSet
use put_in_pipe.OrderedMap.{find, try_emplace, modify}
use put_in_pipe.Chunk.{Chunk, new_chunk, increment_uses, how_much_is_left}
use put_in_pipe.Buffer.{
  remove_one_from_expected_consumers, Buffer, new_buffer, add_chunk, get_chunk,
  set_chunk_as_received, sanitize, sanitize_loop, add_new_to_expected_consumers,
  set_initial_chunks_freezing_dropped, expected_consumer_count,
}
use put_in_pipe.Buffer.Sanitize.{sanitize_exact, is_live, is_spent, indices}
use put_in_pipe.Buffer.Adding.{add_chunk_cases, Refused, Accepted, with_chunk}
use put_in_pipe.Buffer.History.{
  Call, step, uploads, run, uploaded, adds, joins, leaves, unfreezes, confirms,
}
use put_in_pipe.Buffer.Stored.{total}
use put_in_pipe.Buffer.Delivery.{run_bounds, reached-Stored, held}
use put_in_pipe.Buffer.Counters.{run_counters}
use put_in_pipe.Buffer.Confirm.{confirm_lem, survivor}

second_upload : (get_chunk 2 (run small two_uploads new_buffer)).1 ≡ some (7 ∷ [])
unfolding get_chunk run step add_new_to_expected_consumers add_chunk try_emplace new_chunk
    AtomicSet.add AtomicSet.contains find
second_upload = refl

late_join :
    (add_new_to_expected_consumers small (13 ∷ []) (run small two_uploads new_buffer)).1 ≡ true
unfolding run step add_new_to_expected_consumers add_chunk try_emplace new_chunk AtomicSet.add
    AtomicSet.contains bytes_discrete
late_join = refl

two_uploaded : uploaded small two_uploads new_buffer [] ≡ (5 ∷ 6 ∷ []) ∷ (7 ∷ []) ∷ []
unfolding uploaded uploads step add_new_to_expected_consumers add_chunk try_emplace new_chunk
    AtomicSet.add AtomicSet.contains
two_uploaded = refl

run_bounds_example :
    (length (run small two_uploads new_buffer).chunks ≤ 3)
    × (held (run small two_uploads new_buffer).chunks ≤ 3 * 4)
    × ((run small two_uploads new_buffer).bytes_in_total
        ≡ u64 (total (uploaded small two_uploads new_buffer [])))
run_bounds_example = run_bounds small two_uploads (omega arith)

sanitize_exact_example : sanitize (run small half_confirmed new_buffer) [] ≡ (
    if (run small half_confirmed new_buffer).initial_chunks_freezing
    then (run small half_confirmed new_buffer, [])
    else (
      record (run small half_confirmed new_buffer) {
        chunks =
            keep
              (is_live (expected_consumer_count (run small half_confirmed new_buffer)))
              (run small half_confirmed new_buffer).chunks;
        some_chunk_was_removed =
            (run small half_confirmed new_buffer).some_chunk_was_removed
            || any
                (is_spent (expected_consumer_count (run small half_confirmed new_buffer)))
                (run small half_confirmed new_buffer).chunks;
      },
      []
          ++ indices (
              keep
                (is_spent (expected_consumer_count (run small half_confirmed new_buffer)))
                (run small half_confirmed new_buffer).chunks),
    ))
sanitize_exact_example = sanitize_exact (run small half_confirmed new_buffer) []

two_index : (run small two_uploads new_buffer).chunks_max_index ≡ 2
unfolding run step add_new_to_expected_consumers add_chunk try_emplace new_chunk AtomicSet.add
    AtomicSet.contains
two_index = refl

add_chunk_cases_example :
    (Refused small (9 ∷ []) (run small two_uploads new_buffer)
      × (add_chunk small (9 ∷ []) (run small two_uploads new_buffer)
          ≡ (run small two_uploads new_buffer, 0)))
    ⊎ (Accepted small (9 ∷ []) (run small two_uploads new_buffer)
        × (add_chunk small (9 ∷ []) (run small two_uploads new_buffer) ≡ (
          with_chunk (9 ∷ []) (run small two_uploads new_buffer),
          (run small two_uploads new_buffer).chunks_max_index + 1,
        )))
add_chunk_cases_example =
    add_chunk_cases small (9 ∷ []) (run small two_uploads new_buffer)
      (reached-Stored small two_uploads (omega arith)).ordered (rw two_index (omega arith))

abbrev confirmed_by_both : List Call
confirmed_by_both =
    joins (12 ∷ [])
    ∷ joins (13 ∷ [])
    ∷ adds (5 ∷ 6 ∷ [])
    ∷ confirms 1
    ∷ leaves (12 ∷ [])
    ∷ confirms 1
    ∷ joins (12 ∷ [])
    ∷ unfreezes
    ∷ []

abbrev first_chunk : Chunk
first_chunk = record { bytes = 5 ∷ 6 ∷ []; uses = 1 }

confirmed_once :
    find 1 (run small half_confirmed new_buffer).chunks
    ≡ some (record { bytes = 5 ∷ 6 ∷ []; uses = 1 })
unfolding run step add_new_to_expected_consumers add_chunk try_emplace new_chunk AtomicSet.add
    AtomicSet.contains find set_initial_chunks_freezing_dropped set_chunk_as_received sanitize
    sanitize_loop increment_uses how_much_is_left modify bytes_discrete
confirmed_once = refl

thawed : (run small half_confirmed new_buffer).initial_chunks_freezing ≡ false
unfolding run step add_new_to_expected_consumers add_chunk try_emplace new_chunk AtomicSet.add
    AtomicSet.contains find set_initial_chunks_freezing_dropped set_chunk_as_received sanitize
    sanitize_loop increment_uses how_much_is_left modify bytes_discrete
thawed = refl

two_expected :
    (run small half_confirmed new_buffer).expected_consumers.elements ≡ (13 ∷ []) ∷ (12 ∷ []) ∷ []
unfolding run step add_new_to_expected_consumers add_chunk try_emplace new_chunk AtomicSet.add
    AtomicSet.contains find set_initial_chunks_freezing_dropped set_chunk_as_received sanitize
    sanitize_loop increment_uses how_much_is_left modify bytes_discrete
two_expected = refl

abbrev halfway : Buffer
halfway = run small half_confirmed new_buffer

confirm_lem_example :
    ((set_chunk_as_received 1 halfway []).2 ≡ true)
    × (find 1 (set_chunk_as_received 1 halfway []).0.chunks
        ≡ survivor
            (expected_consumer_count halfway)
            halfway.initial_chunks_freezing
            1
            1
            (find 1 halfway.chunks))
confirm_lem_example =
    confirm_lem small (uploaded small half_confirmed new_buffer []) halfway [] 1 1 first_chunk
      (reached-Stored small half_confirmed (omega arith)) (rw two_expected (omega arith))
      confirmed_once

run_counters_example : (first_chunk.uses ≡ 0) ⊎ (first_chunk.uses < expected_consumer_count halfway)
run_counters_example =
    run_counters small half_confirmed 1 first_chunk (omega arith) thawed confirmed_once

-- Both expected consumers have confirmed the chunk, and it stays after the freeze: the first one left
-- before the second confirmed, so that the counter did not grow, and came back.
stays_confirmed : find 1 (run small confirmed_by_both new_buffer).chunks ≡ some first_chunk
unfolding run step add_new_to_expected_consumers add_chunk try_emplace new_chunk AtomicSet.add
    AtomicSet.contains find set_initial_chunks_freezing_dropped set_chunk_as_received sanitize
    sanitize_loop increment_uses how_much_is_left modify bytes_discrete AtomicSet.remove
    AtomicSet.erase remove_one_from_expected_consumers
stays_confirmed = refl
