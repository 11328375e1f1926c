-- ===== src/Tests/Sessions.antt =====
-- Sessions at concrete inputs.
use put_in_pipe.Common.{
  ◌*◌, ◌≤◌, ◌≡◌, refl, true, false, ◌==◌, ◌++◌, ◌&&◌, ◌||◌, List, [], ◌∷◌, some, length, get_elem?,
  Bytes, bytes_discrete, arith, if◌then◌else◌,
}
use put_in_pipe.Tests.{small, sender, receiver, other, everyone, session_calls, unfrozen_calls}
use put_in_pipe.AtomicSet
use put_in_pipe.AtomicSet.{contains}
use put_in_pipe.OrderedMap.{find, try_emplace}
use put_in_pipe.Chunk.{new_chunk, how_much_is_left}
use put_in_pipe.TimerCallback.{start, stop}
use put_in_pipe.Buffer.{
  remove_one_from_expected_consumers, set_end_of_file, add_chunk, get_chunk, sanitize,
  sanitize_loop, add_new_to_expected_consumers, set_initial_chunks_freezing_dropped,
}
use put_in_pipe.Buffer.History.{Call, run, uploaded}
use put_in_pipe.Session.{Session, new_session, init_timers, ok, no_receivers}
use put_in_pipe.Session.Freeze.{drop_initial_chunks_freeze, session_set_end_of_file}
use put_in_pipe.Session.Chunks.{session_add_chunk, session_get_chunk, session_set_chunk_as_received}
use put_in_pipe.Session.Receivers.{
  add_receiver, remove_receiver, erase_receiver, end_without_receivers,
}
use put_in_pipe.Session.Info.{set_file_info, is_forbidden, clean_name}
use put_in_pipe.Session.Told.{ends}
use put_in_pipe.Session.History.{
  session_step, session_run, session_uploads, session_uploaded, removes_receiver, drops_freeze,
  ends_file,
}
use put_in_pipe.Session.Refinement.{session_run-refines}
use put_in_pipe.Session.Members.{session_step-AllExpected}
use put_in_pipe.Session.Expected.{AllExpected}
use put_in_pipe.Session.Ending.{is_complete, is_there}
use put_in_pipe.Session.Confirming.{confirmation_ends, drops, idle_after_drop, chunks_then}
use put_in_pipe.Session.Leaving.{
  remove_receiver-ends, nobody_else, is_underway, only_expected, left_chunks,
}
use put_in_pipe.Session.Delivery.{fresh_session, session_delivers, late_receiver_gets_all}

abbrev pub fresh : Session
fresh = fresh_session small sender (11 ∷ []) false 0

-- A session in the initial freeze with one receiver and two chunks.
abbrev pub frozen : Session
frozen = session_run small session_calls fresh

-- A session after the freeze with two receivers and one chunk.
abbrev pub unfrozen : Session
unfrozen = session_run small unfrozen_calls fresh

first_chunk : (session_get_chunk 1 (some receiver) frozen).2 ≡ some (5 ∷ 6 ∷ [])
unfolding set_file_info clean_name is_forbidden session_run session_step add_receiver
    session_add_chunk session_get_chunk get_chunk find init_timers new_session
    add_new_to_expected_consumers add_chunk try_emplace new_chunk AtomicSet.add contains start
first_chunk = refl

session_delivers_example :
    get_elem? (session_uploaded small session_calls fresh []) 0 ≡ some (5 ∷ 6 ∷ [])
session_delivers_example =
    session_delivers small sender (11 ∷ []) false 0 session_calls 1 receiver (5 ∷ 6 ∷ [])
      (omega arith) first_chunk

other_joins : (add_receiver everyone small (some other) frozen).2 ≡ true
unfolding set_file_info clean_name is_forbidden session_run session_step add_receiver
    session_add_chunk init_timers new_session add_new_to_expected_consumers add_chunk try_emplace
    new_chunk AtomicSet.add contains start bytes_discrete
other_joins = refl

both_uploaded : session_uploaded small session_calls fresh [] ≡ (5 ∷ 6 ∷ []) ∷ (7 ∷ []) ∷ []
unfolding set_file_info clean_name is_forbidden session_uploaded session_uploads session_run
    session_step add_receiver session_add_chunk init_timers new_session
    add_new_to_expected_consumers add_chunk try_emplace new_chunk AtomicSet.add contains start
    bytes_discrete
both_uploaded = refl

late_receiver_gets_all_example :
    (d : Bytes) × ((session_get_chunk 2
        (some other)
        (add_receiver everyone small (some other) frozen).0).2
      ≡ some d)
    × (get_elem? (session_uploaded small session_calls fresh []) 1 ≡ some d)
late_receiver_gets_all_example =
    late_receiver_gets_all small sender (11 ∷ []) false 0 session_calls everyone other 2
      (omega arith) other_joins (omega arith) (rw both_uploaded (omega arith))

session_run-refines_example :
    (bs : List Call) × (length bs ≤ 3 * 4)
    × (frozen.buffer ≡ run small bs fresh.buffer)
    × (session_uploaded small session_calls fresh [] ≡ uploaded small bs fresh.buffer [])
session_run-refines_example = session_run-refines small session_calls fresh []

pub unfrozen_buffer : unfrozen.buffer ≡ record {
  expected_consumers = record { elements = (13 ∷ []) ∷ (12 ∷ []) ∷ [] };
  chunks = (1, record { bytes = 5 ∷ 6 ∷ []; uses = 0 }) ∷ [];
  chunks_max_index = 1;
  bytes_in_total = 2;
  bytes_out_total = 0;
  some_chunk_was_removed = false;
  end_of_file = false;
  initial_chunks_freezing = false;
}
unfolding set_file_info clean_name is_forbidden session_run session_step add_receiver
    session_add_chunk drop_initial_chunks_freeze init_timers new_session
    add_new_to_expected_consumers add_chunk try_emplace new_chunk AtomicSet.add contains start stop
    bytes_discrete set_initial_chunks_freezing_dropped sanitize sanitize_loop how_much_is_left
unfrozen_buffer = refl

unfrozen_receivers : unfrozen.data_receivers ≡ receiver ∷ other ∷ []
unfolding set_file_info clean_name is_forbidden session_run session_step add_receiver
    session_add_chunk drop_initial_chunks_freeze init_timers new_session
    add_new_to_expected_consumers add_chunk try_emplace new_chunk AtomicSet.add contains start stop
    bytes_discrete set_initial_chunks_freezing_dropped sanitize sanitize_loop how_much_is_left
unfrozen_receivers = refl

unfrozen-AllExpected : AllExpected unfrozen
unfrozen-AllExpected =
    rw (unfrozen_receivers, unfrozen_buffer) (unfold contains bytes_discrete in (refl, (refl, tt)))

session_step-AllExpected_example :
    AllExpected (session_step small everyone (removes_receiver (12 ∷ [])) unfrozen).0
session_step-AllExpected_example =
    session_step-AllExpected small everyone (removes_receiver (12 ∷ [])) unfrozen
      unfrozen-AllExpected

confirmation_ends_example :
    ends (session_set_chunk_as_received small 1 (some receiver) unfrozen).1 ≡ (
      (drops unfrozen && idle_after_drop unfrozen)
      || (is_there (find 1 (chunks_then unfrozen))
          && is_complete (session_set_chunk_as_received small 1 (some receiver) unfrozen).0.buffer))
confirmation_ends_example = confirmation_ends small 1 receiver unfrozen

-- A session after the freeze and past the end of the file, with one receiver that has confirmed
-- nothing.
abbrev abandoned : Session
abandoned =
    session_run small (session_calls ++ (everyone, drops_freeze) ∷ (everyone, ends_file) ∷ []) fresh

remove_receiver-ends_example :
    (ends (remove_receiver everyone (12 ∷ []) abandoned).1 ≡ (
      nobody_else everyone (12 ∷ []) abandoned.data_receivers
      && (abandoned.auto_drop_freeze_on_first_chunk || is_underway abandoned.buffer)))
    × ((remove_receiver everyone (12 ∷ []) abandoned).0.complete_type ≡ (
        if nobody_else everyone (12 ∷ []) abandoned.data_receivers
          && (abandoned.auto_drop_freeze_on_first_chunk || is_underway abandoned.buffer)
        then if abandoned.auto_drop_freeze_on_first_chunk
            || (abandoned.buffer.end_of_file
                && (only_expected (12 ∷ []) abandoned.buffer
                    || length (left_chunks (12 ∷ []) abandoned.buffer) == 0))
          then ok
          else no_receivers
        else abandoned.complete_type))
remove_receiver-ends_example = remove_receiver-ends everyone (12 ∷ []) abandoned

-- It ends with `ok` although two chunks were never delivered.
undelivered_ok :
    (length abandoned.buffer.chunks ≡ 2)
    × ((remove_receiver everyone (12 ∷ []) abandoned).0.complete_type ≡ ok)
unfolding set_file_info clean_name is_forbidden session_run session_step add_receiver
    session_add_chunk drop_initial_chunks_freeze init_timers new_session
    add_new_to_expected_consumers add_chunk try_emplace new_chunk AtomicSet.add contains start stop
    bytes_discrete set_initial_chunks_freezing_dropped sanitize sanitize_loop how_much_is_left
    session_set_end_of_file set_end_of_file remove_receiver erase_receiver end_without_receivers
    remove_one_from_expected_consumers AtomicSet.remove AtomicSet.erase
undelivered_ok = (refl, refl)
