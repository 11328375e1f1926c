-- ===== src/Tests/Flows.antt =====
-- Flow control and file names at concrete inputs.
use put_in_pipe.Common.{◌≡◌, refl, true, false, [], ◌∷◌, some, codes, bytes_discrete, arith}
use put_in_pipe.Tests.{small, receiver}
use put_in_pipe.AtomicSet
use put_in_pipe.AtomicSet.{contains}
use put_in_pipe.OrderedMap.{find, try_emplace, modify}
use put_in_pipe.Chunk.{new_chunk, increment_uses, how_much_is_left}
use put_in_pipe.TimerCallback.{start, stop}
use put_in_pipe.Buffer.{
  add_chunk, get_chunk, set_chunk_as_received, sanitize, sanitize_loop,
  add_new_to_expected_consumers, set_initial_chunks_freezing_dropped,
}
use put_in_pipe.Session.{FileInfo, new_session, init_timers}
use put_in_pipe.Session.Freeze.{drop_initial_chunks_freeze}
use put_in_pipe.Session.Chunks.{
  session_add_chunk, confirm_chunk, session_set_chunk_as_received, auto_drop_freeze,
}
use put_in_pipe.Session.Receivers.{add_receiver}
use put_in_pipe.Session.Info.{set_file_info, is_forbidden, clean_name}
use put_in_pipe.Session.Flow.{Informed, add_chunk-Informed, drop-Informed, confirm-Informed}
use put_in_pipe.Session.Told.{known, ends}
use put_in_pipe.Session.History.{session_step, session_run}
use put_in_pipe.Tests.Sessions.{fresh, frozen, unfrozen, unfrozen_buffer}

add_chunk-Informed_example :
    Informed small
      (known true (session_add_chunk small (8 ∷ []) fresh).1)
      (session_add_chunk small (8 ∷ []) fresh).0
add_chunk-Informed_example =
    add_chunk-Informed small true (8 ∷ []) fresh (unfold init_timers new_session in omega arith)
      (unfold init_timers new_session in omega arith) (unfold init_timers new_session in refl)

still_going : ends (drop_initial_chunks_freeze small frozen).1 ≡ false
unfolding set_file_info clean_name is_forbidden session_run session_step add_receiver
    session_add_chunk drop_initial_chunks_freeze init_timers new_session
    add_new_to_expected_consumers add_chunk try_emplace new_chunk AtomicSet.add contains start stop
    bytes_discrete set_initial_chunks_freezing_dropped sanitize sanitize_loop how_much_is_left
still_going = refl

two_of_three : Informed small true frozen
unfolding set_file_info clean_name is_forbidden session_run session_step add_receiver
    session_add_chunk drop_initial_chunks_freeze init_timers new_session
    add_new_to_expected_consumers add_chunk try_emplace new_chunk AtomicSet.add contains start stop
    bytes_discrete set_initial_chunks_freezing_dropped sanitize sanitize_loop how_much_is_left
two_of_three = refl

drop-Informed_example :
    Informed small
      (known true (drop_initial_chunks_freeze small frozen).1)
      (drop_initial_chunks_freeze small frozen).0
drop-Informed_example = drop-Informed small true frozen still_going two_of_three

not_over : ends (session_set_chunk_as_received small 1 (some receiver) unfrozen).1 ≡ false
unfolding set_file_info clean_name is_forbidden session_run session_step add_receiver
    session_add_chunk drop_initial_chunks_freeze init_timers new_session
    add_new_to_expected_consumers add_chunk try_emplace new_chunk AtomicSet.add contains start stop
    bytes_discrete set_initial_chunks_freezing_dropped sanitize sanitize_loop how_much_is_left
    session_set_chunk_as_received auto_drop_freeze confirm_chunk get_chunk find
    set_chunk_as_received modify increment_uses
not_over = refl

confirm-Informed_example :
    Informed small
      (known true (session_set_chunk_as_received small 1 (some receiver) unfrozen).1)
      (session_set_chunk_as_received small 1 (some receiver) unfrozen).0
confirm-Informed_example =
    confirm-Informed small true 1 (some receiver) unfrozen not_over (rw unfrozen_buffer refl)

-- A name with a byte that is replaced.
abbrev slashed : FileInfo
slashed = record { name = codes "a/b"; size = 7 }
