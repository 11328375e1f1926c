-- ===== src/Session/Freeze.antt =====
-- transfersession.cpp: `dropInitialChunksFreeze` and `setEndOfFile`.
use put_in_pipe.Common.{ℕ, ◌==◌, not, ◌&&◌, List, [], ◌∷◌, ◌++◌, is_empty, if◌then◌else◌}
use put_in_pipe.Config.{Config}
use put_in_pipe.Buffer.{
  Buffer, set_initial_chunks_freezing_dropped, set_end_of_file, new_chunk_is_allowed, chunk_count,
}
use put_in_pipe.Session.{
  Session, Effect, notifies, notifies_sender, removes_session, chunks_was_removed,
  chunks_are_unfrozen, file_upload_finished, sender_is_gone, no_receivers,
}

-- `notifySubscribers(chunksWasRemoved, removedChunks)` where the list is not empty.
abbrev pub tell_removed : List ℕ → List Effect
tell_removed removed = if is_empty removed then [] else notifies (chunks_was_removed removed) ∷ []

-- `TransferSessionList::remove` where the buffer is empty after the end of the file.
abbrev pub remove_if_complete : Buffer → List Effect
remove_if_complete b = if chunk_count b == 0 && b.end_of_file then removes_session ∷ [] else []

unfoldable pub drop_initial_chunks_freeze : Config → Session → Session × List Effect
drop_initial_chunks_freeze cfg s =
    let (b, removed, dropped) = set_initial_chunks_freezing_dropped s.buffer [] in
    if not dropped
    then (record s { buffer = b }, [])
    else if is_empty s.data_receivers
    then (record s { buffer = b; complete_type = no_receivers }, removes_session ∷ [])
    else if is_empty s.file_info.name
    then (record s { buffer = b; complete_type = sender_is_gone }, removes_session ∷ [])
    else (
      record s { buffer = b },
      tell_removed removed
          ++ notifies_sender (new_chunk_is_allowed cfg b)
            ∷ notifies chunks_are_unfrozen
            ∷ remove_if_complete b,
    )

unfoldable pub session_set_end_of_file : Session → Session × List Effect
session_set_end_of_file s =
    if s.buffer.end_of_file
    then (s, [])
    else let b = set_end_of_file s.buffer in
      (
        record s { buffer = b },
        notifies file_upload_finished ∷ (if chunk_count b == 0 then removes_session ∷ [] else []),
      )
