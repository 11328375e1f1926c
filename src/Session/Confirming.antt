-- ===== src/Session/Confirming.antt =====
-- transfersession.cpp: when `setChunkAsReceived` ends the session.
use put_in_pipe.Common.{
  ℕ, ◌≡◌, ◌==◌, Bool, true, false, not, ◌&&◌, ◌||◌, List, [], ◌∷◌, some, length, is_empty, keep,
  if◌then◌else◌, arith,
}
use put_in_pipe.Config.{Config}
use put_in_pipe.Chunk.{Chunk}
use put_in_pipe.OrderedMap.{find}
use put_in_pipe.Buffer.{
  Buffer, set_initial_chunks_freezing_dropped, expected_consumer_count, new_chunk_is_allowed,
}
use put_in_pipe.Buffer.Sanitize.{sanitize_exact, is_live}
use put_in_pipe.Session.{Session, ClientRef, notifies_sender, notifies, chunks_are_unfrozen}
use put_in_pipe.Session.Freeze.{drop_initial_chunks_freeze, tell_removed, remove_if_complete}
use put_in_pipe.Session.Chunks.{auto_drop_freeze, confirm_chunk, session_set_chunk_as_received}
use put_in_pipe.Session.Ending.{
  is_complete, is_there, confirm_chunk-ends, remove_if_complete-ends, tell_removed-ends,
}
use put_in_pipe.Session.Told.{ends, ends-append}

-- Whether a confirmation ends the freeze by itself.
abbrev pub drops : Session → Bool
drops s =
    s.auto_drop_freeze_on_first_chunk
    && (s.buffer.initial_chunks_freezing && not s.auto_drop_freeze_fired)

-- The chunks when the confirmation reaches the buffer.
abbrev pub chunks_then : Session → List (ℕ × Chunk)
chunks_then s =
    if drops s
    then keep (is_live (expected_consumer_count s.buffer)) s.buffer.chunks
    else s.buffer.chunks

-- Whether the end of the freeze finds nobody to send to, no file, or nothing left to send.
abbrev pub idle_after_drop : Session → Bool
idle_after_drop s =
    is_empty s.data_receivers
    || (is_empty s.file_info.name
        || (length (keep (is_live (expected_consumer_count s.buffer)) s.buffer.chunks) == 0
            && s.buffer.end_of_file))

unfrozen_lem :
    (b : Buffer)
    → b.initial_chunks_freezing ≡ true
    → ((set_initial_chunks_freezing_dropped b []).0.chunks
        ≡ keep (is_live (expected_consumer_count b)) b.chunks)
      × ((set_initial_chunks_freezing_dropped b []).0.end_of_file ≡ b.end_of_file)
      × ((set_initial_chunks_freezing_dropped b []).2 ≡ true)
unfolding set_initial_chunks_freezing_dropped
unfrozen_lem b frozen =
    ground (arith, sanitize_exact (record b { initial_chunks_freezing = false }) [])

drop-ends :
    (cfg : Config) (s : Session)
    → s.buffer.initial_chunks_freezing ≡ true
    → (ends (drop_initial_chunks_freeze cfg s).1 ≡ idle_after_drop s)
      × ((drop_initial_chunks_freeze cfg s).0.buffer.chunks
          ≡ keep (is_live (expected_consumer_count s.buffer)) s.buffer.chunks)
unfolding drop_initial_chunks_freeze
drop-ends cfg s frozen =
    let r = set_initial_chunks_freezing_dropped s.buffer [] in
    ground (
      arith,
      unfrozen_lem s.buffer frozen,
      ends-append (tell_removed r.1) (
          notifies_sender (new_chunk_is_allowed cfg r.0)
          ∷ notifies chunks_are_unfrozen
          ∷ remove_if_complete r.0),
      tell_removed-ends r.1,
      remove_if_complete-ends r.0,
    )

auto_drop-ends :
    (cfg : Config) (s : Session)
    → (ends (auto_drop_freeze cfg s).1 ≡ (drops s && idle_after_drop s))
      × ((auto_drop_freeze cfg s).0.buffer.chunks ≡ chunks_then s)
unfolding auto_drop_freeze
auto_drop-ends cfg s = ground (arith, drop-ends cfg (record s { auto_drop_freeze_fired = true }))

-- The confirmation of a chunk by a client ends the session exactly in two cases. It is the first one
-- of a session in auto-drop mode that is still frozen, and the end of the freeze finds no receiver, no
-- file, or no chunk left past the end of the file, whether the confirmed chunk is there or not. Or the
-- chunk is in the buffer when the confirmation reaches it, where the end of the freeze, if this was
-- the one, has removed each chunk whose counter had reached the number of expected consumers, and
-- after the confirmation the buffer is empty and the file at its end.
pub confirmation_ends :
    (cfg : Config) (index : ℕ) (client : ClientRef) (s : Session)
    → ends (session_set_chunk_as_received cfg index (some client) s).1 ≡ (
        (drops s && idle_after_drop s)
        || (is_there (find index (chunks_then s))
            && is_complete (session_set_chunk_as_received cfg index (some client) s).0.buffer))
unfolding session_set_chunk_as_received
confirmation_ends cfg index client s =
    let s' = (auto_drop_freeze cfg s).0 in
    let told = (auto_drop_freeze cfg s).1 in
    let more = (confirm_chunk cfg index client s').1 in
    ground
      (arith, ends-append told more, auto_drop-ends cfg s, confirm_chunk-ends cfg index client s')
