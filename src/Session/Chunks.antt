-- ===== src/Session/Chunks.antt =====
-- transfersession.cpp: `addChunk`, `getChunk` and `setChunkAsReceived`.
use put_in_pipe.Common.{
  ℕ, ◌==◌, same, Bool, true, false, not, ◌&&◌, List, [], ◌∷◌, ◌++◌, Option, none, some, length,
  if◌then◌else◌, Bytes,
}
use put_in_pipe.Config.{Config}
use put_in_pipe.Buffer.{Buffer, add_chunk, get_chunk, set_chunk_as_received, new_chunk_is_allowed}
use put_in_pipe.Session.{
  Session, ClientRef, Effect, notifies, notifies_sender, increments_received,
  chunk_download_started, chunk_download_finished, new_chunk_is_available, bytes_in_updated,
  bytes_out_updated,
}
use put_in_pipe.Session.Freeze.{drop_initial_chunks_freeze, tell_removed, remove_if_complete}

-- The notification of the sender where the answer of `newChunkIsAllowed` changed.
abbrev pub tell_allowed : Bool → Bool → List Effect
tell_allowed old_allowed new_allowed =
    if same old_allowed new_allowed then [] else notifies_sender new_allowed ∷ []

unfoldable pub session_add_chunk : Config → Bytes → Session → Session × List Effect × Bool
session_add_chunk cfg binary_data s =
    let old_allowed = new_chunk_is_allowed cfg s.buffer in
    let (b, new_index) = add_chunk cfg binary_data s.buffer in
    if new_index == 0 then (record s { buffer = b }, [], false) else (
      record s { buffer = b },
      notifies (new_chunk_is_available new_index (length binary_data))
            ∷ tell_allowed old_allowed (new_chunk_is_allowed cfg b)
          ++ notifies (bytes_in_updated b.bytes_in_total) ∷ [],
      true,
    )

-- `none` for the client is the null pointer.
unfoldable pub session_get_chunk :
    ℕ → Option ClientRef → Session → Session × List Effect × Option Bytes
session_get_chunk index none s = (s, [], none)
session_get_chunk index (some client) s =
    let (b, found) = get_chunk index s.buffer in
    elim found [
      | none ↦ (record s { buffer = b }, [], none)
      | some bytes ↦ (
        record s { buffer = b },
        notifies (chunk_download_started client.public_id index) ∷ [],
        some bytes,
      )
    ]

-- The automatic end of the freeze; the flag lets only one confirmation through.
unfoldable pub auto_drop_freeze : Config → Session → Session × List Effect
auto_drop_freeze cfg s =
    if s.auto_drop_freeze_on_first_chunk && s.buffer.initial_chunks_freezing
    then if s.auto_drop_freeze_fired
      then (s, [])
      else drop_initial_chunks_freeze cfg (record s { auto_drop_freeze_fired = true })
    else (s, [])

-- What is reported after a confirmation that found its chunk.
abbrev pub report_confirmed : Config → Bool → Buffer → List ℕ → ClientRef → ℕ → List Effect
report_confirmed cfg old_allowed b removed client index =
    tell_removed removed
    ++ (tell_allowed old_allowed (new_chunk_is_allowed cfg b)
        ++ notifies (bytes_out_updated b.bytes_out_total)
          ∷ notifies (chunk_download_finished client.public_id index)
          ∷ remove_if_complete b)

-- The rest of `setChunkAsReceived`, after the automatic end of the freeze. Reading the chunk's size
-- goes through `operator[]`, which counts its bytes as sent.
unfoldable pub confirm_chunk : Config → ℕ → ClientRef → Session → Session × List Effect
confirm_chunk cfg index client s =
    let (read, chunk) = get_chunk index s.buffer in
    let counted : List Effect = elim chunk [
      | none ↦ []
      | some bytes ↦ increments_received client (length bytes) ∷ []
    ] in
    let (b, removed, found) = set_chunk_as_received index read [] in
    if not found then (record s { buffer = b }, counted) else (
      record s { buffer = b },
      counted ++ report_confirmed cfg (new_chunk_is_allowed cfg read) b removed client index,
    )

unfoldable pub session_set_chunk_as_received :
    Config → ℕ → Option ClientRef → Session → Session × List Effect
session_set_chunk_as_received cfg index none s = (s, [])
session_set_chunk_as_received cfg index (some client) s =
    let (s', dropped) = auto_drop_freeze cfg s in
    let (s'', confirmed) = confirm_chunk cfg index client s' in (s'', dropped ++ confirmed)
