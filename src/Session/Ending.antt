-- ===== src/Session/Ending.antt =====
-- When what a session reports ends it.
use put_in_pipe.Common.{
  ℕ, ◌≡◌, refl, ◌==◌, Bool, true, false, ◌&&◌, List, [], ◌∷◌, ◌++◌, Option, none, some, length,
  Bytes, arith,
}
use put_in_pipe.Config.{Config}
use put_in_pipe.OrderedMap.{find}
use put_in_pipe.Buffer.{Buffer, get_chunk, set_chunk_as_received, chunk_count, new_chunk_is_allowed}
use put_in_pipe.Session.{
  Session, ClientRef, Effect, CompleteType, ok, timeout, sender_is_gone, no_receivers, notifies,
  notifies_sender, removes_session, chunks_are_unfrozen, bytes_out_updated, chunk_download_finished,
  receiver_removed, kicks,
}
use put_in_pipe.Session.Freeze.{tell_removed, remove_if_complete}
use put_in_pipe.Session.Chunks.{confirm_chunk, tell_allowed, report_confirmed}
use put_in_pipe.Session.Told.{ends, ends-append}

pub tell_removed-ends : (removed : List ℕ) → ends (tell_removed removed) ≡ false
tell_removed-ends [] = refl
tell_removed-ends (i ∷ is) = refl

tell_allowed-ends : (old new : Bool) → ends (tell_allowed old new) ≡ false
tell_allowed-ends true true = refl
tell_allowed-ends true false = refl
tell_allowed-ends false true = refl
tell_allowed-ends false false = refl

-- Nothing is left to deliver and nothing more will come.
abbrev pub is_complete : Buffer → Bool
is_complete b = chunk_count b == 0 && b.end_of_file

pub remove_if_complete-ends : (b : Buffer) → ends (remove_if_complete b) ≡ is_complete b
remove_if_complete-ends b = ground arith

counted-ends :
    (client : ClientRef) (chunk : Option Bytes) (es : List Effect)
    → ends (
        elim chunk [
          | none ↦ []
          | some bytes ↦ put_in_pipe.Session.increments_received client (length bytes) ∷ []
        ]
        ++ es)
      ≡ ends es
counted-ends client none es = refl
counted-ends client (some bytes) es = refl

report-ends :
    (cfg : Config) (old : Bool) (b : Buffer) (removed : List ℕ) (client : ClientRef) (index : ℕ)
    → ends (report_confirmed cfg old b removed client index) ≡ is_complete b
report-ends cfg old b removed client index =
    let new = new_chunk_is_allowed cfg b in
    let rest =
      notifies (bytes_out_updated b.bytes_out_total)
      ∷ notifies (chunk_download_finished client.public_id index)
      ∷ remove_if_complete b in
    ground (
      arith,
      ends-append (tell_removed removed) (tell_allowed old new ++ rest),
      tell_removed-ends removed,
      ends-append (tell_allowed old new) rest,
      tell_allowed-ends old new,
      remove_if_complete-ends b,
    )

-- Whether something was found.
abbrev pub is_there {ℓ} : {A : Type ℓ} → Option A → Bool
is_there none = false
is_there (some a) = true

-- `setChunkAsReceived` of the buffer answers whether the chunk is there.
pub confirm-found :
    (index : ℕ) (b : Buffer)
    → (set_chunk_as_received index (get_chunk index b).0 []).2 ≡ is_there (find index b.chunks)
unfolding get_chunk set_chunk_as_received
confirm-found index b = ground arith

-- The part of a confirmation after the automatic end of the freeze: it ends the session exactly if
-- the chunk is in the buffer, and after it the file is at its end and no chunk is left.
pub confirm_chunk-ends :
    (cfg : Config) (index : ℕ) (client : ClientRef) (s : Session)
    → ends (confirm_chunk cfg index client s).1 ≡ (
        is_there (find index s.buffer.chunks)
        && is_complete (confirm_chunk cfg index client s).0.buffer)
unfolding confirm_chunk
confirm_chunk-ends cfg index client s =
    let read = get_chunk index s.buffer in
    let r = set_chunk_as_received index read.0 [] in
    let old = new_chunk_is_allowed cfg read.0 in
    ground (
      arith,
      confirm-found index s.buffer,
      counted-ends client read.1 [],
      counted-ends client read.1 (report_confirmed cfg old r.0 r.1 client index),
      report-ends cfg old r.0 r.1 client index,
    )
