-- ===== src/WsMessages/Others.antt =====
-- What the messages of a client that did not create the session leave alone.
use put_in_pipe.Common.{
  ℕ, ◌≡◌, refl, Bool, true, false, List, [], Option, none, some, Bytes, inl, inr, arith,
}
use put_in_pipe.Config.{Config}
use put_in_pipe.OrderedMap.{modify}
use put_in_pipe.Chunk.{increment_uses}
use put_in_pipe.Buffer.{
  Buffer, get_chunk, set_chunk_as_received, sanitize, set_initial_chunks_freezing_dropped,
  expected_consumer_count,
}
use put_in_pipe.Buffer.Sanitize.{sanitize_exact}
use put_in_pipe.Session.{Session, ClientRef}
use put_in_pipe.Session.Freeze.{drop_initial_chunks_freeze}
use put_in_pipe.Session.Chunks.{
  session_get_chunk, auto_drop_freeze, confirm_chunk, session_set_chunk_as_received,
}
use put_in_pipe.Session.History.{SessionCall, gets_chunk, confirms_chunk, session_step}
use put_in_pipe.Client.{Client}
use put_in_pipe.WsMessages.{Message, is_creator, ws_on_message}
use put_in_pipe.WsMessages.Creator.{is_open, ws_on_message-Acts}

-- The buffer took in nothing and was not told of the end of the file.
abbrev NothingIn : Buffer → Buffer → Type 0
NothingIn b b' =
    (b'.end_of_file ≡ b.end_of_file)
    × (b'.chunks_max_index ≡ b.chunks_max_index)
    × (b'.bytes_in_total ≡ b.bytes_in_total)
    × (b'.expected_consumers ≡ b.expected_consumers)

-- The session has the same file and the same members.
abbrev pub Kept : Session → Session → Type 0
Kept s s' =
    (s'.file_info ≡ s.file_info)
    × (s'.data_sender ≡ s.data_sender)
    × (s'.data_receivers ≡ s.data_receivers)
    × NothingIn s.buffer s'.buffer

sanitize-NothingIn : (b : Buffer) (removed : List ℕ) → NothingIn b (sanitize b removed).0
sanitize-NothingIn b removed = ground (arith, sanitize_exact b removed)

confirm-NothingIn :
    (i : ℕ) (b : Buffer) (removed : List ℕ) → NothingIn b (set_chunk_as_received i b removed).0
unfolding set_chunk_as_received
confirm-NothingIn i b removed = ground (
  arith,
  sanitize-NothingIn
      (record b { chunks = modify i (increment_uses (expected_consumer_count b)) b.chunks })
      removed,
)

unfreeze-NothingIn :
    (b : Buffer) (removed : List ℕ) → NothingIn b (set_initial_chunks_freezing_dropped b removed).0
unfolding set_initial_chunks_freezing_dropped
unfreeze-NothingIn b removed =
    ground (arith, sanitize-NothingIn (record b { initial_chunks_freezing = false }) removed)

drop-Kept : (cfg : Config) (s : Session) → Kept s (drop_initial_chunks_freeze cfg s).0
unfolding drop_initial_chunks_freeze
drop-Kept cfg s = ground (arith, unfreeze-NothingIn s.buffer [])

confirm_chunk-Kept :
    (cfg : Config) (i : ℕ) (client : ClientRef) (s : Session)
    → Kept s (confirm_chunk cfg i client s).0
unfolding confirm_chunk get_chunk
confirm_chunk-Kept cfg i client s = ground (arith, confirm-NothingIn i (get_chunk i s.buffer).0 [])

open-Kept :
    (cfg : Config) (alive : Bytes → Bool) (call : SessionCall) (s : Session)
    → is_open call ≡ true
    → Kept s (session_step cfg alive call s).0
unfolding session_step session_get_chunk session_set_chunk_as_received auto_drop_freeze get_chunk
open-Kept cfg alive (gets_chunk i none) s h = ground arith
open-Kept cfg alive (gets_chunk i (some client)) s h = ground arith
open-Kept cfg alive (confirms_chunk i none) s h = ground arith
open-Kept cfg alive (confirms_chunk i (some client)) s h = ground (
  arith,
  confirm_chunk-Kept cfg i client (auto_drop_freeze cfg s).0,
  drop-Kept cfg (record s { auto_drop_freeze_fired = true }),
)
open-Kept cfg alive _ s h = cc

-- No message of a client that is not the creator of the session (or whose creator is gone) changes
-- the file's name or size, the sender, the receivers or the expected consumers, ends the file, or
-- adds a chunk.
pub others_keep_session :
    (load : Bytes → Option Message) (cfg : Config) (alive : Bytes → Bool) (bytes : Bytes)
    (is_binary : Bool) (c : Client) (s : Session)
    → is_creator alive c s ≡ false
    → Kept s (ws_on_message load cfg alive bytes is_binary c s).1
others_keep_session load cfg alive bytes is_binary c s other =
    elim (ws_on_message-Acts load cfg alive bytes is_binary c s) [
      | inl e ↦ rw e (refl, refl, refl, (refl, refl, refl, refl))
      | inr (call, e, inl ours) ↦ absurd (ground arith)
      | inr (call, e, inr anyone) ↦ rw e (open-Kept cfg alive call s anyone)
    ]
