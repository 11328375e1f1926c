-- ===== src/Session/Members.antt =====
-- The receivers of a session and the expected consumers of its buffer.
use put_in_pipe.Common.{
  ℕ, ◌≡◌, refl, Bool, true, false, List, [], Option, none, some, Bytes, arith, inl, inr, ◌⊎◌,
}
use put_in_pipe.Config.{Config}
use put_in_pipe.OrderedMap.{modify}
use put_in_pipe.Chunk.{increment_uses}
use put_in_pipe.Buffer.{
  Buffer, add_chunk, get_chunk, set_chunk_as_received, set_end_of_file, sanitize,
  set_initial_chunks_freezing_dropped, expected_consumer_count,
}
use put_in_pipe.Buffer.Sanitize.{sanitize_exact}
use put_in_pipe.Session.{Session, ClientRef, manual_terminate, set_timedout}
use put_in_pipe.Session.Info.{set_file_info}
use put_in_pipe.Session.Freeze.{drop_initial_chunks_freeze, session_set_end_of_file}
use put_in_pipe.Session.Chunks.{
  session_add_chunk, session_get_chunk, auto_drop_freeze, confirm_chunk,
  session_set_chunk_as_received,
}
use put_in_pipe.Session.Receivers.{remove_receiver, update_destroyed}
use put_in_pipe.Session.History.{
  SessionCall, adds_receiver, removes_receiver, sets_file_info, adds_chunk, gets_chunk,
  confirms_chunk, ends_file, drops_freeze, terminates, times_out, client_destroyed, session_step,
}
use put_in_pipe.Session.Expected.{
  AllExpected, add_receiver-AllExpected, remove_receiver-AllExpected,
}

sanitize-consumers :
    (b : Buffer) (removed : List ℕ)
    → (sanitize b removed).0.expected_consumers ≡ b.expected_consumers
sanitize-consumers b removed = ground (arith, sanitize_exact b removed)

confirm-consumers :
    (i : ℕ) (b : Buffer) (removed : List ℕ)
    → (set_chunk_as_received i b removed).0.expected_consumers ≡ b.expected_consumers
unfolding set_chunk_as_received
confirm-consumers i b removed = ground (
  arith,
  sanitize-consumers
      (record b { chunks = modify i (increment_uses (expected_consumer_count b)) b.chunks })
      removed,
)

unfreeze-consumers :
    (b : Buffer) (removed : List ℕ)
    → (set_initial_chunks_freezing_dropped b removed).0.expected_consumers ≡ b.expected_consumers
unfolding set_initial_chunks_freezing_dropped
unfreeze-consumers b removed =
    ground (arith, sanitize-consumers (record b { initial_chunks_freezing = false }) removed)

-- A call that keeps the receivers and the expected consumers.
abbrev SameMembers : Session → Session → Type 0
SameMembers s s' =
    (s'.data_receivers ≡ s.data_receivers)
    × (s'.buffer.expected_consumers ≡ s.buffer.expected_consumers)

drop-SameMembers : (cfg : Config) (s : Session) → SameMembers s (drop_initial_chunks_freeze cfg s).0
unfolding drop_initial_chunks_freeze
drop-SameMembers cfg s = ground (arith, unfreeze-consumers s.buffer [])

confirm_chunk-SameMembers :
    (cfg : Config) (i : ℕ) (client : ClientRef) (s : Session)
    → SameMembers s (confirm_chunk cfg i client s).0
unfolding confirm_chunk get_chunk
confirm_chunk-SameMembers cfg i client s =
    ground (arith, confirm-consumers i (get_chunk i s.buffer).0 [])

confirm-SameMembers :
    (cfg : Config) (i : ℕ) (client : Option ClientRef) (s : Session)
    → SameMembers s (session_set_chunk_as_received cfg i client s).0
unfolding session_set_chunk_as_received auto_drop_freeze
confirm-SameMembers cfg i none s = (refl, refl)
confirm-SameMembers cfg i (some client) s = ground (
  arith,
  confirm_chunk-SameMembers cfg i client (auto_drop_freeze cfg s).0,
  drop-SameMembers cfg (record s { auto_drop_freeze_fired = true }),
)

SameMembers-AllExpected : (s s' : Session) → SameMembers s s' → AllExpected s → AllExpected s'
SameMembers-AllExpected s s' (rs, xs) a = rw (rs, xs) a

destroyed_cases :
    (alive : Bytes → Bool) (p : Bytes) (s : Session)
    → SameMembers s (update_destroyed alive p s).0
      ⊎ (update_destroyed alive p s ≡ remove_receiver alive p s)
unfolding update_destroyed
destroyed_cases alive p s = ground arith

destroyed-AllExpected :
    (alive : Bytes → Bool) (p : Bytes) (s : Session)
    → AllExpected s
    → AllExpected (update_destroyed alive p s).0
destroyed-AllExpected alive p s a = elim (destroyed_cases alive p s) [
  | inl keeps ↦ SameMembers-AllExpected s (update_destroyed alive p s).0 keeps a
  | inr e ↦ rw e (remove_receiver-AllExpected alive p s a)
]

-- Every call keeps it so that the buffer waits for each receiver of the session, whichever clients
-- exist during the call.
pub session_step-AllExpected :
    (cfg : Config) (alive : Bytes → Bool) (c : SessionCall) (s : Session)
    → AllExpected s
    → AllExpected (session_step cfg alive c s).0
unfolding session_step
session_step-AllExpected cfg alive (adds_receiver client) s a =
    add_receiver-AllExpected cfg alive client s a
session_step-AllExpected cfg alive (removes_receiver p) s a =
    remove_receiver-AllExpected alive p s a
session_step-AllExpected cfg alive (sets_file_info info) s a =
    SameMembers-AllExpected s (set_file_info info s).0 (unfold set_file_info in ground arith) a
session_step-AllExpected cfg alive (adds_chunk d) s a =
    SameMembers-AllExpected s (session_add_chunk cfg d s).0
      (unfold session_add_chunk add_chunk in ground arith) a
session_step-AllExpected cfg alive (gets_chunk i none) s a = unfold session_get_chunk in a
session_step-AllExpected cfg alive (gets_chunk i (some client)) s a =
    SameMembers-AllExpected s (session_get_chunk i (some client) s).0
      (unfold session_get_chunk get_chunk in ground arith) a
session_step-AllExpected cfg alive (confirms_chunk i client) s a =
    SameMembers-AllExpected s (session_set_chunk_as_received cfg i client s).0
      (confirm-SameMembers cfg i client s) a
session_step-AllExpected cfg alive ends_file s a =
    SameMembers-AllExpected s (session_set_end_of_file s).0
      (unfold session_set_end_of_file set_end_of_file in ground arith) a
session_step-AllExpected cfg alive drops_freeze s a =
    SameMembers-AllExpected s (drop_initial_chunks_freeze cfg s).0 (drop-SameMembers cfg s) a
session_step-AllExpected cfg alive terminates s a = unfold manual_terminate in a
session_step-AllExpected cfg alive times_out s a = unfold set_timedout in a
session_step-AllExpected cfg alive (client_destroyed p) s a = destroyed-AllExpected alive p s a
