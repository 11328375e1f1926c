-- ===== src/Session/Faults.antt =====
-- Where the code of a session does not do what its comments and documents say.
use put_in_pipe.Common.{
  ℕ, ◌+◌, ◌*◌, ◌≤◌, ◌<◌, ◌≡◌, ◌≢◌, refl, Bool, true, false, List, [], ◌∷◌, ◌++◌, Option, none, some,
  length, length-keep-le, keep, is_empty, if◌then◌else◌, Bytes, bytes_discrete, arith, u64, subst,
  sym,
}
use put_in_pipe.Config.{Config}
use put_in_pipe.OrderedMap.{find, modify}
use put_in_pipe.Chunk.{Chunk, increment_uses}
use put_in_pipe.AtomicSet
use put_in_pipe.AtomicSet.{contains, erase}
use put_in_pipe.AtomicSet.Laws.{length-erase}
use put_in_pipe.Buffer.{
  Buffer, get_chunk, set_chunk_as_received, chunk_count, new_chunk_is_allowed,
  remove_one_from_expected_consumers, expected_consumer_count,
}
use put_in_pipe.Buffer.Sanitize.{sanitize_exact, is_live}
use put_in_pipe.Session.{Session, ClientRef, Effect, notifies, receiver_removed, kicks}
use put_in_pipe.Session.Freeze.{tell_removed}
use put_in_pipe.Session.Chunks.{session_get_chunk, confirm_chunk}
use put_in_pipe.Session.Receivers.{
  remove_receiver, erase_receiver, end_without_receivers, update_destroyed,
}
use put_in_pipe.Session.Told.{known, known-append, known-tell_removed}

-- Once the sender is gone after the end of the file, and some entry of a receiver is left, the end of
-- a receiver changes nothing: its entry and its place among the expected consumers stay, so chunks
-- keep waiting for a client that does not exist.
pub orphaned_receivers_stay :
    (alive : Bytes → Bool) (public_id : Bytes) (s : Session)
    → alive s.data_sender.id ≡ false
    → s.buffer.end_of_file ≡ true
    → s.data_receivers ≢ []
    → update_destroyed alive public_id s ≡ (s, [])
unfolding update_destroyed
orphaned_receivers_stay alive public_id s gone ended some_left = ground arith

keep-shorter :
    (expected i : ℕ) (c : Chunk) (m : List (ℕ × Chunk))
    → find i m ≡ some c
    → expected ≤ c.uses
    → length (keep (is_live expected) m) < length m
unfolding find
keep-shorter expected i c [] e h = cc
keep-shorter expected i c ((j, d) ∷ m) e h =
    ground (arith, keep-shorter expected i c m, length-keep-le (is_live expected) m)

kicked-known :
    (k : Bool) (client : Option ClientRef) (es : List Effect)
    → known k (elim client [ none ↦ [] | some c ↦ kicks c ∷ [] ] ++ es) ≡ known k es
kicked-known k none es = refl
kicked-known k (some c) es = refl

-- `removeReceiver` never tells the sender whether chunks are allowed.
pub remove_receiver-silent :
    (alive : Bytes → Bool) (k : Bool) (public_id : Bytes) (s : Session)
    → known k (remove_receiver alive public_id s).1 ≡ k
unfolding remove_receiver end_without_receivers
remove_receiver-silent alive k public_id s =
    let e = erase_receiver alive public_id s.data_receivers none in
    let r = remove_one_from_expected_consumers public_id s.buffer [] in
    let left : Session = record s { data_receivers = e.0; buffer = r.0 } in
    let ending = if is_empty e.0 then (end_without_receivers alive left).1 else [] in
    let told = notifies (receiver_removed public_id) ∷ ending in
    let kicked : List Effect = elim e.1 [ none ↦ [] | some c ↦ kicks c ∷ [] ] in
    ground (
      arith,
      known-append k (tell_removed r.1) (kicked ++ told),
      known-tell_removed k r.1,
      kicked-known k e.1 told,
    )

remove_receiver-buffer :
    (alive : Bytes → Bool) (public_id : Bytes) (s : Session)
    → (remove_receiver alive public_id s).0.buffer
      ≡ (remove_one_from_expected_consumers public_id s.buffer []).0
unfolding remove_receiver end_without_receivers
remove_receiver-buffer alive public_id s = ground arith

leave-frees :
    (cfg : Config) (public_id : Bytes) (b : Buffer) (i : ℕ) (c : Chunk)
    → b.initial_chunks_freezing ≡ false
    → contains bytes_discrete public_id b.expected_consumers.elements ≡ true
    → find i b.chunks ≡ some c
    → expected_consumer_count b ≤ c.uses + 1
    → chunk_count b ≡ cfg.transfer_session_chunk_queue_max_size
    → new_chunk_is_allowed cfg (remove_one_from_expected_consumers public_id b []).0 ≡ true
unfolding remove_one_from_expected_consumers AtomicSet.remove
leave-frees cfg public_id b i c thawed there e spent full =
    let xs = erase bytes_discrete public_id b.expected_consumers.elements in
    let rest : Buffer = record b { expected_consumers = record { elements = xs } } in
    ground (
      arith,
      sanitize_exact rest [],
      length-erase bytes_discrete public_id b.expected_consumers.elements there,
      keep-shorter (length xs) i c b.chunks e,
    )

-- The sender stalls: its buffer is full, so it was told that no chunk is allowed; then a receiver
-- leaves after the freeze, a chunk that then has enough confirmations goes and makes room, and the sender
-- is not told.
pub sender_stalls :
    (cfg : Config) (alive : Bytes → Bool) (public_id : Bytes) (s : Session) (i : ℕ) (c : Chunk)
    → s.buffer.initial_chunks_freezing ≡ false
    → contains bytes_discrete public_id s.buffer.expected_consumers.elements ≡ true
    → find i s.buffer.chunks ≡ some c
    → expected_consumer_count s.buffer ≤ c.uses + 1
    → chunk_count s.buffer ≡ cfg.transfer_session_chunk_queue_max_size
    → (new_chunk_is_allowed cfg (remove_receiver alive public_id s).0.buffer ≡ true)
      × (known false (remove_receiver alive public_id s).1 ≡ false)
sender_stalls cfg alive public_id s i c thawed there e spent full = (
  subst (λ (b : Buffer). new_chunk_is_allowed cfg b ≡ true)
      (sym (remove_receiver-buffer alive public_id s))
      (leave-frees cfg public_id s.buffer i c thawed there e spent full),
  remove_receiver-silent alive false public_id s,
)

confirm-bytes_out :
    (i : ℕ) (b : Buffer) (removed : List ℕ)
    → (set_chunk_as_received i b removed).0.bytes_out_total ≡ b.bytes_out_total
unfolding set_chunk_as_received
confirm-bytes_out i b removed = ground (
  arith,
  sanitize_exact
      (record b { chunks = modify i (increment_uses (expected_consumer_count b)) b.chunks })
      removed,
)

-- A chunk that is downloaded once and confirmed once is counted twice in the bytes sent.
pub download_counted_twice :
    (cfg : Config) (i : ℕ) (client : ClientRef) (s : Session) (c : Chunk)
    → find i s.buffer.chunks ≡ some c
    → (confirm_chunk cfg i client (session_get_chunk i (some client) s).0).0.buffer.bytes_out_total
      ≡ u64 (s.buffer.bytes_out_total + 2 * length c.bytes)
unfolding session_get_chunk confirm_chunk get_chunk
download_counted_twice cfg i client s c e =
    let b = (get_chunk i s.buffer).0 in ground (arith, e, confirm-bytes_out i (get_chunk i b).0 [])
