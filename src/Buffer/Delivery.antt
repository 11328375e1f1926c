-- ===== src/Buffer/Delivery.antt =====
-- What the consumers of a buffer can rely on, after any sequence of calls.
use put_in_pipe.Common.{
  ℕ, suc, ◌+◌, ◌-◌, ◌*◌, ◌≤◌, ◌<◌, ◌≡◌, inl, inr, u64, u64_mod, true, false, List, [], ◌∷◌, some,
  length, get_elem?, All, arith, Bytes, Option-cases, ◌∙◌, ap,
}
use put_in_pipe.Config.{Config}
use put_in_pipe.OrderedMap.{find}
use put_in_pipe.OrderedMap.Order.{All-find, find_full}
use put_in_pipe.Chunk.{Chunk}
use put_in_pipe.Buffer.{Buffer, new_buffer, get_chunk, add_new_to_expected_consumers, add_chunk}
use put_in_pipe.Buffer.History.{Call, run, uploaded}
use put_in_pipe.Buffer.Stored.{Stored, new_buffer-Stored, IsUpload, total}
use put_in_pipe.Buffer.Storing.{run-Stored}

abbrev reached : Config → List Call → Buffer
reached cfg cs = run cfg cs new_buffer

abbrev history : Config → List Call → List Bytes
history cfg cs = uploaded cfg cs new_buffer []

pub reached-Stored :
    (cfg : Config) (cs : List Call)
    → length cs < u64_mod
    → Stored cfg (uploaded cfg cs new_buffer []) (run cfg cs new_buffer)
reached-Stored cfg cs room = run-Stored cfg cs [] new_buffer (omega arith) (new_buffer-Stored cfg)

get_chunk-find :
    (i : ℕ) (b : Buffer) (d : Bytes)
    → (get_chunk i b).1 ≡ some d
    → (c : Chunk) × (find i b.chunks ≡ some c) × (c.bytes ≡ d)
unfolding get_chunk
get_chunk-find i b d h = elim (Option-cases (find i b.chunks)) [
  | inl e ↦ absurd (ground arith)
  | inr (c, e) ↦ (c, e, ground arith)
]

find-get_chunk :
    (i : ℕ) (b : Buffer) (c : Chunk) → find i b.chunks ≡ some c → (get_chunk i b).1 ≡ some c.bytes
unfolding get_chunk
find-get_chunk i b c e = ground arith

-- After any sequence of fewer than 2^64 calls on a new buffer, `operator[]` at an index either finds
-- no chunk or returns exactly the data of the upload that the index counts.
pub get_chunk-uploaded :
    (cfg : Config) (cs : List Call) (i : ℕ) (d : Bytes)
    → length cs < u64_mod
    → (get_chunk i (run cfg cs new_buffer)).1 ≡ some d
    → get_elem? (uploaded cfg cs new_buffer []) (i - 1) ≡ some d
get_chunk-uploaded cfg cs i d room h =
    let b = reached cfg cs in
    let (c, e, same_bytes) = get_chunk-find i b d h in
    All-find (IsUpload (history cfg cs)) i c b.chunks (reached-Stored cfg cs room).contents e
    ∙ ap some same_bytes

-- While the flag says that no chunk was removed, every upload so far can still be read at its index.
pub get_chunk_complete :
    (cfg : Config) (ups : List Bytes) (b : Buffer) (i : ℕ)
    → Stored cfg ups b
    → b.some_chunk_was_removed ≡ false
    → 0 < i
    → i ≤ length ups
    → (d : Bytes) × ((get_chunk i b).1 ≡ some d) × (get_elem? ups (i - 1) ≡ some d)
get_chunk_complete cfg ups b i s whole low high =
    let full : length b.chunks + 0 ≡ b.chunks_max_index = omega (arith, s.nothing_lost whole) in
    let (c, e) =
      find_full 0 b.chunks_max_index i b.chunks s.ordered full low (omega (arith, s.counted)) in
    (c.bytes, find-get_chunk i b c e, All-find (IsUpload ups) i c b.chunks s.contents e)

join-whole :
    (cfg : Config) (public_id : Bytes) (b : Buffer)
    → (add_new_to_expected_consumers cfg public_id b).1 ≡ true
    → b.some_chunk_was_removed ≡ false
unfolding add_new_to_expected_consumers
join-whole cfg public_id b h = ground arith

join-chunks :
    (cfg : Config) (public_id : Bytes) (b : Buffer)
    → ((add_new_to_expected_consumers cfg public_id b).0.chunks ≡ b.chunks)
      × ((add_new_to_expected_consumers cfg public_id b).0.some_chunk_was_removed
          ≡ b.some_chunk_was_removed)
unfolding add_new_to_expected_consumers
join-chunks cfg public_id b = ground arith

-- Whoever is accepted as a new consumer, after any sequence of fewer than 2^64 - 1 calls, can then read
-- every chunk uploaded so far, from the first to the last, unchanged: a late receiver misses nothing.
pub join_sees_all :
    (cfg : Config) (cs : List Call) (public_id : Bytes) (i : ℕ)
    → length cs + 1 < u64_mod
    → (add_new_to_expected_consumers cfg public_id (run cfg cs new_buffer)).1 ≡ true
    → 0 < i
    → i ≤ length (uploaded cfg cs new_buffer [])
    → (d : Bytes) × ((get_chunk i
          (add_new_to_expected_consumers cfg public_id (run cfg cs new_buffer)).0).1
        ≡ some d)
      × (get_elem? (uploaded cfg cs new_buffer []) (i - 1) ≡ some d)
join_sees_all cfg cs public_id i room joined low high =
    get_chunk_complete cfg (history cfg cs) _ i
      (put_in_pipe.Buffer.Storing.join-Stored cfg (history cfg cs) (reached cfg cs) public_id
        (reached-Stored cfg cs (omega arith)))
      ((join-chunks cfg public_id (reached cfg cs)).1
        ∙ join-whole cfg public_id (reached cfg cs) joined)
      low high

-- The bytes that a buffer holds.
unfoldable pub held : List (ℕ × Chunk) → ℕ
held [] = 0
held ((i, c) ∷ m) = length c.bytes + held m

small-get :
    (limit : ℕ) (ups : List Bytes) (k : ℕ) (d : Bytes)
    → All (λ u. length u ≤ limit) ups
    → get_elem? ups k ≡ some d
    → length d ≤ limit
small-get limit [] k d a e = cc
small-get limit (u ∷ us) Prim.Native.Nat.zero d a e = ground arith
small-get limit (u ∷ us) (suc k) d a e = small-get limit us k d a.1 e

held-le :
    (limit : ℕ) (ups : List Bytes) (m : List (ℕ × Chunk))
    → All (λ u. length u ≤ limit) ups
    → All (IsUpload ups) m
    → held m ≤ length m * limit
unfolding held
held-le limit ups [] a h = omega arith
held-le limit ups ((i, c) ∷ m) a h =
    omega (arith, small-get limit ups (i - 1) c.bytes a h.0, held-le limit ups m a h.1)

-- After any sequence of fewer than 2^64 calls the buffer holds at most the configured number of
-- chunks, and their data takes at most that number times the configured chunk size; the counter of
-- received bytes is the size of all uploads together, modulo 2^64.
pub run_bounds :
    (cfg : Config) (cs : List Call)
    → length cs < u64_mod
    → (length (run cfg cs new_buffer).chunks ≤ cfg.transfer_session_chunk_queue_max_size)
      × (held (run cfg cs new_buffer).chunks
          ≤ cfg.transfer_session_chunk_queue_max_size * cfg.transfer_session_max_chunk_size)
      × ((run cfg cs new_buffer).bytes_in_total ≡ u64 (total (uploaded cfg cs new_buffer [])))
run_bounds cfg cs room =
    let b = reached cfg cs in
    let s = reached-Stored cfg cs room in
    let bound =
      held-le cfg.transfer_session_max_chunk_size (history cfg cs) b.chunks s.small s.contents in
    (s.capped, grind (arith, bound, s.capped), s.received)
