-- ===== src/Buffer.antt =====
-- buffer.h and buffer.cpp: `Buffer`, the chunks of one transfer session. Each public operation is
-- one step. In the source most are one critical section under `m_sharedMtx`; `addChunk` tests the end
-- of the file and the size before it locks, and `removeOneFromExpectedConsumers` does not lock. An
-- operation that fills a list of removed chunks takes the list that it appends to.
pub mod Sanitize
pub mod Adding
pub mod History
pub mod Stored
pub mod Storing
pub mod Delivery
pub mod Lifetime
pub mod Settled
pub mod Counters
pub mod Confirm
pub mod Draining
pub mod Small
use put_in_pipe.Common.{
  ℕ, ◌+◌, ◌==◌, ltb, leb, u64, if◌then◌else◌, ite, ◌||◌, Bool, true, false, not, List, [], ◌∷◌,
  ◌++◌, Option, none, some, length, Bytes, bytes_discrete, map, ◌-◌,
}
use put_in_pipe.Config.{Config}
use put_in_pipe.AtomicSet
use put_in_pipe.AtomicSet.{AtomicSet}
use put_in_pipe.OrderedMap.{find, try_emplace, modify}
use put_in_pipe.Chunk.{Chunk, new_chunk, how_much_is_left, increment_uses, data_size}

pub record Buffer : Type 0 where
  pub expected_consumers : AtomicSet Bytes
  pub chunks : List (ℕ × Chunk)
  pub chunks_max_index : ℕ
  pub bytes_in_total : ℕ
  pub bytes_out_total : ℕ
  pub some_chunk_was_removed : Bool
  pub end_of_file : Bool
  pub initial_chunks_freezing : Bool

abbrev pub new_buffer : Buffer
new_buffer = record {
  expected_consumers = AtomicSet.empty;
  chunks = [];
  chunks_max_index = 0;
  bytes_in_total = 0;
  bytes_out_total = 0;
  some_chunk_was_removed = false;
  end_of_file = false;
  initial_chunks_freezing = true;
}

abbrev pub expected_consumer_count : Buffer → ℕ
expected_consumer_count b = AtomicSet.size b.expected_consumers

abbrev pub chunk_count : Buffer → ℕ
chunk_count b = length b.chunks

abbrev pub new_chunk_is_allowed : Config → Buffer → Bool
new_chunk_is_allowed cfg b = ltb (chunk_count b) cfg.transfer_session_chunk_queue_max_size

abbrev pub chunks_index : Buffer → List ℕ
chunks_index b = map (λ c. c.0) b.chunks

-- Pairs of an index and a size.
abbrev pub chunks_info : Buffer → List (ℕ × ℕ)
chunks_info b = map (λ c. (c.0, data_size c.1)) b.chunks

-- The index of the new chunk, or 0.
unfoldable pub add_chunk : Config → Bytes → Buffer → Buffer × ℕ
add_chunk cfg binary_data b =
    if b.end_of_file
    then (b, 0)
    else if ltb cfg.transfer_session_max_chunk_size (length binary_data)
    then (b, 0)
    else if leb cfg.transfer_session_chunk_queue_max_size (length b.chunks)
    then (b, 0)
    else let index = u64 (b.chunks_max_index + 1) in
      let emplaced = try_emplace index (new_chunk binary_data) b.chunks in
      if emplaced.1
      then (
        record b {
          chunks = emplaced.0;
          chunks_max_index = index;
          bytes_in_total = u64 (b.bytes_in_total + length binary_data);
        },
        index,
      )
      else (
        record b { chunks_max_index = u64 (index + 18446744073709551615) },
        u64 (index + 18446744073709551615),
      )

-- `operator[]`; `none` is the null pointer. It counts the bytes, so it changes the buffer.
unfoldable pub get_chunk : ℕ → Buffer → Buffer × Option Bytes
get_chunk index b = elim (find index b.chunks) [
  | none ↦ (b, none)
  | some c ↦ (record b { bytes_out_total = u64 (b.bytes_out_total + length c.bytes) }, some c.bytes)
]

-- The loop of `sanitize`: the chunks that stay, the flag, and the removed indices.
unfoldable pub sanitize_loop :
    ℕ → List (ℕ × Chunk) → Bool → List ℕ → List (ℕ × Chunk) × Bool × List ℕ
sanitize_loop expected [] some_removed removed = ([], some_removed, removed)
sanitize_loop expected ((i, c) ∷ m) some_removed removed = elim (how_much_is_left expected c == 0) [
  | true ↦ sanitize_loop expected m true (removed ++ i ∷ [])
  | false ↦
      let (rest, flag, all_removed) = sanitize_loop expected m some_removed removed in
      ((i, c) ∷ rest, flag, all_removed)
]

unfoldable pub sanitize : Buffer → List ℕ → Buffer × List ℕ
sanitize b removed =
    if b.initial_chunks_freezing
    then (b, removed)
    else let (rest, flag, all_removed) =
        sanitize_loop (expected_consumer_count b) b.chunks b.some_chunk_was_removed removed in
      (record b { chunks = rest; some_chunk_was_removed = flag }, all_removed)

unfoldable pub set_chunk_as_received : ℕ → Buffer → List ℕ → Buffer × List ℕ × Bool
set_chunk_as_received index b removed = elim (find index b.chunks) [
  | none ↦ (b, removed, false)
  | some c ↦
      let confirmed : Buffer = record b {
        chunks = modify index (increment_uses (expected_consumer_count b)) b.chunks;
      } in
      let (b', removed') = sanitize confirmed removed in (b', removed', true)
]

unfoldable pub set_end_of_file : Buffer → Buffer
set_end_of_file b = if b.end_of_file then b else record b { end_of_file = true }

unfoldable pub add_new_to_expected_consumers : Config → Bytes → Buffer → Buffer × Bool
add_new_to_expected_consumers cfg public_id b =
    if b.some_chunk_was_removed
      || ltb cfg.transfer_session_max_consumer_count (u64 (expected_consumer_count b + 1))
    then (b, false)
    else let (consumers, inserted) = AtomicSet.add bytes_discrete public_id b.expected_consumers in
      if not inserted then (b, false) else (record b { expected_consumers = consumers }, true)

unfoldable pub remove_one_from_expected_consumers : Bytes → Buffer → List ℕ → Buffer × List ℕ
remove_one_from_expected_consumers public_id b removed =
    let (consumers, found) = AtomicSet.remove bytes_discrete public_id b.expected_consumers in
    if found then sanitize (record b { expected_consumers = consumers }) removed else (b, removed)

unfoldable pub set_initial_chunks_freezing_dropped : Buffer → List ℕ → Buffer × List ℕ × Bool
set_initial_chunks_freezing_dropped b removed =
    if not b.initial_chunks_freezing
    then (b, removed, false)
    else let (b', removed') = sanitize (record b { initial_chunks_freezing = false }) removed in
      (b', removed', true)
