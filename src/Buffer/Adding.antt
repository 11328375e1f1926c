-- ===== src/Buffer/Adding.antt =====
-- `Buffer::addChunk` on every path.
use put_in_pipe.Common.{
  ◌+◌, ◌≤◌, ◌<◌, ◌≡◌, ◌⊎◌, u64, u64_mod, true, false, [], ◌∷◌, ◌++◌, length, arith, Bytes,
}
use put_in_pipe.Config.{Config}
use put_in_pipe.OrderedMap.Order.{Within, try_emplace_last}
use put_in_pipe.Chunk.{new_chunk}
use put_in_pipe.Buffer.{Buffer, add_chunk}

-- The reasons for which a chunk is refused.
abbrev pub Refused : Config → Bytes → Buffer → Type 0
Refused cfg binary_data b =
    (b.end_of_file ≡ true)
    ⊎ ((cfg.transfer_session_max_chunk_size < length binary_data)
        ⊎ (cfg.transfer_session_chunk_queue_max_size ≤ length b.chunks))

-- The buffer after a chunk was taken in under the next index.
unfoldable pub with_chunk : Bytes → Buffer → Buffer
with_chunk binary_data b = record b {
  chunks = b.chunks ++ (b.chunks_max_index + 1, new_chunk binary_data) ∷ [];
  chunks_max_index = b.chunks_max_index + 1;
  bytes_in_total = u64 (b.bytes_in_total + length binary_data);
}

abbrev pub Accepted : Config → Bytes → Buffer → Type 0
Accepted cfg binary_data b =
    (b.end_of_file ≡ false)
    × (length binary_data ≤ cfg.transfer_session_max_chunk_size)
    × (length b.chunks < cfg.transfer_session_chunk_queue_max_size)

-- `addChunk` of a buffer with ascending indices that have not run out: it refuses with 0 and no
-- change exactly for one of the three reasons, and otherwise appends the chunk under the next index,
-- which it returns.
pub add_chunk_cases :
    (cfg : Config) (binary_data : Bytes) (b : Buffer)
    → Within 0 b.chunks_max_index b.chunks
    → b.chunks_max_index + 1 < u64_mod
    → (Refused cfg binary_data b × (add_chunk cfg binary_data b ≡ (b, 0)))
      ⊎ (Accepted cfg binary_data b
          × (add_chunk cfg binary_data b ≡ (with_chunk binary_data b, b.chunks_max_index + 1)))
unfolding add_chunk with_chunk
add_chunk_cases cfg d b w h =
    let room : u64 (b.chunks_max_index + 1) ≡ b.chunks_max_index + 1 = omega arith in
    let last =
      try_emplace_last 0 b.chunks_max_index (b.chunks_max_index + 1) (new_chunk d) b.chunks w
        (omega arith) in
    ground (arith, room, last)
