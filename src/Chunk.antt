-- ===== src/Chunk.antt =====
-- chunk.h and chunk.cpp: `Chunk`. The set of expected consumers is shared with the buffer; a chunk
-- reads only its size, which each operation takes as an argument.
use put_in_pipe.Common.{ℕ, ◌+◌, ◌-◌, ltb, leb, u64, if◌then◌else◌, length, Bytes}

pub record Chunk : Type 0 where
  pub bytes : Bytes
  pub uses : ℕ

-- The constructor.
unfoldable pub new_chunk : Bytes → Chunk
new_chunk bytes = record { bytes = bytes; uses = 0 }

unfoldable pub how_much_is_left : ℕ → Chunk → ℕ
how_much_is_left expected c = if leb expected c.uses then 0 else expected - c.uses

unfoldable pub increment_uses : ℕ → Chunk → Chunk
increment_uses expected c = if ltb c.uses expected then record c { uses = u64 (c.uses + 1) } else c

abbrev pub data_size : Chunk → ℕ
data_size c = length c.bytes
