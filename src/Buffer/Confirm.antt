-- ===== src/Buffer/Confirm.antt =====
-- When a chunk is given up: the effect of one confirmation, and of a consumer that leaves.
use put_in_pipe.Common.{
  ℕ, ◌+◌, ◌≤◌, ◌≡◌, refl, true, false, List, none, some, arith, Bytes, bytes_discrete,
  if◌then◌else◌, leb, ltb, ◌<◌, ◌==◌, ◌||◌, u64_mod, Bool, Option, Bool-cases, Option-cases, inl,
  inr,
}
use put_in_pipe.Config.{Config}
use put_in_pipe.OrderedMap.{find, modify}
use put_in_pipe.OrderedMap.Order.{
  Within, Within-modify, find-keep, find-keep_absent, find-modify_self, find-modify_ne,
}
use put_in_pipe.Chunk.{Chunk, increment_uses}
use put_in_pipe.AtomicSet
use put_in_pipe.AtomicSet.{contains}
use put_in_pipe.AtomicSet.Laws.{length-erase}
use put_in_pipe.Buffer.{
  Buffer, get_chunk, set_chunk_as_received, sanitize, remove_one_from_expected_consumers,
  expected_consumer_count,
}
use put_in_pipe.Buffer.Sanitize.{sanitize_exact, is_live}
use put_in_pipe.Buffer.Stored.{Stored}

get-find : (i : ℕ) (b : Buffer) → find i b.chunks ≡ none → (get_chunk i b).1 ≡ none
unfolding get_chunk
get-find i b e = ground arith

gone_after_sanitize :
    (i : ℕ) (c : Chunk) (b : Buffer) (removed : List ℕ)
    → Within 0 b.chunks_max_index b.chunks
    → b.initial_chunks_freezing ≡ false
    → find i b.chunks ≡ some c
    → expected_consumer_count b ≤ c.uses
    → find i (sanitize b removed).0.chunks ≡ none
gone_after_sanitize i c b removed w thawed e spent = ground (
  arith,
  sanitize_exact b removed,
  find-keep (is_live (expected_consumer_count b)) 0 b.chunks_max_index i c b.chunks w e,
)

-- When an expected consumer leaves after the freeze, every chunk goes whose confirmations number at
-- least the consumers that remain, whoever sent them: a confirmation of the one who left counts for
-- one who stays.
pub leave_gives_up :
    (cfg : Config) (ups : List Bytes) (public_id : Bytes) (b : Buffer) (removed : List ℕ) (i : ℕ)
    (c : Chunk)
    → Stored cfg ups b
    → b.initial_chunks_freezing ≡ false
    → contains bytes_discrete public_id b.expected_consumers.elements ≡ true
    → find i b.chunks ≡ some c
    → expected_consumer_count b ≤ c.uses + 1
    → (get_chunk i (remove_one_from_expected_consumers public_id b removed).0).1 ≡ none
unfolding remove_one_from_expected_consumers AtomicSet.remove
leave_gives_up cfg ups public_id b removed i c s thawed there e spent =
    let rest : Buffer = record b {
      expected_consumers = record {
        elements = AtomicSet.erase bytes_discrete public_id b.expected_consumers.elements;
      };
    } in
    let fewer = length-erase bytes_discrete public_id b.expected_consumers.elements there in
    get-find i _
      (rw there (gone_after_sanitize i c rest removed s.ordered thawed e (omega (arith, fewer))))

-- The counter of a chunk after one more confirmation.
abbrev pub counted : ℕ → Chunk → Chunk
counted expected c = record c { uses = if ltb c.uses expected then c.uses + 1 else c.uses }

increment_uses-counted : (n : ℕ) (c : Chunk) → n < u64_mod → increment_uses n c ≡ counted n c
unfolding increment_uses
increment_uses-counted n c small = ground arith

-- What becomes of the chunk at the index `j` when the one at `i` is confirmed, with `n` expected
-- consumers.
abbrev pub survivor : ℕ → Bool → ℕ → ℕ → Option Chunk → Option Chunk
survivor n frozen i j none = none
survivor n frozen i j (some d) =
    if i == j
    then if frozen
      then some (counted n d)
      else if leb n (d.uses + 1)
      then none
      else some (record d { uses = d.uses + 1 })
    else if frozen || ltb d.uses n
    then some d
    else none

-- One confirmation of a chunk that is there, in a buffer with fewer than 2^64 expected consumers, is
-- answered with true. During the freeze the chunk stays, its counter one higher if it was below the
-- number of expected consumers and the same otherwise. After the freeze the chunk is gone if one more
-- confirmation reaches that number, and otherwise stays with its counter one higher. Any other chunk
-- keeps its counter, and stays unless the freeze is over and its own counter has reached that number.
-- No chunk is added.
pub confirm_lem :
    (cfg : Config) (ups : List Bytes) (b : Buffer) (removed : List ℕ) (i j : ℕ) (c : Chunk)
    → Stored cfg ups b
    → expected_consumer_count b < u64_mod
    → find i b.chunks ≡ some c
    → ((set_chunk_as_received i b removed).2 ≡ true)
      × (find j (set_chunk_as_received i b removed).0.chunks
          ≡ survivor (expected_consumer_count b) b.initial_chunks_freezing i j (find j b.chunks))
unfolding set_chunk_as_received
confirm_lem cfg ups b removed i j c s small e =
    let n = expected_consumer_count b in
    let use_up = increment_uses n in
    let m = modify i use_up b.chunks in
    let order = Within-modify i use_up 0 b.chunks_max_index b.chunks s.ordered in
    let swept = sanitize_exact (record b { chunks = m }) removed in
    let live = is_live n in
    rw (e, set_chunk_as_received)
      (
        refl,
        elim (Bool-cases (i == j)) [
          | inl hit ↦
              let here : find j b.chunks ≡ some c = ground (arith, hit, e) in
              let there : find j m ≡ some (use_up c) =
                ground (arith, hit, find-modify_self i use_up c b.chunks e) in
              rw here (
                ground (
                  arith,
                  swept,
                  find-keep live 0 b.chunks_max_index j (use_up c) m order there,
                  there,
                  hit,
                  increment_uses-counted n c small,
                ))
          | inr miss ↦
              let same = find-modify_ne i j use_up b.chunks miss in
              elim (Option-cases (find j b.chunks)) [
                | inl absent ↦
                    rw absent (ground (arith, swept, find-keep_absent live j m, same, absent))
                | inr (d, found) ↦ rw found (
                    ground (
                      arith,
                      swept,
                      find-keep live 0 b.chunks_max_index j d m order,
                      same,
                      found,
                      miss,
                    ))
              ]
        ],
      )
