-- ===== src/Buffer/Small.antt =====
-- How much the chunks of a buffer take, whatever is called and however often.
use put_in_pipe.Common.{
  ℕ, ◌+◌, ◌≤◌, u64, Bool, false, not, List, [], ◌∷◌, length, All, All-keep, length-keep-le, Bytes,
  bytes_discrete, Option-cases, if_elim, inl, inr, arith, ltb, leb,
}
use put_in_pipe.Config.{Config}
use put_in_pipe.OrderedMap.{find, try_emplace}
use put_in_pipe.OrderedMap.Order.{length-modify, All-modify}
use put_in_pipe.Chunk.{Chunk, new_chunk, increment_uses}
use put_in_pipe.Buffer.{
  Buffer, add_chunk, get_chunk, set_chunk_as_received, set_end_of_file, sanitize,
  expected_consumer_count, add_new_to_expected_consumers, remove_one_from_expected_consumers,
  set_initial_chunks_freezing_dropped,
}
use put_in_pipe.Buffer.Sanitize.{sanitize_exact, is_live}
use put_in_pipe.Buffer.History.{
  Call, adds, gets, confirms, ends, joins, leaves, unfreezes, step, run,
}
use put_in_pipe.AtomicSet

-- A buffer with no more chunks than configured, none of them larger than configured.
abbrev pub Small : Config → Buffer → Type 0
Small cfg b =
    (length b.chunks ≤ cfg.transfer_session_chunk_queue_max_size)
    × All (λ e. length e.1.bytes ≤ cfg.transfer_session_max_chunk_size) b.chunks

abbrev SmallResult : Config → Buffer × ℕ → Type 0
SmallResult cfg r = Small cfg r.0

emplace-All :
    (limit k : ℕ) (v : Chunk) (m : List (ℕ × Chunk))
    → length v.bytes ≤ limit
    → All (λ e. length e.1.bytes ≤ limit) m
    → All (λ e. length e.1.bytes ≤ limit) (try_emplace k v m).0
unfolding try_emplace
emplace-All limit k v [] h a = (h, tt)
emplace-All limit k v ((j, w) ∷ m) h a = ground (arith, h, a, emplace-All limit k v m h a.1)

length-emplace :
    (k : ℕ) (v : Chunk) (m : List (ℕ × Chunk)) → length (try_emplace k v m).0 ≤ length m + 1
unfolding try_emplace
length-emplace k v [] = omega arith
length-emplace k v ((j, w) ∷ m) = ground (arith, length-emplace k v m)

add_chunk-Small :
    (cfg : Config) (d : Bytes) (b : Buffer) → Small cfg b → Small cfg (add_chunk cfg d b).0
unfolding add_chunk new_chunk
add_chunk-Small cfg d b s =
    let index = u64 (b.chunks_max_index + 1) in
    let emplaced = try_emplace index (new_chunk d) b.chunks in
    if_elim (SmallResult cfg) b.end_of_file _ _ (λ _. s)
      (λ _.
        if_elim (SmallResult cfg) (ltb cfg.transfer_session_max_chunk_size (length d)) _ _ (λ _. s)
          (λ fit.
            if_elim (SmallResult cfg)
              (leb cfg.transfer_session_chunk_queue_max_size (length b.chunks)) _ _ (λ _. s)
              (λ room.
                if_elim (SmallResult cfg) emplaced.1 _ _
                  (λ _. (
                    ground (arith, room, length-emplace index (new_chunk d) b.chunks),
                    emplace-All cfg.transfer_session_max_chunk_size index (new_chunk d) b.chunks
                        (ground (arith, fit)) s.1,
                  ))
                  (λ _. s))))

sanitize-Small :
    (cfg : Config) (b : Buffer) (removed : List ℕ) → Small cfg b → Small cfg (sanitize b removed).0
sanitize-Small cfg b removed s =
    let live = is_live (expected_consumer_count b) in
    rw (sanitize_exact b removed) (
      if_elim (λ (r : Buffer × List ℕ). Small cfg r.0) b.initial_chunks_freezing _ _ (λ _. s)
        (λ _. (omega (arith, s.0, length-keep-le live b.chunks), All-keep _ live b.chunks s.1)))

confirm-Small :
    (cfg : Config) (index : ℕ) (b : Buffer) (removed : List ℕ)
    → Small cfg b
    → Small cfg (set_chunk_as_received index b removed).0
unfolding set_chunk_as_received increment_uses
confirm-Small cfg index b removed s = elim (Option-cases (find index b.chunks)) [
  | inl e ↦ rw (e, set_chunk_as_received) s
  | inr (c, e) ↦
      let use_up = increment_uses (expected_consumer_count b) in
      rw (e, set_chunk_as_received)
        (sanitize-Small cfg _ removed (
          omega (arith, s.0, length-modify index use_up b.chunks),
          All-modify (λ e. length e.1.bytes ≤ cfg.transfer_session_max_chunk_size) index use_up
              b.chunks (λ c h. ground (arith, h)) s.1,
        ))
]

step-Small : (cfg : Config) (call : Call) (b : Buffer) → Small cfg b → Small cfg (step cfg call b)
unfolding step
step-Small cfg (adds d) b s = add_chunk-Small cfg d b s
step-Small cfg (gets index) b s =
    unfold get_chunk in ground (arith, s, Option-cases (find index b.chunks))
step-Small cfg (confirms index) b s = confirm-Small cfg index b [] s
step-Small cfg ends b s =
    unfold set_end_of_file in if_elim (Small cfg) b.end_of_file _ _ (λ _. s) (λ _. s)
step-Small cfg (joins public_id) b s =
    unfold add_new_to_expected_consumers in ground (arith, s.0, s.1)
step-Small cfg (leaves public_id) b s =
    unfold remove_one_from_expected_consumers in
    let (consumers, found) = AtomicSet.remove bytes_discrete public_id b.expected_consumers in
    if_elim (λ (r : Buffer × List ℕ). Small cfg r.0) found _ _
      (λ _. sanitize-Small cfg (record b { expected_consumers = consumers }) [] s) (λ _. s)
step-Small cfg unfreezes b s =
    unfold set_initial_chunks_freezing_dropped in
    if_elim (λ (r : Buffer × List ℕ × Bool). Small cfg r.0) (not b.initial_chunks_freezing) _ _
      (λ _. s) (λ _. sanitize-Small cfg (record b { initial_chunks_freezing = false }) [] s)

pub run-Small :
    (cfg : Config) (calls : List Call) (b : Buffer) → Small cfg b → Small cfg (run cfg calls b)
unfolding run
run-Small cfg [] b s = s
run-Small cfg (c ∷ cs) b s = run-Small cfg cs (step cfg c b) (step-Small cfg c b s)
