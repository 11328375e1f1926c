-- ===== src/Buffer/Counters.antt =====
-- buffer.cpp: the counters of the chunks in a buffer, after any sequence of calls.
use put_in_pipe.Common.{
  ℕ, ◌+◌, ◌-◌, ◌≤◌, ◌<◌, ◌≡◌, ◌⊎◌, u64_mod, false, List, [], ◌∷◌, some, length, arith, Bytes,
}
use put_in_pipe.Config.{Config}
use put_in_pipe.OrderedMap.{find}
use put_in_pipe.OrderedMap.Order.{All-find}
use put_in_pipe.Chunk.{Chunk}
use put_in_pipe.Buffer.{Buffer, new_buffer, expected_consumer_count}
use put_in_pipe.Buffer.Stored.{Stored, new_buffer-Stored}
use put_in_pipe.Buffer.Storing.{step-Stored, length-uploads-le}
use put_in_pipe.Buffer.History.{Call, step, run, uploads}
use put_in_pipe.Buffer.Settled.{Settled, step-Settled}

run-Settled :
    (cfg : Config) (cs : List Call) (ups : List Bytes) (b : Buffer)
    → length ups + length cs < u64_mod
    → Stored cfg ups b
    → Settled b
    → Settled (run cfg cs b)
unfolding run
run-Settled cfg [] ups b room s h = h
run-Settled cfg (c ∷ cs) ups b room s h =
    run-Settled cfg cs (uploads cfg c b ups) (step cfg c b)
      (omega (arith, length-uploads-le cfg c b ups)) (step-Stored cfg c ups b (omega arith) s)
      (step-Settled cfg c ups b (omega arith) s h)

settled_counter : (k n : ℕ) → k ≤ n - 1 → (k ≡ 0) ⊎ (k < n)
settled_counter k n h = ground arith

-- After any sequence of fewer than 2^64 calls on a new buffer that ended the freeze, the counter of
-- every chunk in the buffer is 0 or below the number of expected consumers: a chunk whose counter is
-- positive and has reached that number does not stay, whether the counter grew, a consumer left or
-- the freeze ended.
pub run_counters :
    (cfg : Config) (cs : List Call) (i : ℕ) (c : Chunk)
    → length cs < u64_mod
    → (run cfg cs new_buffer).initial_chunks_freezing ≡ false
    → find i (run cfg cs new_buffer).chunks ≡ some c
    → (c.uses ≡ 0) ⊎ (c.uses < expected_consumer_count (run cfg cs new_buffer))
run_counters cfg cs i c room thawed found =
    let b = run cfg cs new_buffer in
    let settled =
      run-Settled cfg cs [] new_buffer (omega arith) (new_buffer-Stored cfg) (λ e. tt) in
    settled_counter c.uses (expected_consumer_count b)
      (All-find (λ e. e.1.uses ≤ expected_consumer_count b - 1) i c b.chunks (settled thawed) found)
