-- ===== src/Buffer/Lifetime.antt =====
-- What can happen to a buffer only once: end of file, the end of the freeze, the first removal.
use put_in_pipe.Common.{ℕ, ◌≡◌, refl, true, false, List, [], ◌∷◌, arith, Bytes, ◌∙◌, bytes_discrete}
use put_in_pipe.Config.{Config}
use put_in_pipe.Chunk.{Chunk}
use put_in_pipe.AtomicSet
use put_in_pipe.Buffer.{
  Buffer, add_chunk, get_chunk, set_chunk_as_received, set_end_of_file, sanitize,
  add_new_to_expected_consumers, remove_one_from_expected_consumers,
  set_initial_chunks_freezing_dropped, expected_consumer_count,
}
use put_in_pipe.Buffer.Sanitize.{sanitize_exact}
use put_in_pipe.Buffer.History.{
  Call, adds, gets, confirms, ends, joins, leaves, unfreezes, step, uploads, run, uploaded,
}

-- Nothing that has happened is undone.
pub record Later (b b' : Buffer) : Type 0 where
  pub ended : b.end_of_file ≡ true → b'.end_of_file ≡ true
  pub thawed : b.initial_chunks_freezing ≡ false → b'.initial_chunks_freezing ≡ false
  pub lossy : b.some_chunk_was_removed ≡ true → b'.some_chunk_was_removed ≡ true

sanitize-Later : (b : Buffer) (removed : List ℕ) → Later b (sanitize b removed).0
sanitize-Later b removed = ground (arith, sanitize_exact b removed)

add_chunk-Later : (cfg : Config) (u : Bytes) (b : Buffer) → Later b (add_chunk cfg u b).0
unfolding add_chunk
add_chunk-Later cfg u b = ground arith

-- No call takes back the end of the file, the end of the freeze, or the mark of a lost chunk.
pub step-Later : (cfg : Config) (c : Call) (b : Buffer) → Later b (step cfg c b)
unfolding step
step-Later cfg (adds u) b = add_chunk-Later cfg u b
step-Later cfg (gets index) b = unfold get_chunk in ground arith
step-Later cfg (confirms index) b =
    unfold set_chunk_as_received in
    ground (
      arith,
      sanitize-Later
          (record b {
            chunks =
                put_in_pipe.OrderedMap.modify index
                  (put_in_pipe.Chunk.increment_uses (expected_consumer_count b)) b.chunks;
          })
          [],
    )
step-Later cfg ends b = unfold set_end_of_file in ground arith
step-Later cfg (joins public_id) b = unfold add_new_to_expected_consumers in ground arith
step-Later cfg (leaves public_id) b =
    unfold remove_one_from_expected_consumers in
    ground (
      arith,
      sanitize-Later
          (record b {
            expected_consumers = (AtomicSet.remove bytes_discrete public_id b.expected_consumers).0;
          })
          [],
    )
step-Later cfg unfreezes b =
    unfold set_initial_chunks_freezing_dropped in
    ground (arith, sanitize-Later (record b { initial_chunks_freezing = false }) [])

-- No sequence of calls takes back the end of the file, the end of the freeze, or the mark of a lost
-- chunk.
pub run-Later : (cfg : Config) (cs : List Call) (b : Buffer) → Later b (run cfg cs b)
unfolding run
run-Later cfg [] b = ground arith
run-Later cfg (c ∷ cs) b = ground (arith, step-Later cfg c b, run-Later cfg cs (step cfg c b))

uploads_ended :
    (cfg : Config) (c : Call) (b : Buffer) (ups : List Bytes)
    → b.end_of_file ≡ true
    → uploads cfg c b ups ≡ ups
unfolding uploads add_chunk
uploads_ended cfg (adds u) b ups h = ground arith
uploads_ended cfg _ b ups h = refl

-- Once the end of the file is set no sequence of calls takes in another chunk.
pub uploaded_ended :
    (cfg : Config) (cs : List Call) (b : Buffer) (ups : List Bytes)
    → b.end_of_file ≡ true
    → uploaded cfg cs b ups ≡ ups
unfolding uploaded
uploaded_ended cfg [] b ups h = refl
uploaded_ended cfg (c ∷ cs) b ups h =
    uploaded_ended cfg cs (step cfg c b) (uploads cfg c b ups) ((step-Later cfg c b).ended h)
    ∙ uploads_ended cfg c b ups h
