-- ===== src/Buffer/History.antt =====
-- Sequences of calls of `Buffer`, and beside the buffer the data of the chunks that it took in.
use put_in_pipe.Common.{ℕ, ◌==◌, if◌then◌else◌, List, [], ◌∷◌, ◌++◌, Bytes}
use put_in_pipe.Config.{Config}
use put_in_pipe.Buffer.{
  Buffer, add_chunk, get_chunk, set_chunk_as_received, set_end_of_file,
  add_new_to_expected_consumers, remove_one_from_expected_consumers,
  set_initial_chunks_freezing_dropped,
}

pub data Call : Type 0 where
  adds : Bytes → Call
  gets : ℕ → Call
  confirms : ℕ → Call
  ends : Call
  joins : Bytes → Call
  leaves : Bytes → Call
  unfreezes : Call

unfoldable pub step : Config → Call → Buffer → Buffer
step cfg (adds binary_data) b = (add_chunk cfg binary_data b).0
step cfg (gets index) b = (get_chunk index b).0
step cfg (confirms index) b = (set_chunk_as_received index b []).0
step cfg ends b = set_end_of_file b
step cfg (joins public_id) b = (add_new_to_expected_consumers cfg public_id b).0
step cfg (leaves public_id) b = (remove_one_from_expected_consumers public_id b []).0
step cfg unfreezes b = (set_initial_chunks_freezing_dropped b []).0

-- The data of the chunks taken in so far: a call of `addChunk` that returns an index adds its own.
unfoldable pub uploads : Config → Call → Buffer → List Bytes → List Bytes
uploads cfg (adds binary_data) b ups =
    if (add_chunk cfg binary_data b).1 == 0 then ups else ups ++ binary_data ∷ []
uploads cfg _ b ups = ups

unfoldable pub run : Config → List Call → Buffer → Buffer
run cfg [] b = b
run cfg (c ∷ cs) b = run cfg cs (step cfg c b)

unfoldable pub uploaded : Config → List Call → Buffer → List Bytes → List Bytes
uploaded cfg [] b ups = ups
uploaded cfg (c ∷ cs) b ups = uploaded cfg cs (step cfg c b) (uploads cfg c b ups)
