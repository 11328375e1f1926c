-- ===== src/Buffer/Storing.antt =====
-- Each call of a buffer keeps what `Stored` says of it.
use put_in_pipe.Common.{
  ℕ, ◌+◌, ◌≤◌, ◌<◌, ◌≡◌, inl, inr, ◌==◌, u64_mod, false, List, [], ◌∷◌, length, length-append,
  arith, Bytes, bytes_discrete, Option-cases,
}
use put_in_pipe.Config.{Config}
use put_in_pipe.OrderedMap.{find}
use put_in_pipe.Buffer.{
  Buffer, add_chunk, get_chunk, set_chunk_as_received, set_end_of_file,
  add_new_to_expected_consumers, remove_one_from_expected_consumers,
  set_initial_chunks_freezing_dropped,
}
use put_in_pipe.Buffer.History.{
  Call, adds, gets, confirms, ends, joins, leaves, unfreezes, step, uploads, run, uploaded,
}
use put_in_pipe.AtomicSet
use put_in_pipe.AtomicSet.{AtomicSet}
use put_in_pipe.Buffer.Adding.{add_chunk_cases}
use put_in_pipe.Buffer.Stored.{Stored, with_chunk-Stored, sanitize-Stored, modify-Stored}

pub add_chunk-Stored :
    (cfg : Config) (ups : List Bytes) (u : Bytes) (b : Buffer)
    → length ups + 1 < u64_mod
    → Stored cfg ups b
    → Stored cfg (uploads cfg (adds u) b ups) (add_chunk cfg u b).0
unfolding uploads
add_chunk-Stored cfg ups u b room s =
    elim (add_chunk_cases cfg u b s.ordered (omega (arith, s.counted))) [
      | inl (_, e) ↦ rw e s
      | inr ((_, fits, free), e) ↦ rw (e, positive) (with_chunk-Stored cfg ups u b s fits free)
    ]
  where
    positive : (b.chunks_max_index + 1 == 0) ≡ false
    positive = ground arith

pub confirm-Stored :
    (cfg : Config) (ups : List Bytes) (b : Buffer) (index : ℕ) (removed : List ℕ)
    → Stored cfg ups b
    → Stored cfg ups (set_chunk_as_received index b removed).0
unfolding set_chunk_as_received
confirm-Stored cfg ups b index removed s = elim (Option-cases (find index b.chunks)) [
  | inl e ↦ rw (e, set_chunk_as_received) s
  | inr (c, e) ↦
      rw (e, set_chunk_as_received)
        (sanitize-Stored cfg ups _ removed (modify-Stored cfg ups b index _ s))
]

pub get_chunk-Stored :
    (cfg : Config) (ups : List Bytes) (b : Buffer) (index : ℕ)
    → Stored cfg ups b
    → Stored cfg ups (get_chunk index b).0
unfolding get_chunk
get_chunk-Stored cfg ups b index s = ground arith

pub set_end_of_file-Stored :
    (cfg : Config) (ups : List Bytes) (b : Buffer)
    → Stored cfg ups b
    → Stored cfg ups (set_end_of_file b)
unfolding set_end_of_file
set_end_of_file-Stored cfg ups b s = ground arith

with_consumers-Stored :
    (cfg : Config) (ups : List Bytes) (b : Buffer) (consumers : AtomicSet Bytes)
    → Stored cfg ups b
    → Stored cfg ups (record b { expected_consumers = consumers })
with_consumers-Stored cfg ups b consumers s = ground arith

pub join-Stored :
    (cfg : Config) (ups : List Bytes) (b : Buffer) (public_id : Bytes)
    → Stored cfg ups b
    → Stored cfg ups (add_new_to_expected_consumers cfg public_id b).0
unfolding add_new_to_expected_consumers
join-Stored cfg ups b public_id s = ground (
  arith,
  with_consumers-Stored cfg ups b (AtomicSet.add bytes_discrete public_id b.expected_consumers).0 s,
)

pub leave-Stored :
    (cfg : Config) (ups : List Bytes) (b : Buffer) (public_id : Bytes) (removed : List ℕ)
    → Stored cfg ups b
    → Stored cfg ups (remove_one_from_expected_consumers public_id b removed).0
unfolding remove_one_from_expected_consumers
leave-Stored cfg ups b public_id removed s =
    let consumers = (AtomicSet.remove bytes_discrete public_id b.expected_consumers).0 in
    let rest : Buffer = record b { expected_consumers = consumers } in
    ground
      (arith, sanitize-Stored cfg ups rest removed (with_consumers-Stored cfg ups b consumers s))

pub unfreeze-Stored :
    (cfg : Config) (ups : List Bytes) (b : Buffer) (removed : List ℕ)
    → Stored cfg ups b
    → Stored cfg ups (set_initial_chunks_freezing_dropped b removed).0
unfolding set_initial_chunks_freezing_dropped
unfreeze-Stored cfg ups b removed s =
    ground
      (arith, sanitize-Stored cfg ups (record b { initial_chunks_freezing = false }) removed thawed)
  where
    thawed : Stored cfg ups (record b { initial_chunks_freezing = false })
    thawed = ground arith

-- Every call of a buffer keeps the stored chunks equal to the uploads that their indices count.
pub step-Stored :
    (cfg : Config) (c : Call) (ups : List Bytes) (b : Buffer)
    → length ups + 1 < u64_mod
    → Stored cfg ups b
    → Stored cfg (uploads cfg c b ups) (step cfg c b)
unfolding step uploads
step-Stored cfg (adds u) ups b room s = add_chunk-Stored cfg ups u b room s
step-Stored cfg (gets index) ups b room s = get_chunk-Stored cfg ups b index s
step-Stored cfg (confirms index) ups b room s = confirm-Stored cfg ups b index [] s
step-Stored cfg ends ups b room s = set_end_of_file-Stored cfg ups b s
step-Stored cfg (joins public_id) ups b room s = join-Stored cfg ups b public_id s
step-Stored cfg (leaves public_id) ups b room s = leave-Stored cfg ups b public_id [] s
step-Stored cfg unfreezes ups b room s = unfreeze-Stored cfg ups b [] s

pub length-uploads-le :
    (cfg : Config) (c : Call) (b : Buffer) (ups : List Bytes)
    → length (uploads cfg c b ups) ≤ length ups + 1
unfolding uploads
length-uploads-le cfg (adds u) b ups = ground (arith, length-append {0} ups (u ∷ []))
length-uploads-le cfg _ b ups = omega arith

pub run-Stored :
    (cfg : Config) (cs : List Call) (ups : List Bytes) (b : Buffer)
    → length ups + length cs < u64_mod
    → Stored cfg ups b
    → Stored cfg (uploaded cfg cs b ups) (run cfg cs b)
unfolding run uploaded
run-Stored cfg [] ups b room s = s
run-Stored cfg (c ∷ cs) ups b room s =
    run-Stored cfg cs (uploads cfg c b ups) (step cfg c b)
      (omega (arith, length-uploads-le cfg c b ups)) (step-Stored cfg c ups b (omega arith) s)
