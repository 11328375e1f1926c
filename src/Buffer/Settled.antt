-- ===== src/Buffer/Settled.antt =====
-- After the freeze: what the counters of the chunks in the buffer can be, call by call.
use put_in_pipe.Common.{
  ℕ, ◌+◌, ◌-◌, ◌≤◌, ◌<◌, ◌≡◌, ◌⊎◌, not, if_elim, inl, inr, u64_mod, Bool, true, false, List, [],
  ◌∷◌, length, All, All-append, arith, Bytes, bytes_discrete, Option-cases,
}
use put_in_pipe.Config.{Config}
use put_in_pipe.OrderedMap.{find, modify}
use put_in_pipe.Chunk.{Chunk, new_chunk, increment_uses}
use put_in_pipe.AtomicSet
use put_in_pipe.AtomicSet.{contains}
use put_in_pipe.AtomicSet.Laws.{add_lem, remove_lem, Distinct}
use put_in_pipe.Buffer.{
  Buffer, add_chunk, get_chunk, set_chunk_as_received, set_end_of_file, sanitize,
  add_new_to_expected_consumers, remove_one_from_expected_consumers,
  set_initial_chunks_freezing_dropped, expected_consumer_count,
}
use put_in_pipe.Buffer.Sanitize.{sanitize_exact, live-All}
use put_in_pipe.Buffer.Adding.{add_chunk_cases, with_chunk}
use put_in_pipe.Buffer.Stored.{Stored}
use put_in_pipe.Buffer.History.{Call, adds, gets, confirms, ends, joins, leaves, unfreezes, step}

-- Once the freeze is over the counter of every chunk in the buffer is 0 or below the number of
-- expected consumers.
abbrev pub Settled : Buffer → Type 0
Settled b =
    b.initial_chunks_freezing ≡ false → All (λ e. e.1.uses ≤ expected_consumer_count b - 1) b.chunks

All-mono :
    (k n : ℕ) (m : List (ℕ × Chunk)) → k ≤ n → All (λ e. e.1.uses ≤ k) m → All (λ e. e.1.uses ≤ n) m
All-mono k n [] h a = tt
All-mono k n ((i, c) ∷ m) h a = (omega (arith, a.0), All-mono k n m h a.1)

pub All-lt :
    (n : ℕ) (m : List (ℕ × Chunk)) → All (λ e. e.1.uses < n) m → All (λ e. e.1.uses ≤ n - 1) m
All-lt n [] a = tt
All-lt n ((i, c) ∷ m) a = (omega (arith, a.0), All-lt n m a.1)

sanitize-Settled : (b : Buffer) (removed : List ℕ) → Settled (sanitize b removed).0
sanitize-Settled b removed = rw (sanitize_exact b removed) (
    if_elim (λ (r : Buffer × List ℕ). Settled r.0) b.initial_chunks_freezing (b, removed) _
      (λ frozen thawed. cc)
      (λ _ _. All-lt (expected_consumer_count b) _ (live-All (expected_consumer_count b) b.chunks)))

-- The expected consumers are distinct, and no more than the configured number.
pub record Admitted (cfg : Config) (b : Buffer) : Type 0 where
  pub distinct : Distinct bytes_discrete b.expected_consumers.elements
  pub few : expected_consumer_count b ≤ cfg.transfer_session_max_consumer_count

sanitize-Admitted :
    (cfg : Config) (b : Buffer) (removed : List ℕ)
    → Admitted cfg b
    → Admitted cfg (sanitize b removed).0
sanitize-Admitted cfg b removed a = ground (arith, sanitize_exact b removed)

-- Every call keeps the expected consumers distinct and within the configured number.
pub step-Admitted :
    (cfg : Config) (c : Call) (b : Buffer)
    → cfg.transfer_session_max_consumer_count + 1 < u64_mod
    → Admitted cfg b
    → Admitted cfg (step cfg c b)
unfolding step
step-Admitted cfg (adds u) b room a = unfold add_chunk in ground arith
step-Admitted cfg (gets index) b room a = unfold get_chunk in ground arith
step-Admitted cfg (confirms index) b room a =
    unfold set_chunk_as_received in
    ground (
      arith,
      sanitize-Admitted cfg
          (record b { chunks = modify index (increment_uses (expected_consumer_count b)) b.chunks })
          [],
    )
step-Admitted cfg ends b room a = unfold set_end_of_file in ground arith
step-Admitted cfg (joins public_id) b room a =
    unfold add_new_to_expected_consumers AtomicSet.add in
    ground (arith, add_lem bytes_discrete public_id b.expected_consumers a.distinct)
step-Admitted cfg (leaves public_id) b room a =
    unfold remove_one_from_expected_consumers in
    let rest : Buffer = record b {
      expected_consumers = (AtomicSet.remove bytes_discrete public_id b.expected_consumers).0;
    } in
    ground (
      arith,
      remove_lem bytes_discrete public_id b.expected_consumers a.distinct,
      sanitize-Admitted cfg rest [],
    )
step-Admitted cfg unfreezes b room a =
    unfold set_initial_chunks_freezing_dropped in
    ground (arith, sanitize-Admitted cfg (record b { initial_chunks_freezing = false }) [])

add_chunk-Settled :
    (cfg : Config) (ups : List Bytes) (u : Bytes) (b : Buffer)
    → Stored cfg ups b
    → length ups + 1 < u64_mod
    → Settled b
    → Settled (add_chunk cfg u b).0
add_chunk-Settled cfg ups u b s room h =
    elim (add_chunk_cases cfg u b s.ordered (omega (arith, s.counted))) [
      | inl (_, e) ↦ rw e h
      | inr (_, e) ↦ rw e (
          unfold with_chunk new_chunk in
          λ thawed.
            All-append (λ c. c.1.uses ≤ expected_consumer_count b - 1) b.chunks _ (h thawed)
              (omega arith, tt))
    ]

-- A join is refused without a change, or it adds the consumer, and then nothing was removed before.
pub join_cases :
    (cfg : Config) (public_id : Bytes) (b : Buffer)
    → (add_new_to_expected_consumers cfg public_id b ≡ (b, false))
      ⊎ ((b.some_chunk_was_removed ≡ false)
          × (contains bytes_discrete public_id b.expected_consumers.elements ≡ false)
          × (add_new_to_expected_consumers cfg public_id b ≡ (
            record b {
              expected_consumers = record { elements = public_id ∷ b.expected_consumers.elements };
            },
            true,
          )))
unfolding add_new_to_expected_consumers AtomicSet.add
join_cases cfg public_id b = ground arith

join-Settled :
    (cfg : Config) (public_id : Bytes) (b : Buffer)
    → Settled b
    → Settled (add_new_to_expected_consumers cfg public_id b).0
join-Settled cfg public_id b h = elim (join_cases cfg public_id b) [
  | inl e ↦ rw e h
  | inr (_, _, e) ↦
      rw e (λ thawed. All-mono (expected_consumer_count b - 1) _ b.chunks (omega arith) (h thawed))
]

confirm-Settled :
    (index : ℕ) (b : Buffer) (removed : List ℕ)
    → Settled b
    → Settled (set_chunk_as_received index b removed).0
unfolding set_chunk_as_received
confirm-Settled index b removed h = elim (Option-cases (find index b.chunks)) [
  | inl e ↦ rw (e, set_chunk_as_received) h
  | inr (c, e) ↦ rw (e, set_chunk_as_received) (sanitize-Settled _ removed)
]

leave-Settled :
    (public_id : Bytes) (b : Buffer) (removed : List ℕ)
    → Settled b
    → Settled (remove_one_from_expected_consumers public_id b removed).0
unfolding remove_one_from_expected_consumers
leave-Settled public_id b removed h =
    if_elim (λ (r : Buffer × List ℕ). Settled r.0)
      (AtomicSet.remove bytes_discrete public_id b.expected_consumers).1 (sanitize _ removed)
      (b, removed) (λ _. sanitize-Settled _ removed) (λ _. h)

unfreeze-Settled :
    (b : Buffer) (removed : List ℕ)
    → Settled b
    → Settled (set_initial_chunks_freezing_dropped b removed).0
unfolding set_initial_chunks_freezing_dropped
unfreeze-Settled b removed h =
    if_elim (λ (r : Buffer × List ℕ × Bool). Settled r.0) (not b.initial_chunks_freezing)
      (b, removed, false) (_, _, true) (λ _. h)
      (λ _. sanitize-Settled (record b { initial_chunks_freezing = false }) removed)

get_chunk-Settled : (index : ℕ) (b : Buffer) → Settled b → Settled (get_chunk index b).0
unfolding get_chunk
get_chunk-Settled index b h = elim (Option-cases (find index b.chunks)) [
  | inl e ↦ rw (e, get_chunk) h
  | inr (c, e) ↦ rw (e, get_chunk) h
]

-- Every call of a buffer with fewer than 2^64 - 1 uploads keeps it settled.
pub step-Settled :
    (cfg : Config) (c : Call) (ups : List Bytes) (b : Buffer)
    → length ups + 1 < u64_mod
    → Stored cfg ups b
    → Settled b
    → Settled (step cfg c b)
unfolding step
step-Settled cfg (adds u) ups b room s h = add_chunk-Settled cfg ups u b s room h
step-Settled cfg (gets index) ups b room s h = get_chunk-Settled index b h
step-Settled cfg (confirms index) ups b room s h = confirm-Settled index b [] h
step-Settled cfg ends ups b room s h =
    unfold set_end_of_file in
    if_elim Settled b.end_of_file b (record b { end_of_file = true }) (λ _. h) (λ _. h)
step-Settled cfg (joins public_id) ups b room s h = join-Settled cfg public_id b h
step-Settled cfg (leaves public_id) ups b room s h = leave-Settled public_id b [] h
step-Settled cfg unfreezes ups b room s h = unfreeze-Settled b [] h
