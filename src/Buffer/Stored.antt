-- ===== src/Buffer/Stored.antt =====
-- What the chunks of a buffer have to do with the data that was uploaded.
use put_in_pipe.Common.{
  ℕ, ◌+◌, ◌-◌, ◌≤◌, ◌<◌, ◌≡◌, refl, u64, Bool, true, false, List, [], ◌∷◌, ◌++◌, some, length,
  length-append, length-keep-le, get_elem?, get_elem?-append_left, get_elem?-append_length, keep,
  any, All, All-keep, All-append, arith, Bytes, ◌∙◌, if_elim, ◌||◌,
}
use put_in_pipe.Config.{Config}
use put_in_pipe.OrderedMap.{find, modify}
use put_in_pipe.OrderedMap.Order.{
  Within, Within-append, Within-keep, Within-modify, length-modify, All-modify, All-find,
}
use put_in_pipe.Chunk.{Chunk, new_chunk, increment_uses}
use put_in_pipe.Buffer.{Buffer, new_buffer, sanitize, expected_consumer_count}
use put_in_pipe.Buffer.Sanitize.{is_live, is_spent, sanitize_exact, keep_live_all}
use put_in_pipe.Buffer.Adding.{with_chunk}

-- The bytes of a sequence of uploads.
pub total : List Bytes → ℕ
total [] = 0
total (u ∷ us) = length u + total us

-- The entry holds the upload that its index counts.
abbrev pub IsUpload : List Bytes → ℕ × Chunk → Type 0
IsUpload ups e = get_elem? ups (e.0 - 1) ≡ some e.1.bytes

pub record Stored (cfg : Config) (ups : List Bytes) (b : Buffer) : Type 0 where
  pub ordered : Within 0 b.chunks_max_index b.chunks
  pub counted : b.chunks_max_index ≡ length ups
  pub contents : All (IsUpload ups) b.chunks
  pub received : b.bytes_in_total ≡ u64 (total ups)
  pub capped : length b.chunks ≤ cfg.transfer_session_chunk_queue_max_size
  pub small : All (λ u. length u ≤ cfg.transfer_session_max_chunk_size) ups
  pub nothing_lost : b.some_chunk_was_removed ≡ false → length b.chunks ≡ b.chunks_max_index
  pub frozen : b.initial_chunks_freezing ≡ true → b.some_chunk_was_removed ≡ false

total-append : (us : List Bytes) (u : Bytes) → total (us ++ u ∷ []) ≡ total us + length u
unfolding total
total-append [] u = omega arith
total-append (v ∷ us) u = omega (arith, total-append us u)

pub new_buffer-Stored : (cfg : Config) → Stored cfg [] new_buffer
unfolding total
new_buffer-Stored cfg = record {
  ordered = omega arith;
  counted = refl;
  contents = tt;
  received = refl;
  capped = omega arith;
  small = tt;
  nothing_lost = λ _. refl;
  frozen = λ _. refl;
}

-- A longer history keeps the uploads that it had.
IsUpload-append :
    (hi : ℕ) (ups : List Bytes) (u : Bytes) (lo : ℕ) (m : List (ℕ × Chunk))
    → Within lo hi m
    → hi ≤ length ups
    → All (IsUpload ups) m
    → All (IsUpload (ups ++ u ∷ [])) m
IsUpload-append hi ups u lo [] w h a = tt
IsUpload-append hi ups u lo ((i, c) ∷ m) w h a =
    let bound = put_in_pipe.OrderedMap.Order.Within-le i hi m w.1 in
    (
      get_elem?-append_left ups (u ∷ []) (i - 1) (omega arith) ∙ a.0,
      IsUpload-append hi ups u i m w.1 h a.1,
    )

pub with_chunk-Stored :
    (cfg : Config) (ups : List Bytes) (u : Bytes) (b : Buffer)
    → Stored cfg ups b
    → length u ≤ cfg.transfer_session_max_chunk_size
    → length b.chunks < cfg.transfer_session_chunk_queue_max_size
    → Stored cfg (ups ++ u ∷ []) (with_chunk u b)
unfolding with_chunk new_chunk
with_chunk-Stored cfg ups u b s small room = record {
  ordered =
      Within-append 0 b.chunks_max_index (b.chunks_max_index + 1) (new_chunk u) b.chunks s.ordered
        (omega arith);
  counted = omega (arith, s.counted, length-append {0} ups (u ∷ []));
  contents =
      All-append (IsUpload (ups ++ u ∷ [])) b.chunks _
        (IsUpload-append b.chunks_max_index ups u 0 b.chunks s.ordered (omega (arith, s.counted))
          s.contents)
        (last, tt);
  received = omega (arith, s.received, total-append ups u);
  capped = omega (arith, length-append {0} b.chunks ((b.chunks_max_index + 1, new_chunk u) ∷ []));
  small = All-append _ ups (u ∷ []) s.small (small, tt);
  nothing_lost = λ e. omega (
    arith,
    s.nothing_lost e,
    length-append {0} b.chunks ((b.chunks_max_index + 1, new_chunk u) ∷ []),
  );
  frozen = s.frozen;
}
  where
    last : get_elem? (ups ++ u ∷ []) (b.chunks_max_index + 1 - 1) ≡ some u
    last =
        let e : b.chunks_max_index + 1 - 1 ≡ length ups = omega (arith, s.counted) in
        rw e (get_elem?-append_length ups u)

pub sanitize-Stored :
    (cfg : Config) (ups : List Bytes) (b : Buffer) (removed : List ℕ)
    → Stored cfg ups b
    → Stored cfg ups (sanitize b removed).0
sanitize-Stored cfg ups b removed s = rw (sanitize_exact b removed) (
    if_elim (λ (r : Buffer × List ℕ). Stored cfg ups r.0) b.initial_chunks_freezing _ _ (λ _. s)
      (λ thawed. record {
        ordered = Within-keep live 0 b.chunks_max_index b.chunks s.ordered;
        counted = s.counted;
        contents = All-keep (IsUpload ups) live b.chunks s.contents;
        received = s.received;
        capped = omega (arith, s.capped, length-keep-le live b.chunks);
        small = s.small;
        nothing_lost = λ e. kept e;
        frozen = λ e. cc;
      }))
  where
    live : ℕ × Chunk → Bool
    live = is_live (expected_consumer_count b)

    kept :
        b.some_chunk_was_removed || any (is_spent (expected_consumer_count b)) b.chunks ≡ false
        → length (keep live b.chunks) ≡ b.chunks_max_index
    kept e = ground (arith, s.nothing_lost, keep_live_all (expected_consumer_count b) b.chunks)

pub modify-Stored :
    (cfg : Config) (ups : List Bytes) (b : Buffer) (index expected : ℕ)
    → Stored cfg ups b
    → Stored cfg ups (record b { chunks = modify index (increment_uses expected) b.chunks })
unfolding increment_uses
modify-Stored cfg ups b index expected s = record {
  ordered = Within-modify index use_up 0 b.chunks_max_index b.chunks s.ordered;
  counted = s.counted;
  contents = All-modify (IsUpload ups) index use_up b.chunks (λ c e. ground arith) s.contents;
  received = s.received;
  capped = omega (arith, s.capped, length-modify index use_up b.chunks);
  small = s.small;
  nothing_lost = λ e. omega (arith, s.nothing_lost e, length-modify index use_up b.chunks);
  frozen = s.frozen;
}
  where
    use_up : Chunk → Chunk
    use_up = increment_uses expected
