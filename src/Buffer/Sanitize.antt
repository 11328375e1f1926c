-- ===== src/Buffer/Sanitize.antt =====
-- `Buffer::sanitize` against a description with no loop: which chunks stay and which go.
use put_in_pipe.Common.{
  ℕ, ◌<◌, ◌≡◌, refl, ◌==◌, leb, if◌then◌else◌, Bool, true, false, not, ◌||◌, List, [], ◌∷◌, ◌++◌,
  keep, any, All, arith, append-nil, append_assoc,
}
use put_in_pipe.Chunk.{Chunk, how_much_is_left}
use put_in_pipe.Buffer.{Buffer, sanitize_loop, sanitize, expected_consumer_count}

-- Every expected consumer has confirmed the chunk, as far as the counter tells.
abbrev pub is_spent : ℕ → ℕ × Chunk → Bool
is_spent expected e = leb expected e.1.uses

abbrev pub is_live : ℕ → ℕ × Chunk → Bool
is_live expected e = not (is_spent expected e)

pub indices : List (ℕ × Chunk) → List ℕ
indices [] = []
indices ((i, c) ∷ m) = i ∷ indices m

pub how_much_is_left-spent :
    (expected : ℕ) (i : ℕ) (c : Chunk)
    → (how_much_is_left expected c == 0) ≡ is_spent expected (i, c)
unfolding how_much_is_left
how_much_is_left-spent expected i c = ground arith

pub sanitize_loop_lem :
    (expected : ℕ) (m : List (ℕ × Chunk)) (flag : Bool) (removed : List ℕ)
    → sanitize_loop expected m flag removed ≡ (
      keep (is_live expected) m,
      flag || any (is_spent expected) m,
      removed ++ indices (keep (is_spent expected) m),
    )
unfolding sanitize_loop indices
sanitize_loop_lem expected [] flag removed = ground (arith, append-nil removed)
sanitize_loop_lem expected ((i, c) ∷ m) flag removed = ground (
  arith,
  how_much_is_left-spent expected i c,
  sanitize_loop_lem expected m true (removed ++ i ∷ []),
  sanitize_loop_lem expected m flag removed,
  append_assoc removed (i ∷ []) (indices (keep (is_spent expected) m)),
)

-- While the initial freeze lasts nothing is removed. Afterwards exactly the chunks go whose counter
-- has reached the number of expected consumers, in order; the others stay as they are, and the
-- flag tells whether any chunk was ever removed.
pub sanitize_exact :
    (b : Buffer) (removed : List ℕ)
    → sanitize b removed ≡ (
        if b.initial_chunks_freezing then (b, removed) else (
          record b {
            chunks = keep (is_live (expected_consumer_count b)) b.chunks;
            some_chunk_was_removed =
                b.some_chunk_was_removed || any (is_spent (expected_consumer_count b)) b.chunks;
          },
          removed ++ indices (keep (is_spent (expected_consumer_count b)) b.chunks),
        ))
unfolding sanitize
sanitize_exact b removed =
    ground (
      arith,
      sanitize_loop_lem (expected_consumer_count b) b.chunks b.some_chunk_was_removed removed,
    )

-- If nothing is spent the list does not change; otherwise it gets shorter.
pub keep_live_all :
    (expected : ℕ) (m : List (ℕ × Chunk))
    → any (is_spent expected) m ≡ false
    → keep (is_live expected) m ≡ m
keep_live_all expected [] h = refl
keep_live_all expected ((i, c) ∷ m) h = ground (arith, keep_live_all expected m)

pub live-All :
    (expected : ℕ) (m : List (ℕ × Chunk))
    → All (λ e. e.1.uses < expected) (keep (is_live expected) m)
live-All expected [] = tt
live-All expected ((i, c) ∷ m) = ground (arith, live-All expected m)
