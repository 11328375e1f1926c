-- ===== src/Buffer/Draining.antt =====
-- What confirmations after the freeze lead to, in any order: each one takes a chunk nearer to its end.
use put_in_pipe.Common.{
  ℕ, ◌+◌, ◌-◌, ◌≤◌, ◌<◌, ◌==◌, ◌≡◌, refl, false, List, [], ◌∷◌, none, some, keep, length, All,
  All-keep, u64_mod, Bool-cases, Option-cases, inl, inr, arith, if◌then◌else◌,
}
use put_in_pipe.OrderedMap.{find, modify}
use put_in_pipe.OrderedMap.Order.{Within, Within-modify, Within-keep}
use put_in_pipe.Chunk.{Chunk, increment_uses}
use put_in_pipe.Buffer.{Buffer, get_chunk, set_chunk_as_received, sanitize, expected_consumer_count}
use put_in_pipe.Buffer.Sanitize.{sanitize_exact, is_live, live-All}
use put_in_pipe.Buffer.Settled.{All-lt}

-- How often a chunk is confirmed in a sequence.
abbrev pub times : ℕ → List ℕ → ℕ
times k [] = 0
times k (i ∷ is) = (if i == k then 1 else 0) + times k is

-- The sequence has a confirmation for every expected consumer that has not confirmed the chunk yet.
abbrev pub Enough : ℕ → List ℕ → List (ℕ × Chunk) → Type 0
Enough n is m = All (λ e. n ≤ e.1.uses + times e.0 is) m

Enough-below :
    (n k lo hi : ℕ) (is : List ℕ) (m : List (ℕ × Chunk))
    → Within lo hi m
    → k ≤ lo
    → Enough n (k ∷ is) m
    → Enough n is m
Enough-below n k lo hi is [] w h a = tt
Enough-below n k lo hi is ((i, c) ∷ m) w h a =
    (ground (arith, a.0), Enough-below n k i hi is m w.1 (omega (arith, w.0)) a.1)

Enough-absent :
    (n k : ℕ) (is : List ℕ) (m : List (ℕ × Chunk))
    → find k m ≡ none
    → Enough n (k ∷ is) m
    → Enough n is m
unfolding find
Enough-absent n k is [] h a = tt
Enough-absent n k is ((i, c) ∷ m) h a = ground (arith, a, Enough-absent n k is m)

Enough-modify :
    (n k lo hi : ℕ) (is : List ℕ) (m : List (ℕ × Chunk))
    → n < u64_mod
    → Within lo hi m
    → Enough n (k ∷ is) m
    → Enough n is (modify k (increment_uses n) m)
unfolding modify increment_uses
Enough-modify n k lo hi is [] small w a = tt
Enough-modify n k lo hi is ((i, c) ∷ m) small w a = elim (Bool-cases (i == k)) [
  | inl hit ↦ rw hit (ground (arith, a.0, hit), Enough-below n k i hi is m w.1 (ground arith) a.1)
  | inr miss ↦ rw miss (ground (arith, a.0), Enough-modify n k i hi is m small w.1 a.1)
]

-- A buffer after the freeze, with `n` expected consumers and enough confirmations to come.
pub record Draining (n : ℕ) (is : List ℕ) (b : Buffer) : Type 0 where
  pub thawed : b.initial_chunks_freezing ≡ false
  pub expects : expected_consumer_count b ≡ n
  pub ordered : Within 0 b.chunks_max_index b.chunks
  pub settled : All (λ e. e.1.uses ≤ n - 1) b.chunks
  pub enough : Enough n is b.chunks

abbrev pub confirmed : ℕ → Buffer → Buffer
confirmed i b = (set_chunk_as_received i (get_chunk i b).0 []).0

pub confirmed-absent : (i : ℕ) (b : Buffer) → find i b.chunks ≡ none → confirmed i b ≡ b
unfolding get_chunk set_chunk_as_received
confirmed-absent i b e = ground (arith, e)

confirmed-present :
    (n i : ℕ) (is : List ℕ) (b : Buffer) (c : Chunk)
    → n < u64_mod
    → find i b.chunks ≡ some c
    → Draining n (i ∷ is) b
    → Draining n is (confirmed i b)
unfolding get_chunk set_chunk_as_received
confirmed-present n i is b c small e d =
    let used = modify i (increment_uses n) b.chunks in
    let read : Buffer = (get_chunk i b).0 in
    let marked : Buffer = record read {
      chunks = modify i (increment_uses (expected_consumer_count b)) b.chunks;
    } in
    let found : confirmed i b ≡ (sanitize marked []).0 = ground (arith, e) in
    let left : (sanitize marked []).0.chunks ≡ keep (is_live n) used =
      ground (arith, sanitize_exact marked [], d.thawed, d.expects, e) in
    let top : (sanitize marked []).0.chunks_max_index ≡ b.chunks_max_index =
      ground (arith, sanitize_exact marked [], e) in
    rw found (record {
      thawed = ground (arith, sanitize_exact marked [], d.thawed, e);
      expects = ground (arith, sanitize_exact marked [], d.expects, e);
      ordered =
          rw (left, top)
            (Within-keep (is_live n) 0 b.chunks_max_index used
              (Within-modify i (increment_uses n) 0 b.chunks_max_index b.chunks d.ordered));
      settled = rw left (All-lt n _ (live-All n used));
      enough = rw left (
          All-keep _ _ used
            (Enough-modify n i 0 b.chunks_max_index is b.chunks small d.ordered d.enough));
    })

pub confirmed-Draining :
    (n i : ℕ) (is : List ℕ) (b : Buffer)
    → n < u64_mod
    → Draining n (i ∷ is) b
    → Draining n is (confirmed i b)
confirmed-Draining n i is b small d = elim (Option-cases (find i b.chunks)) [
  | inr (c, e) ↦ confirmed-present n i is b c small e d
  | inl e ↦ rw (confirmed-absent i b e) (record {
    thawed = d.thawed;
    expects = d.expects;
    ordered = d.ordered;
    settled = d.settled;
    enough = Enough-absent n i is b.chunks e d.enough;
  })
]

pub drained :
    (n : ℕ) (m : List (ℕ × Chunk))
    → 1 ≤ n
    → All (λ e. e.1.uses ≤ n - 1) m
    → Enough n [] m
    → length m ≡ 0
drained n [] h a r = refl
drained n ((i, c) ∷ m) h a r = absurd (omega (arith, a.0, r.0))
