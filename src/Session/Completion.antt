-- ===== src/Session/Completion.antt =====
-- What confirmations lead to, in any order: the buffer empties, and the session ends.
use put_in_pipe.Common.{
  ℕ, ◌≤◌, ◌<◌, ◌==◌, ◌≡◌, refl, sym, ◌∙◌, true, false, List, [], ◌∷◌, ◌++◌, some, map, u64_mod,
  Bool-cases, Option-cases, inl, inr, arith, Bytes,
}
use put_in_pipe.Config.{Config}
use put_in_pipe.OrderedMap.{find, modify}
use put_in_pipe.Chunk.{increment_uses}
use put_in_pipe.Buffer.{
  Buffer, get_chunk, set_chunk_as_received, expected_consumer_count, chunk_count,
}
use put_in_pipe.Buffer.Sanitize.{sanitize_exact}
use put_in_pipe.Buffer.Settled.{Settled}
use put_in_pipe.Buffer.Draining.{
  Enough, Draining, confirmed, confirmed-absent, confirmed-Draining, drained,
}
use put_in_pipe.Buffer.Stored.{Stored}
use put_in_pipe.Session.{Session, ClientRef, Effect}
use put_in_pipe.Session.Chunks.{confirm_chunk, auto_drop_freeze, session_set_chunk_as_received}
use put_in_pipe.Session.Ending.{confirm_chunk-ends, confirm-found}
use put_in_pipe.Session.Told.{ends, ends-append}

-- The confirmations of chunks by receivers, one after the other, and all their calls.
unfoldable pub confirm_all : Config → List (ℕ × ClientRef) → Session → Session × List Effect
confirm_all cfg [] s = (s, [])
confirm_all cfg ((index, client) ∷ cs) s =
    let (s', told) = session_set_chunk_as_received cfg index (some client) s in
    let (s'', more) = confirm_all cfg cs s' in (s'', told ++ more)

abbrev pub indices_of : List (ℕ × ClientRef) → List ℕ
indices_of cs = map (λ c. c.0) cs

thawed_step :
    (cfg : Config) (index : ℕ) (client : ClientRef) (s : Session)
    → s.buffer.initial_chunks_freezing ≡ false
    → (session_set_chunk_as_received cfg index (some client) s).0
        ≡ (confirm_chunk cfg index client s).0
      × (session_set_chunk_as_received cfg index (some client) s).1
        ≡ (confirm_chunk cfg index client s).1
unfolding session_set_chunk_as_received auto_drop_freeze
thawed_step cfg index client s thawed = ground arith

confirm-buffer :
    (cfg : Config) (index : ℕ) (client : ClientRef) (s : Session)
    → (confirm_chunk cfg index client s).0.buffer ≡ confirmed index s.buffer
unfolding confirm_chunk
confirm-buffer cfg index client s = ground arith

confirm_all-Draining :
    (cfg : Config) (n : ℕ) (cs : List (ℕ × ClientRef)) (s : Session)
    → n < u64_mod
    → Draining n (indices_of cs) s.buffer
    → Draining n [] (confirm_all cfg cs s).0.buffer
unfolding confirm_all
confirm_all-Draining cfg n [] s small d = d
confirm_all-Draining cfg n ((index, client) ∷ cs) s small d =
    let e = (thawed_step cfg index client s d.thawed).0 in
    rw e (
      confirm_all-Draining cfg n cs (confirm_chunk cfg index client s).0 small (
        rw (confirm-buffer cfg index client s)
          (confirmed-Draining n index (indices_of cs) s.buffer small d)))

confirmed-end : (index : ℕ) (b : Buffer) → (confirmed index b).end_of_file ≡ b.end_of_file
unfolding get_chunk set_chunk_as_received
confirmed-end index b = elim (Option-cases (find index b.chunks)) [
  | inl e ↦ ground (arith, e)
  | inr (c, e) ↦ ground (
    arith,
    e,
    sanitize_exact
        (record (get_chunk index b).0 {
          chunks = modify index (increment_uses (expected_consumer_count b)) b.chunks;
        })
        [],
  )
]

refused-same :
    (index : ℕ) (b : Buffer)
    → (set_chunk_as_received index (get_chunk index b).0 []).2 ≡ false
    → confirmed index b ≡ b
unfolding get_chunk set_chunk_as_received
refused-same index b h = elim (Option-cases (find index b.chunks)) [
  | inl e ↦ confirmed-absent index b e
  | inr (c, e) ↦ absurd (ground (arith, e, h))
]

-- A confirmation that empties the buffer ends the session.
emptying_ends :
    (cfg : Config) (index : ℕ) (client : ClientRef) (s : Session)
    → s.buffer.end_of_file ≡ true
    → 0 < chunk_count s.buffer
    → chunk_count (confirm_chunk cfg index client s).0.buffer ≡ 0
    → ends (confirm_chunk cfg index client s).1 ≡ true
emptying_ends cfg index client s end some_left empty = ground (
  arith,
  confirm_chunk-ends cfg index client s,
  confirm-found index s.buffer,
  confirm-buffer cfg index client s,
  confirmed-end index s.buffer,
  refused-same index s.buffer,
  empty,
)

all_end :
    (cfg : Config) (n : ℕ) (cs : List (ℕ × ClientRef)) (s : Session)
    → n < u64_mod
    → Draining n (indices_of cs) s.buffer
    → s.buffer.end_of_file ≡ true
    → 0 < chunk_count s.buffer
    → chunk_count (confirm_all cfg cs s).0.buffer ≡ 0
    → ends (confirm_all cfg cs s).1 ≡ true
unfolding confirm_all
all_end cfg n [] s small d end some_left empty = absurd (omega (arith, some_left, empty))
all_end cfg n ((index, client) ∷ cs) s small d end some_left empty =
    let s' = (confirm_chunk cfg index client s).0 in
    let step = thawed_step cfg index client s d.thawed in
    let told = (confirm_chunk cfg index client s).1 in
    let more = (confirm_all cfg cs s').1 in
    rw (step.0, step.1)
      (ends-append told more ∙ elim (Bool-cases (chunk_count s'.buffer == 0)) [
        | inl gone ↦
            ground (arith, emptying_ends cfg index client s end some_left (ground (arith, gone)))
        | inr left ↦
            let d' : Draining n (indices_of cs) s'.buffer =
              rw (confirm-buffer cfg index client s)
                (confirmed-Draining n index (indices_of cs) s.buffer small d) in
            let end' : s'.buffer.end_of_file ≡ true =
              ground
                (arith, confirm-buffer cfg index client s, confirmed-end index s.buffer, end) in
            let empty' : chunk_count (confirm_all cfg cs s').0.buffer ≡ 0 = rw (sym step.0) empty in
            let rest : ends more ≡ true =
              all_end cfg n cs s' small d' end' (ground (arith, left)) empty' in
            ground (arith, rest)
      ])

-- After the freeze, past the end of the file, with some chunk left and at least one expected
-- consumer (and fewer than 2^64), in a buffer that holds uploads and that no consumer has finished
-- with: once every chunk that is there gets as many confirmations as expected consumers have not
-- confirmed it yet, in whatever order they come and among whatever others, the buffer is empty and
-- the session was told to end.
pub confirmed_all_ends :
    (cfg : Config) (ups : List Bytes) (cs : List (ℕ × ClientRef)) (s : Session)
    → Stored cfg ups s.buffer
    → Settled s.buffer
    → s.buffer.initial_chunks_freezing ≡ false
    → s.buffer.end_of_file ≡ true
    → 0 < chunk_count s.buffer
    → 1 ≤ expected_consumer_count s.buffer
    → expected_consumer_count s.buffer < u64_mod
    → Enough (expected_consumer_count s.buffer) (indices_of cs) s.buffer.chunks
    → (chunk_count (confirm_all cfg cs s).0.buffer ≡ 0) × (ends (confirm_all cfg cs s).1 ≡ true)
confirmed_all_ends cfg ups cs s stored settled thawed end some_left some_one small enough =
    let n = expected_consumer_count s.buffer in
    let d : Draining n (indices_of cs) s.buffer = record {
      thawed = thawed;
      expects = refl;
      ordered = stored.ordered;
      settled = settled thawed;
      enough = enough;
    } in
    let last = confirm_all-Draining cfg n cs s small d in
    let empty =
      drained n (confirm_all cfg cs s).0.buffer.chunks some_one last.settled last.enough in
    (empty, all_end cfg n cs s small d end some_left empty)
