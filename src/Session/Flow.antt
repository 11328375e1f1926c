-- ===== src/Session/Flow.antt =====
-- Flow control: what the sender of a session is told about room in the buffer, and what is so.
use put_in_pipe.Common.{
  ℕ, ◌+◌, ◌<◌, ◌≡◌, refl, Bool, true, false, List, [], ◌∷◌, ◌++◌, Option, none, some, length, Bytes,
  arith, inl, inr, u64_mod,
}
use put_in_pipe.Config.{Config}
use put_in_pipe.Buffer.{
  Buffer, get_chunk, set_chunk_as_received, new_chunk_is_allowed, chunk_count,
  set_initial_chunks_freezing_dropped,
}
use put_in_pipe.OrderedMap.Order.{Within}
use put_in_pipe.Buffer.Adding.{add_chunk_cases, with_chunk}
use put_in_pipe.Session.{
  Session, ClientRef, Effect, notifies, notifies_sender, increments_received, bytes_in_updated,
  chunks_are_unfrozen, bytes_out_updated, chunk_download_finished,
}
use put_in_pipe.Session.Freeze.{drop_initial_chunks_freeze, tell_removed, remove_if_complete}
use put_in_pipe.Session.Chunks.{
  session_add_chunk, auto_drop_freeze, confirm_chunk, session_set_chunk_as_received, tell_allowed,
  report_confirmed,
}
use put_in_pipe.Session.Told.{known, ends, known-append, ends-append, known-tell_removed}

-- The sender's knowledge is right.
abbrev pub Informed : Config → Bool → Session → Type 0
Informed cfg k s = k ≡ new_chunk_is_allowed cfg s.buffer

tell_allowed-known : (k old new : Bool) → k ≡ old → known k (tell_allowed old new) ≡ new
tell_allowed-known true true true h = refl
tell_allowed-known true true false h = refl
tell_allowed-known true false new h = cc
tell_allowed-known false true new h = cc
tell_allowed-known false false true h = refl
tell_allowed-known false false false h = refl

tell_allowed-ends : (old new : Bool) → ends (tell_allowed old new) ≡ false
tell_allowed-ends true true = refl
tell_allowed-ends true false = refl
tell_allowed-ends false true = refl
tell_allowed-ends false false = refl

remove_if_complete-known : (k : Bool) (b : Buffer) → known k (remove_if_complete b) ≡ k
remove_if_complete-known k b = ground arith

-- If the sender's knowledge whether chunks are allowed is right before `addChunk`, what it is told
-- keeps it right, whether the chunk is taken or refused. (The indices are in order and do not run out.)
pub add_chunk-Informed :
    (cfg : Config) (k : Bool) (d : Bytes) (s : Session)
    → Within 0 s.buffer.chunks_max_index s.buffer.chunks
    → s.buffer.chunks_max_index + 1 < u64_mod
    → Informed cfg k s
    → Informed cfg (known k (session_add_chunk cfg d s).1) (session_add_chunk cfg d s).0
unfolding session_add_chunk
add_chunk-Informed cfg k d s w room h =
    let old = new_chunk_is_allowed cfg s.buffer in
    let b = with_chunk d s.buffer in
    elim (add_chunk_cases cfg d s.buffer w room) [
      | inl (_, e) ↦ ground (arith, e)
      | inr (_, e) ↦ ground (
        arith,
        e,
        known-append k (tell_allowed old (new_chunk_is_allowed cfg b))
            (notifies (bytes_in_updated b.bytes_in_total) ∷ []),
        tell_allowed-known k old (new_chunk_is_allowed cfg b) h,
      )
    ]

unfreeze_refused :
    (b : Buffer) (removed : List ℕ)
    → (set_initial_chunks_freezing_dropped b removed).2 ≡ false
    → (set_initial_chunks_freezing_dropped b removed).0 ≡ b
unfolding set_initial_chunks_freezing_dropped
unfreeze_refused b removed h = ground arith

-- If the sender's knowledge is right before the initial freeze is dropped, what it is told keeps it
-- right, unless this ends the session.
pub drop-Informed :
    (cfg : Config) (k : Bool) (s : Session)
    → ends (drop_initial_chunks_freeze cfg s).1 ≡ false
    → Informed cfg k s
    → Informed cfg
        (known k (drop_initial_chunks_freeze cfg s).1)
        (drop_initial_chunks_freeze cfg s).0
unfolding drop_initial_chunks_freeze
drop-Informed cfg k s alive h =
    let r = set_initial_chunks_freezing_dropped s.buffer [] in
    let rest =
      notifies_sender (new_chunk_is_allowed cfg r.0)
      ∷ notifies chunks_are_unfrozen
      ∷ remove_if_complete r.0 in
    ground (
      arith,
      unfreeze_refused s.buffer [],
      known-append k (tell_removed r.1) rest,
      remove_if_complete-known (new_chunk_is_allowed cfg r.0) r.0,
    )

get_chunk-count : (index : ℕ) (b : Buffer) → chunk_count (get_chunk index b).0 ≡ chunk_count b
unfolding get_chunk
get_chunk-count index b = ground arith

confirm_refused :
    (index : ℕ) (b : Buffer) (removed : List ℕ)
    → (set_chunk_as_received index b removed).2 ≡ false
    → (set_chunk_as_received index b removed).0 ≡ b
unfolding set_chunk_as_received
confirm_refused index b removed h = ground arith

counted-known :
    (k : Bool) (client : ClientRef) (chunk : Option Bytes) (es : List Effect)
    → known k (
        elim chunk [ none ↦ [] | some bytes ↦ increments_received client (length bytes) ∷ [] ]
        ++ es)
      ≡ known k es
counted-known k client none es = refl
counted-known k client (some bytes) es = refl

report-known :
    (cfg : Config) (k : Bool) (old : Bool) (b : Buffer) (removed : List ℕ) (client : ClientRef)
    (index : ℕ)
    → k ≡ old
    → known k (report_confirmed cfg old b removed client index) ≡ new_chunk_is_allowed cfg b
report-known cfg k old b removed client index h =
    let new = new_chunk_is_allowed cfg b in
    let rest =
      notifies (bytes_out_updated b.bytes_out_total)
      ∷ notifies (chunk_download_finished client.public_id index)
      ∷ remove_if_complete b in
    ground (
      arith,
      known-append k (tell_removed removed) (tell_allowed old new ++ rest),
      known-tell_removed k removed,
      known-append k (tell_allowed old new) rest,
      tell_allowed-known k old new h,
      remove_if_complete-known new b,
    )

confirm_chunk-Informed :
    (cfg : Config) (k : Bool) (index : ℕ) (client : ClientRef) (s : Session)
    → Informed cfg k s
    → Informed cfg
        (known k (confirm_chunk cfg index client s).1)
        (confirm_chunk cfg index client s).0
unfolding confirm_chunk
confirm_chunk-Informed cfg k index client s h =
    let read = get_chunk index s.buffer in
    let r = set_chunk_as_received index read.0 [] in
    let old = new_chunk_is_allowed cfg read.0 in
    ground (
      arith,
      get_chunk-count index s.buffer,
      confirm_refused index read.0 [],
      counted-known k client read.1 [],
      counted-known k client read.1 (report_confirmed cfg old r.0 r.1 client index),
      report-known cfg k old r.0 r.1 client index,
    )

auto_drop_freeze-Informed :
    (cfg : Config) (k : Bool) (s : Session)
    → ends (auto_drop_freeze cfg s).1 ≡ false
    → Informed cfg k s
    → Informed cfg (known k (auto_drop_freeze cfg s).1) (auto_drop_freeze cfg s).0
unfolding auto_drop_freeze
auto_drop_freeze-Informed cfg k s alive h =
    ground (arith, drop-Informed cfg k (record s { auto_drop_freeze_fired = true }))

-- If the sender's knowledge is right before a receiver confirms a chunk, what it is told keeps it
-- right, unless this ends the session; also if the confirmation drops the freeze first.
pub confirm-Informed :
    (cfg : Config) (k : Bool) (index : ℕ) (client : Option ClientRef) (s : Session)
    → ends (session_set_chunk_as_received cfg index client s).1 ≡ false
    → Informed cfg k s
    → Informed cfg
        (known k (session_set_chunk_as_received cfg index client s).1)
        (session_set_chunk_as_received cfg index client s).0
unfolding session_set_chunk_as_received
confirm-Informed cfg k index none s alive h = h
confirm-Informed cfg k index (some client) s alive h =
    let d = auto_drop_freeze cfg s in
    let c = confirm_chunk cfg index client d.0 in
    ground (
      arith,
      ends-append d.1 c.1,
      known-append k d.1 c.1,
      auto_drop_freeze-Informed cfg k s,
      confirm_chunk-Informed cfg (known k d.1) index client d.0,
    )
