-- ===== src/Tests/Clients.antt =====
-- Clients at concrete inputs.
use put_in_pipe.Common.{ℕ, not, ◌&&◌, ◌≡◌, refl, true, false, [], ◌∷◌, ◌++◌, codes, arith}
use put_in_pipe.Tests.{small}
use put_in_pipe.TimerCallback.{on_wait}
use put_in_pipe.Client.{Client, new_client}
use put_in_pipe.Client.PendingAcks.{no_acks, drain}
use put_in_pipe.Client.ExactlyOnce.{callbacks_exactly_once}
use put_in_pipe.Client.AckRuns.{sends, acknowledges, falls_back, ack_run, given, count}
use put_in_pipe.Client.AckText.{with_id, strip_id, strip_id-with_id}
use put_in_pipe.Client.Presence.{
  connects, times_out, step, run, removed, stays_connected, timeout_removes,
}

-- A message that is acknowledged twice and timed out, and one that is left pending.
callbacks_exactly_once_example :
    count
      (λ (c : ℕ). true)
      ((ack_run
          (sends 7 true ∷ sends 8 true ∷ acknowledges 1 ∷ acknowledges 1 ∷ falls_back false 1 ∷ [])
          no_acks).1
        ++ (drain
            (ack_run
              (sends 7 true
                ∷ sends 8 true
                ∷ acknowledges 1
                ∷ acknowledges 1
                ∷ falls_back false 1
                ∷ [])
              no_acks).0).1)
    ≡ count
        (λ (c : ℕ). true)
        (given
          (sends 7 true ∷ sends 8 true ∷ acknowledges 1 ∷ acknowledges 1 ∷ falls_back false 1 ∷ []))
callbacks_exactly_once_example =
    callbacks_exactly_once (λ (c : ℕ). true)
      (sends 7 true ∷ sends 8 true ∷ acknowledges 1 ∷ acknowledges 1 ∷ falls_back false 1 ∷ [])
      (omega arith)

strip_id-with_id_example :
    strip_id (with_id 42 (b'{' ∷ b'"' ∷ b'}' ∷ [])) ≡ (42, b'{' ∷ b'"' ∷ b'}' ∷ [])
strip_id-with_id_example = strip_id-with_id 42 b'"' b'}' []

with_id_text : with_id 42 (codes "{\"event\":1}") ≡ codes "{\"id\":42,\"event\":1}"
unfolding with_id put_in_pipe.Numerals.to_string put_in_pipe.Numerals.digits
with_id_text = refl

abbrev somebody : Client
somebody = (new_client (λ id. id) small 0 (1 ∷ [])).0

timeout_removes_example :
    (step (times_out false) (run (connects 5 ∷ times_out true ∷ []) somebody)).1
    ≡ (not false && not (stays_connected false (connects 5 ∷ times_out true ∷ [])))
timeout_removes_example =
    timeout_removes (λ id. id) small 0 (1 ∷ []) (connects 5 ∷ times_out true ∷ []) false
      (unfold removed step on_wait in refl)
