-- ===== src/Tests/Parts.antt =====
-- Sets, publishers, timers and messages at concrete inputs.
use put_in_pipe.Common.{ℕ, ◌≤◌, ◌≡◌, refl, Bool, true, false, [], ◌∷◌, ◌==◌, not, some}
use put_in_pipe.Publisher.{Publisher}
use put_in_pipe.TimerCallback.{TimerCallback, new_timer}
use put_in_pipe.TimerCallback.Laws.{starts, restarts, completes, fired, armed, fired-le-armed}
use put_in_pipe.SerializableEvent.{get_chunk_failure, json}
use put_in_pipe.SerializableEvent.Decode.{decode, decode-json}

-- Subscriber 9 is gone.
abbrev is_there : ℕ → Bool
is_there s = not (s == 9)

abbrev three : Publisher ℕ
three = record { subscribers = 1 ∷ 9 ∷ 2 ∷ [] }

abbrev idle : TimerCallback
idle = new_timer true 60 0

idle-quiet : idle.is_running ≡ false
unfolding new_timer
idle-quiet = refl

fired-le-armed_example :
    fired (starts 0 ∷ completes false ∷ completes false ∷ restarts 5 ∷ completes true ∷ []) idle
    ≤ armed (starts 0 ∷ completes false ∷ completes false ∷ restarts 5 ∷ completes true ∷ [])
fired-le-armed_example =
    fired-le-armed (starts 0 ∷ completes false ∷ completes false ∷ restarts 5 ∷ completes true ∷ [])
      idle idle-quiet

decode-json_example :
    decode (json (get_chunk_failure ((3, 10) ∷ (4, 2) ∷ [])))
    ≡ some (get_chunk_failure ((3, 10) ∷ (4, 2) ∷ []))
decode-json_example = decode-json (get_chunk_failure ((3, 10) ∷ (4, 2) ∷ []))
