-- ===== src/TimerCallback/Laws.antt =====
-- How often a timer runs its callback.
use put_in_pipe.Common.{
  ℕ, suc, ◌+◌, ◌*◌, ◌≤◌, ◌≡◌, Bool, true, false, List, [], ◌∷◌, if◌then◌else◌, arith,
}
use put_in_pipe.TimerCallback.{
  TimerCallback, start, stop, on_wait, restart, restart_for, time_remaining,
}

-- What the owner of a timer and the event loop do to it.
pub data Event : Type 0 where
  starts : ℕ → Event
  stops : Event
  restarts : ℕ → Event
  restarts_for : ℕ → ℕ → Event
  completes : Bool → Event

unfoldable pub step : Event → TimerCallback → TimerCallback × Bool
step (starts now) t = ((start now t).0, false)
step stops t = ((stop t).0, false)
step (restarts now) t = ((restart now t).0, false)
step (restarts_for now d) t = ((restart_for now d t).0, false)
step (completes error) t = on_wait error t

-- How many times the callback runs.
unfoldable pub fired : List Event → TimerCallback → ℕ
fired [] t = 0
fired (e ∷ es) t =
    let (t', ran) = step e t in let rest = fired es t' in if ran then suc rest else rest

-- How many of the calls are starts or restarts.
unfoldable pub armed : List Event → ℕ
armed [] = 0
armed (starts now ∷ es) = suc (armed es)
armed (restarts now ∷ es) = suc (armed es)
armed (restarts_for now d ∷ es) = suc (armed es)
armed (stops ∷ es) = armed es
armed (completes error ∷ es) = armed es

abbrev one_if : Bool → ℕ
one_if true = 1
one_if false = 0

fired_bound : (es : List Event) (t : TimerCallback) → fired es t ≤ armed es + one_if t.is_running
unfolding fired armed step start stop restart restart_for on_wait
fired_bound [] t = omega arith
fired_bound (starts now ∷ es) t = ground (arith, fired_bound es (start now t).0)
fired_bound (stops ∷ es) t = ground (arith, fired_bound es (stop t).0)
fired_bound (restarts now ∷ es) t = ground (arith, fired_bound es (restart now t).0)
fired_bound (restarts_for now d ∷ es) t = ground (arith, fired_bound es (restart_for now d t).0)
fired_bound (completes error ∷ es) t = ground (arith, fired_bound es (on_wait error t).0)

-- Whatever completions the event loop delivers, and however often, a timer that is not running at
-- first runs its callback at most once for each start or restart.
pub fired-le-armed :
    (es : List Event) (t : TimerCallback) → t.is_running ≡ false → fired es t ≤ armed es
fired-le-armed es t idle = ground (arith, fired_bound es t)

-- After `stop`, no sequence of calls and completions without a start or a restart runs the callback.
pub stop_silences : (es : List Event) (t : TimerCallback) → armed es ≡ 0 → fired es (stop t).0 ≡ 0
unfolding stop
stop_silences es t quiet = ground (arith, fired_bound es (stop t).0)

-- A timer that was not running and is started has its whole duration left at that moment, never more
-- later, and nothing once the duration has passed.
pub time_remaining_bounds :
    (t : TimerCallback) (now later : ℕ)
    → t.is_running ≡ false
    → now ≤ later
    → (time_remaining now (start now t).0 ≡ t.duration)
      × (time_remaining later (start now t).0 ≤ t.duration)
      × (time_remaining (now + t.duration * 1000000000) (start now t).0 ≡ 0)
unfolding time_remaining start
time_remaining_bounds t now later idle h = ground arith

-- A completion that comes after a restart runs the callback at once, also if it belongs to the wait
-- from before the restart: the handler cannot tell the two apart.
pub restart_takes_stale :
    (t : TimerCallback) (now : ℕ)
    → t.has_callback ≡ true
    → on_wait false (restart now t).0 ≡ (record t { is_running = false; start_time = now }, true)
unfolding restart stop start on_wait
restart_takes_stale t now h = ground arith
