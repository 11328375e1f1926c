-- ===== src/TimerCallback.antt =====
-- timercallback.h and timercallback.cpp: `TimerCallback`. The asio timer is outside: an operation
-- returns the calls that it makes on it, and the completion of a wait is an event that comes with an
-- error flag. Points in time are in nanoseconds, durations in seconds.
pub mod Laws
use put_in_pipe.Common.{
  ℕ, ◌-◌, ◌/◌, Bool, true, false, not, ◌&&◌, List, [], ◌∷◌, ◌++◌, if◌then◌else◌,
}

pub record TimerCallback : Type 0 where
  pub has_callback : Bool
  pub duration : ℕ
  pub start_time : ℕ
  pub is_running : Bool

pub data AsioCall : Type 0 where
  expires_after : ℕ → AsioCall
  async_wait : AsioCall
  cancel : AsioCall

-- The constructor.
unfoldable pub new_timer : Bool → ℕ → ℕ → TimerCallback
new_timer has_callback duration now = record {
  has_callback = has_callback;
  duration = duration;
  start_time = now;
  is_running = false;
}

-- The move constructor: the new timer, and what is left of the other one. Whether a callback stays
-- behind in a moved-from `std::function` is unspecified, so it is an argument.
unfoldable pub move : Bool → TimerCallback → TimerCallback × TimerCallback
move left_callback another =
    (another, record another { has_callback = left_callback; is_running = false })

unfoldable pub start : ℕ → TimerCallback → TimerCallback × List AsioCall
start now t = if t.is_running then (t, []) else (
  record t { is_running = true; start_time = now },
  expires_after t.duration ∷ async_wait ∷ [],
)

unfoldable pub stop : TimerCallback → TimerCallback × List AsioCall
stop t = if t.is_running then (record t { is_running = false }, cancel ∷ []) else (t, [])

-- The handler of `async_wait`, and whether it runs the callback.
unfoldable pub on_wait : Bool → TimerCallback → TimerCallback × Bool
on_wait error t =
    if not error && t.is_running
    then (record t { is_running = false }, t.has_callback)
    else (t, false)

unfoldable pub restart_for : ℕ → ℕ → TimerCallback → TimerCallback × List AsioCall
restart_for now new_duration t =
    let (stopped, calls) = stop t in
    let (started, more) = start now (record stopped { duration = new_duration }) in
    (started, calls ++ more)

unfoldable pub restart : ℕ → TimerCallback → TimerCallback × List AsioCall
restart now t =
    let (stopped, calls) = stop t in
    let (started, more) = start now stopped in (started, calls ++ more)

-- `steady_clock` does not go back, so the elapsed time is never negative; what remains is cut off
-- at 0.
unfoldable pub time_remaining : ℕ → TimerCallback → ℕ
time_remaining now t =
    if not t.is_running then 0 else t.duration - (now - t.start_time) / 1000000000
