-- ===== src/Client/Presence.antt =====
-- Whether a client counts as online, its name, and the session that it joined.
use put_in_pipe.Common.{
  ℕ, ◌≤◌, ◌≡◌, ◌≢◌, refl, Bool, true, false, List, [], ◌∷◌, none, length, length-take-le, take-all,
  take, Bytes, sym, ◌∙◌, arith, not, ◌&&◌, ◌||◌,
}
use put_in_pipe.Config.{Config}
use put_in_pipe.TimerCallback.{new_timer, start, stop, restart, on_wait}
use put_in_pipe.Client.{
  Client, new_client, set_name, join_session, on_web_socket_connected, on_web_socket_disconnected,
  reset_ws_timeout_timer_if_it_active, online, publishes, name_changed,
}

-- What happens to a client that matters to its presence. `times_out` is the completion of a wait of
-- its timer.
pub data Event : Type 0 where
  connects : ℕ → Event
  disconnects : ℕ → Event
  resets : ℕ → Event
  times_out : Bool → Event
  renames : Bytes → Event
  joins : Bytes → Event

-- The state after it, and whether the timeout runs its callback, which removes the client.
unfoldable pub step : Event → Client → Client × Bool
step (connects connection) c = ((on_web_socket_connected connection c).0, false)
step (disconnects now) c = ((on_web_socket_disconnected now c).0, false)
step (resets now) c = ((reset_ws_timeout_timer_if_it_active now c).0, false)
step (times_out error) c =
    let r = on_wait error c.ws_timeout_timer in (record c { ws_timeout_timer = r.0 }, r.1)
step (renames name) c = ((set_name name c).0, false)
step (joins id) c = ((join_session id c).0, false)

-- A client that has a connection is not about to time out; its timer has a callback.
pub record Present (c : Client) : Type 0 where
  pub calm : c.web_socket ≢ none → c.ws_timeout_timer.is_running ≡ false
  pub armed : c.ws_timeout_timer.has_callback ≡ true

-- Whatever happens to it, a client stays so.
pub step-Present : (e : Event) (c : Client) → Present c → Present (step e c).0
unfolding step on_web_socket_connected on_web_socket_disconnected
    reset_ws_timeout_timer_if_it_active set_name join_session start stop restart on_wait
step-Present (connects connection) c h = ground arith
step-Present (disconnects now) c h = ground arith
step-Present (resets now) c h = ground arith
step-Present (times_out error) c h = ground arith
step-Present (renames name) c h = ground arith
step-Present (joins id) c h = ground arith

unfoldable pub run : List Event → Client → Client
run [] c = c
run (e ∷ es) c = run es (step e c).0

-- Through any sequence of connections, disconnections, resets, completed waits, renames and joins, a
-- client whose timer has a callback and, if it has a connection, does not run stays so.
pub run-Present : (es : List Event) (c : Client) → Present c → Present (run es c)
unfolding run
run-Present [] c h = h
run-Present (e ∷ es) c h = run-Present es (step e c).0 (step-Present e c h)

-- Whether the last connection or disconnection that the client was told of is a connection.
abbrev pub stays_connected : Bool → List Event → Bool
stays_connected before [] = before
stays_connected before (connects connection ∷ es) = stays_connected true es
stays_connected before (disconnects now ∷ es) = stays_connected false es
stays_connected before (resets now ∷ es) = stays_connected before es
stays_connected before (times_out error ∷ es) = stays_connected before es
stays_connected before (renames name ∷ es) = stays_connected before es
stays_connected before (joins id ∷ es) = stays_connected before es

-- Whether some timeout on the way ran its callback.
unfoldable pub removed : List Event → Client → Bool
removed [] c = false
removed (e ∷ es) c = (step e c).1 || removed es (step e c).0

-- The timer runs exactly while the client is disconnected.
record Waits (connected : Bool) (c : Client) : Type 0 where
  runs : c.ws_timeout_timer.is_running ≡ not connected
  calls_back : c.ws_timeout_timer.has_callback ≡ true

new_client-Waits :
    (sign : Bytes → Bytes) (cfg : Config) (now : ℕ) (id : Bytes)
    → Waits false (new_client sign cfg now id).0
unfolding new_client new_timer start
new_client-Waits sign cfg now id = record { runs = refl; calls_back = refl }

step-Waits :
    (e : Event) (before : Bool) (c : Client)
    → (step e c).1 ≡ false
    → Waits before c
    → Waits (stays_connected before (e ∷ [])) (step e c).0
unfolding step on_web_socket_connected on_web_socket_disconnected
    reset_ws_timeout_timer_if_it_active set_name join_session start stop restart on_wait
step-Waits (connects connection) before c h w = ground arith
step-Waits (disconnects now) before c h w = ground arith
step-Waits (resets now) before c h w = ground arith
step-Waits (times_out error) before c h w = ground arith
step-Waits (renames name) before c h w = ground arith
step-Waits (joins id) before c h w = ground arith

stays_connected-cons :
    (e : Event) (before : Bool) (es : List Event)
    → stays_connected (stays_connected before (e ∷ [])) es ≡ stays_connected before (e ∷ es)
stays_connected-cons (connects connection) before es = refl
stays_connected-cons (disconnects now) before es = refl
stays_connected-cons (resets now) before es = refl
stays_connected-cons (times_out error) before es = refl
stays_connected-cons (renames name) before es = refl
stays_connected-cons (joins id) before es = refl

run-Waits :
    (es : List Event) (before : Bool) (c : Client)
    → removed es c ≡ false
    → Waits before c
    → Waits (stays_connected before es) (run es c)
unfolding run removed
run-Waits [] before c h w = w
run-Waits (e ∷ es) before c h w =
    let next = step-Waits e before c (ground arith) w in
    rw (← stays_connected-cons e before es)
      (run-Waits es (stays_connected before (e ∷ [])) (step e c).0 (ground arith) next)

Waits-times_out :
    (error connected : Bool) (c : Client)
    → Waits connected c
    → (step (times_out error) c).1 ≡ (not error && not connected)
unfolding step on_wait
Waits-times_out error connected c w = ground arith

-- Take a new client and any sequence of connections, disconnections, completed waits, resets, renames
-- and joins in which no timeout has removed it. The next completed wait of its timer removes it
-- exactly if it comes without an error and the client is not connected: it was never connected, or the
-- last connection or disconnection that it was told of is a disconnection, be it of a connection that
-- was replaced.
pub timeout_removes :
    (sign : Bytes → Bytes) (cfg : Config) (now : ℕ) (id : Bytes) (es : List Event) (error : Bool)
    → removed es (new_client sign cfg now id).0 ≡ false
    → (step (times_out error) (run es (new_client sign cfg now id).0)).1
      ≡ (not error && not (stays_connected false es))
timeout_removes sign cfg now id es error alive =
    let c = (new_client sign cfg now id).0 in
    Waits-times_out error (stays_connected false es) (run es c)
      (run-Waits es false c alive (new_client-Waits sign cfg now id))

step-joined :
    (e : Event) (c : Client)
    → c.joined_session ≢ []
    → (step e c).0.joined_session ≡ c.joined_session
unfolding step on_web_socket_connected on_web_socket_disconnected
    reset_ws_timeout_timer_if_it_active set_name join_session
step-joined (connects connection) c h = refl
step-joined (disconnects now) c h = refl
step-joined (resets now) c h = ground arith
step-joined (times_out error) c h = refl
step-joined (renames name) c h = ground arith
step-joined (joins id) c h = ground arith

-- Once a client has joined a session, it stays the one that it joined, whatever happens.
pub joined_for_good :
    (es : List Event) (c : Client)
    → c.joined_session ≢ []
    → (run es c).joined_session ≡ c.joined_session
unfolding run
joined_for_good [] c h = refl
joined_for_good (e ∷ es) c h =
    let same = step-joined e c h in
    joined_for_good es (step e c).0 (λ gone. h (sym same ∙ gone)) ∙ same

-- A name that is not empty is cut to 20 bytes and told to the subscribers as it is stored; an empty
-- one changes nothing. A name of at most 20 bytes is stored whole.
pub set_name_lem :
    (name : Bytes) (c : Client)
    → (name ≡ [] → set_name name c ≡ (c, []))
      × (name ≢ []
          → (length (set_name name c).0.name ≤ 20)
            × ((set_name name c).1
                ≡ publishes (name_changed (set_name name c).0.name c.public_id) ∷ [])
            × (length name ≤ 20 → (set_name name c).0.name ≡ name)
            × ((set_name name c).0.name ≡ take 20 name))
unfolding set_name
set_name_lem name c = ground (arith, length-take-le 20 name, take-all 20 name)

-- A client that comes back on a new connection before its old one is closed loses the new one: the
-- end of the old connection leaves it with no connection, offline, and about to time out.
pub reconnect_lost :
    (old new now : ℕ) (c : Client)
    → let late =
        (on_web_socket_disconnected now
          (on_web_socket_connected new (on_web_socket_connected old c).0).0).0 in
      (late.web_socket ≡ none) × (online late ≡ false)
unfolding on_web_socket_connected on_web_socket_disconnected start stop
reconnect_lost old new now c = ground arith
