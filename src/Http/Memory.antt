-- ===== src/Http/Memory.antt =====
-- How much the chunks of all sessions take together.
use put_in_pipe.Common.{
  ℕ, ◌+◌, ◌*◌, ◌≤◌, ◌<◌, ◌≡◌, sym, subst, u64, u64_mod, List, [], ◌∷◌, Option, Bool, length, All,
  Bytes, arith,
}
use native.Mathlib.Nat.{mul_assoc, mul-le-mul_left, mul-le-mul_right}
use put_in_pipe.Config.{Config}
use put_in_pipe.Chunk.{Chunk}
use put_in_pipe.Buffer.Delivery.{held}
use put_in_pipe.Buffer.Small.{Small, run-Small}
use put_in_pipe.Startup.{max_memory}
use put_in_pipe.Session.{Session, ClientRef, new_session, init_timers}
use put_in_pipe.Session.History.{SessionCall, session_step}
use put_in_pipe.Session.Refinement.{session_step-ByCalls}
use put_in_pipe.SessionList.{SessionWithTimer}
use put_in_pipe.WsMessages.{Message}
use put_in_pipe.Http.Routes.{Environment}
use put_in_pipe.Http.Calls.{ServerCall, empty_server, server_run}
use put_in_pipe.Session.Delivery.{fresh_session}
use put_in_pipe.Http.EachSession.{server_run-EachSession}
use put_in_pipe.Http.Limits.{server_run-Valid}

abbrev SmallSession : Config → Session → Type 0
SmallSession cfg s = Small cfg s.buffer

step-Small :
    (cfg : Config) (alive : Bytes → Bool) (call : SessionCall) (s : Session)
    → SmallSession cfg s
    → SmallSession cfg (session_step cfg alive call s).0
step-Small cfg alive call s h =
    let (calls, _, by, _) = session_step-ByCalls cfg alive call s in
    subst (Small cfg) (sym by) (run-Small cfg calls s.buffer h)

fresh-Small :
    (cfg : Config) (now : ℕ) (creator : ClientRef) (auto_drop : Bool)
    → SmallSession cfg (fresh_session cfg creator creator.public_id auto_drop now)
unfolding new_session init_timers
fresh-Small cfg now creator auto_drop = (omega arith, tt)

-- The bytes of the chunks of all sessions.
unfoldable pub memory_held : List (Bytes × SessionWithTimer) → ℕ
memory_held [] = 0
memory_held ((id, entry) ∷ m) = held entry.session.buffer.chunks + memory_held m

held-le :
    (limit : ℕ) (m : List (ℕ × Chunk))
    → All (λ e. length e.1.bytes ≤ limit) m
    → held m ≤ length m * limit
unfolding held
held-le limit [] a = omega arith
held-le limit ((i, c) ∷ m) a = ground (arith, a.0, held-le limit m a.1)

session-le :
    (cfg : Config) (s : Session)
    → SmallSession cfg s
    → held s.buffer.chunks
      ≤ cfg.transfer_session_max_chunk_size * cfg.transfer_session_chunk_queue_max_size
session-le cfg s h =
    grind (arith, h.0, held-le cfg.transfer_session_max_chunk_size s.buffer.chunks h.1)

memory-le :
    (cfg : Config) (m : List (Bytes × SessionWithTimer))
    → All (λ e. Small cfg e.1.session.buffer) m
    → memory_held m
      ≤ length m * (cfg.transfer_session_max_chunk_size * cfg.transfer_session_chunk_queue_max_size)
unfolding memory_held
memory-le cfg [] a = omega arith
memory-le cfg ((id, entry) ∷ m) a =
    ground (arith, session-le cfg entry.session a.0, memory-le cfg m a.1)

-- From the empty server, after anything that happens to it, the chunks of all sessions together
-- take at most the memory that the log announces at the start, if that is computed without overflow
-- and the configuration allows a buffer at least one chunk.
pub server_run-memory :
    (env : Environment) (load : Bytes → Option Message) (cfg : Config) (cs : List ServerCall)
    → cfg.transfer_session_count_limit * cfg.transfer_session_max_chunk_size
        * cfg.transfer_session_chunk_queue_max_size
      < u64_mod
    → 0 < cfg.transfer_session_chunk_queue_max_size
    → memory_held (server_run env load cfg cs empty_server).sessions.sessions ≤ max_memory cfg
server_run-memory env load cfg cs small some_room =
    let sv = server_run env load cfg cs empty_server in
    let limit = cfg.transfer_session_count_limit in
    let chunk = cfg.transfer_session_max_chunk_size in
    let queue = cfg.transfer_session_chunk_queue_max_size in
    let bound = memory-le cfg sv.sessions.sessions (
      server_run-EachSession cfg (SmallSession cfg) (step-Small cfg) (fresh-Small cfg) env load
        cs) in
    let few = (server_run-Valid env load cfg cs).sessions.few in
    let regroup : limit * (chunk * queue) ≡ limit * chunk * queue =
      sym (mul_assoc limit chunk queue) in
    let more = mul-le-mul_right (chunk * queue) few in
    let part : limit * chunk < 18446744073709551616 =
      omega (arith, mul-le-mul_left (limit * chunk) some_room, small) in
    let inner : u64 (limit * chunk) ≡ limit * chunk = omega (arith, part) in
    let whole : max_memory cfg ≡ limit * chunk * queue = rw inner (omega (arith, small)) in
    omega (arith, bound, more, regroup, whole)
