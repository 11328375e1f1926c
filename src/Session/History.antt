-- ===== src/Session/History.antt =====
-- Sequences of calls of a session, and beside the session the data of the chunks that it took in.
use put_in_pipe.Common.{ℕ, Bool, List, [], ◌∷◌, ◌++◌, Option, if◌then◌else◌, Bytes}
use put_in_pipe.Config.{Config}
use put_in_pipe.Session.{Session, ClientRef, FileInfo, Effect, manual_terminate, set_timedout}
use put_in_pipe.Session.Info.{set_file_info}
use put_in_pipe.Session.Freeze.{drop_initial_chunks_freeze, session_set_end_of_file}
use put_in_pipe.Session.Chunks.{session_add_chunk, session_get_chunk, session_set_chunk_as_received}
use put_in_pipe.Session.Receivers.{add_receiver, remove_receiver, update_destroyed}

pub data SessionCall : Type 0 where
  adds_receiver : Option ClientRef → SessionCall
  removes_receiver : Bytes → SessionCall
  sets_file_info : FileInfo → SessionCall
  adds_chunk : Bytes → SessionCall
  gets_chunk : ℕ → Option ClientRef → SessionCall
  confirms_chunk : ℕ → Option ClientRef → SessionCall
  ends_file : SessionCall
  drops_freeze : SessionCall
  terminates : SessionCall
  times_out : SessionCall
  client_destroyed : Bytes → SessionCall

-- The state and the calls on other objects after one call, with the clients that exist during it.
unfoldable pub session_step :
    Config → (Bytes → Bool) → SessionCall → Session → Session × List Effect
session_step cfg alive (adds_receiver client) s =
    ((add_receiver alive cfg client s).0, (add_receiver alive cfg client s).1)
session_step cfg alive (removes_receiver public_id) s = remove_receiver alive public_id s
session_step cfg alive (sets_file_info info) s =
    ((set_file_info info s).0, (set_file_info info s).1)
session_step cfg alive (adds_chunk d) s =
    ((session_add_chunk cfg d s).0, (session_add_chunk cfg d s).1)
session_step cfg alive (gets_chunk index client) s =
    ((session_get_chunk index client s).0, (session_get_chunk index client s).1)
session_step cfg alive (confirms_chunk index client) s =
    session_set_chunk_as_received cfg index client s
session_step cfg alive ends_file s = session_set_end_of_file s
session_step cfg alive drops_freeze s = drop_initial_chunks_freeze cfg s
session_step cfg alive terminates s = manual_terminate s
session_step cfg alive times_out s = (set_timedout s, [])
session_step cfg alive (client_destroyed public_id) s = update_destroyed alive public_id s

unfoldable pub session_run : Config → List ((Bytes → Bool) × SessionCall) → Session → Session
session_run cfg [] s = s
session_run cfg ((alive, c) ∷ cs) s = session_run cfg cs (session_step cfg alive c s).0

-- The data of the chunks that the session took in: `addChunk` answered true.
unfoldable pub session_uploads : Config → SessionCall → Session → List Bytes → List Bytes
session_uploads cfg (adds_chunk d) s ups =
    if (session_add_chunk cfg d s).2 then ups ++ d ∷ [] else ups
session_uploads cfg _ s ups = ups

unfoldable pub session_uploaded :
    Config → List ((Bytes → Bool) × SessionCall) → Session → List Bytes → List Bytes
session_uploaded cfg [] s ups = ups
session_uploaded cfg ((alive, c) ∷ cs) s ups =
    session_uploaded cfg cs (session_step cfg alive c s).0 (session_uploads cfg c s ups)
