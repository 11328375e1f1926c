-- ===== src/Tests.antt =====
-- Concrete inputs: the values that the tests share. The children apply the theorems to them.
mod Parts
mod Buffers
mod Sessions
mod Flows
mod Clients
mod Messages
mod Lists
mod Tokens
mod Requests
mod Completions
mod Servers
mod Joins
use put_in_pipe.Common.{ℕ, Bool, true, List, [], ◌∷◌, Bytes, codes, none, some}
use put_in_pipe.Config.{Config}
use put_in_pipe.Session.{ClientRef}
use put_in_pipe.Session.History.{
  SessionCall, sets_file_info, adds_receiver, adds_chunk, drops_freeze, confirms_chunk,
}
use put_in_pipe.Buffer.History.{Call, adds, joins, unfreezes, confirms}

-- Three chunks of at most four bytes, and two consumers.
abbrev pub small : Config
small = record {
  log_level = codes "info";
  address = codes "0.0.0.0";
  port = 2233;
  api_max_client_count = 2;
  api_without_captcha_threshold = 2;
  api_captcha_lifetime = 180;
  client_timeout = 60;
  transfer_session_count_limit = 2;
  transfer_session_max_chunk_size = 4;
  transfer_session_max_initial_freeze_duration = 120;
  transfer_session_chunk_queue_max_size = 3;
  transfer_session_max_consumer_count = 2;
  transfer_session_max_lifetime = 7200;
}

abbrev pub sender : ClientRef
sender = record { id = 1 ∷ []; public_id = 11 ∷ [] }

abbrev pub receiver : ClientRef
receiver = record { id = 2 ∷ []; public_id = 12 ∷ [] }

abbrev pub other : ClientRef
other = record { id = 3 ∷ []; public_id = 13 ∷ [] }

abbrev pub everyone : Bytes → Bool
everyone id = true

-- Two uploads with one consumer, in the initial freeze.
abbrev pub two_uploads : List Call
two_uploads = joins (12 ∷ []) ∷ adds (5 ∷ 6 ∷ []) ∷ adds (7 ∷ []) ∷ []

-- Two consumers after the freeze; one of them confirmed the first chunk.
abbrev pub half_confirmed : List Call
half_confirmed = joins (12 ∷ []) ∷ joins (13 ∷ []) ∷ adds (5 ∷ 6 ∷ []) ∷ unfreezes ∷ confirms 1 ∷ []

abbrev pub session_calls : List ((Bytes → Bool) × SessionCall)
session_calls =
    (everyone, sets_file_info (record { name = codes "f"; size = 3 }))
    ∷ (everyone, adds_receiver (some receiver))
    ∷ (everyone, adds_chunk (5 ∷ 6 ∷ []))
    ∷ (everyone, adds_chunk (7 ∷ []))
    ∷ []

-- Two receivers after the freeze, one chunk in the buffer.
abbrev pub unfrozen_calls : List ((Bytes → Bool) × SessionCall)
unfrozen_calls =
    (everyone, sets_file_info (record { name = codes "f"; size = 3 }))
    ∷ (everyone, adds_receiver (some receiver))
    ∷ (everyone, adds_receiver (some other))
    ∷ (everyone, adds_chunk (5 ∷ 6 ∷ []))
    ∷ (everyone, drops_freeze)
    ∷ []
