-- ===== src/SerializableEvent/Decode.antt =====
-- Reading the messages back: a receiver finds each field of an event by its key, as the pages of the
-- web interface do, and not by its place.
use put_in_pipe.Common.{
  ℕ, ◌≡◌, refl, Bool, true, false, List, [], ◌∷◌, Option, none, some, String, Bytes, codes,
  bytes_discrete, if◌then◌else◌,
}
use put_in_pipe.Json.{
  Json, null, bool, num, text, arr, obj, Fields, end, field, Items, nil, cons, items,
}
use put_in_pipe.Session.{CompleteType, ok, timeout, sender_is_gone, no_receivers}
use put_in_pipe.SerializableEvent.{
  ServerEvent, online, name_changed, new_receiver, receiver_removed, file_info_updated,
  chunk_download, new_chunk_available, chunks_removed, upload_finished, session_complete, kicked,
  total_bytes_count, new_chunk_is_allowed, chunks_are_unfrozen, personal_received_updated,
  adding_chunk_failure, set_file_info_failure, get_chunk_failure, unknown_action, json,
}

infixl 5 ◌>>=◌
abbrev ◌>>=◌ {ℓ κ} : {A : Type ℓ} {B : Type κ} → Option A → (A → Option B) → Option B
none >>= f = none
some a >>= f = f a

is_text : Bytes → String → Bool
is_text t name = elim (bytes_discrete t (codes name)) [ yes _ ↦ true | no _ ↦ false ]

-- The value at a key: the first one.
at_key : String → Fields → Option Json
unfolding is_text
at_key k end = none
at_key k (field j v fs) = elim (is_text (codes j) k) [ true ↦ some v | false ↦ at_key k fs ]

as_text : Json → Option Bytes
as_text (text t) = some t
as_text _ = none

as_num : Json → Option ℕ
as_num (num n) = some n
as_num _ = none

as_bool : Json → Option Bool
as_bool (bool b) = some b
as_bool _ = none

-- A list with no elements is null.
as_list : Json → Option Items
as_list null = some nil
as_list (arr list) = some list
as_list _ = none

as_fields : Json → Option Fields
as_fields (obj fs) = some fs
as_fields _ = none

numbers : Items → Option (List ℕ)
unfolding as_num
numbers nil = some []
numbers (cons v rest) = do n ← as_num v; ns ← numbers rest; some (n ∷ ns)

num_at : String → Fields → Option ℕ
unfolding at_key as_num
num_at k fs = do v ← at_key k fs; as_num v

text_at : String → Fields → Option Bytes
unfolding at_key as_text
text_at k fs = do v ← at_key k fs; as_text v

bool_at : String → Fields → Option Bool
unfolding at_key as_bool
bool_at k fs = do v ← at_key k fs; as_bool v

list_at : String → Fields → Option Items
unfolding at_key as_list
list_at k fs = do v ← at_key k fs; as_list v

pairs : Items → Option (List (ℕ × ℕ))
unfolding as_fields num_at
pairs nil = some []
pairs (cons v rest) = do
  fs ← as_fields v
  i ← num_at "index" fs
  n ← num_at "size" fs
  ps ← pairs rest
  some ((i, n) ∷ ps)

status_of : Bytes → Option CompleteType
unfolding is_text
status_of t =
    if is_text t "ok"
    then some ok
    else if is_text t "timeout"
    then some timeout
    else if is_text t "sender_is_gone"
    then some sender_is_gone
    else if is_text t "no_receivers"
    then some no_receivers
    else none

-- Which of two texts.
either : String → String → Bytes → Option Bool
unfolding is_text
either yes_text no_text t =
    if is_text t yes_text then some true else if is_text t no_text then some false else none

-- The events about clients and files.
decode_client : Bytes → Fields → Option ServerEvent
unfolding is_text text_at bool_at num_at
decode_client name fs =
    if is_text name "online"
    then (do id ← text_at "id" fs; b ← bool_at "status" fs; some (online id b))
    else if is_text name "name_changed"
    then (do id ← text_at "id" fs; t ← text_at "name" fs; some (name_changed id t))
    else if is_text name "new_receiver"
    then (do id ← text_at "id" fs; t ← text_at "name" fs; some (new_receiver id t))
    else if is_text name "receiver_removed"
    then (do id ← text_at "id" fs; some (receiver_removed id))
    else if is_text name "file_info"
    then (do t ← text_at "name" fs; n ← num_at "size" fs; some (file_info_updated t n))
    else if is_text name "kicked"
    then some kicked
    else if is_text name "personal_received"
    then (do n ← num_at "bytes" fs; some (personal_received_updated n))
    else if is_text name "unknown_action"
    then (do t ← text_at "name" fs; some (unknown_action t))
    else none

-- The events about chunks.
decode_chunk : Bytes → Fields → Option ServerEvent
unfolding is_text text_at bool_at num_at list_at numbers pairs either
decode_chunk name fs =
    if is_text name "chunk_download"
    then (do
      id ← text_at "id" fs
      i ← num_at "index" fs
      t ← text_at "action" fs
      b ← either "started" "finished" t
      some (chunk_download id i b))
    else if is_text name "new_chunk"
    then (do i ← num_at "index" fs; n ← num_at "size" fs; some (new_chunk_available i n))
    else if is_text name "chunk_removed"
    then (do list ← list_at "id" fs; ns ← numbers list; some (chunks_removed ns))
    else if is_text name "requested_chunk_not_found"
    then (do list ← list_at "available" fs; ps ← pairs list; some (get_chunk_failure ps))
    else if is_text name "new_chunk_allowed"
    then (do b ← bool_at "status" fs; some (new_chunk_is_allowed b))
    else none

-- The other events.
decode_session : Bytes → Fields → Option ServerEvent
unfolding is_text text_at num_at status_of either
decode_session name fs =
    if is_text name "complete"
    then (do t ← text_at "status" fs; type ← status_of t; some (session_complete type))
    else if is_text name "bytes_count"
    then (do
      n ← num_at "value" fs
      t ← text_at "direction" fs
      b ← either "from_sender" "to_receivers" t
      some (total_bytes_count n b))
    else if is_text name "upload_finished"
    then some upload_finished
    else if is_text name "chunks_unfrozen"
    then some chunks_are_unfrozen
    else if is_text name "add_chunk_failure"
    then some adding_chunk_failure
    else if is_text name "set_file_info_failure"
    then some set_file_info_failure
    else none

first_of : Option ServerEvent → Option ServerEvent → Option ServerEvent
first_of none b = b
first_of (some e) b = some e

unfoldable pub decode : Json → Option ServerEvent
unfolding text_at at_key as_fields first_of decode_client decode_chunk decode_session
decode j = do
  message ← as_fields j
  name ← text_at "event" message
  body ← at_key "data" message
  fs ← as_fields body
  first_of (decode_client name fs) (first_of (decode_chunk name fs) (decode_session name fs))

numbers-items : (ns : List ℕ) → numbers (items num ns) ≡ some ns
unfolding numbers
numbers-items [] = refl
numbers-items (n ∷ ns) = rw (numbers-items ns)

abbrev chunk_info : ℕ × ℕ → Json
chunk_info info = obj (field "index" (num info.0) (field "size" (num info.1) end))

pairs-items : (ps : List (ℕ × ℕ)) → pairs (items chunk_info ps) ≡ some ps
unfolding pairs bytes_discrete
pairs-items [] = refl
pairs-items (p ∷ ps) = rw (pairs-items ps)

-- Every message can be read back by a receiver that knows the name of each event and the key and the
-- kind of each of its fields: it gets the event and its fields, for any identifiers, names, sizes and
-- lists.
pub decode-json : (e : ServerEvent) → decode (json e) ≡ some e
unfolding decode json bytes_discrete
decode-json (online id connected) = refl
decode-json (name_changed id name) = refl
decode-json (new_receiver id name) = refl
decode-json (receiver_removed id) = refl
decode-json (file_info_updated name size) = refl
decode-json (chunk_download id chunk_id true) = refl
decode-json (chunk_download id chunk_id false) = refl
decode-json (new_chunk_available chunk_id size) = refl
decode-json (chunks_removed []) = refl
decode-json (chunks_removed (n ∷ ns)) = rw (numbers-items ns)
decode-json upload_finished = refl
decode-json (session_complete ok) = refl
decode-json (session_complete timeout) = refl
decode-json (session_complete sender_is_gone) = refl
decode-json (session_complete no_receivers) = refl
decode-json kicked = refl
decode-json (total_bytes_count value true) = refl
decode-json (total_bytes_count value false) = refl
decode-json (new_chunk_is_allowed status) = refl
decode-json chunks_are_unfrozen = refl
decode-json (personal_received_updated bytes) = refl
decode-json adding_chunk_failure = refl
decode-json set_file_info_failure = refl
decode-json (get_chunk_failure []) = refl
decode-json (get_chunk_failure (p ∷ ps)) = rw (pairs-items ps)
decode-json (unknown_action action) = refl
