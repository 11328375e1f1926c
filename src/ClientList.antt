-- ===== src/ClientList.antt =====
-- clientlist.h and clientlist.cpp: `ClientList`, the clients by their secret identifiers. Each operation
-- is one critical section. A removed client is returned: its destructor runs when the last reference
-- to it is gone. The random identifiers are outside.
pub mod Entries
use put_in_pipe.Common.{ℕ, List, [], ◌∷◌, length, Option, none, some, Bytes}
use put_in_pipe.Config.{Config}
use put_in_pipe.Keyed.{lookup, erase_key}
use put_in_pipe.Client.{Client, ClientEffect, new_client}

pub record ClientList : Type 0 where
  pub clients : List (Bytes × Client)

abbrev pub no_clients : ClientList
no_clients = record { clients = [] }

-- `none` is the null pointer; `sign` is `HashSignature::sign`.
unfoldable pub create_client :
    (Bytes → Bytes)
    → Config
    → ℕ
    → Bytes
    → ClientList
    → ClientList × List ClientEffect × Option Client
create_client sign cfg now token l =
    let made = new_client sign cfg now token in
    elim (lookup token l.clients) [
      | some there ↦ (l, [], none)
      | none ↦ (record { clients = (token, made.0) ∷ l.clients }, made.1, some made.0)
    ]

unfoldable pub get_client : Bytes → ClientList → Option Client
get_client token l = lookup token l.clients

abbrev pub client_count : ClientList → ℕ
client_count l = length l.clients

unfoldable pub remove_client : Bytes → ClientList → ClientList × Option Client
remove_client id l = elim (lookup id l.clients) [
  | none ↦ (l, none)
  | some client ↦ (record { clients = erase_key id l.clients }, some client)
]
