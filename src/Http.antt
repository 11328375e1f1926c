-- ===== src/Http.antt =====
-- webapi.cpp: what its handlers of HTTP requests have in common. A request is what they read of it,
-- and a response what they set; the content type goes with the kind of the body. crow reads requests
-- and JSON texts, and turns JSON values into text.
pub mod Info
pub mod Identity
pub mod Sessions
pub mod Chunks
pub mod Sockets
pub mod Routes
pub mod Access
pub mod Keeps
pub mod Handles
pub mod Limits
pub mod EachSession
pub mod Reached
pub mod Memory
pub mod Creation
pub mod Joining
pub mod Unknown
pub mod Admission
pub mod Captchas
pub mod Upload
pub mod Messages
pub mod Calls
pub mod Runs
use put_in_pipe.Common.{
  ℕ, Bool, List, [], Option, none, some, String, Bytes, is_empty, if◌then◌else◌,
}
use put_in_pipe.Json.{Json}
use put_in_pipe.Client.{Client}
use put_in_pipe.ClientList.{get_client}
use put_in_pipe.Server.{Server, ServerEffect}

-- `cookie` is the value of the cookie `putin`, empty where there is none. A parameter of the URL that
-- is missing is the null pointer.
pub record Request : Type 0 where
  pub cookie : Bytes
  pub url_param : String → Option Bytes
  pub body : Bytes
  pub remote_ip_address : Bytes

pub data Body : Type 0 where
  no_body : Body
  plain : String → Body
  json_body : Json → Body
  octets : Bytes → Body

-- `set_cookie` is the new client's identifier with its `Max-Age`.
pub record Response : Type 0 where
  pub code : ℕ
  pub body : Body
  pub set_cookie : Option (Bytes × ℕ)

abbrev pub answer : ℕ → Body → Response
answer code body = record { code = code; body = body; set_cookie = none }

-- The server after a request, the calls on other objects, and the response.
abbrev pub Reply : Type 0
Reply = Server × List ServerEffect × Response

abbrev pub reply : Server → ℕ → String → Reply
reply sv code text = (sv, [], answer code (plain text))

-- The client that the cookie names.
unfoldable pub identified : Request → Server → Option Client
identified req sv = if is_empty req.cookie then none else get_client req.cookie sv.clients

abbrev pub not_identified : Server → Reply
not_identified sv = reply sv 401 "You have not been identified"
